-- ===== src/RpcClient.antt =====
-- core/src/network/rpc/client.rs, with the list of nodes of core/src/network/rpc.rs: connections to
-- the nodes, the check of their genesis hash, and calls that are tried again on other nodes. Hosts and
-- texts are numbers. Logging is not modelled, and nor are the streams and the single calls.
pub mod Trust
pub mod Calls
mod Examples
use avail_light.Prelude.{
  ℕ, Bool, true, false, not, Option, some, none, List, [], ◌∷◌, ◌++◌, ◌==◌, if◌then◌else◌, leb,
  length, retain, Result, ok, err,
}
use avail_light.Types.Header.{H256}

pub record Node : Type 0 where
  pub host : ℕ
  pub system_version : ℕ
  pub spec_version : ℕ
  pub genesis_hash : H256

pub data GenesisHash : Type 0 where
  dev : GenesisHash
  hash : H256 → GenesisHash

unfoldable pub matches : GenesisHash → H256 → Bool
matches dev other = true
matches (hash h) other = h == other

-- On which client a call is tried.
pub data Phase : Type 0 where
  initial current_client new_nodes previous_nodes : Phase

-- How a retry strategy ends: with a result, with the last error, or by the shutdown.
pub data Retried (A : Type 0) : Type 0 where
  done : A → Retried A
  exhausted cancelled : Retried A

-- `with_cancel` of `Retry::spawn` in a phase, on the attempts by their numbers; what a host answers to
-- a connection at an attempt; the order drawn by `shuffle`; `starts_with` of the development flag and
-- the bytes of a hexadecimal text.
pub record RpcLib : Type 1 where
  pub spawn : {A : Type 0} → Phase → (ℕ → Option A) → Retried A
  pub connect : Phase → ℕ → ℕ → Option (ℕ × ℕ × H256)
  pub shuffled : List Node → List Node
  pub is_dev_flag : ℕ → Bool
  pub bytes_of : ℕ → Option H256

pub data RpcEvent : Type 0 where
  initial_connection switched_connection : ℕ → RpcEvent

pub data RetryError : Type 0 where
  no_previous_node connection_failed shutdown_started no_receiver : RetryError

-- The client's node, the node in the database, and the events sent.
pub record ClientState : Type 0 where
  pub subxt_client : Node
  pub rpc_node : Option Node
  pub events : List RpcEvent

pub record ConnectionAttempt (T : Type 0) : Type 0 where
  pub node : Node
  pub result : T

-- The other nodes in some order, and those of the host.
unfoldable pub shuffle : (List Node → List Node) → ℕ → List Node → List Node × List Node
shuffle shuffled current_host nodes = if leb (length nodes) 1 then (nodes, []) else (
  shuffled (retain (λ n. not (n.host == current_host)) nodes),
  retain (λ n. n.host == current_host) nodes,
)

module _ (lib : RpcLib) where
  unfoldable pub from_hex : ℕ → Option GenesisHash
  from_hex text =
      if lib.is_dev_flag text
      then some dev
      else elim (lib.bytes_of text) [ none ↦ none | some h ↦ some (hash h) ]

  module _ (expected_genesis_hash : ℕ) where
    unfoldable pub create_rpc_client : Phase → ℕ → ℕ → Option Node
    unfolding from_hex matches
    create_rpc_client phase attempt host = elim (lib.connect phase attempt host) [
      | none ↦ none
      | some (system_version, spec_version, genesis_hash) ↦ elim (from_hex expected_genesis_hash) [
        | none ↦ none
        | some expected_hash ↦
            if matches expected_hash genesis_hash
            then some (record {
              host = host;
              system_version = system_version;
              spec_version = spec_version;
              genesis_hash = genesis_hash;
            })
            else none
      ]
    ]

    module _ {T : Type 0} (f : Phase → ℕ → Node → Option T) where
      unfoldable pub try_node_connection_and_exec : Phase → ℕ → Node → Option (ConnectionAttempt T)
      unfolding create_rpc_client
      try_node_connection_and_exec phase attempt n = elim (create_rpc_client phase attempt n.host) [
        | none ↦ none
        | some node ↦ elim (f phase attempt node) [
          | none ↦ none
          | some result ↦ some (record { node = node; result = result })
        ]
      ]

      -- The first of the nodes that connects and answers.
      unfoldable pub try_connect_and_execute : Phase → List Node → ℕ → Option (ConnectionAttempt T)
      unfolding try_node_connection_and_exec
      try_connect_and_execute phase [] attempt = none
      try_connect_and_execute phase (n ∷ nodes) attempt =
          let rest = try_connect_and_execute phase nodes attempt in
          elim (try_node_connection_and_exec phase attempt n) [ none ↦ rest | some a ↦ some a ]

      -- Nothing is switched if the event has no receiver.
      unfoldable pub try_nodes_with_retries :
          Bool → Phase → List Node → ClientState → Result RetryError T × ClientState
      unfolding try_connect_and_execute
      try_nodes_with_retries listening phase nodes s =
          elim (lib.spawn phase (try_connect_and_execute phase nodes)) [
            | exhausted ↦ (err connection_failed, s)
            | cancelled ↦ (err shutdown_started, s)
            | done a ↦
                if listening
                then (
                  ok a.result,
                  record {
                    subxt_client = a.node;
                    rpc_node = some a.node;
                    events = s.events ++ switched_connection a.node.host ∷ [];
                  },
                )
                else (err no_receiver, s)
          ]

      unfoldable pub try_with_current_client : ClientState → Result RetryError T
      try_with_current_client s =
          elim (lib.spawn current_client (λ attempt. f current_client attempt s.subxt_client)) [
            | done result ↦ ok result
            | exhausted ↦ err connection_failed
            | cancelled ↦ err shutdown_started
          ]

      unfoldable pub with_retries :
          Bool → List Node → ClientState → Result RetryError T × ClientState
      unfolding try_with_current_client shuffle try_nodes_with_retries
      with_retries listening nodes s = elim (try_with_current_client s) [
        | ok result ↦ (ok result, s)
        | err _ ↦ elim s.rpc_node [
          | none ↦ (err no_previous_node, s)
          | some connected ↦
              let (others, previous) = shuffle lib.shuffled connected.host nodes in
              let first = try_nodes_with_retries listening new_nodes others s in
              elim first.0 [
                | ok result ↦ first
                | err _ ↦ try_nodes_with_retries listening previous_nodes previous first.1
              ]
        ]
      ]

    abbrev pub nothing : Phase → ℕ → Node → Option (Unit {0})
    nothing phase attempt node = some tt

    -- `attempt_connection`, which fails if the event has no receiver, so that it is tried again.
    unfoldable pub attempt_connection : Bool → List Node → ℕ → Option (ConnectionAttempt (Unit {0}))
    unfolding try_connect_and_execute
    attempt_connection listening nodes attempt =
        elim (try_connect_and_execute nothing initial nodes attempt) [
          | none ↦ none
          | some a ↦ if listening then some a else none
        ]

    -- `Client::new`, on the host of a default text.
    unfoldable pub new : Bool → ℕ → List Node → Result RetryError ClientState
    unfolding attempt_connection shuffle
    new listening default_host nodes =
        let (available, _) = shuffle lib.shuffled default_host nodes in
        elim (lib.spawn initial (attempt_connection listening available)) [
          | exhausted ↦ err connection_failed
          | cancelled ↦ err shutdown_started
          | done a ↦ ok (record {
            subxt_client = a.node;
            rpc_node = some a.node;
            events = initial_connection a.node.host ∷ [];
          })
        ]

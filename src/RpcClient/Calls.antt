-- ===== src/RpcClient/Calls.antt =====
-- The calls of core/src/network/rpc/client.rs: who answers, and what they leave.
use avail_light.Prelude.{
  ℕ, ◌≡◌, refl, sym, subst, inl, inr, Bool, Option, some, List, [], ◌∷◌, ◌++◌, arith, In,
  Bool-cases, Option-cases, Result-cases, Result, ok, err,
}
use avail_light.RpcClient.{
  Node, Phase, current_client, new_nodes, previous_nodes, initial, RpcLib, switched_connection,
  RetryError, ClientState, ConnectionAttempt, shuffle, try_connect_and_execute,
  try_nodes_with_retries, try_with_current_client, with_retries, nothing, attempt_connection, new,
}
use avail_light.RpcClient.Trust.{
  Retried-cases, IsSpawn, IsShuffle, IsTrusted, IsConnected, smaller-IsTrusted,
  try_connect_and_execute-IsTrusted, try_nodes_with_retries-Switched,
  try_with_current_client-answered, shuffle-In,
}

module _ (lib : RpcLib) (expected_genesis_hash : ℕ) where
  smaller-IsConnected :
      (ns nodes : List Node) (s : ClientState)
      → ((x : Node) → In x ns → In x nodes)
      → IsConnected lib expected_genesis_hash ns s
      → IsConnected lib expected_genesis_hash nodes s
  smaller-IsConnected ns nodes s h v = record {
    trusted = smaller-IsTrusted lib expected_genesis_hash ns nodes s.subxt_client h v.trusted;
    stored = v.stored;
  }

  module _ {T : Type 0} (f : Phase → ℕ → Node → Option T) where
    -- What a call that is answered or not leaves.
    pub data Call (nodes : List Node) (s : ClientState)
        : Result RetryError T → ClientState → Type 0 where
      kept : (x : T) (i : ℕ) → f current_client i s.subxt_client ≡ some x → Call nodes s (ok x) s
      moved :
          (x : T) (s' : ClientState) (phase : Phase) (i : ℕ)
          → IsConnected lib expected_genesis_hash nodes s'
          → f phase i s'.subxt_client ≡ some x
          → s'.events ≡ s.events ++ switched_connection s'.subxt_client.host ∷ []
          → Call nodes s (ok x) s'
      refused : (e : RetryError) → Call nodes s (err e) s

    tried :
        (listening : Bool) (phase : Phase) (ns nodes : List Node) (s : ClientState)
        → IsSpawn lib
        → ((x : Node) → In x ns → In x nodes)
        → Call nodes s
            (try_nodes_with_retries lib expected_genesis_hash f listening phase ns s).0
            (try_nodes_with_retries lib expected_genesis_hash f listening phase ns s).1
    tried listening phase ns nodes s v h =
        let r = try_nodes_with_retries lib expected_genesis_hash f listening phase ns s in
        elim (try_nodes_with_retries-Switched lib expected_genesis_hash f listening phase ns s r.1
          r.0 v refl) [
            | inl (x, e, w) ↦
                subst (λ q. Call nodes s q r.1) (sym e)
                  (moved x r.1 phase w.attempt (smaller-IsConnected ns nodes r.1 h w.connected)
                    w.answered w.announced)
            | inr (x, e, i) ↦
                subst (λ q. Call nodes s q r.1) (sym e)
                  (subst (λ q. Call nodes s (err x) q) (sym i) (refused x))
          ]

    -- A call that gives a result has it from the node that the client was connected to, and then
    -- nothing changes; or from a node of the list with the expected genesis hash, and then the client
    -- is connected to that node, which is in the database and was announced. A call that fails changes
    -- nothing.
    pub with_retries-Call :
        (listening : Bool) (nodes : List Node) (s : ClientState)
        → IsSpawn lib
        → IsShuffle lib
        → Call nodes s
            (with_retries lib expected_genesis_hash f listening nodes s).0
            (with_retries lib expected_genesis_hash f listening nodes s).1
    unfolding with_retries
    with_retries-Call listening nodes s v u =
        elim (Result-cases (try_with_current_client lib expected_genesis_hash f s)) [
          | inl (x, e) ↦
              let (i, g) = try_with_current_client-answered lib expected_genesis_hash f s x v e in
              by (ground arith) (kept x i g)
          | inr (y, e) ↦ elim (Option-cases s.rpc_node) [
            | inl d ↦ by (ground arith) (refused RetryError.no_previous_node)
            | inr (c, d) ↦
                let pair : List Node × List Node = shuffle lib.shuffled c.host nodes in
                let first : Result RetryError T × ClientState =
                  try_nodes_with_retries lib expected_genesis_hash f listening new_nodes pair.0 s in
                let second : Result RetryError T × ClientState =
                  try_nodes_with_retries lib expected_genesis_hash f listening previous_nodes pair.1
                    s in
                elim (try_nodes_with_retries-Switched lib expected_genesis_hash f listening
                  new_nodes pair.0 s first.1 first.0 v refl) [
                    | inl (x, g, w) ↦ by {r = first} (ground arith) (
                        tried listening new_nodes pair.0 nodes s v
                          (λ z m. shuffle-In lib expected_genesis_hash f c.host nodes z u (inl m)))
                    | inr (x, g, i) ↦ by {r = second} (ground arith) (
                        tried listening previous_nodes pair.1 nodes s v
                          (λ z m. shuffle-In lib expected_genesis_hash f c.host nodes z u (inr m)))
                  ]
          ]
        ]
      where
        by :
            {r : Result RetryError T × ClientState}
            → with_retries lib expected_genesis_hash f listening nodes s ≡ r
            → Call nodes s r.0 r.1
            → Call nodes s
                (with_retries lib expected_genesis_hash f listening nodes s).0
                (with_retries lib expected_genesis_hash f listening nodes s).1
        by e c = subst (λ z. Call nodes s z.0 z.1) (sym e) c

    -- The states after some calls, one after the other.
    Call-IsConnected :
        (nodes : List Node) (s s' : ClientState) (r : Result RetryError T)
        → IsConnected lib expected_genesis_hash nodes s
        → Call nodes s r s'
        → IsConnected lib expected_genesis_hash nodes s'
    Call-IsConnected nodes s s' r v (kept x i g) = v
    Call-IsConnected nodes s s' r v (moved x q phase i w g a) = w
    Call-IsConnected nodes s s' r v (refused e) = v

  -- The state after calls, each of which is a function with its receiver.
  unfoldable pub after_calls :
      {T : Type 0}
      → List Node
      → List ((Phase → ℕ → Node → Option T) × Bool)
      → ClientState
      → ClientState
  unfolding with_retries
  after_calls nodes [] s = s
  after_calls nodes ((f, listening) ∷ fs) s =
      after_calls nodes fs (with_retries lib expected_genesis_hash f listening nodes s).1

  calls-IsConnected :
      {T : Type 0} (nodes : List Node) (fs : List ((Phase → ℕ → Node → Option T) × Bool))
      (s : ClientState)
      → IsSpawn lib
      → IsShuffle lib
      → IsConnected lib expected_genesis_hash nodes s
      → IsConnected lib expected_genesis_hash nodes (after_calls nodes fs s)
  unfolding after_calls
  calls-IsConnected nodes [] s v u c = c
  calls-IsConnected nodes ((f, listening) ∷ fs) s v u c =
      let r = with_retries lib expected_genesis_hash f listening nodes s in
      calls-IsConnected nodes fs r.1 v u
        (Call-IsConnected f nodes s r.1 r.0 c (with_retries-Call f listening nodes s v u))

  attempt_connection-answered :
      (listening : Bool) (nodes : List Node) (i : ℕ) (a : ConnectionAttempt (Unit {0}))
      → attempt_connection lib expected_genesis_hash listening nodes i ≡ some a
      → try_connect_and_execute lib expected_genesis_hash
          (nothing lib expected_genesis_hash)
          initial
          nodes
          i
        ≡ some a
  unfolding attempt_connection
  attempt_connection-answered listening nodes i a h =
      elim (Option-cases (
        try_connect_and_execute lib expected_genesis_hash (nothing lib expected_genesis_hash)
          initial nodes i)) [
            | inl e ↦ ground arith
            | inr (b, e) ↦ elim (Bool-cases listening) [
              | inl k ↦ ground arith
              | inr k ↦ ground arith
            ]
          ]

  -- A client that is created and then used for any calls, in any order and with any answers, is always
  -- connected to a node of its list whose genesis hash is the expected one, and this node is in the
  -- database.
  pub after_calls-IsConnected :
      {T : Type 0} (listening : Bool) (default_host : ℕ) (nodes : List Node)
      (fs : List ((Phase → ℕ → Node → Option T) × Bool)) (s : ClientState)
      → IsSpawn lib
      → IsShuffle lib
      → new lib expected_genesis_hash listening default_host nodes ≡ ok s
      → IsConnected lib expected_genesis_hash nodes (after_calls nodes fs s)
  unfolding new
  after_calls-IsConnected listening default_host nodes fs s v u h =
      let available : List Node = (shuffle lib.shuffled default_host nodes).0 in
      elim (Retried-cases
        (lib.spawn initial (attempt_connection lib expected_genesis_hash listening available))) [
          | inr (inl e) ↦ ground arith
          | inr (inr e) ↦ ground arith
          | inl (a, e) ↦
              let (i, g) =
                v (ConnectionAttempt (Unit {0})) initial
                  (attempt_connection lib expected_genesis_hash listening available) a e in
              let (t, w) =
                try_connect_and_execute-IsTrusted lib expected_genesis_hash
                  (nothing lib expected_genesis_hash) initial available i a
                  (attempt_connection-answered listening available i a g) in
              calls-IsConnected nodes fs s v u (record {
                trusted =
                    subst (λ z. IsTrusted lib expected_genesis_hash nodes z) (ground arith)
                      (smaller-IsTrusted lib expected_genesis_hash available nodes a.node
                        (λ x m.
                          shuffle-In lib expected_genesis_hash (nothing lib expected_genesis_hash)
                            default_host nodes x u (inl m))
                        t);
                stored = ground arith;
              })
        ]

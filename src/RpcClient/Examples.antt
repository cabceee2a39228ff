-- ===== src/RpcClient/Examples.antt =====
-- Four nodes, of which the first is down and the third has another genesis hash; each strategy makes
-- two attempts.
use avail_light.Prelude.{
  ℕ, ◌≡◌, refl, true, Option, some, none, List, [], ◌∷◌, ◌==◌, if◌then◌else◌, arith,
}
use avail_light.RpcClient.{
  Node, matches, Phase, Retried, done, exhausted, RpcLib, initial_connection, ClientState, shuffle,
  from_hex, create_rpc_client, try_node_connection_and_exec, try_connect_and_execute, with_retries,
  attempt_connection, new,
}
use avail_light.RpcClient.Trust.{IsSpawn, IsShuffle, IsConnected}
use avail_light.RpcClient.Calls.{Call, with_retries-Call, after_calls, after_calls-IsConnected}

abbrev second_try : {A : Type 0} → Option A → Retried A
second_try none = exhausted
second_try (some a) = done a

abbrev two_tries : {A : Type 0} → Option A → Option A → Retried A
two_tries none b = second_try b
two_tries (some a) b = done a

abbrev answers : ℕ → Option (ℕ × ℕ × ℕ)
answers host = if host == 1 then none else if host == 3 then some (1, 1, 8) else some (1, 1, 7)

abbrev lib : RpcLib
lib = record {
  spawn = λ phase f. two_tries (f 0) (f 1);
  connect = λ phase attempt host. answers host;
  shuffled = λ ns. ns;
  is_dev_flag = λ t. t == 0;
  bytes_of = λ t. some t;
}

abbrev node_at : ℕ → Node
node_at host = record { host = host; system_version = 1; spec_version = 1; genesis_hash = 7 }

abbrev nodes : List Node
nodes = node_at 1 ∷ node_at 2 ∷ node_at 3 ∷ node_at 4 ∷ []

second_try-done : {A : Type 0} (o : Option A) (a : A) → second_try o ≡ done a → o ≡ some a
second_try-done none a h = ground arith
second_try-done (some b) a h = ground arith

two_tries-done :
    {A : Type 0} (f : ℕ → Option A) (o : Option A) (a : A)
    → o ≡ f 0
    → two_tries o (f 1) ≡ done a
    → (i : ℕ) × (f i ≡ some a)
two_tries-done f none a e h = (1, second_try-done (f 1) a h)
two_tries-done f (some b) a e h = (0, ground arith)

lib-IsSpawn : IsSpawn lib
lib-IsSpawn A phase f a h = two_tries-done f (f 0) a refl h

lib-IsShuffle : IsShuffle lib
lib-IsShuffle ns n m = m

abbrev created : ClientState
created = record {
  subxt_client = node_at 2;
  rpc_node = some (node_at 2);
  events = initial_connection 2 ∷ [];
}

-- The second node does not answer the call.
abbrev answered_by_fourth : Phase → ℕ → Node → Option ℕ
answered_by_fourth phase attempt n = if n.host == 4 then some 5 else none

after_calls-IsConnected_example :
    IsConnected lib 7 nodes (
      after_calls lib 7 nodes
        ((answered_by_fourth, true) ∷ (answered_by_fourth, true) ∷ [])
        created)
unfolding new attempt_connection try_connect_and_execute try_node_connection_and_exec
    create_rpc_client from_hex matches shuffle
after_calls-IsConnected_example =
    after_calls-IsConnected lib 7 true 9 nodes
      ((answered_by_fourth, true) ∷ (answered_by_fourth, true) ∷ []) created lib-IsSpawn
      lib-IsShuffle refl

with_retries-Call_example :
    Call lib 7 answered_by_fourth nodes created
      (with_retries lib 7 answered_by_fourth true nodes created).0
      (with_retries lib 7 answered_by_fourth true nodes created).1
with_retries-Call_example =
    with_retries-Call lib 7 answered_by_fourth true nodes created lib-IsSpawn lib-IsShuffle

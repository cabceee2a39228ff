-- ===== src/SyncClient/Examples.antt =====
-- A sync of two blocks with data, from nodes that have every header.
use avail_light.Prelude.{ℕ, ok, some, none, [], ◌∷◌, Option, arith}
use avail_light.Prelude.Assoc.{lookup}
use avail_light.Types.Header.{AvailHeader, H256}
use avail_light.Types.Samples.{numeric, at, full_header}
use avail_light.Data.Store.{empty}
use avail_light.LightClient.{NetworkClient}
use avail_light.SyncClient.{run}
use avail_light.SyncClient.Rounds.{IsKeyed, IsNumbered, CountOf, run-CountOf}

abbrev client : NetworkClient numeric
client = record {
  fetch_verified = λ n hash d commitments ps. ok (
    record { position = at 0 3; content = 11 ∷ [] } ∷ [],
    [],
    record { dht_fetched = 1; dht_fetched_percentage = 100; rpc_fetched = some 0 },
  );
  random_cells = λ d. at 0 3 ∷ [];
}

abbrev nodes : ℕ → Option (AvailHeader × H256)
nodes n = some (full_header n, n)

nodes-IsNumbered : IsNumbered client nodes
nodes-IsNumbered n h hash e = ground arith

empty-IsKeyed : IsKeyed {F = ℕ} empty
unfolding lookup
empty-IsKeyed n h e = ground arith

run-CountOf_example :
    CountOf client nodes 4 3 2 empty (run client nodes none 3 2 empty).0
    × IsKeyed (run client nodes none 3 2 empty).0
run-CountOf_example = run-CountOf client nodes none 3 2 4 empty nodes-IsNumbered empty-IsKeyed

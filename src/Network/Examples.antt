-- ===== src/Network/Examples.antt =====
-- Two cells of a block, one found in the DHT and one fetched from a node. A proof is the number of
-- the commitment.
use avail_light.Prelude.{ℕ, ◌≤◌, ◌≡◌, refl, true, some, List, [], ◌∷◌, ok, All}
use avail_light.Prelude.Chunks.{chunks}
use avail_light.Types.Samples.{at}
use avail_light.Network.Positions.{Distinct, contains_position}
use avail_light.Network.Samples.{sources, asked}
use avail_light.Network.Sift.{checks}
use avail_light.Network.{
  Cell, FetchStats, both, flatten, unfetched_of, zip_cells, fetch_cell_from_dht, fetch_chunks,
  fetch_cells_from_dht, request_kate_proof, tasks, results, partition, verify, sift,
  fetch_verified_from_dht, fetch_verified_from_rpc, inserted, stats, fetch_verified,
}
use avail_light.Network.Fetch.{fetch_verified_sound}

abbrev cells : List Cell
cells =
    record { position = at 0 3; content = 11 ∷ [] }
    ∷ record { position = at 1 2; content = 12 ∷ [] }
    ∷ []

abbrev statistics : FetchStats ℕ
statistics = record { dht_fetched = 1; dht_fetched_percentage = 1; rpc_fetched = some 1 }

asked-Distinct : Distinct asked
unfolding contains_position
asked-Distinct = (refl, (refl, tt))

fetched_both :
    (fetch_verified sources (2, 4) (11 ∷ 12 ∷ []) both true 0 asked).0 ≡ ok (cells, [], statistics)
unfolding fetch_verified fetch_verified_from_dht fetch_verified_from_rpc fetch_cells_from_dht
    request_kate_proof fetch_chunks fetch_cell_from_dht chunks flatten unfetched_of zip_cells sift
    verify tasks results partition contains_position inserted stats
fetched_both = refl

fetch_verified_sound_example :
    All (λ c. checks sources (2, 4) (11 ∷ 12 ∷ []) c ≡ true) cells
    × All (λ c. contains_position asked c.position ≡ true) cells
    × (2 ≤ 2)
fetch_verified_sound_example =
    fetch_verified_sound sources (2, 4) (11 ∷ 12 ∷ []) both true 0 asked [] cells statistics
      asked-Distinct fetched_both

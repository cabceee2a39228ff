-- ===== src/LightClient/Examples.antt =====
-- A run over a block with data and one without, with a network client that finds every cell.
use avail_light.Prelude.{ℕ, arith, ◌≡◌, refl, ◌⊎◌, some, List, [], ◌∷◌, ok, map, true, false}
use avail_light.Prelude.Assoc.{lookup}
use avail_light.Types.Block.{
  Extension, BlockVerified, block_num_of, option, extract_kate, extract_app_lookup, with_extension,
  try_from, calculate_confidence, is_flush_cycle,
}
use avail_light.Types.Samples.{numeric, at, full_header, bare_header}
use avail_light.Data.Store.{empty, put_dht_fetched_percentage}
use avail_light.LightClient.{
  NetworkClient, RpcEvent, connected_host, header_update, conclude, sample, process_block, run,
}
use avail_light.LightClient.Sampling.{IsAvailable, network_client, verified-IsAvailable}
use avail_light.Prelude.Chunks.{chunks}
use avail_light.Network.Positions.{contains_position}
use avail_light.Network.Samples.{sources, asked}
use avail_light.Network.{
  both, flatten, unfetched_of, zip_cells, fetch_cell_from_dht, fetch_chunks, fetch_cells_from_dht,
  request_kate_proof, tasks, results, partition, verify, sift, fetch_verified_from_dht,
  fetch_verified_from_rpc, inserted, stats, fetch_verified,
}
use avail_light.LightClient.Blocks.{Sampled, process_block-Sampled}
use avail_light.LightClient.Sequence.{IsHeaded, StoppedAt, run-IsHeaded, run_in_order}

abbrev client : NetworkClient numeric
client = record {
  fetch_verified = λ n hash d commitments ps. ok (
    record { position = at 0 3; content = 11 ∷ [] }
        ∷ record { position = at 1 2; content = 12 ∷ [] }
        ∷ [],
    [],
    record { dht_fetched = 2; dht_fetched_percentage = 100; rpc_fetched = some 0 },
  );
  random_cells = λ d. at 0 3 ∷ at 1 2 ∷ [];
}

abbrev extension : Extension numeric
extension = record { lookup = 2; commitments = 11 ∷ 12 ∷ []; dimensions = (2, 4) }

abbrev converted : ℕ → BlockVerified numeric
converted confidence = record {
  header_hash = 7;
  block_num = 7;
  extension = some extension;
  confidence = some confidence;
  target_grid_dimensions = some (2, 4);
}

process_block-Sampled_example :
    Sampled client 99
      (full_header 7)
      empty
      (process_block client 99 (full_header 7) empty).db
      (converted 75)
unfolding process_block sample conclude try_from extract_kate option extract_app_lookup
    with_extension calculate_confidence put_dht_fetched_percentage is_flush_cycle
process_block-Sampled_example =
    process_block-Sampled client 99 (full_header 7) empty (converted 75) refl

abbrev received : List RpcEvent
received = connected_host ∷ header_update (bare_header 6) 1 ∷ header_update (full_header 7) 1 ∷ []

empty-IsHeaded : IsHeaded {F = ℕ} empty
unfolding lookup
empty-IsHeaded = record {
  counted = λ n c e. absurd (ground arith);
  reached = λ r e. absurd (ground arith);
}

run-IsHeaded_example : IsHeaded (run client 99 (some 3) received empty).db
run-IsHeaded_example = run-IsHeaded client 99 (some 3) received empty empty-IsHeaded

run_in_order_example :
    ((map block_num_of (run client 99 (some 3) received empty).attempts ≡ 6 ∷ 7 ∷ [])
      × ((run client 99 (some 3) received empty).stopped ≡ false))
    ⊎ StoppedAt client 99 (some 3) received empty (run client 99 (some 3) received empty)
run_in_order_example = run_in_order client 99 (some 3) received empty

-- The light client on the sources of the examples of the network.
verified-IsAvailable_example : IsAvailable (λ n. sources) both true (λ d. asked) 99 (full_header 7)
unfolding process_block sample conclude try_from extract_kate option extract_app_lookup
    with_extension calculate_confidence put_dht_fetched_percentage is_flush_cycle network_client
    fetch_verified fetch_verified_from_dht fetch_verified_from_rpc fetch_cells_from_dht
    request_kate_proof fetch_chunks fetch_cell_from_dht chunks flatten unfetched_of zip_cells sift
    verify tasks results partition contains_position inserted stats
verified-IsAvailable_example =
    verified-IsAvailable (λ n. sources) both true (λ d. asked) 99 (full_header 7) empty
      (converted 75) (λ d. (refl, (refl, tt))) refl

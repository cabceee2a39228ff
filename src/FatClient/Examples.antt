-- ===== src/FatClient/Examples.antt =====
-- A block whose partition has three cells, which are fetched two at a time; a second node does not
-- answer for the third cell.
use avail_light.Prelude.{
  ℕ, ◌≡◌, refl, Bool, true, false, Option, some, none, List, [], ◌∷◌, ◌==◌, if◌then◌else◌, length,
  arith,
}
use avail_light.Prelude.Chunks.{chunks}
use avail_light.Types.Block.{
  Position, BlockVerified, try_from, option, extract_kate, extract_app_lookup, with_extension,
}
use avail_light.Types.Samples.{numeric, at, full_header}
use avail_light.Data.Store.{empty}
use avail_light.Network.{Sources, zip_cells, request_kate_proof, rpc_failed}
use avail_light.FatClient.{
  FatKate, FatConfig, batch_failed, handle_results, handle_groups, fetch_partition, process_block,
}
use avail_light.FatClient.Batches.{IsComplete}
use avail_light.FatClient.Blocks.{
  Stored, Interrupted, process_block-Stored, process_block-Interrupted,
}

abbrev fat : FatKate numeric
fat = record {
  partition_positions = λ d. at 0 0 ∷ at 0 1 ∷ at 0 2 ∷ [];
  is_extended = λ p. p.row == 1;
  data_rows = λ d cells. (0, []) ∷ [];
}

abbrev config : FatConfig
config = record { max_cells_per_rpc = 2; query_proof_rpc_parallel_tasks = 1 }

abbrev columns : List Position → List (List ℕ)
columns [] = []
columns (p ∷ ps) = (p.col ∷ []) ∷ columns ps

abbrev is_third : List Position → Bool
is_third [] = false
is_third (p ∷ ps) = p.col == 2

abbrev answering : (List Position → Option (List (List ℕ))) → Sources numeric
answering f = record {
  p2p_available = true;
  dht_parallelization_limit = 1;
  dht_content = λ p. none;
  query_proof = λ hash ps. f ps;
  verify_v2 = λ d c x. none;
  ratio = λ a b. a;
}

abbrev net : Sources numeric
net = answering (λ ps. some (columns ps))

abbrev failing : Sources numeric
failing = answering (λ ps. if is_third ps then none else some (columns ps))

length-columns : (ps : List Position) → length (columns ps) ≡ length ps
length-columns [] = refl
length-columns (p ∷ ps) = omega (arith, length-columns ps)

net-IsComplete : IsComplete net
net-IsComplete hash ps xs h = ground (arith, length-columns ps)

abbrev converted : BlockVerified numeric
converted = record {
  header_hash = 7;
  block_num = 7;
  extension = some (record { lookup = 2; commitments = 11 ∷ 12 ∷ []; dimensions = (2, 4) });
  confidence = none;
  target_grid_dimensions = some (2, 4);
}

process_block-Stored_example :
    Stored fat config net
      (full_header 7)
      empty
      converted
      (process_block fat config net (full_header 7) empty)
unfolding process_block try_from extract_kate option extract_app_lookup with_extension
    fetch_partition handle_groups handle_results request_kate_proof zip_cells chunks
process_block-Stored_example =
    process_block-Stored fat config net (full_header 7) empty converted net-IsComplete refl

process_block-Interrupted_example :
    Interrupted fat 1 0 failing
      (full_header 7)
      empty
      (process_block fat config failing (full_header 7) empty)
unfolding process_block try_from extract_kate option extract_app_lookup with_extension
    fetch_partition handle_groups handle_results request_kate_proof zip_cells chunks
process_block-Interrupted_example =
    process_block-Interrupted fat 1 0 failing (full_header 7) empty (batch_failed rpc_failed) refl

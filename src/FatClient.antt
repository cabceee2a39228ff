-- ===== src/FatClient.antt =====
-- core/src/fat_client.rs: the cells of a part of the block's matrix are fetched from a node and put
-- into the DHT, and so are the rows that they fill. The build is the one without the feature
-- `multiproof`. Logging and durations are not modelled; an insertion into the DHT that fails is only
-- logged, so that the insertions are a list of attempts.
pub mod Batches
pub mod Blocks
mod Examples
use avail_light.Prelude.{
  ℕ, Bool, true, false, not, ◌||◌, Option, some, none, List, [], ◌∷◌, ◌++◌, ◌==◌, if◌then◌else◌,
  leb, length, map, retain, Result, ok, err,
}
use avail_light.Prelude.Chunks.{chunks}
use avail_light.Types.Header.{H256, AvailHeader}
use avail_light.Types.Block.{
  Position, Kate, Extension, BlockVerified, BlockProcessed, verified, skipped, try_from,
  sleep_duration,
}
use avail_light.Data.Store.{Store, put_block_header}
use avail_light.Network.{Cell, FetchError, Sources, request_kate_proof}
use avail_light.LightClient.{RpcEvent, connected_host, header_update, or_dimensions}

-- The functions of kate-recovery: the positions of the configured partition, whether a position is in
-- a row of the extension, and the rows that the cells fill.
pub record FatKate (kate : Kate) : Type 0 where
  pub partition_positions : kate.Dimensions → List Position
  pub is_extended : Position → Bool
  pub data_rows : kate.Dimensions → List Cell → List (ℕ × List ℕ)

pub record FatConfig : Type 0 where
  pub max_cells_per_rpc : ℕ
  pub query_proof_rpc_parallel_tasks : ℕ

pub data FatEvent : Type 0 where
  count_session_blocks record_rpc_call_duration : FatEvent
  record_block_height record_block_processing_delay : ℕ → FatEvent

-- Chunks of size zero are a panic.
pub data FatError : Type 0 where
  zero_batches : FatError
  batch_failed : FetchError → FatError

-- The cells fetched, and the batches put into the DHT.
pub record Fetched : Type 0 where
  pub cells : Result FatError (List Cell)
  pub inserted : List (List Cell)

pub record FatOutcome (kate : Kate) : Type 0 where
  pub result : Result FatError (BlockProcessed kate)
  pub db : Store kate.Float
  pub events : List FatEvent
  pub inserted_cells : List (List Cell)
  pub inserted_rows : List (List (ℕ × List ℕ))

-- The calls of `block_sender.send` are attempts, of which a failing one is only logged.
pub record FatRun (kate : Kate) : Type 0 where
  pub db : Store kate.Float
  pub events : List FatEvent
  pub attempts : List (BlockProcessed kate)
  pub stopped : Bool

-- The results of some requests, up to the first error.
unfoldable pub handle_results : List (Result FetchError (List Cell)) → Fetched
handle_results [] = record { cells = ok []; inserted = [] }
handle_results (err e ∷ rs) = record { cells = err (batch_failed e); inserted = [] }
handle_results (ok cs ∷ rs) =
    let rest = handle_results rs in
    record {
      cells = elim rest.cells [ err e ↦ err e | ok ds ↦ ok (cs ++ ds) ];
      inserted = cs ∷ rest.inserted;
    }

abbrev delay_events : Option ℕ → List FatEvent
delay_events none = []
delay_events (some seconds) = record_block_processing_delay seconds ∷ []

module _ {kate : Kate} (fat : FatKate kate) (cfg : FatConfig) where
  -- The data rows go into the DHT only if the cells are at least as many as the columns.
  unfoldable pub rows_inserted : kate.Dimensions → List Cell → List (List (ℕ × List ℕ))
  rows_inserted dimensions fetched =
      let cells = retain (λ c. not (fat.is_extended c.position)) fetched in
      if leb (kate.cols dimensions) (length cells) then fat.data_rows dimensions cells ∷ [] else []

  module _ (net : Sources kate) where
    -- The requests of a group run together, and the groups one after the other.
    unfoldable pub handle_groups : H256 → List (List (List Position)) → Fetched
    unfolding handle_results request_kate_proof
    handle_groups hash [] = record { cells = ok []; inserted = [] }
    handle_groups hash (g ∷ gs) =
        let first = handle_results (map (request_kate_proof net hash) g) in
        let rest = handle_groups hash gs in
        elim first.cells [
          | err e ↦ first
          | ok cs ↦ record {
            cells = elim rest.cells [ err e ↦ err e | ok ds ↦ ok (cs ++ ds) ];
            inserted = first.inserted ++ rest.inserted;
          }
        ]

    unfoldable pub fetch_partition : H256 → List Position → Fetched
    unfolding handle_groups
    fetch_partition hash positions =
        if (cfg.max_cells_per_rpc == 0) || (cfg.query_proof_rpc_parallel_tasks == 0)
        then record { cells = err zero_batches; inserted = [] }
        else handle_groups hash
            (chunks cfg.query_proof_rpc_parallel_tasks (chunks cfg.max_cells_per_rpc positions))

    unfoldable pub process_block : AvailHeader → Store kate.Float → FatOutcome kate
    unfolding fetch_partition rows_inserted put_block_header
    process_block header db =
        let n = header.number in
        let events : List FatEvent = count_session_blocks ∷ record_block_height n ∷ [] in
        let skip : FatOutcome kate = record {
          result = ok (skipped n);
          db = db;
          events = events;
          inserted_cells = [];
          inserted_rows = [];
        } in
        elim (try_from kate header none) [
          | err e ↦ skip
          | ok block ↦ elim block.extension [
            | none ↦ skip
            | some extension ↦
                let fetched = fetch_partition (kate.header_hash header) (
                  fat.partition_positions
                    (or_dimensions block.target_grid_dimensions extension.dimensions)) in
                if leb (kate.cols extension.dimensions) 2 then skip else elim fetched.cells [
                  | err e ↦ record {
                    result = err e;
                    db = put_block_header header db;
                    events = events;
                    inserted_cells = fetched.inserted;
                    inserted_rows = [];
                  }
                  | ok cells ↦ record {
                    result = ok (verified block);
                    db = put_block_header header db;
                    events = events ++ record_rpc_call_duration ∷ [];
                    inserted_cells = fetched.inserted;
                    inserted_rows = rows_inserted extension.dimensions cells;
                  }
                ]
          ]
        ]

  -- The loop over the events received, until the channel is closed.
  unfoldable pub run :
      (ℕ → Sources kate) → Option ℕ → List RpcEvent → Store kate.Float → FatRun kate
  unfolding process_block
  run nets delay [] db = record { db = db; events = []; attempts = []; stopped = false }
  run nets delay (connected_host ∷ es) db = run nets delay es db
  run nets delay (header_update header elapsed ∷ es) db =
      let o : FatOutcome kate = process_block (nets header.number) header db in
      let before : List FatEvent = delay_events (sleep_duration delay elapsed) in
      let rest : FatRun kate = run nets delay es o.db in
      elim o.result [
        | err e ↦ record { db = o.db; events = before ++ o.events; attempts = []; stopped = true }
        | ok processed ↦ record rest {
          events = before ++ o.events ++ rest.events;
          attempts = processed ∷ rest.attempts;
        }
      ]

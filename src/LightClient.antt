-- ===== src/LightClient.antt =====
-- core/src/light_client.rs: a finalized block is verified by sampling random cells. The network
-- client, the choice of the cells and the number of cells are parameters of a block's processing;
-- the events sent are a list. Logging and durations are not modelled.
pub mod Blocks
pub mod Cases
pub mod Sequence
pub mod Sampling
mod Examples
use avail_light.Prelude.{
  ℕ, Bool, true, false, Option, some, none, List, [], ◌∷◌, ◌++◌, if◌then◌else◌, leb, ltb, length,
  Result, ok, err,
}
use avail_light.Prelude.Assoc.{insert}
use avail_light.Types.Header.{H256, AvailHeader}
use avail_light.Types.Block.{
  BlockRange, init, is_flush_cycle, Position, Kate, Extension, BlockVerified, BlockProcessed,
  verified, skipped, extract_kate, calculate_confidence, try_from, sleep_duration,
}
use avail_light.Data.Store.{
  Store, put_achieved_confidence, put_block_header, put_verified_cell_count,
  put_dht_fetched_percentage,
}
use avail_light.Network.{Cell, FetchError, FetchStats}

pub data OutputEvent (Float : Type 0) : Type 0 where
  record_block_processing_delay : ℕ → OutputEvent Float
  count_session_blocks : OutputEvent Float
  record_block_height : ℕ → OutputEvent Float
  record_dht_stats : ℕ → Float → OutputEvent Float
  record_rpc_fetched : ℕ → OutputEvent Float
  record_block_confidence : Float → OutputEvent Float

pub data ProcessError : Type 0 where
  invalid_commitments : ProcessError
  fetch_failed : FetchError → ProcessError

-- `network::Client`, with the choice of random cells: `fetch_verified` of a block's number, hash,
-- matrix, commitments and positions, and `generate_random_cells` at `cell_count_for_confidence`.
pub record NetworkClient (kate : Kate) : Type 0 where
  pub fetch_verified :
      ℕ
      → H256
      → kate.Dimensions
      → List kate.Commitment
      → List Position
      → Result FetchError (List Cell × List Position × FetchStats kate.Float)
  pub random_cells : kate.Dimensions → List Position

-- The events of the RPC client, with the time since the header was received.
pub data RpcEvent : Type 0 where
  connected_host : RpcEvent
  header_update : AvailHeader → ℕ → RpcEvent

-- What `run` has done: the database, the events, the calls of `block_sender.send`, of which a failing
-- one is only logged, and whether a shutdown was triggered.
pub record Run (kate : Kate) : Type 0 where
  pub db : Store kate.Float
  pub events : List (OutputEvent kate.Float)
  pub attempts : List (BlockProcessed kate)
  pub stopped : Bool

-- The result of a step, the database after it, and the events sent.
pub record Outcome (kate : Kate) : Type 0 where
  pub result : Result ProcessError (BlockProcessed kate)
  pub db : Store kate.Float
  pub events : List (OutputEvent kate.Float)

abbrev pub or_dimensions : {D : Type 0} → Option D → D → D
or_dimensions none d = d
or_dimensions (some t) d = t

module _ {F : Type 0} where
  unfoldable pub first_events : ℕ → List (OutputEvent F)
  first_events n = count_session_blocks ∷ record_block_height n ∷ []

  rpc_events : Option ℕ → List (OutputEvent F)
  rpc_events none = []
  rpc_events (some n) = record_rpc_fetched n ∷ []

  unfoldable pub fetch_events : FetchStats F → List (OutputEvent F)
  unfolding rpc_events
  fetch_events stats =
      record_dht_stats stats.dht_fetched stats.dht_fetched_percentage ∷ rpc_events stats.rpc_fetched

  -- `tokio::time::sleep` is preceded by an event.
  delay_events : Option ℕ → List (OutputEvent F)
  delay_events none = []
  delay_events (some seconds) = record_block_processing_delay seconds ∷ []

module _ {kate : Kate} where
  -- The part after the fetch, with `required`, `verified` and the database that the fetch left.
  unfoldable pub conclude :
      AvailHeader
      → BlockVerified kate
      → ℕ
      → ℕ
      → Store kate.Float
      → List (OutputEvent kate.Float)
      → Outcome kate
  unfolding put_verified_cell_count put_achieved_confidence put_block_header
  conclude header block required count db events =
      let n = header.number in
      let confidence = calculate_confidence kate count in
      if ltb count required
      then record { result = ok (skipped n); db = db; events = events }
      else record {
        result = ok (verified (record block { confidence = some confidence }));
        db =
            put_block_header header
              (put_achieved_confidence n (put_verified_cell_count n count db));
        events = events ++ record_block_confidence confidence ∷ [];
      }

  -- The block has an extension with at least three columns.
  unfoldable pub sample :
      NetworkClient kate
      → AvailHeader
      → List ℕ
      → BlockVerified kate
      → Extension kate
      → Store kate.Float
      → Outcome kate
  unfolding conclude put_dht_fetched_percentage fetch_events first_events
  sample client header commitment block extension db =
      let n = header.number in
      elim (kate.from_slice commitment) [
        | none ↦ record { result = err invalid_commitments; db = db; events = first_events n }
        | some commitments ↦
            let positions =
              client.random_cells
                (or_dimensions block.target_grid_dimensions extension.dimensions) in
            elim (client.fetch_verified n (kate.header_hash header) extension.dimensions commitments
              positions) [
                | err e ↦ record { result = err (fetch_failed e); db = db; events = first_events n }
                | ok (fetched, unfetched, stats) ↦
                    conclude header block (length positions) (length fetched)
                      (put_dht_fetched_percentage n stats.dht_fetched_percentage db)
                      (first_events n ++ fetch_events stats)
              ]
      ]

  unfoldable pub process_block :
      NetworkClient kate → kate.Float → AvailHeader → Store kate.Float → Outcome kate
  unfolding sample put_achieved_confidence put_block_header first_events
  process_block client confidence header db =
      let n = header.number in
      let skip : Outcome kate = record {
        result = ok (skipped n);
        db = db;
        events = first_events n;
      } in
      elim (extract_kate header.extension) [
        | none ↦ record {
          result = ok (skipped n);
          db = put_block_header header (put_achieved_confidence n db);
          events = first_events n;
        }
        | some (_, _, _, commitment) ↦ elim (try_from kate header (some confidence)) [
          | err e ↦ skip
          | ok block ↦ elim block.extension [
            | none ↦ skip
            | some extension ↦
                if leb (kate.cols extension.dimensions) 2
                then skip
                else sample client header commitment block extension db
          ]
        ]
      ]

  -- The loop over the events received, until the channel is closed.
  unfoldable pub run :
      NetworkClient kate → kate.Float → Option ℕ → List RpcEvent → Store kate.Float → Run kate
  unfolding process_block delay_events
  run client confidence delay [] db = record {
    db = db;
    events = [];
    attempts = [];
    stopped = false;
  }
  run client confidence delay (connected_host ∷ es) db = run client confidence delay es db
  run client confidence delay (header_update header elapsed ∷ es) db =
      let o : Outcome kate = process_block client confidence header db in
      let before : List (OutputEvent kate.Float) = delay_events (sleep_duration delay elapsed) in
      let rest : Run kate = run client confidence delay es o.db in
      elim o.result [
        | err e ↦ record { db = o.db; events = before ++ o.events; attempts = []; stopped = true }
        | ok processed ↦ record rest {
          events = before ++ o.events ++ rest.events;
          attempts = processed ∷ rest.attempts;
        }
      ]

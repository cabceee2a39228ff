-- ===== src/Crawl.antt =====
-- core/src/crawl_client.rs: the success rates of fetching a block's cells and rows from the DHT.
-- Logging and durations are not modelled. A panic of the source ends the run.
pub mod Modes
mod Examples
use avail_light.Prelude.{
  ℕ, zero, suc, ◌-◌, Bool, true, false, Option, some, none, List, [], ◌∷◌, ◌++◌, ◌==◌,
  if◌then◌else◌, ltb, leb, length, Result, ok, err,
}
use avail_light.Types.Header.{AvailHeader}
use avail_light.Types.Block.{Kate, Position, Extension, BlockVerified, try_from, sleep_duration}
use avail_light.Network.{fetch_cells_from_dht}
use avail_light.LightClient.{RpcEvent, connected_host, header_update, or_dimensions}
use avail_light.AppClient.Source.{Row, AppKate, AppNode}
use avail_light.AppClient.Rows.{fetch_rows_from_dht}

pub data CrawlMode : Type 0 where
  rows cells both : CrawlMode

pub data CrawlEvent (Float : Type 0) : Type 0 where
  record_block_delay : ℕ → CrawlEvent Float
  record_cell_success_rate record_rows_success_rate : Float → CrawlEvent Float

-- The positions of the configured partition, and 0.0.
pub record CrawlKate (kate : Kate) : Type 0 where
  pub partition_positions : kate.Dimensions → List Position
  pub zero_rate : kate.Float

pub data CrawlEnd : Type 0 where
  channel_closed other_event panicked : CrawlEnd

-- The calls of `block_sender.send` are attempts, of which a failing one is only logged.
pub record CrawlRun (kate : Kate) : Type 0 where
  pub events : List (CrawlEvent kate.Float)
  pub attempts : List (BlockVerified kate)
  pub end : CrawlEnd

-- `CrawlMode::Cells | CrawlMode::Both`
unfoldable pub crawls_cells : CrawlMode → Bool
crawls_cells rows = false
crawls_cells cells = true
crawls_cells both = true

-- `(i..i + n).step_by(2)`
unfoldable pub even_indexes : ℕ → ℕ → List ℕ
even_indexes i zero = []
even_indexes i (suc zero) = i ∷ []
even_indexes i (suc (suc n)) = i ∷ even_indexes (suc (suc i)) n

-- `.step_by(2).flatten().count()`
unfoldable pub count_even : List (Option Row) → ℕ
count_even [] = 0
count_even (none ∷ []) = 0
count_even (some r ∷ []) = 1
count_even (none ∷ _ ∷ rs) = count_even rs
count_even (some r ∷ _ ∷ rs) = suc (count_even rs)

unfoldable pub delay_event : {Float : Type 0} → Option ℕ → List (CrawlEvent Float)
delay_event none = []
delay_event (some seconds) = record_block_delay seconds ∷ []

module _ {kate : Kate} (app : AppKate kate) (crawl : CrawlKate kate) where
  unfoldable pub crawl_cells : AppNode kate → List Position → Option (CrawlEvent kate.Float)
  crawl_cells node positions =
      let total = length positions in
      let fetched = length (fetch_cells_from_dht node.net positions).0 in
      if node.net.dht_parallelization_limit == 0
      then none
      else some (
          record_cell_success_rate
            (if ltb 0 total then node.net.ratio fetched total else crawl.zero_rate))

  unfoldable pub crawl_rows : AppNode kate → kate.Dimensions → Option (CrawlEvent kate.Float)
  unfolding even_indexes count_even
  crawl_rows node dimensions =
      let indexes = even_indexes 0 (app.extended_rows dimensions) in
      elim (fetch_rows_from_dht node app dimensions indexes) [
        | err e ↦ none
        | ok fetched ↦
            some (record_rows_success_rate (node.net.ratio (count_even fetched) (length indexes)))
      ]

  -- Both sections test for the same modes. A panic is that of chunks of size zero, since the row
  -- indexes are in bounds, so that it comes before any event.
  unfoldable pub crawl_block :
      CrawlMode
      → AppNode kate
      → BlockVerified kate
      → Extension kate
      → Option (List (CrawlEvent kate.Float))
  unfolding crawls_cells crawl_cells crawl_rows
  crawl_block mode node block extension =
      if crawls_cells mode
      then elim (crawl_cells node (
          crawl.partition_positions
            (or_dimensions block.target_grid_dimensions extension.dimensions))) [
              | none ↦ none
              | some e ↦ elim (crawl_rows node extension.dimensions) [
                | none ↦ none
                | some f ↦ some (e ∷ f ∷ [])
              ]
            ]
      else some []

  -- The loop ends at the first event that is not a header.
  unfoldable pub run : CrawlMode → (ℕ → AppNode kate) → Option ℕ → List RpcEvent → CrawlRun kate
  unfolding crawl_block delay_event
  run mode nodes delay [] = record { events = []; attempts = []; end = channel_closed }
  run mode nodes delay (connected_host ∷ es) = record {
    events = [];
    attempts = [];
    end = other_event;
  }
  run mode nodes delay (header_update header elapsed ∷ es) =
      let rest : CrawlRun kate = run mode nodes delay es in
      elim (try_from kate header none) [
        | err e ↦ rest
        | ok block ↦ elim block.extension [
          | none ↦ rest
          | some extension ↦
              let before : List (CrawlEvent kate.Float) =
                delay_event (sleep_duration delay elapsed) in
              if leb (kate.cols extension.dimensions) 2
              then rest
              else elim (crawl_block mode (nodes header.number) block extension) [
                | none ↦ record { events = before; attempts = []; end = panicked }
                | some crawled ↦ record rest {
                  events = before ++ crawled ++ rest.events;
                  attempts = block ∷ rest.attempts;
                }
              ]
        ]
      ]

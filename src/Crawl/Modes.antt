-- ===== src/Crawl/Modes.antt =====
-- What the modes of core/src/crawl_client.rs record.
use avail_light.Prelude.{
  ℕ, ◌+◌, if◌then◌else◌, ◌≡◌, refl, inl, inr, Option, some, none, List, [], ◌∷◌, ◌++◌, length,
  arith, Bool-cases, Option-cases, Result-cases, leb,
}
use avail_light.Types.Block.{Kate, BlockVerified, Extension, try_from, sleep_duration}
use avail_light.LightClient.{RpcEvent, connected_host, header_update, or_dimensions}
use avail_light.AppClient.Source.{AppKate, AppNode}
use avail_light.Crawl.{
  CrawlMode, CrawlEvent, CrawlKate, record_block_delay, record_cell_success_rate,
  record_rows_success_rate, rows, cells, both, delay_event, crawl_cells, crawl_rows, crawls_cells,
  crawl_block, run,
}

-- How many events have a success rate of cells, and how many one of rows.
unfoldable pub cell_rates : {Float : Type 0} → List (CrawlEvent Float) → ℕ
cell_rates [] = 0
cell_rates (record_block_delay d ∷ es) = cell_rates es
cell_rates (record_cell_success_rate r ∷ es) = 1 + cell_rates es
cell_rates (record_rows_success_rate r ∷ es) = cell_rates es

unfoldable pub rows_rates : {Float : Type 0} → List (CrawlEvent Float) → ℕ
rows_rates [] = 0
rows_rates (record_block_delay d ∷ es) = rows_rates es
rows_rates (record_cell_success_rate r ∷ es) = rows_rates es
rows_rates (record_rows_success_rate r ∷ es) = 1 + rows_rates es

-- Both numbers.
abbrev pub Rates : {Float : Type 0} → List (CrawlEvent Float) → ℕ → ℕ → Type 0
Rates es m n = (cell_rates es ≡ m) × (rows_rates es ≡ n)

delay_event-Rates :
    {Float : Type 0} (d : Option ℕ) (es : List (CrawlEvent Float))
    → Rates (delay_event d ++ es) (cell_rates es) (rows_rates es)
unfolding cell_rates rows_rates delay_event
delay_event-Rates none es = (refl, refl)
delay_event-Rates (some x) es = (refl, refl)

module _ {kate : Kate} (app : AppKate kate) (crawl : CrawlKate kate) where
  crawl_block-Rates :
      (mode : CrawlMode) (node : AppNode kate) (block : BlockVerified kate)
      (extension : Extension kate) (es rest : List (CrawlEvent kate.Float))
      → crawl_block app crawl mode node block extension ≡ some es
      → Rates
          (es ++ rest)
          (if crawls_cells mode then 1 + cell_rates rest else cell_rates rest)
          (if crawls_cells mode then 1 + rows_rates rest else rows_rates rest)
  unfolding crawl_block crawls_cells crawl_cells crawl_rows cell_rates rows_rates
  crawl_block-Rates rows node block x es rest h = (ground arith, ground arith)
  crawl_block-Rates cells node block x es rest h =
      elim (Option-cases (
        crawl_cells app crawl node
          (crawl.partition_positions (or_dimensions block.target_grid_dimensions x.dimensions)))) [
            | inl p ↦ (ground arith, ground arith)
            | inr (e, p) ↦ elim (Option-cases (crawl_rows app crawl node x.dimensions)) [
              | inl q ↦ (ground arith, ground arith)
              | inr (f, q) ↦ (ground arith, ground arith)
            ]
          ]
  crawl_block-Rates both node block x es rest h =
      elim (Option-cases (
        crawl_cells app crawl node
          (crawl.partition_positions (or_dimensions block.target_grid_dimensions x.dimensions)))) [
            | inl p ↦ (ground arith, ground arith)
            | inr (e, p) ↦ elim (Option-cases (crawl_rows app crawl node x.dimensions)) [
              | inl q ↦ (ground arith, ground arith)
              | inr (f, q) ↦ (ground arith, ground arith)
            ]
          ]

  -- A count of events to which delays add nothing and a crawled block adds one.
  record Counts (mode : CrawlMode) (count : List (CrawlEvent kate.Float) → ℕ) : Type 0 where
    nothing : count [] ≡ 0
    delays :
        (d : Option ℕ) (es : List (CrawlEvent kate.Float)) → count (delay_event d ++ es) ≡ count es
    crawled :
        (node : AppNode kate) (block : BlockVerified kate) (extension : Extension kate)
        (es rest : List (CrawlEvent kate.Float))
        → crawl_block app crawl mode node block extension ≡ some es
        → count (es ++ rest) ≡ (if crawls_cells mode then 1 + count rest else count rest)

  count-run :
      (mode : CrawlMode) (count : List (CrawlEvent kate.Float) → ℕ) (nodes : ℕ → AppNode kate)
      (delay : Option ℕ) (es : List RpcEvent)
      → Counts mode count
      → count (run app crawl mode nodes delay es).events
        ≡ (if crawls_cells mode then length (run app crawl mode nodes delay es).attempts else 0)
  unfolding run
  count-run mode count nodes delay [] c = ground (arith, c.nothing)
  count-run mode count nodes delay (connected_host ∷ es) c = ground (arith, c.nothing)
  count-run mode count nodes delay (header_update header elapsed ∷ es) c =
      let rest = run app crawl mode nodes delay es in
      let v = count-run mode count nodes delay es c in
      elim (Result-cases (try_from kate header none)) [
        | inr (e, p) ↦ ground (arith, v)
        | inl (block, p) ↦ elim (Option-cases block.extension) [
          | inl q ↦ ground (arith, v)
          | inr (x, q) ↦ elim (Bool-cases (leb (kate.cols x.dimensions) 2)) [
            | inl l ↦ ground (arith, v)
            | inr l ↦
                elim (Option-cases (crawl_block app crawl mode (nodes header.number) block x)) [
                  | inl g ↦ ground (arith, c.nothing, c.delays (sleep_duration delay elapsed) [])
                  | inr (crawled, g) ↦ ground (
                    arith,
                    v,
                    c.delays (sleep_duration delay elapsed) (crawled ++ rest.events),
                    c.crawled (nodes header.number) block x crawled rest.events g,
                  )
                ]
          ]
        ]
      ]

  -- In the modes `cells` and `both` a run records, for each block that it gives to the channel, with or
  -- without a receiver, one success rate of its cells and one of its rows; in the mode `rows` it records
  -- none of either, whatever the headers and the answers of the DHT are.
  pub run-Rates :
      (mode : CrawlMode) (nodes : ℕ → AppNode kate) (delay : Option ℕ) (es : List RpcEvent)
      → Rates
          (run app crawl mode nodes delay es).events
          (if crawls_cells mode then length (run app crawl mode nodes delay es).attempts else 0)
          (if crawls_cells mode then length (run app crawl mode nodes delay es).attempts else 0)
  unfolding cell_rates rows_rates
  run-Rates mode nodes delay es = (
    count-run mode cell_rates nodes delay es (record {
      nothing = refl;
      delays = λ d fs. (delay_event-Rates d fs).0;
      crawled = λ n b x fs rest h. (crawl_block-Rates mode n b x fs rest h).0;
    }),
    count-run mode rows_rates nodes delay es (record {
      nothing = refl;
      delays = λ d fs. (delay_event-Rates d fs).1;
      crawled = λ n b x fs rest h. (crawl_block-Rates mode n b x fs rest h).1;
    }),
  )

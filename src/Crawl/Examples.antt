-- ===== src/Crawl/Examples.antt =====
-- Two blocks crawled for their cells and rows, and a block without data.
use avail_light.Prelude.{true, false, ◌*◌, some, none, List, [], ◌∷◌, ◌==◌, if◌then◌else◌}
use avail_light.Types.Block.{
  option, extract_kate, extract_app_lookup, with_extension, try_from, sleep_duration,
}
use avail_light.Prelude.Chunks.{chunks}
use avail_light.AppClient.Rows.{fetch_rows_from_dht}
use avail_light.Types.Samples.{numeric, at, full_header, bare_header}
use avail_light.LightClient.{RpcEvent, connected_host, header_update}
use avail_light.AppClient.Source.{AppKate, AppNode}
use avail_light.Crawl.{
  CrawlKate, both, crawls_cells, crawl_cells, crawl_rows, crawl_block, delay_event, run,
}
use avail_light.Crawl.Modes.{Rates, cell_rates, rows_rates, run-Rates}

abbrev app : AppKate numeric
app = record {
  width = λ d. d.1;
  extended_rows = λ d. d.0 * 2;
  has_range = λ l id. false;
  app_specific_rows = λ l d id. [];
  verify_equality = λ cs rows l d id. none;
  extended_rows_positions = λ d rows. [];
  columns_positions = λ d ps. ps;
  reconstruct_columns = λ d cells. none;
  to_data_cell = λ c. record { position = c.position; content = c.content };
  decode_app_extrinsics = λ l d cells id. none;
}

abbrev crawl : CrawlKate numeric
crawl = record { partition_positions = λ d. at 0 0 ∷ at 0 1 ∷ []; zero_rate = 0 }

abbrev node : AppNode numeric
node = record {
  net = record {
    p2p_available = true;
    dht_parallelization_limit = 2;
    dht_content = λ p. if p.col == 0 then some (7 ∷ []) else none;
    query_proof = λ h ps. none;
    verify_v2 = λ d c x. none;
    ratio = λ a b. a;
  };
  dht_row = λ i. if i == 0 then some (1 ∷ []) else none;
  query_rows = λ h is. none;
  max_rows = 2;
}

abbrev headers : List RpcEvent
headers =
    header_update (full_header 1) 0
    ∷ header_update (bare_header 2) 0
    ∷ header_update (full_header 3) 9
    ∷ connected_host
    ∷ header_update (full_header 4) 9
    ∷ []

run-Rates_example : Rates (run app crawl both (λ n. node) (some 5) headers).events 2 2
unfolding cell_rates rows_rates run crawl_block crawl_cells crawl_rows crawls_cells try_from
    extract_kate option extract_app_lookup with_extension delay_event sleep_duration
    fetch_rows_from_dht chunks
run-Rates_example = run-Rates app crawl both (λ n. node) (some 5) headers

-- ===== src/AppClient/Examples.antt =====
-- A block with one row and its extension: the DHT has wrong bytes for the row, a node the right ones,
-- and the bytes of the DHT are decoded. A row is right here if it starts with 1.
use avail_light.Prelude.{
  ℕ, ◌*◌, ◌≡◌, ◌↔◌, ◌⊎◌, refl, Bool, true, false, Option, some, none, List, [], ◌∷◌, ◌++◌, ◌==◌,
  if◌then◌else◌, arith, ok, length, All,
}
use avail_light.Prelude.Sets.{contains}
use avail_light.Prelude.Assoc.{insert}
use avail_light.Prelude.Chunks.{chunks}
use avail_light.Types.Block.{Extension, BlockVerified, verified, skipped}
use avail_light.Types.Samples.{numeric}
use avail_light.Data.Store.{Store, empty}
use avail_light.Network.{both}
use avail_light.AppClient.Source.{Row, AppData, DataCell, AppKate, AppNode}
use avail_light.AppClient.Rows.{merge_rows, fetch_rows_from_dht}
use avail_light.AppClient.Cells.{
  new_data_cell, as_chunks, data_cells_from, data_cells_from_row, enumerated_cells,
  data_cells_from_rows, row_data,
}
use avail_light.AppClient.Merged.{row_at, merge_rows-either}
use avail_light.AppClient.Fetched.{fetch_rows_from_dht_entries}
use avail_light.AppClient.Sequence.{IsSplit, Holds, run-IsSplit}
use avail_light.AppClient.Matrix.{or_empty, data_cells_from_rows-row_data}
use avail_light.AppClient.{AppClientConfig, verify_equality, run}

abbrev thirty_two : ℕ → Row
thirty_two b =
    b ∷ b ∷ b ∷ b ∷ b ∷ b ∷ b ∷ b ∷ b ∷ b ∷ b ∷ b ∷ b ∷ b ∷ b ∷ b ∷ b ∷ b ∷ b ∷ b ∷ b ∷ b ∷ b ∷ b
    ∷ b ∷ b ∷ b ∷ b ∷ b ∷ b ∷ b ∷ b ∷ []

abbrev is_right : Option Row → Bool
is_right none = false
is_right (some []) = false
is_right (some (b ∷ bs)) = b == 1

abbrev first_right : List (Option Row) → List ℕ × List ℕ
first_right [] = ([], 0 ∷ [])
first_right (r ∷ rs) = if is_right r then (0 ∷ [], []) else ([], 0 ∷ [])

abbrev content_of : List DataCell → AppData
content_of [] = []
content_of (x ∷ xs) = x.content ∷ content_of xs

abbrev app : AppKate numeric
app = record {
  width = λ d. d.1;
  extended_rows = λ d. d.0 * 2;
  has_range = λ l id. true;
  app_specific_rows = λ l d id. 0 ∷ [];
  verify_equality = λ cs rows l d id. some (first_right rows);
  extended_rows_positions = λ d rows. [];
  columns_positions = λ d ps. ps;
  reconstruct_columns = λ d cells. some [];
  to_data_cell = λ c. record { position = c.position; content = c.content };
  decode_app_extrinsics = λ l d cells id. some (content_of cells);
}

abbrev node : AppNode numeric
node = record {
  net = record {
    p2p_available = true;
    dht_parallelization_limit = 2;
    dht_content = λ p. none;
    query_proof = λ h ps. none;
    verify_v2 = λ d c x. none;
    ratio = λ a b. a;
  };
  dht_row = λ i. if i == 0 then some (thirty_two 9) else none;
  query_rows = λ h is. some (thirty_two 1 ∷ []);
  max_rows = 2;
}

abbrev config : AppClientConfig
config = record { threshold = 5000; network_mode = both }

abbrev matrix : Extension numeric
matrix = record { lookup = 1; commitments = 1 ∷ 1 ∷ []; dimensions = (1, 1) }

abbrev block : BlockVerified numeric
block = record {
  header_hash = 7;
  block_num = 7;
  extension = some matrix;
  confidence = none;
  target_grid_dimensions = none;
}

abbrev after : Store ℕ
after = record empty { app_data = insert 7 (thirty_two 9 ∷ []) [] }

merge_rows-either_example :
    (row_at
        (merge_rows
          ([] ++ 0 ∷ [])
          0
          2
          (some (thirty_two 9) ∷ none ∷ [])
          (some (thirty_two 1) ∷ none ∷ []))
        0
      ≡ some (thirty_two 9))
    ↔ ((contains [] 0 ≡ true) ⊎ (contains (0 ∷ []) 0 ≡ true))
unfolding row_at
merge_rows-either_example =
    merge_rows-either [] (0 ∷ []) 2 0 (some (thirty_two 9) ∷ none ∷ [])
      (some (thirty_two 1) ∷ none ∷ []) (thirty_two 9) (omega arith) (omega arith) (omega arith)
      refl

fetch_rows_from_dht_entries_example :
    (rows : List (Option Row)) × (fetch_rows_from_dht node app (1, 1) (0 ∷ 1 ∷ []) ≡ ok rows)
    × (length rows ≡ 2)
    × ((k : ℕ) → row_at rows k ≡ (if contains (0 ∷ 1 ∷ []) k then node.dht_row k else none))
fetch_rows_from_dht_entries_example =
    fetch_rows_from_dht_entries node app (1, 1) 1 (0 ∷ 1 ∷ []) refl refl
      (omega arith, (omega arith, tt))

cells_result :
    data_cells_from_rows (none ∷ some (thirty_two 1) ∷ [])
    ≡ ok (record { position = record { row = 1; col = 0 }; content = thirty_two 1 } ∷ [])
unfolding data_cells_from_rows enumerated_cells data_cells_from_row data_cells_from as_chunks
    new_data_cell chunks
cells_result = refl

data_cells_from_rows-row_data_example :
    row_data 1 (record { position = record { row = 1; col = 0 }; content = thirty_two 1 } ∷ [])
    ≡ or_empty (row_at (none ∷ some (thirty_two 1) ∷ []) 1)
data_cells_from_rows-row_data_example =
    data_cells_from_rows-row_data 1 (none ∷ some (thirty_two 1) ∷ [])
      (record { position = record { row = 1; col = 0 }; content = thirty_two 1 } ∷ [])
      (tt, ((1, refl), tt)) cells_result

empty-IsSplit : IsSplit 5 8 (empty {Float = ℕ})
empty-IsSplit = record { sync = λ r e. ground arith; other = λ r e. ground arith }

run-IsSplit_example :
    IsSplit 5 8 (run app config 3 (λ n. node) 5 8 true (skipped 6 ∷ verified block ∷ []) empty).db
    × ((k : ℕ)
        → Holds {F = ℕ} empty k
        → Holds {F = ℕ}
            (run app config 3 (λ n. node) 5 8 true (skipped 6 ∷ verified block ∷ []) empty).db
            k)
    × All
        (λ x.
          Holds {F = ℕ}
            (run app config 3 (λ n. node) 5 8 true (skipped 6 ∷ verified block ∷ []) empty).db
            x.0)
        (run app config 3 (λ n. node) 5 8 true (skipped 6 ∷ verified block ∷ []) empty).sent
run-IsSplit_example =
    run-IsSplit app config 3 (λ n. node) 5 8 true (skipped 6 ∷ verified block ∷ []) empty
      empty-IsSplit

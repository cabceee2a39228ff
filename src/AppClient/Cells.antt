-- ===== src/AppClient/Cells.antt =====
-- The data cells of core/src/app_client.rs: cut out of rows, or reconstructed from the columns.
use avail_light.Prelude.{
  ℕ, ◌+◌, ◌*◌, ◌/◌, ◌^◌, not, ◌&&◌, Option, some, none, List, [], ◌∷◌, ◌++◌, ◌==◌, ltb,
  if◌then◌else◌, Result, ok, err, length, get_elem?, map, retain,
}
use avail_light.Prelude.Assoc.{Assoc, lookup}
use avail_light.Prelude.Sort.{sort_by_key}
use avail_light.Prelude.Chunks.{chunks}
use avail_light.Types.Block.{Kate, Position}
use avail_light.Network.{Cell, Sources, fetch_cells_from_dht, sift, chunk_size_zero}
use avail_light.AppClient.Source.{
  Row, DataCell, AppKate, AppError, reconstruction_failed, data_cell_not_found, invalid_row_size,
  index_too_large, fetch_error,
}

abbrev pub chunk_size : ℕ
chunk_size = 32

abbrev pub extension_factor : ℕ
extension_factor = 2

-- The row is converted to u32, the column to u16.
unfoldable pub new_data_cell : ℕ → ℕ → List ℕ → Result AppError DataCell
new_data_cell row col content =
    if ltb row (2 ^ 32) && ltb col (2 ^ 16)
    then ok (record { position = record { row = row; col = col }; content = content })
    else err index_too_large

-- `as_chunks::<CHUNK_SIZE>().0`: the chunks that are full.
unfoldable pub as_chunks : Row → List (List ℕ)
as_chunks content = retain (λ c. length c == chunk_size) (chunks chunk_size content)

-- The chunks with the columns from `col` on.
unfoldable pub data_cells_from : ℕ → ℕ → List (List ℕ) → Result AppError (List DataCell)
unfolding new_data_cell
data_cells_from row col [] = ok []
data_cells_from row col (c ∷ cs) =
    let rest = data_cells_from row (col + 1) cs in
    elim (new_data_cell row col c) [
      | err e ↦ err e
      | ok x ↦ elim rest [ err e ↦ err e | ok xs ↦ ok (x ∷ xs) ]
    ]

unfoldable pub data_cells_from_row : ℕ → Row → Result AppError (List DataCell)
unfolding data_cells_from as_chunks
data_cells_from_row row content = data_cells_from row 0 (as_chunks content)

-- The rows with the indexes from `i` on.
unfoldable pub enumerated_cells : ℕ → List (Option Row) → Result AppError (List DataCell)
unfolding data_cells_from_row
enumerated_cells i [] = ok []
enumerated_cells i (none ∷ rows) = enumerated_cells (i + 1) rows
enumerated_cells i (some row ∷ rows) =
    let rest = enumerated_cells (i + 1) rows in
    elim (data_cells_from_row i row) [
      | err e ↦ err e
      | ok xs ↦ elim rest [ err e ↦ err e | ok ys ↦ ok (xs ++ ys) ]
    ]

unfoldable pub data_cells_from_rows : List (Option Row) → Result AppError (List DataCell)
unfolding enumerated_cells
data_cells_from_rows rows = enumerated_cells 0 rows

unfoldable pub data_cell : Assoc (List (List ℕ)) → Position → Result AppError DataCell
data_cell reconstructed p = elim (lookup p.col reconstructed) [
  | none ↦ err data_cell_not_found
  | some column ↦ elim (get_elem? column (p.row / extension_factor)) [
    | none ↦ err data_cell_not_found
    | some content ↦ ok (record { position = p; content = content })
  ]
]

unfoldable pub data_cells : Assoc (List (List ℕ)) → List Position → Result AppError (List DataCell)
unfolding data_cell
data_cells reconstructed [] = ok []
data_cells reconstructed (p ∷ ps) =
    let rest = data_cells reconstructed ps in
    elim (data_cell reconstructed p) [
      | err e ↦ err e
      | ok x ↦ elim rest [ err e ↦ err e | ok xs ↦ ok (x ∷ xs) ]
    ]

-- The order of the pairs of row and column; a column is a u16.
unfoldable pub cell_order : DataCell → ℕ
cell_order x = x.position.row * 2 ^ 16 + x.position.col

-- The data of the cells of a row, one after the other.
unfoldable pub row_data : ℕ → List DataCell → Row
row_data row [] = []
row_data row (x ∷ xs) =
    let rest = row_data row xs in if x.position.row == row then x.content ++ rest else rest

-- A row for every index, each of the full width.
unfoldable pub collect_rows : ℕ → List DataCell → List ℕ → Result AppError (List (ℕ × Row))
unfolding row_data
collect_rows width xs [] = ok []
collect_rows width xs (row ∷ rows) =
    let rest = collect_rows width xs rows in
    if length (row_data row xs) == width * chunk_size
    then elim rest [ err e ↦ err e | ok ys ↦ ok ((row, row_data row xs) ∷ ys) ]
    else err invalid_row_size

module _ {kate : Kate} (net : Sources kate) (dimensions : kate.Dimensions)
    (commitments : List kate.Commitment) where
  -- `fetch_verified` of the app client
  unfoldable pub fetch_verified : List Position → Result AppError (List Cell × List Position)
  unfolding fetch_cells_from_dht sift
  fetch_verified positions =
      let (fetched, unfetched) = fetch_cells_from_dht net positions in
      if not net.p2p_available
      then ok ([], positions)
      else if net.dht_parallelization_limit == 0
      then err (fetch_error chunk_size_zero)
      else elim (sift net dimensions commitments fetched) [
        | err e ↦ err (fetch_error e)
        | ok (kept, unverified) ↦ ok (kept, unfetched ++ unverified)
      ]

  module _ (app : AppKate kate) where
    -- The rows out of the cells fetched and the columns reconstructed.
    unfoldable pub assemble :
        List ℕ → List Cell → List Position → List Cell → Result AppError (List (ℕ × Row))
    unfolding data_cells collect_rows cell_order
    assemble missing_rows fetched unfetched missing_fetched =
        elim (app.reconstruct_columns dimensions missing_fetched) [
          | none ↦ err reconstruction_failed
          | some reconstructed ↦ elim (data_cells reconstructed unfetched) [
            | err e ↦ err e
            | ok xs ↦
                collect_rows (app.width dimensions)
                  (sort_by_key cell_order (map app.to_data_cell fetched ++ xs)) missing_rows
          ]
        ]

    unfoldable pub reconstruct_rows_from_dht : List ℕ → Result AppError (List (ℕ × Row))
    unfolding fetch_verified assemble
    reconstruct_rows_from_dht missing_rows =
        elim (app.extended_rows_positions dimensions missing_rows) [
          | [] ↦ ok []
          | p ∷ ps ↦ elim (fetch_verified (p ∷ ps)) [
            | err e ↦ err e
            | ok (fetched, unfetched) ↦
                elim (fetch_verified (app.columns_positions dimensions unfetched)) [
                  | err e ↦ err e
                  | ok (missing_fetched, _) ↦
                      assemble missing_rows fetched unfetched missing_fetched
                ]
          ]
        ]

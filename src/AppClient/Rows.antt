-- ===== src/AppClient/Rows.antt =====
-- The rows of core/src/app_client.rs: from the DHT, from a node, and merged, with
-- fetch_rows_from_dht of core/src/network/p2p/client.rs.
use avail_light.Prelude.{
  ℕ, zero, suc, ◌+◌, Bool, not, Option, some, none, List, [], ◌∷◌, ◌==◌, if◌then◌else◌, Result, ok,
  err,
}
use avail_light.Prelude.Sets.{contains}
use avail_light.Prelude.Chunks.{chunks}
use avail_light.Types.Header.{H256}
use avail_light.Types.Block.{Kate}
use avail_light.AppClient.Source.{
  Row, AppKate, AppNode, AppError, rpc_error, row_out_of_bounds, zero_chunks,
}

-- `vec![None; n]`
unfoldable pub no_rows : ℕ → List (Option Row)
no_rows zero = []
no_rows (suc n) = none ∷ no_rows n

-- `rows[i] = Some(row)`
unfoldable pub set_row : ℕ → Row → List (Option Row) → Result AppError (List (Option Row))
set_row i row [] = err row_out_of_bounds
set_row zero row (x ∷ xs) = ok (some row ∷ xs)
set_row (suc i) row (x ∷ xs) = elim (set_row i row xs) [ err e ↦ err e | ok ys ↦ ok (x ∷ ys) ]

unfoldable pub set_rows : List (ℕ × Row) → List (Option Row) → Result AppError (List (Option Row))
unfolding set_row
set_rows [] xs = ok xs
set_rows ((i, row) ∷ rows) xs = elim (set_row i row xs) [ err e ↦ err e | ok ys ↦ set_rows rows ys ]

-- `chunk.iter().zip(rpc_result)`
unfoldable pub zip_rows : List ℕ → List Row → List (ℕ × Row)
zip_rows [] rows = []
zip_rows (i ∷ is) [] = []
zip_rows (i ∷ is) (row ∷ rows) = (i, row) ∷ zip_rows is rows

-- `dht_row.or(rpc_row)?` and `contains(&row_index).then_some(row)`
unfoldable pub merge_row : Bool → Option Row → Option Row → Option Row
merge_row is_verified (some row) rpc_row = if is_verified then some row else none
merge_row is_verified none none = none
merge_row is_verified none (some row) = if is_verified then some row else none

-- The zip of the two lists with the indexes from `i` on, `n` of them.
unfoldable pub merge_rows :
    List ℕ → ℕ → ℕ → List (Option Row) → List (Option Row) → List (Option Row)
unfolding merge_row
merge_rows verified i zero ds rs = []
merge_rows verified i (suc n) [] rs = []
merge_rows verified i (suc n) (d ∷ ds) [] = []
merge_rows verified i (suc n) (d ∷ ds) (r ∷ rs) =
    merge_row (contains verified i) d r ∷ merge_rows verified (i + 1) n ds rs

abbrev pub without_rows : List ℕ → List (Option Row)
without_rows [] = []
without_rows (i ∷ is) = none ∷ without_rows is

module _ {kate : Kate} (node : AppNode kate) where
  -- The rows of a chunk that the DHT has.
  unfoldable pub found_rows : List ℕ → List (ℕ × Row)
  found_rows [] = []
  found_rows (i ∷ is) =
      let rest = found_rows is in elim (node.dht_row i) [ none ↦ rest | some row ↦ (i, row) ∷ rest ]

  unfoldable pub fetch_row_chunks :
      List (List ℕ) → List (Option Row) → Result AppError (List (Option Row))
  unfolding set_rows found_rows
  fetch_row_chunks [] rows = ok rows
  fetch_row_chunks (is ∷ iss) rows = elim (set_rows (found_rows is) rows) [
    | err e ↦ err e
    | ok rows' ↦ fetch_row_chunks iss rows'
  ]

  unfoldable pub request_row_chunks :
      H256 → List (List ℕ) → List (Option Row) → Result AppError (List (Option Row))
  unfolding set_rows zip_rows
  request_row_chunks block_hash [] result = ok result
  request_row_chunks block_hash (is ∷ iss) result = elim (node.query_rows block_hash is) [
    | none ↦ err rpc_error
    | some rpc_result ↦ elim (set_rows (zip_rows is rpc_result) result) [
      | err e ↦ err e
      | ok result' ↦ request_row_chunks block_hash iss result'
    ]
  ]

  module _ (app : AppKate kate) (dimensions : kate.Dimensions) where
    -- Without a p2p client there is one row for each index asked for.
    unfoldable pub fetch_rows_from_dht : List ℕ → Result AppError (List (Option Row))
    unfolding no_rows fetch_row_chunks
    fetch_rows_from_dht row_indexes =
        if not node.net.p2p_available
        then ok (without_rows row_indexes)
        else if node.net.dht_parallelization_limit == 0
        then err zero_chunks
        else fetch_row_chunks (chunks node.net.dht_parallelization_limit row_indexes)
            (no_rows (app.extended_rows dimensions))

    unfoldable pub get_kate_rows : List ℕ → H256 → Result AppError (List (Option Row))
    unfolding no_rows request_row_chunks
    get_kate_rows rows block_hash =
        request_row_chunks block_hash (chunks node.max_rows rows)
          (no_rows (app.extended_rows dimensions))

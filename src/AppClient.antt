-- ===== src/AppClient.antt =====
-- core/src/app_client.rs: the rows of an application are fetched, verified, completed from the
-- columns and decoded. The data is stored by the block's number, for the one application of the
-- client. Logging is not modelled.
pub mod Source
pub mod Rows
pub mod Cells
pub mod Merged
pub mod Fetched
pub mod Blocks
pub mod Sequence
pub mod Matrix
mod Examples
use avail_light.Prelude.{
  ℕ, zero, suc, ◌+◌, ◌-◌, ◌*◌, Bool, true, false, not, ◌&&◌, Option, some, none, List, [], ◌∷◌,
  ◌++◌, ◌==◌, ltb, leb, if◌then◌else◌, Result, ok, err, length, retain,
}
use avail_light.Prelude.Assoc.{insert}
use avail_light.Prelude.Sets.{contains}
use avail_light.Types.Header.{H256}
use avail_light.Types.Block.{Kate, Extension, BlockVerified, BlockProcessed, verified, skipped}
use avail_light.Data.Store.{Store, extended}
use avail_light.Network.{NetworkMode, p2p_only, rpc_only, both}
use Source.{
  Row, AppData, DataCell, AppKate, AppNode, AppError, missing_extension, verification_error,
  too_many_missing, decoding_failed,
}
use Rows.{no_rows, set_rows, merge_rows, fetch_rows_from_dht, get_kate_rows}
use Cells.{data_cells_from_rows, reconstruct_rows_from_dht}

pub record AppClientConfig : Type 0 where
  pub threshold : ℕ
  pub network_mode : NetworkMode

-- Why the loop has ended; each end triggers the shutdown.
pub data AppStop : Type 0 where
  receive_failed send_failed : AppStop
  process_failed : AppError → AppStop

pub record AppRun (F : Type 0) : Type 0 where
  pub db : Store F
  pub sent : List (ℕ × AppData)
  pub reason : AppStop

abbrev is_false : Option Bool → Bool
is_false none = false
is_false (some b) = not b

module _ {F : Type 0} where
  unfoldable pub put_app_data : ℕ → AppData → Store F → Store F
  put_app_data block_number content db = record db {
    app_data = insert block_number content db.app_data;
  }

  -- The sync range is `first..end`.
  unfoldable pub set_data_verified_state : ℕ → ℕ → ℕ → Store F → Store F
  set_data_verified_state first end block_number db =
      let db' =
        if leb first block_number && ltb block_number end
        then record db { verified_sync_data = some (extended db.verified_sync_data block_number) }
        else record db { verified_data = some (extended db.verified_data block_number) } in
      if is_false db'.is_synced && ltb first end && block_number + 1 == end
      then record db' { is_synced = some true }
      else db'

module _ {kate : Kate} (app : AppKate kate) (cfg : AppClientConfig) (app_id : ℕ) where
  module _ (node : AppNode kate) (extension : Extension kate) where
    -- In the mode with p2p only the node is not asked.
    unfoldable pub rpc_rows_of : H256 → ℕ → List ℕ → Result AppError (List (Option Row))
    unfolding no_rows get_kate_rows
    rpc_rows_of block_hash count missing = elim cfg.network_mode [
      | p2p_only ↦ ok (no_rows count)
      | both ↦ get_kate_rows node app extension.dimensions missing block_hash
      | rpc_only ↦ get_kate_rows node app extension.dimensions missing block_hash
    ]

    -- The part after the second verification, with the merged rows and those still missing.
    unfoldable pub complete : List (Option Row) → List ℕ → Result AppError AppData
    unfolding reconstruct_rows_from_dht set_rows data_cells_from_rows
    complete rows missing_rows =
        if ltb cfg.threshold (length missing_rows * app.width extension.dimensions)
        then err too_many_missing
        else elim (reconstruct_rows_from_dht node.net extension.dimensions extension.commitments app
            missing_rows) [
              | err e ↦ err e
              | ok dht_rows ↦ elim (set_rows dht_rows rows) [
                | err e ↦ err e
                | ok rows' ↦ elim (data_cells_from_rows rows') [
                  | err e ↦ err e
                  | ok cells ↦
                      elim (app.decode_app_extrinsics extension.lookup extension.dimensions cells
                        app_id) [ none ↦ err decoding_failed | some content ↦ ok content ]
                ]
              ]
            ]

    unfoldable pub verify_equality : List (Option Row) → Result AppError (List ℕ × List ℕ)
    verify_equality rows =
        elim (app.verify_equality extension.commitments rows extension.lookup extension.dimensions
          app_id) [ none ↦ err verification_error | some r ↦ ok r ]

    unfoldable pub app_data_of : H256 → Result AppError AppData
    unfolding fetch_rows_from_dht verify_equality rpc_rows_of merge_rows complete
    app_data_of block_hash =
        elim (fetch_rows_from_dht node app extension.dimensions
          (app.app_specific_rows extension.lookup extension.dimensions app_id)) [
            | err e ↦ err e
            | ok dht_rows ↦ elim (verify_equality dht_rows) [
              | err e ↦ err e
              | ok (dht_verified, dht_missing) ↦
                  elim (rpc_rows_of block_hash (length dht_rows) dht_missing) [
                    | err e ↦ err e
                    | ok rpc_rows ↦ elim (verify_equality rpc_rows) [
                      | err e ↦ err e
                      | ok (rpc_verified, rpc_missing) ↦
                          complete
                            (merge_rows (dht_verified ++ rpc_verified) 0
                              (app.extended_rows extension.dimensions) dht_rows rpc_rows)
                            (retain (λ row. not (contains dht_verified row)) rpc_missing)
                    ]
                  ]
            ]
          ]

  -- The data of the block, with the database after it.
  unfoldable pub process_block :
      AppNode kate
      → BlockVerified kate
      → Store kate.Float
      → Result AppError (AppData × Store kate.Float)
  unfolding app_data_of put_app_data
  process_block node block db = elim block.extension [
    | none ↦ err missing_extension
    | some extension ↦ elim (app_data_of node extension block.header_hash) [
      | err e ↦ err e
      | ok content ↦ ok (content, put_app_data block.block_num content db)
    ]
  ]

  -- The loop over the blocks received, until one of its ends; `listening` tells whether the data
  -- sent has a receiver.
  unfoldable pub run :
      (ℕ → AppNode kate)
      → ℕ
      → ℕ
      → Bool
      → List (BlockProcessed kate)
      → Store kate.Float
      → AppRun kate.Float
  unfolding process_block set_data_verified_state
  run nodes first end listening [] db = record { db = db; sent = []; reason = receive_failed }
  run nodes first end listening (skipped n ∷ bs) db = run nodes first end listening bs db
  run nodes first end listening (verified block ∷ bs) db =
      let n = block.block_num in
      let passed = run nodes first end listening bs (set_data_verified_state first end n db) in
      elim block.extension [
        | none ↦ passed
        | some extension ↦
            if not (app.has_range extension.lookup app_id)
            then passed
            else elim (process_block (nodes n) block db) [
              | err e ↦ record { db = db; sent = []; reason = process_failed e }
              | ok (content, db') ↦
                  let db'' = set_data_verified_state first end n db' in
                  let rest = run nodes first end listening bs db'' in
                  if listening
                  then record rest { sent = (n, content) ∷ rest.sent }
                  else record { db = db''; sent = []; reason = send_failed }
            ]
      ]

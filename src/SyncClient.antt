-- ===== src/SyncClient.antt =====
-- core/src/sync_client.rs: the blocks before the latest one are fetched and verified by sampling. The
-- nodes' headers and the network client are parameters; blocks sent are a list.
pub mod Blocks
pub mod Rounds
mod Examples
use avail_light.Prelude.{
  ℕ, zero, suc, ◌+◌, ◌^◌, Bool, true, false, Option, some, none, List, [], ◌∷◌, ◌++◌, if◌then◌else◌,
  leb, ltb, length, Result, ok, err,
}
use avail_light.Prelude.Assoc.{lookup, insert}
use avail_light.Types.Header.{H256, AvailHeader}
use avail_light.Types.Block.{
  Kate, Extension, BlockVerified, BlockProcessed, verified, BlockError, extract_kate,
  calculate_confidence, try_from,
}
use avail_light.Data.Store.{Store, extended, put_verified_cell_count}
use avail_light.Network.{Cell, FetchError, FetchStats}
use avail_light.LightClient.{NetworkClient, or_dimensions}

pub data SyncError : Type 0 where
  converting_failed : BlockError → SyncError
  invalid_commitments count_too_large header_unavailable : SyncError
  fetch_failed : FetchError → SyncError

-- The result of a block, the database after it, and the blocks sent.
pub record SyncOutcome (kate : Kate) : Type 0 where
  pub result : Result SyncError (Unit {0})
  pub db : Store kate.Float
  pub sent : List (BlockProcessed kate)

module _ {F : Type 0} where
  -- `is_confidence_stored`
  unfoldable pub is_confidence_stored : ℕ → Store F → Bool
  is_confidence_stored n db = elim (lookup n db.verified_cell_count) [
    | none ↦ false
    | some _ ↦ true
  ]

  unfoldable pub store_achieved_sync_confidence : ℕ → Store F → Store F
  store_achieved_sync_confidence n db = record db {
    achieved_sync_confidence = some (extended db.achieved_sync_confidence n);
  }

  unfoldable pub store_verified_sync_header : ℕ → Store F → Store F
  store_verified_sync_header n db = record db {
    verified_sync_header = some (extended db.verified_sync_header n);
  }

  unfoldable pub store_latest_sync : ℕ → Store F → Store F
  store_latest_sync n db = record db { latest_sync = some n }

  unfoldable pub store_is_synced : Bool → Store F → Store F
  store_is_synced b db = record db { is_synced = some b }

module _ {kate : Kate} (client : NetworkClient kate) where
  -- The part after the fetch; `try_into` to 32 bits.
  unfoldable pub finish :
      AvailHeader → BlockVerified kate → ℕ → ℕ → Store kate.Float → SyncOutcome kate
  finish header block required count db =
      let confidence = calculate_confidence kate count in
      if ltb count required
      then record { result = ok tt; db = db; sent = [] }
      else if ltb count (2 ^ 32)
      then record {
        result = ok tt;
        db = put_verified_cell_count header.number count db;
        sent = verified (record block { confidence = some confidence }) ∷ [];
      }
      else record { result = err count_too_large; db = db; sent = [] }

  unfoldable pub sync_sample :
      AvailHeader
      → H256
      → List ℕ
      → BlockVerified kate
      → Extension kate
      → Store kate.Float
      → SyncOutcome kate
  unfolding finish
  sync_sample header header_hash commitment block extension db = elim (kate.from_slice commitment) [
    | none ↦ record { result = err invalid_commitments; db = db; sent = [] }
    | some commitments ↦
        let positions =
          client.random_cells (or_dimensions block.target_grid_dimensions extension.dimensions) in
        elim (client.fetch_verified header.number header_hash extension.dimensions commitments
          positions) [
            | err e ↦ record { result = err (fetch_failed e); db = db; sent = [] }
            | ok (fetched, unfetched, stats) ↦
                finish header block (length positions) (length fetched) db
          ]
  ]

  unfoldable pub process_block : AvailHeader → H256 → Store kate.Float → SyncOutcome kate
  unfolding sync_sample
  process_block header header_hash db =
      let skip : SyncOutcome kate = record { result = ok tt; db = db; sent = [] } in
      elim (extract_kate header.extension) [
        | none ↦ skip
        | some (_, _, _, commitment) ↦ elim (try_from kate header none) [
          | err e ↦ record { result = err (converting_failed e); db = db; sent = [] }
          | ok block ↦ elim block.extension [
            | none ↦ skip
            | some extension ↦
                if leb (kate.cols extension.dimensions) 2
                then skip
                else sync_sample header header_hash commitment block extension db
          ]
        ]
      ]

  module _ (rpc_header : ℕ → Option (AvailHeader × H256)) where
    -- The header is read from the database, or else asked of a node and stored.
    unfoldable pub get_header_by_block_number :
        ℕ → Store kate.Float → Result SyncError (AvailHeader × H256) × Store kate.Float
    get_header_by_block_number n db = elim (lookup n db.block_header) [
      | some header ↦ (ok (header, kate.header_hash header), db)
      | none ↦ elim (rpc_header n) [
        | none ↦ (err header_unavailable, db)
        | some (header, hash) ↦
            (ok (header, hash), record db { block_header = insert n header db.block_header })
      ]
    ]

    -- One round of the loop: the database after it, and the blocks sent.
    unfoldable pub sync_round : ℕ → Store kate.Float → Store kate.Float × List (BlockProcessed kate)
    unfolding get_header_by_block_number store_latest_sync store_verified_sync_header process_block
        store_achieved_sync_confidence is_confidence_stored
    sync_round n db =
        let (found, db') = get_header_by_block_number n db in
        if is_confidence_stored n db then (db, []) else elim found [
          | err e ↦ (db', [])
          | ok (header, hash) ↦
              let o : SyncOutcome kate =
                process_block header hash
                  (store_verified_sync_header n (store_latest_sync n db')) in
              elim o.result [
                | err e ↦ (o.db, o.sent)
                | ok _ ↦ (store_achieved_sync_confidence n o.db, o.sent)
              ]
        ]

    -- The loop over `count` blocks from `first`.
    unfoldable pub sync_range :
        ℕ → ℕ → Store kate.Float → Store kate.Float × List (BlockProcessed kate)
    unfolding sync_round
    sync_range first zero db = (db, [])
    sync_range first (suc count) db =
        let (db', sent) = sync_round first db in
        let (db'', rest) = sync_range (first + 1) count db' in (db'', sent ++ rest)

    unfoldable pub run :
        Option ℕ → ℕ → ℕ → Store kate.Float → Store kate.Float × List (BlockProcessed kate)
    unfolding sync_range store_is_synced
    run app_id first zero db = (db, [])
    run app_id first (suc count) db =
        let (db', sent) = sync_range first (suc count) db in
        elim app_id [ none ↦ (store_is_synced true db', sent) | some _ ↦ (db', sent) ]

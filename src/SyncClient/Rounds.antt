-- ===== src/SyncClient/Rounds.antt =====
-- The loop of core/src/sync_client.rs: a count of verified cells that is stored is never changed,
-- and new ones are those of blocks in the range.
use avail_light.Prelude.{
  ℕ, zero, suc, ◌+◌, ◌≤◌, ◌<◌, ◌≡◌, refl, ◌⊎◌, inl, inr, Option, some, none, ◌==◌, length, ok,
  arith, Bool-cases, Option-cases, Result-cases,
}
use avail_light.Prelude.Assoc.{lookup, insert, lookup-insert}
use avail_light.Types.Header.{H256, AvailHeader}
use avail_light.Types.Block.{Kate}
use avail_light.Data.Store.{Store}
use avail_light.LightClient.{NetworkClient}
use avail_light.SyncClient.{
  is_confidence_stored, process_block, get_header_by_block_number, sync_round, sync_range, run,
  store_latest_sync, store_verified_sync_header, store_achieved_sync_confidence, store_is_synced,
}
use avail_light.SyncClient.Blocks.{process_block-SyncCases}

module _ {F : Type 0} where
  -- A header stands under its own number.
  abbrev pub IsKeyed : Store F → Type 0
  IsKeyed db = (n : ℕ) (h : AvailHeader) → lookup n db.block_header ≡ some h → h.number ≡ n

  -- A count is new only for the block, and only if it had none.
  Counted : ℕ → Store F → Store F → Type 0
  Counted n db db' =
      (db'.verified_cell_count ≡ db.verified_cell_count)
      ⊎ ((k : ℕ) × (lookup n db.verified_cell_count ≡ none)
          × (db'.verified_cell_count ≡ insert n k db.verified_cell_count))

  kept-IsKeyed : (db db' : Store F) → db'.block_header ≡ db.block_header → IsKeyed db → IsKeyed db'
  kept-IsKeyed db db' e v m g l = v m g (ground arith)

  insert-IsKeyed :
      (n : ℕ) (h : AvailHeader) (db : Store F)
      → h.number ≡ n
      → IsKeyed db
      → IsKeyed (record db { block_header = insert n h db.block_header })
  insert-IsKeyed n h db e v m g l = elim (Bool-cases (n == m)) [
    | inl t ↦ ground (arith, lookup-insert n m h db.block_header)
    | inr t ↦ v m g (ground (arith, lookup-insert n m h db.block_header))
  ]

module _ {kate : Kate} (client : NetworkClient kate)
    (rpc_header : ℕ → Option (AvailHeader × H256)) where
  -- What nodes answer is the header of the number that was asked for.
  abbrev pub IsNumbered : Type 0
  IsNumbered =
      (n : ℕ) (h : AvailHeader) (hash : H256) → rpc_header n ≡ some (h, hash) → h.number ≡ n

  block_step :
      (n : ℕ) (h : AvailHeader) (hash : H256) (db : Store kate.Float)
      → h.number ≡ n
      → lookup n db.verified_cell_count ≡ none
      → ((process_block client h hash db).db.block_header ≡ db.block_header)
        × Counted n db (process_block client h hash db).db
  unfolding Counted
  block_step n h hash db e l = elim (process_block-SyncCases client h hash db) [
    | inr (same, _) ↦ (ground arith, inl (ground arith))
    | inl s ↦ (s.headers, inr (length s.fetched, l, ground (arith, s.counted)))
  ]

  -- A round in which the header was found.
  found_step :
      (n : ℕ) (h : AvailHeader) (hash : H256) (db db' : Store kate.Float)
      → h.number ≡ n
      → lookup n db.verified_cell_count ≡ none
      → get_header_by_block_number client rpc_header n db ≡ (ok (h, hash), db')
      → db'.verified_cell_count ≡ db.verified_cell_count
      → ((sync_round client rpc_header n db).0.block_header ≡ db'.block_header)
        × Counted n db (sync_round client rpc_header n db).0
  unfolding sync_round is_confidence_stored store_achieved_sync_confidence
      store_verified_sync_header store_latest_sync Counted
  found_step n h hash db db' e l g c =
      let (hs, cs) =
        block_step n h hash (store_verified_sync_header n (store_latest_sync n db')) e
          (ground arith) in
      elim (Result-cases
        (process_block client h hash
          (store_verified_sync_header n (store_latest_sync n db'))).result) [
            | inr (x, r) ↦ (ground arith, ground arith)
            | inl (x, r) ↦ (ground arith, ground arith)
          ]

  round_step :
      (n : ℕ) (db : Store kate.Float)
      → IsNumbered
      → IsKeyed db
      → IsKeyed (sync_round client rpc_header n db).0
        × Counted n db (sync_round client rpc_header n db).0
  unfolding get_header_by_block_number Counted sync_round is_confidence_stored
  round_step n db v k = elim (Option-cases (lookup n db.verified_cell_count)) [
    | inr (c, e) ↦
        (kept-IsKeyed db (sync_round client rpc_header n db).0 (ground arith) k, inl (ground arith))
    | inl e ↦ elim (Option-cases (lookup n db.block_header)) [
      | inr (h, f) ↦
          let (hs, c) = found_step n h (kate.header_hash h) db db (k n h f) e (ground arith) refl in
          (kept-IsKeyed db (sync_round client rpc_header n db).0 hs k, c)
      | inl f ↦ elim (Option-cases (rpc_header n)) [
        | inl g ↦ (
          kept-IsKeyed db (sync_round client rpc_header n db).0 (ground arith) k,
          inl (ground arith),
        )
        | inr ((h, hash), g) ↦
            let (hs, c) =
              found_step n h hash db (record db { block_header = insert n h db.block_header })
                (v n h hash g) e (ground arith) refl in
            (
              kept-IsKeyed (record db { block_header = insert n h db.block_header })
                  (sync_round client rpc_header n db).0 hs (insert-IsKeyed n h db (v n h hash g) k),
              c,
            )
      ]
    ]
  ]

  -- The count of a block is the one it had, or it is new and the block is in the range.
  abbrev pub CountOf : ℕ → ℕ → ℕ → Store kate.Float → Store kate.Float → Type 0
  CountOf m first count db db' =
      (lookup m db'.verified_cell_count ≡ lookup m db.verified_cell_count)
      ⊎ ((lookup m db.verified_cell_count ≡ none) × (first ≤ m) × (m < first + count))

  Counted-CountOf : (n m : ℕ) (db db' : Store kate.Float) → Counted n db db' → CountOf m n 1 db db'
  unfolding Counted
  Counted-CountOf n m db db' (inl e) = inl (ground arith)
  Counted-CountOf n m db db' (inr (k, l, e)) = elim (Bool-cases (n == m)) [
    | inl t ↦ inr (ground arith, ground arith, ground arith)
    | inr t ↦ inl (ground (arith, lookup-insert n m k db.verified_cell_count))
  ]

  CountOf-trans :
      (m first count : ℕ) (a b c : Store kate.Float)
      → CountOf m first 1 a b
      → CountOf m (first + 1) count b c
      → CountOf m first (suc count) a c
  CountOf-trans m first count a b c (inl e) (inl f) = inl (ground arith)
  CountOf-trans m first count a b c (inl e) (inr (n, l, h)) =
      inr (ground arith, omega arith, omega arith)
  CountOf-trans m first count a b c (inr (n, l, h)) f = inr (n, l, omega arith)

  sync_range-CountOf :
      (first count m : ℕ) (db : Store kate.Float)
      → IsNumbered
      → IsKeyed db
      → CountOf m first count db (sync_range client rpc_header first count db).0
        × IsKeyed (sync_range client rpc_header first count db).0
  unfolding sync_range
  sync_range-CountOf first zero m db v k = (inl refl, k)
  sync_range-CountOf first (suc count) m db v k =
      let (k', c) = round_step first db v k in
      let (r, k'') =
        sync_range-CountOf (first + 1) count m (sync_round client rpc_header first db).0 v k' in
      (
        CountOf-trans m first count db (sync_round client rpc_header first db).0
            (sync_range client rpc_header (first + 1) count
              (sync_round client rpc_header first db).0).0
            (Counted-CountOf first m db (sync_round client rpc_header first db).0 c) r,
        k'',
      )

  -- The sync over the blocks from one number on leaves every count of verified cells that was there
  -- as it was, and a count is new only for a block of the range; headers stay under their own
  -- numbers, where the nodes answer with the header that was asked for.
  pub run-CountOf :
      (app_id : Option ℕ) (first count m : ℕ) (db : Store kate.Float)
      → IsNumbered
      → IsKeyed db
      → CountOf m first count db (run client rpc_header app_id first count db).0
        × IsKeyed (run client rpc_header app_id first count db).0
  unfolding run store_is_synced
  run-CountOf app_id first zero m db v k = (inl refl, k)
  run-CountOf none first (suc count) m db v k = sync_range-CountOf first (suc count) m db v k
  run-CountOf (some a) first (suc count) m db v k = sync_range-CountOf first (suc count) m db v k

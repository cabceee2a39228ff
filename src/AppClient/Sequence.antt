-- ===== src/AppClient/Sequence.antt =====
-- The loop of core/src/app_client.rs over the blocks received.
use avail_light.Prelude.{
  ℕ, ◌≤◌, ◌<◌, ◌≡◌, inl, inr, Bool, false, ◌&&◌, some, List, [], ◌∷◌, ◌==◌, arith, leb, ltb, All,
  Bool-cases, Option-cases, Result-cases, ok,
}
use avail_light.Prelude.Assoc.{lookup, lookup-insert}
use avail_light.Types.Block.{
  BlockRange, init, Kate, BlockVerified, BlockProcessed, verified, skipped,
}
use avail_light.Data.Store.{Store, extended}
use avail_light.AppClient.Source.{AppData, AppKate, AppNode}
use avail_light.AppClient.{
  AppClientConfig, AppRun, put_app_data, set_data_verified_state, app_data_of, process_block, run,
}

-- The range of the sync ends within `first..end`, and the other range ends outside.
pub record IsSplit {F : Type 0} (first end : ℕ) (db : Store F) : Type 0 where
  pub sync : (r : BlockRange) → db.verified_sync_data ≡ some r → (first ≤ r.last) × (r.last < end)
  pub other :
      (r : BlockRange) → db.verified_data ≡ some r → leb first r.last && ltb r.last end ≡ false

-- The database has data for every number.
abbrev pub Holds : {F : Type 0} → Store F → ℕ → Type 0
Holds db n = (d : AppData) × (lookup n db.app_data ≡ some d)

module _ {F : Type 0} where
  state-IsSplit :
      (first end n : ℕ) (db : Store F)
      → IsSplit first end db
      → IsSplit first end (set_data_verified_state first end n db)
  unfolding set_data_verified_state extended init
  state-IsSplit first end n db v = record {
    sync = λ r e. ground (arith, v.sync r);
    other = λ r e. ground (arith, v.other r);
  }

  put-IsSplit :
      (first end n : ℕ) (d : AppData) (db : Store F)
      → IsSplit first end db
      → IsSplit first end (put_app_data n d db)
  unfolding put_app_data
  put-IsSplit first end n d db v = record { sync = v.sync; other = v.other }

  state-Holds :
      (first end n k : ℕ) (db : Store F)
      → Holds db k
      → Holds (set_data_verified_state first end n db) k
  unfolding set_data_verified_state
  state-Holds first end n k db (d, e) = (d, ground arith)

  put-Holds : (n k : ℕ) (d : AppData) (db : Store F) → Holds db k → Holds (put_app_data n d db) k
  unfolding put_app_data
  put-Holds n k d db (c, e) = elim (Bool-cases (n == k)) [
    | inl b ↦ (d, ground (arith, lookup-insert n k d db.app_data))
    | inr b ↦ (c, ground (arith, lookup-insert n k d db.app_data))
  ]

  put-Holds-new : (n : ℕ) (d : AppData) (db : Store F) → Holds (put_app_data n d db) n
  unfolding put_app_data
  put-Holds-new n d db = (d, ground (arith, lookup-insert n n d db.app_data))

module _ {kate : Kate} (app : AppKate kate) (cfg : AppClientConfig) (app_id : ℕ)
    (nodes : ℕ → AppNode kate) where
  process_block-put_app_data :
      (node : AppNode kate) (block : BlockVerified kate) (db db' : Store kate.Float) (d : AppData)
      → process_block app cfg app_id node block db ≡ ok (d, db')
      → db' ≡ put_app_data block.block_num d db
  unfolding process_block
  process_block-put_app_data node block db db' d h = elim (Option-cases block.extension) [
    | inl e ↦ ground arith
    | inr (extension, e) ↦
        elim (Result-cases (app_data_of app cfg app_id node extension block.header_hash)) [
          | inr (x, f) ↦ ground arith
          | inl (b, f) ↦ ground arith
        ]
  ]

  -- What the loop keeps.
  record Kept (first end : ℕ) (db : Store kate.Float) (r : AppRun kate.Float) : Type 0 where
    split : IsSplit first end r.db
    held : (k : ℕ) → Holds db k → Holds r.db k
    sent : All (λ x. Holds r.db x.0) r.sent

  run-Kept :
      (first end : ℕ) (listening : Bool) (bs : List (BlockProcessed kate)) (db : Store kate.Float)
      → IsSplit first end db
      → Kept first end db (run app cfg app_id nodes first end listening bs db)
  unfolding run
  run-Kept first end listening [] db v = record { split = v; held = λ k h. h; sent = tt }
  run-Kept first end listening (skipped n ∷ bs) db v =
      let w = run-Kept first end listening bs db v in
      record { split = w.split; held = w.held; sent = w.sent }
  run-Kept first end listening (verified block ∷ bs) db v =
      let n = block.block_num in
      let w =
        run-Kept first end listening bs (set_data_verified_state first end n db)
          (state-IsSplit first end n db v) in
      let passed : Kept first end db (
          run app cfg app_id nodes first end listening bs
            (set_data_verified_state first end n db)) =
        record {
          split = w.split;
          held = λ k h. w.held k (state-Holds first end n k db h);
          sent = w.sent;
        } in
      elim (Option-cases block.extension) [
        | inl e ↦ rw (e, run) passed
        | inr (extension, e) ↦ elim (Bool-cases (app.has_range extension.lookup app_id)) [
          | inr f ↦ rw (e, f, run) passed
          | inl f ↦ elim (Result-cases (process_block app cfg app_id (nodes n) block db)) [
            | inr (x, g) ↦ rw (e, f, g, run) (record { split = v; held = λ k h. h; sent = tt })
            | inl ((d, db'), g) ↦
                let p = process_block-put_app_data (nodes n) block db db' d g in
                let db'' : Store kate.Float = set_data_verified_state first end n db' in
                let s : IsSplit first end db'' =
                  state-IsSplit first end n db' (rw p (put-IsSplit first end n d db v)) in
                let t : (k : ℕ) → Holds db k → Holds db'' k =
                  λ k h. state-Holds first end n k db' (rw p (put-Holds n k d db h)) in
                let u : Holds db'' n =
                  state-Holds first end n n db' (rw p (put-Holds-new n d db)) in
                let q = run-Kept first end listening bs db'' s in
                elim (Bool-cases listening) [
                  | inr i ↦ rw (e, f, g, i, run) (record { split = s; held = t; sent = tt })
                  | inl i ↦
                      rw (e, f, g, i, run)
                        (record {
                          split = q.split;
                          held = λ k h. q.held k (t k h);
                          sent = (q.held n u, q.sent);
                        })
                ]
          ]
        ]
      ]

  -- The loop keeps the ranges apart: the range of the sync ends at a block of the sync, and the other
  -- range at a block outside of it. Data that the database has for a block stay there or are replaced
  -- by others, and every block whose data are sent has data in the database.
  pub run-IsSplit :
      (first end : ℕ) (listening : Bool) (bs : List (BlockProcessed kate)) (db : Store kate.Float)
      → IsSplit first end db
      → IsSplit first end (run app cfg app_id nodes first end listening bs db).db
        × ((k : ℕ) → Holds db k → Holds (run app cfg app_id nodes first end listening bs db).db k)
        × All
            (λ x. Holds (run app cfg app_id nodes first end listening bs db).db x.0)
            (run app cfg app_id nodes first end listening bs db).sent
  run-IsSplit first end listening bs db v =
      let w = run-Kept first end listening bs db v in (w.split, w.held, w.sent)

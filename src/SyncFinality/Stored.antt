-- ===== src/SyncFinality/Stored.antt =====
-- What the loop of core/src/sync_finality.rs has stored when it finishes.
use avail_light.Prelude.{
  ℕ, zero, suc, ◌+◌, ◌<◌, ◌≡◌, subst, sym, ◌∙◌, inl, inr, some, List, [], ◌∷◌, ◌==◌, get_elem?, ok,
  arith, Bool-cases, Option-cases, Result-cases,
}
use avail_light.Prelude.Assoc.{lookup, lookup-insert}
use avail_light.Types.Header.{H256, AvailHeader}
use avail_light.Data.Store.{Store}
use avail_light.Finality.{ValidatorSet}
use avail_light.SyncFinality.{
  FinalityClient, prepend, filter_auth_set_changes, header_at, check_change, follow_chain,
}
use avail_light.SyncFinality.Start.{store_block_header, store_sync_checkpoint, follow_stored}

module _ {F : Type 0} (client : FinalityClient) where
  -- The headers of the numbers before are left alone.
  follow_stored_before :
      (rounds last n : ℕ) (prev_hash : H256) (valset : ValidatorSet) (db : Store F) (k : ℕ)
      → k < n
      → lookup k (follow_stored client rounds last n prev_hash valset db).1.block_header
        ≡ lookup k db.block_header
  unfolding follow_stored store_block_header store_sync_checkpoint
  follow_stored_before zero last n prev v db k l = elim (Bool-cases (n == last + 1)) [
    | inl e ↦ ground arith
    | inr e ↦ ground arith
  ]
  follow_stored_before (suc rounds) last n prev v db k l = elim (Bool-cases (n == last + 1)) [
    | inl e ↦ ground arith
    | inr e ↦ elim (Option-cases (header_at client n)) [
      | inl f ↦ ground arith
      | inr (g, f) ↦
          let db' = store_block_header n g db in
          elim (Bool-cases (g.parent_hash == prev)) [
            | inr p ↦ ground (arith, lookup-insert n k g db.block_header)
            | inl p ↦ elim (Result-cases (filter_auth_set_changes client g)) [
              | inr (x, q) ↦ ground (arith, lookup-insert n k g db.block_header)
              | inl ([], q) ↦ ground (
                arith,
                lookup-insert n k g db.block_header,
                follow_stored_before rounds last (n + 1) (client.crypto.header_hash g) v db' k
                    (omega (arith, l)),
              )
              | inl (x ∷ xs, q) ↦ elim (Result-cases (check_change client n v)) [
                | inr (y, s) ↦ ground (arith, lookup-insert n k g db.block_header)
                | inl (i, s) ↦ ground (
                  arith,
                  lookup-insert n k g db.block_header,
                  follow_stored_before rounds last (n + 1) (client.crypto.header_hash g)
                      (record { set_id = i + 1; validator_set = x ∷ xs })
                      (store_sync_checkpoint
                        (record { number = n + 1; set_id = i + 1; validator_set = x ∷ xs }) db')
                      k (omega (arith, l)),
                )
              ]
            ]
          ]
    ]
  ]

-- The headers are stored under their numbers, the first one under `n`.
abbrev pub AreStored : {F : Type 0} → ℕ → List AvailHeader → Store F → Type 0
AreStored n hs db =
    (i : ℕ) (h : AvailHeader) → get_elem? hs i ≡ some h → lookup (n + i) db.block_header ≡ some h

none_stored : {F : Type 0} (n : ℕ) (db : Store F) → AreStored n [] db
none_stored n db i h e = ground arith

cons-AreStored :
    {F : Type 0} (n : ℕ) (g : AvailHeader) (hs : List AvailHeader) (db : Store F)
    → lookup n db.block_header ≡ some g
    → AreStored (n + 1) hs db
    → AreStored n (g ∷ hs) db
cons-AreStored n g hs db e s zero h q = ground arith
cons-AreStored n g hs db e s (suc i) h q =
    let eq : n + 1 + i ≡ n + suc i = omega arith in
    subst (λ k. lookup k db.block_header ≡ some h) eq (s i h (ground arith))

module _ {F : Type 0} (client : FinalityClient) where
  -- The headers that a run of the loop goes through are stored at its end.
  abbrev pub Stores : ℕ → ℕ → ℕ → H256 → ValidatorSet → Store F → Type 0
  Stores rounds last n prev_hash valset db =
      (hs : List AvailHeader) × (follow_chain client rounds last n prev_hash valset ≡ ok hs)
      × AreStored n hs db

  step-Stores :
      (rounds last n : ℕ) (prev_hash next_hash : H256) (valset next : ValidatorSet)
      (g : AvailHeader) (db' : Store F)
      → follow_chain client (suc rounds) last n prev_hash valset
        ≡ prepend g (follow_chain client rounds last (n + 1) next_hash next)
      → lookup n db'.block_header ≡ some g
      → Stores rounds last
          (n + 1)
          next_hash
          next
          (follow_stored client rounds last (n + 1) next_hash next db').1
      → Stores
          (suc rounds)
          last
          n
          prev_hash
          valset
          (follow_stored client rounds last (n + 1) next_hash next db').1
  unfolding prepend
  step-Stores rounds last n prev nh v next g db' e l (hs, c, s) =
      let r = follow_stored client rounds last (n + 1) nh next db' in
      (
        g ∷ hs,
        ground (arith, e, c),
        cons-AreStored n g hs r.1
            (follow_stored_before client rounds last (n + 1) nh next db' n (omega arith) ∙ l) s,
      )

  pub follow_stored-Stores :
      (rounds last n : ℕ) (prev_hash : H256) (valset : ValidatorSet) (db : Store F)
      → (follow_stored client rounds last n prev_hash valset db).0 ≡ ok tt
      → Stores rounds last n prev_hash valset
          (follow_stored client rounds last n prev_hash valset db).1
  unfolding follow_stored follow_chain store_block_header store_sync_checkpoint prepend
  follow_stored-Stores zero last n prev v db h = elim (Bool-cases (n == last + 1)) [
    | inl e ↦ ([], ground arith, none_stored n (follow_stored client zero last n prev v db).1)
    | inr e ↦ ground arith
  ]
  follow_stored-Stores (suc rounds) last n prev v db h = elim (Bool-cases (n == last + 1)) [
    | inl e ↦
        ([], ground arith, none_stored n (follow_stored client (suc rounds) last n prev v db).1)
    | inr e ↦ elim (Option-cases (header_at client n)) [
      | inl f ↦ ground arith
      | inr (g, f) ↦
          let db' = store_block_header n g db in
          let hash = client.crypto.header_hash g in
          elim (Bool-cases (g.parent_hash == prev)) [
            | inr p ↦ ground arith
            | inl p ↦ elim (Result-cases (filter_auth_set_changes client g)) [
              | inr (x, q) ↦ ground arith
              | inl ([], q) ↦
                  let eq : follow_stored client (suc rounds) last n prev v db
                      ≡ follow_stored client rounds last (n + 1) hash v db' =
                    ground arith in
                  subst (λ r. Stores (suc rounds) last n prev v r.1) (sym eq)
                    (step-Stores rounds last n prev hash v v g db' (ground arith)
                      (ground (arith, lookup-insert n n g db.block_header))
                      (follow_stored-Stores rounds last (n + 1) hash v db' (ground arith)))
              | inl (x ∷ xs, q) ↦ elim (Result-cases (check_change client n v)) [
                | inr (y, s) ↦ ground arith
                | inl (i, s) ↦
                    let next : ValidatorSet = record { set_id = i + 1; validator_set = x ∷ xs } in
                    let db'' =
                      store_sync_checkpoint
                        (record { number = n + 1; set_id = i + 1; validator_set = x ∷ xs }) db' in
                    let eq : follow_stored client (suc rounds) last n prev v db
                        ≡ follow_stored client rounds last (n + 1) hash next db'' =
                      ground arith in
                    subst (λ r. Stores (suc rounds) last n prev v r.1) (sym eq)
                      (step-Stores rounds last n prev hash v next g db'' (ground arith)
                        (ground (arith, lookup-insert n n g db.block_header))
                        (follow_stored-Stores rounds last (n + 1) hash next db'' (ground arith)))
              ]
            ]
          ]
    ]
  ]

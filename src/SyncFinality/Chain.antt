-- ===== src/SyncFinality/Chain.antt =====
-- What a finished sync of core/src/sync_finality.rs has checked of the headers it stored.
use avail_light.Prelude.{
  ℕ, zero, suc, ◌+◌, ◌-◌, ◌≤◌, ◌≡◌, ◌≢◌, refl, subst, ◌⊎◌, inl, inr, true, List, [], ◌∷◌, ◌==◌,
  length, Result, ok, err, arith, Bool-cases, Option-cases, Result-cases,
}
use avail_light.Types.Header.{H256, AvailHeader}
use avail_light.Types.Grandpa.{Public, GrandpaJustification}
use avail_light.Finality.{ValidatorSet, check_finality}
use avail_light.SyncFinality.{
  FinalityClient, SyncError, not_finished, prepend, forced_valsets, scheduled_valsets,
  filter_auth_set_changes, header_at, check_change, follow_chain, sync_chain,
}

module _ (client : FinalityClient) where
  -- A justification that the validators have signed.
  abbrev pub IsJustified : ValidatorSet → ℕ → Type 0
  IsJustified valset set_id =
      (justification : GrandpaJustification) × (check_finality client.crypto valset justification
        ≡ ok set_id)

  -- Each header has the hash of the one before as its parent hash; and a header either leaves the
  -- validators as they are, or the validators before it have signed a justification, and the ones
  -- that it names follow them with the next set id.
  abbrev pub IsChain : H256 → ValidatorSet → List AvailHeader → Type 0
  IsChain prev_hash valset [] = Unit {0}
  IsChain prev_hash valset (h ∷ hs) =
      (h.parent_hash ≡ prev_hash)
      × (((filter_auth_set_changes client h ≡ ok [])
            × IsChain (client.crypto.header_hash h) valset hs)
          ⊎ ((next : List Public) × (set_id : ℕ) × (filter_auth_set_changes client h ≡ ok next)
              × IsJustified valset set_id
              × IsChain (client.crypto.header_hash h)
                  (record { set_id = set_id + 1; validator_set = next }) hs))

  check_change-IsJustified :
      (n : ℕ) (valset : ValidatorSet) (set_id : ℕ)
      → check_change client n valset ≡ ok set_id
      → IsJustified valset set_id
  unfolding check_change
  check_change-IsJustified n valset set_id h =
      elim (Option-cases (client.request_finality_proof n)) [
        | inl e ↦ ground arith
        | inr ((block, justification), e) ↦ elim (Option-cases (client.get_header_by_hash block)) [
          | inl f ↦ ground arith
          | inr (g, f) ↦ elim (Result-cases (check_finality client.crypto valset justification)) [
            | inl (s, c) ↦ (justification, ground arith)
            | inr (x, c) ↦ ground arith
          ]
        ]
      ]

  prepend-ok :
      (h : AvailHeader) (r : Result SyncError (List AvailHeader)) (hs : List AvailHeader)
      → prepend h r ≡ ok hs
      → (ts : List AvailHeader) × (r ≡ ok ts) × (h ∷ ts ≡ hs)
  unfolding prepend
  prepend-ok h (ok ts) hs e = (ts, refl, ground arith)
  prepend-ok h (err x) hs e = ground arith

  at_end :
      (prev_hash : H256) (valset : ValidatorSet) (n last : ℕ) (hs : List AvailHeader)
      → [] ≡ hs
      → (n == last + 1) ≡ true
      → IsChain prev_hash valset hs × (n + length hs ≡ last + 1)
  at_end prev v n last hs e h =
      subst (λ ys. IsChain prev v ys × (n + length ys ≡ last + 1)) e (tt, ground arith)

  pub follow_chain-IsChain :
      (rounds last n : ℕ) (prev_hash : H256) (valset : ValidatorSet) (hs : List AvailHeader)
      → follow_chain client rounds last n prev_hash valset ≡ ok hs
      → IsChain prev_hash valset hs × (n + length hs ≡ last + 1)
  unfolding follow_chain
  follow_chain-IsChain zero last n prev v hs h = elim (Bool-cases (n == last + 1)) [
    | inl e ↦ at_end prev v n last hs (ground arith) e
    | inr e ↦ ground arith
  ]
  follow_chain-IsChain (suc rounds) last n prev v hs h = elim (Bool-cases (n == last + 1)) [
    | inl e ↦ at_end prev v n last hs (ground arith) e
    | inr e ↦ elim (Option-cases (header_at client n)) [
      | inl f ↦ ground arith
      | inr (g, f) ↦ elim (Bool-cases (g.parent_hash == prev)) [
        | inr p ↦ ground arith
        | inl p ↦ elim (Result-cases (filter_auth_set_changes client g)) [
          | inr (x, q) ↦ ground arith
          | inl ([], q) ↦
              let (ts, r, w) =
                prepend-ok g
                  (follow_chain client rounds last (n + 1) (client.crypto.header_hash g) v) hs
                  (ground arith) in
              let (c, l) =
                follow_chain-IsChain rounds last (n + 1) (client.crypto.header_hash g) v ts r in
              subst (λ ys. IsChain prev v ys × (n + length ys ≡ last + 1)) w
                ((ground arith, inl (q, c)), omega arith)
          | inl (x ∷ xs, q) ↦ elim (Result-cases (check_change client n v)) [
            | inr (y, s) ↦ ground arith
            | inl (i, s) ↦
                let (ts, r, w) =
                  prepend-ok g
                    (follow_chain client rounds last (n + 1) (client.crypto.header_hash g)
                      (record { set_id = i + 1; validator_set = x ∷ xs }))
                    hs (ground arith) in
                let (c, l) =
                  follow_chain-IsChain rounds last (n + 1) (client.crypto.header_hash g)
                    (record { set_id = i + 1; validator_set = x ∷ xs }) ts r in
                subst (λ ys. IsChain prev v ys × (n + length ys ≡ last + 1)) w
                  (
                    (ground arith, inr (x ∷ xs, i, q, check_change-IsJustified n v i s, c)),
                    omega arith,
                  )
          ]
        ]
      ]
    ]
  ]

prepend-err :
    (h : AvailHeader) (r : Result SyncError (List AvailHeader)) (x : SyncError)
    → prepend h r ≡ err x
    → r ≡ err x
unfolding prepend
prepend-err h (ok ts) x e = ground arith
prepend-err h (err y) x e = ground arith

module _ (client : FinalityClient) where
  changes_by :
      (h : AvailHeader) (f s : List (List Public))
      → forced_valsets client h.logs ≡ f
      → scheduled_valsets client h.logs ≡ s
      → filter_auth_set_changes client h ≢ err not_finished
  unfolding filter_auth_set_changes
  changes_by h [] [] p q e = ground arith
  changes_by h [] (x ∷ []) p q e = ground arith
  changes_by h [] (x ∷ y ∷ s) p q e = ground arith
  changes_by h (x ∷ []) s p q e = ground arith
  changes_by h (x ∷ y ∷ f) s p q e = ground arith

  check_decided : (n : ℕ) (v : ValidatorSet) → check_change client n v ≢ err not_finished
  unfolding check_change
  check_decided n v h = elim (Option-cases (client.request_finality_proof n)) [
    | inl e ↦ ground arith
    | inr ((block, justification), e) ↦ elim (Option-cases (client.get_header_by_hash block)) [
      | inl f ↦ ground arith
      | inr (g, f) ↦ elim (Result-cases (check_finality client.crypto v justification)) [
        | inl (s, c) ↦ ground arith
        | inr (x, c) ↦ ground arith
      ]
    ]
  ]

  follow_chain_decided :
      (rounds last n : ℕ) (prev_hash : H256) (valset : ValidatorSet)
      → n + rounds ≡ last + 1
      → follow_chain client rounds last n prev_hash valset ≢ err not_finished
  unfolding follow_chain
  follow_chain_decided zero last n prev v l h = ground arith
  follow_chain_decided (suc rounds) last n prev v l h = elim (Option-cases (header_at client n)) [
    | inl f ↦ ground arith
    | inr (g, f) ↦ elim (Bool-cases (g.parent_hash == prev)) [
      | inr p ↦ ground arith
      | inl p ↦ elim (Result-cases (filter_auth_set_changes client g)) [
        | inr (x, q) ↦
            changes_by g (forced_valsets client g.logs) (scheduled_valsets client g.logs) refl refl
              (ground arith)
        | inl ([], q) ↦
            follow_chain_decided rounds last (n + 1) (client.crypto.header_hash g) v (omega arith) (
              prepend-err g
                (follow_chain client rounds last (n + 1) (client.crypto.header_hash g) v)
                not_finished (ground arith))
        | inl (x ∷ xs, q) ↦ elim (Result-cases (check_change client n v)) [
          | inr (y, s) ↦ check_decided n v (ground arith)
          | inl (i, s) ↦
              follow_chain_decided rounds last (n + 1) (client.crypto.header_hash g)
                (record { set_id = i + 1; validator_set = x ∷ xs }) (omega arith)
                (prepend-err g
                  (follow_chain client rounds last (n + 1) (client.crypto.header_hash g)
                    (record { set_id = i + 1; validator_set = x ∷ xs }))
                  not_finished (ground arith))
        ]
      ]
    ]
  ]

  -- From a block not beyond the one after the last, the rounds given are enough: the sync finishes or
  -- stops at an error of the code.
  pub sync_chain_decided :
      (last n : ℕ) (prev_hash : H256) (valset : ValidatorSet)
      → n ≤ last + 1
      → sync_chain client last n prev_hash valset ≢ err not_finished
  unfolding sync_chain
  sync_chain_decided last n prev v l =
      follow_chain_decided (last + 1 - n) last n prev v (omega arith)

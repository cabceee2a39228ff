-- ===== src/Finality/Acceptance.antt =====
-- When `check_finality` of core/src/finality.rs accepts.
use avail_light.Prelude.{
  ℕ, ◌*◌, ◌<◌, ◌≡◌, refl, sym, subst, ◌∙◌, inl, inr, Bool, true, ◌&&◌, List, [], ◌∷◌, map, arith,
  ◌==◌, length, All, In, retain, count_if, length-retain, Bool-cases, ok, if◌then◌else◌, ==→eq,
}
use avail_light.Prelude.Sets.{contains, IsNodup, IsSubset, length-IsSubset-le}
use avail_light.Prelude.Sort.{
  IsRising-IsNodup, dedup-sort-IsRising, contains-dedup-sort, In-dedup-sort,
}
use avail_light.Types.Grandpa.{Public, SignedPrecommit, GrandpaJustification}
use avail_light.Finality.Ancestry.{confirm_ancestry, Descends, confirm_ancestry-Descends}
use avail_light.Finality.Votes.{
  is_signed_by_supermajority_iff, contains-unique_validators, map_self,
}
use avail_light.Finality.{
  ValidatorSet, Crypto, is_signed_by_supermajority, unique_validators, unique_precommits,
  candidate_set_ids, Tally, signs, find_set_id, tally, ancestry_map, check_finality, or_else,
  is_some,
}

find_set_id_some :
    (crypto : Crypto) (round : ℕ) (p : SignedPrecommit) (ss : List ℕ) (s : ℕ)
    → contains ss s ≡ true
    → signs crypto round p s ≡ true
    → is_some (find_set_id crypto round p ss) ≡ true
unfolding find_set_id
find_set_id_some crypto round p [] s i h = ground arith
find_set_id_some crypto round p (x ∷ ss) s i h = elim (Bool-cases (x == s)) [
  | inl e ↦ rw (==→eq x s e, h)
  | inr e ↦ ground (arith, find_set_id_some crypto round p ss s)
]

All-contains_at : (P : ℕ → Type 0) (xs : List ℕ) (a : ℕ) → All P xs → contains xs a ≡ true → P a
All-contains_at P [] a h i = absurd (ground arith)
All-contains_at P (x ∷ xs) a h i = elim (Bool-cases (x == a)) [
  | inl e ↦ subst P (==→eq x a e) h.0
  | inr e ↦ All-contains_at P xs a h.1 (ground arith)
]

contains-retain :
    (p : ℕ → Bool) (xs : List ℕ) (a : ℕ)
    → contains xs a ≡ true
    → p a ≡ true
    → contains (retain p xs) a ≡ true
contains-retain p [] a i h = ground arith
contains-retain p (x ∷ xs) a i h = elim (Bool-cases (x == a)) [
  | inl e ↦ rw (==→eq x a e, h) (ground arith)
  | inr e ↦ ground (arith, contains-retain p xs a)
]

module _ (crypto : Crypto) (vs : ValidatorSet) (j : GrandpaJustification) where
  -- The precommit is signed under one of the candidate set ids, for a descendant of the target.
  pub record IsGood (p : SignedPrecommit) : Type 0 where
    pub good_set_id : ℕ
    pub candidate : contains (candidate_set_ids vs.set_id) good_set_id ≡ true
    pub good_signature : signs crypto j.round p good_set_id ≡ true
    pub on_chain : Descends (ancestry_map crypto j) j.commit.target_hash p.precommit.target_hash

  abbrev counts : SignedPrecommit → Bool
  counts p =
      is_some (find_set_id crypto j.round p (candidate_set_ids vs.set_id))
      && confirm_ancestry p.precommit.target_hash j.commit.target_hash (ancestry_map crypto j)

  IsGood-counts : (p : SignedPrecommit) → IsGood p → counts p ≡ true
  IsGood-counts p g = ground (
    arith,
    find_set_id_some crypto j.round p (candidate_set_ids vs.set_id) g.good_set_id g.candidate
        g.good_signature,
    (confirm_ancestry-Descends p.precommit.target_hash j.commit.target_hash
          (ancestry_map crypto j)).1
        g.on_chain,
  )

  abbrev signers_of : List SignedPrecommit → ℕ → List Public
  signers_of ps current =
      (tally crypto j.round j.commit.target_hash (ancestry_map crypto j) vs.set_id ps
        current).signer_addresses

  signers-step :
      (p : SignedPrecommit) (ps : List SignedPrecommit) (current : ℕ)
      → let rest =
          signers_of ps
            (or_else (find_set_id crypto j.round p (candidate_set_ids vs.set_id)) current) in
        signers_of (p ∷ ps) current ≡ (if counts p then p.id ∷ rest else rest)
  unfolding tally
  signers-step p ps current = ground arith

  contains-signers_of :
      (v : Public) (ps : List SignedPrecommit) (current : ℕ)
      → contains (map (λ p. p.id) ps) v ≡ true
      → ((p : SignedPrecommit) → In p ps → p.id ≡ v → counts p ≡ true)
      → contains (signers_of ps current) v ≡ true
  unfolding tally
  contains-signers_of v [] current i h = ground arith
  contains-signers_of v (p ∷ ps) current i h =
      let found = find_set_id crypto j.round p (candidate_set_ids vs.set_id) in
      let rest = contains-signers_of v ps (or_else found current) in
      elim (Bool-cases (p.id == v)) [
        | inl e ↦ rw (signers-step p ps current, h p (inl refl) (==→eq p.id v e), e)
        | inr e ↦
            let later = rest (ground arith) (λ q m. h q (inr m)) in
            elim (Bool-cases (counts p)) [
              | inl c ↦ rw (signers-step p ps current, c, e) later
              | inr c ↦ rw (signers-step p ps current, c) later
            ]
      ]

  -- A justification is accepted if distinct validators, more than two thirds of a set that has all
  -- the validators, have each cast a precommit and all their precommits are good.
  pub check_finality_complete :
      (all good : List Public)
      → IsSubset vs.validator_set all
      → IsNodup good
      → IsSubset good vs.validator_set
      → IsSubset good (map (λ p. p.id) j.commit.precommits)
      → ((p : SignedPrecommit) → In p j.commit.precommits → contains good p.id ≡ true → IsGood p)
      → length all * 2 < length good * 3
      → (id : ℕ) × (check_finality crypto vs j ≡ ok id)
  unfolding check_finality unique_precommits unique_validators
  check_finality_complete all good total distinct known cast fine large =
      (t.validator_set_id, rw (enough, check_finality))
    where
      ps : List SignedPrecommit
      ps = unique_precommits j.commit.precommits

      t : Tally
      t = tally crypto j.round j.commit.target_hash (ancestry_map crypto j) vs.set_id ps vs.set_id

      us : List Public
      us = unique_validators vs.validator_set

      matched : IsSubset good (retain (contains us) t.signer_addresses)
      matched v i =
          contains-retain (contains us) t.signer_addresses v
            (contains-signers_of v ps vs.set_id
              (contains-dedup-sort (λ (p : SignedPrecommit). p.id) v j.commit.precommits ∙ cast v i)
              (λ p m e. IsGood-counts p (
                fine p (In-dedup-sort (λ (q : SignedPrecommit). q.id) p j.commit.precommits m)
                  (rw e i))))
            (contains-unique_validators vs.validator_set v ∙ known v i)

      us-IsNodup : IsNodup us
      us-IsNodup =
          subst IsNodup (map_self us)
            (IsRising-IsNodup _ (dedup-sort-IsRising (λ (v : Public). v) vs.validator_set))

      enough :
          is_signed_by_supermajority (count_if (contains us) t.signer_addresses) (length us) ≡ true
      enough =
          (is_signed_by_supermajority_iff (count_if (contains us) t.signer_addresses) (length us)).1
            (omega (
              arith,
              length-retain (contains us) t.signer_addresses,
              length-IsSubset-le good (retain (contains us) t.signer_addresses) distinct matched,
              length-IsSubset-le us all us-IsNodup
                  (λ v i. total v (sym (contains-unique_validators vs.validator_set v) ∙ i)),
            ))

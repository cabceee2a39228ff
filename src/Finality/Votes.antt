-- ===== src/Finality/Votes.antt =====
-- What an accepted justification shows of the validators: `check_finality` of
-- core/src/finality.rs against an independent description of a supermajority of votes.
use avail_light.Prelude.{
  ℕ, ◌*◌, ◌≤◌, ◌<◌, ◌≡◌, refl, ap, sym, subst, ◌∙◌, inl, inr, Bool, true, ◌&&◌, some, List, [], ◌∷◌,
  map, arith, length, All, In, retain, count_if, length-retain, Bool-cases, Option-cases, ok,
}
use avail_light.Prelude.Sets.{contains, IsNodup, IsSubset, length-IsSubset-le}
use avail_light.Prelude.Sort.{
  sort_by_key, dedup_by_key, Above, IsRising, IsRising-IsNodup, dedup-sort-IsRising,
  contains-dedup-sort, In-dedup-sort,
}
use avail_light.Types.Grandpa.{Public, SignedPrecommit, GrandpaJustification}
use avail_light.Finality.Ancestry.{confirm_ancestry, Descends, confirm_ancestry-Descends}
use avail_light.Finality.{
  ValidatorSet, Crypto, is_signed_by_supermajority, unique_validators, unique_precommits,
  candidate_set_ids, Tally, signs, find_set_id, tally, ancestry_map, check_finality, or_else,
  is_some,
}

-- The test is exactly "more than two thirds".
pub is_signed_by_supermajority_iff :
    (k n : ℕ)
    → (is_signed_by_supermajority k n ≡ true → n * 2 < k * 3)
      × (n * 2 < k * 3 → is_signed_by_supermajority k n ≡ true)
unfolding is_signed_by_supermajority
is_signed_by_supermajority_iff k n = (λ h. ground arith, λ h. ground arith)

find_set_id_lem :
    (crypto : Crypto) (round : ℕ) (p : SignedPrecommit) (ss : List ℕ) (s : ℕ)
    → find_set_id crypto round p ss ≡ some s
    → (contains ss s ≡ true) × (signs crypto round p s ≡ true)
unfolding find_set_id
find_set_id_lem crypto round p [] s h = ground arith
find_set_id_lem crypto round p (x ∷ ss) s h = ground (arith, find_set_id_lem crypto round p ss s)

Above-weaken : (i k : ℕ) (xs : List ℕ) → i ≤ k → Above k xs → Above i xs
Above-weaken i k [] le h = tt
Above-weaken i k (x ∷ xs) le h = (omega arith, h.1)

Above-IsRising : (i : ℕ) (xs : List ℕ) → Above i xs → IsRising xs
Above-IsRising i [] h = tt
Above-IsRising i (x ∷ xs) h = h.1

Above-retain : (p : ℕ → Bool) (i : ℕ) (xs : List ℕ) → Above i xs → Above i (retain p xs)
Above-retain p i [] h = tt
Above-retain p i (x ∷ xs) h = elim (Bool-cases (p x)) [
  | inl e ↦ rw e (h.0, Above-retain p x xs h.1)
  | inr e ↦ rw e (Above-weaken i x (retain p xs) (omega arith) (Above-retain p x xs h.1))
]

IsRising-retain : (p : ℕ → Bool) (xs : List ℕ) → IsRising xs → IsRising (retain p xs)
IsRising-retain p [] h = tt
IsRising-retain p (x ∷ xs) h = elim (Bool-cases (p x)) [
  | inl e ↦ rw e (Above-retain p x xs h)
  | inr e ↦ rw e (Above-IsRising x (retain p xs) (Above-retain p x xs h))
]

All-retain : (P : ℕ → Type 0) (p : ℕ → Bool) (xs : List ℕ) → All P xs → All P (retain p xs)
All-retain P p [] h = tt
All-retain P p (x ∷ xs) h = elim (Bool-cases (p x)) [
  | inl e ↦ rw e (h.0, All-retain P p xs h.1)
  | inr e ↦ rw e (All-retain P p xs h.1)
]

All-contains :
    (vs ws xs : List ℕ)
    → ((a : ℕ) → contains vs a ≡ contains ws a)
    → All (λ v. contains ws v ≡ true) (retain (contains vs) xs)
All-contains vs ws [] h = tt
All-contains vs ws (x ∷ xs) h = elim (Bool-cases (contains vs x)) [
  | inl e ↦ rw e (ground (arith, h x), All-contains vs ws xs h)
  | inr e ↦ rw e (All-contains vs ws xs h)
]

pub map_self : (xs : List ℕ) → map (λ v. v) xs ≡ xs
map_self [] = refl
map_self (x ∷ xs) = ap (◌∷◌ x) (map_self xs)

pub contains-unique_validators :
    (xs : List ℕ) (a : ℕ) → contains (unique_validators xs) a ≡ contains xs a
unfolding unique_validators
contains-unique_validators xs a =
    ap (λ l. contains l a) (sym (map_self (dedup_by_key (λ v. v) (sort_by_key (λ v. v) xs))))
    ∙ contains-dedup-sort (λ v. v) a xs
    ∙ ap (λ l. contains l a) (map_self xs)

module _ (crypto : Crypto) (vs : ValidatorSet) (j : GrandpaJustification) where
  -- A validator's vote: a precommit of the justification, signed by the validator under the
  -- expected set id or one of the two before it, for a descendant of the committed block.
  pub record Vote (v : Public) : Type 0 where
    pub vote : SignedPrecommit
    pub cast : In vote j.commit.precommits
    pub voter : vote.id ≡ v
    pub vote_set_id : ℕ
    pub recent : contains (candidate_set_ids vs.set_id) vote_set_id ≡ true
    pub signed : signs crypto j.round vote vote_set_id ≡ true
    pub descends : Descends (ancestry_map crypto j) j.commit.target_hash vote.precommit.target_hash

  -- Distinct validators, each with a vote, who are more than two thirds of any set of validators.
  pub record Supermajority : Type 0 where
    pub voters : List Public
    pub distinct : IsNodup voters
    pub validators : All (λ v. contains vs.validator_set v ≡ true) voters
    pub votes : All Vote voters
    pub large :
        (ws : List Public)
        → IsNodup ws
        → IsSubset ws vs.validator_set
        → length ws * 2 < length voters * 3

  abbrev tally_of : List SignedPrecommit → ℕ → Tally
  tally_of = tally crypto j.round j.commit.target_hash (ancestry_map crypto j) vs.set_id

  round_votes :
      (p : SignedPrecommit)
      → In p j.commit.precommits
      → (is_some (find_set_id crypto j.round p (candidate_set_ids vs.set_id))
          && confirm_ancestry p.precommit.target_hash j.commit.target_hash (ancestry_map crypto j))
        ≡ true
      → Vote p.id
  round_votes p cast h =
      elim (Option-cases (find_set_id crypto j.round p (candidate_set_ids vs.set_id))) [
        | inl e ↦ absurd (ground arith)
        | inr (s, e) ↦
            let (recent, signed) =
              find_set_id_lem crypto j.round p (candidate_set_ids vs.set_id) s e in
            record {
              vote = p;
              cast = cast;
              voter = refl;
              vote_set_id = s;
              recent = recent;
              signed = signed;
              descends =
                  (confirm_ancestry-Descends p.precommit.target_hash j.commit.target_hash
                      (ancestry_map crypto j)).0
                    (ground arith);
            }
      ]

  tally-votes :
      (ps : List SignedPrecommit) (current : ℕ)
      → ((p : SignedPrecommit) → In p ps → In p j.commit.precommits)
      → All Vote (tally_of ps current).signer_addresses
  unfolding tally
  tally-votes [] current h = tt
  tally-votes (p ∷ ps) current h =
      let found = find_set_id crypto j.round p (candidate_set_ids vs.set_id) in
      let rest = tally-votes ps (or_else found current) (λ q i. h q (inr i)) in
      let v = round_votes p (h p (inl refl)) in
      elim (Bool-cases (
        is_some found
        && confirm_ancestry p.precommit.target_hash j.commit.target_hash (ancestry_map crypto j))) [
          | inl e ↦ rw e (v e, rest)
          | inr e ↦ rw e rest
        ]

  tally-Above :
      (i : ℕ) (ps : List SignedPrecommit) (current : ℕ)
      → Above i (map (λ p. p.id) ps)
      → Above i (tally_of ps current).signer_addresses
  unfolding tally
  tally-Above i [] current h = tt
  tally-Above i (p ∷ ps) current h =
      let found = find_set_id crypto j.round p (candidate_set_ids vs.set_id) in
      let rest = tally-Above p.id ps (or_else found current) h.1 in
      elim (Bool-cases (
        is_some found
        && confirm_ancestry p.precommit.target_hash j.commit.target_hash (ancestry_map crypto j))) [
          | inl e ↦ rw e (h.0, rest)
          | inr e ↦ rw e (Above-weaken i p.id _ (omega arith) rest)
        ]

  tally-IsRising :
      (ps : List SignedPrecommit) (current : ℕ)
      → IsRising (map (λ p. p.id) ps)
      → IsRising (tally_of ps current).signer_addresses
  unfolding tally
  tally-IsRising [] current h = tt
  tally-IsRising (p ∷ ps) current h =
      let found = find_set_id crypto j.round p (candidate_set_ids vs.set_id) in
      let rest = tally-Above p.id ps (or_else found current) h in
      elim (Bool-cases (
        is_some found
        && confirm_ancestry p.precommit.target_hash j.commit.target_hash (ancestry_map crypto j))) [
          | inl e ↦ rw e rest
          | inr e ↦ rw e (Above-IsRising p.id _ rest)
        ]

  last_set_id :
      (p : SignedPrecommit) (ps : List SignedPrecommit) (current : ℕ)
      → (tally_of (p ∷ ps) current).validator_set_id
        ≡ (tally_of ps (
            or_else
              (find_set_id crypto j.round p (candidate_set_ids vs.set_id))
              current)).validator_set_id
  unfolding tally
  last_set_id p ps current = ground arith

  found-recent :
      (p : SignedPrecommit) (current : ℕ)
      → contains (candidate_set_ids vs.set_id) current ≡ true
      → contains
          (candidate_set_ids vs.set_id)
          (or_else (find_set_id crypto j.round p (candidate_set_ids vs.set_id)) current)
        ≡ true
  found-recent p current h =
      elim (Option-cases (find_set_id crypto j.round p (candidate_set_ids vs.set_id))) [
        | inl e ↦ rw e h
        | inr (s, e) ↦ rw e (find_set_id_lem crypto j.round p (candidate_set_ids vs.set_id) s e).0
      ]

  tally-recent :
      (ps : List SignedPrecommit) (current : ℕ)
      → contains (candidate_set_ids vs.set_id) current ≡ true
      → contains (candidate_set_ids vs.set_id) (tally_of ps current).validator_set_id ≡ true
  unfolding tally
  tally-recent [] current h = h
  tally-recent (p ∷ ps) current h =
      let found = find_set_id crypto j.round p (candidate_set_ids vs.set_id) in
      subst (λ s. contains (candidate_set_ids vs.set_id) s ≡ true) (sym (last_set_id p ps current))
        (tally-recent ps (or_else found current) (found-recent p current h))

  unique : List SignedPrecommit
  unique = unique_precommits j.commit.precommits

  signers : List Public
  signers = (tally_of unique vs.set_id).signer_addresses

  supermajority :
      is_signed_by_supermajority
          (count_if (contains (unique_validators vs.validator_set)) signers)
          (length (unique_validators vs.validator_set))
        ≡ true
      → Supermajority
  unfolding signers unique unique_precommits
  supermajority e =
      let us = unique_validators vs.validator_set in
      record {
        voters = retain (contains us) signers;
        distinct = IsRising-IsNodup _ (
            IsRising-retain (contains us) signers (
              tally-IsRising unique vs.set_id
                (dedup-sort-IsRising (λ (p : SignedPrecommit). p.id) j.commit.precommits)));
        validators =
            All-contains us vs.validator_set signers (contains-unique_validators vs.validator_set);
        votes = All-retain Vote (contains us) signers (
            tally-votes unique vs.set_id
              (λ p i. In-dedup-sort (λ (q : SignedPrecommit). q.id) p j.commit.precommits i));
        large = λ ws n sub. omega (
          arith,
          (is_signed_by_supermajority_iff (count_if (contains us) signers) (length us)).0 e,
          length-retain (contains us) signers,
          length-IsSubset-le ws us n
              (λ a i. contains-unique_validators vs.validator_set a ∙ sub a i),
        );
      }

  -- An accepted justification is a supermajority of votes, and the set id returned is the
  -- expected one or one of the two before it.
  pub check_finality_sound :
      (id : ℕ)
      → check_finality crypto vs j ≡ ok id
      → Supermajority × (contains (candidate_set_ids vs.set_id) id ≡ true)
  unfolding check_finality signers unique unique_precommits
  check_finality_sound id h =
      elim (Bool-cases (is_signed_by_supermajority (count_if (contains us) signers) (length us))) [
        | inl e ↦ (
          supermajority e,
          subst (λ s. contains (candidate_set_ids vs.set_id) s ≡ true) (accepted_id e)
              (tally-recent unique vs.set_id (ground arith)),
        )
        | inr e ↦ absurd (ground arith)
      ]
    where
      us : List Public
      us = unique_validators vs.validator_set

      accepted_id :
          is_signed_by_supermajority (count_if (contains us) signers) (length us) ≡ true
          → (tally_of unique vs.set_id).validator_set_id ≡ id
      accepted_id e = ground arith

-- ===== src/KadProviders/Invariant.antt =====
-- The lists of providers of core/src/network/p2p/kad_mem_providers.rs stay within their limits, free
-- of duplicates and ordered by distance. All this depends on the ids of the providers alone.
use avail_light.Prelude.{
  ℕ, zero, suc, ◌≤◌, ◌≡◌, refl, ap, ◌∙◌, inl, inr, false, ◌||◌, some, none, List, [], ◌∷◌, ◌==◌,
  ltb, if◌then◌else◌, length, length-map, length-take-le, map-take, take, map, arith, Option-cases,
}
use avail_light.Prelude.Sets.{contains, IsNodup}
use avail_light.KadProviders.{ProviderRecord, Kademlia, position, set_at, add_to}
use avail_light.KadProviders.Closest.{insert_ordered, add_to_closest}

abbrev pub ids : List ProviderRecord → List ℕ
ids = map (λ p. p.provider)

module _ (d : ℕ → ℕ) where
  -- Ids in the order of their distance, the first no nearer than the bound.
  abbrev pub From : ℕ → List ℕ → Type 0
  From i [] = Unit {0}
  From i (x ∷ xs) = (i ≤ d x) × From (d x) xs

  abbrev put_id : ℕ → List ℕ → List ℕ
  put_id a [] = a ∷ []
  put_id a (x ∷ xs) = let rest = put_id a xs in if ltb (d a) (d x) then a ∷ x ∷ xs else x ∷ rest

  From-put_id : (i a : ℕ) (xs : List ℕ) → i ≤ d a → From i xs → From i (put_id a xs)
  From-put_id i a [] le h = ground arith
  From-put_id i a (x ∷ xs) le h = ground (arith, From-put_id (d x) a xs)

  From-take : (i n : ℕ) (xs : List ℕ) → From i xs → From i (take n xs)
  From-take i zero xs h = tt
  From-take i (suc n) [] h = tt
  From-take i (suc n) (x ∷ xs) h = (h.0, From-take (d x) n xs h.1)

  contains-put_id : (a b : ℕ) (xs : List ℕ) → contains (put_id a xs) b ≡ (a == b || contains xs b)
  contains-put_id a b [] = refl
  contains-put_id a b (x ∷ xs) = ground (arith, contains-put_id a b xs)

  IsNodup-put_id :
      (a : ℕ) (xs : List ℕ) → contains xs a ≡ false → IsNodup xs → IsNodup (put_id a xs)
  IsNodup-put_id a [] new h = (refl, tt)
  IsNodup-put_id a (x ∷ xs) new h = ground (arith, IsNodup-put_id a xs, contains-put_id a x xs)

  From-weaken : (i j : ℕ) (xs : List ℕ) → i ≤ j → From j xs → From i xs
  From-weaken i j [] le h = tt
  From-weaken i j (x ∷ xs) le h = (omega arith, h.1)

contains-take : (n a : ℕ) (xs : List ℕ) → contains xs a ≡ false → contains (take n xs) a ≡ false
contains-take zero a xs h = refl
contains-take (suc n) a [] h = refl
contains-take (suc n) a (x ∷ xs) h = ground (arith, contains-take n a xs)

IsNodup-take : (n : ℕ) (xs : List ℕ) → IsNodup xs → IsNodup (take n xs)
IsNodup-take zero xs h = tt
IsNodup-take (suc n) [] h = tt
IsNodup-take (suc n) (x ∷ xs) h = (contains-take n x xs h.0, IsNodup-take n xs h.1)

ids-set_at :
    (r : ProviderRecord) (xs : List ProviderRecord) (i : ℕ)
    → position (λ p. p.provider == r.provider) xs ≡ some i
    → ids (set_at i r xs) ≡ ids xs
unfolding position set_at
ids-set_at r [] i h = ground arith
ids-set_at r (x ∷ xs) i h = elim (Option-cases (position (λ p. p.provider == r.provider) xs)) [
  | inl e ↦ ground arith
  | inr (j, e) ↦ ground (arith, ids-set_at r xs j)
]

absent_of_position :
    (a : ℕ) (xs : List ProviderRecord)
    → position (λ p. p.provider == a) xs ≡ none
    → contains (ids xs) a ≡ false
unfolding position
absent_of_position a [] h = refl
absent_of_position a (x ∷ xs) h = elim (Option-cases (position (λ p. p.provider == a) xs)) [
  | inl e ↦ ground (arith, absent_of_position a xs)
  | inr (j, e) ↦ ground arith
]

module _ (kad : Kademlia) where
  open kad use {distance}

  -- One key's providers, by their ids: within the limit, each once, nearest first.
  pub record IsRanked (most key : ℕ) (l : List ℕ) : Type 0 where
    pub bounded : length l ≤ most
    pub once : IsNodup l
    pub ordered : From (distance key) 0 l

  ids-insert_ordered :
      (r : ProviderRecord) (xs : List ProviderRecord)
      → ids (insert_ordered kad r xs) ≡ put_id (distance r.key) r.provider (ids xs)
  ids-insert_ordered r [] = refl
  ids-insert_ordered r (x ∷ xs) = ground (arith, ids-insert_ordered r xs)

  ids-add_to_new :
      (most local : ℕ) (r : ProviderRecord) (xs provided : List ProviderRecord)
      → length xs ≤ most
      → position (λ p. p.provider == r.provider) xs ≡ none
      → ids (add_to kad most local r xs provided).0
        ≡ take most (put_id (distance r.key) r.provider (ids xs))
  ids-add_to_new most local r xs provided h new =
      ap ids (add_to_closest kad most local r xs provided h new)
      ∙ map-take (λ (p : ProviderRecord). p.provider) most (insert_ordered kad r xs)
      ∙ ap (take most) (ids-insert_ordered r xs)

  ids-add_to_known :
      (most local : ℕ) (r : ProviderRecord) (xs provided : List ProviderRecord) (i : ℕ)
      → position (λ p. p.provider == r.provider) xs ≡ some i
      → ids (add_to kad most local r xs provided).0 ≡ ids xs
  unfolding add_to
  ids-add_to_known most local r xs provided i known = rw (known, add_to) (ids-set_at r xs i known)

  take-put_id-IsRanked :
      (most key a : ℕ) (l : List ℕ)
      → contains l a ≡ false
      → IsRanked most key l
      → IsRanked most key (take most (put_id (distance key) a l))
  take-put_id-IsRanked most key a l new v = record {
    bounded = length-take-le most (put_id (distance key) a l);
    once = IsNodup-take most _ (IsNodup-put_id (distance key) a l new v.once);
    ordered =
        From-take (distance key) 0 most _
          (From-put_id (distance key) 0 a l (omega arith) v.ordered);
  }

  pub add_to-IsRanked :
      (most local : ℕ) (r : ProviderRecord) (xs provided : List ProviderRecord)
      → IsRanked most r.key (ids xs)
      → IsRanked most r.key (ids (add_to kad most local r xs provided).0)
  add_to-IsRanked most local r xs provided v =
      elim (Option-cases (position (λ p. p.provider == r.provider) xs)) [
        | inl new ↦
            rw
              (ids-add_to_new most local r xs provided
                (omega (arith, v.bounded, length-map (λ (p : ProviderRecord). p.provider) xs)) new)
              (take-put_id-IsRanked most r.key r.provider (ids xs)
                (absent_of_position r.provider xs new) v)
        | inr (i, known) ↦ rw (ids-add_to_known most local r xs provided i known) v
      ]

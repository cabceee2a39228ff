-- ===== src/KadProviders/Closest.antt =====
-- Which providers of a key are kept by `add_provider` of core/src/network/p2p/kad_mem_providers.rs.
use avail_light.Prelude.{
  ℕ, zero, suc, ◌≤◌, ◌≡◌, refl, ap, inl, inr, Bool, some, none, List, [], ◌∷◌, ◌++◌, ◌==◌, ltb,
  if◌then◌else◌, length, length-append, take, take_all, take_prefix, arith, Option-cases,
  Bool-cases,
}
use avail_light.KadProviders.{
  ProviderRecord, Kademlia, position, insert_at, all_but_last, pop, drop_excess, note_local, add_to,
}

module _ (kad : Kademlia) where
  open kad use {distance}

  abbrev pub nearer : ProviderRecord → ProviderRecord → Bool
  nearer r p = ltb (distance r.key r.provider) (distance r.key p.provider)

  -- The reference: the new record goes before the first record that is farther from its key.
  abbrev pub insert_ordered : ProviderRecord → List ProviderRecord → List ProviderRecord
  insert_ordered r [] = r ∷ []
  insert_ordered r (x ∷ xs) =
      let rest = insert_ordered r xs in if nearer r x then r ∷ x ∷ xs else x ∷ rest

  length-insert_ordered :
      (r : ProviderRecord) (xs : List ProviderRecord)
      → length (insert_ordered r xs) ≡ suc (length xs)
  length-insert_ordered r [] = refl
  length-insert_ordered r (x ∷ xs) = ground (arith, length-insert_ordered r xs)

  insert_at-ordered :
      (r : ProviderRecord) (xs : List ProviderRecord) (i : ℕ)
      → position (nearer r) xs ≡ some i
      → insert_at i r xs ≡ insert_ordered r xs
  unfolding position insert_at
  insert_at-ordered r [] i h = ground arith
  insert_at-ordered r (x ∷ xs) i h = elim (Option-cases (position (nearer r) xs)) [
    | inl e ↦ ground arith
    | inr (j, e) ↦ ground (arith, insert_at-ordered r xs j)
  ]

  append-ordered :
      (r : ProviderRecord) (xs : List ProviderRecord)
      → position (nearer r) xs ≡ none
      → xs ++ r ∷ [] ≡ insert_ordered r xs
  unfolding position
  append-ordered r [] h = refl
  append-ordered r (x ∷ xs) h = elim (Option-cases (position (nearer r) xs)) [
    | inl e ↦ ground (arith, append-ordered r xs)
    | inr (j, e) ↦ ground arith
  ]

  take-all_but_last :
      (n : ℕ) (x : ProviderRecord) (xs : List ProviderRecord)
      → length xs ≡ n
      → all_but_last x xs ≡ take n (x ∷ xs)
  unfolding all_but_last
  take-all_but_last n x [] h = ground arith
  take-all_but_last zero x (y ∷ ys) h = absurd (omega arith)
  take-all_but_last (suc n) x (y ∷ ys) h = ap (◌∷◌ x) (take-all_but_last n y ys (omega arith))

  drop_excess-take :
      (most : ℕ) (xs provided : List ProviderRecord)
      → length xs ≤ suc most
      → (drop_excess kad most xs provided).0 ≡ take most xs
  unfolding drop_excess pop
  drop_excess-take most [] provided h = ground (arith, take_all {A = ProviderRecord} most [])
  drop_excess-take most (x ∷ xs) provided h = elim (Bool-cases (ltb most (suc (length xs)))) [
    | inl e ↦ ground (arith, take-all_but_last most x xs)
    | inr e ↦ ground (arith, take_all most (x ∷ xs))
  ]

  -- A provider that a key does not have yet is put at its place by distance, and of the result the
  -- closest stay, as many as the limit allows. A provider that the key has is updated in its place.
  pub add_to_closest :
      (most local : ℕ) (r : ProviderRecord) (xs provided : List ProviderRecord)
      → length xs ≤ most
      → position (λ p. p.provider == r.provider) xs ≡ none
      → (add_to kad most local r xs provided).0 ≡ take most (insert_ordered r xs)
  unfolding add_to
  add_to_closest most local r xs provided h new = elim (Option-cases (position (nearer r) xs)) [
    | inl e ↦ elim (Bool-cases (ltb (length xs) most)) [
      | inl room ↦
          ground
            (arith, append-ordered r xs, take_all most (xs ++ r ∷ []), length-append xs (r ∷ []))
      | inr full ↦ ground (arith, append-ordered r xs, take_prefix most xs (r ∷ []))
    ]
    | inr (i, e) ↦ ground (
      arith,
      insert_at-ordered r xs i,
      drop_excess-take most (insert_at i r xs) (note_local kad local r provided),
      length-insert_ordered r xs,
      ap length (insert_at-ordered r xs i e),
    )
  ]

-- ===== src/KadProviders/Table.antt =====
-- The table of providers of core/src/network/p2p/kad_mem_providers.rs as a whole.
use avail_light.Prelude.{
  ℕ, zero, suc, ◌≤◌, ◌≡◌, refl, ap, subst, inl, inr, false, some, List, [], ◌∷◌, ◌==◌, length,
  arith, Option-cases, Bool-cases, ok, ==→eq,
}
use avail_light.Prelude.Sets.{contains, IsNodup}
use avail_light.Prelude.Assoc.{
  Assoc, lookup, insert, remove, length-insert-none, length-insert-some, length-remove-le,
}
use avail_light.KadProviders.{
  ProviderRecord, Kademlia, Providers, position, remove_at, add_to, add_provider, remove_from,
  remove_provider, store_at, store_or_drop,
}
use avail_light.KadProviders.Invariant.{ids, From, IsRanked, add_to-IsRanked}

remove_id : ℕ → List ℕ → List ℕ
remove_id i [] = []
remove_id zero (x ∷ xs) = xs
remove_id (suc i) (x ∷ xs) = x ∷ remove_id i xs

ids-remove_at : (i : ℕ) (xs : List ProviderRecord) → ids (remove_at i xs) ≡ remove_id i (ids xs)
unfolding remove_at remove_id
ids-remove_at zero [] = refl
ids-remove_at zero (x ∷ xs) = refl
ids-remove_at (suc i) [] = refl
ids-remove_at (suc i) (x ∷ xs) = ap (◌∷◌ x.provider) (ids-remove_at i xs)

length-remove_id-le : (i : ℕ) (l : List ℕ) → length (remove_id i l) ≤ length l
unfolding remove_id
length-remove_id-le zero [] = omega arith
length-remove_id-le zero (x ∷ xs) = omega arith
length-remove_id-le (suc i) [] = omega arith
length-remove_id-le (suc i) (x ∷ xs) = omega (arith, length-remove_id-le i xs)

contains-remove_id :
    (i a : ℕ) (l : List ℕ) → contains l a ≡ false → contains (remove_id i l) a ≡ false
unfolding remove_id
contains-remove_id zero a [] h = refl
contains-remove_id zero a (x ∷ xs) h = ground arith
contains-remove_id (suc i) a [] h = refl
contains-remove_id (suc i) a (x ∷ xs) h = ground (arith, contains-remove_id i a xs)

IsNodup-remove_id : (i : ℕ) (l : List ℕ) → IsNodup l → IsNodup (remove_id i l)
unfolding remove_id
IsNodup-remove_id zero [] h = tt
IsNodup-remove_id zero (x ∷ xs) h = h.1
IsNodup-remove_id (suc i) [] h = tt
IsNodup-remove_id (suc i) (x ∷ xs) h = (contains-remove_id i x xs h.0, IsNodup-remove_id i xs h.1)

From-lower : (d : ℕ → ℕ) (i j : ℕ) (l : List ℕ) → i ≤ j → From d j l → From d i l
From-lower d i j [] le h = tt
From-lower d i j (x ∷ xs) le h = (omega arith, h.1)

From-remove_id : (d : ℕ → ℕ) (b i : ℕ) (l : List ℕ) → From d b l → From d b (remove_id i l)
unfolding remove_id
From-remove_id d b zero [] h = tt
From-remove_id d b zero (x ∷ xs) h = From-lower d b (d x) xs h.0 h.1
From-remove_id d b (suc i) [] h = tt
From-remove_id d b (suc i) (x ∷ xs) h = (h.0, From-remove_id d (d x) i xs h.1)

module _ (kad : Kademlia) where
  remove_id-IsRanked :
      (most key i : ℕ) (l : List ℕ)
      → IsRanked kad most key l
      → IsRanked kad most key (remove_id i l)
  remove_id-IsRanked most key i l v = record {
    bounded = omega (arith, length-remove_id-le i l, v.bounded);
    once = IsNodup-remove_id i l v.once;
    ordered = From-remove_id (kad.distance key) 0 i l v.ordered;
  }

  remove_from-IsRanked :
      (most key provider : ℕ) (xs provided : List ProviderRecord)
      → IsRanked kad most key (ids xs)
      → IsRanked kad most key (ids (remove_from kad provider xs provided).0)
  unfolding remove_from
  remove_from-IsRanked most key provider xs provided v =
      elim (Option-cases (position (λ p. p.provider == provider) xs)) [
        | inl e ↦ rw (e, remove_from) v
        | inr (i, e) ↦
            rw (e, remove_from) (rw (ids-remove_at i xs) (remove_id-IsRanked most key i (ids xs) v))
      ]

  abbrev pub Entries : ℕ → Assoc (List ProviderRecord) → Type 0
  Entries most [] = Unit {0}
  Entries most ((k, xs) ∷ m) = IsRanked kad most k (ids xs) × Entries most m

  -- Every key's providers are within the limit, distinct and nearest first, and there are no more
  -- keys than allowed.
  pub record IsValid (ps : Providers) : Type 0 where
    pub keys : length ps.by_key ≤ ps.config.max_provided_keys
    pub entries : Entries ps.config.max_providers_per_key ps.by_key

  Entries-insert :
      (most k : ℕ) (xs : List ProviderRecord) (m : Assoc (List ProviderRecord))
      → IsRanked kad most k (ids xs)
      → Entries most m
      → Entries most (insert k xs m)
  unfolding insert
  Entries-insert most k xs [] v h = (v, tt)
  Entries-insert most k xs ((j, ys) ∷ m) v h = elim (Bool-cases (j == k)) [
    | inl e ↦ rw e (v, h.1)
    | inr e ↦ rw e (h.0, Entries-insert most k xs m v h.1)
  ]

  Entries-remove :
      (most k : ℕ) (m : Assoc (List ProviderRecord)) → Entries most m → Entries most (remove k m)
  unfolding remove
  Entries-remove most k [] h = tt
  Entries-remove most k ((j, ys) ∷ m) h = elim (Bool-cases (j == k)) [
    | inl e ↦ rw e (Entries-remove most k m h.1)
    | inr e ↦ rw e (h.0, Entries-remove most k m h.1)
  ]

  Entries-lookup :
      (most k : ℕ) (m : Assoc (List ProviderRecord)) (xs : List ProviderRecord)
      → Entries most m
      → lookup k m ≡ some xs
      → IsRanked kad most k (ids xs)
  unfolding lookup
  Entries-lookup most k [] xs h e = absurd (ground arith)
  Entries-lookup most k ((j, ys) ∷ m) xs h e = elim (Bool-cases (j == k)) [
    | inl same ↦
        let eq : ys ≡ xs = ground arith in
        subst (λ i. IsRanked kad most i (ids xs)) (==→eq j k same)
          (subst (λ l. IsRanked kad most j (ids l)) eq h.0)
    | inr other ↦ Entries-lookup most k m xs h.1 (ground arith)
  ]

  none-IsRanked : (most key : ℕ) → IsRanked kad most key []
  none-IsRanked most key = record { bounded = omega arith; once = tt; ordered = tt }

  store_at-IsValid :
      (ps : Providers) (key : ℕ) (xs provided : List ProviderRecord)
      → IsRanked kad ps.config.max_providers_per_key key (ids xs)
      → length (insert key xs ps.by_key) ≤ ps.config.max_provided_keys
      → Entries ps.config.max_providers_per_key ps.by_key
      → IsValid (store_at kad ps key (xs, provided))
  unfolding store_at
  store_at-IsValid ps key xs provided v le h = record {
    keys = le;
    entries = Entries-insert ps.config.max_providers_per_key key xs ps.by_key v h;
  }

  store_or_drop-IsValid :
      (ps : Providers) (key : ℕ) (xs provided old : List ProviderRecord)
      → lookup key ps.by_key ≡ some old
      → IsRanked kad ps.config.max_providers_per_key key (ids xs)
      → IsValid ps
      → IsValid (store_or_drop kad ps key (xs, provided))
  unfolding store_or_drop
  store_or_drop-IsValid ps key [] provided old e v h = record {
    keys = omega (arith, length-remove-le key ps.by_key, h.keys);
    entries = Entries-remove ps.config.max_providers_per_key key ps.by_key h.entries;
  }
  store_or_drop-IsValid ps key (x ∷ xs) provided old e v h = record {
    keys = omega (arith, length-insert-some key (x ∷ xs) ps.by_key old e, h.keys);
    entries = Entries-insert ps.config.max_providers_per_key key (x ∷ xs) ps.by_key v h.entries;
  }

  -- An accepted announcement of a provider keeps the table valid.
  pub add_provider-IsValid :
      (local : ℕ) (r : ProviderRecord) (ps ps' : Providers)
      → IsValid ps
      → add_provider kad local r ps ≡ ok ps'
      → IsValid ps'
  unfolding add_provider
  add_provider-IsValid local r ps ps' v h = elim (Option-cases (lookup r.key ps.by_key)) [
    | inl e ↦
        let most = ps.config.max_providers_per_key in
        let new = add_to kad most local r [] ps.provided in
        let free : (ps.config.max_provided_keys == length ps.by_key) ≡ false = ground arith in
        let same : store_at kad ps r.key new ≡ ps' = ground arith in
        subst IsValid same (
          store_at-IsValid ps r.key new.0 new.1
            (add_to-IsRanked kad most local r [] ps.provided (none-IsRanked most r.key))
            (ground (arith, length-insert-none r.key new.0 ps.by_key, v.keys)) v.entries)
    | inr (xs, e) ↦
        let most = ps.config.max_providers_per_key in
        let new = add_to kad most local r xs ps.provided in
        let same : store_at kad ps r.key new ≡ ps' = ground arith in
        subst IsValid same (
          store_at-IsValid ps r.key new.0 new.1
            (add_to-IsRanked kad most local r xs ps.provided
              (Entries-lookup most r.key ps.by_key xs v.entries e))
            (omega (arith, length-insert-some r.key new.0 ps.by_key xs e, v.keys)) v.entries)
  ]

  -- Removing a provider keeps the table valid.
  pub remove_provider-IsValid :
      (key provider : ℕ) (ps : Providers)
      → IsValid ps
      → IsValid (remove_provider kad key provider ps)
  unfolding remove_provider
  remove_provider-IsValid key provider ps v = elim (Option-cases (lookup key ps.by_key)) [
    | inl e ↦ rw (e, remove_provider) v
    | inr (xs, e) ↦
        let most = ps.config.max_providers_per_key in
        let left = remove_from kad provider xs ps.provided in
        rw (e, remove_provider)
          (store_or_drop-IsValid ps key left.0 left.1 xs e
            (remove_from-IsRanked most key provider xs ps.provided
              (Entries-lookup most key ps.by_key xs v.entries e))
            v)
  ]

-- ===== src/Prelude/Sort.antt =====
-- `sort_by_key` and `dedup_by_key` of slices: stable insertion by a numeric key, and the removal of
-- runs of equal keys, of which the first element stays.
use Prim.Native.Nat.{ℕ, ◌≤◌, ◌<◌}
use mathlib.Core.Path.{◌≡◌, refl, ◌∙◌}
use mathlib.Core.Logic.{◌⊎◌, inl, inr}
use mathlib.Core.Bool.{true, false, ◌||◌}
use mathlib.Core.List.{List, [], ◌∷◌, map}
use native.Mathlib.Omega.{arith}
use avail_light.Prelude.Tests.{leb, ◌==◌, if◌then◌else◌, Bool-cases}
use avail_light.Prelude.Lists.{In, All}
use avail_light.Prelude.Sets.{contains, IsNodup}

-- The list does not fall, and starts no lower than the bound.
abbrev AtLeast : ℕ → List ℕ → Type 0
AtLeast i [] = Unit
AtLeast i (a ∷ xs) = (i ≤ a) × AtLeast a xs

-- The list rises, and starts above the bound.
abbrev pub Above : ℕ → List ℕ → Type 0
Above i [] = Unit
Above i (a ∷ xs) = (i < a) × Above a xs

abbrev pub IsRising : List ℕ → Type 0
IsRising [] = Unit
IsRising (a ∷ xs) = Above a xs

not-contains-Above : (i j : ℕ) (xs : List ℕ) → j ≤ i → Above i xs → contains xs j ≡ false
not-contains-Above i j [] le h = refl
not-contains-Above i j (a ∷ xs) le h = ground (arith, not-contains-Above a j xs)

Above-IsNodup : (i : ℕ) (xs : List ℕ) → Above i xs → IsNodup xs
Above-IsNodup i [] h = tt
Above-IsNodup i (a ∷ xs) h = (not-contains-Above a a xs (omega arith) h.1, Above-IsNodup a xs h.1)

pub IsRising-IsNodup : (xs : List ℕ) → IsRising xs → IsNodup xs
IsRising-IsNodup [] h = tt
IsRising-IsNodup (a ∷ xs) h = (not-contains-Above a a xs (omega arith) h, Above-IsNodup a xs h)

module _ {A : Type 0} (key : A → ℕ) where
  insert_by_key : A → List A → List A
  insert_by_key a [] = a ∷ []
  insert_by_key a (b ∷ ys) =
      let rest = insert_by_key a ys in if leb (key a) (key b) then a ∷ b ∷ ys else b ∷ rest

  unfoldable pub sort_by_key : List A → List A
  unfolding insert_by_key
  sort_by_key [] = []
  sort_by_key (a ∷ xs) = insert_by_key a (sort_by_key xs)

  All-insert_by_key :
      (P : A → Type 0) (a : A) (xs : List A) → P a → All P xs → All P (insert_by_key a xs)
  unfolding insert_by_key
  All-insert_by_key P a [] p h = (p, tt)
  All-insert_by_key P a (b ∷ xs) p h = elim (Bool-cases (leb (key a) (key b))) [
    | inl e ↦ rw e (p, h)
    | inr e ↦ rw e (h.0, All-insert_by_key P a xs p h.1)
  ]

  -- What holds of all elements holds of them in order.
  pub All-sort_by_key : (P : A → Type 0) (xs : List A) → All P xs → All P (sort_by_key xs)
  unfolding sort_by_key
  All-sort_by_key P [] h = tt
  All-sort_by_key P (a ∷ xs) h =
      All-insert_by_key P a (sort_by_key xs) h.0 (All-sort_by_key P xs h.1)

  dedup_after : ℕ → List A → List A
  dedup_after i [] = []
  dedup_after i (b ∷ ys) = elim (key b == i) [
    | true ↦ dedup_after i ys
    | false ↦ b ∷ dedup_after (key b) ys
  ]

  unfoldable pub dedup_by_key : List A → List A
  unfolding dedup_after
  dedup_by_key [] = []
  dedup_by_key (a ∷ xs) = a ∷ dedup_after (key a) xs

  insert_by_key-AtLeast :
      (i : ℕ) (a : A) (xs : List A)
      → i ≤ key a
      → AtLeast i (map key xs)
      → AtLeast i (map key (insert_by_key a xs))
  unfolding insert_by_key
  insert_by_key-AtLeast i a [] le h = ground arith
  insert_by_key-AtLeast i a (b ∷ ys) le h = ground (arith, insert_by_key-AtLeast (key b) a ys)

  sort_by_key-AtLeast : (xs : List A) → AtLeast 0 (map key (sort_by_key xs))
  unfolding sort_by_key
  sort_by_key-AtLeast [] = tt
  sort_by_key-AtLeast (a ∷ xs) =
      insert_by_key-AtLeast 0 a (sort_by_key xs) (omega arith) (sort_by_key-AtLeast xs)

  dedup_after-Above :
      (i : ℕ) (xs : List A) → AtLeast i (map key xs) → Above i (map key (dedup_after i xs))
  unfolding dedup_after
  dedup_after-Above i [] h = tt
  dedup_after-Above i (b ∷ ys) h = elim (Bool-cases (key b == i)) [
    | inl e ↦ ground (arith, dedup_after-Above i ys)
    | inr e ↦ ground (arith, dedup_after-Above (key b) ys)
  ]

  dedup_by_key-IsRising :
      (i : ℕ) (xs : List A) → AtLeast i (map key xs) → IsRising (map key (dedup_by_key xs))
  unfolding dedup_by_key
  dedup_by_key-IsRising i [] h = tt
  dedup_by_key-IsRising i (a ∷ xs) h = dedup_after-Above (key a) xs h.1

  -- No key occurs twice after both.
  pub dedup-sort-IsRising : (xs : List A) → IsRising (map key (dedup_by_key (sort_by_key xs)))
  dedup-sort-IsRising xs = dedup_by_key-IsRising 0 (sort_by_key xs) (sort_by_key-AtLeast xs)

  contains-insert_by_key :
      (k : ℕ) (a : A) (xs : List A)
      → contains (map key (insert_by_key a xs)) k ≡ (key a == k || contains (map key xs) k)
  unfolding insert_by_key
  contains-insert_by_key k a [] = refl
  contains-insert_by_key k a (b ∷ ys) = ground (arith, contains-insert_by_key k a ys)

  contains-sort_by_key :
      (k : ℕ) (xs : List A) → contains (map key (sort_by_key xs)) k ≡ contains (map key xs) k
  unfolding sort_by_key
  contains-sort_by_key k [] = refl
  contains-sort_by_key k (a ∷ xs) =
      ground (arith, contains-insert_by_key k a (sort_by_key xs), contains-sort_by_key k xs)

  contains-dedup_after :
      (k i : ℕ) (xs : List A)
      → (i == k || contains (map key (dedup_after i xs)) k) ≡ (i == k || contains (map key xs) k)
  unfolding dedup_after
  contains-dedup_after k i [] = refl
  contains-dedup_after k i (b ∷ ys) = elim (Bool-cases (key b == i)) [
    | inl e ↦ ground (arith, contains-dedup_after k i ys)
    | inr e ↦ ground (arith, contains-dedup_after k (key b) ys)
  ]

  contains-dedup_by_key :
      (k : ℕ) (xs : List A) → contains (map key (dedup_by_key xs)) k ≡ contains (map key xs) k
  unfolding dedup_by_key
  contains-dedup_by_key k [] = refl
  contains-dedup_by_key k (a ∷ xs) = contains-dedup_after k (key a) xs

  -- The same keys occur before and after.
  pub contains-dedup-sort :
      (k : ℕ) (xs : List A)
      → contains (map key (dedup_by_key (sort_by_key xs))) k ≡ contains (map key xs) k
  contains-dedup-sort k xs = contains-dedup_by_key k (sort_by_key xs) ∙ contains-sort_by_key k xs

  In-insert_by_key : (p a : A) (xs : List A) → In p (insert_by_key a xs) → (a ≡ p) ⊎ In p xs
  unfolding insert_by_key
  In-insert_by_key p a [] h = h
  In-insert_by_key p a (b ∷ ys) h = elim (Bool-cases (leb (key a) (key b))) [
    | inl e ↦ ground arith
    | inr e ↦ ground (arith, In-insert_by_key p a ys)
  ]

  In-sort_by_key : (p : A) (xs : List A) → In p (sort_by_key xs) → In p xs
  unfolding sort_by_key
  In-sort_by_key p [] h = h
  In-sort_by_key p (a ∷ xs) h = elim (In-insert_by_key p a (sort_by_key xs) h) [
    | inl e ↦ inl e
    | inr t ↦ inr (In-sort_by_key p xs t)
  ]

  In-dedup_after : (p : A) (i : ℕ) (xs : List A) → In p (dedup_after i xs) → In p xs
  unfolding dedup_after
  In-dedup_after p i [] h = h
  In-dedup_after p i (b ∷ ys) h = elim (Bool-cases (key b == i)) [
    | inl e ↦ ground (arith, In-dedup_after p i ys)
    | inr e ↦ ground (arith, In-dedup_after p (key b) ys)
  ]

  In-dedup_by_key : (p : A) (xs : List A) → In p (dedup_by_key xs) → In p xs
  unfolding dedup_by_key
  In-dedup_by_key p [] h = h
  In-dedup_by_key p (a ∷ xs) (inl e) = inl e
  In-dedup_by_key p (a ∷ xs) (inr t) = inr (In-dedup_after p (key a) xs t)

  -- Nothing is made up.
  pub In-dedup-sort : (p : A) (xs : List A) → In p (dedup_by_key (sort_by_key xs)) → In p xs
  In-dedup-sort p xs h = In-sort_by_key p xs (In-dedup_by_key p (sort_by_key xs) h)

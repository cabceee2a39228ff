-- ===== src/Prelude/Sets.antt =====
-- Lists of numbers read as sets: membership, absence of repetition, and size.
use Prim.Native.Nat.{ℕ, suc, ◌≤◌}
use mathlib.Core.Path.{◌≡◌, refl}
use mathlib.Core.Bool.{Bool, true, false, ◌||◌}
use mathlib.Core.List.{List, [], ◌∷◌, ◌++◌}
use native.Mathlib.Omega.{arith}
use avail_light.Prelude.Tests.{◌==◌, if◌then◌else◌}
use avail_light.Prelude.Lists.{length}

abbrev pub contains : List ℕ → ℕ → Bool
contains [] a = false
contains (x ∷ xs) a = x == a || contains xs a

-- No element occurs twice.
abbrev pub IsNodup : List ℕ → Type 0
IsNodup [] = Unit {0}
IsNodup (x ∷ xs) = (contains xs x ≡ false) × IsNodup xs

-- Every element of the first list is one of the second.
abbrev pub IsSubset : List ℕ → List ℕ → Type 0
IsSubset xs ys = (a : ℕ) → contains xs a ≡ true → contains ys a ≡ true

without : ℕ → List ℕ → List ℕ
without a [] = []
without a (x ∷ xs) = let rest = without a xs in if x == a then rest else x ∷ rest

length-without-le : (a : ℕ) (xs : List ℕ) → length (without a xs) ≤ length xs
unfolding without
length-without-le a [] = omega arith
length-without-le a (x ∷ xs) = ground (arith, length-without-le a xs)

length-without :
    (a : ℕ) (xs : List ℕ) → contains xs a ≡ true → suc (length (without a xs)) ≤ length xs
unfolding without
length-without a [] h = ground arith
length-without a (x ∷ xs) h = ground (arith, length-without a xs, length-without-le a xs)

contains-without :
    (a b : ℕ) (xs : List ℕ) → contains (without a xs) b ≡ (if a == b then false else contains xs b)
unfolding without
contains-without a b [] = ground arith
contains-without a b (x ∷ xs) = ground (arith, contains-without a b xs)

subset-without :
    (x : ℕ) (xs ys : List ℕ) (b : ℕ)
    → contains xs x ≡ false
    → (contains (x ∷ xs) b ≡ true → contains ys b ≡ true)
    → contains xs b ≡ true
    → contains (without x ys) b ≡ true
subset-without x xs ys b new s h = ground (arith, contains-without x b ys)

-- A list without repetition is no longer than a list that has all its elements.
pub length-IsSubset-le : (xs ys : List ℕ) → IsNodup xs → IsSubset xs ys → length xs ≤ length ys
length-IsSubset-le [] ys n s = omega arith
length-IsSubset-le (x ∷ xs) ys n s =
    let rest : length xs ≤ length (without x ys) =
      length-IsSubset-le xs (without x ys) n.1 (λ b h. subset-without x xs ys b n.0 (s b) h) in
    omega (arith, length-without x ys (s x (ground arith)), rest)

pub contains-append :
    (xs ys : List ℕ) (a : ℕ) → contains (xs ++ ys) a ≡ (contains xs a || contains ys a)
contains-append [] ys a = refl
contains-append (x ∷ xs) ys a = ground (arith, contains-append xs ys a)

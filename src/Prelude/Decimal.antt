-- ===== src/Prelude/Decimal.antt =====
-- Decimal numerals as texts, which are lists of character codes, and texts cut at a character.
use Prim.Native.Nat.{ℕ, zero, suc, ◌+◌, ◌-◌, ◌*◌, ◌/◌, ◌%◌, ◌<◌}
use Prim.Native.Char.{code}
use Prim.Native.String.{String}
use mathlib.Core.Path.{◌≡◌, refl}
use mathlib.Core.Logic.{inl, inr}
use mathlib.Core.Bool.{Bool, true, false, ◌&&◌}
use mathlib.Core.List.{List, [], ◌∷◌, ◌++◌}
use native.Mathlib.Omega.{arith}
use avail_light.Prelude.Tests.{ltb, ◌==◌, if◌then◌else◌, Bool-cases}
use avail_light.Prelude.Sets.{contains, contains-append}

abbrev pub Text : Type 0
Text = List ℕ

abbrev pub codes : String → Text
codes String.[] = []
codes (String.◌∷◌ first others) = code first ∷ codes others

-- `format!("{n}")`: the last digit is printed after the others.
digits : ℕ → ℕ → Text
digits zero n = []
digits (suc fuel) n = elim (ltb n 10) [
  | true ↦ (b'0' + n) ∷ []
  | false ↦ digits fuel (n / 10) ++ (b'0' + n % 10) ∷ []
]

unfoldable pub decimal : ℕ → Text
unfolding digits
decimal n = digits (suc n) n

unfoldable pub value_from : ℕ → Text → ℕ
value_from acc [] = acc
value_from acc (c ∷ cs) = value_from (acc * 10 + (c - b'0')) cs

value_from-snoc :
    (acc c : ℕ) (cs : Text) → value_from acc (cs ++ c ∷ []) ≡ value_from acc cs * 10 + (c - b'0')
unfolding value_from
value_from-snoc acc c [] = refl
value_from-snoc acc c (d ∷ cs) = value_from-snoc (acc * 10 + (d - b'0')) c cs

value_from-digits : (fuel n : ℕ) → n < fuel → value_from 0 (digits fuel n) ≡ n
unfolding digits value_from
value_from-digits zero n h = elim h [ ]
value_from-digits (suc fuel) n h = elim (Bool-cases (ltb n 10)) [
  | inl e ↦ rw (e, digits) (omega arith)
  | inr e ↦
      rw (e, digits)
        (rw (value_from-snoc 0 (b'0' + n % 10) (digits fuel (n / 10)))
          (ground (arith, value_from-digits fuel (n / 10))))
]

-- A printed number is read back.
pub value_from-decimal : (n : ℕ) → value_from 0 (decimal n) ≡ n
unfolding decimal
value_from-decimal n = value_from-digits (suc n) n (omega arith)

-- The text before the first occurrence of a character, and the text after it.
unfoldable pub before : ℕ → Text → Text
before c [] = []
before c (x ∷ xs) = let rest = before c xs in if x == c then [] else x ∷ rest

unfoldable pub after : ℕ → Text → Text
after c [] = []
after c (x ∷ xs) = let rest = after c xs in if x == c then xs else rest

pub before-append : (c : ℕ) (xs ys : Text) → contains xs c ≡ false → before c (xs ++ c ∷ ys) ≡ xs
unfolding before
before-append c [] ys h = ground arith
before-append c (x ∷ xs) ys h = ground (arith, before-append c xs ys)

pub after-append : (c : ℕ) (xs ys : Text) → contains xs c ≡ false → after c (xs ++ c ∷ ys) ≡ ys
unfolding after
after-append c [] ys h = ground arith
after-append c (x ∷ xs) ys h = ground (arith, after-append c xs ys)

pub before_all : (c : ℕ) (xs : Text) → contains xs c ≡ false → before c xs ≡ xs
unfolding before
before_all c [] h = refl
before_all c (x ∷ xs) h = ground (arith, before_all c xs)

pub after_all : (c : ℕ) (xs : Text) → contains xs c ≡ false → after c xs ≡ []
unfolding after
after_all c [] h = refl
after_all c (x ∷ xs) h = ground (arith, after_all c xs)

contains-digits : (fuel n : ℕ) → contains (digits fuel n) b':' ≡ false
unfolding digits
contains-digits zero n = refl
contains-digits (suc fuel) n = elim (Bool-cases (ltb n 10)) [
  | inl e ↦ rw (e, digits) (ground arith)
  | inr e ↦
      rw (e, digits)
        (ground (
          arith,
          contains-append (digits fuel (n / 10)) ((b'0' + n % 10) ∷ []) b':',
          contains-digits fuel (n / 10),
        ))
]

pub contains-decimal : (n : ℕ) → contains (decimal n) b':' ≡ false
unfolding decimal
contains-decimal n = contains-digits (suc n) n

unfoldable pub same_text : Text → Text → Bool
same_text [] [] = true
same_text [] (y ∷ ys) = false
same_text (x ∷ xs) [] = false
same_text (x ∷ xs) (y ∷ ys) = x == y && same_text xs ys

pub same_text_refl : (xs : Text) → same_text xs xs ≡ true
unfolding same_text
same_text_refl [] = refl
same_text_refl (x ∷ xs) = ground (arith, same_text_refl xs)

pub same_text→≡ : (xs ys : Text) → same_text xs ys ≡ true → xs ≡ ys
unfolding same_text
same_text→≡ [] [] h = refl
same_text→≡ [] (y ∷ ys) h = ground arith
same_text→≡ (x ∷ xs) [] h = ground arith
same_text→≡ (x ∷ xs) (y ∷ ys) h = ground (arith, same_text→≡ xs ys)

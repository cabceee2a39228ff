-- ===== src/Prelude/Chunks.antt =====
-- `slice::chunks`: a list cut into pieces of a size, the last one perhaps shorter.
use Prim.Native.Nat.{ℕ, zero, suc, ◌+◌, ◌*◌, ◌≤◌}
use mathlib.Core.Path.{◌≡◌, refl, ap}
use mathlib.Core.List.{List, [], ◌∷◌, ◌++◌}
use native.Mathlib.Omega.{arith}
use avail_light.Prelude.Lists.{length, take, All}

module _ {ℓ} {A : Type ℓ} where
  abbrev pub skip : ℕ → List A → List A
  skip zero xs = xs
  skip (suc n) [] = []
  skip (suc n) (x ∷ xs) = skip n xs

  -- The pieces are at most as many as the elements.
  chunks_within : ℕ → ℕ → List A → List (List A)
  chunks_within zero n xs = []
  chunks_within (suc fuel) n [] = []
  chunks_within (suc fuel) n (x ∷ xs) = take n (x ∷ xs) ∷ chunks_within fuel n (skip n (x ∷ xs))

  unfoldable pub chunks : ℕ → List A → List (List A)
  unfolding chunks_within
  chunks n xs = chunks_within (length xs) n xs

  unfoldable pub concat : List (List A) → List A
  concat [] = []
  concat (xs ∷ xss) = xs ++ concat xss

  pub take-skip : (n : ℕ) (xs : List A) → take n xs ++ skip n xs ≡ xs
  take-skip zero xs = refl
  take-skip (suc n) [] = refl
  take-skip (suc n) (x ∷ xs) = ap (λ ys. x ∷ ys) (take-skip n xs)

  length-skip-le : (n : ℕ) (xs : List A) → length (skip n xs) ≤ length xs
  length-skip-le zero xs = omega arith
  length-skip-le (suc n) [] = omega arith
  length-skip-le (suc n) (x ∷ xs) = omega (arith, length-skip-le n xs)

  concat-chunks_within :
      (fuel n : ℕ) (xs : List A) → length xs ≤ fuel → concat (chunks_within fuel (suc n) xs) ≡ xs
  unfolding chunks_within concat
  concat-chunks_within zero n [] h = refl
  concat-chunks_within zero n (x ∷ xs) h = ground arith
  concat-chunks_within (suc fuel) n [] h = refl
  concat-chunks_within (suc fuel) n (x ∷ xs) h =
      rw (concat-chunks_within fuel n (skip n xs) (omega (arith, length-skip-le n xs)))
        (ap (λ ys. x ∷ ys) (take-skip n xs))

  -- The pieces give the list again, for a size above zero.
  pub concat-chunks : (n : ℕ) (xs : List A) → concat (chunks (suc n) xs) ≡ xs
  unfolding chunks
  concat-chunks n xs = concat-chunks_within (length xs) n xs (omega arith)

  length-take-min : (n : ℕ) (xs : List A) → n ≤ length xs → length (take n xs) ≡ n
  length-take-min zero xs h = refl
  length-take-min (suc n) [] h = omega arith
  length-take-min (suc n) (x ∷ xs) h = omega (arith, length-take-min n xs (omega arith))

  pub length-skip : (n : ℕ) (xs : List A) → n ≤ length xs → length (skip n xs) + n ≡ length xs
  length-skip zero xs h = omega arith
  length-skip (suc n) [] h = omega arith
  length-skip (suc n) (x ∷ xs) h = omega (arith, length-skip n xs (omega arith))

  chunks_within_full :
      (fuel n k : ℕ) (xs : List A)
      → length xs ≡ k * suc n
      → All (λ c. length c ≡ suc n) (chunks_within fuel (suc n) xs)
  unfolding chunks_within
  chunks_within_full zero n k xs h = tt
  chunks_within_full (suc fuel) n k [] h = tt
  chunks_within_full (suc fuel) n zero (x ∷ xs) h = absurd (omega arith)
  chunks_within_full (suc fuel) n (suc k) (x ∷ xs) h = (
    omega (arith, length-take-min n xs (omega arith)),
    chunks_within_full fuel n k (skip n xs) (omega (arith, length-skip n xs (omega arith))),
  )

  -- The pieces of a list whose length is a multiple of the size are all of the size.
  pub chunks_full :
      (n k : ℕ) (xs : List A)
      → length xs ≡ k * suc n
      → All (λ c. length c ≡ suc n) (chunks (suc n) xs)
  unfolding chunks
  chunks_full n k xs h = chunks_within_full (length xs) n k xs h

-- ===== src/Prelude/Assoc.antt =====
-- `HashMap` as an association list under an equality test of keys.
use Prim.Native.Nat.{ℕ, suc, ◌≤◌, ◌<◌}
use mathlib.Core.Path.{◌≡◌, refl}
use mathlib.Core.Option.{Option, none, some}
use mathlib.Core.List.{List, [], ◌∷◌}
use native.Mathlib.Omega.{arith}
use avail_light.Prelude.Tests.{if◌then◌else◌, ◌==◌}
use avail_light.Prelude.Lists.{length}

abbrev pub Assoc {ℓ} : Type ℓ → Type ℓ
Assoc V = List (ℕ × V)

module _ {ℓ} {V : Type ℓ} where
  unfoldable pub lookup : ℕ → Assoc V → Option V
  lookup key [] = none
  lookup key ((k, found) ∷ es) = let below = lookup key es in if k == key then some found else below

  -- The value of a key that is there is replaced in its place.
  unfoldable pub insert : ℕ → V → Assoc V → Assoc V
  insert key new [] = (key, new) ∷ []
  insert key new ((k, old) ∷ es) =
      let below = insert key new es in if k == key then (key, new) ∷ es else (k, old) ∷ below

  unfoldable pub remove : ℕ → Assoc V → Assoc V
  remove k [] = []
  remove k ((j, v) ∷ m) = let rest = remove k m in if j == k then rest else (j, v) ∷ rest

  pub lookup-insert :
      (key asked : ℕ) (new : V) (es : Assoc V)
      → lookup asked (insert key new es) ≡ (if key == asked then some new else lookup asked es)
  unfolding lookup insert
  lookup-insert key asked new [] = refl
  lookup-insert key asked new ((k, old) ∷ es) = ground (arith, lookup-insert key asked new es)

  pub lookup-remove :
      (k j : ℕ) (m : Assoc V) → lookup j (remove k m) ≡ (if k == j then none else lookup j m)
  unfolding lookup remove
  lookup-remove k j [] = ground arith
  lookup-remove k j ((i, v) ∷ m) = ground (arith, lookup-remove k j m)

  pub length-insert-some :
      (k : ℕ) (v : V) (m : Assoc V) (w : V) → lookup k m ≡ some w → length (insert k v m) ≡ length m
  unfolding lookup insert
  length-insert-some k v [] w h = ground arith
  length-insert-some k v ((j, u) ∷ m) w h = ground (arith, length-insert-some k v m w)

  pub length-insert-none :
      (k : ℕ) (v : V) (m : Assoc V) → lookup k m ≡ none → length (insert k v m) ≡ suc (length m)
  unfolding lookup insert
  length-insert-none k v [] h = refl
  length-insert-none k v ((j, u) ∷ m) h = ground (arith, length-insert-none k v m)

  pub length-remove-le : (k : ℕ) (m : Assoc V) → length (remove k m) ≤ length m
  unfolding remove
  length-remove-le k [] = omega arith
  length-remove-le k ((j, v) ∷ m) = ground (arith, length-remove-le k m)

  pub length-remove-lt :
      (k : ℕ) (m : Assoc V) (v : V) → lookup k m ≡ some v → length (remove k m) < length m
  unfolding lookup remove
  length-remove-lt k [] v h = ground arith
  length-remove-lt k ((j, w) ∷ m) v h = ground (arith, length-remove-lt k m v, length-remove-le k m)

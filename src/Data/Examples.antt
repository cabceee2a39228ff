-- ===== src/Data/Examples.antt =====
-- The keys of a header and of a counter, and numbers whose JSON is one character.
use avail_light.Prelude.{ℕ, ◌≡◌, refl, inl, some, none, [], ◌∷◌, Option}
use avail_light.Prelude.Decimal.{Text}
use avail_light.Data.{block_header}
use avail_light.Data.Texts.{key_text-injective}
use avail_light.Data.Memory.{Json, MemoryDb}

abbrev read_number : Text → Option ℕ
read_number [] = none
read_number (c ∷ cs) = some c

abbrev numbers : Json ℕ
numbers = record { to_string = λ n. n ∷ []; from_str = read_number }

abbrev stored : MemoryDb
stored = (b'x' ∷ [], 4 ∷ []) ∷ []

key_text-injective_example : block_header 25 ≡ block_header 25
key_text-injective_example = key_text-injective (block_header 25) (block_header 25) (inl refl)

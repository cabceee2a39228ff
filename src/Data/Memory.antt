-- ===== src/Data/Memory.antt =====
-- core/src/data/mem_db.rs: the database in memory, a map from the text of a key to the text of a
-- value. The JSON text of a value is made and read by a library, which is a parameter here.
use avail_light.Prelude.{
  ◌≡◌, ◌≢◌, inl, inr, refl, ap, ◌∙◌, true, false, Option, some, none, List, [], ◌∷◌, Result, ok,
  err, arith, if◌then◌else◌, Bool-cases,
}
use avail_light.Prelude.Decimal.{Text, same_text, same_text_refl, same_text→≡}
use avail_light.Data.{Key, hash_map_key}
use avail_light.Data.Texts.{key_text-injective}

-- `serde_json::to_string` and `from_str` at the type of the values of a key.
pub record Json (V : Type 0) : Type 0 where
  pub to_string : V → Text
  pub from_str : Text → Option V

-- `expect("Decoding data from MemoryDB failed")`
pub data Panic : Type 0 where
  decoding_failed : Panic

abbrev pub MemoryDb : Type 0
MemoryDb = List (Text × Text)

-- The map of Rust's standard library, whose keys are texts here.
unfoldable pub find_text : Text → MemoryDb → Option Text
find_text t [] = none
find_text t ((u, v) ∷ m) = let rest = find_text t m in if same_text u t then some v else rest

unfoldable pub insert_text : Text → Text → MemoryDb → MemoryDb
insert_text t v [] = (t, v) ∷ []
insert_text t v ((u, w) ∷ m) =
    let rest = insert_text t v m in if same_text u t then (t, v) ∷ m else (u, w) ∷ rest

unfoldable pub remove_text : Text → MemoryDb → MemoryDb
remove_text t [] = []
remove_text t ((u, w) ∷ m) =
    let rest = remove_text t m in if same_text u t then rest else (u, w) ∷ rest

module _ {V : Type 0} (json : Json V) where
  unfoldable pub put : Key → V → MemoryDb → MemoryDb
  put k v m = insert_text (hash_map_key k) (json.to_string v) m

  decoded : Option Text → Result Panic (Option V)
  decoded none = ok none
  decoded (some text) = elim (json.from_str text) [
    | some v ↦ ok (some v)
    | none ↦ err decoding_failed
  ]

  unfoldable pub get : Key → MemoryDb → Result Panic (Option V)
  unfolding decoded
  get k m = decoded (find_text (hash_map_key k) m)

  decoded-to_string :
      (v : V)
      → json.from_str (json.to_string v) ≡ some v
      → decoded (some (json.to_string v)) ≡ ok (some v)
  unfolding decoded
  decoded-to_string v h = rw (h, decoded) refl

unfoldable pub delete : Key → MemoryDb → MemoryDb
delete k m = remove_text (hash_map_key k) m

find-insert_same : (t v : Text) (m : MemoryDb) → find_text t (insert_text t v m) ≡ some v
unfolding find_text insert_text
find-insert_same t v [] = ground (arith, same_text_refl t)
find-insert_same t v ((u, w) ∷ m) = ground (arith, same_text_refl t, find-insert_same t v m)

same_trans : (t u s : Text) → same_text u t ≡ true → same_text t s ≡ false → same_text u s ≡ false
same_trans t u s h n = rw (same_text→≡ u t h) n

find-insert_other :
    (t s v : Text) (m : MemoryDb)
    → same_text t s ≡ false
    → find_text s (insert_text t v m) ≡ find_text s m
unfolding find_text insert_text
find-insert_other t s v [] h = ground arith
find-insert_other t s v ((u, w) ∷ m) h = ground (arith, find-insert_other t s v m, same_trans t u s)

find-remove_same : (t : Text) (m : MemoryDb) → find_text t (remove_text t m) ≡ none
unfolding find_text remove_text
find-remove_same t [] = refl
find-remove_same t ((u, w) ∷ m) = ground (arith, find-remove_same t m)

find-remove_other :
    (t s : Text) (m : MemoryDb)
    → same_text t s ≡ false
    → find_text s (remove_text t m) ≡ find_text s m
unfolding find_text remove_text
find-remove_other t s [] h = refl
find-remove_other t s ((u, w) ∷ m) h = ground (arith, find-remove_other t s m, same_trans t u s)

hash_map_key_apart : (k l : Key) → k ≢ l → same_text (hash_map_key k) (hash_map_key l) ≡ false
hash_map_key_apart k l n = elim (Bool-cases (same_text (hash_map_key k) (hash_map_key l))) [
  | inl e ↦
      elim (n (key_text-injective k l (inr (same_text→≡ (hash_map_key k) (hash_map_key l) e)))) [ ]
  | inr e ↦ e
]

-- The database is a map from keys to values: a value written is read back where the library reads
-- what it wrote, a deleted key has no value, and neither a write nor a deletion changes what any
-- other key has, whatever the types of the two keys' values.
pub get-put-delete :
    {V W : Type 0} (c : Json V) (d : Json W) (k l : Key) (v : V) (m : MemoryDb)
    → c.from_str (c.to_string v) ≡ some v
    → k ≢ l
    → (get c k (put c k v m) ≡ ok (some v))
      × (get c k (delete k m) ≡ ok none)
      × (get d l (put c k v m) ≡ get d l m)
      × (get d l (delete k m) ≡ get d l m)
unfolding get put delete decoded
get-put-delete c d k l v m h n = (
  ap (decoded c) (find-insert_same (hash_map_key k) (c.to_string v) m) ∙ decoded-to_string c v h,
  ap (decoded c) (find-remove_same (hash_map_key k) m),
  ap (decoded d) (find-insert_other (hash_map_key k) (hash_map_key l) (c.to_string v) m apart),
  ap (decoded d) (find-remove_other (hash_map_key k) (hash_map_key l) m apart),
)
  where
    apart : same_text (hash_map_key k) (hash_map_key l) ≡ false
    apart = hash_map_key_apart k l n

-- ===== src/KadStore/Examples.antt =====
-- A store for two records of less than four bytes.
use avail_light.Prelude.{
  ℕ, ◌≤◌, ◌<◌, ◌≡◌, refl, ◌↔◌, not, none, List, [], ◌∷◌, ◌==◌, arith, length, ok, err,
}
use avail_light.Prelude.Assoc.{lookup, insert}
use avail_light.KadProviders.{value_too_large, max_records_reached}
use avail_light.KadStore.{KadRecord, MemoryStore, retain_records, get, put, remove_record}
use avail_light.KadStore.Records.{IsValid, store-IsValid, put_errors}

abbrev bytes : ℕ → List ℕ → KadRecord
bytes key value = record { key = key; value = value; publisher = none; expires = none }

abbrev store : List (ℕ × KadRecord) → MemoryStore
store records = record {
  local_key = 0;
  config = record {
    max_records = 2;
    max_value_bytes = 4;
    providers_config = record { max_providers_per_key = 1; max_provided_keys = 1 };
  };
  records = records;
  providers = record {
    config = record { max_providers_per_key = 1; max_provided_keys = 1 };
    by_key = [];
    provided = [];
  };
}

abbrev one : MemoryStore
one = store ((5, bytes 5 (1 ∷ [])) ∷ [])

abbrev both : MemoryStore
both = store ((5, bytes 5 (1 ∷ [])) ∷ (6, bytes 6 (2 ∷ [])) ∷ [])

stored_both : put (bytes 6 (2 ∷ [])) one ≡ ok both
unfolding put lookup insert
stored_both = refl

one-IsValid : IsValid one
one-IsValid = record { within = omega arith; stored = ((refl, omega arith), tt) }

store-IsValid_example :
    IsValid both
    × IsValid (remove_record 5 one)
    × IsValid (retain_records (λ k r. not (k == 5)) one)
store-IsValid_example =
    store-IsValid one both (bytes 6 (2 ∷ [])) 5 (λ k r. not (k == 5)) one-IsValid stored_both

put_errors_example :
    ((put (bytes 7 []) both ≡ err value_too_large) ↔ (4 ≤ length (bytes 7 []).value))
    × ((put (bytes 7 []) both ≡ err max_records_reached)
        ↔ ((length (bytes 7 []).value < 4) × (get 7 both ≡ none) × (2 ≤ length both.records)))
put_errors_example = put_errors both (bytes 7 [])

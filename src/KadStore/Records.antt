-- ===== src/KadStore/Records.antt =====
-- The records of core/src/network/p2p/kad_mem_store.rs: what `put`, `get`, `remove` and `retain` keep.
use avail_light.Prelude.{
  ℕ, ◌≤◌, ◌<◌, ◌≡◌, ◌↔◌, inl, inr, Bool, some, none, [], ◌∷◌, ◌==◌, if◌then◌else◌, length, ok, err,
  arith, Option-cases,
}
use avail_light.Prelude.Assoc.{
  Assoc, lookup, insert, remove, lookup-insert, lookup-remove, length-insert-some,
  length-insert-none, length-remove-le,
}
use avail_light.KadProviders.{value_too_large, max_records_reached}
use avail_light.KadStore.{
  KadRecord, MemoryStore, retain_entries, retain_records, get, put, remove_record,
}

-- Every record stands under its own key, and its value is below the limit.
abbrev pub Stored : ℕ → Assoc KadRecord → Type 0
Stored limit [] = Unit {0}
Stored limit ((k, r) ∷ m) = ((r.key ≡ k) × (length r.value < limit)) × Stored limit m

pub record IsValid (s : MemoryStore) : Type 0 where
  pub within : length s.records ≤ s.config.max_records
  pub stored : Stored s.config.max_value_bytes s.records

Stored-insert :
    (limit : ℕ) (r : KadRecord) (m : Assoc KadRecord)
    → length r.value < limit
    → Stored limit m
    → Stored limit (insert r.key r m)
unfolding insert
Stored-insert limit r [] h v = ground arith
Stored-insert limit r ((k, q) ∷ m) h v = ground (arith, Stored-insert limit r m)

Stored-remove : (limit k : ℕ) (m : Assoc KadRecord) → Stored limit m → Stored limit (remove k m)
unfolding remove
Stored-remove limit k [] v = tt
Stored-remove limit k ((j, q) ∷ m) v = ground (arith, Stored-remove limit k m)

Stored-retain :
    (limit : ℕ) (f : ℕ → KadRecord → Bool) (m : Assoc KadRecord)
    → Stored limit m
    → Stored limit (retain_entries f m)
unfolding retain_entries
Stored-retain limit f [] v = tt
Stored-retain limit f ((j, q) ∷ m) v = ground (arith, Stored-retain limit f m)

length-retain_entries-le :
    (f : ℕ → KadRecord → Bool) (m : Assoc KadRecord) → length (retain_entries f m) ≤ length m
unfolding retain_entries
length-retain_entries-le f [] = omega arith
length-retain_entries-le f ((j, q) ∷ m) = ground (arith, length-retain_entries-le f m)

put-IsValid : (s s' : MemoryStore) (r : KadRecord) → IsValid s → put r s ≡ ok s' → IsValid s'
unfolding put
put-IsValid s s' r v h = elim (Option-cases (lookup r.key s.records)) [
  | inl e ↦ ground (
    arith,
    length-insert-none r.key r s.records,
    Stored-insert s.config.max_value_bytes r s.records,
  )
  | inr (q, e) ↦ ground (
    arith,
    length-insert-some r.key r s.records q,
    Stored-insert s.config.max_value_bytes r s.records,
  )
]

-- A put that succeeds, a removal and a retain keep the number of records and the size of each value
-- within the configured limits, and each record under its own key.
pub store-IsValid :
    (s s' : MemoryStore) (r : KadRecord) (k : ℕ) (f : ℕ → KadRecord → Bool)
    → IsValid s
    → put r s ≡ ok s'
    → IsValid s' × IsValid (remove_record k s) × IsValid (retain_records f s)
unfolding remove_record retain_records
store-IsValid s s' r k f v h = (put-IsValid s s' r v h, after_remove, after_retain)
  where
    after_remove : IsValid (record s { records = remove k s.records })
    after_remove = record {
      within = omega (arith, length-remove-le k s.records, v.within);
      stored = Stored-remove s.config.max_value_bytes k s.records v.stored;
    }

    after_retain : IsValid (record s { records = retain_entries f s.records })
    after_retain = record {
      within = omega (arith, length-retain_entries-le f s.records, v.within);
      stored = Stored-retain s.config.max_value_bytes f s.records v.stored;
    }

-- The store is a map: after a put that succeeds the key has the record and all other keys are as
-- before, and after a removal the key has none and all other keys are as before.
pub get-put-remove :
    (s s' : MemoryStore) (r : KadRecord) (k j : ℕ)
    → put r s ≡ ok s'
    → (get j s' ≡ (if r.key == j then some r else get j s))
      × (get j (remove_record k s) ≡ (if k == j then none else get j s))
unfolding put get remove_record
get-put-remove s s' r k j h = (put_case, lookup-remove k j s.records)
  where
    put_case : lookup j s'.records ≡ (if r.key == j then some r else lookup j s.records)
    put_case = ground (arith, lookup-insert r.key j r s.records)

-- The errors of put: a value of the maximal size or more is refused; else a new key is refused
-- exactly when the store is full, so that a known key can always be written again.
pub put_errors :
    (s : MemoryStore) (r : KadRecord)
    → ((put r s ≡ err value_too_large) ↔ (s.config.max_value_bytes ≤ length r.value))
      × ((put r s ≡ err max_records_reached) ↔ (
          (length r.value < s.config.max_value_bytes)
          × (get r.key s ≡ none)
          × (s.config.max_records ≤ length s.records)))
unfolding put get
put_errors s r =
    (((λ h. ground arith), λ h. ground arith), ((λ h. ground arith), λ h. ground arith))

-- ===== src/KadStore.antt =====
-- core/src/network/p2p/kad_mem_store.rs and kad_mem_providers.rs: the node's part of the DHT, in
-- memory. Keys, peers and times are numbers.
pub mod Records
mod Examples
use avail_light.Prelude.{
  ℕ, zero, suc, ◌+◌, ◌-◌, ◌≡◌, ◌↔◌, Bool, true, false, ◌&&◌, not, Option, some, none, List, [], ◌∷◌,
  ◌++◌, ◌==◌, leb, ltb, if◌then◌else◌, length, retain, Result, ok, err, map,
}
use avail_light.Prelude.Assoc.{Assoc, lookup, insert, remove}
use avail_light.KadProviders
use avail_light.KadProviders.{
  ProvidersConfig, Providers, ProviderRecord, Kademlia, StoreError, value_too_large,
  max_records_reached,
}

-- `Record` of libp2p
pub record KadRecord : Type 0 where
  pub key : ℕ
  pub value : List ℕ
  pub publisher : Option ℕ
  pub expires : Option ℕ

pub record MemoryStoreConfig : Type 0 where
  pub max_records : ℕ
  pub max_value_bytes : ℕ
  pub providers_config : ProvidersConfig

pub record MemoryStore : Type 0 where
  pub local_key : ℕ
  pub config : MemoryStoreConfig
  pub records : Assoc KadRecord
  pub providers : Providers

unfoldable pub with_config : ℕ → MemoryStoreConfig → MemoryStore
with_config local_id config = record {
  local_key = local_id;
  config = config;
  records = [];
  providers = KadProviders.with_config config.providers_config;
}

retain_entries : (ℕ → KadRecord → Bool) → Assoc KadRecord → Assoc KadRecord
retain_entries f [] = []
retain_entries f ((k, r) ∷ m) =
    let rest = retain_entries f m in if f k r then (k, r) ∷ rest else rest

-- `retain`, for closures that do not change the record
pub retain_records : (ℕ → KadRecord → Bool) → MemoryStore → MemoryStore
unfolding retain_entries
retain_records f s = record s { records = retain_entries f s.records }

unfoldable pub get : ℕ → MemoryStore → Option KadRecord
get k s = lookup k s.records

unfoldable pub put : KadRecord → MemoryStore → Result StoreError MemoryStore
put r s =
    let stored : Result StoreError MemoryStore =
      ok (record s { records = insert r.key r s.records }) in
    if leb s.config.max_value_bytes (length r.value)
    then err value_too_large
    else elim (lookup r.key s.records) [
      | some _ ↦ stored
      | none ↦
          if leb s.config.max_records (length s.records) then err max_records_reached else stored
    ]

unfoldable pub remove_record : ℕ → MemoryStore → MemoryStore
remove_record k s = record s { records = remove k s.records }

-- The calls that are passed on to the providers.
unfoldable pub add_provider :
    Kademlia → ProviderRecord → MemoryStore → Result StoreError MemoryStore
add_provider kad r s = elim (KadProviders.add_provider kad s.local_key r s.providers) [
  | ok ps ↦ ok (record s { providers = ps })
  | err e ↦ err e
]

unfoldable pub remove_provider : Kademlia → ℕ → ℕ → MemoryStore → MemoryStore
remove_provider kad key provider s = record s {
  providers = KadProviders.remove_provider kad key provider s.providers;
}

-- ===== src/KadProviders/Examples.antt =====
-- A table for two providers a key. A peer's distance from a key is their sum modulo 8, and records
-- are the same if all fields but the addresses are.
use avail_light.Prelude.{
  ℕ, ◌+◌, ◌%◌, ◌≡◌, refl, Bool, true, false, ◌&&◌, Option, some, none, List, [], ◌∷◌, ◌==◌, arith,
  any, take, ok,
}
use avail_light.Prelude.Assoc.{lookup, insert}
use avail_light.KadProviders.{
  ProviderRecord, Kademlia, Providers, ProvidersConfig, with_config, add_to, add_provider,
  remove_provider, providers_of, position, store_at,
}
use avail_light.KadProviders.Closest.{insert_ordered, add_to_closest}
use avail_light.KadProviders.Table.{IsValid, add_provider-IsValid}
use avail_light.KadProviders.Sync.{provided_goes_stale}

abbrev same_time : Option ℕ → Option ℕ → Bool
same_time none none = true
same_time (some a) (some b) = a == b
same_time _ _ = false

abbrev kad : Kademlia
kad = record {
  distance = λ key peer. (key + peer) % 8;
  same_record = λ a b. a.key == b.key && a.provider == b.provider && same_time a.expires b.expires;
}

abbrev announce : ℕ → ℕ → Option ℕ → ProviderRecord
announce key provider expires = record {
  key = key;
  provider = provider;
  expires = expires;
  addresses = [];
}

abbrev config : ProvidersConfig
config = record { max_providers_per_key = 2; max_provided_keys = 4 }

abbrev two : List ProviderRecord
two = announce 1 2 none ∷ announce 1 4 none ∷ []

abbrev table : Providers
table = record { config = config; by_key = (1, two) ∷ []; provided = announce 1 4 none ∷ [] }

add_to_closest_example :
    (add_to kad 2 4 (announce 1 3 none) two []).0
    ≡ take 2 (insert_ordered kad (announce 1 3 none) two)
unfolding position
add_to_closest_example = add_to_closest kad 2 4 (announce 1 3 none) two [] (omega arith) refl

table-IsValid : IsValid kad table
table-IsValid = record {
  keys = omega arith;
  entries =
      (record { bounded = omega arith; once = (refl, (refl, tt)); ordered = omega arith }, tt);
}

abbrev grown : Providers
grown = record {
  config = config;
  by_key = (1, announce 1 2 none ∷ announce 1 3 none ∷ []) ∷ [];
  provided = [];
}

grows : add_provider kad 4 (announce 1 3 none) table ≡ ok grown
unfolding add_provider store_at add_to lookup insert
grows = refl

add_provider-IsValid_example : IsValid kad grown
add_provider-IsValid_example =
    add_provider-IsValid kad 4 (announce 1 3 none) table grown table-IsValid grows

abbrev announced : Option ℕ → Providers
announced expires = record {
  config = config;
  by_key = (1, announce 1 4 expires ∷ []) ∷ [];
  provided = announce 1 4 none ∷ [];
}

provided_goes_stale_example :
    (providers_of 1 (remove_provider kad 1 4 (announced (some 9))) ≡ [])
    × (any
          (kad.same_record (announce 1 4 none))
          (remove_provider kad 1 4 (announced (some 9))).provided
        ≡ true)
unfolding add_provider store_at add_to lookup insert with_config
provided_goes_stale_example =
    provided_goes_stale kad config (announce 1 4 none) (announce 1 4 (some 9)) (announced none)
      (announced (some 9)) (omega arith) refl refl refl refl refl refl

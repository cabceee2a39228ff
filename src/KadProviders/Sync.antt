-- ===== src/KadProviders/Sync.antt =====
-- The set `provided` of core/src/network/p2p/kad_mem_providers.rs against the lists of providers.
use avail_light.Prelude.{◌<◌, ◌≡◌, refl, true, false, [], ◌∷◌, any, arith, ok}
use avail_light.Prelude.Assoc.{lookup, insert, remove}
use avail_light.KadProviders.{
  ProviderRecord, Kademlia, Providers, ProvidersConfig, with_config, add_to, add_provider,
  remove_from, remove_provider, store_at, store_or_drop, providers_of,
}

first_announcement :
    (kad : Kademlia) (config : ProvidersConfig) (r : ProviderRecord) (ps : Providers)
    → 0 < config.max_providers_per_key
    → add_provider kad r.provider r (with_config config) ≡ ok ps
    → ps ≡ record { config = config; by_key = (r.key, r ∷ []) ∷ []; provided = r ∷ [] }
unfolding add_provider with_config store_at add_to lookup insert
first_announcement kad config r ps room a = ground arith

second_announcement :
    (kad : Kademlia) (config : ProvidersConfig) (r r' : ProviderRecord) (ps : Providers)
    → r'.key ≡ r.key
    → r'.provider ≡ r.provider
    → add_provider kad r.provider r'
        (record { config = config; by_key = (r.key, r ∷ []) ∷ []; provided = r ∷ [] })
      ≡ ok ps
    → ps ≡ record { config = config; by_key = (r.key, r' ∷ []) ∷ []; provided = r ∷ [] }
unfolding add_provider store_at add_to lookup insert
second_announcement kad config r r' ps k p a = ground arith

withdrawal :
    (kad : Kademlia) (config : ProvidersConfig) (r r' : ProviderRecord)
    → r'.provider ≡ r.provider
    → kad.same_record r' r ≡ false
    → remove_provider kad r.key r.provider
        (record { config = config; by_key = (r.key, r' ∷ []) ∷ []; provided = r ∷ [] })
      ≡ record { config = config; by_key = []; provided = r ∷ [] }
unfolding remove_provider remove_from store_or_drop lookup remove
withdrawal kad config r r' p n = ground arith

-- `provided` is not kept in sync when a record is updated in place. A node announces itself as a
-- provider of a key, announces itself again with other contents (another expiry, say), and then
-- withdraws: the key has no provider left, but the first announcement is still in `provided`.
pub provided_goes_stale :
    (kad : Kademlia) (config : ProvidersConfig) (r r' : ProviderRecord) (ps ps' : Providers)
    → 0 < config.max_providers_per_key
    → r'.key ≡ r.key
    → r'.provider ≡ r.provider
    → kad.same_record r r ≡ true
    → kad.same_record r' r ≡ false
    → add_provider kad r.provider r (with_config config) ≡ ok ps
    → add_provider kad r.provider r' ps ≡ ok ps'
    → (providers_of r.key (remove_provider kad r.key r.provider ps') ≡ [])
      × (any (kad.same_record r) (remove_provider kad r.key r.provider ps').provided ≡ true)
unfolding providers_of lookup
provided_goes_stale kad config r r' ps ps' room k p s n a b =
    let e = first_announcement kad config r ps room a in
    let e' = second_announcement kad config r r' ps' k p (rw e at b) in
    rw (e', withdrawal kad config r r' p n) (refl, ground arith)

-- ===== src/KadProviders.antt =====
-- core/src/network/p2p/kad_mem_providers.rs: for each key the closest providers, nearest first, and
-- the set of records that this node provides itself.
pub mod Closest
pub mod Invariant
pub mod Table
pub mod Sync
mod Examples
use avail_light.Prelude.{
  ℕ, zero, suc, ◌+◌, ◌-◌, ◌≡◌, ◌↔◌, Bool, true, false, ◌&&◌, not, Option, some, none, List, [], ◌∷◌,
  ◌++◌, ◌==◌, leb, ltb, if◌then◌else◌, length, get_elem?, retain, any, Result, ok, err,
}
use avail_light.Prelude.Assoc.{Assoc, lookup, insert, remove}

-- `ProviderRecord` of libp2p; an address is a number.
pub record ProviderRecord : Type 0 where
  pub key : ℕ
  pub provider : ℕ
  pub expires : Option ℕ
  pub addresses : List ℕ

-- What libp2p provides: the distance of a peer to a key, and the equality of provider records, which
-- compares all their fields.
pub record Kademlia : Type 0 where
  pub distance : ℕ → ℕ → ℕ
  pub same_record : ProviderRecord → ProviderRecord → Bool

pub data StoreError : Type 0 where
  max_records_reached max_provided_keys_reached value_too_large : StoreError

pub record ProvidersConfig : Type 0 where
  pub max_providers_per_key : ℕ
  pub max_provided_keys : ℕ

pub record Providers : Type 0 where
  pub config : ProvidersConfig
  pub by_key : Assoc (List ProviderRecord)
  pub provided : List ProviderRecord

pub with_config : ProvidersConfig → Providers
with_config config = record { config = config; by_key = []; provided = [] }

-- `Iterator::position`, `Vec::insert`, an indexed write, `Vec::remove` and `Vec::pop`
pub position : (ProviderRecord → Bool) → List ProviderRecord → Option ℕ
position p [] = none
position p (x ∷ xs) =
    let rest = position p xs in
    if p x then some 0 else elim rest [ none ↦ none | some i ↦ some (suc i) ]

pub insert_at : ℕ → ProviderRecord → List ProviderRecord → List ProviderRecord
insert_at zero r xs = r ∷ xs
insert_at (suc i) r [] = r ∷ []
insert_at (suc i) r (x ∷ xs) = x ∷ insert_at i r xs

pub set_at : ℕ → ProviderRecord → List ProviderRecord → List ProviderRecord
set_at i r [] = []
set_at zero r (x ∷ xs) = r ∷ xs
set_at (suc i) r (x ∷ xs) = x ∷ set_at i r xs

pub remove_at : ℕ → List ProviderRecord → List ProviderRecord
remove_at i [] = []
remove_at zero (x ∷ xs) = xs
remove_at (suc i) (x ∷ xs) = x ∷ remove_at i xs

pub last : ProviderRecord → List ProviderRecord → ProviderRecord
last x [] = x
last x (y ∷ ys) = last y ys

pub all_but_last : ProviderRecord → List ProviderRecord → List ProviderRecord
all_but_last x [] = []
all_but_last x (y ∷ ys) = x ∷ all_but_last y ys

pub pop : List ProviderRecord → Option (ProviderRecord × List ProviderRecord)
unfolding last all_but_last
pop [] = none
pop (x ∷ xs) = some (last x xs, all_but_last x xs)

module _ (kad : Kademlia) where
  open kad use {distance, same_record}

  -- `HashSet::insert` and `HashSet::remove`
  provided_insert : ProviderRecord → List ProviderRecord → List ProviderRecord
  provided_insert r rs = if any (same_record r) rs then rs else r ∷ rs

  provided_remove : ProviderRecord → List ProviderRecord → List ProviderRecord
  provided_remove r rs = retain (λ q. not (same_record r q)) rs

  note_local : ℕ → ProviderRecord → List ProviderRecord → List ProviderRecord
  unfolding provided_insert
  note_local local r provided = if local == r.provider then provided_insert r provided else provided

  -- Remove the excess provider, if any.
  drop_excess :
      ℕ → List ProviderRecord → List ProviderRecord → List ProviderRecord × List ProviderRecord
  unfolding provided_remove pop
  drop_excess most xs provided =
      if ltb most (length xs)
      then elim (pop xs) [
        | none ↦ (xs, provided)
        | some (p, rest) ↦ (rest, provided_remove p provided)
      ]
      else (xs, provided)

  -- What becomes of one key's providers and of `provided`.
  unfoldable pub add_to :
      ℕ
      → ℕ
      → ProviderRecord
      → List ProviderRecord
      → List ProviderRecord
      → List ProviderRecord × List ProviderRecord
  unfolding note_local drop_excess position set_at insert_at
  add_to most local r xs provided = elim (position (λ p. p.provider == r.provider) xs) [
    | some i ↦ (set_at i r xs, provided)
    | none ↦ elim (position (λ p. ltb (distance r.key r.provider) (distance r.key p.provider)) xs) [
      | some i ↦ drop_excess most (insert_at i r xs) (note_local local r provided)
      | none ↦
          if ltb (length xs) most
          then (xs ++ r ∷ [], note_local local r provided)
          else (xs, provided)
    ]
  ]

  store_at : Providers → ℕ → List ProviderRecord × List ProviderRecord → Providers
  store_at ps key (xs, provided) = record ps {
    by_key = insert key xs ps.by_key;
    provided = provided;
  }

  unfoldable pub add_provider : ℕ → ProviderRecord → Providers → Result StoreError Providers
  unfolding store_at
  add_provider local r ps = elim (lookup r.key ps.by_key) [
    | some xs ↦
        ok (store_at ps r.key (add_to ps.config.max_providers_per_key local r xs ps.provided))
    | none ↦
        if ps.config.max_provided_keys == length ps.by_key
        then err max_provided_keys_reached
        else ok (store_at ps r.key (add_to ps.config.max_providers_per_key local r [] ps.provided))
  ]

  -- One key's providers after a removal, and `provided`.
  remove_from :
      ℕ → List ProviderRecord → List ProviderRecord → List ProviderRecord × List ProviderRecord
  unfolding provided_remove position remove_at
  remove_from provider xs provided = elim (position (λ p. p.provider == provider) xs) [
    | none ↦ (xs, provided)
    | some i ↦ (
      remove_at i xs,
      elim (get_elem? xs i) [ none ↦ provided | some p ↦ provided_remove p provided ],
    )
  ]

  store_or_drop : Providers → ℕ → List ProviderRecord × List ProviderRecord → Providers
  store_or_drop ps key ([], provided) = record ps {
    by_key = remove key ps.by_key;
    provided = provided;
  }
  store_or_drop ps key (x ∷ xs, provided) = record ps {
    by_key = insert key (x ∷ xs) ps.by_key;
    provided = provided;
  }

  unfoldable pub remove_provider : ℕ → ℕ → Providers → Providers
  unfolding store_or_drop remove_from
  remove_provider key provider ps = elim (lookup key ps.by_key) [
    | none ↦ ps
    | some xs ↦ store_or_drop ps key (remove_from provider xs ps.provided)
  ]

-- `providers`: the list of a key, empty if there is none.
unfoldable pub providers_of : ℕ → Providers → List ProviderRecord
providers_of key ps = elim (lookup key ps.by_key) [ none ↦ [] | some xs ↦ xs ]

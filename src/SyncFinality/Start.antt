-- ===== src/SyncFinality/Start.antt =====
-- The whole of `sync` of core/src/sync_finality.rs: the start from a checkpoint or from the genesis,
-- and what the loop stores. A panic of the source is an error here.
use avail_light.Prelude.{
  ℕ, zero, suc, ◌+◌, ◌-◌, ◌%◌, Bool, true, false, ◌&&◌, ◌||◌, Option, some, none, List, [], ◌∷◌,
  ◌==◌, if◌then◌else◌, ltb, length, take, Result, ok, err,
}
use avail_light.Prelude.Assoc.{insert}
use avail_light.Prelude.Chunks.{skip}
use avail_light.Prelude.Sets.{contains}
use avail_light.Types.Header.{H256, AvailHeader}
use avail_light.Types.Grandpa.{Public}
use avail_light.Data.Store.{Store, FinalitySyncCheckpoint}
use avail_light.Finality.{ValidatorSet}
use avail_light.SyncFinality.{
  FinalityClient, SyncError, several_changes, finality_failed, unavailable, parent_mismatch,
  not_finished, no_validators, bad_storage_key, no_key_owner, filter_auth_set_changes, header_at,
  check_change,
}

-- What the nodes answer about the genesis, accounts being numbers: its hash, its set id, its validators,
-- the storage keys of the key owners without their common prefix, and the owner of a key; with the
-- number that 32 bytes spell.
pub record GenesisClient : Type 0 where
  pub genesis_hash : Option H256
  pub set_id_at : Option ℕ
  pub validator_set_at : Option (Option (List ℕ))
  pub storage_keys : Option (List (List ℕ))
  pub session_key_owner : Public → Option (Option ℕ)
  pub from_raw : List ℕ → Public

-- `GRANDPA_KEY_ID` and `GRANDPA_KEY_LEN`
abbrev pub grandpa_key_id : List ℕ
grandpa_key_id = 103 ∷ 114 ∷ 97 ∷ 110 ∷ []

abbrev pub grandpa_key_len : ℕ
grandpa_key_len = 32

abbrev starts_with : List ℕ → List ℕ → Bool
starts_with [] bs = true
starts_with (a ∷ xs) [] = false
starts_with (a ∷ xs) (b ∷ bs) = (a == b) && starts_with xs bs

-- `windows(..).any(..)`
unfoldable pub has_key_id : List ℕ → Bool
has_key_id [] = false
has_key_id (b ∷ bs) = starts_with grandpa_key_id (b ∷ bs) || has_key_id bs

module _ (genesis : GenesisClient) where
  unfoldable pub grandpa_keys : List (List ℕ) → Result SyncError (List Public)
  unfolding has_key_id
  grandpa_keys [] = ok []
  grandpa_keys (e ∷ es) =
      let rest = grandpa_keys es in
      let n = length e - grandpa_key_len in
      if ltb (length e) grandpa_key_len then err bad_storage_key else elim rest [
        | err x ↦ err x
        | ok keys ↦
            if has_key_id (take n e) then ok (genesis.from_raw (skip n e) ∷ keys) else ok keys
      ]

  -- The keys whose owner is one of the validators.
  unfoldable pub owned_keys : List ℕ → List Public → Result SyncError (List Public)
  owned_keys accounts [] = ok []
  owned_keys accounts (key ∷ keys) =
      let rest = owned_keys accounts keys in
      elim (genesis.session_key_owner key) [
        | none ↦ err no_key_owner
        | some none ↦ err no_key_owner
        | some (some account) ↦ elim rest [
          | err x ↦ err x
          | ok others ↦ if contains accounts account then ok (key ∷ others) else ok others
        ]
      ]

  unfoldable pub get_valset_at_genesis : Result SyncError (List Public)
  unfolding grandpa_keys owned_keys
  get_valset_at_genesis = elim genesis.validator_set_at [
    | none ↦ err unavailable
    | some none ↦ err no_validators
    | some (some accounts) ↦ elim genesis.storage_keys [
      | none ↦ err unavailable
      | some es ↦ elim (grandpa_keys es) [ err x ↦ err x | ok keys ↦ owned_keys accounts keys ]
    ]
  ]

  -- The first block of the loop, and the validators at it.
  unfoldable pub start_of : Option FinalitySyncCheckpoint → Result SyncError (ℕ × ValidatorSet)
  unfolding get_valset_at_genesis
  start_of (some ch) =
      ok (ch.number, record { set_id = ch.set_id; validator_set = ch.validator_set })
  start_of none = elim get_valset_at_genesis [
    | err x ↦ err x
    | ok keys ↦ elim genesis.set_id_at [
      | none ↦ err unavailable
      | some set_id ↦ ok (1, record { set_id = set_id; validator_set = keys })
    ]
  ]

-- How the task ends: an error triggers the shutdown, a panic unwinds past it.
pub data RunEnd : Type 0 where
  finished shutdown_triggered panicked : RunEnd

unfoldable pub is_panic : SyncError → Bool
is_panic several_changes = true
is_panic parent_mismatch = true
is_panic bad_storage_key = true
is_panic no_key_owner = true
is_panic unavailable = false
is_panic no_validators = false
is_panic finality_failed = false
is_panic not_finished = false

module _ {F : Type 0} where
  unfoldable pub store_block_header : ℕ → AvailHeader → Store F → Store F
  store_block_header n h db = record db { block_header = insert n h db.block_header }

  unfoldable pub store_sync_checkpoint : FinalitySyncCheckpoint → Store F → Store F
  store_sync_checkpoint ch db = record db { finality_sync_checkpoint = some ch }

  module _ (client : FinalityClient) where
    -- The loop with what it stores; a header is stored before it is checked.
    unfoldable pub follow_stored :
        ℕ → ℕ → ℕ → H256 → ValidatorSet → Store F → Result SyncError (Unit {0}) × Store F
    unfolding header_at check_change filter_auth_set_changes store_block_header
        store_sync_checkpoint
    follow_stored zero last n prev_hash valset db =
        if n == last + 1 then (ok tt, db) else (err not_finished, db)
    follow_stored (suc rounds) last n prev_hash valset db =
        if n == last + 1 then (ok tt, db) else elim (header_at client n) [
          | none ↦ (err unavailable, db)
          | some h ↦
              let db' = store_block_header n h db in
              if h.parent_hash == prev_hash
              then elim (filter_auth_set_changes client h) [
                | err e ↦ (err e, db')
                | ok [] ↦ follow_stored rounds last (n + 1) (client.crypto.header_hash h) valset db'
                | ok (y ∷ ys) ↦ elim (check_change client n valset) [
                  | err e ↦ (err e, db')
                  | ok set_id ↦
                      follow_stored rounds last (n + 1) (client.crypto.header_hash h)
                        (record { set_id = set_id + 1; validator_set = y ∷ ys })
                        (store_sync_checkpoint
                          (record { number = n + 1; set_id = set_id + 1; validator_set = y ∷ ys })
                          db')
                ]
              ]
              else (err parent_mismatch, db')
        ]

    -- The loop from a block to the last one, and the flag at its end.
    unfoldable pub finish_sync :
        ℕ → ℕ → H256 → ValidatorSet → Store F → Result SyncError (Unit {0}) × Store F
    unfolding follow_stored
    finish_sync last n prev_hash valset db =
        let r = follow_stored (last + 1 - n) last n prev_hash valset db in
        elim r.0 [ err e ↦ r | ok _ ↦ (ok tt, record r.1 { is_finality_synced = some true }) ]

    -- The number before the first one is a `u32`, which wraps around.
    unfoldable pub sync :
        GenesisClient → AvailHeader → Store F → Result SyncError (Unit {0}) × Store F
    unfolding start_of finish_sync
    sync genesis from_header db = elim genesis.genesis_hash [
      | none ↦ (err unavailable, db)
      | some _ ↦ elim (start_of genesis db.finality_sync_checkpoint) [
        | err e ↦ (err e, db)
        | ok (n, valset) ↦ elim (client.get_block_hash ((n + 4294967295) % 4294967296)) [
          | none ↦ (err unavailable, db)
          | some prev_hash ↦ finish_sync from_header.number n prev_hash valset db
        ]
      ]
    ]

    unfoldable pub run : GenesisClient → AvailHeader → Store F → Store F × RunEnd
    unfolding sync is_panic
    run genesis from_header db =
        let r = sync genesis from_header db in
        elim r.0 [
          | err e ↦ (r.1, if is_panic e then panicked else shutdown_triggered)
          | ok _ ↦ (r.1, finished)
        ]

-- ===== src/SyncFinality/Examples.antt =====
-- A sync over two headers that leave the validators as they are, from the genesis.
use avail_light.Prelude.{
  ℕ, zero, suc, ◌%◌, Result, ok, ◌+◌, ◌≡◌, refl, true, some, none, List, [], ◌∷◌, err, ◌≢◌, arith,
}
use avail_light.Types.Header.{H256}
use avail_light.Types.Samples.{bare_header}
use avail_light.Finality.{ValidatorSet}
use avail_light.SyncFinality.{
  FinalityClient, SyncError, not_finished, forced_valsets, scheduled_valsets,
  filter_auth_set_changes, header_at, sync_chain,
}
use avail_light.SyncFinality.Chain.{sync_chain_decided}
use avail_light.SyncFinality.Start.{
  GenesisClient, grandpa_keys, owned_keys, get_valset_at_genesis, has_key_id, start_of,
  store_block_header, follow_stored, finish_sync, sync,
}
use avail_light.SyncFinality.Synced.{IsSynced, sync-IsSynced}
use avail_light.Data.Store.{Store, empty}

abbrev client : FinalityClient
client = record {
  crypto = record {
    header_hash = λ h. h.number;
    encode_message = λ m round set_id. [];
    verify_signature = λ key signature message. true;
  };
  decode = λ bytes. none;
  get_block_hash = λ n. some n;
  get_header_by_hash = λ hash. some (bare_header hash);
  request_finality_proof = λ n. none;
}

abbrev validators : ValidatorSet
validators = record { set_id = 0; validator_set = 10 ∷ [] }

abbrev repeated : ℕ → ℕ → List ℕ
repeated zero b = []
repeated (suc n) b = b ∷ repeated n b

abbrev first_byte : List ℕ → ℕ
first_byte [] = 0
first_byte (b ∷ bs) = b

-- The first key belongs to the validator, the second one to nobody in the set.
abbrev genesis : GenesisClient
genesis = record {
  genesis_hash = some 0;
  set_id_at = some 0;
  validator_set_at = some (some (7 ∷ []));
  storage_keys = some (
      (103 ∷ 114 ∷ 97 ∷ 110 ∷ repeated 32 1)
      ∷ (5 ∷ 103 ∷ 114 ∷ 97 ∷ 110 ∷ repeated 32 2)
      ∷ repeated 40 3
      ∷ []);
  session_key_owner = λ key. some (some (key + 6));
  from_raw = first_byte;
}

abbrev synced : Result SyncError (Unit {0}) × Store ℕ
synced = sync client genesis (bare_header 2) empty

sync-IsSynced_example :
    (n : ℕ) × (valset : ValidatorSet) × (prev_hash : H256) × (start_of genesis none
      ≡ ok (n, valset))
    × (client.get_block_hash ((n + 4294967295) % 4294967296) ≡ some prev_hash)
    × IsSynced client 2 n prev_hash valset synced.1
unfolding sync finish_sync follow_stored store_block_header start_of get_valset_at_genesis
    grandpa_keys owned_keys has_key_id header_at filter_auth_set_changes forced_valsets
    scheduled_valsets
sync-IsSynced_example = sync-IsSynced {F = ℕ} client genesis (bare_header 2) empty refl

sync_chain_decided_example : sync_chain client 2 1 0 validators ≢ err not_finished
sync_chain_decided_example = sync_chain_decided client 2 1 0 validators (omega arith)

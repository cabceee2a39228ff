-- ===== src/Data/Texts.antt =====
-- The texts of the keys of core/src/data.rs are read back, so no two keys share a text.
use avail_light.Prelude.{
  ℕ, ◌≡◌, refl, ap, ◌∙◌, sym, String, Option, some, none, List, [], ◌∷◌, ◌++◌, false, if◌then◌else◌,
  ◌⊎◌, inl, inr, arith,
}
use avail_light.Prelude.Decimal.{
  Text, codes, decimal, value_from, value_from-decimal, before, after, before-append, after-append,
  before_all, after_all, contains-decimal, same_text,
}
use avail_light.Prelude.Sets.{contains}
use avail_light.Data.{
  Key, app_data, block_header, verified_cell_count, block_header_received_at,
  finality_sync_checkpoint, rpc_node, is_finality_synced, verified_sync_data,
  achieved_sync_confidence, verified_sync_header, latest_sync, verified_data, achieved_confidence,
  verified_header, latest_header, is_synced, client_id, p2p_keypair, signer_nonce, peer_id,
  multi_address, dht_fetched_percentage, numbered, key_text, hash_map_key,
}
use avail_light.Data.Names

find_name : Text → List (String × Key) → Option Key
find_name t [] = none
find_name t ((s, k) ∷ m) =
    let rest = find_name t m in if same_text t (codes s) then some k else rest

-- A key by its name, with the numbers that the text gives.
named : ℕ → ℕ → List (String × Key)
named a n =
    (Names.app_id_prefix, app_data a n)
    ∷ (Names.block_header_key_prefix, block_header a)
    ∷ (Names.verified_cell_count_prefix, verified_cell_count a)
    ∷ (Names.received_at, block_header_received_at a)
    ∷ (Names.finality_sync_checkpoint_key, finality_sync_checkpoint)
    ∷ (Names.connected_rpc_node_key, rpc_node)
    ∷ (Names.is_finality_synced_key, is_finality_synced)
    ∷ (Names.verified_sync_data_key, verified_sync_data)
    ∷ (Names.achieved_sync_confidence_key, achieved_sync_confidence)
    ∷ (Names.verified_sync_header_key, verified_sync_header)
    ∷ (Names.latest_sync_key, latest_sync)
    ∷ (Names.verified_data_key, verified_data)
    ∷ (Names.achieved_confidence_key, achieved_confidence)
    ∷ (Names.verified_header_key, verified_header)
    ∷ (Names.latest_header_key, latest_header)
    ∷ (Names.is_synced_key, is_synced)
    ∷ (Names.client_id_key, client_id)
    ∷ (Names.p2p_keypair_key, p2p_keypair)
    ∷ (Names.signer_nonce_key, signer_nonce)
    ∷ (Names.peer_id_key, peer_id)
    ∷ (Names.multi_address_key, multi_address)
    ∷ (Names.dht_fetched, dht_fetched_percentage)
    ∷ []

-- The name is before the first colon; the numbers follow, with a colon between them.
read_parts : Text → Text → Text → Option Key
read_parts name first second = find_name name (named (value_from 0 first) (value_from 0 second))

parse_key : Text → Option Key
parse_key t = read_parts (before b':' t) (before b':' (after b':' t)) (after b':' (after b':' t))

parse-numbered :
    (prefix : String) (n : ℕ)
    → contains (codes prefix) b':' ≡ false
    → parse_key (numbered prefix n) ≡ find_name (codes prefix) (named n 0)
unfolding parse_key read_parts numbered value_from
parse-numbered prefix n h =
    rw
      (
        before-append b':' (codes prefix) (decimal n) h,
        after-append b':' (codes prefix) (decimal n) h,
      )
      (rw
        (
          before_all b':' (decimal n) (contains-decimal n),
          after_all b':' (decimal n) (contains-decimal n),
          value_from-decimal n,
        )
        refl)

parse-app_data : (a n : ℕ) → parse_key (key_text (app_data a n)) ≡ some (app_data a n)
unfolding parse_key read_parts key_text find_name named same_text
parse-app_data a n =
    rw
      (
        before-append b':' (codes Names.app_id_prefix) (decimal a ++ b':' ∷ decimal n) prefix_free,
        after-append b':' (codes Names.app_id_prefix) (decimal a ++ b':' ∷ decimal n) prefix_free,
      )
      (rw
        (
          before-append b':' (decimal a) (decimal n) (contains-decimal a),
          after-append b':' (decimal a) (decimal n) (contains-decimal a),
          value_from-decimal a,
          value_from-decimal n,
        )
        refl)
  where
    prefix_free : contains (codes Names.app_id_prefix) b':' ≡ false
    prefix_free = refl

parse-key_text : (k : Key) → parse_key (key_text k) ≡ some k
unfolding parse_key read_parts key_text find_name named same_text before after value_from
parse-key_text (app_data a n) = parse-app_data a n
parse-key_text (block_header n) = parse-numbered Names.block_header_key_prefix n refl
parse-key_text (verified_cell_count n) = parse-numbered Names.verified_cell_count_prefix n refl
parse-key_text (block_header_received_at n) = parse-numbered Names.received_at n refl
parse-key_text finality_sync_checkpoint = refl
parse-key_text rpc_node = refl
parse-key_text is_finality_synced = refl
parse-key_text verified_sync_data = refl
parse-key_text achieved_sync_confidence = refl
parse-key_text verified_sync_header = refl
parse-key_text latest_sync = refl
parse-key_text verified_data = refl
parse-key_text achieved_confidence = refl
parse-key_text verified_header = refl
parse-key_text latest_header = refl
parse-key_text is_synced = refl
parse-key_text client_id = refl
parse-key_text p2p_keypair = refl
parse-key_text signer_nonce = refl
parse-key_text peer_id = refl
parse-key_text multi_address = refl
parse-key_text dht_fetched_percentage = refl

some-injective : {k l : Key} → some k ≡ some l → k ≡ l
some-injective h = ground arith

same-key_text : (k l : Key) → key_text k ≡ key_text l → k ≡ l
same-key_text k l h = some-injective (sym (parse-key_text k) ∙ ap parse_key h ∙ parse-key_text l)

-- Keys with the same text, in the database or under their space in the database in memory, are equal.
pub key_text-injective :
    (k l : Key) → (key_text k ≡ key_text l) ⊎ (hash_map_key k ≡ hash_map_key l) → k ≡ l
unfolding hash_map_key after
key_text-injective k l (inl h) = same-key_text k l h
key_text-injective k l (inr h) = same-key_text k l (ap (λ t. after b':' (after b':' t)) h)

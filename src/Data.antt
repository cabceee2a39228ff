-- ===== src/Data.antt =====
-- core/src/data.rs, data/keys.rs and data/mem_db.rs: the keys of the database, their texts, and the
-- database in memory.
pub mod Names
mod Texts
mod Memory
pub mod Store
mod Examples
use avail_light.Data.Names
use avail_light.Prelude.{ℕ, ◌≡◌, String, Option, some, none, List, [], ◌∷◌, ◌++◌}
use avail_light.Prelude.Decimal.{Text, codes, decimal}

-- The types that implement `RecordKey`, with their fields.
pub data Key : Type 0 where
  app_data : ℕ → ℕ → Key
  block_header verified_cell_count block_header_received_at : ℕ → Key
  finality_sync_checkpoint rpc_node is_finality_synced verified_sync_data : Key
  achieved_sync_confidence verified_sync_header latest_sync verified_data : Key
  achieved_confidence verified_header latest_header is_synced client_id : Key
  p2p_keypair signer_nonce peer_id multi_address dht_fetched_percentage : Key

abbrev pub app_state_cf : String
app_state_cf = "app_state_cf"

unfoldable pub space : Key → Option String
space k = some app_state_cf

-- `format!("{prefix}:{number}")`
unfoldable pub numbered : String → ℕ → Text
numbered prefix n = codes prefix ++ b':' ∷ decimal n

unfoldable pub key_text : Key → Text
unfolding numbered
key_text (app_data a n) = codes Names.app_id_prefix ++ b':' ∷ (decimal a ++ b':' ∷ decimal n)
key_text (block_header n) = numbered Names.block_header_key_prefix n
key_text (verified_cell_count n) = numbered Names.verified_cell_count_prefix n
key_text (block_header_received_at n) = numbered Names.received_at n
key_text finality_sync_checkpoint = codes Names.finality_sync_checkpoint_key
key_text rpc_node = codes Names.connected_rpc_node_key
key_text is_finality_synced = codes Names.is_finality_synced_key
key_text verified_sync_data = codes Names.verified_sync_data_key
key_text achieved_sync_confidence = codes Names.achieved_sync_confidence_key
key_text verified_sync_header = codes Names.verified_sync_header_key
key_text latest_sync = codes Names.latest_sync_key
key_text verified_data = codes Names.verified_data_key
key_text achieved_confidence = codes Names.achieved_confidence_key
key_text verified_header = codes Names.verified_header_key
key_text latest_header = codes Names.latest_header_key
key_text is_synced = codes Names.is_synced_key
key_text client_id = codes Names.client_id_key
key_text p2p_keypair = codes Names.p2p_keypair_key
key_text signer_nonce = codes Names.signer_nonce_key
key_text peer_id = codes Names.peer_id_key
key_text multi_address = codes Names.multi_address_key
key_text dht_fetched_percentage = codes Names.dht_fetched

-- The key of the map in memory: the space, "::" and the key.
unfoldable pub hash_map_key : Key → Text
unfolding space
hash_map_key k = elim (space k) [ some s ↦ codes s ++ b':' ∷ b':' ∷ key_text k | none ↦ key_text k ]

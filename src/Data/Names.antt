-- ===== src/Data/Names.antt =====
-- core/src/data/keys.rs: the names of the keys.
use avail_light.Prelude.{String}

abbrev pub app_id_prefix : String
app_id_prefix = "app_id"

abbrev pub block_header_key_prefix : String
block_header_key_prefix = "block_header"

abbrev pub verified_cell_count_prefix : String
verified_cell_count_prefix = "verified_cell_count"

abbrev pub finality_sync_checkpoint_key : String
finality_sync_checkpoint_key = "finality_sync_checkpoint"

abbrev pub is_finality_synced_key : String
is_finality_synced_key = "is_finality_sync"

abbrev pub connected_rpc_node_key : String
connected_rpc_node_key = "connected_rpc_node"

abbrev pub verified_sync_data_key : String
verified_sync_data_key = "verified_sync_data"

abbrev pub achieved_sync_confidence_key : String
achieved_sync_confidence_key = "achieved_sync_confidence"

abbrev pub verified_sync_header_key : String
verified_sync_header_key = "verified_sync_header"

abbrev pub latest_sync_key : String
latest_sync_key = "latest_sync"

abbrev pub verified_data_key : String
verified_data_key = "verified_data"

abbrev pub achieved_confidence_key : String
achieved_confidence_key = "achieved_confidence"

abbrev pub verified_header_key : String
verified_header_key = "verified_header"

abbrev pub latest_header_key : String
latest_header_key = "latest_header"

abbrev pub is_synced_key : String
is_synced_key = "is_synced"

abbrev pub client_id_key : String
client_id_key = "client_id"

abbrev pub p2p_keypair_key : String
p2p_keypair_key = "p2p_keypair"

abbrev pub signer_nonce_key : String
signer_nonce_key = "signer_nonce"

abbrev pub received_at : String
received_at = "block_header_received_at"

abbrev pub peer_id_key : String
peer_id_key = "peer_id"

abbrev pub multi_address_key : String
multi_address_key = "multi_address"

abbrev pub dht_fetched : String
dht_fetched = "dht_fetched_percentage"

-- ===== src/AppClient/Blocks.antt =====
-- What `process_block` of core/src/app_client.rs has used when it yields data.
use avail_light.Prelude.{
  ℕ, ◌*◌, ◌≤◌, ◌≡◌, ◌⊎◌, true, not, Option, some, none, List, ◌++◌, length, retain, In, ok,
}
use avail_light.Prelude.Sets.{contains}
use avail_light.Types.Header.{H256}
use avail_light.Types.Block.{Kate, Extension}
use avail_light.Data.Store.{Store}
use avail_light.AppClient.Source.{Row, AppData, DataCell, AppKate, AppNode}
use avail_light.AppClient.Rows.{set_rows, fetch_rows_from_dht}
use avail_light.AppClient.Cells.{data_cells_from_rows, reconstruct_rows_from_dht}
use avail_light.AppClient.Merged.{row_at}
use avail_light.AppClient.{AppClientConfig, rpc_rows_of, verify_equality}

module _ {kate : Kate} (app : AppKate kate) (cfg : AppClientConfig) (app_id : ℕ)
    (node : AppNode kate) where
  -- The node of the block's hash is asked for the rows that the DHT lacks, and the rows missing in both
  -- are reconstructed, within the threshold. The data are decoded from rows, each of which was reconstructed, or is the DHT's, or the node's
  -- where the DHT has none, with an index that was verified in one of the lists.
  pub record Decoded (extension : Extension kate) (block_hash : H256) (d : AppData) : Type 0 where
    pub dht_rows : List (Option Row)
    pub rpc_rows : List (Option Row)
    pub dht_verified : List ℕ
    pub dht_missing : List ℕ
    pub rpc_verified : List ℕ
    pub rpc_missing : List ℕ
    pub missing_rows : List ℕ
    pub reconstructed : List (ℕ × Row)
    pub rows : List (Option Row)
    pub cells : List DataCell
    pub fetched :
        fetch_rows_from_dht node app extension.dimensions
          (app.app_specific_rows extension.lookup extension.dimensions app_id)
        ≡ ok dht_rows
    pub dht_checked :
        verify_equality app cfg app_id node extension dht_rows ≡ ok (dht_verified, dht_missing)
    pub requested :
        rpc_rows_of app cfg app_id node extension block_hash (length dht_rows) dht_missing
        ≡ ok rpc_rows
    pub rpc_checked :
        verify_equality app cfg app_id node extension rpc_rows ≡ ok (rpc_verified, rpc_missing)
    pub missing : missing_rows ≡ retain (λ row. not (contains dht_verified row)) rpc_missing
    pub within : length missing_rows * app.width extension.dimensions ≤ cfg.threshold
    pub recovered :
        reconstruct_rows_from_dht node.net extension.dimensions extension.commitments app
          missing_rows
        ≡ ok reconstructed
    pub sources :
        (k : ℕ) (row : Row)
        → row_at rows k ≡ some row
        → In (k, row) reconstructed
          ⊎ ((contains (dht_verified ++ rpc_verified) k ≡ true)
              × ((row_at dht_rows k ≡ some row)
                  ⊎ ((row_at dht_rows k ≡ none) × (row_at rpc_rows k ≡ some row))))
    pub cut : data_cells_from_rows rows ≡ ok cells
    pub decoded :
        app.decode_app_extrinsics extension.lookup extension.dimensions cells app_id ≡ some d

  -- What the last part has done with the merged rows.
  record Completed (extension : Extension kate) (merged : List (Option Row)) (missing : List ℕ)
      (d : AppData) : Type 0 where
    reconstructed : List (ℕ × Row)
    rows : List (Option Row)
    cells : List DataCell
    within : length missing * app.width extension.dimensions ≤ cfg.threshold
    recovered :
        reconstruct_rows_from_dht node.net extension.dimensions extension.commitments app missing
        ≡ ok reconstructed
    set : set_rows reconstructed merged ≡ ok rows
    cut : data_cells_from_rows rows ≡ ok cells
    decoded : app.decode_app_extrinsics extension.lookup extension.dimensions cells app_id ≡ some d

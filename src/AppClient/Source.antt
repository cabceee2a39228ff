-- ===== src/AppClient/Source.antt =====
-- What core/src/app_client.rs takes from the library kate-recovery and from the network, and the
-- cells and errors of its own. A panic of the source is an error here.
use avail_light.Prelude.{ℕ, Bool, Option, List}
use avail_light.Prelude.Assoc.{Assoc}
use avail_light.Types.Header.{H256}
use avail_light.Types.Block.{Kate, Position}
use avail_light.Network.{Cell, FetchError, Sources}

abbrev pub Row : Type 0
Row = List ℕ

abbrev pub AppData : Type 0
AppData = List (List ℕ)

pub record DataCell : Type 0 where
  pub position : Position
  pub content : List ℕ

-- The functions of kate-recovery, with the conversion of a verified cell to its data.
pub record AppKate (kate : Kate) : Type 0 where
  pub width : kate.Dimensions → ℕ
  pub extended_rows : kate.Dimensions → ℕ
  pub has_range : kate.Lookup → ℕ → Bool
  pub app_specific_rows : kate.Lookup → kate.Dimensions → ℕ → List ℕ
  -- the rows that equal their commitments, and the others of the application's rows
  pub verify_equality :
      List kate.Commitment
      → List (Option Row)
      → kate.Lookup
      → kate.Dimensions
      → ℕ
      → Option (List ℕ × List ℕ)
  pub extended_rows_positions : kate.Dimensions → List ℕ → List Position
  pub columns_positions : kate.Dimensions → List Position → List Position
  pub reconstruct_columns : kate.Dimensions → List Cell → Option (Assoc (List (List ℕ)))
  pub to_data_cell : Cell → DataCell
  pub decode_app_extrinsics : kate.Lookup → kate.Dimensions → List DataCell → ℕ → Option AppData

-- What the DHT and the nodes answer for one block; `max_rows` is a constant of the runtime.
pub record AppNode (kate : Kate) : Type 0 where
  pub net : Sources kate
  pub dht_row : ℕ → Option Row
  pub query_rows : H256 → List ℕ → Option (List Row)
  pub max_rows : ℕ

pub data AppError : Type 0 where
  missing_extension verification_error rpc_error too_many_missing : AppError
  reconstruction_failed data_cell_not_found invalid_row_size decoding_failed : AppError
  index_too_large row_out_of_bounds zero_chunks : AppError
  fetch_error : FetchError → AppError

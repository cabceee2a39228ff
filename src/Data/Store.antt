-- ===== src/Data/Store.antt =====
-- The database of core/src/data.rs by its typed keys, as the clients use it: one field for each key
-- that they read or write. A key that carries a number has a map.
use avail_light.Prelude.{ℕ, Bool, Option, some, none, List, [], if◌then◌else◌}
use avail_light.Prelude.Assoc.{Assoc, insert}
use avail_light.Types.Header.{AvailHeader}
use avail_light.Types.Grandpa.{Public}
use avail_light.Types.Block.{BlockRange, init, is_flush_cycle}

pub record FinalitySyncCheckpoint : Type 0 where
  pub number : ℕ
  pub set_id : ℕ
  pub validator_set : List Public

pub record Store (Float : Type 0) : Type 0 where
  pub block_header : Assoc AvailHeader
  pub verified_cell_count : Assoc ℕ
  pub achieved_confidence : Option BlockRange
  pub achieved_sync_confidence : Option BlockRange
  pub verified_sync_header : Option BlockRange
  pub latest_sync : Option ℕ
  pub is_synced : Option Bool
  pub dht_fetched_percentage : Option Float
  pub latest_header : Option ℕ
  pub block_header_received_at : Assoc ℕ
  pub verified_header : Option BlockRange
  pub is_finality_synced : Option Bool
  pub finality_sync_checkpoint : Option FinalitySyncCheckpoint
  -- of the app client's application, by the block's number
  pub app_data : Assoc (List (List ℕ))
  pub verified_data : Option BlockRange
  pub verified_sync_data : Option BlockRange

abbrev pub empty : {Float : Type 0} → Store Float
empty = record {
  block_header = [];
  verified_cell_count = [];
  achieved_confidence = none;
  achieved_sync_confidence = none;
  verified_sync_header = none;
  latest_sync = none;
  is_synced = none;
  dht_fetched_percentage = none;
  latest_header = none;
  block_header_received_at = [];
  verified_header = none;
  is_finality_synced = none;
  finality_sync_checkpoint = none;
  app_data = [];
  verified_data = none;
  verified_sync_data = none;
}

-- `unwrap_or_else(|| BlockRange::init(block_number))`, and then `last = block_number`
unfoldable pub extended : Option BlockRange → ℕ → BlockRange
extended none block_number = init block_number
extended (some r) block_number = record r { last = block_number }

module _ {Float : Type 0} where
  unfoldable pub put_achieved_confidence : ℕ → Store Float → Store Float
  unfolding extended
  put_achieved_confidence n db = record db {
    achieved_confidence = some (extended db.achieved_confidence n);
  }

  unfoldable pub put_block_header : AvailHeader → Store Float → Store Float
  put_block_header h db = record db { block_header = insert h.number h db.block_header }

  unfoldable pub put_verified_cell_count : ℕ → ℕ → Store Float → Store Float
  put_verified_cell_count n count db = record db {
    verified_cell_count = insert n count db.verified_cell_count;
  }

  unfoldable pub put_dht_fetched_percentage : ℕ → Float → Store Float → Store Float
  put_dht_fetched_percentage n percentage db =
      if is_flush_cycle n then record db { dht_fetched_percentage = some percentage } else db

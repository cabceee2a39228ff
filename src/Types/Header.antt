-- ===== src/Types/Header.antt =====
-- The block header. Its type belongs to the chain's SDK; the fields here are the ones that the
-- light client reads. Hashes, keys and byte arrays of a fixed size are the numbers that their bytes
-- spell, most significant byte first.
use avail_light.Prelude.{ℕ, List}

abbrev pub H256 : Type 0
H256 = ℕ

abbrev pub AuthorityId : Type 0
AuthorityId = ℕ

-- `DigestItem` of substrate: a consensus item has its engine's id and its data.
pub data DigestItem : Type 0 where
  consensus : ℕ → List ℕ → DigestItem
  other_item : DigestItem

pub record DataLookupItem : Type 0 where
  pub app_id : ℕ
  pub start : ℕ

pub record CompactDataLookup : Type 0 where
  pub size : ℕ
  pub index : List DataLookupItem

pub record KateCommitment : Type 0 where
  pub rows : ℕ
  pub cols : ℕ
  pub data_root : H256
  pub commitment : List ℕ

pub record HeaderExtension : Type 0 where
  pub app_lookup : CompactDataLookup
  pub commitment : KateCommitment

pub record AvailHeader : Type 0 where
  pub parent_hash : H256
  pub number : ℕ
  pub logs : List DigestItem
  pub extension : HeaderExtension

-- ===== src/Types/Grandpa.antt =====
-- The GRANDPA messages of core/src/types.rs.
use avail_light.Prelude.{ℕ, List}
use avail_light.Types.Header.{H256, AvailHeader}

abbrev pub Public : Type 0
Public = ℕ

abbrev pub Signature : Type 0
Signature = ℕ

pub record Precommit : Type 0 where
  pub target_hash : H256
  pub target_number : ℕ

pub data SignerMessage : Type 0 where
  dummy_message : ℕ → SignerMessage
  precommit_message : Precommit → SignerMessage

pub record SignedPrecommit : Type 0 where
  pub precommit : Precommit
  pub signature : Signature
  pub id : Public

pub record Commit : Type 0 where
  pub target_hash : H256
  pub target_number : ℕ
  pub precommits : List SignedPrecommit

pub record GrandpaJustification : Type 0 where
  pub round : ℕ
  pub commit : Commit
  pub votes_ancestries : List AvailHeader

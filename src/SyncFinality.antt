-- ===== src/SyncFinality.antt =====
-- core/src/sync_finality.rs, with filter_auth_set_changes of core/src/utils.rs: the chain of headers
-- is followed, and each change of the validators needs a justification. What the nodes answer and
-- the decoding of a digest are parameters; a failed assertion is an error here.
-- Block numbers and set ids stay below the bounds of u32 and u64.
pub mod Chain
pub mod Start
pub mod Stored
pub mod Synced
mod Examples
use avail_light.Prelude.{
  ℕ, zero, suc, ◌+◌, ◌-◌, Bool, Option, some, none, List, [], ◌∷◌, ◌==◌, if◌then◌else◌, Result, ok,
  err, map,
}
use avail_light.Types.Header.{H256, AvailHeader, DigestItem, consensus, other_item}
use avail_light.Types.Grandpa.{Public, GrandpaJustification}
use avail_light.Finality.{Crypto, ValidatorSet, check_finality}

-- `ConsensusLog`, with the next authorities as public keys.
pub data ConsensusLog : Type 0 where
  scheduled_change forced_change : List Public → ConsensusLog
  other_log : ConsensusLog

pub data SyncError : Type 0 where
  several_changes unavailable parent_mismatch finality_failed not_finished : SyncError
  no_validators bad_storage_key no_key_owner : SyncError

pub record FinalityClient : Type 0 where
  pub crypto : Crypto
  pub decode : List ℕ → Option ConsensusLog
  pub get_block_hash : ℕ → Option H256
  pub get_header_by_hash : H256 → Option AvailHeader
  -- the hash of the proof's block, and its justification
  pub request_finality_proof : ℕ → Option (H256 × GrandpaJustification)

-- The bytes "FRNK".
abbrev pub frnk : ℕ
frnk = 1179799115

unfoldable pub prepend :
    AvailHeader → Result SyncError (List AvailHeader) → Result SyncError (List AvailHeader)
prepend h r = elim r [ err e ↦ err e | ok hs ↦ ok (h ∷ hs) ]

module _ (client : FinalityClient) where
  unfoldable pub log_of : DigestItem → Option ConsensusLog
  log_of other_item = none
  log_of (consensus engine bytes) = if engine == frnk then client.decode bytes else none

  unfoldable pub forced_valsets : List DigestItem → List (List Public)
  unfolding log_of
  forced_valsets [] = []
  forced_valsets (e ∷ es) =
      let rest = forced_valsets es in
      elim (log_of e) [
        | none ↦ rest
        | some log ↦ elim log [
          | forced_change x ↦ x ∷ rest
          | scheduled_change x ↦ rest
          | other_log ↦ rest
        ]
      ]

  unfoldable pub scheduled_valsets : List DigestItem → List (List Public)
  unfolding log_of
  scheduled_valsets [] = []
  scheduled_valsets (e ∷ es) =
      let rest = scheduled_valsets es in
      elim (log_of e) [
        | none ↦ rest
        | some log ↦ elim log [
          | forced_change x ↦ rest
          | scheduled_change x ↦ x ∷ rest
          | other_log ↦ rest
        ]
      ]

  unfoldable pub filter_auth_set_changes : AvailHeader → Result SyncError (List Public)
  unfolding forced_valsets scheduled_valsets
  filter_auth_set_changes header = elim (forced_valsets header.logs) [
    | x ∷ xs ↦ elim xs [ [] ↦ ok x | _ ∷ _ ↦ err several_changes ]
    | [] ↦ elim (scheduled_valsets header.logs) [
      | [] ↦ ok []
      | x ∷ xs ↦ elim xs [ [] ↦ ok x | _ ∷ _ ↦ err several_changes ]
    ]
  ]

  -- `get_block_hash` and `get_header_by_hash`
  unfoldable pub header_at : ℕ → Option AvailHeader
  header_at n = elim (client.get_block_hash n) [
    | none ↦ none
    | some hash ↦ client.get_header_by_hash hash
  ]

  -- The proof for a block that changes the validators, whose own header must be there.
  unfoldable pub check_change : ℕ → ValidatorSet → Result SyncError ℕ
  check_change n valset = elim (client.request_finality_proof n) [
    | none ↦ err unavailable
    | some (block, justification) ↦ elim (client.get_header_by_hash block) [
      | none ↦ err unavailable
      | some _ ↦ elim (check_finality client.crypto valset justification) [
        | err e ↦ err finality_failed
        | ok set_id ↦ ok set_id
      ]
    ]
  ]

  -- The loop from the block `n` to the block `last`; its result is the headers stored, in order.
  unfoldable pub follow_chain :
      ℕ → ℕ → ℕ → H256 → ValidatorSet → Result SyncError (List AvailHeader)
  unfolding header_at check_change filter_auth_set_changes prepend
  follow_chain zero last n prev_hash valset = if n == last + 1 then ok [] else err not_finished
  follow_chain (suc rounds) last n prev_hash valset =
      if n == last + 1 then ok [] else elim (header_at n) [
        | none ↦ err unavailable
        | some h ↦
            if h.parent_hash == prev_hash
            then elim (filter_auth_set_changes h) [
              | err e ↦ err e
              | ok next ↦ elim next [
                | [] ↦
                    prepend h
                      (follow_chain rounds last (n + 1) (client.crypto.header_hash h) valset)
                | y ∷ ys ↦ elim (check_change n valset) [
                  | err e ↦ err e
                  | ok set_id ↦ prepend h (
                      follow_chain rounds last (n + 1) (client.crypto.header_hash h)
                        (record { set_id = set_id + 1; validator_set = y ∷ ys }))
                ]
              ]
            ]
            else err parent_mismatch
      ]

  -- The loop of `sync`, on as many rounds as there are blocks.
  unfoldable pub sync_chain : ℕ → ℕ → H256 → ValidatorSet → Result SyncError (List AvailHeader)
  unfolding follow_chain
  sync_chain last n prev_hash valset = follow_chain (last + 1 - n) last n prev_hash valset

-- ===== src/Finality.antt =====
-- core/src/finality.rs: is a block's justification signed by a supermajority of the validators?
-- The hash of a header, the encoding of a signed message and the check of an ed25519 signature are
-- parameters, as they come from libraries.
pub mod Ancestry
pub mod Votes
pub mod Acceptance
mod Examples
use avail_light.Prelude.{
  ℕ, zero, suc, ◌+◌, ◌*◌, ◌/◌, ◌-◌, ◌≡◌, Bool, true, false, ◌&&◌, Option, some, none, List, [], ◌∷◌,
  arith, ◌==◌, leb, if◌then◌else◌, length, any, count_if, Result, ok, err, ok_or, map,
}
use avail_light.Prelude.Assoc.{Assoc, insert}
use avail_light.Prelude.Sort.{sort_by_key, dedup_by_key}
use avail_light.Prelude.Sets.{contains}
use avail_light.Types.Header.{H256, AvailHeader}
use avail_light.Types.Grandpa.{
  Public, Signature, Precommit, SignerMessage, precommit_message, SignedPrecommit, Commit,
  GrandpaJustification,
}
use Ancestry.{confirm_ancestry}

pub record ValidatorSet : Type 0 where
  pub set_id : ℕ
  pub validator_set : List Public

pub data FinalityError : Type 0 where
  not_signed_by_supermajority : FinalityError

-- What the libraries provide: `Encode::using_encoded(header, blake2_256)`, `Encode::encode` of
-- message, round and set id, and `verify_signature`.
pub record Crypto : Type 0 where
  pub header_hash : AvailHeader → H256
  pub encode_message : SignerMessage → ℕ → ℕ → List ℕ
  pub verify_signature : Public → Signature → List ℕ → Bool

pub is_signed_by_supermajority : ℕ → ℕ → Bool
is_signed_by_supermajority num_signatures validator_set_size =
    let supermajority = validator_set_size * 2 / 3 + 1 in leb supermajority num_signatures

-- `sort` and `dedup`
unfoldable pub unique_validators : List Public → List Public
unique_validators vs = dedup_by_key (λ v. v) (sort_by_key (λ v. v) vs)

-- `sort_by_key(|a| a.id)` and `dedup_by(|a, b| a.id.eq(&b.id))`
unfoldable pub unique_precommits : List SignedPrecommit → List SignedPrecommit
unique_precommits ps = dedup_by_key (λ p. p.id) (sort_by_key (λ p. p.id) ps)

-- What the `partition_map` yields: the failed precommits with the set id used, the signers, and the
-- last value of the variable `validator_set_id`.
pub record Tally : Type 0 where
  pub failed_verifications : List (SignedPrecommit × ℕ)
  pub signer_addresses : List Public
  pub validator_set_id : ℕ

abbrev pub candidate_set_ids : ℕ → List ℕ
candidate_set_ids set_id = set_id ∷ (set_id - 1) ∷ (set_id - 2) ∷ []

abbrev or_else : Option ℕ → ℕ → ℕ
or_else none d = d
or_else (some s) d = s

abbrev is_some : Option ℕ → Bool
is_some none = false
is_some (some s) = true

module _ (crypto : Crypto) where
  open crypto use {header_hash, encode_message, verify_signature}

  -- The map from the hash of each header to its parent's hash, collected in order.
  collect_ancestries : List AvailHeader → Assoc H256 → Assoc H256
  collect_ancestries [] m = m
  collect_ancestries (h ∷ hs) m = collect_ancestries hs (insert (header_hash h) h.parent_hash m)

  unfoldable pub ancestry_map : GrandpaJustification → Assoc H256
  unfolding collect_ancestries
  ancestry_map j = collect_ancestries j.votes_ancestries []

  -- The signature is over the precommit, the round and this set id.
  pub signs : ℕ → SignedPrecommit → ℕ → Bool
  signs round p set_id =
      verify_signature p.id p.signature
        (encode_message (precommit_message p.precommit) round set_id)

  -- `find_map` over the candidates
  unfoldable pub find_set_id : ℕ → SignedPrecommit → List ℕ → Option ℕ
  unfolding signs
  find_set_id round p [] = none
  find_set_id round p (s ∷ ss) =
      let rest = find_set_id round p ss in if signs round p s then some s else rest

  -- One round of the closure of `partition_map` after the other; the first set id of the candidates
  -- under which the signature is good becomes `validator_set_id`, also where the ancestry fails.
  unfoldable pub tally : ℕ → H256 → Assoc H256 → ℕ → List SignedPrecommit → ℕ → Tally
  tally round root m set_id [] current = record {
    failed_verifications = [];
    signer_addresses = [];
    validator_set_id = current;
  }
  tally round root m set_id (p ∷ ps) current =
      let found = find_set_id round p (candidate_set_ids set_id) in
      let rest = tally round root m set_id ps (or_else found current) in
      if is_some found && confirm_ancestry p.precommit.target_hash root m
      then record rest { signer_addresses = p.id ∷ rest.signer_addresses }
      else record rest {
        failed_verifications = (p, or_else found set_id) ∷ rest.failed_verifications;
      }

  unfoldable pub check_finality : ValidatorSet → GrandpaJustification → Result FinalityError ℕ
  unfolding is_signed_by_supermajority
  check_finality vs j =
      let validators = unique_validators vs.validator_set in
      let t =
        tally j.round j.commit.target_hash (ancestry_map j) vs.set_id
          (unique_precommits j.commit.precommits) vs.set_id in
      let num_matched_addresses = count_if (contains validators) t.signer_addresses in
      if is_signed_by_supermajority num_matched_addresses (length validators)
      then ok t.validator_set_id
      else err not_signed_by_supermajority

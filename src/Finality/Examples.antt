-- ===== src/Finality/Examples.antt =====
-- Concrete runs of core/src/finality.rs. In them a block's hash is its number, and a signature is
-- the sum of the signer's key and the set id.
use avail_light.Prelude.{
  ℕ, ◌+◌, ◌≡◌, refl, subst, ◌↔◌, Bool, true, false, List, [], ◌∷◌, arith, ◌==◌, inl, inr, ok, In,
}
use avail_light.Prelude.Sets.{contains}
use avail_light.Prelude.Assoc.{Assoc, lookup, insert}
use avail_light.Prelude.Sort.{sort_by_key, dedup_by_key}
use avail_light.Types.Header.{AvailHeader}
use avail_light.Types.Grandpa.{SignedPrecommit, GrandpaJustification}
use avail_light.Finality.Ancestry.{
  confirm_ancestry, Descends, here, parent, confirm_ancestry-Descends,
}
use avail_light.Finality.{
  ValidatorSet, Crypto, check_finality, candidate_set_ids, unique_validators, unique_precommits,
  find_set_id, tally, ancestry_map, signs,
}
use avail_light.Finality.Votes.{Supermajority, check_finality_sound}
use avail_light.Finality.Acceptance.{IsGood, check_finality_complete}

-- 8 is the child of 7, and 7 the child of 5.
abbrev ancestors : Assoc ℕ
ancestors = (8, 7) ∷ (7, 5) ∷ []

confirm_ancestry-Descends_example : (confirm_ancestry 8 5 ancestors ≡ true) ↔ Descends ancestors 5 8
confirm_ancestry-Descends_example = confirm_ancestry-Descends 8 5 ancestors

abbrev signed_by : ℕ → List ℕ → ℕ → Bool
signed_by key [] signature = false
signed_by key (set_id ∷ _) signature = signature == key + set_id

abbrev crypto : Crypto
crypto = record {
  header_hash = λ h. h.number;
  encode_message = λ m round set_id. set_id ∷ [];
  verify_signature = λ key signature message. signed_by key message signature;
}

abbrev validators : ValidatorSet
validators = record { set_id = 4; validator_set = 30 ∷ 10 ∷ 20 ∷ 10 ∷ [] }

abbrev block : ℕ → ℕ → AvailHeader
block number parent_hash = record {
  parent_hash = parent_hash;
  number = number;
  logs = [];
  extension = record {
    app_lookup = record { size = 0; index = [] };
    commitment = record { rows = 0; cols = 0; data_root = 0; commitment = [] };
  };
}

abbrev precommit : ℕ → ℕ → ℕ → SignedPrecommit
precommit key target signature = record {
  precommit = record { target_hash = target; target_number = target };
  signature = signature;
  id = key;
}

-- 20 votes for block 8 under set id 3, the others for block 7 under set id 4; 20 votes twice.
abbrev justification : GrandpaJustification
justification = record {
  round = 1;
  commit = record {
    target_hash = 7;
    target_number = 7;
    precommits = precommit 20 8 23 ∷ precommit 10 7 14 ∷ precommit 30 7 34 ∷ precommit 20 8 23 ∷ [];
  };
  votes_ancestries = block 8 7 ∷ [];
}

accepted : check_finality crypto validators justification ≡ ok 4
unfolding check_finality unique_validators unique_precommits sort_by_key dedup_by_key tally
    find_set_id ancestry_map confirm_ancestry lookup insert
accepted = refl

check_finality_sound_example :
    Supermajority crypto validators justification × (contains (candidate_set_ids 4) 4 ≡ true)
check_finality_sound_example = check_finality_sound crypto validators justification 4 accepted

for_block : IsGood crypto validators justification (precommit 10 7 14)
for_block = record {
  good_set_id = 4;
  candidate = refl;
  good_signature = unfold signs in refl;
  on_chain = here refl;
}

all-IsGood :
    (p : SignedPrecommit)
    → In p justification.commit.precommits
    → contains (10 ∷ 20 ∷ 30 ∷ []) p.id ≡ true
    → IsGood crypto validators justification p
unfolding signs lookup insert ancestry_map
all-IsGood p (inl e) i = subst (IsGood crypto validators justification) e (record {
  good_set_id = 3;
  candidate = refl;
  good_signature = refl;
  on_chain = parent {p = 7} refl (here refl);
})
all-IsGood p (inr (inl e)) i = subst (IsGood crypto validators justification) e for_block
all-IsGood p (inr (inr (inl e))) i =
    subst (IsGood crypto validators justification) e
      (record { good_set_id = 4; candidate = refl; good_signature = refl; on_chain = here refl })
all-IsGood p (inr (inr (inr (inl e)))) i =
    subst (IsGood crypto validators justification) e (record {
      good_set_id = 3;
      candidate = refl;
      good_signature = refl;
      on_chain = parent {p = 7} refl (here refl);
    })
all-IsGood p (inr (inr (inr (inr e)))) i = absurd e

check_finality_complete_example :
    (id : ℕ) × (check_finality crypto validators justification ≡ ok id)
check_finality_complete_example =
    check_finality_complete crypto validators justification (10 ∷ 20 ∷ 30 ∷ []) (10 ∷ 20 ∷ 30 ∷ [])
      (λ a h. ground arith) (refl, (refl, (refl, tt))) (λ a h. ground arith) (λ a h. ground arith)
      all-IsGood (omega arith)

-- ===== src/Subscriptions/Examples.antt =====
-- A run of the loop in which the header 5 is never justified on its own and goes before the header
-- 6; hashes are numbers, and one validator signs.
use avail_light.Prelude.{ℕ, ◌≡◌, refl, true, false, none, some, List, [], ◌∷◌, ok, arith}
use avail_light.Prelude.Assoc.{lookup, insert}
use avail_light.Prelude.Sort.{sort_by_key, dedup_by_key}
use avail_light.Types.Samples.{bare_header}
use avail_light.Types.Grandpa.{GrandpaJustification}
use avail_light.Data.Store.{empty, extended}
use avail_light.Finality.{
  check_finality, unique_validators, unique_precommits, tally, find_set_id, ancestry_map,
}
use avail_light.Finality.Ancestry.{confirm_ancestry}
use avail_light.SyncFinality.{
  FinalityClient, header_at, filter_auth_set_changes, forced_valsets, scheduled_valsets,
}
use avail_light.Subscriptions.{
  BlockData, Subscription, header, justification, Step, skipped_count, first_skipped,
  take_next_valset, put_received, push_header, put_verified_header, store_checkpoint, find_skipped,
  send_skipped, output_header, verify_and_output, handle_new_subscription, run,
}
use avail_light.Subscriptions.Pending.{count_number, position, swap_remove, take_out}
use avail_light.Subscriptions.Gaps.{IsNumbered}
use avail_light.Subscriptions.Signed.{HandedOn, verify_and_output-HandedOn}
use avail_light.Subscriptions.Order.{Ordered, Follows}
use avail_light.Subscriptions.Consecutive.{IsAscending, latest_after, run-Follows}

abbrev client : FinalityClient
client = record {
  crypto = record {
    header_hash = λ h. h.number;
    encode_message = λ m round set_id. [];
    verify_signature = λ key signature message. true;
  };
  decode = λ bytes. none;
  get_block_hash = λ n. some n;
  get_header_by_hash = λ hash. some (bare_header hash);
  request_finality_proof = λ n. none;
}

abbrev signed : ℕ → GrandpaJustification
signed n = record {
  round = 1;
  commit = record {
    target_hash = n;
    target_number = n;
    precommits =
        record { precommit = record { target_hash = n; target_number = n }; signature = 0; id = 10 }
        ∷ [];
  };
  votes_ancestries = [];
}

abbrev start : BlockData
start = record {
  justifications = [];
  unverified_headers = [];
  current_valset = record { set_id = 3; validator_set = 10 ∷ [] };
  next_valset = none;
  last_finalized_block_header = some (bare_header 4);
}

abbrev messages : List Subscription
messages =
    header (bare_header 5) 0 100
    ∷ header (bare_header 6) 1 101
    ∷ justification (signed 6) 2
    ∷ header (bare_header 8) 3 102
    ∷ []

abbrev result : Step ℕ
result = record {
  block_data = record {
    justifications = [];
    unverified_headers =
        record { header = bare_header 8; received_at = 3; valset = start.current_valset } ∷ [];
    current_valset = start.current_valset;
    next_valset = none;
    last_finalized_block_header = some (bare_header 6);
  };
  db = record empty {
    latest_header = some 8;
    block_header_received_at = insert 8 102 (insert 6 101 (insert 5 100 []));
    verified_header = some (extended none 6);
  };
  sent =
      record { header = bare_header 5; received_at = 0; received_at_timestamp = 101 }
      ∷ record { header = bare_header 6; received_at = 1; received_at_timestamp = 101 }
      ∷ [];
}

header_at-IsNumbered : IsNumbered client
unfolding header_at
header_at-IsNumbered n h e = ground arith

start-Ordered : Ordered 4 4 start
unfolding count_number
start-Ordered = record {
  finalized = bare_header 4;
  is_last = refl;
  numbered = refl;
  below = omega arith;
  old = λ k l. refl;
  single = λ k. omega arith;
  new = λ k l. refl;
}

run_result : run client true messages start empty ≡ ok result
unfolding run handle_new_subscription push_header take_next_valset put_received verify_and_output
    output_header store_checkpoint put_verified_header send_skipped find_skipped take_out position
    swap_remove skipped_count first_skipped filter_auth_set_changes forced_valsets scheduled_valsets
    check_finality unique_validators unique_precommits sort_by_key dedup_by_key tally find_set_id
    ancestry_map confirm_ancestry lookup insert
run_result = refl

ascending : IsAscending 4 messages
unfolding IsAscending
ascending = (omega arith, (omega arith, (omega arith, tt)))

run-Follows_example : Follows client 4 8 result
unfolding latest_after
run-Follows_example =
    run-Follows client true 4 4 messages start empty result header_at-IsNumbered start-Ordered
      ascending run_result

-- The state before the justification for the header 6 comes.
abbrev waiting : BlockData
waiting = record start {
  unverified_headers =
      record { header = bare_header 5; received_at = 0; valset = start.current_valset }
      ∷ record { header = bare_header 6; received_at = 1; valset = start.current_valset }
      ∷ [];
}

abbrev handed_on : Step ℕ
handed_on = record {
  block_data = record start { last_finalized_block_header = some (bare_header 6) };
  db = record empty {
    block_header_received_at = insert 6 101 [];
    verified_header = some (extended none 6);
  };
  sent = result.sent;
}

verified_result :
    verify_and_output client true 7
      (signed 6 ∷ [])
      waiting
      (record empty { block_header_received_at = insert 6 101 [] })
      false
    ≡ ok handed_on
unfolding verify_and_output output_header store_checkpoint put_verified_header send_skipped
    find_skipped take_out position swap_remove skipped_count first_skipped check_finality
    unique_validators unique_precommits sort_by_key dedup_by_key tally find_set_id ancestry_map
    confirm_ancestry lookup insert
verified_result = refl

verify_and_output-HandedOn_example :
    HandedOn client
      (signed 6 ∷ [])
      waiting.unverified_headers
      (some (bare_header 4))
      result.sent
      (some (bare_header 6))
verify_and_output-HandedOn_example =
    verify_and_output-HandedOn client true 7 (signed 6 ∷ []) waiting
      (record empty { block_header_received_at = insert 6 101 [] }) false handed_on
      header_at-IsNumbered verified_result

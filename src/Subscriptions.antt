-- ===== src/Subscriptions.antt =====
-- core/src/network/rpc/subscriptions.rs: finalized headers wait for their justifications, are checked
-- and are handed on in the order of their numbers. A vector that is used as a stack is a list whose
-- head is the end of the vector; times are numbers; a panic of the source is a value here.
-- Block numbers and set ids stay below the bounds of u32 and u64.
pub mod Pending
pub mod Gaps
pub mod Justified
pub mod Order
pub mod Consecutive
pub mod Signed
mod Examples
use avail_light.Prelude.{
  ℕ, zero, suc, ◌+◌, ◌-◌, Bool, true, false, Option, some, none, List, [], ◌∷◌, ◌++◌, ◌==◌,
  if◌then◌else◌, Result, ok, err,
}
use avail_light.Prelude.Assoc.{lookup, insert}
use avail_light.Types.Header.{H256, AvailHeader}
use avail_light.Types.Grandpa.{GrandpaJustification}
use avail_light.Types.Block.{BlockRange}
use avail_light.Data.Store.{Store, FinalitySyncCheckpoint, extended}
use avail_light.Finality.{ValidatorSet, check_finality}
use avail_light.SyncFinality.{FinalityClient, filter_auth_set_changes, header_at}
use Pending.{UnverifiedHeader, take_out}

pub record BlockData : Type 0 where
  pub justifications : List GrandpaJustification
  pub unverified_headers : List UnverifiedHeader
  pub current_valset : ValidatorSet
  pub next_valset : Option ValidatorSet
  pub last_finalized_block_header : Option AvailHeader

-- A message of the stream, with the time and the timestamp at which it comes.
pub data Subscription : Type 0 where
  header : AvailHeader → ℕ → ℕ → Subscription
  justification : GrandpaJustification → ℕ → Subscription

-- `OutputEvent::HeaderUpdate`
pub record HeaderUpdate : Type 0 where
  pub header : AvailHeader
  pub received_at : ℕ
  pub received_at_timestamp : ℕ

pub data Panic : Type 0 where
  several_changes no_timestamp finality_check_failed no_skipped_header no_receiver : Panic

-- The state of the loop with the database, and what was sent.
pub record Step (F : Type 0) : Type 0 where
  pub block_data : BlockData
  pub db : Store F
  pub sent : List HeaderUpdate

abbrev or_false : Option Bool → Bool
or_false none = false
or_false (some b) = b

unfoldable pub take_next_valset : BlockData → BlockData
take_next_valset d = elim d.next_valset [
  | none ↦ d
  | some v ↦ record d { current_valset = v; next_valset = none }
]

module _ {F : Type 0} where
  unfoldable pub put_received : AvailHeader → ℕ → Store F → Store F
  put_received h timestamp db = record db {
    latest_header = some h.number;
    block_header_received_at = insert h.number timestamp db.block_header_received_at;
  }

  unfoldable pub put_verified_header : ℕ → Store F → Store F
  put_verified_header n db = record db { verified_header = some (extended db.verified_header n) }

  -- The checkpoint is stored once finality is known to be synced; until then the flag is read.
  unfoldable pub store_checkpoint : Bool → AvailHeader → ValidatorSet → Store F → Store F × Bool
  store_checkpoint true h valset db = (
    record db {
      finality_sync_checkpoint = some (record {
        number = h.number;
        set_id = valset.set_id;
        validator_set = valset.validator_set;
      });
    },
    true,
  )
  store_checkpoint false h valset db = (db, or_false db.is_finality_synced)

-- The numbers between the last finalized header and the new one, as a first number and a count.
unfoldable pub skipped_count : Option AvailHeader → ℕ → ℕ
skipped_count none n = 0
skipped_count (some last) n = n - (last.number + 1)

unfoldable pub first_skipped : Option AvailHeader → ℕ
first_skipped none = 0
first_skipped (some last) = last.number + 1

module _ (client : FinalityClient) where
  -- A skipped header comes from the unverified ones, or else from a node.
  unfoldable pub find_skipped :
      ℕ → ℕ → List UnverifiedHeader → Result Panic (AvailHeader × ℕ × List UnverifiedHeader)
  find_skipped now n pending = elim (take_out (λ x. x.header.number == n) pending) [
    | some (x, rest) ↦ ok (x.header, x.received_at, rest)
    | none ↦ elim (header_at client n) [
      | none ↦ err no_skipped_header
      | some h ↦ ok (h, now, pending)
    ]
  ]

  -- `listening` tells whether the channel of the events has a receiver: a send without one panics.
  unfoldable pub send_skipped :
      Bool
      → ℕ
      → ℕ
      → ℕ
      → ℕ
      → List UnverifiedHeader
      → Result Panic (List HeaderUpdate × List UnverifiedHeader)
  unfolding find_skipped
  send_skipped listening now timestamp n zero pending = ok ([], pending)
  send_skipped listening now timestamp n (suc count) pending = elim (find_skipped now n pending) [
    | err e ↦ err e
    | ok (h, received_at, rest) ↦
        let later = send_skipped listening now timestamp (n + 1) count rest in
        if listening
        then elim later [
          | err e ↦ err e
          | ok (sent, left) ↦ ok (
            record { header = h; received_at = received_at; received_at_timestamp = timestamp }
                ∷ sent,
            left,
          )
        ]
        else err no_receiver
  ]

  -- A header becomes unverified, with the validators that are current at it; a change of the
  -- validators takes effect with the next header.
  unfoldable pub push_header : AvailHeader → ℕ → BlockData → Result Panic BlockData
  unfolding take_next_valset
  push_header h now d =
      let d' = take_next_valset d in
      let x : UnverifiedHeader = record {
        header = h;
        received_at = now;
        valset = d'.current_valset;
      } in
      let pushed : BlockData = record d' { unverified_headers = d'.unverified_headers ++ x ∷ [] } in
      elim (filter_auth_set_changes client h) [
        | err _ ↦ err several_changes
        | ok [] ↦ ok pushed
        | ok (v ∷ vs) ↦ ok (record pushed {
          next_valset =
              some (record { set_id = d'.current_valset.set_id + 1; validator_set = v ∷ vs });
        })
      ]

  module _ {F : Type 0} where
    -- A justification whose header was taken out of the unverified ones.
    unfoldable pub output_header :
        Bool
        → ℕ
        → GrandpaJustification
        → UnverifiedHeader
        → List UnverifiedHeader
        → BlockData
        → Store F
        → Bool
        → Result Panic (Step F × Bool)
    unfolding store_checkpoint put_verified_header send_skipped
    output_header listening now j x rest d db synced =
        let n = x.header.number in
        elim (lookup n db.block_header_received_at) [
          | none ↦ err no_timestamp
          | some timestamp ↦ elim (check_finality client.crypto x.valset j) [
            | err _ ↦ err finality_check_failed
            | ok set_id ↦
                let valset : ValidatorSet = record d.current_valset { set_id = set_id } in
                let (db', synced') = store_checkpoint synced x.header valset db in
                elim (send_skipped listening now timestamp
                  (first_skipped d.last_finalized_block_header)
                  (skipped_count d.last_finalized_block_header n) rest) [
                    | err e ↦ err e
                    | ok (sent, left) ↦
                        if listening
                        then ok (
                          record {
                            block_data = record d {
                              unverified_headers = left;
                              current_valset = valset;
                              last_finalized_block_header = some x.header;
                            };
                            db = put_verified_header n db';
                            sent =
                                sent
                                ++ record {
                                  header = x.header;
                                  received_at = x.received_at;
                                  received_at_timestamp = timestamp;
                                }
                                  ∷ [];
                          },
                          synced',
                        )
                        else err no_receiver
                  ]
          ]
        ]

    -- The loop over the stack of justifications, which stops at one without a header.
    unfoldable pub verify_and_output :
        Bool → ℕ → List GrandpaJustification → BlockData → Store F → Bool → Result Panic (Step F)
    unfolding output_header
    verify_and_output listening now [] d db synced =
        ok (record { block_data = record d { justifications = [] }; db = db; sent = [] })
    verify_and_output listening now (j ∷ js) d db synced =
        elim (take_out (λ x. j.commit.target_hash == client.crypto.header_hash x.header)
          d.unverified_headers) [
            | none ↦
                ok
                  (record { block_data = record d { justifications = j ∷ js }; db = db; sent = [] })
            | some (x, rest) ↦ elim (output_header listening now j x rest d db synced) [
              | err e ↦ err e
              | ok (s, synced') ↦
                  elim (verify_and_output listening now js s.block_data s.db synced') [
                    | err e ↦ err e
                    | ok t ↦ ok (record t { sent = s.sent ++ t.sent })
                  ]
            ]
          ]

    unfoldable pub handle_new_subscription :
        Bool → Subscription → BlockData → Store F → Result Panic (Step F)
    unfolding push_header put_received verify_and_output
    handle_new_subscription listening (header h now timestamp) d db = elim (push_header h now d) [
      | err e ↦ err e
      | ok d' ↦
          verify_and_output listening now d'.justifications d' (put_received h timestamp db) false
    ]
    handle_new_subscription listening (justification j now) d db =
        verify_and_output listening now (j ∷ d.justifications) d db false

    -- The loop over the messages of the stream.
    unfoldable pub run : Bool → List Subscription → BlockData → Store F → Result Panic (Step F)
    unfolding handle_new_subscription
    run listening [] d db = ok (record { block_data = d; db = db; sent = [] })
    run listening (m ∷ ms) d db = elim (handle_new_subscription listening m d db) [
      | err e ↦ err e
      | ok s ↦ elim (run listening ms s.block_data s.db) [
        | err e ↦ err e
        | ok t ↦ ok (record t { sent = s.sent ++ t.sent })
      ]
    ]

-- ===== src/Subscriptions/Justified.antt =====
-- What core/src/network/rpc/subscriptions.rs has checked of a header that it hands on.
use avail_light.Prelude.{
  ℕ, ◌≡◌, refl, subst, inl, inr, Bool, some, List, [], ◌∷◌, ◌++◌, ok, arith, Bool-cases,
  Option-cases, Result-cases,
}
use avail_light.Prelude.Assoc.{lookup}
use avail_light.Types.Grandpa.{GrandpaJustification}
use avail_light.Data.Store.{Store}
use avail_light.Finality.{check_finality}
use avail_light.SyncFinality.{FinalityClient}
use avail_light.Subscriptions.{
  BlockData, HeaderUpdate, Step, skipped_count, first_skipped, send_skipped, output_header,
}
use avail_light.Subscriptions.Pending.{UnverifiedHeader}
use avail_light.Subscriptions.Gaps.{IsNumbered, Skipped, send_skipped-Skipped}

module _ (client : FinalityClient) {F : Type 0} where
  -- The justification is signed by the validators of the header, the headers of the gap before it
  -- come first, and the validators stay with the set id that the check gave.
  pub record Justified (j : GrandpaJustification) (x : UnverifiedHeader)
      (rest : List UnverifiedHeader) (d : BlockData) (s : Step F) : Type 0 where
    pub set_id : ℕ
    pub accepted : check_finality client.crypto x.valset j ≡ ok set_id
    pub gap : List HeaderUpdate
    pub update : HeaderUpdate
    pub header : update.header ≡ x.header
    pub sent : s.sent ≡ gap ++ update ∷ []
    pub skipped :
        Skipped client
          (first_skipped d.last_finalized_block_header)
          (skipped_count d.last_finalized_block_header x.header.number)
          rest
          gap
          s.block_data.unverified_headers
    pub last : s.block_data.last_finalized_block_header ≡ some x.header
    pub valset : s.block_data.current_valset ≡ record d.current_valset { set_id = set_id }

  -- A header that is handed on with a justification has the justification signed by its validators;
  -- before it go the headers of all numbers since the last one; afterwards it is the last one, and the
  -- current validators are kept with the set id of the check.
  pub output_header-Justified :
      (listening : Bool) (now : ℕ) (j : GrandpaJustification) (x : UnverifiedHeader)
      (rest : List UnverifiedHeader) (d : BlockData) (db : Store F) (synced synced' : Bool)
      (s : Step F)
      → IsNumbered client
      → output_header client listening now j x rest d db synced ≡ ok (s, synced')
      → Justified j x rest d s
  unfolding output_header
  output_header-Justified listening now j x rest d db synced synced' s v h =
      elim (Option-cases (lookup x.header.number db.block_header_received_at)) [
        | inl e ↦ ground arith
        | inr (timestamp, e) ↦ elim (Result-cases (check_finality client.crypto x.valset j)) [
          | inr (y, f) ↦ ground arith
          | inl (set_id, f) ↦
              elim (Result-cases (
                send_skipped client listening now timestamp
                  (first_skipped d.last_finalized_block_header)
                  (skipped_count d.last_finalized_block_header x.header.number) rest)) [
                    | inr (y, g) ↦ ground arith
                    | inl ((gap, left), g) ↦ elim (Bool-cases listening) [
                      | inr b ↦ ground arith
                      | inl b ↦
                          let w =
                            send_skipped-Skipped client listening now timestamp
                              (first_skipped d.last_finalized_block_header)
                              (skipped_count d.last_finalized_block_header x.header.number) rest
                              left gap v g in
                          record {
                            set_id = set_id;
                            accepted = f;
                            gap = gap;
                            update = record {
                              header = x.header;
                              received_at = x.received_at;
                              received_at_timestamp = timestamp;
                            };
                            header = refl;
                            sent = ground arith;
                            skipped =
                                subst
                                  (λ q.
                                    Skipped client (first_skipped d.last_finalized_block_header)
                                      (skipped_count d.last_finalized_block_header x.header.number)
                                      rest gap q)
                                  (ground arith) w;
                            last = ground arith;
                            valset = ground arith;
                          }
                    ]
                  ]
        ]
      ]

-- ===== src/Subscriptions/Consecutive.antt =====
-- The loops of core/src/network/rpc/subscriptions.rs hand headers on in the order of their numbers,
-- over any messages.
use avail_light.Prelude.{
  ℕ, ◌+◌, ◌<◌, ◌≡◌, refl, ap, subst, sym, ◌∙◌, inl, inr, Bool, false, List, [], ◌∷◌, ◌++◌, ◌==◌,
  if◌then◌else◌, ok, arith, Option-cases, Result-cases,
}
use avail_light.Types.Header.{AvailHeader}
use avail_light.Types.Grandpa.{GrandpaJustification}
use avail_light.Data.Store.{Store}
use avail_light.SyncFinality.{FinalityClient, filter_auth_set_changes}
use avail_light.Subscriptions.{
  BlockData, Subscription, header, justification, Step, take_next_valset, put_received, push_header,
  output_header, verify_and_output, handle_new_subscription, run,
}
use avail_light.Subscriptions.Pending.{UnverifiedHeader, count_number, take_out, take_out-TakenOut}
use avail_light.Subscriptions.Gaps.{numbers, range, IsNumbered}
use avail_light.Subscriptions.Justified.{output_header-Justified}
use avail_light.Subscriptions.Order.{
  Ordered, Follows, Justified-Follows, numbers-append, range-append, count-snoc,
}

-- The headers of the messages have rising numbers above a number.
unfoldable pub IsAscending : ℕ → List Subscription → Type 0
IsAscending latest [] = Unit
IsAscending latest (header h now timestamp ∷ ms) = (latest < h.number) × IsAscending h.number ms
IsAscending latest (justification j now ∷ ms) = IsAscending latest ms

-- The latest number after the messages.
unfoldable pub latest_after : ℕ → List Subscription → ℕ
latest_after latest [] = latest
latest_after latest (header h now timestamp ∷ ms) = latest_after h.number ms
latest_after latest (justification j now ∷ ms) = latest_after latest ms

pushed-Ordered :
    (sent latest : ℕ) (h : AvailHeader) (d e : BlockData) (x : UnverifiedHeader)
    → Ordered sent latest d
    → latest < h.number
    → x.header ≡ h
    → e.unverified_headers ≡ d.unverified_headers ++ x ∷ []
    → e.last_finalized_block_header ≡ d.last_finalized_block_header
    → Ordered sent h.number e
pushed-Ordered sent latest h d e x o l xh eu el = record {
  finalized = o.finalized;
  is_last = el ∙ o.is_last;
  numbered = o.numbered;
  below = omega (arith, o.below);
  old = λ k m. ground (arith, counts k, o.old k m, o.below);
  single = λ k. ground (arith, counts k, o.single k, o.new k);
  new = λ k m. ground (arith, counts k, o.new k);
}
  where
    counts :
        (k : ℕ)
        → count_number k e.unverified_headers
          ≡ count_number k d.unverified_headers + (if h.number == k then 1 else 0)
    counts k =
        ap (count_number k) eu
        ∙ count-snoc k d.unverified_headers x
        ∙ ap (λ y. count_number k d.unverified_headers + (if y.number == k then 1 else 0)) xh

take_next_valset-unverified_headers :
    (d : BlockData)
    → ((take_next_valset d).unverified_headers ≡ d.unverified_headers)
      × ((take_next_valset d).last_finalized_block_header ≡ d.last_finalized_block_header)
unfolding take_next_valset
take_next_valset-unverified_headers d = elim (Option-cases d.next_valset) [
  | inl n ↦ (ground arith, ground arith)
  | inr (w, n) ↦ (ground arith, ground arith)
]

module _ (client : FinalityClient) where
  push_header-Ordered :
      (sent latest now : ℕ) (h : AvailHeader) (d e : BlockData)
      → Ordered sent latest d
      → latest < h.number
      → push_header client h now d ≡ ok e
      → Ordered sent h.number e
  unfolding push_header
  push_header-Ordered sent latest now h d e o l p =
      let (a, b) = take_next_valset-unverified_headers d in
      let x : UnverifiedHeader = record {
        header = h;
        received_at = now;
        valset = (take_next_valset d).current_valset;
      } in
      elim (Result-cases (filter_auth_set_changes client h)) [
        | inr (y, f) ↦ ground arith
        | inl ([], f) ↦
            pushed-Ordered sent latest h d e x o l refl (ground (arith, a)) (ground (arith, b))
        | inl (y ∷ ys, f) ↦
            pushed-Ordered sent latest h d e x o l refl (ground (arith, a)) (ground (arith, b))
      ]

latest_after_more :
    (latest : ℕ) (m : Subscription) (ms : List Subscription)
    → latest_after (latest_after latest (m ∷ [])) ms ≡ latest_after latest (m ∷ ms)
unfolding latest_after
latest_after_more latest (header h now timestamp) ms = refl
latest_after_more latest (justification j now) ms = refl

module _ (client : FinalityClient) {F : Type 0} where
  joined-Follows :
      (sent latest middle : ℕ) (s t u : Step F)
      → (v : Follows client sent middle s) → Follows client (sent + v.count) latest t
      → u ≡ record t { sent = s.sent ++ t.sent }
      → Follows client sent latest u
  joined-Follows sent latest middle s t u v w e =
      subst (λ x. Follows client sent latest x) (sym e)
        (record {
          count = v.count + w.count;
          consecutive =
              numbers-append s.sent t.sent
              ∙ rw (v.consecutive, w.consecutive, a) (range-append (sent + 1) v.count w.count);
          ordered = rw b w.ordered;
        })
    where
      a : sent + v.count + 1 ≡ sent + 1 + v.count
      a = omega arith

      b : sent + (v.count + w.count) ≡ sent + v.count + w.count
      b = omega arith

  idle-Follows :
      (sent latest : ℕ) (d : BlockData) (js : List GrandpaJustification) (db : Store F) (s : Step F)
      → Ordered sent latest d
      → s ≡ record { block_data = record d { justifications = js }; db = db; sent = [] }
      → Follows client sent latest s
  unfolding numbers range
  idle-Follows sent latest d js db s o e =
      subst (λ x. Follows client sent latest x) (sym e)
        (record {
          count = 0;
          consecutive = refl;
          ordered = record {
            finalized = o.finalized;
            is_last = o.is_last;
            numbered = omega (arith, o.numbered);
            below = omega (arith, o.below);
            old = λ k l. o.old k (omega (arith, l));
            single = o.single;
            new = o.new;
          };
        })

  verify_and_output-Follows :
      (listening : Bool) (sent latest now : ℕ) (js : List GrandpaJustification) (d : BlockData)
      (db : Store F) (synced : Bool) (s : Step F)
      → IsNumbered client
      → Ordered sent latest d
      → verify_and_output client listening now js d db synced ≡ ok s
      → Follows client sent latest s
  unfolding verify_and_output
  verify_and_output-Follows listening sent latest now [] d db synced s v o h =
      idle-Follows sent latest d [] db s o (ground arith)
  verify_and_output-Follows listening sent latest now (j ∷ js) d db synced s v o h =
      elim (Option-cases (
        take_out (λ x. j.commit.target_hash == client.crypto.header_hash x.header)
          d.unverified_headers)) [
            | inl e ↦ idle-Follows sent latest d (j ∷ js) db s o (ground arith)
            | inr ((x, rest), e) ↦
                elim (Result-cases (output_header client listening now j x rest d db synced)) [
                  | inr (y, f) ↦ ground arith
                  | inl ((t, synced'), f) ↦
                      elim (Result-cases
                        (verify_and_output client listening now js t.block_data t.db synced')) [
                          | inr (y, g) ↦ ground arith
                          | inl (u, g) ↦
                              let w =
                                take_out-TakenOut
                                  (λ y. j.commit.target_hash == client.crypto.header_hash y.header)
                                  d.unverified_headers x rest e in
                              let a =
                                Justified-Follows client sent latest j x rest d t o w.member
                                  w.counts
                                  (output_header-Justified client listening now j x rest d db synced
                                    synced' t v f) in
                              joined-Follows sent latest latest t u s a
                                (verify_and_output-Follows listening (sent + a.count) latest now js
                                  t.block_data t.db synced' u v a.ordered g)
                                (ground arith)
                        ]
                ]
          ]

  handle_new_subscription-Follows :
      (listening : Bool) (sent latest : ℕ) (m : Subscription) (ms : List Subscription)
      (d : BlockData) (db : Store F) (s : Step F)
      → IsNumbered client
      → Ordered sent latest d
      → IsAscending latest (m ∷ ms)
      → handle_new_subscription client listening m d db ≡ ok s
      → Follows client sent (latest_after latest (m ∷ [])) s
        × IsAscending (latest_after latest (m ∷ [])) ms
  unfolding handle_new_subscription IsAscending latest_after
  handle_new_subscription-Follows listening sent latest (header h now timestamp) ms d db s v o r p =
      elim (Result-cases (push_header client h now d)) [
        | inr (y, f) ↦ ground arith
        | inl (e, f) ↦ (
          verify_and_output-Follows listening sent h.number now e.justifications e
              (put_received h timestamp db) false s v
              (push_header-Ordered client sent latest now h d e o r.0 f) (ground arith),
          r.1,
        )
      ]
  handle_new_subscription-Follows listening sent latest (justification j now) ms d db s v o r p = (
    verify_and_output-Follows listening sent latest now (j ∷ d.justifications) d db false s v o p,
    r,
  )

  -- Over any messages whose headers have rising numbers, and with nodes that answer with the header
  -- that was asked for, a loop that does not panic hands on headers whose numbers are consecutive,
  -- from the one after the last finalized header on; no number is left out and none is repeated.
  pub run-Follows :
      (listening : Bool) (sent latest : ℕ) (ms : List Subscription) (d : BlockData) (db : Store F)
      (s : Step F)
      → IsNumbered client
      → Ordered sent latest d
      → IsAscending latest ms
      → run client listening ms d db ≡ ok s
      → Follows client sent (latest_after latest ms) s
  unfolding run latest_after
  run-Follows listening sent latest [] d db s v o r p =
      idle-Follows sent latest d d.justifications db s o (ground arith)
  run-Follows listening sent latest (m ∷ ms) d db s v o r p =
      elim (Result-cases (handle_new_subscription client listening m d db)) [
        | inr (y, f) ↦ ground arith
        | inl (t, f) ↦ elim (Result-cases (run client listening ms t.block_data t.db)) [
          | inr (y, g) ↦ ground arith
          | inl (u, g) ↦
              let (a, q) =
                handle_new_subscription-Follows listening sent latest m ms d db t v o r f in
              joined-Follows sent (latest_after latest (m ∷ ms)) (latest_after latest (m ∷ [])) t u
                s a
                (subst (λ l. Follows client (sent + a.count) l u) (latest_after_more latest m ms)
                  (run-Follows listening (sent + a.count) (latest_after latest (m ∷ [])) ms
                    t.block_data t.db u v a.ordered q g))
                (ground arith)
        ]
      ]

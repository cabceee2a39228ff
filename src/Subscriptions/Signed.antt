-- ===== src/Subscriptions/Signed.antt =====
-- The headers that verify_and_output_block_headers of core/src/network/rpc/subscriptions.rs hands on
-- with a justification, and the ones that go before them.
use avail_light.Prelude.{
  ℕ, ◌+◌, ◌≡◌, refl, ap, subst, sym, ◌∙◌, inl, inr, Bool, true, Option, some, List, [], ◌∷◌, ◌++◌,
  ◌==◌, ok, arith, In, Bool-cases, Option-cases, Result-cases, zero, suc,
}
use avail_light.Prelude.Assoc.{lookup}
use avail_light.Types.Header.{AvailHeader}
use avail_light.Types.Grandpa.{GrandpaJustification}
use avail_light.Data.Store.{Store}
use avail_light.Finality.{check_finality}
use avail_light.SyncFinality.{FinalityClient, header_at}
use avail_light.Subscriptions.{
  BlockData, HeaderUpdate, Step, skipped_count, first_skipped, find_skipped, send_skipped,
  output_header, verify_and_output,
}
use avail_light.Subscriptions.Pending.{UnverifiedHeader, take_out, take_out-TakenOut, take_out-In}
use avail_light.Subscriptions.Gaps.{numbers, range, IsNumbered}
use avail_light.Subscriptions.Justified.{Justified, output_header-Justified}

module _ (client : FinalityClient) where
  -- One of the justifications is for the hash of the header, which is one of the unverified ones, and
  -- passes the check of finality with the validators that were current when the header came.
  pub record Signed (justifications : List GrandpaJustification) (pending : List UnverifiedHeader)
      (h : AvailHeader) : Type 0 where
    pub justification : GrandpaJustification
    pub unverified : UnverifiedHeader
    pub set_id : ℕ
    pub given : In justification justifications
    pub waiting : In unverified pending
    pub same : unverified.header ≡ h
    pub target : (justification.commit.target_hash == client.crypto.header_hash h) ≡ true
    pub accepted : check_finality client.crypto unverified.valset justification ≡ ok set_id

  -- The headers handed on between two last finalized headers: each signed one has before it one header
  -- for each number since the last one, and becomes the last one.
  pub data HandedOn (justifications : List GrandpaJustification) (pending : List UnverifiedHeader)
      : Option AvailHeader → List HeaderUpdate → Option AvailHeader → Type 0 where
    nothing : {last : Option AvailHeader} → HandedOn justifications pending last [] last
    batch :
        {last end : Option AvailHeader}
        → (gap : List HeaderUpdate) (u : HeaderUpdate) (us : List HeaderUpdate)
        → Signed justifications pending u.header
        → numbers gap ≡ range (first_skipped last) (skipped_count last u.header.number)
        → HandedOn justifications pending (some u.header) us end
        → HandedOn justifications pending last (gap ++ u ∷ us) end

  find_skipped-In :
      (now n at : ℕ) (pending rest : List UnverifiedHeader) (h : AvailHeader) (y : UnverifiedHeader)
      → find_skipped client now n pending ≡ ok (h, at, rest)
      → In y rest
      → In y pending
  unfolding find_skipped
  find_skipped-In now n at pending rest h y e m =
      elim (Option-cases (take_out (λ x. x.header.number == n) pending)) [
        | inr ((x, left), t) ↦
            take_out-In (λ x. x.header.number == n) pending left x y t
              (subst (λ l. In y l) (ground arith) m)
        | inl t ↦ elim (Option-cases (header_at client n)) [
          | inl g ↦ ground arith
          | inr (g, p) ↦ subst (λ l. In y l) (ground arith) m
        ]
      ]

  send_skipped-In :
      (listening : Bool) (now timestamp n count : ℕ) (pending left : List UnverifiedHeader)
      (sent : List HeaderUpdate) (y : UnverifiedHeader)
      → send_skipped client listening now timestamp n count pending ≡ ok (sent, left)
      → In y left
      → In y pending
  unfolding send_skipped
  send_skipped-In b now ts n zero pending left sent y h m = subst (λ l. In y l) (ground arith) m
  send_skipped-In b now ts n (suc count) pending left sent y h m =
      elim (Result-cases (find_skipped client now n pending)) [
        | inr (x, e) ↦ ground arith
        | inl ((g, at, rest), e) ↦ elim (Bool-cases b) [
          | inr l ↦ ground arith
          | inl l ↦ elim (Result-cases (send_skipped client b now ts (n + 1) count rest)) [
            | inr (x, f) ↦ ground arith
            | inl ((us, qs), f) ↦ find_skipped-In now n at pending rest g y e (
                send_skipped-In b now ts (n + 1) count rest qs us y f
                  (subst (λ l. In y l) (ground arith) m))
          ]
        ]
      ]

append-snoc : {A : Type 0} (xs : List A) (y : A) (zs : List A) → (xs ++ y ∷ []) ++ zs ≡ xs ++ y ∷ zs
append-snoc [] y zs = refl
append-snoc (x ∷ xs) y zs = ap (λ l. x ∷ l) (append-snoc xs y zs)

module _ (client : FinalityClient) {F : Type 0} where
  output_header-In :
      (listening : Bool) (now : ℕ) (j : GrandpaJustification) (x : UnverifiedHeader)
      (rest : List UnverifiedHeader) (d : BlockData) (db : Store F) (synced synced' : Bool)
      (s : Step F) (y : UnverifiedHeader)
      → output_header client listening now j x rest d db synced ≡ ok (s, synced')
      → In y s.block_data.unverified_headers
      → In y rest
  unfolding output_header
  output_header-In b now j x rest d db synced synced' s y h m =
      elim (Option-cases (lookup x.header.number db.block_header_received_at)) [
        | inl e ↦ ground arith
        | inr (timestamp, e) ↦ elim (Result-cases (check_finality client.crypto x.valset j)) [
          | inr (z, f) ↦ ground arith
          | inl (set_id, f) ↦
              elim (Result-cases (
                send_skipped client b now timestamp (first_skipped d.last_finalized_block_header)
                  (skipped_count d.last_finalized_block_header x.header.number) rest)) [
                    | inr (z, g) ↦ ground arith
                    | inl ((gap, left), g) ↦ elim (Bool-cases b) [
                      | inr l ↦ ground arith
                      | inl l ↦
                          send_skipped-In client b now timestamp
                            (first_skipped d.last_finalized_block_header)
                            (skipped_count d.last_finalized_block_header x.header.number) rest left
                            gap y g (subst (λ q. In y q) (ground arith) m)
                    ]
                  ]
        ]
      ]

  -- A batch followed by what is handed on later.
  Justified-HandedOn :
      (js : List GrandpaJustification) (pending rest : List UnverifiedHeader)
      (j : GrandpaJustification) (x : UnverifiedHeader) (d : BlockData) (t u : Step F)
      → In j js
      → In x pending
      → (j.commit.target_hash == client.crypto.header_hash x.header) ≡ true
      → Justified client j x rest d t
      → HandedOn client js pending t.block_data.last_finalized_block_header u.sent
          u.block_data.last_finalized_block_header
      → HandedOn client js pending d.last_finalized_block_header
          (t.sent ++ u.sent)
          u.block_data.last_finalized_block_header
  Justified-HandedOn js pending rest j x d t u m n e w r =
      let last = d.last_finalized_block_header in
      let end = u.block_data.last_finalized_block_header in
      let q : w.gap ++ w.update ∷ u.sent ≡ t.sent ++ u.sent =
        sym (ap (λ l. l ++ u.sent) w.sent ∙ append-snoc w.gap w.update u.sent) in
      subst (λ l. HandedOn client js pending last l end) q
        (batch w.gap w.update u.sent
          (record {
            justification = j;
            unverified = x;
            set_id = w.set_id;
            given = m;
            waiting = n;
            same = sym w.header;
            target =
                subst (λ h. (j.commit.target_hash == client.crypto.header_hash h) ≡ true)
                  (sym w.header) e;
            accepted = w.accepted;
          })
          (subst (λ h. numbers w.gap ≡ range (first_skipped last) (skipped_count last h.number))
            (sym w.header) w.skipped.numbered)
          (subst (λ l. HandedOn client js pending l u.sent end)
            (w.last ∙ ap (λ h. some h) (sym w.header)) r))

  idle-HandedOn :
      (given js : List GrandpaJustification) (pending : List UnverifiedHeader) (d : BlockData)
      (db : Store F) (s : Step F)
      → record { block_data = record d { justifications = js }; db = db; sent = [] } ≡ s
      → HandedOn client given pending d.last_finalized_block_header s.sent
          s.block_data.last_finalized_block_header
  idle-HandedOn given js pending d db s e =
      subst
        (λ z.
          HandedOn client given pending d.last_finalized_block_header z.sent
            z.block_data.last_finalized_block_header)
        e nothing

  handed_on :
      (listening : Bool) (now : ℕ) (given js : List GrandpaJustification)
      (pending : List UnverifiedHeader) (d : BlockData) (db : Store F) (synced : Bool) (s : Step F)
      → IsNumbered client
      → ((j : GrandpaJustification) → In j js → In j given)
      → ((y : UnverifiedHeader) → In y d.unverified_headers → In y pending)
      → verify_and_output client listening now js d db synced ≡ ok s
      → HandedOn client given pending d.last_finalized_block_header s.sent
          s.block_data.last_finalized_block_header
  unfolding verify_and_output
  handed_on b now given [] pending d db synced s v a c h =
      idle-HandedOn given [] pending d db s (ground arith)
  handed_on b now given (j ∷ js) pending d db synced s v a c h =
      let f : UnverifiedHeader → Bool =
        λ x. j.commit.target_hash == client.crypto.header_hash x.header in
      elim (Option-cases (take_out f d.unverified_headers)) [
        | inl e ↦ idle-HandedOn given (j ∷ js) pending d db s (ground arith)
        | inr ((x, rest), e) ↦
            elim (Result-cases (output_header client b now j x rest d db synced)) [
              | inr (y, g) ↦ ground arith
              | inl ((t, synced'), g) ↦
                  elim (Result-cases
                    (verify_and_output client b now js t.block_data t.db synced')) [
                      | inr (y, i) ↦ ground arith
                      | inl (u, i) ↦
                          let w = take_out-TakenOut f d.unverified_headers x rest e in
                          let p =
                            output_header-Justified client b now j x rest d db synced synced' t v
                              g in
                          let q : record u { sent = t.sent ++ u.sent } ≡ s = ground arith in
                          subst
                            (λ z.
                              HandedOn client given pending d.last_finalized_block_header z.sent
                                z.block_data.last_finalized_block_header)
                            q
                            (Justified-HandedOn given pending rest j x d t u (a j (inl refl))
                              (c x w.member) w.found p
                              (handed_on b now given js pending t.block_data t.db synced' u v
                                (λ k m. a k (inr m))
                                (λ y m. c y (
                                  take_out-In f d.unverified_headers rest x y e
                                    (output_header-In b now j x rest d db synced synced' t y g m)))
                                i))
                    ]
            ]
      ]

  -- With nodes that answer with the header that was asked for, a pass over the justifications that does
  -- not panic hands on headers in batches: the last one of a batch was waiting, and one of the
  -- justifications, for the hash of this very header, is signed by the validators recorded with it;
  -- before it goes one header for each number since the last finalized header, and it becomes the
  -- last finalized header.
  pub verify_and_output-HandedOn :
      (listening : Bool) (now : ℕ) (js : List GrandpaJustification) (d : BlockData) (db : Store F)
      (synced : Bool) (s : Step F)
      → IsNumbered client
      → verify_and_output client listening now js d db synced ≡ ok s
      → HandedOn client js d.unverified_headers d.last_finalized_block_header s.sent
          s.block_data.last_finalized_block_header
  verify_and_output-HandedOn b now js d db synced s v h =
      handed_on b now js js d.unverified_headers d db synced s v (λ j m. m) (λ y m. m) h

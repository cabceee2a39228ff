-- ===== src/Subscriptions/Gaps.antt =====
-- The skipped headers of core/src/network/rpc/subscriptions.rs: one for each number of the gap, and
-- none of them stays among the unverified headers.
use avail_light.Prelude.{
  ℕ, zero, suc, ◌+◌, ◌≤◌, ◌<◌, ◌≡◌, inl, inr, Bool, some, List, [], ◌∷◌, ◌==◌, ok, arith,
  Bool-cases, Option-cases, Result-cases,
}
use avail_light.Types.Header.{AvailHeader}
use avail_light.SyncFinality.{FinalityClient, header_at}
use avail_light.Subscriptions.{HeaderUpdate, find_skipped, send_skipped}
use avail_light.Subscriptions.Pending.{
  UnverifiedHeader, take_out, count_number, take_out-TakenOut, take_out_absent,
}

unfoldable pub numbers : List HeaderUpdate → List ℕ
numbers [] = []
numbers (u ∷ us) = u.header.number ∷ numbers us

-- `first..first + count`
unfoldable pub range : ℕ → ℕ → List ℕ
range first zero = []
range first (suc count) = first ∷ range (first + 1) count

module _ (client : FinalityClient) where
  -- A node answers with the header of the number that was asked for.
  abbrev pub IsNumbered : Type 0
  IsNumbered = (n : ℕ) (h : AvailHeader) → header_at client n ≡ some h → h.number ≡ n

  record Found (n : ℕ) (pending : List UnverifiedHeader) (h : AvailHeader)
      (rest : List UnverifiedHeader) : Type 0 where
    numbered : h.number ≡ n
    fewer : (k : ℕ) → count_number k rest ≤ count_number k pending
    gone : count_number n pending ≤ 1 → count_number n rest ≡ 0

  find_skipped-Found :
      (now n at : ℕ) (pending rest : List UnverifiedHeader) (h : AvailHeader)
      → IsNumbered
      → find_skipped client now n pending ≡ ok (h, at, rest)
      → Found n pending h rest
  unfolding find_skipped
  find_skipped-Found now n at pending rest h v e =
      elim (Option-cases (take_out (λ x. x.header.number == n) pending)) [
        | inr ((x, left), t) ↦
            let w = take_out-TakenOut (λ x. x.header.number == n) pending x left t in
            record {
              numbered = ground (arith, w.found);
              fewer = λ k. ground (arith, w.counts k);
              gone = λ l. ground (arith, w.counts n, w.found);
            }
        | inl t ↦ elim (Option-cases (header_at client n)) [
          | inl g ↦ ground arith
          | inr (g, p) ↦ record {
            numbered = ground (arith, v n g p);
            fewer = λ k. ground arith;
            gone = λ l. ground (arith, take_out_absent n pending t);
          }
        ]
      ]

  pub record Skipped (n count : ℕ) (pending : List UnverifiedHeader) (sent : List HeaderUpdate)
      (left : List UnverifiedHeader) : Type 0 where
    pub numbered : numbers sent ≡ range n count
    pub fewer : (k : ℕ) → count_number k left ≤ count_number k pending
    pub gone :
        (k : ℕ) → count_number k pending ≤ 1 → n ≤ k → k < n + count → count_number k left ≡ 0

  pub send_skipped-Skipped :
      (listening : Bool) (now timestamp n count : ℕ) (pending left : List UnverifiedHeader)
      (sent : List HeaderUpdate)
      → IsNumbered
      → send_skipped client listening now timestamp n count pending ≡ ok (sent, left)
      → Skipped n count pending sent left
  unfolding send_skipped numbers range
  send_skipped-Skipped listening now ts n zero pending left sent v h = record {
    numbered = ground arith;
    fewer = λ k. ground arith;
    gone = λ k l a b. absurd (omega arith);
  }
  send_skipped-Skipped listening now ts n (suc count) pending left sent v h =
      elim (Result-cases (find_skipped client now n pending)) [
        | inr (x, e) ↦ ground arith
        | inl ((g, at, rest), e) ↦
            elim (Result-cases (send_skipped client listening now ts (n + 1) count rest)) [
              | inr (x, f) ↦ elim (Bool-cases listening) [
                | inl b ↦ ground arith
                | inr b ↦ ground arith
              ]
              | inl ((us, qs), f) ↦ elim (Bool-cases listening) [
                | inr b ↦ ground arith
                | inl b ↦
                    let a = find_skipped-Found now n at pending rest g v e in
                    let w = send_skipped-Skipped listening now ts (n + 1) count rest qs us v f in
                    record {
                      numbered = ground (arith, a.numbered, w.numbered);
                      fewer = λ k. ground (arith, a.fewer k, w.fewer k);
                      gone = λ k l p q. elim (Bool-cases (n == k)) [
                        | inl t ↦ ground (arith, a.gone, w.fewer k)
                        | inr t ↦ ground (arith, a.fewer k, w.gone k)
                      ];
                    }
              ]
            ]
      ]

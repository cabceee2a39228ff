-- ===== src/Subscriptions/Order.antt =====
-- The headers that core/src/network/rpc/subscriptions.rs hands on have consecutive numbers.
use avail_light.Prelude.{
  ℕ, zero, suc, ◌+◌, ◌-◌, ◌≤◌, ◌<◌, ◌≡◌, refl, ap, subst, ◌∙◌, inl, inr, Bool, Option, some, List,
  [], ◌∷◌, ◌++◌, ◌==◌, ltb, if◌then◌else◌, arith, In, Bool-cases,
}
use avail_light.Types.Header.{AvailHeader}
use avail_light.Types.Grandpa.{GrandpaJustification}
use avail_light.SyncFinality.{FinalityClient}
use avail_light.Subscriptions.{BlockData, HeaderUpdate, Step, skipped_count, first_skipped}
use avail_light.Subscriptions.Pending.{UnverifiedHeader, count_number}
use avail_light.Subscriptions.Gaps.{numbers, range, Skipped}
use avail_light.Subscriptions.Justified.{Justified}

-- The last header handed on has the number `sent`; the unverified headers have different numbers
-- above it, and none is above the latest number that came.
pub record Ordered (sent latest : ℕ) (d : BlockData) : Type 0 where
  pub finalized : AvailHeader
  pub is_last : d.last_finalized_block_header ≡ some finalized
  pub numbered : finalized.number ≡ sent
  pub below : sent ≤ latest
  pub old : (k : ℕ) → k ≤ sent → count_number k d.unverified_headers ≡ 0
  pub single : (k : ℕ) → count_number k d.unverified_headers ≤ 1
  pub new : (k : ℕ) → latest < k → count_number k d.unverified_headers ≡ 0

pub numbers-append : (us vs : List HeaderUpdate) → numbers (us ++ vs) ≡ numbers us ++ numbers vs
unfolding numbers
numbers-append [] vs = refl
numbers-append (u ∷ us) vs = ap (λ ns. u.header.number ∷ ns) (numbers-append us vs)

pub range-append : (a m n : ℕ) → range a m ++ range (a + m) n ≡ range a (m + n)
unfolding range
range-append a zero n = ground arith
range-append a (suc m) n =
    let e : a + suc m ≡ a + 1 + m = omega arith in
    let f : suc m + n ≡ suc (m + n) = omega arith in
    rw (e, f) (ap (λ ns. a ∷ ns) (range-append (a + 1) m n))

-- A range with the number after it.
range-snoc : (a m n : ℕ) → n ≡ a + m → range a m ++ n ∷ [] ≡ range a (suc m)
unfolding range
range-snoc a zero n h = ground arith
range-snoc a (suc m) n h = ap (λ ns. a ∷ ns) (range-snoc (a + 1) m n (omega arith))

pub count-snoc :
    (k : ℕ) (xs : List UnverifiedHeader) (x : UnverifiedHeader)
    → count_number k (xs ++ x ∷ []) ≡ count_number k xs + (if x.header.number == k then 1 else 0)
unfolding count_number
count-snoc k [] x = ground arith
count-snoc k (y ∷ xs) x = ground (arith, count-snoc k xs x)

count-In :
    (xs : List UnverifiedHeader) (x : UnverifiedHeader)
    → In x xs
    → 1 ≤ count_number x.header.number xs
unfolding count_number
count-In [] x h = elim h [ ]
count-In (y ∷ xs) x (inl e) =
    subst (λ z. 1 ≤ count_number z.header.number (y ∷ xs)) e (ground arith)
count-In (y ∷ xs) x (inr h) = ground (arith, count-In xs x h)

sent-range :
    (sent n : ℕ) (us gap : List HeaderUpdate) (u : HeaderUpdate)
    → sent < n
    → us ≡ gap ++ u ∷ []
    → u.header.number ≡ n
    → numbers gap ≡ range (sent + 1) (n - (sent + 1))
    → numbers us ≡ range (sent + 1) (n - sent)
unfolding numbers
sent-range sent n us gap u l e h g =
    let m : n - sent ≡ suc (n - (sent + 1)) = omega arith in
    ap numbers e
    ∙ numbers-append gap (u ∷ [])
    ∙ rw (g, h, m) (range-snoc (sent + 1) (n - (sent + 1)) n (omega arith))

module _ (client : FinalityClient) where
  Skipped-finalized :
      (sent : ℕ) (finalized : AvailHeader) (last : Option AvailHeader) (n : ℕ)
      (rest left : List UnverifiedHeader) (gap : List HeaderUpdate)
      → last ≡ some finalized
      → finalized.number ≡ sent
      → Skipped client (first_skipped last) (skipped_count last n) rest gap left
      → Skipped client (sent + 1) (n - (sent + 1)) rest gap left
  unfolding skipped_count first_skipped
  Skipped-finalized sent f last n rest left gap e g v =
      subst (λ k. Skipped client (k + 1) (n - (k + 1)) rest gap left) g
        (subst (λ l. Skipped client (first_skipped l) (skipped_count l n) rest gap left) e v)

  left_gone :
      (sent n k : ℕ) (pending rest left : List UnverifiedHeader) (gap : List HeaderUpdate)
      (b : Bool)
      → b ≡ (n == k)
      → count_number k pending ≡ count_number k rest + (if b then 1 else 0)
      → count_number k pending ≤ 1
      → (k ≤ sent → count_number k pending ≡ 0)
      → Skipped client (sent + 1) (n - (sent + 1)) rest gap left
      → k ≤ n
      → count_number k left ≡ 0
  left_gone sent n k pending rest left gap b t c l o v h = ground (arith, v.fewer k, v.gone k)

module _ (client : FinalityClient) {F : Type 0} where
  -- The numbers sent follow on the number sent last.
  pub record Follows (sent latest : ℕ) (s : Step F) : Type 0 where
    pub count : ℕ
    pub consecutive : numbers s.sent ≡ range (sent + 1) count
    pub ordered : Ordered (sent + count) latest s.block_data

  pub Justified-Follows :
      (sent latest : ℕ) (j : GrandpaJustification) (x : UnverifiedHeader)
      (rest : List UnverifiedHeader) (d : BlockData) (s : Step F)
      → Ordered sent latest d
      → In x d.unverified_headers
      → ((k : ℕ)
          → count_number k d.unverified_headers
            ≡ count_number k rest + (if x.header.number == k then 1 else 0))
      → Justified client j x rest d s
      → Follows sent latest s
  Justified-Follows sent latest j x rest d s o m c w = record {
    count = n - sent;
    consecutive =
        sent-range sent n s.sent w.gap w.update above w.sent (ap (λ h. h.number) w.header)
          v.numbered;
    ordered = record {
      finalized = x.header;
      is_last = w.last;
      numbered = omega (arith, above);
      below = ground (arith, above, count-In d.unverified_headers x m, o.new n);
      old = λ k l.
          left_gone client sent n k d.unverified_headers rest s.block_data.unverified_headers w.gap
            (n == k) refl (c k) (o.single k) (o.old k) v (omega (arith, l, above));
      single = λ k. ground (arith, v.fewer k, c k, o.single k);
      new = λ k l. ground (arith, v.fewer k, c k, o.new k);
    };
  }
    where
      n : ℕ
      n = x.header.number

      v :
          Skipped client
            (sent + 1)
            (x.header.number - (sent + 1))
            rest
            w.gap
            s.block_data.unverified_headers
      v =
          Skipped-finalized client sent o.finalized d.last_finalized_block_header x.header.number
            rest s.block_data.unverified_headers w.gap o.is_last o.numbered w.skipped

      above : sent < x.header.number
      above = elim (Bool-cases (ltb sent x.header.number)) [
        | inl e ↦ ground arith
        | inr e ↦ ground (arith, count-In d.unverified_headers x m, o.old x.header.number)
      ]

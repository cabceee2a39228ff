-- ===== src/Network/Sift.antt =====
-- What `verify` of core/src/proof.rs and the `retain` after it keep: with distinct positions, the
-- cells that verify, and no others.
use avail_light.Prelude.{
  ◌≡◌, refl, subst, sym, inl, inr, Bool, true, false, not, some, none, List, [], ◌∷◌, arith,
  get_elem?, retain, ok, Option-cases, Bool-cases, Result-cases, In,
}
use avail_light.Types.Block.{Kate, Position}
use avail_light.Network.Positions.{
  same_position, contains_position, Distinct, same_position_refl, contains_position-same,
}
use avail_light.Network.{Cell, Sources, positions_of, tasks, results, partition, verify, sift}

contains-retain-le :
    (f : Cell → Bool) (cs : List Cell) (p : Position)
    → contains_position (positions_of cs) p ≡ false
    → contains_position (positions_of (retain f cs)) p ≡ false
unfolding positions_of contains_position
contains-retain-le f [] p h = refl
contains-retain-le f (c ∷ cs) p h = ground (arith, contains-retain-le f cs p)

contains-positions_of :
    (cs : List Cell) (c : Cell) → In c cs → contains_position (positions_of cs) c.position ≡ true
unfolding positions_of contains_position
contains-positions_of [] c e = elim e [ ]
contains-positions_of (b ∷ cs) c (inl e) =
    rw (sym e) (ground (arith, same_position_refl b.position))
contains-positions_of (b ∷ cs) c (inr e) = ground (arith, contains-positions_of cs c e)

apart :
    (cs : List Cell) (b c : Cell)
    → contains_position (positions_of cs) b.position ≡ false
    → In c cs
    → same_position b.position c.position ≡ false
apart cs b c n e = elim (Bool-cases (same_position b.position c.position)) [
  | inr h ↦ h
  | inl h ↦ ground (
    arith,
    contains_position-same (positions_of cs) b.position c.position h,
    contains-positions_of cs c e,
  )
]

-- A cell's position is among those of the cells that pass a test if the cell passes it.
contains-retain :
    (f : Cell → Bool) (cs : List Cell) (c : Cell)
    → Distinct (positions_of cs)
    → In c cs
    → contains_position (positions_of (retain f cs)) c.position ≡ f c
unfolding positions_of contains_position
contains-retain f [] c d e = elim e [ ]
contains-retain f (b ∷ cs) c d (inl e) =
    subst (λ x. contains_position (positions_of (retain f (b ∷ cs))) x.position ≡ f x) e
      (ground (arith, same_position_refl b.position, contains-retain-le f cs b.position))
contains-retain f (b ∷ cs) c d (inr e) =
    ground (arith, contains-retain f cs c d.1 e, apart cs b c d.0 e)

retain_cong :
    (f g : Cell → Bool) (cs : List Cell)
    → ((c : Cell) → In c cs → f c ≡ g c)
    → retain f cs ≡ retain g cs
retain_cong f g [] h = refl
retain_cong f g (c ∷ cs) h = ground (arith, h c (inl refl), retain_cong f g cs (λ b e. h b (inr e)))

module _ {kate : Kate} (net : Sources kate) (dimensions : kate.Dimensions)
    (commitments : List kate.Commitment) where
  -- The cell's proof is accepted for the commitment of its row.
  unfoldable pub checks : Cell → Bool
  checks c = elim (get_elem? commitments c.position.row) [
    | none ↦ false
    | some commitment ↦ elim (net.verify_v2 dimensions commitment c) [
      | none ↦ false
      | some is_verified ↦ is_verified
    ]
  ]

  marks : List Cell → List (Position × Bool)
  marks [] = []
  marks (c ∷ cs) = (c.position, checks c) ∷ marks cs

  results-tasks :
      (cs : List Cell) (ts : List (Cell × kate.Commitment)) (rs : List (Position × Bool))
      → tasks net dimensions commitments cs ≡ ok ts
      → results net dimensions commitments ts ≡ ok rs
      → rs ≡ marks cs
  unfolding tasks results marks checks
  results-tasks [] ts rs t r = ground arith
  results-tasks (c ∷ cs) ts rs t r = elim (Option-cases (get_elem? commitments c.position.row)) [
    | inl e ↦ ground arith
    | inr (commitment, e) ↦ elim (Result-cases (tasks net dimensions commitments cs)) [
      | inr (x, f) ↦ ground arith
      | inl (us, f) ↦ elim (Option-cases (net.verify_v2 dimensions commitment c)) [
        | inl g ↦ ground arith
        | inr (b, g) ↦ elim (Result-cases (results net dimensions commitments us)) [
          | inr (x, i) ↦ ground arith
          | inl (qs, i) ↦ ground (arith, results-tasks cs us qs f i)
        ]
      ]
    ]
  ]

  unfoldable verdicts : List Cell → List Position × List Position
  verdicts cs = (positions_of (retain checks cs), positions_of (retain (λ c. not (checks c)) cs))

  partition-marks : (cs : List Cell) → partition net dimensions commitments (marks cs) ≡ verdicts cs
  unfolding partition marks positions_of verdicts
  partition-marks [] = refl
  partition-marks (c ∷ cs) = elim (Bool-cases (checks c)) [
    | inl e ↦ rw (partition-marks cs, e) refl
    | inr e ↦ rw (partition-marks cs, e) refl
  ]

  verify-verdicts :
      (cs : List Cell) (r : List Position × List Position)
      → verify net dimensions commitments cs ≡ ok r
      → r ≡ verdicts cs
  unfolding verify verdicts positions_of
  verify-verdicts [] r h = ground arith
  verify-verdicts (c ∷ cs) r h = elim (Result-cases (tasks net dimensions commitments (c ∷ cs))) [
    | inr (x, e) ↦ ground arith
    | inl (ts, e) ↦ elim (Result-cases (results net dimensions commitments ts)) [
      | inr (x, f) ↦ ground arith
      | inl (rs, f) ↦ ground (arith, partition-marks (c ∷ cs), results-tasks (c ∷ cs) ts rs e f)
    ]
  ]

  kept-checks :
      (cs : List Cell)
      → Distinct (positions_of cs)
      → retain (λ c. contains_position (verdicts cs).0 c.position) cs ≡ retain checks cs
  unfolding verdicts
  kept-checks cs d =
      retain_cong (λ c. contains_position (positions_of (retain checks cs)) c.position) checks cs
        (λ c e. contains-retain checks cs c d e)

  -- With distinct positions, the cells kept are those that verify, and the positions returned are
  -- those of the cells that do not.
  pub sift-retain :
      (cs kept : List Cell) (unverified : List Position)
      → Distinct (positions_of cs)
      → sift net dimensions commitments cs ≡ ok (kept, unverified)
      → (kept ≡ retain checks cs) × (unverified ≡ positions_of (retain (λ c. not (checks c)) cs))
  unfolding sift verdicts
  sift-retain cs kept u d h = elim (Result-cases (verify net dimensions commitments cs)) [
    | inr (x, e) ↦ ground arith
    | inl (r, e) ↦ ground (arith, verify-verdicts cs r e, kept-checks cs d)
  ]

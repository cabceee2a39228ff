-- ===== src/Network/Accounts.antt =====
-- Positions counted: how the positions asked for divide into those with a cell and the others, at
-- each step of core/src/network.rs.
use avail_light.Prelude.{
  ℕ, zero, suc, ◌==◌, ◌+◌, ◌≤◌, ◌≡◌, refl, ap, inl, inr, Bool, true, false, not, List, [], ◌∷◌,
  ◌++◌, arith, if◌then◌else◌, length, map, retain, Bool-cases, Option-cases,
}
use avail_light.Prelude.Chunks.{chunks, concat, concat-chunks, skip}
use avail_light.Types.Block.{Kate, Position}
use avail_light.Network.Positions.{
  same_position, same_position_refl, contains_position, Distinct, contains_position-same,
}
use avail_light.Network.{
  Cell, Sources, positions_of, flatten, unfetched_of, zip_cells, fetch_cell_from_dht, fetch_chunks,
}

unfoldable pub count_position : List Position → Position → ℕ
count_position [] q = 0
count_position (p ∷ ps) q =
    let rest = count_position ps q in if same_position p q then suc rest else rest

-- The first list is made of the elements of the two others.
pub record Divides (ps a b : List Position) : Type 0 where
  pub lengths : length ps ≡ length a + length b
  pub counts : (p : Position) → count_position ps p ≡ count_position a p + count_position b p

count_position-contains :
    (ps : List Position) (q : Position)
    → ((contains_position ps q ≡ true → 1 ≤ count_position ps q)
        × (1 ≤ count_position ps q → contains_position ps q ≡ true))
unfolding count_position contains_position
count_position-contains [] q = ((λ h. ground arith), λ h. ground arith)
count_position-contains (p ∷ ps) q = (
  (λ h. ground (arith, count_position-contains ps q)),
  λ h. ground (arith, count_position-contains ps q),
)

count_position-absent :
    (ps : List Position) (q : Position) → contains_position ps q ≡ false → count_position ps q ≡ 0
unfolding count_position contains_position
count_position-absent [] q h = refl
count_position-absent (p ∷ ps) q h = ground (arith, count_position-absent ps q)

pub count_position-Distinct :
    (ps : List Position) (q : Position) → Distinct ps → count_position ps q ≤ 1
unfolding count_position
count_position-Distinct [] q d = omega arith
count_position-Distinct (p ∷ ps) q d = elim (Bool-cases (same_position p q)) [
  | inl e ↦ ground (arith, count_position-absent ps q, contains_position-same ps p q e, d.0)
  | inr e ↦ ground (arith, count_position-Distinct ps q d.1)
]

pub contains-Distinct :
    (ps : List Position) → ((q : Position) → count_position ps q ≤ 1) → Distinct ps
unfolding count_position
contains-Distinct [] h = tt
contains-Distinct (p ∷ ps) h = (absent, contains-Distinct ps (λ q. ground (arith, h q)))
  where
    absent : contains_position ps p ≡ false
    absent = elim (Bool-cases (contains_position ps p)) [
      | inr e ↦ e
      | inl e ↦ ground (arith, h p, (count_position-contains ps p).0 e, same_position_refl p)
    ]

-- A list that holds what another one holds.
pub contains-counts :
    (ps qs : List Position) (q : Position)
    → count_position ps q ≤ count_position qs q
    → contains_position ps q ≡ true
    → contains_position qs q ≡ true
contains-counts ps qs q h e =
    (count_position-contains qs q).1 (omega (arith, h, (count_position-contains ps q).0 e))

pub count_position-append :
    (ps qs : List Position) (q : Position)
    → count_position (ps ++ qs) q ≡ count_position ps q + count_position qs q
unfolding count_position
count_position-append [] qs q = omega arith
count_position-append (p ∷ ps) qs q = ground (arith, count_position-append ps qs q)

pub positions_of-append :
    (cs ds : List Cell) → positions_of (cs ++ ds) ≡ positions_of cs ++ positions_of ds
unfolding positions_of
positions_of-append [] ds = refl
positions_of-append (c ∷ cs) ds = ap (λ ps. c.position ∷ ps) (positions_of-append cs ds)

pub length-positions_of : (cs : List Cell) → length (positions_of cs) ≡ length cs
unfolding positions_of
length-positions_of [] = refl
length-positions_of (c ∷ cs) = ap (λ n. suc n) (length-positions_of cs)

-- The cells that pass a test, and the others.
pub Divides-retain :
    (f : Cell → Bool) (cs : List Cell)
    → Divides
        (positions_of cs)
        (positions_of (retain f cs))
        (positions_of (retain (λ c. not (f c)) cs))
unfolding positions_of count_position
Divides-retain f cs = record { lengths = lengths_of cs; counts = λ p. counts_of p cs }
  where
    lengths_of :
        (ds : List Cell)
        → length (positions_of ds)
          ≡ length (positions_of (retain f ds)) + length (positions_of (retain (λ c. not (f c)) ds))
    lengths_of [] = refl
    lengths_of (d ∷ ds) = ground (arith, lengths_of ds)

    counts_of :
        (p : Position) (ds : List Cell)
        → count_position (positions_of ds) p
          ≡ count_position (positions_of (retain f ds)) p
            + count_position (positions_of (retain (λ c. not (f c)) ds)) p
    counts_of p [] = refl
    counts_of p (d ∷ ds) = ground (arith, counts_of p ds)

-- The positions with a proof, and those that are left over when the proofs are too few.
pub Divides-zip_cells :
    (ps : List Position) (xs : List (List ℕ))
    → Divides ps (positions_of (zip_cells ps xs)) (skip (length xs) ps)
unfolding zip_cells positions_of count_position
Divides-zip_cells [] [] = record { lengths = refl; counts = λ p. refl }
Divides-zip_cells [] (x ∷ xs) = record { lengths = refl; counts = λ p. refl }
Divides-zip_cells (p ∷ ps) [] = record { lengths = omega arith; counts = λ q. omega arith }
Divides-zip_cells (p ∷ ps) (x ∷ xs) = record {
  lengths = omega (arith, (Divides-zip_cells ps xs).lengths);
  counts = λ q. ground (arith, (Divides-zip_cells ps xs).counts q);
}

module _ {kate : Kate} (net : Sources kate) where
  map-append-fetch :
      (ps qs : List Position)
      → map (fetch_cell_from_dht net) (ps ++ qs)
        ≡ map (fetch_cell_from_dht net) ps ++ map (fetch_cell_from_dht net) qs
  map-append-fetch [] qs = refl
  map-append-fetch (p ∷ ps) qs = ap (λ cs. fetch_cell_from_dht net p ∷ cs) (map-append-fetch ps qs)

  fetch_chunks-concat :
      (pss : List (List Position))
      → fetch_chunks net pss ≡ map (fetch_cell_from_dht net) (concat pss)
  unfolding fetch_chunks concat
  fetch_chunks-concat [] = refl
  fetch_chunks-concat (ps ∷ pss) =
      ground (arith, fetch_chunks-concat pss, map-append-fetch ps (concat pss))

  -- The size of the chunks does not matter.
  pub fetch_chunks-chunks :
      (n : ℕ) (ps : List Position)
      → (n == 0) ≡ false
      → fetch_chunks net (chunks n ps) ≡ map (fetch_cell_from_dht net) ps
  fetch_chunks-chunks zero ps h = ground arith
  fetch_chunks-chunks (suc n) ps h =
      rw (fetch_chunks-concat (chunks (suc n) ps), concat-chunks n ps) refl

  -- The positions found in the DHT, and the others.
  pub Divides-flatten :
      (ps : List Position)
      → Divides ps
          (positions_of (flatten (map (fetch_cell_from_dht net) ps)))
          (unfetched_of (map (fetch_cell_from_dht net) ps) ps)
  unfolding flatten unfetched_of fetch_cell_from_dht positions_of count_position
  Divides-flatten [] = record { lengths = refl; counts = λ p. refl }
  Divides-flatten (p ∷ ps) = elim (Option-cases (net.dht_content p)) [
    | inl e ↦ record {
      lengths = ground (arith, (Divides-flatten ps).lengths);
      counts = λ q. ground (arith, (Divides-flatten ps).counts q);
    }
    | inr (x, e) ↦ record {
      lengths = ground (arith, (Divides-flatten ps).lengths);
      counts = λ q. ground (arith, (Divides-flatten ps).counts q);
    }
  ]

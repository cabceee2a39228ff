-- ===== src/AppClient/Fetched.antt =====
-- The rows that fetch_rows_from_dht of core/src/network/p2p/client.rs gives to the app client.
use avail_light.Prelude.{
  ℕ, zero, suc, ◌<◌, ◌≡◌, refl, sym, ◌∙◌, subst, inl, inr, true, false, Option, some, none, List,
  [], ◌∷◌, ◌++◌, ◌==◌, if◌then◌else◌, arith, length, All, Bool-cases, Option-cases, Result-cases,
  ok, err,
}
use avail_light.Prelude.Sets.{contains}
use avail_light.Prelude.Chunks.{chunks, concat, concat-chunks}
use avail_light.Types.Block.{Kate}
use avail_light.AppClient.Source.{Row, AppKate, AppNode}
use avail_light.AppClient.Rows.{
  no_rows, set_row, set_rows, found_rows, fetch_row_chunks, fetch_rows_from_dht, without_rows,
}
use avail_light.AppClient.Merged.{row_at, set_row-row_at}

no_rows-row_at : (n k : ℕ) → row_at (no_rows n) k ≡ none
unfolding row_at no_rows
no_rows-row_at zero k = refl
no_rows-row_at (suc n) zero = refl
no_rows-row_at (suc n) (suc k) = no_rows-row_at n k

length-no_rows : (n : ℕ) → length (no_rows n) ≡ n
unfolding no_rows
length-no_rows zero = refl
length-no_rows (suc n) = omega (arith, length-no_rows n)

pub length-without_rows : (is : List ℕ) → length (without_rows is) ≡ length is
length-without_rows [] = refl
length-without_rows (i ∷ is) = omega (arith, length-without_rows is)

-- An assignment below the end succeeds.
set_row_within :
    (i : ℕ) (row : Row) (xs : List (Option Row))
    → i < length xs
    → (ys : List (Option Row)) × (set_row i row xs ≡ ok ys)
unfolding set_row
set_row_within i row [] h = absurd (omega arith)
set_row_within zero row (x ∷ xs) h = (some row ∷ xs, refl)
set_row_within (suc i) row (x ∷ xs) h =
    let (ys, e) = set_row_within i row xs (omega arith) in (x ∷ ys, rw e refl)

set_rows-append :
    (qs ts : List (ℕ × Row)) (xs : List (Option Row))
    → set_rows (qs ++ ts) xs ≡ elim (set_rows qs xs) [ err e ↦ err e | ok ys ↦ set_rows ts ys ]
unfolding set_rows
set_rows-append [] ts xs = refl
set_rows-append ((i, r) ∷ qs) ts xs = elim (Result-cases (set_row i r xs)) [
  | inr (e, p) ↦ ground arith
  | inl (ys, p) ↦ ground (arith, set_rows-append qs ts ys)
]

module _ {kate : Kate} (node : AppNode kate) where
  -- The entries are those of the DHT for the indexes asked for, and the others stay.
  record Filled (is : List ℕ) (xs ys : List (Option Row)) : Type 0 where
    lengths : length ys ≡ length xs
    entries :
        (k : ℕ)
        → (contains is k ≡ true → row_at xs k ≡ none → row_at ys k ≡ node.dht_row k)
          × (contains is k ≡ false → row_at ys k ≡ row_at xs k)
          × (row_at xs k ≡ node.dht_row k → row_at ys k ≡ node.dht_row k)

  found_rows-append :
      (is js : List ℕ) → found_rows node (is ++ js) ≡ found_rows node is ++ found_rows node js
  unfolding found_rows
  found_rows-append [] js = refl
  found_rows-append (i ∷ is) js = elim (Option-cases (node.dht_row i)) [
    | inl e ↦ ground (arith, found_rows-append is js)
    | inr (r, e) ↦ ground (arith, found_rows-append is js)
  ]

  fetch_row_chunks-set_rows :
      (iss : List (List ℕ)) (xs : List (Option Row))
      → fetch_row_chunks node iss xs ≡ set_rows (found_rows node (concat iss)) xs
  unfolding fetch_row_chunks set_rows found_rows concat
  fetch_row_chunks-set_rows [] xs = refl
  fetch_row_chunks-set_rows (is ∷ iss) xs =
      rw
        (
          found_rows-append is (concat iss),
          set_rows-append (found_rows node is) (found_rows node (concat iss)) xs,
        )
        (elim (Result-cases (set_rows (found_rows node is) xs)) [
          | inr (e, p) ↦ ground arith
          | inl (ys, p) ↦ ground (arith, fetch_row_chunks-set_rows iss ys)
        ])

  set_rows-Filled :
      (is : List ℕ) (xs : List (Option Row))
      → All (λ i. i < length xs) is
      → (ys : List (Option Row)) × (set_rows (found_rows node is) xs ≡ ok ys) × Filled is xs ys
  unfolding set_rows found_rows
  set_rows-Filled [] xs h = (
    xs,
    refl,
    record { lengths = refl; entries = λ k. ((λ a b. ground arith), (λ a. refl), (λ a. a)) },
  )
  set_rows-Filled (i ∷ is) xs h = elim (Option-cases (node.dht_row i)) [
    | inl e ↦
        let (ys, p, w) = set_rows-Filled is xs h.1 in
        (
          ys,
          ground arith,
          record {
            lengths = w.lengths;
            entries = λ k.
                let (a, b, c) = w.entries k in
                (
                  (λ m q. elim (Bool-cases (i == k)) [
                    | inl t ↦ c (ground arith)
                    | inr t ↦ a (ground arith) q
                  ]),
                  (λ m. b (ground arith)),
                  c,
                );
          },
        )
    | inr (r, e) ↦
        let (zs, q) = set_row_within i r xs h.0 in
        let l = (set_row-row_at i 0 r xs zs q).1 in
        let (ys, p, w) = set_rows-Filled is zs (subst (λ n. All (λ j. j < n) is) (sym l) h.1) in
        (
          ys,
          ground arith,
          record {
            lengths = w.lengths ∙ l;
            entries = λ k.
                let (a, b, c) = w.entries k in
                (
                  (λ m s. elim (Bool-cases (i == k)) [
                    | inl t ↦ c (ground (arith, set_row-row_at i k r xs zs q))
                    | inr t ↦ a (ground arith) (ground (arith, set_row-row_at i k r xs zs q))
                  ]),
                  (λ m. ground (arith, set_row-row_at i k r xs zs q, b)),
                  (λ s. elim (Bool-cases (i == k)) [
                    | inl t ↦ c (ground (arith, set_row-row_at i k r xs zs q))
                    | inr t ↦ c (ground (arith, set_row-row_at i k r xs zs q))
                  ]),
                );
          },
        )
  ]

  -- With a p2p client that fetches some rows at a time, and for indexes of rows of the matrix, the
  -- fetch succeeds, and whatever the size of the chunks its list has an entry for each row of the
  -- matrix: what the DHT has for the row if it was asked for, and nothing otherwise.
  pub fetch_rows_from_dht_entries :
      (app : AppKate kate) (dimensions : kate.Dimensions) (limit : ℕ) (is : List ℕ)
      → node.net.p2p_available ≡ true
      → node.net.dht_parallelization_limit ≡ suc limit
      → All (λ i. i < app.extended_rows dimensions) is
      → (rows : List (Option Row)) × (fetch_rows_from_dht node app dimensions is ≡ ok rows)
        × (length rows ≡ app.extended_rows dimensions)
        × ((k : ℕ) → row_at rows k ≡ (if contains is k then node.dht_row k else none))
  unfolding fetch_rows_from_dht
  fetch_rows_from_dht_entries app dimensions limit is a l h =
      let n = app.extended_rows dimensions in
      let (ys, p, w) =
        set_rows-Filled is (no_rows n)
          (subst (λ m. All (λ i. i < m) is) (sym (length-no_rows n)) h) in
      (
        ys,
        ground (
          arith,
          fetch_row_chunks-set_rows (chunks (suc limit) is) (no_rows n),
          concat-chunks limit is,
        ),
        w.lengths ∙ length-no_rows n,
        λ k. elim (Bool-cases (contains is k)) [
          | inl b ↦ ground (arith, (w.entries k).0, no_rows-row_at n k)
          | inr b ↦ ground (arith, (w.entries k).1, no_rows-row_at n k)
        ],
      )

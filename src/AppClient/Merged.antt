-- ===== src/AppClient/Merged.antt =====
-- Which row of core/src/app_client.rs is used for an index, if both the DHT and a node have one.
use avail_light.Prelude.{
  ℕ, zero, suc, ◌+◌, ◌≤◌, ◌<◌, ◌≡◌, ◌↔◌, ◌⊎◌, refl, inl, inr, true, Option, some, none, List, [],
  ◌∷◌, ◌++◌, if◌then◌else◌, arith, length, get_elem?, In, Bool-cases, Option-cases, Result-cases,
  ok, ltb, ◌&&◌, ◌==◌,
}
use avail_light.Prelude.Sets.{contains, contains-append}
use avail_light.AppClient.Source.{Row}
use avail_light.AppClient.Rows.{merge_row, merge_rows, set_row, set_rows}

-- The row with an index, none beyond the end.
unfoldable pub row_at : List (Option Row) → ℕ → Option Row
row_at rows k = elim (get_elem? rows k) [ none ↦ none | some r ↦ r ]

-- The entry of the merged rows at an index below the end is made of the entries of both lists.
merge_rows-row_at :
    (verified : List ℕ) (i n k : ℕ) (ds rs : List (Option Row))
    → k < n
    → k < length ds
    → k < length rs
    → row_at (merge_rows verified i n ds rs) k
      ≡ merge_row (contains verified (i + k)) (row_at ds k) (row_at rs k)
unfolding row_at merge_rows
merge_rows-row_at verified i zero k ds rs h hd hr = ground arith
merge_rows-row_at verified i (suc n) k [] rs h hd hr = ground arith
merge_rows-row_at verified i (suc n) k (d ∷ ds) [] h hd hr = ground arith
merge_rows-row_at verified i (suc n) zero (d ∷ ds) (r ∷ rs) h hd hr =
    let e : i + 0 ≡ i = omega arith in rw e refl
merge_rows-row_at verified i (suc n) (suc k) (d ∷ ds) (r ∷ rs) h hd hr =
    let e : i + suc k ≡ i + 1 + k = omega arith in
    rw e (merge_rows-row_at verified (i + 1) n k ds rs (omega arith) (omega arith) (omega arith))

-- Beyond the end of one of the lists there is no row.
pub merge_rows_beyond :
    (verified : List ℕ) (i n k : ℕ) (ds rs : List (Option Row))
    → (n ≤ k) ⊎ ((length ds ≤ k) ⊎ (length rs ≤ k))
    → row_at (merge_rows verified i n ds rs) k ≡ none
unfolding row_at merge_rows
merge_rows_beyond verified i zero k ds rs h = refl
merge_rows_beyond verified i (suc n) k [] rs h = refl
merge_rows_beyond verified i (suc n) k (d ∷ ds) [] h = refl
merge_rows_beyond verified i (suc n) zero (d ∷ ds) (r ∷ rs) h = ground arith
merge_rows_beyond verified i (suc n) (suc k) (d ∷ ds) (r ∷ rs) h =
    merge_rows_beyond verified (i + 1) n k ds rs (elim h [
      | inl a ↦ inl (omega arith)
      | inr (inl a) ↦ inr (inl (omega arith))
      | inr (inr a) ↦ inr (inr (omega arith))
    ])

-- A row of the merged list is the DHT's, or the node's where the DHT has none, and its index was
-- verified in one of the two lists.
pub merge_rows-sources :
    (verified : List ℕ) (n k : ℕ) (ds rs : List (Option Row)) (row : Row)
    → row_at (merge_rows verified 0 n ds rs) k ≡ some row
    → (contains verified k ≡ true)
      × ((row_at ds k ≡ some row) ⊎ ((row_at ds k ≡ none) × (row_at rs k ≡ some row)))
unfolding merge_row
merge_rows-sources verified n k ds rs row h =
    elim (Bool-cases (ltb k n && (ltb k (length ds) && ltb k (length rs)))) [
      | inr e ↦ ground (arith, merge_rows_beyond verified 0 n k ds rs)
      | inl e ↦
          let f =
            merge_rows-row_at verified 0 n k ds rs (ground arith) (ground arith) (ground arith) in
          elim (Option-cases (row_at ds k)) [
            | inr (d, p) ↦ elim (Bool-cases (contains verified k)) [
              | inl b ↦ (b, inl (ground (arith, f)))
              | inr b ↦ ground (arith, f)
            ]
            | inl p ↦ elim (Option-cases (row_at rs k)) [
              | inl q ↦ ground (arith, f)
              | inr (r, q) ↦ elim (Bool-cases (contains verified k)) [
                | inl b ↦ (b, inr (p, ground (arith, f)))
                | inr b ↦ ground (arith, f)
              ]
            ]
          ]
    ]

-- A row that the DHT has for an index of both lists is used exactly if the index was verified among
-- the DHT's rows or among the node's: the DHT's row is used also where only the node's was verified.
pub merge_rows-either :
    (dht_verified rpc_verified : List ℕ) (n k : ℕ) (ds rs : List (Option Row)) (row : Row)
    → k < n
    → k < length ds
    → k < length rs
    → row_at ds k ≡ some row
    → (row_at (merge_rows (dht_verified ++ rpc_verified) 0 n ds rs) k ≡ some row)
      ↔ ((contains dht_verified k ≡ true) ⊎ (contains rpc_verified k ≡ true))
unfolding merge_row
merge_rows-either dv rv n k ds rs row h hd hr e =
    let f = merge_rows-row_at (dv ++ rv) 0 n k ds rs h hd hr in
    let c = contains-append dv rv k in
    elim (Bool-cases (contains dv k)) [
      | inl a ↦ ((λ p. inl a), (λ p. ground (arith, f, c)))
      | inr a ↦ elim (Bool-cases (contains rv k)) [
        | inl b ↦ ((λ p. inr b), (λ p. ground (arith, f, c)))
        | inr b ↦ ((λ p. ground (arith, f, c)), (λ p. ground (arith, f, c)))
      ]
    ]

pub set_row-row_at :
    (i k : ℕ) (row : Row) (xs ys : List (Option Row))
    → set_row i row xs ≡ ok ys
    → (row_at ys k ≡ (if i == k then some row else row_at xs k))
      × (length ys ≡ length xs)
      × (i < length xs)
unfolding set_row row_at
set_row-row_at i k row [] ys h = ground arith
set_row-row_at zero zero row (x ∷ xs) ys h = (ground arith, ground arith, ground arith)
set_row-row_at zero (suc k) row (x ∷ xs) ys h = (ground arith, ground arith, ground arith)
set_row-row_at (suc i) zero row (x ∷ xs) ys h = elim (Result-cases (set_row i row xs)) [
  | inr (e, p) ↦ ground arith
  | inl (zs, p) ↦
      let w = set_row-row_at i 0 row xs zs p in
      (ground arith, ground (arith, w.1), ground (arith, w.1))
]
set_row-row_at (suc i) (suc k) row (x ∷ xs) ys h = elim (Result-cases (set_row i row xs)) [
  | inr (e, p) ↦ ground arith
  | inl (zs, p) ↦
      let w = set_row-row_at i k row xs zs p in
      (ground (arith, w.0), ground (arith, w.1), ground (arith, w.1))
]

-- A row after the assignments is one of those assigned, or was there before.
pub set_rows-sources :
    (rows : List (ℕ × Row)) (xs ys : List (Option Row)) (k : ℕ) (row : Row)
    → set_rows rows xs ≡ ok ys
    → row_at ys k ≡ some row
    → In (k, row) rows ⊎ (row_at xs k ≡ some row)
unfolding set_rows
set_rows-sources [] xs ys k row h e = inr (ground arith)
set_rows-sources ((i, r) ∷ rows) xs ys k row h e = elim (Result-cases (set_row i r xs)) [
  | inr (x, p) ↦ ground arith
  | inl (zs, p) ↦ elim (set_rows-sources rows zs ys k row (ground arith) e) [
    | inl m ↦ inl (inr m)
    | inr q ↦ elim (Bool-cases (i == k)) [
      | inl b ↦ inl (inl (ground (arith, set_row-row_at i k r xs zs p)))
      | inr b ↦ inr (ground (arith, set_row-row_at i k r xs zs p))
    ]
  ]
]

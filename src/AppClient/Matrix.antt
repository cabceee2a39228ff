-- ===== src/AppClient/Matrix.antt =====
-- The data cells that core/src/app_client.rs cuts out of rows.
use avail_light.Prelude.{
  ℕ, zero, suc, ◌+◌, ◌*◌, ◌<◌, ◌≡◌, refl, ap, ◌∙◌, sym, subst, ltb, ◌&&◌, ◌^◌, inl, inr, Option,
  some, none, List, [], ◌∷◌, ◌++◌, ◌==◌, if◌then◌else◌, arith, length, append_assoc, append-nil,
  All, retain, Bool-cases, Result-cases, ok,
}
use avail_light.Prelude.Chunks.{chunks, concat, concat-chunks, chunks_full}
use avail_light.AppClient.Source.{Row, DataCell}
use avail_light.AppClient.Merged.{row_at}
use avail_light.AppClient.Cells.{
  new_data_cell, chunk_size, as_chunks, data_cells_from, data_cells_from_row, enumerated_cells,
  data_cells_from_rows, row_data,
}

-- The contents of the cells, one after the other.
unfoldable pub contents : List DataCell → Row
contents [] = []
contents (x ∷ xs) = x.content ++ contents xs

-- The rows that there are, one after the other.
unfoldable pub present : List (Option Row) → Row
present [] = []
present (none ∷ rows) = present rows
present (some row ∷ rows) = row ++ present rows

contents-append : (xs ys : List DataCell) → contents (xs ++ ys) ≡ contents xs ++ contents ys
unfolding contents
contents-append [] ys = refl
contents-append (x ∷ xs) ys =
    ap (λ r. x.content ++ r) (contents-append xs ys)
    ∙ sym (append_assoc x.content (contents xs) (contents ys))

-- The row is made of full chunks only.
unfoldable pub IsFull : Option Row → Type 0
IsFull none = Unit
IsFull (some row) = All (λ c. length c ≡ chunk_size) (chunks chunk_size row)

retain_full :
    (cs : List (List ℕ))
    → All (λ c. length c ≡ chunk_size) cs
    → retain (λ c. length c == chunk_size) cs ≡ cs
retain_full [] h = refl
retain_full (c ∷ cs) h = ground (arith, retain_full cs h.1)

new_data_cell-content :
    (row col : ℕ) (c : List ℕ) (x : DataCell)
    → new_data_cell row col c ≡ ok x
    → (x.content ≡ c) × (x.position.row ≡ row)
unfolding new_data_cell
new_data_cell-content row col c x h = elim (Bool-cases (ltb row (2 ^ 32) && ltb col (2 ^ 16))) [
  | inl e ↦ (ground arith, ground arith)
  | inr e ↦ ground arith
]

data_cells_from-contents :
    (row col : ℕ) (cs : List (List ℕ)) (xs : List DataCell)
    → data_cells_from row col cs ≡ ok xs
    → (contents xs ≡ concat cs) × All (λ x. x.position.row ≡ row) xs
unfolding data_cells_from new_data_cell contents concat
data_cells_from-contents row col [] [] h = (refl, tt)
data_cells_from-contents row col [] (x ∷ xs) h = ground arith
data_cells_from-contents row col (c ∷ cs) xs h =
    elim (Result-cases (data_cells_from row (col + 1) cs)) [
      | inr (e, p) ↦ elim (Result-cases (new_data_cell row col c)) [
        | inr (x, q) ↦ ground arith
        | inl (x, q) ↦ ground arith
      ]
      | inl (ys, p) ↦ elim (Result-cases (new_data_cell row col c)) [
        | inr (x, q) ↦ ground arith
        | inl (x, q) ↦
            let (a, b) = data_cells_from-contents row (col + 1) cs ys p in
            let (d, e) = new_data_cell-content row col c x q in
            let f : xs ≡ x ∷ ys = ground arith in
            subst (λ zs. (contents zs ≡ c ++ concat cs) × All (λ z. z.position.row ≡ row) zs)
              (sym f) (rw (d, a) refl, (e, b))
      ]
    ]

row_data-append :
    (k : ℕ) (xs ys : List DataCell) → row_data k (xs ++ ys) ≡ row_data k xs ++ row_data k ys
unfolding row_data
row_data-append k [] ys = refl
row_data-append k (x ∷ xs) ys = elim (Bool-cases (x.position.row == k)) [
  | inl e ↦
      ground
        (arith, row_data-append k xs ys, append_assoc x.content (row_data k xs) (row_data k ys))
  | inr e ↦ ground (arith, row_data-append k xs ys)
]

row_data-contents :
    (j k : ℕ) (xs : List DataCell)
    → All (λ x. x.position.row ≡ j) xs
    → row_data k xs ≡ (if j == k then contents xs else [])
unfolding row_data contents
row_data-contents j k [] h = ground arith
row_data-contents j k (x ∷ xs) h = ground (arith, row_data-contents j k xs h.1)

abbrev pub or_empty : Option Row → Row
or_empty none = []
or_empty (some row) = row

-- The length of a row is a multiple of the size of a cell.
abbrev pub IsAligned : Option Row → Type 0
IsAligned none = Unit
IsAligned (some row) = (k : ℕ) × (length row ≡ k * chunk_size)

data_cells_from_row-contents :
    (i : ℕ) (row : Row) (xs : List DataCell)
    → IsAligned (some row)
    → data_cells_from_row i row ≡ ok xs
    → (contents xs ≡ row) × All (λ x. x.position.row ≡ i) xs
unfolding data_cells_from_row as_chunks
data_cells_from_row-contents i row xs (k, l) h =
    let (a, b) = data_cells_from-contents i 0 (as_chunks row) xs h in
    (
      a
          ∙ ap concat (retain_full (chunks chunk_size row) (chunks_full 31 k row l))
          ∙ concat-chunks 31 row,
      b,
    )

enumerated_cells_below :
    (i j : ℕ) (rows : List (Option Row)) (xs : List DataCell)
    → All IsAligned rows
    → enumerated_cells i rows ≡ ok xs
    → j < i
    → row_data j xs ≡ []
unfolding enumerated_cells row_data
enumerated_cells_below i j [] [] v h l = refl
enumerated_cells_below i j [] (x ∷ xs) v h l = ground arith
enumerated_cells_below i j (none ∷ rows) xs v h l =
    enumerated_cells_below (i + 1) j rows xs v.1 h (omega (arith, l))
enumerated_cells_below i j (some row ∷ rows) xs v h l =
    elim (Result-cases (data_cells_from_row i row)) [
      | inr (x, e) ↦ ground arith
      | inl (ys, e) ↦ elim (Result-cases (enumerated_cells (i + 1) rows)) [
        | inr (x, f) ↦ ground arith
        | inl (zs, f) ↦
            let (a, b) = data_cells_from_row-contents i row ys v.0 e in
            ground (
              arith,
              row_data-append j ys zs,
              row_data-contents i j ys b,
              enumerated_cells_below (i + 1) j rows zs v.1 f (omega (arith, l)),
            )
      ]
    ]

enumerated_cells-row_data :
    (i k j : ℕ) (rows : List (Option Row)) (xs : List DataCell)
    → All IsAligned rows
    → enumerated_cells i rows ≡ ok xs
    → j ≡ i + k
    → row_data j xs ≡ or_empty (row_at rows k)
unfolding enumerated_cells row_data row_at
enumerated_cells-row_data i k j [] [] v h l = refl
enumerated_cells-row_data i k j [] (x ∷ xs) v h l = ground arith
enumerated_cells-row_data i zero j (none ∷ rows) xs v h l =
    enumerated_cells_below (i + 1) j rows xs v.1 h (omega (arith, l))
enumerated_cells-row_data i (suc k) j (none ∷ rows) xs v h l =
    enumerated_cells-row_data (i + 1) k j rows xs v.1 h (omega (arith, l))
enumerated_cells-row_data i zero j (some row ∷ rows) xs v h l =
    elim (Result-cases (data_cells_from_row i row)) [
      | inr (x, e) ↦ ground arith
      | inl (ys, e) ↦ elim (Result-cases (enumerated_cells (i + 1) rows)) [
        | inr (x, f) ↦ ground arith
        | inl (zs, f) ↦
            let (a, b) = data_cells_from_row-contents i row ys v.0 e in
            ground (
              arith,
              row_data-append j ys zs,
              row_data-contents i j ys b,
              enumerated_cells_below (i + 1) j rows zs v.1 f (omega (arith, l)),
              append-nil row,
            )
      ]
    ]
enumerated_cells-row_data i (suc k) j (some row ∷ rows) xs v h l =
    elim (Result-cases (data_cells_from_row i row)) [
      | inr (x, e) ↦ ground arith
      | inl (ys, e) ↦ elim (Result-cases (enumerated_cells (i + 1) rows)) [
        | inr (x, f) ↦ ground arith
        | inl (zs, f) ↦
            let (a, b) = data_cells_from_row-contents i row ys v.0 e in
            ground (
              arith,
              row_data-append j ys zs,
              row_data-contents i j ys b,
              enumerated_cells-row_data (i + 1) k j rows zs v.1 f (omega (arith, l)),
            )
      ]
    ]

-- The cells cut out of rows whose lengths are multiples of the size of a cell have, taken together
-- for an index, the bytes of the row with that index again, and none for an index without a row.
pub data_cells_from_rows-row_data :
    (k : ℕ) (rows : List (Option Row)) (xs : List DataCell)
    → All IsAligned rows
    → data_cells_from_rows rows ≡ ok xs
    → row_data k xs ≡ or_empty (row_at rows k)
unfolding data_cells_from_rows
data_cells_from_rows-row_data k rows xs v h =
    enumerated_cells-row_data 0 k k rows xs v h (omega arith)

-- ===== src/Rpc/Cells.antt =====
-- The sample of core/src/network/rpc.rs: distinct cells of the matrix, as many as are needed.
use avail_light.Prelude.{
  ℕ, zero, suc, ◌+◌, ◌≤◌, ◌<◌, ◌≡◌, ◌↔◌, subst, inl, inr, Bool, false, some, none, List, [], ltb,
  length, min, arith, Bool-cases, All,
}
use avail_light.Types.Block.{Position}
use avail_light.Network.Positions.{contains_position, Distinct}
use avail_light.Rpc.{
  Grid, Draws, insert_position, draw_position, fill, capped_count, generate_random_cells,
  cell_count_for_confidence,
}

abbrev pub InGrid : Grid → Position → Type 0
InGrid grid p = (p.row < grid.extended_rows) × (p.col < grid.cols)

-- The documented behaviour of `gen_range`: the number is below the bound.
abbrev pub IsInRange : Draws → Type 0
IsInRange draws = (i bound : ℕ) → 0 < bound → draws i bound < bound

insert-Distinct :
    (p : Position) (ps : List Position) → Distinct ps → Distinct (insert_position p ps)
unfolding insert_position
insert-Distinct p ps d = elim (Bool-cases (contains_position ps p)) [
  | inl e ↦ rw e d
  | inr e ↦ rw e (e, d)
]

insert-All :
    (grid : Grid) (p : Position) (ps : List Position)
    → InGrid grid p
    → All (InGrid grid) ps
    → All (InGrid grid) (insert_position p ps)
unfolding insert_position
insert-All grid p ps g a = elim (Bool-cases (contains_position ps p)) [
  | inl e ↦ rw e a
  | inr e ↦ rw e (g, a)
]

length-insert_position-le :
    (p : Position) (ps : List Position) → length (insert_position p ps) ≤ suc (length ps)
unfolding insert_position
length-insert_position-le p ps = ground arith

le-length-insert_position :
    (p : Position) (ps : List Position) → length ps ≤ length (insert_position p ps)
unfolding insert_position
le-length-insert_position p ps = ground arith

module _ (grid : Grid) (draws : Draws) where
  -- A sample of the given size.
  pub record Sampled (count : ℕ) (ps : List Position) : Type 0 where
    pub size : length ps ≡ count
    pub distinct : Distinct ps
    pub inside : All (InGrid grid) ps

  stopped-Sampled :
      (count : ℕ) (indices ps : List Position)
      → length indices ≤ count
      → ltb (length indices) count ≡ false
      → Distinct indices
      → All (InGrid grid) indices
      → indices ≡ ps
      → Sampled count ps
  stopped-Sampled count indices ps l e d a h =
      subst (λ qs. Sampled count qs) h (record { size = ground arith; distinct = d; inside = a })

  fill-Sampled :
      (count rounds i : ℕ) (indices ps : List Position)
      → IsInRange draws
      → 0 < grid.extended_rows
      → 0 < grid.cols
      → length indices ≤ count
      → Distinct indices
      → All (InGrid grid) indices
      → fill grid draws count rounds i indices ≡ some ps
      → Sampled count ps
  unfolding fill
  fill-Sampled count zero i indices ps r x y l d a h =
      elim (Bool-cases (ltb (length indices) count)) [
        | inl e ↦ ground arith
        | inr e ↦ stopped-Sampled count indices ps l e d a (ground arith)
      ]
  fill-Sampled count (suc rounds) i indices ps r x y l d a h =
      elim (Bool-cases (ltb (length indices) count)) [
        | inl e ↦
            fill-Sampled count rounds (i + 2) (insert_position (draw_position grid draws i) indices)
              ps r x y
              (ground (arith, length-insert_position-le (draw_position grid draws i) indices))
              (insert-Distinct (draw_position grid draws i) indices d)
              (insert-All grid (draw_position grid draws i) indices
                (r (i + 1) grid.extended_rows x, r i grid.cols y) a)
              (ground arith)
        | inr e ↦ stopped-Sampled count indices ps l e d a (ground arith)
      ]

  capped_count-min : (n : ℕ) → capped_count grid n ≡ min n grid.extended_size
  unfolding capped_count
  capped_count-min n = ground arith

  -- A sample that is generated has as many cells as were asked for, or all cells of the matrix if
  -- they are fewer; no cell occurs twice, and all lie in the extended matrix.
  pub generate_random_cells-Sampled :
      (cell_count rounds : ℕ) (ps : List Position)
      → IsInRange draws
      → 0 < grid.extended_rows
      → 0 < grid.cols
      → generate_random_cells grid cell_count draws rounds ≡ some ps
      → Sampled (min cell_count grid.extended_size) ps
  unfolding generate_random_cells
  generate_random_cells-Sampled cell_count rounds ps r x y h =
      subst (λ n. Sampled n ps) (capped_count-min cell_count)
        (fill-Sampled (capped_count grid cell_count) rounds 0 [] ps r x y (omega arith) tt tt h)

  -- The cells drawn in a number of rounds, without a limit on their number.
  unfoldable pub collected : ℕ → ℕ → List Position → List Position
  collected zero i indices = indices
  collected (suc rounds) i indices =
      collected rounds (i + 2) (insert_position (draw_position grid draws i) indices)

  length-collected :
      (rounds i : ℕ) (indices : List Position)
      → length indices ≤ length (collected rounds i indices)
  unfolding collected
  length-collected zero i indices = omega arith
  length-collected (suc rounds) i indices = omega (
    arith,
    length-collected rounds (i + 2) (insert_position (draw_position grid draws i) indices),
    le-length-insert_position (draw_position grid draws i) indices,
  )

  fill_ends :
      (count rounds i : ℕ) (indices : List Position)
      → (fill grid draws count rounds i indices ≡ none)
        ↔ (length (collected rounds i indices) < count)
  unfolding fill collected
  fill_ends count zero i indices = ((λ h. ground arith), λ h. ground arith)
  fill_ends count (suc rounds) i indices = elim (Bool-cases (ltb (length indices) count)) [
    | inl e ↦ (
      (λ h. ground (
        arith,
        fill_ends count rounds (i + 2) (insert_position (draw_position grid draws i) indices),
      )),
      λ h. ground (
        arith,
        fill_ends count rounds (i + 2) (insert_position (draw_position grid draws i) indices),
      ),
    )
    | inr e ↦ (
      (λ h. ground arith),
      λ h. ground (
        arith,
        length-collected rounds (i + 2) (insert_position (draw_position grid draws i) indices),
        le-length-insert_position (draw_position grid draws i) indices,
      ),
    )
  ]

  -- The loop ends within a number of rounds exactly if as many distinct cells as are needed are drawn
  -- in them.
  pub generate_random_cells_ends :
      (cell_count rounds : ℕ)
      → (generate_random_cells grid cell_count draws rounds ≡ none)
        ↔ (length (collected rounds 0 []) < min cell_count grid.extended_size)
  unfolding generate_random_cells
  generate_random_cells_ends cell_count rounds =
      subst
        (λ n.
          (generate_random_cells grid cell_count draws rounds ≡ none)
          ↔ (length (collected rounds 0 []) < n))
        (capped_count-min cell_count) (fill_ends (capped_count grid cell_count) rounds 0 [])

-- Between one and fourteen cells are sampled, whatever the confidence.
pub cell_count_for_confidence_bounds :
    {F : Type 0} (is_valid : F → Bool) (halvings : F → ℕ) (default confidence : F)
    → (1 ≤ cell_count_for_confidence is_valid halvings default confidence)
      × (cell_count_for_confidence is_valid halvings default confidence ≤ 14)
unfolding cell_count_for_confidence
cell_count_for_confidence_bounds is_valid halvings default confidence = (ground arith, ground arith)

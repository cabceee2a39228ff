-- ===== src/Rpc.antt =====
-- core/src/network/rpc.rs: how many cells are sampled, and which. The random numbers are a stream,
-- and the loop runs on as many rounds as are given.
pub mod Cells
mod Examples
use avail_light.Prelude.{
  ℕ, zero, suc, ◌+◌, Bool, true, Option, some, none, List, [], ◌∷◌, if◌then◌else◌, leb, ltb, length,
}
use avail_light.Types.Block.{Position}
use avail_light.Network.Positions.{contains_position}

-- `Dimensions` of kate-recovery, extended: its number of cells, of rows and of columns.
pub record Grid : Type 0 where
  pub extended_size : ℕ
  pub extended_rows : ℕ
  pub cols : ℕ

-- `rng.gen_range(0..bound)` at each draw.
abbrev pub Draws : Type 0
Draws = ℕ → ℕ → ℕ

-- `HashSet::insert`, the order of the set being of no account.
unfoldable pub insert_position : Position → List Position → List Position
insert_position p indices = if contains_position indices p then indices else p ∷ indices

-- The column is drawn first.
unfoldable pub draw_position : Grid → Draws → ℕ → Position
draw_position grid draws i = record {
  col = draws i grid.cols;
  row = draws (i + 1) grid.extended_rows;
}

-- The `while` loop; `none` if the rounds do not suffice.
unfoldable pub fill : Grid → Draws → ℕ → ℕ → ℕ → List Position → Option (List Position)
unfolding insert_position draw_position
fill grid draws count zero i indices = if ltb (length indices) count then none else some indices
fill grid draws count (suc rounds) i indices =
    let rest =
      fill grid draws count rounds (i + 2) (insert_position (draw_position grid draws i) indices) in
    if ltb (length indices) count then rest else some indices

unfoldable pub capped_count : Grid → ℕ → ℕ
capped_count grid cell_count =
    let max_cells = grid.extended_size in if ltb max_cells cell_count then max_cells else cell_count

unfoldable pub generate_random_cells : Grid → ℕ → Draws → ℕ → Option (List Position)
unfolding capped_count fill
generate_random_cells grid cell_count draws rounds =
    fill grid draws (capped_count grid cell_count) rounds 0 []

-- `CELL_COUNT_99_99`
abbrev pub cell_count_99_99 : ℕ
cell_count_99_99 = 14

-- `cell_count_for_confidence`: whether the confidence lies between 50 and 100, and the logarithm
-- rounded up and cast to 32 bits, are the arithmetic of f64, of which 99.3 is the default.
unfoldable pub cell_count_for_confidence : {F : Type 0} → (F → Bool) → (F → ℕ) → F → F → ℕ
cell_count_for_confidence is_valid halvings default confidence =
    let cell_count = if is_valid confidence then halvings confidence else halvings default in
    if leb cell_count 1
    then 1
    else if ltb cell_count_99_99 cell_count
    then cell_count_99_99
    else cell_count

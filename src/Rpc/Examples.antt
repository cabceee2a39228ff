-- ===== src/Rpc/Examples.antt =====
-- A matrix of four extended rows and two columns, of which three cells are drawn.
use avail_light.Prelude.{◌/◌, refl, arith, List, [], ◌∷◌, min, leb, if◌then◌else◌}
use avail_light.Types.Block.{Position}
use avail_light.Types.Samples.{at}
use avail_light.Network.Positions.{contains_position}
use avail_light.Rpc.{
  Grid, Draws, insert_position, draw_position, fill, capped_count, generate_random_cells,
}
use avail_light.Rpc.Cells.{IsInRange, Sampled, generate_random_cells-Sampled}

abbrev grid : Grid
grid = record { extended_size = 8; extended_rows = 4; cols = 2 }

abbrev draws : Draws
draws i bound = if leb bound (i / 2) then 0 else i / 2

draws-IsInRange : IsInRange draws
draws-IsInRange i bound h = ground arith

abbrev sampled : List Position
sampled = at 2 0 ∷ at 1 1 ∷ at 0 0 ∷ []

generate_random_cells-Sampled_example : Sampled grid draws (min 3 8) sampled
unfolding generate_random_cells fill insert_position draw_position capped_count contains_position
generate_random_cells-Sampled_example =
    generate_random_cells-Sampled grid draws 3 5 sampled draws-IsInRange (omega arith) (omega arith)
      refl

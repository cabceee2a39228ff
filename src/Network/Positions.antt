-- ===== src/Network/Positions.antt =====
-- Positions of cells as sets: membership and absence of repetition.
use avail_light.Prelude.{◌≡◌, refl, Bool, true, false, ◌&&◌, ◌||◌, List, [], ◌∷◌, ◌==◌, arith}
use avail_light.Types.Block.{Position}

unfoldable pub same_position : Position → Position → Bool
same_position p q = p.row == q.row && p.col == q.col

-- `verified.contains(&position)`
unfoldable pub contains_position : List Position → Position → Bool
unfolding same_position
contains_position [] q = false
contains_position (p ∷ ps) q = same_position p q || contains_position ps q

-- No position occurs twice.
abbrev pub Distinct : List Position → Type 0
Distinct [] = Unit {0}
Distinct (p ∷ ps) = (contains_position ps p ≡ false) × Distinct ps

pub same_position_refl : (p : Position) → same_position p p ≡ true
unfolding same_position
same_position_refl p = ground arith

pub same_position_sym : (p q : Position) → same_position p q ≡ same_position q p
unfolding same_position
same_position_sym p q = ground arith

-- A position that equals a missing one is missing.
pub contains_position-same :
    (ps : List Position) (p q : Position)
    → same_position p q ≡ true
    → contains_position ps p ≡ contains_position ps q
unfolding same_position contains_position
contains_position-same [] p q h = refl
contains_position-same (r ∷ ps) p q h = ground (arith, contains_position-same ps p q)

-- ===== src/Types/Samples.antt =====
-- Concrete stand-ins for the libraries, and a header, for tests: a matrix is its pair of sizes, a
-- commitment is a number, and a confidence is rounded down to a percentage.
use avail_light.Prelude.{ℕ, ◌-◌, ◌*◌, ◌/◌, ◌||◌, ◌==◌, if◌then◌else◌, some, none, [], ◌∷◌}
use avail_light.Types.Header.{AvailHeader}
use avail_light.Types.Block.{Kate, Position}

abbrev pub numeric : Kate
numeric = record {
  Dimensions = ℕ × ℕ;
  Lookup = ℕ;
  Commitment = ℕ;
  Float = ℕ;
  new_dimensions = λ rows cols. if rows == 0 || cols == 0 then none else some (rows, cols);
  cols = λ d. d.1;
  try_lookup = λ c. some c.size;
  is_empty = λ l. l == 0;
  from_slice = λ xs. some xs;
  header_hash = λ h. h.number;
  hundred_less_part = λ d. 100 * (d - 1) / d;
}

abbrev pub at : ℕ → ℕ → Position
at row col = record { row = row; col = col }

-- A block with data in two rows of four columns, the commitments of its rows being 11 and 12.
abbrev pub full_header : ℕ → AvailHeader
full_header number = record {
  parent_hash = number - 1;
  number = number;
  logs = [];
  extension = record {
    app_lookup = record { size = 2; index = [] };
    commitment = record { rows = 2; cols = 4; data_root = 0; commitment = 11 ∷ 12 ∷ [] };
  };
}

-- A block without data.
abbrev pub bare_header : ℕ → AvailHeader
bare_header number = record {
  parent_hash = number - 1;
  number = number;
  logs = [];
  extension = record {
    app_lookup = record { size = 0; index = [] };
    commitment = record { rows = 0; cols = 0; data_root = 0; commitment = [] };
  };
}

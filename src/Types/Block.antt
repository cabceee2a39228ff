-- ===== src/Types/Block.antt =====
-- core/src/types.rs, utils.rs: block ranges, and the block that the clients hand on after its
-- verification. The matrix of a block, its commitments and the lookup of applications belong to
-- libraries, and so does the arithmetic of f64; they are parameters.
use avail_light.Prelude.{
  ℕ, ◌-◌, ◌^◌, ◌%◌, Bool, ◌&&◌, Option, some, none, List, leb, ltb, ◌==◌, if◌then◌else◌, Result, ok,
  err,
}
use avail_light.Types.Header.{H256, AvailHeader, HeaderExtension, CompactDataLookup}

pub record BlockRange : Type 0 where
  pub first : ℕ
  pub last : ℕ

unfoldable pub init : ℕ → BlockRange
init last = record { first = last; last = last }

unfoldable pub in_range : ℕ → BlockRange → Bool
in_range block_number r = leb r.first block_number && leb block_number r.last

-- `Delay::sleep_duration`, of the time that has passed: `checked_sub`, then `is_zero`.
unfoldable pub sleep_duration : Option ℕ → ℕ → Option ℕ
sleep_duration none elapsed = none
sleep_duration (some delay) elapsed =
    if ltb delay elapsed
    then none
    else if delay - elapsed == 0
    then none
    else some (delay - elapsed)

-- `METRICS_FLUSH_INTERVAL`
unfoldable pub is_flush_cycle : ℕ → Bool
is_flush_cycle block_number = block_number % 5 == 0

pub record Position : Type 0 where
  pub row : ℕ
  pub col : ℕ

-- What the crates kate-recovery, avail-core and codec provide: `Dimensions::new` and `cols`,
-- `DataLookup::try_from` and `is_empty`, `commitments::from_slice`, the hash of a header; and f64.
pub record Kate : Type 1 where
  pub Dimensions : Type 0
  pub Lookup : Type 0
  pub Commitment : Type 0
  pub Float : Type 0
  pub new_dimensions : ℕ → ℕ → Option Dimensions
  pub cols : Dimensions → ℕ
  pub try_lookup : CompactDataLookup → Option Lookup
  pub is_empty : Lookup → Bool
  pub from_slice : List ℕ → Option (List Commitment)
  pub header_hash : AvailHeader → H256
  -- `100 * (1 - 1 / d)`
  pub hundred_less_part : ℕ → Float

pub data BlockError : Type 0 where
  invalid_data_lookup invalid_dimensions invalid_commitments : BlockError

pub record Extension (kate : Kate) : Type 0 where
  pub lookup : kate.Lookup
  pub commitments : List kate.Commitment
  pub dimensions : kate.Dimensions

pub record BlockVerified (kate : Kate) : Type 0 where
  pub header_hash : H256
  pub block_num : ℕ
  pub extension : Option (Extension kate)
  pub confidence : Option kate.Float
  pub target_grid_dimensions : Option kate.Dimensions

pub data BlockProcessed (kate : Kate) : Type 0 where
  verified : BlockVerified kate → BlockProcessed kate
  skipped : ℕ → BlockProcessed kate

unfoldable pub block_num_of : {kate : Kate} → BlockProcessed kate → ℕ
block_num_of (verified b) = b.block_num
block_num_of (skipped n) = n

-- `HeaderExtension::option`
unfoldable pub option : HeaderExtension → Option HeaderExtension
option e = if ltb 0 e.app_lookup.size then some e else none

-- `(rows, cols, data_root, commitment)`
unfoldable pub extract_kate : HeaderExtension → Option (ℕ × ℕ × H256 × List ℕ)
unfolding option
extract_kate e = elim (option e) [
  | none ↦ none
  | some x ↦
      some (x.commitment.rows, x.commitment.cols, x.commitment.data_root, x.commitment.commitment)
]

module _ (kate : Kate) where
  unfoldable pub calculate_confidence : ℕ → kate.Float
  calculate_confidence count = kate.hundred_less_part (2 ^ count % 2 ^ 32)

  unfoldable pub extract_app_lookup : HeaderExtension → Result BlockError (Option kate.Lookup)
  unfolding option
  extract_app_lookup e = elim (option e) [
    | none ↦ ok none
    | some x ↦ elim (kate.try_lookup x.app_lookup) [
      | none ↦ err invalid_data_lookup
      | some lookup ↦ ok (some lookup)
    ]
  ]

  unfoldable pub with_extension :
      BlockVerified kate
      → kate.Lookup
      → kate.Dimensions
      → List ℕ
      → Result BlockError (BlockVerified kate)
  with_extension block lookup dimensions commitment =
      if kate.is_empty lookup then ok block else elim (kate.from_slice commitment) [
        | none ↦ err invalid_commitments
        | some cs ↦ ok (record block {
          extension = some (record { lookup = lookup; commitments = cs; dimensions = dimensions });
        })
      ]

  -- `BlockVerified::try_from`, without the feature `multiproof`
  unfoldable pub try_from : AvailHeader → Option kate.Float → Result BlockError (BlockVerified kate)
  unfolding extract_kate extract_app_lookup with_extension
  try_from header confidence =
      let block : BlockVerified kate = record {
        header_hash = kate.header_hash header;
        block_num = header.number;
        extension = none;
        confidence = confidence;
        target_grid_dimensions = none;
      } in
      elim (extract_kate header.extension) [
        | none ↦ ok block
        | some (rows, cols, _, commitment) ↦ elim (extract_app_lookup header.extension) [
          | err e ↦ err e
          | ok none ↦ ok block
          | ok (some lookup) ↦ elim (kate.new_dimensions rows cols) [
            | none ↦ err invalid_dimensions
            | some d ↦
                with_extension (record block { target_grid_dimensions = some d }) lookup d
                  commitment
          ]
        ]
      ]

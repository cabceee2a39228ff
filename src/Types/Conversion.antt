-- ===== src/Types/Conversion.antt =====
-- What `BlockVerified::try_from` of core/src/types.rs yields.
use avail_light.Prelude.{
  ◌≡◌, inl, inr, false, Option, some, ok, ltb, arith, Option-cases, Bool-cases,
}
use avail_light.Types.Header.{AvailHeader}
use avail_light.Types.Block.{
  Kate, Extension, BlockVerified, option, extract_kate, extract_app_lookup, with_extension,
  try_from,
}

module _ (kate : Kate) where
  pub record IsExtensionOf (header : AvailHeader) (b : BlockVerified kate) (e : Extension kate)
      : Type 0 where
    pub target : b.target_grid_dimensions ≡ some e.dimensions
    pub dimensions :
        kate.new_dimensions header.extension.commitment.rows header.extension.commitment.cols
        ≡ some e.dimensions
    pub lookup : kate.try_lookup header.extension.app_lookup ≡ some e.lookup
    pub filled : kate.is_empty e.lookup ≡ false
    pub commitments : kate.from_slice header.extension.commitment.commitment ≡ some e.commitments

  -- A header that is converted to a block with an extension gives the block the header's number and
  -- hash and the given confidence, and the extension is made of the matrix, which is also the
  -- target, of the lookup, which is not empty, and of the commitments, all read from the header.
  pub try_from_ok :
      (header : AvailHeader) (confidence : Option kate.Float) (b : BlockVerified kate)
      (e : Extension kate)
      → try_from kate header confidence ≡ ok b
      → b.extension ≡ some e
      → (b.block_num ≡ header.number)
        × (b.header_hash ≡ kate.header_hash header)
        × (b.confidence ≡ confidence)
        × IsExtensionOf header b e
  unfolding try_from extract_kate option extract_app_lookup with_extension
  try_from_ok header c b e h g = elim (Bool-cases (ltb 0 header.extension.app_lookup.size)) [
    | inr l ↦ ground arith
    | inl l ↦ elim (Option-cases (kate.try_lookup header.extension.app_lookup)) [
      | inl m ↦ ground arith
      | inr (lookup, m) ↦
          elim (Option-cases (
            kate.new_dimensions header.extension.commitment.rows
              header.extension.commitment.cols)) [
                | inl d ↦ ground arith
                | inr (dims, d) ↦ elim (Bool-cases (kate.is_empty lookup)) [
                  | inl i ↦ ground arith
                  | inr i ↦
                      elim (Option-cases (kate.from_slice header.extension.commitment.commitment)) [
                        | inl f ↦ ground arith
                        | inr (cs, f) ↦ (
                          ground arith,
                          ground arith,
                          ground arith,
                          record {
                            target = ground arith;
                            dimensions = ground arith;
                            lookup = ground arith;
                            filled = ground arith;
                            commitments = ground arith;
                          },
                        )
                      ]
                ]
              ]
    ]
  ]

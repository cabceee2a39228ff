-- ===== src/LightClient/Cases.antt =====
-- How the processing of one block in core/src/light_client.rs can end, and what each end leaves in the
-- database.
use avail_light.Prelude.{
  ℕ, ◌≡◌, ◌⊎◌, inl, inr, some, none, List, leb, ltb, length, ok, err, arith, Bool-cases,
  Option-cases, Result-cases,
}
use avail_light.Prelude.Assoc.{insert}
use avail_light.Types.Header.{AvailHeader}
use avail_light.Types.Block.{
  Kate, Extension, BlockVerified, verified, skipped, extract_kate, calculate_confidence, try_from,
}
use avail_light.Data.Store.{Store, extended}
use avail_light.LightClient.{
  ProcessError, invalid_commitments, fetch_failed, NetworkClient, Outcome, or_dimensions, conclude,
  sample, process_block,
}
use avail_light.LightClient.Blocks.{put_dht-others}

module _ {F : Type 0} where
  -- Neither the counts nor the headers nor the range have changed.
  pub record Unchanged (db db' : Store F) : Type 0 where
    pub counts : db'.verified_cell_count ≡ db.verified_cell_count
    pub headers : db'.block_header ≡ db.block_header
    pub range : db'.achieved_confidence ≡ db.achieved_confidence

module _ {kate : Kate} where
  -- A block without data: its header is kept and it counts as achieved.
  pub record Bare (header : AvailHeader) (db : Store kate.Float) (o : Outcome kate) : Type 0 where
    pub empty : extract_kate header.extension ≡ none
    pub result : o.result ≡ ok (skipped header.number)
    pub counts : o.db.verified_cell_count ≡ db.verified_cell_count
    pub headers : o.db.block_header ≡ insert header.number header db.block_header
    pub range : o.db.achieved_confidence ≡ some (extended db.achieved_confidence header.number)

  abbrev pub IsVerified : Outcome kate → Type 0
  IsVerified o = (b : BlockVerified kate) × (o.result ≡ ok (verified b))

  abbrev pub IsUnverified : AvailHeader → Outcome kate → Type 0
  IsUnverified header o =
      (o.result ≡ ok (skipped header.number)) ⊎ ((e : ProcessError) × (o.result ≡ err e))

  sample-cases :
      (client : NetworkClient kate) (header : AvailHeader) (commitment : List ℕ)
      (block : BlockVerified kate) (extension : Extension kate) (db : Store kate.Float)
      → IsVerified (sample client header commitment block extension db)
        ⊎ (IsUnverified header (sample client header commitment block extension db)
            × Unchanged db (sample client header commitment block extension db).db)
  unfolding sample conclude
  sample-cases client header commitment block extension db =
      elim (Option-cases (kate.from_slice commitment)) [
        | inl e ↦ inr (
          inr (invalid_commitments, ground arith),
          record { counts = ground arith; headers = ground arith; range = ground arith },
        )
        | inr (cs, e) ↦
            elim (Result-cases (
              client.fetch_verified header.number (kate.header_hash header) extension.dimensions cs
                (client.random_cells
                  (or_dimensions block.target_grid_dimensions extension.dimensions)))) [
                    | inr (x, f) ↦ inr (
                      inr (fetch_failed x, ground arith),
                      record {
                        counts = ground arith;
                        headers = ground arith;
                        range = ground arith;
                      },
                    )
                    | inl ((fetched, unfetched, stats), f) ↦
                        elim (Bool-cases (
                          ltb (length fetched) (
                            length (
                              client.random_cells (
                                or_dimensions block.target_grid_dimensions
                                  extension.dimensions))))) [
                                    | inl l ↦ inr (
                                      inl (ground arith),
                                      record {
                                        counts = ground (
                                          arith,
                                          put_dht-others header.number stats.dht_fetched_percentage
                                              db,
                                        );
                                        headers = ground (
                                          arith,
                                          put_dht-others header.number stats.dht_fetched_percentage
                                              db,
                                        );
                                        range = ground (
                                          arith,
                                          put_dht-others header.number stats.dht_fetched_percentage
                                              db,
                                        );
                                      },
                                    )
                                    | inr l ↦ inl (
                                      record block {
                                        confidence =
                                            some (calculate_confidence kate (length fetched));
                                      },
                                      ground arith,
                                    )
                                  ]
                  ]
      ]

  abbrev pub Cases : AvailHeader → Store kate.Float → Outcome kate → Type 0
  Cases header db o =
      IsVerified o ⊎ (Bare header db o ⊎ (IsUnverified header o × Unchanged db o.db))

  sample-Cases :
      (client : NetworkClient kate) (header : AvailHeader) (commitment : List ℕ)
      (block : BlockVerified kate) (extension : Extension kate) (db : Store kate.Float)
      (o : Outcome kate)
      → o ≡ sample client header commitment block extension db
      → Cases header db o
  sample-Cases client header commitment block extension db o e =
      rw e (elim (sample-cases client header commitment block extension db) [
        | inl v ↦ inl v
        | inr v ↦ inr (inr v)
      ])

  -- A block is verified, or it has no data and is counted as achieved with its header kept, or it is
  -- skipped or refused with an error and the counts, the headers and the range stay as they were.
  pub process_block-Cases :
      (client : NetworkClient kate) (confidence : kate.Float) (header : AvailHeader)
      (db : Store kate.Float)
      → Cases header db (process_block client confidence header db)
  unfolding process_block
  process_block-Cases client confidence header db =
      elim (Option-cases (extract_kate header.extension)) [
        | inl e ↦ inr (
            inl (record {
              empty = e;
              result = ground arith;
              counts = ground arith;
              headers = ground arith;
              range = ground arith;
            }))
        | inr ((_, _, _, commitment), e) ↦
            elim (Result-cases (try_from kate header (some confidence))) [
              | inr (x, f) ↦ inr (
                  inr (
                    inl (ground arith),
                    record { counts = ground arith; headers = ground arith; range = ground arith },
                  ))
              | inl (block, f) ↦ elim (Option-cases block.extension) [
                | inl g ↦ inr (
                    inr (
                      inl (ground arith),
                      record {
                        counts = ground arith;
                        headers = ground arith;
                        range = ground arith;
                      },
                    ))
                | inr (extension, g) ↦ elim (Bool-cases (leb (kate.cols extension.dimensions) 2)) [
                  | inl l ↦ inr (
                      inr (
                        inl (ground arith),
                        record {
                          counts = ground arith;
                          headers = ground arith;
                          range = ground arith;
                        },
                      ))
                  | inr l ↦
                      sample-Cases client header commitment block extension db _ (ground arith)
                ]
              ]
            ]
      ]

-- ===== src/SyncClient/Blocks.antt =====
-- What a round of core/src/sync_client.rs does to the counts of verified cells.
use avail_light.Prelude.{
  ℕ, ◌^◌, ◌≤◌, ◌≡◌, refl, ◌⊎◌, inl, inr, some, none, List, [], ◌∷◌, leb, ltb, length, ok, arith,
  Bool-cases, Option-cases, Result-cases,
}
use avail_light.Prelude.Assoc.{insert}
use avail_light.Types.Header.{H256, AvailHeader}
use avail_light.Types.Block.{
  Position, Kate, Extension, BlockVerified, verified, extract_kate, try_from, calculate_confidence,
}
use avail_light.Data.Store.{Store, put_verified_cell_count}
use avail_light.Network.{Cell, FetchStats}
use avail_light.LightClient.{NetworkClient, or_dimensions}
use avail_light.SyncClient.{SyncOutcome, finish, sync_sample, process_block}

module _ {kate : Kate} (client : NetworkClient kate) where
  -- A fetch of the sample that returned enough cells, whose number is written, with the block sent.
  pub record SyncSampled (header : AvailHeader) (hash : H256) (db : Store kate.Float)
      (o : SyncOutcome kate) : Type 0 where
    pub dimensions : kate.Dimensions
    pub target : kate.Dimensions
    pub commitments : List kate.Commitment
    pub fetched : List Cell
    pub unfetched : List Position
    pub stats : FetchStats kate.Float
    pub block : BlockVerified kate
    pub fetch :
        client.fetch_verified header.number hash dimensions commitments (client.random_cells target)
        ≡ ok (fetched, unfetched, stats)
    pub enough : length (client.random_cells target) ≤ length fetched
    pub counted :
        o.db.verified_cell_count ≡ insert header.number (length fetched) db.verified_cell_count
    pub headers : o.db.block_header ≡ db.block_header
    pub sent : o.sent ≡ verified block ∷ []
    pub confident : block.confidence ≡ some (calculate_confidence kate (length fetched))

  abbrev pub SyncCases : AvailHeader → H256 → Store kate.Float → SyncOutcome kate → Type 0
  SyncCases header hash db o = SyncSampled header hash db o ⊎ ((o.db ≡ db) × (o.sent ≡ []))

  sync_sample-SyncCases :
      (header : AvailHeader) (hash : H256) (commitment : List ℕ) (block : BlockVerified kate)
      (extension : Extension kate) (db : Store kate.Float) (o : SyncOutcome kate)
      → o ≡ sync_sample client header hash commitment block extension db
      → SyncCases header hash db o
  unfolding sync_sample finish put_verified_cell_count
  sync_sample-SyncCases header hash commitment block extension db o h =
      elim (Option-cases (kate.from_slice commitment)) [
        | inl e ↦ inr (ground arith, ground arith)
        | inr (cs, e) ↦
            elim (Result-cases (
              client.fetch_verified header.number hash extension.dimensions cs (
                client.random_cells
                  (or_dimensions block.target_grid_dimensions extension.dimensions)))) [
                    | inr (x, f) ↦ inr (ground arith, ground arith)
                    | inl ((fetched, unfetched, stats), f) ↦
                        elim (Bool-cases (
                          ltb (length fetched) (
                            length (
                              client.random_cells (
                                or_dimensions block.target_grid_dimensions
                                  extension.dimensions))))) [
                                    | inl l ↦ inr (ground arith, ground arith)
                                    | inr l ↦ elim (Bool-cases (ltb (length fetched) (2 ^ 32))) [
                                      | inr m ↦ inr (ground arith, ground arith)
                                      | inl m ↦ inl (record {
                                        dimensions = extension.dimensions;
                                        target =
                                            or_dimensions block.target_grid_dimensions
                                              extension.dimensions;
                                        commitments = cs;
                                        fetched = fetched;
                                        unfetched = unfetched;
                                        stats = stats;
                                        block = record block {
                                          confidence =
                                              some (calculate_confidence kate (length fetched));
                                        };
                                        fetch = f;
                                        enough = ground arith;
                                        counted = ground arith;
                                        headers = ground arith;
                                        sent = ground arith;
                                        confident = refl;
                                      })
                                    ]
                                  ]
                  ]
      ]

  pub process_block-SyncCases :
      (header : AvailHeader) (hash : H256) (db : Store kate.Float)
      → SyncCases header hash db (process_block client header hash db)
  unfolding process_block
  process_block-SyncCases header hash db = elim (Option-cases (extract_kate header.extension)) [
    | inl e ↦ inr (ground arith, ground arith)
    | inr ((_, _, _, commitment), e) ↦ elim (Result-cases (try_from kate header none)) [
      | inr (x, f) ↦ inr (ground arith, ground arith)
      | inl (block, f) ↦ elim (Option-cases block.extension) [
        | inl g ↦ inr (ground arith, ground arith)
        | inr (extension, g) ↦ elim (Bool-cases (leb (kate.cols extension.dimensions) 2)) [
          | inl l ↦ inr (ground arith, ground arith)
          | inr l ↦
              sync_sample-SyncCases header hash commitment block extension db
                (process_block client header hash db) (ground arith)
        ]
      ]
    ]
  ]

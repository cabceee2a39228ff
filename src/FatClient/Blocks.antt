-- ===== src/FatClient/Blocks.antt =====
-- What `process_block` of core/src/fat_client.rs has fetched and put into the DHT.
use avail_light.Prelude.{
  ℕ, suc, ◌≡◌, subst, inl, inr, false, not, some, none, List, [], ◌∷◌, leb, if◌then◌else◌, length,
  retain, arith, Option-cases, Result-cases, Bool-cases, ok, err,
}
use avail_light.Prelude.Chunks.{chunks, concat}
use avail_light.Types.Header.{AvailHeader}
use avail_light.Types.Block.{Position, Kate, Extension, BlockVerified, verified, try_from}
use avail_light.Data.Store.{Store, put_block_header}
use avail_light.Network.{Cell, Sources, positions_of}
use avail_light.LightClient.{or_dimensions}
use avail_light.FatClient.{
  FatKate, FatConfig, FatError, Fetched, FatOutcome, rows_inserted, fetch_partition, process_block,
}
use avail_light.FatClient.Batches.{
  IsComplete, Failed, fetch_partition-positions_of, fetch_partition-Failed,
}

module _ {kate : Kate} (fat : FatKate kate) (cfg : FatConfig) (net : Sources kate) where
  -- The block is that of the header, and all cells of the partition of its matrix are in the DHT.
  pub record Stored (header : AvailHeader) (db : Store kate.Float) (block : BlockVerified kate)
      (o : FatOutcome kate) : Type 0 where
    pub extension : Extension kate
    pub converted : try_from kate header none ≡ ok block
    pub extended : block.extension ≡ some extension
    pub columns : leb (kate.cols extension.dimensions) 2 ≡ false
    pub cells : List Cell
    pub fetched :
        positions_of cells
        ≡ fat.partition_positions (or_dimensions block.target_grid_dimensions extension.dimensions)
    pub inserted : concat o.inserted_cells ≡ cells
    pub rows : o.inserted_rows ≡ (
        if leb
          (kate.cols extension.dimensions)
          (length (retain (λ c. not (fat.is_extended c.position)) cells))
        then fat.data_rows extension.dimensions
            (retain (λ c. not (fat.is_extended c.position)) cells)
          ∷ []
        else [])
    pub header_stored : o.db ≡ put_block_header header db

  -- A block that is verified, with a node that answers with one content for each position, has had a
  -- cell fetched for each position of the partition, in order; these cells are what was put into the
  -- DHT, and their rows too if the cells of data are as many as the columns; the header is stored.
  pub process_block-Stored :
      (header : AvailHeader) (db : Store kate.Float) (block : BlockVerified kate)
      → IsComplete net
      → (process_block fat cfg net header db).result ≡ ok (verified block)
      → Stored header db block (process_block fat cfg net header db)
  unfolding process_block rows_inserted
  process_block-Stored header db block v h = elim (Result-cases (try_from kate header none)) [
    | inr (x, e) ↦ ground arith
    | inl (b, e) ↦ elim (Option-cases b.extension) [
      | inl f ↦ ground arith
      | inr (extension, f) ↦ elim (Bool-cases (leb (kate.cols extension.dimensions) 2)) [
        | inl g ↦ ground arith
        | inr g ↦
            elim (Result-cases
              (fetch_partition fat cfg net (kate.header_hash header) (
                fat.partition_positions
                  (or_dimensions b.target_grid_dimensions extension.dimensions))).cells) [
                    | inr (x, i) ↦ ground arith
                    | inl (cells, i) ↦
                        let w =
                          fetch_partition-positions_of net fat cfg (kate.header_hash header)
                            (fat.partition_positions
                              (or_dimensions b.target_grid_dimensions extension.dimensions))
                            cells v i in
                        record {
                          extension = extension;
                          converted = ground arith;
                          extended = ground arith;
                          columns = g;
                          cells = cells;
                          fetched = ground (arith, w.0);
                          inserted = ground (arith, w.1);
                          rows = ground arith;
                          header_stored = ground arith;
                        }
                  ]
      ]
    ]
  ]

module _ {kate : Kate} (fat : FatKate kate) (n m : ℕ) (net : Sources kate) where
  abbrev pub config : FatConfig
  config = record { max_cells_per_rpc = suc n; query_proof_rpc_parallel_tasks = suc m }

  -- The block is that of the header, and the batches of the partition of its matrix are in the DHT up to
  -- the first one that the node did not answer, without any row.
  pub record Interrupted (header : AvailHeader) (db : Store kate.Float) (o : FatOutcome kate)
      : Type 0 where
    pub block : BlockVerified kate
    pub extension : Extension kate
    pub converted : try_from kate header none ≡ ok block
    pub extended : block.extension ≡ some extension
    pub columns : leb (kate.cols extension.dimensions) 2 ≡ false
    pub batches :
        Failed net
          (kate.header_hash header)
          (chunks (suc n) (
            fat.partition_positions
              (or_dimensions block.target_grid_dimensions extension.dimensions)))
          o.inserted_cells
    pub rows : o.inserted_rows ≡ []
    pub header_stored : o.db ≡ put_block_header header db

  -- A block whose processing fails, with batches and groups of a size above zero, has met a batch of
  -- the partition of its matrix that the node did not answer; the batches before it are in the DHT and
  -- no others, no row is, and the header is stored all the same.
  pub process_block-Interrupted :
      (header : AvailHeader) (db : Store kate.Float) (x : FatError)
      → (process_block fat config net header db).result ≡ err x
      → Interrupted header db (process_block fat config net header db)
  unfolding process_block
  process_block-Interrupted header db x h = elim (Result-cases (try_from kate header none)) [
    | inr (y, e) ↦ ground arith
    | inl (b, e) ↦ elim (Option-cases b.extension) [
      | inl f ↦ ground arith
      | inr (extension, f) ↦ elim (Bool-cases (leb (kate.cols extension.dimensions) 2)) [
        | inl g ↦ ground arith
        | inr g ↦
            let ps : List Position =
              fat.partition_positions
                (or_dimensions b.target_grid_dimensions extension.dimensions) in
            let f' : Fetched = fetch_partition fat config net (kate.header_hash header) ps in
            elim (Result-cases f'.cells) [
              | inl (cells, i) ↦ ground arith
              | inr (y, i) ↦ record {
                block = b;
                extension = extension;
                converted = e;
                extended = f;
                columns = g;
                batches =
                    subst (λ q. Failed net (kate.header_hash header) (chunks (suc n) ps) q)
                      (ground arith)
                      (fetch_partition-Failed net fat n m (kate.header_hash header) ps y i);
                rows = ground arith;
                header_stored = ground arith;
              }
            ]
      ]
    ]
  ]

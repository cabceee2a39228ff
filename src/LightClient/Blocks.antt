-- ===== src/LightClient/Blocks.antt =====
-- What the processing of one block in core/src/light_client.rs leaves in the database.
use avail_light.Prelude.{
  ℕ, ◌≤◌, ◌≡◌, refl, inl, inr, some, List, leb, ltb, length, ok, arith, Bool-cases, Option-cases,
  Result-cases,
}
use avail_light.Prelude.Assoc.{insert}
use avail_light.Types.Header.{AvailHeader}
use avail_light.Types.Block.{
  Position, Kate, Extension, BlockVerified, verified, extract_kate, calculate_confidence, try_from,
}
use avail_light.Data.Store.{Store, extended, put_dht_fetched_percentage}
use avail_light.Network.{Cell, FetchStats}
use avail_light.LightClient.{NetworkClient, or_dimensions, conclude, sample, process_block}

module _ {F : Type 0} where
  pub put_dht-others :
      (n : ℕ) (x : F) (db : Store F)
      → ((put_dht_fetched_percentage n x db).verified_cell_count ≡ db.verified_cell_count)
        × ((put_dht_fetched_percentage n x db).block_header ≡ db.block_header)
        × ((put_dht_fetched_percentage n x db).achieved_confidence ≡ db.achieved_confidence)
  unfolding put_dht_fetched_percentage
  put_dht-others n x db = (ground arith, ground arith, ground arith)

module _ {kate : Kate} where
  -- The matrix of a header as it is read from it, and the commitments that are checked against: those
  -- of the header's own bytes.
  pub record Matrix (confidence : kate.Float) (header : AvailHeader) (block : BlockVerified kate)
      (dimensions target : kate.Dimensions) (commitments : List kate.Commitment) : Type 0 where
    pub rows : ℕ
    pub cols : ℕ
    pub data_root : ℕ
    pub commitment : List ℕ
    pub extension : Extension kate
    pub extracted : extract_kate header.extension ≡ some (rows, cols, data_root, commitment)
    pub converted : try_from kate header (some confidence) ≡ ok block
    pub extended : block.extension ≡ some extension
    pub dimensions_of : dimensions ≡ extension.dimensions
    pub target_of : target ≡ or_dimensions block.target_grid_dimensions extension.dimensions
    pub commitments_of : kate.from_slice commitment ≡ some commitments

  -- A fetch for the block, with the matrix and the commitments of its header, that returned at least as
  -- many cells as were sampled, and the count, the header, the range and the confidence that are kept
  -- then.
  pub record Sampled (client : NetworkClient kate) (confidence : kate.Float) (header : AvailHeader)
      (db db' : Store kate.Float) (b : BlockVerified kate) : Type 0 where
    pub block : BlockVerified kate
    pub dimensions : kate.Dimensions
    pub target : kate.Dimensions
    pub commitments : List kate.Commitment
    pub matrix : Matrix confidence header block dimensions target commitments
    pub fetched : List Cell
    pub unfetched : List Position
    pub stats : FetchStats kate.Float
    pub fetch :
        client.fetch_verified header.number
          (kate.header_hash header)
          dimensions
          commitments
          (client.random_cells target)
        ≡ ok (fetched, unfetched, stats)
    pub enough : length (client.random_cells target) ≤ length fetched
    pub counted :
        db'.verified_cell_count ≡ insert header.number (length fetched) db.verified_cell_count
    pub stored : db'.block_header ≡ insert header.number header db.block_header
    pub achieved : db'.achieved_confidence ≡ some (extended db.achieved_confidence header.number)
    pub confident :
        b ≡ record block { confidence = some (calculate_confidence kate (length fetched)) }

  sample-Sampled :
      (client : NetworkClient kate) (confidence : kate.Float) (header : AvailHeader)
      (rows cols data_root : ℕ) (commitment : List ℕ) (block b : BlockVerified kate)
      (extension : Extension kate) (db : Store kate.Float)
      → extract_kate header.extension ≡ some (rows, cols, data_root, commitment)
      → try_from kate header (some confidence) ≡ ok block
      → block.extension ≡ some extension
      → (sample client header commitment block extension db).result ≡ ok (verified b)
      → Sampled client confidence header db
          (sample client header commitment block extension db).db
          b
  unfolding sample conclude
  sample-Sampled client confidence header rows cols root commitment block b extension db x c y h =
      elim (Option-cases (kate.from_slice commitment)) [
        | inl e ↦ ground arith
        | inr (cs, e) ↦
            elim (Result-cases (
              client.fetch_verified header.number (kate.header_hash header) extension.dimensions cs
                (client.random_cells
                  (or_dimensions block.target_grid_dimensions extension.dimensions)))) [
                    | inr (z, f) ↦ ground arith
                    | inl ((fetched, unfetched, stats), f) ↦
                        elim (Bool-cases (
                          ltb (length fetched) (
                            length (
                              client.random_cells (
                                or_dimensions block.target_grid_dimensions
                                  extension.dimensions))))) [
                                    | inl l ↦ ground arith
                                    | inr l ↦ record {
                                      block = block;
                                      matrix = record {
                                        rows = rows;
                                        cols = cols;
                                        data_root = root;
                                        commitment = commitment;
                                        extension = extension;
                                        extracted = x;
                                        converted = c;
                                        extended = y;
                                        dimensions_of = refl;
                                        target_of = refl;
                                        commitments_of = e;
                                      };
                                      dimensions = extension.dimensions;
                                      target =
                                          or_dimensions block.target_grid_dimensions
                                            extension.dimensions;
                                      commitments = cs;
                                      fetched = fetched;
                                      unfetched = unfetched;
                                      stats = stats;
                                      fetch = f;
                                      enough = ground arith;
                                      counted = ground (
                                        arith,
                                        put_dht-others header.number stats.dht_fetched_percentage
                                            db,
                                      );
                                      stored = ground (
                                        arith,
                                        put_dht-others header.number stats.dht_fetched_percentage
                                            db,
                                      );
                                      achieved = ground (
                                        arith,
                                        put_dht-others header.number stats.dht_fetched_percentage
                                            db,
                                      );
                                      confident = ground arith;
                                    }
                                  ]
                  ]
      ]

  -- A block is verified only if the fetch of its sample, with the matrix and the commitments of its
  -- header, returned at least as many cells as were sampled; then their number, the header and the achieved range are written, and the confidence is
  -- the one for that number.
  pub process_block-Sampled :
      (client : NetworkClient kate) (confidence : kate.Float) (header : AvailHeader)
      (db : Store kate.Float) (b : BlockVerified kate)
      → (process_block client confidence header db).result ≡ ok (verified b)
      → Sampled client confidence header db (process_block client confidence header db).db b
  unfolding process_block
  process_block-Sampled client confidence header db b h =
      elim (Option-cases (extract_kate header.extension)) [
        | inl e ↦ ground arith
        | inr ((rows, cols, root, commitment), e) ↦
            elim (Result-cases (try_from kate header (some confidence))) [
              | inr (x, f) ↦ ground arith
              | inl (block, f) ↦ elim (Option-cases block.extension) [
                | inl g ↦ ground arith
                | inr (extension, g) ↦ elim (Bool-cases (leb (kate.cols extension.dimensions) 2)) [
                  | inl l ↦ ground arith
                  | inr l ↦ ground (
                    arith,
                    sample-Sampled client confidence header rows cols root commitment block b
                        extension db e f g,
                  )
                ]
              ]
            ]
      ]

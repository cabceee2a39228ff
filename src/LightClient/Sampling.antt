-- ===== src/LightClient/Sampling.antt =====
-- core/src/light_client.rs on the network client of core/src/network.rs: what a verified block means.
use avail_light.Prelude.{ℕ, ◌≡◌, Bool, true, List, [], ◌∷◌, ok, arith, All}
use avail_light.Types.Header.{AvailHeader}
use avail_light.Types.Block.{Position, Kate, BlockVerified, verified}
use avail_light.Data.Store.{Store}
use avail_light.Network.{Cell, NetworkMode, FetchStats, Sources, positions_of, fetch_verified}
use avail_light.Network.Positions.{contains_position, Distinct, same_position_refl}
use avail_light.Network.Sift.{checks}
use avail_light.Network.Fetch.{fetch_verified_complete}
use avail_light.Network.Stages.{fetch_verified-Fetched}
use avail_light.LightClient.{NetworkClient, process_block}
use avail_light.LightClient.Blocks.{Matrix, process_block-Sampled}

All-contains :
    (ps qs rs : List Position)
    → ((p : Position) → contains_position ps p ≡ true → contains_position rs p ≡ true)
    → ((p : Position) → contains_position qs p ≡ true → contains_position ps p ≡ true)
    → All (λ p. contains_position rs p ≡ true) qs
unfolding contains_position
All-contains ps [] rs f g = tt
All-contains ps (q ∷ qs) rs f g = (
  f q (g q (ground (arith, same_position_refl q))),
  All-contains ps qs rs f (λ p h. g p (ground arith)),
)

module _ {kate : Kate} (net : ℕ → Sources kate) (mode : NetworkMode) (insert_into_dht : Bool)
    (random_cells : kate.Dimensions → List Position) where
  -- The network client over the sources for each block number.
  unfoldable pub network_client : NetworkClient kate
  network_client = record {
    fetch_verified = λ n hash dimensions commitments ps.
        (fetch_verified (net n) dimensions commitments mode insert_into_dht hash ps).0;
    random_cells = random_cells;
  }

  -- Every sampled cell of the block was fetched, and the proof of each fetched cell verifies against the
  -- matrix and the commitments of the block's header.
  pub record IsAvailable (confidence : kate.Float) (header : AvailHeader) : Type 0 where
    pub block : BlockVerified kate
    pub dimensions : kate.Dimensions
    pub target : kate.Dimensions
    pub commitments : List kate.Commitment
    pub matrix : Matrix confidence header block dimensions target commitments
    pub fetched : List Cell
    pub unfetched : List Position
    pub stats : FetchStats kate.Float
    pub fetch :
        (fetch_verified
          (net header.number)
          dimensions
          commitments
          mode
          insert_into_dht
          (kate.header_hash header)
          (random_cells target)).0
        ≡ ok (fetched, unfetched, stats)
    pub sampled : All (λ p. contains_position (positions_of fetched) p ≡ true) (random_cells target)
    pub proved : All (λ c. checks (net header.number) dimensions commitments c ≡ true) fetched

  -- If the light client, on the network client and with samples of distinct cells, verifies a block,
  -- then every cell sampled from the matrix of the block's header was fetched, and the proofs of all
  -- fetched cells verify against the dimensions and the commitments that the header carries.
  pub verified-IsAvailable :
      (confidence : kate.Float) (header : AvailHeader) (db : Store kate.Float)
      (b : BlockVerified kate)
      → ((d : kate.Dimensions) → Distinct (random_cells d))
      → (process_block network_client confidence header db).result ≡ ok (verified b)
      → IsAvailable confidence header
  unfolding network_client
  verified-IsAvailable confidence header db b d h =
      let s = process_block-Sampled network_client confidence header db b h in
      let n = header.number in
      let hash = kate.header_hash header in
      let ps = random_cells s.target in
      let (m, v) =
        fetch_verified-Fetched (net n) s.dimensions s.commitments mode insert_into_dht hash ps
          s.unfetched s.fetched s.stats (d s.target) s.fetch in
      record {
        block = s.block;
        matrix = s.matrix;
        unfetched = s.unfetched;
        stats = s.stats;
        fetch = s.fetch;
        dimensions = s.dimensions;
        target = s.target;
        commitments = s.commitments;
        fetched = s.fetched;
        sampled =
            All-contains ps ps (positions_of s.fetched)
              (λ p e.
                (fetch_verified_complete (net n) s.dimensions s.commitments mode insert_into_dht
                  hash ps s.unfetched s.fetched s.stats p (d s.target) s.fetch s.enough e).0)
              (λ p e. e);
        proved = v.verified;
      }

-- ===== src/Network.antt =====
-- core/src/network.rs and core/src/proof.rs: cells are fetched from the DHT, then from a node, and
-- verified against the block's commitments; with fetch_cells_from_dht of network/p2p/client.rs and
-- request_kate_proof of network/rpc/client.rs. The build is the one without the feature
-- `multiproof`, so that each cell is a single cell. Durations are not modelled.
pub mod Positions
pub mod Sift
pub mod Accounts
pub mod Stages
pub mod Fetch
pub mod Samples
mod Examples
use avail_light.Prelude.{
  ℕ, zero, suc, Bool, true, false, not, ◌&&◌, Option, some, none, List, [], ◌∷◌, ◌++◌, ◌==◌,
  if◌then◌else◌, length, get_elem?, map, retain, Result, ok, err,
}
use avail_light.Prelude.Chunks.{chunks}
use avail_light.Types.Block.{Kate, Position}
use avail_light.Types.Header.{H256}
use Positions.{contains_position}

-- `SingleCell`: the content is the proof and the scalar.
pub record Cell : Type 0 where
  pub position : Position
  pub content : List ℕ

pub data NetworkMode : Type 0 where
  both p2p_only rpc_only : NetworkMode

-- `commitments[row]` out of range is a panic, and so are chunks of size zero.
pub data FetchError : Type 0 where
  verification_failed rpc_failed index_out_of_bounds chunk_size_zero : FetchError

pub record FetchStats (Float : Type 0) : Type 0 where
  pub dht_fetched : ℕ
  pub dht_fetched_percentage : Float
  pub rpc_fetched : Option ℕ

-- What the node's p2p and RPC layers give for one block: a cell's content from the DHT, and the
-- proofs for a list of positions (an error after all retries), with `verify_v2`.
pub record Sources (kate : Kate) : Type 0 where
  pub p2p_available : Bool
  pub dht_parallelization_limit : ℕ
  pub dht_content : Position → Option (List ℕ)
  pub query_proof : H256 → List Position → Option (List (List ℕ))
  pub verify_v2 : kate.Dimensions → kate.Commitment → Cell → Option Bool
  -- the quotient of two counts in f64
  pub ratio : ℕ → ℕ → kate.Float

-- `filter(is_none)` of the zip with the positions, and `flatten`
unfoldable pub unfetched_of : List (Option Cell) → List Position → List Position
unfetched_of [] ps = []
unfetched_of (c ∷ cs) [] = []
unfetched_of (none ∷ cs) (p ∷ ps) = p ∷ unfetched_of cs ps
unfetched_of (some c ∷ cs) (p ∷ ps) = unfetched_of cs ps

unfoldable pub flatten : List (Option Cell) → List Cell
flatten [] = []
flatten (none ∷ cs) = flatten cs
flatten (some c ∷ cs) = c ∷ flatten cs

-- `positions.iter().zip(contents)`
unfoldable pub zip_cells : List Position → List (List ℕ) → List Cell
zip_cells [] contents = []
zip_cells (p ∷ ps) [] = []
zip_cells (p ∷ ps) (x ∷ xs) = record { position = p; content = x } ∷ zip_cells ps xs

unfoldable pub positions_of : List Cell → List Position
positions_of [] = []
positions_of (c ∷ cs) = c.position ∷ positions_of cs

module _ {kate : Kate} (net : Sources kate) where
  unfoldable pub fetch_cell_from_dht : Position → Option Cell
  fetch_cell_from_dht p = elim (net.dht_content p) [
    | none ↦ none
    | some x ↦ some (record { position = p; content = x })
  ]

  -- The results of the chunks, one chunk after the other.
  unfoldable pub fetch_chunks : List (List Position) → List (Option Cell)
  unfolding fetch_cell_from_dht
  fetch_chunks [] = []
  fetch_chunks (ps ∷ pss) = map fetch_cell_from_dht ps ++ fetch_chunks pss

  unfoldable pub fetch_cells_from_dht : List Position → List Cell × List Position
  unfolding fetch_chunks
  fetch_cells_from_dht positions =
      let cells : List (Option Cell) =
        fetch_chunks (chunks net.dht_parallelization_limit positions) in
      (flatten cells, unfetched_of cells positions)

  unfoldable pub request_kate_proof : H256 → List Position → Result FetchError (List Cell)
  request_kate_proof block_hash positions = elim (net.query_proof block_hash positions) [
    | none ↦ err rpc_failed
    | some contents ↦ ok (zip_cells positions contents)
  ]

  -- `insert_cells_into_dht`, in the mode with both networks and if the client is configured for it
  unfoldable pub inserted : NetworkMode → Bool → List Cell → List Cell
  inserted p2p_only insert_into_dht cells = []
  inserted rpc_only insert_into_dht cells = []
  inserted both insert_into_dht cells = if insert_into_dht && net.p2p_available then cells else []

  module _ (dimensions : kate.Dimensions) (commitments : List kate.Commitment) where
    -- A task for every cell, with the commitment of its row.
    unfoldable pub tasks : List Cell → Result FetchError (List (Cell × kate.Commitment))
    tasks [] = ok []
    tasks (c ∷ cs) =
        let rest = tasks cs in
        elim (get_elem? commitments c.position.row) [
          | none ↦ err index_out_of_bounds
          | some commitment ↦ elim rest [ err e ↦ err e | ok ts ↦ ok ((c, commitment) ∷ ts) ]
        ]

    -- The results of the tasks, or the first error.
    unfoldable pub results :
        List (Cell × kate.Commitment) → Result FetchError (List (Position × Bool))
    results [] = ok []
    results ((c, commitment) ∷ ts) =
        let rest = results ts in
        elim (net.verify_v2 dimensions commitment c) [
          | none ↦ err verification_failed
          | some is_verified ↦ elim rest [
            | err e ↦ err e
            | ok rs ↦ ok ((c.position, is_verified) ∷ rs)
          ]
        ]

    unfoldable pub partition : List (Position × Bool) → List Position × List Position
    partition [] = ([], [])
    partition ((p, is_verified) ∷ rs) =
        let (left, right) = partition rs in
        if is_verified then (p ∷ left, right) else (left, p ∷ right)

    unfoldable pub verify : List Cell → Result FetchError (List Position × List Position)
    unfolding tasks results partition
    verify [] = ok ([], [])
    verify (c ∷ cs) = elim (tasks (c ∷ cs)) [
      | err e ↦ err e
      | ok ts ↦ elim (results ts) [ err e ↦ err e | ok rs ↦ ok (partition rs) ]
    ]

    -- The cells are verified, and those at a verified position are kept.
    unfoldable pub sift : List Cell → Result FetchError (List Cell × List Position)
    unfolding verify
    sift fetched = elim (verify fetched) [
      | err e ↦ err e
      | ok (verified, unverified) ↦
          ok (retain (λ c. contains_position verified c.position) fetched, unverified)
    ]

    unfoldable pub fetch_verified_from_dht :
        List Position → Result FetchError (List Cell × List Position)
    unfolding fetch_cells_from_dht sift
    fetch_verified_from_dht positions =
        let (dht_fetched, unfetched) = fetch_cells_from_dht positions in
        if not net.p2p_available
        then ok ([], positions)
        else if net.dht_parallelization_limit == 0
        then err chunk_size_zero
        else elim (sift dht_fetched) [
          | err e ↦ err e
          | ok (kept, unverified) ↦ ok (kept, unfetched ++ unverified)
        ]

    unfoldable pub fetch_verified_from_rpc :
        H256 → List Position → Result FetchError (List Cell × List Position)
    unfolding request_kate_proof sift
    fetch_verified_from_rpc block_hash positions = elim (request_kate_proof block_hash positions) [
      | err e ↦ err e
      | ok fetched ↦ sift fetched
    ]

    unfoldable pub stats : ℕ → ℕ → Option ℕ → FetchStats kate.Float
    stats total dht_fetched rpc_fetched = record {
      dht_fetched = dht_fetched;
      dht_fetched_percentage = net.ratio dht_fetched total;
      rpc_fetched = rpc_fetched;
    }

    -- `DHTWithRPCFallbackClient::fetch_verified`: its result, and the cells put into the DHT.
    unfoldable pub fetch_verified :
        NetworkMode
        → Bool
        → H256
        → List Position
        → Result FetchError (List Cell × List Position × FetchStats kate.Float) × List Cell
    unfolding fetch_verified_from_dht fetch_verified_from_rpc stats inserted
    fetch_verified mode insert_into_dht block_hash positions =
        let from_dht : Result FetchError (List Cell × List Position) = elim mode [
          | rpc_only ↦ ok ([], positions)
          | both ↦ fetch_verified_from_dht positions
          | p2p_only ↦ fetch_verified_from_dht positions
        ] in
        elim from_dht [
          | err e ↦ (err e, [])
          | ok (dht_fetched, unfetched) ↦
              let from_rpc : Result FetchError (List Cell × List Position × FetchStats kate.Float)
                  × List Cell =
                elim (fetch_verified_from_rpc block_hash unfetched) [
                  | err e ↦ (err e, [])
                  | ok (rpc_fetched, still_unfetched) ↦ (
                    ok (
                      dht_fetched ++ rpc_fetched,
                      still_unfetched,
                      stats (length positions) (length dht_fetched) (some (length rpc_fetched)),
                    ),
                    inserted mode insert_into_dht rpc_fetched,
                  )
                ] in
              elim mode [
                | p2p_only ↦ (
                  ok (dht_fetched, unfetched, stats (length positions) (length dht_fetched) none),
                  [],
                )
                | both ↦ from_rpc
                | rpc_only ↦ from_rpc
              ]
        ]

    -- `RPCClient::fetch_verified`
    unfoldable pub fetch_verified_rpc :
        H256 → List Position → Result FetchError (List Cell × List Position × FetchStats kate.Float)
    unfolding fetch_verified_from_rpc stats
    fetch_verified_rpc block_hash positions = elim (fetch_verified_from_rpc block_hash positions) [
      | err e ↦ err e
      | ok (rpc_fetched, unfetched) ↦
          ok (rpc_fetched, unfetched, stats (length positions) 0 (some (length rpc_fetched)))
    ]

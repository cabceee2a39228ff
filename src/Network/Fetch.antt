-- ===== src/Network/Fetch.antt =====
-- What `fetch_verified` of core/src/network.rs returns: cells that verify, at positions that were
-- asked for, and never more of them than there are positions.
use avail_light.Prelude.{
  ◌+◌, ◌≤◌, ◌≡◌, refl, inl, inr, Bool, true, List, [], ◌∷◌, ◌++◌, arith, length, length-append, ok,
  Result-cases, All,
}
use avail_light.Types.Header.{H256}
use avail_light.Types.Block.{Kate, Position}
use avail_light.Network.Positions.{contains_position, Distinct, same_position_refl}
use avail_light.Network.Accounts.{count_position, contains-counts, length-positions_of}
use avail_light.Network.Sift.{checks}
use avail_light.Network.{
  Cell, NetworkMode, rpc_only, FetchStats, Sources, positions_of, fetch_verified_from_rpc,
  fetch_verified, fetch_verified_rpc,
}
use avail_light.Network.Stages.{fetch_verified-Fetched}

All-asked :
    (ps : List Position) (f : List Cell)
    → ((p : Position) → contains_position (positions_of f) p ≡ true → contains_position ps p ≡ true)
    → All (λ c. contains_position ps c.position ≡ true) f
unfolding contains_position positions_of
All-asked ps [] g = tt
All-asked ps (c ∷ cs) g = (
  g c.position (ground (arith, same_position_refl c.position)),
  All-asked ps cs (λ p h. g p (ground arith)),
)

module _ {kate : Kate} (net : Sources kate) (dimensions : kate.Dimensions)
    (commitments : List kate.Commitment) where
  -- A fetch that succeeds, of distinct positions, in any mode and whatever the DHT and the nodes
  -- answer, returns only cells whose proofs verify, at positions that were asked for; and the cells
  -- and the positions left are together at most as many as the positions.
  pub fetch_verified_sound :
      (mode : NetworkMode) (insert_into_dht : Bool) (hash : H256) (ps u : List Position)
      (f : List Cell) (s : FetchStats kate.Float)
      → Distinct ps
      → (fetch_verified net dimensions commitments mode insert_into_dht hash ps).0 ≡ ok (f, u, s)
      → All (λ c. checks net dimensions commitments c ≡ true) f
        × All (λ c. contains_position ps c.position ≡ true) f
        × (length f + length u ≤ length ps)
  fetch_verified_sound mode i hash ps u f s d h =
      let (m, v) = fetch_verified-Fetched net dimensions commitments mode i hash ps u f s d h in
      (
        v.verified,
        All-asked ps f
            (λ p e. contains-counts (positions_of f) ps p (omega (arith, v.divided.counts p)) e),
        omega (arith, v.divided.lengths, length-append m u, length-positions_of f),
      )

  -- A fetch of distinct positions that returns as many cells as there are positions has a verified
  -- cell at each of them.
  pub fetch_verified_complete :
      (mode : NetworkMode) (insert_into_dht : Bool) (hash : H256) (ps u : List Position)
      (f : List Cell) (s : FetchStats kate.Float) (p : Position)
      → Distinct ps
      → (fetch_verified net dimensions commitments mode insert_into_dht hash ps).0 ≡ ok (f, u, s)
      → length ps ≤ length f
      → contains_position ps p ≡ true
      → (contains_position (positions_of f) p ≡ true)
        × All (λ c. checks net dimensions commitments c ≡ true) f
  unfolding count_position
  fetch_verified_complete mode i hash ps u f s p d h l e =
      let (m, v) = fetch_verified-Fetched net dimensions commitments mode i hash ps u f s d h in
      (
        contains-counts ps (positions_of f) p
            (omega (
              arith,
              v.divided.counts p,
              empty_counts (m ++ u) p (omega (arith, v.divided.lengths, length-positions_of f)),
            ))
            e,
        v.verified,
      )
    where
      empty_counts : (qs : List Position) (q : Position) → length qs ≤ 0 → count_position qs q ≡ 0
      empty_counts [] q l = refl
      empty_counts (r ∷ qs) q l = ground arith

  -- In the mode without p2p the fetch is the one of the client that has nodes only, whatever the
  -- DHT holds, and nothing is put into the DHT.
  pub fetch_verified-fetch_verified_rpc :
      (insert_into_dht : Bool) (hash : H256) (ps : List Position)
      → ((fetch_verified net dimensions commitments rpc_only insert_into_dht hash ps).0
          ≡ fetch_verified_rpc net dimensions commitments hash ps)
        × ((fetch_verified net dimensions commitments rpc_only insert_into_dht hash ps).1 ≡ [])
  unfolding fetch_verified fetch_verified_rpc
  fetch_verified-fetch_verified_rpc i hash ps =
      elim (Result-cases (fetch_verified_from_rpc net dimensions commitments hash ps)) [
        | inr (x, e) ↦ (ground arith, ground arith)
        | inl ((ds, w), e) ↦ (ground arith, ground arith)
      ]

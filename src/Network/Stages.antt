-- ===== src/Network/Stages.antt =====
-- The stages of `fetch_verified` of core/src/network.rs: how each divides the positions it is given.
use avail_light.Prelude.{
  ◌≡◌, ◌⊎◌, inl, inr, Bool, true, not, Option, List, [], ◌∷◌, ◌++◌, ◌==◌, arith, length,
  length-append, map, retain, Result, ok, err, Bool-cases, Option-cases, Result-cases, All,
}
use avail_light.Prelude.Chunks.{skip, chunks}
use avail_light.Types.Header.{H256}
use avail_light.Types.Block.{Kate, Position}
use avail_light.Network.Positions.{Distinct}
use avail_light.Network.Accounts.{
  Divides, count_position, count_position-Distinct, contains-Distinct, count_position-append,
  positions_of-append, Divides-retain, Divides-zip_cells, fetch_chunks-chunks, Divides-flatten,
}
use avail_light.Network.Sift.{checks, sift-retain}
use avail_light.Network.{
  Cell, FetchError, NetworkMode, both, p2p_only, rpc_only, FetchStats, Sources, positions_of,
  flatten, unfetched_of, zip_cells, fetch_cell_from_dht, fetch_chunks, fetch_cells_from_dht,
  request_kate_proof, sift, fetch_verified_from_dht, fetch_verified_from_rpc, fetch_verified,
}

All-retain : (f : Cell → Bool) (cs : List Cell) → All (λ c. f c ≡ true) (retain f cs)
All-retain f [] = tt
All-retain f (c ∷ cs) = elim (Bool-cases (f c)) [
  | inl e ↦ rw e (e, All-retain f cs)
  | inr e ↦ rw e (All-retain f cs)
]

All-append :
    (f : Cell → Bool) (cs ds : List Cell)
    → All (λ c. f c ≡ true) cs
    → All (λ c. f c ≡ true) ds
    → All (λ c. f c ≡ true) (cs ++ ds)
All-append f [] ds a b = b
All-append f (c ∷ cs) ds a b = (a.0, All-append f cs ds a.1 b)

Divides-Distinct : (ps a b : List Position) → Divides ps a b → Distinct ps → Distinct a × Distinct b
Divides-Distinct ps a b v d = (
  contains-Distinct a (λ q. omega (arith, v.counts q, count_position-Distinct ps q d)),
  contains-Distinct b (λ q. omega (arith, v.counts q, count_position-Distinct ps q d)),
)

Divides-assoc :
    (ps a b c d : List Position) → Divides ps a b → Divides a c d → Divides ps c (b ++ d)
Divides-assoc ps a b c d v w = record {
  lengths = omega (arith, v.lengths, w.lengths, length-append b d);
  counts = λ q. omega (arith, v.counts q, w.counts q, count_position-append b d q);
}

module _ {kate : Kate} (net : Sources kate) (dimensions : kate.Dimensions)
    (commitments : List kate.Commitment) where
  -- The cells verify, and with the positions left they are the positions asked for.
  pub record Fetched (ps : List Position) (fetched : List Cell) (left : List Position)
      : Type 0 where
    pub verified : All (λ c. checks net dimensions commitments c ≡ true) fetched
    pub divided : Divides ps (positions_of fetched) left

  retain-Fetched :
      (ps left : List Position) (cs : List Cell)
      → Divides ps (positions_of cs) left
      → Fetched ps
          (retain (checks net dimensions commitments) cs)
          (left ++ positions_of (retain (λ c. not (checks net dimensions commitments c)) cs))
  retain-Fetched ps left cs v = record {
    verified = All-retain (checks net dimensions commitments) cs;
    divided =
        Divides-assoc ps (positions_of cs) left
          (positions_of (retain (checks net dimensions commitments) cs))
          (positions_of (retain (λ c. not (checks net dimensions commitments c)) cs)) v
          (Divides-retain (checks net dimensions commitments) cs);
  }

  sift-Fetched :
      (ps left unverified : List Position) (cs kept : List Cell)
      → Distinct ps
      → Divides ps (positions_of cs) left
      → sift net dimensions commitments cs ≡ ok (kept, unverified)
      → Fetched ps kept (left ++ unverified)
  sift-Fetched ps left u cs kept d v h =
      let (k, n) =
        sift-retain net dimensions commitments cs kept u
          (Divides-Distinct ps (positions_of cs) left v d).0 h in
      rw (k, n) (retain-Fetched ps left cs v)

  none-Fetched : (ps : List Position) → Fetched ps [] ps
  unfolding positions_of count_position
  none-Fetched ps = record {
    verified = tt;
    divided = record { lengths = omega arith; counts = λ q. omega arith };
  }

  dht-Fetched :
      (ps unverified : List Position) (cells : List (Option Cell)) (kept : List Cell)
      → Distinct ps
      → cells ≡ map (fetch_cell_from_dht net) ps
      → sift net dimensions commitments (flatten cells) ≡ ok (kept, unverified)
      → Fetched ps kept (unfetched_of cells ps ++ unverified)
  dht-Fetched ps u cells kept d e h =
      sift-Fetched ps (unfetched_of cells ps) u (flatten cells) kept d
        (rw e (Divides-flatten net ps)) h

  from_dht-Fetched :
      (ps : List Position) (kept : List Cell) (left : List Position)
      → Distinct ps
      → fetch_verified_from_dht net dimensions commitments ps ≡ ok (kept, left)
      → Fetched ps kept left
  unfolding fetch_verified_from_dht fetch_cells_from_dht
  from_dht-Fetched ps kept left d h = elim (Bool-cases net.p2p_available) [
    | inr e ↦ ground (arith, none-Fetched ps)
    | inl e ↦ elim (Bool-cases (net.dht_parallelization_limit == 0)) [
      | inl z ↦ ground arith
      | inr z ↦
          elim (Result-cases (
            sift net dimensions commitments
              (flatten (fetch_chunks net (chunks net.dht_parallelization_limit ps))))) [
                | inr (x, f) ↦ ground arith
                | inl ((k, u), f) ↦ ground (
                  arith,
                  dht-Fetched ps u (fetch_chunks net (chunks net.dht_parallelization_limit ps)) k d
                      (fetch_chunks-chunks net net.dht_parallelization_limit ps z) f,
                )
              ]
    ]
  ]

  from_rpc-Fetched :
      (hash : H256) (ps : List Position) (kept : List Cell) (left : List Position)
      → Distinct ps
      → fetch_verified_from_rpc net dimensions commitments hash ps ≡ ok (kept, left)
      → (missing : List Position) × Fetched ps kept (missing ++ left)
  unfolding fetch_verified_from_rpc request_kate_proof
  from_rpc-Fetched hash ps kept left d h = elim (Option-cases (net.query_proof hash ps)) [
    | inl e ↦ ground arith
    | inr (xs, e) ↦ (
      skip (length xs) ps,
      sift-Fetched ps (skip (length xs) ps) left (zip_cells ps xs) kept d (Divides-zip_cells ps xs)
          (ground arith),
    )
  ]

  both-Fetched :
      (ps left rest : List Position) (cs ds : List Cell)
      → Fetched ps cs left
      → Fetched left ds rest
      → Fetched ps (cs ++ ds) rest
  both-Fetched ps left rest cs ds v w = record {
    verified = All-append (checks net dimensions commitments) cs ds v.verified w.verified;
    divided = rw (positions_of-append cs ds) (record {
      lengths = omega (
        arith,
        v.divided.lengths,
        w.divided.lengths,
        length-append (positions_of cs) (positions_of ds),
      );
      counts = λ q. omega (
        arith,
        v.divided.counts q,
        w.divided.counts q,
        count_position-append (positions_of cs) (positions_of ds) q,
      );
    });
  }

  -- The first stage, by mode.
  first_stage : NetworkMode → List Position → Result FetchError (List Cell × List Position)
  first_stage rpc_only ps = ok ([], ps)
  first_stage both ps = fetch_verified_from_dht net dimensions commitments ps
  first_stage p2p_only ps = fetch_verified_from_dht net dimensions commitments ps

  first_stage-Fetched :
      (mode : NetworkMode) (ps : List Position) (kept : List Cell) (left : List Position)
      → Distinct ps
      → first_stage mode ps ≡ ok (kept, left)
      → Fetched ps kept left
  unfolding first_stage
  first_stage-Fetched rpc_only ps kept left d h = ground (arith, none-Fetched ps)
  first_stage-Fetched both ps kept left d h = from_dht-Fetched ps kept left d h
  first_stage-Fetched p2p_only ps kept left d h = from_dht-Fetched ps kept left d h

  two_stages-Fetched :
      (hash : H256) (ps left u : List Position) (cs ds : List Cell)
      → Distinct ps
      → Fetched ps cs left
      → fetch_verified_from_rpc net dimensions commitments hash left ≡ ok (ds, u)
      → (missing : List Position) × Fetched ps (cs ++ ds) (missing ++ u)
  two_stages-Fetched hash ps left u cs ds d v h =
      let (m, w) =
        from_rpc-Fetched hash left ds u (Divides-Distinct ps (positions_of cs) left v.divided d).1
          h in
      (m, both-Fetched ps left (m ++ u) cs ds v w)

  pub fetch_verified-Fetched :
      (mode : NetworkMode) (insert_into_dht : Bool) (hash : H256) (ps u : List Position)
      (f : List Cell) (s : FetchStats kate.Float)
      → Distinct ps
      → (fetch_verified net dimensions commitments mode insert_into_dht hash ps).0 ≡ ok (f, u, s)
      → (missing : List Position) × Fetched ps f (missing ++ u)
  unfolding fetch_verified first_stage
  fetch_verified-Fetched mode i hash ps u f s d h = elim (Result-cases (first_stage mode ps)) [
    | inr (x, e) ↦ by_error mode x e h
    | inl ((cs, left), e) ↦
        by_mode mode cs left (first_stage-Fetched mode ps cs left d e) e h
          (Result-cases (fetch_verified_from_rpc net dimensions commitments hash left))
  ]
    where
      by_error :
          (m : NetworkMode) (x : FetchError)
          → first_stage m ps ≡ err x
          → (fetch_verified net dimensions commitments m i hash ps).0 ≡ ok (f, u, s)
          → (missing : List Position) × Fetched ps f (missing ++ u)
      by_error both x e g = ground arith
      by_error p2p_only x e g = ground arith
      by_error rpc_only x e g = ground arith

      by_rpc :
          (cs ds : List Cell) (left v : List Position)
          → Fetched ps cs left
          → fetch_verified_from_rpc net dimensions commitments hash left ≡ ok (ds, v)
          → f ≡ cs ++ ds
          → u ≡ v
          → (missing : List Position) × Fetched ps f (missing ++ u)
      by_rpc cs ds left v w e p q =
          let (m, r) = two_stages-Fetched hash ps left v cs ds d w e in (m, rw (p, q) r)

      by_mode :
          (m : NetworkMode) (cs : List Cell) (left : List Position)
          → Fetched ps cs left
          → first_stage m ps ≡ ok (cs, left)
          → (fetch_verified net dimensions commitments m i hash ps).0 ≡ ok (f, u, s)
          → (((r : List Cell × List Position) × (fetch_verified_from_rpc net dimensions commitments
                    hash left
                  ≡ ok r))
              ⊎ ((x : FetchError) × (fetch_verified_from_rpc net dimensions commitments hash left
                    ≡ err x)))
          → (missing : List Position) × Fetched ps f (missing ++ u)
      by_mode p2p_only cs left v e g r = ([], ground arith)
      by_mode both cs left v e g (inr (x, q)) = ground arith
      by_mode rpc_only cs left v e g (inr (x, q)) = ground arith
      by_mode both cs left v e g (inl ((ds, w), q)) =
          by_rpc cs ds left w v q (ground arith) (ground arith)
      by_mode rpc_only cs left v e g (inl ((ds, w), q)) =
          by_rpc cs ds left w v q (ground arith) (ground arith)

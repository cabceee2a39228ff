-- ===== src/FatClient/Batches.antt =====
-- The batches of core/src/fat_client.rs, whatever their groups.
use avail_light.Prelude.{
  ℕ, zero, suc, ◌≡◌, ◌⊎◌, refl, ap, sym, subst, ◌∙◌, inl, inr, some, none, List, [], ◌∷◌, ◌++◌,
  length, map, append_assoc, arith, Option-cases, Result-cases, Result, ok, err,
}
use avail_light.Prelude.Chunks.{chunks, concat, concat-chunks}
use avail_light.Types.Header.{H256}
use avail_light.Types.Block.{Kate, Position}
use avail_light.Network.{Cell, FetchError, Sources, zip_cells, positions_of, request_kate_proof}
use avail_light.FatClient.{
  FatKate, FatConfig, FatError, handle_results, handle_groups, fetch_partition,
}

-- Everything that was fetched was put into the DHT.
handle_results-inserted :
    (rs : List (Result FetchError (List Cell))) (cells : List Cell)
    → (handle_results rs).cells ≡ ok cells
    → concat (handle_results rs).inserted ≡ cells
unfolding handle_results concat
handle_results-inserted [] cells h = ground arith
handle_results-inserted (err e ∷ rs) cells h = ground arith
handle_results-inserted (ok cs ∷ rs) cells h = elim (Result-cases (handle_results rs).cells) [
  | inr (e, p) ↦ ground arith
  | inl (ds, p) ↦ ground (arith, handle_results-inserted rs ds p)
]

handle_results-append :
    (rs ss : List (Result FetchError (List Cell)))
    → handle_results (rs ++ ss) ≡ elim (handle_results rs).cells [
      | err e ↦ handle_results rs
      | ok cs ↦ record {
        cells = elim (handle_results ss).cells [ err e ↦ err e | ok ds ↦ ok (cs ++ ds) ];
        inserted = (handle_results rs).inserted ++ (handle_results ss).inserted;
      }
    ]
unfolding handle_results
handle_results-append [] ss = elim (Result-cases (handle_results ss).cells) [
  | inr (e, p) ↦ ground arith
  | inl (ds, p) ↦ ground arith
]
handle_results-append (err e ∷ rs) ss = refl
handle_results-append (ok cs ∷ rs) ss = elim (Result-cases (handle_results rs).cells) [
  | inr (e, p) ↦ ground (arith, handle_results-append rs ss)
  | inl (ds, p) ↦ elim (Result-cases (handle_results ss).cells) [
    | inr (e, q) ↦ ground (arith, handle_results-append rs ss)
    | inl (us, q) ↦ ground (arith, handle_results-append rs ss, append_assoc cs ds us)
  ]
]

map-append : {A B : Type 0} (f : A → B) (xs ys : List A) → map f (xs ++ ys) ≡ map f xs ++ map f ys
map-append f [] ys = refl
map-append f (x ∷ xs) ys = ap (λ zs. f x ∷ zs) (map-append f xs ys)

positions_of-append :
    (cs ds : List Cell) → positions_of (cs ++ ds) ≡ positions_of cs ++ positions_of ds
unfolding positions_of
positions_of-append [] ds = refl
positions_of-append (c ∷ cs) ds = ap (λ ps. c.position ∷ ps) (positions_of-append cs ds)

zip_cells-positions_of :
    (ps : List Position) (xs : List (List ℕ))
    → length xs ≡ length ps
    → positions_of (zip_cells ps xs) ≡ ps
unfolding positions_of zip_cells
zip_cells-positions_of [] xs h = refl
zip_cells-positions_of (p ∷ ps) [] h = ground arith
zip_cells-positions_of (p ∷ ps) (x ∷ xs) h =
    ap (λ qs. p ∷ qs) (zip_cells-positions_of ps xs (omega arith))

module _ {kate : Kate} (net : Sources kate) where
  -- A node answers with one content for each position.
  abbrev pub IsComplete : Type 0
  IsComplete =
      (hash : H256) (ps : List Position) (xs : List (List ℕ))
      → net.query_proof hash ps ≡ some xs
      → length xs ≡ length ps

  handle_groups-handle_results :
      (fat : FatKate kate) (cfg : FatConfig) (hash : H256) (gs : List (List (List Position)))
      → handle_groups fat cfg net hash gs
        ≡ handle_results (map (request_kate_proof net hash) (concat gs))
  unfolding handle_groups handle_results concat
  handle_groups-handle_results fat cfg hash [] = refl
  handle_groups-handle_results fat cfg hash (g ∷ gs) =
      elim (Result-cases (handle_results (map (request_kate_proof net hash) g)).cells) [
        | inr (e, p) ↦ ground (
          arith,
          map-append (request_kate_proof net hash) g (concat gs),
          handle_results-append (map (request_kate_proof net hash) g)
              (map (request_kate_proof net hash) (concat gs)),
        )
        | inl (cs, p) ↦ ground (
          arith,
          handle_groups-handle_results fat cfg hash gs,
          map-append (request_kate_proof net hash) g (concat gs),
          handle_results-append (map (request_kate_proof net hash) g)
              (map (request_kate_proof net hash) (concat gs)),
        )
      ]

  -- With sizes above zero the groups do not matter.
  fetch_partition-handle_results :
      (fat : FatKate kate) (n m : ℕ) (hash : H256) (ps : List Position)
      → fetch_partition fat
          (record { max_cells_per_rpc = suc n; query_proof_rpc_parallel_tasks = suc m })
          net
          hash
          ps
        ≡ handle_results (map (request_kate_proof net hash) (chunks (suc n) ps))
  unfolding fetch_partition
  fetch_partition-handle_results fat n m hash ps = ground (
    arith,
    handle_groups-handle_results fat
        (record { max_cells_per_rpc = suc n; query_proof_rpc_parallel_tasks = suc m }) hash
        (chunks (suc m) (chunks (suc n) ps)),
    concat-chunks m (chunks (suc n) ps),
  )

  request_kate_proof-positions_of :
      (hash : H256) (ps : List Position) (cs : List Cell)
      → IsComplete
      → request_kate_proof net hash ps ≡ ok cs
      → positions_of cs ≡ ps
  unfolding request_kate_proof
  request_kate_proof-positions_of hash ps cs v h = elim (Option-cases (net.query_proof hash ps)) [
    | inl e ↦ ground arith
    | inr (xs, e) ↦ ground (arith, zip_cells-positions_of ps xs (v hash ps xs e))
  ]

  handle_results-positions_of :
      (hash : H256) (pss : List (List Position)) (cells : List Cell)
      → IsComplete
      → (handle_results (map (request_kate_proof net hash) pss)).cells ≡ ok cells
      → positions_of cells ≡ concat pss
  unfolding handle_results concat positions_of
  handle_results-positions_of hash [] cells v h = ground arith
  handle_results-positions_of hash (ps ∷ pss) cells v h =
      elim (Result-cases (request_kate_proof net hash ps)) [
        | inr (e, p) ↦ ground arith
        | inl (cs, p) ↦
            elim (Result-cases (handle_results (map (request_kate_proof net hash) pss)).cells) [
              | inr (e, q) ↦ ground arith
              | inl (ds, q) ↦ ground (
                arith,
                positions_of-append cs ds,
                request_kate_proof-positions_of hash ps cs v p,
                handle_results-positions_of hash pss ds v q,
              )
            ]
      ]

  fetch_partition_zero :
      (fat : FatKate kate) (n m : ℕ) (hash : H256) (ps : List Position) (cells : List Cell)
      → (n ≡ 0) ⊎ (m ≡ 0)
      → (fetch_partition fat
          (record { max_cells_per_rpc = n; query_proof_rpc_parallel_tasks = m })
          net
          hash
          ps).cells
        ≡ ok cells
      → ⊥
  unfolding fetch_partition
  fetch_partition_zero fat n m hash ps cells (inl e) h = ground arith
  fetch_partition_zero fat n m hash ps cells (inr e) h = ground arith

  -- A partition that is fetched has a cell for each of its positions, in order, and all of them are
  -- put into the DHT.
  pub fetch_partition-positions_of :
      (fat : FatKate kate) (cfg : FatConfig) (hash : H256) (ps : List Position) (cells : List Cell)
      → IsComplete
      → (fetch_partition fat cfg net hash ps).cells ≡ ok cells
      → (positions_of cells ≡ ps) × (concat (fetch_partition fat cfg net hash ps).inserted ≡ cells)
  fetch_partition-positions_of fat cfg hash ps cells v h =
      by_sizes cfg.max_cells_per_rpc cfg.query_proof_rpc_parallel_tasks h
    where
      by_sizes :
          (n m : ℕ)
          → (fetch_partition fat
              (record { max_cells_per_rpc = n; query_proof_rpc_parallel_tasks = m })
              net
              hash
              ps).cells
            ≡ ok cells
          → (positions_of cells ≡ ps)
            × (concat
                  (fetch_partition fat
                    (record { max_cells_per_rpc = n; query_proof_rpc_parallel_tasks = m })
                    net
                    hash
                    ps).inserted
                ≡ cells)
      by_sizes zero m g = absurd (fetch_partition_zero fat zero m hash ps cells (inl refl) g)
      by_sizes (suc n) zero g =
          absurd (fetch_partition_zero fat (suc n) zero hash ps cells (inr refl) g)
      by_sizes (suc n) (suc m) g =
          let e = fetch_partition-handle_results fat n m hash ps in
          let f = subst (λ r. r.cells ≡ ok cells) e g in
          (
            handle_results-positions_of hash (chunks (suc n) ps) cells v f ∙ concat-chunks n ps,
            subst (λ r. concat r.inserted ≡ cells) (sym e)
                (handle_results-inserted (map (request_kate_proof net hash) (chunks (suc n) ps))
                  cells f),
          )

  -- The batches before the first that was not answered were put into the DHT, and no others.
  pub record Failed (hash : H256) (batches : List (List Position)) (inserted : List (List Cell))
      : Type 0 where
    pub done : List (List Position)
    pub failed : List Position
    pub later : List (List Position)
    pub order : batches ≡ done ++ failed ∷ later
    pub unanswered : net.query_proof hash failed ≡ none
    pub stored : map ok inserted ≡ map (request_kate_proof net hash) done

  request_kate_proof_unanswered :
      (hash : H256) (ps : List Position) (e : FetchError)
      → request_kate_proof net hash ps ≡ err e
      → net.query_proof hash ps ≡ none
  unfolding request_kate_proof
  request_kate_proof_unanswered hash ps e h = elim (Option-cases (net.query_proof hash ps)) [
    | inl p ↦ p
    | inr (xs, p) ↦ ground arith
  ]

  handle_results-Failed :
      (hash : H256) (pss : List (List Position)) (x : FatError)
      → (handle_results (map (request_kate_proof net hash) pss)).cells ≡ err x
      → Failed hash pss (handle_results (map (request_kate_proof net hash) pss)).inserted
  unfolding handle_results
  handle_results-Failed hash [] x h = ground arith
  handle_results-Failed hash (ps ∷ pss) x h = elim (Result-cases (request_kate_proof net hash ps)) [
    | inr (e, p) ↦ record {
      done = [];
      failed = ps;
      later = pss;
      order = refl;
      unanswered = request_kate_proof_unanswered hash ps e p;
      stored = ground arith;
    }
    | inl (cs, p) ↦
        elim (Result-cases (handle_results (map (request_kate_proof net hash) pss)).cells) [
          | inl (ds, q) ↦ ground arith
          | inr (e, q) ↦
              let w = handle_results-Failed hash pss e q in
              record {
                done = ps ∷ w.done;
                failed = w.failed;
                later = w.later;
                order = ap (λ qs. ps ∷ qs) w.order;
                unanswered = w.unanswered;
                stored = ground (arith, w.stored);
              }
        ]
  ]

  -- A fetch that fails, in batches of a size above zero, has met a batch that was not answered.
  pub fetch_partition-Failed :
      (fat : FatKate kate) (n m : ℕ) (hash : H256) (ps : List Position) (x : FatError)
      → (fetch_partition fat
          (record { max_cells_per_rpc = suc n; query_proof_rpc_parallel_tasks = suc m })
          net
          hash
          ps).cells
        ≡ err x
      → Failed hash
          (chunks (suc n) ps)
          (fetch_partition fat
            (record { max_cells_per_rpc = suc n; query_proof_rpc_parallel_tasks = suc m })
            net
            hash
            ps).inserted
  fetch_partition-Failed fat n m hash ps x h =
      let e = fetch_partition-handle_results fat n m hash ps in
      subst (λ r. Failed hash (chunks (suc n) ps) r.inserted) (sym e)
        (handle_results-Failed hash (chunks (suc n) ps) x (subst (λ r. r.cells ≡ err x) e h))

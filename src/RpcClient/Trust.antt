-- ===== src/RpcClient/Trust.antt =====
-- The node that the client of core/src/network/rpc/client.rs is connected to, and who answered a call.
use avail_light.Prelude.{
  ℕ, ◌≡◌, ◌⊎◌, refl, subst, inl, inr, Bool, true, false, not, Option, some, List, [], ◌∷◌, ◌++◌,
  ◌==◌, leb, length, retain, arith, In, Bool-cases, Option-cases, Result, ok, err,
}
use avail_light.RpcClient.{
  Node, GenesisHash, matches, Phase, current_client, Retried, done, exhausted, cancelled, RpcLib,
  switched_connection, RetryError, ClientState, ConnectionAttempt, shuffle, from_hex,
  create_rpc_client, try_node_connection_and_exec, try_connect_and_execute, try_nodes_with_retries,
  try_with_current_client,
}

pub Retried-cases :
    {A : Type 0} (r : Retried A) → ((a : A) × (r ≡ done a)) ⊎ ((r ≡ exhausted) ⊎ (r ≡ cancelled))
Retried-cases (done a) = inl (a, refl)
Retried-cases exhausted = inr (inl refl)
Retried-cases cancelled = inr (inr refl)

retain-In : (p : Node → Bool) (ns : List Node) (n : Node) → In n (retain p ns) → In n ns
retain-In p [] n m = m
retain-In p (x ∷ ns) n m = elim (Bool-cases (p x)) [
  | inl e ↦ elim (subst (λ zs. In n zs) (kept e) m) [
    | inl q ↦ inl q
    | inr q ↦ inr (retain-In p ns n q)
  ]
  | inr e ↦ inr (retain-In p ns n (subst (λ zs. In n zs) (dropped e) m))
]
  where
    kept : p x ≡ true → retain p (x ∷ ns) ≡ x ∷ retain p ns
    kept e = ground arith

    dropped : p x ≡ false → retain p (x ∷ ns) ≡ retain p ns
    dropped e = ground arith

module _ (lib : RpcLib) where
  -- A strategy is done only with the result of one of the attempts.
  abbrev pub IsSpawn : Type 1
  IsSpawn =
      (A : Type 0) (phase : Phase) (f : ℕ → Option A) (a : A)
      → lib.spawn phase f ≡ done a
      → (i : ℕ) × (f i ≡ some a)

  -- What is shuffled has no other nodes.
  abbrev pub IsShuffle : Type 0
  IsShuffle = (ns : List Node) (n : Node) → In n (lib.shuffled ns) → In n ns

  module _ (expected_genesis_hash : ℕ) where
    -- The host is one of the list, and its genesis hash is the expected one.
    pub record IsTrusted (nodes : List Node) (n : Node) : Type 0 where
      pub listed : Node
      pub member : In listed nodes
      pub host : listed.host ≡ n.host
      pub expected_hash : GenesisHash
      pub expected : from_hex lib expected_genesis_hash ≡ some expected_hash
      pub matching : matches expected_hash n.genesis_hash ≡ true

    pub record IsConnected (nodes : List Node) (s : ClientState) : Type 0 where
      pub trusted : IsTrusted nodes s.subxt_client
      pub stored : s.rpc_node ≡ some s.subxt_client

    create_rpc_client-IsTrusted :
        (nodes : List Node) (phase : Phase) (attempt : ℕ) (n node : Node)
        → In n nodes
        → create_rpc_client lib expected_genesis_hash phase attempt n.host ≡ some node
        → IsTrusted nodes node
    unfolding create_rpc_client
    create_rpc_client-IsTrusted nodes phase attempt n node m h =
        elim (Option-cases (lib.connect phase attempt n.host)) [
          | inl e ↦ ground arith
          | inr ((v, spec, g), e) ↦ elim (Option-cases (from_hex lib expected_genesis_hash)) [
            | inl f ↦ ground arith
            | inr (x, f) ↦ elim (Bool-cases (matches x g)) [
              | inr i ↦ ground arith
              | inl i ↦ record {
                listed = n;
                member = m;
                host = ground arith;
                expected_hash = x;
                expected = f;
                matching = ground arith;
              }
            ]
          ]
        ]

    pub smaller-IsTrusted :
        (ns nodes : List Node) (n : Node)
        → ((x : Node) → In x ns → In x nodes)
        → IsTrusted ns n
        → IsTrusted nodes n
    smaller-IsTrusted ns nodes n h v = record {
      listed = v.listed;
      member = h v.listed v.member;
      host = v.host;
      expected_hash = v.expected_hash;
      expected = v.expected;
      matching = v.matching;
    }

    module _ {T : Type 0} (f : Phase → ℕ → Node → Option T) where
      pub try_connect_and_execute-IsTrusted :
          (phase : Phase) (nodes : List Node) (attempt : ℕ) (a : ConnectionAttempt T)
          → try_connect_and_execute lib expected_genesis_hash f phase nodes attempt ≡ some a
          → IsTrusted nodes a.node × (f phase attempt a.node ≡ some a.result)
      unfolding try_connect_and_execute try_node_connection_and_exec
      try_connect_and_execute-IsTrusted phase [] attempt a h = ground arith
      try_connect_and_execute-IsTrusted phase (n ∷ nodes) attempt a h =
          elim (Option-cases (create_rpc_client lib expected_genesis_hash phase attempt n.host)) [
            | inl e ↦
                let (v, w) =
                  try_connect_and_execute-IsTrusted phase nodes attempt a (ground arith) in
                (smaller-IsTrusted nodes (n ∷ nodes) a.node (λ x m. inr m) v, w)
            | inr (node, e) ↦ elim (Option-cases (f phase attempt node)) [
              | inl g ↦
                  let (v, w) =
                    try_connect_and_execute-IsTrusted phase nodes attempt a (ground arith) in
                  (smaller-IsTrusted nodes (n ∷ nodes) a.node (λ x m. inr m) v, w)
              | inr (result, g) ↦
                  let i : node ≡ a.node = ground arith in
                  (
                    subst (λ z. IsTrusted (n ∷ nodes) z) i
                        (create_rpc_client-IsTrusted (n ∷ nodes) phase attempt n node (inl refl) e),
                    ground arith,
                  )
            ]
          ]

      -- The client is connected to a node that has given the result.
      pub record Switched (nodes : List Node) (phase : Phase) (x : T) (s s' : ClientState)
          : Type 0 where
        pub connected : IsConnected nodes s'
        pub attempt : ℕ
        pub answered : f phase attempt s'.subxt_client ≡ some x
        pub announced : s'.events ≡ s.events ++ switched_connection s'.subxt_client.host ∷ []

      pub try_nodes_with_retries-Switched :
          (listening : Bool) (phase : Phase) (nodes : List Node) (s s' : ClientState)
          (r : Result RetryError T)
          → IsSpawn
          → try_nodes_with_retries lib expected_genesis_hash f listening phase nodes s ≡ (r, s')
          → ((x : T) × (r ≡ ok x) × Switched nodes phase x s s')
            ⊎ ((e : RetryError) × (r ≡ err e) × (s' ≡ s))
      unfolding try_nodes_with_retries
      try_nodes_with_retries-Switched listening phase nodes s s' r v h =
          elim (Retried-cases
            (lib.spawn phase (try_connect_and_execute lib expected_genesis_hash f phase nodes))) [
              | inr (inl e) ↦ inr (RetryError.connection_failed, ground arith, ground arith)
              | inr (inr e) ↦ inr (RetryError.shutdown_started, ground arith, ground arith)
              | inl (a, e) ↦ elim (Bool-cases listening) [
                | inr b ↦ inr (RetryError.no_receiver, ground arith, ground arith)
                | inl b ↦
                    let (i, g) =
                      v (ConnectionAttempt T) phase
                        (try_connect_and_execute lib expected_genesis_hash f phase nodes) a e in
                    let (t, w) = try_connect_and_execute-IsTrusted phase nodes i a g in
                    inl (
                      a.result,
                      ground arith,
                      record {
                        connected = record {
                          trusted = subst (λ z. IsTrusted nodes z) (ground arith) t;
                          stored = ground arith;
                        };
                        attempt = i;
                        answered = ground arith;
                        announced = ground arith;
                      },
                    )
              ]
            ]

      pub try_with_current_client-answered :
          (s : ClientState) (x : T)
          → IsSpawn
          → try_with_current_client lib expected_genesis_hash f s ≡ ok x
          → (i : ℕ) × (f current_client i s.subxt_client ≡ some x)
      unfolding try_with_current_client
      try_with_current_client-answered s x v h =
          elim (Retried-cases
            (lib.spawn current_client (λ attempt. f current_client attempt s.subxt_client))) [
              | inl (y, e) ↦
                  let (i, g) =
                    v T current_client (λ attempt. f current_client attempt s.subxt_client) y e in
                  (i, ground arith)
              | inr (inl e) ↦ ground arith
              | inr (inr e) ↦ ground arith
            ]

      pub shuffle-In :
          (host : ℕ) (nodes : List Node) (n : Node)
          → IsShuffle
          → In n (shuffle lib.shuffled host nodes).0 ⊎ In n (shuffle lib.shuffled host nodes).1
          → In n nodes
      unfolding shuffle
      shuffle-In host nodes n v h = elim (Bool-cases (leb (length nodes) 1)) [
        | inl e ↦ elim h [
          | inl m ↦ subst (λ z. In n z.0) (single e) m
          | inr m ↦ absurd (subst (λ z. In n z.1) (single e) m)
        ]
        | inr e ↦ elim h [
          | inl m ↦
              retain-In (λ x. not (x.host == host)) nodes n
                (v (retain (λ x. not (x.host == host)) nodes) n
                  (subst (λ z. In n z.0) (several e) m))
          | inr m ↦ retain-In (λ x. x.host == host) nodes n (subst (λ z. In n z.1) (several e) m)
        ]
      ]
        where
          single : leb (length nodes) 1 ≡ true → shuffle lib.shuffled host nodes ≡ (nodes, [])
          single e = unfold shuffle in ground arith

          several :
              leb (length nodes) 1 ≡ false
              → shuffle lib.shuffled host nodes ≡ (
                lib.shuffled (retain (λ x. not (x.host == host)) nodes),
                retain (λ x. x.host == host) nodes,
              )
          several e = unfold shuffle in ground arith

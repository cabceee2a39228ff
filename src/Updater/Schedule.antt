-- ===== src/Updater/Schedule.antt =====
-- When the loop of core/src/updater/mod.rs installs a release.
use avail_light.Prelude.{
  ℕ, ◌-◌, ◌%◌, ◌≤◌, ◌≡◌, refl, ap, subst, inl, inr, true, false, some, none, List, [], ◌∷◌, ◌++◌,
  ◌==◌, leb, arith, Bool-cases, Option-cases,
}
use avail_light.Updater.{
  VersionLib, Release, Asset, BlockMessage, updated, UpdaterConfig, GithubRelease, check_interval,
  get_releases, latest_stable, target_asset, install, find_newer, run,
}

module _ (lib : VersionLib) (cfg : UpdaterConfig lib) where
  -- The release was found at a block of the schedule, as the latest stable one and newer than the
  -- version that runs.
  pub record Found (m : BlockMessage lib) (r : Release lib) : Type 0 where
    pub slot : m.block_num % check_interval ≡ cfg.delay_sec % check_interval
    pub answer : List GithubRelease
    pub answered : m.releases ≡ some answer
    pub releases : List (Release lib)
    pub converted : get_releases lib answer ≡ some releases
    pub latest : latest_stable lib releases ≡ some r
    pub newer : lib.is_greater r.version cfg.version ≡ true

  -- The release is installed at a block, once the delay has passed since a time.
  pub record Due (started_at : ℕ) (m : BlockMessage lib) (r : Release lib) : Type 0 where
    pub allowed : cfg.no_update ≡ false
    pub waited : cfg.delay_sec ≤ m.now - started_at
    pub asset : Asset
    pub fitting : target_asset lib cfg.target r ≡ some asset
    pub installed : m.is_installed asset ≡ true

  pub record Scheduled (ms : List (BlockMessage lib)) (r : Release lib) : Type 0 where
    pub before : List (BlockMessage lib)
    pub seen : BlockMessage lib
    pub between : List (BlockMessage lib)
    pub last : BlockMessage lib
    pub after : List (BlockMessage lib)
    pub order : ms ≡ before ++ seen ∷ between ++ last ∷ after
    pub found : Found seen r
    pub due : Due seen.now last r

  record Waited (started_at : ℕ) (ms : List (BlockMessage lib)) (r : Release lib) : Type 0 where
    between : List (BlockMessage lib)
    last : BlockMessage lib
    after : List (BlockMessage lib)
    order : ms ≡ between ++ last ∷ after
    due : Due started_at last r

  install-updated :
      (m : BlockMessage lib) (q r : Release lib)
      → install lib cfg m q ≡ updated r
      → (q ≡ r)
        × (asset : Asset) × (target_asset lib cfg.target q ≡ some asset)
        × (m.is_installed asset ≡ true)
  unfolding install
  install-updated m q r h = elim (Option-cases (target_asset lib cfg.target q)) [
    | inl e ↦ ground arith
    | inr (asset, e) ↦ elim (Bool-cases (m.is_installed asset)) [
      | inl f ↦ (ground arith, asset, e, f)
      | inr f ↦ ground arith
    ]
  ]

  run-Waited :
      (ms : List (BlockMessage lib)) (q r : Release lib) (started_at : ℕ)
      → run lib cfg ms (some (q, started_at)) ≡ updated r
      → (q ≡ r) × Waited started_at ms r
  unfolding run
  run-Waited [] q r s h = ground arith
  run-Waited (m ∷ ms) q r s h = elim (Bool-cases cfg.no_update) [
    | inl e ↦ later m ms q r s (run-Waited ms q r s (ground arith))
    | inr e ↦ elim (Bool-cases (leb cfg.delay_sec (m.now - s))) [
      | inr f ↦ later m ms q r s (run-Waited ms q r s (ground arith))
      | inl f ↦
          let (i, asset, j, k) = install-updated m q r (ground arith) in
          (
            i,
            record {
              between = [];
              last = m;
              after = ms;
              order = refl;
              due = record {
                allowed = e;
                waited = ground arith;
                asset = asset;
                fitting = ground arith;
                installed = k;
              };
            },
          )
    ]
  ]
    where
      later :
          (m : BlockMessage lib) (ms : List (BlockMessage lib)) (q r : Release lib) (s : ℕ)
          → (q ≡ r) × Waited s ms r
          → (q ≡ r) × Waited s (m ∷ ms) r
      later m ms q r s (i, w) = (
        i,
        record {
          between = m ∷ w.between;
          last = w.last;
          after = w.after;
          order = ap (λ xs. m ∷ xs) w.order;
          due = w.due;
        },
      )

  find_newer-Found :
      (m : BlockMessage lib) (r : Release lib) → find_newer lib cfg m ≡ some r → Found m r
  unfolding find_newer
  find_newer-Found m r h =
      elim (Bool-cases (m.block_num % check_interval == cfg.delay_sec % check_interval)) [
        | inr e ↦ ground arith
        | inl e ↦ elim (Option-cases m.releases) [
          | inl f ↦ ground arith
          | inr (answer, f) ↦ elim (Option-cases (get_releases lib answer)) [
            | inl g ↦ ground arith
            | inr (releases, g) ↦ elim (Option-cases (latest_stable lib releases)) [
              | inl i ↦ ground arith
              | inr (latest, i) ↦ elim (Bool-cases (lib.is_greater latest.version cfg.version)) [
                | inr j ↦ ground arith
                | inl j ↦ record {
                  slot = ground arith;
                  answer = answer;
                  answered = f;
                  releases = releases;
                  converted = g;
                  latest = ground arith;
                  newer = ground arith;
                }
              ]
            ]
          ]
        ]
      ]

  -- A loop that ends with an update has found the release at a block of its schedule, as the latest
  -- stable one of GitHub's answer and newer than the version that runs, and has installed it at a later
  -- block, at least the delay after; updates are not switched off.
  pub run-Scheduled :
      (ms : List (BlockMessage lib)) (r : Release lib)
      → run lib cfg ms none ≡ updated r
      → Scheduled ms r
  unfolding run
  run-Scheduled [] r h = ground arith
  run-Scheduled (m ∷ ms) r h = elim (Option-cases (find_newer lib cfg m)) [
    | inl e ↦
        let w = run-Scheduled ms r (ground arith) in
        record {
          before = m ∷ w.before;
          seen = w.seen;
          between = w.between;
          last = w.last;
          after = w.after;
          order = ap (λ xs. m ∷ xs) w.order;
          found = w.found;
          due = w.due;
        }
    | inr (q, e) ↦
        let (i, w) = run-Waited ms q r m.now (ground arith) in
        record {
          before = [];
          seen = m;
          between = w.between;
          last = w.last;
          after = w.after;
          order = ap (λ xs. m ∷ xs) w.order;
          found = subst (λ z. Found m z) i (find_newer-Found m q e);
          due = w.due;
        }
  ]

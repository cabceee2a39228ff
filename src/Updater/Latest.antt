-- ===== src/Updater/Latest.antt =====
-- Which release `latest_stable` of core/src/updater/mod.rs finds.
use avail_light.Prelude.{
  ◌≡◌, refl, subst, inl, inr, true, false, some, none, List, [], ◌∷◌, arith, In, Bool-cases,
  Option-cases,
}
use avail_light.Updater.{
  VersionLib, Channel, stable, release_candidate, Release, is_stable_release, latest_stable,
}

module _ (lib : VersionLib) where
  -- The order of the versions: what is greater is not less, and not being greater carries on.
  pub record IsOrder : Type 0 where
    pub asymmetric : (a b : lib.Version) → lib.is_greater a b ≡ true → lib.is_greater b a ≡ false
    pub carried :
        (a b c : lib.Version)
        → lib.is_greater a b ≡ false
        → lib.is_greater b c ≡ false
        → lib.is_greater a c ≡ false

  -- A stable release of the list that no stable release of the list is greater than.
  pub record IsLatest (rs : List (Release lib)) (r : Release lib) : Type 0 where
    pub member : In r rs
    pub is_stable : r.channel ≡ stable
    pub greatest :
        (x : Release lib)
        → In x rs
        → x.channel ≡ stable
        → lib.is_greater x.version r.version ≡ false

  not_greater_self : (a : lib.Version) → IsOrder → lib.is_greater a a ≡ false
  not_greater_self a o = elim (Bool-cases (lib.is_greater a a)) [
    | inl e ↦ o.asymmetric a a e
    | inr e ↦ e
  ]

  is_stable_release-stable : (c : Channel) → is_stable_release c ≡ true → c ≡ stable
  is_stable_release-stable stable h = refl
  is_stable_release-stable release_candidate h = ground arith

  unstable :
      (r x : Release lib) → r ≡ x → x.channel ≡ stable → is_stable_release r.channel ≡ false → ⊥
  unstable r x e s h = ground arith

  none-unstable :
      (rs : List (Release lib))
      → latest_stable lib rs ≡ none
      → (x : Release lib) → In x rs
      → x.channel ≡ stable
      → ⊥
  unfolding latest_stable
  none-unstable [] h x m s = m
  none-unstable (r ∷ rs) h x m s = elim (Bool-cases (is_stable_release r.channel)) [
    | inl e ↦ elim (Option-cases (latest_stable lib rs)) [
      | inl f ↦ ground arith
      | inr (y, f) ↦ elim (Bool-cases (lib.is_greater r.version y.version)) [
        | inl g ↦ ground arith
        | inr g ↦ ground arith
      ]
    ]
    | inr e ↦ elim m [ inl p ↦ unstable r x p s e | inr p ↦ none-unstable rs (ground arith) x p s ]
  ]

  -- With an order of the versions, the latest stable release is a stable one of the list, and no
  -- stable release of the list is greater.
  pub latest_stable-IsLatest :
      (rs : List (Release lib)) (r : Release lib)
      → IsOrder
      → latest_stable lib rs ≡ some r
      → IsLatest rs r
  unfolding latest_stable
  latest_stable-IsLatest [] r o h = ground arith
  latest_stable-IsLatest (q ∷ rs) r o h = elim (Bool-cases (is_stable_release q.channel)) [
    | inr e ↦
        let w = latest_stable-IsLatest rs r o (ground arith) in
        record {
          member = inr w.member;
          is_stable = w.is_stable;
          greatest =
              λ x m s. elim m [ inl p ↦ absurd (unstable q x p s e) | inr p ↦ w.greatest x p s ];
        }
    | inl e ↦ elim (Option-cases (latest_stable lib rs)) [
      | inl f ↦
          let g : q ≡ r = ground arith in
          record {
            member = inl g;
            is_stable = is_stable_release-stable r.channel (ground arith);
            greatest = λ x m s. elim m [
              | inl p ↦
                  subst (λ z. lib.is_greater z.version r.version ≡ false) p
                    (subst (λ z. lib.is_greater q.version z.version ≡ false) g
                      (not_greater_self q.version o))
              | inr p ↦ absurd (none-unstable rs f x p s)
            ];
          }
      | inr (y, f) ↦
          let w = latest_stable-IsLatest rs y o f in
          elim (Bool-cases (lib.is_greater q.version y.version)) [
            | inl g ↦
                let i : q ≡ r = ground arith in
                record {
                  member = inl i;
                  is_stable = is_stable_release-stable r.channel (ground arith);
                  greatest = λ x m s.
                      subst (λ z. lib.is_greater x.version z.version ≡ false) i
                        (elim m [
                          | inl p ↦
                              subst (λ z. lib.is_greater z.version q.version ≡ false) p
                                (not_greater_self q.version o)
                          | inr p ↦
                              o.carried x.version y.version q.version (w.greatest x p s)
                                (o.asymmetric q.version y.version g)
                        ]);
                }
            | inr g ↦
                let i : y ≡ r = ground arith in
                subst (λ z. IsLatest (q ∷ rs) z) i
                  (record {
                    member = inr w.member;
                    is_stable = w.is_stable;
                    greatest = λ x m s. elim m [
                      | inl p ↦ subst (λ z. lib.is_greater z.version y.version ≡ false) p g
                      | inr p ↦ w.greatest x p s
                    ];
                  })
          ]
    ]
  ]

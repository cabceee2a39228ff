-- ===== src/Monitor/Window.antt =====
-- The window of the latest records in monitor-client/src: pushing a record onto what is kept of a
-- history keeps what the longer history has last.
use avail_light.Prelude.{
  ℕ, zero, suc, ◌-◌, ◌≤◌, ◌<◌, ◌≡◌, refl, ap, sym, ◌∙◌, inl, inr, List, [], ◌∷◌, ◌++◌,
  if◌then◌else◌, ltb, arith, length, length-append, Bool-cases,
}
use avail_light.Prelude.Chunks.{skip, length-skip}
use avail_light.Monitor.{max_records, push_record}

module _ {A : Type 0} where
  unfoldable pub latest : List A → List A
  latest xs = skip (length xs - max_records) xs

  skip-append : (n : ℕ) (xs ys : List A) → n ≤ length xs → skip n (xs ++ ys) ≡ skip n xs ++ ys
  skip-append zero xs ys h = refl
  skip-append (suc n) [] ys h = absurd (omega arith)
  skip-append (suc n) (x ∷ xs) ys h = skip-append n xs ys (omega arith)

  skip_next : (n : ℕ) (xs ys : List A) (y : A) → skip n xs ≡ y ∷ ys → skip (suc n) xs ≡ ys
  skip_next zero [] ys y h = ground arith
  skip_next zero (x ∷ xs) ys y h = ground arith
  skip_next (suc n) [] ys y h = ground arith
  skip_next (suc n) (x ∷ xs) ys y h = skip_next n xs ys y h

  strict : (n : ℕ) (h : List A) (y : A) (ys : List A) → skip n h ≡ y ∷ ys → suc n ≤ length h
  strict zero [] y ys e = ground arith
  strict (suc n) [] y ys e = ground arith
  strict zero (x ∷ h) y ys e = omega arith
  strict (suc n) (x ∷ h) y ys e = omega (arith, strict n h y ys e)

  push_few : (x : A) (xs : List A) → length xs < max_records → push_record x xs ≡ xs ++ x ∷ []
  unfolding push_record
  push_few x xs l = ground (arith, length-append xs (x ∷ []))

  push_full :
      (x y : A) (xs ys : List A)
      → xs ≡ y ∷ ys
      → length xs ≡ max_records
      → push_record x xs ≡ ys ++ x ∷ []
  unfolding push_record
  push_full x y xs ys e l = ground (arith, length-append ys (x ∷ []))

  nonempty : (n : ℕ) (xs : List A) → length xs ≡ suc n → (y : A) × (ys : List A) × (xs ≡ y ∷ ys)
  nonempty n [] l = absurd (omega arith)
  nonempty n (x ∷ xs) l = (x, xs, refl)

  latest_few : (h : List A) → length h ≤ max_records → latest h ≡ h
  unfolding latest
  latest_few h l = let e : length h - max_records ≡ 0 = omega arith in rw e refl

  -- What is kept of a longer history is that of the history and the new record.
  pub push_record-latest : (x : A) (h : List A) → push_record x (latest h) ≡ latest (h ++ x ∷ [])
  push_record-latest x h = elim (Bool-cases (ltb (length h) max_records)) [
    | inl e ↦
        ap (push_record x) (latest_few h (ground arith))
        ∙ push_few x h (ground arith)
        ∙ sym (latest_few (h ++ x ∷ []) (ground (arith, length-append h (x ∷ []))))
    | inr e ↦
        let n : ℕ = length h - max_records in
        let l : max_records ≤ length h = ground arith in
        let (y, ys, f) = nonempty 19 (skip n h) (omega (arith, length-skip n h (omega arith))) in
        let k : length (h ++ x ∷ []) - max_records ≡ suc n =
          omega (arith, length-append h (x ∷ [])) in
        unfold latest in
        push_full x y (skip n h) ys f (omega (arith, length-skip n h (omega arith)))
        ∙ ap (λ zs. zs ++ x ∷ []) (sym (skip_next n h ys y f))
        ∙ sym (skip-append (suc n) h (x ∷ []) (strict n h y ys f))
        ∙ ap (λ m. skip m (h ++ x ∷ [])) (sym k)
  ]

  pub length-latest :
      (h : List A)
      → length (latest h) ≡ (if ltb (length h) max_records then length h else max_records)
  unfolding latest
  length-latest h = elim (Bool-cases (ltb (length h) max_records)) [
    | inl e ↦ let f : length h - max_records ≡ 0 = ground arith in rw (f, e) refl
    | inr e ↦
        let l : max_records ≤ length h = ground arith in
        rw e (omega (arith, length-skip (length h - max_records) h (omega arith)))
  ]

-- ===== src/Monitor/Pages.antt =====
-- The pages of monitor-client/src/server.rs, and what the page of blacklisted peers lists.
use avail_light.Prelude.{
  ℕ, zero, suc, ◌+◌, ◌-◌, ◌*◌, ◌/◌, ◌<◌, ◌≡◌, refl, ap, subst, ◌∙◌, inl, inr, false, List, [], ◌∷◌,
  ◌++◌, ◌==◌, arith, length, take, take_all, All, Bool-cases, Result, ok, err,
}
use native.Mathlib.Nat.{lt-div-mul-add}
use avail_light.Prelude.Assoc.{Assoc}
use avail_light.Prelude.Sort.{sort_by_key, All-sort_by_key}
use avail_light.Prelude.Chunks.{skip}
use avail_light.Monitor.{
  ServerInfo, PaginationConfig, PeerInfo, PaginatedResponse, PageError, validate_page,
  validate_limit, div_ceil, paginate_as_array, blacklisted_info, blacklisted_entries,
  get_blacklisted_peers,
}

module _ {A : Type 0} where
  skip_add : (a b : ℕ) (xs : List A) → skip (a + b) xs ≡ skip b (skip a xs)
  skip_add zero b xs = ground arith
  skip_add (suc a) zero [] = ground arith
  skip_add (suc a) (suc b) [] = let e : suc a + suc b ≡ suc (a + suc b) = omega arith in rw e refl
  skip_add (suc a) b (x ∷ xs) =
      let e : suc a + b ≡ suc (a + b) = omega arith in rw e (skip_add a b xs)

  take_add : (a b : ℕ) (xs : List A) → take (a + b) xs ≡ take a xs ++ take b (skip a xs)
  take_add zero b xs = ground arith
  take_add (suc a) zero [] = ground arith
  take_add (suc a) (suc b) [] = let e : suc a + suc b ≡ suc (a + suc b) = omega arith in rw e refl
  take_add (suc a) b (x ∷ xs) =
      let e : suc a + b ≡ suc (a + b) = omega arith in rw e (ap (λ ys. x ∷ ys) (take_add a b xs))

  All-skip : (P : A → Type 0) (n : ℕ) (xs : List A) → All P xs → All P (skip n xs)
  All-skip P zero xs h = h
  All-skip P (suc n) [] h = tt
  All-skip P (suc n) (x ∷ xs) h = All-skip P n xs h.1

  All-take : (P : A → Type 0) (n : ℕ) (xs : List A) → All P xs → All P (take n xs)
  All-take P zero xs h = tt
  All-take P (suc n) [] h = tt
  All-take P (suc n) (x ∷ xs) h = (h.0, All-take P n xs h.1)

  abbrev page_of : Result PageError (PaginatedResponse A) → List A
  page_of (err e) = []
  page_of (ok r) = r.page

  -- The pages from one on, as many as a number.
  unfoldable pub pages_from : List A → ℕ → ℕ → ℕ → List A
  unfolding paginate_as_array
  pages_from items limit first zero = []
  pages_from items limit first (suc count) =
      page_of (paginate_as_array items first limit) ++ pages_from items limit (first + 1) count

  pages_from-take :
      (items : List A) (l first count : ℕ)
      → pages_from items (suc l) (suc first) count
        ≡ take (count * suc l) (skip (first * suc l) items)
  unfolding pages_from paginate_as_array
  pages_from-take items l first zero = let e : zero * suc l ≡ 0 = omega arith in rw e refl
  pages_from-take items l first (suc count) =
      let e : suc count * suc l ≡ suc l + count * suc l = omega arith in
      let f : suc first * suc l ≡ first * suc l + suc l = omega arith in
      let g : suc first + 1 ≡ suc (suc first) = omega arith in
      let i : suc first - 1 ≡ first = omega arith in
      rw e (
        ground (
          arith,
          pages_from-take items l (suc first) count,
          skip_add (first * suc l) (suc l) items,
          take_add (suc l) (count * suc l) (skip (first * suc l) items),
        ))

  -- The pages of a list, from the first to the last of their total number, have all items of the list
  -- in their order, each of them once.
  pub pages_from_all :
      (items : List A) (l : ℕ)
      → pages_from items (suc l) 1 (div_ceil (length items) (suc l)) ≡ items
  unfolding div_ceil
  pages_from_all items l =
      let k : ℕ = (length items + (suc l - 1)) / suc l in
      let w : length items + (suc l - 1) < k * suc l + suc l =
        lt-div-mul-add {a = length items + (suc l - 1)} {b = suc l} (omega arith) in
      let e : 0 * suc l ≡ 0 = omega arith in
      pages_from-take items l 0 k ∙ rw e (take_all (k * suc l) items (omega (arith, w)))

unlisted :
    (servers : Assoc ServerInfo) → All (λ p. p.is_blacklisted ≡ false) (blacklisted_entries servers)
unfolding blacklisted_entries blacklisted_info
unlisted [] = tt
unlisted ((peer, info) ∷ servers) = elim (Bool-cases info.is_blacklisted) [
  | inl e ↦ rw e (unlisted servers)
  | inr e ↦ rw e (refl, unlisted servers)
]

-- Every peer that the endpoint for blacklisted peers lists, on any page, is one that is not
-- blacklisted.
pub get_blacklisted_peers_unlisted :
    (c : PaginationConfig) (page limit : ℕ) (servers : Assoc ServerInfo)
    (r : PaginatedResponse PeerInfo)
    → get_blacklisted_peers c page limit servers ≡ ok r
    → All (λ p. p.is_blacklisted ≡ false) r.page
unfolding get_blacklisted_peers paginate_as_array
get_blacklisted_peers_unlisted c page limit servers r h =
    let entries : List PeerInfo = sort_by_key (λ p. p.peer_id) (blacklisted_entries servers) in
    let n : ℕ = (validate_page c page - 1) * validate_limit c limit in
    elim (Bool-cases (validate_limit c limit == 0)) [
      | inl e ↦ ground arith
      | inr e ↦ elim (Bool-cases (validate_page c page == 0)) [
        | inl f ↦ ground arith
        | inr f ↦
            subst (λ q. All {A = PeerInfo} (λ p. p.is_blacklisted ≡ false) q) (ground arith)
              (All-take (λ p. p.is_blacklisted ≡ false) (validate_limit c limit) (skip n entries)
                (All-skip (λ p. p.is_blacklisted ≡ false) n entries
                  (All-sort_by_key (λ p. p.peer_id) (λ p. p.is_blacklisted ≡ false)
                    (blacklisted_entries servers) (unlisted servers))))
      ]
    ]

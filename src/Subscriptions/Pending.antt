-- ===== src/Subscriptions/Pending.antt =====
-- The unverified headers of core/src/network/rpc/subscriptions.rs: a vector that is searched from
-- the front and from which an element is removed by `swap_remove`.
use avail_light.Prelude.{
  ℕ, zero, suc, ◌+◌, ◌≡◌, refl, subst, inl, inr, Bool, true, false, Option, some, none, List, [],
  ◌∷◌, ◌==◌, if◌then◌else◌, arith, get_elem?, In, Bool-cases, Option-cases,
}
use avail_light.Types.Header.{AvailHeader}
use avail_light.Finality.{ValidatorSet}

pub record UnverifiedHeader : Type 0 where
  pub header : AvailHeader
  pub received_at : ℕ
  pub valset : ValidatorSet

last_of : UnverifiedHeader → List UnverifiedHeader → UnverifiedHeader
last_of x [] = x
last_of x (y ∷ ys) = last_of y ys

init_of : UnverifiedHeader → List UnverifiedHeader → List UnverifiedHeader
init_of x [] = []
init_of x (y ∷ ys) = x ∷ init_of y ys

-- `Vec::swap_remove`: the last element takes the place of the one removed.
unfoldable pub swap_remove : ℕ → List UnverifiedHeader → List UnverifiedHeader
unfolding last_of init_of
swap_remove i [] = []
swap_remove zero (x ∷ []) = []
swap_remove zero (x ∷ y ∷ ys) = last_of y ys ∷ init_of y ys
swap_remove (suc i) (x ∷ xs) = x ∷ swap_remove i xs

-- `Iterator::position`
unfoldable pub position : (UnverifiedHeader → Bool) → List UnverifiedHeader → Option ℕ
position f [] = none
position f (x ∷ xs) =
    let rest = position f xs in
    if f x then some 0 else elim rest [ none ↦ none | some i ↦ some (suc i) ]

-- The first element with a property, and the others.
unfoldable pub take_out :
    (UnverifiedHeader → Bool)
    → List UnverifiedHeader
    → Option (UnverifiedHeader × List UnverifiedHeader)
unfolding position swap_remove
take_out f xs = elim (position f xs) [
  | none ↦ none
  | some i ↦ elim (get_elem? xs i) [ none ↦ none | some x ↦ some (x, swap_remove i xs) ]
]

-- How many of the headers have a number.
unfoldable pub count_number : ℕ → List UnverifiedHeader → ℕ
count_number n [] = 0
count_number n (x ∷ xs) =
    let rest = count_number n xs in if x.header.number == n then suc rest else rest

one_if : Bool → ℕ
one_if true = 1
one_if false = 0

count-last_init :
    (n : ℕ) (x : UnverifiedHeader) (xs : List UnverifiedHeader)
    → count_number n (last_of x xs ∷ init_of x xs) ≡ count_number n (x ∷ xs)
unfolding count_number last_of init_of
count-last_init n x [] = refl
count-last_init n x (y ∷ ys) = ground (arith, count-last_init n y ys)

count-swap_remove :
    (n i : ℕ) (xs : List UnverifiedHeader) (x : UnverifiedHeader)
    → get_elem? xs i ≡ some x
    → count_number n xs ≡ count_number n (swap_remove i xs) + one_if (x.header.number == n)
unfolding count_number swap_remove one_if
count-swap_remove n i [] x h = ground arith
count-swap_remove n zero (y ∷ []) x h = ground arith
count-swap_remove n zero (y ∷ z ∷ xs) x h = ground (arith, count-last_init n z xs)
count-swap_remove n (suc i) (y ∷ xs) x h = ground (arith, count-swap_remove n i xs x)

position_lem :
    (f : UnverifiedHeader → Bool) (xs : List UnverifiedHeader) (i : ℕ)
    → position f xs ≡ some i
    → (x : UnverifiedHeader) × (get_elem? xs i ≡ some x) × (f x ≡ true) × In x xs
unfolding position
position_lem f [] i h = ground arith
position_lem f (x ∷ xs) i h = elim (Bool-cases (f x)) [
  | inl e ↦ (x, ground arith, e, inl refl)
  | inr e ↦ elim (Option-cases (position f xs)) [
    | inl p ↦ ground arith
    | inr (j, p) ↦ let (y, g, t, m) = position_lem f xs j p in (y, ground arith, t, inr m)
  ]
]

position_none :
    (n : ℕ) (xs : List UnverifiedHeader)
    → position (λ x. x.header.number == n) xs ≡ none
    → count_number n xs ≡ 0
unfolding position count_number
position_none n [] h = refl
position_none n (x ∷ xs) h = elim (Option-cases (position (λ x. x.header.number == n) xs)) [
  | inl p ↦ ground (arith, position_none n xs)
  | inr (j, p) ↦ ground arith
]

-- What is taken out has the property and stood in the vector, and the counts of the others stay.
pub record TakenOut (f : UnverifiedHeader → Bool) (xs : List UnverifiedHeader)
    (x : UnverifiedHeader) (rest : List UnverifiedHeader) : Type 0 where
  pub found : f x ≡ true
  pub member : In x xs
  pub counts :
      (n : ℕ) → count_number n xs ≡ count_number n rest + (if x.header.number == n then 1 else 0)

pub take_out-TakenOut :
    (f : UnverifiedHeader → Bool) (xs : List UnverifiedHeader) (x : UnverifiedHeader)
    (rest : List UnverifiedHeader)
    → take_out f xs ≡ some (x, rest)
    → TakenOut f xs x rest
unfolding take_out one_if
take_out-TakenOut f xs x rest h = elim (Option-cases (position f xs)) [
  | inl e ↦ ground arith
  | inr (i, e) ↦
      let (y, g, t, m) = position_lem f xs i e in
      record {
        found = ground arith;
        member = subst (λ z. In z xs) (ground arith) m;
        counts = λ n. ground (arith, count-swap_remove n i xs y g);
      }
]

pub take_out_absent :
    (n : ℕ) (xs : List UnverifiedHeader)
    → take_out (λ x. x.header.number == n) xs ≡ none
    → count_number n xs ≡ 0
unfolding take_out
take_out_absent n xs h = elim (Option-cases (position (λ x. x.header.number == n) xs)) [
  | inl e ↦ position_none n xs e
  | inr (i, e) ↦ let (y, g, t, m) = position_lem (λ x. x.header.number == n) xs i e in ground arith
]

last_of-In : (x : UnverifiedHeader) (xs : List UnverifiedHeader) → In (last_of x xs) (x ∷ xs)
unfolding last_of
last_of-In x [] = inl refl
last_of-In x (y ∷ ys) = inr (last_of-In y ys)

init_of-In :
    (x y : UnverifiedHeader) (xs : List UnverifiedHeader) → In y (init_of x xs) → In y (x ∷ xs)
unfolding init_of
init_of-In x y [] h = elim h [ ]
init_of-In x y (z ∷ zs) (inl e) = inl e
init_of-In x y (z ∷ zs) (inr h) = inr (init_of-In z y zs h)

swap_remove-In :
    (i : ℕ) (y : UnverifiedHeader) (xs : List UnverifiedHeader) → In y (swap_remove i xs) → In y xs
unfolding swap_remove
swap_remove-In i y [] h = h
swap_remove-In zero y (x ∷ []) h = elim h [ ]
swap_remove-In zero y (x ∷ z ∷ zs) (inl e) = inr (subst (λ w. In w (z ∷ zs)) e (last_of-In z zs))
swap_remove-In zero y (x ∷ z ∷ zs) (inr h) = inr (init_of-In z y zs h)
swap_remove-In (suc i) y (x ∷ xs) (inl e) = inl e
swap_remove-In (suc i) y (x ∷ xs) (inr h) = inr (swap_remove-In i y xs h)

-- What is left was there before.
pub take_out-In :
    (f : UnverifiedHeader → Bool) (xs rest : List UnverifiedHeader) (x y : UnverifiedHeader)
    → take_out f xs ≡ some (x, rest)
    → In y rest
    → In y xs
unfolding take_out
take_out-In f xs rest x y h m = elim (Option-cases (position f xs)) [
  | inl e ↦ ground arith
  | inr (i, e) ↦ elim (Option-cases (get_elem? xs i)) [
    | inl g ↦ ground arith
    | inr (z, g) ↦ swap_remove-In i y xs (subst (λ l. In y l) (ground arith) m)
  ]
]

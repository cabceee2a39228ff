-- ===== src/Finality/Ancestry.antt =====
-- `confirm_ancestry` of core/src/finality.rs: does following parent hashes lead from one block to
-- another?
use avail_light.Prelude.{
  ℕ, zero, suc, ◌≤◌, ◌≡◌, ◌↔◌, ◌⊎◌, inl, inr, Bool, true, false, some, none, arith, ◌==◌,
  if◌then◌else◌, length, Bool-cases, Option-cases, ==→eq, eq→==,
}
use avail_light.Prelude.Assoc.{Assoc, lookup, remove, lookup-remove, length-remove-lt}

-- The `for _ in 0..ancestry_map.len()` loop, on the rounds that are left.
follow : ℕ → ℕ → ℕ → Assoc ℕ → Bool
follow zero curr_hash root_hash ancestry_map = false
follow (suc rounds) curr_hash root_hash ancestry_map = elim (lookup curr_hash ancestry_map) [
  | none ↦ false
  | some parent_hash ↦ elim (parent_hash == root_hash) [
    | true ↦ true
    | false ↦ follow rounds parent_hash root_hash ancestry_map
  ]
]

unfoldable pub confirm_ancestry : ℕ → ℕ → Assoc ℕ → Bool
unfolding follow
confirm_ancestry child_hash root_hash ancestry_map =
    if child_hash == root_hash
    then true
    else follow (length ancestry_map) child_hash root_hash ancestry_map

-- A block descends from the root if it is the root, or its parent descends from the root.
pub data Descends (ancestry_map : Assoc ℕ) (root : ℕ) : ℕ → Type 0 where
  here : {h : ℕ} → h ≡ root → Descends ancestry_map root h
  parent :
      {h p : ℕ}
      → lookup h ancestry_map ≡ some p
      → Descends ancestry_map root p
      → Descends ancestry_map root h

follow-Descends : (n c root : ℕ) (m : Assoc ℕ) → follow n c root m ≡ true → Descends m root c
unfolding follow
follow-Descends zero c root m h = ground arith
follow-Descends (suc n) c root m h = elim (Option-cases (lookup c m)) [
  | inl e ↦ absurd (ground arith)
  | inr (p, e) ↦ elim (Bool-cases (p == root)) [
    | inl hit ↦ parent e (here (==→eq p root hit))
    | inr miss ↦ parent e (follow-Descends n p root m (ground arith))
  ]
]

-- A path to the root in so many steps.
abbrev Steps : Assoc ℕ → ℕ → ℕ → ℕ → Type 0
Steps m root zero c = c ≡ root
Steps m root (suc n) c = (p : ℕ) × (lookup c m ≡ some p) × Steps m root n p

Descends-Steps : {root : ℕ} {m : Assoc ℕ} {c : ℕ} → Descends m root c → (n : ℕ) × Steps m root n c
Descends-Steps (here e) = (0, e)
Descends-Steps (parent {p = p} e d) = let (n, s) = Descends-Steps d in (suc n, (p, e, s))

-- A path that starts elsewhere avoids a block, or has in it a path from that block.
avoid :
    (m : Assoc ℕ) (root c n p : ℕ)
    → Steps m root n p
    → Descends (remove c m) root p ⊎ ((k : ℕ) × (k ≤ n) × Steps m root k c)
avoid m root c zero p s = inl (here s)
avoid m root c (suc n) p (q, e, s) = elim (Bool-cases (c == p)) [
  | inl same ↦ inr (suc n, omega arith, (q, rw (==→eq c p same) e, s))
  | inr other ↦ elim (avoid m root c n q s) [
    | inl d ↦ inl (parent (rw (lookup-remove c p m, other) e) d)
    | inr (k, le, s') ↦ inr (k, omega arith, s')
  ]
]

-- A shortest path does not come back to its start.
leave :
    (b : ℕ) (m : Assoc ℕ) (root c n : ℕ)
    → n ≤ b
    → Steps m root n c
    → (c ≡ root) ⊎ ((p : ℕ) × (lookup c m ≡ some p) × Descends (remove c m) root p)
leave b m root c zero le s = inl s
leave zero m root c (suc n) le s = absurd (omega arith)
leave (suc b) m root c (suc n) le (p, e, s) = elim (avoid m root c n p s) [
  | inl d ↦ inr (p, e, d)
  | inr (k, le', s') ↦ leave b m root c k (omega arith) s'
]

follow-remove :
    (n c d root : ℕ) (m : Assoc ℕ) → follow n c root (remove d m) ≡ true → follow n c root m ≡ true
unfolding follow
follow-remove zero c d root m h = ground arith
follow-remove (suc n) c d root m h = elim (Option-cases (lookup c m)) [
  | inl e ↦ ground (arith, lookup-remove d c m)
  | inr (p, e) ↦ ground (arith, lookup-remove d c m, follow-remove n p d root m)
]

-- As many rounds as the map has entries are enough.
follow_enough :
    (n c root : ℕ) (m : Assoc ℕ)
    → length m ≤ n
    → Descends m root c
    → (c ≡ root) ⊎ (follow n c root m ≡ true)
unfolding follow
follow_enough zero c root m le d =
    let (k, s) = Descends-Steps d in
    elim (leave k m root c k (omega arith) s) [
      | inl e ↦ inl e
      | inr (p, e, d') ↦ absurd (omega (arith, length-remove-lt c m p e))
    ]
follow_enough (suc n) c root m le d =
    let (k, s) = Descends-Steps d in
    elim (leave k m root c k (omega arith) s) [
      | inl e ↦ inl e
      | inr (p, e, d') ↦
          elim (follow_enough n p root (remove c m) (omega (arith, length-remove-lt c m p e)) d') [
            | inl hit ↦ inr (ground (arith, eq→== p root))
            | inr on ↦ inr (ground (arith, follow-remove n p c root m))
          ]
    ]

-- `confirm_ancestry` answers true exactly when the child descends from the root by the parent
-- hashes of the map, however long the path is.
pub confirm_ancestry-Descends :
    (c root : ℕ) (m : Assoc ℕ) → (confirm_ancestry c root m ≡ true) ↔ Descends m root c
unfolding confirm_ancestry
confirm_ancestry-Descends c root m = (sound, complete)
  where
    sound : (if c == root then true else follow (length m) c root m) ≡ true → Descends m root c
    sound h = elim (Bool-cases (c == root)) [
      | inl e ↦ here (==→eq c root e)
      | inr e ↦ follow-Descends (length m) c root m (ground arith)
    ]

    complete : Descends m root c → (if c == root then true else follow (length m) c root m) ≡ true
    complete d = elim (follow_enough (length m) c root m (omega arith) d) [
      | inl e ↦ ground arith
      | inr e ↦ ground arith
    ]

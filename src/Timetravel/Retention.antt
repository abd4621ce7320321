-- ===== src/Timetravel/Retention.antt =====
-- What the garbage-collection gate lets go can still be served, on the timeline and its branches.
use open_ltap.Base.{
  ℕ, zero, suc, ◌+◌, ◌-◌, ◌≤◌, ◌<◌, Bool, true, ◌&&◌, List, [], ◌∷◌, some, ◌≡◌, inl, inr, arith,
  leb, ltb, ◌==◌, any, All, Option-cases, Bool-cases, min, subst, tests, ◌⊎◌,
}
use open_ltap.Timetravel.{
  Fragment, covers, Resolve, serve, uncovered, Lake, base, newest, newer, resolve, retained,
  all_blocks, image_redundant, Branch, resolve_branch, effective_gc_horizon,
}

-- The answer serves the read from a base that the retained tail reaches.
abbrev pub Serves : Lake → ℕ → Resolve → Type 0
Serves lake read_lsn r =
    (base_lsn : ℕ) × (r ≡ serve base_lsn read_lsn) × (lake.tail_floor ≤ base_lsn)

-- With one retained candidate the newest one is retained too.
newest-retained :
    (floor rel block gc_horizon read_lsn : ℕ) (fs : List Fragment)
    → gc_horizon ≤ read_lsn
    → any (λ f. covers f rel block && leb f.lsn gc_horizon && leb floor f.lsn) fs ≡ true
    → (g : Fragment) × (newest rel block read_lsn fs ≡ some g) × (floor ≤ g.lsn)
unfolding newest newer
newest-retained floor rel block gc_horizon read_lsn [] le h = cc
newest-retained floor rel block gc_horizon read_lsn (f ∷ fs) le h =
    elim (Bool-cases
      (any (λ f. covers f rel block && leb f.lsn gc_horizon && leb floor f.lsn) fs)) [
        | inl later ↦
            let (g, e, low) = newest-retained floor rel block gc_horizon read_lsn fs le later in
            elim (Bool-cases (covers f rel block && leb f.lsn read_lsn && ltb g.lsn f.lsn)) [
              | inl t ↦ (f, ground arith, ground arith)
              | inr t ↦ (g, ground arith, low)
            ]
        | inr here ↦ elim (Option-cases (newest rel block read_lsn fs)) [
          | inl e ↦ (f, ground arith, ground arith)
          | inr (g, e) ↦ elim (Bool-cases (leb f.lsn g.lsn)) [
            | inl t ↦ (g, ground arith, ground arith)
            | inr t ↦ (f, ground arith, ground arith)
          ]
        ]
      ]

retained-Serves :
    (lake : Lake) (rel block gc_horizon read_lsn : ℕ)
    → gc_horizon ≤ read_lsn
    → retained lake rel gc_horizon block ≡ true
    → Serves lake read_lsn (resolve lake rel block read_lsn)
unfolding retained resolve base
retained-Serves lake rel block gc_horizon read_lsn le h =
    let (g, e, floor) =
      newest-retained lake.tail_floor rel block gc_horizon read_lsn lake.fragments le h in
    (g.lsn, ground arith, floor)

all_blocks-at :
    (p : ℕ → Bool) (start n block : ℕ)
    → all_blocks p start n ≡ true
    → start ≤ block
    → block < start + n
    → p block ≡ true
unfolding all_blocks
all_blocks-at p start zero block h lo hi = absurd (omega arith)
all_blocks-at p start (suc n) block h lo hi = elim (Bool-cases (start == block)) [
  | inl e ↦ ground arith
  | inr e ↦ all_blocks-at p (start + 1) n block (ground arith) (ground arith) (omega arith)
]

-- When `image_redundant` holds for a block range, every read of a block of the range at or above
-- the horizon is served, from a base that the retained tail reaches.
pub image_redundant-Serves :
    (lake : Lake) (rel start end gc_horizon block read_lsn : ℕ)
    → image_redundant lake rel start end gc_horizon ≡ true
    → start ≤ block
    → block < end
    → gc_horizon ≤ read_lsn
    → Serves lake read_lsn (resolve lake rel block read_lsn)
unfolding image_redundant
image_redundant-Serves lake rel start end gc_horizon block read_lsn h lo hi le =
    retained-Serves lake rel block gc_horizon read_lsn le
      (all_blocks-at (retained lake rel gc_horizon) start (end - start) block h lo (omega arith))

effective-le : (ps : List ℕ) (configured : ℕ) → effective_gc_horizon configured ps ≤ configured
unfolding effective_gc_horizon
effective-le [] configured = omega arith
effective-le (p ∷ ps) configured = omega (arith, effective-le ps (min configured p))

effective-points :
    (ps : List ℕ) (configured : ℕ) → All (λ p. effective_gc_horizon configured ps ≤ p) ps
unfolding effective_gc_horizon
effective-points [] configured = tt
effective-points (p ∷ ps) configured =
    (omega (arith, effective-le ps (min configured p)), effective-points ps (min configured p))

effective-greatest :
    (ps : List ℕ) (configured n : ℕ)
    → n ≤ configured
    → All (λ p. n ≤ p) ps
    → n ≤ effective_gc_horizon configured ps
unfolding effective_gc_horizon
effective-greatest [] configured n h a = h
effective-greatest (p ∷ ps) configured n h a =
    effective-greatest ps (min configured p) n (omega (arith, a.0)) a.1

-- The effective horizon is the greatest one that neither the configured horizon nor a branch
-- point holds back.
pub effective_gc_horizon-greatest :
    (configured : ℕ) (ps : List ℕ)
    → (effective_gc_horizon configured ps ≤ configured)
      × All (λ p. effective_gc_horizon configured ps ≤ p) ps
      × ((n : ℕ) → n ≤ configured → All (λ p. n ≤ p) ps → n ≤ effective_gc_horizon configured ps)
effective_gc_horizon-greatest configured ps =
    (effective-le ps configured, effective-points ps configured, effective-greatest ps configured)

-- With the parent's range redundant at the effective horizon, every read at or above that horizon
-- that the branch takes from its parent is served, from a base that the parent's retained tail
-- reaches: at the LSN of the read up to the branch point, and at the branch point above it, where
-- the branch has no fragment of the page.
pub branch_gc_safe :
    (b : Branch) (configured : ℕ) (ps : List ℕ) (rel start end block read_lsn : ℕ)
    → image_redundant b.parent rel start end (effective_gc_horizon configured (b.branch_lsn ∷ ps))
      ≡ true
    → start ≤ block
    → block < end
    → effective_gc_horizon configured (b.branch_lsn ∷ ps) ≤ read_lsn
    → (read_lsn ≤ b.branch_lsn) ⊎ (resolve b.own rel block read_lsn ≡ uncovered)
    → Serves b.parent (min read_lsn b.branch_lsn) (resolve_branch b rel block read_lsn)
unfolding resolve_branch
branch_gc_safe b configured ps rel start end block read_lsn h lo hi above inherited =
    let horizon = effective_gc_horizon configured (b.branch_lsn ∷ ps) in
    let (pinned, _) = effective-points (b.branch_lsn ∷ ps) configured in
    elim (Bool-cases (leb read_lsn b.branch_lsn)) [
      | inl e ↦
          let at : read_lsn ≡ min read_lsn b.branch_lsn = omega (tests, e) in
          rw e (
            subst (λ n. Serves b.parent n (resolve b.parent rel block read_lsn)) at
              (image_redundant-Serves b.parent rel start end horizon block read_lsn h lo hi above))
      | inr e ↦ elim inherited [
        | inl low ↦ absurd (omega (tests, e, low))
        | inr un ↦
            let at : b.branch_lsn ≡ min read_lsn b.branch_lsn = omega (tests, e) in
            rw (e, un)
              (subst (λ n. Serves b.parent n (resolve b.parent rel block b.branch_lsn)) at
                (image_redundant-Serves b.parent rel start end horizon block b.branch_lsn h lo hi
                  pinned))
      ]
    ]

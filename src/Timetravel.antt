-- ===== src/Timetravel.antt =====
-- src/timetravel.rs: page reads at an LSN, the garbage-collection gate and branches, over fragment
-- metadata.
pub mod Resolution
pub mod Retention
use open_ltap.Base.{
  ℕ, zero, suc, ◌+◌, ◌-◌, min, Bool, true, false, ◌&&◌, ◌||◌, List, [], ◌∷◌, Option, none, some,
  ltb, leb, ◌==◌, if◌then◌else◌, any,
}

-- A page range `[start, end)` of one relation, materialized at an LSN.
pub record Fragment : Type 0 where
  pub rel : ℕ
  pub start : ℕ
  pub end : ℕ
  pub lsn : ℕ

unfoldable pub covers : Fragment → ℕ → ℕ → Bool
covers f rel block = f.rel == rel && leb f.start block && ltb block f.end

pub data Resolve : Type 0 where
  -- the base LSN, then the LSN of the read
  serve : ℕ → ℕ → Resolve
  below_horizon uncovered : Resolve

pub record Lake : Type 0 where
  pub fragments : List Fragment
  pub tail_floor : ℕ
  pub tip : ℕ

-- One step of `max_by_key(|f| f.lsn)`: of equal keys the last one wins.
newer : Fragment → Option Fragment → Option Fragment
newer f none = some f
newer f (some g) = if leb f.lsn g.lsn then some g else some f

-- The filter and the maximum of `Lake::base`.
unfoldable pub newest : ℕ → ℕ → ℕ → List Fragment → Option Fragment
unfolding newer covers
newest rel block read_lsn [] = none
newest rel block read_lsn (f ∷ fs) =
    let rest = newest rel block read_lsn fs in
    if covers f rel block && leb f.lsn read_lsn then newer f rest else rest

unfoldable pub base : Lake → ℕ → ℕ → ℕ → Option Fragment
unfolding newest
base lake rel block read_lsn = newest rel block read_lsn lake.fragments

unfoldable pub resolve : Lake → ℕ → ℕ → ℕ → Resolve
unfolding base covers
resolve lake rel block read_lsn = elim (base lake rel block read_lsn) [
  | some f ↦
      if f.lsn == read_lsn || leb lake.tail_floor f.lsn then serve f.lsn read_lsn else below_horizon
  | none ↦ if any (λ f. covers f rel block) lake.fragments then below_horizon else uncovered
]

-- The closure of `image_redundant`, for one block.
unfoldable pub retained : Lake → ℕ → ℕ → ℕ → Bool
unfolding covers
retained lake rel gc_horizon block =
    any (λ f. covers f rel block && leb f.lsn gc_horizon && leb lake.tail_floor f.lsn)
      lake.fragments

-- `(start..start + n).all(p)`.
unfoldable pub all_blocks : (ℕ → Bool) → ℕ → ℕ → Bool
all_blocks p start zero = true
all_blocks p start (suc n) = p start && all_blocks p (start + 1) n

unfoldable pub image_redundant : Lake → ℕ → ℕ → ℕ → ℕ → Bool
unfolding retained all_blocks
image_redundant lake rel start end gc_horizon =
    all_blocks (retained lake rel gc_horizon) start (end - start)

pub record Branch : Type 0 where
  pub parent : Lake
  pub branch_lsn : ℕ
  pub own : Lake

-- `Branch::resolve`.
unfoldable pub resolve_branch : Branch → ℕ → ℕ → ℕ → Resolve
unfolding resolve
resolve_branch b rel block read_lsn =
    if leb read_lsn b.branch_lsn
    then resolve b.parent rel block read_lsn
    else elim (resolve b.own rel block read_lsn) [
      | uncovered ↦ resolve b.parent rel block b.branch_lsn
      | serve base_lsn at_lsn ↦ serve base_lsn at_lsn
      | below_horizon ↦ below_horizon
    ]

unfoldable pub effective_gc_horizon : ℕ → List ℕ → ℕ
effective_gc_horizon configured [] = configured
effective_gc_horizon configured (p ∷ ps) = effective_gc_horizon (min configured p) ps

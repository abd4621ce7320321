-- ===== src/Tests/Lakes.antt =====
-- The theorems on reads at an LSN at a concrete lake.
use open_ltap.Base.{inr, ℕ, ◌≤◌, true, [], ◌∷◌, ◌≡◌, refl, arith, All, nat_eq, pair_eq}
use open_ltap.Timetravel.{
  uncovered, Lake, Branch, Resolve, image_redundant, resolve_branch, effective_gc_horizon,
}
use open_ltap.Timetravel.Resolution.{Answers, resolve-Answers}
use open_ltap.Timetravel.Retention.{
  Serves, image_redundant-Serves, branch_gc_safe, effective_gc_horizon-greatest,
}

-- Two fragments of one relation, and a retained tail from 150 on.
abbrev lake : Lake
lake = record {
  fragments =
      record { rel = 5; start = 0; end = 2; lsn = 100 }
      ∷ record { rel = 5; start = 0; end = 2; lsn = 200 }
      ∷ [];
  tail_floor = 150;
  tip = 400;
}

abbrev branch : Branch
branch = record {
  parent = lake;
  branch_lsn = 300;
  own = record { fragments = []; tail_floor = 300; tip = 400 };
}

resolve-Answers_example : Answers lake 5 1 250 (open_ltap.Timetravel.resolve lake 5 1 250)
resolve-Answers_example = resolve-Answers lake 5 1 250

lake_redundant : image_redundant lake 5 0 2 250 ≡ true
unfolding image_redundant
lake_redundant = refl

image_redundant-Serves_example : Serves lake 260 (open_ltap.Timetravel.resolve lake 5 1 260)
image_redundant-Serves_example =
    image_redundant-Serves lake 5 0 2 250 1 260 lake_redundant (omega arith) (omega arith)
      (omega arith)

branch_uncovered : open_ltap.Timetravel.resolve branch.own 5 1 350 ≡ uncovered
unfolding open_ltap.Timetravel.resolve
branch_uncovered = refl

branch_redundant : image_redundant lake 5 0 2 (effective_gc_horizon 390 (300 ∷ [])) ≡ true
unfolding image_redundant effective_gc_horizon
branch_redundant = refl

horizon_at : effective_gc_horizon 390 (300 ∷ []) ≤ 350
unfolding effective_gc_horizon
horizon_at = omega arith

branch_gc_safe_example : Serves lake 300 (resolve_branch branch 5 1 350)
branch_gc_safe_example =
    branch_gc_safe branch 390 [] 5 0 2 1 350 branch_redundant (omega arith) (omega arith) horizon_at
      (inr branch_uncovered)

effective_gc_horizon-greatest_example :
    (effective_gc_horizon 390 (300 ∷ []) ≤ 390)
    × All (λ p. effective_gc_horizon 390 (300 ∷ []) ≤ p) (300 ∷ [])
    × ((n : ℕ) → n ≤ 390 → All (λ p. n ≤ p) (300 ∷ []) → n ≤ effective_gc_horizon 390 (300 ∷ []))
effective_gc_horizon-greatest_example = effective_gc_horizon-greatest 390 (300 ∷ [])

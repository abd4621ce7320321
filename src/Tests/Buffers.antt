-- ===== src/Tests/Buffers.antt =====
-- The theorems on the transaction buffer at a concrete history.
use open_ltap.Base.{ℕ, List, [], ◌∷◌, none, ◌≡◌, inl, arith, length, All, lookup, nat_eq, pair_eq}
use open_ltap.TxBuf.{
  Ctid, RowVersion, inserts, updates, deletes, default, commit, abort, apply, oldest_first_lsn,
}
use open_ltap.TxBuf.History.{
  Event, adds, aborts, run, inside, log_run, Refines, view, default-Refines, run-Refines,
}
use open_ltap.TxBuf.Commit.{InOrder, added, commit-run, abort-run}
use open_ltap.TxBuf.Restart.{IsRising, Covers, oldest_first_lsn-run}
use open_ltap.TxBuf.Overlay.{shows, lookup-apply}

-- Two transactions, one of them a subtransaction, that interleave.
abbrev pub version : RowVersion
version = record { row = []; attrs = none }

abbrev pub history : List Event
history =
    adds 7 100 0 (inserts (1, 1) version)
    ∷ adds 8 110 0 (updates (1, 1) (1, 2) version)
    ∷ adds 7 120 1 (deletes (1, 2) none)
    ∷ aborts 9 []
    ∷ []

pub history-InOrder : InOrder (added history)
history-InOrder =
    ((inl (omega arith), (inl (omega arith), tt)), ((inl (omega arith), tt), (tt, tt)))

pub history-IsRising : IsRising 0 history
history-IsRising = (omega arith, (omega arith, (omega arith, tt)))

commit-run_example :
    (commit (run default history) 7 (8 ∷ [])).0 ≡ inside (7 ∷ 8 ∷ []) (log_run [] history)
commit-run_example = commit-run history 7 (8 ∷ []) history-InOrder

abort-run_example :
    (abort (run default history) 7 (8 ∷ [])).0 ≡ length (inside (7 ∷ 8 ∷ []) (log_run [] history))
abort-run_example = abort-run history 7 (8 ∷ []) history-InOrder

oldest_first_lsn-run_example :
    All (λ p. Covers (oldest_first_lsn (run default history)) p.lsn) (view (run default history) 7)
oldest_first_lsn-run_example = oldest_first_lsn-run history 7 history-IsRising

run-Refines_example : Refines (run default history) (log_run [] history)
run-Refines_example = run-Refines default [] history default-Refines

lookup-apply_example :
    lookup (0, (1, 2)) (apply 0 (updates (1, 1) (1, 2) version) [])
    ≡ shows 0 (updates (1, 1) (1, 2) version) (0, (1, 2)) (lookup {K = ℕ × Ctid} (0, (1, 2)) [])
lookup-apply_example = lookup-apply 0 (updates (1, 1) (1, 2) version) [] (0, (1, 2))

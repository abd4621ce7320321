-- ===== src/TxBuf/Commit.antt =====
-- A commit hands back its transactions' operations in WAL order; an abort counts what it drops.
use mathlib.Core.Path.{fun_ext}
use mathlib.Core.List.{append-nil, append_assoc}
use open_ltap.Base.{
  ℕ, ◌+◌, ◌≤◌, ◌<◌, List, [], ◌∷◌, ◌++◌, ◌≡◌, ◌≢◌, refl, ap, sym, ◌∙◌, arith, ◌⊎◌, inl, inr, lookup,
  remove, nat_eq, Map, length, length-append, All, Bool-cases,
}
use open_ltap.TxBuf.{
  PendingOp, OpenTx, TxBuffer, default, ops_of, take_ops, sort_by_lsn, commit, drop_subs, abort,
}
use open_ltap.TxBuf.History.{
  Event, adds, commits, aborts, run, Log, mem, inside, outside, log_run, view, view_map, Refines,
  without, gather, take_subs-gather, view-remove, default-Refines, run-Refines,
}
use open_ltap.TxBuf.Sorting.{length-sort_by_lsn}
use open_ltap.TxBuf.Gathering.{gather-put_miss, gather-put}

-- In a log from the WAL, LSNs never fall, and only one transaction's operations share an LSN.
abbrev pub Before : ℕ × PendingOp → ℕ × PendingOp → Type 0
Before a b = (a.1.lsn < b.1.lsn) ⊎ ((a.0 ≡ b.0) × (a.1.lsn ≡ b.1.lsn))

abbrev pub InOrder : Log → Type 0
InOrder [] = Unit {0}
InOrder (a ∷ l) = All (Before a) l × InOrder l

Before-First_ne :
    (x y : ℕ) (o : PendingOp) (l : Log)
    → x ≢ y
    → All (Before (x, o)) l
    → All (λ p. o.lsn < p.lsn) (inside (y ∷ []) l)
Before-First_ne x y o [] n a = tt
Before-First_ne x y o ((z, p) ∷ l) n a = ground (arith, Before-First_ne x y o l n a.1)

Before-First_self :
    (x : ℕ) (o : PendingOp) (l : Log)
    → All (Before (x, o)) l
    → All (λ p. o.lsn ≤ p.lsn) (inside (x ∷ []) l)
Before-First_self x o [] a = tt
Before-First_self x o ((z, p) ∷ l) a = ground (arith, Before-First_self x o l a.1)

gather_nothing : (ss : List ℕ) → gather ss (λ x. []) ≡ []
gather_nothing [] = refl
gather_nothing (s ∷ ss) =
    ap (gather ss) (fun_ext {f = without s (λ x. [])} λ y. ground arith) ∙ gather_nothing ss

sort-gather :
    (ss : List ℕ) (l : Log)
    → InOrder l
    → sort_by_lsn (gather ss (λ x. inside (x ∷ []) l)) ≡ inside ss l
unfolding sort_by_lsn
sort-gather ss [] h = rw (gather_nothing ss)
sort-gather ss ((x, o) ∷ l) h = elim (Bool-cases (mem x ss)) [
  | inl e ↦ rw e (
      gather-put ss x o (λ y. inside (y ∷ []) l)
        ((λ y n. Before-First_ne x y o l n h.0), Before-First_self x o l h.0) e
      ∙ ap (◌∷◌ o) (sort-gather ss l h.1))
  | inr e ↦
      rw e
        (ap sort_by_lsn (gather-put_miss ss x o (λ y. inside (y ∷ []) l) e) ∙ sort-gather ss l h.1)
]

commit-gather :
    (b : TxBuffer) (xid : ℕ) (subxids : List ℕ)
    → (commit b xid subxids).0 ≡ sort_by_lsn (gather (xid ∷ subxids) (view b))
unfolding commit take_ops
commit-gather b xid subxids =
    ap sort_by_lsn (take_subs-gather subxids _ (remove xid b.open_txs))
    ∙ ap (λ f. sort_by_lsn (view b xid ++ gather subxids f)) (view-remove xid b.open_txs)

-- The buffer that refines a log in WAL order hands back the log's operations of the transactions.
commit-inside :
    (b : TxBuffer) (l : Log) (xid : ℕ) (subxids : List ℕ)
    → Refines b l
    → InOrder l
    → (commit b xid subxids).0 ≡ inside (xid ∷ subxids) l
commit-inside b l xid subxids r h =
    commit-gather b xid subxids
    ∙ ap (λ f. sort_by_lsn (gather (xid ∷ subxids) f)) (fun_ext r)
    ∙ sort-gather (xid ∷ subxids) l h

-- All that a history adds, in its order.
abbrev pub added : List Event → Log
added [] = []
added (adds xid lsn table op ∷ es) = (xid, record { lsn = lsn; table = table; op = op }) ∷ added es
added (commits xid subxids ∷ es) = added es
added (aborts xid subxids ∷ es) = added es

outside-All {ℓ} :
    (P : ℕ × PendingOp → Type ℓ) (xs : List ℕ) (l k : Log)
    → All P (l ++ k)
    → All P (outside xs l ++ k)
outside-All P xs [] k a = a
outside-All P xs ((y, o) ∷ l) k a = elim (Bool-cases (mem y xs)) [
  | inl e ↦ rw e (outside-All P xs l k a.1)
  | inr e ↦ rw e (a.0, outside-All P xs l k a.1)
]

outside-InOrder : (xs : List ℕ) (l k : Log) → InOrder (l ++ k) → InOrder (outside xs l ++ k)
outside-InOrder xs [] k h = h
outside-InOrder xs ((y, o) ∷ l) k h = elim (Bool-cases (mem y xs)) [
  | inl e ↦ rw e (outside-InOrder xs l k h.1)
  | inr e ↦ rw e (outside-All _ xs l k h.0, outside-InOrder xs l k h.1)
]

log_run-InOrder : (es : List Event) (l : Log) → InOrder (l ++ added es) → InOrder (log_run l es)
unfolding log_run
log_run-InOrder [] l h = rw (append-nil l) at h
log_run-InOrder (adds xid lsn table op ∷ es) l h =
    log_run-InOrder es _ (rw (append_assoc l (_ ∷ []) (added es)) h)
log_run-InOrder (commits xid subxids ∷ es) l h =
    log_run-InOrder es _ (outside-InOrder (xid ∷ subxids) l (added es) h)
log_run-InOrder (aborts xid subxids ∷ es) l h =
    log_run-InOrder es _ (outside-InOrder (xid ∷ subxids) l (added es) h)

-- After any history whose operations come in WAL order, a commit returns exactly the operations
-- of the transaction and its committed subtransactions that no earlier commit or abort took away,
-- in WAL order.
pub commit-run :
    (es : List Event) (xid : ℕ) (subxids : List ℕ)
    → InOrder (added es)
    → (commit (run default es) xid subxids).0 ≡ inside (xid ∷ subxids) (log_run [] es)
commit-run es xid subxids h =
    commit-inside (run default es) (log_run [] es) xid subxids
      (run-Refines default [] es default-Refines) (log_run-InOrder es [] h)

drop_subs-gather :
    (ss : List ℕ) (n : ℕ) (m : Map ℕ OpenTx)
    → (drop_subs ss n m).0 ≡ n + length (gather ss (λ x. ops_of (lookup x m)))
unfolding drop_subs take_ops
drop_subs-gather [] n m = omega arith
drop_subs-gather (s ∷ ss) n m =
    drop_subs-gather ss (n + length (ops_of (lookup s m))) (remove s m)
    ∙ rw (view-remove s m, length-append (ops_of (lookup s m)) (gather ss (without s (view_map m))))
        (omega arith)

abort-gather :
    (b : TxBuffer) (xid : ℕ) (subxids : List ℕ)
    → (abort b xid subxids).0 ≡ length (gather (xid ∷ subxids) (view b))
unfolding abort take_ops
abort-gather b xid subxids =
    drop_subs-gather subxids (length (ops_of (lookup xid b.open_txs))) (remove xid b.open_txs)
    ∙ rw (
      view-remove xid b.open_txs,
      length-append (view b xid) (gather subxids (without xid (view b))),
    )

-- The count that an abort returns is the number of operations that the transaction and its
-- subtransactions still had buffered, after any history whose operations come in WAL order.
pub abort-run :
    (es : List Event) (xid : ℕ) (subxids : List ℕ)
    → InOrder (added es)
    → (abort (run default es) xid subxids).0 ≡ length (inside (xid ∷ subxids) (log_run [] es))
abort-run es xid subxids h =
    abort-gather (run default es) xid subxids
    ∙ sym (length-sort_by_lsn (gather (xid ∷ subxids) (view (run default es))))
    ∙ ap length (sym (commit-gather (run default es) xid subxids) ∙ commit-run es xid subxids h)

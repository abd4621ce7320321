-- ===== src/Engine/Commit.antt =====
-- What a commit does to every table, and what it publishes, against the history of the buffer.
use open_ltap.Base.{
  drop, ℕ, ◌<◌, ◌≤◌, false, List, [], ◌∷◌, Option, none, some, ok, ◌≡◌, refl, ap, sym, ◌∙◌, ◌⊎◌,
  inl, inr, subst, arith, leb, leb→le, leb→lt, Bool-cases, length, length-append, drop-append_ge,
  get_elem?, All, lookup, nat_eq, if◌then◌else◌,
}
use open_ltap.TxBuf.{commit, default, PendingOp}
use open_ltap.TxBuf.History.{
  Event, run, Refines, inside, outside, log_run, commits, default-Refines, run-Refines,
}
use open_ltap.TxBuf.Commit.{InOrder, added, commit-run}
use open_ltap.Engine.{EmitRow, Engine, Table, published, handle_commit}
use open_ltap.Engine.CommitLoop.{of_table, apply_all, commit_table, handle_commit-commit_table}
use open_ltap.Engine.Outcome.{log_of, Takes, apply_all-Takes}
use open_ltap.Engine.Publishing.{
  start_of, start_of-deduped, commit_ops-starts_fresh, published-none, published-some,
}

-- What is published of a table: nothing, when no row is.
abbrev pub rows_or_none : List EmitRow → Option (List EmitRow)
rows_or_none [] = none
rows_or_none (r ∷ rs) = some (r ∷ rs)

-- A table that has the commit in its log already stays, and publishes nothing. Another takes its
-- operations, and publishes their rows.
abbrev pub Outcome : ℕ → List PendingOp → Table → Table → Option (List EmitRow) → Type 0
Outcome lsn os t t' rows =
    ((lsn ≤ t.dedupe_below) × (t' ≡ t) × (rows ≡ none))
    ⊎ ((t.dedupe_below < lsn) × Takes lsn os t t' × (rows ≡ rows_or_none (log_of lsn os t)))

published-log_of :
    (now lsn : ℕ) (os : List PendingOp) (ts' : List Table) (em : List (ℕ × ℕ))
    (rows : List (ℕ × List EmitRow)) (i : ℕ) (t : Table)
    → leb lsn t.dedupe_below ≡ false
    → get_elem? ts' i ≡ some (apply_all now lsn os t)
    → published ts' em ≡ ok rows
    → lookup i em ≡ start_of lsn os t
    → lookup i rows ≡ rows_or_none (log_of lsn os t)
published-log_of now lsn [] ts' em rows i t d at h e = published-none ts' em rows i h e
published-log_of now lsn (o ∷ os) ts' em rows i t d at h e =
    let u = apply_all now lsn (o ∷ os) t in
    let took = apply_all-Takes now lsn (o ∷ os) t in
    let start = length t.pending.rows in
    let l = log_of lsn (o ∷ os) t in
    let started : lookup i em ≡ some start = e ∙ ap (λ b. if b then none else some start) d in
    let more : start < length u.pending.rows =
      subst (λ r. start < length r) (sym took.rows)
        (omega (arith, length-append t.pending.rows l)) in
    published-some ts' em rows i start u h at started more
    ∙ ap (λ r. some (drop start r)) took.rows
    ∙ ap some (drop-append_ge t.pending.rows l start 0 (omega arith))

commit_table-Outcome :
    (now lsn i : ℕ) (os : List PendingOp) (ts' : List Table) (em : List (ℕ × ℕ))
    (rows : List (ℕ × List EmitRow)) (t : Table)
    → get_elem? ts' i ≡ some (commit_table now lsn i os t)
    → published ts' em ≡ ok rows
    → lookup i em ≡ start_of lsn (of_table i os) t
    → (t' : Table) × (get_elem? ts' i ≡ some t') × Outcome lsn (of_table i os) t t' (lookup i rows)
commit_table-Outcome now lsn i os ts' em rows t at h e =
    let mine = of_table i os in
    elim (Bool-cases (leb lsn t.dedupe_below)) [
      | inl d ↦
          let none_new = published-none ts' em rows i h (e ∙ start_of-deduped lsn mine t d) in
          (t, rw d at at, inl (leb→le lsn t.dedupe_below d, refl, none_new))
      | inr d ↦
          let there : get_elem? ts' i ≡ some (apply_all now lsn mine t) = rw d at at in
          (
            apply_all now lsn mine t,
            there,
            inr (
              leb→lt lsn t.dedupe_below d,
              apply_all-Takes now lsn mine t,
              published-log_of now lsn mine ts' em rows i t d there h e,
            ),
          )
    ]

commit-Refines :
    (es : List Event) (xid : ℕ) (subxids : List ℕ)
    → Refines (commit (run default es) xid subxids).1 (outside (xid ∷ subxids) (log_run [] es))
unfolding run log_run
commit-Refines es xid subxids =
    run-Refines (run default es) (log_run [] es) (commits xid subxids ∷ [])
      (run-Refines default [] es default-Refines)

-- A commit after any history whose operations come in WAL order does not fail when the tables of
-- the transaction's operations exist: those are the operations of the transaction and its committed
-- subtransactions that the history left unfinished, in WAL order. A table that has the commit in
-- its log already stays, and publishes nothing. Every other table takes its operations: one row for
-- each is behind its pending rows, in that order, and is published; its mirror shows what they
-- leave at every address. The transactions leave the buffer, and the others' operations stay.
pub handle_commit-Tables :
    (now lsn xid : ℕ) (subxids : List ℕ) (e : Engine) (es : List Event)
    → InOrder (added es)
    → e.txbuf ≡ run default es
    → All (λ o. o.table < length e.tables) (inside (xid ∷ subxids) (log_run [] es))
    → (e' : Engine) × (rows : List (ℕ × List EmitRow)) × (handle_commit now lsn xid subxids e
        ≡ ok (e', rows))
      × Refines e'.txbuf (outside (xid ∷ subxids) (log_run [] es))
      × (e'.last_commit_lsn ≡ lsn)
      × ((i : ℕ) (t : Table)
          → get_elem? e.tables i ≡ some t
          → (t' : Table) × (get_elem? e'.tables i ≡ some t')
            × Outcome lsn
                (of_table i (inside (xid ∷ subxids) (log_run [] es)))
                t
                t'
                (lookup i rows))
handle_commit-Tables now lsn xid subxids e es order is in_range =
    let ops = inside (xid ∷ subxids) (log_run [] es) in
    let ops_are : (commit e.txbuf xid subxids).0 ≡ ops =
      ap (λ b. (commit b xid subxids).0) is ∙ commit-run es xid subxids order in
    let (e', rows, run_is, buffer, (em, loop_run, pub_run), at, tables) =
      handle_commit-commit_table now lsn xid subxids e
        (subst (All (λ o. o.table < length e.tables)) (sym ops_are) in_range) in
    (
      e',
      rows,
      run_is,
      subst (λ b. Refines b (outside (xid ∷ subxids) (log_run [] es)))
          (sym (buffer ∙ ap (λ b. (commit b xid subxids).1) is)) (commit-Refines es xid subxids),
      at,
      λ i t here.
          let starts =
            commit_ops-starts_fresh now lsn (commit e.txbuf xid subxids).0 e.tables e'.tables em i t
              loop_run here in
          subst
            (λ os.
              (t' : Table) × (get_elem? e'.tables i ≡ some t')
              × Outcome lsn (of_table i os) t t' (lookup i rows))
            ops_are
            (commit_table-Outcome now lsn i (commit e.txbuf xid subxids).0 e'.tables em rows t
              (tables i t here) pub_run starts),
    )

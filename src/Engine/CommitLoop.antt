-- ===== src/Engine/CommitLoop.antt =====
-- The loop of a commit acts on each table by itself: the tables' operations may interleave.
use open_ltap.Base.{
  drop, ltb, ℕ, zero, suc, ◌<◌, true, false, List, [], ◌∷◌, some, ok, ◌≡◌, refl, ap, sym, ◌∙◌, ◌⊎◌,
  inl, inr, subst, arith, leb, ◌==◌, if◌then◌else◌, Bool-cases, Option-cases, length, get_elem?,
  All, Map, lookup, insert, nat_eq,
}
use open_ltap.TxBuf.{commit, Op, inserts, updates, deletes, PendingOp}
use open_ltap.Engine.{
  after_commit, EmitRow, Engine, published, handle_commit, Table, set_at, apply_committed,
  note_start, commit_ops,
}

-- The operations of one table, in order.
abbrev pub of_table : ℕ → List PendingOp → List PendingOp
of_table i [] = []
of_table i (o ∷ os) = if o.table == i then o ∷ of_table i os else of_table i os

abbrev pub apply_all : ℕ → ℕ → List PendingOp → Table → Table
apply_all now lsn [] t = t
apply_all now lsn (o ∷ os) t = apply_all now lsn os (apply_committed now lsn o.op t)

-- What a commit does to the table at `i`: nothing when the table has it already.
abbrev pub commit_table : ℕ → ℕ → ℕ → List PendingOp → Table → Table
commit_table now lsn i os t =
    if leb lsn t.dedupe_below then t else apply_all now lsn (of_table i os) t

pub apply_committed-dedupe_below :
    (now lsn : ℕ) (op : Op) (t : Table)
    → (apply_committed now lsn op t).dedupe_below ≡ t.dedupe_below
unfolding apply_committed
apply_committed-dedupe_below now lsn (inserts c v) t = refl
apply_committed-dedupe_below now lsn (updates c d v) t = refl
apply_committed-dedupe_below now lsn (deletes c r) t = refl

get_elem?-lt : (ts : List Table) (i : ℕ) → i < length ts → (t : Table) × (get_elem? ts i ≡ some t)
get_elem?-lt [] i h = absurd (omega arith)
get_elem?-lt (t ∷ ts) zero h = (t, refl)
get_elem?-lt (t ∷ ts) (suc i) h = get_elem?-lt ts i (omega arith)

length-set_at : (i : ℕ) (u : Table) (ts : List Table) → length (set_at i u ts) ≡ length ts
unfolding set_at
length-set_at i u [] = refl
length-set_at zero u (t ∷ ts) = refl
length-set_at (suc i) u (t ∷ ts) = ap suc (length-set_at i u ts)

pub get_elem?-set_at :
    (i j : ℕ) (u t : Table) (ts : List Table)
    → get_elem? ts j ≡ some t
    → get_elem? (set_at i u ts) j ≡ some (if i == j then u else t)
unfolding set_at
get_elem?-set_at i j u t [] h = cc
get_elem?-set_at zero zero u t (v ∷ ts) h = refl
get_elem?-set_at zero (suc j) u t (v ∷ ts) h = h ∙ ap some (ground arith)
get_elem?-set_at (suc i) zero u t (v ∷ ts) h = h ∙ ap some (ground arith)
get_elem?-set_at (suc i) (suc j) u t (v ∷ ts) h =
    get_elem?-set_at i j u t ts h ∙ ap some (ground arith)

abbrev InRange : List Table → Map ℕ ℕ → Type 0
InRange ts em = All (λ p. p.0 < length ts) em

insert-InRange :
    (n k v : ℕ) (em : Map ℕ ℕ) → k < n → All (λ p. p.0 < n) em → All (λ p. p.0 < n) (insert k v em)
unfolding insert
insert-InRange n k v [] h a = (h, tt)
insert-InRange n k v ((j, w) ∷ em) h a = elim (Bool-cases (j == k)) [
  | inl e ↦ rw e (h, a.1)
  | inr e ↦ rw e (a.0, insert-InRange n k v em h a.1)
]

note_start-InRange :
    (n k v : ℕ) (em : Map ℕ ℕ)
    → k < n
    → All (λ p. p.0 < n) em
    → All (λ p. p.0 < n) (note_start k v em)
unfolding note_start
note_start-InRange n k v em h a = elim (Option-cases (lookup k em)) [
  | inl e ↦ rw (e, note_start) (insert-InRange n k v em h a)
  | inr (w, e) ↦ rw (e, note_start) a
]

-- What the loop leaves of the tables.
record Committed (now lsn : ℕ) (os : List PendingOp) (ts ts' : List Table) (em : Map ℕ ℕ)
    : Type 0 where
  len : length ts' ≡ length ts
  range : InRange ts' em
  tables :
      (i : ℕ) (t : Table)
      → get_elem? ts i ≡ some t
      → get_elem? ts' i ≡ some (commit_table now lsn i os t)

commit_table-skip :
    (now lsn i : ℕ) (o : PendingOp) (os : List PendingOp) (t : Table)
    → (o.table == i ≡ false) ⊎ (leb lsn t.dedupe_below ≡ true)
    → commit_table now lsn i (o ∷ os) t ≡ commit_table now lsn i os t
commit_table-skip now lsn i o os t (inl e) = rw e refl
commit_table-skip now lsn i o os t (inr e) = rw e refl

commit_table-step :
    (now lsn i : ℕ) (o : PendingOp) (os : List PendingOp) (t : Table)
    → o.table == i ≡ true
    → leb lsn t.dedupe_below ≡ false
    → commit_table now lsn i (o ∷ os) t ≡ commit_table now lsn i os (apply_committed now lsn o.op t)
commit_table-step now lsn i o os t e d =
    let d' : leb lsn (apply_committed now lsn o.op t).dedupe_below ≡ false =
      ap (leb lsn) (apply_committed-dedupe_below now lsn o.op t) ∙ d in
    simp (e, d, d')

pub same_table :
    (ts : List Table) (i j : ℕ) {t u : Table}
    → get_elem? ts i ≡ some t
    → get_elem? ts j ≡ some u
    → i == j ≡ true
    → t ≡ u
same_table ts i j h k e = let q : i ≡ j = ground arith in cc

-- A table that has the commit already is as good as untouched by its next operation.
commit_table-deduped :
    (now lsn i : ℕ) (o : PendingOp) (os : List PendingOp) (ts : List Table) (t u : Table)
    → get_elem? ts o.table ≡ some u
    → get_elem? ts i ≡ some t
    → leb lsn u.dedupe_below ≡ true
    → commit_table now lsn i (o ∷ os) t ≡ commit_table now lsn i os t
commit_table-deduped now lsn i o os ts t u h k d = elim (Bool-cases (o.table == i)) [
  | inl e ↦
      commit_table-skip now lsn i o os t
        (inr (subst (λ v. leb lsn v.dedupe_below ≡ true) (same_table ts o.table i h k e) d))
  | inr e ↦ commit_table-skip now lsn i o os t (inl e)
]

commit_table-cons :
    (now lsn i : ℕ) (o : PendingOp) (os : List PendingOp) (ts : List Table) (t u : Table)
    → get_elem? ts o.table ≡ some u
    → get_elem? ts i ≡ some t
    → leb lsn u.dedupe_below ≡ false
    → commit_table now lsn i os (if o.table == i then apply_committed now lsn o.op u else t)
      ≡ commit_table now lsn i (o ∷ os) t
commit_table-cons now lsn i o os ts t u h k d = elim (Bool-cases (o.table == i)) [
  | inl e ↦
      ap (λ b. commit_table now lsn i os (if b then apply_committed now lsn o.op u else t)) e
      ∙ sym (commit_table-step now lsn i o os u e d)
      ∙ ap (commit_table now lsn i (o ∷ os)) (sym (same_table ts i o.table k h (ground arith)))
  | inr e ↦
      ap (λ b. commit_table now lsn i os (if b then apply_committed now lsn o.op u else t)) e
      ∙ sym (commit_table-skip now lsn i o os t (inl e))
]

-- The loop over a transaction's operations does not fail when their tables exist.
commit_ops-Committed :
    (now lsn : ℕ) (os : List PendingOp) (ts : List Table) (em : Map ℕ ℕ)
    → All (λ o. o.table < length ts) os
    → InRange ts em
    → (ts' : List Table) × (em' : Map ℕ ℕ) × (commit_ops now lsn os ts em ≡ ok (ts', em'))
      × Committed now lsn os ts ts' em'
unfolding commit_ops
commit_ops-Committed now lsn [] ts em a r = (
  ts,
  em,
  refl,
  record {
    len = refl;
    range = r;
    tables =
        λ i t e. elim (Bool-cases (leb lsn t.dedupe_below)) [ inl d ↦ rw d e | inr d ↦ rw d e ];
  },
)
commit_ops-Committed now lsn (o ∷ os) ts em a r =
    let (t0, e0) = get_elem?-lt ts o.table a.0 in
    elim (Bool-cases (leb lsn t0.dedupe_below)) [
      | inl d ↦
          let (ts', em', run, c) = commit_ops-Committed now lsn os ts em a.1 r in
          (
            ts',
            em',
            rw (e0, d) run,
            record {
              len = c.len;
              range = c.range;
              tables = λ i t e.
                  c.tables i t e
                  ∙ ap some (sym (commit_table-deduped now lsn i o os ts t t0 e0 e d));
            },
          )
      | inr d ↦
          let u : Table = apply_committed now lsn o.op t0 in
          let l : length (set_at o.table u ts) ≡ length ts = length-set_at o.table u ts in
          let (ts', em', run, c) =
            commit_ops-Committed now lsn os (set_at o.table u ts)
              (note_start o.table (length t0.pending.rows) em)
              (subst (λ n. All (λ p. p.table < n) os) (sym l) a.1)
              (subst (λ n. All (λ p. p.0 < n) (note_start o.table (length t0.pending.rows) em))
                (sym l)
                (note_start-InRange (length ts) o.table (length t0.pending.rows) em a.0 r)) in
          (
            ts',
            em',
            rw (e0, d) run,
            record {
              len = c.len ∙ l;
              range = c.range;
              tables = λ i t e.
                  c.tables i _ (get_elem?-set_at o.table i u t ts e)
                  ∙ ap some (commit_table-cons now lsn i o os ts t t0 e0 e d);
            },
          )
    ]

published_total :
    (ts : List Table) (em : Map ℕ ℕ)
    → InRange ts em
    → (rows : List (ℕ × List EmitRow)) × (published ts em ≡ ok rows)
unfolding published
published_total ts [] r = ([], refl)
published_total ts ((ti, start) ∷ em) r =
    let (t, e) = get_elem?-lt ts ti r.0 in
    let (rest, run) = published_total ts em r.1 in
    elim (Bool-cases (ltb start (length t.pending.rows))) [
      | inl b ↦ ((ti, drop start t.pending.rows) ∷ rest, rw (e, run, b) refl)
      | inr b ↦ (rest, rw (e, run, b) refl)
    ]

-- A commit by its loop: each table as `commit_table` says.
pub handle_commit-commit_table :
    (now lsn xid : ℕ) (subxids : List ℕ) (e : Engine)
    → All (λ o. o.table < length e.tables) (commit e.txbuf xid subxids).0
    → (e' : Engine) × (rows : List (ℕ × List EmitRow)) × (handle_commit now lsn xid subxids e
        ≡ ok (e', rows))
      × (e'.txbuf ≡ (commit e.txbuf xid subxids).1)
      × ((em : Map ℕ ℕ) × (commit_ops now lsn (commit e.txbuf xid subxids).0 e.tables []
            ≡ ok (e'.tables, em))
          × (published e'.tables em ≡ ok rows))
      × (e'.last_commit_lsn ≡ lsn)
      × ((i : ℕ) (t : Table)
          → get_elem? e.tables i ≡ some t
          → get_elem? e'.tables i ≡ some (commit_table now lsn i (commit e.txbuf xid subxids).0 t))
unfolding handle_commit
handle_commit-commit_table now lsn xid subxids e a =
    let (ts', em', run, c) =
      commit_ops-Committed now lsn (commit e.txbuf xid subxids).0 e.tables [] a tt in
    let (rows, pub_run) = published_total ts' em' c.range in
    (
      after_commit lsn xid subxids ts' e,
      rows,
      rw (run, pub_run) refl,
      refl,
      (em', run, pub_run),
      refl,
      c.tables,
    )

-- ===== src/Engine/Outcome.antt =====
-- What a transaction's operations do to a table, by the address: the rows that go to the log, and
-- the versions that the mirror shows.
use mathlib.Core.Path.{fun_ext}
use mathlib.Core.List.{append_assoc, append-nil}
use open_ltap.Base.{
  ℕ, ◌+◌, true, false, List, [], ◌∷◌, ◌++◌, Option, none, some, ◌≡◌, refl, sym, ap, ◌∙◌,
  if◌then◌else◌, length, replicate, lookup, lookup-insert, lookup-remove, remove, pair_eq, nat_eq,
}
use open_ltap.Wal.Values.{Row}
use open_ltap.TxBuf.{Ctid, RowVersion, Op, inserts, updates, deletes, PendingOp}
use open_ltap.Engine.{EmitRow, Table, apply_committed, emit, tombstone, or_else, or_none, row_of}
use open_ltap.Engine.CommitLoop.{apply_all}

-- The version that is shown at each address.
abbrev pub Shown : Type 0
Shown = Ctid → Option RowVersion

abbrev pub shown_at : Ctid → Option RowVersion → Shown → Shown
shown_at c v f k = if (pair_eq {A = ℕ} {B = ℕ}).beq c k then v else f k

-- An insert shows its version, a delete shows none, and an update does both.
abbrev pub shown_after : Op → Shown → Shown
shown_after (inserts c v) f = shown_at c (some v) f
shown_after (updates old c v) f = shown_at c (some v) (shown_at old none f)
shown_after (deletes c r) f = shown_at c none f

abbrev pub shown_after_all : List PendingOp → Shown → Shown
shown_after_all [] f = f
shown_after_all (o ∷ os) f = shown_after_all os (shown_after o.op f)

-- The row of a delete: the one it was logged with, or the one shown at its address, or nulls.
abbrev pub deleted_row : ℕ → Option Row → Option RowVersion → Row
deleted_row cols (some row) shown = row
deleted_row cols none (some v) = v.row
deleted_row cols none none = replicate cols none

-- The row that an operation puts in the log, where the table has `cols` columns.
abbrev pub emitted : ℕ → ℕ → ℕ → Op → Shown → EmitRow
emitted lsn seq cols (inserts c v) f = record {
  lsn = lsn;
  seq = seq;
  deleted = false;
  ctid = c;
  row = v.row;
}
emitted lsn seq cols (updates old c v) f = record {
  lsn = lsn;
  seq = seq;
  deleted = false;
  ctid = c;
  row = v.row;
}
emitted lsn seq cols (deletes c r) f = record {
  lsn = lsn;
  seq = seq;
  deleted = true;
  ctid = c;
  row = deleted_row cols r (f c);
}

-- One row for each operation, in order, numbered from `seq + 1` on.
abbrev pub emitted_all : ℕ → ℕ → ℕ → List PendingOp → Shown → List EmitRow
emitted_all lsn seq cols [] f = []
emitted_all lsn seq cols (o ∷ os) f =
    emitted lsn (seq + 1) cols o.op f ∷ emitted_all lsn (seq + 1) cols os (shown_after o.op f)

abbrev pub mirrored : Table → Shown
mirrored t c = lookup c t.mirror

abbrev pub log_of : ℕ → List PendingOp → Table → List EmitRow
log_of lsn os t = emitted_all lsn t.pending.seq (length t.desc.cols) os (mirrored t)

-- A table that took the operations: their rows are behind those that were pending, its mirror shows
-- what they leave, and its descriptor, its watermark and its marks are as they were.
pub record Takes (lsn : ℕ) (os : List PendingOp) (t t' : Table) : Type 0 where
  pub rows : t'.pending.rows ≡ t.pending.rows ++ log_of lsn os t
  pub mirror : mirrored t' ≡ shown_after_all os (mirrored t)
  pub desc : t'.desc ≡ t.desc
  pub dedupe_below : t'.dedupe_below ≡ t.dedupe_below
  pub needs_resnapshot : t'.needs_resnapshot ≡ t.needs_resnapshot
  pub rows_since_compaction : t'.rows_since_compaction ≡ t.rows_since_compaction

tombstone-deleted_row :
    (c : Ctid) (r : Option Row) (t : Table)
    → tombstone c r t ≡ deleted_row (length t.desc.cols) r (mirrored t c)
unfolding tombstone
tombstone-deleted_row c (some row) t = refl
tombstone-deleted_row c none t = row_of_cases (mirrored t c) (length t.desc.cols)
  where
    row_of_cases :
        (v : Option RowVersion) (cols : ℕ)
        → or_else (or_none none (row_of v)) (replicate cols none) ≡ deleted_row cols none v
    row_of_cases none cols = refl
    row_of_cases (some v) cols = refl

apply_committed-mirrored :
    (now lsn : ℕ) (op : Op) (t : Table)
    → mirrored (apply_committed now lsn op t) ≡ shown_after op (mirrored t)
unfolding apply_committed
apply_committed-mirrored now lsn (inserts c v) t =
    fun_ext λ k. lookup-insert ⦃e = pair_eq⦄ c k v t.mirror
apply_committed-mirrored now lsn (updates old c v) t = fun_ext λ k.
    rw
      (
        lookup-insert ⦃e = pair_eq⦄ c k v (remove old t.mirror),
        lookup-remove ⦃e = pair_eq⦄ old k t.mirror,
      )
      refl
apply_committed-mirrored now lsn (deletes c r) t =
    fun_ext λ k. lookup-remove ⦃e = pair_eq⦄ c k t.mirror

apply_committed-rows :
    (now lsn : ℕ) (op : Op) (t : Table)
    → (apply_committed now lsn op t).pending.rows
      ≡ t.pending.rows ++ emitted lsn (t.pending.seq + 1) (length t.desc.cols) op (mirrored t) ∷ []
unfolding apply_committed emit
apply_committed-rows now lsn (inserts c v) t = refl
apply_committed-rows now lsn (updates old c v) t = refl
apply_committed-rows now lsn (deletes c r) t = rw (tombstone-deleted_row c r t) refl

-- The fields that an operation leaves, and the counter.
apply_committed-rest :
    (now lsn : ℕ) (op : Op) (t : Table)
    → let u = apply_committed now lsn op t in
      (u.pending.seq ≡ t.pending.seq + 1)
      × (u.desc ≡ t.desc)
      × (u.dedupe_below ≡ t.dedupe_below)
      × (u.needs_resnapshot ≡ t.needs_resnapshot)
      × (u.rows_since_compaction ≡ t.rows_since_compaction)
unfolding apply_committed emit
apply_committed-rest now lsn (inserts c v) t = (refl, refl, refl, refl, refl)
apply_committed-rest now lsn (updates old c v) t = (refl, refl, refl, refl, refl)
apply_committed-rest now lsn (deletes c r) t = (refl, refl, refl, refl, refl)

pub apply_all-Takes :
    (now lsn : ℕ) (os : List PendingOp) (t : Table) → Takes lsn os t (apply_all now lsn os t)
apply_all-Takes now lsn [] t = record {
  rows = sym (append-nil t.pending.rows);
  mirror = refl;
  desc = refl;
  dedupe_below = refl;
  needs_resnapshot = refl;
  rows_since_compaction = refl;
}
apply_all-Takes now lsn (o ∷ os) t =
    let u = apply_committed now lsn o.op t in
    let (seq, desc, dedupe, resnapshot, since) = apply_committed-rest now lsn o.op t in
    let later = apply_all-Takes now lsn os u in
    let shown = apply_committed-mirrored now lsn o.op t in
    let first = apply_committed-rows now lsn o.op t in
    let rest : log_of lsn os u
        ≡ emitted_all lsn (t.pending.seq + 1) (length t.desc.cols) os
            (shown_after o.op (mirrored t)) =
      ap (λ n. emitted_all lsn n (length u.desc.cols) os (mirrored u)) seq
      ∙ ap (λ d. emitted_all lsn (t.pending.seq + 1) (length d.cols) os (mirrored u)) desc
      ∙ ap (emitted_all lsn (t.pending.seq + 1) (length t.desc.cols) os) shown in
    let left =
      emitted_all lsn (t.pending.seq + 1) (length t.desc.cols) os (shown_after o.op (mirrored t)) in
    record {
      rows =
          later.rows
          ∙ ap (λ l. u.pending.rows ++ l) rest
          ∙ ap (λ l. l ++ left) first
          ∙ append_assoc t.pending.rows (_ ∷ []) _;
      mirror = later.mirror ∙ ap (shown_after_all os) shown;
      desc = later.desc ∙ desc;
      dedupe_below = later.dedupe_below ∙ dedupe;
      needs_resnapshot = later.needs_resnapshot ∙ resnapshot;
      rows_since_compaction = later.rows_since_compaction ∙ since;
    }

-- ===== src/Engine/Batches.antt =====
-- The pending batches: sequence numbers rise, and no row is newer than the batch's commit LSN.
use open_ltap.Base.{
  some, ok, ◌≡◌, length, get_elem?, ℕ, ◌+◌, ◌<◌, ◌≤◌, false, true, List, [], ◌∷◌, ◌++◌, inl, inr,
  arith, leb, Bool, Bool-cases, All, All-map, All-append,
}
use open_ltap.TxBuf.{commit, Ctid, Op, inserts, updates, deletes, PendingOp}
use open_ltap.Wal.Values.{Row}
use open_ltap.Engine.{Engine, handle_commit, EmitRow, PendingBatch, emit, Table, apply_committed}
use open_ltap.Engine.CommitLoop.{handle_commit-commit_table, commit_table, apply_all, of_table}

-- Each row has a greater sequence number than the rows before it, and none is above `n`.
abbrev pub IsRisingTo : ℕ → List EmitRow → Type 0
IsRisingTo n [] = Unit {0}
IsRisingTo n (r ∷ rs) = (r.seq ≤ n) × All (λ s. r.seq < s.seq) rs × IsRisingTo n rs

pub record IsBatch (b : PendingBatch) : Type 0 where
  pub rising : IsRisingTo b.seq b.rows
  pub newest : All (λ r. r.lsn ≤ b.max_commit_lsn) b.rows

IsRisingTo-append :
    (n : ℕ) (rs : List EmitRow) (r : EmitRow)
    → n < r.seq
    → IsRisingTo n rs
    → IsRisingTo r.seq (rs ++ r ∷ [])
IsRisingTo-append n [] r h a = (omega arith, tt, tt)
IsRisingTo-append n (s ∷ rs) r h a = (
  omega (arith, a.0),
  All-append (λ q. s.seq < q.seq) rs (r ∷ []) a.1 (omega (arith, a.0), tt),
  IsRisingTo-append n rs r h a.2,
)

emit-IsBatch :
    (now lsn : ℕ) (deleted : Bool) (ctid : Ctid) (row : Row) (b : PendingBatch)
    → IsBatch b
    → IsBatch (emit now lsn deleted ctid row b)
unfolding emit
emit-IsBatch now lsn deleted ctid row b v = record {
  rising =
      IsRisingTo-append b.seq b.rows
        (record { lsn = lsn; seq = b.seq + 1; deleted = deleted; ctid = ctid; row = row })
        (omega arith) v.rising;
  newest =
      All-append _ b.rows
        (record { lsn = lsn; seq = b.seq + 1; deleted = deleted; ctid = ctid; row = row } ∷ [])
        (All-map (λ r. r.lsn ≤ b.max_commit_lsn) _ (λ r h. omega (arith, h)) b.rows v.newest)
        (omega arith, tt);
}

apply_committed-IsBatch :
    (now lsn : ℕ) (op : Op) (t : Table)
    → IsBatch t.pending
    → IsBatch (apply_committed now lsn op t).pending
unfolding apply_committed
apply_committed-IsBatch now lsn (inserts c v) t h = emit-IsBatch now lsn false c v.row t.pending h
apply_committed-IsBatch now lsn (updates c d v) t h = emit-IsBatch now lsn false d v.row t.pending h
apply_committed-IsBatch now lsn (deletes c r) t h = emit-IsBatch now lsn true c _ t.pending h

apply_all-IsBatch :
    (now lsn : ℕ) (os : List PendingOp) (t : Table)
    → IsBatch t.pending
    → IsBatch (apply_all now lsn os t).pending
apply_all-IsBatch now lsn [] t h = h
apply_all-IsBatch now lsn (o ∷ os) t h =
    apply_all-IsBatch now lsn os _ (apply_committed-IsBatch now lsn o.op t h)

commit_table-IsBatch :
    (now lsn i : ℕ) (os : List PendingOp) (t : Table)
    → IsBatch t.pending
    → IsBatch (commit_table now lsn i os t).pending
commit_table-IsBatch now lsn i os t h = elim (Bool-cases (leb lsn t.dedupe_below)) [
  | inl e ↦ rw e h
  | inr e ↦ rw e (apply_all-IsBatch now lsn (of_table i os) t h)
]

-- A commit keeps a table's batch in order: sequence numbers rise along the rows up to the batch's
-- counter, and the batch's commit LSN is at or above every row's.
pub handle_commit-IsBatch :
    (now lsn xid : ℕ) (subxids : List ℕ) (e : Engine) (i : ℕ) (t : Table)
    → All (λ o. o.table < length e.tables) (commit e.txbuf xid subxids).0
    → get_elem? e.tables i ≡ some t
    → IsBatch t.pending
    → (e' : Engine) × (rows : List (ℕ × List EmitRow)) × (handle_commit now lsn xid subxids e
        ≡ ok (e', rows))
      × (t' : Table) × (get_elem? e'.tables i ≡ some t')
      × IsBatch t'.pending
handle_commit-IsBatch now lsn xid subxids e i t a at h =
    let (e', rows, run, _, _, _, tables) = handle_commit-commit_table now lsn xid subxids e a in
    (
      e',
      rows,
      run,
      _,
      tables i t at,
      commit_table-IsBatch now lsn i (commit e.txbuf xid subxids).0 t h,
    )

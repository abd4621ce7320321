-- ===== src/Engine.antt =====
-- src/engine.rs: the engine's state, and what commits, aborts and flushes do to it. The sink, the
-- freshness tail and the clock are outside: what goes to them is an argument or a result. The
-- engine's settings are left out, and its oracle is an argument of the handlers that ask it.
pub mod CommitLoop
pub mod Outcome
pub mod Publishing
pub mod Commit
pub mod Batches
pub mod Flush
pub mod Abort
pub mod Records
pub mod Keeps
pub mod Handlers
pub mod Isolation
pub mod Tables
pub mod Reshape
pub mod Compaction
use open_ltap.Base.{
  ℕ, zero, suc, ◌+◌, max, Bool, true, false, not, ◌&&◌, List, [], ◌∷◌, ◌++◌, Option, none, some,
  Result, ok, Error, ◌>>=◌, or_panic, leb, ltb, ◌==◌, if◌then◌else◌, length, get_elem?, drop,
  replicate, Map, lookup, insert, remove, nat_eq, pair_eq, any, schema_drift,
}
use open_ltap.Schema.{TableDesc}
use open_ltap.Wal.Values.{Row}
use open_ltap.Wal.Toast.{ToastCache, gc_xid}
use open_ltap.TxBuf.{
  Ctid, RowVersion, Op, inserts, updates, deletes, PendingOp, TxBuffer, commit, abort,
  lookup_version, oldest_first_lsn,
}

pub record EmitRow : Type 0 where
  pub lsn : ℕ
  pub seq : ℕ
  pub deleted : Bool
  pub ctid : Ctid
  pub row : Row

pub record PendingBatch : Type 0 where
  pub rows : List EmitRow
  pub first_at : Option ℕ
  pub max_commit_lsn : ℕ
  pub seq : ℕ

-- `first_at.is_none()` sets it.
abbrev pub or_now : ℕ → Option ℕ → Option ℕ
or_now now none = some now
or_now now (some t) = some t

unfoldable pub emit : ℕ → ℕ → Bool → Ctid → Row → PendingBatch → PendingBatch
emit now lsn deleted ctid row b = record {
  rows =
      b.rows
      ++ record { lsn = lsn; seq = b.seq + 1; deleted = deleted; ctid = ctid; row = row } ∷ [];
  first_at = or_now now b.first_at;
  max_commit_lsn = max b.max_commit_lsn lsn;
  seq = b.seq + 1;
}

abbrev pub Mirror : Type 0
Mirror = Map Ctid RowVersion

pub record Table : Type 0 where
  pub desc : TableDesc
  pub mirror : Mirror
  pub dedupe_below : ℕ
  pub pending : PendingBatch
  pub needs_resnapshot : Bool
  pub rows_since_compaction : ℕ

pub record Engine : Type 0 where
  pub tables : List Table
  pub rel_to_table : Map ℕ ℕ
  pub toast_rels : List ℕ
  pub catalog_rels : List ℕ
  pub txbuf : TxBuffer
  pub toast : ToastCache
  pub last_commit_lsn : ℕ
  pub smgr_suspects : List ℕ
  pub remap_at : Option ℕ
  pub db_oid : ℕ

-- `vec[i] = a`, for an index in range.
unfoldable pub set_at : ℕ → Table → List Table → List Table
set_at i t [] = []
set_at zero t (u ∷ us) = t ∷ us
set_at (suc i) t (u ∷ us) = u ∷ set_at i t us

unfoldable pub pending_total : List Table → ℕ
pending_total [] = 0
pending_total (t ∷ ts) = length t.pending.rows + pending_total ts

abbrev pub or_else {ℓ} : {A : Type ℓ} → Option A → A → A
or_else (some a) d = a
or_else none d = d

unfoldable pub restart_lsn : Engine → ℕ
restart_lsn e = or_else (oldest_first_lsn e.txbuf) e.last_commit_lsn

unfoldable pub preimage : Engine → ℕ → Ctid → Result (Option RowVersion)
unfolding lookup
preimage e table ctid = elim (lookup_version e.txbuf table ctid) [
  | some v ↦ ok (some v)
  | none ↦ do t ← or_panic (get_elem? e.tables table); ok (lookup ctid t.mirror)
]

-- `Option::map` on the version's row.
abbrev pub row_of : Option RowVersion → Option Row
row_of none = none
row_of (some v) = some v.row

abbrev pub or_none : Option Row → Option Row → Option Row
or_none (some r) other = some r
or_none none other = other

-- The row of a tombstone: the old row, the mirror's, or all nulls.
unfoldable pub tombstone : Ctid → Option Row → Table → Row
unfolding lookup
tombstone ctid old_row t =
    or_else (or_none old_row (row_of (lookup ctid t.mirror))) (replicate (length t.desc.cols) none)

-- The match of `handle_commit` on an operation.
unfoldable pub apply_committed : ℕ → ℕ → Op → Table → Table
unfolding insert remove emit tombstone
apply_committed now lsn (inserts ctid ver) t = record t {
  pending = emit now lsn false ctid ver.row t.pending;
  mirror = insert ctid ver t.mirror;
}
apply_committed now lsn (updates old_ctid ctid ver) t = record t {
  pending = emit now lsn false ctid ver.row t.pending;
  mirror = insert ctid ver (remove old_ctid t.mirror);
}
apply_committed now lsn (deletes ctid old_row) t = record t {
  pending = emit now lsn true ctid (tombstone ctid old_row t) t.pending;
  mirror = remove ctid t.mirror;
}

-- `emitted.entry(table).or_insert_with`: where the commit's rows of a table start.
unfoldable pub note_start : ℕ → ℕ → Map ℕ ℕ → Map ℕ ℕ
unfolding lookup insert
note_start table start emitted = elim (lookup table emitted) [
  | some k ↦ emitted
  | none ↦ insert table start emitted
]

-- The loop over the transaction's operations.
unfoldable pub commit_ops :
    ℕ → ℕ → List PendingOp → List Table → Map ℕ ℕ → Result (List Table × Map ℕ ℕ)
unfolding apply_committed note_start set_at
commit_ops now lsn [] tables emitted = ok (tables, emitted)
commit_ops now lsn (o ∷ os) tables emitted = do
  t ← or_panic (get_elem? tables o.table)
  if leb lsn t.dedupe_below
      then commit_ops now lsn os tables emitted
      else commit_ops now lsn os (set_at o.table (apply_committed now lsn o.op t) tables)
          (note_start o.table (length t.pending.rows) emitted)

-- The rows that go to the freshness tail, by table.
unfoldable pub published : List Table → Map ℕ ℕ → Result (List (ℕ × List EmitRow))
published tables [] = ok []
published tables ((ti, start) ∷ emitted) = do
  t ← or_panic (get_elem? tables ti)
  rest ← published tables emitted
  if ltb start (length t.pending.rows) then ok ((ti, drop start t.pending.rows) ∷ rest) else ok rest

abbrev pub has : ℕ → List ℕ → Bool
has x xs = any (λ y. y == x) xs

unfoldable pub discard : ℕ → List ℕ → List ℕ
discard x [] = []
discard x (y ∷ ys) = if y == x then discard x ys else y ∷ discard x ys

unfoldable pub discard_all : List ℕ → List ℕ → List ℕ
unfolding discard
discard_all [] s = s
discard_all (x ∷ xs) s = discard_all xs (discard x s)

-- `xs.iter().any(|x| set.remove(x))` stops at the first one that is there.
unfoldable pub take_first : List ℕ → List ℕ → Bool × List ℕ
unfolding discard
take_first [] s = (false, s)
take_first (x ∷ xs) s = if has x s then (true, discard x s) else take_first xs s

unfoldable pub gc_all : List ℕ → ToastCache → ToastCache
unfolding gc_xid
gc_all [] t = t
gc_all (x ∷ xs) t = gc_all xs (gc_xid t x)

-- The engine after a commit that leaves these tables.
abbrev pub after_commit : ℕ → ℕ → List ℕ → List Table → Engine → Engine
after_commit lsn xid subxids tables e =
    let (suspect, suspects) = take_first (xid ∷ subxids) e.smgr_suspects in
    record e {
      tables = tables;
      txbuf = (commit e.txbuf xid subxids).1;
      toast = gc_all (xid ∷ subxids) e.toast;
      last_commit_lsn = lsn;
      smgr_suspects = suspects;
      remap_at = if suspect then some lsn else e.remap_at;
    }

-- The engine, and what it publishes.
unfoldable pub handle_commit :
    ℕ → ℕ → ℕ → List ℕ → Engine → Result (Engine × List (ℕ × List EmitRow))
unfolding commit_ops published
handle_commit now lsn xid subxids e = do
  (tables, emitted) ← commit_ops now lsn (commit e.txbuf xid subxids).0 e.tables []
  rows ← published tables emitted
  ok (after_commit lsn xid subxids tables e, rows)

unfoldable pub handle_abort : ℕ → List ℕ → Engine → Engine
unfolding discard_all gc_all
handle_abort xid subxids e = record e {
  smgr_suspects = discard_all (xid ∷ subxids) e.smgr_suspects;
  toast = gc_all (xid ∷ subxids) e.toast;
  txbuf = (abort e.txbuf xid subxids).1;
}

unfoldable pub handle_smgr_create : ℕ → ℕ → Engine → Engine
handle_smgr_create xid db e =
    if db == e.db_oid && not (xid == 0)
    then record e {
      smgr_suspects = if has xid e.smgr_suspects then e.smgr_suspects else xid ∷ e.smgr_suspects;
    }
    else e

-- `is_some::<SchemaDrift>` of the error.
abbrev pub is_drift : Error → Bool
is_drift schema_drift = true
is_drift _ = false

unfoldable pub note_decode_error : ℕ → ℕ → Error → Engine → Result Engine
unfolding set_at
note_decode_error ti lsn why e =
    if is_drift why
    then (do
      t ← or_panic (get_elem? e.tables ti)
      ok (record e {
        tables = set_at ti (record t { needs_resnapshot = true }) e.tables;
        remap_at = or_now lsn e.remap_at;
      }))
    else ok e

-- ===== src/TxBuf.antt =====
-- src/txbuf.rs: the changes of open transactions, held back until they commit or abort.
pub mod Ctids
pub mod Overlay
pub mod History
pub mod Sorting
pub mod Gathering
pub mod Commit
pub mod Restart
use open_ltap.Base.{
  ℕ, suc, ◌+◌, ◌*◌, ◌/◌, ◌%◌, ◌^◌, min, Bool, List, [], ◌∷◌, ◌++◌, Option, none, some, leb,
  if◌then◌else◌, Bytes, Map, lookup, insert, remove, nat_eq, pair_eq, length,
}
use open_ltap.Wal.Values.{Row}

-- (block number, line-pointer offset).
abbrev pub Ctid : Type 0
Ctid = ℕ × ℕ

-- The shifted block and the offset share no bit, so `|` is `+`.
pub pack_ctid : Ctid → ℕ
pack_ctid (blk, off) = blk * 2 ^ 16 + off

-- `as u32` and `as u16` keep the low bits.
pub unpack_ctid : ℕ → Ctid
unpack_ctid packed = ((packed / 2 ^ 16) % 2 ^ 32, packed % 2 ^ 16)

pub record RowVersion : Type 0 where
  pub row : Row
  pub attrs : Option Bytes

pub data Op : Type 0 where
  inserts : Ctid → RowVersion → Op
  -- the old place, then the new one
  updates : Ctid → Ctid → RowVersion → Op
  deletes : Ctid → Option Row → Op

pub record PendingOp : Type 0 where
  pub lsn : ℕ
  pub table : ℕ
  pub op : Op

abbrev pub Overlay : Type 0
Overlay = Map (ℕ × Ctid) RowVersion

pub record OpenTx : Type 0 where
  pub first_lsn : ℕ
  pub ops : List PendingOp
  pub overlay : Overlay

pub record TxBuffer : Type 0 where
  pub open_txs : Map ℕ OpenTx

pub default : TxBuffer
default = record { open_txs = [] }

-- The `match &op` of `add_op`.
unfoldable pub apply : ℕ → Op → Overlay → Overlay
unfolding insert remove
apply table (inserts ctid ver) o = insert (table, ctid) ver o
apply table (updates old_ctid ctid ver) o = insert (table, ctid) ver (remove (table, old_ctid) o)
apply table (deletes ctid old_row) o = remove (table, ctid) o

-- `entry(xid).or_insert_with`.
or_new : ℕ → Option OpenTx → OpenTx
or_new lsn (some tx) = tx
or_new lsn none = record { first_lsn = lsn; ops = []; overlay = [] }

unfoldable pub add_to : ℕ → ℕ → Op → OpenTx → OpenTx
unfolding apply
add_to lsn table op tx = record tx {
  ops = tx.ops ++ record { lsn = lsn; table = table; op = op } ∷ [];
  overlay = apply table op tx.overlay;
}

unfoldable pub add_op : TxBuffer → ℕ → ℕ → ℕ → Op → TxBuffer
unfolding or_new add_to lookup insert
add_op b xid lsn table op = record {
  open_txs = insert xid (add_to lsn table op (or_new lsn (lookup xid b.open_txs))) b.open_txs;
}

-- `self.open.values().find_map(..)`, in the order of the list.
unfoldable pub find_version : ℕ × Ctid → Map ℕ OpenTx → Option RowVersion
unfolding lookup
find_version k [] = none
find_version k ((xid, tx) ∷ m) = elim (lookup k tx.overlay) [
  | some v ↦ some v
  | none ↦ find_version k m
]

unfoldable pub lookup_version : TxBuffer → ℕ → Ctid → Option RowVersion
unfolding find_version
lookup_version b table ctid = find_version (table, ctid) b.open_txs

-- `map(|t| t.ops).unwrap_or_default()`.
unfoldable pub ops_of : Option OpenTx → List PendingOp
ops_of none = []
ops_of (some tx) = tx.ops

-- The operations of one transaction, which is removed.
unfoldable pub take_ops : ℕ → Map ℕ OpenTx → List PendingOp × Map ℕ OpenTx
unfolding ops_of lookup remove
take_ops xid m = (ops_of (lookup xid m), remove xid m)

-- The loop over `subxids` in `commit`, with `ops` the vector that it extends.
unfoldable pub take_subs : List ℕ → List PendingOp → Map ℕ OpenTx → List PendingOp × Map ℕ OpenTx
unfolding take_ops
take_subs [] ops m = (ops, m)
take_subs (sub ∷ subs) ops m = take_subs subs (ops ++ (take_ops sub m).0) (take_ops sub m).1

-- `sort_by_key(|o| o.lsn)` is a stable sort.
unfoldable pub insert_by_lsn : PendingOp → List PendingOp → List PendingOp
insert_by_lsn o [] = o ∷ []
insert_by_lsn o (p ∷ ps) = if leb o.lsn p.lsn then o ∷ p ∷ ps else p ∷ insert_by_lsn o ps

unfoldable pub sort_by_lsn : List PendingOp → List PendingOp
unfolding insert_by_lsn
sort_by_lsn [] = []
sort_by_lsn (o ∷ os) = insert_by_lsn o (sort_by_lsn os)

unfoldable pub commit : TxBuffer → ℕ → List ℕ → List PendingOp × TxBuffer
unfolding take_ops take_subs sort_by_lsn
commit b xid subxids =
    let (ops, m) = take_ops xid b.open_txs in
    let (all, rest) = take_subs subxids ops m in (sort_by_lsn all, record { open_txs = rest })

-- The loop over `subxids` in `abort`, with the count so far.
unfoldable pub drop_subs : List ℕ → ℕ → Map ℕ OpenTx → ℕ × Map ℕ OpenTx
unfolding take_ops
drop_subs [] n m = (n, m)
drop_subs (sub ∷ subs) n m = drop_subs subs (n + length (take_ops sub m).0) (take_ops sub m).1

unfoldable pub abort : TxBuffer → ℕ → List ℕ → ℕ × TxBuffer
unfolding take_ops drop_subs
abort b xid subxids =
    let (ops, m) = take_ops xid b.open_txs in
    let (n, rest) = drop_subs subxids (length ops) m in (n, record { open_txs = rest })

min_opt : ℕ → Option ℕ → Option ℕ
min_opt n none = some n
min_opt n (some k) = some (min n k)

-- `values().map(|t| t.first_lsn).min()`.
oldest : Map ℕ OpenTx → Option ℕ
unfolding min_opt
oldest [] = none
oldest ((xid, tx) ∷ m) = min_opt tx.first_lsn (oldest m)

unfoldable pub oldest_first_lsn : TxBuffer → Option ℕ
unfolding oldest
oldest_first_lsn b = oldest b.open_txs

pub open_count : TxBuffer → ℕ
open_count b = length b.open_txs

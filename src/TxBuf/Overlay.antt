-- ===== src/TxBuf/Overlay.antt =====
-- What `add_op` does to the view of uncommitted rows.
use open_ltap.Base.{
  ℕ, List, [], ◌∷◌, ◌++◌, Option, none, some, ◌≡◌, refl, lookup, remove, if◌then◌else◌, nat_eq,
  pair_eq, lookup-insert, lookup-remove, ap, sym, ◌∙◌,
}
use open_ltap.TxBuf.{
  Ctid, RowVersion, Op, inserts, updates, deletes, PendingOp, Overlay, OpenTx, apply, add_to,
}

-- The overlay that a list of operations leaves, from the first to the last.
abbrev pub replay : Overlay → List PendingOp → Overlay
replay o [] = o
replay o (p ∷ ps) = replay (apply p.table p.op o) ps

replay-append :
    (o : Overlay) (ps qs : List PendingOp) → replay o (ps ++ qs) ≡ replay (replay o ps) qs
replay-append o [] qs = refl
replay-append o (p ∷ ps) qs = replay-append (apply p.table p.op o) ps qs

-- The overlay of a transaction is what its operations leave.
abbrev pub IsReplay : OpenTx → Type 0
IsReplay tx = tx.overlay ≡ replay [] tx.ops

add_to-IsReplay :
    (lsn table : ℕ) (op : Op) (tx : OpenTx) → IsReplay tx → IsReplay (add_to lsn table op tx)
unfolding add_to
add_to-IsReplay lsn table op tx h =
    ap (apply table op) h
    ∙ sym (replay-append [] tx.ops (record { lsn = lsn; table = table; op = op } ∷ []))

-- What an operation shows at an address: the version it writes there, nothing at a place that it
-- empties, and nothing about any other place.
abbrev pub shows : ℕ → Op → ℕ × Ctid → Option RowVersion → Option RowVersion
shows table (inserts c v) k before =
    if (pair_eq {A = ℕ} {B = Ctid}).beq (table, c) k then some v else before
shows table (updates c d v) k before =
    if (pair_eq {A = ℕ} {B = Ctid}).beq (table, d) k
    then some v
    else if (pair_eq {A = ℕ} {B = Ctid}).beq (table, c) k
    then none
    else before
shows table (deletes c r) k before =
    if (pair_eq {A = ℕ} {B = Ctid}).beq (table, c) k then none else before

-- After an operation the overlay shows, at every address, what the operation shows there.
pub lookup-apply :
    (table : ℕ) (op : Op) (o : Overlay) (k : ℕ × Ctid)
    → lookup k (apply table op o) ≡ shows table op k (lookup k o)
unfolding apply
lookup-apply table (inserts c v) o k = lookup-insert (table, c) k v o
lookup-apply table (updates c d v) o k =
    rw (lookup-insert (table, d) k v (remove (table, c) o), lookup-remove (table, c) k o) refl
lookup-apply table (deletes c r) o k = lookup-remove (table, c) k o

-- ===== src/TxBuf/Restart.antt =====
-- The restart position: nothing that is still buffered lies before it.
use open_ltap.Base.{
  ℕ, ◌≤◌, List, [], ◌∷◌, Option, none, some, ◌≡◌, ◌⊎◌, inl, inr, arith, lookup, remove, nat_eq, Map,
  All, All-append, Values, insert-Values, remove-Values, lookup-Values, Option-cases, Bool-cases,
  ◌==◌,
}
use open_ltap.TxBuf.{
  Op, PendingOp, OpenTx, TxBuffer, default, add_to, add_op, or_new, ops_of, take_ops, take_subs,
  commit, drop_subs, abort, oldest, min_opt, oldest_first_lsn,
}
use open_ltap.TxBuf.History.{Event, adds, commits, aborts, step, run, view}

-- The LSNs of the added operations never fall, from `n` on.
abbrev pub IsRising : ℕ → List Event → Type 0
IsRising n [] = Unit {0}
IsRising n (adds xid lsn table op ∷ es) = (n ≤ lsn) × IsRising lsn es
IsRising n (commits xid subxids ∷ es) = IsRising n es
IsRising n (aborts xid subxids ∷ es) = IsRising n es

-- No operation of the transaction is older than its `first_lsn`, which `n` has reached.
record IsOpenedBy (n : ℕ) (tx : OpenTx) : Type 0 where
  reached : tx.first_lsn ≤ n
  first : All (λ p. tx.first_lsn ≤ p.lsn) tx.ops

IsOpenedBy-mono :
    (n m : ℕ) → n ≤ m → (txs : Map ℕ OpenTx) → Values (IsOpenedBy n) txs → Values (IsOpenedBy m) txs
IsOpenedBy-mono n m h [] a = tt
IsOpenedBy-mono n m h ((x, tx) ∷ txs) a = (
  record { reached = omega (arith, a.0.reached); first = a.0.first },
  IsOpenedBy-mono n m h txs a.1,
)

add_to-IsOpenedBy :
    (lsn table : ℕ) (op : Op) (tx : OpenTx)
    → IsOpenedBy lsn tx
    → IsOpenedBy lsn (add_to lsn table op tx)
unfolding add_to
add_to-IsOpenedBy lsn table op tx h = record {
  reached = h.reached;
  first =
      All-append _ tx.ops (record { lsn = lsn; table = table; op = op } ∷ []) h.first
        (h.reached, tt);
}

add_op-Values :
    (b : TxBuffer) (xid lsn table : ℕ) (op : Op)
    → Values (IsOpenedBy lsn) b.open_txs
    → Values (IsOpenedBy lsn) (add_op b xid lsn table op).open_txs
unfolding add_op
add_op-Values b xid lsn table op a = elim (Option-cases (lookup xid b.open_txs)) [
  | inl e ↦
      insert-Values _ xid _ b.open_txs
        (rw (e, or_new)
          (add_to-IsOpenedBy lsn table op (record { first_lsn = lsn; ops = []; overlay = [] })
            (record { reached = omega arith; first = tt })))
        a
  | inr (tx, e) ↦
      insert-Values _ xid _ b.open_txs
        (rw (e, or_new) (add_to-IsOpenedBy lsn table op tx (lookup-Values _ xid b.open_txs e a))) a
]

take_subs-Values :
    (P : OpenTx → Type 0) (ss : List ℕ) (ops : List PendingOp) (m : Map ℕ OpenTx)
    → Values P m
    → Values P (take_subs ss ops m).1
unfolding take_subs take_ops
take_subs-Values P [] ops m a = a
take_subs-Values P (s ∷ ss) ops m a = take_subs-Values P ss _ (remove s m) (remove-Values P s m a)

drop_subs-Values :
    (P : OpenTx → Type 0) (ss : List ℕ) (n : ℕ) (m : Map ℕ OpenTx)
    → Values P m
    → Values P (drop_subs ss n m).1
unfolding drop_subs take_ops
drop_subs-Values P [] n m a = a
drop_subs-Values P (s ∷ ss) n m a = drop_subs-Values P ss _ (remove s m) (remove-Values P s m a)

abbrev last_lsn : ℕ → List Event → ℕ
last_lsn n [] = n
last_lsn n (adds xid lsn table op ∷ es) = last_lsn lsn es
last_lsn n (commits xid subxids ∷ es) = last_lsn n es
last_lsn n (aborts xid subxids ∷ es) = last_lsn n es

run-Values :
    (es : List Event) (n : ℕ) (b : TxBuffer)
    → IsRising n es
    → Values (IsOpenedBy n) b.open_txs
    → Values (IsOpenedBy (last_lsn n es)) (run b es).open_txs
unfolding run step commit abort take_ops
run-Values [] n b r a = a
run-Values (adds xid lsn table op ∷ es) n b r a =
    run-Values es lsn _ r.1
      (add_op-Values b xid lsn table op (IsOpenedBy-mono n lsn r.0 b.open_txs a))
run-Values (commits xid subxids ∷ es) n b r a =
    run-Values es n _ r (take_subs-Values _ subxids _ _ (remove-Values _ xid b.open_txs a))
run-Values (aborts xid subxids ∷ es) n b r a =
    run-Values es n _ r (drop_subs-Values _ subxids _ _ (remove-Values _ xid b.open_txs a))

-- A restart position that covers `lsn`; with no position nothing is covered.
abbrev pub Covers : Option ℕ → ℕ → Type 0
Covers none lsn = ⊥
Covers (some n) lsn = n ≤ lsn

Covers-min : (n lsn : ℕ) (o : Option ℕ) → (n ≤ lsn) ⊎ Covers o lsn → Covers (min_opt n o) lsn
unfolding min_opt
Covers-min n lsn none (inl h) = h
Covers-min n lsn none (inr h) = elim h [ ]
Covers-min n lsn (some k) h = ground arith

oldest-Covers :
    (x : ℕ) (m : Map ℕ OpenTx) {tx : OpenTx} → lookup x m ≡ some tx → Covers (oldest m) tx.first_lsn
unfolding oldest lookup
oldest-Covers x [] e = cc
oldest-Covers x ((y, t) ∷ m) {tx} e = elim (Bool-cases (y == x)) [
  | inl hit ↦ Covers-min t.first_lsn tx.first_lsn (oldest m) (inl (ground arith))
  | inr ne ↦
      Covers-min t.first_lsn tx.first_lsn (oldest m)
        (inr (oldest-Covers x m {tx = tx} (ground arith)))
]

Covers-All :
    (o : Option ℕ) (n : ℕ) (ps : List PendingOp)
    → Covers o n
    → All (λ p. n ≤ p.lsn) ps
    → All (λ p. Covers o p.lsn) ps
Covers-All o n [] c a = tt
Covers-All none n (p ∷ ps) c a = elim c [ ]
Covers-All (some k) n (p ∷ ps) c a = (omega arith, Covers-All (some k) n ps c a.1)

-- After any history in which LSNs never fall, `oldest_first_lsn` covers every buffered operation
-- of every transaction: there is a position, and none of them lies before it.
pub oldest_first_lsn-run :
    (es : List Event) (x : ℕ)
    → IsRising 0 es
    → All (λ p. Covers (oldest_first_lsn (run default es)) p.lsn) (view (run default es) x)
unfolding oldest_first_lsn ops_of default
oldest_first_lsn-run es x r = elim (Option-cases (lookup x (run default es).open_txs)) [
  | inl e ↦ rw (e, ops_of) tt
  | inr (tx, e) ↦
      rw (e, ops_of)
        (Covers-All _ tx.first_lsn tx.ops (oldest-Covers x _ e)
          (lookup-Values _ x _ e (run-Values es 0 default r tt)).first)
]

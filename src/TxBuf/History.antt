-- ===== src/TxBuf/History.antt =====
-- The specification of the buffer: one log of the unfinished transactions' operations in WAL
-- order. The buffer refines it.
use mathlib.Core.Path.{fun_ext}
use mathlib.Core.List.{append-nil, append_assoc}
use open_ltap.Base.{
  ℕ, Bool, false, List, [], ◌∷◌, ◌++◌, ◌≡◌, refl, sym, ◌∙◌, arith, ◌==◌, ◌||◌, if◌then◌else◌,
  lookup, remove, nat_eq, lookup-insert, lookup-remove, Map,
}
use open_ltap.TxBuf.{
  Op, PendingOp, OpenTx, TxBuffer, default, add_to, add_op, or_new, ops_of, take_ops, take_subs,
  commit, drop_subs, abort,
}

pub data Event : Type 0 where
  -- xid, LSN, table
  adds : ℕ → ℕ → ℕ → Op → Event
  commits aborts : ℕ → List ℕ → Event

unfoldable pub step : TxBuffer → Event → TxBuffer
step b (adds xid lsn table op) = add_op b xid lsn table op
step b (commits xid subxids) = (commit b xid subxids).1
step b (aborts xid subxids) = (abort b xid subxids).1

unfoldable pub run : TxBuffer → List Event → TxBuffer
unfolding step
run b [] = b
run b (e ∷ es) = run (step b e) es

abbrev pub Log : Type 0
Log = List (ℕ × PendingOp)

abbrev pub mem : ℕ → List ℕ → Bool
mem x [] = false
mem x (y ∷ ys) = y == x || mem x ys

-- The operations that belong to the transactions `xs`, in the log's order.
abbrev pub inside : List ℕ → Log → List PendingOp
inside xs [] = []
inside xs ((y, o) ∷ l) = if mem y xs then o ∷ inside xs l else inside xs l

abbrev pub outside : List ℕ → Log → Log
outside xs [] = []
outside xs ((y, o) ∷ l) = if mem y xs then outside xs l else (y, o) ∷ outside xs l

unfoldable pub log_step : Log → Event → Log
log_step l (adds xid lsn table op) = l ++ (xid, record { lsn = lsn; table = table; op = op }) ∷ []
log_step l (commits xid subxids) = outside (xid ∷ subxids) l
log_step l (aborts xid subxids) = outside (xid ∷ subxids) l

unfoldable pub log_run : Log → List Event → Log
unfolding log_step
log_run l [] = l
log_run l (e ∷ es) = log_run (log_step l e) es

abbrev pub View : Type 0
View = ℕ → List PendingOp

abbrev pub view_map : Map ℕ OpenTx → View
view_map m x = ops_of (lookup x m)

abbrev pub view : TxBuffer → View
view b = view_map b.open_txs

-- The buffer holds the log's operations of each transaction, in order.
abbrev pub Refines : TxBuffer → Log → Type 0
Refines b l = (x : ℕ) → view b x ≡ inside (x ∷ []) l

abbrev pub without : ℕ → View → View
without s f y = if s == y then [] else f y

-- The operations of the transactions `xs`, one after the other, each taken once.
abbrev pub gather : List ℕ → View → List PendingOp
gather [] f = []
gather (s ∷ ss) f = f s ++ gather ss (without s f)

pub view-remove : (s : ℕ) (m : Map ℕ OpenTx) → view_map (remove s m) ≡ without s (view_map m)
unfolding ops_of
view-remove s m = fun_ext λ y. rw (lookup-remove s y m) (ground arith)

pub take_subs-gather :
    (ss : List ℕ) (ops : List PendingOp) (m : Map ℕ OpenTx)
    → (take_subs ss ops m).0 ≡ ops ++ gather ss (view_map m)
unfolding take_subs take_ops
take_subs-gather [] ops m = sym (append-nil ops)
take_subs-gather (s ∷ ss) ops m =
    take_subs-gather ss (ops ++ ops_of (lookup s m)) (remove s m)
    ∙ rw (view-remove s m) (append_assoc ops _ _)

view-take_subs :
    (ss : List ℕ) (ops : List PendingOp) (m : Map ℕ OpenTx) (y : ℕ)
    → view_map (take_subs ss ops m).1 y ≡ (if mem y ss then [] else view_map m y)
unfolding take_subs take_ops ops_of
view-take_subs [] ops m y = refl
view-take_subs (s ∷ ss) ops m y =
    view-take_subs ss (ops ++ ops_of (lookup s m)) (remove s m) y
    ∙ ground (arith, lookup-remove s y m)

view-drop_subs :
    (ss : List ℕ) (n : ℕ) (m : Map ℕ OpenTx) (y : ℕ)
    → view_map (drop_subs ss n m).1 y ≡ (if mem y ss then [] else view_map m y)
unfolding drop_subs take_ops ops_of
view-drop_subs [] n m y = refl
view-drop_subs (s ∷ ss) n m y =
    view-drop_subs ss _ (remove s m) y ∙ ground (arith, lookup-remove s y m)

view-commit :
    (b : TxBuffer) (xid : ℕ) (subxids : List ℕ) (y : ℕ)
    → view (commit b xid subxids).1 y ≡ (if mem y (xid ∷ subxids) then [] else view b y)
unfolding commit take_ops ops_of
view-commit b xid subxids y =
    view-take_subs subxids _ (remove xid b.open_txs) y
    ∙ ground (arith, lookup-remove xid y b.open_txs)

pub view-abort :
    (b : TxBuffer) (xid : ℕ) (subxids : List ℕ) (y : ℕ)
    → view (abort b xid subxids).1 y ≡ (if mem y (xid ∷ subxids) then [] else view b y)
unfolding abort take_ops ops_of
view-abort b xid subxids y =
    view-drop_subs subxids _ (remove xid b.open_txs) y
    ∙ ground (arith, lookup-remove xid y b.open_txs)

view-add_op :
    (b : TxBuffer) (xid lsn table : ℕ) (op : Op) (y : ℕ)
    → view (add_op b xid lsn table op) y ≡ (
        if xid == y
        then view b y ++ record { lsn = lsn; table = table; op = op } ∷ []
        else view b y)
unfolding add_op ops_of
view-add_op b xid lsn table op y = ground (
  arith,
  lookup-insert xid y (add_to lsn table op (or_new lsn (lookup xid b.open_txs))) b.open_txs,
)

inside-append : (xs : List ℕ) (l k : Log) → inside xs (l ++ k) ≡ inside xs l ++ inside xs k
inside-append xs [] k = refl
inside-append xs ((y, o) ∷ l) k = ground (arith, inside-append xs l k)

inside-outside :
    (x : ℕ) (xs : List ℕ) (l : Log)
    → inside (x ∷ []) (outside xs l) ≡ (if mem x xs then [] else inside (x ∷ []) l)
inside-outside x xs [] = ground arith
inside-outside x xs ((y, o) ∷ l) = ground (arith, inside-outside x xs l)

pub default-Refines : Refines default []
unfolding default lookup ops_of
default-Refines x = refl

step-Refines :
    (b : TxBuffer) (l : Log) (e : Event) → Refines b l → Refines (step b e) (log_step l e)
unfolding step log_step
step-Refines b l (adds xid lsn table op) r x = ground (
  arith,
  view-add_op b xid lsn table op x,
  inside-append (x ∷ []) l ((xid, record { lsn = lsn; table = table; op = op }) ∷ []),
  r x,
  append-nil (inside (x ∷ []) l),
)
step-Refines b l (commits xid subxids) r x =
    view-commit b xid subxids x ∙ ground (arith, inside-outside x (xid ∷ subxids) l, r x)
step-Refines b l (aborts xid subxids) r x =
    view-abort b xid subxids x ∙ ground (arith, inside-outside x (xid ∷ subxids) l, r x)

-- Any history takes a buffer that refines a log to a buffer that refines the log of that history:
-- for each transaction it holds exactly the logged operations, in order.
pub run-Refines :
    (b : TxBuffer) (l : Log) (es : List Event) → Refines b l → Refines (run b es) (log_run l es)
unfolding run log_run
run-Refines b l [] r = r
run-Refines b l (e ∷ es) r = run-Refines (step b e) (log_step l e) es (step-Refines b l e r)

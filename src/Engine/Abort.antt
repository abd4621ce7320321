-- ===== src/Engine/Abort.antt =====
-- An abort touches only what belongs to its transactions.
use open_ltap.Base.{
  ℕ, false, List, [], ◌∷◌, ◌≡◌, refl, ◌∙◌, arith, ◌==◌, ◌||◌, if◌then◌else◌, Bool-cases, inl, inr,
  All, Map, All-map,
}
use open_ltap.Wal.Toast.{ToastCache, Chunks, gc_xid, retain_others}
use open_ltap.TxBuf.History.{mem, view, view-abort}
use open_ltap.Engine.{Engine, has, discard, discard_all, gc_all, handle_abort}

has-discard : (x y : ℕ) (s : List ℕ) → has y (discard x s) ≡ (if x == y then false else has y s)
unfolding discard
has-discard x y [] = ground arith
has-discard x y (z ∷ s) = ground (arith, has-discard x y s)

has-discard_all :
    (y : ℕ) (xs s : List ℕ) → has y (discard_all xs s) ≡ (if mem y xs then false else has y s)
unfolding discard_all
has-discard_all y [] s = refl
has-discard_all y (x ∷ xs) s =
    has-discard_all y xs (discard x s) ∙ ground (arith, has-discard x y s)

-- No buffered value is owned by one of the transactions `xs`.
abbrev pub Disowned : List ℕ → Map ℕ (ℕ × Chunks) → Type 0
Disowned xs m = All (λ p. mem p.1.0 xs ≡ false) m

retain_others-Disowned :
    (x : ℕ) (xs : List ℕ) (m : Map ℕ (ℕ × Chunks))
    → Disowned xs m
    → Disowned (x ∷ xs) (retain_others x m)
unfolding retain_others
retain_others-Disowned x xs [] a = tt
retain_others-Disowned x xs ((v, (owner, chunks)) ∷ m) a = elim (Bool-cases (owner == x)) [
  | inl e ↦ rw e (retain_others-Disowned x xs m a.1)
  | inr e ↦ rw e (ground (arith, a.0), retain_others-Disowned x xs m a.1)
]

gc_all-Disowned :
    (xs ds : List ℕ) (t : ToastCache)
    → Disowned ds t.vals
    → All (λ p. (mem p.1.0 xs || mem p.1.0 ds) ≡ false) (gc_all xs t).vals
unfolding gc_all gc_xid
gc_all-Disowned [] ds t a = a
gc_all-Disowned (x ∷ xs) ds t a =
    All-map (λ p. (mem p.1.0 xs || mem p.1.0 (x ∷ ds)) ≡ false) _ (λ p h. ground (arith, h))
      (gc_all (x ∷ xs) t).vals
      (gc_all-Disowned xs (x ∷ ds) (gc_xid t x) (retain_others-Disowned x ds t.vals a))

all_true : (m : Map ℕ (ℕ × Chunks)) → Disowned [] m
all_true [] = tt
all_true (p ∷ m) = (refl, all_true m)

-- An abort leaves no operation of its transactions in the buffer, none of them among the suspects
-- and no out-of-line value that they own; the tables, the other transactions' operations and the
-- other suspects stay.
pub handle_abort-Isolates :
    (xid : ℕ) (subxids : List ℕ) (e : Engine)
    → let e' = handle_abort xid subxids e in
      ((y : ℕ) → view e'.txbuf y ≡ (if mem y (xid ∷ subxids) then [] else view e.txbuf y))
      × ((y : ℕ)
          → has y e'.smgr_suspects
            ≡ (if mem y (xid ∷ subxids) then false else has y e.smgr_suspects))
      × Disowned (xid ∷ subxids) e'.toast.vals
      × (e'.tables ≡ e.tables)
unfolding handle_abort
handle_abort-Isolates xid subxids e = (
  (λ y. view-abort e.txbuf xid subxids y),
  (λ y. has-discard_all y (xid ∷ subxids) e.smgr_suspects),
  All-map (λ p. (mem p.1.0 (xid ∷ subxids) || false) ≡ false) _ (λ p h. ground (arith, h))
      (gc_all (xid ∷ subxids) e.toast).vals
      (gc_all-Disowned (xid ∷ subxids) [] e.toast (all_true e.toast.vals)),
  refl,
)

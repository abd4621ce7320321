-- ===== src/TxBuf/Gathering.antt =====
-- src/txbuf.rs: the operations of several transactions, put together.
use mathlib.Core.Path.{fun_ext}
use open_ltap.Base.{
  ℕ, ◌≤◌, ◌<◌, true, false, List, [], ◌∷◌, ◌++◌, ◌≡◌, ◌≢◌, refl, sym, subst, arith, ◌==◌, inl, inr,
  if◌then◌else◌, nat_eq, All, All-map, All-append, ==_iff, Bool-cases,
}
use open_ltap.TxBuf.{PendingOp, sort_by_lsn}
use open_ltap.TxBuf.History.{mem, View, without, gather}
use open_ltap.TxBuf.Sorting.{sort_least, sort_prefix}

abbrev put : ℕ → PendingOp → View → View
put x o f y = if mem x (y ∷ []) then o ∷ f y else f y

without-All {ℓ} :
    (P : PendingOp → Type ℓ) (s y : ℕ) (f : View) → All P (f y) → All P (without s f y)
without-All P s y f h = elim (Bool-cases (s == y)) [ inl e ↦ rw e tt | inr e ↦ rw e h ]

gather-All {ℓ} :
    (P : PendingOp → Type ℓ) (ss : List ℕ) (f : View)
    → ((y : ℕ) → All P (f y))
    → All P (gather ss f)
gather-All P [] f h = tt
gather-All P (s ∷ ss) f h =
    All-append P (f s) _ (h s) (gather-All P ss (without s f) λ y. without-All P s y f (h y))

without-put_self : (x : ℕ) (o : PendingOp) (f : View) → without x (put x o f) ≡ without x f
without-put_self x o f = fun_ext λ y. ground arith

without-put_ne :
    (s x : ℕ) (o : PendingOp) (f : View) → s ≢ x → without s (put x o f) ≡ put x o (without s f)
without-put_ne s x o f h = fun_ext λ y. ground arith

pub gather-put_miss :
    (ss : List ℕ) (x : ℕ) (o : PendingOp) (f : View)
    → mem x ss ≡ false
    → gather ss (put x o f) ≡ gather ss f
gather-put_miss [] x o f h = refl
gather-put_miss (s ∷ ss) x o f h =
    rw (without-put_ne s x o f (ground arith), gather-put_miss ss x o (without s f) (ground arith))
      (ground arith)

-- Every later operation of another transaction is strictly later.
abbrev First : ℕ → PendingOp → View → Type 0
First x o f = ((y : ℕ) → x ≢ y → All (λ p. o.lsn < p.lsn) (f y)) × All (λ p. o.lsn ≤ p.lsn) (f x)

First-le :
    (x : ℕ) (o : PendingOp) (f : View) → First x o f → (y : ℕ) → All (λ p. o.lsn ≤ p.lsn) (f y)
First-le x o f h y = elim (Bool-cases (x == y)) [
  | inl e ↦ subst (λ z. All (λ p. o.lsn ≤ p.lsn) (f z)) ((==_iff x y).0 e) h.1
  | inr e ↦
      All-map (λ p. o.lsn < p.lsn) (λ p. o.lsn ≤ p.lsn) (λ p k. omega arith) (f y)
        (h.0 y (ground arith))
]

without-First : (s x : ℕ) (o : PendingOp) (f : View) → First x o f → First x o (without s f)
without-First s x o f h = ((λ y n. without-All _ s y f (h.0 y n)), without-All _ s x f h.1)

gather-put_here :
    (ss : List ℕ) (x : ℕ) (o : PendingOp) (f : View)
    → First x o f
    → sort_by_lsn (gather (x ∷ ss) (put x o f)) ≡ o ∷ sort_by_lsn (gather (x ∷ ss) f)
gather-put_here ss x o f h =
    rw ((==_iff x x).1 refl, without-put_self x o f)
      (sort_least o (f x ++ gather ss (without x f)) (
        All-append _ (f x) _ h.1
          (gather-All _ ss (without x f) λ y. without-All _ x y f (First-le x o f h y))))

pub gather-put :
    (ss : List ℕ) (x : ℕ) (o : PendingOp) (f : View)
    → First x o f
    → mem x ss ≡ true
    → sort_by_lsn (gather ss (put x o f)) ≡ o ∷ sort_by_lsn (gather ss f)
gather-put [] x o f h m = cc
gather-put (s ∷ ss) x o f h m = elim (Bool-cases (s == x)) [
  | inl e ↦
      subst (λ z. sort_by_lsn (gather (z ∷ ss) (put x o f)) ≡ o ∷ sort_by_lsn (gather (z ∷ ss) f))
        (sym ((==_iff s x).0 e)) (gather-put_here ss x o f h)
  | inr e ↦
      rw (e, without-put_ne s x o f (ground arith))
        (sort_prefix o (f s) (gather ss (without s f)) _ (h.0 s (ground arith))
          (gather-put ss x o (without s f) (without-First s x o f h) (ground arith)))
]

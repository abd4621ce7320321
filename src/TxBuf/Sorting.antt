-- ===== src/TxBuf/Sorting.antt =====
-- src/txbuf.rs: the sort by LSN of a commit's operations.
use open_ltap.Base.{
  ◌+◌, ◌≤◌, ◌<◌, List, [], ◌∷◌, ◌++◌, ◌≡◌, refl, arith, inl, inr, nat_eq, length, All, Bool-cases,
  leb, lt→leb, le→leb,
}
use open_ltap.TxBuf.{PendingOp, insert_by_lsn, sort_by_lsn}

insert_by_lsn-All {ℓ} :
    (P : PendingOp → Type ℓ) (o : PendingOp) (os : List PendingOp)
    → P o
    → All P os
    → All P (insert_by_lsn o os)
unfolding insert_by_lsn
insert_by_lsn-All P o [] h a = (h, tt)
insert_by_lsn-All P o (p ∷ ps) h a = elim (Bool-cases (leb o.lsn p.lsn)) [
  | inl e ↦ rw e (h, a)
  | inr e ↦ rw e (a.0, insert_by_lsn-All P o ps h a.1)
]

sort_by_lsn-All {ℓ} :
    (P : PendingOp → Type ℓ) (os : List PendingOp) → All P os → All P (sort_by_lsn os)
unfolding sort_by_lsn
sort_by_lsn-All P [] a = tt
sort_by_lsn-All P (o ∷ os) a = insert_by_lsn-All P o _ a.0 (sort_by_lsn-All P os a.1)

insert_least :
    (o : PendingOp) (os : List PendingOp)
    → All (λ p. o.lsn ≤ p.lsn) os
    → insert_by_lsn o os ≡ o ∷ os
unfolding insert_by_lsn
insert_least o [] a = refl
insert_least o (p ∷ ps) a = rw (le→leb o.lsn p.lsn a.0)

-- The earliest operation comes first, also past later ones that stand before it.
pub sort_least :
    (o : PendingOp) (os : List PendingOp)
    → All (λ p. o.lsn ≤ p.lsn) os
    → sort_by_lsn (o ∷ os) ≡ o ∷ sort_by_lsn os
unfolding sort_by_lsn
sort_least o os a = insert_least o (sort_by_lsn os) (sort_by_lsn-All _ os a)

pub sort_prefix :
    (o : PendingOp) (xs g g' : List PendingOp)
    → All (λ p. o.lsn < p.lsn) xs
    → sort_by_lsn g' ≡ o ∷ sort_by_lsn g
    → sort_by_lsn (xs ++ g') ≡ o ∷ sort_by_lsn (xs ++ g)
unfolding sort_by_lsn
sort_prefix o [] g g' a e = e
sort_prefix o (x ∷ xs) g g' a e =
    rw (sort_prefix o xs g g' a.1 e) (unfold insert_by_lsn in rw (lt→leb x.lsn o.lsn a.0))

length-insert_by_lsn :
    (o : PendingOp) (os : List PendingOp) → length (insert_by_lsn o os) ≡ length os + 1
unfolding insert_by_lsn
length-insert_by_lsn o [] = omega arith
length-insert_by_lsn o (p ∷ ps) = ground (arith, length-insert_by_lsn o ps)

pub length-sort_by_lsn : (os : List PendingOp) → length (sort_by_lsn os) ≡ length os
unfolding sort_by_lsn
length-sort_by_lsn [] = refl
length-sort_by_lsn (o ∷ os) =
    omega (arith, length-insert_by_lsn o (sort_by_lsn os), length-sort_by_lsn os)

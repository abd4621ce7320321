-- ===== src/Clog/Visibility.antt =====
-- Which row versions are visible.
use open_ltap.Base.{
  ℕ, Bool, true, false, Option, none, some, ok, err, ◌≡◌, ◌≢◌, ◌↔◌, refl, ap, subst, ◌⊎◌, arith,
  needs_multixact,
}
use open_ltap.Multixact.{MultiXactSource, resolve_updater}
use open_ltap.Clog.{
  ClogSource, TxnStatus, committed, resolve, is_committed, lock_only, is_multi, tuple_visible,
  tuple_visible_with_multixact,
}

-- `status` is what the source says of every xid but the invalid one.
abbrev pub Says : ClogSource → (ℕ → TxnStatus) → Type 0
Says src status = (xid : ℕ) → xid ≢ 0 → resolve src xid ≡ ok (status xid)

is_committed_iff : (s : TxnStatus) → (is_committed s ≡ true) ↔ (s ≡ committed)
unfolding is_committed
is_committed_iff s = ground arith

-- With a readable CLOG a version is visible exactly when its inserter committed and it has no
-- deleter, only a locker, or a plain deleter that did not commit.
pub tuple_visible_iff :
    (src : ClogSource) (status : ℕ → TxnStatus) (xmin xmax infomask : ℕ)
    → Says src status
    → xmin ≢ 0
    → (tuple_visible src xmin xmax infomask ≡ ok true) ↔ (
        (status xmin ≡ committed)
        × ((xmax ≡ 0)
            ⊎ (lock_only infomask ≡ true)
            ⊎ ((is_multi infomask ≡ false) × (status xmax ≢ committed))))
unfolding tuple_visible
tuple_visible_iff src status xmin xmax infomask says nz = (
  (λ h. ground (
    arith,
    says xmin,
    says xmax,
    is_committed_iff (status xmin),
    is_committed_iff (status xmax),
  )),
  λ h.
      ground (
        arith,
        says xmin,
        says xmax,
        is_committed_iff (status xmin),
        is_committed_iff (status xmax),
      ),
)

-- Only a committed version whose deleter is a multixact with an updater is refused.
pub tuple_visible-needs_multixact :
    (src : ClogSource) (status : ℕ → TxnStatus) (xmin xmax infomask : ℕ)
    → Says src status
    → xmin ≢ 0
    → (tuple_visible src xmin xmax infomask ≡ err needs_multixact) ↔ (
        (status xmin ≡ committed)
        × (xmax ≢ 0)
        × (lock_only infomask ≡ false)
        × (is_multi infomask ≡ true))
unfolding tuple_visible
tuple_visible-needs_multixact src status xmin xmax infomask says nz = (
  (λ h. ground (
    arith,
    says xmin,
    says xmax,
    is_committed_iff (status xmin),
    is_committed_iff (status xmax),
  )),
  λ h.
      ground (
        arith,
        says xmin,
        says xmax,
        is_committed_iff (status xmin),
        is_committed_iff (status xmax),
      ),
)

-- What `tuple_visible` answers, `tuple_visible_with_multixact` answers too, given a deleter.
pub tuple_visible_with_multixact-extends :
    (clog : ClogSource) (mx : MultiXactSource) (xmin xmax infomask : ℕ) {v : Bool}
    → xmax ≢ 0
    → tuple_visible clog xmin xmax infomask ≡ ok v
    → tuple_visible_with_multixact clog mx xmin xmax infomask ≡ ok v
unfolding tuple_visible_with_multixact tuple_visible
tuple_visible_with_multixact-extends clog mx xmin xmax infomask nz h = ground arith

-- And the case that it refuses is decided by the updater: visible exactly when there is none or
-- the updater did not commit.
pub tuple_visible_with_multixact-updater :
    (clog : ClogSource) (mx : MultiXactSource) (status : ℕ → TxnStatus) (xmin xmax infomask : ℕ)
    {updater : Option ℕ}
    → Says clog status
    → xmin ≢ 0
    → xmax ≢ 0
    → tuple_visible clog xmin xmax infomask ≡ err needs_multixact
    → resolve_updater mx xmax ≡ ok updater
    → updater ≢ some 0
    → (tuple_visible_with_multixact clog mx xmin xmax infomask ≡ ok true)
      ↔ ((x : ℕ) → updater ≡ some x → status x ≢ committed)
unfolding tuple_visible_with_multixact tuple_visible
tuple_visible_with_multixact-updater clog mx status xmin xmax infomask {updater = none} says nz nx h
      u n =
    let facts = (tuple_visible-needs_multixact clog status xmin xmax infomask says nz).0 h in
    ((λ e x q. absurd (cc)), λ f. ground (arith, says xmin, is_committed_iff (status xmin), facts))
tuple_visible_with_multixact-updater clog mx status xmin xmax infomask {updater = some x} says nz nx
      h u n =
    let facts = (tuple_visible-needs_multixact clog status xmin xmax infomask says nz).0 h in
    let there = says x (λ z. n (ap some z)) in
    (
      (λ e y q.
          let same : x ≡ y = cc in
          subst (λ z. status z ≢ committed) same
            (λ c. ground (
              arith,
              says xmin,
              is_committed_iff (status xmin),
              is_committed_iff (status x),
              facts,
              there,
            ))),
      λ f. ground (
        arith,
        says xmin,
        is_committed_iff (status xmin),
        is_committed_iff (status x),
        facts,
        there,
        f x refl,
      ),
    )

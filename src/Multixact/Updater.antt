-- ===== src/Multixact/Updater.antt =====
-- `resolve_updater` finds the first updating member.
use open_ltap.Base.{
  ℕ, zero, suc, ◌+◌, ◌-◌, ◌%◌, ◌^◌, ◌≤◌, ◌<◌, Option, none, some, ok, err, ◌>>=◌, ◌≡◌, refl, subst,
  ◌==◌, ◌⊎◌, inl, inr, arith, ltb, leb, Bool-cases, if◌then◌else◌, unbounded_multixact,
}
use open_ltap.Multixact.{
  MultiXactSource, read_offset, read_member, scan, resolve_updater, status_for_update,
}

-- What the answer says about the members at the offsets from `start` up to `end`: `members off` is
-- an xid and a status, and a status above `status_for_update` is an updater's.
abbrev pub FirstUpdater : (ℕ → ℕ × ℕ) → ℕ → ℕ → Option ℕ → Type 0
FirstUpdater members start end none =
    (off : ℕ) → start ≤ off → off < end → (members off).1 ≤ status_for_update
FirstUpdater members start end (some xid) =
    (off : ℕ) × (start ≤ off)
    × (off < end)
    × ((members off).0 ≡ xid)
    × (status_for_update < (members off).1)
    × ((k : ℕ) → start ≤ k → k < off → (members k).1 ≤ status_for_update)

FirstUpdater-cons :
    (members : ℕ → ℕ × ℕ) (start end : ℕ) (r : Option ℕ)
    → (members start).1 ≤ status_for_update
    → FirstUpdater members (start + 1) end r
    → FirstUpdater members start end r
FirstUpdater-cons members start end none low f = λ off lo hi. elim (Bool-cases (start == off)) [
  | inl e ↦ subst (λ k. (members k).1 ≤ status_for_update) (ground arith) low
  | inr e ↦ f off (ground arith) hi
]
FirstUpdater-cons members start end (some xid) low (off, lo, hi, e, st, before) = (
  off,
  omega arith,
  hi,
  e,
  st,
  λ k from to. elim (Bool-cases (start == k)) [
    | inl q ↦ subst (λ j. (members j).1 ≤ status_for_update) (ground arith) low
    | inr q ↦ before k (ground arith) to
  ],
)

scan-FirstUpdater :
    (src : MultiXactSource) (members : ℕ → ℕ × ℕ) (n start end : ℕ)
    → start + n ≡ end
    → ((off : ℕ) → start ≤ off → off < end → read_member src off ≡ ok (members off))
    → (r : Option ℕ) × (scan src n start ≡ ok r) × FirstUpdater members start end r
unfolding scan
scan-FirstUpdater src members zero start end q h = (none, refl, λ off lo hi. absurd (omega arith))
scan-FirstUpdater src members (suc n) start end q h =
    elim (Bool-cases (ltb status_for_update (members start).1)) [
      | inl t ↦ (
        some (members start).0,
        rw (h start (omega arith) (omega arith), scan) (rw t),
        (start, omega arith, omega arith, refl, ground arith, λ k lo hi. absurd (omega arith)),
      )
      | inr t ↦
          let (r, e, f) =
            scan-FirstUpdater src members n (start + 1) end (omega arith)
              (λ off lo hi. h off (omega arith) hi) in
          (
            r,
            rw (h start (omega arith) (omega arith), scan) (rw t e),
            FirstUpdater-cons members start end r (ground arith) f,
          )
    ]

resolve_updater_lem :
    (src : MultiXactSource) (multi : ℕ)
    → resolve_updater src multi ≡ (do
      start ← read_offset src multi
      end ← read_offset src ((multi + 1) % 2 ^ 32)
      if leb end start then err unbounded_multixact else scan src (end - start) start)
unfolding resolve_updater
resolve_updater_lem src multi = refl

-- With readable offsets and members, a multixact whose successor starts later resolves, to its
-- first updating member or to none when every member is a locker; otherwise the error says that
-- the member list has no bound.
pub resolve_updater-FirstUpdater :
    (src : MultiXactSource) (members : ℕ → ℕ × ℕ) (multi start end : ℕ)
    → ((off : ℕ) → start ≤ off → off < end → read_member src off ≡ ok (members off))
    → read_offset src multi ≡ ok start
    → read_offset src ((multi + 1) % 2 ^ 32) ≡ ok end
    → ((start < end)
        × ((r : Option ℕ) × (resolve_updater src multi ≡ ok r) × FirstUpdater members start end r))
      ⊎ ((end ≤ start) × (resolve_updater src multi ≡ err unbounded_multixact))
resolve_updater-FirstUpdater src members multi start end h s e = elim (Bool-cases (leb end start)) [
  | inl t ↦ inr (ground arith, rw resolve_updater_lem (rw (s, e, t)))
  | inr t ↦
      let (r, q, f) = scan-FirstUpdater src members (end - start) start end (ground arith) h in
      inl (ground arith, (r, rw resolve_updater_lem (rw (s, e, t, q)), f))
]

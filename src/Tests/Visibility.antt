-- ===== src/Tests/Visibility.antt =====
-- The theorems on transaction status, multixacts and row versions at concrete pages.
use open_ltap.Base.{
  Option, ℕ, suc, ◌*◌, ◌%◌, ◌/◌, ◌^◌, ◌≤◌, ◌<◌, true, false, [], ◌∷◌, ◌++◌, Option, some, ◌≡◌, ◌≢◌,
  ◌↔◌, refl, ◌⊎◌, inl, inr, arith, ok, err, ◌>>=◌, ok_or, Bytes, get_elem?, replicate,
  if◌then◌else◌, ◌==◌, ◌||◌, Bool-cases, subst, zero, nat_eq, pair_eq, needs_multixact,
  unbounded_multixact, truncated,
}
use open_ltap.Clog.{
  page_sz, resolve, ClogSource, committed, tuple_visible, tuple_visible_with_multixact, lock_only,
  is_multi, status_in_page, status_of_bits, clog_xacts_per_page,
}
use open_ltap.Clog.Visibility.{
  Says, tuple_visible_iff, tuple_visible-needs_multixact, tuple_visible_with_multixact-updater,
  tuple_visible_with_multixact-extends,
}
use open_ltap.Clog.Layout.{entries, status_in_page-entries}
use open_ltap.Fragment.{max_chain, visible_version}
use open_ltap.Fragment.Chains.{EndsAt, visible_version_iff}
use open_ltap.Multixact.{MultiXactSource, resolve_updater, read_member, read_offset}
use open_ltap.Multixact.Updater.{FirstUpdater, resolve_updater-FirstUpdater}

-- A source of which every xid is committed: all its pages are of the byte 0b01010101.
abbrev pub all_committed : ClogSource
all_committed = record { clog_page = λ n. ok (replicate page_sz 85) }

replicate-at : (n i a : ℕ) → i < n → get_elem? (replicate n a) i ≡ some a
replicate-at zero i a h = absurd (omega arith)
replicate-at (suc n) zero a h = refl
replicate-at (suc n) (suc i) a h = replicate-at n i a (omega arith)

pattern_at : (r : ℕ) → r < 4 → 85 / 2 ^ (r * 2) % 4 ≡ 1
pattern_at zero h = refl
pattern_at (suc zero) h = refl
pattern_at (suc (suc zero)) h = refl
pattern_at (suc (suc (suc zero))) h = refl
pattern_at (suc (suc (suc (suc r)))) h = absurd (omega arith)

all_committed-Says : Says all_committed (λ xid. committed)
unfolding resolve status_in_page
all_committed-Says xid nz = elim (Bool-cases (xid == 1 || xid == 2)) [
  | inl e ↦ rw e refl
  | inr e ↦ elim (Bool-cases (xid == 0)) [
    | inl z ↦ absurd (ground arith)
    | inr z ↦
        rw (e, z)
          (rw (replicate-at page_sz (xid % clog_xacts_per_page / 4) 85 (omega arith))
            (rw (pattern_at (xid % clog_xacts_per_page % 4) (omega arith)) refl))
  ]
]

abbrev xmax : ℕ
xmax = 2

tuple_visible_iff_example : (tuple_visible all_committed 700 xmax 0 ≡ ok true) ↔ (
    (committed ≡ committed)
    × ((xmax ≡ 0) ⊎ (lock_only 0 ≡ true) ⊎ ((is_multi 0 ≡ false) × (committed ≢ committed))))
tuple_visible_iff_example =
    tuple_visible_iff all_committed (λ xid. committed) 700 xmax 0 all_committed-Says (omega arith)

tuple_visible-needs_multixact_example :
    (tuple_visible all_committed 700 xmax 4096 ≡ err needs_multixact)
    ↔ ((committed ≡ committed) × (xmax ≢ 0) × (lock_only 4096 ≡ false) × (is_multi 4096 ≡ true))
tuple_visible-needs_multixact_example =
    tuple_visible-needs_multixact all_committed (λ xid. committed) 700 xmax 4096 all_committed-Says
      (omega arith)

-- Multixact 2 has the members 10, a locker, and 11, an updater.
abbrev pair_members : MultiXactSource
pair_members = record {
  offsets_page = λ n. ok (replicate 8 0 ++ 10 ∷ 0 ∷ 0 ∷ 0 ∷ 12 ∷ 0 ∷ 0 ∷ 0 ∷ []);
  members_page =
      λ n. ok (replicate 42 0 ++ 1 ∷ 4 ∷ replicate 8 0 ++ 7 ∷ 0 ∷ 0 ∷ 0 ∷ 8 ∷ 0 ∷ 0 ∷ 0 ∷ []);
}

abbrev pair_at : ℕ → ℕ × ℕ
pair_at off = if off == 10 then (7, 1) else (8, 4)

pair_read : (off : ℕ) → 10 ≤ off → off < 12 → read_member pair_members off ≡ ok (pair_at off)
unfolding read_member
pair_read off lo hi = elim (Bool-cases (off == 10)) [
  | inl e ↦
      let q : 10 ≡ off = ground arith in
      subst (λ k. read_member pair_members k ≡ ok (pair_at k)) q refl
  | inr e ↦
      let q : 11 ≡ off = ground arith in
      subst (λ k. read_member pair_members k ≡ ok (pair_at k)) q refl
]

pair_start : read_offset pair_members 2 ≡ ok 10
unfolding read_offset
pair_start = refl

pair_end : read_offset pair_members 3 ≡ ok 12
unfolding read_offset
pair_end = refl

pair_updater : resolve_updater pair_members 2 ≡ ok (some 8)
unfolding resolve_updater read_member
pair_updater = refl

resolve_updater-FirstUpdater_example :
    ((10 < 12)
      × ((r : Option ℕ) × (resolve_updater pair_members 2 ≡ ok r) × FirstUpdater pair_at 10 12 r))
    ⊎ ((12 ≤ 10) × (resolve_updater pair_members 2 ≡ err unbounded_multixact))
resolve_updater-FirstUpdater_example =
    resolve_updater-FirstUpdater pair_members pair_at 2 10 12 pair_read pair_start pair_end

needs_pair : tuple_visible all_committed 700 2 4096 ≡ err needs_multixact
unfolding tuple_visible resolve status_in_page
needs_pair = refl

tuple_visible_with_multixact-updater_example :
    (tuple_visible_with_multixact all_committed pair_members 700 2 4096 ≡ ok true)
    ↔ ((x : ℕ) → some 8 ≡ some x → committed ≢ committed)
tuple_visible_with_multixact-updater_example =
    tuple_visible_with_multixact-updater all_committed pair_members (λ xid. committed) 700 2 4096
      all_committed-Says (omega arith) (omega arith) needs_pair pair_updater (λ e. cc)

locked_visible : tuple_visible all_committed 700 2 4224 ≡ ok true
unfolding tuple_visible resolve status_in_page
locked_visible = refl

tuple_visible_with_multixact-extends_example :
    tuple_visible_with_multixact all_committed pair_members 700 2 4224 ≡ ok true
tuple_visible_with_multixact-extends_example =
    tuple_visible_with_multixact-extends all_committed pair_members 700 2 4224 (omega arith)
      locked_visible

status_in_page-entries_example : status_in_page (27 ∷ 85 ∷ []) 32773 ≡ (do
  bits ← ok_or (get_elem? (entries (27 ∷ 85 ∷ [])) (32773 % clog_xacts_per_page)) truncated
  status_of_bits bits)
status_in_page-entries_example = status_in_page-entries (27 ∷ 85 ∷ []) 32773

-- A page with one tuple, which xid 700 inserted.
abbrev pub page : Bytes
page =
    replicate 24 0
    ++ 0x1C ∷ 0x80 ∷ 0x2E ∷ 0 ∷ 0xBC ∷ 2 ∷ 0 ∷ 0 ∷ replicate 12 0
    ++ 1 ∷ 0 ∷ 0 ∷ 0 ∷ 0 ∷ 0 ∷ 24 ∷ []

visible_version_iff_example :
    (visible_version page 0 1 all_committed ≡ ok (some 1))
    ↔ EndsAt page 0 all_committed max_chain 1 (some 1)
visible_version_iff_example = visible_version_iff page 0 all_committed 1 (some 1)

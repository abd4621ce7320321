-- ===== src/Fragment/Chains.antt =====
-- `visible_version` finds the visible version of a HOT chain, and only that.
use open_ltap.Base.{
  Bool, bind_ok, if◌then◌else◌, false, ◌≢◌, sym, ok_inj, has_bit, not, ◌==◌, ◌&&◌, Bool-cases,
  subst, ap, ◌∙◌, ℕ, zero, suc, ◌<◌, Option, none, some, true, Bytes, ok, ◌≡◌, ◌↔◌, refl, arith,
  inl, inr, Result-cases, ◌⊎◌,
}
use open_ltap.Clog.{ClogSource, tuple_visible}
use open_ltap.Fragment.{
  hot_link, ChainStep, dead, found, follow, chain_step, walk, visible_version, max_chain,
  LinePointer, TupleHdr, line_pointer, read_header,
}

module _ (page : Bytes) (block : ℕ) (clog : ClogSource) where
  -- The version at an offset number, by its line pointer and its header, and what `tuple_visible`
  -- says of it. LP_NORMAL is 1.
  abbrev pub IsVersion : ℕ → TupleHdr → Bool → Type 0
  IsVersion cur hdr visible =
      (lp : LinePointer) × (line_pointer page cur ≡ ok lp)
      × (lp.flags ≡ 1)
      × (read_header page lp.off ≡ ok hdr)
      × (tuple_visible clog hdr.xmin hdr.xmax hdr.infomask ≡ ok visible)

  -- A header that says that its version was updated on the page, to the version at `next`:
  -- HEAP_HOT_UPDATED, and a ctid in this block that is not 0 and not its own.
  abbrev pub IsUpdatedTo : ℕ → TupleHdr → ℕ → Type 0
  IsUpdatedTo cur hdr next =
      (has_bit hdr.infomask2 14 ≡ true)
      × (hdr.ctid_block ≡ block)
      × (hdr.ctid_off ≡ next)
      × (next ≢ 0)
      × (next ≢ cur)

  -- An invisible version, updated on the page.
  abbrev pub IsFollowed : ℕ → ℕ → Type 0
  IsFollowed cur next = (hdr : TupleHdr) × IsVersion cur hdr false × IsUpdatedTo cur hdr next

  -- A line pointer to no version, or an invisible version that was not updated on the page.
  abbrev pub IsEnd : ℕ → Type 0
  IsEnd cur =
      ((lp : LinePointer) × (line_pointer page cur ≡ ok lp) × (lp.flags ≢ 1))
      ⊎ ((hdr : TupleHdr) × IsVersion cur hdr false × ((next : ℕ) → ¬ IsUpdatedTo cur hdr next))

  -- `n` updates of invisible versions lead from one version to another.
  abbrev pub Leads : ℕ → ℕ → ℕ → Type 0
  Leads zero cur end = cur ≡ end
  Leads (suc n) cur end = (next : ℕ) × IsFollowed cur next × Leads n next end

  -- Where fewer than `fuel` updates end: at a visible version, or where there is none.
  abbrev pub EndsAt : ℕ → ℕ → Option ℕ → Type 0
  EndsAt fuel cur none = (n : ℕ) × (end : ℕ) × (n < fuel) × Leads n cur end × IsEnd end
  EndsAt fuel cur (some v) =
      (n : ℕ) × (n < fuel) × Leads n cur v × ((hdr : TupleHdr) × IsVersion v hdr true)

  EndsAt-follow :
      (fuel cur next : ℕ) (r : Option ℕ)
      → IsFollowed cur next
      → EndsAt fuel next r
      → EndsAt (suc fuel) cur r
  EndsAt-follow fuel cur next none e (n, end, h, l, d) = (suc n, end, omega arith, (next, e, l), d)
  EndsAt-follow fuel cur next (some v) e (n, h, l, d) = (suc n, omega arith, (next, e, l), d)

  link-IsUpdatedTo :
      (cur : ℕ) (hdr : TupleHdr)
      → ((hot_link block cur hdr ≡ follow hdr.ctid_off) × IsUpdatedTo cur hdr hdr.ctid_off)
        ⊎ ((hot_link block cur hdr ≡ dead) × ((next : ℕ) → ¬ IsUpdatedTo cur hdr next))
  link-IsUpdatedTo cur hdr =
      elim (Bool-cases (
        has_bit hdr.infomask2 14
        && hdr.ctid_block == block
        && not (hdr.ctid_off == 0)
        && not (hdr.ctid_off == cur))) [
          | inl e ↦ inl (
            rw e refl,
            (ground arith, ground arith, refl, (λ z. ground arith), (λ z. ground arith)),
          )
          | inr e ↦ inr (rw e refl, λ next (bit, blk, at, some_at, other). ground arith)
        ]

  -- The step from an invisible version is its link.
  step-link :
      (cur : ℕ) (lp : LinePointer) (hdr : TupleHdr)
      → line_pointer page cur ≡ ok lp
      → lp.flags == 1 ≡ true
      → read_header page lp.off ≡ ok hdr
      → tuple_visible clog hdr.xmin hdr.xmax hdr.infomask ≡ ok false
      → chain_step page block clog cur ≡ ok (hot_link block cur hdr)
  unfolding chain_step
  step-link cur lp hdr h n k v = rw (h, n, k, v) refl

  step-found :
      (cur : ℕ) (hdr : TupleHdr)
      → IsVersion cur hdr true
      → chain_step page block clog cur ≡ ok found
  unfolding chain_step
  step-found cur hdr (lp, h, n, k, v) =
      let normal : (lp.flags == 1) ≡ true = ground arith in rw (h, normal, k, v) refl

  step-follow :
      (cur next : ℕ) → IsFollowed cur next → chain_step page block clog cur ≡ ok (follow next)
  step-follow cur next (hdr, (lp, h, n, k, v), updated) =
      let normal : (lp.flags == 1) ≡ true = ground arith in
      elim (link-IsUpdatedTo cur hdr) [
        | inl (e, _) ↦ step-link cur lp hdr h normal k v ∙ ap ok (e ∙ ap follow updated.2)
        | inr (_, none_such) ↦ absurd (none_such next updated)
      ]

  step-dead : (cur : ℕ) → IsEnd cur → chain_step page block clog cur ≡ ok dead
  unfolding chain_step
  step-dead cur (inl (lp, h, other)) =
      let normal : (lp.flags == 1) ≡ false = ground arith in rw (h, normal) refl
  step-dead cur (inr (hdr, (lp, h, n, k, v), ended)) =
      let normal : (lp.flags == 1) ≡ true = ground arith in
      elim (link-IsUpdatedTo cur hdr) [
        | inl (_, updated) ↦ absurd (ended hdr.ctid_off updated)
        | inr (e, _) ↦ step-link cur lp hdr h normal k v ∙ ap ok e
      ]

  -- And every step comes from one of these.
  abbrev StepOf : ℕ → ChainStep → Type 0
  StepOf cur dead = IsEnd cur
  StepOf cur found = (hdr : TupleHdr) × IsVersion cur hdr true
  StepOf cur (follow next) = IsFollowed cur next

  hot_link-StepOf :
      (cur : ℕ) (hdr : TupleHdr) → IsVersion cur hdr false → StepOf cur (hot_link block cur hdr)
  hot_link-StepOf cur hdr version = elim (link-IsUpdatedTo cur hdr) [
    | inl (e, updated) ↦ subst (StepOf cur) (sym e) (hdr, version, updated)
    | inr (e, ended) ↦ subst (StepOf cur) (sym e) (inr (hdr, version, ended))
  ]

  if-StepOf :
      (visible : Bool) (cur : ℕ) (hdr : TupleHdr)
      → IsVersion cur hdr visible
      → StepOf cur (if visible then found else hot_link block cur hdr)
  if-StepOf true cur hdr version = (hdr, version)
  if-StepOf false cur hdr version = hot_link-StepOf cur hdr version

  chain_step-StepOf :
      (cur : ℕ) (s : ChainStep) → chain_step page block clog cur ≡ ok s → StepOf cur s
  unfolding chain_step
  chain_step-StepOf cur s h =
      let (lp, e, h1) = bind_ok (line_pointer page cur) h in
      elim (Bool-cases (lp.flags == 1)) [
        | inl g ↦
            let (hdr, k, h2) = bind_ok (read_header page lp.off) (rw g at h1) in
            let (visible, t, h3) = bind_ok (tuple_visible clog hdr.xmin hdr.xmax hdr.infomask) h2 in
            subst (StepOf cur) (ok_inj h3) (if-StepOf visible cur hdr (lp, e, ground arith, k, t))
        | inr g ↦ subst (StepOf cur) (ok_inj (rw g at h1)) (inl (lp, e, λ z. ground arith))
      ]

  step_cases : (s : ChainStep) → (s ≡ dead) ⊎ (s ≡ found) ⊎ ((next : ℕ) × (s ≡ follow next))
  step_cases dead = inl refl
  step_cases found = inr (inl refl)
  step_cases (follow next) = inr (inr (next, refl))

  walk-EndsAt :
      (fuel cur : ℕ) (r : Option ℕ) → walk page block clog fuel cur ≡ ok r → EndsAt fuel cur r
  unfolding walk
  walk-EndsAt zero cur r h = cc
  walk-EndsAt (suc fuel) cur r h = elim (Result-cases (chain_step page block clog cur)) [
    | inl (s, e) ↦ elim (step_cases s) [
      | inl d ↦
          let q : none ≡ r = ground arith in
          subst (EndsAt (suc fuel) cur) q
            (zero, cur, omega arith, refl, chain_step-StepOf cur dead (e ∙ ap ok d))
      | inr (inl d) ↦
          let q : some cur ≡ r = ground arith in
          subst (EndsAt (suc fuel) cur) q
            (zero, omega arith, refl, chain_step-StepOf cur found (e ∙ ap ok d))
      | inr (inr (next, d)) ↦
          EndsAt-follow fuel cur next r (chain_step-StepOf cur (follow next) (e ∙ ap ok d))
            (walk-EndsAt fuel next r (ground arith))
    ]
    | inr (inl (why, e)) ↦ absurd (ground arith)
    | inr (inr e) ↦ absurd (ground arith)
  ]

  walk-follow :
      (fuel cur next : ℕ)
      → chain_step page block clog cur ≡ ok (follow next)
      → walk page block clog (suc fuel) cur ≡ walk page block clog fuel next
  unfolding walk
  walk-follow fuel cur next e = rw e refl

  walk-dead :
      (fuel cur : ℕ)
      → chain_step page block clog cur ≡ ok dead
      → walk page block clog (suc fuel) cur ≡ ok none
  unfolding walk
  walk-dead fuel cur e = rw e refl

  walk-found :
      (fuel cur : ℕ)
      → chain_step page block clog cur ≡ ok found
      → walk page block clog (suc fuel) cur ≡ ok (some cur)
  unfolding walk
  walk-found fuel cur e = rw e refl

  -- And the walk answers as soon as an answer is in reach.
  walk-Leads :
      (n fuel cur end : ℕ) (r : Option ℕ)
      → n < fuel
      → Leads n cur end
      → ((k : ℕ) → walk page block clog (suc k) end ≡ ok r)
      → walk page block clog fuel cur ≡ ok r
  walk-Leads n zero cur end r h l stop = absurd (omega arith)
  walk-Leads zero (suc fuel) cur end r h l stop =
      subst (λ v. walk page block clog (suc fuel) v ≡ ok r) (sym l) (stop fuel)
  walk-Leads (suc n) (suc fuel) cur end r h (next, e, l) stop =
      walk-follow fuel cur next (step-follow cur next e)
      ∙ walk-Leads n fuel next end r (omega arith) l stop

  EndsAt-walk :
      (fuel cur : ℕ) (r : Option ℕ) → EndsAt fuel cur r → walk page block clog fuel cur ≡ ok r
  EndsAt-walk fuel cur none (n, end, h, l, d) =
      walk-Leads n fuel cur end none h l (λ k. walk-dead k end (step-dead end d))
  EndsAt-walk fuel cur (some v) (n, h, l, (hdr, d)) =
      walk-Leads n fuel cur v (some v) h l (λ k. walk-found k v (step-found v hdr d))

  -- `visible_version` returns a version exactly when fewer than `max_chain` updates on the page, of
  -- invisible versions, lead to it from the start, and it is visible. It returns none exactly when
  -- such updates lead to a line pointer of no version, or to an invisible version that was not
  -- updated on the page.
  pub visible_version_iff :
      (start : ℕ) (r : Option ℕ)
      → (visible_version page block start clog ≡ ok r) ↔ EndsAt max_chain start r
  unfolding visible_version
  visible_version_iff start r = (walk-EndsAt max_chain start r, EndsAt-walk max_chain start r)

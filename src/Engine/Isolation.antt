-- ===== src/Engine/Isolation.antt =====
-- src/engine.rs: what a record other than a commit may change.
use open_ltap.Base.{
  ℕ, Bool, true, false, ◌&&◌, List, [], none, some, Bytes, Result, ok, err, panic, ◌≡◌, refl, sym,
  ap, subst, ◌∙◌, inl, inr, bind_ok, ok_inj, match_result, Bool-cases, Option-cases, Result-cases,
  ==_iff, arith, ◌==◌, if◌then◌else◌, nat_eq,
}
use open_ltap.Wal.Heap.{
  HeapFmt, vanilla, normalize_dml, opcode, rmgr_xact, rmgr_smgr, rmgr_heap, rmgr_heap2, rmgr_neon,
  xact_commit, xact_abort,
}
use open_ltap.Wal.Toast.{Codecs}
use open_ltap.Wal.Record.{Record, parse_record}
use open_ltap.Engine.{Engine, EmitRow, handle_abort}
use open_ltap.Engine.Records.{Oracle, quietly, subxids_of, handle_xact, dispatch, handle_record}
use open_ltap.Engine.Keeps.{SameContents, Keeps}
use open_ltap.Engine.Handlers.{handle_heap-Keeps, handle_heap2-Keeps, handle_smgr-Keeps}

-- Neon's records are heap records; every other resource manager keeps its number.
normalize_dml-xact :
    (rmid info op : ℕ) (fmt : HeapFmt)
    → normalize_dml rmid info ≡ some (rmgr_xact, op, fmt)
    → rmid ≡ rmgr_xact
unfolding normalize_dml
normalize_dml-xact rmid info op fmt h = elim (Bool-cases (rmid == rmgr_neon)) [
  | inr other ↦
      let h1 : some (rmid, opcode info, vanilla) ≡ some (rmgr_xact, op, fmt) = rw other at (h) in
      ap (λ o. elim o [ none ↦ rmid | some x ↦ x.0 ]) h1
  | inl neon_rmgr ↦ ground arith
]

and_false : (a b : Bool) → (a && b) ≡ false → a ≡ true → b ≡ false
and_false true b h t = h
and_false false b h t = absurd cc

abbrev pub is_commit : Result Record → Bool
is_commit (ok r) = r.rmid == rmgr_xact && opcode r.info == xact_commit
is_commit (err why) = false
is_commit panic = false

module _ (codecs : Codecs) (oracle : Oracle) (lsn now : ℕ) (e : Engine) where
  abbrev pub Quiet : Result (Engine × List (ℕ × List EmitRow)) → Type 0
  Quiet m =
      (e' : Engine) (rows : List (ℕ × List EmitRow))
      → m ≡ ok (e', rows)
      → SameContents e e' × (rows ≡ [])

  pub Quiet-ok : (e1 : Engine) → SameContents e e1 → Quiet (ok (e1, []))
  Quiet-ok e1 s e' rows h =
      (subst (SameContents e) (ap (λ x. x.0) (ok_inj h)) s, sym (ap (λ x. x.1) (ok_inj h)))

  pub Quiet-if :
      (b : Bool) (m n : Result (Engine × List (ℕ × List EmitRow)))
      → Quiet m
      → Quiet n
      → Quiet (if b then m else n)
  Quiet-if true m n qm qn = qm
  Quiet-if false m n qm qn = qn

  pub Quiet-quietly : (m : Result Engine) → Keeps e m → Quiet (quietly codecs oracle lsn m)
  Quiet-quietly (ok e1) k e' rows h = Quiet-ok e1 (k e1 refl) e' rows h
  Quiet-quietly (err why) k e' rows h = absurd cc
  Quiet-quietly panic k e' rows h = absurd cc

  pub handle_xact-Quiet :
      (r : Record)
      → (opcode r.info == xact_commit) ≡ false
      → Quiet (handle_xact codecs oracle lsn now r e)
  unfolding handle_xact handle_abort
  handle_xact-Quiet r c e' rows h =
      let h1 = rw c at (h) in
      elim (Bool-cases (opcode r.info == xact_abort)) [
        | inl a ↦
            let (xids, _, h2) = bind_ok (subxids_of codecs oracle lsn r) (rw a at (h1)) in
            Quiet-ok (handle_abort r.xid xids e) (refl, refl) e' rows h2
        | inr a ↦ Quiet-ok e (refl, refl) e' rows (rw a at (h1))
      ]

  pub xact-Quiet :
      (r : Record) (rmid : ℕ)
      → (rmid ≡ rmgr_xact → (opcode r.info == xact_commit) ≡ false)
      → Quiet (if rmid == rmgr_xact then handle_xact codecs oracle lsn now r e else ok (e, []))
  xact-Quiet r rmid c e' rows h = elim (Bool-cases (rmid == rmgr_xact)) [
    | inl x ↦ handle_xact-Quiet r (c ((==_iff rmid rmgr_xact).0 x)) e' rows (rw x at (h))
    | inr x ↦ Quiet-ok e (refl, refl) e' rows (rw x at (h))
  ]

  pub dispatch-Quiet :
      (r : Record) (rmid op : ℕ) (fmt : HeapFmt)
      → (rmid ≡ rmgr_xact → (opcode r.info == xact_commit) ≡ false)
      → Quiet (dispatch codecs oracle lsn now r (rmid, op, fmt) e)
  unfolding dispatch
  dispatch-Quiet r rmid op fmt c =
      Quiet-if (rmid == rmgr_smgr) _ _ (Quiet-quietly _ (handle_smgr-Keeps codecs oracle lsn e r)) (
        Quiet-if (rmid == rmgr_heap) _ _
          (Quiet-quietly _ (handle_heap-Keeps codecs oracle lsn e r op fmt))
          (Quiet-if (rmid == rmgr_heap2) _ _
            (Quiet-quietly _ (handle_heap2-Keeps codecs oracle lsn e r op fmt))
            (xact-Quiet r rmid c)))

  -- A record that is not a commit publishes nothing, and leaves every table's descriptor, mirror,
  -- watermark and pending rows, and the position of the last commit, as they were.
  pub handle_record-SameContents :
      (rec : Bytes) (e' : Engine) (rows : List (ℕ × List EmitRow))
      → is_commit (parse_record codecs rec) ≡ false
      → handle_record codecs oracle lsn now rec e ≡ ok (e', rows)
      → SameContents e e' × (rows ≡ [])
  unfolding handle_record
  handle_record-SameContents rec e' rows c h = elim (Result-cases (parse_record codecs rec)) [
    | inl (r, parsed) ↦
        let plain = rw parsed at (c) in
        let h1 = rw parsed at (h) in
        elim (Option-cases (normalize_dml r.rmid r.info)) [
          | inl skipped ↦ Quiet-ok e (refl, refl) e' rows (rw (match_result, skipped) at (h1))
          | inr ((rmid, op, fmt), dml) ↦
              dispatch-Quiet r rmid op fmt
                (λ is. and_false (r.rmid == rmgr_xact) (opcode r.info == xact_commit) plain (
                  (==_iff r.rmid rmgr_xact).1 (
                    normalize_dml-xact r.rmid r.info op fmt
                      (dml ∙ ap (λ x. some (x, op, fmt)) is))))
                e' rows (rw (match_result, dml) at (h1))
        ]
    | inr (inl (why, failed)) ↦ Quiet-ok e (refl, refl) e' rows (rw failed at (h))
    | inr (inr crashed) ↦ let h1 = rw crashed at (h) in absurd cc
  ]

-- ===== src/Engine/Keeps.antt =====
-- src/engine.rs: steps that leave every table's contents as they were.
use open_ltap.Base.{
  or_panic_ok, ℕ, zero, suc, Bool, true, false, List, [], ◌∷◌, map, some, Bytes, Result, ok, err,
  panic, Error, ◌>>=◌, ◌≡◌, refl, sym, ap, subst, ◌∙◌, ◌⊎◌, inl, inr, bind_ok, ok_inj, match_result,
  Bool-cases, ◌==◌, get_elem?, or_panic, if◌then◌else◌, nat_eq,
}
use open_ltap.Schema.{TableDesc}
use open_ltap.Wal.Values.{Row}
use open_ltap.TxBuf.{inserts}
use open_ltap.Engine.{Engine, Table, Mirror, PendingBatch, set_at, note_decode_error, is_drift}
use open_ltap.Engine.Records.{version_of, buffer_op, suspect, multi_ops}

-- What a table's readers and its next flush depend on.
abbrev pub contents : Table → TableDesc × Mirror × ℕ × PendingBatch
contents t = (t.desc, t.mirror, t.dedupe_below, t.pending)

abbrev pub SameContents : Engine → Engine → Type 0
SameContents e e' =
    (map contents e'.tables ≡ map contents e.tables) × (e'.last_commit_lsn ≡ e.last_commit_lsn)

-- A step that keeps the contents whenever it returns.
abbrev pub Keeps : Engine → Result Engine → Type 0
Keeps e m = (e' : Engine) → m ≡ ok e' → SameContents e e'

pub Keeps-ok : (e e1 : Engine) → SameContents e e1 → Keeps e (ok e1)
Keeps-ok e e1 s e' h = subst (SameContents e) (ok_inj h) s

pub Keeps-bind {ℓ} :
    {A : Type ℓ} (e : Engine) (m : Result A) (rest : A → Result Engine)
    → ((a : A) → Keeps e (rest a))
    → Keeps e (m >>= rest)
Keeps-bind e m rest k e' h = let (a, _, h1) = bind_ok m h in k a e' h1

pub Keeps-match {ℓ} :
    {A : Type ℓ} (e : Engine) (m : Result A) (f : A → Result Engine) (g : Error → Result Engine)
    → ((a : A) → Keeps e (f a))
    → ((why : Error) → Keeps e (g why))
    → Keeps e (match_result m f g)
Keeps-match e (ok a) f g kf kg e' h = kf a e' h
Keeps-match e (err why) f g kf kg e' h = kg why e' h
Keeps-match e panic f g kf kg e' h = absurd cc

pub Keeps-if :
    (e : Engine) (b : Bool) (m n : Result Engine)
    → Keeps e m
    → Keeps e n
    → Keeps e (if b then m else n)
Keeps-if e true m n km kn = km
Keeps-if e false m n km kn = kn

pub match_ok {ℓ} :
    {A : Type ℓ} (m : Result A) (f : A → Result Engine) (g : Error → Result Engine) (e' : Engine)
    → match_result m f g ≡ ok e'
    → ((a : A) × (m ≡ ok a) × (f a ≡ ok e')) ⊎ ((why : Error) × (m ≡ err why) × (g why ≡ ok e'))
match_ok (ok a) f g e' h = inl (a, refl, h)
match_ok (err why) f g e' h = inr (why, refl, h)
match_ok panic f g e' h = absurd cc

pub SameContents-if :
    (e : Engine) (b : Bool) (e1 : Engine) → SameContents e e1 → SameContents e (if b then e1 else e)
SameContents-if e true e1 s = s
SameContents-if e false e1 s = (refl, refl)

map-set_at :
    (i : ℕ) (t u : Table) (ts : List Table)
    → get_elem? ts i ≡ some t
    → contents u ≡ contents t
    → map contents (set_at i u ts) ≡ map contents ts
unfolding set_at
map-set_at i t u [] found same = refl
map-set_at zero t u (v ∷ ts) found same =
    let is : contents v ≡ contents t = cc in ap (λ c. c ∷ map contents ts) (same ∙ sym is)
map-set_at (suc i) t u (v ∷ ts) found same = ap (◌∷◌ (contents v)) (map-set_at i t u ts found same)

pub note_decode_error-Keeps :
    (ti lsn : ℕ) (why : Error) (e : Engine) → Keeps e (note_decode_error ti lsn why e)
unfolding note_decode_error
note_decode_error-Keeps ti lsn why e e' h = elim (Bool-cases (is_drift why)) [
  | inl d ↦
      let (t, found, h1) = bind_ok (or_panic (get_elem? e.tables ti)) (rw d at (h)) in
      let there : get_elem? e.tables ti ≡ some t = or_panic_ok (get_elem? e.tables ti) t found in
      let kept = map-set_at ti t (record t { needs_resnapshot = true }) e.tables there refl in
      subst (SameContents e) (ok_inj h1) (kept, refl)
  | inr d ↦ subst (SameContents e) (ok_inj (rw d at (h))) (refl, refl)
]

pub suspect-SameContents : (xid : ℕ) (e : Engine) → SameContents e (suspect xid e)
unfolding suspect
suspect-SameContents xid e = elim (Bool-cases (xid == 0)) [
  | inl z ↦ rw z (refl, refl)
  | inr z ↦ rw z (refl, refl)
]

pub multi_ops-SameContents :
    (xid lsn ti blkno : ℕ) (rows : List (Row × Bytes)) (offs : List ℕ) (e : Engine)
    → SameContents e (multi_ops xid lsn ti blkno rows offs e)
unfolding multi_ops
multi_ops-SameContents xid lsn ti blkno [] offs e = (refl, refl)
multi_ops-SameContents xid lsn ti blkno (r ∷ rows) [] e = (refl, refl)
multi_ops-SameContents xid lsn ti blkno (r ∷ rows) (off ∷ offs) e =
    multi_ops-SameContents xid lsn ti blkno rows offs
      (buffer_op xid lsn ti (inserts (blkno, off) (version_of r)) e)

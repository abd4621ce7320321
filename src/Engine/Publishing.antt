-- ===== src/Engine/Publishing.antt =====
-- What a commit publishes of each table: the rows from where the table's first operation found it.
use open_ltap.Base.{
  drop, ltb, lt→ltb, ℕ, ◌<◌, Bool, true, false, List, [], ◌∷◌, Option, none, some, ok, ◌≡◌, refl,
  ap, sym, ◌∙◌, subst, arith, leb, ◌==◌, if◌then◌else◌, Bool-cases, Option-cases, inl, inr, length,
  get_elem?, Map, lookup, lookup-insert, nat_eq, bind_ok, or_panic, ok_inj, or_panic_ok,
}
use open_ltap.TxBuf.{PendingOp}
use open_ltap.Engine.{EmitRow, Table, published, set_at, apply_committed, note_start, commit_ops}
use open_ltap.Engine.CommitLoop.{of_table, get_elem?-set_at, same_table}

abbrev pub or_start : Option ℕ → Option ℕ → Option ℕ
or_start none new = new
or_start (some k) new = some k

-- Where the rows of a table start that takes the operations, if it takes any.
abbrev pub start_of : ℕ → List PendingOp → Table → Option ℕ
start_of lsn [] t = none
start_of lsn (o ∷ os) t = if leb lsn t.dedupe_below then none else some (length t.pending.rows)

or_start-nothing : (a : Option ℕ) → or_start a none ≡ a
or_start-nothing none = refl
or_start-nothing (some j) = refl

or_start-some :
    (a : Option ℕ) (k : ℕ) (b : Option ℕ) → or_start (or_start a (some k)) b ≡ or_start a (some k)
or_start-some none k b = refl
or_start-some (some j) k b = refl

or_start-none : (a b : Option ℕ) → or_start (or_start a none) b ≡ or_start a b
or_start-none none b = refl
or_start-none (some j) b = refl

note_start-absent :
    (k v j : ℕ) (em : Map ℕ ℕ)
    → lookup k em ≡ none
    → (if k == j then some v else lookup j em)
      ≡ or_start (lookup j em) (if k == j then some v else none)
note_start-absent k v j em h = elim (Bool-cases (k == j)) [
  | inl e ↦
      let same : k ≡ j = ground arith in
      let absent : lookup j em ≡ none = subst (λ n. lookup n em ≡ none) same h in
      rw (e, absent) refl
  | inr e ↦ rw e (sym (or_start-nothing (lookup j em)))
]

note_start-present :
    (k v w j : ℕ) (em : Map ℕ ℕ)
    → lookup k em ≡ some w
    → lookup j em ≡ or_start (lookup j em) (if k == j then some v else none)
note_start-present k v w j em h = elim (Bool-cases (k == j)) [
  | inl e ↦
      let same : k ≡ j = ground arith in
      let present : lookup j em ≡ some w = subst (λ n. lookup n em ≡ some w) same h in
      rw present refl
  | inr e ↦ rw e (sym (or_start-nothing (lookup j em)))
]

lookup-note_start :
    (k v j : ℕ) (em : Map ℕ ℕ)
    → lookup j (note_start k v em) ≡ or_start (lookup j em) (if k == j then some v else none)
unfolding note_start
lookup-note_start k v j em = elim (Option-cases (lookup k em)) [
  | inl e ↦ rw (e, note_start) (lookup-insert k j v em ∙ note_start-absent k v j em e)
  | inr (w, e) ↦ rw (e, note_start) (note_start-present k v w j em e)
]

pub start_of-deduped :
    (lsn : ℕ) (os : List PendingOp) (t : Table)
    → leb lsn t.dedupe_below ≡ true
    → start_of lsn os t ≡ none
start_of-deduped lsn [] t h = refl
start_of-deduped lsn (o ∷ os) t h = rw h refl

-- An operation that a table has already does not start its rows.
start_of-skip :
    (lsn i : ℕ) (o : PendingOp) (os : List PendingOp) (t : Table)
    → (o.table == i ≡ true → leb lsn t.dedupe_below ≡ true)
    → start_of lsn (of_table i os) t ≡ start_of lsn (of_table i (o ∷ os)) t
start_of-skip lsn i o os t h = elim (Bool-cases (o.table == i)) [
  | inl e ↦ rw e (
      start_of-deduped lsn (of_table i os) t (h e)
      ∙ sym (start_of-deduped lsn (o ∷ of_table i os) t (h e)))
  | inr e ↦ rw e refl
]

-- One that a table takes starts them, if no earlier one did.
start_of-take :
    (lsn i : ℕ) (o : PendingOp) (os : List PendingOp) (t u v : Table) (em : Map ℕ ℕ)
    → (o.table == i ≡ true → t ≡ u)
    → leb lsn u.dedupe_below ≡ false
    → or_start
        (lookup i (note_start o.table (length u.pending.rows) em))
        (start_of lsn (of_table i os) (if o.table == i then v else t))
      ≡ or_start (lookup i em) (start_of lsn (of_table i (o ∷ os)) t)
start_of-take lsn i o os t u v em same d =
    let n = length u.pending.rows in
    let starts = lookup-note_start o.table n i em in
    elim (Bool-cases (o.table == i)) [
      | inl e ↦
          let first : start_of lsn (o ∷ of_table i os) t ≡ some n = rw (same e, d) refl in
          rw (starts, e)
            (or_start-some (lookup i em) n (start_of lsn (of_table i os) v)
              ∙ ap (or_start (lookup i em)) (sym first))
      | inr e ↦ rw (starts, e) (or_start-none (lookup i em) (start_of lsn (of_table i os) t))
    ]

commit_ops-starts :
    (now lsn : ℕ) (os : List PendingOp) (ts : List Table) (em : Map ℕ ℕ) (ts' : List Table)
    (em' : Map ℕ ℕ) (i : ℕ) (t : Table)
    → commit_ops now lsn os ts em ≡ ok (ts', em')
    → get_elem? ts i ≡ some t
    → lookup i em' ≡ or_start (lookup i em) (start_of lsn (of_table i os) t)
unfolding commit_ops
commit_ops-starts now lsn [] ts em ts' em' i t h at =
    let e : em ≡ em' = ap (λ p. p.1) (ok_inj h) in
    ap (lookup i) (sym e) ∙ sym (or_start-nothing (lookup i em))
commit_ops-starts now lsn (o ∷ os) ts em ts' em' i t h at =
    let (u, got, h1) = bind_ok (or_panic (get_elem? ts o.table)) h in
    let found = or_panic_ok (get_elem? ts o.table) u got in
    let same : o.table == i ≡ true → t ≡ u = λ e. same_table ts i o.table at found (ground arith) in
    elim (Bool-cases (leb lsn u.dedupe_below)) [
      | inl d ↦
          commit_ops-starts now lsn os ts em ts' em' i t (rw d at h1) at
          ∙ ap (or_start (lookup i em)) (
              start_of-skip lsn i o os t
                (λ e. subst (λ v. leb lsn v.dedupe_below ≡ true) (sym (same e)) d))
      | inr d ↦
          let v = apply_committed now lsn o.op u in
          commit_ops-starts now lsn os (set_at o.table v ts)
            (note_start o.table (length u.pending.rows) em) ts' em' i _ (rw d at h1)
            (get_elem?-set_at o.table i v t ts at)
          ∙ start_of-take lsn i o os t u v em same d
    ]

-- From no entries on.
pub commit_ops-starts_fresh :
    (now lsn : ℕ) (os : List PendingOp) (ts ts' : List Table) (em : Map ℕ ℕ) (i : ℕ) (t : Table)
    → commit_ops now lsn os ts [] ≡ ok (ts', em)
    → get_elem? ts i ≡ some t
    → lookup i em ≡ start_of lsn (of_table i os) t
unfolding lookup
commit_ops-starts_fresh now lsn os ts ts' em i t h at =
    commit_ops-starts now lsn os ts [] ts' em i t h at

-- An entry in front is found under its own key only.
lookup-skip :
    (b : Bool) (ti i : ℕ) (l : List EmitRow) (rest : List (ℕ × List EmitRow))
    → ti == i ≡ false
    → lookup i (if b then (ti, l) ∷ rest else rest) ≡ lookup i rest
unfolding lookup
lookup-skip true ti i l rest e = rw e refl
lookup-skip false ti i l rest e = refl

published-cons :
    (ts : List Table) (ti start : ℕ) (em : Map ℕ ℕ) (rows : List (ℕ × List EmitRow))
    → published ts ((ti, start) ∷ em) ≡ ok rows
    → (t : Table) × (rest : List (ℕ × List EmitRow)) × (get_elem? ts ti ≡ some t)
      × (published ts em ≡ ok rest)
      × ((if ltb start (length t.pending.rows)
            then (ti, drop start t.pending.rows) ∷ rest
            else rest)
          ≡ rows)
unfolding published
published-cons ts ti start em rows h =
    let (t, got, h1) = bind_ok (or_panic (get_elem? ts ti)) h in
    let (rest, run, h2) = bind_ok (published ts em) h1 in
    let found = or_panic_ok (get_elem? ts ti) t got in
    elim (Bool-cases (ltb start (length t.pending.rows))) [
      | inl b ↦ (t, rest, found, run, rw b (ok_inj (rw b at h2)))
      | inr b ↦ (t, rest, found, run, rw b (ok_inj (rw b at h2)))
    ]

published-nothing :
    (ts : List Table) (rows : List (ℕ × List EmitRow)) (i : ℕ)
    → published ts [] ≡ ok rows
    → lookup i rows ≡ none
unfolding published lookup
published-nothing ts rows i h = ap (lookup i) (sym (ok_inj h))

pub published-none :
    (ts : List Table) (em : Map ℕ ℕ) (rows : List (ℕ × List EmitRow)) (i : ℕ)
    → published ts em ≡ ok rows
    → lookup i em ≡ none
    → lookup i rows ≡ none
unfolding lookup
published-none ts [] rows i h absent = published-nothing ts rows i h
published-none ts ((ti, start) ∷ em) rows i h absent =
    let (t, rest, found, run, e) = published-cons ts ti start em rows h in
    elim (Bool-cases (ti == i)) [
      | inl k ↦ let z : some start ≡ none = rw k at absent in cc
      | inr k ↦
          ap (lookup i) (sym e)
          ∙ lookup-skip (ltb start (length t.pending.rows)) ti i (drop start t.pending.rows) rest k
          ∙ published-none ts em rest i run (rw k at absent)
    ]

pub published-some :
    (ts : List Table) (em : Map ℕ ℕ) (rows : List (ℕ × List EmitRow)) (i start : ℕ) (t : Table)
    → published ts em ≡ ok rows
    → get_elem? ts i ≡ some t
    → lookup i em ≡ some start
    → start < length t.pending.rows
    → lookup i rows ≡ some (drop start t.pending.rows)
unfolding lookup
published-some ts [] rows i start t h at there more = absurd cc
published-some ts ((ti, s) ∷ em) rows i start t h at there more =
    let (u, rest, found, run, e) = published-cons ts ti s em rows h in
    elim (Bool-cases (ti == i)) [
      | inl k ↦
          let start_is : s ≡ start = let z : some s ≡ some start = rw k at there in cc in
          let table_is : u ≡ t = same_table ts ti i found at k in
          let enough : ltb s (length u.pending.rows) ≡ true =
            rw (start_is, table_is) (lt→ltb start (length t.pending.rows) more) in
          let front : (ti, drop s u.pending.rows) ∷ rest ≡ rows = rw enough at e in
          ap (lookup i) (sym front) ∙ rw (k, start_is, table_is) refl
      | inr k ↦
          ap (lookup i) (sym e)
          ∙ lookup-skip (ltb s (length u.pending.rows)) ti i (drop s u.pending.rows) rest k
          ∙ published-some ts em rest i start t run at (rw k at there) more
    ]

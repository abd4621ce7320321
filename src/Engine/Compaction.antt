-- ===== src/Engine/Compaction.antt =====
-- src/engine.rs: what compaction does to the tables, and what it asks of their sinks.
use open_ltap.Base.{
  ℕ, suc, ◌+◌, ◌≤◌, ◌<◌, Bool, true, false, ◌||◌, List, [], ◌∷◌, some, ◌≡◌, refl, ◌⊎◌, inl, inr,
  Bool-cases, ltb, ltb→lt, ltb→le, ◌==◌, get_elem?, All, All-map, All-append, arith,
}
use open_ltap.Engine.{Table, Engine}
use open_ltap.Engine.Tables.{
  Compaction, collapsed, unneeded, failed, SinkCall, compacts, vacuums, sink_calls, is_empty,
  compact_tables, maybe_compact,
}

-- A table that compaction takes: it has a key, and its log is at or past the threshold.
abbrev pub IsDue : ℕ → Table → Type 0
IsDue compact_rows t = (is_empty t.desc.pk ≡ false) × (compact_rows ≤ t.rows_since_compaction)

-- A call for the table of the list, counted from `i`, that compaction takes; a vacuum when vacuuming is on and that
-- table's compaction collapsed its log.
abbrev pub IsDueCall : ℕ → Bool → (Table → Compaction) → ℕ → List Table → SinkCall → Type 0
IsDueCall compact_rows vacuum_after compact i ts (compacts j) =
    (t : Table) × (k : ℕ) × (j ≡ i + k) × (get_elem? ts k ≡ some t) × IsDue compact_rows t
IsDueCall compact_rows vacuum_after compact i ts (vacuums j) =
    (t : Table) × (k : ℕ) × (j ≡ i + k)
    × (get_elem? ts k ≡ some t)
    × IsDue compact_rows t
    × (vacuum_after ≡ true)
    × (compact t ≡ collapsed)

module _ (compact_rows : ℕ) (vacuum_after : Bool) (compact : Table → Compaction) where
  -- A table is compacted, its count set back, or stays.
  pub data Compacted : List Table → List Table → Type 0 where
    none_left : Compacted [] []
    kept :
        (t : Table) (ts us : List Table)
        → (is_empty t.desc.pk ≡ true) ⊎ (t.rows_since_compaction < compact_rows)
        → Compacted ts us
        → Compacted (t ∷ ts) (t ∷ us)
    taken :
        (t : Table) (ts us : List Table)
        → IsDue compact_rows t
        → Compacted ts us
        → Compacted (t ∷ ts) (record t { rows_since_compaction = 0 } ∷ us)

  or_cases :
      (t : Table)
      → ((ltb t.rows_since_compaction compact_rows || is_empty t.desc.pk ≡ true)
          × ((is_empty t.desc.pk ≡ true) ⊎ (t.rows_since_compaction < compact_rows)))
        ⊎ ((ltb t.rows_since_compaction compact_rows || is_empty t.desc.pk ≡ false)
            × IsDue compact_rows t)
  or_cases t = elim (Bool-cases (ltb t.rows_since_compaction compact_rows)) [
    | inl e ↦ inl (rw e refl, inr (ltb→lt t.rows_since_compaction compact_rows e))
    | inr e ↦ elim (Bool-cases (is_empty t.desc.pk)) [
      | inl k ↦ inl (rw (e, k) refl, inl k)
      | inr k ↦ inr (rw (e, k) refl, (k, ltb→le t.rows_since_compaction compact_rows e))
    ]
  ]

  pub compact_tables-Compacted :
      (i : ℕ) (ts : List Table)
      → Compacted ts (compact_tables compact_rows vacuum_after compact i ts).0
  unfolding compact_tables
  compact_tables-Compacted i [] = none_left
  compact_tables-Compacted i (t ∷ ts) =
      let rest = compact_tables-Compacted (i + 1) ts in
      let us = (compact_tables compact_rows vacuum_after compact (i + 1) ts).0 in
      elim (or_cases t) [
        | inl (e, why) ↦ rw e (kept t ts us why rest)
        | inr (e, due) ↦ rw e (taken t ts us due rest)
      ]

  -- A log is below the threshold, or the table has no key to compact it by.
  abbrev pub IsBounded : Table → Type 0
  IsBounded t = (is_empty t.desc.pk ≡ true) ⊎ (t.rows_since_compaction < compact_rows)

  pub Compacted-IsBounded :
      (ts us : List Table) → 0 < compact_rows → Compacted ts us → All IsBounded us
  Compacted-IsBounded _ _ h none_left = tt
  Compacted-IsBounded _ _ h (kept t ts us why rest) = (why, Compacted-IsBounded ts us h rest)
  Compacted-IsBounded _ _ h (taken t ts us due rest) = (inr h, Compacted-IsBounded ts us h rest)

  IsDueCall-later :
      (i : ℕ) (t : Table) (ts : List Table) (call : SinkCall)
      → IsDueCall compact_rows vacuum_after compact (i + 1) ts call
      → IsDueCall compact_rows vacuum_after compact i (t ∷ ts) call
  IsDueCall-later i t ts (compacts j) (u, k, at, found, due) = (u, suc k, omega arith, found, due)
  IsDueCall-later i t ts (vacuums j) (u, k, at, found, due, on, done) =
      (u, suc k, omega arith, found, due, on, done)

  sink_calls-IsDueCall :
      (i : ℕ) (t : Table) (ts : List Table) (answer : Compaction)
      → IsDue compact_rows t
      → compact t ≡ answer
      → All
          (IsDueCall compact_rows vacuum_after compact i (t ∷ ts))
          (sink_calls vacuum_after i answer)
  sink_calls-IsDueCall i t ts collapsed due h = elim (Bool-cases vacuum_after) [
    | inl on ↦ rw on ((t, 0, omega arith, refl, due), ((t, 0, omega arith, refl, due, refl, h), tt))
    | inr off ↦ rw off ((t, 0, omega arith, refl, due), tt)
  ]
  sink_calls-IsDueCall i t ts unneeded due h = ((t, 0, omega arith, refl, due), tt)
  sink_calls-IsDueCall i t ts failed due h = ((t, 0, omega arith, refl, due), tt)

  pub compact_tables-IsDueCall :
      (i : ℕ) (ts : List Table)
      → All
          (IsDueCall compact_rows vacuum_after compact i ts)
          (compact_tables compact_rows vacuum_after compact i ts).1
  unfolding compact_tables
  compact_tables-IsDueCall i [] = tt
  compact_tables-IsDueCall i (t ∷ ts) =
      let rest =
        All-map (IsDueCall compact_rows vacuum_after compact (i + 1) ts)
          (IsDueCall compact_rows vacuum_after compact i (t ∷ ts)) (IsDueCall-later i t ts)
          (compact_tables compact_rows vacuum_after compact (i + 1) ts).1
          (compact_tables-IsDueCall (i + 1) ts) in
      elim (or_cases t) [
        | inl (e, why) ↦ rw e rest
        | inr (e, due) ↦ rw e (
            All-append (IsDueCall compact_rows vacuum_after compact i (t ∷ ts))
              (sink_calls vacuum_after i (compact t))
              (compact_tables compact_rows vacuum_after compact (i + 1) ts).1
              (sink_calls-IsDueCall i t ts (compact t) due refl) rest)
      ]

  -- With compaction on, maybe_compact leaves every table with a key below the threshold, sets back
  -- the counts of the tables at or past it and changes nothing else; it asks only the sinks of such
  -- tables, for a compaction, and for a vacuum only where vacuuming is on and the compaction
  -- collapsed the log.
  pub maybe_compact-IsBounded :
      (e : Engine)
      → 0 < compact_rows
      → let (e', calls) = maybe_compact compact_rows vacuum_after compact e in
        All IsBounded e'.tables
        × Compacted e.tables e'.tables
        × (e' ≡ record e { tables = e'.tables })
        × All (IsDueCall compact_rows vacuum_after compact 0 e.tables) calls
  unfolding maybe_compact
  maybe_compact-IsBounded e h =
      let on : (compact_rows == 0) ≡ false = ground arith in
      let all = compact_tables-Compacted 0 e.tables in
      let us = (compact_tables compact_rows vacuum_after compact 0 e.tables).0 in
      rw on (Compacted-IsBounded e.tables us h all, all, refl, compact_tables-IsDueCall 0 e.tables)

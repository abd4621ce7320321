-- ===== src/Engine/Flush.antt =====
-- Flushing: every table's pending rows go to its sink, stamped with one restart position.
use open_ltap.Base.{
  ℕ, ◌+◌, ◌≤◌, List, [], ◌∷◌, Option, none, some, Result, ok, err, panic, ◌≡◌, ◌≢◌, refl, ◌⊎◌, inl,
  inr, arith, ◌==◌, if◌then◌else◌, length, All, All-map, Bool-cases, Result-cases, subst, sym,
}
use open_ltap.TxBuf.{default, oldest_first_lsn}
use open_ltap.TxBuf.History.{Event, run, view}
use open_ltap.TxBuf.Restart.{IsRising, Covers, oldest_first_lsn-run}
use open_ltap.Engine.{EmitRow, Table, Engine, pending_total, restart_lsn, or_else}

abbrev pub flushed : Table → Table
flushed t = record t {
  pending = record (t.pending) { rows = []; first_at = none };
  rows_since_compaction = t.rows_since_compaction + length t.pending.rows;
}

-- `sink.append`: rows, commit LSN, restart LSN, filenode.
module _ (append : Table → List EmitRow → ℕ → ℕ → ℕ → Result (Unit {0})) where
  -- What becomes of the tables from one that has rows on, by what its sink answers.
  abbrev pub after_append :
      Result (Unit {0})
      → Table
      → List Table
      → List Table × Result (Unit {0})
      → List Table × Result (Unit {0})
  after_append (ok u) t ts rest = (flushed t ∷ rest.0, rest.1)
  after_append (err why) t ts rest = (t ∷ ts, err why)
  after_append panic t ts rest = (t ∷ ts, panic)

  -- The loop: a failing sink ends it, with the tables before it flushed.
  unfoldable pub flush_tables : ℕ → List Table → List Table × Result (Unit {0})
  flush_tables restart [] = ([], ok tt)
  flush_tables restart (t ∷ ts) =
      let rest = flush_tables restart ts in
      if length t.pending.rows == 0
      then (t ∷ rest.0, rest.1)
      else after_append (append t t.pending.rows t.pending.max_commit_lsn restart t.desc.rel_node) t
          ts rest

  abbrev persist : Result (Unit {0}) → ℕ → ℕ → ℕ
  persist (ok u) restart persisted = restart
  persist (err why) restart persisted = persisted
  persist panic restart persisted = persisted

  -- The engine, `persisted_restart`, and the result.
  unfoldable pub flush_all : ℕ → Engine → Engine × ℕ × Result (Unit {0})
  unfolding pending_total restart_lsn flush_tables
  flush_all persisted e =
      if pending_total e.tables == 0
      then (e, persisted, ok tt)
      else (let (tables, r) = flush_tables (restart_lsn e) e.tables in
          (record e { tables = tables }, persist r (restart_lsn e) persisted, r))

  flush_tables-pending_total :
      (restart : ℕ) (ts : List Table)
      → (flush_tables restart ts).1 ≡ ok tt
      → pending_total (flush_tables restart ts).0 ≡ 0
  unfolding flush_tables pending_total
  flush_tables-pending_total restart [] h = refl
  flush_tables-pending_total restart (t ∷ ts) h = elim (Bool-cases (length t.pending.rows == 0)) [
    | inl e ↦ ground (arith, flush_tables-pending_total restart ts)
    | inr e ↦
        elim (Result-cases
          (append t t.pending.rows t.pending.max_commit_lsn restart t.desc.rel_node)) [
            | inl (u, k) ↦ ground (arith, flush_tables-pending_total restart ts)
            | inr (inl (why, k)) ↦ absurd (ground arith)
            | inr (inr k) ↦ absurd (ground arith)
          ]
  ]

  -- A flush either succeeds, nothing is left pending, and the position that it persists is the
  -- restart position unless there was nothing to flush; or a sink fails, and the persisted
  -- position stays.
  pub flush_all-Outcome :
      (persisted : ℕ) (e : Engine)
      → let (e', persisted', r) = flush_all persisted e in
        ((r ≡ ok tt)
          × (pending_total e'.tables ≡ 0)
          × ((persisted' ≡ restart_lsn e)
              ⊎ ((pending_total e.tables ≡ 0) × (persisted' ≡ persisted))))
        ⊎ ((r ≢ ok tt) × (persisted' ≡ persisted))
  unfolding flush_all
  flush_all-Outcome persisted e = elim (Bool-cases (pending_total e.tables == 0)) [
    | inl z ↦ rw z (inl (refl, ground arith, inr (ground arith, refl)))
    | inr z ↦ elim (Result-cases (flush_tables (restart_lsn e) e.tables).1) [
      | inl (tt', k) ↦
          rw (z, k) (inl (refl, flush_tables-pending_total (restart_lsn e) e.tables k, inl refl))
      | inr (inl (why, k)) ↦ rw (z, k) (inr ((λ q. cc), refl))
      | inr (inr k) ↦ rw (z, k) (inr ((λ q. cc), refl))
    ]
  ]

or_else-Covers : (o : Option ℕ) (d n : ℕ) → Covers o n → or_else o d ≤ n
or_else-Covers none d n c = absurd c
or_else-Covers (some k) d n c = c

-- The restart position of an engine whose buffer a history left, in which LSNs never fall, is not
-- after any operation that the buffer still holds.
pub restart_lsn-Covers :
    (e : Engine) (es : List Event) (x : ℕ)
    → IsRising 0 es
    → e.txbuf ≡ run default es
    → All (λ p. restart_lsn e ≤ p.lsn) (view e.txbuf x)
unfolding restart_lsn
restart_lsn-Covers e es x h q =
    All-map (λ p. Covers (oldest_first_lsn e.txbuf) p.lsn) _
      (λ p c. or_else-Covers (oldest_first_lsn e.txbuf) e.last_commit_lsn p.lsn c) (view e.txbuf x)
      (subst (λ b. All (λ p. Covers (oldest_first_lsn b) p.lsn) (view b x)) (sym q)
        (oldest_first_lsn-run es x h))

-- ===== src/Engine/Tables.antt =====
-- src/engine.rs: which tables there are, by filenode and by name, the rows of a table whose columns
-- changed, and the compaction of the change logs. What a sink answers to a compaction is an
-- argument; its answer to a vacuum is only logged.
use text.Mathlib.Text.{◌==◌ as same_text}
use Prim.Native.String.{String}
use open_ltap.Base.{
  ℕ, suc, ◌+◌, Bool, true, false, not, ◌&&◌, ◌||◌, List, [], ◌∷◌, Option, none, some, ltb, ◌==◌,
  if◌then◌else◌, get_elem?, Map, insert, any, nat_eq, ◌++◌,
}
use open_ltap.Schema.{Col}
use open_ltap.Wal.Values.{Value, Row}
use open_ltap.Engine.{Table, Engine, Mirror}

-- The tables from index `i` on, collected into a map.
unfoldable pub routes : ℕ → List Table → Map ℕ ℕ → Map ℕ ℕ
unfolding insert
routes i [] m = m
routes i (t ∷ ts) m = routes (i + 1) ts (insert t.desc.rel_node i m)

unfoldable pub toast_nodes : List Table → List ℕ
toast_nodes [] = []
toast_nodes (t ∷ ts) = elim t.desc.toast_rel_node [
  | none ↦ toast_nodes ts
  | some n ↦ n ∷ toast_nodes ts
]

unfoldable pub rebuild_routing : Engine → Engine
unfolding routes toast_nodes
rebuild_routing e = record e {
  rel_to_table = routes 0 e.tables [];
  toast_rels = toast_nodes e.tables;
}

-- The tracked oids, the names that failed, and the catalog.
unfoldable pub tables_to_attach : List ℕ → List String → List (ℕ × String) → List (ℕ × String)
tables_to_attach tracked failed [] = []
tables_to_attach tracked failed ((oid, name) ∷ catalog) =
    let rest = tables_to_attach tracked failed catalog in
    if not (any (λ t. t == oid) tracked) && not (any (λ f. same_text f name) failed)
    then (oid, name) ∷ rest
    else rest

-- `old_cols.iter().position(|oc| oc.name == name)`.
unfoldable pub position : List Col → String → Option ℕ
position [] name = none
position (c ∷ cs) name =
    let rest = position cs name in
    if same_text c.name name then some 0 else (elim rest [ none ↦ none | some i ↦ some (suc i) ])

abbrev pub flatten {ℓ} : {A : Type ℓ} → Option (Option A) → Option A
flatten none = none
flatten (some a) = a

-- `oi.and_then(|i| row.get(i).cloned().flatten())`.
abbrev pub value_at : Row → Option ℕ → Option Value
value_at row none = none
value_at row (some i) = flatten (get_elem? row i)

unfoldable pub reshape_row : List Col → List Col → Row → Row
unfolding position
reshape_row old_cols [] row = []
reshape_row old_cols (c ∷ cs) row =
    value_at row (position old_cols c.name) ∷ reshape_row old_cols cs row

unfoldable pub reshape_rows : Mirror → List Col → List Col → Mirror
unfolding reshape_row
reshape_rows [] old_cols new_cols = []
reshape_rows ((ctid, ver) ∷ mirror) old_cols new_cols =
    (ctid, record ver { row = reshape_row old_cols new_cols ver.row })
    ∷ reshape_rows mirror old_cols new_cols

-- What a compaction comes to: `Ok(Some)`, `Ok(None)`, `Err`.
pub data Compaction : Type 0 where
  collapsed unneeded failed : Compaction

-- What the loop asks of the sink of the table with an index.
pub data SinkCall : Type 0 where
  compacts vacuums : ℕ → SinkCall

-- The calls for the table with index `i`.
abbrev pub sink_calls : Bool → ℕ → Compaction → List SinkCall
sink_calls vacuum_after i collapsed =
    if vacuum_after then compacts i ∷ vacuums i ∷ [] else compacts i ∷ []
sink_calls vacuum_after i unneeded = compacts i ∷ []
sink_calls vacuum_after i failed = compacts i ∷ []

abbrev pub is_empty {ℓ} : {A : Type ℓ} → List A → Bool
is_empty [] = true
is_empty (a ∷ as') = false

-- `vacuum_after.is_some()` and the sinks' answers are arguments.
module _ (compact_rows : ℕ) (vacuum_after : Bool) (compact : Table → Compaction) where
  -- The loop over the tables from index `i` on.
  unfoldable pub compact_tables : ℕ → List Table → List Table × List SinkCall
  compact_tables i [] = ([], [])
  compact_tables i (t ∷ ts) =
      let rest = compact_tables (i + 1) ts in
      if ltb t.rows_since_compaction compact_rows || is_empty t.desc.pk
      then (t ∷ rest.0, rest.1)
      else (
        record t { rows_since_compaction = 0 } ∷ rest.0,
        sink_calls vacuum_after i (compact t) ++ rest.1,
      )

  unfoldable pub maybe_compact : Engine → Engine × List SinkCall
  unfolding compact_tables
  maybe_compact e =
      if compact_rows == 0
      then (e, [])
      else (let (tables, calls) = compact_tables 0 e.tables in
          (record e { tables = tables }, calls))

-- ===== src/Engine/Reshape.antt =====
-- src/engine.rs: the rows of a mirror keep their values by column name when the columns change.
use text.Mathlib.Text.{◌==◌ as same_text}
use Prim.Native.String.{String}
use open_ltap.Base.{
  ℕ, suc, List, [], ◌∷◌, Option, none, some, ◌≡◌, refl, ◌∙◌, Bool-cases, inl, inr, if◌then◌else◌,
  map, lookup, Eq, pair_eq, nat_eq,
}
use open_ltap.Schema.{Col}
use open_ltap.Wal.Values.{Value, Row}
use open_ltap.TxBuf.{Ctid, RowVersion}
use open_ltap.Engine.{Mirror}
use open_ltap.Engine.Tables.{position, value_at, reshape_row, reshape_rows}

-- The value of a column, the columns and the row read side by side.
unfoldable pub value_by_name : List Col → Row → String → Option Value
value_by_name (c ∷ cs) (v ∷ row) name =
    if same_text c.name name then v else value_by_name cs row name
value_by_name _ _ name = none

value_at-shift :
    (v : Option Value) (row : Row) (p : Option ℕ)
    → value_at (v ∷ row) (elim p [ none ↦ none | some i ↦ some (suc i) ]) ≡ value_at row p
value_at-shift v row none = refl
value_at-shift v row (some i) = refl

value_at-nothing : (p : Option ℕ) → value_at [] p ≡ none
value_at-nothing none = refl
value_at-nothing (some i) = refl

value_at-position :
    (cols : List Col) (row : Row) (name : String)
    → value_at row (position cols name) ≡ value_by_name cols row name
unfolding position value_by_name
value_at-position [] row name = refl
value_at-position (c ∷ cs) [] name = value_at-nothing (position (c ∷ cs) name)
value_at-position (c ∷ cs) (v ∷ row) name = elim (Bool-cases (same_text c.name name)) [
  | inl e ↦ rw e refl
  | inr e ↦ rw e (value_at-shift v row (position cs name) ∙ value_at-position cs row name)
]

-- The row with a value for every new column, the one that the old row has under its name.
abbrev pub by_name : List Col → List Col → Row → Row
by_name old_cols new_cols row = map (λ c. value_by_name old_cols row c.name) new_cols

reshape_row-by_name :
    (old_cols new_cols : List Col) (row : Row)
    → reshape_row old_cols new_cols row ≡ by_name old_cols new_cols row
unfolding reshape_row
reshape_row-by_name old_cols [] row = refl
reshape_row-by_name old_cols (c ∷ cs) row =
    rw (value_at-position old_cols row c.name, reshape_row-by_name old_cols cs row) refl

abbrev pub reshaped : List Col → List Col → Option RowVersion → Option RowVersion
reshaped old_cols new_cols none = none
reshaped old_cols new_cols (some ver) =
    some (record ver { row = by_name old_cols new_cols ver.row })

-- After the columns change, a mirror has a row where it had one, with a value for every new column:
-- the one that the old row has under the column's name, or none where it has none. The attribute
-- bytes stay.
pub lookup-reshape_rows :
    (mirror : Mirror) (old_cols new_cols : List Col) (ctid : Ctid)
    → lookup ctid (reshape_rows mirror old_cols new_cols)
      ≡ reshaped old_cols new_cols (lookup ctid mirror)
unfolding reshape_rows lookup
lookup-reshape_rows [] old_cols new_cols ctid = refl
lookup-reshape_rows ((at, ver) ∷ mirror) old_cols new_cols ctid =
    let row = reshape_row-by_name old_cols new_cols ver.row in
    let e : Eq Ctid = pair_eq in
    elim (Bool-cases (e.beq at ctid)) [
      | inl same ↦ rw (same, row) refl
      | inr other ↦ rw other (lookup-reshape_rows mirror old_cols new_cols ctid)
    ]

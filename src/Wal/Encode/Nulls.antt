-- ===== src/Wal/Encode/Nulls.antt =====
-- Which physical columns of a row are present, and the live ones among them.
use open_ltap.Base.{
  List, [], ◌∷◌, Option, some, none, Result, ok, panic, ◌>>=◌, Bool, true, false, not,
}
use open_ltap.Schema.{PhysCol, live, dropped, Col}
use open_ltap.Wal.Values.{Value, Row}

abbrev pub is_null : Option Value → Bool
is_null none = true
is_null (some v) = false

-- A dropped slot is null. A row shorter than the live slots is indexed out of bounds.
unfoldable pub present_slots : List PhysCol → Row → Result (List Bool)
present_slots [] row = ok []
present_slots (dropped attlen align ∷ pcs) row = do rest ← present_slots pcs row; ok (false ∷ rest)
present_slots (live col ∷ pcs) [] = panic
present_slots (live col ∷ pcs) (v ∷ row) = do
  rest ← present_slots pcs row
  ok (not (is_null v) ∷ rest)

unfoldable pub live_cols : List PhysCol → List Col
live_cols [] = []
live_cols (dropped attlen align ∷ pcs) = live_cols pcs
live_cols (live col ∷ pcs) = col ∷ live_cols pcs

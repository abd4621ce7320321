-- ===== src/Wal/Jsonb.antt =====
-- src/wal/heap.rs: jsonb containers, written as JSON text.
use open_ltap.Base.{
  ℕ, zero, suc, ◌+◌, ◌-◌, ◌*◌, ◌/◌, ◌%◌, ◌^◌, List, [], ◌∷◌, ◌++◌, Bytes, Result, ok, err, ◌>>=◌,
  ◌>>◌, bail_if, ok_or, or_panic, ltb, ◌==◌, if◌then◌else◌, length, get_elem?, le, slice?, get?,
  range, u32_at, has_bit, truncated, corrupt, nested_too_deep,
}
use open_ltap.Wal.Text.{write_json_string}
use open_ltap.Wal.Numeric.{numeric_to_string}

-- A JEntry. JENTRY_HAS_OFF is bit 31, the type is bits 28 to 30, the length or offset the rest.
unfoldable pub jentry : Bytes → ℕ → Result ℕ
unfolding slice? le
jentry c i = do s ← ok_or (slice? c (4 + i * 4) (4 + i * 4 + 4)) truncated; ok (le s)

abbrev pub offlen : ℕ → ℕ
offlen je = je % 2 ^ 28

-- The end of every entry from `i` on, `cum` the one before.
unfoldable pub ends_from : Bytes → ℕ → ℕ → ℕ → Result (List ℕ)
unfolding jentry
ends_from c i zero cum = ok []
ends_from c i (suc n) cum = do
  je ← jentry c i
  let end = if has_bit je 31 then offlen je else cum + offlen je
  rest ← ends_from c (i + 1) n end
  ok (end ∷ rest)

unfoldable pub numeric_varlena_to_string : Bytes → Result Bytes
unfolding get? slice? le numeric_to_string
numeric_varlena_to_string v = do
  b0 ← ok_or (get? v 0) truncated
  if b0 % 2 == 1
      then (do payload ← ok_or (slice? v 1 (b0 / 2 % 128)) truncated; numeric_to_string payload)
      else do
        hdr ← ok_or (slice? v 0 4) truncated
        payload ← ok_or (slice? v 4 (le hdr / 4)) truncated
        numeric_to_string payload

abbrev pub true_text : Bytes
true_text = 116 ∷ 114 ∷ 117 ∷ 101 ∷ []

abbrev pub false_text : Bytes
false_text = 102 ∷ 97 ∷ 108 ∷ 115 ∷ 101 ∷ []

abbrev pub null_text : Bytes
null_text = 110 ∷ 117 ∷ 108 ∷ 108 ∷ []

abbrev pub separator : Bytes
separator = 44 ∷ 32 ∷ []

-- A value by its JEntry type, in the bytes from `s` to `e`. `nested` writes a container.
unfoldable pub write_typed : (Bytes → Result Bytes) → Bytes → ℕ → ℕ → ℕ → Bytes → Result Bytes
unfolding write_json_string range numeric_varlena_to_string
write_typed nested c s e type slot =
    let padded = s + (4 - s % 4) % 4 in
    if type == 0
    then ok (write_json_string slot)
    else if type == 3
    then ok true_text
    else if type == 2
    then ok false_text
    else if type == 4
    then ok null_text
    else if type == 1
    then range c padded e >>= numeric_varlena_to_string
    else if type == 5
    then range c padded e >>= nested
    else err corrupt

-- `start_of`, by the ends: an index of `ends` out of bounds panics.
unfoldable pub start_of : List ℕ → ℕ → Result ℕ
start_of ends zero = ok 0
start_of ends (suc i) = or_panic (get_elem? ends i)

unfoldable pub write_value : (Bytes → Result Bytes) → Bytes → ℕ → List ℕ → ℕ → Result Bytes
unfolding jentry start_of slice? write_typed
write_value nested c data_start ends i = do
  je ← jentry c i
  start ← start_of ends i
  end ← or_panic (get_elem? ends i)
  slot ← ok_or (slice? c (data_start + start) (data_start + end)) truncated
  write_typed nested c (data_start + start) (data_start + end) (je / 2 ^ 28 % 8) slot

abbrev pub separate : ℕ → Bytes
separate i = if i == 0 then [] else separator

-- The loops over elements and over pairs, `n` of them left.
unfoldable pub write_elements : (ℕ → Result Bytes) → ℕ → ℕ → Result Bytes
write_elements value i zero = ok []
write_elements value i (suc n) = do
  v ← value i
  rest ← write_elements value (i + 1) n
  ok (separate i ++ v ++ rest)

unfoldable pub write_pairs : (ℕ → Result Bytes) → ℕ → ℕ → ℕ → Result Bytes
write_pairs value count p zero = ok []
write_pairs value count p (suc n) = do
  k ← value p
  v ← value (count + p)
  rest ← write_pairs value count (p + 1) n
  ok (separate p ++ k ++ 58 ∷ 32 ∷ v ++ rest)

-- What the header's flags make of the values. JB_FSCALAR is bit 28, JB_FOBJECT bit 29.
unfoldable pub write_container : (ℕ → Result Bytes) → ℕ → Result Bytes
unfolding has_bit write_elements write_pairs
write_container value header =
    let count = offlen header in
    if has_bit header 28
    then value 0
    else if has_bit header 29
    then (do body ← write_pairs value count 0 count; ok (123 ∷ (body ++ 125 ∷ [])))
    else do body ← write_elements value 0 count; ok (91 ∷ (body ++ 93 ∷ []))

-- `jsonb_write` at a depth, by the levels that are left below it: 201 less the depth.
unfoldable pub jsonb_write : ℕ → Bytes → Result Bytes
unfolding u32_at has_bit ends_from write_value write_container
jsonb_write zero c = err nested_too_deep
jsonb_write (suc left) c = do
  bail_if (ltb (length c) 4) truncated
  header ← u32_at c 0
  let count = offlen header
  let nentries = if has_bit header 29 then count * 2 else count
  ends ← ends_from c 0 nentries 0
  write_container (write_value (jsonb_write left) c (4 + nentries * 4) ends) header

unfoldable pub jsonb_to_string : Bytes → Result Bytes
jsonb_to_string container = jsonb_write 201 container

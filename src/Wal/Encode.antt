-- ===== src/Wal/Encode.antt =====
-- src/wal/heap.rs: `encode_attrs`, a row back to attribute bytes. Where the code returns `None` the
-- model returns `err unsupported`; a slice of a text inside a character is a panic.
pub mod Values
pub mod RoundTrip
pub mod Nulls
pub mod Rows
use open_ltap.Base.{
  ℕ, zero, suc, ◌+◌, ◌-◌, ◌*◌, ◌^◌, ◌%◌, Bool, true, false, not, List, [], ◌∷◌, ◌++◌, Option, none,
  some, Bytes, Result, ok, err, panic, ◌>>=◌, ◌>>◌, bail_if, ok_or, ltb, ◌==◌, if◌then◌else◌,
  length, replicate, get_elem?, to_le, align_to, unsupported,
}
use open_ltap.Schema.{
  PgType, Col, TableDesc, bool, int2, int4, int8, float4, float8, text, bytea, uuid, numeric, date,
  timestamp, timestamp_tz,
}
use open_ltap.Wal.Values.{Value, Row}
use open_ltap.Wal.Text.{between, is_continuation}
use open_ltap.Wal.Numeric.{numeric_from_string}
use open_ltap.Wal.Tuple.{pg_epoch_days, pg_epoch_micros}

unfoldable pub pad_put : Bytes → ℕ → Bytes → Bytes
unfolding align_to
pad_put buf align bytes = buf ++ replicate (align_to (length buf) align - length buf) 0 ++ bytes

unfoldable pub encode_short_varlena : Bytes → Bytes → Result Bytes
encode_short_varlena buf payload =
    if ltb 126 (length payload)
    then err unsupported
    else ok (buf ++ (2 * (length payload + 1) + 1) ∷ payload)

-- `filter(|c| *c != '-')`.
unfoldable pub without_dashes : Bytes → Bytes
without_dashes [] = []
without_dashes (b ∷ bs) = let rest = without_dashes bs in if b == 45 then rest else b ∷ rest

-- A hexadecimal digit, of either case.
unfoldable pub hex_value : ℕ → Option ℕ
hex_value b =
    if between 48 57 b
    then some (b - 48)
    else if between 97 102 b
    then some (b - 87)
    else if between 65 70 b
    then some (b - 55)
    else none

-- `u8::from_str_radix(.., 16)` of two bytes, which takes a leading `+`.
unfoldable pub hex_byte : ℕ → ℕ → Result ℕ
unfolding hex_value
hex_byte a b = if a == 43 then ok_or (hex_value b) unsupported else do
  high ← ok_or (hex_value a) unsupported
  low ← ok_or (hex_value b) unsupported
  ok (16 * high + low)

-- Whether the text is cut inside a character here.
abbrev pub inside_char : Bytes → Bool
inside_char [] = false
inside_char (b ∷ bs) = is_continuation b

unfoldable pub uuid_bytes : Bytes → Result Bytes
unfolding hex_byte
uuid_bytes (a ∷ b ∷ hex) =
    if inside_char hex then panic else do n ← hex_byte a b; rest ← uuid_bytes hex; ok (n ∷ rest)
uuid_bytes _ = ok []

-- `.ok()?`.
abbrev pub or_none : Result Bytes → Result Bytes
or_none (ok b) = ok b
or_none (err e) = err unsupported
or_none panic = panic

unfoldable pub encode_value : Bytes → PgType → Value → Result Bytes
unfolding pad_put encode_short_varlena without_dashes uuid_bytes numeric_from_string to_le
encode_value buf bool (Value.bool b) = ok (buf ++ (if b then 1 else 0) ∷ [])
encode_value buf int2 (Value.i16 x) = ok (pad_put buf 2 (to_le 2 x))
encode_value buf int4 (Value.i32 x) = ok (pad_put buf 4 (to_le 4 x))
encode_value buf int8 (Value.i64 x) = ok (pad_put buf 8 (to_le 8 x))
encode_value buf float4 (Value.f32 x) = ok (pad_put buf 4 (to_le 4 x))
encode_value buf float8 (Value.f64 x) = ok (pad_put buf 8 (to_le 8 x))
encode_value buf date (Value.i32 x) =
    ok (pad_put buf 4 (to_le 4 ((x + 2 ^ 32 - pg_epoch_days) % 2 ^ 32)))
encode_value buf timestamp (Value.i64 x) =
    ok (pad_put buf 8 (to_le 8 ((x + 2 ^ 64 - pg_epoch_micros) % 2 ^ 64)))
encode_value buf timestamp_tz (Value.i64 x) =
    ok (pad_put buf 8 (to_le 8 ((x + 2 ^ 64 - pg_epoch_micros) % 2 ^ 64)))
encode_value buf uuid (Value.text t) = do
  let hex = without_dashes t
  bail_if (not (length hex == 32)) unsupported
  bytes ← uuid_bytes hex
  ok (buf ++ bytes)
encode_value buf text (Value.text t) = encode_short_varlena buf t
encode_value buf bytea (Value.bytes b) = encode_short_varlena buf b
encode_value buf numeric (Value.text t) = do
  payload ← or_none (numeric_from_string t)
  encode_short_varlena buf payload
encode_value buf _ _ = err unsupported

unfoldable pub encode_cols : Row → ℕ → Bytes → List Col → Result Bytes
encode_cols row i buf [] = ok buf
encode_cols row i buf (col ∷ cols) = elim (get_elem? row i) [
  | none ↦ err unsupported
  | some none ↦ encode_cols row (i + 1) buf cols
  | some (some v) ↦ encode_value buf col.ty v >>= λ longer. encode_cols row (i + 1) longer cols
]

unfoldable pub encode_attrs : Row → TableDesc → Result Bytes
encode_attrs row desc = encode_cols row 0 [] desc.cols

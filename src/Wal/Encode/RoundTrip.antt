-- ===== src/Wal/Encode/RoundTrip.antt =====
-- Rows encoded by `encode_attrs` and decoded again, column by column.
use open_ltap.Base.{
  ℕ, ◌+◌, ◌-◌, ◌^◌, ◌%◌, ◌<◌, [], ◌∷◌, ◌++◌, some, Bytes, ok, Bool, true, false, ◌≡◌, refl, sym, ap,
  ◌∙◌, length, arith, get?, le, to_le, align_to-ge, length-to_le, le-to_le_two, le-to_le_four,
  le-to_le_eight, length-append,
}
use open_ltap.Schema.{
  PgType, bool, int2, int4, int8, float4, float8, text, bytea, date, timestamp, timestamp_tz,
}
use open_ltap.Wal.Values.{Value}
use open_ltap.Wal.Text.{from_utf8_lossy}
use open_ltap.Wal.Toast.{Codecs, ToastCache}
use open_ltap.Wal.Tuple.{
  decode_value, fixed, fixed_value, date_value, timestamp_value, pg_epoch_days, pg_epoch_micros,
}
use open_ltap.Wal.Encode.{encode_value, pad_put}
use open_ltap.Wal.Encode.Values.{pad_put-fixed, encode_short_varlena-decode_varlena, get?-middle}

-- A value that a column of its type is read back as: words of their width, and text that is UTF-8.
pub data Fits : PgType → Value → Type 0 where
  bool_fits : (b : Bool) → Fits bool (Value.bool b)
  int2_fits : (x : ℕ) → x < 2 ^ 16 → Fits int2 (Value.i16 x)
  int4_fits : (x : ℕ) → x < 2 ^ 32 → Fits int4 (Value.i32 x)
  int8_fits : (x : ℕ) → x < 2 ^ 64 → Fits int8 (Value.i64 x)
  float4_fits : (x : ℕ) → x < 2 ^ 32 → Fits float4 (Value.f32 x)
  float8_fits : (x : ℕ) → x < 2 ^ 64 → Fits float8 (Value.f64 x)
  date_fits : (x : ℕ) → x < 2 ^ 32 → Fits date (Value.i32 x)
  timestamp_fits : (x : ℕ) → x < 2 ^ 64 → Fits timestamp (Value.i64 x)
  timestamp_tz_fits : (x : ℕ) → x < 2 ^ 64 → Fits timestamp_tz (Value.i64 x)
  text_fits : (t : Bytes) → from_utf8_lossy t ≡ t → Fits text (Value.text t)
  bytea_fits : (b : Bytes) → Fits bytea (Value.bytes b)

module _ (codecs : Codecs) (toast : ToastCache) where
  -- A word of `n` bytes, padded to a power of two.
  abbrev pub Decodes : PgType → Value → Bytes → Bytes → Type 0
  Decodes ty v buf out =
      (more : Bytes)
      → decode_value codecs toast (out ++ more) (length buf) ty ≡ ok (some v, length out)

  pub byte-decode :
      (b : ℕ) (buf out more : Bytes)
      → ok (buf ++ b ∷ []) ≡ ok out
      → (get? (out ++ more) (length buf) ≡ some b) × (length out ≡ length buf + 1)
  byte-decode b buf out more h =
      let is : buf ++ b ∷ [] ≡ out = cc in
      let l = length-append buf (b ∷ []) in
      (
        ap (λ o. get? (o ++ more) (length buf)) (sym is) ∙ get?-middle buf b [] more,
        ap length (sym is) ∙ l,
      )

  pub word-decode :
      (make : ℕ → Value) (n w x align : ℕ) (v : Value) (buf out more : Bytes)
      → 0 < align
      → ok (pad_put buf align (to_le n w)) ≡ ok out
      → le (to_le n w) ≡ x
      → make x ≡ v
      → fixed_value make (fixed (out ++ more) (length buf) n align) ≡ ok (some v, length out)
  word-decode make n w x align v buf out more pos h word is_v =
      let is : pad_put buf align (to_le n w) ≡ out = cc in
      let read =
        pad_put-fixed buf (to_le n w) more n align (sym (length-to_le n w))
          (align_to-ge (length buf) align pos) in
      ap (λ o. fixed_value make (fixed (o ++ more) (length buf) n align)) (sym is)
      ∙ ap (fixed_value make) read
      ∙ ap (λ y. ok (some (make y), length (pad_put buf align (to_le n w)))) word
      ∙ ap (λ y. ok (some y, length (pad_put buf align (to_le n w)))) is_v
      ∙ ap (λ o. ok (some v, length o)) is

  pub Fits-Decodes :
      (ty : PgType) (v : Value) (buf out : Bytes)
      → Fits ty v
      → encode_value buf ty v ≡ ok out
      → Decodes ty v buf out
  unfolding encode_value decode_value
  Fits-Decodes ty v buf out (bool_fits true) h more =
      let (read, end) = byte-decode 1 buf out more h in rw (read, end) refl
  Fits-Decodes ty v buf out (bool_fits false) h more =
      let (read, end) = byte-decode 0 buf out more h in rw (read, end) refl
  Fits-Decodes ty v buf out (int2_fits x f) h more =
      word-decode Value.i16 2 x x 2 v buf out more (omega arith) h (le-to_le_two x f) refl
  Fits-Decodes ty v buf out (int4_fits x f) h more =
      word-decode Value.i32 4 x x 4 v buf out more (omega arith) h (le-to_le_four x f) refl
  Fits-Decodes ty v buf out (int8_fits x f) h more =
      word-decode Value.i64 8 x x 8 v buf out more (omega arith) h (le-to_le_eight x f) refl
  Fits-Decodes ty v buf out (float4_fits x f) h more =
      word-decode Value.f32 4 x x 4 v buf out more (omega arith) h (le-to_le_four x f) refl
  Fits-Decodes ty v buf out (float8_fits x f) h more =
      word-decode Value.f64 8 x x 8 v buf out more (omega arith) h (le-to_le_eight x f) refl
  Fits-Decodes ty v buf out (date_fits x f) h more =
      let w = (x + 2 ^ 32 - pg_epoch_days) % 2 ^ 32 in
      let back : (w + pg_epoch_days) % 2 ^ 32 ≡ x = omega arith in
      word-decode date_value 4 w w 4 v buf out more (omega arith) h (le-to_le_four w (omega arith))
        (ap Value.i32 back)
  Fits-Decodes ty v buf out (timestamp_fits x f) h more =
      let w = (x + 2 ^ 64 - pg_epoch_micros) % 2 ^ 64 in
      let back : (w + pg_epoch_micros) % 2 ^ 64 ≡ x = omega arith in
      word-decode timestamp_value 8 w w 8 v buf out more (omega arith) h
        (le-to_le_eight w (omega arith)) (ap Value.i64 back)
  Fits-Decodes ty v buf out (timestamp_tz_fits x f) h more =
      let w = (x + 2 ^ 64 - pg_epoch_micros) % 2 ^ 64 in
      let back : (w + pg_epoch_micros) % 2 ^ 64 ≡ x = omega arith in
      word-decode timestamp_value 8 w w 8 v buf out more (omega arith) h
        (le-to_le_eight w (omega arith)) (ap Value.i64 back)
  Fits-Decodes ty v buf out (text_fits t f) h more =
      rw (encode_short_varlena-decode_varlena codecs toast buf t more out h, f) refl
  Fits-Decodes ty v buf out (bytea_fits b) h more =
      rw (encode_short_varlena-decode_varlena codecs toast buf b more out h) refl

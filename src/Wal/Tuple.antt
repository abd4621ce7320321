-- ===== src/Wal/Tuple.antt =====
-- src/wal/heap.rs: tuples decoded into rows, from a page, an insert, an update and a multi-insert.
pub mod Updates
pub mod Shape
use open_ltap.Base.{
  ℕ, zero, suc, ◌+◌, ◌-◌, ◌*◌, ◌/◌, ◌%◌, ◌^◌, Bool, true, false, not, ◌&&◌, List, [], ◌∷◌, ◌++◌,
  Option, none, some, Bytes, Result, ok, err, ◌>>=◌, ◌>>◌, bail_if, ok_or, or_panic, ltb, leb, ◌==◌,
  if◌then◌else◌, length, take, drop, get_elem?, le, slice?, tail?, get?, index, u16_at, u8_at,
  align_to, has_bit, truncated, corrupt, schema_drift, no_preimage, missing_chunk,
}
use open_ltap.Schema.{
  PgType, PhysCol, live, dropped, TableDesc, bool, int2, int4, int8, float4, float8, text, bytea,
  uuid, numeric, jsonb, date, timestamp, timestamp_tz,
}
use open_ltap.Wal.Values.{Value, Row}
use open_ltap.Wal.Heap.{HeapFmt, wal_heap_header, bits_len, tuple_on_page}
use open_ltap.Wal.Toast.{Codecs, ToastCache, decode_varlena}
use open_ltap.Wal.Text.{from_utf8_lossy, format_uuid}
use open_ltap.Wal.Numeric.{numeric_to_string}
use open_ltap.Wal.Jsonb.{jsonb_to_string}

abbrev pub pg_epoch_days : ℕ
pg_epoch_days = 10957

abbrev pub pg_epoch_micros : ℕ
pg_epoch_micros = 946684800000000

-- `fixed::<N>`: `n` bytes at the next multiple of `align`, as a bit pattern, and the offset after.
unfoldable pub fixed : Bytes → ℕ → ℕ → ℕ → Result (ℕ × ℕ)
unfolding align_to slice? le
fixed bytes off n align = do
  let start = align_to off align
  s ← ok_or (slice? bytes start (start + n)) truncated
  ok (le s, start + n)

abbrev pub fixed_value : (ℕ → Value) → Result (ℕ × ℕ) → Result (Option Value × ℕ)
fixed_value make r = r >>= λ (n, off). ok (some (make n), off)

-- A varlena's bytes made a value; an unresolved toast pointer stays none.
abbrev pub varlena_value :
    (Bytes → Result Value) → Result (Option Bytes × ℕ) → Result (Option Value × ℕ)
varlena_value make r = r >>= λ (bytes, off). elim bytes [
  | none ↦ ok (none, off)
  | some b ↦ make b >>= λ v. ok (some v, off)
]

abbrev pub text_value : Result Bytes → Result Value
text_value t = t >>= λ b. ok (Value.text b)

-- Adding an epoch wraps around, as release builds do.
abbrev pub date_value : ℕ → Value
date_value n = Value.i32 ((n + pg_epoch_days) % 2 ^ 32)

abbrev pub timestamp_value : ℕ → Value
timestamp_value n = Value.i64 ((n + pg_epoch_micros) % 2 ^ 64)

-- `has_nulls && bitmap[i / 8] & (1 << (i % 8)) == 0`.
unfoldable pub null_at : Bool → Bytes → ℕ → Result Bool
unfolding index has_bit
null_at has_nulls bitmap i =
    if has_nulls then (do b ← index bitmap (i / 8); ok (not (has_bit b (i % 8)))) else ok false

-- A value that was not decoded is the one of the old row.
unfoldable pub or_old : Option Row → ℕ → Option Value → Result Value
or_old old_row live_i (some v) = ok v
or_old none live_i none = err missing_chunk
or_old (some old) live_i none = elim (get_elem? old live_i) [
  | some (some v) ↦ ok v
  | _ ↦ err missing_chunk
]

-- What a physical column adds to the row, nothing if it was dropped, and the offset after it.
abbrev pub Cell : Type 0
Cell = Option (Option Value)

-- A column that is null, or was added after the tuple was written.
abbrev pub null_cell : PhysCol → Cell
null_cell (live col) = some none
null_cell (dropped attlen align) = none

abbrev pub push_cell : Cell → Row → Row
push_cell none row = row
push_cell (some v) row = v ∷ row

abbrev pub next_live : Cell → ℕ → ℕ
next_live none live_i = live_i
next_live (some v) live_i = live_i + 1

-- The length of a shared part, if a flag says that it stands at `off`, and the offset after it.
unfoldable pub shared_len : Bytes → ℕ → Bool → Result (ℕ × ℕ)
unfolding slice? le
shared_len block_data off true = do
  s ← ok_or (slice? block_data off (off + 2)) truncated
  ok (le s, off + 2)
shared_len block_data off false = ok (0, off)

-- The tuple with the parts that it shares with the old one put back.
unfoldable pub splice : Bytes → Bytes → ℕ → ℕ → Option Bytes → Bytes → Result Bytes
splice rest bitmap prefix suffix old_attrs partial =
    if prefix == 0 && suffix == 0 then ok rest else do
      old ← ok_or old_attrs no_preimage
      bail_if (ltb (length old) (prefix + suffix)) corrupt
      ok (bitmap ++ take prefix old ++ partial ++ drop (length old - suffix) old)

module _ (codecs : Codecs) (toast : ToastCache) where
  unfoldable pub decode_value : Bytes → ℕ → PgType → Result (Option Value × ℕ)
  unfolding fixed get? slice? from_utf8_lossy format_uuid numeric_to_string jsonb_to_string
  decode_value bytes off bool = do
    b ← ok_or (get? bytes off) truncated
    ok (some (Value.bool (not (b == 0))), off + 1)
  decode_value bytes off int2 = fixed_value Value.i16 (fixed bytes off 2 2)
  decode_value bytes off int4 = fixed_value Value.i32 (fixed bytes off 4 4)
  decode_value bytes off int8 = fixed_value Value.i64 (fixed bytes off 8 8)
  decode_value bytes off float4 = fixed_value Value.f32 (fixed bytes off 4 4)
  decode_value bytes off float8 = fixed_value Value.f64 (fixed bytes off 8 8)
  decode_value bytes off date = fixed_value date_value (fixed bytes off 4 4)
  decode_value bytes off timestamp = fixed_value timestamp_value (fixed bytes off 8 8)
  decode_value bytes off timestamp_tz = fixed_value timestamp_value (fixed bytes off 8 8)
  decode_value bytes off uuid = do
    s ← ok_or (slice? bytes off (off + 16)) truncated
    t ← format_uuid s
    ok (some (Value.text t), off + 16)
  decode_value bytes off text =
      varlena_value (λ b. ok (Value.text (from_utf8_lossy b)))
        (decode_varlena codecs bytes off toast)
  decode_value bytes off bytea =
      varlena_value (λ b. ok (Value.bytes b)) (decode_varlena codecs bytes off toast)
  decode_value bytes off numeric =
      varlena_value (λ b. text_value (numeric_to_string b)) (decode_varlena codecs bytes off toast)
  decode_value bytes off jsonb =
      varlena_value (λ b. text_value (jsonb_to_string b)) (decode_varlena codecs bytes off toast)

  -- The offset after a dropped column's bytes.
  unfoldable pub skip_dropped : Bytes → ℕ → Option ℕ → ℕ → Result ℕ
  unfolding align_to
  skip_dropped bytes off (some attlen) align = ok (align_to off align + attlen)
  skip_dropped bytes off none align =
      decode_varlena codecs bytes off toast >>= λ (_, after). ok after

  unfoldable pub present_column : Bytes → Option Row → ℕ → ℕ → PhysCol → Result (Cell × ℕ)
  present_column bytes old_row live_i off (dropped attlen align) = do
    after ← skip_dropped bytes off attlen align
    ok (none, after)
  present_column bytes old_row live_i off (live col) = do
    (value, after) ← decode_value bytes off col.ty
    v ← or_old old_row live_i value
    ok (some (some v), after)

  -- The rows of the bitmap and of the old row are counted by `i` and `live_i`.
  unfoldable pub column :
      Bool → Bytes → ℕ → Bytes → Option Row → ℕ → ℕ → ℕ → PhysCol → Result (Cell × ℕ)
  column has_nulls bitmap natts bytes old_row i live_i off pc =
      if leb natts i then ok (null_cell pc, off) else do
        is_null ← null_at has_nulls bitmap i
        if is_null then ok (null_cell pc, off) else present_column bytes old_row live_i off pc

  unfoldable pub columns :
      Bool → Bytes → ℕ → Bytes → Option Row → ℕ → ℕ → ℕ → List PhysCol → Result Row
  columns has_nulls bitmap natts bytes old_row i live_i off [] = ok []
  columns has_nulls bitmap natts bytes old_row i live_i off (pc ∷ pcs) = do
    (cell, after) ← column has_nulls bitmap natts bytes old_row i live_i off pc
    rest ← columns has_nulls bitmap natts bytes old_row (i + 1) (next_live cell live_i) after pcs
    ok (push_cell cell rest)

  -- The row, and the attribute bytes. HEAP_HASNULL is bit 0.
  unfoldable pub decode_tuple_payload :
      Bytes → ℕ → ℕ → ℕ → TableDesc → Option Row → Result (Row × Bytes)
  decode_tuple_payload tuple t_infomask2 t_infomask t_hoff desc old_row = do
    let natts = t_infomask2 % 2 ^ 11
    bail_if (ltb (length desc.phys) natts) schema_drift
    n ← bits_len t_hoff
    bail_if (ltb (length tuple) n) truncated
    let bytes = drop n tuple
    row ← columns (has_bit t_infomask 0) (take n tuple) natts bytes old_row 0 0 0 desc.phys
    ok (row, bytes)

  unfoldable pub decode_tuple_from_page : Bytes → ℕ → TableDesc → Result (Row × Bytes)
  decode_tuple_from_page page offnum desc = do
    (payload, im2, im, hoff) ← tuple_on_page page offnum
    decode_tuple_payload payload im2 im hoff desc none

  unfoldable pub decode_insert_tuple : Bytes → TableDesc → HeapFmt → Result (Row × Bytes)
  decode_insert_tuple block_data desc fmt = do
    (im2, im, hoff, hdr_len) ← wal_heap_header block_data fmt
    payload ← or_panic (tail? block_data hdr_len)
    decode_tuple_payload payload im2 im hoff desc none

  -- XLH_UPDATE_PREFIX_FROM_OLD is bit 5, XLH_UPDATE_SUFFIX_FROM_OLD bit 6.
  unfoldable pub decode_update_new_tuple :
      Bytes → ℕ → Option Bytes → Option Row → TableDesc → HeapFmt → Result (Row × Bytes)
  decode_update_new_tuple block_data flags old_attrs old_row desc fmt = do
    (prefix, after_prefix) ← shared_len block_data 0 (has_bit flags 5)
    (suffix, off) ← shared_len block_data after_prefix (has_bit flags 6)
    header ← or_panic (tail? block_data off)
    (im2, im, hoff, hdr_len) ← wal_heap_header header fmt
    n ← bits_len hoff
    let start = off + hdr_len
    bitmap ← ok_or (slice? block_data start (start + n)) truncated
    rest ← or_panic (tail? block_data start)
    partial ← or_panic (tail? block_data (start + n))
    payload ← splice rest bitmap prefix suffix old_attrs partial
    decode_tuple_payload payload im2 im hoff desc old_row

  -- One tuple of a multi-insert, and the offset after it.
  unfoldable pub multi_insert_tuple : Bytes → TableDesc → ℕ → Result ((Row × Bytes) × ℕ)
  multi_insert_tuple block_data desc before = do
    let off = align_to before 2
    hdr ← ok_or (slice? block_data off (off + 7)) truncated
    datalen ← u16_at hdr 0
    im2 ← u16_at hdr 2
    im ← u16_at hdr 4
    hoff ← u8_at hdr 6
    payload ← ok_or (slice? block_data (off + 7) (off + 7 + datalen)) truncated
    decoded ← decode_tuple_payload payload im2 im hoff desc none
    ok (decoded, off + (7 + datalen))

  unfoldable pub multi_insert_tuples : Bytes → TableDesc → ℕ → ℕ → Result (List (Row × Bytes))
  multi_insert_tuples block_data desc off zero = ok []
  multi_insert_tuples block_data desc off (suc n) = do
    (decoded, after) ← multi_insert_tuple block_data desc off
    rest ← multi_insert_tuples block_data desc after n
    ok (decoded ∷ rest)

  unfoldable pub decode_multi_insert : Bytes → Bytes → TableDesc → Result (List (Row × Bytes))
  decode_multi_insert block_data main_data desc = do
    bail_if (ltb (length main_data) 4) truncated
    ntuples ← u16_at main_data 2
    multi_insert_tuples block_data desc 0 ntuples

-- ===== src/Tests/Pages.antt =====
-- The theorems on rebuilt pages at concrete inputs.
use open_ltap.Base.{
  ℕ, ◌+◌, ◌%◌, ◌^◌, Bool, true, false, List, [], ◌∷◌, Option, none, some, Bytes, Result, ok, err,
  panic, ◌≡◌, ◌≢◌, ◌↔◌, refl, arith, unsupported, u16_at, get_elem?, length, replicate, map,
}
use open_ltap.Schema.{TableDesc, Col, live, dropped, int4, text}
use open_ltap.Wal.Values.{Value, Row}
use open_ltap.Wal.Toast.{Codecs, ToastCache, no_toast}
use open_ltap.Wal.Tuple.{decode_tuple_from_page}
use open_ltap.Wal.Encode.{encode_attrs}
use open_ltap.Wal.Encode.RoundTrip.{int4_fits}
use open_ltap.Wal.Encode.Rows.{RowFits, no_columns, null_fits, value_fits}
use open_ltap.Reconstruct.{
  Slot, TupleSpec, RawTuple, tuple, raw, redirect, frozen, build_page, from_page, ctid_or,
}
use open_ltap.Reconstruct.Checksum.{pg_checksum_page}
use open_ltap.Reconstruct.RoundTrip.{with_ctid, build_page-from_page}
use open_ltap.Reconstruct.Decode.{DescFits, build_page-decode_tuple_from_page}
use open_ltap.Reconstruct.Stamp.{build_page-pg_checksum_page}
use open_ltap.Reconstruct.Fits.{SlotsFit, build_page_iff}
use open_ltap.Clog.{ClogSource, page_sz}
use open_ltap.Fragment.Emit.{
  RawFragmentRow, emit_page, emit_page_raw, without_raw, emit_page_raw-emit_page,
}

abbrev pub codecs : Codecs
codecs = record {
  lz4_block = λ s n. err unsupported;
  zstd_bulk = λ s n. err unsupported;
  crc32c_append = λ a s. 0;
}

abbrev number : Col
number = record { name = "number"; ty = int4 }

abbrev label : Col
label = record { name = "label"; ty = text }

-- A table with a dropped column between its two.
abbrev pub desc : TableDesc
desc = record {
  name = "t";
  oid = 16384;
  db_oid = 5;
  rel_node = 16384;
  toast_rel_node = none;
  cols = number ∷ label ∷ [];
  phys = live number ∷ dropped (some 4) 4 ∷ live label ∷ [];
  has_fast_defaults = false;
  pk = [];
}

abbrev row : Row
row = some (Value.i32 7) ∷ none ∷ []

abbrev raw_tuple : RawTuple
raw_tuple = record {
  attrs = 7 ∷ 0 ∷ 0 ∷ 0 ∷ 3 ∷ [];
  null_bitmap = 5 ∷ [];
  natts = 3;
  has_varwidth = true;
  xmin = 700;
  xmax = 0;
  ctid = none;
  heap_only = false;
  hot_updated = true;
}

abbrev slots : List Slot
slots = tuple (frozen row) ∷ raw raw_tuple ∷ redirect 1 ∷ []

abbrev value_of : Result Bytes → Bytes
value_of (ok b) = b
value_of _ = []

abbrev page : Bytes
page = value_of (build_page desc 3 8589934600 slots)

is_built : build_page desc 3 8589934600 slots ≡ ok page
unfolding build_page open_ltap.Reconstruct.place_slots open_ltap.Reconstruct.place_slot
    open_ltap.Reconstruct.place_tuple open_ltap.Reconstruct.encode_tuple
    open_ltap.Reconstruct.encode_raw_tuple open_ltap.Reconstruct.heap_header
    open_ltap.Reconstruct.tuple_bytes open_ltap.Reconstruct.infomask
    open_ltap.Reconstruct.infomask2_of open_ltap.Reconstruct.any_dropped
    open_ltap.Reconstruct.any_null open_ltap.Reconstruct.any_varwidth
    open_ltap.Reconstruct.null_bitmap_of open_ltap.Reconstruct.pack_bits
    open_ltap.Reconstruct.byte_of_bits open_ltap.Reconstruct.write_page_header
    open_ltap.Reconstruct.Checksum.put_at open_ltap.Reconstruct.Checksum.pg_checksum_page
    open_ltap.Reconstruct.Checksum.pg_checksum_block open_ltap.Reconstruct.Checksum.mix_rounds
    open_ltap.Reconstruct.Checksum.mix_words open_ltap.Reconstruct.Checksum.mix_zeros
    open_ltap.Reconstruct.Checksum.xor_all open_ltap.Reconstruct.Checksum.mix
    open_ltap.Wal.Encode.Nulls.present_slots encode_attrs open_ltap.Wal.Encode.encode_cols
    open_ltap.Wal.Encode.encode_value open_ltap.Wal.Encode.pad_put frozen
is_built = refl

build_page-from_page_example :
    from_page page 2 ≡ ok (with_ctid raw_tuple (ctid_or raw_tuple.ctid (3, 2)))
build_page-from_page_example =
    build_page-from_page desc 3 8589934600 slots page 1 raw_tuple is_built refl
      (omega arith, omega arith, omega arith, omega arith, omega arith, omega arith)

row_fits : RowFits desc.cols row
row_fits =
    value_fits number (label ∷ []) (Value.i32 7) (none ∷ []) (int4_fits 7 (omega arith))
      (null_fits label [] [] no_columns)

desc_fits : DescFits desc
unfolding open_ltap.Wal.Encode.Nulls.live_cols
desc_fits = (refl, omega arith)

build_page-decode_tuple_from_page_example :
    (attrs : Bytes) × (encode_attrs row desc ≡ ok attrs)
    × (decode_tuple_from_page codecs no_toast page 1 desc ≡ ok (row, attrs))
unfolding frozen
build_page-decode_tuple_from_page_example =
    build_page-decode_tuple_from_page codecs no_toast desc 3 8589934600 slots page 0 (frozen row)
      is_built refl desc_fits row_fits

build_page-pg_checksum_page_example :
    (c : ℕ) × (pg_checksum_page page 3 ≡ ok c) × (u16_at page 8 ≡ ok c) × (c ≢ 0)
build_page-pg_checksum_page_example =
    build_page-pg_checksum_page desc 3 8589934600 slots page is_built

build_page_iff_example :
    ((p : Bytes) × (build_page desc 3 8589934600 slots ≡ ok p)) ↔ SlotsFit desc 3 slots
build_page_iff_example = build_page_iff desc 3 8589934600 slots

-- The same page, with every transaction committed, gives up its two tuples.
abbrev all_committed : ClogSource
all_committed = record { clog_page = λ n. ok (replicate page_sz 85) }

abbrev rows_of : Result (List RawFragmentRow) → List RawFragmentRow
rows_of (ok rs) = rs
rows_of _ = []

abbrev emitted : List RawFragmentRow
emitted = rows_of (emit_page_raw codecs no_toast desc all_committed page 3)

is_emitted : emit_page_raw codecs no_toast desc all_committed page 3 ≡ ok emitted
unfolding build_page open_ltap.Reconstruct.place_slots open_ltap.Reconstruct.place_slot
    open_ltap.Reconstruct.place_tuple open_ltap.Reconstruct.encode_tuple
    open_ltap.Reconstruct.encode_raw_tuple open_ltap.Reconstruct.heap_header
    open_ltap.Reconstruct.tuple_bytes open_ltap.Reconstruct.infomask
    open_ltap.Reconstruct.infomask2_of open_ltap.Reconstruct.any_dropped
    open_ltap.Reconstruct.any_null open_ltap.Reconstruct.any_varwidth
    open_ltap.Reconstruct.null_bitmap_of open_ltap.Reconstruct.pack_bits
    open_ltap.Reconstruct.byte_of_bits open_ltap.Reconstruct.write_page_header
    open_ltap.Reconstruct.Checksum.put_at open_ltap.Reconstruct.Checksum.pg_checksum_page
    open_ltap.Reconstruct.Checksum.pg_checksum_block open_ltap.Reconstruct.Checksum.mix_rounds
    open_ltap.Reconstruct.Checksum.mix_words open_ltap.Reconstruct.Checksum.mix_zeros
    open_ltap.Reconstruct.Checksum.xor_all open_ltap.Reconstruct.Checksum.mix
    open_ltap.Wal.Encode.Nulls.present_slots encode_attrs open_ltap.Wal.Encode.encode_cols
    open_ltap.Wal.Encode.encode_value open_ltap.Wal.Encode.pad_put frozen emit_page_raw
    open_ltap.Fragment.Emit.emit_roots_raw open_ltap.Fragment.check_page
    open_ltap.Fragment.chain_roots open_ltap.Fragment.roots_from open_ltap.Fragment.chain_start
    open_ltap.Fragment.visible_version open_ltap.Fragment.walk open_ltap.Fragment.chain_step
    open_ltap.Fragment.line_pointer open_ltap.Fragment.read_header open_ltap.Clog.tuple_visible
    open_ltap.Clog.resolve open_ltap.Clog.status_in_page open_ltap.Clog.byte_bit
    decode_tuple_from_page open_ltap.Wal.Tuple.decode_tuple_payload open_ltap.Wal.Tuple.columns
    open_ltap.Wal.Tuple.column open_ltap.Wal.Tuple.present_column open_ltap.Wal.Tuple.null_at
    open_ltap.Wal.Tuple.decode_value open_ltap.Wal.Tuple.fixed open_ltap.Wal.Tuple.or_old
    open_ltap.Wal.Tuple.skip_dropped open_ltap.Wal.Heap.tuple_on_page open_ltap.Wal.Heap.tuple_at
    from_page open_ltap.Reconstruct.raw_of_tuple open_ltap.Base.slice? open_ltap.Base.u16_at
    open_ltap.Base.u32_at open_ltap.Base.u8_at open_ltap.Base.index open_ltap.Base.range
    open_ltap.Base.le open_ltap.Base.get? open_ltap.Base.has_bit open_ltap.Base.tail?
    open_ltap.Base.align_to open_ltap.Base.to_le open_ltap.Base.words4
    open_ltap.Wal.Toast.decode_varlena
is_emitted = refl

emit_page_raw-emit_page_example :
    emit_page codecs no_toast desc all_committed page 3 ≡ ok (map without_raw emitted)
emit_page_raw-emit_page_example =
    emit_page_raw-emit_page codecs no_toast desc all_committed page 3 emitted is_emitted

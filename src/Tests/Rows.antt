-- ===== src/Tests/Rows.antt =====
-- The theorems on decoded tuples and on records at concrete inputs, and tests of the decoders.
use open_ltap.Base.{
  ℕ, ◌+◌, ◌-◌, ◌%◌, ◌^◌, Bool, true, false, List, [], ◌∷◌, ◌++◌, Option, none, some, Bytes, Result,
  ok, err, panic, ◌≡◌, refl, arith, unsupported, u16_at, length, replicate, map, take, drop, to_le,
  All,
}
use open_ltap.Wal.Values.{Value, Row}
use open_ltap.Wal.Heap.{vanilla}
use open_ltap.Wal.Toast.{no_toast}
use open_ltap.Wal.Text.{from_utf8_lossy, trim, format_uuid}
use open_ltap.Wal.Numeric.{numeric_to_string, numeric_from_string, numeric_from_binary}
use open_ltap.Wal.Jsonb.{jsonb_to_string}
use open_ltap.Wal.Tuple.{decode_update_new_tuple, decode_multi_insert, decode_tuple_payload}
use open_ltap.Wal.Tuple.Updates.{decode_update_new_tuple-shared}
use open_ltap.Wal.Tuple.Shape.{RowShape, decode_multi_insert-RowShape}
use open_ltap.Tests.Pages.{codecs, desc}

-- An xl_heap_header of two attributes without nulls, and t_hoff 24.
abbrev header : Bytes
header = 2 ∷ 0 ∷ 0 ∷ 8 ∷ 24 ∷ []

abbrev old : Bytes
old = 1 ∷ 2 ∷ 3 ∷ 4 ∷ 5 ∷ 6 ∷ []

decode_update_new_tuple-shared_example :
    decode_update_new_tuple codecs no_toast
      ((to_le 2 1 ++ to_le 2 3) ++ (header ++ ((0 ∷ []) ++ (9 ∷ 8 ∷ []))))
      0x60
      (some old)
      none
      desc
      vanilla
    ≡ decode_update_new_tuple codecs no_toast
        (header ++ ((0 ∷ []) ++ (take 1 old ++ ((9 ∷ 8 ∷ []) ++ drop (length old - 3) old))))
        0
        none
        none
        desc
        vanilla
unfolding open_ltap.Wal.Heap.wal_heap_header
decode_update_new_tuple-shared_example =
    decode_update_new_tuple-shared codecs no_toast desc vanilla header 2 2048 24 none refl refl
      (omega arith) (0 ∷ []) (9 ∷ 8 ∷ []) old 1 3 refl (omega arith) (omega arith) (omega arith)

-- A multi-insert of two tuples with one attribute each.
abbrev block_data : Bytes
block_data =
    5 ∷ 0 ∷ 1 ∷ 0 ∷ 0 ∷ 8 ∷ 24 ∷ 0 ∷ 7 ∷ 0 ∷ 0 ∷ 0 ∷ 5 ∷ 0 ∷ 1 ∷ 0 ∷ 0 ∷ 8 ∷ 24 ∷ 0 ∷ 9 ∷ 0 ∷ 0 ∷ 0
    ∷ []

abbrev two_rows : List (Row × Bytes)
two_rows =
    (some (Value.i32 7) ∷ none ∷ [], 7 ∷ 0 ∷ 0 ∷ 0 ∷ [])
    ∷ (some (Value.i32 9) ∷ none ∷ [], 9 ∷ 0 ∷ 0 ∷ 0 ∷ [])
    ∷ []

two_rows_decode :
    decode_multi_insert codecs no_toast block_data (0 ∷ 0 ∷ 2 ∷ 0 ∷ []) desc ≡ ok two_rows
unfolding decode_multi_insert open_ltap.Wal.Tuple.multi_insert_tuples
    open_ltap.Wal.Tuple.multi_insert_tuple open_ltap.Wal.Tuple.decode_tuple_payload
    open_ltap.Wal.Tuple.columns open_ltap.Wal.Tuple.column open_ltap.Wal.Tuple.present_column
    open_ltap.Wal.Tuple.null_at open_ltap.Wal.Tuple.decode_value open_ltap.Wal.Tuple.fixed
    open_ltap.Wal.Tuple.or_old open_ltap.Wal.Tuple.skip_dropped open_ltap.Base.slice?
    open_ltap.Base.u16_at open_ltap.Base.u8_at open_ltap.Base.index open_ltap.Base.range
    open_ltap.Base.le open_ltap.Base.get? open_ltap.Base.has_bit open_ltap.Base.align_to
two_rows_decode = refl

decode_multi_insert-RowShape_example :
    (u16_at (0 ∷ 0 ∷ 2 ∷ 0 ∷ []) 2 ≡ ok (length two_rows))
    × All (RowShape codecs no_toast desc) two_rows
decode_multi_insert-RowShape_example =
    decode_multi_insert-RowShape codecs no_toast block_data (0 ∷ 0 ∷ 2 ∷ 0 ∷ []) desc two_rows
      two_rows_decode

-- -12.5: on disk in the short form, from its text into the long form, and back.
abbrev minus_twelve_and_a_half : Bytes
minus_twelve_and_a_half = 45 ∷ 49 ∷ 50 ∷ 46 ∷ 53 ∷ []

short_numeric : numeric_to_string (128 ∷ 160 ∷ 12 ∷ 0 ∷ 136 ∷ 19 ∷ []) ≡ ok minus_twelve_and_a_half
unfolding numeric_to_string open_ltap.Wal.Numeric.numeric_fields
    open_ltap.Wal.Numeric.numeric_digits_to_string open_ltap.Wal.Numeric.int_text
    open_ltap.Wal.Numeric.frac_text open_ltap.Wal.Numeric.int_digit open_ltap.Wal.Numeric.frac_digit
    open_ltap.Wal.Numeric.group_digit open_ltap.Wal.Numeric.special_text open_ltap.Base.has_bit
    open_ltap.Base.words2
short_numeric = refl

numeric_text :
    numeric_from_string (32 ∷ (minus_twelve_and_a_half ++ 10 ∷ []))
    ≡ ok (1 ∷ 64 ∷ 0 ∷ 0 ∷ 12 ∷ 0 ∷ 136 ∷ 19 ∷ [])
unfolding numeric_from_string trim open_ltap.Wal.Text.strip_while open_ltap.Wal.Text.white_len
    open_ltap.Wal.Text.white_len_reversed open_ltap.Wal.Text.is_white1 open_ltap.Wal.Text.is_white2
    open_ltap.Wal.Text.is_white3 open_ltap.Wal.Text.reverse_onto open_ltap.Wal.Numeric.ascii_lower
    open_ltap.Wal.Numeric.special_of open_ltap.Wal.Numeric.same_text
    open_ltap.Wal.Numeric.split_sign open_ltap.Wal.Numeric.split_point
    open_ltap.Wal.Numeric.numeric_of_parts open_ltap.Wal.Numeric.all_digits
    open_ltap.Wal.Numeric.groups4 open_ltap.Wal.Numeric.strip_leading
    open_ltap.Wal.Numeric.long_numeric open_ltap.Wal.Numeric.strip_trailing
    open_ltap.Wal.Numeric.drop_zeros open_ltap.Wal.Numeric.all_zero
    open_ltap.Wal.Numeric.words_bytes to_le
numeric_text = refl

long_numeric :
    numeric_to_string (1 ∷ 64 ∷ 0 ∷ 0 ∷ 12 ∷ 0 ∷ 136 ∷ 19 ∷ []) ≡ ok minus_twelve_and_a_half
unfolding numeric_to_string open_ltap.Wal.Numeric.numeric_fields
    open_ltap.Wal.Numeric.numeric_digits_to_string open_ltap.Wal.Numeric.int_text
    open_ltap.Wal.Numeric.frac_text open_ltap.Wal.Numeric.int_digit open_ltap.Wal.Numeric.frac_digit
    open_ltap.Wal.Numeric.group_digit open_ltap.Wal.Numeric.special_text open_ltap.Base.has_bit
    open_ltap.Base.words2
long_numeric = refl

-- 0.0001 has a negative weight.
small_numeric :
    numeric_to_string (4 ∷ 0 ∷ 255 ∷ 255 ∷ 1 ∷ 0 ∷ []) ≡ ok (48 ∷ 46 ∷ 48 ∷ 48 ∷ 48 ∷ 49 ∷ [])
unfolding numeric_to_string open_ltap.Wal.Numeric.numeric_fields
    open_ltap.Wal.Numeric.numeric_digits_to_string open_ltap.Wal.Numeric.int_text
    open_ltap.Wal.Numeric.frac_text open_ltap.Wal.Numeric.int_digit open_ltap.Wal.Numeric.frac_digit
    open_ltap.Wal.Numeric.group_digit open_ltap.Wal.Numeric.special_text open_ltap.Base.has_bit
    open_ltap.Base.words2
small_numeric = refl

-- The array of true and null.
jsonb_array :
    jsonb_to_string (2 ∷ 0 ∷ 0 ∷ 64 ∷ 0 ∷ 0 ∷ 0 ∷ 48 ∷ 0 ∷ 0 ∷ 0 ∷ 64 ∷ [])
    ≡ ok (91 ∷ 116 ∷ 114 ∷ 117 ∷ 101 ∷ 44 ∷ 32 ∷ 110 ∷ 117 ∷ 108 ∷ 108 ∷ 93 ∷ [])
unfolding jsonb_to_string open_ltap.Wal.Jsonb.jsonb_write open_ltap.Wal.Jsonb.ends_from
    open_ltap.Wal.Jsonb.jentry open_ltap.Wal.Jsonb.write_container
    open_ltap.Wal.Jsonb.write_elements open_ltap.Wal.Jsonb.write_value open_ltap.Wal.Jsonb.start_of
    open_ltap.Wal.Jsonb.write_typed open_ltap.Wal.Jsonb.write_pairs
    open_ltap.Wal.Jsonb.numeric_varlena_to_string open_ltap.Wal.Text.write_json_string
    open_ltap.Wal.Text.json_escape_all open_ltap.Wal.Text.json_escape from_utf8_lossy
    open_ltap.Wal.Text.lossy_from open_ltap.Wal.Text.char_at open_ltap.Wal.Text.continuations
    open_ltap.Base.u32_at open_ltap.Base.range open_ltap.Base.slice? open_ltap.Base.le
    open_ltap.Base.has_bit open_ltap.Base.get?
jsonb_array = refl

-- A numeric whose padding reaches past its own end is sliced the wrong way round.
jsonb_padding : jsonb_to_string (2 ∷ 0 ∷ 0 ∷ 64 ∷ 1 ∷ 0 ∷ 0 ∷ 0 ∷ 0 ∷ 0 ∷ 0 ∷ 16 ∷ 65 ∷ []) ≡ panic
unfolding jsonb_to_string open_ltap.Wal.Jsonb.jsonb_write open_ltap.Wal.Jsonb.ends_from
    open_ltap.Wal.Jsonb.jentry open_ltap.Wal.Jsonb.write_container
    open_ltap.Wal.Jsonb.write_elements open_ltap.Wal.Jsonb.write_value open_ltap.Wal.Jsonb.start_of
    open_ltap.Wal.Jsonb.write_typed open_ltap.Wal.Jsonb.write_pairs
    open_ltap.Wal.Jsonb.numeric_varlena_to_string open_ltap.Wal.Text.write_json_string
    open_ltap.Wal.Text.json_escape_all open_ltap.Wal.Text.json_escape from_utf8_lossy
    open_ltap.Wal.Text.lossy_from open_ltap.Wal.Text.char_at open_ltap.Wal.Text.continuations
    open_ltap.Base.u32_at open_ltap.Base.range open_ltap.Base.slice? open_ltap.Base.le
    open_ltap.Base.has_bit open_ltap.Base.get?
jsonb_padding = refl

-- A scalar container that counts no element has no end to look up.
jsonb_empty_scalar : jsonb_to_string (0 ∷ 0 ∷ 0 ∷ 80 ∷ 0 ∷ 0 ∷ 0 ∷ 0 ∷ []) ≡ panic
unfolding jsonb_to_string open_ltap.Wal.Jsonb.jsonb_write open_ltap.Wal.Jsonb.ends_from
    open_ltap.Wal.Jsonb.jentry open_ltap.Wal.Jsonb.write_container
    open_ltap.Wal.Jsonb.write_elements open_ltap.Wal.Jsonb.write_value open_ltap.Wal.Jsonb.start_of
    open_ltap.Wal.Jsonb.write_typed open_ltap.Wal.Jsonb.write_pairs
    open_ltap.Wal.Jsonb.numeric_varlena_to_string open_ltap.Wal.Text.write_json_string
    open_ltap.Wal.Text.json_escape_all open_ltap.Wal.Text.json_escape from_utf8_lossy
    open_ltap.Wal.Text.lossy_from open_ltap.Wal.Text.char_at open_ltap.Wal.Text.continuations
    open_ltap.Base.u32_at open_ltap.Base.range open_ltap.Base.slice? open_ltap.Base.le
    open_ltap.Base.has_bit open_ltap.Base.get?
jsonb_empty_scalar = refl

-- A cut character is one replacement, a stray byte another.
lossy_text :
    from_utf8_lossy (0x41 ∷ 0xE2 ∷ 0x82 ∷ 0x42 ∷ 0xFF ∷ 0xC3 ∷ 0xA9 ∷ [])
    ≡ 0x41 ∷ 0xEF ∷ 0xBF ∷ 0xBD ∷ 0x42 ∷ 0xEF ∷ 0xBF ∷ 0xBD ∷ 0xC3 ∷ 0xA9 ∷ []
unfolding from_utf8_lossy open_ltap.Wal.Text.lossy_from open_ltap.Wal.Text.char_at
    open_ltap.Wal.Text.continuations
lossy_text = refl

-- A null bitmap shorter than the tuple's attributes is indexed out of bounds.
short_bitmap : decode_tuple_payload codecs no_toast (7 ∷ 0 ∷ 0 ∷ 0 ∷ []) 1 1 23 desc none ≡ panic
unfolding decode_tuple_payload open_ltap.Wal.Tuple.columns open_ltap.Wal.Tuple.column
    open_ltap.Wal.Tuple.null_at open_ltap.Base.index open_ltap.Base.get? open_ltap.Base.has_bit
short_bitmap = refl

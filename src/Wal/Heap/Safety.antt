-- ===== src/Wal/Heap/Safety.antt =====
-- The fixed parts of records and the tuples of pages are read inside their bytes.
use open_ltap.Base.{
  ℕ, ◌+◌, ◌-◌, ◌*◌, ◌/◌, ◌%◌, ◌^◌, ◌≤◌, not, Bytes, ok_or, arith, ltb, ltb→le, ◌==◌, length, le,
  slice?, tail?, u8_at, u16_at, truncated, corrupt, has_bit,
}
use open_ltap.Wal.Safe.{
  u16_at-Clean, u8_at-Clean, Clean, Clean-bind, Clean-if, Clean-bail_if, Clean-ok_or,
}
use open_ltap.Wal.Heap.{
  HeapFmt, vanilla, neon, new_off, parse_update_main, offsets_base, offsets_array,
  multi_insert_offsets, tuple_at, tuple_on_page, bits_len, raw_attrs_from_page,
  sizeof_heap_tuple_header,
}

new_off-least : (fmt : HeapFmt) → 12 ≤ new_off fmt
new_off-least vanilla = omega arith
new_off-least neon = omega arith

-- An update's fixed part, in either dialect, is read inside the record's main data.
pub parse_update_main-Clean :
    (main_data : Bytes) (fmt : HeapFmt) → Clean (parse_update_main main_data fmt)
unfolding parse_update_main
parse_update_main-Clean main_data fmt =
    Clean-bail_if (ltb (length main_data) (new_off fmt + 2)) truncated _ (λ q. cc)
      λ e.
        let n : new_off fmt + 2 ≤ length main_data = ltb→le _ _ e in
        let w : 12 ≤ new_off fmt = new_off-least fmt in
        Clean-bind (u16_at main_data 4) _ (u16_at-Clean main_data 4 (omega (arith, n, w))) λ old.
          Clean-bind (u8_at main_data 7) _ (u8_at-Clean main_data 7 (omega (arith, n, w))) λ flags.
            Clean-bind (u16_at main_data (new_off fmt)) _ (u16_at-Clean main_data (new_off fmt) n)
              λ new. tt

tuple_at-Clean : (page : Bytes) (itemid : ℕ) → Clean (tuple_at page itemid)
unfolding tuple_at
tuple_at-Clean page itemid =
    Clean-bail_if (not (itemid / 2 ^ 15 % 4 == 1)) truncated _ (λ q. cc)
      λ normal.
        Clean-bind
          (ok_or (slice? page (itemid % 2 ^ 15) (itemid % 2 ^ 15 + itemid / 2 ^ 17)) truncated) _
          (Clean-ok_or _ truncated (λ q. cc))
          λ tuple.
            Clean-bail_if (ltb (length tuple) sizeof_heap_tuple_header) truncated _ (λ q. cc)
              λ e.
                let n : 23 ≤ length tuple = ltb→le _ _ e in
                Clean-bind (u16_at tuple 18) _ (u16_at-Clean tuple 18 (omega (arith, n))) λ im2.
                  Clean-bind (u16_at tuple 20) _ (u16_at-Clean tuple 20 (omega (arith, n))) λ im.
                    Clean-bind (u8_at tuple 22) _ (u8_at-Clean tuple 22 (omega (arith, n)))
                      λ hoff. tt

tuple_on_page-Clean : (page : Bytes) (offnum : ℕ) → Clean (tuple_on_page page offnum)
unfolding tuple_on_page
tuple_on_page-Clean page offnum =
    Clean-bail_if (offnum == 0) corrupt _ (λ q. cc)
      λ e.
        Clean-bind
          (ok_or (slice? page (24 + (offnum - 1) * 4) (24 + (offnum - 1) * 4 + 4)) truncated) _
          (Clean-ok_or _ truncated (λ q. cc)) λ s. tuple_at-Clean page (le s)

-- Whatever page and offset number, reading a tuple's attributes gives them or one of the source's
-- own errors, and never reads outside the page or the tuple.
pub raw_attrs_from_page-Clean :
    (page : Bytes) (offnum : ℕ) → Clean (raw_attrs_from_page page offnum)
unfolding raw_attrs_from_page
raw_attrs_from_page-Clean page offnum =
    Clean-bind (tuple_on_page page offnum) _ (tuple_on_page-Clean page offnum)
      λ (payload, im2, im, hoff).
        Clean-bind (bits_len hoff) _ (Clean-if (ltb hoff sizeof_heap_tuple_header) _ _ (λ q. cc) tt)
          λ n. Clean-ok_or (tail? payload n) truncated (λ q. cc)

-- The offset numbers of a multi-insert are read inside the record's main data.
pub multi_insert_offsets-Clean :
    (main_data : Bytes) (info : ℕ) (fmt : HeapFmt) → Clean (multi_insert_offsets main_data info fmt)
unfolding multi_insert_offsets offsets_array
multi_insert_offsets-Clean main_data info fmt =
    Clean-bail_if (ltb (length main_data) 4) truncated _ (λ q. cc)
      λ e. Clean-bind (u16_at main_data 2) _ (u16_at-Clean main_data 2 (ltb→le _ _ e)) λ ntuples.
        Clean-if (has_bit info 7) _ _ tt (
          Clean-bind
            (ok_or (slice? main_data (offsets_base fmt) (offsets_base fmt + 2 * ntuples)) truncated)
            _ (Clean-ok_or _ truncated (λ q. cc)) λ arr. tt)

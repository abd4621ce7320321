-- ===== src/Reconstruct/RoundTrip.antt =====
-- A byte-exact tuple read back from a rebuilt page.
use open_ltap.Base.{
  not_==→≡, tail?-drop, u16_at, u32_at, u8_at, ℕ, ◌+◌, ◌*◌, ◌/◌, ◌^◌, ◌%◌, ◌≤◌, ◌<◌, List, some,
  Bytes, ok, false, not, ◌≡◌, refl, sym, ap, subst, ◌∙◌, ◌==◌, ltb, le→ltb, length, get_elem?,
  bail_ok, corrupt, arith, slice?, has_bit, if◌then◌else◌, tail?,
}
use open_ltap.Schema.{TableDesc}
use open_ltap.Reconstruct.{
  Slot, raw, RawTuple, build_page, encode_raw_tuple, raw_of_tuple, from_page, infomask,
  infomask2_of, maxalign, bitmap_bytes, ctid_or, tuple_bytes, heap_header,
}
use open_ltap.Reconstruct.Header.{
  infomask-bits, infomask2_of-bits, length-tup, tup-xmin, tup-xmax, tup-blk_hi, tup-blk_lo, tup-off,
  tup-im2, tup-im, tup-hoff, tup-attrs, tup-bitmap,
}
use open_ltap.Reconstruct.Tuples.{build_page-raw, line_pointer-TupleAt}

-- The fields fit their widths, and t_hoff its byte.
abbrev pub RawTupleFits : RawTuple → ℕ → ℕ → Type 0
RawTupleFits rt block offnum =
    (rt.natts < 2 ^ 11)
    × (length rt.null_bitmap ≤ 225)
    × (rt.xmin < 2 ^ 32)
    × (rt.xmax < 2 ^ 32)
    × ((ctid_or rt.ctid (block, offnum)).0 < 2 ^ 32)
    × ((ctid_or rt.ctid (block, offnum)).1 < 2 ^ 16)

-- The tuple with the ctid that it stands under.
abbrev pub with_ctid : RawTuple → ℕ × ℕ → RawTuple
with_ctid rt c = record {
  attrs = rt.attrs;
  null_bitmap = rt.null_bitmap;
  natts = rt.natts;
  has_varwidth = rt.has_varwidth;
  xmin = rt.xmin;
  xmax = rt.xmax;
  ctid = some c;
  heap_only = rt.heap_only;
  hot_updated = rt.hot_updated;
}

-- `raw_of_tuple` by what it reads.
raw_of_tuple-reads :
    (t bitmap attrs : Bytes) (hi lo off im2 im hoff xmin xmax : ℕ)
    → 23 ≤ length t
    → u16_at t 12 ≡ ok hi
    → u16_at t 14 ≡ ok lo
    → u16_at t 16 ≡ ok off
    → u16_at t 18 ≡ ok im2
    → u16_at t 20 ≡ ok im
    → u8_at t 22 ≡ ok hoff
    → slice? t 23 (23 + (if has_bit im 0 then bitmap_bytes (im2 % 2 ^ 11) else 0)) ≡ some bitmap
    → tail? t hoff ≡ some attrs
    → u32_at t 0 ≡ ok xmin
    → u32_at t 4 ≡ ok xmax
    → raw_of_tuple t
      ≡ ok (record {
        attrs = attrs;
        null_bitmap = bitmap;
        natts = im2 % 2 ^ 11;
        has_varwidth = has_bit im 1;
        xmin = xmin;
        xmax = xmax;
        ctid = some (hi * 2 ^ 16 + lo, off);
        heap_only = has_bit im2 15;
        hot_updated = has_bit im2 14;
      })
unfolding raw_of_tuple
raw_of_tuple-reads t bitmap attrs hi lo off im2 im hoff xmin xmax long h1 h2 h3 h4 h5 h6 h7 h8 h9
      h10 =
    let enough : ltb (length t) 23 ≡ false = le→ltb (length t) 23 long in
    rw (enough, h1, h2, h3, h4, h5, h6, h7, h8, h9, h10) refl

encode_raw_tuple-raw_of_tuple :
    (block offnum : ℕ) (rt : RawTuple) (bytes : Bytes)
    → RawTupleFits rt block offnum
    → encode_raw_tuple block offnum rt ≡ ok bytes
    → raw_of_tuple bytes ≡ ok (with_ctid rt (ctid_or rt.ctid (block, offnum)))
unfolding encode_raw_tuple
encode_raw_tuple-raw_of_tuple block offnum rt bytes fits h =
    let (natts_fits, short, xmin_fits, xmax_fits, blk_fits, off_fits) = fits in
    let n = length rt.null_bitmap in
    let has_nulls = not (n == 0) in
    let expected = if has_nulls then bitmap_bytes rt.natts else 0 in
    let (len, h1) = bail_ok (not (n == expected)) corrupt h in
    let c = ctid_or rt.ctid (block, offnum) in
    let im = infomask rt.xmin rt.xmax has_nulls rt.has_varwidth in
    let im2 = infomask2_of rt.natts rt.heap_only rt.hot_updated in
    let hoff = maxalign (23 + n) in
    let (im_fits, im_nulls, im_var) = infomask-bits rt.xmin rt.xmax has_nulls rt.has_varwidth in
    let (im2_fits, im2_natts, im2_only, im2_hot) =
      infomask2_of-bits rt.natts rt.heap_only rt.hot_updated natts_fits in
    let t = tuple_bytes (heap_header rt.xmin rt.xmax c im2 im hoff) rt.null_bitmap rt.attrs in
    let is : t ≡ bytes = cc in
    let long : length t ≡ hoff + length rt.attrs =
      length-tup rt.xmin rt.xmax c.0 c.1 im2 im hoff rt.null_bitmap rt.attrs in
    let halves : c.0 / 2 ^ 16 * 2 ^ 16 + c.0 % 2 ^ 16 ≡ c.0 = omega arith in
    let bitmap_len : expected ≡ n = sym (not_==→≡ n expected len) in
    let width : (if has_bit im 0 then bitmap_bytes (im2 % 2 ^ 11) else 0) ≡ n =
      rw (im_nulls, im2_natts) bitmap_len in
    let bitmap_at : slice? t 23 (23 + (if has_bit im 0 then bitmap_bytes (im2 % 2 ^ 11) else 0))
        ≡ some rt.null_bitmap =
      ap (λ k. slice? t 23 (23 + k)) width
      ∙ tup-bitmap rt.xmin rt.xmax c.0 c.1 im2 im hoff rt.null_bitmap rt.attrs in
    let attrs_at : tail? t hoff ≡ some rt.attrs =
      tail?-drop t hoff (omega arith)
      ∙ ap some (tup-attrs rt.xmin rt.xmax c.0 c.1 im2 im hoff rt.null_bitmap rt.attrs) in
    let reads =
      raw_of_tuple-reads t rt.null_bitmap rt.attrs (c.0 / 2 ^ 16) (c.0 % 2 ^ 16) c.1 im2 im hoff
        rt.xmin rt.xmax (omega arith)
        (tup-blk_hi rt.xmin rt.xmax c.0 c.1 im2 im hoff rt.null_bitmap rt.attrs blk_fits)
        (tup-blk_lo rt.xmin rt.xmax c.0 c.1 im2 im hoff rt.null_bitmap rt.attrs)
        (tup-off rt.xmin rt.xmax c.0 c.1 im2 im hoff rt.null_bitmap rt.attrs off_fits)
        (tup-im2 rt.xmin rt.xmax c.0 c.1 im2 im hoff rt.null_bitmap rt.attrs im2_fits)
        (tup-im rt.xmin rt.xmax c.0 c.1 im2 im hoff rt.null_bitmap rt.attrs im_fits)
        (tup-hoff rt.xmin rt.xmax c.0 c.1 im2 im hoff rt.null_bitmap rt.attrs (omega arith))
        bitmap_at attrs_at
        (tup-xmin rt.xmin rt.xmax c.0 c.1 im2 im hoff rt.null_bitmap rt.attrs xmin_fits)
        (tup-xmax rt.xmin rt.xmax c.0 c.1 im2 im hoff rt.null_bitmap rt.attrs xmax_fits) in
    let read : raw_of_tuple t ≡ ok (with_ctid rt c) =
      reads ∙ rw (im2_natts, im_var, im2_only, im2_hot, halves) refl in
    subst (λ b. raw_of_tuple b ≡ ok (with_ctid rt c)) is read

-- A byte-exact tuple placed by `build_page` at an offset number is the one that `from_page` reads
-- there, its ctid filled in when it had none.
pub build_page-from_page :
    (desc : TableDesc) (block lsn : ℕ) (slots : List Slot) (page : Bytes) (k : ℕ) (rt : RawTuple)
    → build_page desc block lsn slots ≡ ok page
    → get_elem? slots k ≡ some (raw rt)
    → RawTupleFits rt block (k + 1)
    → from_page page (k + 1) ≡ ok (with_ctid rt (ctid_or rt.ctid (block, k + 1)))
unfolding from_page
build_page-from_page desc block lsn slots page k rt h found fits =
    let (bytes, enc, at) = build_page-raw desc block lsn slots page k rt h found in
    let pointer = line_pointer-TupleAt page k bytes at in
    rw (pointer, at.3) (encode_raw_tuple-raw_of_tuple block (k + 1) rt bytes fits enc)

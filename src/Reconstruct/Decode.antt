-- ===== src/Reconstruct/Decode.antt =====
-- A row encoded into a tuple, and the row that `decode_tuple_from_page` reads back from the page.
use open_ltap.Base.{
  drop-drop, ℕ, ◌+◌, ◌-◌, ◌^◌, ◌%◌, ◌≤◌, List, [], ◌++◌, some, none, Bytes, ok, Bool, false, not,
  ◌||◌, ◌≡◌, refl, sym, ap, subst, ◌∙◌, ◌==◌, ltb, le→ltb, length, take, drop, get_elem?, bail_ok,
  bind_ok, corrupt, arith, has_bit, append-nil, length-drop, replicate, u16_at, u8_at,
}
use native.Mathlib.Nat.{zero-add}
use open_ltap.Schema.{TableDesc}
use open_ltap.Wal.Values.{Row}
use open_ltap.Wal.Toast.{Codecs, ToastCache}
use open_ltap.Wal.Tuple.{decode_tuple_payload, decode_tuple_from_page, columns}
use open_ltap.Wal.Encode.{encode_attrs, encode_cols}
use open_ltap.Wal.Encode.Nulls.{live_cols}
use open_ltap.Wal.Encode.Rows.{Suffix, RowFits, encode_cols-columns, present_slots-ok}
use open_ltap.Reconstruct.{
  Slot, tuple, TupleSpec, build_page, encode_tuple, infomask, infomask2_of, maxalign, ctid_or,
  tuple_bytes, heap_header, any_dropped, any_null, any_varwidth, null_bitmap_of,
}
use open_ltap.Reconstruct.Header.{
  infomask-bits, infomask2_of-bits, length-tup, tup-im2, tup-im, tup-hoff, tup-attrs, tup-payload,
}
use open_ltap.Reconstruct.Rows.{
  tuple_on_page-TupleAt, null_bitmap_of-NullsAt, length-null_bitmap_of,
}
use open_ltap.Reconstruct.Tuples.{build_page-tuple}

-- A descriptor whose live slots are its columns, within PostgreSQL's limit of attributes.
abbrev pub DescFits : TableDesc → Type 0
DescFits desc = (live_cols desc.phys ≡ desc.cols) × (length desc.phys ≤ 1664)

-- The parts of an encoded tuple.
abbrev pub Encoded : TableDesc → ℕ × ℕ → TupleSpec → Bytes → Type 0
Encoded desc self spec t =
    let has_nulls = any_dropped desc.phys || any_null spec.row in
    (attrs : Bytes) × (bitmap : Bytes) × (encode_attrs spec.row desc ≡ ok attrs)
    × (null_bitmap_of has_nulls desc spec.row ≡ ok bitmap)
    × (t
        ≡ tuple_bytes
            (heap_header spec.xmin spec.xmax (ctid_or spec.ctid self)
              (infomask2_of (length desc.phys) spec.heap_only spec.hot_updated)
              (infomask spec.xmin spec.xmax has_nulls (any_varwidth desc.cols spec.row))
              (maxalign (23 + length bitmap)))
            bitmap attrs)

encode_tuple-Encoded :
    (desc : TableDesc) (block offnum : ℕ) (spec : TupleSpec) (t : Bytes)
    → encode_tuple desc block offnum spec ≡ ok t
    → Encoded desc (block, offnum) spec t
unfolding encode_tuple
encode_tuple-Encoded desc block offnum spec t h =
    let has_nulls = any_dropped desc.phys || any_null spec.row in
    let (_, h1) = bail_ok (not (length spec.row == length desc.cols)) corrupt h in
    let (attrs, e, h2) = bind_ok (encode_attrs spec.row desc) h1 in
    let (bitmap, e1, h3) = bind_ok (null_bitmap_of has_nulls desc spec.row) h2 in
    (attrs, bitmap, e, e1, cc)

module _ (codecs : Codecs) (toast : ToastCache) where
  pub decode_tuple_payload-columns :
      (bytes : Bytes) (im2 im hoff natts : ℕ) (has_nulls : Bool) (desc : TableDesc) (row : Row)
      → im2 % 2 ^ 11 ≡ natts
      → has_bit im 0 ≡ has_nulls
      → natts ≤ length desc.phys
      → 23 ≤ hoff
      → hoff - 23 ≤ length bytes
      → columns codecs toast has_nulls
          (take (hoff - 23) bytes)
          natts
          (drop (hoff - 23) bytes)
          none
          0
          0
          0
          desc.phys
        ≡ ok row
      → decode_tuple_payload codecs toast bytes im2 im hoff desc none
        ≡ ok (row, drop (hoff - 23) bytes)
  unfolding decode_tuple_payload
  decode_tuple_payload-columns bytes im2 im hoff natts has_nulls desc row e1 e2 a b c d =
      let known : ltb (length desc.phys) natts ≡ false = le→ltb (length desc.phys) natts a in
      let header : ltb hoff 23 ≡ false = le→ltb hoff 23 b in
      let room : ltb (length bytes) (hoff - 23) ≡ false = le→ltb (length bytes) (hoff - 23) c in
      rw (e1, e2, known, header, room, d) refl

  -- A tuple whose header leads the decoder to a row and its attribute bytes.
  abbrev pub Readable : TableDesc → Row → Bytes → Bytes → Type 0
  Readable desc row attrs t =
      (im2 : ℕ) × (im : ℕ) × (hoff : ℕ) × (23 ≤ length t)
      × (u16_at t 18 ≡ ok im2)
      × (u16_at t 20 ≡ ok im)
      × (u8_at t 22 ≡ ok hoff)
      × (decode_tuple_payload codecs toast (drop 23 t) im2 im hoff desc none ≡ ok (row, attrs))

  -- The columns of an encoded row, by its null bitmap with the padding after it.
  pub encode_attrs-columns :
      (desc : TableDesc) (row : Row) (attrs bitmap rest : Bytes) (n : ℕ)
      → let has_nulls = any_dropped desc.phys || any_null row in
        DescFits desc
        → RowFits desc.cols row
        → encode_attrs row desc ≡ ok attrs
        → null_bitmap_of has_nulls desc row ≡ ok bitmap
        → length bitmap ≤ n
        → columns codecs toast has_nulls
            (take n (bitmap ++ rest))
            (length desc.phys)
            attrs
            none
            0
            0
            0
            desc.phys
          ≡ ok row
  unfolding encode_attrs
  encode_attrs-columns desc row attrs bitmap rest n (same_cols, limit) fits e e1 len =
      let has_nulls = any_dropped desc.phys || any_null row in
      let fits' = subst (λ cols. RowFits cols row) (sym same_cols) fits in
      let (present, p) = present_slots-ok desc.phys row fits' in
      let nulls = null_bitmap_of-NullsAt desc row bitmap rest n present e1 p len in
      let whole : Suffix row 0 row = λ m. ap (get_elem? row) (zero-add m) in
      let (_, decoded) =
        encode_cols-columns codecs toast desc.phys row row 0 0 (length desc.phys) 0 [] attrs
          has_nulls (take n (bitmap ++ rest)) none present fits' whole
          (subst (λ cols. encode_cols row 0 [] cols ≡ ok attrs) (sym same_cols) e) p nulls
          (omega arith) [] in
      subst
        (λ o.
          columns codecs toast has_nulls (take n (bitmap ++ rest)) (length desc.phys) o none 0 0 0
            desc.phys
          ≡ ok row)
        (append-nil attrs) decoded

  pub Encoded-Readable :
      (desc : TableDesc) (self : ℕ × ℕ) (spec : TupleSpec) (t : Bytes)
      (enc : Encoded desc self spec t)
      → DescFits desc
      → RowFits desc.cols spec.row
      → Readable desc spec.row enc.0 t
  unfolding tuple_bytes
  Encoded-Readable desc self spec t enc desc_fits fits =
      let (attrs, bitmap, e, e1, is) = enc in
      let has_nulls = any_dropped desc.phys || any_null spec.row in
      let c = ctid_or spec.ctid self in
      let limit = desc_fits.1 in
      let im2 = infomask2_of (length desc.phys) spec.heap_only spec.hot_updated in
      let im = infomask spec.xmin spec.xmax has_nulls (any_varwidth desc.cols spec.row) in
      let hoff = maxalign (23 + length bitmap) in
      let (im_fits, im_nulls, _) =
        infomask-bits spec.xmin spec.xmax has_nulls (any_varwidth desc.cols spec.row) in
      let (im2_fits, im2_natts, _, _) =
        infomask2_of-bits (length desc.phys) spec.heap_only spec.hot_updated (omega arith) in
      let whole = tuple_bytes (heap_header spec.xmin spec.xmax c im2 im hoff) bitmap attrs in
      let long : length whole ≡ hoff + length attrs =
        length-tup spec.xmin spec.xmax c.0 c.1 im2 im hoff bitmap attrs in
      let narrow : length bitmap ≤ 208 =
        length-null_bitmap_of has_nulls desc spec.row bitmap limit e1 in
      let n = hoff - 23 in
      let behind : 23 + n ≡ hoff = omega arith in
      let rest = replicate {A = ℕ} (hoff - (23 + length bitmap)) 0 ++ attrs in
      let payload : drop 23 whole ≡ bitmap ++ rest =
        tup-payload spec.xmin spec.xmax c.0 c.1 im2 im hoff bitmap attrs 0 in
      let attrs_at : drop n (drop 23 whole) ≡ attrs =
        drop-drop n 23 whole
        ∙ ap (λ k. drop k whole) behind
        ∙ tup-attrs spec.xmin spec.xmax c.0 c.1 im2 im hoff bitmap attrs in
      let row_is : columns codecs toast has_nulls (take n (drop 23 whole)) (length desc.phys)
            (drop n (drop 23 whole)) none 0 0 0 desc.phys
          ≡ ok spec.row =
        rw (attrs_at, payload)
          (encode_attrs-columns desc spec.row attrs bitmap rest n desc_fits fits e e1
            (omega arith)) in
      let room = length-drop 23 whole in
      let decoded =
        decode_tuple_payload-columns (drop 23 whole) im2 im hoff (length desc.phys) has_nulls desc
          spec.row im2_natts im_nulls (omega arith) (omega arith) (omega arith) row_is in
      subst (Readable desc spec.row attrs) (sym is) (
        im2,
        im,
        hoff,
        omega arith,
        tup-im2 spec.xmin spec.xmax c.0 c.1 im2 im hoff bitmap attrs im2_fits,
        tup-im spec.xmin spec.xmax c.0 c.1 im2 im hoff bitmap attrs im_fits,
        tup-hoff spec.xmin spec.xmax c.0 c.1 im2 im hoff bitmap attrs (omega arith),
        decoded ∙ ap (λ a. ok (spec.row, a)) attrs_at,
      )

  -- A row placed by `build_page` at an offset number is the row that `decode_tuple_from_page` reads
  -- there, with the attribute bytes of `encode_attrs`.
  pub build_page-decode_tuple_from_page :
      (desc : TableDesc) (block lsn : ℕ) (slots : List Slot) (page : Bytes) (k : ℕ)
      (spec : TupleSpec)
      → build_page desc block lsn slots ≡ ok page
      → get_elem? slots k ≡ some (tuple spec)
      → DescFits desc
      → RowFits desc.cols spec.row
      → (attrs : Bytes) × (encode_attrs spec.row desc ≡ ok attrs)
        × (decode_tuple_from_page codecs toast page (k + 1) desc ≡ ok (spec.row, attrs))
  unfolding decode_tuple_from_page
  build_page-decode_tuple_from_page desc block lsn slots page k spec h found desc_fits fits =
      let (t, e, at) = build_page-tuple desc block lsn slots page k spec h found in
      let enc = encode_tuple-Encoded desc block (k + 1) spec t e in
      let (im2, im, hoff, long, r1, r2, r3, decoded) =
        Encoded-Readable desc (block, k + 1) spec t enc desc_fits fits in
      let read = tuple_on_page-TupleAt page k t im2 im hoff at long r1 r2 r3 in
      (enc.0, enc.2, rw read decoded)

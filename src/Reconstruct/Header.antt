-- ===== src/Reconstruct/Header.antt =====
-- The fields of a synthesized tuple header, read back.
use open_ltap.Base.{
  ℕ, ◌+◌, ◌-◌, ◌/◌, ◌^◌, ◌%◌, ◌<◌, [], ◌++◌, Bytes, ok, Bool, true, false, ◌≡◌, refl, ◌==◌, length,
  take, drop, to_le, le-to_le_two, le-to_le_four, arith, u16_at, u32_at, u8_at, u16_at-take,
  u32_at-take, has_bit, length-append, replicate, length-replicate, drop-append_ge, take-append_le,
  take_all, le-to_le_low, slice?, slice?-take, some, ◌∙◌, ap, index, get?,
}
use open_ltap.Reconstruct.{
  flag, infomask, infomask2_of, heap_header, tuple_bytes, maxalign, frozen_xid,
}

flags-bits :
    (a b c d : Bool)
    → let m = flag a 0x800 + flag b 0x300 + flag c 0x1 + flag d 0x2 in
      (m < 2 ^ 16) × (has_bit m 0 ≡ c) × (has_bit m 1 ≡ d)
unfolding has_bit
flags-bits true true true true = (omega arith, refl, refl)
flags-bits true true true false = (omega arith, refl, refl)
flags-bits true true false true = (omega arith, refl, refl)
flags-bits true true false false = (omega arith, refl, refl)
flags-bits true false true true = (omega arith, refl, refl)
flags-bits true false true false = (omega arith, refl, refl)
flags-bits true false false true = (omega arith, refl, refl)
flags-bits true false false false = (omega arith, refl, refl)
flags-bits false true true true = (omega arith, refl, refl)
flags-bits false true true false = (omega arith, refl, refl)
flags-bits false true false true = (omega arith, refl, refl)
flags-bits false true false false = (omega arith, refl, refl)
flags-bits false false true true = (omega arith, refl, refl)
flags-bits false false true false = (omega arith, refl, refl)
flags-bits false false false true = (omega arith, refl, refl)
flags-bits false false false false = (omega arith, refl, refl)

pub infomask-bits :
    (xmin xmax : ℕ) (has_nulls has_varwidth : Bool)
    → let m = infomask xmin xmax has_nulls has_varwidth in
      (m < 2 ^ 16) × (has_bit m 0 ≡ has_nulls) × (has_bit m 1 ≡ has_varwidth)
unfolding infomask
infomask-bits xmin xmax has_nulls has_varwidth =
    flags-bits (xmax == 0) (xmin == frozen_xid) has_nulls has_varwidth

pub infomask2_of-bits :
    (natts : ℕ) (heap_only hot : Bool)
    → natts < 2 ^ 11
    → let m = infomask2_of natts heap_only hot in
      (m < 2 ^ 16) × (m % 2 ^ 11 ≡ natts) × (has_bit m 15 ≡ heap_only) × (has_bit m 14 ≡ hot)
unfolding has_bit infomask2_of
infomask2_of-bits natts true true h = (omega arith, omega arith, ground arith, ground arith)
infomask2_of-bits natts true false h = (omega arith, omega arith, ground arith, ground arith)
infomask2_of-bits natts false true h = (omega arith, omega arith, ground arith, ground arith)
infomask2_of-bits natts false false h = (omega arith, omega arith, ground arith, ground arith)

module _ (xmin xmax blk off im2 im hoff : ℕ) (bitmap attrs : Bytes) where
  abbrev pub tup : Bytes
  tup = tuple_bytes (heap_header xmin xmax (blk, off) im2 im hoff) bitmap attrs

  pub length-tup : length tup ≡ maxalign (23 + length bitmap) + length attrs
  unfolding tuple_bytes heap_header to_le
  length-tup =
      let gap = maxalign (23 + length bitmap) - (23 + length bitmap) in
      let pad = replicate {A = ℕ} gap 0 in
      omega (
        arith,
        length-append bitmap (pad ++ attrs),
        length-append pad attrs,
        length-replicate {A = ℕ} gap 0,
      )

  pub tup-xmin : xmin < 2 ^ 32 → u32_at tup 0 ≡ ok xmin
  unfolding tuple_bytes heap_header
  tup-xmin h =
      let long = length-tup in
      u32_at-take tup 0 (to_le 4 xmin) (omega arith) refl ∙ ap ok (le-to_le_four xmin h)

  pub tup-xmax : xmax < 2 ^ 32 → u32_at tup 4 ≡ ok xmax
  unfolding tuple_bytes heap_header
  tup-xmax h =
      let long = length-tup in
      u32_at-take tup 4 (to_le 4 xmax) (omega arith) refl ∙ ap ok (le-to_le_four xmax h)

  pub tup-blk_hi : blk < 2 ^ 32 → u16_at tup 12 ≡ ok (blk / 2 ^ 16)
  unfolding tuple_bytes heap_header
  tup-blk_hi h =
      let long = length-tup in
      u16_at-take tup 12 (to_le 2 (blk / 2 ^ 16)) (omega arith) refl
      ∙ ap ok (le-to_le_two (blk / 2 ^ 16) (omega arith))

  pub tup-blk_lo : u16_at tup 14 ≡ ok (blk % 2 ^ 16)
  unfolding tuple_bytes heap_header
  tup-blk_lo =
      let long = length-tup in
      u16_at-take tup 14 (to_le 2 blk) (omega arith) refl ∙ ap ok (le-to_le_low blk)

  pub tup-off : off < 2 ^ 16 → u16_at tup 16 ≡ ok off
  unfolding tuple_bytes heap_header
  tup-off h =
      let long = length-tup in
      u16_at-take tup 16 (to_le 2 off) (omega arith) refl ∙ ap ok (le-to_le_two off h)

  pub tup-im2 : im2 < 2 ^ 16 → u16_at tup 18 ≡ ok im2
  unfolding tuple_bytes heap_header
  tup-im2 h =
      let long = length-tup in
      u16_at-take tup 18 (to_le 2 im2) (omega arith) refl ∙ ap ok (le-to_le_two im2 h)

  pub tup-im : im < 2 ^ 16 → u16_at tup 20 ≡ ok im
  unfolding tuple_bytes heap_header
  tup-im h =
      let long = length-tup in
      u16_at-take tup 20 (to_le 2 im) (omega arith) refl ∙ ap ok (le-to_le_two im h)

  pub tup-hoff : hoff < 2 ^ 8 → u8_at tup 22 ≡ ok hoff
  unfolding tuple_bytes heap_header u8_at index get? to_le
  tup-hoff h = let small : hoff % 256 ≡ hoff = omega arith in ap ok small

  -- Behind the header: the bitmap, and at t_hoff the attributes.
  pub tup-payload : (n : ℕ) → drop (23 + n) tup ≡ drop n (tuple_bytes [] bitmap attrs)
  unfolding tuple_bytes heap_header to_le
  tup-payload n =
      drop-append_ge (heap_header xmin xmax (blk, off) im2 im hoff) (tuple_bytes [] bitmap attrs)
        (23 + n) n refl

  pub tup-attrs : drop (maxalign (23 + length bitmap)) tup ≡ attrs
  unfolding tuple_bytes
  tup-attrs =
      let n = maxalign (23 + length bitmap) - 23 in
      let pad = maxalign (23 + length bitmap) - (23 + length bitmap) in
      let split : maxalign (23 + length bitmap) ≡ 23 + n = omega arith in
      let zeros = replicate {A = ℕ} pad 0 in
      let z = length-replicate {A = ℕ} pad 0 in
      ap (λ m. drop m tup) split
      ∙ tup-payload n
      ∙ drop-append_ge bitmap (zeros ++ attrs) n pad (omega arith)
      ∙ drop-append_ge zeros attrs pad 0 (omega arith)

  pub tup-bitmap : slice? tup 23 (23 + length bitmap) ≡ some bitmap
  unfolding tuple_bytes
  tup-bitmap =
      let long = length-tup in
      let pad = maxalign (23 + length bitmap) - (23 + length bitmap) in
      let zeros = replicate {A = ℕ} pad 0 in
      slice?-take tup 23 (length bitmap) (omega arith)
      ∙ ap (λ t. some (take (length bitmap) t)) (tup-payload 0)
      ∙ ap some (
          take-append_le (length bitmap) bitmap (zeros ++ attrs) (omega arith)
          ∙ take_all (length bitmap) bitmap refl)

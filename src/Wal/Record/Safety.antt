-- ===== src/Wal/Record/Safety.antt =====
-- `parse_record` reads inside the record, whatever the record holds.
use open_ltap.Base.{
  ℕ, zero, suc, ◌-◌, ◌≤◌, Bool, true, false, not, List, [], ◌∷◌, Option, none, some, Bytes, ◌≡◌,
  inl, inr, arith, ltb, leb, ◌==◌, Bool-cases, tests, length, take, drop, length-drop, ltb→le, le,
  range, u8_at, u32_at, has_bit,
}
use open_ltap.Wal.Safe.{
  u32_at-Clean, u8_at-Clean, range-in, range-Clean, Clean, Eats, Eats-mono, Eats-then, Eats-bind,
  Eats-if, Eats-Clean, Clean-bind,
}
use open_ltap.Wal.Reader.{rec_hdr_len}
use open_ltap.Wal.Toast.{Codecs}
use open_ltap.Wal.Record.{
  RelTag, take_n, word, ImageHdr, HdrBlock, hole_length, image_hdr, image_if, rel_tag, block_hdr,
  Headers, no_headers, main_hdr, block_item, passed, header_item, headers, image_of, data_of,
  data_section, check_crc, parse_record, compress_bits,
}

-- The bound check is what keeps the slice inside the cursor.
take_n-Eats : (c : Bytes) (n : ℕ) → Eats c (take_n c n)
unfolding take_n
take_n-Eats c n = elim (Bool-cases (ltb (length c) n)) [
  | inl e ↦ rw e (λ q. cc)
  | inr e ↦
      rw (e, range-in c 0 n (omega arith) (ltb→le (length c) n e)) (omega (arith, length-drop n c))
]

word-Eats : (width : ℕ) (c : Bytes) → Eats c (word width c)
unfolding word
word-Eats width c = Eats-bind c (take_n c width) _ (take_n-Eats c width) (λ b d. omega arith)

hole_length-Eats :
    (bimg_info image_len : ℕ) (c : Bytes) → Eats c (hole_length bimg_info image_len c)
unfolding hole_length
hole_length-Eats bimg_info image_len c =
    Eats-if c (not (has_bit bimg_info 0)) _ _ (omega arith)
      (Eats-if c (compress_bits bimg_info == 0) _ _ (omega arith) (word-Eats 2 c))

image_hdr-Eats : (c : Bytes) → Eats c (image_hdr c)
unfolding image_hdr
image_hdr-Eats c = Eats-bind c (word 2 c) _ (word-Eats 2 c) λ image_len c1.
    Eats-bind c1 (word 2 c1) _ (word-Eats 2 c1) λ hole_offset c2.
      Eats-bind c2 (word 1 c2) _ (word-Eats 1 c2) λ bimg_info c3.
        Eats-bind c3 (hole_length bimg_info image_len c3) _
          (hole_length-Eats bimg_info image_len c3) λ hole_len c4. omega arith

image_if-Eats : (b : Bool) (c : Bytes) → Eats c (image_if b c)
unfolding image_if
image_if-Eats false c = omega arith
image_if-Eats true c = Eats-bind c (image_hdr c) _ (image_hdr-Eats c) λ hdr c1. omega arith

rel_tag-Eats : (b : Bool) (prev : Option RelTag) (c : Bytes) → Eats c (rel_tag b prev c)
unfolding rel_tag
rel_tag-Eats true none c = λ q. cc
rel_tag-Eats true (some tag) c = omega arith
rel_tag-Eats false prev c = Eats-bind c (word 4 c) _ (word-Eats 4 c) λ spc c1.
    Eats-bind c1 (word 4 c1) _ (word-Eats 4 c1)
      λ db c2. Eats-bind c2 (word 4 c2) _ (word-Eats 4 c2) λ rel c3. omega arith

block_hdr-Eats : (id : ℕ) (prev : Option RelTag) (c : Bytes) → Eats c (block_hdr id prev c)
unfolding block_hdr
block_hdr-Eats id prev c = Eats-bind c (word 1 c) _ (word-Eats 1 c) λ fork_flags c1.
    Eats-bind c1 (word 2 c1) _ (word-Eats 2 c1) λ data_len c2.
      Eats-bind c2 (image_if (has_bit fork_flags 4) c2) _ (image_if-Eats (has_bit fork_flags 4) c2)
        λ image c3.
          Eats-bind c3 (rel_tag (has_bit fork_flags 7) prev c3) _
            (rel_tag-Eats (has_bit fork_flags 7) prev c3)
            λ rel c4. Eats-bind c4 (word 4 c4) _ (word-Eats 4 c4) λ blkno c5. omega arith

main_hdr-Eats : (width : ℕ) (h : Headers) (c : Bytes) → Eats c (main_hdr width h c)
unfolding main_hdr
main_hdr-Eats width h c = Eats-bind c (word width c) _ (word-Eats width c) λ n c1. omega arith

block_item-Eats : (id : ℕ) (h : Headers) (c : Bytes) → Eats c (block_item id h c)
unfolding block_item
block_item-Eats id h c =
    Eats-bind c (block_hdr id h.prev_rel c) _ (block_hdr-Eats id h.prev_rel c) λ b c1. omega arith

passed-Eats : (n : ℕ) (h : Headers) (c : Bytes) → Eats c (passed n h c)
unfolding passed
passed-Eats n h c = Eats-bind c (take_n c n) _ (take_n-Eats c n) λ b c1. omega arith

header_item-Eats : (block_id : ℕ) (h : Headers) (c : Bytes) → Eats c (header_item block_id h c)
unfolding header_item
header_item-Eats block_id h c = Eats-if c (block_id == 255) _ _ (main_hdr-Eats 1 h c) (
    Eats-if c (block_id == 254) _ _ (main_hdr-Eats 4 h c) (
      Eats-if c (block_id == 253) _ _ (passed-Eats 2 h c) (
        Eats-if c (block_id == 252) _ _ (passed-Eats 4 h c)
          (Eats-if c (leb block_id 32) _ _ (block_item-Eats block_id h c) (λ q. cc)))))

-- As many rounds as there are bytes are enough.
headers-Eats : (fuel : ℕ) (h : Headers) (c : Bytes) → length c ≤ fuel → Eats c (headers fuel h c)
unfolding headers word take_n
headers-Eats zero h c n = elim (Bool-cases (ltb h.datatotal (length c))) [
  | inl e ↦ absurd (omega (tests, e, n))
  | inr e ↦ rw e (omega arith)
]
headers-Eats (suc fuel) h c n = elim (Bool-cases (ltb h.datatotal (length c))) [
  | inl e ↦
      let more : ltb (length c) 1 ≡ false = ground arith in
      let first = range-in c 0 1 (omega arith) (ltb→le (length c) 1 more) in
      let c1 : Bytes = drop 1 c in
      rw (e, more, first)
        (Eats-mono c c1 _ (omega (arith, length-drop 1 c)) (
          Eats-then c1 (header_item (le (take (1 - 0) (drop 0 c))) h c1) _
            (header_item-Eats (le (take (1 - 0) (drop 0 c))) h c1)
            λ h' c2 q. headers-Eats fuel h' c2 (omega (tests, n, q, e, length-drop 1 c))))
  | inr e ↦ rw e (omega arith)
]

image_of-Eats : (h : Option ImageHdr) (c : Bytes) → Eats c (image_of h c)
unfolding image_of
image_of-Eats none c = omega arith
image_of-Eats (some h) c =
    Eats-bind c (take_n c h.image_len) _ (take_n-Eats c h.image_len) λ bytes c1. omega arith

data_of-Eats : (n : Option ℕ) (c : Bytes) → Eats c (data_of n c)
unfolding data_of
data_of-Eats none c = omega arith
data_of-Eats (some n) c = take_n-Eats c n

data_section-Eats : (hbs : List HdrBlock) (c : Bytes) → Eats c (data_section hbs c)
unfolding data_section
data_section-Eats [] c = omega arith
data_section-Eats (hb ∷ hbs) c =
    Eats-bind c (image_of hb.image c) _ (image_of-Eats hb.image c) λ image c1.
      Eats-bind c1 (data_of hb.data_len c1) _ (data_of-Eats hb.data_len c1) λ bytes c2.
        Eats-bind c2 (data_section hbs c2) _ (data_section-Eats hbs c2) λ blocks c3. omega arith

check_crc-Clean : (codecs : Codecs) (rec : Bytes) → 24 ≤ length rec → Clean (check_crc codecs rec)
unfolding check_crc
check_crc-Clean codecs rec h =
    Clean-bind (u32_at rec 20) _ (u32_at-Clean rec 20 (omega (arith, h))) λ stored.
      Clean-bind (range rec rec_hdr_len (length rec)) _
        (range-Clean rec rec_hdr_len (length rec) h (omega arith))
        λ rest.
          Clean-bind (range rec 0 20) _ (range-Clean rec 0 20 (omega arith) (omega (arith, h)))
            λ header.
              elim (Bool-cases
                (codecs.crc32c_append (codecs.crc32c_append 0 rest) header == stored)) [
                  | inl e ↦ rw e tt
                  | inr e ↦ rw e (λ q. cc)
                ]

-- Whatever the bytes, `parse_record` gives a record or one of the source's own errors: no slice is
-- out of range, and its loop ends.
pub parse_record-Clean : (codecs : Codecs) (rec : Bytes) → Clean (parse_record codecs rec)
unfolding parse_record
parse_record-Clean codecs rec = elim (Bool-cases (ltb (length rec) rec_hdr_len)) [
  | inl e ↦ rw e (λ q. cc)
  | inr e ↦
      let n : 24 ≤ length rec = ltb→le _ _ e in
      rw e (
        Clean-bind (u32_at rec 4) _ (u32_at-Clean rec 4 (omega (arith, n))) λ xid.
          Clean-bind (u8_at rec 16) _ (u8_at-Clean rec 16 (omega (arith, n))) λ info.
            Clean-bind (u8_at rec 17) _ (u8_at-Clean rec 17 (omega (arith, n))) λ rmid.
              Clean-bind (check_crc codecs rec) _ (check_crc-Clean codecs rec n) λ u.
                Clean-bind (headers (length rec) no_headers (drop rec_hdr_len rec)) _
                  (Eats-Clean (drop rec_hdr_len rec) _ (
                    headers-Eats (length rec) no_headers (drop rec_hdr_len rec)
                      (omega (arith, length-drop rec_hdr_len rec))))
                  λ hc.
                    Clean-bind (data_section hc.0.hdr_blocks hc.1) _
                      (Eats-Clean hc.1 _ (data_section-Eats hc.0.hdr_blocks hc.1))
                      λ bc.
                        Clean-bind (take_n bc.1 hc.0.main_len) _
                          (Eats-Clean bc.1 _ (take_n-Eats bc.1 hc.0.main_len)) λ m. tt)
]

-- ===== src/Wal/Record.antt =====
-- src/wal/mod.rs, `parse_record` and `PageImage::restore`: a record's header, its block references
-- and their data. A `Cursor` is what is left of the record.
pub mod Safety
use open_ltap.Base.{
  ℕ, zero, suc, ◌+◌, ◌-◌, ◌*◌, ◌/◌, ◌%◌, ◌^◌, Bool, true, false, not, ◌||◌, List, [], ◌∷◌, ◌++◌,
  Option, none, some, Bytes, Result, ok, err, ◌>>=◌, ◌>>◌, bail_if, ok_or, leb, ltb, ◌==◌,
  if◌then◌else◌, length, take, drop, replicate, le, range, u8_at, u32_at, has_bit, truncated,
  corrupt, unsupported, crc_mismatch, out_of_fuel,
}
use open_ltap.Wal.Reader.{rec_hdr_len}
use open_ltap.Wal.Pglz.{pglz_decompress}
use open_ltap.Wal.Toast.{Codecs, lz4_decompress}

abbrev pub xlog_blcksz : ℕ
xlog_blcksz = 8192

pub record RelTag : Type 0 where
  pub spc : ℕ
  pub db : ℕ
  pub rel : ℕ

pub record PageImage : Type 0 where
  pub image_data : Bytes
  pub hole_offset : ℕ
  pub hole_len : ℕ
  pub bimg_info : ℕ

pub record BlockRef : Type 0 where
  pub id : ℕ
  pub rel : RelTag
  pub blkno : ℕ
  pub image : Option PageImage
  pub block_data : Bytes

pub record Record : Type 0 where
  pub xid : ℕ
  pub rmid : ℕ
  pub info : ℕ
  pub blocks : List BlockRef
  pub main_data : Bytes

-- `bimg_info & BKPIMAGE_COMPRESS_MASK`, of which pglz is 0x04, lz4 0x08 and zstd 0x10.
abbrev pub compress_bits : ℕ → ℕ
compress_bits bimg_info = bimg_info / 4 % 8 * 4

-- The body around the hole, which is zero.
unfoldable pub with_hole : Bytes → ℕ → ℕ → Result Bytes
with_hole body hole_off hole_len = do
  bail_if (not (length body + hole_len == xlog_blcksz) || ltb xlog_blcksz (hole_off + hole_len))
      corrupt
  ok (take hole_off body ++ replicate hole_len 0 ++ drop hole_off body)

-- The first `n` bytes of a cursor, and the rest: `Cursor::take`, whose slice is checked.
unfoldable pub take_n : Bytes → ℕ → Result (Bytes × Bytes)
unfolding range
take_n c n = do bail_if (ltb (length c) n) truncated; s ← range c 0 n; ok (s, drop n c)

-- `Cursor::u8`, `u16` and `u32`, by the width.
unfoldable pub word : ℕ → Bytes → Result (ℕ × Bytes)
unfolding take_n le
word width c = do (b, c') ← take_n c width; ok (le b, c')

-- `HdrBlock`: an image has its length, and the fields of `PageImage` but the data.
pub record ImageHdr : Type 0 where
  pub image_len : ℕ
  pub hole_offset : ℕ
  pub hole_len : ℕ
  pub bimg_info : ℕ

pub record HdrBlock : Type 0 where
  pub id : ℕ
  pub rel : RelTag
  pub blkno : ℕ
  pub image : Option ImageHdr
  pub data_len : Option ℕ

-- The hole's length. A raw image implies it; `XLOG_BLCKSZ - image_len` wraps, and `as u16` keeps
-- the low bits.
unfoldable pub hole_length : ℕ → ℕ → Bytes → Result (ℕ × Bytes)
unfolding word has_bit
hole_length bimg_info image_len c =
    if not (has_bit bimg_info 0)
    then ok (0, c)
    else if compress_bits bimg_info == 0
    then ok ((xlog_blcksz + 2 ^ 64 - image_len) % 2 ^ 16, c)
    else word 2 c

unfoldable pub image_hdr : Bytes → Result (ImageHdr × Bytes)
unfolding word hole_length
image_hdr c = do
  (image_len, c1) ← word 2 c
  (hole_offset, c2) ← word 2 c1
  (bimg_info, c3) ← word 1 c2
  (hole_len, c4) ← hole_length bimg_info image_len c3
  ok (
    record {
      image_len = image_len;
      hole_offset = hole_offset;
      hole_len = hole_len;
      bimg_info = bimg_info;
    },
    c4,
  )

-- `if has_image`.
unfoldable pub image_if : Bool → Bytes → Result (Option ImageHdr × Bytes)
unfolding image_hdr
image_if false c = ok (none, c)
image_if true c = do (hdr, c') ← image_hdr c; ok (some hdr, c')

-- BKPBLOCK_SAME_REL takes the previous block's relation.
unfoldable pub rel_tag : Bool → Option RelTag → Bytes → Result (RelTag × Bytes)
unfolding word
rel_tag true prev c = do tag ← ok_or prev corrupt; ok (tag, c)
rel_tag false prev c = do
  (spc, c1) ← word 4 c
  (db, c2) ← word 4 c1
  (rel, c3) ← word 4 c2
  ok (record { spc = spc; db = db; rel = rel }, c3)

abbrev pub image_bytes : Option ImageHdr → ℕ
image_bytes none = 0
image_bytes (some h) = h.image_len

abbrev pub data_bytes : Option ℕ → ℕ
data_bytes none = 0
data_bytes (some n) = n

-- The header of a block. BKPBLOCK_HAS_IMAGE, HAS_DATA and SAME_REL are bits 4, 5 and 7.
unfoldable pub block_hdr : ℕ → Option RelTag → Bytes → Result (HdrBlock × Bytes)
unfolding word has_bit image_if rel_tag
block_hdr id prev c = do
  (fork_flags, c1) ← word 1 c
  (data_len, c2) ← word 2 c1
  (image, c3) ← image_if (has_bit fork_flags 4) c2
  (rel, c4) ← rel_tag (has_bit fork_flags 7) prev c3
  (blkno, c5) ← word 4 c4
  ok (
    record {
      id = id;
      rel = rel;
      blkno = blkno;
      image = image;
      data_len = if has_bit fork_flags 5 then some data_len else none;
    },
    c5,
  )

-- The variables of the header loop.
pub record Headers : Type 0 where
  pub hdr_blocks : List HdrBlock
  pub main_len : ℕ
  pub datatotal : ℕ
  pub prev_rel : Option RelTag

abbrev pub no_headers : Headers
no_headers = record { hdr_blocks = []; main_len = 0; datatotal = 0; prev_rel = none }

abbrev pub with_main : ℕ → Headers → Headers
with_main n h = record h { main_len = n; datatotal = h.datatotal + n }

abbrev pub with_block : HdrBlock → Headers → Headers
with_block b h = record h {
  hdr_blocks = h.hdr_blocks ++ b ∷ [];
  datatotal = h.datatotal + image_bytes b.image + data_bytes b.data_len;
  prev_rel = some b.rel;
}

unfoldable pub main_hdr : ℕ → Headers → Bytes → Result (Headers × Bytes)
unfolding word
main_hdr width h c = do (n, c') ← word width c; ok (with_main n h, c')

unfoldable pub block_item : ℕ → Headers → Bytes → Result (Headers × Bytes)
unfolding block_hdr
block_item id h c = do (b, c') ← block_hdr id h.prev_rel c; ok (with_block b h, c')

unfoldable pub passed : ℕ → Headers → Bytes → Result (Headers × Bytes)
unfolding take_n
passed n h c = do (_, c') ← take_n c n; ok (h, c')

-- The match on the block id.
unfoldable pub header_item : ℕ → Headers → Bytes → Result (Headers × Bytes)
unfolding main_hdr block_item passed
header_item block_id h c =
    if block_id == 255
    then main_hdr 1 h c
    else if block_id == 254
    then main_hdr 4 h c
    else if block_id == 253
    then passed 2 h c
    else if block_id == 252
    then passed 4 h c
    else if leb block_id 32
    then block_item block_id h c
    else err corrupt

-- `while c.remaining() > datatotal`: a round reads at least the block id, so as many rounds as
-- there are bytes are enough.
unfoldable pub headers : ℕ → Headers → Bytes → Result (Headers × Bytes)
unfolding header_item word
headers zero h c = if ltb h.datatotal (length c) then err out_of_fuel else ok (h, c)
headers (suc fuel) h c =
    let rest = (do
      (block_id, c1) ← word 1 c
      (h', c2) ← header_item block_id h c1
      headers fuel h' c2) in
    if ltb h.datatotal (length c) then rest else ok (h, c)

unfoldable pub image_of : Option ImageHdr → Bytes → Result (Option PageImage × Bytes)
unfolding take_n
image_of none c = ok (none, c)
image_of (some h) c = do
  (bytes, c') ← take_n c h.image_len
  ok (
    some (record {
      image_data = bytes;
      hole_offset = h.hole_offset;
      hole_len = h.hole_len;
      bimg_info = h.bimg_info;
    }),
    c',
  )

unfoldable pub data_of : Option ℕ → Bytes → Result (Bytes × Bytes)
unfolding take_n
data_of none c = ok ([], c)
data_of (some n) c = take_n c n

-- The data section, block by block.
unfoldable pub data_section : List HdrBlock → Bytes → Result (List BlockRef × Bytes)
unfolding image_of data_of
data_section [] c = ok ([], c)
data_section (hb ∷ hbs) c = do
  (image, c1) ← image_of hb.image c
  (bytes, c2) ← data_of hb.data_len c1
  (blocks, c3) ← data_section hbs c2
  ok (
    record { id = hb.id; rel = hb.rel; blkno = hb.blkno; image = image; block_data = bytes }
        ∷ blocks,
    c3,
  )

module _ (codecs : Codecs) where
  unfoldable pub image_body : PageImage → ℕ → Result Bytes
  image_body img raw =
      let m = compress_bits img.bimg_info in
      if m == 0
      then ok img.image_data
      else if m == 4
      then pglz_decompress img.image_data raw
      else if m == 8
      then lz4_decompress codecs img.image_data raw
      else if m == 16
      then codecs.zstd_bulk img.image_data raw
      else err unsupported

  -- `XLOG_BLCKSZ - hole_len` wraps.
  unfoldable pub restore : PageImage → Result Bytes
  unfolding image_body with_hole
  restore img = do
    body ← image_body img ((xlog_blcksz + (2 ^ 64 - img.hole_len)) % 2 ^ 64)
    with_hole body img.hole_offset img.hole_len

  -- The CRC takes in the body, and then the header up to the CRC itself.
  unfoldable pub check_crc : Bytes → Result (Unit {0})
  unfolding u32_at range
  check_crc rec = do
    stored_crc ← u32_at rec 20
    rest ← range rec rec_hdr_len (length rec)
    header ← range rec 0 20
    let crc = codecs.crc32c_append (codecs.crc32c_append 0 rest) header
    bail_if (not (crc == stored_crc)) crc_mismatch

  unfoldable pub parse_record : Bytes → Result Record
  unfolding check_crc u32_at u8_at headers data_section take_n
  parse_record rec = do
    bail_if (ltb (length rec) rec_hdr_len) truncated
    xid ← u32_at rec 4
    info ← u8_at rec 16
    rmid ← u8_at rec 17
    check_crc rec
    (h, c) ← headers (length rec) no_headers (drop rec_hdr_len rec)
    (blocks, c') ← data_section h.hdr_blocks c
    (main_data, _) ← take_n c' h.main_len
    ok (record { xid = xid; rmid = rmid; info = info; blocks = blocks; main_data = main_data })

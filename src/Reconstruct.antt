-- ===== src/Reconstruct.antt =====
-- src/reconstruct.rs: a heap page rebuilt from rows and from byte-exact tuples.
pub mod Checksum
pub mod Writes
pub mod Placement
pub mod Stamp
pub mod Header
pub mod Tuples
pub mod RoundTrip
pub mod Bitmap
pub mod Rows
pub mod Decode
pub mod Capacity
pub mod Writable
pub mod Fits
use open_ltap.Base.{
  ℕ, zero, suc, ◌+◌, ◌-◌, ◌*◌, ◌/◌, ◌%◌, ◌^◌, Bool, true, false, not, ◌&&◌, ◌||◌, List, [], ◌∷◌,
  ◌++◌, Option, none, some, Bytes, Result, ok, err, panic, ◌>>=◌, ◌>>◌, bail_if, ok_or, or_panic,
  ltb, leb, ◌==◌, if◌then◌else◌, length, take, drop, replicate, slice?, tail?, to_le, u16_at,
  u32_at, u8_at, has_bit, truncated, corrupt, unsupported,
}
use open_ltap.Schema.{PgType, PhysCol, live, dropped, Col, TableDesc, text, bytea}
use open_ltap.Wal.Values.{Value, Row}
use open_ltap.Wal.Encode.{encode_attrs}
use open_ltap.Wal.Encode.Nulls.{is_null, present_slots}
use open_ltap.Reconstruct.Checksum.{put_at, pg_checksum_page}
use open_ltap.Fragment.{line_pointer, heap_tuple_header_size}

abbrev pub page_size : ℕ
page_size = 8192

abbrev pub frozen_xid : ℕ
frozen_xid = 2

abbrev pub maxalign : ℕ → ℕ
maxalign n = (n + 7) / 8 * 8

-- `natts.div_ceil(8)`.
abbrev pub bitmap_bytes : ℕ → ℕ
bitmap_bytes natts = (natts + 7) / 8

-- `ctid` none is the tuple itself.
pub record TupleSpec : Type 0 where
  pub row : Row
  pub xmin : ℕ
  pub xmax : ℕ
  pub ctid : Option (ℕ × ℕ)
  pub heap_only : Bool
  pub hot_updated : Bool

-- `TupleSpec::frozen`.
unfoldable pub frozen : Row → TupleSpec
frozen row = record {
  row = row;
  xmin = frozen_xid;
  xmax = 0;
  ctid = none;
  heap_only = false;
  hot_updated = false;
}

pub record RawTuple : Type 0 where
  pub attrs : Bytes
  pub null_bitmap : Bytes
  pub natts : ℕ
  pub has_varwidth : Bool
  pub xmin : ℕ
  pub xmax : ℕ
  pub ctid : Option (ℕ × ℕ)
  pub heap_only : Bool
  pub hot_updated : Bool

-- HEAP_HASNULL is bit 0 of t_infomask, HEAP_HASVARWIDTH bit 1; HEAP_HOT_UPDATED is bit 14 of
-- t_infomask2, HEAP_ONLY_TUPLE bit 15.
unfoldable pub raw_of_tuple : Bytes → Result RawTuple
raw_of_tuple tup = do
  bail_if (ltb (length tup) heap_tuple_header_size) truncated
  bi_hi ← u16_at tup 12
  bi_lo ← u16_at tup 14
  ctid_off ← u16_at tup 16
  im2 ← u16_at tup 18
  im ← u16_at tup 20
  hoff ← u8_at tup 22
  let natts = im2 % 2 ^ 11
  let bitmap_len = if has_bit im 0 then bitmap_bytes natts else 0
  bitmap ← ok_or (slice? tup heap_tuple_header_size (heap_tuple_header_size + bitmap_len)) truncated
  attrs ← ok_or (tail? tup hoff) truncated
  xmin ← u32_at tup 0
  xmax ← u32_at tup 4
  ok (record {
    attrs = attrs;
    null_bitmap = bitmap;
    natts = natts;
    has_varwidth = has_bit im 1;
    xmin = xmin;
    xmax = xmax;
    ctid = some (bi_hi * 2 ^ 16 + bi_lo, ctid_off);
    heap_only = has_bit im2 15;
    hot_updated = has_bit im2 14;
  })

-- `RawTuple::from_page`.
unfoldable pub from_page : Bytes → ℕ → Result RawTuple
unfolding line_pointer slice?
from_page page offnum = do
  lp ← line_pointer page offnum
  bail_if (not (lp.flags == 1)) corrupt
  tup ← ok_or (slice? page lp.off (lp.off + lp.len)) truncated
  raw_of_tuple tup

pub data Slot : Type 0 where
  tuple : TupleSpec → Slot
  raw : RawTuple → Slot
  unused dead : Slot
  redirect : ℕ → Slot

abbrev pub flag : Bool → ℕ → ℕ
flag b bit = if b then bit else 0

-- HEAP_XMAX_INVALID is 0x800, HEAP_XMIN_FROZEN 0x300.
unfoldable pub infomask : ℕ → ℕ → Bool → Bool → ℕ
infomask xmin xmax has_nulls has_varwidth =
    flag (xmax == 0) 0x800
    + flag (xmin == frozen_xid) 0x300
    + flag has_nulls 0x1
    + flag has_varwidth 0x2

unfoldable pub infomask2_of : ℕ → Bool → Bool → ℕ
infomask2_of natts heap_only hot_updated =
    natts % 2 ^ 11 + flag heap_only 0x8000 + flag hot_updated 0x4000

-- The block of the ctid stands high half first.
unfoldable pub heap_header : ℕ → ℕ → ℕ × ℕ → ℕ → ℕ → ℕ → Bytes
unfolding to_le
heap_header xmin xmax (ctid_block, ctid_off) im2 im hoff =
    to_le 4 xmin
    ++ to_le 4 xmax
    ++ to_le 4 0
    ++ to_le 2 (ctid_block / 2 ^ 16)
    ++ to_le 2 ctid_block
    ++ to_le 2 ctid_off
    ++ to_le 2 im2
    ++ to_le 2 im
    ++ to_le 1 hoff

abbrev pub ctid_or : Option (ℕ × ℕ) → ℕ × ℕ → ℕ × ℕ
ctid_or none self = self
ctid_or (some c) self = c

-- A header, a null bitmap, zeros up to t_hoff, and the attributes.
unfoldable pub tuple_bytes : Bytes → Bytes → Bytes → Bytes
tuple_bytes header bitmap attrs =
    let padding = maxalign (23 + length bitmap) - (23 + length bitmap) in
    header ++ (bitmap ++ (replicate padding 0 ++ attrs))

unfoldable pub encode_raw_tuple : ℕ → ℕ → RawTuple → Result Bytes
encode_raw_tuple block offnum rt = do
  let has_nulls = not (length rt.null_bitmap == 0)
  let expected = if has_nulls then bitmap_bytes rt.natts else 0
  bail_if (not (length rt.null_bitmap == expected)) corrupt
  let im2 = infomask2_of rt.natts rt.heap_only rt.hot_updated
  let im = infomask rt.xmin rt.xmax has_nulls rt.has_varwidth
  let hoff = maxalign (23 + length rt.null_bitmap)
  let header = heap_header rt.xmin rt.xmax (ctid_or rt.ctid (block, offnum)) im2 im hoff
  ok (tuple_bytes header rt.null_bitmap rt.attrs)

abbrev pub is_dropped : PhysCol → Bool
is_dropped (live col) = false
is_dropped (dropped attlen align) = true

unfoldable pub any_dropped : List PhysCol → Bool
any_dropped [] = false
any_dropped (pc ∷ pcs) = is_dropped pc || any_dropped pcs

unfoldable pub any_null : Row → Bool
any_null [] = false
any_null (v ∷ row) = is_null v || any_null row

abbrev pub is_varwidth : PgType → Bool
is_varwidth text = true
is_varwidth bytea = true
is_varwidth _ = false

-- A text or bytea column with a value.
unfoldable pub any_varwidth : List Col → Row → Bool
any_varwidth (col ∷ cols) (v ∷ row) = not (is_null v) && is_varwidth col.ty || any_varwidth cols row
any_varwidth _ _ = false

unfoldable pub byte_of_bits : List Bool → ℕ
byte_of_bits [] = 0
byte_of_bits (b ∷ bs) = flag b 1 + 2 * byte_of_bits bs

-- `n` zeroed bytes with bit `i % 8` of byte `i / 8` set for every slot `i` that is present.
unfoldable pub pack_bits : ℕ → List Bool → Bytes
unfolding byte_of_bits
pack_bits zero bits = []
pack_bits (suc n) bits = byte_of_bits (take 8 bits) ∷ pack_bits n (drop 8 bits)

unfoldable pub null_bitmap_of : Bool → TableDesc → Row → Result Bytes
null_bitmap_of has_nulls desc row =
    if has_nulls
    then (do
      bits ← present_slots desc.phys row
      ok (pack_bits (bitmap_bytes (length desc.phys)) bits))
    else ok []

unfoldable pub encode_tuple : TableDesc → ℕ → ℕ → TupleSpec → Result Bytes
encode_tuple desc block offnum spec = do
  bail_if (not (length spec.row == length desc.cols)) corrupt
  attrs ← encode_attrs spec.row desc
  let has_nulls = any_dropped desc.phys || any_null spec.row
  let im2 = infomask2_of (length desc.phys) spec.heap_only spec.hot_updated
  let im = infomask spec.xmin spec.xmax has_nulls (any_varwidth desc.cols spec.row)
  bitmap ← null_bitmap_of has_nulls desc spec.row
  let hoff = maxalign (23 + length bitmap)
  let header = heap_header spec.xmin spec.xmax (ctid_or spec.ctid (block, offnum)) im2 im hoff
  ok (tuple_bytes header bitmap attrs)

-- The page, its pd_upper, and the item id of the tuple. LP_NORMAL is 1.
unfoldable pub place_tuple : Bytes → ℕ → ℕ → Bytes → Result (Bytes × ℕ × ℕ)
place_tuple page pd_upper pd_lower tup = do
  let slot_size = maxalign (length tup)
  bail_if (ltb pd_upper (pd_lower + slot_size)) corrupt
  let upper = pd_upper - slot_size
  written ← put_at page upper tup
  ok (written, upper, upper + 2 ^ 15 + length tup * 2 ^ 17)

-- What a slot puts on the page, and its item id. LP_REDIRECT is 2, LP_DEAD 3.
unfoldable pub place_slot : TableDesc → ℕ → ℕ → ℕ → Bytes → ℕ → Slot → Result (Bytes × ℕ × ℕ)
place_slot desc block pd_lower offnum page upper (tuple spec) = do
  tup ← encode_tuple desc block offnum spec
  place_tuple page upper pd_lower tup
place_slot desc block pd_lower offnum page upper (raw rt) = do
  tup ← encode_raw_tuple block offnum rt
  place_tuple page upper pd_lower tup
place_slot desc block pd_lower offnum page upper unused = ok (page, upper, 0)
place_slot desc block pd_lower offnum page upper dead = ok (page, upper, 3 * 2 ^ 15)
place_slot desc block pd_lower offnum page upper (redirect target) = do
  bail_if (target == 0) corrupt
  ok (page, upper, target + 2 * 2 ^ 15)

-- The loop over the slots from index `i` on.
unfoldable pub place_slots : TableDesc → ℕ → ℕ → ℕ → Bytes → ℕ → List Slot → Result (Bytes × ℕ)
unfolding to_le
place_slots desc block pd_lower i page upper [] = ok (page, upper)
place_slots desc block pd_lower i page upper (slot ∷ slots) = do
  (placed, lower_upper, itemid) ← place_slot desc block pd_lower ((i + 1) % 2 ^ 16) page upper slot
  written ← put_at placed (24 + i * 4) (to_le 4 itemid)
  place_slots desc block pd_lower (i + 1) written lower_upper slots

-- pd_lsn high half first, pd_lower, pd_upper, pd_special, and the size with the layout version.
unfoldable pub write_page_header : Bytes → ℕ → ℕ → ℕ → Result Bytes
unfolding to_le
write_page_header page lsn pd_lower pd_upper = do
  a ← put_at page 0 (to_le 4 (lsn / 2 ^ 32))
  b ← put_at a 4 (to_le 4 lsn)
  c ← put_at b 12 (to_le 2 pd_lower)
  d ← put_at c 14 (to_le 2 pd_upper)
  e ← put_at d 16 (to_le 2 page_size)
  put_at e 18 (to_le 2 (page_size + 4))

unfoldable pub build_page : TableDesc → ℕ → ℕ → List Slot → Result Bytes
unfolding to_le
build_page desc block lsn slots = do
  let pd_lower = 24 + length slots * 4
  bail_if (ltb page_size pd_lower) corrupt
  (filled, pd_upper) ← place_slots desc block pd_lower 0 (replicate page_size 0) page_size slots
  page ← write_page_header filled lsn pd_lower pd_upper
  checksum ← pg_checksum_page page block
  put_at page 8 (to_le 2 checksum)

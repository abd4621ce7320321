-- ===== src/Wal/Heap.antt =====
-- src/wal/heap.rs: opcodes, and the fixed parts of heap, transaction and storage records. A mask
-- of adjoining bits is written by division, one bit by `has_bit`.

pub mod Safety
use open_ltap.Base.{
  ℕ, zero, suc, ◌+◌, ◌-◌, ◌*◌, ◌/◌, ◌%◌, ◌^◌, not, List, [], ◌∷◌, Option, none, some, Bytes, Result,
  ok, err, ◌>>=◌, ◌>>◌, bail_if, ok_or, ltb, ◌==◌, if◌then◌else◌, length, le, slice?, u8_at, u16_at,
  u32_at, has_bit, words2, words4, usize_of_i32, truncated, corrupt, tail?, drop,
}

-- `crate::wal::rmgr`.
abbrev pub rmgr_xact : ℕ
rmgr_xact = 1

abbrev pub rmgr_smgr : ℕ
rmgr_smgr = 2

abbrev pub rmgr_heap2 : ℕ
rmgr_heap2 = 9

abbrev pub rmgr_heap : ℕ
rmgr_heap = 10

abbrev pub rmgr_neon : ℕ
rmgr_neon = 134

pub data HeapFmt : Type 0 where
  vanilla neon : HeapFmt

-- `info & XLOG_HEAP_OPMASK`, and the same mask for transaction records.
abbrev pub opcode : ℕ → ℕ
opcode info = info / 16 % 8 * 16

abbrev pub heap_insert : ℕ
heap_insert = 0x00

abbrev pub heap_delete : ℕ
heap_delete = 0x10

abbrev pub heap_update : ℕ
heap_update = 0x20

abbrev pub heap_hot_update : ℕ
heap_hot_update = 0x40

abbrev pub heap2_multi_insert : ℕ
heap2_multi_insert = 0x50

abbrev pub neon_heap_hot_update : ℕ
neon_heap_hot_update = 0x30

-- (rmid, opcode, dialect). Neon's other opcodes have the vanilla numbers.
unfoldable pub normalize_dml : ℕ → ℕ → Option (ℕ × ℕ × HeapFmt)
normalize_dml rmid info =
    let raw_op = opcode info in
    if rmid == rmgr_neon
    then (if raw_op == heap_insert
        then some (rmgr_heap, heap_insert, neon)
        else if raw_op == heap_delete
        then some (rmgr_heap, heap_delete, neon)
        else if raw_op == heap_update
        then some (rmgr_heap, heap_update, neon)
        else if raw_op == neon_heap_hot_update
        then some (rmgr_heap, heap_hot_update, neon)
        else if raw_op == heap2_multi_insert
        then some (rmgr_heap2, heap2_multi_insert, neon)
        else none)
    else some (rmid, raw_op, vanilla)

abbrev pub header_len : HeapFmt → ℕ
header_len vanilla = 5
header_len neon = 9

-- (t_infomask2, t_infomask, t_hoff, header length).
unfoldable pub wal_heap_header : Bytes → HeapFmt → Result (ℕ × ℕ × ℕ × ℕ)
unfolding slice? u16_at u8_at
wal_heap_header b fmt = do
  let len = header_len fmt
  hdr ← ok_or (slice? b 0 len) truncated
  t_infomask2 ← u16_at hdr 0
  t_infomask ← u16_at hdr 2
  t_hoff ← u8_at hdr (len - 1)
  ok (t_infomask2, t_infomask, t_hoff, len)

-- XLOG_XACT_HAS_INFO is 0x80; XACT_XINFO_HAS_DBINFO and XACT_XINFO_HAS_SUBXACTS are bits 0 and 1.
abbrev pub xact_commit : ℕ
xact_commit = 0x00

abbrev pub xact_abort : ℕ
xact_abort = 0x20

-- The subxact list at `off`. The count is an `i32` taken `as usize`, and `usize` arithmetic wraps.
unfoldable pub subxacts_at : Bytes → ℕ → Result (List ℕ)
unfolding slice? le words4
subxacts_at main_data off = do
  n_bytes ← ok_or (slice? main_data off (off + 4)) truncated
  let n = usize_of_i32 (le n_bytes)
  xids_bytes ← ok_or (slice? main_data (off + 4) ((off + 4 + 4 * n) % 2 ^ 64)) truncated
  ok (words4 xids_bytes)

unfoldable pub parse_xact_subxacts : ℕ → Bytes → Result (List ℕ)
unfolding slice? le has_bit subxacts_at
parse_xact_subxacts info main_data = if not (has_bit info 7) then ok [] else do
  xinfo_bytes ← ok_or (slice? main_data 8 12) truncated
  let xinfo = le xinfo_bytes
  if not (has_bit xinfo 1)
      then ok []
      else subxacts_at main_data (if has_bit xinfo 0 then 20 else 12)

-- (database, relfilenode) of a main fork's creation.
unfoldable pub parse_smgr_create : Bytes → Result (Option (ℕ × ℕ))
unfolding u32_at
parse_smgr_create main_data = do
  bail_if (ltb (length main_data) 16) truncated
  db ← u32_at main_data 4
  rel ← u32_at main_data 8
  fork ← u32_at main_data 12
  ok (if fork == 0 then some (db, rel) else none)

unfoldable pub delete_offnum : Bytes → Result ℕ
unfolding slice? le
delete_offnum main_data = do s ← ok_or (slice? main_data 4 6) truncated; ok (le s)

pub record UpdateInfo : Type 0 where
  pub old_offnum : ℕ
  pub new_offnum : ℕ
  pub flags : ℕ

abbrev pub new_off : HeapFmt → ℕ
new_off vanilla = 12
new_off neon = 16

unfoldable pub parse_update_main : Bytes → HeapFmt → Result UpdateInfo
unfolding u16_at u8_at
parse_update_main main_data fmt = do
  bail_if (ltb (length main_data) (new_off fmt + 2)) truncated
  old ← u16_at main_data 4
  flags ← u8_at main_data 7
  new ← u16_at main_data (new_off fmt)
  ok (record { old_offnum = old; new_offnum = new; flags = flags })

unfoldable pub insert_offnum : Bytes → Result ℕ
unfolding slice? le
insert_offnum main_data = do s ← ok_or (slice? main_data 0 2) truncated; ok (le s)

-- `(first..first + n).collect()`.
abbrev pub count_up : ℕ → ℕ → List ℕ
count_up first zero = []
count_up first (suc n) = first ∷ count_up (first + 1) n

abbrev pub offsets_base : HeapFmt → ℕ
offsets_base vanilla = 4
offsets_base neon = 8

-- The offsets array behind its count. XLOG_HEAP_INIT_PAGE is 0x80.
unfoldable pub offsets_array : Bytes → ℕ → ℕ → Result (List ℕ)
unfolding slice? words2
offsets_array main_data base ntuples = do
  arr ← ok_or (slice? main_data base (base + 2 * ntuples)) truncated
  ok (words2 arr)

unfoldable pub multi_insert_offsets : Bytes → ℕ → HeapFmt → Result (List ℕ)
unfolding u16_at has_bit offsets_array
multi_insert_offsets main_data info fmt = do
  bail_if (ltb (length main_data) 4) truncated
  ntuples ← u16_at main_data 2
  if has_bit info 7
      then ok (count_up 1 ntuples)
      else offsets_array main_data (offsets_base fmt) ntuples

abbrev pub sizeof_heap_tuple_header : ℕ
sizeof_heap_tuple_header = 23

-- A tuple on a page: (payload, t_infomask2, t_infomask, t_hoff).
unfoldable pub tuple_at : Bytes → ℕ → Result (Bytes × ℕ × ℕ × ℕ)
tuple_at page itemid = do
  bail_if (not (itemid / 2 ^ 15 % 4 == 1)) truncated
  let lp_off = itemid % 2 ^ 15
  tuple ← ok_or (slice? page lp_off (lp_off + itemid / 2 ^ 17)) truncated
  bail_if (ltb (length tuple) sizeof_heap_tuple_header) truncated
  t_infomask2 ← u16_at tuple 18
  t_infomask ← u16_at tuple 20
  t_hoff ← u8_at tuple 22
  ok (drop 23 tuple, t_infomask2, t_infomask, t_hoff)

unfoldable pub tuple_on_page : Bytes → ℕ → Result (Bytes × ℕ × ℕ × ℕ)
tuple_on_page page offnum = do
  bail_if (offnum == 0) corrupt
  let idx = 24 + (offnum - 1) * 4
  s ← ok_or (slice? page idx (idx + 4)) truncated
  tuple_at page (le s)

-- `t_hoff.checked_sub(SIZEOF_HEAP_TUPLE_HEADER)`.
abbrev pub bits_len : ℕ → Result ℕ
bits_len t_hoff =
    if ltb t_hoff sizeof_heap_tuple_header
    then err corrupt
    else ok (t_hoff - sizeof_heap_tuple_header)

unfoldable pub raw_attrs_from_page : Bytes → ℕ → Result Bytes
unfolding tuple_on_page tail?
raw_attrs_from_page page offnum = do
  (payload, _, _, hoff) ← tuple_on_page page offnum
  n ← bits_len hoff
  ok_or (tail? payload n) truncated

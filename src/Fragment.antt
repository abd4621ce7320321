-- ===== src/Fragment.antt =====
-- src/fragment.rs: the line pointers that an index can address, and the visible version at the end
-- of each one's HOT chain; with `line_pointer` of src/reconstruct.rs.
pub mod Chains
pub mod Emit
use open_ltap.Base.{
  ℕ, zero, suc, ◌+◌, ◌-◌, ◌*◌, ◌/◌, ◌%◌, ◌^◌, Bool, true, false, not, ◌&&◌, List, [], ◌∷◌, Option,
  none, some, Bytes, Result, ok, err, panic, ◌>>=◌, ◌>>◌, bail_if, ok_or, ◌==◌, if◌then◌else◌,
  length, le, slice?, u16_at, u32_at, has_bit, truncated, corrupt, chain_too_long,
}
use open_ltap.Clog.{ClogSource, tuple_visible}

abbrev pub heap_tuple_header_size : ℕ
heap_tuple_header_size = 23

abbrev pub lp_normal : ℕ
lp_normal = 1

abbrev pub lp_redirect : ℕ
lp_redirect = 2

abbrev pub max_chain : ℕ
max_chain = 1024

pub record LinePointer : Type 0 where
  pub off : ℕ
  pub flags : ℕ
  pub len : ℕ

unfoldable pub line_pointer : Bytes → ℕ → Result LinePointer
unfolding slice? le
line_pointer page offnum = do
  bail_if (offnum == 0) corrupt
  let idx = 24 + (offnum - 1) * 4
  raw ← ok_or (slice? page idx (idx + 4)) truncated
  let itemid = le raw
  ok (record { off = itemid % 2 ^ 15; flags = itemid / 2 ^ 15 % 4; len = itemid / 2 ^ 17 })

pub record TupleHdr : Type 0 where
  pub xmin : ℕ
  pub xmax : ℕ
  pub infomask : ℕ
  pub infomask2 : ℕ
  pub ctid_block : ℕ
  pub ctid_off : ℕ

-- The block's halves stand high half first.
unfoldable pub read_header : Bytes → ℕ → Result TupleHdr
unfolding slice? u16_at u32_at
read_header page off = do
  t ← ok_or (slice? page off (off + heap_tuple_header_size)) truncated
  bi_hi ← u16_at t 12
  bi_lo ← u16_at t 14
  xmin ← u32_at t 0
  xmax ← u32_at t 4
  ctid_off ← u16_at t 16
  infomask2 ← u16_at t 18
  infomask ← u16_at t 20
  ok (record {
    xmin = xmin;
    xmax = xmax;
    infomask = infomask;
    infomask2 = infomask2;
    ctid_block = bi_hi * 2 ^ 16 + bi_lo;
    ctid_off = ctid_off;
  })

unfoldable pub check_page : Bytes → Result (Unit {0})
check_page page = bail_if (not (length page == 8192)) corrupt

-- Where the chain of a line pointer starts, if an index can address it. HEAP_ONLY_TUPLE is 0x8000.
unfoldable pub chain_start : Bytes → ℕ → Result (Option ℕ)
unfolding line_pointer read_header has_bit
chain_start page offnum = do
  lp ← line_pointer page offnum
  if lp.flags == lp_redirect
      then ok (some (lp.off))
      else if lp.flags == lp_normal
      then (do
        hdr ← read_header page lp.off
        ok (if has_bit hdr.infomask2 15 then none else some offnum))
      else ok none

abbrev pub add_root : ℕ → Option ℕ → List (ℕ × ℕ) → List (ℕ × ℕ)
add_root offnum none roots = roots
add_root offnum (some start) roots = (offnum, start) ∷ roots

-- `for offnum in offnum..`, by the number of line pointers left.
unfoldable pub roots_from : Bytes → ℕ → ℕ → Result (List (ℕ × ℕ))
unfolding chain_start
roots_from page offnum zero = ok []
roots_from page offnum (suc n) = do
  start ← chain_start page offnum
  roots ← roots_from page (offnum + 1) n
  ok (add_root offnum start roots)

unfoldable pub chain_roots : Bytes → Result (List (ℕ × ℕ))
unfolding u16_at roots_from
chain_roots page = do pd_lower ← u16_at page 12; roots_from page 1 ((pd_lower - 24) / 4)

-- A round of the loop of `visible_version`: return `None`, return this version, or go on.
pub data ChainStep : Type 0 where
  dead found : ChainStep
  follow : ℕ → ChainStep

-- HEAP_HOT_UPDATED is 0x4000.
abbrev pub hot_link : ℕ → ℕ → TupleHdr → ChainStep
hot_link block cur hdr =
    if has_bit hdr.infomask2 14
      && hdr.ctid_block == block
      && not (hdr.ctid_off == 0)
      && not (hdr.ctid_off == cur)
    then follow hdr.ctid_off
    else dead

unfoldable pub chain_step : Bytes → ℕ → ClogSource → ℕ → Result ChainStep
unfolding line_pointer read_header
chain_step page block clog cur = do
  lp ← line_pointer page cur
  if not (lp.flags == lp_normal) then ok dead else do
    hdr ← read_header page lp.off
    visible ← tuple_visible clog hdr.xmin hdr.xmax hdr.infomask
    ok (if visible then found else hot_link block cur hdr)

-- `for _ in 0..MAX_CHAIN`, by the number of rounds left.
unfoldable pub walk : Bytes → ℕ → ClogSource → ℕ → ℕ → Result (Option ℕ)
unfolding chain_step
walk page block clog zero cur = err chain_too_long
walk page block clog (suc n) cur = chain_step page block clog cur >>= λ step. elim step [
  | dead ↦ ok none
  | found ↦ ok (some cur)
  | follow next ↦ walk page block clog n next
]

unfoldable pub visible_version : Bytes → ℕ → ℕ → ClogSource → Result (Option ℕ)
visible_version page block start clog = walk page block clog max_chain start

-- ===== src/Clog.antt =====
-- src/clog.rs: transaction status from CLOG pages, and tuple visibility. Where pages come from is
-- a parameter; reads of one source give one answer for a page.
pub mod Layout
pub mod Visibility
use open_ltap.Base.{
  ℕ, ◌+◌, ◌*◌, ◌/◌, ◌%◌, ◌^◌, Bool, true, false, not, ◌&&◌, ◌||◌, Option, none, some, Bytes, Result,
  ok, err, panic, ◌>>=◌, ok_or, ◌==◌, if◌then◌else◌, slice?, get?, has_bit, truncated, invalid_xid,
  needs_multixact, missing_page,
}
use open_ltap.Multixact.{MultiXactSource, resolve_updater}

abbrev pub clog_xacts_per_byte : ℕ
clog_xacts_per_byte = 4

abbrev pub clog_xacts_per_page : ℕ
clog_xacts_per_page = 8192 * clog_xacts_per_byte

abbrev pub slru_pages_per_segment : ℕ
slru_pages_per_segment = 32

abbrev pub page_sz : ℕ
page_sz = 8192

abbrev pub invalid_xact : ℕ
invalid_xact = 0

abbrev pub bootstrap_xact : ℕ
bootstrap_xact = 1

abbrev pub frozen_xact : ℕ
frozen_xact = 2

pub data TxnStatus : Type 0 where
  in_progress committed aborted sub_committed : TxnStatus

unfoldable pub xid_to_page : ℕ → ℕ
xid_to_page xid = xid / clog_xacts_per_page

-- (byte offset within the page, bit shift).
unfoldable pub byte_bit : ℕ → ℕ × ℕ
byte_bit xid =
    let idx = xid % clog_xacts_per_page in
    (idx / clog_xacts_per_byte, idx % clog_xacts_per_byte * 2)

-- The match on a two-bit number; its last case is `unreachable!`.
unfoldable pub status_of_bits : ℕ → Result TxnStatus
status_of_bits b =
    if b == 0
    then ok in_progress
    else if b == 1
    then ok committed
    else if b == 2
    then ok aborted
    else if b == 3
    then ok sub_committed
    else panic

unfoldable pub status_in_page : Bytes → ℕ → Result TxnStatus
unfolding byte_bit status_of_bits get?
status_in_page page xid = do
  byte ← ok_or (get? page (byte_bit xid).0) truncated
  status_of_bits (byte / 2 ^ (byte_bit xid).1 % 4)

pub record ClogSource : Type 0 where
  pub clog_page : ℕ → Result Bytes

unfoldable pub resolve : ClogSource → ℕ → Result TxnStatus
unfolding xid_to_page status_in_page
resolve src xid =
    if xid == bootstrap_xact || xid == frozen_xact
    then ok committed
    else if xid == invalid_xact
    then err invalid_xid
    else do page ← src.clog_page (xid_to_page xid); status_in_page page xid

-- `matches!(status, TxnStatus::Committed)`.
unfoldable pub is_committed : TxnStatus → Bool
is_committed committed = true
is_committed _ = false

-- HEAP_XMAX_LOCK_ONLY is 0x0080 and HEAP_XMAX_IS_MULTI is 0x1000.
unfoldable pub lock_only : ℕ → Bool
unfolding has_bit
lock_only infomask = has_bit infomask 7

unfoldable pub is_multi : ℕ → Bool
unfolding has_bit
is_multi infomask = has_bit infomask 12

unfoldable pub tuple_visible : ClogSource → ℕ → ℕ → ℕ → Result Bool
unfolding is_committed lock_only is_multi
tuple_visible src xmin xmax infomask = do
  inserted ← resolve src xmin
  if not (is_committed inserted)
      then ok false
      else if xmax == invalid_xact
      then ok true
      else if is_multi infomask
      then (if lock_only infomask then ok true else err needs_multixact)
      else if lock_only infomask
      then ok true
      else do deleted ← resolve src xmax; ok (not (is_committed deleted))

-- The `match` on the updater.
unfoldable pub not_updated : ClogSource → Option ℕ → Result Bool
unfolding is_committed
not_updated clog none = ok true
not_updated clog (some updater_xid) = do
  status ← resolve clog updater_xid
  ok (not (is_committed status))

-- The branch for a multixact with an updater.
unfoldable pub visible_by_updater : ClogSource → MultiXactSource → ℕ → ℕ → Result Bool
unfolding is_committed not_updated
visible_by_updater clog mx xmin xmax = do
  inserted ← resolve clog xmin
  if not (is_committed inserted)
      then ok false
      else do updater ← resolve_updater mx xmax; not_updated clog updater

unfoldable pub tuple_visible_with_multixact : ClogSource → MultiXactSource → ℕ → ℕ → ℕ → Result Bool
unfolding tuple_visible visible_by_updater
tuple_visible_with_multixact clog mx xmin xmax infomask =
    if is_multi infomask && not (lock_only infomask)
    then visible_by_updater clog mx xmin xmax
    else tuple_visible clog xmin xmax infomask

-- `read_slru_segment_page`, over the segment files by number. The file name is the number in hex.
unfoldable pub read_slru_segment_page : (ℕ → Result Bytes) → ℕ → Result Bytes
unfolding slice?
read_slru_segment_page read_segment pageno = do
  let off = pageno % slru_pages_per_segment * page_sz
  bytes ← read_segment (pageno / slru_pages_per_segment)
  ok_or (slice? bytes off (off + page_sz)) missing_page

-- `FileClogSource`.
pub file_clog_source : (ℕ → Result Bytes) → ClogSource
file_clog_source read_segment = record { clog_page = read_slru_segment_page read_segment }

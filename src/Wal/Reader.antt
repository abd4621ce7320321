-- ===== src/Wal/Reader.antt =====
-- src/wal/mod.rs, `WalReader`: whole records out of a stream of bytes with page headers. Positions
-- are LSNs below 2 ^ 64, far from wrapping.
pub mod Announced
pub mod Progress
pub mod Extend
pub mod Chunks
use open_ltap.Base.{
  ℕ, zero, suc, ◌+◌, ◌-◌, ◌*◌, ◌/◌, ◌%◌, min, Bool, true, false, not, ◌&&◌, ◌||◌, List, [], ◌∷◌,
  ◌++◌, Bytes, Result, ok, err, Error, ltb, ◌==◌, if◌then◌else◌, length, take, drop, le, stream_gap,
  bad_magic, corrupt, out_of_fuel,
}

abbrev pub xlog_page_size : ℕ
xlog_page_size = 8192

abbrev pub wal_seg_size : ℕ
wal_seg_size = 16 * 1024 * 1024

abbrev pub rec_hdr_len : ℕ
rec_hdr_len = 24

abbrev pub short_page_hdr : ℕ
short_page_hdr = 24

abbrev pub long_page_hdr : ℕ
long_page_hdr = 40

-- The values of `XLOG_PAGE_MAGICS`.
unfoldable pub is_page_magic : ℕ → Bool
is_page_magic magic = magic == 0xD116 || magic == 0xD118

-- `(v + 7) & !7`.
unfoldable pub maxalign : ℕ → ℕ
maxalign v = (v + 7) / 8 * 8

pub record WalReader : Type 0 where
  pub pos : ℕ
  pub pending : Bytes
  pub skip_left : ℕ
  pub started : Bool
  pub rec : Bytes
  pub rec_lsn : ℕ
  pub need : ℕ

-- `WalReader::new` for a page-aligned start.
unfoldable pub new : ℕ → WalReader
new start_lsn = record {
  pos = start_lsn;
  pending = [];
  skip_left = 0;
  started = false;
  rec = [];
  rec_lsn = 0;
  need = 0;
}

abbrev pub Records : Type 0
Records = List (ℕ × Bytes)

-- One round of the loop in `feed`: `break`, `bail!`, or `continue` with what it pushed to `out`.
pub data Round : Type 0 where
  wait : Round
  bail : Error → Round
  next : WalReader → Records → Round

-- `pending.advance(n); pos += n`.
abbrev pub advance : ℕ → WalReader → WalReader
advance n r = record r { pos = r.pos + n; pending = drop n r.pending }

abbrev pub avail : WalReader → ℕ
avail r = length r.pending

abbrev pub page_off : WalReader → ℕ
page_off r = r.pos % xlog_page_size

abbrev pub page_rem : WalReader → ℕ
page_rem r = xlog_page_size - page_off r

abbrev pub hdr_len : WalReader → ℕ
hdr_len r = if r.pos % wal_seg_size == 0 then long_page_hdr else short_page_hdr

abbrev pub align_pad : ℕ → ℕ
align_pad pos = maxalign pos - pos

-- `if !self.started { .. }` on the page header's xlp_rem_len.
abbrev pub join : WalReader → WalReader
join r = record r {
  started = true;
  skip_left = if r.started then r.skip_left else le (take 4 (drop 16 r.pending));
}

abbrev pub pad_after_header : WalReader → WalReader
pad_after_header r = record r {
  skip_left = if r.skip_left == 0 && r.need == 0 then align_pad r.pos else r.skip_left;
}

unfoldable pub page_header : WalReader → Round
unfolding is_page_magic maxalign
page_header r =
    if ltb (avail r) (hdr_len r)
    then wait
    else if not (is_page_magic (le (take 2 r.pending)))
    then bail bad_magic
    else next (pad_after_header (advance (hdr_len r) (join r))) []

-- The bytes that a round takes when `wanted` are.
abbrev pub some_of : ℕ → WalReader → ℕ
some_of wanted r = min (min wanted (page_rem r)) (avail r)

abbrev pub skipped : ℕ → WalReader → WalReader
skipped n r = record (advance n r) {
  skip_left = if r.skip_left - n == 0 then align_pad (r.pos + n) else r.skip_left - n;
}

unfoldable pub skip : WalReader → Round
unfolding maxalign
skip r = next (skipped (some_of r.skip_left r) r) []

abbrev pub appended : ℕ → WalReader → WalReader
appended n r = record (advance n r) { rec = r.rec ++ take n r.pending }

-- `if self.rec.len() == self.need`, when the bytes are taken.
unfoldable pub finish_body : WalReader → Round
unfolding maxalign
finish_body r =
    if length r.rec == r.need
    then next (record r { rec = []; need = 0; skip_left = align_pad r.pos })
        ((r.rec_lsn, r.rec) ∷ [])
    else next r []

unfoldable pub body : WalReader → Round
unfolding finish_body
body r = finish_body (appended (some_of (r.need - length r.rec) r) r)

abbrev pub tot_len : WalReader → ℕ
tot_len r = le (take 4 r.pending)

unfoldable pub new_record : WalReader → Round
new_record r =
    if ltb (avail r) 4
    then wait
    else if tot_len r == 0
    then next (advance (min (page_rem r) (avail r)) r) []
    else if ltb (tot_len r) rec_hdr_len
    then bail corrupt
    else next (record r { rec_lsn = r.pos; need = tot_len r; rec = [] }) []

unfoldable pub round : WalReader → Round
round r =
    if avail r == 0
    then wait
    else if page_off r == 0
    then page_header r
    else if ltb 0 r.skip_left
    then skip r
    else if ltb 0 r.need
    then body r
    else new_record r

-- The loop, on fuel.
unfoldable pub loop : ℕ → WalReader → Records → Result (WalReader × Records)
loop zero r out = err out_of_fuel
loop (suc fuel) r out = elim (round r) [
  | wait ↦ ok (r, out)
  | bail e ↦ err e
  | next r' more ↦ loop fuel r' (out ++ more)
]

-- Two rounds for each pending byte, and two more, are enough.
abbrev pub rounds : WalReader → ℕ
rounds r = 2 * avail r + 2

abbrev pub extend : Bytes → WalReader → WalReader
extend bytes r = record r { pending = r.pending ++ bytes }

unfoldable pub feed : WalReader → ℕ → Bytes → Result (WalReader × Records)
unfolding loop
feed r start_lsn bytes =
    if start_lsn == r.pos + avail r
    then loop (rounds (extend bytes r)) (extend bytes r) []
    else err stream_gap

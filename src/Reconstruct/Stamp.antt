-- ===== src/Reconstruct/Stamp.antt =====
-- The header and the checksum that `build_page` stamps a page with.
use Prim.Native.Nat.{bit_xor}
use open_ltap.Base.{
  u16_at, u16_at-take, le-to_le_two, ◌>>=◌, ◌≢◌, ℕ, ◌+◌, ◌*◌, ◌/◌, ◌^◌, ◌%◌, ◌≤◌, ◌<◌, List, [],
  ◌∷◌, some, Bytes, ok, ◌≡◌, sym, ap, subst, ◌∙◌, ltb, ltb→le, length, take, drop, get_elem?, to_le,
  le, length-to_le, bind_ok, bail_ok, corrupt, inr, arith, replicate, length-replicate,
}
use open_ltap.Schema.{TableDesc}
use open_ltap.Reconstruct.{Slot, place_slots, write_page_header, build_page, page_size}
use open_ltap.Reconstruct.Checksum.{put_at, pg_checksum_page, pg_checksum_block}
use open_ltap.Reconstruct.Writes.{put_at-inside, put_at-put_at}
use open_ltap.Reconstruct.Placement.{
  SameOutside, SameOutside-then, SameOutside-widen, put_at-SameOutside, place_slots-SameOutside,
  PlacedAt, place_slots-PlacedAt,
}

-- A write within the page header.
header_write :
    (buf : Bytes) (at : ℕ) (bytes out : Bytes)
    → put_at buf at bytes ≡ ok out
    → at + length bytes ≤ 24
    → SameOutside 0 24 buf out
header_write buf at bytes out e h =
    SameOutside-widen at (at + length bytes) 0 24 buf out (omega arith) h
      (put_at-SameOutside buf at bytes out e)

write_page_header-SameOutside :
    (page : Bytes) (lsn lower upper : ℕ) (page' : Bytes)
    → write_page_header page lsn lower upper ≡ ok page'
    → SameOutside 0 24 page page'
unfolding write_page_header to_le
write_page_header-SameOutside page lsn lower upper page' h =
    let (a, ea, ha) = bind_ok (put_at page 0 (to_le 4 (lsn / 2 ^ 32))) h in
    let (b, eb, hb) = bind_ok (put_at a 4 (to_le 4 lsn)) ha in
    let (c, ec, hc) = bind_ok (put_at b 12 (to_le 2 lower)) hb in
    let (d, ed, hd) = bind_ok (put_at c 14 (to_le 2 upper)) hc in
    let (e, ee, he) = bind_ok (put_at d 16 (to_le 2 page_size)) hd in
    SameOutside-then 0 24 page a page'
      (header_write page 0 (to_le 4 (lsn / 2 ^ 32)) a ea (omega arith))
      (SameOutside-then 0 24 a b page' (header_write a 4 (to_le 4 lsn) b eb (omega arith)) (
        SameOutside-then 0 24 b c page' (header_write b 12 (to_le 2 lower) c ec (omega arith)) (
          SameOutside-then 0 24 c d page' (header_write c 14 (to_le 2 upper) d ed (omega arith)) (
            SameOutside-then 0 24 d e page'
              (header_write d 16 (to_le 2 page_size) e ee (omega arith))
              (header_write e 18 (to_le 2 (page_size + 4)) page' he (omega arith))))))

-- The stages of `build_page`.
abbrev pub Stages : TableDesc → ℕ → ℕ → List Slot → Bytes → Type 0
Stages desc block lsn slots page =
    (filled : Bytes) × (upper : ℕ) × (headed : Bytes) × (checksum : ℕ) × (24 + length slots * 4
      ≤ page_size)
    × (place_slots desc block (24 + length slots * 4) 0 (replicate page_size 0) page_size slots
        ≡ ok (filled, upper))
    × (write_page_header filled lsn (24 + length slots * 4) upper ≡ ok headed)
    × (pg_checksum_page headed block ≡ ok checksum)
    × (put_at headed 8 (to_le 2 checksum) ≡ ok page)

pub build_page-Stages :
    (desc : TableDesc) (block lsn : ℕ) (slots : List Slot) (page : Bytes)
    → build_page desc block lsn slots ≡ ok page
    → Stages desc block lsn slots page
unfolding build_page
build_page-Stages desc block lsn slots page h =
    let lower = 24 + length slots * 4 in
    let (fits, h1) = bail_ok (ltb page_size lower) corrupt h in
    let ((filled, upper), e, h2) =
      bind_ok (place_slots desc block lower 0 (replicate page_size 0) page_size slots) h1 in
    let (headed, e1, h3) = bind_ok (write_page_header filled lsn lower upper) h2 in
    let (checksum, e2, h4) = bind_ok (pg_checksum_page headed block) h3 in
    (filled, upper, headed, checksum, ltb→le page_size lower fits, e, e1, e2, h4)

pub Stages-length :
    (desc : TableDesc) (block lsn : ℕ) (slots : List Slot) (page : Bytes)
    → Stages desc block lsn slots page
    → length page ≡ page_size
Stages-length desc block lsn slots page (filled, upper, headed, c, fits, e, e1, e2, e3) =
    let lower = 24 + length slots * 4 in
    let placed =
      place_slots-SameOutside desc block lower 0 (replicate page_size 0) page_size slots filled
        upper fits (omega arith) e in
    let header = write_page_header-SameOutside filled lsn lower upper headed e1 in
    let two = length-to_le 2 c in
    let stamp = header_write headed 8 (to_le 2 c) page e3 (omega arith) in
    stamp.0 ∙ header.0 ∙ placed.0 ∙ length-replicate {A = ℕ} page_size 0

-- Every slot of a built page is as it was placed.
pub build_page-PlacedAt :
    (desc : TableDesc) (block lsn : ℕ) (slots : List Slot) (page : Bytes) (k : ℕ) (slot : Slot)
    → build_page desc block lsn slots ≡ ok page
    → get_elem? slots k ≡ some slot
    → PlacedAt desc block (24 + length slots * 4) ((k + 1) % 2 ^ 16) slot (24 + k * 4) page
build_page-PlacedAt desc block lsn slots page k slot h found =
    let (filled, upper, headed, c, fits, e, e1, e2, e3) =
      build_page-Stages desc block lsn slots page h in
    let lower = 24 + length slots * 4 in
    let header = write_page_header-SameOutside filled lsn lower upper headed e1 in
    let two = length-to_le 2 c in
    let stamp = header_write headed 8 (to_le 2 c) page e3 (omega arith) in
    let done = SameOutside-then 0 24 filled headed page header stamp in
    let (before, up, after, up', id, placed, item, behind, len, low) =
      place_slots-PlacedAt desc block lower 0 (replicate page_size 0) page_size slots filled upper k
        k slot fits (omega arith) e found (omega arith) in
    (
      before,
      up,
      after,
      up',
      id,
      placed,
      done.1 (24 + k * 4) 4 (inr (omega arith)) ∙ item,
      (λ a n b. done.1 a n (inr (omega arith)) ∙ behind a n b),
      done.0 ∙ len,
      low,
    )

-- A checksum is a 16-bit word, and never 0.
pg_checksum_page-bounds :
    (page : Bytes) (block c : ℕ) → pg_checksum_page page block ≡ ok c → (c < 2 ^ 16) × (c ≢ 0)
unfolding pg_checksum_page
pg_checksum_page-bounds page block c h =
    let (buf, _, h1) = bind_ok (put_at page 8 (0 ∷ 0 ∷ [])) h in
    let (sum, _, h2) = bind_ok (pg_checksum_block buf) h1 in
    let is : bit_xor sum block % 65535 + 1 ≡ c = cc in (omega arith, λ z. omega arith)

-- A built page carries the checksum that the verifier computes from the whole page.
pub build_page-pg_checksum_page :
    (desc : TableDesc) (block lsn : ℕ) (slots : List Slot) (page : Bytes)
    → build_page desc block lsn slots ≡ ok page
    → (c : ℕ) × (pg_checksum_page page block ≡ ok c) × (u16_at page 8 ≡ ok c) × (c ≢ 0)
unfolding pg_checksum_page
build_page-pg_checksum_page desc block lsn slots page h =
    let stages = build_page-Stages desc block lsn slots page h in
    let (filled, upper, headed, c, fits, e, e1, e2, e3) = stages in
    let two = length-to_le 2 c in
    let long = Stages-length desc block lsn slots page stages in
    let small : (c < 2 ^ 16) × (c ≢ 0) = pg_checksum_page-bounds headed block c e2 in
    let here : u16_at page 8 ≡ ok (le (to_le 2 c)) = u16_at-take page 8 (to_le 2 c) (omega arith) (
      subst (λ n. take n (drop 8 page) ≡ to_le 2 c) two
        (put_at-inside headed 8 (to_le 2 c) page e3)) in
    let zeroed = put_at-put_at headed 8 (to_le 2 c) page (0 ∷ 0 ∷ []) e3 (sym two) in
    (
      c,
      subst
          (λ z.
            z >>= (λ buf. pg_checksum_block buf >>= λ s. ok (bit_xor s block % 65535 + 1)) ≡ ok c)
          (sym zeroed) e2,
      here ∙ ap ok (le-to_le_two c small.0),
      small.1,
    )

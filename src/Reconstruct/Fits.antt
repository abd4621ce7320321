-- ===== src/Reconstruct/Fits.antt =====
-- When `build_page` succeeds: the slots encode, and fit the page with their line pointers.
use open_ltap.Base.{
  ℕ, ◌+◌, ◌-◌, ◌*◌, ◌^◌, ◌%◌, ◌≤◌, false, List, [], ◌∷◌, Bytes, ok, ◌≡◌, ◌↔◌, refl, sym, ap, ltb,
  le→ltb, ◌==◌, length, to_le, bind_ok, bail_ok, ok_inj, corrupt, arith, replicate,
  length-replicate, tests,
}
use open_ltap.Schema.{TableDesc}
use open_ltap.Reconstruct.{
  Slot, tuple, raw, unused, dead, redirect, place_tuple, place_slot, place_slots, maxalign,
  encode_tuple, encode_raw_tuple, build_page, page_size,
}
use open_ltap.Reconstruct.Checksum.{put_at}
use open_ltap.Reconstruct.Capacity.{slot_size, slots_size}
use open_ltap.Reconstruct.Placement.{place_slot-SlotPlaced}
use open_ltap.Reconstruct.Stamp.{build_page-Stages}
use open_ltap.Reconstruct.Writable.{put_at-fits, write_page_header-fits, pg_checksum_page-fits}

place_tuple-fits :
    (page : Bytes) (upper lower : ℕ) (tup : Bytes)
    → lower + maxalign (length tup) ≤ upper
    → upper ≤ length page
    → (page' : Bytes) × (id : ℕ) × (place_tuple page upper lower tup
        ≡ ok (page', upper - maxalign (length tup), id))
      × (length page' ≡ length page)
unfolding place_tuple
place_tuple-fits page upper lower tup room inside =
    let size = maxalign (length tup) in
    let enough = le→ltb upper (lower + size) room in
    let (out, e, len) = put_at-fits page (upper - size) tup (omega arith) in
    (out, upper - size + 2 ^ 15 + length tup * 2 ^ 17, rw (enough, e) refl, len)

-- A slot of a known size is placed where there is room for it.
place_slot-fits :
    (desc : TableDesc) (block lower off : ℕ) (page : Bytes) (upper : ℕ) (slot : Slot) (n : ℕ)
    → slot_size desc block off slot ≡ ok n
    → lower + n ≤ upper
    → upper ≤ length page
    → (page' : Bytes) × (id : ℕ) × (place_slot desc block lower off page upper slot
        ≡ ok (page', upper - n, id))
      × (length page' ≡ length page)
unfolding place_slot slot_size
place_slot-fits desc block lower off page upper (tuple spec) n h room inside =
    let (tup, e, h1) = bind_ok (encode_tuple desc block off spec) h in
    let size : maxalign (length tup) ≡ n = ok_inj h1 in
    let (page', id, e', len) = place_tuple-fits page upper lower tup (omega arith) inside in
    (page', id, rw e (rw (sym size) e'), len)
place_slot-fits desc block lower off page upper (raw rt) n h room inside =
    let (tup, e, h1) = bind_ok (encode_raw_tuple block off rt) h in
    let size : maxalign (length tup) ≡ n = ok_inj h1 in
    let (page', id, e', len) = place_tuple-fits page upper lower tup (omega arith) inside in
    (page', id, rw e (rw (sym size) e'), len)
place_slot-fits desc block lower off page upper unused n h room inside =
    let none_used : upper ≡ upper - n = let z = ok_inj h in omega arith in
    (page, 0, ap (λ u. ok (page, u, 0)) none_used, refl)
place_slot-fits desc block lower off page upper dead n h room inside =
    let none_used : upper ≡ upper - n = let z = ok_inj h in omega arith in
    (page, 3 * 2 ^ 15, ap (λ u. ok (page, u, 3 * 2 ^ 15)) none_used, refl)
place_slot-fits desc block lower off page upper (redirect target) n h room inside =
    let (some_target, h1) = bail_ok (target == 0) corrupt h in
    let none_used : upper ≡ upper - n = let z = ok_inj h1 in omega arith in
    let id = target + 2 * 2 ^ 15 in
    (page, id, rw some_target (ap (λ u. ok (page, u, id)) none_used), refl)

-- A slot that was placed took its size.
place_slot-takes :
    (desc : TableDesc) (block lower off : ℕ) (page : Bytes) (upper : ℕ) (slot : Slot)
    (page' : Bytes) (upper' id : ℕ)
    → lower ≤ upper
    → place_slot desc block lower off page upper slot ≡ ok (page', upper', id)
    → (n : ℕ) × (slot_size desc block off slot ≡ ok n) × (upper' + n ≡ upper)
unfolding place_slot slot_size place_tuple
place_slot-takes desc block lower off page upper (tuple spec) page' upper' id r h =
    let (tup, e, h1) = bind_ok (encode_tuple desc block off spec) h in
    let size = maxalign (length tup) in
    let (room, h2) = bail_ok (ltb upper (lower + size)) corrupt h1 in
    let (written, _, h3) = bind_ok (put_at page (upper - size) tup) h2 in
    let at : upper - size ≡ upper' = ap (λ z. z.1) (ok_inj h3) in (size, rw e refl, omega tests)
place_slot-takes desc block lower off page upper (raw rt) page' upper' id r h =
    let (tup, e, h1) = bind_ok (encode_raw_tuple block off rt) h in
    let size = maxalign (length tup) in
    let (room, h2) = bail_ok (ltb upper (lower + size)) corrupt h1 in
    let (written, _, h3) = bind_ok (put_at page (upper - size) tup) h2 in
    let at : upper - size ≡ upper' = ap (λ z. z.1) (ok_inj h3) in (size, rw e refl, omega tests)
place_slot-takes desc block lower off page upper unused page' upper' id r h =
    let at = ap (λ z. z.1) (ok_inj h) in (0, refl, omega arith)
place_slot-takes desc block lower off page upper dead page' upper' id r h =
    let at = ap (λ z. z.1) (ok_inj h) in (0, refl, omega arith)
place_slot-takes desc block lower off page upper (redirect target) page' upper' id r h =
    let (some_target, h1) = bail_ok (target == 0) corrupt h in
    let at = ap (λ z. z.1) (ok_inj h1) in (0, rw some_target refl, omega arith)

place_slots-fits :
    (desc : TableDesc) (block lower i : ℕ) (page : Bytes) (upper : ℕ) (slots : List Slot) (n : ℕ)
    → slots_size desc block i slots ≡ ok n
    → lower + n ≤ upper
    → upper ≤ length page
    → 24 + (i + length slots) * 4 ≤ lower
    → (page' : Bytes) × (upper' : ℕ) × (place_slots desc block lower i page upper slots
        ≡ ok (page', upper'))
      × (length page' ≡ length page)
unfolding place_slots slots_size to_le
place_slots-fits desc block lower i page upper [] n h room inside items = (page, upper, refl, refl)
place_slots-fits desc block lower i page upper (slot ∷ slots) n h room inside items =
    let off = (i + 1) % 2 ^ 16 in
    let (k, e, h1) = bind_ok (slot_size desc block off slot) h in
    let (m, e1, h2) = bind_ok (slots_size desc block (i + 1) slots) h1 in
    let sum : k + m ≡ n = ok_inj h2 in
    let (placed, id, e2, len) =
      place_slot-fits desc block lower off page upper slot k e (omega arith) inside in
    let (written, e3, len') = put_at-fits placed (24 + i * 4) (to_le 4 id) (omega arith) in
    let (page', upper', e4, len'') =
      place_slots-fits desc block lower (i + 1) written (upper - k) slots m e1 (omega arith)
        (omega arith) (omega arith) in
    (page', upper', rw (e2, e3) e4, omega arith)

place_slots-takes :
    (desc : TableDesc) (block lower i : ℕ) (page : Bytes) (upper : ℕ) (slots : List Slot)
    (page' : Bytes) (upper' : ℕ)
    → lower ≤ upper
    → place_slots desc block lower i page upper slots ≡ ok (page', upper')
    → (n : ℕ) × (slots_size desc block i slots ≡ ok n) × (lower + n ≤ upper)
unfolding place_slots slots_size
place_slots-takes desc block lower i page upper [] page' upper' r h = (0, refl, omega arith)
place_slots-takes desc block lower i page upper (slot ∷ slots) page' upper' r h =
    let off = (i + 1) % 2 ^ 16 in
    let ((placed, up, id), e, h1) = bind_ok (place_slot desc block lower off page upper slot) h in
    let (written, _, h2) = bind_ok (put_at placed (24 + i * 4) (to_le 4 id)) h1 in
    let (low, _, _) = place_slot-SlotPlaced desc block lower off page upper slot placed up id r e in
    let (k, e1, at) = place_slot-takes desc block lower off page upper slot placed up id r e in
    let (m, e2, room) =
      place_slots-takes desc block lower (i + 1) written up slots page' upper' low h2 in
    (k + m, rw (e1, e2) refl, omega arith)

-- The slots encode, and with their line pointers they leave the page room for its header.
abbrev pub SlotsFit : TableDesc → ℕ → List Slot → Type 0
SlotsFit desc block slots =
    (n : ℕ) × (slots_size desc block 0 slots ≡ ok n) × (24 + length slots * 4 + n ≤ page_size)

build_page-fits :
    (desc : TableDesc) (block lsn : ℕ) (slots : List Slot)
    → SlotsFit desc block slots
    → (page : Bytes) × (build_page desc block lsn slots ≡ ok page)
unfolding build_page to_le
build_page-fits desc block lsn slots (n, e, room) =
    let lower = 24 + length slots * 4 in
    let enough : ltb page_size lower ≡ false = le→ltb page_size lower (omega arith) in
    let zeros = length-replicate {A = ℕ} page_size 0 in
    let (filled, upper, e1, len) =
      place_slots-fits desc block lower 0 (replicate page_size 0) page_size slots n e room
        (omega arith) (omega arith) in
    let (headed, e2, len') = write_page_header-fits filled lsn lower upper (omega arith) in
    let (c, e3) = pg_checksum_page-fits headed block (omega arith) in
    let (page, e4, _) = put_at-fits headed 8 (to_le 2 c) (omega arith) in
    (page, rw (enough, e1, e2, e3) e4)

-- `build_page` returns a page exactly when every slot encodes and the encoded tuples, each rounded
-- up to 8 bytes, fit the page beside its header and the line pointers.
pub build_page_iff :
    (desc : TableDesc) (block lsn : ℕ) (slots : List Slot)
    → ((page : Bytes) × (build_page desc block lsn slots ≡ ok page)) ↔ SlotsFit desc block slots
build_page_iff desc block lsn slots = (
  (λ (page, h).
      let (filled, upper, _, _, fits, e, _, _, _) = build_page-Stages desc block lsn slots page h in
      place_slots-takes desc block (24 + length slots * 4) 0 (replicate page_size 0) page_size slots
        filled upper fits e),
  (λ fit. build_page-fits desc block lsn slots fit),
)

-- ===== src/Reconstruct/Tuples.antt =====
-- A placed tuple, found again through its line pointer.
use open_ltap.Base.{
  ℕ, ◌+◌, ◌-◌, ◌*◌, ◌/◌, ◌^◌, ◌%◌, ◌≤◌, List, some, Bytes, Result, ok, false, ◌≡◌, refl, ap, subst,
  ◌∙◌, ◌==◌, length, take, drop, get_elem?, to_le, le, le-to_le_four, bind_ok, arith, slice?,
  slice?-take, get_elem?-lt, ◌>>=◌,
}
use open_ltap.Schema.{TableDesc}
use open_ltap.Fragment.{line_pointer}
use open_ltap.Reconstruct.{
  TupleSpec, RawTuple, Slot, tuple, raw, place_slot, place_tuple, build_page, page_size,
  encode_tuple, encode_raw_tuple,
}
use open_ltap.Reconstruct.Writes.{length-put_at, put_at-inside}
use open_ltap.Reconstruct.Placement.{place_tuple-ok}
use open_ltap.Reconstruct.Stamp.{build_page-PlacedAt, build_page-Stages, Stages-length}

abbrev pub item_of : ℕ → Bytes → ℕ
item_of upper tup = upper + 2 ^ 15 + length tup * 2 ^ 17

-- The line pointer `k` of the page leads to the tuple.
abbrev pub TupleAt : Bytes → ℕ → Bytes → Type 0
TupleAt page k tup =
    (upper : ℕ) × (upper + length tup ≤ page_size)
    × (slice? page (24 + k * 4) (24 + k * 4 + 4) ≡ some (to_le 4 (item_of upper tup)))
    × (slice? page upper (upper + length tup) ≡ some tup)

-- A tuple just placed, in a page that kept what is behind its pd_upper.
place_tuple-TupleAt :
    (before : Bytes) (upper lower : ℕ) (tup after : Bytes) (upper' id : ℕ) (page : Bytes) (k : ℕ)
    → place_tuple before upper lower tup ≡ ok (after, upper', id)
    → take 4 (drop (24 + k * 4) page) ≡ to_le 4 id
    → ((a n : ℕ) → upper' ≤ a → take n (drop a page) ≡ take n (drop a after))
    → length page ≡ length after
    → length page ≡ page_size
    → 24 + k * 4 + 4 ≤ page_size
    → TupleAt page k tup
place_tuple-TupleAt before upper lower tup after upper' id page k h item behind same long room =
    let (low, high, inside, id_is, e) = place_tuple-ok before upper lower tup after upper' id h in
    let len = length-put_at before upper' tup after e in
    (
      upper',
      omega arith,
      slice?-take page (24 + k * 4) 4 (omega arith) ∙ ap some (item ∙ ap (to_le 4) id_is),
      slice?-take page upper' (length tup) (omega arith)
          ∙ ap some
              (behind upper' (length tup) (omega arith) ∙ put_at-inside before upper' tup after e),
    )

-- An encoded tuple that is on the page.
abbrev pub EncodedAt : Result Bytes → Bytes → ℕ → Type 0
EncodedAt enc page k = (tup : Bytes) × (enc ≡ ok tup) × TupleAt page k tup

place_slot-EncodedAt :
    (enc : Result Bytes) (lower : ℕ) (before : Bytes) (up : ℕ) (after : Bytes) (up' id : ℕ)
    (page : Bytes) (k : ℕ)
    → (enc >>= λ tup. place_tuple before up lower tup) ≡ ok (after, up', id)
    → take 4 (drop (24 + k * 4) page) ≡ to_le 4 id
    → ((a n : ℕ) → up' ≤ a → take n (drop a page) ≡ take n (drop a after))
    → length page ≡ length after
    → length page ≡ page_size
    → 24 + k * 4 + 4 ≤ page_size
    → EncodedAt enc page k
place_slot-EncodedAt enc lower before up after up' id page k e item behind same long room =
    let (tup, e0, e1) = bind_ok enc e in
    (
      tup,
      e0,
      place_tuple-TupleAt before up lower tup after up' id page k e1 item behind same long room,
    )

-- The line pointers of a page that was built are all in front of the tuples.
build_page-room :
    (desc : TableDesc) (block lsn : ℕ) (slots : List Slot) (page : Bytes) (k : ℕ) (slot : Slot)
    → build_page desc block lsn slots ≡ ok page
    → get_elem? slots k ≡ some slot
    → (length page ≡ page_size) × (24 + k * 4 + 4 ≤ page_size) × ((k + 1) % 2 ^ 16 ≡ k + 1)
build_page-room desc block lsn slots page k slot h found =
    let stages = build_page-Stages desc block lsn slots page h in
    let fits = stages.4 in
    let inside = get_elem?-lt slots k slot found in
    (Stages-length desc block lsn slots page stages, omega arith, omega arith)

pub build_page-raw :
    (desc : TableDesc) (block lsn : ℕ) (slots : List Slot) (page : Bytes) (k : ℕ) (rt : RawTuple)
    → build_page desc block lsn slots ≡ ok page
    → get_elem? slots k ≡ some (raw rt)
    → EncodedAt (encode_raw_tuple block (k + 1) rt) page k
unfolding place_slot
build_page-raw desc block lsn slots page k rt h found =
    let (long, room, off) = build_page-room desc block lsn slots page k (raw rt) h found in
    let (before, up, after, up', id, e, item, behind, same, low) =
      build_page-PlacedAt desc block lsn slots page k (raw rt) h found in
    subst (λ n. EncodedAt (encode_raw_tuple block n rt) page k) off
      (place_slot-EncodedAt (encode_raw_tuple block ((k + 1) % 2 ^ 16) rt) (24 + length slots * 4)
        before up after up' id page k e item behind same long room)

pub build_page-tuple :
    (desc : TableDesc) (block lsn : ℕ) (slots : List Slot) (page : Bytes) (k : ℕ) (spec : TupleSpec)
    → build_page desc block lsn slots ≡ ok page
    → get_elem? slots k ≡ some (tuple spec)
    → EncodedAt (encode_tuple desc block (k + 1) spec) page k
unfolding place_slot
build_page-tuple desc block lsn slots page k spec h found =
    let (long, room, off) = build_page-room desc block lsn slots page k (tuple spec) h found in
    let (before, up, after, up', id, e, item, behind, same, low) =
      build_page-PlacedAt desc block lsn slots page k (tuple spec) h found in
    subst (λ n. EncodedAt (encode_tuple desc block n spec) page k) off
      (place_slot-EncodedAt (encode_tuple desc block ((k + 1) % 2 ^ 16) spec)
        (24 + length slots * 4) before up after up' id page k e item behind same long room)

-- What a line pointer says of its tuple.
pub line_pointer-TupleAt :
    (page : Bytes) (k : ℕ) (tup : Bytes) (at : TupleAt page k tup)
    → line_pointer page (k + 1) ≡ ok (record { off = at.0; flags = 1; len = length tup })
unfolding line_pointer
line_pointer-TupleAt page k tup (upper, fits, item, here) =
    let nonzero : (k + 1 == 0) ≡ false = ground arith in
    let index : k + 1 - 1 ≡ k = omega arith in
    let id = item_of upper tup in
    let number : le (to_le 4 id) ≡ id = le-to_le_four id (omega arith) in
    let o : id % 2 ^ 15 ≡ upper = omega arith in
    let f : id / 2 ^ 15 % 4 ≡ 1 = omega arith in
    let l : id / 2 ^ 17 ≡ length tup = omega arith in
    rw (nonzero, index, item, number, o, f, l) refl

-- ===== src/Reconstruct/Placement.antt =====
-- The loop of `build_page`: what every slot puts on the page is still there when the page is done.
use open_ltap.Base.{
  ℕ, zero, suc, ◌+◌, ◌-◌, ◌*◌, ◌^◌, ◌%◌, ◌≤◌, List, [], ◌∷◌, some, Bytes, ok, ◌≡◌, refl, sym, subst,
  ◌∙◌, ltb, ltb→le, ◌==◌, length, take, drop, get_elem?, to_le, length-to_le, bind_ok, bail_ok,
  corrupt, inl, inr, ◌⊎◌, arith,
}
use open_ltap.Schema.{TableDesc}
use open_ltap.Reconstruct.{
  Slot, tuple, raw, unused, dead, redirect, place_tuple, place_slot, place_slots, maxalign,
  encode_tuple, encode_raw_tuple,
}
use open_ltap.Reconstruct.Checksum.{put_at}
use open_ltap.Reconstruct.Writes.{
  put_at-ok, length-put_at, put_at-inside, put_at-before, put_at-behind,
}

-- Two pages that differ at most from `lo` on and below `hi`.
abbrev pub SameOutside : ℕ → ℕ → Bytes → Bytes → Type 0
SameOutside lo hi page page' =
    (length page' ≡ length page)
    × ((a n : ℕ) → (a + n ≤ lo) ⊎ (hi ≤ a) → take n (drop a page') ≡ take n (drop a page))

SameOutside-refl : (lo hi : ℕ) (page : Bytes) → SameOutside lo hi page page
SameOutside-refl lo hi page = (refl, λ a n h. refl)

abbrev pub widen :
    (lo hi lo' hi' a n : ℕ)
    → lo' ≤ lo
    → hi ≤ hi'
    → (a + n ≤ lo') ⊎ (hi' ≤ a)
    → (a + n ≤ lo) ⊎ (hi ≤ a)
widen lo hi lo' hi' a n p q (inl h) = inl (omega arith)
widen lo hi lo' hi' a n p q (inr h) = inr (omega arith)

pub SameOutside-widen :
    (lo hi lo' hi' : ℕ) (page page' : Bytes)
    → lo' ≤ lo
    → hi ≤ hi'
    → SameOutside lo hi page page'
    → SameOutside lo' hi' page page'
SameOutside-widen lo hi lo' hi' page page' p q (len, same) =
    (len, λ a n h. same a n (widen lo hi lo' hi' a n p q h))

pub SameOutside-then :
    (lo hi : ℕ) (page page' page'' : Bytes)
    → SameOutside lo hi page page'
    → SameOutside lo hi page' page''
    → SameOutside lo hi page page''
SameOutside-then lo hi page page' page'' (len, same) (len', same') =
    (len' ∙ len, λ a n h. same' a n h ∙ same a n h)

abbrev pub apart :
    (buf : Bytes) (at : ℕ) (bytes out : Bytes) (a n : ℕ)
    → put_at buf at bytes ≡ ok out
    → (a + n ≤ at) ⊎ (at + length bytes ≤ a)
    → take n (drop a out) ≡ take n (drop a buf)
apart buf at bytes out a n e (inl h) = put_at-before buf at bytes out a n e h
apart buf at bytes out a n e (inr h) = put_at-behind buf at bytes out a n e h

pub put_at-SameOutside :
    (buf : Bytes) (at : ℕ) (bytes out : Bytes)
    → put_at buf at bytes ≡ ok out
    → SameOutside at (at + length bytes) buf out
put_at-SameOutside buf at bytes out e =
    (length-put_at buf at bytes out e, λ a n h. apart buf at bytes out a n e h)

-- A placed tuple stands at the new pd_upper, between pd_lower and the old one.
pub place_tuple-ok :
    (page : Bytes) (upper lower : ℕ) (tup page' : Bytes) (upper' id : ℕ)
    → place_tuple page upper lower tup ≡ ok (page', upper', id)
    → (lower ≤ upper')
      × (upper' + length tup ≤ upper)
      × (upper' + length tup ≤ length page)
      × (id ≡ upper' + 2 ^ 15 + length tup * 2 ^ 17)
      × (put_at page upper' tup ≡ ok page')
unfolding place_tuple
place_tuple-ok page upper lower tup page' upper' id h =
    let size = maxalign (length tup) in
    let (fits, h1) = bail_ok (ltb upper (lower + size)) corrupt h in
    let room = ltb→le upper (lower + size) fits in
    let (written, e, h2) = bind_ok (put_at page (upper - size) tup) h1 in
    let same : written ≡ page' = cc in
    let at : upper - size ≡ upper' = cc in
    let id_is : upper - size + 2 ^ 15 + length tup * 2 ^ 17 ≡ id = cc in
    let e' : put_at page upper' tup ≡ ok page' = cc in
    let (inside, _) = put_at-ok page upper' tup page' e' in
    (omega arith, omega arith, omega arith, omega arith, e')

-- A slot changes the page at most between pd_lower and pd_upper, and there up to the new pd_upper
-- only by what is in front of the old one.
abbrev pub SlotPlaced : ℕ → ℕ → Bytes → ℕ → Bytes → Type 0
SlotPlaced lower upper page upper' page' =
    (lower ≤ upper') × (upper' ≤ upper) × SameOutside lower upper page page'

SlotPlaced-refl :
    (lower upper : ℕ) (page page' : Bytes) (upper' : ℕ)
    → lower ≤ upper
    → page ≡ page'
    → upper ≡ upper'
    → SlotPlaced lower upper page upper' page'
SlotPlaced-refl lower upper page page' upper' r same at = (
  omega arith,
  omega arith,
  subst (SameOutside lower upper page) same (SameOutside-refl lower upper page),
)

place_tuple-SlotPlaced :
    (page : Bytes) (upper lower : ℕ) (tup page' : Bytes) (upper' id : ℕ)
    → place_tuple page upper lower tup ≡ ok (page', upper', id)
    → SlotPlaced lower upper page upper' page'
place_tuple-SlotPlaced page upper lower tup page' upper' id h =
    let (low, high, inside, id_is, e) = place_tuple-ok page upper lower tup page' upper' id h in
    let kept = put_at-SameOutside page upper' tup page' e in
    (
      low,
      omega arith,
      SameOutside-widen upper' (upper' + length tup) lower upper page page' low high kept,
    )

pub place_slot-SlotPlaced :
    (desc : TableDesc) (block lower off : ℕ) (page : Bytes) (upper : ℕ) (slot : Slot)
    (page' : Bytes) (upper' id : ℕ)
    → lower ≤ upper
    → place_slot desc block lower off page upper slot ≡ ok (page', upper', id)
    → SlotPlaced lower upper page upper' page'
unfolding place_slot
place_slot-SlotPlaced desc block lower off page upper (tuple spec) page' upper' id r h =
    let (tup, _, h1) = bind_ok (encode_tuple desc block off spec) h in
    place_tuple-SlotPlaced page upper lower tup page' upper' id h1
place_slot-SlotPlaced desc block lower off page upper (raw rt) page' upper' id r h =
    let (tup, _, h1) = bind_ok (encode_raw_tuple block off rt) h in
    place_tuple-SlotPlaced page upper lower tup page' upper' id h1
place_slot-SlotPlaced desc block lower off page upper unused page' upper' id r h =
    let same : page ≡ page' = cc in
    let at : upper ≡ upper' = cc in SlotPlaced-refl lower upper page page' upper' r same at
place_slot-SlotPlaced desc block lower off page upper dead page' upper' id r h =
    let same : page ≡ page' = cc in
    let at : upper ≡ upper' = cc in SlotPlaced-refl lower upper page page' upper' r same at
place_slot-SlotPlaced desc block lower off page upper (redirect target) page' upper' id r h =
    let (_, h1) = bail_ok (target == 0) corrupt h in
    let same : page ≡ page' = cc in
    let at : upper ≡ upper' = cc in SlotPlaced-refl lower upper page page' upper' r same at

-- The rest of the loop leaves the line pointers before it, and what is behind pd_upper.
pub place_slots-SameOutside :
    (desc : TableDesc) (block lower i : ℕ) (page : Bytes) (upper : ℕ) (slots : List Slot)
    (page' : Bytes) (upper' : ℕ)
    → lower ≤ upper
    → 24 + (i + length slots) * 4 ≤ lower
    → place_slots desc block lower i page upper slots ≡ ok (page', upper')
    → SameOutside (24 + i * 4) upper page page'
unfolding place_slots
place_slots-SameOutside desc block lower i page upper [] page' upper' r s h =
    let same : page ≡ page' = cc in
    subst (SameOutside (24 + i * 4) upper page) same (SameOutside-refl (24 + i * 4) upper page)
place_slots-SameOutside desc block lower i page upper (slot ∷ slots) page' upper' r s h =
    let ((placed, up, id), e, h1) =
      bind_ok (place_slot desc block lower ((i + 1) % 2 ^ 16) page upper slot) h in
    let (written, w, h2) = bind_ok (put_at placed (24 + i * 4) (to_le 4 id)) h1 in
    let lo = 24 + i * 4 in
    let (low, high, kept) =
      place_slot-SlotPlaced desc block lower ((i + 1) % 2 ^ 16) page upper slot placed up id r e in
    let four = length-to_le 4 id in
    let first =
      SameOutside-widen lower upper lo upper page placed (omega arith) (omega arith) kept in
    let second =
      SameOutside-widen lo (lo + length (to_le 4 id)) lo upper placed written (omega arith)
        (omega arith) (put_at-SameOutside placed lo (to_le 4 id) written w) in
    let rest =
      place_slots-SameOutside desc block lower (i + 1) written up slots page' upper' low
        (omega arith) h2 in
    let third =
      SameOutside-widen (24 + (i + 1) * 4) up lo upper written page' (omega arith) high rest in
    SameOutside-then lo upper page placed page' first
      (SameOutside-then lo upper placed written page' second third)

-- In the finished page, a slot's item id, and the bytes behind its pd_upper as the slot left them.
abbrev pub PlacedAt : TableDesc → ℕ → ℕ → ℕ → Slot → ℕ → Bytes → Type 0
PlacedAt desc block lower off slot idx page' =
    (before : Bytes) × (upper : ℕ) × (after : Bytes) × (upper' : ℕ) × (id : ℕ) × (place_slot desc
        block lower off before upper slot
      ≡ ok (after, upper', id))
    × (take 4 (drop idx page') ≡ to_le 4 id)
    × ((a n : ℕ) → upper' ≤ a → take n (drop a page') ≡ take n (drop a after))
    × (length page' ≡ length after)
    × (lower ≤ upper')

pub place_slots-PlacedAt :
    (desc : TableDesc) (block lower i : ℕ) (page : Bytes) (upper : ℕ) (slots : List Slot)
    (page' : Bytes) (upper' k j : ℕ) (slot : Slot)
    → lower ≤ upper
    → 24 + (i + length slots) * 4 ≤ lower
    → place_slots desc block lower i page upper slots ≡ ok (page', upper')
    → get_elem? slots k ≡ some slot
    → j ≡ i + k
    → PlacedAt desc block lower ((j + 1) % 2 ^ 16) slot (24 + j * 4) page'
unfolding place_slots
place_slots-PlacedAt desc block lower i page upper [] page' upper' k j slot r s h found at =
    absurd cc
place_slots-PlacedAt desc block lower i page upper (s ∷ slots) page' upper' zero j slot r t h found
      at =
    let ((placed, up, id), e, h1) =
      bind_ok (place_slot desc block lower ((i + 1) % 2 ^ 16) page upper s) h in
    let (written, w, h2) = bind_ok (put_at placed (24 + i * 4) (to_le 4 id)) h1 in
    let (low, high, kept) =
      place_slot-SlotPlaced desc block lower ((i + 1) % 2 ^ 16) page upper s placed up id r e in
    let rest =
      place_slots-SameOutside desc block lower (i + 1) written up slots page' upper' low
        (omega arith) h2 in
    let four = length-to_le 4 id in
    let kept' = put_at-SameOutside placed (24 + i * 4) (to_le 4 id) written w in
    let i_is : j ≡ i = omega arith in
    let s_is : s ≡ slot = cc in
    (
      page,
      upper,
      placed,
      up,
      id,
      subst
          (λ x.
            place_slot desc block lower ((x + 1) % 2 ^ 16) page upper slot ≡ ok (placed, up, id))
          (sym i_is)
          (subst
            (λ x. place_slot desc block lower ((i + 1) % 2 ^ 16) page upper x ≡ ok (placed, up, id))
            s_is e),
      subst (λ x. take 4 (drop (24 + x * 4) page') ≡ to_le 4 id) (sym i_is)
          (rest.1 (24 + i * 4) 4 (inl (omega arith))
            ∙ subst (λ x. take x (drop (24 + i * 4) written) ≡ to_le 4 id) four
                (put_at-inside placed (24 + i * 4) (to_le 4 id) written w)),
      (λ a n behind. rest.1 a n (inr behind) ∙ kept'.1 a n (inr (omega arith))),
      rest.0 ∙ kept'.0,
      low,
    )
place_slots-PlacedAt desc block lower i page upper (s ∷ slots) page' upper' (suc k) j slot r t h
      found at =
    let ((placed, up, id), e, h1) =
      bind_ok (place_slot desc block lower ((i + 1) % 2 ^ 16) page upper s) h in
    let (written, w, h2) = bind_ok (put_at placed (24 + i * 4) (to_le 4 id)) h1 in
    let (low, high, kept) =
      place_slot-SlotPlaced desc block lower ((i + 1) % 2 ^ 16) page upper s placed up id r e in
    place_slots-PlacedAt desc block lower (i + 1) written up slots page' upper' k j slot low
      (omega arith) h2 found (omega arith)

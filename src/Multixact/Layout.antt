-- ===== src/Multixact/Layout.antt =====
-- The packed layout of the two SLRUs.
use open_ltap.Base.{ℕ, ◌+◌, ◌*◌, ◌/◌, ◌≤◌, ◌<◌, ◌≡◌, arith}
use open_ltap.Multixact.{offset_page_entry, member_location}

-- A member's flag byte and its xid lie inside its page, and the location determines the offset.
member_location_bounds :
    (offset : ℕ)
    → let (page, group_off, member_in_group) = member_location offset in
      (member_in_group < 4)
      × (group_off + 4 + member_in_group * 4 + 4 ≤ 8192)
      × (page * 1636 + group_off / 5 + member_in_group ≡ offset)
unfolding member_location
member_location_bounds offset = omega arith

-- A multixact's offset entry lies inside its page, and the entry determines the multixact.
offset_page_entry_bounds :
    (multi : ℕ)
    → let (page, byteoff) = offset_page_entry multi in
      (byteoff + 4 ≤ 8192) × (page * 2048 + byteoff / 4 ≡ multi)
unfolding offset_page_entry
offset_page_entry_bounds multi = omega arith

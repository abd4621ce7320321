-- ===== src/Multixact.antt =====
-- src/multixact.rs: the updater of a multixact, from the offsets and the members SLRU.
pub mod Layout
pub mod Updater
use open_ltap.Base.{
  ℕ, zero, suc, ◌+◌, ◌-◌, ◌*◌, ◌/◌, ◌%◌, ◌^◌, Option, none, some, Bytes, Result, ok, err, ◌>>=◌,
  ok_or, leb, ltb, if◌then◌else◌, slice?, get?, le, truncated, unbounded_multixact,
}

abbrev pub offset_sz : ℕ
offset_sz = 4

abbrev pub offsets_per_page : ℕ
offsets_per_page = 8192 / offset_sz

abbrev pub flagbytes_per_group : ℕ
flagbytes_per_group = 4

abbrev pub members_per_membergroup : ℕ
members_per_membergroup = flagbytes_per_group

abbrev pub membergroup_size : ℕ
membergroup_size = flagbytes_per_group + members_per_membergroup * 4

abbrev pub membergroups_per_page : ℕ
membergroups_per_page = 8192 / membergroup_size

abbrev pub members_per_page : ℕ
members_per_page = membergroups_per_page * members_per_membergroup

abbrev pub status_for_update : ℕ
status_for_update = 3

pub record MultiXactSource : Type 0 where
  pub offsets_page : ℕ → Result Bytes
  pub members_page : ℕ → Result Bytes

unfoldable pub offset_page_entry : ℕ → ℕ × ℕ
offset_page_entry multi = (multi / offsets_per_page, multi % offsets_per_page * offset_sz)

unfoldable pub read_offset : MultiXactSource → ℕ → Result ℕ
unfolding offset_page_entry slice? le
read_offset src multi = do
  let (pageno, byteoff) = offset_page_entry multi
  page ← src.offsets_page pageno
  b ← ok_or (slice? page byteoff (byteoff + offset_sz)) truncated
  ok (le b)

-- (page, byte offset of the member's group in it, the member's index in the group).
unfoldable pub member_location : ℕ → ℕ × ℕ × ℕ
member_location offset =
    let member_in_page = offset % members_per_page in
    (
      offset / members_per_page,
      member_in_page / members_per_membergroup % membergroups_per_page * membergroup_size,
      member_in_page % members_per_membergroup,
    )

-- (xid, status).
unfoldable pub read_member : MultiXactSource → ℕ → Result (ℕ × ℕ)
unfolding member_location slice? get? le
read_member src offset = do
  let (pageno, group_off, member_in_group) = member_location offset
  page ← src.members_page pageno
  status ← ok_or (get? page (group_off + member_in_group)) truncated
  let xid_off = group_off + flagbytes_per_group + member_in_group * 4
  xid_bytes ← ok_or (slice? page xid_off (xid_off + 4)) truncated
  ok (le xid_bytes, status)

-- `for off in start..end`, by the number of rounds left.
unfoldable pub scan : MultiXactSource → ℕ → ℕ → Result (Option ℕ)
scan src zero off = ok none
scan src (suc n) off =
    let rest = scan src n (off + 1) in
    do
      (xid, status) ← read_member src off
      if ltb status_for_update status then ok (some xid) else rest

-- `wrapping_add(1)` is modulo 2 ^ 32.
unfoldable pub resolve_updater : MultiXactSource → ℕ → Result (Option ℕ)
unfolding read_offset scan
resolve_updater src multi = do
  start ← read_offset src multi
  end ← read_offset src ((multi + 1) % 2 ^ 32)
  if leb end start then err unbounded_multixact else scan src (end - start) start

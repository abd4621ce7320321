-- ===== src/Reconstruct/Capacity.antt =====
-- src/reconstruct.rs: how much of a page the slots take, by the encoders alone.
use open_ltap.Base.{
  ℕ, ◌+◌, ◌%◌, ◌^◌, List, [], ◌∷◌, Result, ok, ◌>>=◌, ◌>>◌, bail_if, corrupt, ◌==◌, length,
}
use open_ltap.Schema.{TableDesc}
use open_ltap.Reconstruct.{
  Slot, tuple, raw, unused, dead, redirect, maxalign, encode_tuple, encode_raw_tuple,
}

-- A tuple's bytes, aligned; the other kinds of slot are line pointers only.
unfoldable pub slot_size : TableDesc → ℕ → ℕ → Slot → Result ℕ
slot_size desc block offnum (tuple spec) = do
  tup ← encode_tuple desc block offnum spec
  ok (maxalign (length tup))
slot_size desc block offnum (raw rt) = do
  tup ← encode_raw_tuple block offnum rt
  ok (maxalign (length tup))
slot_size desc block offnum unused = ok 0
slot_size desc block offnum dead = ok 0
slot_size desc block offnum (redirect target) = do bail_if (target == 0) corrupt; ok 0

-- The slots from index `i` on.
unfoldable pub slots_size : TableDesc → ℕ → ℕ → List Slot → Result ℕ
unfolding slot_size
slots_size desc block i [] = ok 0
slots_size desc block i (slot ∷ slots) = do
  n ← slot_size desc block ((i + 1) % 2 ^ 16) slot
  m ← slots_size desc block (i + 1) slots
  ok (n + m)

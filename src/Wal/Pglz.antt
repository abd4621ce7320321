-- ===== src/Wal/Pglz.antt =====
-- src/wal/heap.rs, `pglz_decompress`. `src` is what is left to read, and a short end of input is
-- an error or a panic where the source indexes.

pub mod Safety
use open_ltap.Base.{
  ◌^◌, Option, some, none, ℕ, zero, suc, ◌+◌, ◌-◌, ◌*◌, ◌/◌, ◌%◌, Bool, true, false, not, ◌||◌, [],
  ◌∷◌, ◌++◌, Bytes, Result, ok, err, panic, ◌>>=◌, ◌>>◌, bail_if, or_panic, ltb, leb, ◌==◌,
  if◌then◌else◌, length, get_elem?, has_bit, truncated, corrupt, out_of_fuel,
}

-- `for _ in 0..len`, with the destination's bound.
unfoldable pub copy : ℕ → ℕ → ℕ → Bytes → Result Bytes
copy zero off rawsize out = ok out
copy (suc len) off rawsize out =
    let rest = (do
      b ← or_panic (get_elem? out (length out - off))
      copy len off rawsize (out ++ b ∷ [])) in
    if leb rawsize (length out) then ok out else rest

-- The back-reference of `len` bytes at `off`, when `src` stands behind it.
unfoldable pub back_reference : ℕ → ℕ → ℕ → Bytes → Bytes → Result (Bytes × Bytes)
unfolding copy
back_reference len off rawsize src out = do
  bail_if (off == 0 || ltb (length out) off) corrupt
  out' ← copy len off rawsize out
  ok (src, out')

-- A length of 18 is extended by another byte.
unfoldable pub extended : ℕ → ℕ → ℕ → Bytes → Bytes → Result (Bytes × Bytes)
unfolding back_reference
extended len off rawsize [] out =
    if len == 18 then err truncated else back_reference len off rawsize [] out
extended len off rawsize (c ∷ src) out =
    if len == 18
    then back_reference (len + c) off rawsize src out
    else back_reference len off rawsize (c ∷ src) out

unfoldable pub reference : ℕ → Bytes → Bytes → Result (Bytes × Bytes)
unfolding extended
reference rawsize (a ∷ b ∷ src) out = extended (a % 16 + 3) (a / 16 * 256 + b) rawsize src out
reference rawsize _ out = err truncated

unfoldable pub literal : Bytes → Bytes → Result (Bytes × Bytes)
literal [] out = panic
literal (b ∷ src) out = ok (src, out ++ b ∷ [])

abbrev pub is_empty : Bytes → Bool
is_empty [] = true
is_empty (b ∷ bs) = false

-- A set control bit announces a back-reference.
unfoldable pub item : Bool → ℕ → Bytes → Bytes → Result (Bytes × Bytes)
unfolding reference literal
item true rawsize src out = reference rawsize src out
item false rawsize src out = literal src out

-- `for bit in 0..8`, by the number of bits left.
unfoldable pub items : ℕ → ℕ → ℕ → ℕ → Bytes → Bytes → Result (Bytes × Bytes)
unfolding item has_bit
items zero bit ctrl rawsize src out = ok (src, out)
items (suc n) bit ctrl rawsize src out =
    let rest = (do
      (src', out') ← item (has_bit ctrl bit) rawsize src out
      items n (bit + 1) ctrl rawsize src' out') in
    if is_empty src || leb rawsize (length out) then ok (src, out) else rest

-- The outer loop: each round reads a control byte, so `length src` rounds are enough.
unfoldable pub groups : ℕ → ℕ → Bytes → Bytes → Result Bytes
groups fuel rawsize [] out = ok out
groups zero rawsize (ctrl ∷ src) out = if leb rawsize (length out) then ok out else err out_of_fuel
groups (suc fuel) rawsize (ctrl ∷ src) out =
    let rest = (do (src', out') ← items 8 0 ctrl rawsize src out; groups fuel rawsize src' out') in
    if leb rawsize (length out) then ok out else rest

-- The bound check at the end.
unfoldable pub of_size : ℕ → Bytes → Result Bytes
of_size rawsize out = if length out == rawsize then ok out else err corrupt

-- `Vec::with_capacity(rawsize)` panics above `isize::MAX`.
unfoldable pub pglz_decompress : Bytes → ℕ → Result Bytes
unfolding groups of_size
pglz_decompress src rawsize = do
  or_panic (if ltb rawsize (2 ^ 63) then some tt else none)
  out ← groups (length src) rawsize src []
  of_size rawsize out

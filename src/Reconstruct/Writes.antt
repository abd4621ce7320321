-- ===== src/Reconstruct/Writes.antt =====
-- What a write into a page leaves behind, inside its range and outside of it.
use open_ltap.Base.{
  drop-drop, ℕ, ◌+◌, ◌-◌, ◌≤◌, List, ◌++◌, Bytes, ok, ◌≡◌, refl, sym, ap, ◌∙◌, leb, leb→le, length,
  take, drop, take-append_le, drop-append_le, drop-append_ge, take_all, take-append-drop,
  length-append, length-take, length-drop, Bool-cases, inl, inr, arith,
}
use open_ltap.Reconstruct.Checksum.{put_at}

module _ {ℓ} {A : Type ℓ} where
  -- A list cut in two at `at`, looked at in one of the parts.
  pub window-left :
      (a n : ℕ) (xs ys : List A)
      → a + n ≤ length xs
      → take n (drop a (xs ++ ys)) ≡ take n (drop a xs)
  window-left a n xs ys h =
      rw (drop-append_le a xs ys (omega arith))
        (take-append_le n (drop a xs) ys (omega (arith, length-drop a xs)))

  pub window-right :
      (k n : ℕ) (xs ys : List A) → take n (drop (length xs + k) (xs ++ ys)) ≡ take n (drop k ys)
  window-right k n xs ys = ap (take n) (drop-append_ge xs ys (length xs + k) k refl)

pub put_at-ok :
    (buf : Bytes) (at : ℕ) (bytes out : Bytes)
    → put_at buf at bytes ≡ ok out
    → (at + length bytes ≤ length buf)
      × (out ≡ take at buf ++ (bytes ++ drop (at + length bytes) buf))
unfolding put_at
put_at-ok buf at bytes out h = elim (Bool-cases (leb (at + length bytes) (length buf))) [
  | inl e ↦ (leb→le (at + length bytes) (length buf) e, cc)
  | inr e ↦ cc
]

pub length-put_at :
    (buf : Bytes) (at : ℕ) (bytes out : Bytes)
    → put_at buf at bytes ≡ ok out
    → length out ≡ length buf
length-put_at buf at bytes out h =
    let (fits, e) = put_at-ok buf at bytes out h in
    rw e (
      omega (
        arith,
        length-append (take at buf) (bytes ++ drop (at + length bytes) buf),
        length-append bytes (drop (at + length bytes) buf),
        length-take at buf,
        length-drop (at + length bytes) buf,
      ))

-- What was written stands where it was written.
pub put_at-inside :
    (buf : Bytes) (at : ℕ) (bytes out : Bytes)
    → put_at buf at bytes ≡ ok out
    → take (length bytes) (drop at out) ≡ bytes
put_at-inside buf at bytes out h =
    let (fits, e) = put_at-ok buf at bytes out h in
    let rest = drop (at + length bytes) buf in
    rw
      (
        e,
        drop-append_ge (take at buf) (bytes ++ rest) at 0 (omega (arith, length-take at buf)),
        take-append_le (length bytes) bytes rest (omega arith),
      )
      (take_all (length bytes) bytes refl)

-- Everything before and behind it is as it was.
pub put_at-before :
    (buf : Bytes) (at : ℕ) (bytes out : Bytes) (a n : ℕ)
    → put_at buf at bytes ≡ ok out
    → a + n ≤ at
    → take n (drop a out) ≡ take n (drop a buf)
put_at-before buf at bytes out a n h low =
    let (fits, e) = put_at-ok buf at bytes out h in
    let rest = drop (at + length bytes) buf in
    let short : a + n ≤ length (take at buf) = omega (arith, length-take at buf) in
    let here = window-left a n (take at buf) (bytes ++ rest) short in
    let there = window-left a n (take at buf) (drop at buf) short in
    let whole = ap (λ z. take n (drop a z)) (take-append-drop at buf) in
    rw e (here ∙ sym there ∙ whole)

pub put_at-behind :
    (buf : Bytes) (at : ℕ) (bytes out : Bytes) (a n : ℕ)
    → put_at buf at bytes ≡ ok out
    → at + length bytes ≤ a
    → take n (drop a out) ≡ take n (drop a buf)
put_at-behind buf at bytes out a n h high =
    let (fits, e) = put_at-ok buf at bytes out h in
    let m = at + length bytes in
    let rest = drop m buf in
    let k = a - m in
    let at_len : length (take at buf) ≡ at = omega (arith, length-take at buf) in
    let k' = a - at in
    rw
      (
        e,
        drop-append_ge (take at buf) (bytes ++ rest) a k' (omega arith),
        drop-append_ge bytes rest k' k (omega arith),
        drop-drop k m buf,
      )
      (ap (λ z. take n (drop z buf)) (omega arith))

-- A second write of as many bytes to the same place hides the first.
pub put_at-put_at :
    (buf : Bytes) (at : ℕ) (first out second : Bytes)
    → put_at buf at first ≡ ok out
    → length second ≡ length first
    → put_at out at second ≡ put_at buf at second
unfolding put_at
put_at-put_at buf at first out second h same =
    let (fits, e) = put_at-ok buf at first out h in
    let m = at + length first in
    let rest = drop m buf in
    let len : length out ≡ length buf = length-put_at buf at first out h in
    let front : take at out ≡ take at buf = put_at-before buf at first out 0 at h (omega arith) in
    let back : drop m out ≡ drop m buf = rw e (
      rw
        (
          drop-append_ge (take at buf) (first ++ rest) m (length first)
              (omega (arith, length-take at buf)),
          drop-append_ge first rest (length first) 0 (omega arith),
        )
        refl) in
    rw (same, len, front, back) refl

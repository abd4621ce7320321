-- ===== src/Reconstruct/Writable.antt =====
-- The writes of `build_page` and its checksum are inside their buffers.
use Prim.Native.Nat.{bit_xor}
use native.Mathlib.Nat.{suc-mul}
use open_ltap.Base.{
  ℕ, zero, suc, ◌+◌, ◌*◌, ◌/◌, ◌^◌, ◌%◌, ◌≤◌, List, [], ◌∷◌, ◌++◌, Bytes, ok, ◌≡◌, refl, ap, le→leb,
  length, take, drop, to_le, words4, arith,
}
use open_ltap.Reconstruct.{write_page_header, page_size}
use open_ltap.Reconstruct.Checksum.{
  put_at, pg_checksum_page, pg_checksum_block, mix, mix_words, mix_rounds, mix_zeros, xor_all,
  checksum_base_offsets,
}
use open_ltap.Reconstruct.Writes.{length-put_at}

put_at-in :
    (buf : Bytes) (at : ℕ) (bytes : Bytes)
    → at + length bytes ≤ length buf
    → put_at buf at bytes ≡ ok (take at buf ++ (bytes ++ drop (at + length bytes) buf))
unfolding put_at
put_at-in buf at bytes fits = let e = le→leb (at + length bytes) (length buf) fits in rw e refl

pub put_at-fits :
    (buf : Bytes) (at : ℕ) (bytes : Bytes)
    → at + length bytes ≤ length buf
    → (out : Bytes) × (put_at buf at bytes ≡ ok out) × (length out ≡ length buf)
put_at-fits buf at bytes fits =
    let out = take at buf ++ (bytes ++ drop (at + length bytes) buf) in
    let e = put_at-in buf at bytes fits in (out, e, length-put_at buf at bytes out e)

pub write_page_header-fits :
    (page : Bytes) (lsn lower upper : ℕ)
    → 24 ≤ length page
    → (out : Bytes) × (write_page_header page lsn lower upper ≡ ok out) × (length out ≡ length page)
unfolding write_page_header to_le
write_page_header-fits page lsn lower upper long =
    let (a, ea, la) = put_at-fits page 0 (to_le 4 (lsn / 2 ^ 32)) (omega arith) in
    let (b, eb, lb) = put_at-fits a 4 (to_le 4 lsn) (omega arith) in
    let (c, ec, lc) = put_at-fits b 12 (to_le 2 lower) (omega arith) in
    let (d, ed, ld) = put_at-fits c 14 (to_le 2 upper) (omega arith) in
    let (e, ee, le) = put_at-fits d 16 (to_le 2 page_size) (omega arith) in
    let (f, ef, lf) = put_at-fits e 18 (to_le 2 (page_size + 4)) (omega arith) in
    (f, rw (ea, eb, ec, ed, ee) ef, omega arith)

length-words4 : (n : ℕ) (bs : Bytes) → n * 4 ≤ length bs → n ≤ length (words4 bs)
unfolding words4
length-words4 zero bs h = omega arith
length-words4 (suc n) [] h = omega arith
length-words4 (suc n) (a ∷ []) h = omega arith
length-words4 (suc n) (a ∷ b ∷ []) h = omega arith
length-words4 (suc n) (a ∷ b ∷ c ∷ []) h = omega arith
length-words4 (suc n) (a ∷ b ∷ c ∷ d ∷ bs) h =
    let rest = length-words4 n bs (omega arith) in omega arith

mix_words-fits :
    (sums words : List ℕ)
    → length sums ≤ length words
    → (mixed : List ℕ) × (left : List ℕ) × (mix_words sums words ≡ ok (mixed, left))
      × (length mixed ≡ length sums)
      × (length sums + length left ≡ length words)
unfolding mix_words
mix_words-fits [] words h = ([], words, refl, refl, omega arith)
mix_words-fits (s ∷ sums) [] h = absurd (omega arith)
mix_words-fits (s ∷ sums) (w ∷ words) h =
    let (mixed, left, e, same, rest) = mix_words-fits sums words (omega arith) in
    (mix s w ∷ mixed, left, rw e refl, omega arith, omega arith)

mix_rounds-fits :
    (n : ℕ) (sums words : List ℕ)
    → n * length sums ≤ length words
    → (mixed : List ℕ) × (mix_rounds n sums words ≡ ok mixed)
unfolding mix_rounds
mix_rounds-fits zero sums words h = (sums, refl)
mix_rounds-fits (suc n) sums words h =
    let split : suc n * length sums ≡ n * length sums + length sums = suc-mul n (length sums) in
    let (first, left, e, same, rest) = mix_words-fits sums words (omega arith) in
    let product : n * length first ≡ n * length sums = ap (λ k. n * k) same in
    let (mixed, e') = mix_rounds-fits n first left (omega arith) in (mixed, rw e e')

pub pg_checksum_page-fits :
    (page : Bytes) (block : ℕ)
    → length page ≡ page_size
    → (c : ℕ) × (pg_checksum_page page block ≡ ok c)
unfolding pg_checksum_page pg_checksum_block
pg_checksum_page-fits page block long =
    let (buf, e, same) = put_at-fits page 8 (0 ∷ 0 ∷ []) (omega arith) in
    let enough = length-words4 2048 buf (omega arith) in
    let (sums, e') = mix_rounds-fits 64 checksum_base_offsets (words4 buf) (omega arith) in
    (bit_xor (xor_all (mix_zeros (mix_zeros sums)) 0) block % 65535 + 1, rw (e, e') refl)

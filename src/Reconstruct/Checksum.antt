-- ===== src/Reconstruct/Checksum.antt =====
-- src/reconstruct.rs: writes into a page, and the checksum that PostgreSQL stamps a page with.
use Prim.Native.Nat.{bit_xor}
use open_ltap.Base.{
  ℕ, zero, suc, ◌+◌, ◌*◌, ◌/◌, ◌%◌, ◌^◌, List, [], ◌∷◌, ◌++◌, Bytes, Result, ok, panic, ◌>>=◌, leb,
  if◌then◌else◌, length, take, drop, words4,
}

-- `copy_from_slice` into `buf[at..at + bytes.len()]`.
unfoldable pub put_at : Bytes → ℕ → Bytes → Result Bytes
put_at buf at bytes =
    if leb (at + length bytes) (length buf)
    then ok (take at buf ++ (bytes ++ drop (at + length bytes) buf))
    else panic

abbrev pub checksum_base_offsets : List ℕ
checksum_base_offsets =
    0x5B1F36E9 ∷ 0xB8525960 ∷ 0x02AB50AA ∷ 0x1DE66D2A ∷ 0x79FF467A ∷ 0x9BB9F8A3 ∷ 0x217E7CD2
    ∷ 0x83E13D2C ∷ 0xF8D4474F ∷ 0xE39EB970 ∷ 0x42C6AE16 ∷ 0x993216FA ∷ 0x7B093B5D ∷ 0x98DAFF3C
    ∷ 0xF718902A ∷ 0x0B1C9CDB ∷ 0xE58F764B ∷ 0x187636BC ∷ 0x5D7B3BB1 ∷ 0xE73DE7DE ∷ 0x92BEC979
    ∷ 0xCCA6C0B2 ∷ 0x304A0979 ∷ 0x85AA43D4 ∷ 0x783125BB ∷ 0x6CA8EAA2 ∷ 0xE407EAC6 ∷ 0x4B5CFC3E
    ∷ 0x9FBF8C76 ∷ 0x15CA20BE ∷ 0xF2CA9FD3 ∷ 0x959BD756 ∷ []

-- A word mixed into a sum: FNV_PRIME is 16777619.
unfoldable pub mix : ℕ → ℕ → ℕ
mix sum value = let tmp = bit_xor sum value in bit_xor (tmp * 16777619 % 2 ^ 32) (tmp / 2 ^ 17)

-- One word for every sum, and the words left.
unfoldable pub mix_words : List ℕ → List ℕ → Result (List ℕ × List ℕ)
mix_words [] words = ok ([], words)
mix_words (s ∷ sums) [] = panic
mix_words (s ∷ sums) (w ∷ words) = do (rest, left) ← mix_words sums words; ok (mix s w ∷ rest, left)

unfoldable pub mix_rounds : ℕ → List ℕ → List ℕ → Result (List ℕ)
mix_rounds zero sums words = ok sums
mix_rounds (suc n) sums words = do (mixed, left) ← mix_words sums words; mix_rounds n mixed left

unfoldable pub mix_zeros : List ℕ → List ℕ
mix_zeros [] = []
mix_zeros (s ∷ sums) = mix s 0 ∷ mix_zeros sums

unfoldable pub xor_all : List ℕ → ℕ → ℕ
xor_all [] acc = acc
xor_all (s ∷ sums) acc = xor_all sums (bit_xor acc s)

-- 64 rounds over the page, then two of zeros.
unfoldable pub pg_checksum_block : Bytes → Result ℕ
unfolding words4
pg_checksum_block page = do
  sums ← mix_rounds 64 checksum_base_offsets (words4 page)
  ok (xor_all (mix_zeros (mix_zeros sums)) 0)

unfoldable pub pg_checksum_page : Bytes → ℕ → Result ℕ
pg_checksum_page page blkno = do
  buf ← put_at page 8 (0 ∷ 0 ∷ [])
  sum ← pg_checksum_block buf
  ok (bit_xor sum blkno % 65535 + 1)

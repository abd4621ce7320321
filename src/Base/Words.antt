-- ===== src/Base/Words.antt =====
-- Bytes as numbers, little-endian words, and Rust's checked and unchecked slices.
use Prim.Native.Nat.{ℕ, zero, suc, ◌+◌, ◌-◌, ◌*◌, ◌/◌, ◌%◌, ◌^◌, ◌<◌, ◌≤◌}
use mathlib.Core.Path.{◌≡◌, refl, ap}
use mathlib.Core.Bool.{Bool, true, ◌&&◌}
use mathlib.Core.List.{List, [], ◌∷◌}
use mathlib.Core.Option.{Option, none, some}
use native.Mathlib.Omega.{arith}
use native.Mathlib.Nat.{lt-div-mul-add}
use open_ltap.Base.Tests.{leb, ltb, le→leb, ◌==◌, if◌then◌else◌}
use open_ltap.Base.Lists.{length, take, drop, get_elem?, All}
use open_ltap.Base.Results.{Result, ok, or_panic, ◌>>=◌}

abbrev pub Bytes : Type 0
Bytes = List ℕ

abbrev pub IsBytes : Bytes → Type 0
IsBytes bs = All (λ b. b < 256) bs

-- `from_le_bytes` of as many bytes as there are, as an unsigned number.
unfoldable pub le : Bytes → ℕ
le [] = 0
le (b ∷ bs) = b + 256 * le bs

-- `to_le_bytes` of a `w`-byte word.
unfoldable pub to_le : ℕ → ℕ → Bytes
to_le zero n = []
to_le (suc w) n = n % 256 ∷ to_le w (n / 256)

-- `s.get(a..b)`.
unfoldable pub slice? : Bytes → ℕ → ℕ → Option Bytes
slice? s a b = if leb a b && leb b (length s) then some (take (b - a) (drop a s)) else none

-- `s.get(i)`.
unfoldable pub get? : Bytes → ℕ → Option ℕ
get? s i = get_elem? s i

-- `s[i]`.
unfoldable pub index : Bytes → ℕ → Result ℕ
unfolding get?
index s i = or_panic (get? s i)

-- `s[a..b]`.
unfoldable pub range : Bytes → ℕ → ℕ → Result Bytes
unfolding slice?
range s a b = or_panic (slice? s a b)

unfoldable pub u8_at : Bytes → ℕ → Result ℕ
unfolding index
u8_at s i = index s i

-- `u16::from_le_bytes(s[i..i + 2])`, and the like for four bytes.
unfoldable pub u16_at : Bytes → ℕ → Result ℕ
unfolding range le
u16_at s i = do b ← range s i (i + 2); ok (le b)

unfoldable pub u32_at : Bytes → ℕ → Result ℕ
unfolding range le
u32_at s i = do b ← range s i (i + 4); ok (le b)

-- `(off + align - 1) & !(align - 1)` for an alignment that is a power of two.
unfoldable pub align_to : ℕ → ℕ → ℕ
align_to off align = (off + align - 1) / align * align

-- Bit `k` of a flag word, as in `x & (1 << k) != 0`.
unfoldable pub has_bit : ℕ → ℕ → Bool
has_bit x k = (x / 2 ^ k) % 2 == 1

-- `chunks_exact(2)` and `chunks_exact(4)`, each chunk read as a word.
unfoldable pub words2 : Bytes → List ℕ
words2 (a ∷ b ∷ bs) = (a + 256 * b) ∷ words2 bs
words2 _ = []

unfoldable pub words4 : Bytes → List ℕ
words4 (a ∷ b ∷ c ∷ d ∷ bs) = (a + 256 * (b + 256 * (c + 256 * d))) ∷ words4 bs
words4 _ = []

-- An `i32`, by its bit pattern, `as usize`: the sign is extended to 64 bits.
abbrev pub usize_of_i32 : ℕ → ℕ
usize_of_i32 n = if ltb n (2 ^ 31) then n else n + (2 ^ 64 - 2 ^ 32)

-- `s.get(a..)`.
unfoldable pub tail? : Bytes → ℕ → Option Bytes
tail? s a = if leb a (length s) then some (drop a s) else none

pub le-to_le_two : (n : ℕ) → n < 2 ^ 16 → le (to_le 2 n) ≡ n
unfolding le to_le
le-to_le_two n h = omega arith

pub le-to_le_four : (n : ℕ) → n < 2 ^ 32 → le (to_le 4 n) ≡ n
unfolding le to_le
le-to_le_four n h = omega arith

pub length-to_le : (w n : ℕ) → length (to_le w n) ≡ w
unfolding to_le
length-to_le zero n = refl
length-to_le (suc w) n = ap suc (length-to_le w (n / 256))

-- A slice by its start and length.
pub slice?-take :
    (s : Bytes) (a n : ℕ) → a + n ≤ length s → slice? s a (a + n) ≡ some (take n (drop a s))
unfolding slice?
slice?-take s a n h =
    let low : leb a (a + n) ≡ true = le→leb a (a + n) (omega arith) in
    let high : leb (a + n) (length s) ≡ true = le→leb (a + n) (length s) h in
    let width : a + n - a ≡ n = omega arith in rw (low, high, width) refl

-- The words at an offset, by the bytes that are known to stand there.
pub u16_at-take :
    (s : Bytes) (i : ℕ) (bs : Bytes)
    → i + 2 ≤ length s
    → take 2 (drop i s) ≡ bs
    → u16_at s i ≡ ok (le bs)
unfolding u16_at range
u16_at-take s i bs h e = rw (slice?-take s i 2 h, e) refl

pub u32_at-take :
    (s : Bytes) (i : ℕ) (bs : Bytes)
    → i + 4 ≤ length s
    → take 4 (drop i s) ≡ bs
    → u32_at s i ≡ ok (le bs)
unfolding u32_at range
u32_at-take s i bs h e = rw (slice?-take s i 4 h, e) refl

-- `as u16` before the bytes are taken.
pub le-to_le_low : (n : ℕ) → le (to_le 2 n) ≡ n % 2 ^ 16
unfolding le to_le
le-to_le_low n = omega arith

pub tail?-drop : (s : Bytes) (a : ℕ) → a ≤ length s → tail? s a ≡ some (drop a s)
unfolding tail?
tail?-drop s a h = let e : leb a (length s) ≡ true = le→leb a (length s) h in rw e refl

pub le-to_le_eight : (n : ℕ) → n < 2 ^ 64 → le (to_le 8 n) ≡ n
unfolding le to_le
le-to_le_eight n h = omega arith

pub align_to-ge : (off align : ℕ) → 0 < align → off ≤ align_to off align
unfolding align_to
align_to-ge off align h =
    let above : off + align - 1 < (off + align - 1) / align * align + align = lt-div-mul-add h in
    omega arith

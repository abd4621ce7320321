-- ===== src/Wal/Text.antt =====
-- src/wal/heap.rs: text as UTF-8 bytes. What the decoders use of Rust's strings: `from_utf8_lossy`,
-- `trim`, two-digit hexadecimal; and `format_uuid` and `write_json_string`.
use open_ltap.Base.{
  ℕ, zero, suc, ◌+◌, ◌-◌, ◌/◌, ◌%◌, Bool, true, false, ◌&&◌, ◌||◌, [], ◌∷◌, ◌++◌, Bytes, Result, ok,
  ◌>>=◌, ltb, leb, ◌==◌, if◌then◌else◌, range,
}

abbrev pub between : ℕ → ℕ → ℕ → Bool
between lo hi b = leb lo b && leb b hi

abbrev pub is_continuation : ℕ → Bool
is_continuation b = between 0x80 0xBF b

-- The continuation bytes that follow a lead byte.
abbrev pub wanted : ℕ → ℕ
wanted b = if ltb b 0x80 then 0 else if ltb b 0xE0 then 1 else if ltb b 0xF0 then 2 else 3

-- What may follow a lead byte: no overlong form, no surrogate, nothing above U+10FFFF.
abbrev pub second_ok : ℕ → ℕ → Bool
second_ok b c =
    if b == 0xE0
    then between 0xA0 0xBF c
    else if b == 0xED
    then between 0x80 0x9F c
    else if b == 0xF0
    then between 0x90 0xBF c
    else if b == 0xF4
    then between 0x80 0x8F c
    else is_continuation c

abbrev pub is_lead : ℕ → Bool
is_lead b = ltb b 0x80 || between 0xC2 0xF4 b

-- How many of the next `n` bytes continue a character.
unfoldable pub continuations : ℕ → Bytes → ℕ
continuations zero bs = 0
continuations (suc n) [] = 0
continuations (suc n) (b ∷ bs) =
    let rest = continuations n bs in if is_continuation b then suc rest else 0

abbrev pub after_lead : ℕ → ℕ → Bytes → ℕ
after_lead lead zero bs = 0
after_lead lead (suc n) [] = 0
after_lead lead (suc n) (b ∷ bs) = if second_ok lead b then suc (continuations n bs) else 0

-- Whether a character starts with the byte `b`, and the further bytes that it or the error takes.
unfoldable pub char_at : ℕ → Bytes → Bool × ℕ
unfolding continuations
char_at b bs =
    if is_lead b then (let n = after_lead b (wanted b) bs in (n == wanted b, n)) else (false, 0)

-- `left` bytes belong to the character before, which is kept or has been replaced.
unfoldable pub lossy_from : ℕ → Bool → Bytes → Bytes
unfolding char_at
lossy_from left kept [] = []
lossy_from zero kept (b ∷ bs) =
    let (valid, n) = char_at b bs in
    let rest = lossy_from n valid bs in if valid then b ∷ rest else 0xEF ∷ 0xBF ∷ 0xBD ∷ rest
lossy_from (suc left) kept (b ∷ bs) =
    let rest = lossy_from left kept bs in if kept then b ∷ rest else rest

-- `String::from_utf8_lossy`: U+FFFD for every maximal part of a character.
unfoldable pub from_utf8_lossy : Bytes → Bytes
unfolding lossy_from
from_utf8_lossy bs = lossy_from 0 true bs

-- The white space that `trim` strips: a character of one, two or three bytes.
unfoldable pub is_white1 : ℕ → Bool
is_white1 a = between 9 13 a || a == 32

unfoldable pub is_white2 : ℕ → ℕ → Bool
is_white2 a b = a == 0xC2 && (b == 0x85 || b == 0xA0)

unfoldable pub is_white3 : ℕ → ℕ → ℕ → Bool
is_white3 a b c =
    a == 0xE1 && b == 0x9A && c == 0x80
    || a == 0xE2 && b == 0x80 && (between 0x80 0x8A c || between 0xA8 0xA9 c || c == 0xAF)
    || a == 0xE2 && b == 0x81 && c == 0x9F
    || a == 0xE3 && b == 0x80 && c == 0x80

abbrev pub first_of : Bool → Bool → Bool → ℕ
first_of one two three = if one then 1 else if two then 2 else if three then 3 else 0

-- The bytes of the white space that a text starts with, and, on its bytes in reverse, ends with.
unfoldable pub white_len : Bytes → ℕ
unfolding is_white1 is_white2 is_white3
white_len (a ∷ b ∷ c ∷ bs) = first_of (is_white1 a) (is_white2 a b) (is_white3 a b c)
white_len (a ∷ b ∷ []) = first_of (is_white1 a) (is_white2 a b) false
white_len (a ∷ []) = first_of (is_white1 a) false false
white_len [] = 0

unfoldable pub white_len_reversed : Bytes → ℕ
unfolding is_white1 is_white2 is_white3
white_len_reversed (a ∷ b ∷ c ∷ bs) = first_of (is_white1 a) (is_white2 b a) (is_white3 c b a)
white_len_reversed (a ∷ b ∷ []) = first_of (is_white1 a) (is_white2 b a) false
white_len_reversed (a ∷ []) = first_of (is_white1 a) false false
white_len_reversed [] = 0

unfoldable pub strip_while : (Bytes → ℕ) → ℕ → Bytes → Bytes
strip_while len left [] = []
strip_while len (suc left) (b ∷ bs) = strip_while len left bs
strip_while len zero (b ∷ bs) =
    let n = len (b ∷ bs) in let rest = strip_while len (n - 1) bs in if n == 0 then b ∷ bs else rest

unfoldable pub reverse_onto : Bytes → Bytes → Bytes
reverse_onto [] acc = acc
reverse_onto (b ∷ bs) acc = reverse_onto bs (b ∷ acc)

-- `str::trim`.
unfoldable pub trim : Bytes → Bytes
unfolding white_len white_len_reversed strip_while reverse_onto
trim t =
    let front = strip_while white_len 0 t in
    reverse_onto (strip_while white_len_reversed 0 (reverse_onto front [])) []

abbrev pub hex_digit : ℕ → ℕ
hex_digit n = if ltb n 10 then 48 + n else 87 + n

unfoldable pub hex_text : Bytes → Bytes
hex_text [] = []
hex_text (b ∷ bs) = hex_digit (b / 16) ∷ hex_digit (b % 16) ∷ hex_text bs

unfoldable pub format_uuid : Bytes → Result Bytes
unfolding hex_text range
format_uuid bytes = do
  let hex = hex_text bytes
  a ← range hex 0 8
  b ← range hex 8 12
  c ← range hex 12 16
  d ← range hex 16 20
  e ← range hex 20 32
  ok (a ++ 45 ∷ b ++ 45 ∷ c ++ 45 ∷ d ++ 45 ∷ e)

-- One byte of a JSON string. Every character that is escaped is one byte.
unfoldable pub json_escape : ℕ → Bytes
json_escape b =
    if b == 34
    then 92 ∷ 34 ∷ []
    else if b == 92
    then 92 ∷ 92 ∷ []
    else if b == 8
    then 92 ∷ 98 ∷ []
    else if b == 12
    then 92 ∷ 102 ∷ []
    else if b == 10
    then 92 ∷ 110 ∷ []
    else if b == 13
    then 92 ∷ 114 ∷ []
    else if b == 9
    then 92 ∷ 116 ∷ []
    else if ltb b 32
    then 92 ∷ 117 ∷ 48 ∷ 48 ∷ hex_digit (b / 16) ∷ hex_digit (b % 16) ∷ []
    else b ∷ []

unfoldable pub json_escape_all : Bytes → Bytes
unfolding json_escape
json_escape_all [] = []
json_escape_all (b ∷ bs) = json_escape b ++ json_escape_all bs

unfoldable pub write_json_string : Bytes → Bytes
unfolding from_utf8_lossy json_escape_all
write_json_string bytes = 34 ∷ (json_escape_all (from_utf8_lossy bytes) ++ 34 ∷ [])

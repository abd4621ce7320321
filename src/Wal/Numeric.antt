-- ===== src/Wal/Numeric.antt =====
-- src/wal/heap.rs: numerics on disk, on the wire, and as decimal text. A weight is kept with
-- `2 ^ 31` added, so that a negative one is a number too.
use open_ltap.Base.{
  ℕ, zero, suc, ◌+◌, ◌-◌, ◌*◌, ◌/◌, ◌%◌, ◌^◌, Bool, true, false, not, ◌&&◌, ◌||◌, List, [], ◌∷◌,
  ◌++◌, Option, none, some, Bytes, Result, ok, err, ◌>>=◌, ◌>>◌, bail_if, ltb, ◌==◌, if◌then◌else◌,
  length, drop, replicate, get_elem?, has_bit, words2, to_le, truncated, corrupt, bad_literal,
}
use open_ltap.Wal.Text.{trim, between}

abbrev pub bias : ℕ
bias = 2 ^ 31

-- An `i16` bit pattern as a biased weight.
abbrev pub weight_of_i16 : ℕ → ℕ
weight_of_i16 n = if ltb n (2 ^ 15) then bias + n else bias + n - 2 ^ 16

-- `digits[g]` cut to its decimal digit of rank `within`, 0 outside the digits.
unfoldable pub group_digit : List ℕ → ℕ → ℕ → ℕ
group_digit digits g within = elim (get_elem? digits g) [ none ↦ 0 | some d ↦ d / 10 ^ within % 10 ]

-- `digit_at(e)` for an exponent `e` of an integer digit.
unfoldable pub int_digit : ℕ → List ℕ → ℕ → ℕ
unfolding group_digit
int_digit weight digits e =
    if ltb weight (bias + e / 4) then 0 else group_digit digits (weight - (bias + e / 4)) (e % 4)

-- `digit_at(-k)`.
unfoldable pub frac_digit : ℕ → List ℕ → ℕ → ℕ
unfolding group_digit
frac_digit weight digits k =
    if ltb (weight + (k + 3) / 4) bias
    then 0
    else group_digit digits (weight + (k + 3) / 4 - bias) ((4 - k % 4) % 4)

-- The integer digits below the exponent `n`, without leading zeros.
unfoldable pub int_text : ℕ → List ℕ → ℕ → Bool → Bytes
unfolding int_digit
int_text weight digits zero started = if started then [] else 48 ∷ []
int_text weight digits (suc e) started =
    let d = int_digit weight digits e in
    let shown = started || not (d == 0) in
    let rest = int_text weight digits e shown in if shown then (48 + d) ∷ rest else rest

unfoldable pub frac_text : ℕ → List ℕ → ℕ → ℕ → Bytes
unfolding frac_digit
frac_text weight digits k zero = []
frac_text weight digits k (suc n) =
    (48 + frac_digit weight digits k) ∷ frac_text weight digits (k + 1) n

-- The integer positions: `0..=hi` for `hi = (4 * weight + 3).max(0)`.
abbrev pub int_positions : ℕ → ℕ
int_positions weight = if ltb weight bias then 1 else 4 * (weight - bias) + 4

unfoldable pub numeric_digits_to_string : Bool → ℕ → ℕ → List ℕ → Bytes
unfolding int_text frac_text
numeric_digits_to_string neg weight dscale digits =
    let sign = if neg then 45 ∷ [] else [] in
    let whole = int_text weight digits (int_positions weight) false in
    let frac = if dscale == 0 then [] else 46 ∷ frac_text weight digits 1 dscale in
    sign ++ whole ++ frac

abbrev pub nan : Bytes
nan = 78 ∷ 97 ∷ 78 ∷ []

abbrev pub infinity : Bytes
infinity = 73 ∷ 110 ∷ 102 ∷ 105 ∷ 110 ∷ 105 ∷ 116 ∷ 121 ∷ []

abbrev pub minus_infinity : Bytes
minus_infinity = 45 ∷ infinity

unfoldable pub special_text : ℕ → Result Bytes
special_text nibble =
    if nibble == 12
    then ok nan
    else if nibble == 13
    then ok infinity
    else if nibble == 15
    then ok minus_infinity
    else err corrupt

-- (negative, dscale, weight, offset of the digits), from the header word.
abbrev pub short_weight : ℕ → ℕ
short_weight h = if has_bit h 6 then bias + h % 64 - 64 else bias + h % 64

unfoldable pub numeric_fields : ℕ → Bytes → Result (Bool × ℕ × ℕ × ℕ)
numeric_fields h rest =
    if h / 2 ^ 14 == 2
    then ok (has_bit h 13, h / 2 ^ 7 % 2 ^ 6, short_weight h, 2)
    else elim (words2 rest) [
      | [] ↦ err truncated
      | w ∷ _ ↦ ok (h / 2 ^ 14 == 1, h % 2 ^ 14, weight_of_i16 w, 4)
    ]

unfoldable pub numeric_to_string : Bytes → Result Bytes
unfolding special_text numeric_fields numeric_digits_to_string words2
numeric_to_string (a ∷ b ∷ rest) =
    let h = a + 256 * b in
    if h / 2 ^ 14 == 3 then special_text (h / 2 ^ 12) else do
      (neg, dscale, weight, digits_off) ← numeric_fields h rest
      ok (numeric_digits_to_string neg weight dscale (words2 (drop (digits_off - 2) rest)))
numeric_to_string _ = err truncated

-- `from_be_bytes` of two bytes, for as many digits as the count says.
unfoldable pub be_digits : ℕ → Bytes → Result (List ℕ)
be_digits zero bs = ok []
be_digits (suc n) (a ∷ b ∷ bs) = do ds ← be_digits n bs; ok ((256 * a + b) ∷ ds)
be_digits (suc n) _ = err truncated

-- A count or scale, an `i16`: none when it is negative.
abbrev pub clamp_i16 : ℕ → ℕ
clamp_i16 n = if ltb n (2 ^ 15) then n else 0

unfoldable pub numeric_from_binary : Bytes → Result Bytes
unfolding be_digits numeric_digits_to_string
numeric_from_binary (n1 ∷ n0 ∷ w1 ∷ w0 ∷ s1 ∷ s0 ∷ d1 ∷ d0 ∷ rest) =
    let sign = 256 * s1 + s0 in
    if sign == 0xC000
    then ok nan
    else if sign == 0xD000
    then ok infinity
    else if sign == 0xF000
    then ok minus_infinity
    else do
      digits ← be_digits (clamp_i16 (256 * n1 + n0)) rest
      ok (
          numeric_digits_to_string (sign == 0x4000) (weight_of_i16 (256 * w1 + w0))
            (clamp_i16 (256 * d1 + d0)) digits)
numeric_from_binary _ = err truncated

unfoldable pub ascii_lower : Bytes → Bytes
ascii_lower [] = []
ascii_lower (b ∷ bs) = (if between 65 90 b then b + 32 else b) ∷ ascii_lower bs

unfoldable pub same_text : Bytes → Bytes → Bool
same_text [] [] = true
same_text (a ∷ xs) (b ∷ ys) = a == b && same_text xs ys
same_text _ _ = false

-- The special value that a lowered literal names.
unfoldable pub special_of : Bytes → Option ℕ
unfolding same_text
special_of t =
    let inf = 105 ∷ 110 ∷ 102 ∷ [] in
    let infinite = inf ++ 105 ∷ 110 ∷ 105 ∷ 116 ∷ 121 ∷ [] in
    if same_text t (110 ∷ 97 ∷ 110 ∷ [])
    then some 0xC000
    else if same_text t infinite
        || same_text t inf
        || same_text t (43 ∷ infinite)
        || same_text t (43 ∷ inf)
    then some 0xD000
    else if same_text t (45 ∷ infinite) || same_text t (45 ∷ inf)
    then some 0xF000
    else none

-- The sign, and the text after it.
unfoldable pub split_sign : Bytes → Bool × Bytes
split_sign [] = (false, [])
split_sign (b ∷ bs) =
    if b == 45 then (true, bs) else if b == 43 then (false, bs) else (false, b ∷ bs)

abbrev pub to_front : ℕ → Bytes × Bytes → Bytes × Bytes
to_front b (xs, ys) = (b ∷ xs, ys)

-- `body.split_once('.').unwrap_or((body, ""))`.
unfoldable pub split_point : Bytes → Bytes × Bytes
split_point [] = ([], [])
split_point (b ∷ bs) = let rest = split_point bs in if b == 46 then ([], bs) else to_front b rest

unfoldable pub all_digits : Bytes → Bool
all_digits [] = true
all_digits (b ∷ bs) = between 48 57 b && all_digits bs

abbrev pub pad4 : ℕ → ℕ
pad4 n = (4 - n % 4) % 4

-- `chunks(4)` of digits, each folded to its number.
unfoldable pub groups4 : Bytes → List ℕ
groups4 (a ∷ b ∷ c ∷ d ∷ bs) =
    (1000 * (a - 48) + 100 * (b - 48) + 10 * (c - 48) + (d - 48)) ∷ groups4 bs
groups4 _ = []

-- Leading zero groups go while more than one is left, and the weight falls with them.
unfoldable pub strip_leading : List ℕ → ℕ → List ℕ × ℕ
strip_leading (d ∷ e ∷ ds) weight =
    let rest = strip_leading (e ∷ ds) (weight - 1) in if d == 0 then rest else (d ∷ e ∷ ds, weight)
strip_leading ds weight = (ds, weight)

abbrev pub keep_group : ℕ → List ℕ → List ℕ
keep_group d [] = if d == 0 then [] else d ∷ []
keep_group d (e ∷ es) = d ∷ e ∷ es

unfoldable pub drop_zeros : List ℕ → List ℕ
drop_zeros [] = []
drop_zeros (d ∷ ds) = keep_group d (drop_zeros ds)

unfoldable pub strip_trailing : List ℕ → List ℕ
unfolding drop_zeros
strip_trailing [] = []
strip_trailing (d ∷ ds) = d ∷ drop_zeros ds

unfoldable pub all_zero : List ℕ → Bool
all_zero [] = true
all_zero (d ∷ ds) = d == 0 && all_zero ds

unfoldable pub words_bytes : List ℕ → Bytes
unfolding to_le
words_bytes [] = []
words_bytes (d ∷ ds) = to_le 2 d ++ words_bytes ds

-- The long form of a sign, a scale, and the digits with their weight.
unfoldable pub long_numeric : Bool → ℕ → List ℕ × ℕ → Bytes
unfolding words_bytes to_le strip_trailing all_zero
long_numeric neg dscale (groups, weight) =
    let digits = strip_trailing groups in
    let is_zero = all_zero digits in
    let sign = if neg && not is_zero then 0x4000 else 0 in
    let scale = dscale % 2 ^ 14 in
    to_le 2 (sign + scale)
    ++ to_le 2 (if is_zero then 0 else weight % 2 ^ 16)
    ++ words_bytes (if is_zero then [] else digits)

unfoldable pub numeric_of_parts : Bool → Bytes × Bytes → Result Bytes
unfolding all_digits groups4 strip_leading long_numeric
numeric_of_parts neg (int_str, frac_str) =
    let int_pad = pad4 (length int_str) in
    let zeros = replicate int_pad 48 in
    let more_zeros = replicate (pad4 (length frac_str)) 48 in
    let weight = bias + (int_pad + length int_str) / 4 - 1 in
    let groups = groups4 (zeros ++ int_str ++ frac_str ++ more_zeros) in
    do
      bail_if
          ((length int_str == 0 && length frac_str == 0)
            || not (all_digits int_str)
            || not (all_digits frac_str))
          bad_literal
      ok (long_numeric neg (length frac_str) (strip_leading groups weight))

unfoldable pub numeric_from_string : Bytes → Result Bytes
unfolding trim ascii_lower special_of split_sign split_point numeric_of_parts to_le
numeric_from_string s =
    let t = trim s in
    elim (special_of (ascii_lower t)) [
      | some h ↦ ok (to_le 2 h)
      | none ↦ let (neg, body) = split_sign t in numeric_of_parts neg (split_point body)
    ]

-- ===== src/Reconstruct/Bitmap.antt =====
-- The null bitmap of a rebuilt tuple, bit by bit.
use native.Mathlib.Nat.{div-div-eq-div-mul}
use open_ltap.Base.{
  drop-drop, ℕ, zero, suc, ◌+◌, ◌*◌, ◌/◌, ◌^◌, ◌%◌, ◌<◌, List, [], ◌∷◌, some, none, Bytes, ok, Bool,
  true, false, not, ◌||◌, ◌≡◌, refl, sym, ap, ◌∙◌, length, take, drop, get_elem?, arith, bind_ok,
  has_bit, get_elem?-drop, get_elem?-take, get_elem?-lt, index, get?, ◌==◌,
}
use open_ltap.Schema.{PhysCol, live, dropped}
use open_ltap.Wal.Values.{Row}
use open_ltap.Wal.Tuple.{null_at}
use open_ltap.Wal.Encode.Nulls.{present_slots, is_null}
use open_ltap.Reconstruct.{byte_of_bits, pack_bits, bitmap_bytes, any_dropped, any_null, flag}

flag_half : (b : Bool) (x : ℕ) → (flag b 1 + 2 * x) / 2 ≡ x
flag_half true x = omega arith
flag_half false x = omega arith

flag_parity : (b : Bool) (x : ℕ) → has_bit (flag b 1 + 2 * x) 0 ≡ b
unfolding has_bit
flag_parity true x = ground arith
flag_parity false x = ground arith

or_true : (x : Bool) → (x || true) ≡ true
or_true true = refl
or_true false = refl

has_bit_next : (b : Bool) (x k : ℕ) → has_bit (flag b 1 + 2 * x) (suc k) ≡ has_bit x k
unfolding has_bit
has_bit_next b x k =
    let power : 2 ^ suc k ≡ 2 * 2 ^ k = omega arith in
    let half : (flag b 1 + 2 * x) / 2 ≡ x = flag_half b x in
    let e : (flag b 1 + 2 * x) / (2 * 2 ^ k) ≡ x / 2 ^ k =
      sym (div-div-eq-div-mul (flag b 1 + 2 * x) 2 (2 ^ k)) ∙ ap (λ y. y / 2 ^ k) half in
    ap (λ y. y % 2 == 1) (ap (λ p. (flag b 1 + 2 * x) / p) power ∙ e)

byte_of_bits-has_bit :
    (bits : List Bool) (k : ℕ) (b : Bool)
    → get_elem? bits k ≡ some b
    → has_bit (byte_of_bits bits) k ≡ b
unfolding byte_of_bits
byte_of_bits-has_bit [] k b h = absurd cc
byte_of_bits-has_bit (x ∷ bits) zero b h =
    let same : x ≡ b = cc in flag_parity x (byte_of_bits bits) ∙ same
byte_of_bits-has_bit (x ∷ bits) (suc k) b h =
    has_bit_next x (byte_of_bits bits) k ∙ byte_of_bits-has_bit bits k b h

pack_bits-get_elem? :
    (n : ℕ) (bits : List Bool) (q : ℕ)
    → q < n
    → get_elem? (pack_bits n bits) q ≡ some (byte_of_bits (take 8 (drop (8 * q) bits)))
unfolding pack_bits
pack_bits-get_elem? zero bits q h = absurd (omega arith)
pack_bits-get_elem? (suc n) bits zero h = refl
pack_bits-get_elem? (suc n) bits (suc q) h =
    let e : 8 * suc q ≡ 8 + 8 * q = omega arith in
    pack_bits-get_elem? n (drop 8 bits) q (omega arith)
    ∙ ap (λ l. some (byte_of_bits (take 8 l)))
        (drop-drop (8 * q) 8 bits ∙ ap (λ k. drop k bits) (sym e))

-- Bit `i % 8` of byte `i / 8` says whether slot `i` is present.
pub pack_bits-null_at :
    (bits : List Bool) (bitmap : Bytes) (m : ℕ) (b : Bool)
    → get_elem? bitmap (m / 8) ≡ get_elem? (pack_bits (bitmap_bytes (length bits)) bits) (m / 8)
    → get_elem? bits m ≡ some b
    → null_at true bitmap m ≡ ok (not b)
unfolding null_at index get?
pack_bits-null_at bits bitmap m b same found =
    let inside = get_elem?-lt bits m b found in
    let byte = byte_of_bits (take 8 (drop (8 * (m / 8)) bits)) in
    let here : get_elem? bitmap (m / 8) ≡ some byte =
      same ∙ pack_bits-get_elem? (bitmap_bytes (length bits)) bits (m / 8) (omega arith) in
    let split : 8 * (m / 8) + m % 8 ≡ m = omega arith in
    let bit : has_bit byte (m % 8) ≡ b =
      byte_of_bits-has_bit (take 8 (drop (8 * (m / 8)) bits)) (m % 8) b (
        get_elem?-take 8 (m % 8) (drop (8 * (m / 8)) bits) (omega arith)
        ∙ get_elem?-drop (8 * (m / 8)) (m % 8) bits
        ∙ ap (get_elem? bits) split
        ∙ found) in
    rw (here, bit) refl

pub length-present_slots :
    (phys : List PhysCol) (row : Row) (bits : List Bool)
    → present_slots phys row ≡ ok bits
    → length bits ≡ length phys
unfolding present_slots
length-present_slots [] row bits h = let is : [] ≡ bits = cc in ap length (sym is)
length-present_slots (dropped attlen align ∷ pcs) row bits h =
    let (rest, e, h1) = bind_ok (present_slots pcs row) h in
    let is : false ∷ rest ≡ bits = cc in
    ap length (sym is) ∙ ap suc (length-present_slots pcs row rest e)
length-present_slots (live col ∷ pcs) [] bits h = absurd cc
length-present_slots (live col ∷ pcs) (v ∷ row) bits h =
    let (rest, e, h1) = bind_ok (present_slots pcs row) h in
    let is : not (is_null v) ∷ rest ≡ bits = cc in
    ap length (sym is) ∙ ap suc (length-present_slots pcs row rest e)

-- Without a dropped column and without a null, every slot is present.
pub present_slots-any_null :
    (phys : List PhysCol) (row : Row) (bits : List Bool) (m : ℕ) (b : Bool)
    → (any_dropped phys || any_null row) ≡ false
    → present_slots phys row ≡ ok bits
    → get_elem? bits m ≡ some b
    → b ≡ true
unfolding present_slots any_dropped any_null
present_slots-any_null [] row bits m b h e found =
    let is : [] ≡ bits = cc in
    let none_found : none ≡ some b = ap (λ l. get_elem? l m) is ∙ found in absurd cc
present_slots-any_null (dropped attlen align ∷ pcs) row bits m b h e found = absurd cc
present_slots-any_null (live col ∷ pcs) [] bits m b h e found = absurd cc
present_slots-any_null (live col ∷ pcs) (none ∷ row) bits m b h e found =
    let yes = or_true (any_dropped pcs) in absurd cc
present_slots-any_null (live col ∷ pcs) (some v ∷ row) bits zero b h e found =
    let (rest, e1, is) = bind_ok (present_slots pcs row) e in
    let same : true ∷ rest ≡ bits = cc in
    let it : some true ≡ some b = ap (λ l. get_elem? l 0) same ∙ found in cc
present_slots-any_null (live col ∷ pcs) (some v ∷ row) bits (suc m) b h e found =
    let (rest, e1, is) = bind_ok (present_slots pcs row) e in
    let same : true ∷ rest ≡ bits = cc in
    present_slots-any_null pcs row rest m b h e1 (ap (λ l. get_elem? l (suc m)) same ∙ found)

-- ===== src/Reconstruct/Rows.antt =====
-- A row read back from a rebuilt page.
use open_ltap.Base.{
  ℕ, zero, suc, ◌+◌, ◌-◌, ◌/◌, ◌^◌, ◌%◌, ◌≤◌, List, [], ◌++◌, some, Bytes, ok, Bool, true, false,
  not, ◌||◌, ◌≡◌, refl, sym, ap, subst, ◌∙◌, ◌==◌, ltb, le→ltb, length, take, drop, get_elem?,
  bind_ok, arith, slice?, Bool-cases, inl, inr, u16_at, u8_at, le, to_le, le-to_le_four,
  get_elem?-take, get_elem?-append, get_elem?-lt,
}
use open_ltap.Schema.{TableDesc}
use open_ltap.Wal.Values.{Row}
use open_ltap.Wal.Heap.{tuple_on_page, tuple_at}
use open_ltap.Wal.Tuple.{null_at}
use open_ltap.Wal.Encode.Nulls.{present_slots}
use open_ltap.Wal.Encode.Rows.{NullsAt}
use open_ltap.Reconstruct.{bitmap_bytes, any_dropped, any_null, null_bitmap_of, pack_bits}
use open_ltap.Reconstruct.Bitmap.{pack_bits-null_at, length-present_slots, present_slots-any_null}
use open_ltap.Reconstruct.Tuples.{TupleAt, item_of}

tuple_at-slice? :
    (page : Bytes) (upper : ℕ) (t : Bytes) (im2 im hoff : ℕ)
    → upper + length t ≤ 8192
    → slice? page upper (upper + length t) ≡ some t
    → 23 ≤ length t
    → u16_at t 18 ≡ ok im2
    → u16_at t 20 ≡ ok im
    → u8_at t 22 ≡ ok hoff
    → tuple_at page (item_of upper t) ≡ ok (drop 23 t, im2, im, hoff)
unfolding tuple_at
tuple_at-slice? page upper t im2 im hoff fits here long h1 h2 h3 =
    let id = item_of upper t in
    let o : id % 2 ^ 15 ≡ upper = omega arith in
    let f : (id / 2 ^ 15 % 4 == 1) ≡ true = ground arith in
    let l : id / 2 ^ 17 ≡ length t = omega arith in
    let enough : ltb (length t) 23 ≡ false = le→ltb (length t) 23 long in
    rw (f, o, l, here, enough, h1, h2, h3) refl

-- `tuple_on_page` finds a placed tuple and reads its header.
pub tuple_on_page-TupleAt :
    (page : Bytes) (k : ℕ) (t : Bytes) (im2 im hoff : ℕ)
    → TupleAt page k t
    → 23 ≤ length t
    → u16_at t 18 ≡ ok im2
    → u16_at t 20 ≡ ok im
    → u8_at t 22 ≡ ok hoff
    → tuple_on_page page (k + 1) ≡ ok (drop 23 t, im2, im, hoff)
unfolding tuple_on_page
tuple_on_page-TupleAt page k t im2 im hoff (upper, fits, item, here) long h1 h2 h3 =
    let nonzero : (k + 1 == 0) ≡ false = ground arith in
    let index : k + 1 - 1 ≡ k = omega arith in
    let number : le (to_le 4 (item_of upper t)) ≡ item_of upper t =
      le-to_le_four (item_of upper t) (omega arith) in
    rw (nonzero, index, item, number)
      (tuple_at-slice? page upper t im2 im hoff (omega arith) here long h1 h2 h3)

length-pack_bits : (n : ℕ) (bits : List Bool) → length (pack_bits n bits) ≡ n
unfolding pack_bits
length-pack_bits zero bits = refl
length-pack_bits (suc n) bits = ap suc (length-pack_bits n (drop 8 bits))

-- The bitmap that is written says which slots are null, with what follows it and without.
pub null_bitmap_of-NullsAt :
    (desc : TableDesc) (row : Row) (bitmap rest : Bytes) (n : ℕ) (present : List Bool)
    → let has_nulls = any_dropped desc.phys || any_null row in
      null_bitmap_of has_nulls desc row ≡ ok bitmap
      → present_slots desc.phys row ≡ ok present
      → length bitmap ≤ n
      → NullsAt has_nulls (take n (bitmap ++ rest)) 0 present
unfolding null_bitmap_of null_at
null_bitmap_of-NullsAt desc row bitmap rest n present h p len m b found =
    let zero_m : m ≡ 0 + m = omega arith in
    elim (Bool-cases (any_dropped desc.phys || any_null row)) [
      | inl e ↦
          let h1 : null_bitmap_of true desc row ≡ ok bitmap =
            subst (λ x. null_bitmap_of x desc row ≡ ok bitmap) e h in
          let (bits, e1, is) = bind_ok (present_slots desc.phys row) h1 in
          let same : bits ≡ present = cc in
          let packed : pack_bits (bitmap_bytes (length desc.phys)) present ≡ bitmap = cc in
          let count = length-present_slots desc.phys row present p in
          let packed' : pack_bits (bitmap_bytes (length present)) present ≡ bitmap =
            ap (λ c. pack_bits (bitmap_bytes c) present) count ∙ packed in
          let size : length bitmap ≡ bitmap_bytes (length present) =
            ap length (sym packed') ∙ length-pack_bits (bitmap_bytes (length present)) present in
          let inside = get_elem?-lt present m b found in
          let at : get_elem? (take n (bitmap ++ rest)) (m / 8) ≡ get_elem? bitmap (m / 8) =
            get_elem?-take n (m / 8) (bitmap ++ rest) (omega arith)
            ∙ get_elem?-append bitmap rest (m / 8) (omega arith) in
          subst (λ x. null_at x (take n (bitmap ++ rest)) (0 + m) ≡ ok (not b)) (sym e)
            (subst (λ x. null_at true (take n (bitmap ++ rest)) x ≡ ok (not b)) zero_m
              (pack_bits-null_at present (take n (bitmap ++ rest)) m b
                (at ∙ ap (λ l. get_elem? l (m / 8)) (sym packed')) found))
      | inr e ↦
          let all_there = present_slots-any_null desc.phys row present m b e p found in
          subst (λ x. null_at x (take n (bitmap ++ rest)) (0 + m) ≡ ok (not b)) (sym e)
            (ap (λ x. ok (not x)) (sym all_there))
    ]

pub length-null_bitmap_of :
    (has_nulls : Bool) (desc : TableDesc) (row : Row) (bitmap : Bytes)
    → length desc.phys ≤ 1664
    → null_bitmap_of has_nulls desc row ≡ ok bitmap
    → length bitmap ≤ 208
unfolding null_bitmap_of
length-null_bitmap_of true desc row bitmap limit h =
    let (bits, e1, is) = bind_ok (present_slots desc.phys row) h in
    let packed : pack_bits (bitmap_bytes (length desc.phys)) bits ≡ bitmap = cc in
    let size = length-pack_bits (bitmap_bytes (length desc.phys)) bits in
    let count : length bitmap ≡ bitmap_bytes (length desc.phys) = ap length (sym packed) ∙ size in
    omega arith
length-null_bitmap_of false desc row bitmap limit h =
    let is : [] ≡ bitmap = cc in let count : length bitmap ≡ 0 = ap length (sym is) in omega arith

-- ===== src/Wal/Tuple/Shape.antt =====
-- src/wal/heap.rs: the shape of what the tuple decoders return.
use open_ltap.Base.{
  ℕ, zero, suc, ◌+◌, ◌%◌, ◌^◌, Bool, List, [], ◌∷◌, Option, some, none, Bytes, ok, ◌≡◌, refl, sym,
  ap, ◌∙◌, ltb, leb, length, take, drop, bind_ok, bail_ok, Bool-cases, inl, inr, has_bit, subst,
  truncated, schema_drift, All, u16_at, u8_at, ok_inj, align_to, ok_or, slice?,
}
use open_ltap.Schema.{TableDesc, PhysCol, live, dropped}
use open_ltap.Wal.Values.{Row, Value}
use open_ltap.Wal.Heap.{bits_len}
use open_ltap.Wal.Toast.{Codecs, ToastCache}
use open_ltap.Wal.Tuple.{
  Cell, null_cell, push_cell, next_live, column, columns, present_column, skip_dropped,
  decode_value, or_old, null_at, decode_tuple_payload, multi_insert_tuple, multi_insert_tuples,
  decode_multi_insert,
}

-- A live column adds a cell to the row, a dropped one none.
abbrev pub CellOf : PhysCol → Cell → Type 0
CellOf (live col) cell = (v : Option Value) × (cell ≡ some v)
CellOf (dropped attlen align) cell = cell ≡ none

abbrev pub live_count : List PhysCol → ℕ
live_count [] = 0
live_count (dropped attlen align ∷ pcs) = live_count pcs
live_count (live col ∷ pcs) = suc (live_count pcs)

null_cell-CellOf : (pc : PhysCol) → CellOf pc (null_cell pc)
null_cell-CellOf (live col) = (none, refl)
null_cell-CellOf (dropped attlen align) = refl

push_cell-CellOf :
    (pc : PhysCol) (pcs : List PhysCol) (cell : Cell) (row : Row)
    → CellOf pc cell
    → length row ≡ live_count pcs
    → length (push_cell cell row) ≡ live_count (pc ∷ pcs)
push_cell-CellOf (live col) pcs cell row (v, e) h = rw e (ap suc h)
push_cell-CellOf (dropped attlen align) pcs cell row e h = rw e h

module _ (codecs : Codecs) (toast : ToastCache) where
  pub present_column-CellOf :
      (bytes : Bytes) (old_row : Option Row) (live_i off : ℕ) (pc : PhysCol) (cell : Cell)
      (after : ℕ)
      → present_column codecs toast bytes old_row live_i off pc ≡ ok (cell, after)
      → CellOf pc cell
  unfolding present_column
  present_column-CellOf bytes old_row live_i off (live col) cell after h =
      let ((value, end), e, h1) = bind_ok (decode_value codecs toast bytes off col.ty) h in
      let (v, e1, h2) = bind_ok (or_old old_row live_i value) h1 in (some v, cc)
  present_column-CellOf bytes old_row live_i off (dropped attlen align) cell after h =
      let (end, e, h1) = bind_ok (skip_dropped codecs toast bytes off attlen align) h in cc

  pub column-CellOf :
      (has_nulls : Bool) (bitmap : Bytes) (natts : ℕ) (bytes : Bytes) (old_row : Option Row)
      (i live_i off : ℕ) (pc : PhysCol) (cell : Cell) (after : ℕ)
      → column codecs toast has_nulls bitmap natts bytes old_row i live_i off pc ≡ ok (cell, after)
      → CellOf pc cell
  unfolding column
  column-CellOf has_nulls bitmap natts bytes old_row i live_i off pc cell after h =
      elim (Bool-cases (leb natts i)) [
        | inl e ↦ let is : null_cell pc ≡ cell = cc in subst (CellOf pc) is (null_cell-CellOf pc)
        | inr e ↦
            let h1 = rw e at (h) in
            let (gone, e1, h2) = bind_ok (null_at has_nulls bitmap i) h1 in
            elim (Bool-cases gone) [
              | inl g ↦
                  let is : null_cell pc ≡ cell = cc in subst (CellOf pc) is (null_cell-CellOf pc)
              | inr g ↦ present_column-CellOf bytes old_row live_i off pc cell after (rw g at (h2))
            ]
      ]

  pub length-columns :
      (has_nulls : Bool) (bitmap : Bytes) (natts : ℕ) (bytes : Bytes) (old_row : Option Row)
      (i live_i off : ℕ) (pcs : List PhysCol) (row : Row)
      → columns codecs toast has_nulls bitmap natts bytes old_row i live_i off pcs ≡ ok row
      → length row ≡ live_count pcs
  unfolding columns
  length-columns has_nulls bitmap natts bytes old_row i live_i off [] row h =
      let is : [] ≡ row = cc in ap length (sym is)
  length-columns has_nulls bitmap natts bytes old_row i live_i off (pc ∷ pcs) row h =
      let ((cell, after), e, h1) =
        bind_ok (column codecs toast has_nulls bitmap natts bytes old_row i live_i off pc) h in
      let (rest, e1, h2) =
        bind_ok
          (columns codecs toast has_nulls bitmap natts bytes old_row (i + 1) (next_live cell live_i)
            after pcs)
          h1 in
      let is : push_cell cell rest ≡ row = cc in
      let shape = column-CellOf has_nulls bitmap natts bytes old_row i live_i off pc cell after e in
      let len =
        length-columns has_nulls bitmap natts bytes old_row (i + 1) (next_live cell live_i) after
          pcs rest e1 in
      ap length (sym is) ∙ push_cell-CellOf pc pcs cell rest shape len

  -- A decoded row has one value for every live column, and its attribute bytes are the payload's.
  abbrev pub RowShape : TableDesc → Row × Bytes → Type 0
  RowShape desc decoded = length decoded.0 ≡ live_count desc.phys

  pub decode_tuple_payload-RowShape :
      (tuple : Bytes) (im2 im hoff : ℕ) (desc : TableDesc) (old_row : Option Row)
      (decoded : Row × Bytes)
      → decode_tuple_payload codecs toast tuple im2 im hoff desc old_row ≡ ok decoded
      → RowShape desc decoded
  unfolding decode_tuple_payload
  decode_tuple_payload-RowShape tuple im2 im hoff desc old_row decoded h =
      let (_, h1) = bail_ok (ltb (length desc.phys) (im2 % 2 ^ 11)) schema_drift h in
      let (n, e, h2) = bind_ok (bits_len hoff) h1 in
      let (_, h3) = bail_ok (ltb (length tuple) n) truncated h2 in
      let (row, e1, h4) =
        bind_ok
          (columns codecs toast (has_bit im 0) (take n tuple) (im2 % 2 ^ 11) (drop n tuple) old_row
            0 0 0 desc.phys)
          h3 in
      let is : row ≡ decoded.0 = cc in
      ap length (sym is)
      ∙ length-columns (has_bit im 0) (take n tuple) (im2 % 2 ^ 11) (drop n tuple) old_row 0 0 0
          desc.phys row e1

  pub multi_insert_tuple-RowShape :
      (block_data : Bytes) (desc : TableDesc) (before : ℕ) (decoded : Row × Bytes) (after : ℕ)
      → multi_insert_tuple codecs toast block_data desc before ≡ ok (decoded, after)
      → RowShape desc decoded
  unfolding multi_insert_tuple
  multi_insert_tuple-RowShape block_data desc before decoded after h =
      let off = align_to before 2 in
      let (hdr, _, h1) = bind_ok (ok_or (slice? block_data off (off + 7)) truncated) h in
      let (datalen, _, h2) = bind_ok (u16_at hdr 0) h1 in
      let (im2, _, h3) = bind_ok (u16_at hdr 2) h2 in
      let (im, _, h4) = bind_ok (u16_at hdr 4) h3 in
      let (hoff, _, h5) = bind_ok (u8_at hdr 6) h4 in
      let (payload, _, h6) =
        bind_ok (ok_or (slice? block_data (off + 7) (off + 7 + datalen)) truncated) h5 in
      let (d, e, h7) =
        bind_ok (decode_tuple_payload codecs toast payload im2 im hoff desc none) h6 in
      let is : d ≡ decoded = ap (λ x. x.0) (ok_inj h7) in
      subst (RowShape desc) is (decode_tuple_payload-RowShape payload im2 im hoff desc none d e)

  pub multi_insert_tuples-RowShape :
      (block_data : Bytes) (desc : TableDesc) (off n : ℕ) (rows : List (Row × Bytes))
      → multi_insert_tuples codecs toast block_data desc off n ≡ ok rows
      → (length rows ≡ n) × All (RowShape desc) rows
  unfolding multi_insert_tuples
  multi_insert_tuples-RowShape block_data desc off zero rows h =
      let is : [] ≡ rows = cc in (ap length (sym is), subst (All (RowShape desc)) is tt)
  multi_insert_tuples-RowShape block_data desc off (suc n) rows h =
      let ((d, after), e, h1) = bind_ok (multi_insert_tuple codecs toast block_data desc off) h in
      let (rest, e1, h2) = bind_ok (multi_insert_tuples codecs toast block_data desc after n) h1 in
      let is : d ∷ rest ≡ rows = cc in
      let (count, shapes) = multi_insert_tuples-RowShape block_data desc after n rest e1 in
      (
        ap length (sym is) ∙ ap suc count,
        subst (All (RowShape desc)) is
            (multi_insert_tuple-RowShape block_data desc off d after e, shapes),
      )

  -- A multi-insert that decodes gives as many tuples as its record counts, and every row has a value
  -- for each live column of the table.
  pub decode_multi_insert-RowShape :
      (block_data main_data : Bytes) (desc : TableDesc) (rows : List (Row × Bytes))
      → decode_multi_insert codecs toast block_data main_data desc ≡ ok rows
      → (u16_at main_data 2 ≡ ok (length rows)) × All (RowShape desc) rows
  unfolding decode_multi_insert
  decode_multi_insert-RowShape block_data main_data desc rows h =
      let (_, h1) = bail_ok (ltb (length main_data) 4) truncated h in
      let (n, e, h2) = bind_ok (u16_at main_data 2) h1 in
      let (count, shapes) = multi_insert_tuples-RowShape block_data desc 0 n rows h2 in
      (e ∙ ap ok (sym count), shapes)

-- ===== src/Wal/Encode/Rows.antt =====
-- A whole row encoded and decoded again, with its nulls and its dropped columns.
use open_ltap.Base.{
  ℕ, suc, ◌+◌, ◌-◌, ◌*◌, ◌^◌, ◌%◌, ◌≤◌, ◌<◌, List, [], ◌∷◌, ◌++◌, Option, some, none, Bytes, ok,
  Bool, true, false, not, ◌≡◌, refl, sym, ap, subst, ◌∙◌, length, get_elem?, arith, bind_ok,
  append_assoc, leb, lt→leb, append-nil, to_le, align_to, replicate, ltb, Bool-cases, inl, inr,
  if◌then◌else◌,
}
use open_ltap.Schema.{PgType, PhysCol, live, dropped, Col}
use open_ltap.Wal.Values.{Value, Row}
use open_ltap.Wal.Toast.{Codecs, ToastCache}
use open_ltap.Wal.Tuple.{
  pg_epoch_days, pg_epoch_micros, decode_value, columns, column, present_column, null_at, null_cell,
  or_old,
}
use open_ltap.Wal.Encode.{encode_value, encode_cols, pad_put, encode_short_varlena}
use open_ltap.Wal.Encode.RoundTrip.{
  Fits, Fits-Decodes, bool_fits, int2_fits, int4_fits, int8_fits, float4_fits, float8_fits,
  date_fits, timestamp_fits, timestamp_tz_fits, text_fits, bytea_fits,
}
use open_ltap.Wal.Encode.Nulls.{present_slots, live_cols}

-- A row of values that fit their columns, or are null.
pub data RowFits : List Col → Row → Type 0 where
  no_columns : RowFits [] []
  null_fits :
      (col : Col) (cols : List Col) (row : Row)
      → RowFits cols row
      → RowFits (col ∷ cols) (none ∷ row)
  value_fits :
      (col : Col) (cols : List Col) (v : Value) (row : Row)
      → Fits col.ty v
      → RowFits cols row
      → RowFits (col ∷ cols) (some v ∷ row)

abbrev pub Extends : Bytes → Bytes → Type 0
Extends buf out = (t : Bytes) × (out ≡ buf ++ t)

Extends-refl : (buf : Bytes) → Extends buf buf
Extends-refl buf = ([], sym (append-nil buf))

Extends-then : (a b c : Bytes) → Extends a b → Extends b c → Extends a c
Extends-then a b c (t, e) (u, f) = (t ++ u, f ∙ ap (λ x. x ++ u) e ∙ append_assoc a t u)

pad_put-Extends :
    (buf : Bytes) (align : ℕ) (w out : Bytes) → ok (pad_put buf align w) ≡ ok out → Extends buf out
unfolding pad_put
pad_put-Extends buf align w out h =
    let zeros = replicate {A = ℕ} (align_to (length buf) align - length buf) 0 in
    let is : pad_put buf align w ≡ out = cc in (zeros ++ w, sym is ∙ append_assoc buf zeros w)

encode_short_varlena-Extends :
    (buf payload out : Bytes) → encode_short_varlena buf payload ≡ ok out → Extends buf out
unfolding encode_short_varlena
encode_short_varlena-Extends buf payload out h = elim (Bool-cases (ltb 126 (length payload))) [
  | inl e ↦ absurd cc
  | inr e ↦
      let is : buf ++ (2 * (length payload + 1) + 1) ∷ payload ≡ out = cc in
      ((2 * (length payload + 1) + 1) ∷ payload, sym is)
]

-- Encoding appends.
Fits-Extends :
    (ty : PgType) (v : Value) (buf out : Bytes)
    → Fits ty v
    → encode_value buf ty v ≡ ok out
    → Extends buf out
unfolding encode_value
Fits-Extends ty v buf out (bool_fits b) h =
    let byte = (if b then 1 else 0) ∷ [] in let is : buf ++ byte ≡ out = cc in (byte, sym is)
Fits-Extends ty v buf out (int2_fits x f) h = pad_put-Extends buf 2 (to_le 2 x) out h
Fits-Extends ty v buf out (int4_fits x f) h = pad_put-Extends buf 4 (to_le 4 x) out h
Fits-Extends ty v buf out (int8_fits x f) h = pad_put-Extends buf 8 (to_le 8 x) out h
Fits-Extends ty v buf out (float4_fits x f) h = pad_put-Extends buf 4 (to_le 4 x) out h
Fits-Extends ty v buf out (float8_fits x f) h = pad_put-Extends buf 8 (to_le 8 x) out h
Fits-Extends ty v buf out (date_fits x f) h =
    pad_put-Extends buf 4 (to_le 4 ((x + 2 ^ 32 - pg_epoch_days) % 2 ^ 32)) out h
Fits-Extends ty v buf out (timestamp_fits x f) h =
    pad_put-Extends buf 8 (to_le 8 ((x + 2 ^ 64 - pg_epoch_micros) % 2 ^ 64)) out h
Fits-Extends ty v buf out (timestamp_tz_fits x f) h =
    pad_put-Extends buf 8 (to_le 8 ((x + 2 ^ 64 - pg_epoch_micros) % 2 ^ 64)) out h
Fits-Extends ty v buf out (text_fits t f) h = encode_short_varlena-Extends buf t out h
Fits-Extends ty v buf out (bytea_fits b) h = encode_short_varlena-Extends buf b out h

-- The row `whole` from its index `j` on.
abbrev pub Suffix : Row → ℕ → Row → Type 0
Suffix whole j row = (m : ℕ) → get_elem? whole (j + m) ≡ get_elem? row m

Suffix-next :
    (whole : Row) (j : ℕ) (v : Option Value) (row : Row)
    → Suffix whole j (v ∷ row)
    → Suffix whole (j + 1) row
Suffix-next whole j v row s m =
    let e : j + 1 + m ≡ j + suc m = omega arith in ap (get_elem? whole) e ∙ s (suc m)

Suffix-head :
    (whole : Row) (j : ℕ) (v : Option Value) (row : Row)
    → Suffix whole j (v ∷ row)
    → get_elem? whole j ≡ some v
Suffix-head whole j v row s = let e : j ≡ j + 0 = omega arith in ap (get_elem? whole) e ∙ s 0

-- The bits from slot `i` on.
abbrev pub NullsAt : Bool → Bytes → ℕ → List Bool → Type 0
NullsAt has_nulls bitmap i bits =
    (m : ℕ) (b : Bool) → get_elem? bits m ≡ some b → null_at has_nulls bitmap (i + m) ≡ ok (not b)

NullsAt-head :
    (has_nulls : Bool) (bitmap : Bytes) (i : ℕ) (b : Bool) (bits all : List Bool)
    → ok (b ∷ bits) ≡ ok all
    → NullsAt has_nulls bitmap i all
    → null_at has_nulls bitmap i ≡ ok (not b)
NullsAt-head has_nulls bitmap i b bits all h n =
    let e : i ≡ i + 0 = omega arith in
    let is : b ∷ bits ≡ all = cc in
    ap (null_at has_nulls bitmap) e ∙ n 0 b (ap (λ l. get_elem? l 0) (sym is))

NullsAt-next :
    (has_nulls : Bool) (bitmap : Bytes) (i : ℕ) (b : Bool) (bits all : List Bool)
    → ok (b ∷ bits) ≡ ok all
    → NullsAt has_nulls bitmap i all
    → NullsAt has_nulls bitmap (i + 1) bits
NullsAt-next has_nulls bitmap i b bits all h n m c found =
    let e : i + 1 + m ≡ i + suc m = omega arith in
    let is : b ∷ bits ≡ all = cc in
    ap (null_at has_nulls bitmap) e ∙ n (suc m) c (ap (λ l. get_elem? l (suc m)) (sym is) ∙ found)

module _ (codecs : Codecs) (toast : ToastCache) where
  pub column-null :
      (has_nulls : Bool) (bitmap : Bytes) (natts : ℕ) (bytes : Bytes) (old_row : Option Row)
      (i live_i off : ℕ) (pc : PhysCol)
      → i < natts
      → null_at has_nulls bitmap i ≡ ok true
      → column codecs toast has_nulls bitmap natts bytes old_row i live_i off pc
        ≡ ok (null_cell pc, off)
  unfolding column
  column-null has_nulls bitmap natts bytes old_row i live_i off pc r e =
      let inside : leb natts i ≡ false = lt→leb natts i r in rw (inside, e) refl

  pub column-live :
      (has_nulls : Bool) (bitmap : Bytes) (natts : ℕ) (bytes : Bytes) (old_row : Option Row)
      (i live_i off : ℕ) (col : Col) (v : Value) (after : ℕ)
      → i < natts
      → null_at has_nulls bitmap i ≡ ok false
      → decode_value codecs toast bytes off col.ty ≡ ok (some v, after)
      → column codecs toast has_nulls bitmap natts bytes old_row i live_i off (live col)
        ≡ ok (some (some v), after)
  unfolding column present_column or_old
  column-live has_nulls bitmap natts bytes old_row i live_i off col v after r e d =
      let inside : leb natts i ≡ false = lt→leb natts i r in rw (inside, e, d) refl

  -- Decoding the columns from slot `i` on, where the encoder started them.
  pub encode_cols-columns :
      (phys : List PhysCol) (row whole : Row) (i j natts live_i : ℕ) (buf out : Bytes)
      (has_nulls : Bool) (bitmap : Bytes) (old_row : Option Row) (bits : List Bool)
      → RowFits (live_cols phys) row
      → Suffix whole j row
      → encode_cols whole j buf (live_cols phys) ≡ ok out
      → present_slots phys row ≡ ok bits
      → NullsAt has_nulls bitmap i bits
      → i + length phys ≤ natts
      → (more : Bytes)
      → Extends buf out
        × (columns codecs toast has_nulls bitmap natts
              (out ++ more)
              old_row
              i
              live_i
              (length buf)
              phys
            ≡ ok row)
  unfolding live_cols encode_cols present_slots columns
  encode_cols-columns [] row whole i j natts live_i buf out has_nulls bitmap old_row bits no_columns
        suf h p n r more =
      let is : buf ≡ out = cc in (subst (Extends buf) is (Extends-refl buf), refl)
  encode_cols-columns (dropped attlen align ∷ pcs) row whole i j natts live_i buf out has_nulls
        bitmap old_row bits f suf h p n r more =
      let (more_bits, e, is) = bind_ok (present_slots pcs row) p in
      let null =
        column-null has_nulls bitmap natts (out ++ more) old_row i live_i (length buf)
          (dropped attlen align) (omega arith)
          (NullsAt-head has_nulls bitmap i false more_bits bits is n) in
      let (ext, rest) =
        encode_cols-columns pcs row whole (i + 1) j natts live_i buf out has_nulls bitmap old_row
          more_bits f suf h e (NullsAt-next has_nulls bitmap i false more_bits bits is n)
          (omega arith) more in
      (ext, rw (null, rest) refl)
  encode_cols-columns (live col ∷ pcs) row whole i j natts live_i buf out has_nulls bitmap old_row
        bits (null_fits c cs rest f) suf h p n r more =
      let (more_bits, e, is) = bind_ok (present_slots pcs rest) p in
      let null =
        column-null has_nulls bitmap natts (out ++ more) old_row i live_i (length buf) (live col)
          (omega arith) (NullsAt-head has_nulls bitmap i false more_bits bits is n) in
      let h1 = rw (live_cols, encode_cols, Suffix-head whole j none rest suf) at (h) in
      let (ext, decoded) =
        encode_cols-columns pcs rest whole (i + 1) (j + 1) natts (live_i + 1) buf out has_nulls
          bitmap old_row more_bits f (Suffix-next whole j none rest suf) h1 e
          (NullsAt-next has_nulls bitmap i false more_bits bits is n) (omega arith) more in
      (ext, rw (null, decoded) refl)
  encode_cols-columns (live col ∷ pcs) row whole i j natts live_i buf out has_nulls bitmap old_row
        bits (value_fits c cs v rest fits f) suf h p n r more =
      let (more_bits, e, is) = bind_ok (present_slots pcs rest) p in
      let h1 = rw (live_cols, encode_cols, Suffix-head whole j (some v) rest suf) at (h) in
      let (longer, enc, h2) = bind_ok (encode_value buf col.ty v) h1 in
      let (ext, decoded) =
        encode_cols-columns pcs rest whole (i + 1) (j + 1) natts (live_i + 1) longer out has_nulls
          bitmap old_row more_bits f (Suffix-next whole j (some v) rest suf) h2 e
          (NullsAt-next has_nulls bitmap i true more_bits bits is n) (omega arith) more in
      let (t, out_is) = ext in
      let value : decode_value codecs toast (out ++ more) (length buf) col.ty
          ≡ ok (some v, length longer) =
        ap (λ o. decode_value codecs toast (o ++ more) (length buf) col.ty) out_is
        ∙ ap (λ o. decode_value codecs toast o (length buf) col.ty) (append_assoc longer t more)
        ∙ Fits-Decodes codecs toast col.ty v buf longer fits enc (t ++ more) in
      let here =
        column-live has_nulls bitmap natts (out ++ more) old_row i live_i (length buf) col v
          (length longer) (omega arith) (NullsAt-head has_nulls bitmap i true more_bits bits is n)
          value in
      (
        Extends-then buf longer out (Fits-Extends col.ty v buf longer fits enc) ext,
        rw (here, decoded) refl,
      )

pub present_slots-ok :
    (phys : List PhysCol) (row : Row)
    → RowFits (live_cols phys) row
    → (bits : List Bool) × (present_slots phys row ≡ ok bits)
unfolding live_cols present_slots
present_slots-ok [] row f = ([], refl)
present_slots-ok (dropped attlen align ∷ pcs) row f =
    let (bits, e) = present_slots-ok pcs row f in (false ∷ bits, rw e refl)
present_slots-ok (live col ∷ pcs) row (null_fits c cs rest f) =
    let (bits, e) = present_slots-ok pcs rest f in (false ∷ bits, rw e refl)
present_slots-ok (live col ∷ pcs) row (value_fits c cs v rest fits f) =
    let (bits, e) = present_slots-ok pcs rest f in (true ∷ bits, rw e refl)

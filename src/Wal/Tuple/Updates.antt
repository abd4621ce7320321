-- ===== src/Wal/Tuple/Updates.antt =====
-- src/wal/heap.rs: an update that shares bytes with the old tuple, and the same update in full.
use open_ltap.Base.{
  ℕ, ◌+◌, ◌-◌, ◌^◌, ◌≤◌, ◌<◌, true, false, ◌&&◌, [], ◌++◌, Option, some, none, Bytes, ok, ◌>>=◌,
  ◌≡◌, refl, sym, ap, ◌∙◌, ◌==◌, ltb, le→ltb, length, take, drop, arith, slice?, slice?-take, tail?,
  tail?-drop, to_le, le-to_le_two, drop-append_ge, take-append_le, take_all, drop_all, append_assoc,
  append-nil, length-append, length-to_le, Bool-cases, inl, inr, has_bit,
}
use open_ltap.Schema.{TableDesc}
use open_ltap.Wal.Values.{Row}
use open_ltap.Wal.Heap.{HeapFmt, header_len, wal_heap_header}
use open_ltap.Wal.Toast.{Codecs, ToastCache}
use open_ltap.Wal.Tuple.{decode_update_new_tuple, decode_tuple_payload, shared_len, splice}

-- A part of known length behind a front.
slice?-part :
    (front w more : Bytes)
    → slice? (front ++ (w ++ more)) (length front) (length front + length w) ≡ some w
slice?-part front w more =
    let l1 = length-append front (w ++ more) in
    let l2 = length-append w more in
    slice?-take (front ++ (w ++ more)) (length front) (length w) (omega arith)
    ∙ ap (λ t. some (take (length w) t))
        (drop-append_ge front (w ++ more) (length front) 0 (omega arith))
    ∙ ap some (take-append_le (length w) w more (omega arith) ∙ take_all (length w) w refl)

tail?-part : (front w : Bytes) → tail? (front ++ w) (length front) ≡ some w
tail?-part front w =
    let l = length-append front w in
    tail?-drop (front ++ w) (length front) (omega arith)
    ∙ ap some (drop-append_ge front w (length front) 0 (omega arith))

slice?-front : (w more : Bytes) → slice? (w ++ more) 0 (length w) ≡ some w
slice?-front w more =
    let e : 0 + length w ≡ length w = omega arith in
    ap (slice? (w ++ more) 0) (sym e) ∙ slice?-part [] w more

-- A header is read from its own bytes.
wal_heap_header-append :
    (header more : Bytes) (fmt : HeapFmt)
    → length header ≡ header_len fmt
    → wal_heap_header (header ++ more) fmt ≡ wal_heap_header header fmt
unfolding wal_heap_header
wal_heap_header-append header more fmt len =
    let long : slice? (header ++ more) 0 (header_len fmt) ≡ some header =
      ap (slice? (header ++ more) 0) (sym len) ∙ slice?-front header more in
    let short : slice? header 0 (header_len fmt) ≡ some header =
      ap (λ t. slice? t 0 (header_len fmt)) (sym (append-nil header))
      ∙ ap (slice? (header ++ []) 0) (sym len)
      ∙ slice?-front header [] in
    rw (long, short) refl

module _ (codecs : Codecs) (toast : ToastCache) (desc : TableDesc) (fmt : HeapFmt) (header : Bytes)
    (im2 im hoff : ℕ) (old_row : Option Row)
    (header_at : wal_heap_header header fmt ≡ ok (im2, im, hoff, length header))
    (header_length : length header ≡ header_len fmt) (header_size : 23 ≤ hoff) where
  -- The part of an update behind the lengths of what it shares.
  pub decode_update_new_tuple-splice :
      (front bitmap partial : Bytes) (flags p s after : ℕ) (old : Option Bytes)
      → length bitmap ≡ hoff - 23
      → shared_len (front ++ (header ++ (bitmap ++ partial))) 0 (has_bit flags 5) ≡ ok (p, after)
      → shared_len (front ++ (header ++ (bitmap ++ partial))) after (has_bit flags 6)
        ≡ ok (s, length front)
      → decode_update_new_tuple codecs toast
          (front ++ (header ++ (bitmap ++ partial)))
          flags
          old
          old_row
          desc
          fmt
        ≡ (splice (bitmap ++ partial) bitmap p s old partial >>= λ payload.
            decode_tuple_payload codecs toast payload im2 im hoff desc old_row)
  unfolding decode_update_new_tuple
  decode_update_new_tuple-splice front bitmap partial flags p s after old len h5 h6 =
      let block = front ++ (header ++ (bitmap ++ partial)) in
      let body = header ++ (bitmap ++ partial) in
      let here = tail?-part front body in
      let head = wal_heap_header-append header (bitmap ++ partial) fmt header_length ∙ header_at in
      let enough : ltb hoff 23 ≡ false = le→ltb hoff 23 header_size in
      let assoc : block ≡ (front ++ header) ++ (bitmap ++ partial) =
        sym (append_assoc front header (bitmap ++ partial)) in
      let l = length-append front header in
      let bits : slice? block (length front + length header)
            (length front + length header + (hoff - 23))
          ≡ some bitmap =
        ap
          (λ t.
            slice? t (length front + length header) (length front + length header + (hoff - 23)))
          assoc
        ∙ ap (λ n. slice? ((front ++ header) ++ (bitmap ++ partial)) n (n + (hoff - 23))) (sym l)
        ∙ ap
            (λ n.
              slice? ((front ++ header) ++ (bitmap ++ partial)) (length (front ++ header))
                (length (front ++ header) + n))
            (sym len)
        ∙ slice?-part (front ++ header) bitmap partial in
      let rest : tail? block (length front + length header) ≡ some (bitmap ++ partial) =
        ap (λ t. tail? t (length front + length header)) assoc
        ∙ ap (tail? ((front ++ header) ++ (bitmap ++ partial))) (sym l)
        ∙ tail?-part (front ++ header) (bitmap ++ partial) in
      let l2 = length-append (front ++ header) bitmap in
      let end : length front + length header + (hoff - 23) ≡ length ((front ++ header) ++ bitmap) =
        omega arith in
      let part : tail? block (length front + length header + (hoff - 23)) ≡ some partial =
        ap (λ t. tail? t (length front + length header + (hoff - 23)))
          (assoc ∙ sym (append_assoc (front ++ header) bitmap partial))
        ∙ ap (tail? (((front ++ header) ++ bitmap) ++ partial)) end
        ∙ tail?-part ((front ++ header) ++ bitmap) partial in
      rw (h5, h6, here, head, enough, bits, rest, part) refl

both-zero : (p s : ℕ) → (p == 0 && s == 0) ≡ true → (p ≡ 0) × (s ≡ 0)
both-zero p s h = ground arith

-- What is spliced is the old tuple's ends around the new middle, whatever their lengths.
splice-old :
    (bitmap mid old : Bytes) (p s : ℕ)
    → p + s ≤ length old
    → splice (bitmap ++ mid) bitmap p s (some old) mid
      ≡ ok (bitmap ++ (take p old ++ (mid ++ drop (length old - s) old)))
unfolding splice
splice-old bitmap mid old p s h =
    let tail = drop (length old - s) old in
    elim (Bool-cases (p == 0 && s == 0)) [
      | inl e ↦
          let (none_before, none_behind) = both-zero p s e in
          let empty : tail ≡ [] = drop_all (length old - s) old (omega arith) in
          rw (e, none_before, empty, append-nil mid) refl
      | inr e ↦
          let fits : ltb (length old) (p + s) ≡ false = le→ltb (length old) (p + s) h in
          rw (e, fits)
            (ap ok (
              append_assoc (bitmap ++ take p old) mid tail
              ∙ append_assoc bitmap (take p old) (mid ++ tail)))
    ]

module _ (codecs : Codecs) (toast : ToastCache) (desc : TableDesc) (fmt : HeapFmt) (header : Bytes)
    (im2 im hoff : ℕ) (old_row : Option Row)
    (header_at : wal_heap_header header fmt ≡ ok (im2, im, hoff, length header))
    (header_length : length header ≡ header_len fmt) (header_size : 23 ≤ hoff) where
  -- An update logged with the lengths of a prefix and a suffix that it shares with the old tuple
  -- decodes as the same update logged in full, if the old tuple is at hand and has both.
  pub decode_update_new_tuple-shared :
      (bitmap mid old : Bytes) (p s : ℕ)
      → length bitmap ≡ hoff - 23
      → p < 2 ^ 16
      → s < 2 ^ 16
      → p + s ≤ length old
      → let full = take p old ++ (mid ++ drop (length old - s) old) in
        decode_update_new_tuple codecs toast
          ((to_le 2 p ++ to_le 2 s) ++ (header ++ (bitmap ++ mid)))
          0x60
          (some old)
          old_row
          desc
          fmt
        ≡ decode_update_new_tuple codecs toast (header ++ (bitmap ++ full)) 0 none old_row desc fmt
  unfolding shared_len has_bit splice to_le
  decode_update_new_tuple-shared bitmap mid old p s len hp hs h =
      let full = take p old ++ (mid ++ drop (length old - s) old) in
      let lengths = to_le 2 p ++ to_le 2 s in
      let body = header ++ (bitmap ++ mid) in
      let l1 = length-to_le 2 p in
      let l2 = length-to_le 2 s in
      let l3 = length-append (to_le 2 p) (to_le 2 s) in
      let block = lengths ++ body in
      let split : block ≡ to_le 2 p ++ (to_le 2 s ++ body) =
        append_assoc (to_le 2 p) (to_le 2 s) body in
      let first : slice? block 0 2 ≡ some (to_le 2 p) =
        ap (λ t. slice? t 0 2) split ∙ slice?-front (to_le 2 p) (to_le 2 s ++ body) in
      let second : slice? block 2 4 ≡ some (to_le 2 s) =
        ap (λ t. slice? t 2 4) split ∙ slice?-part (to_le 2 p) (to_le 2 s) body in
      let four : length lengths ≡ 4 = omega arith in
      let h5 : shared_len block 0 true ≡ ok (p, 2) = rw (first, le-to_le_two p hp) refl in
      let h6 : shared_len block 2 true ≡ ok (s, length lengths) =
        rw (second, le-to_le_two s hs, four) refl in
      decode_update_new_tuple-splice codecs toast desc fmt header im2 im hoff old_row header_at
        header_length header_size lengths bitmap mid 0x60 p s 2 (some old) len h5 h6
      ∙ ap
          (λ r. r >>= λ payload. decode_tuple_payload codecs toast payload im2 im hoff desc old_row)
          (splice-old bitmap mid old p s h)
      ∙ sym (
          decode_update_new_tuple-splice codecs toast desc fmt header im2 im hoff old_row header_at
            header_length header_size [] bitmap full 0 0 0 0 none len refl refl)

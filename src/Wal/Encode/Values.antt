-- ===== src/Wal/Encode/Values.antt =====
-- Rows encoded by `encode_attrs` and decoded again.
use open_ltap.Base.{
  ℕ, ◌+◌, ◌-◌, ◌*◌, ◌/◌, ◌%◌, ◌≤◌, [], ◌∷◌, ◌++◌, some, Bytes, ok, true, false, ◌≡◌, refl, sym, ap,
  subst, ◌∙◌, ◌==◌, ltb, length, take, arith, slice?, slice?-take, get?, le, align_to,
  length-append, length-replicate, replicate, drop-append_ge, drop-append_le, take-append_le,
  take_all, append_assoc, Bool-cases, inl, inr,
}
use open_ltap.Wal.Toast.{Codecs, ToastCache, decode_varlena, short}
use open_ltap.Wal.Tuple.{fixed}
use open_ltap.Wal.Encode.{pad_put, encode_short_varlena}

-- What stands between two parts of a byte string.
slice?-middle :
    (front w more : Bytes) (a n : ℕ)
    → a ≡ length front
    → n ≡ length w
    → slice? ((front ++ w) ++ more) a (a + n) ≡ some w
slice?-middle front w more a n ha hn =
    let whole = (front ++ w) ++ more in
    let l1 = length-append (front ++ w) more in
    let l2 = length-append front w in
    slice?-take whole a n (omega arith)
    ∙ ap (λ t. some (take n t))
        (drop-append_le a (front ++ w) more (omega arith)
          ∙ ap (λ t. t ++ more) (drop-append_ge front w a 0 (omega arith)))
    ∙ ap some (take-append_le n w more (omega arith) ∙ take_all n w hn)

-- A padded word is read back, and the offset behind it is where the encoder's buffer ends.
pub pad_put-fixed :
    (buf w more : Bytes) (n align : ℕ)
    → n ≡ length w
    → length buf ≤ align_to (length buf) align
    → fixed (pad_put buf align w ++ more) (length buf) n align
      ≡ ok (le w, length (pad_put buf align w))
unfolding fixed pad_put
pad_put-fixed buf w more n align hn up =
    let start = align_to (length buf) align in
    let zeros = replicate {A = ℕ} (start - length buf) 0 in
    let l1 = length-append buf zeros in
    let l2 = length-append (buf ++ zeros) w in
    let l3 = length-replicate {A = ℕ} (start - length buf) 0 in
    let at : start ≡ length (buf ++ zeros) = omega arith in
    let end : start + n ≡ length ((buf ++ zeros) ++ w) = omega arith in
    rw (slice?-middle (buf ++ zeros) w more start n at hn, end) refl

pub get?-middle :
    (front : Bytes) (b : ℕ) (rest more : Bytes)
    → get? ((front ++ b ∷ rest) ++ more) (length front) ≡ some b
unfolding get?
get?-middle [] b rest more = refl
get?-middle (x ∷ front) b rest more = get?-middle front b rest more

module _ (codecs : Codecs) (toast : ToastCache) where
  -- An odd first byte other than that of a toast pointer.
  pub decode_varlena-short :
      (bytes : Bytes) (off first : ℕ)
      → get? bytes off ≡ some first
      → (first == 1) ≡ false
      → (first % 2 == 1) ≡ true
      → decode_varlena codecs bytes off toast ≡ short codecs bytes off first
  unfolding decode_varlena
  decode_varlena-short bytes off first e a b = rw (e, a, b) refl

  pub short-slice? :
      (bytes : Bytes) (off total : ℕ) (payload : Bytes)
      → (total == 0) ≡ false
      → slice? bytes (off + 1) (off + total) ≡ some payload
      → short codecs bytes off (2 * total + 1) ≡ ok (some payload, off + total)
  unfolding short
  short-slice? bytes off total payload z e =
      let half : (2 * total + 1) / 2 ≡ total = omega arith in rw (half, z, e) refl

  pub encode_short_varlena-decode_varlena :
      (buf payload more out : Bytes)
      → encode_short_varlena buf payload ≡ ok out
      → decode_varlena codecs (out ++ more) (length buf) toast ≡ ok (some payload, length out)
  unfolding encode_short_varlena
  encode_short_varlena-decode_varlena buf payload more out h =
      elim (Bool-cases (ltb 126 (length payload))) [
        | inl e ↦ absurd cc
        | inr e ↦
            let total = length payload + 1 in
            let first = 2 * total + 1 in
            let is : buf ++ first ∷ payload ≡ out = cc in
            let whole = (buf ++ first ∷ payload) ++ more in
            let split : (buf ++ first ∷ []) ++ payload ≡ buf ++ first ∷ payload =
              append_assoc buf (first ∷ []) payload in
            let l = length-append buf (first ∷ payload) in
            let l1 = length-append buf (first ∷ []) in
            let width : length buf + 1 + length payload ≡ length buf + total = omega arith in
            let not_one : (first == 1) ≡ false = ground arith in
            let odd : (first % 2 == 1) ≡ true = ground arith in
            let nonzero : (total == 0) ≡ false = ground arith in
            let inside : slice? whole (length buf + 1) (length buf + total) ≡ some payload =
              ap (λ n. slice? whole (length buf + 1) n) (sym width)
              ∙ ap (λ t. slice? (t ++ more) (length buf + 1) (length buf + 1 + length payload))
                  (sym split)
              ∙ slice?-middle (buf ++ first ∷ []) payload more (length buf + 1) (length payload)
                  (omega arith) refl in
            let end : length buf + total ≡ length (buf ++ first ∷ payload) = omega arith in
            subst
              (λ o.
                decode_varlena codecs (o ++ more) (length buf) toast ≡ ok (some payload, length o))
              is
              (decode_varlena-short whole (length buf) first (get?-middle buf first payload more)
                  not_one odd
                ∙ short-slice? whole (length buf) total payload nonzero inside
                ∙ ap (λ n. ok (some payload, n)) end)
      ]

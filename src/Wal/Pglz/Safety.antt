-- ===== src/Wal/Pglz/Safety.antt =====
-- `pglz_decompress` ends and reads inside its input and its output, whatever the input.
use open_ltap.Base.{
  ◌^◌, lt→ltb, ltb, ◌%◌, ◌*◌, ◌/◌, ◌⊎◌, Error, Result-cases, ℕ, zero, suc, ◌+◌, ◌-◌, ◌≤◌, ◌<◌, Bool,
  true, false, ◌||◌, [], ◌∷◌, ◌++◌, Bytes, Result, ok, err, panic, out_of_fuel, ◌>>=◌, or_panic,
  ◌≡◌, ◌≢◌, refl, inl, inr, arith, ltb, leb, ◌==◌, ==_iff, Bool-cases, length, length-append,
  get_elem?, corrupt, has_bit,
}
use open_ltap.Wal.Safe.{Clean-if, Clean, Clean-bind, get_elem?-Clean}
use open_ltap.Wal.Pglz.{
  of_size, copy, back_reference, extended, reference, literal, item, items, groups, pglz_decompress,
}

-- A step that leaves no more input than `n` bytes.
abbrev Leaves : ℕ → Result (Bytes × Bytes) → Type 0
Leaves n (ok p) = length p.0 ≤ n
Leaves n (err why) = why ≢ out_of_fuel
Leaves n panic = ⊥

Leaves-mono : (n m : ℕ) (r : Result (Bytes × Bytes)) → n ≤ m → Leaves n r → Leaves m r
Leaves-mono n m (ok p) h l = omega (arith, h, l)
Leaves-mono n m (err why) h l = l
Leaves-mono n m panic h l = l

Leaves-output :
    (src : Bytes) (m : Result Bytes) → Clean m → Leaves (length src) (m >>= λ out. ok (src, out))
Leaves-output src (ok out) h = omega arith
Leaves-output src (err why) h = h
Leaves-output src panic h = h

Leaves-bind :
    (n : ℕ) (m : Result (Bytes × Bytes)) (f : Bytes × Bytes → Result (Bytes × Bytes))
    → Leaves n m
    → ((src out : Bytes) → length src ≤ n → Leaves n (f (src, out)))
    → Leaves n (m >>= f)
Leaves-bind n (ok p) f l g = g p.0 p.1 l
Leaves-bind n (err why) f l g = l
Leaves-bind n panic f l g = absurd l

copy-Clean :
    (len off rawsize : ℕ) (out : Bytes)
    → 0 < off
    → off ≤ length out
    → Clean (copy len off rawsize out)
unfolding copy
copy-Clean zero off rawsize out p h = tt
copy-Clean (suc len) off rawsize out p h = elim (Bool-cases (leb rawsize (length out))) [
  | inl e ↦ rw e tt
  | inr e ↦ rw e (
      Clean-bind (or_panic (get_elem? out (length out - off))) _
        (get_elem?-Clean out (length out - off) (omega (arith, p, h)))
        λ b.
          copy-Clean len off rawsize (out ++ b ∷ []) p
            (omega (arith, h, length-append out (b ∷ []))))
]

back_reference-Leaves :
    (len off rawsize : ℕ) (src out : Bytes)
    → Leaves (length src) (back_reference len off rawsize src out)
unfolding back_reference
back_reference-Leaves len off rawsize src out =
    elim (Bool-cases (off == 0 || ltb (length out) off)) [
      | inl e ↦ rw e (λ q. cc)
      | inr e ↦ rw e (
          Leaves-output src (copy len off rawsize out)
            (copy-Clean len off rawsize out (ground arith) (ground arith)))
    ]

extended-Leaves :
    (len off rawsize : ℕ) (src out : Bytes) → Leaves (length src) (extended len off rawsize src out)
unfolding extended
extended-Leaves len off rawsize [] out = elim (Bool-cases (len == 18)) [
  | inl e ↦ rw e (λ q. cc)
  | inr e ↦ rw e (back_reference-Leaves len off rawsize [] out)
]
extended-Leaves len off rawsize (c ∷ src) out = elim (Bool-cases (len == 18)) [
  | inl e ↦ rw e (
      Leaves-mono (length src) (suc (length src)) _ (omega arith)
        (back_reference-Leaves (len + c) off rawsize src out))
  | inr e ↦ rw e (back_reference-Leaves len off rawsize (c ∷ src) out)
]

reference-Leaves : (rawsize : ℕ) (src out : Bytes) → Leaves (length src) (reference rawsize src out)
unfolding reference
reference-Leaves rawsize [] out = λ q. cc
reference-Leaves rawsize (a ∷ []) out = λ q. cc
reference-Leaves rawsize (a ∷ b ∷ src) out =
    Leaves-mono (length src) (suc (suc (length src))) _ (omega arith)
      (extended-Leaves (a % 16 + 3) (a / 16 * 256 + b) rawsize src out)

item-Leaves :
    (bit : Bool) (rawsize b : ℕ) (src out : Bytes)
    → Leaves (suc (length src)) (item bit rawsize (b ∷ src) out)
unfolding item literal
item-Leaves true rawsize b src out = reference-Leaves rawsize (b ∷ src) out
item-Leaves false rawsize b src out = omega arith

items-Leaves :
    (n bit ctrl rawsize : ℕ) (src out : Bytes)
    → Leaves (length src) (items n bit ctrl rawsize src out)
unfolding items
items-Leaves zero bit ctrl rawsize src out = omega arith
items-Leaves (suc n) bit ctrl rawsize [] out = omega arith
items-Leaves (suc n) bit ctrl rawsize (b ∷ src) out = elim (Bool-cases (leb rawsize (length out))) [
  | inl e ↦ rw e (omega arith)
  | inr e ↦ rw e (
      Leaves-bind (suc (length src)) (item (has_bit ctrl bit) rawsize (b ∷ src) out) _
        (item-Leaves (has_bit ctrl bit) rawsize b src out)
        λ src' out' h.
          Leaves-mono (length src') (suc (length src)) _ h
            (items-Leaves n (bit + 1) ctrl rawsize src' out'))
]

groups-then :
    (n : ℕ) (m : Result (Bytes × Bytes)) (f : Bytes × Bytes → Result Bytes)
    → Leaves n m
    → ((src out : Bytes) → length src ≤ n → Clean (f (src, out)))
    → Clean (m >>= f)
groups-then n (ok p) f l g = g p.0 p.1 l
groups-then n (err why) f l g = l
groups-then n panic f l g = absurd l

-- As many rounds as there are bytes are enough.
groups-Clean :
    (fuel rawsize : ℕ) (src out : Bytes) → length src ≤ fuel → Clean (groups fuel rawsize src out)
unfolding groups
groups-Clean fuel rawsize [] out h = tt
groups-Clean zero rawsize (c ∷ src) out h = absurd (omega (arith, h))
groups-Clean (suc fuel) rawsize (c ∷ src) out h = Clean-if (leb rawsize (length out)) _ _ tt (
    groups-then (length src) (items 8 0 c rawsize src out) _ (items-Leaves 8 0 c rawsize src out)
      λ src' out' l. groups-Clean fuel rawsize src' out' (omega (arith, h, l)))

-- With a `rawsize` that a vector can have, `pglz_decompress` ends on every input, with `rawsize`
-- bytes or one of the source's own errors, and never reads outside its input or its output.
pub pglz_decompress-Ends :
    (src : Bytes) (rawsize : ℕ)
    → rawsize < 2 ^ 63
    → ((out : Bytes) × (pglz_decompress src rawsize ≡ ok out) × (length out ≡ rawsize))
      ⊎ ((why : Error) × (pglz_decompress src rawsize ≡ err why) × (why ≢ out_of_fuel))
unfolding pglz_decompress of_size
pglz_decompress-Ends src rawsize h =
    let fits : ltb rawsize (2 ^ 63) ≡ true = lt→ltb rawsize (2 ^ 63) h in
    elim (Result-cases (groups (length src) rawsize src [])) [
      | inl (out, e) ↦ elim (Bool-cases (length out == rawsize)) [
        | inl l ↦ inl (out, rw (fits, e, l) refl, (==_iff (length out) rawsize).0 l)
        | inr l ↦ inr (corrupt, rw (fits, e, l) refl, λ q. cc)
      ]
      | inr (inl (why, e)) ↦ inr (
        why,
        rw (fits, e) refl,
        (rw e at (groups-Clean (length src) rawsize src [] (omega arith))),
      )
      | inr (inr e) ↦ absurd (rw e at (groups-Clean (length src) rawsize src [] (omega arith)))
    ]

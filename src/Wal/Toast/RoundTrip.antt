-- ===== src/Wal/Toast/RoundTrip.antt =====
-- A value that is cut into chunks and buffered comes back whole.
use mathlib.Core.List.{append_assoc, append-nil}
use open_ltap.Base.{
  ℕ, suc, ◌+◌, ◌-◌, ◌%◌, ◌^◌, ◌<◌, false, true, List, [], ◌∷◌, ◌++◌, none, some, Bytes, ok, ◌≡◌,
  refl, ap, sym, ◌∙◌, subst, arith, le→ltb, ◌==◌, length, length-append, lookup, lookup-insert,
  nat_eq, usize_of_i32,
}
use open_ltap.Wal.Toast.{
  Codecs, ToastCache, Chunks, add_chunk, insert_chunk, signed_ltb, reassemble, resolve, entry_or,
}

-- The chunks in order, numbered from `i` on.
abbrev pub numbered : ℕ → List Bytes → Chunks
numbered i [] = []
numbered i (c ∷ cs) = (i, c) ∷ numbered (i + 1) cs

abbrev pub joined : List Bytes → Bytes
joined [] = []
joined (c ∷ cs) = c ++ joined cs

-- `add_chunk` for each chunk in turn.
abbrev pub add_chunks : ToastCache → ℕ → ℕ → ℕ → List Bytes → ToastCache
add_chunks t xid valueid i [] = t
add_chunks t xid valueid i (c ∷ cs) =
    add_chunks (add_chunk t xid valueid i c) xid valueid (i + 1) cs

insert_chunk-numbered :
    (i : ℕ) (cs : List Bytes) (c : Bytes)
    → i + length cs < 2 ^ 31
    → insert_chunk (i + length cs) c (numbered i cs) ≡ numbered i (cs ++ c ∷ [])
unfolding insert_chunk
insert_chunk-numbered i [] c h = ap (λ n. (n, c) ∷ []) (omega arith)
insert_chunk-numbered i (d ∷ cs) c h =
    let other : i == i + suc (length cs) ≡ false = ground arith in
    let later : signed_ltb (i + suc (length cs)) i ≡ false = le→ltb _ _ (omega (arith, h)) in
    let n : i + suc (length cs) ≡ i + 1 + length cs = omega arith in
    rw (other, later)
      (ap (λ m. (i, d) ∷ insert_chunk m c (numbered (i + 1) cs)) n
        ∙ ap (λ l. (i, d) ∷ l) (insert_chunk-numbered (i + 1) cs c (omega (arith, h))))

reassemble-numbered :
    (i : ℕ) (cs : List Bytes) (buf : Bytes)
    → i + length cs < 2 ^ 31
    → reassemble (numbered i cs) i buf ≡ ok (buf ++ joined cs)
unfolding reassemble
reassemble-numbered i [] buf h = ap ok (sym (append-nil buf))
reassemble-numbered i (c ∷ cs) buf h =
    let same : i == i % 2 ^ 32 ≡ true = ground (arith, h) in
    rw same (
      reassemble-numbered (i + 1) cs (buf ++ c) (omega (arith, h))
      ∙ ap ok (append_assoc buf c (joined cs)))

lookup-add_chunk :
    (t : ToastCache) (xid valueid seq : ℕ) (c : Bytes)
    → lookup valueid (add_chunk t xid valueid seq c).vals
      ≡ some (
        (entry_or xid (lookup valueid t.vals)).0,
        insert_chunk seq c (entry_or xid (lookup valueid t.vals)).1,
      )
unfolding add_chunk
lookup-add_chunk t xid valueid seq c = lookup-insert valueid valueid _ t.vals ∙ ground arith

lookup-add_chunks :
    (t : ToastCache) (xid valueid : ℕ) (before cs : List Bytes)
    → lookup valueid t.vals ≡ some (xid, numbered 0 before)
    → length before + length cs < 2 ^ 31
    → lookup valueid (add_chunks t xid valueid (length before) cs).vals
      ≡ some (xid, numbered 0 (before ++ cs))
lookup-add_chunks t xid valueid before [] e h =
    e ∙ ap (λ l. some (xid, numbered 0 l)) (sym (append-nil before))
lookup-add_chunks t xid valueid before (c ∷ cs) e h =
    let zero_add : length before ≡ 0 + length before = omega arith in
    let here : lookup valueid (add_chunk t xid valueid (length before) c).vals
        ≡ some (xid, numbered 0 (before ++ c ∷ [])) =
      lookup-add_chunk t xid valueid (length before) c
      ∙ ap (λ o. some ((entry_or xid o).0, insert_chunk (length before) c (entry_or xid o).1)) e
      ∙ ap (λ k. some (xid, insert_chunk k c (numbered 0 before))) zero_add
      ∙ ap (λ l. some (xid, l)) (insert_chunk-numbered 0 before c (omega (arith, h))) in
    let n : length (before ++ c ∷ []) ≡ length before + 1 = length-append before (c ∷ []) in
    subst
      (λ k.
        lookup valueid
          (add_chunks (add_chunk t xid valueid (length before) c) xid valueid k cs).vals
        ≡ some (xid, numbered 0 ((before ++ c ∷ []) ++ cs)))
      n
      (lookup-add_chunks (add_chunk t xid valueid (length before) c) xid valueid (before ++ c ∷ [])
        cs here (omega (arith, h, n)))
    ∙ ap (λ l. some (xid, numbered 0 l)) (append_assoc before (c ∷ []) cs)

-- The chunks of a value that is not compressed, added in order to a cache without it, resolve to
-- the value, when it is shorter than 2 ^ 30 bytes and has fewer than 2 ^ 31 chunks.
pub resolve-add_chunks :
    (codecs : Codecs) (t : ToastCache) (xid valueid : ℕ) (c : Bytes) (cs : List Bytes)
    → lookup valueid t.vals ≡ none
    → length (joined (c ∷ cs)) < 2 ^ 30
    → length (c ∷ cs) < 2 ^ 31
    → resolve codecs
        (add_chunks t xid valueid 0 (c ∷ cs))
        valueid
        (length (joined (c ∷ cs)) + 4)
        (length (joined (c ∷ cs)))
      ≡ ok (joined (c ∷ cs))
unfolding resolve insert_chunk
resolve-add_chunks codecs t xid valueid c cs new small few =
    let total : ℕ = length (joined (c ∷ cs)) in
    let first : lookup valueid (add_chunk t xid valueid 0 c).vals
        ≡ some (xid, numbered 0 (c ∷ [])) =
      lookup-add_chunk t xid valueid 0 c
      ∙ ap (λ o. some ((entry_or xid o).0, insert_chunk 0 c (entry_or xid o).1)) new in
    let all : lookup valueid (add_chunks t xid valueid 0 (c ∷ cs)).vals
        ≡ some (xid, numbered 0 (c ∷ cs)) =
      lookup-add_chunks (add_chunk t xid valueid 0 c) xid valueid (c ∷ []) cs first
        (omega (arith, few)) in
    let whole : reassemble (numbered 0 (c ∷ cs)) 0 [] ≡ ok (joined (c ∷ cs)) =
      reassemble-numbered 0 (c ∷ cs) [] (omega (arith, few)) in
    let fits : total == total % 2 ^ 30 ≡ true = ground (arith, small) in
    let raw : total == (usize_of_i32 (total + 4) + (2 ^ 64 - 4)) % 2 ^ 64 ≡ true =
      ground (arith, small) in
    rw (all, whole, fits, raw) refl

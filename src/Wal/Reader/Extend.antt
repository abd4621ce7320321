-- ===== src/Wal/Reader/Extend.antt =====
-- One round of the reader, with more bytes behind those that are pending.
use mathlib.Core.List.{append_assoc}
use open_ltap.Base.{
  ℕ, ◌+◌, ◌-◌, ◌≤◌, ◌<◌, min, Bool, false, not, ◌&&◌, [], ◌++◌, Bytes, ◌≡◌, ◌≢◌, refl, ap, sym, ◌∙◌,
  ◌⊎◌, inl, inr, arith, ltb, leb, ◌==◌, Bool-cases, if◌then◌else◌, tests, leb→le, leb→lt, ltb→le,
  le→ltb, length-take, length-drop, le, length, take, drop, length-append, take-append_le,
  drop-append_le, take-append_ge, drop-append_ge, take_all, drop_all,
}
use open_ltap.Wal.Reader.{
  WalReader, Round, wait, bail, next, avail, page_rem, page_off, hdr_len, round, extend,
  page_header, skip, body, finish_body, new_record, appended, skipped, advance, some_of, tot_len,
  is_page_magic, join, pad_after_header, align_pad, rec_hdr_len,
}
use open_ltap.Wal.Reader.Progress.{IsReading}

-- The round skips zero padding, and the bytes at hand end before the page does.
abbrev pub cuts_padding : WalReader → Bool
cuts_padding r =
    not (avail r == 0)
    && not (page_off r == 0)
    && not (ltb 0 r.skip_left)
    && not (ltb 0 r.need)
    && leb 4 (avail r)
    && tot_len r == 0
    && ltb (avail r) (page_rem r)

module _ (r : WalReader) (q : Bytes) where
  -- With more bytes a round does the same; or it takes some of them too, and then does what the
  -- two rounds do.
  abbrev pub Extends : Round → Type 0
  Extends wait = Unit {0}
  Extends (bail e) = round (extend q r) ≡ bail e
  Extends (next r' out) =
      (round (extend q r) ≡ next (extend q r') out)
      ⊎ ((r'.pending ≡ [])
          × (out ≡ [])
          × (0 < length q
              → (round (extend q r) ≡ round (extend q r')) × (round (extend q r') ≢ wait)))

  length-extend : avail (extend q r) ≡ avail r + length q
  length-extend = length-append r.pending q

  round_header : page_off r ≡ 0 → 0 < avail r → round (extend q r) ≡ page_header (extend q r)
  unfolding round
  round_header h a = ground (arith, length-extend)

  round-skip :
      page_off r ≢ 0
      → 0 < r.skip_left
      → 0 < avail r + length q
      → round (extend q r) ≡ skip (extend q r)
  unfolding round
  round-skip h s a = ground (arith, length-extend)

  round-body :
      page_off r ≢ 0
      → r.skip_left ≡ 0
      → 0 < r.need
      → 0 < avail r + length q
      → round (extend q r) ≡ body (extend q r)
  unfolding round
  round-body h s n a = ground (arith, length-extend)

  round_new :
      page_off r ≢ 0
      → r.skip_left ≡ 0
      → r.need ≡ 0
      → 0 < avail r
      → round (extend q r) ≡ new_record (extend q r)
  unfolding round
  round_new h s n a = ground (arith, length-extend)

  -- A round that takes no more than there is takes the same.
  some_of-extend : (w : ℕ) → min w (page_rem r) ≤ avail r → some_of w (extend q r) ≡ some_of w r
  some_of-extend w h = omega (arith, length-extend)

finish_body-ne_wait : (x : WalReader) → finish_body x ≢ wait
unfolding finish_body
finish_body-ne_wait x z = ground arith

reader_path :
    (r : WalReader) {pos pos' skip_left skip_left' : ℕ} {pending pending' rec rec' : Bytes}
    → pos ≡ pos'
    → pending ≡ pending'
    → skip_left ≡ skip_left'
    → rec ≡ rec'
    → ◌≡◌ {A = WalReader}
        (record r { pos = pos; pending = pending; skip_left = skip_left; rec = rec })
        (record r { pos = pos'; pending = pending'; skip_left = skip_left'; rec = rec' })
reader_path r a b c d = λ i. record r { pos = a i; pending = b i; skip_left = c i; rec = d i }

-- The skip that is left after `a` bytes and then `b` more.
skip_left_add :
    (s pos a b : ℕ)
    → (if s - (a + b) == 0 then align_pad (pos + (a + b)) else s - (a + b))
      ≡ (if s - a - b == 0 then align_pad (pos + a + b) else s - a - b)
skip_left_add s pos a b =
    let e : s - (a + b) ≡ s - a - b = omega arith in
    let f : pos + (a + b) ≡ pos + a + b = omega arith in rw (e, f)

module _ (r : WalReader) (q : Bytes) where
  skipped-extend : (k : ℕ) → k ≤ avail r → skipped k (extend q r) ≡ extend q (skipped k r)
  skipped-extend k h = reader_path r refl (drop-append_le k r.pending q h) refl refl

  appended-extend : (k : ℕ) → k ≤ avail r → appended k (extend q r) ≡ extend q (appended k r)
  appended-extend k h =
      reader_path r refl (drop-append_le k r.pending q h) refl
        (ap (◌++◌ r.rec) (take-append_le k r.pending q h))

  -- Taking all that is pending, and then `b` of the bytes behind it.
  pending_join :
      (k b : ℕ) → k ≡ avail r → drop (k + b) (r.pending ++ q) ≡ drop b (drop k r.pending ++ q)
  pending_join k b h =
      drop-append_ge r.pending q (k + b) b (omega arith) ∙ rw (drop_all k r.pending h)

  skipped_join :
      (k b : ℕ)
      → k ≡ avail r
      → k < r.skip_left
      → skipped (k + b) (extend q r) ≡ skipped b (extend q (skipped k r))
  skipped_join k b h lt =
      let e : (r.skip_left - k == 0) ≡ false = ground arith in
      rw e (
        reader_path r (omega arith) (pending_join k b h) (skip_left_add r.skip_left r.pos k b) refl)

  appended_join :
      (k b : ℕ) → k ≡ avail r → appended (k + b) (extend q r) ≡ appended b (extend q (appended k r))
  appended_join k b h = reader_path r (omega arith) (pending_join k b h) refl (
      ap (◌++◌ r.rec) (take-append_ge r.pending q (k + b) b (omega arith))
      ∙ rw (drop_all k r.pending h, take_all k r.pending h)
          (sym (append_assoc r.rec r.pending (take b q))))

  some_of_join :
      (w k : ℕ) (x : WalReader)
      → k ≡ avail r
      → avail r < min w (page_rem r)
      → x.pos ≡ r.pos + k
      → avail x ≡ 0
      → some_of w (extend q r) ≡ k + some_of (w - k) (extend q x)
  some_of_join w k x h lt p z = omega (arith, length-append r.pending q, length-append x.pending q)

  skip-Extends : page_off r ≢ 0 → 0 < r.skip_left → 0 < avail r → Extends r q (skip r)
  unfolding skip
  skip-Extends h s a =
      let k : ℕ = some_of r.skip_left r in
      elim (Bool-cases (leb (min r.skip_left (page_rem r)) (avail r))) [
        | inl t ↦ inl (
            round-skip r q h s (omega arith)
            ∙ ap (λ j. next (skipped j (extend q r)) [])
                (some_of-extend r q r.skip_left (leb→le _ _ t))
            ∙ ap (λ x. next x []) (skipped-extend k (omega arith)))
        | inr t ↦
            let lt : avail r < min r.skip_left (page_rem r) = leb→lt _ _ t in
            let e : (r.skip_left - k == 0) ≡ false = ground arith in
            let left : (skipped k r).skip_left ≡ r.skip_left - k = rw e refl in
            let b : ℕ = some_of (r.skip_left - k) (extend q (skipped k r)) in
            inr (
              drop_all k r.pending (omega arith),
              refl,
              λ n.
                  let later : round (extend q (skipped k r)) ≡ skip (extend q (skipped k r)) =
                    round-skip (skipped k r) q (omega arith) (omega (arith, left)) (omega arith) in
                  (
                    round-skip r q h s (omega arith)
                        ∙ ap (λ j. next (skipped j (extend q r)) [])
                            (some_of_join r.skip_left k (skipped k r) (omega arith) lt refl
                              (ap length (drop_all k r.pending (omega arith))))
                        ∙ ap (λ x. next x []) (skipped_join k b (omega arith) (omega arith))
                        ∙ ap
                            (λ j.
                              next
                                (skipped (some_of j (extend q (skipped k r)))
                                  (extend q (skipped k r)))
                                [])
                            (sym left)
                        ∙ sym later,
                    λ z. finishes (sym later ∙ z),
                  ),
            )
      ]
    where
      finishes : skip (extend q (skipped (some_of r.skip_left r) r)) ≢ wait
      finishes z = cc

  finish_body-Extends :
      (x : WalReader) → round (extend q r) ≡ finish_body (extend q x) → Extends r q (finish_body x)
  unfolding finish_body
  finish_body-Extends x e = elim (Bool-cases (length x.rec == x.need)) [
    | inl t ↦ rw t (inl (e ∙ rw t))
    | inr t ↦ rw t (inl (e ∙ rw t))
  ]

  body-Extends :
      IsReading r
      → page_off r ≢ 0
      → r.skip_left ≡ 0
      → 0 < r.need
      → 0 < avail r
      → Extends r q (body r)
  unfolding body
  body-Extends v h s n a =
      let w : ℕ = r.need - length r.rec in
      let k : ℕ = some_of w r in
      elim (Bool-cases (leb (min w (page_rem r)) (avail r))) [
        | inl t ↦ finish_body-Extends (appended k r) (
            round-body r q h s n (omega arith)
            ∙ ap (λ j. finish_body (appended j (extend q r))) (some_of-extend r q w (leb→le _ _ t))
            ∙ ap finish_body (appended-extend k (omega arith)))
        | inr t ↦
            let lt : avail r < min w (page_rem r) = leb→lt _ _ t in
            let grown : length (appended k r).rec ≡ length r.rec + k =
              omega (arith, length-append r.rec (take k r.pending), length-take k r.pending) in
            let short : (length (appended k r).rec == r.need) ≡ false = ground arith in
            let b : ℕ = some_of (w - k) (extend q (appended k r)) in
            rw short (
              inr (
                drop_all k r.pending (omega arith),
                refl,
                λ m.
                    let later : round (extend q (appended k r)) ≡ body (extend q (appended k r)) =
                      round-body (appended k r) q (omega arith) s n (omega arith) in
                    (
                      round-body r q h s n (omega arith)
                          ∙ ap (λ j. finish_body (appended j (extend q r)))
                              (some_of_join w k (appended k r) (omega arith) lt refl
                                (ap length (drop_all k r.pending (omega arith))))
                          ∙ ap finish_body (appended_join k b (omega arith))
                          ∙ ap
                              (λ j. finish_body (
                                appended (some_of j (extend q (appended k r)))
                                  (extend q (appended k r))))
                              (omega (arith, grown))
                          ∙ sym later,
                      λ z. finish_body-ne_wait _ (sym later ∙ z),
                    ),
              ))
      ]

  join-extend : 24 ≤ avail r → join (extend q r) ≡ extend q (join r)
  join-extend h =
      let words : take 4 (drop 16 (r.pending ++ q)) ≡ take 4 (drop 16 r.pending) =
        ap (take 4) (drop-append_le 16 r.pending q (omega arith))
        ∙ take-append_le 4 (drop 16 r.pending) q (omega (arith, length-drop 16 r.pending)) in
      λ i. record (join r) {
        pending = r.pending ++ q;
        skip_left = if r.started then r.skip_left else le (words i);
      }

  header-Extends : page_off r ≡ 0 → 0 < avail r → Extends r q (page_header r)
  unfolding page_header
  header-Extends h a = elim (Bool-cases (ltb (avail r) (hdr_len r))) [
    | inl t ↦ rw t tt
    | inr t ↦
        let enough : hdr_len r ≤ avail r = ltb→le _ _ t in
        let least : 24 ≤ hdr_len r = ground arith in
        let magic : is_page_magic (le (take 2 (r.pending ++ q)))
            ≡ is_page_magic (le (take 2 r.pending)) =
          ap (λ z. is_page_magic (le z)) (take-append_le 2 r.pending q (omega arith)) in
        let longer : ltb (avail (extend q r)) (hdr_len r) ≡ false =
          le→ltb _ _ (omega (arith, length-append r.pending q)) in
        elim (Bool-cases (is_page_magic (le (take 2 r.pending)))) [
          | inl m ↦
              rw (t, m)
                (inl (
                  round_header r q h a
                  ∙ rw (longer, magic, m)
                      (ap (λ x. next x [])
                        (ap (λ x. pad_after_header (advance (hdr_len r) x))
                            (join-extend (omega arith))
                          ∙ λ i. record (pad_after_header (advance (hdr_len r) (join r))) {
                            pending = drop-append_le (hdr_len r) r.pending q enough i;
                          }))))
          | inr m ↦ rw (t, m) (round_header r q h a ∙ rw (longer, magic, m))
        ]
  ]

  new-Extends :
      cuts_padding r ≡ false
      → page_off r ≢ 0
      → r.skip_left ≡ 0
      → r.need ≡ 0
      → 0 < avail r
      → Extends r q (new_record r)
  unfolding new_record
  new-Extends c h s n a = elim (Bool-cases (ltb (avail r) 4)) [
    | inl t ↦ rw t tt
    | inr t ↦
        let same : tot_len (extend q r) ≡ tot_len r =
          ap le (take-append_le 4 r.pending q (ltb→le _ _ t)) in
        let longer : ltb (avail (extend q r)) 4 ≡ false =
          le→ltb _ _ (omega (tests, t, length-append r.pending q)) in
        elim (Bool-cases (tot_len r == 0)) [
          | inl e ↦
              let room : page_rem r ≤ avail r = ground arith in
              let k : ℕ = min (page_rem r) (avail r) in
              rw (t, e)
                (inl (
                  round_new r q h s n a
                  ∙ rw (longer, same, e)
                      (ap (λ x. next x [])
                        (ap (λ j. advance j (extend q r)) (omega (arith, length-append r.pending q))
                          ∙ λ i. record (advance k r) {
                            pending = drop-append_le k r.pending q (omega arith) i;
                          }))))
          | inr e ↦ elim (Bool-cases (ltb (tot_len r) rec_hdr_len)) [
            | inl u ↦ rw (t, e, u) (round_new r q h s n a ∙ rw (longer, same, e, u))
            | inr u ↦ rw (t, e, u) (inl (round_new r q h s n a ∙ rw (longer, same, e, u)))
          ]
        ]
  ]

pub round-Extends :
    (r : WalReader) (q : Bytes) → IsReading r → cuts_padding r ≡ false → Extends r q (round r)
unfolding round
round-Extends r q v c = elim (Bool-cases (avail r == 0)) [
  | inl t ↦ rw t tt
  | inr t ↦ elim (Bool-cases (page_off r == 0)) [
    | inl h ↦ rw (t, h) (header-Extends r q (ground arith) (ground arith))
    | inr h ↦ elim (Bool-cases (ltb 0 r.skip_left)) [
      | inl s ↦ rw (t, h, s) (skip-Extends r q (ground arith) (ground arith) (ground arith))
      | inr s ↦ elim (Bool-cases (ltb 0 r.need)) [
        | inl n ↦
            rw (t, h, s, n)
              (body-Extends r q v (ground arith) (ground arith) (ground arith) (ground arith))
        | inr n ↦
            rw (t, h, s, n)
              (new-Extends r q c (ground arith) (ground arith) (ground arith) (ground arith))
      ]
    ]
  ]
]

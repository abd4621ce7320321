-- ===== src/Wal/Reader/Announced.antt =====
-- A record that the reader hands out is as long as the length word at its LSN says.
use open_ltap.Base.{
  ℕ, ◌+◌, ◌-◌, ◌≤◌, ◌<◌, min, Bytes, ◌≡◌, refl, sym, ap, subst, ◌∙◌, ◌⊎◌, inl, inr, arith, ltb,
  ltb→lt, ◌==◌, Bool-cases, le, length, take, drop, drop-drop, All,
}
use open_ltap.Wal.Reader.{
  WalReader, Round, wait, bail, next, avail, page_rem, page_off, hdr_len, round, rec_hdr_len,
  page_header, skip, body, new_record, appended, some_of, tot_len, is_page_magic,
}

-- A reader is to hand out `n` bytes for the record at `lsn`: it is reading that record, and `n` is
-- the length it read from it earlier; or the record's length word, its first four bytes, is among
-- the bytes that are pending, at `lsn`.
abbrev pub Announced : WalReader → ℕ → ℕ → Type 0
Announced r lsn n =
    ((0 < r.need) × (lsn ≡ r.rec_lsn) × (n ≡ r.need))
    ⊎ ((r.pos ≤ lsn) × (n ≡ le (take 4 (drop (lsn - r.pos) r.pending))))

abbrev pub IsComplete : WalReader → ℕ × Bytes → Type 0
IsComplete r p = Announced r p.0 (length p.1)

-- A later reader of the same bytes, and the record that it is reading.
pub record Tracks (from r : WalReader) : Type 0 where
  pub forward : from.pos ≤ r.pos
  pub same_bytes : r.pending ≡ drop (r.pos - from.pos) from.pending
  pub announced : (r.need ≡ 0) ⊎ Announced from r.rec_lsn r.need

pub Tracks-self : (r : WalReader) → Tracks r r
Tracks-self r = record {
  forward = omega arith;
  same_bytes = let e : 0 ≡ r.pos - r.pos = omega arith in ap (λ n. drop n r.pending) e;
  announced = elim (Bool-cases (r.need == 0)) [
    | inl e ↦ inl (ground arith)
    | inr e ↦ inr (inl (ground arith, refl, refl))
  ];
}

abbrev pub TracksRound : WalReader → Round → Type 0
TracksRound from wait = Unit {0}
TracksRound from (bail e) = Unit {0}
TracksRound from (next r out) = Tracks from r × All (IsComplete from) out

module _ (from r : WalReader) (t : Tracks from r) where
  advanced : (n : ℕ) → drop n r.pending ≡ drop (r.pos + n - from.pos) from.pending
  advanced n =
      let low = t.forward in
      let at : r.pos - from.pos + n ≡ r.pos + n - from.pos = omega arith in
      ap (drop n) t.same_bytes
      ∙ drop-drop n (r.pos - from.pos) from.pending
      ∙ ap (λ k. drop k from.pending) at

  further : (n : ℕ) → from.pos ≤ r.pos + n
  further n = omega (arith, t.forward)

  page_header-Tracks : TracksRound from (page_header r)
  unfolding page_header
  page_header-Tracks = elim (Bool-cases (ltb (avail r) (hdr_len r))) [
    | inl e ↦ rw e tt
    | inr e ↦ elim (Bool-cases (is_page_magic (le (take 2 r.pending)))) [
      | inl m ↦
          rw (e, m)
            (
              record {
                forward = further (hdr_len r);
                same_bytes = advanced (hdr_len r);
                announced = t.announced;
              },
              tt,
            )
      | inr m ↦ rw (e, m) tt
    ]
  ]

  skip-Tracks : TracksRound from (skip r)
  unfolding skip
  skip-Tracks =
      let n = some_of r.skip_left r in
      (record { forward = further n; same_bytes = advanced n; announced = t.announced }, tt)

  body-Tracks : 0 < r.need → TracksRound from (body r)
  unfolding body
  body-Tracks reading =
      let k : ℕ = some_of (r.need - length r.rec) r in
      elim (Bool-cases (length (appended k r).rec == r.need)) [
        | inl e ↦
            let whole : length (appended k r).rec ≡ r.need = ground arith in
            let lsn : Announced from r.rec_lsn r.need = elim t.announced [
              | inl none_read ↦ absurd (omega arith)
              | inr a ↦ a
            ] in
            rw e (
              record { forward = further k; same_bytes = advanced k; announced = inl refl },
              (subst (Announced from r.rec_lsn) (sym whole) lsn, tt),
            )
        | inr e ↦
            rw e
              (record { forward = further k; same_bytes = advanced k; announced = t.announced }, tt)
      ]

  new_record-Tracks : TracksRound from (new_record r)
  unfolding new_record
  new_record-Tracks = elim (Bool-cases (ltb (avail r) 4)) [
    | inl a ↦ rw a tt
    | inr a ↦ elim (Bool-cases (tot_len r == 0)) [
      | inl e ↦
          let n = min (page_rem r) (avail r) in
          rw (a, e)
            (record { forward = further n; same_bytes = advanced n; announced = t.announced }, tt)
      | inr e ↦ elim (Bool-cases (ltb (tot_len r) rec_hdr_len)) [
        | inl c ↦ rw (a, e, c) tt
        | inr c ↦
            rw (a, e, c)
              (
                record {
                  forward = t.forward;
                  same_bytes = t.same_bytes;
                  announced = inr (inr (t.forward, ap (λ b. le (take 4 b)) t.same_bytes));
                },
                tt,
              )
      ]
    ]
  ]

  pub round-Tracks : TracksRound from (round r)
  unfolding round
  round-Tracks = elim (Bool-cases (avail r == 0)) [
    | inl a ↦ rw a tt
    | inr a ↦ elim (Bool-cases (page_off r == 0)) [
      | inl h ↦ rw (a, h) page_header-Tracks
      | inr h ↦ elim (Bool-cases (ltb 0 r.skip_left)) [
        | inl s ↦ rw (a, h, s) skip-Tracks
        | inr s ↦ elim (Bool-cases (ltb 0 r.need)) [
          | inl n ↦ rw (a, h, s, n) (body-Tracks (ltb→lt 0 r.need n))
          | inr n ↦ rw (a, h, s, n) new_record-Tracks
        ]
      ]
    ]
  ]

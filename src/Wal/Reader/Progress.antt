-- ===== src/Wal/Reader/Progress.antt =====
-- Every round makes progress, so `feed` ends, and it accounts for every byte.
use open_ltap.Base.{
  ℕ, zero, suc, ◌+◌, ◌-◌, ◌*◌, ◌≤◌, ◌<◌, min, [], ◌++◌, Bytes, Result, ok, err, Error, ◌≡◌, ◌≢◌,
  refl, ◌⊎◌, inl, inr, arith, ltb, ◌==◌, Bool-cases, if◌then◌else◌, tests, ltb→lt, le, panic,
  length, take, length-append, length-take, length-drop, out_of_fuel, stream_gap, ◌∙◌, All,
  All-append,
}
use open_ltap.Wal.Reader.Announced.{IsComplete, Tracks, Tracks-self, round-Tracks}
use open_ltap.Wal.Reader.{
  WalReader, Records, Round, wait, bail, next, avail, page_rem, page_off, hdr_len, round, loop,
  rounds, extend, feed, rec_hdr_len, page_header, skip, body, new_record, new, appended, some_of,
  tot_len, is_page_magic,
}

-- A record that is being read is longer than what has been read of it, and no shorter than a header.
pub record IsReading (r : WalReader) : Type 0 where
  pub unfinished : (r.need ≡ 0) ⊎ (length r.rec < r.need)
  pub header : (r.need ≡ 0) ⊎ (rec_hdr_len ≤ r.need)

new-IsReading : (start_lsn : ℕ) → IsReading (new start_lsn)
unfolding new
new-IsReading start_lsn = record { unfinished = inl refl; header = inl refl }

pub measure : WalReader → ℕ
measure r = 2 * avail r + (if r.need == 0 then 1 else 0)

-- What a round that goes on keeps, and what it pushes.
pub record Goes (r r' : WalReader) (out : Records) : Type 0 where
  pub reading : IsReading r'
  pub falls : measure r' < measure r
  pub accounts : r'.pos + avail r' ≡ r.pos + avail r
  pub whole : All (λ p. rec_hdr_len ≤ length p.1) out

abbrev pub GoesOn : WalReader → Round → Type 0
GoesOn r wait = Unit {0}
GoesOn r (bail e) = Unit {0}
GoesOn r (next r' out) = Goes r r' out

hdr_len-pos : (r : WalReader) → 0 < hdr_len r
hdr_len-pos r = ground arith

page_header-GoesOn : (r : WalReader) → IsReading r → GoesOn r (page_header r)
unfolding page_header measure
page_header-GoesOn r v = elim (Bool-cases (ltb (avail r) (hdr_len r))) [
  | inl t ↦ rw t tt
  | inr t ↦ elim (Bool-cases (is_page_magic (le (take 2 r.pending)))) [
    | inl m ↦
        rw (t, m)
          (record {
            reading = record { unfinished = v.unfinished; header = v.header };
            falls = omega (tests, t, hdr_len-pos r, length-drop (hdr_len r) r.pending);
            accounts = omega (tests, t, length-drop (hdr_len r) r.pending);
            whole = tt;
          })
    | inr m ↦ rw (t, m) tt
  ]
]

page_rem-pos : (r : WalReader) → 0 < page_rem r
page_rem-pos r = omega arith

skip-GoesOn : (r : WalReader) → IsReading r → 0 < avail r → 0 < r.skip_left → GoesOn r (skip r)
unfolding skip measure
skip-GoesOn r v a s = record {
  reading = record { unfinished = v.unfinished; header = v.header };
  falls = omega (arith, length-drop (some_of r.skip_left r) r.pending);
  accounts = omega (arith, length-drop (some_of r.skip_left r) r.pending);
  whole = tt;
}

-- What `body` takes brings the record no further than its end.
taken :
    (r : WalReader)
    → length (appended (some_of (r.need - length r.rec) r) r).rec
      ≡ length r.rec + some_of (r.need - length r.rec) r
taken r = omega (
  arith,
  length-append r.rec (take (some_of (r.need - length r.rec) r) r.pending),
  length-take (some_of (r.need - length r.rec) r) r.pending,
)

body-GoesOn : (r : WalReader) → IsReading r → 0 < avail r → 0 < r.need → GoesOn r (body r)
unfolding body measure
body-GoesOn r v a n =
    let k : ℕ = some_of (r.need - length r.rec) r in
    elim (Bool-cases (length (appended k r).rec == r.need)) [
      | inl t ↦ rw t (record {
        reading = record { unfinished = inl refl; header = inl refl };
        falls = ground (arith, length-drop k r.pending, taken r);
        accounts = omega (arith, length-drop k r.pending);
        whole = (ground (arith, taken r), tt);
      })
      | inr t ↦ rw t (record {
        reading = record { unfinished = inr (ground (arith, taken r)); header = v.header };
        falls = ground (arith, length-drop k r.pending, taken r);
        accounts = omega (arith, length-drop k r.pending);
        whole = tt;
      })
    ]

new_record-GoesOn :
    (r : WalReader) → IsReading r → 0 < avail r → r.need ≡ 0 → GoesOn r (new_record r)
unfolding new_record measure
new_record-GoesOn r v a z = elim (Bool-cases (ltb (avail r) 4)) [
  | inl t ↦ rw t tt
  | inr t ↦ elim (Bool-cases (tot_len r == 0)) [
    | inl e ↦
        rw (t, e)
          (record {
            reading = record { unfinished = v.unfinished; header = v.header };
            falls = omega (arith, length-drop (min (page_rem r) (avail r)) r.pending);
            accounts = omega (arith, length-drop (min (page_rem r) (avail r)) r.pending);
            whole = tt;
          })
    | inr e ↦ elim (Bool-cases (ltb (tot_len r) rec_hdr_len)) [
      | inl c ↦ rw (t, e, c) tt
      | inr c ↦
          rw (t, e, c)
            (record {
              reading = record {
                unfinished = inr (omega (tests, c));
                header = inr (omega (tests, c));
              };
              falls = ground arith;
              accounts = refl;
              whole = tt;
            })
    ]
  ]
]

pub round-GoesOn : (r : WalReader) → IsReading r → GoesOn r (round r)
unfolding round
round-GoesOn r v = elim (Bool-cases (avail r == 0)) [
  | inl t ↦ rw t tt
  | inr t ↦ elim (Bool-cases (page_off r == 0)) [
    | inl h ↦ rw (t, h) (page_header-GoesOn r v)
    | inr h ↦ elim (Bool-cases (ltb 0 r.skip_left)) [
      | inl s ↦ rw (t, h, s) (skip-GoesOn r v (ground arith) (ltb→lt 0 r.skip_left s))
      | inr s ↦ elim (Bool-cases (ltb 0 r.need)) [
        | inl n ↦ rw (t, h, s, n) (body-GoesOn r v (ground arith) (ltb→lt 0 r.need n))
        | inr n ↦ rw (t, h, s, n) (new_record-GoesOn r v (ground arith) (ground arith))
      ]
    ]
  ]
]

-- What a run of the loop gives: a reader that has accounted for every byte, and records no shorter
-- than a header; or an error of the source's own, not the model's.
abbrev pub Ends : WalReader → Result (WalReader × Records) → Type 0
Ends r (ok (r', out)) =
    IsReading r' × (r'.pos + avail r' ≡ r.pos + avail r) × All (λ p. rec_hdr_len ≤ length p.1) out
Ends r (err e) = e ≢ out_of_fuel
Ends r panic = ⊥

round-bail : (r : WalReader) {e : Error} → round r ≡ bail e → e ≢ out_of_fuel
unfolding round page_header skip body new_record
round-bail r q = ground arith

pub Round-cases :
    (s : Round)
    → (s ≡ wait)
      ⊎ ((e : Error) × (s ≡ bail e))
      ⊎ ((r : WalReader) × (out : Records) × (s ≡ next r out))
Round-cases wait = inl refl
Round-cases (bail e) = inr (inl (e, refl))
Round-cases (next r out) = inr (inr (r, out, refl))

Ends-step :
    (r r' : WalReader) (x : Result (WalReader × Records))
    → r'.pos + avail r' ≡ r.pos + avail r
    → Ends r' x
    → Ends r x
Ends-step r r' (ok (s, out)) q (v, t, a) = (v, t ∙ q, a)
Ends-step r r' (err e) q h = h
Ends-step r r' panic q h = h

module _ (fuel : ℕ) (r : WalReader) (out : Records) where
  pub loop-wait : round r ≡ wait → loop (suc fuel) r out ≡ ok (r, out)
  unfolding loop
  loop-wait q = rw (q, loop)

  pub loop-bail : {e : Error} → round r ≡ bail e → loop (suc fuel) r out ≡ err e
  unfolding loop
  loop-bail q = rw (q, loop)

  pub loop-next :
      {r' : WalReader} {more : Records}
      → round r ≡ next r' more
      → loop (suc fuel) r out ≡ loop fuel r' (out ++ more)
  unfolding loop
  loop-next q = rw (q, loop)

pub loop-Ends :
    (fuel : ℕ) (r : WalReader) (out : Records)
    → IsReading r
    → measure r < fuel
    → All (λ p. rec_hdr_len ≤ length p.1) out
    → Ends r (loop fuel r out)
loop-Ends zero r out v m a = absurd (omega arith)
loop-Ends (suc fuel) r out v m a = elim (Round-cases (round r)) [
  | inl w ↦ rw (loop-wait fuel r out w) (v, refl, a)
  | inr (inl (e, q)) ↦ rw (loop-bail fuel r out q) (round-bail r q)
  | inr (inr (r', more, q)) ↦
      let g : Goes r r' more = rw q at (round-GoesOn r v) in
      rw (loop-next fuel r out q) (
        Ends-step r r' _ g.accounts (
          loop-Ends fuel r' (out ++ more) g.reading (omega (arith, g.falls))
            (All-append _ out more a g.whole)))
]

pub measure-rounds : (r : WalReader) → measure r < rounds r
unfolding measure
measure-rounds r = ground arith

-- Every record of a result is complete.
abbrev pub AllComplete : WalReader → Result (WalReader × Records) → Type 0
AllComplete from (ok (r', out)) = All (IsComplete from) out
AllComplete from (err e) = Unit {0}
AllComplete from panic = Unit {0}

loop-AllComplete :
    (fuel : ℕ) (from r : WalReader) (out : Records)
    → Tracks from r
    → All (IsComplete from) out
    → AllComplete from (loop fuel r out)
unfolding loop
loop-AllComplete zero from r out t a = tt
loop-AllComplete (suc fuel) from r out t a = elim (Round-cases (round r)) [
  | inl w ↦ rw (loop-wait fuel r out w) a
  | inr (inl (e, q)) ↦ rw (loop-bail fuel r out q) tt
  | inr (inr (r', more, q)) ↦
      let (t', complete) : Tracks from r' × All (IsComplete from) more =
        rw q at (round-Tracks from r t) in
      rw (loop-next fuel r out q)
        (loop-AllComplete fuel from r' (out ++ more) t' (All-append _ out more a complete))
]

-- `feed` ends. At the expected LSN it gives records and a reader that has taken in exactly the
-- bytes given, or one of the source's own errors; every record is at least a header long, and
-- exactly as long as the length word at its LSN says or, when it began before this call, as the
-- reader had noted. At any other LSN it reports a gap.
pub feed-Ends :
    (r : WalReader) (start_lsn : ℕ) (bytes : Bytes)
    → IsReading r
    → ((start_lsn ≡ r.pos + avail r)
        × Ends (extend bytes r) (feed r start_lsn bytes)
        × AllComplete (extend bytes r) (feed r start_lsn bytes))
      ⊎ ((start_lsn ≢ r.pos + avail r) × (feed r start_lsn bytes ≡ err stream_gap))
unfolding feed
feed-Ends r start_lsn bytes v = elim (Bool-cases (start_lsn == r.pos + avail r)) [
  | inl t ↦
      let all = extend bytes r in
      inl (
        ground arith,
        rw t (
            loop-Ends (rounds all) all [] (record { unfinished = v.unfinished; header = v.header })
              (measure-rounds all) tt),
        rw t (loop-AllComplete (rounds all) all all [] (Tracks-self all) tt),
      )
  | inr t ↦ inr (ground arith, rw t)
]

-- ===== src/Wal/Reader/Chunks.antt =====
-- How the stream is cut into chunks does not matter.
use mathlib.Core.List.{append_assoc, append-nil}
use open_ltap.Base.{
  ℕ, zero, suc, ◌+◌, ◌<◌, true, false, [], ◌++◌, Bytes, Result, ok, err, panic, ◌>>=◌, ◌≡◌, ◌≢◌,
  refl, ap, sym, ◌∙◌, inl, inr, arith, ◌==◌, Bool-cases, length, length-append,
}
use open_ltap.Wal.Reader.{WalReader, Records, wait, next, avail, round, loop, rounds, extend, feed}
use open_ltap.Wal.Reader.Progress.{
  IsReading, measure, Goes, round-GoesOn, Round-cases, loop-wait, loop-bail, loop-next, loop-Ends,
  measure-rounds, Ends,
}
use open_ltap.Wal.Reader.Extend.{cuts_padding, Extends, round-Extends}

-- No round of the run cuts zero padding short.
abbrev pub IsWhole : ℕ → WalReader → Type 0
IsWhole zero r = Unit {0}
IsWhole (suc fuel) r =
    (cuts_padding r ≡ false) × elim (round r) [ next r' out ↦ IsWhole fuel r' | _ ↦ Unit {0} ]

abbrev prepend : Records → Result (WalReader × Records) → Result (WalReader × Records)
prepend out x = do (r, more) ← x; ok (r, out ++ more)

prepend-prepend :
    (a b : Records) (x : Result (WalReader × Records))
    → prepend a (prepend b x) ≡ prepend (a ++ b) x
prepend-prepend a b (ok (r, more)) = ap (λ o. ok (r, o)) (sym (append_assoc a b more))
prepend-prepend a b (err e) = refl
prepend-prepend a b panic = refl

loop-prepend :
    (fuel : ℕ) (r : WalReader) (out : Records) → loop fuel r out ≡ prepend out (loop fuel r [])
unfolding loop
loop-prepend zero r out = refl
loop-prepend (suc fuel) r out = elim (Round-cases (round r)) [
  | inl w ↦
      loop-wait fuel r out w
      ∙ ap (λ o. ok (r, o)) (sym (append-nil out))
      ∙ ap (prepend out) (sym (loop-wait fuel r [] w))
  | inr (inl (e, q)) ↦ loop-bail fuel r out q ∙ ap (prepend out) (sym (loop-bail fuel r [] q))
  | inr (inr (r', more, q)) ↦
      loop-next fuel r out q
      ∙ loop-prepend fuel r' (out ++ more)
      ∙ sym (prepend-prepend out more (loop fuel r' []))
      ∙ ap (prepend out) (sym (loop-next fuel r [] q ∙ loop-prepend fuel r' more))
]

loop-fuel :
    (f g : ℕ) (r : WalReader) (out : Records)
    → IsReading r
    → measure r < f
    → measure r < g
    → loop f r out ≡ loop g r out
loop-fuel zero g r out v m n = absurd (omega arith)
loop-fuel (suc f) zero r out v m n = absurd (omega arith)
loop-fuel (suc f) (suc g) r out v m n = elim (Round-cases (round r)) [
  | inl w ↦ loop-wait f r out w ∙ sym (loop-wait g r out w)
  | inr (inl (e, q)) ↦ loop-bail f r out q ∙ sym (loop-bail g r out q)
  | inr (inr (r', more, q)) ↦
      let go : Goes r r' more = rw q at (round-GoesOn r v) in
      loop-next f r out q
      ∙ loop-fuel f g r' (out ++ more) go.reading (omega (arith, go.falls))
          (omega (arith, go.falls))
      ∙ sym (loop-next g r out q)
]

-- Two readers whose next rounds agree, on more than to wait, run alike.
loop-same_round :
    (f g : ℕ) (a b : WalReader) (out : Records)
    → IsReading a
    → IsReading b
    → measure a < f
    → measure b < g
    → round a ≡ round b
    → round b ≢ wait
    → loop f a out ≡ loop g b out
loop-same_round zero g a b out v w m n e ne = absurd (omega arith)
loop-same_round (suc f) zero a b out v w m n e ne = absurd (omega arith)
loop-same_round (suc f) (suc g) a b out v w m n e ne = elim (Round-cases (round b)) [
  | inl q ↦ absurd (ne q)
  | inr (inl (x, q)) ↦ loop-bail f a out (e ∙ q) ∙ sym (loop-bail g b out q)
  | inr (inr (r', more, q)) ↦
      let go : Goes b r' more = rw q at (round-GoesOn b w) in
      let go' : Goes a r' more = rw (e ∙ q) at (round-GoesOn a v) in
      loop-next f a out (e ∙ q)
      ∙ loop-fuel f g r' (out ++ more) go.reading (omega (arith, go'.falls))
          (omega (arith, go.falls))
      ∙ sym (loop-next g b out q)
]

loop_empty :
    (f : ℕ) (r : WalReader) (out : Records) → 0 < f → r.pending ≡ [] → loop f r out ≡ ok (r, out)
unfolding round
loop_empty zero r out h e = absurd (omega arith)
loop_empty (suc f) r out h e = loop-wait f r out (rw (ap length e))

extend-IsReading : (q : Bytes) (r : WalReader) → IsReading r → IsReading (extend q r)
extend-IsReading q r v = record { unfinished = v.unfinished; header = v.header }

abbrev resume : Bytes → WalReader × Records → Result (WalReader × Records)
resume q (r, out) = loop (rounds (extend q r)) (extend q r) out

loop-extend :
    (q : Bytes) (f g : ℕ) (r : WalReader) (out : Records)
    → 0 < length q
    → IsReading r
    → IsWhole f r
    → measure r < f
    → measure (extend q r) < g
    → loop g (extend q r) out ≡ (loop f r out >>= resume q)
loop-extend q zero g r out l v w m n = absurd (omega arith)
loop-extend q (suc f) zero r out l v w m n = absurd (omega arith)
loop-extend q (suc f) (suc g) r out l v w m n = elim (Round-cases (round r)) [
  | inl e ↦
      loop-fuel (suc g) (rounds (extend q r)) (extend q r) out (extend-IsReading q r v) n
        (measure-rounds (extend q r))
      ∙ rw (loop-wait f r out e)
  | inr (inl (x, e)) ↦
      loop-bail g (extend q r) out (rw e at (round-Extends r q v w.0)) ∙ rw (loop-bail f r out e)
  | inr (inr (r', more, e)) ↦
      let go : Goes r r' more = rw e at (round-GoesOn r v) in
      let rest : IsWhole f r' = rw e at (w.1) in
      let both : Extends r q (next r' more) = rw e at (round-Extends r q v w.0) in
      elim both [
        | inl same ↦
            let go' : Goes (extend q r) (extend q r') more =
              rw same at (round-GoesOn (extend q r) (extend-IsReading q r v)) in
            loop-next g (extend q r) out same
            ∙ loop-extend q f g r' (out ++ more) l go.reading rest (omega (arith, go.falls))
                (omega (arith, go'.falls))
            ∙ ap (λ y. y >>= resume q) (sym (loop-next f r out e))
        | inr (empty, silent, join) ↦
            loop-same_round (suc g) (rounds (extend q r')) (extend q r) (extend q r') out
              (extend-IsReading q r v) (extend-IsReading q r' go.reading) n
              (measure-rounds (extend q r')) (join l).0 (join l).1
            ∙ ap (λ y. y >>= resume q)
                (sym (
                  loop-next f r out e
                  ∙ loop_empty f r' (out ++ more) (omega (arith, go.falls)) empty
                  ∙ ap (λ o. ok (r', o)) (ap (◌++◌ out) silent ∙ append-nil out)))
      ]
]

-- The second `feed` of two, with what the first one gave.
abbrev pub then_feed : ℕ → Bytes → WalReader × Records → Result (WalReader × Records)
then_feed start_lsn bytes (r, out) = do (r', more) ← feed r start_lsn bytes; ok (r', out ++ more)

resume-then_feed :
    (q : Bytes) (end_lsn : ℕ) (r : WalReader) (x : Result (WalReader × Records))
    → r.pos + avail r ≡ end_lsn
    → Ends r x
    → (x >>= resume q) ≡ (x >>= then_feed end_lsn q)
unfolding feed
resume-then_feed q end_lsn r (ok (r', out)) e (v, t, a) =
    let here : (end_lsn == r'.pos + avail r') ≡ true = ground arith in
    loop-prepend (rounds (extend q r')) (extend q r') out ∙ rw here
resume-then_feed q end_lsn r (err x) e h = refl
resume-then_feed q end_lsn r panic e h = refl

feed-loop :
    (r : WalReader) (start_lsn : ℕ) (bytes : Bytes)
    → (start_lsn == r.pos + avail r) ≡ true
    → feed r start_lsn bytes ≡ loop (rounds (extend bytes r)) (extend bytes r) []
unfolding feed
feed-loop r start_lsn bytes t = rw t

-- Feeding a stream in two chunks is feeding it whole: the same records, the same reader, the same
-- errors. The second chunk is not empty, and the first one does not end inside zero padding.
pub feed-append :
    (r : WalReader) (start_lsn : ℕ) (a b : Bytes)
    → IsReading r
    → IsWhole (rounds (extend a r)) (extend a r)
    → 0 < length b
    → feed r start_lsn (a ++ b) ≡ (feed r start_lsn a >>= then_feed (start_lsn + length a) b)
feed-append r start_lsn a b v w l = elim (Bool-cases (start_lsn == r.pos + avail r)) [
  | inl t ↦
      let r' : WalReader = extend a r in
      let v' : IsReading r' = extend-IsReading a r v in
      feed-loop r start_lsn (a ++ b) t
      ∙ ap (λ p. let x : WalReader = record r { pending = p } in loop (rounds x) x [])
          (sym (append_assoc r.pending a b))
      ∙ loop-extend b (rounds r') (rounds (extend b r')) r' [] l v' w (measure-rounds r')
          (measure-rounds (extend b r'))
      ∙ resume-then_feed b (start_lsn + length a) r' _ (ground (arith, length-append r.pending a))
          (loop-Ends (rounds r') r' [] v' (measure-rounds r') tt)
      ∙ ap (λ x. x >>= then_feed (start_lsn + length a) b) (sym (feed-loop r start_lsn a t))
  | inr t ↦ unfold feed in rw t
]

-- ===== src/Clog/Layout.antt =====
-- A CLOG page is an array of two-bit statuses.
use open_ltap.Base.{
  ℕ, zero, suc, ◌+◌, ◌*◌, ◌/◌, ◌%◌, ◌^◌, ◌<◌, List, [], ◌∷◌, Option, none, some, Bytes, Result, ok,
  ◌>>=◌, ok_or, get_elem?, ◌≡◌, refl, ap, arith, truncated, ◌∙◌,
}
use open_ltap.Clog.{status_in_page, status_of_bits, TxnStatus, clog_xacts_per_page}

-- The statuses of a page in order, four to a byte, low bits first.
abbrev pub entries : Bytes → List ℕ
entries [] = []
entries (b ∷ bs) = b % 4 ∷ b / 4 % 4 ∷ b / 16 % 4 ∷ b / 64 % 4 ∷ entries bs

-- The byte and the shift of an entry.
entry_at :
    (page : Bytes) (q r : ℕ)
    → r < 4
    → (do b ← ok_or (get_elem? page q) truncated; ok (b / 2 ^ (r * 2) % 4))
      ≡ ok_or (get_elem? (entries page) (q * 4 + r)) truncated
entry_at [] q r h = refl
entry_at (b ∷ bs) zero zero h = ap ok (omega arith)
entry_at (b ∷ bs) zero (suc zero) h = refl
entry_at (b ∷ bs) zero (suc (suc zero)) h = refl
entry_at (b ∷ bs) zero (suc (suc (suc zero))) h = refl
entry_at (b ∷ bs) zero (suc (suc (suc (suc r)))) h = absurd (omega arith)
entry_at (b ∷ bs) (suc q) r h =
    let e : suc q * 4 + r ≡ suc (suc (suc (suc (q * 4 + r)))) = omega arith in
    rw e (entry_at bs q r h)

bind_map :
    (o : Option ℕ) (g : ℕ → ℕ) (f : ℕ → Result TxnStatus)
    → (ok_or o truncated >>= λ b. f (g b)) ≡ ((ok_or o truncated >>= λ b. ok (g b)) >>= f)
bind_map none g f = refl
bind_map (some b) g f = refl

-- `status_in_page` reads the entry of the array whose index is the xid modulo the page's size.
pub status_in_page-entries :
    (page : Bytes) (xid : ℕ)
    → status_in_page page xid ≡ (do
      bits ← ok_or (get_elem? (entries page) (xid % clog_xacts_per_page)) truncated
      status_of_bits bits)
unfolding status_in_page
status_in_page-entries page xid =
    let idx : ℕ = xid % clog_xacts_per_page in
    let e : idx / 4 * 4 + idx % 4 ≡ idx = omega arith in
    bind_map (get_elem? page (idx / 4)) (λ b. b / 2 ^ (idx % 4 * 2) % 4) status_of_bits
    ∙ ap (λ m. m >>= status_of_bits) (entry_at page (idx / 4) (idx % 4) (omega arith))
    ∙ ap (λ k. ok_or (get_elem? (entries page) k) truncated >>= status_of_bits) e

-- ===== src/Wal/Safe.antt =====
-- Results of parsers that stay inside their input and whose loops end.
use open_ltap.Base.{
  ℕ, length, take, drop, ◌-◌, ◌≤◌, zero, suc, ◌+◌, ◌<◌, ◌∷◌, [], or_panic, get_elem?, get?, index,
  range, slice?, u8_at, u16_at, u32_at, le→leb, Bool, true, false, Bytes, Result, ok, err, panic,
  out_of_fuel, ◌>>=◌, ◌>>◌, bail_if, ok_or, Error, Option, none, some, ◌≡◌, refl, ◌≢◌, arith,
  if◌then◌else◌,
}

-- A result, or an error of the source's own.
abbrev pub Clean {ℓ} : {A : Type ℓ} → Result A → Type 0
Clean (ok a) = Unit {0}
Clean (err e) = e ≢ out_of_fuel
Clean panic = ⊥

-- The same for a parser at the cursor `c`, which it does not move back.
abbrev pub Eats {ℓ} : {A : Type ℓ} → Bytes → Result (A × Bytes) → Type 0
Eats c (ok p) = length p.1 ≤ length c
Eats c (err e) = e ≢ out_of_fuel
Eats c panic = ⊥

pub Eats-mono {ℓ} :
    {A : Type ℓ} (c d : Bytes) (m : Result (A × Bytes)) → length d ≤ length c → Eats d m → Eats c m
Eats-mono c d (ok p) h e = omega (arith, h, e)
Eats-mono c d (err why) h e = e
Eats-mono c d panic h e = e

pub Eats-then {ℓ κ} :
    {A : Type ℓ} {B : Type κ} (c : Bytes) (m : Result (A × Bytes))
    (f : A × Bytes → Result (B × Bytes))
    → Eats c m
    → ((a : A) (d : Bytes) → length d ≤ length c → Eats d (f (a, d)))
    → Eats c (m >>= f)
Eats-then c (ok p) f e g = Eats-mono c p.1 (f p) e (g p.0 p.1 e)
Eats-then c (err why) f e g = e
Eats-then c panic f e g = absurd e

pub Eats-bind {ℓ κ} :
    {A : Type ℓ} {B : Type κ} (c : Bytes) (m : Result (A × Bytes))
    (f : A × Bytes → Result (B × Bytes))
    → Eats c m
    → ((a : A) (d : Bytes) → Eats d (f (a, d)))
    → Eats c (m >>= f)
Eats-bind c m f e g = Eats-then c m f e (λ a d h. g a d)

pub Clean-bind {ℓ κ} :
    {A : Type ℓ} {B : Type κ} (m : Result A) (f : A → Result B)
    → Clean m
    → ((a : A) → Clean (f a))
    → Clean (m >>= f)
Clean-bind (ok a) f e g = g a
Clean-bind (err why) f e g = e
Clean-bind panic f e g = absurd e

pub Eats-Clean {ℓ} : {A : Type ℓ} (c : Bytes) (m : Result (A × Bytes)) → Eats c m → Clean m
Eats-Clean c (ok p) e = tt
Eats-Clean c (err why) e = e
Eats-Clean c panic e = e

pub Eats-if {ℓ} :
    {A : Type ℓ} (c : Bytes) (b : Bool) (m n : Result (A × Bytes))
    → Eats c m
    → Eats c n
    → Eats c (if b then m else n)
Eats-if c true m n e f = e
Eats-if c false m n e f = f

pub Clean-if {ℓ} :
    {A : Type ℓ} (b : Bool) (m n : Result A) → Clean m → Clean n → Clean (if b then m else n)
Clean-if true m n e f = e
Clean-if false m n e f = f

pub Clean-bail_if {ℓ} :
    {A : Type ℓ} (b : Bool) (why : Error) (m : Result A)
    → why ≢ out_of_fuel
    → (b ≡ false → Clean m)
    → Clean (bail_if b why >> m)
Clean-bail_if true why m h e = h
Clean-bail_if false why m h e = e refl

pub Clean-ok_or {ℓ} :
    {A : Type ℓ} (o : Option A) (why : Error) → why ≢ out_of_fuel → Clean (ok_or o why)
Clean-ok_or none why h = h
Clean-ok_or (some a) why h = tt

pub range-in :
    (s : Bytes) (a b : ℕ) → a ≤ b → b ≤ length s → range s a b ≡ ok (take (b - a) (drop a s))
unfolding range slice?
range-in s a b h k = rw (le→leb a b h, le→leb b (length s) k) refl

pub range-Clean : (s : Bytes) (a b : ℕ) → a ≤ b → b ≤ length s → Clean (range s a b)
range-Clean s a b h k = rw (range-in s a b h k) tt

pub u32_at-Clean : (s : Bytes) (i : ℕ) → i + 4 ≤ length s → Clean (u32_at s i)
unfolding u32_at range slice?
u32_at-Clean s i h = rw (le→leb i (i + 4) (omega arith), le→leb (i + 4) (length s) h) tt

pub u16_at-Clean : (s : Bytes) (i : ℕ) → i + 2 ≤ length s → Clean (u16_at s i)
unfolding u16_at range slice?
u16_at-Clean s i h = rw (le→leb i (i + 2) (omega arith), le→leb (i + 2) (length s) h) tt

pub get_elem?-Clean : (s : Bytes) (i : ℕ) → i < length s → Clean (or_panic (get_elem? s i))
get_elem?-Clean [] i h = absurd (omega arith)
get_elem?-Clean (b ∷ s) zero h = tt
get_elem?-Clean (b ∷ s) (suc i) h = get_elem?-Clean s i (omega arith)

pub u8_at-Clean : (s : Bytes) (i : ℕ) → i < length s → Clean (u8_at s i)
unfolding u8_at index get?
u8_at-Clean s i h = get_elem?-Clean s i h

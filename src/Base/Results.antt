-- ===== src/Base/Results.antt =====
-- `anyhow::Result`, with the errors as data, and panics told apart from errors.
use mathlib.Core.Path.{ap, ◌≡◌, refl}
use mathlib.Core.Logic.{◌⊎◌, inl, inr}
use mathlib.Core.Bool.{Bool, true, false}
use mathlib.Core.Option.{Option, none, some}
use mathlib.Core.List.{List, [], ◌∷◌}

-- One constructor for each kind of message that the modelled code bails with.
pub data Error : Type 0 where
  truncated corrupt unsupported : Error
  schema_drift stream_gap crc_mismatch bad_magic : Error
  invalid_xid needs_multixact unbounded_multixact missing_page chain_too_long : Error
  no_preimage missing_chunk bad_literal nested_too_deep : Error
  decompressor : Error
  -- The model's own: a loop that was given too little fuel.
  out_of_fuel : Error

pub data Result {ℓ} (A : Type ℓ) : Type ℓ where
  ok : A → Result A
  err : Error → Result A
  -- A slice out of range, an index out of bounds, a failed assertion.
  panic : Result A

infixl 5 ◌>>=◌ ◌>>◌
-- `?` on a value, and the rest of the function.
abbrev pub ◌>>=◌ {ℓ κ} : {S : Type ℓ} {T : Type κ} (m : Result S) (rest : S → Result T) → Result T
panic >>= rest = panic
err e >>= rest = err e
ok s >>= rest = rest s

-- `?` on a check.
abbrev pub ◌>>◌ {ℓ} : {T : Type ℓ} (check : Result (Unit {0})) (rest : Result T) → Result T
check >> rest = check >>= λ _. rest

-- `bail!` on a condition.
abbrev pub bail_if : Bool → Error → Result (Unit {0})
bail_if true e = err e
bail_if false e = ok tt

-- `ok_or_else`, `context`.
abbrev pub ok_or {ℓ} : {A : Type ℓ} → Option A → Error → Result A
ok_or (some a) e = ok a
ok_or none e = err e

abbrev pub or_panic {ℓ} : {A : Type ℓ} → Option A → Result A
or_panic (some a) = ok a
or_panic none = panic

abbrev pub is_ok {ℓ} : {A : Type ℓ} → Result A → Bool
is_ok (ok a) = true
is_ok (err e) = false
is_ok panic = false

-- Of a chain that succeeds, its first part does, and then the rest.
pub bind_ok {ℓ κ} :
    {S : Type ℓ} {T : Type κ} {t : T} {rest : S → Result T} (m : Result S)
    → m >>= rest ≡ ok t
    → (s : S) × (m ≡ ok s) × (rest s ≡ ok t)
bind_ok panic e = cc
bind_ok (err why) e = cc
bind_ok (ok s) e = (s, refl, e)

pub Result-cases {ℓ} :
    {A : Type ℓ} (r : Result A) → ((a : A) × (r ≡ ok a)) ⊎ ((e : Error) × (r ≡ err e)) ⊎ (r ≡ panic)
Result-cases (ok a) = inl (a, refl)
Result-cases (err e) = inr (inl (e, refl))
Result-cases panic = inr (inr refl)

-- Past a check, the check held off, and the rest went on.
pub bail_ok {ℓ} :
    {T : Type ℓ} {t : T} {rest : Result T} (b : Bool) (e : Error)
    → bail_if b e >> rest ≡ ok t
    → (b ≡ false) × (rest ≡ ok t)
bail_ok true e h = cc
bail_ok false e h = (refl, h)

pub ok_inj {ℓ} : {A : Type ℓ} {a b : A} → ok a ≡ ok b → a ≡ b
ok_inj h = cc

-- `.ok()`: an error is forgotten, a panic is not.
abbrev pub ok_of {ℓ} : {A : Type ℓ} → Result A → Result (Option A)
ok_of (ok a) = ok (some a)
ok_of (err e) = ok none
ok_of panic = panic

-- A match on a result: what a value leads to, and what an error does.
abbrev pub match_result {ℓ κ} :
    {A : Type ℓ} {B : Type κ} → Result A → (A → Result B) → (Error → Result B) → Result B
match_result (ok a) on_ok on_err = on_ok a
match_result (err e) on_ok on_err = on_err e
match_result panic on_ok on_err = panic

-- `for` over a list that collects into a result.
abbrev pub traverse {ℓ κ} : {A : Type ℓ} {B : Type κ} → (A → Result B) → List A → Result (List B)
traverse f [] = ok []
traverse f (x ∷ xs) = f x >>= λ y. traverse f xs >>= λ ys. ok (y ∷ ys)

pub or_panic_ok {ℓ} : {A : Type ℓ} (o : Option A) (a : A) → or_panic o ≡ ok a → o ≡ some a
or_panic_ok none a h = absurd cc
or_panic_ok (some b) a h = ap some (ok_inj h)

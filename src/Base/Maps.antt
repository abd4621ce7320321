-- ===== src/Base/Maps.antt =====
-- A hash map as an association list: at most one entry counts for a key, the first.
use mathlib.Core.Path.{◌≡◌, refl, subst}
use mathlib.Core.List.{List, [], ◌∷◌}
use mathlib.Core.Option.{Option, none, some}
use native.Mathlib.Omega.{arith}
use mathlib.Core.Logic.{inl, inr}
use open_ltap.Base.Tests.{if◌then◌else◌, Eq, Bool-cases}

abbrev pub Map {ℓ κ} : Type ℓ → Type κ → Type (ℓ ⊔ κ)
Map K V = List (K × V)

module _ {ℓ κ} {K : Type ℓ} {V : Type κ} ⦃e : Eq K⦄ where
  -- `map.get(k)`.
  unfoldable pub lookup : K → Map K V → Option V
  lookup k [] = none
  lookup k ((j, v) ∷ m) = if e.beq j k then some v else lookup k m

  -- `map.insert(k, v)`: the entry is replaced in place, or added at the end.
  unfoldable pub insert : K → V → Map K V → Map K V
  insert k v [] = (k, v) ∷ []
  insert k v ((j, w) ∷ m) = if e.beq j k then (k, v) ∷ m else (j, w) ∷ insert k v m

  -- `map.remove(k)`.
  unfoldable pub remove : K → Map K V → Map K V
  remove k [] = []
  remove k ((j, w) ∷ m) = if e.beq j k then remove k m else (j, w) ∷ remove k m

  pub lookup-insert :
      (k j : K) (v : V) (m : Map K V)
      → lookup j (insert k v m) ≡ (if e.beq k j then some v else lookup j m)
  unfolding lookup insert
  lookup-insert k j v [] = refl
  lookup-insert k j v ((i, w) ∷ m) =
      ground (arith, e.beq_iff k j, e.beq_iff i k, e.beq_iff i j, lookup-insert k j v m)

  pub lookup-remove :
      (k j : K) (m : Map K V) → lookup j (remove k m) ≡ (if e.beq k j then none else lookup j m)
  unfolding lookup remove
  lookup-remove k j [] = ground arith
  lookup-remove k j ((i, w) ∷ m) =
      ground (arith, e.beq_iff k j, e.beq_iff i k, e.beq_iff i j, lookup-remove k j m)

-- A predicate of every value survives the three operations.
module _ {ℓ κ ι} {K : Type ℓ} {V : Type κ} ⦃e : Eq K⦄ (P : V → Type ι) where
  abbrev pub Values : Map K V → Type ι
  Values [] = Unit {ι}
  Values ((j, v) ∷ m) = P v × Values m

  pub insert-Values : (k : K) (v : V) (m : Map K V) → P v → Values m → Values (insert k v m)
  unfolding insert
  insert-Values k v [] h a = (h, tt)
  insert-Values k v ((j, w) ∷ m) h a = elim (Bool-cases (e.beq j k)) [
    | inl t ↦ rw t (h, a.1)
    | inr t ↦ rw t (a.0, insert-Values k v m h a.1)
  ]

  pub remove-Values : (k : K) (m : Map K V) → Values m → Values (remove k m)
  unfolding remove
  remove-Values k [] a = tt
  remove-Values k ((j, w) ∷ m) a = elim (Bool-cases (e.beq j k)) [
    | inl t ↦ rw t (remove-Values k m a.1)
    | inr t ↦ rw t (a.0, remove-Values k m a.1)
  ]

  pub lookup-Values : (k : K) (m : Map K V) {v : V} → lookup k m ≡ some v → Values m → P v
  unfolding lookup
  lookup-Values k [] q a = cc
  lookup-Values k ((j, w) ∷ m) {v} q a = elim (Bool-cases (e.beq j k)) [
    | inl t ↦ subst P (ground arith) a.0
    | inr t ↦ lookup-Values k m (ground arith) a.1
  ]

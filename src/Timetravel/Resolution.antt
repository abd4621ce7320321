-- ===== src/Timetravel/Resolution.antt =====
-- `resolve` serves a page from the newest base, or refuses for a reason.
use open_ltap.Base.{
  ℕ, ◌≤◌, ◌<◌, true, false, ◌&&◌, List, [], ◌∷◌, none, some, ◌≡◌, ◌≢◌, ◌==◌, ◌||◌, refl, ap, ◌⊎◌,
  inl, inr, arith, leb, All, All-map, any, Option-cases, Bool-cases,
}
use open_ltap.Timetravel.{
  Fragment, covers, Resolve, serve, below_horizon, uncovered, Lake, newest, newer, base, resolve,
}

-- A candidate for the base of a read.
abbrev pub IsBase : ℕ → ℕ → ℕ → Fragment → Type 0
IsBase rel block read_lsn f = (covers f rel block ≡ true) × (f.lsn ≤ read_lsn)

abbrev pub Any : (Fragment → Type 0) → List Fragment → Type 0
Any P [] = ⊥
Any P (f ∷ fs) = P f ⊎ Any P fs

-- `g` is a candidate of the list, and none of its candidates is newer.
abbrev IsNewest : ℕ → ℕ → ℕ → List Fragment → Fragment → Type 0
IsNewest rel block read_lsn fs g =
    Any (λ f. (f ≡ g) × IsBase rel block read_lsn f) fs
    × All (λ f. IsBase rel block read_lsn f → f.lsn ≤ g.lsn) fs

newest-none :
    (rel block read_lsn : ℕ) (fs : List Fragment)
    → newest rel block read_lsn fs ≡ none
    → All (λ f. covers f rel block ≡ true → read_lsn < f.lsn) fs
unfolding newest newer
newest-none rel block read_lsn [] e = tt
newest-none rel block read_lsn (f ∷ fs) e = elim (Option-cases (newest rel block read_lsn fs)) [
  | inl none' ↦ ((λ c. ground arith), newest-none rel block read_lsn fs none')
  | inr (g, some') ↦ absurd (ground arith)
]

IsBase-none :
    (rel block read_lsn n : ℕ) (fs : List Fragment)
    → newest rel block read_lsn fs ≡ none
    → All (λ f. IsBase rel block read_lsn f → f.lsn ≤ n) fs
IsBase-none rel block read_lsn n fs e =
    All-map (λ f. covers f rel block ≡ true → read_lsn < f.lsn) _
      (λ f h b. absurd (omega (arith, h b.0, b.1))) fs (newest-none rel block read_lsn fs e)

IsBase-mono :
    (rel block read_lsn m n : ℕ) (fs : List Fragment)
    → m ≤ n
    → All (λ f. IsBase rel block read_lsn f → f.lsn ≤ m) fs
    → All (λ f. IsBase rel block read_lsn f → f.lsn ≤ n) fs
IsBase-mono rel block read_lsn m n fs h =
    All-map (λ f. IsBase rel block read_lsn f → f.lsn ≤ m) _ (λ f k b. omega (arith, k b)) fs

newest-IsNewest :
    (rel block read_lsn : ℕ) (fs : List Fragment) (g : Fragment)
    → newest rel block read_lsn fs ≡ some g
    → IsNewest rel block read_lsn fs g
unfolding newest newer
newest-IsNewest rel block read_lsn [] g e = cc
newest-IsNewest rel block read_lsn (f ∷ fs) g e =
    elim (Bool-cases (covers f rel block && leb f.lsn read_lsn)) [
      | inl hit ↦ elim (Option-cases (newest rel block read_lsn fs)) [
        | inl none' ↦ (
          inl (ground arith, (ground arith, ground arith)),
          ((λ b. ground arith), IsBase-none rel block read_lsn g.lsn fs none'),
        )
        | inr (h, some') ↦ elim (Bool-cases (leb f.lsn h.lsn)) [
          | inl old ↦
              let (there, all) = newest-IsNewest rel block read_lsn fs g (ground arith) in
              (inr there, ((λ b. ground arith), all))
          | inr new ↦
              let (there, all) = newest-IsNewest rel block read_lsn fs h some' in
              (
                inl (ground arith, (ground arith, ground arith)),
                (
                  (λ b. ground arith),
                  IsBase-mono rel block read_lsn h.lsn g.lsn fs (ground arith) all,
                ),
              )
        ]
      ]
      | inr miss ↦
          let (there, all) = newest-IsNewest rel block read_lsn fs g (ground arith) in
          (inr there, ((λ b. ground arith), all))
    ]

any-none :
    (rel block : ℕ) (fs : List Fragment)
    → any (λ f. covers f rel block) fs ≡ false
    → All (λ f. covers f rel block ≡ false) fs
any-none rel block [] e = tt
any-none rel block (f ∷ fs) e = (ground arith, any-none rel block fs (ground arith))

any-Any :
    (rel block : ℕ) (fs : List Fragment)
    → any (λ f. covers f rel block) fs ≡ true
    → Any (λ f. covers f rel block ≡ true) fs
any-Any rel block [] e = cc
any-Any rel block (f ∷ fs) e = elim (Bool-cases (covers f rel block)) [
  | inl c ↦ inl c
  | inr n ↦ inr (any-Any rel block fs (ground arith))
]

-- What an answer promises about the fragments of the lake.
abbrev pub Answers : Lake → ℕ → ℕ → ℕ → Resolve → Type 0
Answers lake rel block read_lsn (serve base_lsn at_lsn) =
    (at_lsn ≡ read_lsn)
    × (base_lsn ≤ read_lsn)
    × ((base_lsn ≡ read_lsn) ⊎ (lake.tail_floor ≤ base_lsn))
    × Any (λ f. (covers f rel block ≡ true) × (f.lsn ≡ base_lsn)) lake.fragments
    × All (λ f. IsBase rel block read_lsn f → f.lsn ≤ base_lsn) lake.fragments
Answers lake rel block read_lsn below_horizon =
    Any (λ f. covers f rel block ≡ true) lake.fragments
    × All (λ f. IsBase rel block read_lsn f → (f.lsn ≢ read_lsn) × (f.lsn < lake.tail_floor))
        lake.fragments
Answers lake rel block read_lsn uncovered = All (λ f. covers f rel block ≡ false) lake.fragments

Any-map :
    {P Q : Fragment → Type 0} (h : (f : Fragment) → P f → Q f) (fs : List Fragment)
    → Any P fs
    → Any Q fs
Any-map h [] a = elim a [ ]
Any-map h (f ∷ fs) (inl p) = inl (h f p)
Any-map h (f ∷ fs) (inr a) = inr (Any-map h fs a)

there-le :
    (rel block read_lsn : ℕ) (g : Fragment) (fs : List Fragment)
    → Any (λ f. (f ≡ g) × IsBase rel block read_lsn f) fs
    → g.lsn ≤ read_lsn
there-le rel block read_lsn g [] a = elim a [ ]
there-le rel block read_lsn g (f ∷ fs) (inl (e, b)) =
    omega (arith, ap (λ (k : Fragment). k.lsn) e, b.1)
there-le rel block read_lsn g (f ∷ fs) (inr a) = there-le rel block read_lsn g fs a

resolve-some :
    (lake : Lake) (rel block read_lsn : ℕ) (g : Fragment)
    → base lake rel block read_lsn ≡ some g
    → Answers lake rel block read_lsn (resolve lake rel block read_lsn)
unfolding resolve base
resolve-some lake rel block read_lsn g e =
    let (there, all) = newest-IsNewest rel block read_lsn lake.fragments g e in
    let le = there-le rel block read_lsn g lake.fragments there in
    elim (Bool-cases (g.lsn == read_lsn || leb lake.tail_floor g.lsn)) [
      | inl t ↦
          rw (e, resolve)
            (rw t (
              refl,
              le,
              ground arith,
              Any-map (λ f h. (h.1.0, ap (λ (k : Fragment). k.lsn) h.0)) lake.fragments there,
              all,
            ))
      | inr t ↦
          rw (e, resolve)
            (rw t (
              Any-map (λ f h. h.1.0) lake.fragments there,
              All-map (λ f. IsBase rel block read_lsn f → f.lsn ≤ g.lsn) _
                  (λ f h b. ((λ q. ground (arith, h b)), ground (arith, h b))) lake.fragments all,
            ))
    ]

-- `resolve` on every branch: a served page has the newest base at or before the read, with a tail
-- that is retained or not needed; below the horizon, some fragment covers the page but no usable
-- base exists; uncovered, no fragment covers it.
pub resolve-Answers :
    (lake : Lake) (rel block read_lsn : ℕ)
    → Answers lake rel block read_lsn (resolve lake rel block read_lsn)
unfolding resolve base
resolve-Answers lake rel block read_lsn = elim (Option-cases (base lake rel block read_lsn)) [
  | inl e ↦ elim (Bool-cases (any (λ f. covers f rel block) lake.fragments)) [
    | inl t ↦
        rw (e, resolve)
          (rw t (
            any-Any rel block lake.fragments t,
            All-map (λ f. covers f rel block ≡ true → read_lsn < f.lsn) _
                (λ f h b. absurd (omega (arith, h b.0, b.1))) lake.fragments
                (newest-none rel block read_lsn lake.fragments e),
          ))
    | inr t ↦ rw (e, resolve) (rw t (any-none rel block lake.fragments t))
  ]
  | inr (g, e) ↦ resolve-some lake rel block read_lsn g e
]

-- ===== src/Base/Result.antt =====
-- Exceptions as values.
use mathlib.Core.Path.{◌≡◌, refl}
use mathlib.Core.Bool.{Bool, true, false}
use mathlib.Core.List.{List, [], ◌∷◌}

-- The exception classes that the modelled code raises or lets through.
pub data Error : Type 0 where
  type_error value_error key_error zero_division_error config_error http_error attribute_error
        struct_error multiple_results :
      Error

pub data Result {ℓ} (A : Type ℓ) : Type ℓ where
  ok : A → Result A
  err : Error → Result A

-- What follows a step that may raise: run on its value, or skipped.
infixl 5 ◌>>=◌
abbrev pub ◌>>=◌ {ℓ κ} : {V : Type ℓ} {W : Type κ} (step : Result V) → (V → Result W) → Result W
err e >>= rest = err e
ok v >>= rest = rest v

abbrev pub map_result {ℓ κ} : {V : Type ℓ} {W : Type κ} → (V → W) → Result V → Result W
map_result f (err e) = err e
map_result f (ok v) = ok (f v)

-- A chain that returns has a first step that returned.
pub bind-eq-ok {ℓ κ} :
    {V : Type ℓ} {W : Type κ} (step : Result V) (rest : V → Result W) {w : W}
    → (step >>= rest) ≡ ok w
    → (v : V) × (step ≡ ok v) × (rest v ≡ ok w)
bind-eq-ok (err e) rest returned = cc
bind-eq-ok (ok v) rest returned = (v, refl, returned)

-- `all(p(x) for x in xs)`: stops at the first false, so a later test cannot raise.
abbrev pub all_result {ℓ} : {A : Type ℓ} → (A → Result Bool) → List A → Result Bool
all_result p [] = ok true
all_result p (x ∷ xs) =
    let rest = all_result p xs in p x >>= λ b. elim b [ true ↦ rest | false ↦ ok false ]

-- `[x for x in xs if p(x)]` where the test may raise.
abbrev pub keep_result {ℓ} : {A : Type ℓ} → (A → Result Bool) → List A → Result (List A)
keep_result p [] = ok []
keep_result p (x ∷ xs) =
    p x >>= λ b. keep_result p xs >>= λ ys. ok (elim b [ true ↦ x ∷ ys | false ↦ ys ])

-- What holds of the value that a step returns, if it returns one.
abbrev pub Ensures : {A : Type 0} → (A → Type 0) → Result A → Type 0
Ensures Q (err e) = Unit
Ensures Q (ok a) = Q a

pub bind-Ensures :
    {A B : Type 0} (Q : A → Type 0) (R : B → Type 0) (step : Result A) (rest : A → Result B)
    → Ensures Q step
    → ((a : A) → Q a → Ensures R (rest a))
    → Ensures R (step >>= rest)
bind-Ensures Q R (err e) rest h k = tt
bind-Ensures Q R (ok a) rest h k = k a h

pub Ensures-eq :
    {A : Type 0} (Q : A → Type 0) (step : Result A) (a : A) → Ensures Q step → step ≡ ok a → Q a
Ensures-eq Q (err e) a h eq = cc
Ensures-eq Q (ok b) a h eq = let same : b ≡ a = cc in rw (← same) h

-- ===== src/Base/Text.antt =====
-- `str` methods on code points. What depends on the interpreter's Unicode tables is a parameter.
use Prim.Native.Nat.{ℕ}
use Prim.Native.String.{String}
use mathlib.Core.Path.{◌≡◌, refl}
use mathlib.Core.Bool.{Bool, true, false, ◌&&◌, ◌||◌}
use mathlib.Core.Logic.{inl, inr, ◌↔◌}
use mathlib.Core.Option.{Option}
use fastapi_admin_kit.Base.Int.{ℤ}
use mathlib.Core.List.{List, [], ◌∷◌, ◌++◌, reverse}
use native.Mathlib.Omega.{arith}
use fastapi_admin_kit.Base.Tests.{nat_eq, Bool-cases, if◌then◌else◌}

-- `str.lower`, `str.upper`, `str.isspace` of one character, and `int` of a text (`none` is a
-- `ValueError`; it takes the digits of every script).
pub record Unicode : Type 0 where
  pub lower : List ℕ → List ℕ
  pub upper : String → String
  pub is_space : ℕ → Bool
  pub parse_int : String → Option ℤ

-- `s == t`, on the code points
unfoldable pub eq_codes : List ℕ → List ℕ → Bool
eq_codes [] [] = true
eq_codes (c ∷ s) (d ∷ t) = nat_eq c d && eq_codes s t
eq_codes _ _ = false

-- `s.startswith(p)`
unfoldable pub starts_with : List ℕ → List ℕ → Bool
starts_with [] s = true
starts_with (c ∷ p) [] = false
starts_with (c ∷ p) (d ∷ s) = nat_eq c d && starts_with p s

-- `s.endswith(p)`
unfoldable pub ends_with : List ℕ → List ℕ → Bool
unfolding starts_with
ends_with p s = starts_with (reverse p) (reverse s)

-- `p in s`
unfoldable pub is_infix : List ℕ → List ℕ → Bool
unfolding starts_with
is_infix p [] = starts_with p []
is_infix p (c ∷ s) = starts_with p (c ∷ s) || is_infix p s

unfoldable pub lstrip : (ℕ → Bool) → List ℕ → List ℕ
lstrip p [] = []
lstrip p (c ∷ s) = elim (p c) [ true ↦ lstrip p s | false ↦ c ∷ s ]

-- `s.strip(chars)`
unfoldable pub strip : (ℕ → Bool) → List ℕ → List ℕ
unfolding lstrip
strip p s = reverse (lstrip p (reverse (lstrip p s)))

abbrev pub push : ℕ → List (List ℕ) → List (List ℕ)
push c [] = (c ∷ []) ∷ []
push c (w ∷ ws) = (c ∷ w) ∷ ws

-- `s.split(d)` for one character `d`: never the empty list.
unfoldable pub split : ℕ → List ℕ → List (List ℕ)
split d [] = [] ∷ []
split d (c ∷ s) = let rest = split d s in if nat_eq c d then [] ∷ rest else push c rest

split_some : (d : ℕ) (s : List ℕ) → (w : List ℕ) × (ws : List (List ℕ)) × (split d s ≡ w ∷ ws)
unfolding split
split_some d [] = ([], [], refl)
split_some d (c ∷ s) =
    let (w, ws, e) = split_some d s in
    elim (Bool-cases (nat_eq c d)) [
      | inl same ↦ ([], split d s, ground arith)
      | inr other ↦ (c ∷ w, ws, ground arith)
    ]

-- The parts before and after a separator are split apart.
pub split-append : (d : ℕ) (s t : List ℕ) → split d (s ++ d ∷ t) ≡ split d s ++ split d t
unfolding split
split-append d [] t = ground arith
split-append d (c ∷ s) t =
    let (w, ws, e) = split_some d s in
    elim (Bool-cases (nat_eq c d)) [
      | inl same ↦ ground (arith, split-append d s t)
      | inr other ↦ ground (arith, split-append d s t)
    ]

pub starts_with_iff :
    (p s : List ℕ) → (starts_with p s ≡ true) ↔ ((suffix : List ℕ) × (s ≡ p ++ suffix))
unfolding starts_with
starts_with_iff [] s = (λ h. (s, refl), λ h. refl)
starts_with_iff (c ∷ p) [] = (λ h. cc, λ h. let (t, e) = h in cc)
starts_with_iff (c ∷ p) (d ∷ s) = (
  λ h. let (t, e) = (starts_with_iff p s).0 (ground arith) in (t, ground arith),
  λ h.
      let (t, e) = h in
      let ih = (starts_with_iff p s).1 (t, cc) in let same : d ≡ c = cc in ground arith,
)

-- `in` finds exactly the texts that stand somewhere inside.
pub is_infix_iff :
    (p s : List ℕ)
    → (is_infix p s ≡ true) ↔ ((prefix suffix : List ℕ) × (s ≡ prefix ++ (p ++ suffix)))
unfolding is_infix starts_with
is_infix_iff p [] =
    (λ h. let (t, e) = (starts_with_iff p []).0 h in ([], t, e), λ h. backward h.0 h.1 h.2)
  where
    backward : (a b : List ℕ) → [] ≡ a ++ (p ++ b) → starts_with p [] ≡ true
    backward [] b e = (starts_with_iff p []).1 (b, e)
    backward (x ∷ a) b e = cc
is_infix_iff p (c ∷ s) = (
  λ h. elim (Bool-cases (starts_with p (c ∷ s))) [
    | inl here ↦ let (t, e) = (starts_with_iff p (c ∷ s)).0 here in ([], t, e)
    | inr no_here ↦ let (a, b, e) = (is_infix_iff p s).0 (ground arith) in (c ∷ a, b, ground arith)
  ],
  λ h. backward h.0 h.1 h.2 (is_infix_iff p s).1,
)
  where
    backward :
        (a b : List ℕ)
        → (c ∷ s) ≡ a ++ (p ++ b)
        → (((prefix suffix : List ℕ) × (s ≡ prefix ++ (p ++ suffix))) → is_infix p s ≡ true)
        → (starts_with p (c ∷ s) || is_infix p s) ≡ true
    backward [] b e ih = rw ((starts_with_iff p (c ∷ s)).1 (b, e))
    backward (x ∷ a) b e ih = let found = ih (a, b, cc) in ground arith

pub eq_codes_iff : (s t : List ℕ) → (eq_codes s t ≡ true) ↔ (s ≡ t)
unfolding eq_codes
eq_codes_iff [] [] = (λ h. refl, λ h. refl)
eq_codes_iff [] (d ∷ t) = (λ h. cc, λ h. cc)
eq_codes_iff (c ∷ s) [] = (λ h. cc, λ h. cc)
eq_codes_iff (c ∷ s) (d ∷ t) = (
  λ h. let e = (eq_codes_iff s t).0 (ground arith) in ground arith,
  λ h. let e = (eq_codes_iff s t).1 (cc) in let same : c ≡ d = cc in ground arith,
)

-- ===== src/Base/Value.antt =====
-- Python values that a column holds (`None`, `bool`, `int`, `str`), with `==`, `<`, `<=`, `str` and
-- `is None` on them. Other column types (floats, dates) are not modelled.
use Prim.Native.Nat.{ℕ, zero, suc, ◌+◌, ◌-◌, ◌*◌, ◌/◌, ◌%◌, ◌≤◌, ◌<◌}
use fastapi_admin_kit.Base.Lists.{length, all, all-append, length-append}
use Prim.Native.String.{String}
use mathlib.Core.Logic.{inl, inr}
use mathlib.Core.Path.{◌≡◌, refl}
use mathlib.Core.Bool.{Bool, true, false, not, ◌&&◌, ◌||◌}
use mathlib.Core.Option.{Option, none, some}
use mathlib.Core.List.{List, [], ◌∷◌, ◌++◌}
use native.Mathlib.Omega.{arith}
use text.Mathlib.TextEquality.{eq_iff}
use text.Mathlib.TextPositions.{eq_refl}
use fastapi_admin_kit.Base.Tests.{Bool-cases, ltb, leb, nat_eq, ◌==◌, codes, if◌then◌else◌}
use fastapi_admin_kit.Base.Int.{ℤ, pos, negsuc, ltb_ℤ, leb_ℤ, eq_ℤ, eq_ℤ_refl}
use fastapi_admin_kit.Base.Result.{Result, ok, err, type_error}

pub data Value : Type 0 where
  null : Value
  bool : Bool → Value
  int : ℤ → Value
  str : String → Value

-- `bool` is a subclass of `int`: `True == 1`.
abbrev pub num_of : Value → Option ℤ
num_of null = none
num_of (bool true) = some (pos 1)
num_of (bool false) = some (pos 0)
num_of (int n) = some n
num_of (str s) = none

abbrev pub is_null : Value → Bool
is_null null = true
is_null _ = false

abbrev pub eq_num : Option ℤ → Option ℤ → Bool
eq_num (some a) (some b) = eq_ℤ a b
eq_num _ _ = false

unfoldable pub eq_value : Value → Value → Bool
eq_value null null = true
eq_value (str s) (str t) = s == t
eq_value u v = eq_num (num_of u) (num_of v)

-- `<` on `str`: by code points.
unfoldable pub lt_codes : List ℕ → List ℕ → Bool
lt_codes [] [] = false
lt_codes [] (d ∷ t) = true
lt_codes (c ∷ s) [] = false
lt_codes (c ∷ s) (d ∷ t) = ltb c d || (nat_eq c d && lt_codes s t)

abbrev pub lt_num : Option ℤ → Option ℤ → Result Bool
lt_num (some a) (some b) = ok (ltb_ℤ a b)
lt_num _ _ = err type_error

unfoldable pub lt_value : Value → Value → Result Bool
unfolding lt_codes
lt_value (str s) (str t) = ok (lt_codes (codes s) (codes t))
lt_value u v = lt_num (num_of u) (num_of v)

abbrev pub le_num : Option ℤ → Option ℤ → Result Bool
le_num (some a) (some b) = ok (leb_ℤ a b)
le_num _ _ = err type_error

unfoldable pub le_value : Value → Value → Result Bool
unfolding lt_codes
le_value (str s) (str t) = ok (not (lt_codes (codes t) (codes s)))
le_value u v = le_num (num_of u) (num_of v)

-- `v in vs`
abbrev pub in_values : Value → List Value → Bool
in_values v [] = false
in_values v (w ∷ ws) = eq_value v w || in_values v ws

-- Decimal digits; the fuel `n + 1` is enough, since each round divides by ten.
decimal_fuel : ℕ → ℕ → List ℕ
decimal_fuel zero n = []
decimal_fuel (suc f) n =
    let rest = decimal_fuel f (n / 10) in
    if ltb n 10 then (b'0' + n) ∷ [] else rest ++ (b'0' + n % 10) ∷ []

unfoldable pub decimal : ℕ → List ℕ
unfolding decimal_fuel
decimal n = decimal_fuel (suc n) n

abbrev pub is_ascii_digit : ℕ → Bool
is_ascii_digit c = leb b'0' c && ltb c (b'0' + 10)

abbrev pub pow_10 : ℕ → ℕ
pow_10 zero = 1
pow_10 (suc k) = 10 * pow_10 k

all-decimal_fuel : (f n : ℕ) → all is_ascii_digit (decimal_fuel f n) ≡ true
unfolding decimal_fuel
all-decimal_fuel zero n = refl
all-decimal_fuel (suc f) n = ground (
  arith,
  all-decimal_fuel f (n / 10),
  all-append is_ascii_digit (decimal_fuel f (n / 10)) ((b'0' + n % 10) ∷ []),
)

length-decimal_fuel : (f k n : ℕ) → n < pow_10 (suc k) → length (decimal_fuel f n) ≤ suc k
unfolding decimal_fuel
length-decimal_fuel zero k n h = omega arith
length-decimal_fuel (suc f) zero n h = ground arith
length-decimal_fuel (suc f) (suc k) n h = ground (
  arith,
  length-decimal_fuel f k (n / 10) (omega arith),
  length-append (decimal_fuel f (n / 10)) ((b'0' + n % 10) ∷ []),
)

pub all-decimal : (n : ℕ) → all is_ascii_digit (decimal n) ≡ true
unfolding decimal
all-decimal n = all-decimal_fuel (suc n) n

pub length-decimal : (k n : ℕ) → n < pow_10 (suc k) → length (decimal n) ≤ suc k
unfolding decimal
length-decimal k n h = length-decimal_fuel (suc n) k n h

-- `int(s)` of a text of digits, behind digits that stand for `n`.
unfoldable pub read_digits : ℕ → List ℕ → ℕ
read_digits n [] = n
read_digits n (c ∷ s) = read_digits (n * 10 + (c - b'0')) s

read_digits-append :
    (n c : ℕ) (s : List ℕ) → read_digits n (s ++ c ∷ []) ≡ read_digits n s * 10 + (c - b'0')
unfolding read_digits
read_digits-append n c [] = refl
read_digits-append n c (d ∷ s) = read_digits-append (n * 10 + (d - b'0')) c s

read_digits-decimal_fuel : (f n : ℕ) → n < f → read_digits 0 (decimal_fuel f n) ≡ n
unfolding decimal_fuel read_digits
read_digits-decimal_fuel zero n h = absurd (omega arith)
read_digits-decimal_fuel (suc f) n h = elim (Bool-cases (ltb n 10)) [
  | inl small ↦ ground (arith, small)
  | inr large ↦ ground (
    arith,
    large,
    read_digits-append 0 (b'0' + n % 10) (decimal_fuel f (n / 10)),
    read_digits-decimal_fuel f (n / 10) (ground (arith, large)),
  )
]

-- A number is read back from its digits.
pub read_digits-decimal : (n : ℕ) → read_digits 0 (decimal n) ≡ n
unfolding decimal
read_digits-decimal n = read_digits-decimal_fuel (suc n) n (omega arith)

-- `str(v)`, as code points.
unfoldable pub str_of : Value → List ℕ
unfolding decimal
str_of null = codes "None"
str_of (bool true) = codes "True"
str_of (bool false) = codes "False"
str_of (int (pos n)) = decimal n
str_of (int (negsuc n)) = b'-' ∷ decimal (suc n)
str_of (str s) = codes s

pub eq_value_refl : (v : Value) → eq_value v v ≡ true
unfolding eq_value
eq_value_refl null = refl
eq_value_refl (bool true) = refl
eq_value_refl (bool false) = refl
eq_value_refl (int n) = eq_ℤ_refl n
eq_value_refl (str s) = eq_refl s

-- `==` on the modelled values is symmetric and transitive.
pub eq_value_comm : (u v : Value) → eq_value u v ≡ eq_value v u
unfolding eq_value
eq_value_comm (str s) (str t) = ground (arith, eq_iff s t, eq_iff t s)
eq_value_comm null v = ground arith
eq_value_comm u v = ground arith

lt_codes_asymm : (s t : List ℕ) → lt_codes s t ≡ true → lt_codes t s ≡ false
unfolding lt_codes
lt_codes_asymm [] [] h = refl
lt_codes_asymm [] (d ∷ t) h = refl
lt_codes_asymm (c ∷ s) [] h = cc
lt_codes_asymm (c ∷ s) (d ∷ t) h = ground (arith, lt_codes_asymm s t)

pub lt_value_asymm : (u v : Value) → lt_value u v ≡ ok true → lt_value v u ≡ ok false
unfolding lt_value
lt_value_asymm (str s) (str t) h = ground (arith, lt_codes_asymm (codes s) (codes t))
lt_value_asymm null v h = ground arith
lt_value_asymm u v h = ground arith

-- What is equal to `u` compares alike.
pub eq_value_trans : (u v w : Value) → eq_value u v ≡ true → eq_value u w ≡ eq_value v w
unfolding eq_value
eq_value_trans (str s) (str t) (str r) h = ground (arith, eq_iff s t)
eq_value_trans null v w h = ground arith
eq_value_trans u v w h = ground arith

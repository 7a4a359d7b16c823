-- ===== src/Memory/Match.antt =====
-- `_matches` of fastapi_admin_kit/backends/memory.py. A comparison of a text with a number raises.
use fastapi_admin_kit.Base.{
  ℕ, Bool, true, false, not, ◌&&◌, List, [], ◌∷◌, if◌then◌else◌, nat_eq, any, all,
}
use fastapi_admin_kit.Base.Dict.{Dict, lookup_or}
use fastapi_admin_kit.Base.Result.{Result, ok, ◌>>=◌}
use fastapi_admin_kit.Base.Value.{
  Value, null, is_null, eq_value, lt_value, le_value, in_values, str_of,
}
use fastapi_admin_kit.Base.Text.{Unicode, eq_codes, starts_with, ends_with, is_infix, strip}
use fastapi_admin_kit.Memory.Query.{
  Test, eq, ne, gt, lt, ge, le, in_, ilike, other, Kind, and_kind, or_kind, Condition, expr,
  mem_bool, opaque, Conditions, nil, cons,
}

abbrev pub is_percent : ℕ → Bool
is_percent c = nat_eq c b'%'

-- The `ilike` branch, on the lower-cased pattern and text.
unfoldable pub matches_ilike : List ℕ → List ℕ → Bool
unfolding starts_with ends_with is_infix strip eq_codes
matches_ilike pattern hay =
    let starts = starts_with (b'%' ∷ []) pattern in
    let ends = ends_with (b'%' ∷ []) pattern in
    let core = strip is_percent pattern in
    if starts && ends
    then is_infix core hay
    else if starts
    then ends_with core hay
    else if ends
    then starts_with core hay
    else eq_codes hay core

abbrev pub combine : Kind → List Bool → Bool
combine or_kind results = any (λ b. b) results
combine and_kind results = all (λ b. b) results

module _ (u : Unicode) where
  unfoldable pub matches_test : Value → Test → Result Bool
  unfolding eq_value lt_value le_value str_of matches_ilike
  matches_test left (eq v) = ok (eq_value left v)
  matches_test left (ne v) = ok (not (eq_value left v))
  matches_test left (gt v) = if is_null left then ok false else lt_value v left
  matches_test left (lt v) = if is_null left then ok false else lt_value left v
  matches_test left (ge v) = if is_null left then ok false else le_value v left
  matches_test left (le v) = if is_null left then ok false else le_value left v
  matches_test left (in_ vs) = ok (in_values left vs)
  matches_test left (ilike v) =
      if is_null left
      then ok false
      else ok (matches_ilike (u.lower (str_of v)) (u.lower (str_of left)))
  matches_test left other = ok false

  unfoldable mutual
    unfolding matches_test

    pub matches : Dict Value → Condition → Result Bool
    matches r (expr e) = matches_test (lookup_or e.name null r) e.test
    matches r (mem_bool k es) = matches_each r es >>= λ results. ok (combine k results)
    matches r opaque = ok true

    -- The list `results`: every member is evaluated, also behind one that decides.
    pub matches_each : Dict Value → Conditions → Result (List Bool)
    matches_each r nil = ok []
    matches_each r (cons e es) = matches r e >>= λ b. matches_each r es >>= λ bs. ok (b ∷ bs)

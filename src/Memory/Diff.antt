-- ===== src/Memory/Diff.antt =====
-- What `compute_diff` of the memory audit backend, fastapi_admin_kit/backends/memory.py, reports.
use fastapi_admin_kit.Base.{
  ◌≡◌, refl, String, Bool, false, not, ◌||◌, Option, none, some, List, [], ◌∷◌, ◌++◌, arith, any,
  keep, ◌==◌, eq_iff, if◌then◌else◌,
}
use fastapi_admin_kit.Base.Dict.{lookup, lookup_or, contains, keys}
use fastapi_admin_kit.Base.Value.{Value, null, eq_value, eq_value_refl}
use fastapi_admin_kit.Memory.Rows.{Record}
use fastapi_admin_kit.Memory.Introspection.{diff_keys, compute_diff}

-- What the diff should hold under a key, from the two records alone.
abbrev pub change_of : String → Record → Record → Option (Value × Value)
change_of k before after =
    if eq_value (lookup_or k null before) (lookup_or k null after)
    then none
    else some (lookup_or k null before, lookup_or k null after)

abbrev has_key : String → List String → Bool
has_key k names = any (λ n. n == k) names

has_key-append :
    (k : String) (xs ys : List String) → has_key k (xs ++ ys) ≡ (has_key k xs || has_key k ys)
has_key-append k [] ys = refl
has_key-append k (x ∷ xs) ys = ground (arith, has_key-append k xs ys)

has_key-keys : (k : String) (d : Record) → has_key k (keys d) ≡ contains k d
has_key-keys k [] = refl
has_key-keys k ((j, v) ∷ d) = ground (arith, has_key-keys k d)

has_key-keep :
    (k : String) (before : Record) (names : List String)
    → contains k before ≡ false
    → has_key k (keep (λ n. not (contains n before)) names) ≡ has_key k names
has_key-keep k before [] h = refl
has_key-keep k before (n ∷ names) h = ground (arith, has_key-keep k before names h, eq_iff n k)

module _ (k : String) (before after : Record) where
  lookup-diff_keys :
      (names : List String)
      → lookup k (diff_keys names before after)
        ≡ (if has_key k names then change_of k before after else none)
  unfolding diff_keys
  lookup-diff_keys [] = refl
  lookup-diff_keys (n ∷ names) = ground (arith, lookup-diff_keys names, eq_iff n k)

  -- The diff holds, under each key, the two values if they differ and nothing if they are equal. A
  -- key that is missing on one side counts as `None` there.
  pub lookup-compute_diff : lookup k (compute_diff before after) ≡ change_of k before after
  unfolding compute_diff
  lookup-compute_diff =
      let new = keep (λ n. not (contains n before)) (keys after) in
      ground (
        arith,
        lookup-diff_keys (keys before ++ new),
        has_key-append k (keys before) new,
        has_key-keys k before,
        has_key-keys k after,
        has_key-keep k before (keys after),
        eq_value_refl null,
      )

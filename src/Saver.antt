-- ===== src/Saver.antt =====
-- `ModelSaver` of fastapi_admin_kit/views/model_saver.py: what a submitted form writes to an
-- object. The relationships, with their local columns, are those that the introspection adapter
-- reports or, without one, the mapper. Values of forms are of a type `V`. Saving inlines is left
-- out.
pub mod Written
mod Tests
use fastapi_admin_kit.Base.{
  String, ◌==◌, Bool, true, false, not, ◌&&◌, Option, none, some, List, [], ◌∷◌, ◌++◌, any,
  if◌then◌else◌,
}
use fastapi_admin_kit.Base.Dict.{Dict, lookup, contains, insert, erase}

pub record Relation : Type 0 where
  pub name : String
  pub direction : String
  pub target : String
  pub local_columns : List String

abbrev pub is_m2m : Relation → Bool
is_m2m r = r.direction == "MANYTOMANY"

-- The map of `apply_parsed` and `resolve_rel_keys` from relationships to foreign keys.
abbrev pub add_fk : Relation → Dict String → Dict String
add_fk r fks = elim r.local_columns [
  | [] ↦ fks
  | c ∷ cs ↦ if is_m2m r then fks else insert r.name c fks
]

unfoldable pub collect_fks : List Relation → Dict String → Dict String
collect_fks [] fks = fks
collect_fks (r ∷ rs) fks = collect_fks rs (add_fk r fks)

abbrev pub rel_fk_map : List Relation → Dict String
rel_fk_map rs = collect_fks rs []

abbrev pub is_among : String → List String → Bool
is_among name names = any (λ n. n == name) names

-- `find_fk_field`: the first relationship to the parent's table that has a local column.
unfoldable pub find_fk_field : String → List Relation → Option String
find_fk_field parent_table [] = none
find_fk_field parent_table (r ∷ rs) =
    let rest = find_fk_field parent_table rs in
    if r.target == parent_table
    then (elim r.local_columns [ [] ↦ rest | c ∷ cs ↦ some c ])
    else rest

module _ (V : Type 0) where
  abbrev pub set_related : Option String → V → Dict V → Dict V
  set_related none v obj = obj
  set_related (some column) v obj = insert column v obj

  -- One parsed field.
  unfoldable pub apply_field :
      (readonly columns : List String) (fks : Dict String) (key : String) (v : V) → Dict V → Dict V
  apply_field readonly columns fks key v obj =
      if is_among key readonly
      then obj
      else (if is_among key columns then insert key v obj else set_related (lookup key fks) v obj)

  unfoldable pub apply_fields :
      (readonly columns : List String) (fks : Dict String) → Dict V → Dict V → Dict V
  apply_fields readonly columns fks [] obj = obj
  apply_fields readonly columns fks ((key, v) ∷ parsed) obj =
      apply_fields readonly columns fks parsed (apply_field readonly columns fks key v obj)

  unfoldable pub apply_parsed :
      (readonly columns : List String) → List Relation → (parsed : Dict V) → (obj : Dict V) → Dict V
  apply_parsed readonly columns relations parsed obj =
      apply_fields readonly columns (rel_fk_map relations) parsed obj

  abbrev pub resolved_key : List String → Dict String → String → String
  resolved_key columns fks key = elim (lookup key fks) [
    | none ↦ key
    | some column ↦ if is_among key columns then key else column
  ]

  unfoldable pub resolve_keys : List String → Dict String → Dict V → Dict V → Dict V
  resolve_keys columns fks [] resolved = resolved
  resolve_keys columns fks ((key, v) ∷ parsed) resolved =
      resolve_keys columns fks parsed (insert (resolved_key columns fks key) v resolved)

  unfoldable pub resolve_rel_keys : (columns : List String) → List Relation → Dict V → Dict V
  resolve_rel_keys columns relations parsed = resolve_keys columns (rel_fk_map relations) parsed []

  abbrev pub popped : Relation → Option V → Dict V × Dict V → Dict V × Dict V
  popped r none (m2m, parsed) = (m2m, parsed)
  popped r (some v) (m2m, parsed) = (insert r.name v m2m, erase r.name parsed)

  -- The loop of `extract_m2m`, on what was taken out and what is left.
  unfoldable pub extract_each : List Relation → Dict V × Dict V → Dict V × Dict V
  extract_each [] d = d
  extract_each (r ∷ rs) d = extract_each rs (if is_m2m r then popped r (lookup r.name d.1) d else d)

  unfoldable pub extract_m2m : List Relation → Dict V → Dict V × Dict V
  extract_m2m relations parsed = extract_each relations ([], parsed)

  -- `items` gives the elements of a list, or a value itself; `is_empty` what `not pk` tests; `load`
  -- casts a key and gets the object of the target, `none` where one of them fails.
  module _ (O : Type 0) (items : V → List V) (is_empty : V → Bool)
      (load : String → V → Option O) where
    unfoldable pub load_each : String → List V → List O
    load_each target [] = []
    load_each target (pk ∷ pks) =
        let rest = load_each target pks in
        if is_empty pk then rest else (elim (load target pk) [ none ↦ rest | some o ↦ o ∷ rest ])

    abbrev pub assign : Relation → Option V → Dict (List O) → Dict (List O)
    assign r none collections = collections
    assign r (some raw) collections = insert r.name (load_each r.target (items raw)) collections

    -- The collections of the object.
    unfoldable pub apply_m2m : List Relation → Dict V → Dict (List O) → Dict (List O)
    apply_m2m [] m2m collections = collections
    apply_m2m (r ∷ rs) m2m collections =
        apply_m2m rs m2m
          (if is_m2m r then assign r (lookup r.name m2m) collections else collections)

-- ===== src/Memory/Introspection.antt =====
-- `MemoryIntrospectionAdapter` and `MemoryAuditBackend` of fastapi_admin_kit/backends/memory.py.
-- The sets of Python are lists here, in the order in which the members are put in.
use fastapi_admin_kit.Base.{
  ℕ, String, Bool, true, false, not, ◌&&◌, ◌||◌, Option, none, some, List, [], ◌∷◌, ◌++◌, map, ◌==◌,
  if◌then◌else◌, codes, any, keep, find, is_truthy,
}
use fastapi_admin_kit.Base.Int.{pos}
use fastapi_admin_kit.Base.Dict.{Dict, lookup, lookup_or, contains, keys}
use fastapi_admin_kit.Base.Value.{Value, null, bool, int, str, is_null, eq_value, str_of}
use fastapi_admin_kit.Base.Text.{Unicode, is_infix, strip}
use fastapi_admin_kit.Schema.{
  Field, Relation, Schema, ColumnMeta, RelationMeta, get_field, get_pk_field, get_relation,
  relation_names,
}
use fastapi_admin_kit.Memory.Query.{MemColumn, Model, Obj}
use fastapi_admin_kit.Memory.Rows.{Record, pk_field_name}

abbrev pub column_meta : Field → ColumnMeta
column_meta f = record {
  name = f.name;
  type = f.type;
  nullable = f.nullable;
  primary_key = f.primary_key;
  foreign_keys = [];
  default = f.default;
  server_default = none;
  index = f.index;
  unique = f.unique;
}

abbrev pub member : String → List String → Bool
member s names = any (λ n. n == s) names

abbrev pub display_candidates : List String
display_candidates = "name" ∷ "title" ∷ "email" ∷ "username" ∷ "label" ∷ []

abbrev pub text_hints : List String
text_hints = "string" ∷ "str" ∷ "text" ∷ "char" ∷ "email" ∷ []

module _ (u : Unicode) where
  unfoldable pub relation_meta : Relation → RelationMeta
  relation_meta r = record {
    name = r.name;
    direction = u.upper r.type;
    target_model = none;
    uselist = true;
    back_populates = r.back_populates;
    secondary = r.through;
  }

  unfoldable pub inspect_model : Model → List ColumnMeta × List RelationMeta
  unfolding relation_meta
  inspect_model m = elim m.schema [
    | none ↦ ([], [])
    | some s ↦ (map column_meta s.fields, map relation_meta s.relations)
  ]

  -- `int(value)`, which raises on `None` and on a text that is no number.
  abbrev pub to_int : Value → Option Value
  to_int null = none
  to_int (str s) = elim (u.parse_int s) [ some n ↦ some (int n) | none ↦ none ]
  to_int (bool true) = some (int (pos 1))
  to_int (bool false) = some (int (pos 0))
  to_int (int n) = some (int n)

  abbrev pub is_integer_type : String → Bool
  is_integer_type t = t == "integer" || t == "int" || t == "bigint"

  unfoldable pub cast_pk_value : Model → Value → Value
  cast_pk_value m value = elim m.schema [
    | none ↦ value
    | some s ↦ elim (get_pk_field s) [
      | none ↦ value
      | some pk ↦
          if is_integer_type pk.type
          then (elim (to_int value) [ some n ↦ n | none ↦ value ])
          else value
    ]
  ]

  abbrev pub is_blank : List ℕ → Bool
  is_blank s = elim (strip u.is_space s) [ [] ↦ true | _ ∷ _ ↦ false ]

  -- The text of a `__str__` of the class's own; a raise reads as the empty text.
  abbrev pub own_text : Obj → Option (List ℕ)
  own_text obj = elim obj.model.to_text [
    | none ↦ none
    | some render ↦ elim (render obj.attrs) [
      | none ↦ none
      | some text ↦
          if is_truthy text && not (is_infix (b'=' ∷ []) (codes text))
          then some (codes text)
          else none
    ]
  ]

  abbrev pub is_available : Option Schema → String → Bool
  is_available none name = true
  is_available (some s) name = member name (map (λ f. f.name) s.fields)

  -- The loop over the candidates.
  pub first_label : Obj → List String → Option (List ℕ)
  first_label obj [] = none
  first_label obj (attr ∷ attrs) =
      let rest = first_label obj attrs in
      let label = str_of (lookup_or attr null obj.attrs) in
      if is_available obj.model.schema attr
        && not (is_null (lookup_or attr null obj.attrs))
        && not (is_blank label)
      then some label
      else rest

  unfoldable pub get_display_label : Obj → Option (List ℕ)
  unfolding first_label
  get_display_label obj = elim (own_text obj) [
    | some text ↦ some text
    | none ↦ first_label obj display_candidates
  ]

  abbrev pub has_text_type : Field → Bool
  has_text_type f = any (λ hint. is_infix (codes hint) (u.lower (codes f.type))) text_hints

  unfoldable pub get_default_search_fields : Model → List String
  get_default_search_fields m = elim m.schema [
    | none ↦ []
    | some s ↦ elim (keep (λ a. member a (map (λ f. f.name) s.fields)) display_candidates) [
      | a ∷ found ↦ a ∷ found
      | [] ↦ elim (find has_text_type s.fields) [ some f ↦ f.name ∷ [] | none ↦ [] ]
    ]
  ]

  unfoldable pub get_relationship_meta : Model → String → Option RelationMeta
  unfolding relation_meta
  get_relationship_meta m name = elim m.schema [
    | none ↦ none
    | some s ↦ elim (get_relation s name) [ some r ↦ some (relation_meta r) | none ↦ none ]
  ]

unfoldable pub get_pk_field_name : Model → Option String
get_pk_field_name m = pk_field_name m

unfoldable pub get_relationship_names : Model → List String
get_relationship_names m = elim m.schema [ none ↦ [] | some s ↦ relation_names s ]

unfoldable pub get_relationship : Model → String → Option Relation
get_relationship m name = elim m.schema [ none ↦ none | some s ↦ get_relation s name ]

unfoldable pub get_column_type_name : Model → String → Option String
get_column_type_name m name = elim m.schema [
  | none ↦ none
  | some s ↦ elim (get_field s name) [ some f ↦ some f.type | none ↦ none ]
]

unfoldable pub get_column_attr : Model → String → Option MemColumn
get_column_attr m name = lookup name m.columns

unfoldable pub get_pk_columns : Model → List String
get_pk_columns m = elim (pk_field_name m) [
  | none ↦ []
  | some pk ↦ if is_truthy pk then pk ∷ [] else []
]

-- `snapshot` of the audit backend.
unfoldable pub snapshot : Obj → Record
snapshot obj = obj.attrs

-- The loop of `compute_diff` over the union of the keys.
unfoldable pub diff_keys : List String → Record → Record → Dict (Value × Value)
diff_keys [] before after = []
diff_keys (k ∷ ks) before after =
    let rest = diff_keys ks before after in
    if eq_value (lookup_or k null before) (lookup_or k null after)
    then rest
    else (k, (lookup_or k null before, lookup_or k null after)) ∷ rest

unfoldable pub compute_diff : Record → Record → Dict (Value × Value)
unfolding diff_keys
compute_diff before after =
    diff_keys (keys before ++ keep (λ k. not (contains k before)) (keys after)) before after

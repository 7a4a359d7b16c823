-- ===== src/Registry.antt =====
-- The model registry: fastapi_admin_kit/registry/core.py and validation.py. Classes are known by their
-- numbers, so that `is` is equality; what the inspector finds of a class is a field of it. SQLModel
-- classes without a table, which have no `__tablename__`, are refused as all classes without one.
pub mod Discovery
pub mod Registration
mod Tests
use fastapi_admin_kit.Base.{
  ℕ, String, Bool, true, false, not, ◌&&◌, ◌||◌, Option, none, some, List, [], ◌∷◌, ◌++◌, map, any,
  keep, ◌==◌, nat_eq, is_truthy, if◌then◌else◌,
}
use fastapi_admin_kit.Base.Dict.{Dict, lookup, insert, values, contains}
use fastapi_admin_kit.Base.Result.{Result, ok, err, value_error, ◌>>=◌}
use fastapi_admin_kit.Schema.{ColumnMeta, RelationMeta}

pub record ModelClass : Type 0 where
  pub identity : ℕ
  pub class_name : String
  pub tablename : Option String
  pub columns : List ColumnMeta
  pub relationships : List RelationMeta

-- The names that an admin class lists, and its public methods.
pub record AdminClass : Type 0 where
  pub list_display : List String
  pub exclude : List String
  pub readonly_fields : List String
  pub formfield_overrides : List String
  pub methods : List String

-- `ModelAdmin` itself, whose lists are empty.
abbrev pub default_admin : AdminClass
default_admin = record {
  list_display = [];
  exclude = [];
  readonly_fields = [];
  formfield_overrides = [];
  methods = [];
}

abbrev pub admin_of : Option AdminClass → AdminClass
admin_of none = default_admin
admin_of (some a) = a

pub record RegisteredModel : Type 0 where
  pub model : ModelClass
  pub admin : AdminClass
  pub table_name : String
  pub pk_field : String

abbrev pub Models : Type 0
Models = Dict RegisteredModel

-- `_validate_is_sqlalchemy_model`
unfoldable pub validate_is_sqlalchemy_model : ModelClass → Result String
validate_is_sqlalchemy_model m = elim m.tablename [ some t ↦ ok t | none ↦ err value_error ]

abbrev pub is_other_model : ModelClass → Option RegisteredModel → Bool
is_other_model m none = false
is_other_model m (some r) = not (nat_eq r.model.identity m.identity)

-- `_check_table_name_conflicts`
unfoldable pub check_conflicts : Models → ModelClass → String → Result (Unit {0})
check_conflicts models m t = if is_other_model m (lookup t models) then err value_error else ok tt

-- `check_table_name_conflicts`
unfoldable pub check_table_name_conflicts : Models → String → Bool
check_table_name_conflicts models t = contains t models

-- The table name of a class that may be registered.
unfoldable pub validate_model_registration : Models → ModelClass → Result String
unfolding validate_is_sqlalchemy_model check_conflicts
validate_model_registration models m = do
  t ← validate_is_sqlalchemy_model m
  _ ← check_conflicts models m t
  ok t

-- `name in names` for a set of texts.
abbrev pub is_in : List String → String → Bool
is_in names name = any (λ n. n == name) names

abbrev pub column_names : List ColumnMeta → List String
column_names columns = map (λ c. c.name) columns

abbrev pub relation_names : List RelationMeta → List String
relation_names relations = map (λ r. r.name) relations

-- `valid_fields`
abbrev pub valid_fields : ModelClass → List String
valid_fields m = column_names m.columns ++ relation_names m.relationships

-- `_check`
unfoldable pub unknown_fields : ModelClass → AdminClass → List String → List String
unknown_fields m a names =
    keep (λ f. not (is_in (valid_fields m) f) && not (is_in a.methods f)) names

-- The overrides are not checked against the methods.
unfoldable pub unknown_overrides : ModelClass → AdminClass → List String
unknown_overrides m a = keep (λ f. not (is_in (valid_fields m) f)) a.formfield_overrides

unfoldable pub validate_admin_fields : ModelClass → Option AdminClass → Result (Unit {0})
unfolding unknown_fields unknown_overrides
validate_admin_fields m none = ok tt
validate_admin_fields m (some a) =
    elim (unknown_fields m a a.list_display
      ++ unknown_fields m a a.exclude
      ++ unknown_fields m a a.readonly_fields
      ++ unknown_overrides m a) [ [] ↦ ok tt | _ ∷ _ ↦ err value_error ]

-- `__post_init__`: the first primary key, else `"id"`.
abbrev pub first_pk : List ColumnMeta → String
first_pk [] = "id"
first_pk (c ∷ cs) = if c.primary_key then c.name else first_pk cs

unfoldable pub build_registered_model :
    Models → ModelClass → Option AdminClass → Result RegisteredModel
unfolding validate_model_registration validate_admin_fields
build_registered_model models m a = do
  t ← validate_model_registration models m
  _ ← validate_admin_fields m a
  ok (record { model = m; admin = admin_of a; table_name = t; pk_field = first_pk m.columns })

-- The registered model, and the registry with it. The admin class that is left out is instantiated
-- before the model is built.
unfoldable pub register :
    Models → ModelClass → Option AdminClass → Result (RegisteredModel × Models)
unfolding validate_model_registration build_registered_model
register models m a = do
  _ ← validate_model_registration models m
  r ← build_registered_model models m (some (admin_of a))
  ok (r, insert r.table_name r models)

unfoldable pub get : Models → String → Option RegisteredModel
get models t = lookup t models

unfoldable pub all_models : Models → List RegisteredModel
all_models models = values models

unfoldable pub clear : Models → Models
clear models = []

-- The state of `auto_discover`: the registry, the classes seen, and those registered, in order.
pub record Discovering : Type 0 where
  pub models : Models
  pub seen : List ℕ
  pub discovered : List RegisteredModel

-- The early returns of `_maybe_register`.
unfoldable pub is_skipped : List String → Models → Option String → Bool
is_skipped excluded models none = true
is_skipped excluded models (some t) = contains t models || is_in excluded t

unfoldable pub maybe_register : List String → ModelClass → Discovering → Result Discovering
unfolding is_skipped register
maybe_register excluded m d =
    let seen = m.identity ∷ d.seen in
    if any (λ i. nat_eq i m.identity) d.seen
    then ok d
    else if is_skipped excluded d.models m.tablename
    then ok (record d { seen = seen })
    else (register d.models m none >>= λ p.
        ok (record { models = p.1; seen = seen; discovered = d.discovered ++ p.0 ∷ [] }))

-- The loops over the classes that the mappers name, in the order in which they come.
unfoldable pub discover_all : List String → List ModelClass → Discovering → Result Discovering
unfolding maybe_register
discover_all excluded [] d = ok d
discover_all excluded (m ∷ ms) d = maybe_register excluded m d >>= discover_all excluded ms

unfoldable pub auto_discover : List String → List ModelClass → Models → Result Discovering
unfolding discover_all
auto_discover excluded classes models =
    discover_all excluded classes (record { models = models; seen = []; discovered = [] })

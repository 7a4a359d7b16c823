-- ===== src/Memory/Database.antt =====
-- `MemoryDatabaseBackend` of fastapi_admin_kit/backends/memory.py, with `SeedRole` of
-- fastapi_admin_kit/auth/types.py. `create_tables`, `auto_migrate` and `adapt_auth_model` do nothing.
use fastapi_admin_kit.Base.{
  String, Bool, true, false, not, ◌&&◌, none, some, List, [], ◌∷◌, ◌++◌, if◌then◌else◌, keep,
  is_truthy,
}
use fastapi_admin_kit.Base.Dict.{Dict, lookup, lookup_or, contains, insert, set_default}
use fastapi_admin_kit.Base.Result.{ok, key_error}
use fastapi_admin_kit.Base.Value.{Value, bool, str}
use fastapi_admin_kit.Schema.{Field, Schema}
use fastapi_admin_kit.Memory.Query.{MemColumn, Model}
use fastapi_admin_kit.Memory.Rows.{Record, next_id}
use fastapi_admin_kit.Memory.Action.{Store, Action, pure, raise, lift, ◌>>=◌, ◌>>◌}

pub record SeedRole : Type 0 where
  pub name : String
  pub description : String
  pub permissions : Dict (Dict Bool)

abbrev pub role_table : String
role_table = "admin_roles"

abbrev pub perm_table : String
perm_table = "admin_permissions"

abbrev pub junction_table : String
junction_table = "admin_role_permissions"

unfoldable pub create_connection : Store → Store
create_connection s =
    set_default junction_table [] (set_default perm_table [] (set_default role_table [] s))

-- The names that the store does not have.
unfoldable pub has_tables : Store → List String → List String
has_tables s names = keep (λ n. not (contains n s)) names

-- `store[name]`
unfoldable pub rows_at : String → Action (List Record)
rows_at name s = elim (lookup name s) [ none ↦ raise key_error s | some rows ↦ (ok rows, s) ]

-- `store[name].append(row)`
unfoldable pub append_row : String → Record → Action (Unit {0})
unfolding rows_at
append_row name r = do rows ← rows_at name; λ s. (ok tt, insert name (rows ++ r ∷ []) s)

-- `store[name].clear()`
unfoldable pub clear_table : String → Action (Unit {0})
unfolding rows_at
clear_table name = do rows ← rows_at name; λ s. (ok tt, insert name [] s)

-- `_next_id(store, name)`
unfoldable pub fresh_id : String → Action Value
fresh_id name s = lift (next_id (lookup_or name [] s)) s

abbrev pub action_of : String → Dict Bool → Value
action_of name actions = bool (lookup_or name false actions)

abbrev pub role_row : SeedRole → Value → Record
role_row spec id = ("id", id) ∷ ("name", str spec.name) ∷ ("description", str spec.description) ∷ []

abbrev pub perm_row : String → Dict Bool → Value → Record
perm_row table actions id =
    ("id", id)
    ∷ ("name", str table)
    ∷ ("table_name", str table)
    ∷ ("can_view", action_of "view" actions)
    ∷ ("can_create", action_of "create" actions)
    ∷ ("can_edit", action_of "edit" actions)
    ∷ ("can_delete", action_of "delete" actions)
    ∷ []

-- The inner loop of `seed_roles`, over a role's permissions.
unfoldable pub seed_perms : Value → Dict (Dict Bool) → Action (Unit {0})
seed_perms role_id [] = pure tt
seed_perms role_id ((table, actions) ∷ perms) = do
  id ← fresh_id perm_table
  append_row perm_table (perm_row table actions id)
  append_row junction_table (("role_id", role_id) ∷ ("permission_id", id) ∷ [])
  seed_perms role_id perms

-- The outer loop.
unfoldable pub seed_each : List SeedRole → Action (Unit {0})
seed_each [] = pure tt
seed_each (spec ∷ specs) = do
  id ← fresh_id role_table
  append_row role_table (role_row spec id)
  seed_perms id spec.permissions
  seed_each specs

unfoldable pub clear_all : Bool → Action (Unit {0})
unfolding clear_table
clear_all false = pure tt
clear_all true = do clear_table role_table; clear_table perm_table; clear_table junction_table

abbrev pub is_empty {ℓ} : {A : Type ℓ} → List A → Bool
is_empty [] = true
is_empty (x ∷ xs) = false

unfoldable pub seed_roles : List SeedRole → Bool → Action (Unit {0})
seed_roles specs overwrite = do
  rows ← rows_at role_table
  if not (is_empty rows) && not overwrite then pure tt else (clear_all overwrite >> seed_each specs)

abbrev pub materialize_columns : List Field → Dict MemColumn → Dict MemColumn
materialize_columns [] cols = cols
materialize_columns (f ∷ fs) cols =
    materialize_columns fs (
      insert f.name (record { name = f.name; type_name = f.type; primary_key = f.primary_key })
        cols)

-- `schema.verbose_name or schema.table_name`
abbrev pub class_name_of : Schema → String
class_name_of s = elim s.verbose_name [
  | none ↦ s.table_name
  | some name ↦ if is_truthy name then name else s.table_name
]

unfoldable pub materialize : Schema → Model
materialize s = record {
  class_name = class_name_of s;
  tablename = some s.table_name;
  schema = some s;
  columns = materialize_columns s.fields [];
  to_text = none;
}

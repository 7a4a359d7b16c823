-- ===== src/Registry/Tests.antt =====
-- Concrete registrations, as fastapi_admin_kit/registry/core.py makes them.
use fastapi_admin_kit.Base.{
  ℕ, String, true, false, Option, none, some, [], ◌∷◌, ◌≡◌, refl, suc, zero,
}
use fastapi_admin_kit.Base.Dict.{lookup}
use fastapi_admin_kit.Base.Result.{ok}
use fastapi_admin_kit.Base.Value.{null}
use fastapi_admin_kit.Schema.{ColumnMeta}
use fastapi_admin_kit.Registry.{
  ModelClass, AdminClass, RegisteredModel, register, build_registered_model,
  validate_model_registration, validate_admin_fields, validate_is_sqlalchemy_model, check_conflicts,
  unknown_fields, unknown_overrides, Discovering, auto_discover,
}
use fastapi_admin_kit.Registry.Discovery.{first_named, or_else, auto_discover_lem}
use fastapi_admin_kit.Registry.Registration.{Registers, register-Registers}

abbrev code : ColumnMeta
code = record {
  name = "code";
  type = "String";
  nullable = false;
  primary_key = true;
  foreign_keys = [];
  default = null;
  server_default = none;
  index = false;
  unique = true;
}

abbrev item : ModelClass
item = record {
  identity = 1;
  class_name = "Item";
  tablename = some "item";
  columns = code ∷ [];
  relationships = [];
}

abbrev hidden : ModelClass
hidden = record {
  identity = 2;
  class_name = "Hidden";
  tablename = some "hidden";
  columns = [];
  relationships = [];
}

abbrev mixin : ModelClass
mixin = record {
  identity = 3;
  class_name = "Mixin";
  tablename = none;
  columns = [];
  relationships = [];
}

abbrev tables : ℕ → Option String
tables (suc zero) = some "item"
tables (suc (suc zero)) = some "hidden"
tables other = none

auto_discover_lem_example :
    (d : Discovering) × (auto_discover ("hidden" ∷ []) (item ∷ mixin ∷ hidden ∷ item ∷ []) []
      ≡ ok d)
    × ((t : String)
        → lookup t d.models
          ≡ or_else none (first_named ("hidden" ∷ []) t (item ∷ mixin ∷ hidden ∷ item ∷ [])))
auto_discover_lem_example =
    auto_discover_lem ("hidden" ∷ []) tables (item ∷ mixin ∷ hidden ∷ item ∷ []) []
      (refl, (refl, (refl, (refl, tt))))

abbrev item_admin : AdminClass
item_admin = record {
  list_display = "code" ∷ "shout" ∷ [];
  exclude = [];
  readonly_fields = "code" ∷ [];
  formfield_overrides = [];
  methods = "shout" ∷ [];
}

abbrev item_entry : RegisteredModel
item_entry = record { model = item; admin = item_admin; table_name = "item"; pk_field = "code" }

item_registered : register [] item (some item_admin) ≡ ok (item_entry, ("item", item_entry) ∷ [])
unfolding register build_registered_model validate_model_registration validate_admin_fields
    validate_is_sqlalchemy_model check_conflicts unknown_fields unknown_overrides
item_registered = refl

register-Registers_example :
    Registers [] item (some item_admin) item_entry (("item", item_entry) ∷ [])
register-Registers_example =
    register-Registers [] item (some item_admin) item_entry (("item", item_entry) ∷ [])
      item_registered

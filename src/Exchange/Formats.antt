-- ===== src/Exchange/Formats.antt =====
-- The registry of formats, fastapi_admin_kit/export_import/registry.py, and the field sets of
-- fastapi_admin_kit/inspection/types.py. A class goes by its name, and `lower` is `str.lower`.
use fastapi_admin_kit.Base.{String, ◌==◌, Bool, Option, List, [], ◌∷◌, any, if◌then◌else◌}
use fastapi_admin_kit.Base.Dict.{Dict, lookup, insert, keys}

abbrev pub sensitive_fields : List String
sensitive_fields =
    "password" ∷ "password_changed_at" ∷ "secret" ∷ "secret_key" ∷ "token" ∷ "refresh_token" ∷ []

abbrev pub privileged_assignment_fields : List String
privileged_assignment_fields = "is_superuser" ∷ "is_active" ∷ "roles" ∷ []

abbrev pub is_in : String → List String → Bool
is_in name names = any (λ n. n == name) names

pub record Registries : Type 0 where
  pub exports : Dict String
  pub imports : Dict String

module _ (lower : String → String) where
  unfoldable pub register_export : String → String → Registries → Registries
  register_export name format_class r = record r {
    exports = insert (lower name) format_class r.exports;
  }

  unfoldable pub register_import : String → String → Registries → Registries
  register_import name format_class r = record r {
    imports = insert (lower name) format_class r.imports;
  }

  unfoldable pub get_export_class : String → Registries → Option String
  get_export_class name r = lookup (lower name) r.exports

  unfoldable pub get_import_class : String → Registries → Option String
  get_import_class name r = lookup (lower name) r.imports

  unfoldable pub get_available_export_formats : Registries → List String
  get_available_export_formats r = keys r.exports

  unfoldable pub get_available_import_formats : Registries → List String
  get_available_import_formats r = keys r.imports

  -- `openpyxl` says whether the Excel formats can be imported.
  unfoldable pub register_defaults : Bool → Registries → Registries
  register_defaults openpyxl r =
      let with_csv = register_import "csv" "CSVImport" (register_export "csv" "CSVExport" r) in
      if openpyxl
      then register_import "excel" "ExcelImport" (register_export "excel" "ExcelExport" with_csv)
      else with_csv

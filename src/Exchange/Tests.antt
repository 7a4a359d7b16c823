-- ===== src/Exchange/Tests.antt =====
-- Runs of fastapi_admin_kit/export_import/: an import that tries to make an administrator, and an
-- export with a formula in a cell.
use fastapi_admin_kit.Fixtures.{ascii}
use fastapi_admin_kit.Base.{
  String, true, false, none, List, [], ◌∷◌, ◌++◌, length, All, ◌≡◌, refl, if◌then◌else◌,
}
use fastapi_admin_kit.Base.Dict.{Dict}
use fastapi_admin_kit.Base.Int.{pos}
use fastapi_admin_kit.Base.Text.{eq_codes, strip, lstrip}
use fastapi_admin_kit.Base.Value.{Value, null, int, str, str_of, eq_value}
use fastapi_admin_kit.Schema.{ColumnMeta}
use fastapi_admin_kit.Exchange.Export.{
  Cell, cell, serial, default_export, header_row, body_rows, body_row, get_columns, get_headers,
  get_value, format_value, sanitize_export_cell, export_rows,
}
use fastapi_admin_kit.Exchange.Export.Cells.{bounded, width, IsRow, export_rows-IsRow}
use fastapi_admin_kit.Exchange.Import.{
  boolean, integer, other, Registered, Converters, default_import, Summary, allowed_import_fields,
  get_field_map, get_unique_key, map_row, missing_column, coerce, transform_row, set_fields,
  created_row, update_first, upsert, save_row, import_rows, flush_all, import_data,
}
use fastapi_admin_kit.Exchange.Import.Written.{IsSameTable, IsOnlyWritable, import_data-IsSameTable}

abbrev none_converted : Converters
none_converted = record {
  to_int = λ v. none;
  to_float = λ v. none;
  from_iso = λ s. none;
  is_datetime = λ v. false;
}

abbrev same_title : String → String
same_title s = s

abbrev users : Registered
users = record {
  columns =
      record { name = "id"; type = integer; primary_key = true }
      ∷ record { name = "email"; type = other; primary_key = false }
      ∷ record { name = "password"; type = other; primary_key = false }
      ∷ record { name = "is_superuser"; type = boolean; primary_key = false }
      ∷ [];
  attributes = "id" ∷ "email" ∷ "password" ∷ "is_superuser" ∷ [];
}

abbrev uploaded : List (Dict Value)
uploaded =
    (("id", int (pos 1)) ∷ ("email", str "eve@x") ∷ ("is_superuser", str "true") ∷ [])
    ∷ (("email", str "mal@x") ∷ ("password", str "p") ∷ [])
    ∷ []

abbrev stored : List (Dict Value)
stored =
    (("id", int (pos 1))
      ∷ ("email", str "bob@x")
      ∷ ("password", str "h")
      ∷ ("is_superuser", null)
      ∷ [])
    ∷ []

abbrev summary : Summary ascii none_converted
summary = record { created = 1; updated = 1; errors = 0 }

privileges_dropped :
    import_data ascii none_converted same_title true true default_import users uploaded stored ≡ (
      summary,
      (("id", int (pos 1))
            ∷ ("email", str "eve@x")
            ∷ ("password", str "h")
            ∷ ("is_superuser", null)
            ∷ [])
          ∷ (("email", str "mal@x") ∷ [])
          ∷ [],
    )
unfolding import_data import_rows map_row allowed_import_fields get_field_map get_unique_key
    default_import missing_column transform_row coerce save_row upsert update_first set_fields
    created_row flush_all eq_codes strip lstrip str_of eq_value
privileges_dropped = refl

import_data-IsSameTable_example :
    (kept added : List (Dict Value)) × ((import_data ascii none_converted same_title true true
        default_import users uploaded stored).1
      ≡ kept ++ added)
    × IsSameTable ascii none_converted users stored kept
    × All (IsOnlyWritable ascii none_converted users) added
import_data-IsSameTable_example =
    import_data-IsSameTable ascii none_converted users same_title true true default_import uploaded
      stored

abbrev column : String → ColumnMeta
column name = record {
  name = name;
  type = "VARCHAR";
  nullable = true;
  primary_key = false;
  foreign_keys = [];
  default = null;
  server_default = none;
  index = false;
  unique = false;
}

abbrev note : List (Dict Value)
note = (("note", str "=1+1") ∷ ("token", str "x") ∷ []) ∷ []

formula_quoted :
    export_rows same_title default_export (column "note" ∷ column "token" ∷ []) note
    ≡ (cell (str "No.") ∷ cell (str "note") ∷ []) ∷ (serial 1 ∷ cell (str "'=1+1") ∷ []) ∷ []
unfolding export_rows body_rows body_row header_row get_columns get_headers default_export get_value
    format_value sanitize_export_cell
formula_quoted = refl

export_rows-IsRow_example :
    (body : List (List Cell)) × (export_rows same_title default_export
        (column "note" ∷ column "token" ∷ [])
        note
      ≡ (if default_export.include_header
          then header_row same_title default_export (column "note" ∷ column "token" ∷ []) ∷ body
          else body))
    × (length (header_row same_title default_export (column "note" ∷ column "token" ∷ []))
        ≡ width default_export (get_columns default_export (column "note" ∷ column "token" ∷ [])))
    × (length body ≡ bounded default_export.max_rows 0 (length note))
    × All
        (IsRow same_title default_export
          (get_columns default_export (column "note" ∷ column "token" ∷ [])))
        body
export_rows-IsRow_example =
    export_rows-IsRow same_title default_export (column "note" ∷ column "token" ∷ []) note

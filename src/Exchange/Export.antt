-- ===== src/Exchange/Export.antt =====
-- What an export writes, `ExportBase` and `CSVExport` of fastapi_admin_kit/export_import/: the rows
-- that are handed to `csv.writer`. An object is the dict of its attributes, and `title` makes a
-- header of a column's name.
pub mod Cells
use Prim.Native.String
use fastapi_admin_kit.Base.{
  ℕ, suc, ◌+◌, String, ◌==◌, Bool, true, false, not, ◌&&◌, ◌||◌, Option, none, some, List, [], ◌∷◌,
  ◌++◌, map, keep, any, length, codes, nat_eq, ltb, leb, if◌then◌else◌,
}
use fastapi_admin_kit.Base.Dict.{Dict, lookup, lookup_or}
use fastapi_admin_kit.Base.Value.{Value, null, str}
use fastapi_admin_kit.Schema.{ColumnMeta}
use fastapi_admin_kit.Exchange.Formats.{sensitive_fields, is_in}

-- The first characters of `FORMULA_PREFIXES`.
abbrev pub formula_prefixes : List ℕ
formula_prefixes = b'=' ∷ b'+' ∷ b'-' ∷ b'@' ∷ b'|' ∷ b'%' ∷ 9 ∷ 13 ∷ []

abbrev pub starts_formula : List ℕ → Bool
starts_formula [] = false
starts_formula (c ∷ s) = any (λ p. nat_eq p c) formula_prefixes

unfoldable pub sanitize_export_cell : Value → Value
sanitize_export_cell (str s) = if starts_formula (codes s) then str (String.◌∷◌ "'" s) else str s
sanitize_export_cell v = v

-- A cell is a value, or the serial number of its row, which is written as a text.
pub data Cell : Type 0 where
  cell : Value → Cell
  serial : ℕ → Cell

pub record ExportBase : Type 0 where
  pub columns : List String
  pub headers : Dict String
  pub include_header : Bool
  pub max_rows : ℕ
  pub include_serial : Bool
  pub serial_header : String

-- `max_rows` 0 stands for None too.
unfoldable pub default_export : ExportBase
default_export = record {
  columns = [];
  headers = [];
  include_header = true;
  max_rows = 0;
  include_serial = true;
  serial_header = "No.";
}

abbrev pub is_exported : ColumnMeta → Bool
is_exported c = not c.primary_key && not (is_in c.name sensitive_fields)

unfoldable pub get_columns : ExportBase → List ColumnMeta → List String
get_columns e registered = elim e.columns [
  | [] ↦ map (λ c. c.name) (keep is_exported registered)
  | c ∷ cs ↦ c ∷ cs
]

module _ (title : String → String) where
  abbrev pub titled : List String → Dict String
  titled [] = []
  titled (c ∷ cs) = (c, title c) ∷ titled cs

  unfoldable pub get_headers : ExportBase → List ColumnMeta → Dict String
  get_headers e registered = elim e.headers [
    | [] ↦ titled (get_columns e registered)
    | h ∷ hs ↦ h ∷ hs
  ]

  abbrev pub header_cells : Dict String → List String → List Cell
  header_cells headers [] = []
  header_cells headers (c ∷ cs) = cell (str (lookup_or c c headers)) ∷ header_cells headers cs

  unfoldable pub header_row : ExportBase → List ColumnMeta → List Cell
  header_row e registered =
      let cells = header_cells (get_headers e registered) (get_columns e registered) in
      if e.include_serial then cell (str e.serial_header) ∷ cells else cells

  -- `get_value`, then `format_value`
  unfoldable pub get_value : Dict Value → String → Value
  get_value obj column = lookup_or column null obj

  unfoldable pub format_value : Value → Value
  format_value null = str ""
  format_value v = v

  abbrev pub cells_of : Dict Value → List String → List Cell
  cells_of obj [] = []
  cells_of obj (c ∷ cs) =
      cell (sanitize_export_cell (format_value (get_value obj c))) ∷ cells_of obj cs

  unfoldable pub body_row : ExportBase → List String → ℕ → Dict Value → List Cell
  body_row e columns row_count obj =
      if e.include_serial
      then serial (row_count + 1) ∷ cells_of obj columns
      else cells_of obj columns

  abbrev pub is_reached : ℕ → ℕ → Bool
  is_reached max_rows row_count = ltb 0 max_rows && leb max_rows row_count

  -- The loop from a row count on.
  unfoldable pub body_rows : ExportBase → List String → ℕ → List (Dict Value) → List (List Cell)
  body_rows e columns row_count [] = []
  body_rows e columns row_count (obj ∷ objs) =
      let rest = body_rows e columns (suc row_count) objs in
      if is_reached e.max_rows row_count then [] else body_row e columns row_count obj ∷ rest

  -- `export_rows`, and `CSVExport.export` on the rows of its query
  unfoldable pub export_rows : ExportBase → List ColumnMeta → List (Dict Value) → List (List Cell)
  export_rows e registered objs =
      let body = body_rows e (get_columns e registered) 0 objs in
      if e.include_header then header_row e registered ∷ body else body

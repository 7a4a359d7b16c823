-- ===== src/Exchange/Export/Cells.antt =====
-- No cell of an export starts a formula, fastapi_admin_kit/export_import/base.py.
use fastapi_admin_kit.Base.{
  ℕ, suc, ◌-◌, min, String, Bool, false, List, [], ◌∷◌, length, codes, ltb, All, ◌≡◌, refl, ap,
  arith, Bool-cases, inl, inr, if-elim, if◌then◌else◌, true, false,
}
use fastapi_admin_kit.Base.Dict.{Dict}
use fastapi_admin_kit.Base.Value.{Value, null, bool, int, str}
use fastapi_admin_kit.Schema.{ColumnMeta}
use fastapi_admin_kit.Exchange.Export.{
  Cell, cell, ExportBase, starts_formula, sanitize_export_cell, get_columns, get_headers,
  header_cells, header_row, get_value, format_value, cells_of, body_row, is_reached, body_rows,
  export_rows,
}

abbrev pub is_formula : Cell → Bool
is_formula (cell (str s)) = starts_formula (codes s)
is_formula _ = false

abbrev pub IsText : Cell → Type 0
IsText c = is_formula c ≡ false

sanitize_export_cell-IsText : (v : Value) → IsText (cell (sanitize_export_cell v))
unfolding sanitize_export_cell
sanitize_export_cell-IsText null = refl
sanitize_export_cell-IsText (bool b) = refl
sanitize_export_cell-IsText (int n) = refl
sanitize_export_cell-IsText (str s) = elim (Bool-cases (starts_formula (codes s))) [
  | inl formula ↦ rw formula refl
  | inr text ↦ rw (text, text) refl
]

-- How many rows are written from the row count `n` on.
abbrev pub bounded : ℕ → ℕ → ℕ → ℕ
bounded max_rows n k = if ltb 0 max_rows then min k (max_rows - n) else k

-- The width of a row.
abbrev pub width : ExportBase → List String → ℕ
width e columns = if e.include_serial then suc (length columns) else length columns

module _ (title : String → String) where
  cells_of-IsText : (obj : Dict Value) (cs : List String) → All IsText (cells_of title obj cs)
  cells_of-IsText obj [] = tt
  cells_of-IsText obj (c ∷ cs) = (
    sanitize_export_cell-IsText (format_value title (get_value title obj c)),
    cells_of-IsText obj cs,
  )

  length-cells_of :
      (obj : Dict Value) (cs : List String) → length (cells_of title obj cs) ≡ length cs
  length-cells_of obj [] = refl
  length-cells_of obj (c ∷ cs) = omega (arith, length-cells_of obj cs)

  abbrev pub IsRow : ExportBase → List String → List Cell → Type 0
  IsRow e columns row = All IsText row × (length row ≡ width e columns)

  body_row-IsRow :
      (e : ExportBase) (columns : List String) (n : ℕ) (obj : Dict Value)
      → IsRow e columns (body_row title e columns n obj)
  unfolding body_row
  body_row-IsRow e columns n obj = elim (Bool-cases e.include_serial) [
    | inl s ↦ rw s ((refl, cells_of-IsText obj columns), omega (arith, length-cells_of obj columns))
    | inr s ↦ rw s (cells_of-IsText obj columns, length-cells_of obj columns)
  ]

  body_rows-IsRow :
      (e : ExportBase) (columns : List String) (n : ℕ) (objs : List (Dict Value))
      → All (IsRow e columns) (body_rows title e columns n objs)
  unfolding body_rows
  body_rows-IsRow e columns n [] = tt
  body_rows-IsRow e columns n (obj ∷ objs) =
      if-elim (All (IsRow e columns)) (is_reached title e.max_rows n) _ _ (λ r. tt)
        (λ r. (body_row-IsRow e columns n obj, body_rows-IsRow e columns (suc n) objs))

  length-body_rows :
      (e : ExportBase) (columns : List String) (n : ℕ) (objs : List (Dict Value))
      → length (body_rows title e columns n objs) ≡ bounded e.max_rows n (length objs)
  unfolding body_rows
  length-body_rows e columns n [] = ground arith
  length-body_rows e columns n (obj ∷ objs) =
      ground (arith, length-body_rows e columns (suc n) objs)

  length-header_cells :
      (headers : Dict String) (cs : List String)
      → length (header_cells title headers cs) ≡ length cs
  length-header_cells headers [] = refl
  length-header_cells headers (c ∷ cs) = omega (arith, length-header_cells headers cs)

  with_first :
      (b : Bool) (first : Cell) (cells : List Cell) (n : ℕ)
      → length cells ≡ n
      → length (if b then first ∷ cells else cells) ≡ (if b then suc n else n)
  with_first true first cells n e = ap suc e
  with_first false first cells n e = e

  length-header_row :
      (e : ExportBase) (registered : List ColumnMeta)
      → length (header_row title e registered) ≡ width e (get_columns e registered)
  unfolding header_row
  length-header_row e registered =
      with_first e.include_serial (cell (str e.serial_header))
        (header_cells title (get_headers title e registered) (get_columns e registered))
        (length (get_columns e registered))
        (length-header_cells (get_headers title e registered) (get_columns e registered))

  -- The header, where there is one, has a cell for every column, and one for the serial number if
  -- that is wanted. Behind the header, if there is one, the rows of an export are as many as there
  -- are objects, but no more than the maximum where one is set. Each has a cell for every column,
  -- and one for the serial number if that is wanted, and no cell is a text that a spreadsheet reads
  -- as a formula.
  pub export_rows-IsRow :
      (e : ExportBase) (registered : List ColumnMeta) (objs : List (Dict Value))
      → (body : List (List Cell)) × (export_rows title e registered objs
          ≡ (if e.include_header then header_row title e registered ∷ body else body))
        × (length (header_row title e registered) ≡ width e (get_columns e registered))
        × (length body ≡ bounded e.max_rows 0 (length objs))
        × All (IsRow e (get_columns e registered)) body
  unfolding export_rows
  export_rows-IsRow e registered objs = (
    body_rows title e (get_columns e registered) 0 objs,
    refl,
    length-header_row e registered,
    length-body_rows e (get_columns e registered) 0 objs,
    body_rows-IsRow e (get_columns e registered) 0 objs,
  )

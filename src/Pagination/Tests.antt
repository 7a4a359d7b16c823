-- ===== src/Pagination/Tests.antt =====
-- The strategies of fastapi_admin_kit/pagination/ over the in-memory backend of
-- fastapi_admin_kit/backends/memory.py, on a table of five records and a query with a filter.
use fastapi_admin_kit.Base.{
  ℕ, zero, suc, ◌≤◌, String, true, false, some, none, List, [], ◌∷◌, length, map, ◌≡◌, refl, arith,
}
use fastapi_admin_kit.Base.Int.{pos, negsuc}
use fastapi_admin_kit.Base.Result.{ok, err, attribute_error}
use fastapi_admin_kit.Base.Value.{Value, int, str, eq_value}
use fastapi_admin_kit.Fixtures.{ascii, product}
use fastapi_admin_kit.Memory.Query.{Model, MemColumn, MemQuery, expr, ne}
use fastapi_admin_kit.Memory.Column
use fastapi_admin_kit.Memory.Match.{matches, matches_test}
use fastapi_admin_kit.Memory.Rows.{Record, query_rows}
use fastapi_admin_kit.Memory.Action.{Store}
use fastapi_admin_kit.Memory.Session.{reconstruct}
use fastapi_admin_kit.Pagination.Offset.{paginate_offset}
use fastapi_admin_kit.Pagination.Cursor.{Codec, cursor_col, filter_cursor, paginate_cursor}
use fastapi_admin_kit.Pagination.Dynamic.{with_mode, paginate_dynamic}
use fastapi_admin_kit.Pagination.Choice.{paginate_dynamic-small}
use fastapi_admin_kit.Pagination.Pages.{IsPageCount, IsNearest, page_result, paginate_offset-total}
use fastapi_admin_kit.Pagination.Stored.{memory_backend, memory_rows, memory_rows_lem, IsOpen}
use fastapi_admin_kit.Pagination.Keyed.{IsKeyed, keyed_laws}

abbrev id_column : MemColumn
id_column = record { name = "id"; type_name = "integer"; primary_key = true }

abbrev described_product : Model
described_product = record product { columns = ("id", id_column) ∷ [] }

abbrev row : ℕ → String → Record
row n name = ("id", int (pos n)) ∷ ("name", str name) ∷ []

abbrev four : List Record
four = row 1 "pear" ∷ row 2 "fig" ∷ row 5 "plum" ∷ row 8 "lime" ∷ []

abbrev shelf : Store
shelf =
    ("products", row 1 "pear" ∷ row 2 "fig" ∷ row 3 "apple" ∷ row 5 "plum" ∷ row 8 "lime" ∷ []) ∷ []

-- `select(Product)` with the filter `Product.name != "apple"`.
abbrev no_apples : MemQuery
no_apples = record {
  model = described_product;
  predicates = expr (record { name = "name"; test = ne (str "apple") }) ∷ [];
  orders = [];
  limit = none;
  offset = none;
  is_count = false;
}

no_apples-IsOpen : IsOpen ascii shelf no_apples
unfolding query_rows matches matches_test eq_value
no_apples-IsOpen = record {
  no_limit = refl;
  no_offset = refl;
  name = "products";
  tabled = refl;
  found = four;
  selected = refl;
}

no_apples-IsKeyed : IsKeyed ascii shelf id_column "id" no_apples
unfolding no_apples-IsOpen
no_apples-IsKeyed = record {
  opened = no_apples-IsOpen;
  unsorted = refl;
  described = refl;
  numbered = (
    ((refl, (refl, tt)), 1, refl),
    (
      ((refl, (refl, tt)), 2, refl),
      (((refl, (refl, tt)), 5, refl), (((refl, (refl, tt)), 8, refl), tt)),
    ),
  );
}

no_apples_rows : memory_rows ascii shelf no_apples ≡ map (reconstruct described_product) four
unfolding no_apples-IsOpen
no_apples_rows = memory_rows_lem ascii shelf no_apples no_apples-IsOpen

-- A number is written as that many strokes, behind a mark.
abbrev strokes : ℕ → String
strokes zero = "#"
strokes (suc n) = String.◌∷◌ "i" (strokes n)

abbrev count_strokes : String → ℕ
count_strokes String.[] = zero
count_strokes (String.◌∷◌ c s) = suc (count_strokes s)

abbrev write_key : Value → String
write_key (int (pos n)) = strokes n
write_key other = "#"

abbrev stroke_codec : Codec
stroke_codec = record {
  loads = λ s. elim (count_strokes s) [ zero ↦ none | suc n ↦ some (int (pos n)) ];
  dumps = write_key;
  parse_int = λ s. none;
  parse_float = λ s. none;
}

paginate_offset-total_example :
    (p : ℕ) × (t : ℕ) × IsPageCount (length (memory_rows ascii shelf no_apples)) 3 t
    × (1 ≤ p)
    × (p ≤ t)
    × IsNearest (negsuc 4) t p
    × (paginate_offset (memory_backend ascii shelf) no_apples 3 (negsuc 4)
        ≡ ok (
            page_result
              (memory_backend ascii shelf)
              (memory_rows ascii shelf)
              (IsKeyed ascii shelf id_column "id")
              (keyed_laws ascii shelf id_column "id")
              no_apples
              3
              p
              t))
paginate_offset-total_example =
    paginate_offset-total (memory_backend ascii shelf) (memory_rows ascii shelf)
      (IsKeyed ascii shelf id_column "id") (keyed_laws ascii shelf id_column "id") no_apples 3
      (negsuc 4) no_apples-IsKeyed (omega arith)

-- A page before a cursor asks the column for `key`, which it does not have.
before_raises :
    paginate_cursor
      (memory_backend ascii shelf)
      stroke_codec
      none
      none
      (some id_column)
      no_apples
      3
      none
      (some "i#")
    ≡ err attribute_error
unfolding paginate_cursor cursor_col filter_cursor memory_backend
before_raises = refl

no_apples_small : length (memory_rows ascii shelf no_apples) ≤ 100
no_apples_small = rw no_apples_rows (omega arith)

paginate_dynamic-small_example :
    (p : ℕ) × (t : ℕ) × IsPageCount (length (memory_rows ascii shelf no_apples)) 3 t
    × (1 ≤ p)
    × (p ≤ t)
    × IsNearest (pos 9) t p
    × (paginate_dynamic
          (memory_backend ascii shelf)
          stroke_codec
          100
          none
          none
          none
          no_apples
          3
          (pos 9)
          none
          (some "i#")
        ≡ ok (
            with_mode "dynamic_offset" (
              page_result
                (memory_backend ascii shelf)
                (memory_rows ascii shelf)
                (IsKeyed ascii shelf id_column "id")
                (keyed_laws ascii shelf id_column "id")
                no_apples
                3
                p
                t)))
paginate_dynamic-small_example =
    paginate_dynamic-small (memory_backend ascii shelf) stroke_codec (memory_rows ascii shelf)
      (IsKeyed ascii shelf id_column "id") (keyed_laws ascii shelf id_column "id") 100 none none
      none no_apples 3 (pos 9) none (some "i#") no_apples-IsKeyed (omega arith) no_apples_small

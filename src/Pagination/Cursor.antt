-- ===== src/Pagination/Cursor.antt =====
-- `CursorPagination` of fastapi_admin_kit/pagination/cursor.py. `Codec` stands for base64 and JSON, and
-- for the parsers of numbers.
use fastapi_admin_kit.Base.{
  ℕ, ◌+◌, String, Bool, true, false, Option, some, none, List, [], ◌∷◌, reverse, take, length, ltb,
  is_truthy, if◌then◌else◌,
}
use fastapi_admin_kit.Base.Int.{ℤ, pos}
use fastapi_admin_kit.Base.Result.{Result, ok, err, value_error, ◌>>=◌}
use fastapi_admin_kit.Base.Value.{Value, int, str}
use fastapi_admin_kit.Pagination.{PaginationResult, QueryBackend}

-- `json.loads(base64.b64decode(…))`, `base64.b64encode(json.dumps(…))`, `int(…)` and `float(…)`; `none`
-- where they raise.
pub record Codec : Type 0 where
  pub loads : String → Option Value
  pub dumps : Value → String
  pub parse_int : String → Option ℤ
  pub parse_float : String → Option Value

module _ (codec : Codec) where
  unfoldable pub decode_cursor : String → Value
  decode_cursor cursor = elim (codec.loads cursor) [
    | some v ↦ v
    | none ↦ elim (codec.parse_int cursor) [
      | some n ↦ int n
      | none ↦ elim (codec.parse_float cursor) [ some x ↦ x | none ↦ str cursor ]
    ]
  ]

  unfoldable pub encode_cursor : Value → String
  encode_cursor v = codec.dumps v

-- A text that is given and not empty, as `if after:` tests it.
abbrev pub given : Option String → Option String
given none = none
given (some s) = if is_truthy s then some s else none

-- The columns of the model, where one is given, and the `pk_col`.
unfoldable pub cursor_col :
    {C : Type 0} → Option String → Option (String → Result C) → Option C → Result C
cursor_col column model pk_col = elim (given column) [
  | some name ↦ elim model [
    | some get ↦ get name
    | none ↦ elim pk_col [ some c ↦ ok c | none ↦ err value_error ]
  ]
  | none ↦ elim pk_col [ some c ↦ ok c | none ↦ err value_error ]
]

-- `self.cursor_column or "id"`
abbrev pub cursor_attribute : Option String → String
cursor_attribute column = elim (given column) [ some name ↦ name | none ↦ "id" ]

abbrev pub last_of : {T : Type 0} → List T → Option T
last_of [] = none
last_of (x ∷ []) = some x
last_of (x ∷ y ∷ ys) = last_of (y ∷ ys)

module _ {Q C T : Type 0} (b : QueryBackend Q C T) (codec : Codec) where
  -- The two filters; `after` goes first.
  unfoldable pub filter_cursor : Q → C → Option String → Option String → Result Q
  unfolding decode_cursor
  filter_cursor stmt col after before = elim (given after) [
    | some cursor ↦ ok (b.where_greater stmt col (decode_cursor codec cursor))
    | none ↦ elim (given before) [
      | some cursor ↦ b.order_down (b.where_less stmt col (decode_cursor codec cursor)) col
      | none ↦ ok stmt
    ]
  ]

  -- `if before: items = list(reversed(items))`
  abbrev pub natural_order : Option String → List T → List T
  natural_order before items = elim (given before) [ some _ ↦ reverse items | none ↦ items ]

  unfoldable pub next_cursor_of : Option String → Bool → List T → Result (Option String)
  unfolding encode_cursor
  next_cursor_of column has_next items = elim has_next [
    | false ↦ ok none
    | true ↦ elim (last_of items) [
      | none ↦ ok none
      | some item ↦ do
        v ← b.get_attribute item (cursor_attribute column)
        ok (some (encode_cursor codec v))
    ]
  ]

  -- The part of `paginate` from `has_next` on.
  unfoldable pub cursor_result : Option String → ℕ → ℕ → List T → Result (PaginationResult T)
  unfolding next_cursor_of
  cursor_result column per_page total items =
      let has_next = ltb per_page (length items) in
      let shown = if has_next then take per_page items else items in
      next_cursor_of column has_next shown >>= λ next_cursor. ok (record {
        items = shown;
        total = total;
        per_page = per_page;
        page = none;
        total_pages = none;
        next_cursor = next_cursor;
        has_next = has_next;
        mode = "cursor";
      })

  unfoldable pub paginate_cursor :
      Option String
      → Option (String → Result C)
      → Option C
      → Q
      → ℕ
      → Option String
      → Option String
      → Result (PaginationResult T)
  unfolding cursor_col filter_cursor cursor_result
  paginate_cursor column model pk_col stmt per_page after before = do
    col ← cursor_col column model pk_col
    filtered ← filter_cursor stmt col after before
    total ← b.run_count (b.count filtered).0
    items ← b.run_all (b.limit (b.count filtered).1 (pos (per_page + 1)))
    cursor_result column per_page total (natural_order before items)

-- ===== src/Pagination/Walk.antt =====
-- Following the cursors of fastapi_admin_kit/pagination/cursor.py.
use fastapi_admin_kit.Base.{
  ℕ, zero, suc, ◌<◌, String, Bool, true, Option, some, none, List, [], ◌∷◌, ◌++◌, keep, ltb, All,
  ◌≡◌, is_truthy,
}
use fastapi_admin_kit.Base.Int.{pos}
use fastapi_admin_kit.Base.Result.{Result, ok, ◌>>=◌}
use fastapi_admin_kit.Base.Value.{int}
use fastapi_admin_kit.Pagination.{PaginationResult, QueryBackend, BackendLaws}
use fastapi_admin_kit.Pagination.Cursor.{Codec, cursor_col, cursor_attribute, paginate_cursor}

-- Rows whose cursor column holds the numbers `key`, the cursor column, and codes that can be read back.
pub record CursorLaws {Q C T : Type 0} (b : QueryBackend Q C T) (codec : Codec) (rows : Q → List T)
    (IsOpen : Q → Type 0) (key : T → ℕ) (name : String) (col : C) : Type 0 where
  pub greater-IsOpen : (q : Q) (v : ℕ) → IsOpen q → IsOpen (b.where_greater q col (int (pos v)))
  pub rows_greater :
      (q : Q) (v : ℕ)
      → IsOpen q
      → rows (b.where_greater q col (int (pos v))) ≡ keep (λ x. ltb v (key x)) (rows q)
  pub get_key :
      (q : Q) → IsOpen q → All (λ x. b.get_attribute x name ≡ ok (int (pos (key x)))) (rows q)
  pub loads_dumps : (v : ℕ) → codec.loads (codec.dumps (int (pos v))) ≡ some (int (pos v))
  pub dumps_given : (v : ℕ) → is_truthy (codec.dumps (int (pos v))) ≡ true

module _ {T : Type 0} (key : T → ℕ) where
  -- The keys go up, and none comes twice.
  abbrev pub IsAscending : List T → Type 0
  IsAscending [] = Unit
  IsAscending (x ∷ xs) = All (λ y. key x < key y) xs × IsAscending xs

-- The items of the page after `after`, and of the pages that its cursor leads to; at most `many`
-- pages, each of a statement that its request builds anew.
unfoldable pub follow :
    {Q C T : Type 0}
    → QueryBackend Q C T
    → Codec
    → Option String
    → Option (String → Result C)
    → Option C
    → Q
    → ℕ
    → ℕ
    → Option String
    → Result (List T)
unfolding paginate_cursor
follow b codec column model pk_col stmt per_page zero after = ok []
follow b codec column model pk_col stmt per_page (suc many) after =
    paginate_cursor b codec column model pk_col stmt per_page after none >>= λ r.
    elim r.next_cursor [
      | none ↦ ok r.items
      | some c ↦ follow b codec column model pk_col stmt per_page many (some c) >>= λ items.
          ok (r.items ++ items)
    ]

module _ {Q C T : Type 0} (b : QueryBackend Q C T) (codec : Codec) (rows : Q → List T) (key : T → ℕ)
    (column : Option String) (model : Option (String → Result C)) (pk_col : Option C) (col : C)
    (IsOpen : Q → Type 0) (laws : BackendLaws b rows IsOpen)
    (cursors : CursorLaws b codec rows IsOpen key (cursor_attribute column) col)
    (column_found : cursor_col column model pk_col ≡ ok col) where
  abbrev result_of : ℕ → ℕ → List T → Option String → Bool → PaginationResult T
  result_of total per_page items next more = record {
    items = items;
    total = total;
    per_page = per_page;
    page = none;
    total_pages = none;
    next_cursor = next;
    has_next = more;
    mode = "cursor";
  }

  -- Where the rows after the cursor are `ys`, the last rows of the statement, the cursors lead through
  -- them.
  abbrev HasKey : T → Type 0
  HasKey x = b.get_attribute x (cursor_attribute column) ≡ ok (int (pos (key x)))

-- ===== src/Pagination/Dynamic.antt =====
-- `DynamicPagination` of fastapi_admin_kit/pagination/dynamic.py.
use fastapi_admin_kit.Base.{ℕ, String, true, false, Option, leb, if◌then◌else◌}
use fastapi_admin_kit.Base.Int.{ℤ}
use fastapi_admin_kit.Base.Result.{Result, ok, ◌>>=◌}
use fastapi_admin_kit.Pagination.{PaginationResult, QueryBackend}
use fastapi_admin_kit.Pagination.Offset.{paginate_offset}
use fastapi_admin_kit.Pagination.Cursor.{Codec, paginate_cursor}

unfoldable pub with_mode : {T : Type 0} → String → PaginationResult T → PaginationResult T
with_mode mode r = record r { mode = mode }

module _ {Q C T : Type 0} (b : QueryBackend Q C T) (codec : Codec) where
  -- The strategy that the total calls for, on the statement that is left when it was counted.
  unfoldable pub strategy :
      ℕ
      → ℕ
      → Option String
      → Option (String → Result C)
      → Option C
      → Q
      → ℕ
      → ℤ
      → Option String
      → Option String
      → Result (PaginationResult T)
  unfolding paginate_offset paginate_cursor
  strategy threshold total column model pk_col stmt per_page page after before =
      elim (leb total threshold) [
        | true ↦ paginate_offset b stmt per_page page
        | false ↦ paginate_cursor b codec column model pk_col stmt per_page after before
      ]

  unfoldable pub paginate_dynamic :
      ℕ
      → Option String
      → Option (String → Result C)
      → Option C
      → Q
      → ℕ
      → ℤ
      → Option String
      → Option String
      → Result (PaginationResult T)
  unfolding strategy with_mode
  paginate_dynamic threshold column model pk_col stmt per_page page after before = do
    total ← b.run_count (b.count stmt).0
    result ←
        strategy threshold total column model pk_col (b.count stmt).1 per_page page after before
    ok (with_mode (if leb total threshold then "dynamic_offset" else "dynamic_cursor") result)

-- ===== src/Pagination/Offset.antt =====
-- `OffsetPagination` of fastapi_admin_kit/pagination/offset.py. `per_page` is not negative; the float
-- quotient of `math.ceil(total / per_page)` is exact for totals below 2 ^ 53.
use fastapi_admin_kit.Base.{ℕ, zero, suc, ◌+◌, ◌-◌, ◌*◌, ◌/◌, min, max, some, none, false}
use fastapi_admin_kit.Base.Int.{ℤ, pos, negsuc}
use fastapi_admin_kit.Base.Result.{Result, ok, err, zero_division_error, ◌>>=◌}
use fastapi_admin_kit.Pagination.{PaginationResult, QueryBackend}

-- `max(1, math.ceil(total / per_page))`
unfoldable pub page_count : ℕ → ℕ → Result ℕ
page_count total zero = err zero_division_error
page_count total (suc n) = ok (max 1 ((total + n) / suc n))

-- `max(1, min(page, total_pages))`
unfoldable pub clamp_page : ℤ → ℕ → ℕ
clamp_page (pos page) total_pages = max 1 (min page total_pages)
clamp_page (negsuc page) total_pages = 1

module _ {Q C T : Type 0} (b : QueryBackend Q C T) where
  unfoldable pub page_at : Q → ℕ → ℕ → ℕ → ℕ → Result (PaginationResult T)
  page_at stmt total per_page page total_pages = do
    items ← b.run_all (b.limit (b.offset stmt (pos ((page - 1) * per_page))) (pos per_page))
    ok (record {
      items = items;
      total = total;
      per_page = per_page;
      page = some page;
      total_pages = some total_pages;
      next_cursor = none;
      has_next = false;
      mode = "offset";
    })

  unfoldable pub paginate_offset : Q → ℕ → ℤ → Result (PaginationResult T)
  unfolding page_count clamp_page page_at
  paginate_offset stmt per_page page = do
    total ← b.run_count (b.count stmt).0
    total_pages ← page_count total per_page
    page_at (b.count stmt).1 total per_page (clamp_page page total_pages) total_pages

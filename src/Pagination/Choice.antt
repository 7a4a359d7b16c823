-- ===== src/Pagination/Choice.antt =====
-- Which strategy fastapi_admin_kit/pagination/dynamic.py takes.
use fastapi_admin_kit.Base.{
  ℕ, ◌≤◌, ◌<◌, String, Option, List, length, ◌≡◌, arith, leb, if◌then◌else◌,
}
use fastapi_admin_kit.Base.Int.{ℤ}
use fastapi_admin_kit.Base.Result.{Result, ok, ◌>>=◌}
use fastapi_admin_kit.Pagination.{QueryBackend, BackendLaws}
use fastapi_admin_kit.Pagination.Pages.{
  page_result, page_result-rows, IsPageCount, IsNearest, paginate_offset-total,
}
use fastapi_admin_kit.Pagination.Cursor.{Codec}
use fastapi_admin_kit.Pagination.Dynamic.{with_mode, strategy, paginate_dynamic}

module _ {Q C T : Type 0} (b : QueryBackend Q C T) (codec : Codec) (rows : Q → List T)
    (IsOpen : Q → Type 0) (laws : BackendLaws b rows IsOpen) where
  paginate_dynamic_lem :
      (threshold : ℕ) (column : Option String) (model : Option (String → Result C))
      (pk_col : Option C) (stmt : Q) (per_page : ℕ) (page : ℤ) (after before : Option String)
      → IsOpen stmt
      → paginate_dynamic b codec threshold column model pk_col stmt per_page page after before ≡ (
          strategy b codec threshold
            (length (rows stmt))
            column
            model
            pk_col
            (b.count stmt).1
            per_page
            page
            after
            before
          >>= λ r. ok (
              with_mode
                (if leb (length (rows stmt)) threshold then "dynamic_offset" else "dynamic_cursor")
                r))
  unfolding paginate_dynamic
  paginate_dynamic_lem threshold column model pk_col stmt per_page page after before opened =
      ground (arith, laws.run_count_lem stmt opened)

  -- Over a backend with the laws and with a positive page size, an open statement of at most
  -- `threshold` rows is always answered, by the page that the offset strategy shows of it: the one
  -- that is asked for, or the nearest that there is. The cursors, the cursor column and the model
  -- make no difference.
  pub paginate_dynamic-small :
      (threshold : ℕ) (column : Option String) (model : Option (String → Result C))
      (pk_col : Option C) (stmt : Q) (per_page : ℕ) (page : ℤ) (after before : Option String)
      → IsOpen stmt
      → 0 < per_page
      → length (rows stmt) ≤ threshold
      → (p : ℕ) × (t : ℕ) × IsPageCount (length (rows stmt)) per_page t
        × (1 ≤ p)
        × (p ≤ t)
        × IsNearest page t p
        × (paginate_dynamic b codec threshold column model pk_col stmt per_page page after before
            ≡ ok (with_mode "dynamic_offset" (page_result b rows IsOpen laws stmt per_page p t)))
  unfolding strategy
  paginate_dynamic-small threshold column model pk_col stmt per_page page after before opened h
        small =
      let counted = (b.count stmt).1 in
      let (p, t, count, low, high, near, e) =
        paginate_offset-total b rows IsOpen laws counted per_page page
          (laws.count-IsOpen stmt opened) h in
      (
        p,
        t,
        rw (laws.rows_count stmt opened) at count,
        low,
        high,
        near,
        ground (
          arith,
          paginate_dynamic_lem threshold column model pk_col stmt per_page page after before opened,
          e,
          page_result-rows b rows IsOpen laws counted stmt per_page p t
              (laws.rows_count stmt opened),
        ),
      )

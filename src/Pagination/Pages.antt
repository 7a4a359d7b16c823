-- ===== src/Pagination/Pages.antt =====
-- What the pages of fastapi_admin_kit/pagination/offset.py show.
use native.Mathlib.Nat.{div-add-mod, mod-lt}
use fastapi_admin_kit.Base.{
  true, min, Bool-cases, ltb, ap, sym, ℕ, zero, suc, ◌+◌, ◌-◌, ◌*◌, ◌/◌, ◌%◌, ◌≤◌, ◌<◌, max, some,
  none, false, List, [], ◌++◌, take, drop, length, ◌≡◌, refl, arith, ◌⊎◌, inl, inr,
}
use fastapi_admin_kit.Base.Int.{ℤ, pos, negsuc, ltb_ℤ}
use fastapi_admin_kit.Base.Result.{Result, ok, ◌>>=◌}
use fastapi_admin_kit.Pagination.{PaginationResult, QueryBackend, BackendLaws}
use fastapi_admin_kit.Pagination.Offset.{page_count, clamp_page, page_at, paginate_offset}

-- As many pages as the rows need, and one where there are no rows.
abbrev pub IsPageCount : ℕ → ℕ → ℕ → Type 0
IsPageCount total per_page t =
    (1 ≤ t) × (total ≤ t * per_page) × ((t ≡ 1) ⊎ ((t - 1) * per_page < total))

quotient-IsPageCount :
    (total n q r : ℕ) → suc n * q + r ≡ total + n → r < suc n → IsPageCount total (suc n) (max 1 q)
quotient-IsPageCount total n zero r whole rest =
    let none_left : suc n * zero ≡ zero = omega arith in (omega arith, omega arith, inl refl)
quotient-IsPageCount total n (suc p) r whole rest =
    let split : suc n * suc p ≡ p * suc n + suc n = omega arith in
    let same : max 1 (suc p) ≡ suc p = omega arith in
    let commute : suc p * suc n ≡ p * suc n + suc n = omega arith in
    let less : suc p - 1 ≡ p = omega arith in
    rw (same, less) (omega arith, omega arith, inr (omega arith))

page_count-IsPageCount :
    (total per_page : ℕ)
    → 0 < per_page
    → (t : ℕ) × (page_count total per_page ≡ ok t) × IsPageCount total per_page t
unfolding page_count
page_count-IsPageCount total zero h = absurd (omega arith)
page_count-IsPageCount total (suc n) h =
    let q = (total + n) / suc n in
    (
      max 1 q,
      refl,
      quotient-IsPageCount total n q ((total + n) % suc n) (div-add-mod (total + n) (suc n))
          (mod-lt (total + n) (omega arith)),
    )

-- The page `p` of `t` that is shown for a request: that page, or the nearest one that there is.
abbrev pub IsNearest : ℤ → ℕ → ℕ → Type 0
IsNearest page t p =
    (page ≡ pos p) ⊎ ((ltb_ℤ page (pos 1) ≡ true) × (p ≡ 1) ⊎ (ltb_ℤ (pos t) page ≡ true) × (p ≡ t))

clamp_page-IsNearest : (page : ℤ) (t : ℕ) → 1 ≤ t → IsNearest page t (clamp_page page t)
unfolding clamp_page
clamp_page-IsNearest (negsuc n) t h = inr (inl (ground arith, refl))
clamp_page-IsNearest (pos zero) t h = inr (inl (ground arith, omega arith))
clamp_page-IsNearest (pos (suc n)) t h = elim (Bool-cases (ltb t (suc n))) [
  | inl above ↦ inr (inr (ground (arith, above), ground (arith, above)))
  | inr within ↦
      let at : max 1 (min (suc n) t) ≡ suc n = ground (arith, within) in inl (ap pos (sym at))
]

clamp_page-bounds : (page : ℤ) (t : ℕ) → 1 ≤ t → (1 ≤ clamp_page page t) × (clamp_page page t ≤ t)
unfolding clamp_page
clamp_page-bounds (pos page) t h = (omega arith, omega arith)
clamp_page-bounds (negsuc page) t h = (omega arith, h)

module _ {Q C T : Type 0} (b : QueryBackend Q C T) (rows : Q → List T) (IsOpen : Q → Type 0)
    (laws : BackendLaws b rows IsOpen) where
  -- The page `p` of the rows, out of `t`.
  abbrev pub page_result : Q → ℕ → ℕ → ℕ → PaginationResult T
  page_result stmt per_page p t = record {
    items = take per_page (drop ((p - 1) * per_page) (rows stmt));
    total = length (rows stmt);
    per_page = per_page;
    page = some p;
    total_pages = some t;
    next_cursor = none;
    has_next = false;
    mode = "offset";
  }

  pub page_result-rows :
      (stmt stmt' : Q) (per_page p t : ℕ)
      → rows stmt ≡ rows stmt'
      → page_result stmt per_page p t ≡ page_result stmt' per_page p t
  page_result-rows stmt stmt' per_page p t e = ground (arith, e)

  page_at_lem :
      (stmt : Q) (total per_page p t : ℕ)
      → IsOpen stmt
      → total ≡ length (rows stmt)
      → page_at b (b.count stmt).1 total per_page p t ≡ ok (page_result stmt per_page p t)
  unfolding page_at
  page_at_lem stmt total per_page p t opened e = ground (
    arith,
    e,
    laws.run_all_page (b.count stmt).1 ((p - 1) * per_page) per_page
        (laws.count-IsOpen stmt opened),
    laws.rows_count stmt opened,
  )

  paginate_offset_lem :
      (stmt : Q) (per_page t : ℕ) (page : ℤ)
      → IsOpen stmt
      → page_count (length (rows stmt)) per_page ≡ ok t
      → paginate_offset b stmt per_page page ≡ ok (page_result stmt per_page (clamp_page page t) t)
  unfolding paginate_offset
  paginate_offset_lem stmt per_page t page opened e = ground (
    arith,
    e,
    laws.run_count_lem stmt opened,
    page_at_lem stmt (length (rows stmt)) per_page (clamp_page page t) t opened refl,
  )

  -- Over a backend with the laws, for an open statement and with a positive page size, a request
  -- for any page is answered: of as many pages as the total needs, it shows the rows of the one
  -- that is asked for, or of the nearest that there is.
  pub paginate_offset-total :
      (stmt : Q) (per_page : ℕ) (page : ℤ)
      → IsOpen stmt
      → 0 < per_page
      → (p : ℕ) × (t : ℕ) × IsPageCount (length (rows stmt)) per_page t
        × (1 ≤ p)
        × (p ≤ t)
        × IsNearest page t p
        × (paginate_offset b stmt per_page page ≡ ok (page_result stmt per_page p t))
  paginate_offset-total stmt per_page page opened h =
      let (t, e, count) = page_count-IsPageCount (length (rows stmt)) per_page h in
      let (low, high) = clamp_page-bounds page t count.0 in
      (
        clamp_page page t,
        t,
        count,
        low,
        high,
        clamp_page-IsNearest page t count.0,
        paginate_offset_lem stmt per_page t page opened e,
      )

-- The items of `many` pages, from page `p` on; each request builds the statement anew.
unfoldable pub pages_from : {Q C T : Type 0} → QueryBackend Q C T → Q → ℕ → ℕ → ℕ → Result (List T)
unfolding paginate_offset
pages_from b stmt per_page p zero = ok []
pages_from b stmt per_page p (suc many) =
    let rest = pages_from b stmt per_page (suc p) many in
    paginate_offset b stmt per_page (pos p) >>= λ r. rest >>= λ items. ok (r.items ++ items)

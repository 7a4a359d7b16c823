-- ===== src/Memory/Selection.antt =====
-- What `_rows` of fastapi_admin_kit/backends/memory.py selects, and in which order.
use fastapi_admin_kit.Base.{◌≡◌, refl, Bool, true, false, List, [], ◌∷◌, ◌++◌, arith}
use mathlib.Core.List.{Perm}
use mathlib.Core.Path.{subst}
use mathlib.Core.List.Perm
use fastapi_admin_kit.Base.Result.{ok, bind-eq-ok, keep_result}
use fastapi_admin_kit.Base.Dict.{lookup_or}
use fastapi_admin_kit.Base.Value.{Value, null, eq_value_comm, lt_value_asymm}
use fastapi_admin_kit.Base.Sort.{sort_by, sort_by-perm, sort_by-IsSorted, IsSorted}
use fastapi_admin_kit.Base.Text.{Unicode}
use fastapi_admin_kit.Memory.Query.{MemOrder, Condition, MemQuery}
use fastapi_admin_kit.Memory.Rows.{
  Record, satisfies, lt_sort_key, order_before, sort_orders, query_rows,
}

-- `Selected table kept`: of each row of the table in turn, the predicates were decided, and `kept`
-- has the rows for which they hold.
module _ (u : Unicode) (predicates : List Condition) where
  pub data Selected : List Record → List Record → Type 0 where
    done : Selected [] []
    hit :
        {r : Record} {rs kept : List Record}
        → satisfies u predicates r ≡ ok true
        → Selected rs kept
        → Selected (r ∷ rs) (r ∷ kept)
    miss :
        {r : Record} {rs kept : List Record}
        → satisfies u predicates r ≡ ok false
        → Selected rs kept
        → Selected (r ∷ rs) kept

  pub keep_result-Selected :
      (rows kept : List Record)
      → keep_result (satisfies u predicates) rows ≡ ok kept
      → Selected rows kept
  keep_result-Selected [] kept e = let h : [] ≡ kept = cc in rw (← h) done
  keep_result-Selected (r ∷ rs) kept e =
      let (b, p, e') = bind-eq-ok (satisfies u predicates r) _ e in
      let (ks, q, e'') = bind-eq-ok (keep_result (satisfies u predicates) rs) _ e' in
      go b ks p (keep_result-Selected rs ks q) e''
    where
      go :
          (b : Bool) (ks : List Record)
          → satisfies u predicates r ≡ ok b
          → Selected rs ks
          → ok (elim b [ true ↦ r ∷ ks | false ↦ ks ]) ≡ ok kept
          → Selected (r ∷ rs) kept
      go true ks p s h = let same : r ∷ ks ≡ kept = cc in rw (← same) (hit p s)
      go false ks p s h = let same : ks ≡ kept = cc in rw (← same) (miss p s)

  pub keep_result_of_Selected :
      {rows kept : List Record}
      → Selected rows kept
      → keep_result (satisfies u predicates) rows ≡ ok kept
  keep_result_of_Selected done = refl
  keep_result_of_Selected (hit p s) = rw (p, keep_result_of_Selected s)
  keep_result_of_Selected (miss p s) = rw (p, keep_result_of_Selected s)

lt_sort_key_asymm : (v w : Value) → lt_sort_key v w ≡ ok true → lt_sort_key w v ≡ ok false
unfolding lt_sort_key
lt_sort_key_asymm v w h = ground (arith, lt_value_asymm v w, eq_value_comm v w)

pub order_before_asymm :
    (o : MemOrder) (r s : Record) → order_before o r s ≡ ok true → order_before o s r ≡ ok false
unfolding order_before
order_before_asymm o r s h =
    let v = lookup_or o.name null r in
    let w = lookup_or o.name null s in ground (arith, lt_sort_key_asymm v w, lt_sort_key_asymm w v)

pub sort_orders-perm :
    (os : List MemOrder) (rows sorted : List Record)
    → sort_orders os rows ≡ ok sorted
    → Perm sorted rows
unfolding sort_orders
sort_orders-perm [] rows sorted e = let h : rows ≡ sorted = cc in rw h (Perm.refl sorted)
sort_orders-perm (o ∷ os) rows sorted e =
    let (mid, p, q) = bind-eq-ok (sort_by (order_before o) rows) (sort_orders os) e in
    Perm.trans (sort_orders-perm os mid sorted q) (sort_by-perm (order_before o) rows mid p)

sort_orders_last :
    (os : List MemOrder) (o : MemOrder) (rows sorted : List Record)
    → sort_orders (os ++ o ∷ []) rows ≡ ok sorted
    → IsSorted (order_before o) sorted
unfolding sort_orders
sort_orders_last [] o rows sorted e =
    let (mid, p, q) = bind-eq-ok (sort_by (order_before o) rows) ok e in
    let h : mid ≡ sorted = cc in
    rw (← h) (sort_by-IsSorted (order_before o) (order_before_asymm o) rows mid p)
sort_orders_last (o' ∷ os) o rows sorted e =
    let (mid, p, q) = bind-eq-ok (sort_by (order_before o') rows) (sort_orders (os ++ o ∷ [])) e in
    sort_orders_last os o mid sorted q

-- If `_rows` returns, the predicates were decided on every row of the table, and the result is a
-- rearrangement of exactly the rows for which all of them hold, each as often as it is stored.
pub query_rows-Selected :
    (u : Unicode) (q : MemQuery) (table rows : List Record)
    → query_rows u q table ≡ ok rows
    → (kept : List Record) × Selected u q.predicates table kept × Perm rows kept
unfolding query_rows
query_rows-Selected u q table rows e =
    let (kept, p, s) = bind-eq-ok (keep_result (satisfies u q.predicates) table) _ e in
    (kept, keep_result-Selected u q.predicates table kept p, sort_orders-perm q.orders kept rows s)

-- If `_rows` returns, the rows are in order by the last entry of `query.orders`: each row is not
-- strictly before the one in front of it.
pub query_rows-IsSorted :
    (u : Unicode) (q : MemQuery) (os : List MemOrder) (o : MemOrder) (table rows : List Record)
    → q.orders ≡ os ++ o ∷ []
    → query_rows u q table ≡ ok rows
    → IsSorted (order_before o) rows
unfolding query_rows
query_rows-IsSorted u q os o table rows last e =
    let (kept, p, s) = bind-eq-ok (keep_result (satisfies u q.predicates) table) _ e in
    sort_orders_last os o kept rows (subst (λ ps. sort_orders ps kept ≡ ok rows) last s)

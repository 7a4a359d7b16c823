-- ===== src/Memory/Totality.antt =====
-- Queries of fastapi_admin_kit/backends/memory.py that cannot raise.
use fastapi_admin_kit.Base.{
  ◌≡◌, refl, Bool, true, false, some, List, [], ◌∷◌, arith, All, if◌then◌else◌, inl, inr, ◌⊎◌,
  Bool-cases,
}
use fastapi_admin_kit.Base.Int.{ℤ, ltb_ℤ, leb_ℤ}
use fastapi_admin_kit.Base.Dict.{lookup_or}
use fastapi_admin_kit.Base.Result.{Result, ok, keep_result}
use fastapi_admin_kit.Base.Value.{Value, null, str, is_null, num_of, eq_value, lt_value, le_value}
use fastapi_admin_kit.Base.Sort.{sort_by_total}
use fastapi_admin_kit.Base.Text.{Unicode}
use fastapi_admin_kit.Memory.Query.{
  Test, eq, ne, gt, lt, ge, le, in_, ilike, other, Condition, expr, mem_bool, opaque, Conditions,
  nil, cons, MemOrder, MemQuery,
}
use fastapi_admin_kit.Memory.Match.{combine, matches_test, matches, matches_each}
use fastapi_admin_kit.Memory.Rows.{
  Record, satisfies, lt_sort_key, order_before, sort_orders, query_rows,
}

-- A value that is `None` or a number compares with every other such value.
abbrev pub IsNumeric : Value → Type 0
IsNumeric v = (v ≡ null) ⊎ ((n : ℤ) × (num_of v ≡ some n))

-- A test that no value makes raise: equality, membership, `ilike`, or an order against a number on a
-- column that holds numbers and `None`.
abbrev pub IsSafeTest : Value → Test → Type 0
IsSafeTest left (gt v) = IsNumeric left × ((n : ℤ) × (num_of v ≡ some n))
IsSafeTest left (lt v) = IsNumeric left × ((n : ℤ) × (num_of v ≡ some n))
IsSafeTest left (ge v) = IsNumeric left × ((n : ℤ) × (num_of v ≡ some n))
IsSafeTest left (le v) = IsNumeric left × ((n : ℤ) × (num_of v ≡ some n))
IsSafeTest left _ = Unit

abbrev mutual
  pub IsSafe : Record → Condition → Type 0
  IsSafe r (expr e) = IsSafeTest (lookup_or e.name null r) e.test
  IsSafe r (mem_bool k es) = AreSafe r es
  IsSafe r opaque = Unit

  pub AreSafe : Record → Conditions → Type 0
  AreSafe r nil = Unit
  AreSafe r (cons e es) = IsSafe r e × AreSafe r es

lt_value_num :
    (v w : Value) (m n : ℤ) → num_of v ≡ some m → num_of w ≡ some n → lt_value v w ≡ ok (ltb_ℤ m n)
unfolding lt_value
lt_value_num (str s) w m n p q = cc
lt_value_num null w m n p q = cc
lt_value_num v w m n p q = ground arith

le_value_num :
    (v w : Value) (m n : ℤ) → num_of v ≡ some m → num_of w ≡ some n → le_value v w ≡ ok (leb_ℤ m n)
unfolding le_value
le_value_num (str s) w m n p q = cc
le_value_num null w m n p q = cc
le_value_num v w m n p q = ground arith

module _ (u : Unicode) where
  ordered_total :
      (left : Value) (r : Result Bool)
      → ((n : ℤ) → num_of left ≡ some n → (b : Bool) × (r ≡ ok b))
      → IsNumeric left
      → (b : Bool) × ((if is_null left then ok false else r) ≡ ok b)
  ordered_total left r h (inl missing) = (false, rw missing)
  ordered_total left r h (inr (n, e)) = let (b, f) = h n e in go left b f
    where
      go :
          (v : Value) (b : Bool)
          → r ≡ ok b
          → (c : Bool) × ((if is_null v then ok false else r) ≡ ok c)
      go null b f = (false, refl)
      go v b f = (b, f)

  matches_test_total :
      (left : Value) (t : Test) → IsSafeTest left t → (b : Bool) × (matches_test u left t ≡ ok b)
  unfolding matches_test
  matches_test_total left (eq v) h = (_, refl)
  matches_test_total left (ne v) h = (_, refl)
  matches_test_total left (in_ vs) h = (_, refl)
  matches_test_total left other h = (_, refl)
  matches_test_total null (ilike v) h = (_, refl)
  matches_test_total left (ilike v) h = (_, refl)
  matches_test_total left (gt v) (numeric, (n, e)) =
      ordered_total left (lt_value v left) (λ m f. (_, lt_value_num v left n m e f)) numeric
  matches_test_total left (lt v) (numeric, (n, e)) =
      ordered_total left (lt_value left v) (λ m f. (_, lt_value_num left v m n f e)) numeric
  matches_test_total left (ge v) (numeric, (n, e)) =
      ordered_total left (le_value v left) (λ m f. (_, le_value_num v left n m e f)) numeric
  matches_test_total left (le v) (numeric, (n, e)) =
      ordered_total left (le_value left v) (λ m f. (_, le_value_num left v m n f e)) numeric

  mutual
    unfolding matches matches_each

    matches_total : (r : Record) (c : Condition) → IsSafe r c → (b : Bool) × (matches u r c ≡ ok b)
    matches_total r (expr e) h = matches_test_total (lookup_or e.name null r) e.test h
    matches_total r (mem_bool k es) h =
        let (bs, e) = matches_each_total r es h in (combine k bs, rw e)
    matches_total r opaque h = (true, refl)

    matches_each_total :
        (r : Record) (cs : Conditions)
        → AreSafe r cs
        → (bs : List Bool) × (matches_each u r cs ≡ ok bs)
    matches_each_total r nil h = ([], refl)
    matches_each_total r (cons c cs) (h, k) =
        let (b, e) = matches_total r c h in
        let (bs, f) = matches_each_total r cs k in (b ∷ bs, rw (e, f))

  satisfies_total :
      (cs : List Condition) (r : Record)
      → All (IsSafe r) cs
      → (b : Bool) × (satisfies u cs r ≡ ok b)
  satisfies_total [] r h = (true, refl)
  satisfies_total (c ∷ cs) r (h, k) =
      let (b, e) = matches_total r c h in let (b', e') = satisfies_total cs r k in go b b' e e'
    where
      go :
          (b b' : Bool)
          → matches u r c ≡ ok b
          → satisfies u cs r ≡ ok b'
          → (d : Bool) × (satisfies u (c ∷ cs) r ≡ ok d)
      go true b' e e' = (b', rw e e')
      go false b' e e' = (false, rw e)

  -- `P` is any property of rows that the selection keeps.
  keep_total :
      (P : Record → Type 0) (cs : List Condition) (rows : List Record)
      → All (λ r. All (IsSafe r) cs) rows
      → All P rows
      → (kept : List Record) × (keep_result (satisfies u cs) rows ≡ ok kept) × All P kept
  keep_total P cs [] h k = ([], refl, tt)
  keep_total P cs (r ∷ rs) (safe, h) (p, k) =
      let (b, e) = satisfies_total cs r safe in
      let (kept, f, q) = keep_total P cs rs h k in go b kept e f q
    where
      go :
          (b : Bool) (kept : List Record)
          → satisfies u cs r ≡ ok b
          → keep_result (satisfies u cs) rs ≡ ok kept
          → All P kept
          → (all : List Record) × (keep_result (satisfies u cs) (r ∷ rs) ≡ ok all) × All P all
      go true kept e f q = (r ∷ kept, rw (e, f), (p, q))
      go false kept e f q = (kept, rw (e, f), q)

is_null_of_num : (v : Value) (m : ℤ) → num_of v ≡ some m → is_null v ≡ false
is_null_of_num null m e = cc
is_null_of_num v m e = refl

lt_sort_key_total :
    (v w : Value) → IsNumeric v → IsNumeric w → (b : Bool) × (lt_sort_key v w ≡ ok b)
unfolding lt_sort_key
lt_sort_key_total v w (inl e) k = (false, rw e)
lt_sort_key_total v w (inr (m, e)) (inl f) = (true, ground (arith, is_null_of_num v m e))
lt_sort_key_total v w (inr (m, e)) (inr (n, f)) = elim (Bool-cases (eq_value v w)) [
  | inl same ↦ (false, ground (arith, is_null_of_num v m e, is_null_of_num w n f))
  | inr differ ↦ (
    ltb_ℤ m n,
    ground (arith, is_null_of_num v m e, is_null_of_num w n f, lt_value_num v w m n e f),
  )
]

-- The columns of the orders hold numbers and `None`.
abbrev pub IsSortable : List MemOrder → Record → Type 0
IsSortable os r = All (λ o. IsNumeric (lookup_or o.name null r)) os

order_before_total :
    (o : MemOrder) (r s : Record)
    → IsNumeric (lookup_or o.name null r)
    → IsNumeric (lookup_or o.name null s)
    → (b : Bool) × (order_before o r s ≡ ok b)
unfolding order_before
order_before_total o r s p q = go o.desc refl
  where
    go : (d : Bool) → o.desc ≡ d → (b : Bool) × (order_before o r s ≡ ok b)
    go true e = let (b, f) = lt_sort_key_total _ _ q p in (b, rw (e, f))
    go false e = let (b, f) = lt_sort_key_total _ _ p q in (b, rw (e, f))

All-map {ℓ κ λ'} :
    {A : Type ℓ} (P : A → Type κ) (Q : A → Type λ') (xs : List A)
    → ((x : A) → P x → Q x)
    → All P xs
    → All Q xs
All-map P Q [] f h = tt
All-map P Q (x ∷ xs) f (p, h) = (f x p, All-map P Q xs f h)

sort_orders_total :
    (os : List MemOrder) (rows : List Record)
    → All (IsSortable os) rows
    → (sorted : List Record) × (sort_orders os rows ≡ ok sorted)
unfolding sort_orders
sort_orders_total [] rows h = (rows, refl)
sort_orders_total (o ∷ os) rows h =
    let (mid, e, k) =
      sort_by_total (order_before o) (IsSortable (o ∷ os))
        (λ r s p q. order_before_total o r s p.0 q.0) rows h in
    let (sorted, f) =
      sort_orders_total os mid (All-map (IsSortable (o ∷ os)) (IsSortable os) mid (λ r p. p.1) k) in
    (sorted, rw e f)

-- A query returns its rows, and raises nothing, if its predicates are built by `and` and `or` from
-- equalities, memberships, `ilike`s and orders against numbers on columns that hold numbers and
-- `None`, and if the columns that it sorts by hold numbers and `None`.
pub query_rows_total :
    (u : Unicode) (q : MemQuery) (table : List Record)
    → All (λ r. All (IsSafe r) q.predicates) table
    → All (IsSortable q.orders) table
    → (rows : List Record) × (query_rows u q table ≡ ok rows)
unfolding query_rows
query_rows_total u q table safe sortable =
    let (kept, e, k) = keep_total u (IsSortable q.orders) q.predicates table safe sortable in
    let (rows, f) = sort_orders_total q.orders kept k in (rows, rw e f)

-- ===== src/Memory/Rows.antt =====
-- The rows that a query selects: `_sort_key`, the list part of `_rows`, `_next_id` and
-- `_pk_field_name` of fastapi_admin_kit/backends/memory.py.
use fastapi_admin_kit.Base.{
  suc, ◌-◌, String, Bool, true, false, Option, none, some, List, [], ◌∷◌, if◌then◌else◌, length,
  take, drop,
}
use fastapi_admin_kit.Base.Int.{ℤ, pos, negsuc, ◌+ℤ◌}
use fastapi_admin_kit.Base.Dict.{Dict, lookup_or, contains}
use fastapi_admin_kit.Base.Result.{Result, ok, err, type_error, ◌>>=◌, all_result, keep_result}
use fastapi_admin_kit.Base.Value.{Value, null, int, is_null, num_of, eq_value, lt_value}
use fastapi_admin_kit.Base.Sort.{sort_by}
use fastapi_admin_kit.Base.Text.{Unicode}
use fastapi_admin_kit.Schema.{get_pk_field}
use fastapi_admin_kit.Memory.Query.{MemOrder, Model, Condition, MemQuery}
use fastapi_admin_kit.Memory.Match.{matches}

abbrev pub Record : Type 0
Record = Dict Value

-- `<` on the tuples `(value is None, value)`: the second parts are compared if the first agree, and
-- then only if they differ.
unfoldable pub lt_sort_key : Value → Value → Result Bool
lt_sort_key v w = elim (is_null v) [
  | true ↦ ok false
  | false ↦ elim (is_null w) [
    | true ↦ ok true
    | false ↦ elim (eq_value v w) [ true ↦ ok false | false ↦ lt_value v w ]
  ]
]

-- Whether `sort(key=…, reverse=order.desc)` puts `r` strictly in front of `s`. A reversed sort keeps
-- the order of equal rows.
unfoldable pub order_before : MemOrder → Record → Record → Result Bool
unfolding lt_sort_key
order_before o r s =
    let v = lookup_or o.name null r in
    let w = lookup_or o.name null s in
    elim o.desc [ true ↦ lt_sort_key w v | false ↦ lt_sort_key v w ]

-- The loop over `query.orders`.
unfoldable pub sort_orders : List MemOrder → List Record → Result (List Record)
unfolding order_before
sort_orders [] rows = ok rows
sort_orders (o ∷ os) rows = sort_by (order_before o) rows >>= sort_orders os

module _ (u : Unicode) where
  -- `all(_matches(r, p) for p in predicates)`
  abbrev pub satisfies : List Condition → Record → Result Bool
  satisfies predicates r = all_result (matches u r) predicates

  unfoldable pub query_rows : MemQuery → List Record → Result (List Record)
  unfolding sort_orders
  query_rows q table = keep_result (satisfies q.predicates) table >>= sort_orders q.orders

module _ {ℓ} {A : Type ℓ} where
  -- `rows[n:]`
  abbrev pub slice_from : ℤ → List A → List A
  slice_from (pos n) rows = drop n rows
  slice_from (negsuc n) rows = drop (length rows - suc n) rows

  -- `rows[:n]`
  abbrev pub slice_to : ℤ → List A → List A
  slice_to (pos n) rows = take n rows
  slice_to (negsuc n) rows = take (length rows - suc n) rows

  -- `if query.offset: rows = rows[query.offset:]`
  abbrev pub apply_offset : Option ℤ → List A → List A
  apply_offset none rows = rows
  apply_offset (some n) rows = slice_from n rows

  abbrev pub apply_limit : Option ℤ → List A → List A
  apply_limit none rows = rows
  apply_limit (some n) rows = slice_to n rows

unfoldable pub page_of : MemQuery → List Record → List Record
page_of q rows = apply_limit q.limit (apply_offset q.offset rows)

-- `max(items)` over a non-empty list, from its first item.
unfoldable pub max_from : Value → List Record → Result Value
max_from best [] = ok best
max_from best (r ∷ rs) =
    let v = lookup_or "id" (int (pos 0)) r in
    lt_value best v >>= λ greater. max_from (elim greater [ true ↦ v | false ↦ best ]) rs

abbrev pub add_one : Option ℤ → Result Value
add_one (some n) = ok (int (n +ℤ pos 1))
add_one none = err type_error

-- The primary key of the store's ids, whatever the model calls its own key.
unfoldable pub next_id : List Record → Result Value
unfolding max_from
next_id [] = ok (int (pos 1))
next_id (r ∷ rs) = max_from (lookup_or "id" (int (pos 0)) r) rs >>= λ best. add_one (num_of best)

-- The first of "id" and "pk" that a class without a schema has.
unfoldable pub pk_field_name : Model → Option String
unfolding get_pk_field
pk_field_name m = elim m.schema [
  | some s ↦ elim (get_pk_field s) [ some f ↦ some f.name | none ↦ none ]
  | none ↦
      if contains "id" m.columns
      then some "id"
      else if contains "pk" m.columns
      then some "pk"
      else none
]

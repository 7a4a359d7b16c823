-- ===== src/Memory/Session.antt =====
-- `MemorySessionBackend` and `MemResult` of fastapi_admin_kit/backends/memory.py.
use fastapi_admin_kit.Base.{
  ℕ, String, Bool, true, false, not, ◌&&◌, Option, none, some, List, [], ◌∷◌, ◌++◌, map,
  if◌then◌else◌, length, find, is_truthy,
}
use fastapi_admin_kit.Base.Dict.{Dict, lookup_or, set_default, insert}
use fastapi_admin_kit.Base.Result.{Result, ok, err, value_error, map_result}
use fastapi_admin_kit.Base.Value.{Value, null, is_null, eq_value}
use fastapi_admin_kit.Base.Text.{Unicode}
use fastapi_admin_kit.Memory.Query.{Model, Obj, MemQuery}
use fastapi_admin_kit.Memory.Rows.{Record, query_rows, page_of, next_id, pk_field_name}
use fastapi_admin_kit.Memory.Action.{Store, Action, pure, raise, lift, ◌>>=◌}

-- `_table`: the name of the table, whose list `setdefault` has put into the store.
unfoldable pub named_table : Option String → Action String
named_table none s = raise value_error s
named_table (some name) s = (ok name, set_default name [] s)

unfoldable pub table_name : Model → Action String
unfolding named_table
table_name m = named_table m.tablename

abbrev pub table_of : String → Store → List Record
table_of name s = lookup_or name [] s

-- `setattr` of each item, on a fresh `__dict__`.
abbrev pub set_all : Record → Dict Value → Dict Value
set_all [] attrs = attrs
set_all ((k, v) ∷ r) attrs = set_all r (insert k v attrs)

unfoldable pub reconstruct : Model → Record → Obj
reconstruct m r = record { model = m; attrs = set_all r [] }

-- `r.get(pk_field)`, where the key may be `None`.
abbrev pub row_pk : Option String → Record → Value
row_pk none r = null
row_pk (some f) r = lookup_or f null r

abbrev pub is_named : Option String → Bool
is_named none = false
is_named (some f) = is_truthy f

-- A key that is missing is taken from `_next_id` and written to the record.
unfoldable pub assign_pk : Option String → List Record → Record → Result Record
assign_pk none rows r = ok r
assign_pk (some f) rows r =
    if is_truthy f && is_null (lookup_or f null r)
    then map_result (λ n. insert f n r) (next_id rows)
    else ok r

abbrev pub replace_first : (Record → Bool) → Record → List Record → List Record
replace_first p new [] = []
replace_first p new (r ∷ rs) = elim (p r) [ true ↦ new ∷ rs | false ↦ r ∷ replace_first p new rs ]

abbrev pub has_pk : Option String → Value → Record → Bool
has_pk f v r = eq_value (row_pk f r) v

-- The record takes the place of the first with its key, or goes to the end.
unfoldable pub put_record : Option String → Record → List Record → List Record
put_record f r rows =
    if is_named f && not (is_null (row_pk f r))
    then (elim (find (has_pk f (row_pk f r)) rows) [
      | some _ ↦ replace_first (has_pk f (row_pk f r)) r rows
      | none ↦ rows ++ r ∷ []
    ])
    else (rows ++ r ∷ [])

-- `add` once the table and the name of its key are known. The object's key is written back.
unfoldable pub add_to : String → Option String → Obj → Action Obj
add_to name f obj s = elim (assign_pk f (table_of name s) obj.attrs) [
  | ok r ↦ (ok (record obj { attrs = r }), insert name (put_record f r (table_of name s)) s)
  | err e ↦ (err e, s)
]

unfoldable pub add : Obj → Action Obj
unfolding add_to
add obj = table_name obj.model >>= λ name. add_to name (pk_field_name obj.model) obj

-- `flush`, `commit`, `rollback`, `close` and `refresh` do nothing.
unfoldable pub commit : Action (Unit {0})
commit = pure tt

abbrev pub delete_first : (Record → Bool) → List Record → List Record
delete_first p [] = []
delete_first p (r ∷ rs) = elim (p r) [ true ↦ rs | false ↦ r ∷ delete_first p rs ]

-- The test of the loop in `delete`: an object without a key matches the first row.
abbrev pub is_deleted : Option String → Value → Record → Bool
is_deleted f pk r = if is_null pk then true else has_pk f pk r

unfoldable pub delete_from : String → Option String → Obj → Action (Unit {0})
delete_from name f obj s =
    let pk = if is_named f then row_pk f obj.attrs else null in
    (ok tt, insert name (delete_first (is_deleted f pk) (table_of name s)) s)

unfoldable pub delete : Obj → Action (Unit {0})
unfolding delete_from
delete obj = table_name obj.model >>= λ name. delete_from name (pk_field_name obj.model) obj

-- The object that a row is turned into, if there is one.
abbrev pub found_obj : Model → Option Record → Option Obj
found_obj m none = none
found_obj m (some r) = some (reconstruct m r)

unfoldable pub get : Model → Value → Action (Option Obj)
get m pk = do
  name ← table_name m
  λ s. (ok (found_obj m (find (has_pk (pk_field_name m) pk) (table_of name s))), s)

-- What `scalar` returns: the number of rows, an object, or `None`.
pub data Scalar : Type 0 where
  number : ℕ → Scalar
  object : Obj → Scalar
  nothing : Scalar

abbrev pub first_of_rows : Model → List Record → Option Obj
first_of_rows m [] = none
first_of_rows m (r ∷ rs) = some (reconstruct m r)

abbrev pub head_obj : List Obj → Option Obj
head_obj [] = none
head_obj (o ∷ os) = some o

abbrev pub to_scalar : Option Obj → Scalar
to_scalar none = nothing
to_scalar (some o) = object o

abbrev pub require_obj : Option Obj → Action Obj
require_obj none = raise value_error
require_obj (some o) = pure o

module _ (u : Unicode) where
  -- `_rows`
  unfoldable pub rows_of : MemQuery → Action (List Record)
  unfolding table_name query_rows
  rows_of q = do name ← table_name q.model; λ s. lift (query_rows u q (table_of name s)) s

  -- `all`, and `rows`, which calls it.
  unfoldable pub all_objs : MemQuery → Action (List Obj)
  unfolding rows_of page_of reconstruct
  all_objs q = do rows ← rows_of q; pure (map (reconstruct q.model) (page_of q rows))

  unfoldable pub first : MemQuery → Action (Option Obj)
  unfolding all_objs
  first q = do objs ← all_objs q; pure (head_obj objs)

  unfoldable pub scalar : MemQuery → Action Scalar
  unfolding rows_of reconstruct
  scalar q = do
    rows ← rows_of q
    pure (if q.is_count then number (length rows) else to_scalar (first_of_rows q.model rows))

  unfoldable pub scalar_one : MemQuery → Action Obj
  unfolding rows_of reconstruct
  scalar_one q = do rows ← rows_of q; require_obj (first_of_rows q.model rows)

  unfoldable pub scalar_one_or_none : MemQuery → Action (Option Obj)
  unfolding rows_of reconstruct
  scalar_one_or_none q = do rows ← rows_of q; pure (first_of_rows q.model rows)

  unfoldable pub count : MemQuery → Action ℕ
  unfolding rows_of
  count q = do rows ← rows_of q; pure (length rows)

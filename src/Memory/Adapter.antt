-- ===== src/Memory/Adapter.antt =====
-- `MemoryQueryAdapter` of fastapi_admin_kit/backends/memory.py. Its methods change the query that
-- they are given and return it: a method here returns the changed query, with which the caller goes
-- on.
use fastapi_admin_kit.Base.{true, false, none, some, List, [], ◌∷◌, ◌++◌}
use fastapi_admin_kit.Base.Int.{ℤ}
use fastapi_admin_kit.Memory.Query.{
  Model, MemQuery, OrderArg, order, column, name, ignored, Condition, mem_bool, and_kind, or_kind,
  to_conditions,
}

unfoldable pub select : Model → MemQuery
select m = record {
  model = m;
  predicates = [];
  orders = [];
  limit = none;
  offset = none;
  is_count = false;
}

unfoldable pub where_ : MemQuery → List Condition → MemQuery
where_ q conditions = record q { predicates = q.predicates ++ conditions }

unfoldable pub order_by : MemQuery → List OrderArg → MemQuery
order_by q [] = q
order_by q (order o ∷ cols) = order_by (record q { orders = q.orders ++ o ∷ [] }) cols
order_by q (column c ∷ cols) =
    order_by (record q { orders = q.orders ++ record { name = c.name; desc = false } ∷ [] }) cols
order_by q (name s ∷ cols) =
    order_by (record q { orders = q.orders ++ record { name = s; desc = false } ∷ [] }) cols
order_by q (ignored ∷ cols) = order_by q cols

unfoldable pub limit : MemQuery → ℤ → MemQuery
limit q n = record q { limit = some n }

unfoldable pub offset : MemQuery → ℤ → MemQuery
offset q n = record q { offset = some n }

-- `join` and `options` take arguments that the backend does not read.
unfoldable pub join : MemQuery → MemQuery
join q = q

unfoldable pub distinct : MemQuery → MemQuery
distinct q = q

unfoldable pub count : MemQuery → MemQuery
count q = record q { is_count = true }

unfoldable pub options : MemQuery → MemQuery
options q = q

unfoldable pub or_ : List Condition → Condition
or_ clauses = mem_bool or_kind (to_conditions clauses)

unfoldable pub and_ : List Condition → Condition
and_ clauses = mem_bool and_kind (to_conditions clauses)

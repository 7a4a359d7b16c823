-- ===== src/Memory/Column.antt =====
-- The methods of `MemColumn` in fastapi_admin_kit/backends/memory.py. The comparison methods
-- (`__eq__` and so on) differ in their operator alone, which `compare` takes.
use fastapi_admin_kit.Base.{true, none, some, List}
use fastapi_admin_kit.Base.Dict.{lookup, insert}
use fastapi_admin_kit.Base.Value.{Value, null}
use fastapi_admin_kit.Memory.Query.{MemColumn, Obj, Test, in_, ilike, MemExpr, MemOrder}

-- `__get__` on an instance and `__set__`.
unfoldable pub get : MemColumn → Obj → Value
get c obj = elim (lookup c.name obj.attrs) [ some v ↦ v | none ↦ null ]

unfoldable pub set : MemColumn → Obj → Value → Obj
set c obj value = record obj { attrs = insert c.name value obj.attrs }

unfoldable pub compare : MemColumn → (Value → Test) → Value → MemExpr
compare c op other = record { name = c.name; test = op other }

unfoldable pub in_values : MemColumn → List Value → MemExpr
in_values c values = record { name = c.name; test = in_ values }

unfoldable pub ilike_pattern : MemColumn → Value → MemExpr
ilike_pattern c pattern = record { name = c.name; test = ilike pattern }

unfoldable pub descending : MemColumn → MemOrder
descending c = record { name = c.name; desc = true }

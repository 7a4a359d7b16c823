-- ===== src/Memory/Ids.antt =====
-- The keys that `_next_id` of fastapi_admin_kit/backends/memory.py hands out.
use fastapi_admin_kit.Base.{◌≡◌, List, All}
use fastapi_admin_kit.Base.Int.{ℤ, pos, ◌≤ℤ◌}
use fastapi_admin_kit.Base.Dict.{Dict, lookup_or}
use fastapi_admin_kit.Base.Value.{Value, int}
use fastapi_admin_kit.Memory.Rows.{Record}

abbrev pub id_of : Record → Value
id_of r = lookup_or "id" (int (pos 0)) r

-- The id of every row, where it has one, is an integer.
abbrev pub HasIntIds : List Record → Type 0
HasIntIds rows = All (λ r. (n : ℤ) × (id_of r ≡ int n)) rows

abbrev IdsAtMost : ℤ → List Record → Type 0
IdsAtMost m rows = All (λ r. (n : ℤ) × (id_of r ≡ int n) × (n ≤ℤ m)) rows

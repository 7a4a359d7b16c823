-- ===== src/Memory/Tests.antt =====
-- The theorems on the memory backend at concrete inputs, and runs of it.
use mathlib.Core.List.{Perm}
use fastapi_admin_kit.Base.{◌≡◌, ◌≢◌, refl, true, false, none, some, List, [], ◌∷◌, ◌↔◌, codes, inr}
use fastapi_admin_kit.Base.Int.{pos}
use fastapi_admin_kit.Base.Dict.{Dict}
use fastapi_admin_kit.Base.Result.{ok}
use fastapi_admin_kit.Base.Sort.{IsSorted, sort_by}
use fastapi_admin_kit.Base.Value.{Value, int, str, eq_value}
use fastapi_admin_kit.Fixtures.{ascii, product, pear, fig, plum}
use fastapi_admin_kit.Memory.Query.{
  MemQuery, MemOrder, Condition, expr, mem_bool, or_kind, cons, nil, eq, ilike,
}
use fastapi_admin_kit.Memory.Match.{matches, matches_test, matches_ilike}
use fastapi_admin_kit.Memory.Rows.{Record, order_before, query_rows, pk_field_name}
use fastapi_admin_kit.Memory.Action.{Store}
use fastapi_admin_kit.Memory.Session.{table_of, add, delete, get}
use fastapi_admin_kit.Memory.Selection.{Selected, query_rows-Selected, query_rows-IsSorted}
use fastapi_admin_kit.Memory.Search.{like, matches_ilike_iff}
use fastapi_admin_kit.Memory.Keys.{HasDistinctKeys}
use fastapi_admin_kit.Memory.Crud.{instance_of, get-add, delete-HasNoKey, delete_unsaved}
use fastapi_admin_kit.Memory.Totality.{query_rows_total}
use fastapi_admin_kit.Memory.Database.{SeedRole, role_table, perm_table, junction_table, seed_roles}
use fastapi_admin_kit.Memory.Seeding.{
  Holds, role_rows, all_perm_rows, all_link_rows, seed_roles-Holds,
}

abbrev name_has_p_or_first : Condition
name_has_p_or_first = mem_bool or_kind (
    cons (expr (record { name = "name"; test = ilike (str "%P%") }))
      (cons (expr (record { name = "id"; test = eq (int (pos 2)) })) nil))

abbrev by_id_down : MemOrder
by_id_down = record { name = "id"; desc = true }

abbrev by_name : MemOrder
by_name = record { name = "name"; desc = false }

abbrev search : MemQuery
search = record {
  model = product;
  predicates = name_has_p_or_first ∷ [];
  orders = by_name ∷ by_id_down ∷ [];
  limit = none;
  offset = none;
  is_count = false;
}

abbrev stored : List Record
stored = pear ∷ fig ∷ plum ∷ []

search_runs : query_rows ascii search stored ≡ ok (fig ∷ pear ∷ [])
unfolding query_rows matches matches_test sort_by
search_runs = refl

query_rows-Selected_example :
    (kept : List Record) × Selected ascii (name_has_p_or_first ∷ []) stored kept
    × Perm (fig ∷ pear ∷ []) kept
query_rows-Selected_example = query_rows-Selected ascii search stored (fig ∷ pear ∷ []) search_runs

query_rows-IsSorted_example : IsSorted (order_before by_id_down) (fig ∷ pear ∷ [])
query_rows-IsSorted_example =
    query_rows-IsSorted ascii search (by_name ∷ []) by_id_down stored (fig ∷ pear ∷ []) refl
      search_runs

abbrev search_by_id : MemQuery
search_by_id = record search { orders = by_id_down ∷ [] }

query_rows_total_example : (rows : List Record) × (query_rows ascii search_by_id stored ≡ ok rows)
query_rows_total_example =
    query_rows_total ascii search_by_id stored
      (((tt, (tt, tt)), tt), (((tt, (tt, tt)), tt), (((tt, (tt, tt)), tt), tt)))
      ((inr (pos 1, refl), tt), ((inr (pos 2, refl), tt), ((inr (pos 3, refl), tt), tt)))

matches_ilike_iff_example :
    (matches_ilike (codes "%ea%") (codes "pear") ≡ true)
    ↔ (like (codes "%ea%") (codes "pear") ≡ true)
matches_ilike_iff_example = matches_ilike_iff b'e' (b'a' ∷ []) refl true true (codes "pear")

abbrev shop : Store
shop = ("products", stored) ∷ []

abbrev new_fig : Dict Value
new_fig = ("id", int (pos 2)) ∷ ("name", str "Green fig") ∷ []

get-add_example :
    ((get product (int (pos 2)) (add (instance_of product new_fig) shop).1).0
      ≡ ok (some (instance_of product new_fig)))
    × ((w : Value)
        → eq_value (int (pos 2)) w ≡ false
        → (get product w (add (instance_of product new_fig) shop).1).0 ≡ (get product w shop).0)
unfolding pk_field_name
get-add_example =
    get-add product "products" "id" refl refl refl new_fig shop refl (refl, (refl, tt))

delete-HasNoKey_example :
    HasDistinctKeys "id" (table_of "products" (add (instance_of product new_fig) shop).1)
    × HasDistinctKeys "id" (table_of "products" (delete (instance_of product new_fig) shop).1)
    × ((get product (int (pos 2)) (delete (instance_of product new_fig) shop).1).0 ≡ ok none)
    × ((w : Value)
        → eq_value (int (pos 2)) w ≡ false
        → (get product w (delete (instance_of product new_fig) shop).1).0 ≡ (get product w shop).0)
unfolding pk_field_name eq_value
delete-HasNoKey_example =
    delete-HasNoKey product "products" "id" refl refl refl new_fig shop refl
      (refl, (refl, (refl, tt)))

abbrev unsaved : Dict Value
unsaved = ("name", str "Quince") ∷ []

first_row_deleted :
    table_of "products" (delete (instance_of product unsaved) shop).1 ≡ fig ∷ plum ∷ []
unfolding pk_field_name
first_row_deleted =
    delete_unsaved product "products" "id" refl refl refl unsaved shop pear (fig ∷ plum ∷ []) refl
      refl

abbrev admins : SeedRole
admins = record {
  name = "Admins";
  description = "All tables";
  permissions =
      ("products", ("view", true) ∷ ("edit", true) ∷ []) ∷ ("tickets", ("view", true) ∷ []) ∷ [];
}

abbrev guests : SeedRole
guests = record {
  name = "Guests";
  description = "";
  permissions = ("products", ("view", true) ∷ []) ∷ [];
}

abbrev seeded : List SeedRole
seeded = admins ∷ guests ∷ []

abbrev old_roles : Store
old_roles = (role_table, pear ∷ []) ∷ (perm_table, []) ∷ (junction_table, []) ∷ []

seed_roles-Holds_example :
    ((s : Store) × (seed_roles seeded true old_roles ≡ (ok tt, s))
      × Holds s (role_rows 1 seeded) (all_perm_rows 1 seeded) (all_link_rows 1 1 seeded))
    × (pear ∷ [] ≢ [] → seed_roles seeded false old_roles ≡ (ok tt, old_roles))
seed_roles-Holds_example = seed_roles-Holds seeded old_roles refl refl refl

-- ===== src/Pagination.antt =====
-- The pagination strategies of fastapi_admin_kit/pagination/: the result (base.py), and what they ask
-- of a query backend. `QueryBackend` stands for the adapter with its session, or, where the adapter is
-- `None`, for the same calls on the statement itself.
pub mod Offset
pub mod Cursor
pub mod Dynamic
pub mod Pages
pub mod Walk
pub mod Stored
pub mod Keyed
pub mod Choice
mod Tests
use fastapi_admin_kit.Base.{ℕ, ◌≡◌, String, Bool, Option, List, take, drop, keep, ltb, length}
use fastapi_admin_kit.Base.Int.{ℤ, pos}
use fastapi_admin_kit.Base.Result.{Result, ok}
use fastapi_admin_kit.Base.Value.{Value, int}

pub record PaginationResult (T : Type 0) : Type 0 where
  pub items : List T
  pub total : ℕ
  pub per_page : ℕ
  pub page : Option ℕ
  pub total_pages : Option ℕ
  pub next_cursor : Option String
  pub has_next : Bool
  pub mode : String

-- Statements `Q`, columns `C` and instances `T`. An adapter may change the statement that it is given
-- (the memory backend does): `count` returns the statement that counts, and the one that the caller
-- goes on with.
pub record QueryBackend (Q C T : Type 0) : Type 0 where
  pub count : Q → Q × Q
  pub offset : Q → ℤ → Q
  pub limit : Q → ℤ → Q
  pub where_greater : Q → C → Value → Q
  pub where_less : Q → C → Value → Q
  pub order_down : Q → C → Result Q
  pub run_count : Q → Result ℕ
  pub run_all : Q → Result (List T)
  pub get_attribute : T → String → Result Value

-- What the strategies rely on for the statements that are open, which a limit or an offset was not put
-- on before: `rows` are those that a statement selects.
pub record BackendLaws {Q C T : Type 0} (b : QueryBackend Q C T) (rows : Q → List T)
    (IsOpen : Q → Type 0) : Type 0 where
  pub run_count_lem : (q : Q) → IsOpen q → b.run_count (b.count q).0 ≡ ok (length (rows q))
  pub count-IsOpen : (q : Q) → IsOpen q → IsOpen (b.count q).1
  pub rows_count : (q : Q) → IsOpen q → rows (b.count q).1 ≡ rows q
  pub run_all_limit :
      (q : Q) (n : ℕ) → IsOpen q → b.run_all (b.limit q (pos n)) ≡ ok (take n (rows q))
  pub run_all_page :
      (q : Q) (m n : ℕ)
      → IsOpen q
      → b.run_all (b.limit (b.offset q (pos m)) (pos n)) ≡ ok (take n (drop m (rows q)))

-- ===== src/Pagination/Stored.antt =====
-- The strategies of fastapi_admin_kit/pagination/ over the in-memory backend, `MemoryQueryAdapter` and
-- `MemorySessionBackend` of fastapi_admin_kit/backends/memory.py. A read adds at most an empty table to
-- the store, which is therefore a parameter.
use fastapi_admin_kit.Base.{
  ℕ, zero, suc, String, none, some, List, [], ◌∷◌, map, take, drop, length, ◌≡◌, refl, sym, ap, ◌∙◌,
}
use fastapi_admin_kit.Base.Int.{pos}
use fastapi_admin_kit.Base.Dict.{lookup, set_default}
use fastapi_admin_kit.Base.Result.{Result, ok, err, attribute_error}
use fastapi_admin_kit.Base.Text.{Unicode}
use fastapi_admin_kit.Base.Value.{Value}
use fastapi_admin_kit.Memory.Query.{Obj, MemColumn, MemQuery, expr, gt, lt}
use fastapi_admin_kit.Memory.Column
use fastapi_admin_kit.Memory.Adapter
use fastapi_admin_kit.Memory.Rows.{Record, query_rows, page_of, apply_offset}
use fastapi_admin_kit.Memory.Action.{Store, >>=_of_ok}
use fastapi_admin_kit.Memory.Session
use fastapi_admin_kit.Memory.Session.{
  named_table, table_name, table_of, set_all, reconstruct, rows_of, all_objs,
}
use fastapi_admin_kit.Memory.Crud.{table_of-set_default}
use fastapi_admin_kit.Pagination.{QueryBackend, BackendLaws}

-- `getattr(obj, name)`: a column descriptor of the class goes before the `__dict__`.
unfoldable pub attribute_of : Obj → String → Result Value
unfolding Column.get
attribute_of obj name = elim (lookup name obj.model.columns) [
  | some c ↦ ok (Column.get c obj)
  | none ↦ elim (lookup name obj.attrs) [ some v ↦ ok v | none ↦ err attribute_error ]
]

module _ (u : Unicode) (s : Store) where
  -- A column of this backend has no attribute `key`, which the descending order asks for.
  unfoldable pub memory_backend : QueryBackend MemQuery MemColumn Obj
  unfolding Column.compare Adapter.where_ Adapter.count Adapter.limit Adapter.offset all_objs
      Session.count attribute_of
  memory_backend = record {
    count = λ q. (Adapter.count q, Adapter.count q);
    offset = Adapter.offset;
    limit = Adapter.limit;
    where_greater = λ q c v. Adapter.where_ q (expr (Column.compare c gt v) ∷ []);
    where_less = λ q c v. Adapter.where_ q (expr (Column.compare c lt v) ∷ []);
    order_down = λ q c. err attribute_error;
    run_count = λ q. (Session.count u q s).0;
    run_all = λ q. (all_objs u q s).0;
    get_attribute = attribute_of;
  }

  abbrev objs_or_none : Result (List Obj) → List Obj
  objs_or_none (ok objs) = objs
  objs_or_none (err e) = []

  -- What the session gives for the statement itself.
  unfoldable pub memory_rows : MemQuery → List Obj
  memory_rows q = objs_or_none (all_objs u q s).0

  -- Neither a limit nor an offset, a table, and predicates and a sort that do not raise.
  pub record IsOpen (q : MemQuery) : Type 0 where
    pub no_limit : q.limit ≡ none
    pub no_offset : q.offset ≡ none
    pub name : String
    pub tabled : q.model.tablename ≡ some name
    pub found : List Record
    pub selected : query_rows u q (table_of name s) ≡ ok found

  rows_of_lem :
      (q : MemQuery) (name : String) (found : List Record)
      → q.model.tablename ≡ some name
      → query_rows u q (table_of name s) ≡ ok found
      → rows_of u q s ≡ (ok found, set_default name [] s)
  unfolding rows_of table_name
  rows_of_lem q name found tabled e =
      >>=_of_ok (table_name q.model) (λ t x. (query_rows u q (table_of t x), x)) s
        (set_default name [] s) name (ap (λ t. named_table t s) tabled)
      ∙ ap (λ r. (r, set_default name [] s)) (ap (query_rows u q) (table_of-set_default name s) ∙ e)

  all_objs_lem :
      (q : MemQuery) (name : String) (found : List Record)
      → q.model.tablename ≡ some name
      → query_rows u q (table_of name s) ≡ ok found
      → (all_objs u q s).0 ≡ ok (map (reconstruct q.model) (page_of q found))
  unfolding all_objs
  all_objs_lem q name found tabled e =
      ap (λ r. r.0)
        (>>=_of_ok (rows_of u q) (λ rows x. (ok (map (reconstruct q.model) (page_of q rows)), x)) s
          (set_default name [] s) found (rows_of_lem q name found tabled e))

  count_lem :
      (q : MemQuery) (name : String) (found : List Record)
      → q.model.tablename ≡ some name
      → query_rows u q (table_of name s) ≡ ok found
      → (Session.count u q s).0 ≡ ok (length found)
  unfolding Session.count
  count_lem q name found tabled e =
      ap (λ r. r.0)
        (>>=_of_ok (rows_of u q) (λ rows x. (ok (length rows), x)) s (set_default name [] s) found
          (rows_of_lem q name found tabled e))

  pub memory_rows_lem :
      (q : MemQuery) (o : IsOpen q) → memory_rows q ≡ map (reconstruct q.model) o.found
  unfolding memory_rows page_of
  memory_rows_lem q o =
      ap objs_or_none (all_objs_lem q o.name o.found o.tabled o.selected)
      ∙ rw (o.no_limit, o.no_offset) refl

  length-map : {A B : Type 0} (f : A → B) (xs : List A) → length (map f xs) ≡ length xs
  length-map f [] = refl
  length-map f (x ∷ xs) = ap suc (length-map f xs)

  take-map :
      {A B : Type 0} (f : A → B) (n : ℕ) (xs : List A) → map f (take n xs) ≡ take n (map f xs)
  take-map f zero xs = refl
  take-map f (suc n) [] = refl
  take-map f (suc n) (x ∷ xs) = ap (◌∷◌ (f x)) (take-map f n xs)

  drop-map :
      {A B : Type 0} (f : A → B) (n : ℕ) (xs : List A) → map f (drop n xs) ≡ drop n (map f xs)
  drop-map f zero xs = refl
  drop-map f (suc n) [] = refl
  drop-map f (suc n) (x ∷ xs) = drop-map f n xs

  unfoldable pub count-IsOpen : (q : MemQuery) → IsOpen q → IsOpen (Adapter.count q)
  unfolding Adapter.count query_rows
  count-IsOpen q o = record {
    no_limit = o.no_limit;
    no_offset = o.no_offset;
    name = o.name;
    tabled = o.tabled;
    found = o.found;
    selected = o.selected;
  }

  memory_rows-count : (q : MemQuery) → memory_rows (Adapter.count q) ≡ memory_rows q
  unfolding memory_rows all_objs rows_of query_rows page_of Adapter.count
  memory_rows-count q = refl

  -- The memory backend keeps the laws for its open statements, and for any part of them that counting
  -- does not lead out of.
  pub memory_laws :
      (P : MemQuery → Type 0)
      → ((q : MemQuery) → P q → IsOpen q)
      → ((q : MemQuery) → P q → P (Adapter.count q))
      → BackendLaws memory_backend memory_rows P
  unfolding memory_backend Adapter.count Adapter.limit Adapter.offset query_rows page_of
  memory_laws P opened counted = record {
    run_count_lem = λ q p.
        let o = opened q p in
        count_lem (Adapter.count q) o.name o.found o.tabled o.selected
        ∙ ap ok (sym (ap length (memory_rows_lem q o) ∙ length-map (reconstruct q.model) o.found));
    count-IsOpen = counted;
    rows_count = λ q p. memory_rows-count q;
    run_all_limit = λ q n p.
        let o = opened q p in
        all_objs_lem (Adapter.limit q (pos n)) o.name o.found o.tabled o.selected
        ∙ ap (λ skipped. ok (map (reconstruct q.model) (take n (apply_offset skipped o.found))))
            o.no_offset
        ∙ ap ok
            (take-map (reconstruct q.model) n o.found ∙ ap (take n) (sym (memory_rows_lem q o)));
    run_all_page = λ q m n p.
        let o = opened q p in
        all_objs_lem (Adapter.limit (Adapter.offset q (pos m)) (pos n)) o.name o.found o.tabled
          o.selected
        ∙ ap ok (
            take-map (reconstruct q.model) n (drop m o.found)
            ∙ ap (take n) (
                drop-map (reconstruct q.model) m o.found
                ∙ ap (drop m) (sym (memory_rows_lem q o))));
  }

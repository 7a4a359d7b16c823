-- ===== src/Memory/Crud.antt =====
-- `add`, `get` and `delete` of fastapi_admin_kit/backends/memory.py on a model with a table name and
-- a primary key.
use mathlib.Core.Path.{fun_ext}
use mathlib.Core.List.{append-nil, append_assoc}
use fastapi_admin_kit.Base.{
  ◌≡◌, sym, ap, ◌∙◌, String, true, false, Option, none, some, List, [], ◌∷◌, ◌++◌, arith, find,
  is_truthy, eq_refl,
}
use fastapi_admin_kit.Base.Dict.{
  Dict, IsDict, insert, set_default, lookup-insert_self, lookup-set_default, insert_new-append,
  lookup-of_IsDict-append,
}
use fastapi_admin_kit.Base.Result.{ok}
use fastapi_admin_kit.Base.Value.{Value, is_null, eq_value}
use fastapi_admin_kit.Memory.Query.{Model, Obj}
use fastapi_admin_kit.Memory.Rows.{Record, pk_field_name}
use fastapi_admin_kit.Memory.Action.{Store, >>=_of_ok}
use fastapi_admin_kit.Memory.Session.{
  named_table, table_name, table_of, set_all, reconstruct, row_pk, assign_pk, has_pk, found_obj,
  put_record, delete_first, is_deleted, delete_from, add_to, add, delete, get,
}
use fastapi_admin_kit.Memory.Keys.{
  HasDistinctKeys, find-put_record_self, find-put_record_other, put_record-HasDistinctKeys,
  find-delete_self, find-delete_other, delete-HasDistinctKeys,
}

abbrev pub instance_of : Model → Dict Value → Obj
instance_of m attrs = record { model = m; attrs = attrs }

is_deleted_set :
    (f : Option String) (pk : Value) → is_null pk ≡ false → is_deleted f pk ≡ has_pk f pk
is_deleted_set f pk set = fun_ext (λ r. rw set)

-- `setattr` of the items of a dict builds the dict again.
pub set_all-append : (r acc : Dict Value) → IsDict (acc ++ r) → set_all r acc ≡ acc ++ r
set_all-append [] acc d = sym (append-nil acc)
set_all-append ((k, v) ∷ r) acc d =
    let step : acc ++ (k, v) ∷ r ≡ (acc ++ (k, v) ∷ []) ++ r =
      sym (append_assoc acc ((k, v) ∷ []) r) in
    rw (insert_new-append k v acc (lookup-of_IsDict-append k v acc r d), step)
      (set_all-append r (acc ++ (k, v) ∷ []) (rw step at d))

pub table_of-set_default :
    (name : String) (s : Store) → table_of name (set_default name [] s) ≡ table_of name s
table_of-set_default name s = ground (arith, lookup-set_default name name [] s, eq_refl name)

table_of-insert :
    (name : String) (rows : List Record) (s : Store) → table_of name (insert name rows s) ≡ rows
table_of-insert name rows s = ground (arith, lookup-insert_self name rows s)

module _ (m : Model) (name f : String) (tabled : m.tablename ≡ some name)
    (keyed : pk_field_name m ≡ some f) where
  table_name_lem : (s : Store) → table_name m s ≡ (ok name, set_default name [] s)
  unfolding table_name
  table_name_lem s = ap (λ t. named_table t s) tabled

  get_lem :
      (pk : Value) (s : Store)
      → (get m pk s).0 ≡ ok (found_obj m (find (has_pk (some f) pk) (table_of name s)))
  unfolding get
  get_lem pk s =
      ap (λ p. p.0)
        (>>=_of_ok (table_name m)
          (λ n t. (ok (found_obj m (find (has_pk (pk_field_name m) pk) (table_of n t))), t)) s
          (set_default name [] s) name (table_name_lem s))
      ∙ rw (keyed, table_of-set_default name s)

  add_lem :
      (attrs r : Dict Value) (s : Store)
      → assign_pk (some f) (table_of name s) attrs ≡ ok r
      → add (instance_of m attrs) s ≡ (
        ok (instance_of m r),
        insert name (put_record (some f) r (table_of name s)) (set_default name [] s),
      )
  unfolding add
  add_lem attrs r s e =
      >>=_of_ok (table_name m) (λ n. add_to n (pk_field_name m) (instance_of m attrs)) s
        (set_default name [] s) name (table_name_lem s)
      ∙ rw (keyed, add_to, table_of-set_default name s, e) (rw (keyed, table_of-set_default name s))

  pub add-table :
      (attrs r : Dict Value) (s : Store)
      → assign_pk (some f) (table_of name s) attrs ≡ ok r
      → table_of name (add (instance_of m attrs) s).1 ≡ put_record (some f) r (table_of name s)
  add-table attrs r s e = rw (add_lem attrs r s e) (table_of-insert name _ _)

  delete-table :
      (attrs : Dict Value) (s : Store)
      → is_truthy f ≡ true
      → table_of name (delete (instance_of m attrs) s).1
        ≡ delete_first (is_deleted (some f) (row_pk (some f) attrs)) (table_of name s)
  unfolding delete
  delete-table attrs s named =
      ap (λ p. table_of name p.1)
        (>>=_of_ok (table_name m) (λ n. delete_from n (pk_field_name m) (instance_of m attrs)) s
          (set_default name [] s) name (table_name_lem s))
      ∙ rw (keyed, delete_from, named, table_of-set_default name s) (table_of-insert name _ _)

  assign_pk_set :
      (attrs : Dict Value) (rows : List Record)
      → is_null (row_pk (some f) attrs) ≡ false
      → assign_pk (some f) rows attrs ≡ ok attrs
  unfolding assign_pk
  assign_pk_set attrs rows set = ground arith

  module _ (named : is_truthy f ≡ true) (attrs : Dict Value) (s : Store)
      (set : is_null (row_pk (some f) attrs) ≡ false) where
    -- An object that has a key is found by it after `add`, whole and whether or not the key was
    -- taken; a lookup by any other key gives what it gave before.
    pub get-add :
        IsDict attrs
        → let obj = instance_of m attrs in
          ((get m (row_pk (some f) attrs) (add obj s).1).0 ≡ ok (some obj))
          × ((w : Value)
              → eq_value (row_pk (some f) attrs) w ≡ false
              → (get m w (add obj s).1).0 ≡ (get m w s).0)
    unfolding reconstruct
    get-add d =
        let stored = add-table attrs attrs s (assign_pk_set attrs (table_of name s) set) in
        (
          rw (get_lem, stored, find-put_record_self f attrs named set (table_of name s))
              (ap (λ a. ok (some (instance_of m a))) (set_all-append attrs [] d)),
          λ w differ.
              get_lem w (add (instance_of m attrs) s).1
              ∙ ap (λ o. ok (found_obj m o))
                  (ap (find (has_pk (some f) w)) stored
                    ∙ find-put_record_other f attrs named set w (table_of name s) differ)
              ∙ sym (get_lem w s),
        )

    -- In a table without two rows of one key, `add` and `delete` of an object that has a key keep it
    -- so. After the `delete` no row has the object's key, and a lookup by any other key gives what
    -- it gave before.
    pub delete-HasNoKey :
        HasDistinctKeys f (table_of name s)
        → let obj = instance_of m attrs in
          HasDistinctKeys f (table_of name (add obj s).1)
          × HasDistinctKeys f (table_of name (delete obj s).1)
          × ((get m (row_pk (some f) attrs) (delete obj s).1).0 ≡ ok none)
          × ((w : Value)
              → eq_value (row_pk (some f) attrs) w ≡ false
              → (get m w (delete obj s).1).0 ≡ (get m w s).0)
    delete-HasNoKey distinct =
        let v = row_pk (some f) attrs in
        let rows = table_of name s in
        let stored = add-table attrs attrs s (assign_pk_set attrs rows set) in
        let left : table_of name (delete (instance_of m attrs) s).1
            ≡ delete_first (has_pk (some f) v) rows =
          delete-table attrs s named
          ∙ ap (λ p. delete_first p rows) (is_deleted_set (some f) v set) in
        (
          rw stored (put_record-HasDistinctKeys f attrs named set rows distinct),
          rw left (delete-HasDistinctKeys f v rows distinct),
          rw (get_lem, left, find-delete_self f v rows distinct),
          λ w differ.
              get_lem w (delete (instance_of m attrs) s).1
              ∙ ap (λ o. ok (found_obj m o))
                  (ap (find (has_pk (some f) w)) left ∙ find-delete_other f v w rows differ)
              ∙ sym (get_lem w s),
        )

  -- Deleting an object whose key is `None`, as of one that was never added, removes the first row
  -- of the table, whichever it is.
  pub delete_unsaved :
      (named : is_truthy f ≡ true) (attrs : Dict Value) (s : Store) (r : Record) (rs : List Record)
      → is_null (row_pk (some f) attrs) ≡ true
      → table_of name s ≡ r ∷ rs
      → table_of name (delete (instance_of m attrs) s).1 ≡ rs
  delete_unsaved named attrs s r rs unset e =
      delete-table attrs s named ∙ rw (e, delete_first, unset)

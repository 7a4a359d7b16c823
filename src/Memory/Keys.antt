-- ===== src/Memory/Keys.antt =====
-- Finding rows by their primary key after `put_record` and `delete_first`, the list parts of `add`
-- and `delete` of fastapi_admin_kit/backends/memory.py.
use fastapi_admin_kit.Base.{
  ◌≡◌, refl, String, Bool, true, false, none, some, List, [], ◌∷◌, ◌++◌, arith, find, is_truthy,
  Bool-cases, Option-cases, inl, inr,
}
use fastapi_admin_kit.Base.Value.{
  Value, is_null, eq_value, eq_value_refl, eq_value_comm, eq_value_trans,
}
use fastapi_admin_kit.Memory.Rows.{Record}
use fastapi_admin_kit.Memory.Session.{has_pk, row_pk, replace_first, delete_first, put_record}

-- No two rows have the same key.
abbrev pub HasDistinctKeys : String → List Record → Type 0
HasDistinctKeys f [] = Unit
HasDistinctKeys f (r ∷ rs) =
    (find (has_pk (some f) (row_pk (some f) r)) rs ≡ none) × HasDistinctKeys f rs

module _ (p : Record → Bool) (new : Record) where
  find-append_new :
      (rows : List Record)
      → p new ≡ true
      → find p rows ≡ none
      → find p (rows ++ new ∷ []) ≡ some new
  find-append_new [] h e = rw h
  find-append_new (r ∷ rs) h e = ground (arith, find-append_new rs h)

  find-replace_first :
      (rows : List Record) (old : Record)
      → p new ≡ true
      → find p rows ≡ some old
      → find p (replace_first p new rows) ≡ some new
  find-replace_first [] old h e = cc
  find-replace_first (r ∷ rs) old h e = ground (arith, find-replace_first rs old h)

  replace_first_hit :
      (r : Record) (rs : List Record) → p r ≡ true → replace_first p new (r ∷ rs) ≡ new ∷ rs
  replace_first_hit r rs h = ground arith

  replace_first_miss :
      (r : Record) (rs : List Record)
      → p r ≡ false
      → replace_first p new (r ∷ rs) ≡ r ∷ replace_first p new rs
  replace_first_miss r rs h = ground arith

find_same_key :
    (f : String) (v w : Value) (rows : List Record)
    → eq_value v w ≡ true
    → find (has_pk (some f) v) rows ≡ none
    → find (has_pk (some f) w) rows ≡ none
find_same_key f v w [] h e = refl
find_same_key f v w (r ∷ rs) h e =
    let key = row_pk (some f) r in
    ground (
      arith,
      find_same_key f v w rs,
      eq_value_trans v w key,
      eq_value_comm key v,
      eq_value_comm key w,
    )

-- A row with another key is found as before.
module _ (f : String) (v w : Value) (differ : eq_value v w ≡ false) (new : Record)
    (keyed : row_pk (some f) new ≡ v) where
  find-append_other :
      (rows : List Record)
      → find (has_pk (some f) w) (rows ++ new ∷ []) ≡ find (has_pk (some f) w) rows
  find-append_other [] = ground arith
  find-append_other (r ∷ rs) = ground (arith, find-append_other rs)

  find-replace_other :
      (rows : List Record)
      → find (has_pk (some f) w) (replace_first (has_pk (some f) v) new rows)
        ≡ find (has_pk (some f) w) rows
  find-replace_other [] = refl
  find-replace_other (r ∷ rs) =
      ground (arith, find-replace_other rs, eq_value_trans (row_pk (some f) r) v w)

module _ (f : String) (r : Record) (named : is_truthy f ≡ true)
    (set : is_null (row_pk (some f) r) ≡ false) where
  pub put_record_new :
      (rows : List Record)
      → find (has_pk (some f) (row_pk (some f) r)) rows ≡ none
      → put_record (some f) r rows ≡ rows ++ r ∷ []
  unfolding put_record
  put_record_new rows e = rw (named, set, e)

  pub put_record_old :
      (rows : List Record) {old : Record}
      → find (has_pk (some f) (row_pk (some f) r)) rows ≡ some old
      → put_record (some f) r rows ≡ replace_first (has_pk (some f) (row_pk (some f) r)) r rows
  unfolding put_record
  put_record_old rows e = rw (named, set, e)

  pub find-put_record_self :
      (rows : List Record)
      → find (has_pk (some f) (row_pk (some f) r)) (put_record (some f) r rows) ≡ some r
  find-put_record_self rows =
      let p = has_pk (some f) (row_pk (some f) r) in
      let self = eq_value_refl (row_pk (some f) r) in
      elim (Option-cases (find p rows)) [
        | inl fresh ↦ rw (put_record_new rows fresh) (find-append_new p r rows self fresh)
        | inr (old, e) ↦ rw (put_record_old rows e) (find-replace_first p r rows old self e)
      ]

  pub find-put_record_other :
      (w : Value) (rows : List Record)
      → eq_value (row_pk (some f) r) w ≡ false
      → find (has_pk (some f) w) (put_record (some f) r rows) ≡ find (has_pk (some f) w) rows
  find-put_record_other w rows differ =
      let v = row_pk (some f) r in
      elim (Option-cases (find (has_pk (some f) v) rows)) [
        | inl fresh ↦ rw (put_record_new rows fresh) (find-append_other f v w differ r refl rows)
        | inr (old, e) ↦ rw (put_record_old rows e) (find-replace_other f v w differ r refl rows)
      ]

  find-put_record_miss :
      (w : Value) (rows : List Record)
      → eq_value (row_pk (some f) r) w ≡ false
      → find (has_pk (some f) w) rows ≡ none
      → find (has_pk (some f) w) (put_record (some f) r rows) ≡ none
  find-put_record_miss w rows differ e = rw (find-put_record_other w rows differ) e

  append-HasDistinctKeys :
      (rows : List Record)
      → HasDistinctKeys f rows
      → find (has_pk (some f) (row_pk (some f) r)) rows ≡ none
      → HasDistinctKeys f (rows ++ r ∷ [])
  append-HasDistinctKeys [] h e = (refl, tt)
  append-HasDistinctKeys (x ∷ xs) (new, h) e = (
    rw
        (find-append_other f (row_pk (some f) r) (row_pk (some f) x)
          (ground (arith, eq_value_comm (row_pk (some f) r) (row_pk (some f) x))) r refl xs)
        new,
    append-HasDistinctKeys xs h (ground arith),
  )

  replace-HasDistinctKeys :
      (rows : List Record)
      → HasDistinctKeys f rows
      → HasDistinctKeys f (replace_first (has_pk (some f) (row_pk (some f) r)) r rows)
  replace-HasDistinctKeys [] h = tt
  replace-HasDistinctKeys (x ∷ xs) (new, h) =
      let v = row_pk (some f) r in
      let w = row_pk (some f) x in
      elim (Bool-cases (has_pk (some f) v x)) [
        | inl same ↦
            rw (replace_first_hit (has_pk (some f) v) r x xs same)
              (find_same_key f w v xs same new, h)
        | inr other ↦ rw (replace_first_miss (has_pk (some f) v) r x xs other) (
          rw (find-replace_other f v w (ground (arith, eq_value_comm v w)) r refl xs) new,
          replace-HasDistinctKeys xs h,
        )
      ]

  pub put_record-HasDistinctKeys :
      (rows : List Record) → HasDistinctKeys f rows → HasDistinctKeys f (put_record (some f) r rows)
  put_record-HasDistinctKeys rows h =
      elim (Option-cases (find (has_pk (some f) (row_pk (some f) r)) rows)) [
        | inl fresh ↦ rw (put_record_new rows fresh) (append-HasDistinctKeys rows h fresh)
        | inr (old, e) ↦ rw (put_record_old rows e) (replace-HasDistinctKeys rows h)
      ]

module _ (f : String) (v : Value) where
  delete_first_hit :
      (p : Record → Bool) (r : Record) (rs : List Record)
      → p r ≡ true
      → delete_first p (r ∷ rs) ≡ rs
  delete_first_hit p r rs h = ground arith

  delete_first_miss :
      (p : Record → Bool) (r : Record) (rs : List Record)
      → p r ≡ false
      → delete_first p (r ∷ rs) ≡ r ∷ delete_first p rs
  delete_first_miss p r rs h = ground arith

  pub find-delete_other :
      (w : Value) (rows : List Record)
      → eq_value v w ≡ false
      → find (has_pk (some f) w) (delete_first (has_pk (some f) v) rows)
        ≡ find (has_pk (some f) w) rows
  find-delete_other w [] differ = refl
  find-delete_other w (r ∷ rs) differ =
      ground (arith, find-delete_other w rs, eq_value_trans (row_pk (some f) r) v w)

  pub find-delete_self :
      (rows : List Record)
      → HasDistinctKeys f rows
      → find (has_pk (some f) v) (delete_first (has_pk (some f) v) rows) ≡ none
  find-delete_self [] h = refl
  find-delete_self (r ∷ rs) (new, h) = elim (Bool-cases (has_pk (some f) v r)) [
    | inl same ↦
        rw (delete_first_hit (has_pk (some f) v) r rs same)
          (find_same_key f (row_pk (some f) r) v rs same new)
    | inr other ↦
        rw (delete_first_miss (has_pk (some f) v) r rs other)
          (ground (arith, find-delete_self rs h))
  ]

  pub delete-HasDistinctKeys :
      (rows : List Record)
      → HasDistinctKeys f rows
      → HasDistinctKeys f (delete_first (has_pk (some f) v) rows)
  delete-HasDistinctKeys [] h = tt
  delete-HasDistinctKeys (r ∷ rs) (new, h) = elim (Bool-cases (has_pk (some f) v r)) [
    | inl same ↦ rw (delete_first_hit (has_pk (some f) v) r rs same) h
    | inr other ↦ rw (delete_first_miss (has_pk (some f) v) r rs other) (
      rw
          (find-delete_other (row_pk (some f) r) rs
            (ground (arith, eq_value_comm v (row_pk (some f) r))))
          new,
      delete-HasDistinctKeys rs h,
    )
  ]

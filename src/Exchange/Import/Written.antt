-- ===== src/Exchange/Import/Written.antt =====
-- What an import may write, fastapi_admin_kit/export_import/base.py.
use mathlib.Core.List.{append-nil}
use fastapi_admin_kit.Base.{
  ℕ, suc, String, ◌==◌, Bool, true, false, not, ◌&&◌, ◌||◌, Option, none, some, List, [], ◌∷◌, ◌++◌,
  keep, length, ltb, All, All-append, ◌≡◌, refl, sym, ◌∙◌, arith, eq_iff, Bool-cases, inl, inr,
  if-elim, if◌then◌else◌,
}
use fastapi_admin_kit.Base.Dict.{Dict, lookup, lookup_or, insert, lookup-insert}
use fastapi_admin_kit.Base.Result.{Result, ok, err, multiple_results, Ensures}
use fastapi_admin_kit.Base.Text.{Unicode}
use fastapi_admin_kit.Base.Value.{Value}
use fastapi_admin_kit.Exchange.Formats.{is_in}
use fastapi_admin_kit.Exchange.Import.{
  Column, Registered, ImportBase, Converters, allowed_import_fields, map_row, transform_row,
  Progress, Plan, Summary, conditions, fits, is_settable, set_fields, created_row, update_first,
  create, upsert, save_row, missing_column, one_error, import_rows, plan_of, flush_all, import_data,
  get_field_map, get_unique_key,
}

module _ (u : Unicode) (convert : Converters) (r : Registered) where
  -- A field that an import may write: one of the allow-list that is no primary key and that the
  -- model has.
  abbrev pub is_writable : String → Bool
  is_writable field = is_in field (allowed_import_fields r) && is_settable u convert r field

  abbrev IsAllowed : Dict Value → Type 0
  IsAllowed row = All (λ c. is_in c.0 (allowed_import_fields r) ≡ true) row

  insert-IsAllowed :
      (k : String) (v : Value) (row : Dict Value)
      → is_in k (allowed_import_fields r) ≡ true
      → IsAllowed row
      → IsAllowed (insert k v row)
  insert-IsAllowed k v [] a h = (a, tt)
  insert-IsAllowed k v ((j, w) ∷ row) a (b, h) =
      if-elim IsAllowed (j == k) _ _ (λ e. (b, h)) (λ e. (b, insert-IsAllowed k v row a h))

  map_row-IsAllowed :
      (fields : Dict String) (row mapped : Dict Value)
      → IsAllowed mapped
      → IsAllowed (map_row fields (allowed_import_fields r) row mapped)
  unfolding map_row
  map_row-IsAllowed fields [] mapped h = h
  map_row-IsAllowed fields ((header, v) ∷ row) mapped h =
      let field = lookup_or header header fields in
      map_row-IsAllowed fields row _ (
        if-elim IsAllowed (is_in field (allowed_import_fields r)) (insert field v mapped) mapped
          (λ a. insert-IsAllowed field v mapped a h) (λ a. h))

  transform_row-IsAllowed :
      (cs : List Column) (row : Dict Value)
      → IsAllowed row
      → IsAllowed (transform_row u convert cs row)
  unfolding transform_row
  transform_row-IsAllowed cs [] h = tt
  transform_row-IsAllowed cs ((field, v) ∷ row) (a, h) = (a, transform_row-IsAllowed cs row h)

  writable_apart :
      (f k : String)
      → is_in f (allowed_import_fields r) ≡ true
      → is_settable u convert r f ≡ true
      → is_writable k ≡ false
      → (f == k) ≡ false
  writable_apart f k a set h = elim (Bool-cases (f == k)) [
    | inl same ↦
        let e = (eq_iff f k).0 same in
        let both : is_writable f ≡ true = ground (arith, a, set) in absurd (clash e both h)
    | inr differ ↦ differ
  ]
    where
      clash : f ≡ k → is_writable f ≡ true → is_writable k ≡ false → ⊥
      clash e t n = cc

  -- Outside the fields that may be written, two rows are the same.
  abbrev pub IsSameOutside : Dict Value → Dict Value → Type 0
  IsSameOutside row row' = (k : String) → is_writable k ≡ false → lookup k row' ≡ lookup k row

  set_fields-IsSameOutside :
      (fields row : Dict Value)
      → IsAllowed fields
      → IsSameOutside row (set_fields u convert r fields row)
  unfolding set_fields
  set_fields-IsSameOutside [] row a k h = refl
  set_fields-IsSameOutside ((field, v) ∷ fields) row (a, all) k h =
      set_fields-IsSameOutside fields
        (if is_settable u convert r field then insert field v row else row) all k h
      ∙ elim (Bool-cases (is_settable u convert r field)) [
        | inl set ↦
            let differ : (field == k) ≡ false = writable_apart field k a set h in
            rw set (lookup-insert field k v row ∙ rw differ refl)
        | inr kept ↦ rw kept refl
      ]

  -- A new row has no field that may not be written.
  abbrev pub IsOnlyWritable : Dict Value → Type 0
  IsOnlyWritable row = (k : String) → is_writable k ≡ false → lookup k row ≡ none

  created_row-IsOnlyWritable :
      (fields : Dict Value) → IsAllowed fields → IsOnlyWritable (created_row u convert r fields)
  unfolding created_row
  created_row-IsOnlyWritable [] all k h = refl
  created_row-IsOnlyWritable ((field, v) ∷ fields) (a, all) k h =
      let later = created_row-IsOnlyWritable fields all k h in
      elim (Bool-cases (is_settable u convert r field)) [
        | inl set ↦ let differ = writable_apart field k a set h in rw (set, differ) later
        | inr kept ↦ rw kept later
      ]

  -- The same rows, but for fields that may be written.
  abbrev pub IsSameTable : List (Dict Value) → List (Dict Value) → Type 0
  IsSameTable [] [] = Unit
  IsSameTable (row ∷ rows) (row' ∷ rows') = IsSameOutside row row' × IsSameTable rows rows'
  IsSameTable _ _ = ⊥

  same_table : (rows : List (Dict Value)) → IsSameTable rows rows
  same_table [] = tt
  same_table (row ∷ rows) = ((λ k h. refl), same_table rows)

  update_first-IsSameTable :
      (wanted fields : Dict Value) (before rows : List (Dict Value))
      → IsAllowed fields
      → IsSameTable before rows
      → IsSameTable before (update_first u convert r wanted fields rows)
  unfolding update_first
  update_first-IsSameTable wanted fields [] [] a h = tt
  update_first-IsSameTable wanted fields [] (row ∷ rows) a h = absurd h
  update_first-IsSameTable wanted fields (old ∷ before) [] a h = absurd h
  update_first-IsSameTable wanted fields (old ∷ before) (row ∷ rows) a (same, h) =
      if-elim (IsSameTable (old ∷ before)) (fits u convert wanted row) _ _
        (λ f. ((λ k n. set_fields-IsSameOutside fields row a k n ∙ same k n), h))
        (λ f. (same, update_first-IsSameTable wanted fields before rows a h))

  module _ (before : List (Dict Value)) where
    abbrev IsWithin : Progress u convert → Type 0
    IsWithin p = IsSameTable before p.table × All IsOnlyWritable p.added

    create-IsWithin :
        (fields : Dict Value) (p : Progress u convert)
        → IsAllowed fields
        → IsWithin p
        → IsWithin (create u convert r fields p)
    create-IsWithin fields p a (t, n) = (
      t,
      All-append IsOnlyWritable p.added (created_row u convert r fields ∷ []) n
          (created_row-IsOnlyWritable fields a, tt),
    )

    upsert-IsWithin :
        (wanted fields : Dict Value) (p : Progress u convert)
        → IsAllowed fields
        → IsWithin p
        → Ensures IsWithin (upsert u convert r wanted fields p)
    unfolding upsert
    upsert-IsWithin wanted fields p a h = go (keep (fits u convert wanted) p.table)
      where
        go :
            (found : List (Dict Value))
            → Ensures IsWithin (elim found [
              | [] ↦ ok (create u convert r fields p)
              | row ∷ [] ↦ ok (record p {
                table = update_first u convert r wanted fields p.table;
                updated = suc p.updated;
              })
              | row ∷ second ∷ rows ↦ err multiple_results
            ])
        go [] = create-IsWithin fields p a h
        go (row ∷ []) = (update_first-IsSameTable wanted fields before p.table a h.0, h.1)
        go (row ∷ second ∷ rows) = tt

    module _ (base : ImportBase) (fields : Dict String) (key : List String) where
      abbrev plan : Plan u convert
      plan = record { base = base; registered = r; fields = fields; key = key }

      save_row-IsWithin :
          (row : Dict Value) (p : Progress u convert)
          → IsAllowed row
          → IsWithin p
          → Ensures IsWithin (save_row u convert plan row p)
      unfolding save_row
      save_row-IsWithin row p a h = go (conditions u convert key row)
        where
          go :
              (wanted : Dict Value)
              → Ensures IsWithin (elim wanted [
                | [] ↦ ok (create u convert r row p)
                | c ∷ cs ↦ upsert u convert r (c ∷ cs) row p
              ])
          go [] = create-IsWithin row p a h
          go (c ∷ cs) = upsert-IsWithin (c ∷ cs) row p a h

      import_rows-IsWithin :
          (rows : List (Dict Value)) (p : Progress u convert)
          → IsWithin p
          → IsWithin (import_rows u convert plan rows p)
      unfolding import_rows
      import_rows-IsWithin [] p h = h
      import_rows-IsWithin (row ∷ rows) p h =
          after_validation (import_rows-IsWithin rows)
            (missing_column u convert base.required_columns mapped)
        where
          mapped : Dict Value
          mapped = map_row fields (allowed_import_fields r) row []

          after_save :
              ((q : Progress u convert) → IsWithin q → IsWithin (import_rows u convert plan rows q))
              → (saved : Result (Progress u convert)) → Ensures IsWithin saved
              → IsWithin (elim saved [
                | ok p' ↦ import_rows u convert plan rows p'
                | err e ↦
                    if base.skip_errors
                    then import_rows u convert plan rows (one_error u convert p)
                    else one_error u convert p
              ])
          after_save again (ok p') k = again p' k
          after_save again (err e) k =
              if-elim IsWithin base.skip_errors _ _ (λ skip. again (one_error u convert p) h)
                (λ stop. h)

          after_validation :
              ((q : Progress u convert) → IsWithin q → IsWithin (import_rows u convert plan rows q))
              → (missing : Option String)
              → IsWithin (elim missing [
                | some c ↦ import_rows u convert plan rows (one_error u convert p)
                | none ↦
                    if base.dry_run
                    then import_rows u convert plan rows p
                    else (elim (save_row u convert plan
                        (transform_row u convert r.columns mapped)
                        p) [
                          | ok p' ↦ import_rows u convert plan rows p'
                          | err e ↦
                              if base.skip_errors
                              then import_rows u convert plan rows (one_error u convert p)
                              else one_error u convert p
                        ])
              ])
          after_validation again (some c) = again (one_error u convert p) h
          after_validation again none =
              if-elim IsWithin base.dry_run _ _ (λ dry. again p h)
                (λ wet.
                  after_save again
                    (save_row u convert plan (transform_row u convert r.columns mapped) p)
                    (save_row-IsWithin (transform_row u convert r.columns mapped) p
                      (transform_row-IsAllowed r.columns mapped
                        (map_row-IsAllowed fields row [] tt))
                      h))

  abbrev IsSplit : List (Dict Value) → List (Dict Value) → Type 0
  IsSplit table end =
      (kept added : List (Dict Value)) × (end ≡ kept ++ added)
      × IsSameTable table kept
      × All IsOnlyWritable added

  flush_all-IsSameTable :
      (flushes : Bool) (total : ℕ) (b : ImportBase) (table : List (Dict Value))
      (p : Progress u convert)
      → IsWithin table p
      → (kept added : List (Dict Value)) × ((flush_all u convert flushes total table b p).1
          ≡ kept ++ added)
        × IsSameTable table kept
        × All IsOnlyWritable added
  unfolding flush_all
  flush_all-IsSameTable flushes total b table p (t, n) =
      if-elim (λ (s : Summary u convert × List (Dict Value)). IsSplit table s.1)
        (not b.dry_run && (ltb 0 p.created || ltb 0 p.updated)) _ _
        (λ changed.
          if-elim (λ (s : Summary u convert × List (Dict Value)). IsSplit table s.1) flushes _ _
            (λ good. (p.table, p.added, refl, t, n))
            (λ bad. (table, [], sym (append-nil table), same_table table, tt)))
        (λ nothing. (p.table, [], sym (append-nil p.table), t, tt))

  -- Whatever rows are imported, however they are configured and whether the flush succeeds: the rows
  -- that were in the table are there, the same but for fields that an import may write, and behind
  -- them stand new rows with no other field. These fields are in the allow-list, which leaves out
  -- secrets and, on models with `is_superuser`, privileges, and are no primary keys.
  pub import_data-IsSameTable :
      (title : String → String) (session flushes : Bool) (b : ImportBase)
      (rows table : List (Dict Value))
      → (kept added : List (Dict Value)) × ((import_data u convert title session flushes b r rows
            table).1
          ≡ kept ++ added)
        × IsSameTable table kept
        × All IsOnlyWritable added
  unfolding import_data
  import_data-IsSameTable title false flushes b rows table =
      (table, [], sym (append-nil table), same_table table, tt)
  import_data-IsSameTable title true flushes b rows table =
      flush_all-IsSameTable flushes (length rows) b table
        (import_rows u convert (plan_of u convert title b r) rows start)
        (import_rows-IsWithin table b (get_field_map title b r) (get_unique_key b r) rows start
          (same_table table, tt))
    where
      start : Progress u convert
      start = record { table = table; added = []; created = 0; updated = 0; errors = 0 }

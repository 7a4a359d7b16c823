-- ===== src/Exchange/Import.antt =====
-- `ImportBase` of fastapi_admin_kit/export_import/base.py, with the hooks that it comes with. A row of
-- the file and a row of the table are dicts in the order of their keys. `add` puts a new row into the
-- session and the queries do not see it before the flush, since autoflush is off.
pub mod Written
use fastapi_admin_kit.Base.{
  ℕ, suc, ◌+◌, String, ◌==◌, Bool, true, false, not, ◌&&◌, ◌||◌, Option, none, some, List, [], ◌∷◌,
  ◌++◌, map, keep, any, all, length, codes, nat_eq, ltb, if◌then◌else◌,
}
use fastapi_admin_kit.Base.Dict.{Dict, lookup, lookup_or, contains, insert}
use fastapi_admin_kit.Base.Result.{Result, ok, err, Error, multiple_results, ◌>>=◌}
use fastapi_admin_kit.Base.Text.{Unicode, strip, eq_codes}
use fastapi_admin_kit.Base.Value.{Value, null, bool, int, str, is_null, eq_value, str_of}
use fastapi_admin_kit.Exchange.Formats.{sensitive_fields, privileged_assignment_fields, is_in}

pub data ColumnType : Type 0 where
  boolean integer float datetime other : ColumnType

pub record Column : Type 0 where
  pub name : String
  pub type : ColumnType
  pub primary_key : Bool

-- The model that the rows are for; `attributes` are the names that `hasattr` finds on it.
pub record Registered : Type 0 where
  pub columns : List Column
  pub attributes : List String

pub record ImportBase : Type 0 where
  pub required_columns : List String
  pub field_map : Dict String
  pub unique_key : List String
  pub skip_errors : Bool
  pub dry_run : Bool

unfoldable pub default_import : ImportBase
default_import = record {
  required_columns = [];
  field_map = [];
  unique_key = [];
  skip_errors = false;
  dry_run = false;
}

-- The converters: `int`, `float` and `datetime.fromisoformat` of a value (`none` is a `ValueError` or
-- `TypeError`), and whether a value is a datetime.
pub record Converters : Type 0 where
  pub to_int : Value → Option Value
  pub to_float : Value → Option Value
  pub from_iso : List ℕ → Option Value
  pub is_datetime : Value → Bool

abbrev pub names : List Column → List String
names cs = map (λ c. c.name) cs

-- `allowed_import_fields`
unfoldable pub allowed_import_fields : Registered → List String
allowed_import_fields r =
    let allowed = keep (λ n. not (is_in n sensitive_fields)) (names r.columns) in
    if is_in "is_superuser" r.attributes
    then keep (λ n. not (is_in n privileged_assignment_fields)) allowed
    else allowed

abbrev pub generated : (String → String) → List String → List Column → Dict String
generated title allowed [] = []
generated title allowed (c ∷ cs) =
    if is_in c.name allowed
    then insert (title c.name) c.name (generated title allowed cs)
    else generated title allowed cs

unfoldable pub get_field_map : (String → String) → ImportBase → Registered → Dict String
get_field_map title b r = elim b.field_map [
  | [] ↦ generated title (allowed_import_fields r) r.columns
  | m ∷ ms ↦ m ∷ ms
]

abbrev pub pk_fields : Registered → List String
pk_fields r = names (keep (λ c. c.primary_key) r.columns)

-- The key, or the primary key; no column is no key.
unfoldable pub get_unique_key : ImportBase → Registered → List String
get_unique_key b r = elim b.unique_key [ [] ↦ pk_fields r | k ∷ ks ↦ k ∷ ks ]

-- The columns of the file under the names of the model, less those that may not be written.
unfoldable pub map_row : Dict String → List String → Dict Value → Dict Value → Dict Value
map_row fields allowed [] mapped = mapped
map_row fields allowed ((header, v) ∷ row) mapped =
    let field = lookup_or header header fields in
    map_row fields allowed row (if is_in field allowed then insert field v mapped else mapped)

abbrev pub type_of : String → List Column → Option ColumnType
type_of name [] = none
type_of name (c ∷ cs) = if c.name == name then some c.type else type_of name cs

module _ (u : Unicode) (convert : Converters) where
  abbrev pub is_blank_text : List ℕ → Bool
  is_blank_text s = eq_codes (strip u.is_space s) []

  abbrev pub is_missing : Option Value → Bool
  is_missing none = true
  is_missing (some v) = is_null v || is_blank_text (str_of v)

  -- The first required column that is missing or empty.
  unfoldable pub missing_column : List String → Dict Value → Option String
  missing_column [] row = none
  missing_column (c ∷ cs) row =
      let rest = missing_column cs row in if is_missing (lookup c row) then some c else rest

  abbrev pub or_same : Option Value → Value → Value
  or_same none v = v
  or_same (some w) v = w

  abbrev pub is_true_word : List ℕ → Bool
  is_true_word s = eq_codes s (codes "true") || eq_codes s (codes "1") || eq_codes s (codes "yes")

  abbrev pub parse_datetime : Value → Value
  parse_datetime (str s) = or_same (convert.from_iso (strip u.is_space (codes s))) (str s)
  parse_datetime v = null

  unfoldable pub coerce : Option ColumnType → Value → Value
  coerce none v = v
  coerce (some boolean) v = bool (is_true_word (u.lower (strip u.is_space (str_of v))))
  coerce (some integer) v = or_same (convert.to_int v) v
  coerce (some float) v = or_same (convert.to_float v) v
  coerce (some datetime) v = if convert.is_datetime v then v else parse_datetime v
  coerce (some other) v = v

  -- `value is None or (isinstance(value, str) and value.strip() == "")`
  abbrev pub is_nothing : Value → Bool
  is_nothing null = true
  is_nothing (str s) = is_blank_text (codes s)
  is_nothing _ = false

  unfoldable pub transform_row : List Column → Dict Value → Dict Value
  transform_row cs [] = []
  transform_row cs ((field, v) ∷ row) =
      (field, if is_nothing v then null else coerce (type_of field cs) v) ∷ transform_row cs row

  -- What the rows are brought to: those of the table, those that were added, and the counts.
  pub record Progress : Type 0 where
    pub table : List (Dict Value)
    pub added : List (Dict Value)
    pub created : ℕ
    pub updated : ℕ
    pub errors : ℕ

  pub record Plan : Type 0 where
    pub base : ImportBase
    pub registered : Registered
    pub fields : Dict String
    pub key : List String

  abbrev pub conditions : List String → Dict Value → Dict Value
  conditions [] row = []
  conditions (k ∷ ks) row = elim (lookup k row) [
    | none ↦ conditions ks row
    | some v ↦ (k, v) ∷ conditions ks row
  ]

  -- `==` with None is IS NULL, and NULL equals no other value.
  abbrev pub is_equal : Value → Value → Bool
  is_equal a b = if is_null b then is_null a else (not (is_null a) && eq_value a b)

  abbrev pub fits : Dict Value → Dict Value → Bool
  fits wanted row = all (λ c. is_equal (lookup_or c.0 null row) c.1) wanted

  -- Whether the import may set the field of a row.
  abbrev pub is_settable : Registered → String → Bool
  is_settable r field = not (is_in field (pk_fields r)) && is_in field r.attributes

  unfoldable pub set_fields : Registered → Dict Value → Dict Value → Dict Value
  set_fields r [] row = row
  set_fields r ((field, v) ∷ fields) row =
      set_fields r fields (if is_settable r field then insert field v row else row)

  unfoldable pub created_row : Registered → Dict Value → Dict Value
  created_row r [] = []
  created_row r ((field, v) ∷ fields) =
      let rest = created_row r fields in if is_settable r field then (field, v) ∷ rest else rest

  -- The row that `scalar_one_or_none` finds is changed in place; two rows make it raise.
  unfoldable pub update_first :
      Registered → Dict Value → Dict Value → List (Dict Value) → List (Dict Value)
  update_first r wanted fields [] = []
  update_first r wanted fields (row ∷ rows) =
      let rest = update_first r wanted fields rows in
      if fits wanted row then set_fields r fields row ∷ rows else row ∷ rest

  abbrev pub create : Registered → Dict Value → Progress → Progress
  create r fields p = record p {
    added = p.added ++ created_row r fields ∷ [];
    created = suc p.created;
  }

  unfoldable pub upsert : Registered → Dict Value → Dict Value → Progress → Result Progress
  upsert r wanted fields p = elim (keep (fits wanted) p.table) [
    | [] ↦ ok (create r fields p)
    | row ∷ [] ↦
        ok (record p { table = update_first r wanted fields p.table; updated = suc p.updated })
    | row ∷ second ∷ rows ↦ err multiple_results
  ]

  -- A row that was mapped, validated and transformed.
  unfoldable pub save_row : Plan → Dict Value → Progress → Result Progress
  save_row plan fields p = elim (conditions plan.key fields) [
    | [] ↦ ok (create plan.registered fields p)
    | c ∷ cs ↦ upsert plan.registered (c ∷ cs) fields p
  ]

  abbrev pub one_error : Progress → Progress
  one_error p = record p { errors = suc p.errors }

  -- The rows from one on. A row that is not valid is passed over, an exception ends the import unless
  -- errors are skipped.
  unfoldable pub import_rows : Plan → List (Dict Value) → Progress → Progress
  import_rows plan [] p = p
  import_rows plan (row ∷ rows) p =
      let mapped = map_row plan.fields (allowed_import_fields plan.registered) row [] in
      elim (missing_column plan.base.required_columns mapped) [
        | some c ↦ import_rows plan rows (one_error p)
        | none ↦
            if plan.base.dry_run
            then import_rows plan rows p
            else (elim (save_row plan (transform_row plan.registered.columns mapped) p) [
              | ok p' ↦ import_rows plan rows p'
              | err e ↦
                  if plan.base.skip_errors then import_rows plan rows (one_error p) else one_error p
            ])
      ]

  pub record Summary : Type 0 where
    pub created : ℕ
    pub updated : ℕ
    pub errors : ℕ

  abbrev pub plan_of : (String → String) → ImportBase → Registered → Plan
  plan_of title b r = record {
    base = b;
    registered = r;
    fields = get_field_map title b r;
    key = get_unique_key b r;
  }

  -- The flush writes all or, where it fails, is rolled back. Without changes there is no flush.
  unfoldable pub flush_all :
      (flushes : Bool) (total : ℕ) (before : List (Dict Value)) (b : ImportBase) (p : Progress)
      → Summary × List (Dict Value)
  flush_all flushes total before b p =
      let done : Summary = record { created = p.created; updated = p.updated; errors = p.errors } in
      let failed : Summary = record { created = 0; updated = 0; errors = total } in
      if not b.dry_run && (ltb 0 p.created || ltb 0 p.updated)
      then (if flushes then (done, p.table ++ p.added) else (failed, before))
      else (done, p.table)

  -- `import_data`; `session` says whether there is one, `flushes` whether the flush succeeds.
  unfoldable pub import_data :
      (title : String → String) (session flushes : Bool) (b : ImportBase) (r : Registered)
      (rows table : List (Dict Value))
      → Summary × List (Dict Value)
  import_data title session flushes b r rows table =
      if session
      then flush_all flushes (length rows) table b (
          import_rows (plan_of title b r) rows
            (record { table = table; added = []; created = 0; updated = 0; errors = 0 }))
      else (record { created = 0; updated = 0; errors = 0 }, table)

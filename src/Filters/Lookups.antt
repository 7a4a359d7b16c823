-- ===== src/Filters/Lookups.antt =====
-- What `parse_filter_params` of fastapi_admin_kit/filters/lookups.py reads.
use Prim.Native.String.{◌++◌ as append}
use fastapi_admin_kit.Base.{
  String, Bool, true, false, List, Bool-cases, inl, inr, eq_refl, if-elim, sym, ap, Option, none,
  some, [], ◌∷◌, any, is_truthy, if◌then◌else◌, ◌==◌, eq_iff, ◌≡◌, refl, arith, ◌∙◌,
}
use fastapi_admin_kit.Base.Dict.{Dict, lookup, IsDict, lookup-insert, insert-IsDict}
use fastapi_admin_kit.Filters.{
  Query, lookup_suffixes, FilterValue, no_value, exact, parts, insert_given, read_lookups, value_of,
  parse_filter_params,
}

-- A parameter that is there and not empty.
abbrev pub given : String → Option String
given raw = if is_truthy raw then some raw else none

abbrev pub or_text : Option String → Option String → Option String
or_text (some v) o = some v
or_text none o = o

lookup-insert_given :
    (key name raw : String) (d : Dict String)
    → lookup name (insert_given key raw d)
      ≡ (if key == name then or_text (given raw) (lookup name d) else lookup name d)
lookup-insert_given key name raw d = ground (arith, lookup-insert key name raw d)

-- The parameter of a lookup, by a table.
abbrev listed_in : Query → String → String → Dict String → Option String
listed_in get field name table = elim (lookup name table) [
  | none ↦ none
  | some suffix ↦ given (get (append field suffix))
]

lookup-read_lookups :
    (get : Query) (field name : String) (table found active : Dict String)
    → IsDict table
    → lookup name (read_lookups get field table found active).0
      ≡ or_text (listed_in get field name table) (lookup name found)
unfolding read_lookups
lookup-read_lookups get field name [] found active h = refl
lookup-read_lookups get field name ((k, suffix) ∷ table) found active (new, h) =
    let raw = get (append field suffix) in
    ground (
      arith,
      new,
      eq_iff k name,
      lookup-insert_given k name raw found,
      lookup-read_lookups get field name table (insert_given k raw found)
          (insert_given (append field suffix) raw active) h,
    )

-- Whether a parameter belongs to the field, by a table.
abbrev is_parameter : String → String → Dict String → Bool
is_parameter field key table = any (λ p. append field p.1 == key) table

lookup-active :
    (get : Query) (field key : String) (table found active : Dict String)
    → lookup key (read_lookups get field table found active).1
      ≡ or_text (if is_parameter field key table then given (get key) else none) (lookup key active)
unfolding read_lookups
lookup-active get field key [] found active = refl
lookup-active get field key ((k, suffix) ∷ table) found active =
    let raw = get (append field suffix) in
    ground (
      arith,
      eq_iff (append field suffix) key,
      lookup-insert_given (append field suffix) key raw active,
      lookup-active get field key table (insert_given k raw found)
          (insert_given (append field suffix) raw active),
    )

-- The lookups of the documentation, and the parameter of each: the field's name alone for an exact
-- match, and two underscores and the lookup behind it for the others.
abbrev pub lookups : List String
lookups =
    "exact" ∷ "icontains" ∷ "startswith" ∷ "endswith" ∷ "gt" ∷ "gte" ∷ "lt" ∷ "lte" ∷ "range" ∷ "in"
    ∷ "from" ∷ "to" ∷ []

abbrev pub suffix_of : String → String
suffix_of name = if name == "exact" then "" else append "__" name

abbrev pub parameter_of : Query → String → String → Option String
parameter_of get field name =
    if any (λ n. n == name) lookups then given (get (append field (suffix_of name))) else none

-- Whether a parameter belongs to the field.
abbrev pub is_of_field : String → String → Bool
is_of_field field key = any (λ n. append field (suffix_of n) == key) lookups

abbrev table_of : List String → Dict String
table_of [] = []
table_of (n ∷ ns) = (n, suffix_of n) ∷ table_of ns

lookup-table_of :
    (name : String) (ns : List String)
    → lookup name (table_of ns) ≡ (if any (λ n. n == name) ns then some (suffix_of name) else none)
lookup-table_of name [] = refl
lookup-table_of name (n ∷ ns) = elim (Bool-cases (n == name)) [
  | inl same ↦ rw same (ap (λ m. some (suffix_of m)) ((eq_iff n name).0 same))
  | inr other ↦ rw other (lookup-table_of name ns)
]

listed_in-table_of :
    (get : Query) (field name : String) (ns : List String)
    → listed_in get field name (table_of ns)
      ≡ (if any (λ n. n == name) ns then given (get (append field (suffix_of name))) else none)
listed_in-table_of get field name ns =
    ap (parameter_at) (lookup-table_of name ns) ∙ chosen (any (λ n. n == name) ns)
  where
    parameter_at : Option String → Option String
    parameter_at found = elim found [
      | none ↦ none
      | some suffix ↦ given (get (append field suffix))
    ]

    chosen :
        (b : Bool)
        → parameter_at (if b then some (suffix_of name) else none)
          ≡ (if b then given (get (append field (suffix_of name))) else none)
    chosen true = refl
    chosen false = refl

is_parameter-table_of :
    (field key : String) (ns : List String)
    → is_parameter field key (table_of ns) ≡ any (λ n. append field (suffix_of n) == key) ns
is_parameter-table_of field key [] = refl
is_parameter-table_of field key (n ∷ ns) = ground (arith, is_parameter-table_of field key ns)

lookup_suffixes-table_of : lookup_suffixes ≡ table_of lookups
lookup_suffixes-table_of = refl

lookup_suffixes-IsDict : IsDict lookup_suffixes
lookup_suffixes-IsDict = (
  refl,
  (refl, (refl, (refl, (refl, (refl, (refl, (refl, (refl, (refl, (refl, (refl, tt))))))))))),
)

or_text-none : (o : Option String) → or_text o none ≡ o
or_text-none none = refl
or_text-none (some v) = refl

insert_given-IsDict :
    (key raw : String) (d : Dict String) → IsDict d → IsDict (insert_given key raw d)
insert_given-IsDict key raw d h =
    if-elim IsDict (is_truthy raw) _ _ (λ t. insert-IsDict key raw d h) (λ f. h)

read_lookups-IsDict :
    (get : Query) (field : String) (table found active : Dict String)
    → IsDict found
    → IsDict (read_lookups get field table found active).0
unfolding read_lookups
read_lookups-IsDict get field [] found active h = h
read_lookups-IsDict get field ((name, suffix) ∷ table) found active h =
    let raw = get (append field suffix) in
    read_lookups-IsDict get field table (insert_given name raw found)
      (insert_given (append field suffix) raw active) (insert_given-IsDict name raw found h)

module _ (get : Query) (field : String) where
  -- What a value says: None that there is no parameter, a text that it is the exact one and there is no
  -- other, a dict that it holds all parameters and one of them is not the exact one.
  abbrev pub IsReading : FilterValue → Type 0
  IsReading no_value = (name : String) → parameter_of get field name ≡ none
  IsReading (exact v) =
      (parameter_of get field "exact" ≡ some v)
      × ((name : String) → (name == "exact") ≡ false → parameter_of get field name ≡ none)
  IsReading (parts d) =
      ((name : String) → lookup name d ≡ parameter_of get field name)
      × (name : String) × (v : String) × ((name == "exact") ≡ false)
      × (parameter_of get field name ≡ some v)

  abbrev IsFound : Dict String → Type 0
  IsFound found = (name : String) → lookup name found ≡ parameter_of get field name

  value_of-IsReading :
      (found : Dict String) → IsDict found → IsFound found → IsReading (value_of found)
  unfolding value_of
  value_of-IsReading [] d h = λ name. sym (h name)
  value_of-IsReading ((k, v) ∷ []) d h =
      if-elim
        (λ (o : Option String).
          IsReading (elim o [ some w ↦ exact w | none ↦ parts ((k, v) ∷ []) ]))
        (k == "exact") _ _
        (λ only. (
          sym (h "exact") ∙ rw only refl,
          λ name other.
              let apart : (k == name) ≡ false =
                ground (arith, eq_iff k "exact", eq_iff k name, eq_iff name "exact", only, other) in
              sym (h name) ∙ rw apart refl,
        ))
        (λ other. (h, k, v, other, sym (h k) ∙ rw (eq_refl k) refl))
  value_of-IsReading ((k, v) ∷ (j, w) ∷ found) (new, d) h = elim (Bool-cases (k == "exact")) [
    | inl first ↦
        let apart : (j == k) ≡ false = ground (arith, new) in
        let second : (j == "exact") ≡ false =
          ground (arith, eq_iff k "exact", eq_iff j k, eq_iff j "exact", first, apart) in
        let apart' : (k == j) ≡ false = ground (arith, eq_iff k j, eq_iff j k, apart) in
        (h, j, w, second, sym (h j) ∙ rw (apart', eq_refl j) refl)
    | inr other ↦ (h, k, v, other, sym (h k) ∙ rw (eq_refl k) refl)
  ]

  read_lookups-IsFound : IsFound (read_lookups get field lookup_suffixes [] []).0
  read_lookups-IsFound name =
      lookup-read_lookups get field name lookup_suffixes [] [] lookup_suffixes-IsDict
      ∙ or_text-none (listed_in get field name lookup_suffixes)
      ∙ listed_in-table_of get field name lookups

  -- The value is None exactly where no parameter of the field is given, the text of the exact one where
  -- it is the only one given, and otherwise a dict with just the lookups whose parameters are
  -- given and their texts; an empty parameter counts as none. The active pairs are the parameters of
  -- the field that are given.
  pub parse_filter_params_lem :
      (key : String)
      → IsReading (parse_filter_params get field).0
        × (lookup key (parse_filter_params get field).1
            ≡ (if is_of_field field key then given (get key) else none))
  unfolding parse_filter_params
  parse_filter_params_lem key = (
    value_of-IsReading (read_lookups get field lookup_suffixes [] []).0
        (read_lookups-IsDict get field lookup_suffixes [] [] tt) read_lookups-IsFound,
    lookup-active get field key lookup_suffixes [] []
        ∙ or_text-none (if is_parameter field key lookup_suffixes then given (get key) else none)
        ∙ ap (λ b. if b then given (get key) else none) (is_parameter-table_of field key lookups),
  )

-- ===== src/Widgets/Resolution.antt =====
-- Which widgets fastapi_admin_kit/widgets/resolver.py gives to columns.
use fastapi_admin_kit.Base.{
  ℕ, String, Bool, true, false, Option, none, some, List, [], ◌∷◌, any, codes, ◌==◌, if◌then◌else◌,
  ◌≡◌, refl, arith, Option-cases, inl, inr, eq_iff,
}
use fastapi_admin_kit.Base.Dict.{Dict, lookup}
use fastapi_admin_kit.Base.Text.{Unicode, is_infix}
use fastapi_admin_kit.Widgets.{
  Widget, plain, text_input, select, ColumnType, WidgetColumn, register_type, register_name, is_in,
  find_type, length_of, widget_of, python_type_map, find_pattern, choices, resolve_python,
  resolve_type, resolve, widget_registry,
}

abbrev pub is_password : Widget → Bool
is_password (plain w) = w == "PasswordWidget"
is_password (text_input n) = false
is_password (select vs c) = false

-- A type map in which no type has the password widget.
abbrev FreeOfPasswords : Dict String → Type 0
FreeOfPasswords types = any (λ p. p.1 == "PasswordWidget") types ≡ false

find_type-FreeOfPasswords :
    (classes : List String) (types : Dict String) (w : String)
    → FreeOfPasswords types
    → find_type classes types ≡ some w
    → (w == "PasswordWidget") ≡ false
unfolding find_type
find_type-FreeOfPasswords classes [] w h e = ground (arith, e)
find_type-FreeOfPasswords classes ((t, v) ∷ types) w h e =
    ground (arith, e, h, find_type-FreeOfPasswords classes types w)

widget_of_free :
    (w : String) (n : Option ℕ)
    → (w == "PasswordWidget") ≡ false
    → is_password (widget_of w n) ≡ false
widget_of_free w none h = h
widget_of_free w (some n) h = ground (arith, h)

module _ (title : String → String) (sa_classes : String → List String) where
  resolve_python-FreeOfPasswords :
      (t : Option String) (types : Dict String)
      → FreeOfPasswords types
      → is_password (resolve_python title sa_classes t types) ≡ false
  unfolding resolve_python
  resolve_python-FreeOfPasswords none types h = refl
  resolve_python-FreeOfPasswords (some t) types h = elim (Option-cases (lookup t python_type_map)) [
    | inl e ↦ ground (arith, e)
    | inr (sa, e) ↦ elim (Option-cases (find_type (sa_classes sa) types)) [
      | inl f ↦ ground (arith, e, f)
      | inr (w, f) ↦ ground (arith, e, f, find_type-FreeOfPasswords (sa_classes sa) types w h f)
    ]
  ]

  resolve_type-FreeOfPasswords :
      (t : ColumnType) (types : Dict String)
      → FreeOfPasswords types
      → is_password (resolve_type title sa_classes t types) ≡ false
  unfolding resolve_type
  resolve_type-FreeOfPasswords t types h = by_enums t.enums
    where
      by_class :
          (o : Option String)
          → find_type t.classes types ≡ o
          → is_password (elim o [
            | some w ↦ widget_of w (length_of t.length)
            | none ↦ resolve_python title sa_classes t.python_type types
          ])
            ≡ false
      by_class none e = resolve_python-FreeOfPasswords t.python_type types h
      by_class (some w) e =
          widget_of_free w (length_of t.length) (find_type-FreeOfPasswords t.classes types w h e)

      by_enums :
          (vs : List String)
          → is_password (elim vs [
            | v ∷ vs' ↦ select (choices title sa_classes (v ∷ vs')) t.enum_class
            | [] ↦ elim (find_type t.classes types) [
              | some w ↦ widget_of w (length_of t.length)
              | none ↦ resolve_python title sa_classes t.python_type types
            ]
          ])
            ≡ false
      by_enums [] = by_class (find_type t.classes types) refl
      by_enums (v ∷ vs) = refl

-- The names that are kept secret.
abbrev pub secret_words : List String
secret_words = "password" ∷ "secret" ∷ "token" ∷ []

abbrev pub is_secret : Unicode → String → Bool
is_secret u name = any (λ p. is_infix (u.lower (codes p)) (u.lower (codes name))) secret_words

widget_registry_patterns :
    (u : Unicode) (name : List ℕ)
    → find_pattern name (widget_registry u).name_patterns ≡ (
        if any (λ p. is_infix (u.lower (codes p)) name) secret_words
        then some "PasswordWidget"
        else none)
unfolding find_pattern widget_registry register_name register_type
widget_registry_patterns u name = ground arith

widget_registry-FreeOfPasswords : (u : Unicode) → FreeOfPasswords (widget_registry u).type_map
unfolding widget_registry register_name register_type
widget_registry-FreeOfPasswords u = refl

-- With the widgets that the module registers, a column has the password widget exactly if its name
-- contains one of the secret words, in any case, whatever its type, keys and length.
pub resolve-is_secret :
    (u : Unicode) (title : String → String) (sa_classes : String → List String) (col : WidgetColumn)
    → is_password (resolve u title sa_classes (widget_registry u) col) ≡ is_secret u col.name
unfolding resolve
resolve-is_secret u title sa_classes col =
    by_pattern (find_pattern (u.lower (codes col.name)) (widget_registry u).name_patterns)
      (widget_registry_patterns u (u.lower (codes col.name)))
  where
    by_keys :
        (keys : List String)
        → is_password (elim keys [
          | _ ∷ _ ↦ plain "RelationPickerWidget"
          | [] ↦ resolve_type title sa_classes col.type (widget_registry u).type_map
        ])
          ≡ false
    by_keys [] =
        resolve_type-FreeOfPasswords title sa_classes col.type (widget_registry u).type_map
          (widget_registry-FreeOfPasswords u)
    by_keys (k ∷ ks) = refl

    by_pattern :
        (o : Option String)
        → o ≡ (if is_secret u col.name then some "PasswordWidget" else none)
        → is_password (elim o [
          | some w ↦ plain w
          | none ↦ elim col.foreign_keys [
            | _ ∷ _ ↦ plain "RelationPickerWidget"
            | [] ↦ resolve_type title sa_classes col.type (widget_registry u).type_map
          ]
        ])
          ≡ is_secret u col.name
    by_pattern none e = ground (arith, e, by_keys col.foreign_keys)
    by_pattern (some w) e = ground (arith, e, eq_iff w "PasswordWidget")

find_type-first :
    (u : Unicode) (classes : List String)
    → is_in "String" classes ≡ true
    → find_type classes (widget_registry u).type_map ≡ some "TextInputWidget"
unfolding find_type widget_registry register_name register_type
find_type-first u classes h = rw h refl

-- With the widgets that the module registers, a column without a secret word in its name, a foreign
-- key or enumerated values gets the one-line text input if its type is a `String`, even if it is a
-- `Text` as well: the text area that is registered for `Text` is not reached.
pub resolve-String :
    (u : Unicode) (title : String → String) (sa_classes : String → List String) (col : WidgetColumn)
    → is_secret u col.name ≡ false
    → col.foreign_keys ≡ []
    → col.type.enums ≡ []
    → is_in "String" col.type.classes ≡ true
    → resolve u title sa_classes (widget_registry u) col
      ≡ widget_of "TextInputWidget" (length_of col.type.length)
unfolding resolve resolve_type
resolve-String u title sa_classes col secret keys enums h = ground (
  arith,
  widget_registry_patterns u (u.lower (codes col.name)),
  secret,
  keys,
  enums,
  find_type-first u col.type.classes h,
)

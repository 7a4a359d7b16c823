-- ===== src/Widgets.antt =====
-- The widget registry and the resolver: fastapi_admin_kit/widgets/registry.py and resolver.py. Classes
-- go by their names; a type knows the classes that it is an instance of.
pub mod Resolution
pub mod Names
mod Tests
use fastapi_admin_kit.Base.{
  ℕ, String, Bool, true, false, not, ◌&&◌, ◌||◌, Option, none, some, List, [], ◌∷◌, ◌++◌, map, any,
  keep, codes, ltb, ◌==◌, if◌then◌else◌,
}
use fastapi_admin_kit.Base.Dict.{Dict, lookup, insert, erase, contains}
use fastapi_admin_kit.Base.Text.{Unicode, eq_codes, is_infix}

-- What the resolver builds: a widget of a class without arguments, or one with.
pub data Widget : Type 0 where
  plain : String → Widget
  text_input : ℕ → Widget
  select : List (String × String) → Option String → Widget

-- `type_map`, and `name_patterns` in lower case.
pub record WidgetRegistry : Type 0 where
  pub type_map : Dict String
  pub name_patterns : List (List ℕ × String)

-- A column's type: the classes that `isinstance` knows it by, what a SQLAlchemy type has of `enums`,
-- `enum_class` and `length`, and the name of a Python type.
pub record ColumnType : Type 0 where
  pub classes : List String
  pub enums : List String
  pub enum_class : Option String
  pub length : Option ℕ
  pub python_type : Option String

pub record WidgetColumn : Type 0 where
  pub name : String
  pub foreign_keys : List String
  pub type : ColumnType

abbrev pub empty_registry : WidgetRegistry
empty_registry = record { type_map = []; name_patterns = [] }

unfoldable pub register_type : String → String → WidgetRegistry → WidgetRegistry
register_type t w r = record r { type_map = insert t w r.type_map }

unfoldable pub unregister_type : String → WidgetRegistry → WidgetRegistry
unregister_type t r = record r { type_map = erase t r.type_map }

unfoldable pub has_type : String → WidgetRegistry → Bool
has_type t r = contains t r.type_map

unfoldable pub clear : WidgetRegistry → WidgetRegistry
clear r = record { type_map = []; name_patterns = [] }

abbrev pub is_in : String → List String → Bool
is_in name names = any (λ n. n == name) names

-- `PYTHON_TYPE_MAP`
abbrev pub python_type_map : Dict String
python_type_map =
    ("int", "Integer") ∷ ("str", "String") ∷ ("float", "Float") ∷ ("bool", "Boolean") ∷ []

-- The loop over the type map.
unfoldable pub find_type : List String → Dict String → Option String
find_type classes [] = none
find_type classes ((t, w) ∷ types) = if is_in t classes then some w else find_type classes types

-- A length that is set and not zero.
abbrev pub length_of : Option ℕ → Option ℕ
length_of none = none
length_of (some n) = if ltb 0 n then some n else none

abbrev pub widget_of : String → Option ℕ → Widget
widget_of w none = plain w
widget_of w (some n) = if w == "TextInputWidget" then text_input n else plain w

module _ (u : Unicode) where
  unfoldable pub register_name : String → String → WidgetRegistry → WidgetRegistry
  register_name pattern w r = record r {
    name_patterns = r.name_patterns ++ (u.lower (codes pattern), w) ∷ [];
  }

  unfoldable pub unregister_name : String → WidgetRegistry → WidgetRegistry
  unfolding eq_codes
  unregister_name pattern r = record r {
    name_patterns = keep (λ p. not (eq_codes p.0 (u.lower (codes pattern)))) r.name_patterns;
  }

  unfoldable pub has_name : String → WidgetRegistry → Bool
  unfolding eq_codes
  has_name pattern r = any (λ p. eq_codes p.0 (u.lower (codes pattern))) r.name_patterns

-- The loop over the patterns.
unfoldable pub find_pattern : List ℕ → List (List ℕ × String) → Option String
unfolding is_infix
find_pattern name [] = none
find_pattern name ((p, w) ∷ patterns) =
    if is_infix p name then some w else find_pattern name patterns

-- `title` is `replace("_", " ").title()`, and `sa_classes` what `isinstance` knows a type of
-- SQLAlchemy by.
module _ (title : String → String) (sa_classes : String → List String) where
  abbrev pub choices : List String → List (String × String)
  choices enums = map (λ v. (v, title v)) enums

  unfoldable pub resolve_python : Option String → Dict String → Widget
  unfolding find_type
  resolve_python none types = plain "TextInputWidget"
  resolve_python (some t) types = elim (lookup t python_type_map) [
    | none ↦ plain "TextInputWidget"
    | some sa ↦ elim (find_type (sa_classes sa) types) [
      | some w ↦ plain w
      | none ↦ plain "TextInputWidget"
    ]
  ]

  unfoldable pub resolve_type : ColumnType → Dict String → Widget
  unfolding find_type resolve_python
  resolve_type t types = elim t.enums [
    | v ∷ vs ↦ select (choices (v ∷ vs)) t.enum_class
    | [] ↦ elim (find_type t.classes types) [
      | some w ↦ widget_of w (length_of t.length)
      | none ↦ resolve_python t.python_type types
    ]
  ]

module _ (u : Unicode) where
  -- The registry that the module sets up.
  unfoldable pub widget_registry : WidgetRegistry
  unfolding register_type register_name
  widget_registry =
      let r1 = register_type "String" "TextInputWidget" empty_registry in
      let r2 = register_type "Text" "TextareaWidget" r1 in
      let r3 = register_type "Integer" "NumberInputWidget" r2 in
      let r4 = register_type "Float" "NumberInputWidget" r3 in
      let r5 = register_type "Numeric" "NumberInputWidget" r4 in
      let r6 = register_type "Boolean" "ToggleWidget" r5 in
      let r7 = register_type "Date" "DatePickerWidget" r6 in
      let r8 = register_type "DateTime" "DateTimePickerWidget" r7 in
      let r9 = register_type "LargeBinary" "FileUploadWidget" r8 in
      let r10 = register_type "Uuid" "TextInputWidget" r9 in
      let r11 = register_name u "password" "PasswordWidget" r10 in
      let r12 = register_name u "secret" "PasswordWidget" r11 in
      register_name u "token" "PasswordWidget" r12

module _ (u : Unicode) (title : String → String) (sa_classes : String → List String) where
  unfoldable pub resolve : WidgetRegistry → WidgetColumn → Widget
  unfolding find_pattern resolve_type
  resolve r col = elim (find_pattern (u.lower (codes col.name)) r.name_patterns) [
    | some w ↦ plain w
    | none ↦ elim col.foreign_keys [
      | _ ∷ _ ↦ plain "RelationPickerWidget"
      | [] ↦ resolve_type title sa_classes col.type r.type_map
    ]
  ]

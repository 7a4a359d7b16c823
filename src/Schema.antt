-- ===== src/Schema.antt =====
-- Declarative model definitions: fastapi_admin_kit/schemas/schema.py, and the column and relation
-- metadata of fastapi_admin_kit/inspection/types.py.
use fastapi_admin_kit.Base.{ℕ, String, Bool, true, false, Option, List, [], ◌∷◌, map, ◌==◌, find}
use fastapi_admin_kit.Base.Value.{Value}

pub record Field : Type 0 where
  pub name : String
  pub type : String
  pub primary_key : Bool
  pub auto_increment : Bool
  pub nullable : Bool
  pub unique : Bool
  pub max_length : Option ℕ
  pub default : Value
  pub server_default : Option String
  pub index : Bool
  pub choices : Option (List (String × String))
  pub description : Option String

pub record Relation : Type 0 where
  pub name : String
  pub target : String
  pub type : String
  pub through : Option String
  pub back_populates : Option String

-- `indexes` has the column names of each index and its `unique` flag.
pub record Schema : Type 0 where
  pub table_name : String
  pub fields : List Field
  pub relations : List Relation
  pub indexes : List (List String × Bool)
  pub description : Option String
  pub verbose_name : Option String
  pub verbose_name_plural : Option String

unfoldable pub get_field : Schema → String → Option Field
get_field s name = find (λ f. f.name == name) s.fields

unfoldable pub get_pk_field : Schema → Option Field
get_pk_field s = find (λ f. f.primary_key) s.fields

unfoldable pub get_relation : Schema → String → Option Relation
get_relation s name = find (λ r. r.name == name) s.relations

unfoldable pub field_names : Schema → List String
field_names s = map (λ f. f.name) s.fields

unfoldable pub relation_names : Schema → List String
relation_names s = map (λ r. r.name) s.relations

pub record ColumnMeta : Type 0 where
  pub name : String
  pub type : String
  pub nullable : Bool
  pub primary_key : Bool
  pub foreign_keys : List String
  pub default : Value
  pub server_default : Option String
  pub index : Bool
  pub unique : Bool

unfoldable pub is_foreign_key : ColumnMeta → Bool
is_foreign_key c = elim c.foreign_keys [ [] ↦ false | _ ∷ _ ↦ true ]

-- The target model is the table name that it stands for; `none` is Python's `None`.
pub record RelationMeta : Type 0 where
  pub name : String
  pub direction : String
  pub target_model : Option String
  pub uselist : Bool
  pub back_populates : Option String
  pub secondary : Option String

-- ===== src/Memory/Query.antt =====
-- Query expressions, model classes and instances of fastapi_admin_kit/backends/memory.py.
use fastapi_admin_kit.Base.{String, Bool, Option, List, [], ◌∷◌}
use fastapi_admin_kit.Base.Int.{ℤ}
use fastapi_admin_kit.Base.Dict.{Dict}
use fastapi_admin_kit.Base.Value.{Value}
use fastapi_admin_kit.Schema.{Schema}

pub record MemColumn : Type 0 where
  pub name : String
  pub type_name : String
  pub primary_key : Bool

-- An `op` and the `value` that goes with it; `other` is an operator that `_matches` does not know.
pub data Test : Type 0 where
  eq ne gt lt ge le : Value → Test
  in_ : List Value → Test
  ilike : Value → Test
  other : Test

pub record MemExpr : Type 0 where
  pub name : String
  pub test : Test

pub record MemOrder : Type 0 where
  pub name : String
  pub desc : Bool

pub data Kind : Type 0 where
  and_kind or_kind : Kind

-- A predicate of a query; `opaque` is an object that is neither a `MemExpr` nor a `MemBool`.
mutual
  pub data Condition : Type 0 where
    expr : MemExpr → Condition
    mem_bool : Kind → Conditions → Condition
    opaque : Condition

  pub data Conditions : Type 0 where
    nil : Conditions
    cons : Condition → Conditions → Conditions

abbrev pub to_conditions : List Condition → Conditions
to_conditions [] = nil
to_conditions (c ∷ cs) = cons c (to_conditions cs)

-- A model class: its name, its `__tablename__` and `__schema__`, its column descriptors, and the
-- text that a `__str__` of its own makes of an instance (the inner `none` is a raise).
pub record Model : Type 0 where
  pub class_name : String
  pub tablename : Option String
  pub schema : Option Schema
  pub columns : Dict MemColumn
  pub to_text : Option (Dict Value → Option String)

-- An instance: its class and its `__dict__`.
pub record Obj : Type 0 where
  pub model : Model
  pub attrs : Dict Value

pub record MemQuery : Type 0 where
  pub model : Model
  pub predicates : List Condition
  pub orders : List MemOrder
  pub limit : Option ℤ
  pub offset : Option ℤ
  pub is_count : Bool

-- An argument of `order_by`; `ignored` is of a class that the method passes over.
pub data OrderArg : Type 0 where
  order : MemOrder → OrderArg
  column : MemColumn → OrderArg
  name : String → OrderArg
  ignored : OrderArg

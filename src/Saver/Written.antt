-- ===== src/Saver/Written.antt =====
-- Which attributes a form can write, fastapi_admin_kit/views/model_saver.py.
use mathlib.Core.List.{Memᴰ}
use fastapi_admin_kit.Base.{String, true, false, some, List, ◌∷◌, ◌≡◌, ◌⊎◌}
use fastapi_admin_kit.Base.Dict.{Dict, lookup}
use fastapi_admin_kit.Saver.{Relation, is_m2m, is_among}

-- A relationship to one object with that local column first.
abbrev pub IsRelated : List Relation → String → String → Type 0
IsRelated relations name column =
    (r : Relation) × (cs : List String) × Memᴰ r relations
    × (r.name ≡ name)
    × (is_m2m r ≡ false)
    × (r.local_columns ≡ column ∷ cs)

abbrev IsFkMap : List Relation → Dict String → Type 0
IsFkMap relations fks =
    (name column : String) → lookup name fks ≡ some column → IsRelated relations name column

module _ (V : Type 0) (readonly columns : List String) (relations : List Relation) where
  -- A field that may write the attribute: a column of this name, or a relationship with this column.
  abbrev pub IsAllowed : String → String → Type 0
  IsAllowed k name =
      (is_among name readonly ≡ false)
      × (((name ≡ k) × (is_among k columns ≡ true)) ⊎ IsRelated relations name k)

  -- The attribute holds what it held, or the value of a field that may write it.
  abbrev pub IsWritten : Dict V → Dict V → Dict V → String → Type 0
  IsWritten parsed obj obj' k =
      (lookup k obj' ≡ lookup k obj)
      ⊎ ((name : String) × (v : V) × Memᴰ (name, v) parsed
          × (lookup k obj' ≡ some v)
          × IsAllowed k name)

  -- The same for the step of one field.
  abbrev IsStep : String → V → Dict V → Dict V → String → Type 0
  IsStep name v obj obj' k =
      (lookup k obj' ≡ lookup k obj) ⊎ ((lookup k obj' ≡ some v) × IsAllowed k name)

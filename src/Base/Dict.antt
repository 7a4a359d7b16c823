-- ===== src/Base/Dict.antt =====
-- A Python `dict` with text keys: an association list in insertion order.

use Prim.Native.String.{String}
use mathlib.Core.Path.{◌≡◌, refl}
use mathlib.Core.Logic.{◌≢◌}
use mathlib.Core.Bool.{Bool, true, false}
use mathlib.Core.Option.{Option, none, some}
use mathlib.Core.List.{List, [], ◌∷◌, ◌++◌}
use native.Mathlib.Omega.{arith}
use text.Mathlib.TextEquality.{eq_iff}
use text.Mathlib.TextPositions.{eq_refl}
use fastapi_admin_kit.Base.Tests.{◌==◌, if◌then◌else◌}

abbrev pub Dict {ℓ} : Type ℓ → Type ℓ
Dict V = List (String × V)

module _ {ℓ} {V : Type ℓ} where
  -- `d.get(k)`
  abbrev pub lookup : String → Dict V → Option V
  lookup k [] = none
  lookup k ((j, v) ∷ d) = if j == k then some v else lookup k d

  -- `d.get(k, default)`
  abbrev pub lookup_or : String → V → Dict V → V
  lookup_or k default d = elim (lookup k d) [ some v ↦ v | none ↦ default ]

  -- `k in d`
  abbrev pub contains : String → Dict V → Bool
  contains k d = elim (lookup k d) [ none ↦ false | some _ ↦ true ]

  -- `d[k] = v`
  abbrev pub insert : String → V → Dict V → Dict V
  insert k v [] = (k, v) ∷ []
  insert k v ((j, w) ∷ d) = if j == k then (j, v) ∷ d else (j, w) ∷ insert k v d

  -- `d.pop(k, None)`
  abbrev pub erase : String → Dict V → Dict V
  erase k [] = []
  erase k ((j, w) ∷ d) = if j == k then d else (j, w) ∷ erase k d

  -- `d.setdefault(k, v)`, on the dict
  abbrev pub set_default : String → V → Dict V → Dict V
  set_default k v d = elim (lookup k d) [ none ↦ insert k v d | some _ ↦ d ]

  abbrev pub keys : Dict V → List String
  keys [] = []
  keys ((k, v) ∷ d) = k ∷ keys d

  abbrev pub values : Dict V → List V
  values [] = []
  values ((k, v) ∷ d) = v ∷ values d

  pub lookup-insert :
      (k j : String) (v : V) (d : Dict V)
      → lookup j (insert k v d) ≡ (if k == j then some v else lookup j d)
  lookup-insert k j v [] = refl
  lookup-insert k j v ((i, w) ∷ d) =
      ground (arith, eq_iff k j, eq_iff i k, eq_iff i j, lookup-insert k j v d)

  pub lookup-insert_self : (k : String) (v : V) (d : Dict V) → lookup k (insert k v d) ≡ some v
  lookup-insert_self k v d = simp (lookup-insert, eq_refl)

  pub lookup-insert_ne :
      (k j : String) (v : V) (d : Dict V) → k ≢ j → lookup j (insert k v d) ≡ lookup j d
  lookup-insert_ne k j v d h = ground (arith, lookup-insert k j v d, eq_iff k j)

  pub lookup-set_default :
      (k j : String) (v : V) (d : Dict V)
      → lookup j (set_default k v d) ≡ (if k == j then some (lookup_or k v d) else lookup j d)
  lookup-set_default k j v d = ground (arith, lookup-insert k j v d, eq_iff k j)

-- No key stands twice: what the dicts of Python keep to.
abbrev pub IsDict {ℓ} : {V : Type ℓ} → Dict V → Type ℓ
IsDict [] = Unit
IsDict ((k, v) ∷ d) = (lookup k d ≡ none) × IsDict d

module _ {ℓ} {V : Type ℓ} where
  pub insert_new-append :
      (k : String) (v : V) (d : Dict V) → lookup k d ≡ none → insert k v d ≡ d ++ (k, v) ∷ []
  insert_new-append k v [] e = refl
  insert_new-append k v ((j, w) ∷ d) e = ground (arith, insert_new-append k v d)

  ne_of_lookup-append :
      (j k : String) (v : V) (d e : Dict V) → lookup j (d ++ (k, v) ∷ e) ≡ none → (k == j) ≡ false
  ne_of_lookup-append j k v [] e h = ground arith
  ne_of_lookup-append j k v ((i, w) ∷ d) e h = ground (arith, ne_of_lookup-append j k v d e)

  pub lookup-of_IsDict-append :
      (k : String) (v : V) (d e : Dict V) → IsDict (d ++ (k, v) ∷ e) → lookup k d ≡ none
  lookup-of_IsDict-append k v [] e h = refl
  lookup-of_IsDict-append k v ((j, w) ∷ d) e (new, h) =
      let differ = ne_of_lookup-append j k v d e new in
      ground (arith, lookup-of_IsDict-append k v d e h, eq_iff j k, eq_iff k j)

  -- Of a dict, a key that was taken out is gone.
  pub lookup-erase :
      (k j : String) (d : Dict V)
      → IsDict d
      → lookup j (erase k d) ≡ (if k == j then none else lookup j d)
  lookup-erase k j [] h = ground arith
  lookup-erase k j ((i, w) ∷ d) (new, h) =
      ground (arith, eq_iff k j, eq_iff i k, eq_iff i j, lookup-erase k j d h)

  pub insert-IsDict : (k : String) (v : V) (d : Dict V) → IsDict d → IsDict (insert k v d)
  insert-IsDict k v [] h = (refl, tt)
  insert-IsDict k v ((j, w) ∷ d) (new, h) =
      ground (arith, eq_iff j k, eq_iff k j, lookup-insert k j v d, insert-IsDict k v d h)

  pub erase-IsDict : (k : String) (d : Dict V) → IsDict d → IsDict (erase k d)
  erase-IsDict k [] h = tt
  erase-IsDict k ((j, w) ∷ d) (new, h) = ground (arith, lookup-erase k j d h, erase-IsDict k d h)

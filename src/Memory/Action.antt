-- ===== src/Memory/Action.antt =====
-- The state of the in-memory backend: `_store`, a dict from table names to lists of records. A call
-- takes the store and returns its result, or the exception, with the store that is left behind.
use fastapi_admin_kit.Base.{List, ◌≡◌, ap}
use fastapi_admin_kit.Base.Dict.{Dict}
use fastapi_admin_kit.Base.Result.{Result, ok, err, Error}
use fastapi_admin_kit.Memory.Rows.{Record}

abbrev pub Store : Type 0
Store = Dict (List Record)

abbrev pub Action : Type 0 → Type 0
Action A = Store → Result A × Store

module _ {A : Type 0} where
  abbrev pub pure : A → Action A
  pure a s = (ok a, s)

  abbrev pub raise : Error → Action A
  raise e s = (err e, s)

  abbrev pub lift : Result A → Action A
  lift r s = (r, s)

infixl 5 ◌>>=◌ ◌>>◌
abbrev pub ◌>>=◌ : {A B : Type 0} → Action A → (A → Action B) → Action B
◌>>=◌ m f s = let (r, s') = m s in elim r [ ok a ↦ f a s' | err e ↦ (err e, s') ]

abbrev pub ◌>>◌ : {A B : Type 0} → Action A → Action B → Action B
m >> k = m >>= λ _. k

-- A step that succeeds hands its value and its store on.
pub >>=_of_ok :
    {A B : Type 0} (m : Action A) (k : A → Action B) (s s' : Store) (a : A)
    → m s ≡ (ok a, s')
    → (m >>= k) s ≡ k a s'
>>=_of_ok m k s s' a e = ap (λ p. elim p.0 [ ok b ↦ k b p.1 | err x ↦ (err x, p.1) ]) e

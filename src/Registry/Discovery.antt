-- ===== src/Registry/Discovery.antt =====
-- What `auto_discover` of fastapi_admin_kit/registry/core.py leaves in the registry.
use fastapi_admin_kit.Base.{
  ℕ, String, true, false, not, ◌&&◌, ◌||◌, Option, none, some, List, [], ◌∷◌, ◌++◌, any, All, ◌≡◌,
  refl, arith, ◌==◌, nat_eq, if◌then◌else◌, eq_iff, eq_refl, Bool-cases, Option-cases, inl, inr,
  ◌∙◌, sym, ap,
}
use fastapi_admin_kit.Base.Dict.{lookup, insert, contains, lookup-insert}
use fastapi_admin_kit.Base.Result.{ok}
use fastapi_admin_kit.Registry.{
  default_admin, unknown_fields, unknown_overrides, ModelClass, RegisteredModel, Models, is_in,
  first_pk, validate_is_sqlalchemy_model, check_conflicts, validate_model_registration,
  validate_admin_fields, build_registered_model, register, Discovering, is_skipped, maybe_register,
  discover_all, auto_discover,
}

-- What a class is registered as when it is discovered.
abbrev pub entry : ModelClass → String → RegisteredModel
entry m t = record {
  model = m;
  admin = default_admin;
  table_name = t;
  pk_field = first_pk m.columns;
}

register_free :
    (models : Models) (m : ModelClass) (t : String)
    → m.tablename ≡ some t
    → lookup t models ≡ none
    → register models m none ≡ ok (entry m t, insert t (entry m t) models)
unfolding register build_registered_model validate_model_registration validate_admin_fields
    validate_is_sqlalchemy_model check_conflicts unknown_fields unknown_overrides
register_free models m t named free = ground (arith, named, free)

-- The first class with that table name, unless it is excluded, as it is registered.
abbrev pub first_named : List String → String → List ModelClass → Option RegisteredModel
first_named excluded t [] = none
first_named excluded t (m ∷ ms) = elim m.tablename [
  | none ↦ first_named excluded t ms
  | some s ↦
      if s == t && not (is_in excluded t) then some (entry m t) else first_named excluded t ms
]

abbrev pub or_else : Option RegisteredModel → Option RegisteredModel → Option RegisteredModel
or_else (some r) s = some r
or_else none s = s

-- Every class that was seen would be skipped.
abbrev Settled : List String → (ℕ → Option String) → Discovering → Type 0
Settled excluded table d =
    (i : ℕ) → any (λ j. nat_eq j i) d.seen ≡ true → is_skipped excluded d.models (table i) ≡ true

-- One class, as if the classes seen were not remembered.
abbrev add_class : List String → ModelClass → Models → Models
add_class excluded m models = elim m.tablename [
  | none ↦ models
  | some t ↦ if contains t models || is_in excluded t then models else insert t (entry m t) models
]

lookup-add_class :
    (excluded : List String) (m : ModelClass) (models : Models) (t : String)
    → lookup t (add_class excluded m models)
      ≡ or_else (lookup t models) (first_named excluded t (m ∷ []))
lookup-add_class excluded m models t = elim (Option-cases m.tablename) [
  | inl e ↦ ground (arith, e)
  | inr (s, e) ↦ ground (arith, e, eq_iff s t, lookup-insert s t (entry m s) models)
]

is_skipped-add_class :
    (excluded : List String) (m : ModelClass) (models : Models) (o : Option String)
    → is_skipped excluded models o ≡ true
    → is_skipped excluded (add_class excluded m models) o ≡ true
unfolding is_skipped
is_skipped-add_class excluded m models none h = refl
is_skipped-add_class excluded m models (some t) h =
    ground (arith, lookup-add_class excluded m models t)

add_class-is_skipped :
    (excluded : List String) (m : ModelClass) (models : Models)
    → is_skipped excluded (add_class excluded m models) m.tablename ≡ true
unfolding is_skipped
add_class-is_skipped excluded m models = elim (Option-cases m.tablename) [
  | inl e ↦ ground (arith, e)
  | inr (s, e) ↦ ground (arith, e, eq_refl s, lookup-insert s s (entry m s) models)
]

add_class_of_skipped :
    (excluded : List String) (m : ModelClass) (models : Models)
    → is_skipped excluded models m.tablename ≡ true
    → add_class excluded m models ≡ models
unfolding is_skipped
add_class_of_skipped excluded m models h = elim (Option-cases m.tablename) [
  | inl e ↦ ground (arith, e)
  | inr (s, e) ↦ ground (arith, e, h)
]

-- The cases of `_maybe_register`.
maybe_register_seen :
    (excluded : List String) (m : ModelClass) (d : Discovering)
    → any (λ i. nat_eq i m.identity) d.seen ≡ true
    → maybe_register excluded m d ≡ ok d
unfolding maybe_register
maybe_register_seen excluded m d h = ground (arith, h)

abbrev see : ModelClass → Discovering → Discovering
see m d = record d { seen = m.identity ∷ d.seen }

maybe_register_skipped :
    (excluded : List String) (m : ModelClass) (d : Discovering)
    → any (λ i. nat_eq i m.identity) d.seen ≡ false
    → is_skipped excluded d.models m.tablename ≡ true
    → maybe_register excluded m d ≡ ok (see m d)
unfolding maybe_register
maybe_register_skipped excluded m d h k = ground (arith, h, k)

abbrev add_found : ModelClass → String → Discovering → Discovering
add_found m t d = record {
  models = insert t (entry m t) d.models;
  seen = m.identity ∷ d.seen;
  discovered = d.discovered ++ entry m t ∷ [];
}

maybe_register_new :
    (excluded : List String) (m : ModelClass) (t : String) (d : Discovering)
    → any (λ i. nat_eq i m.identity) d.seen ≡ false
    → m.tablename ≡ some t
    → contains t d.models || is_in excluded t ≡ false
    → maybe_register excluded m d ≡ ok (add_found m t d)
unfolding maybe_register is_skipped
maybe_register_new excluded m t d h e k =
    ground (arith, h, e, k, register_free d.models m t e (ground (arith, k)))

-- The step: the registry is as if nothing were remembered, and every class seen stays settled.
abbrev Steps : List String → (ℕ → Option String) → ModelClass → Discovering → Type 0
Steps excluded table m d =
    (d' : Discovering) × (maybe_register excluded m d ≡ ok d')
    × (d'.models ≡ add_class excluded m d.models)
    × Settled excluded table d'

see-Settled :
    (excluded : List String) (table : ℕ → Option String) (m : ModelClass) (d d' : Discovering)
    → m.tablename ≡ table m.identity
    → Settled excluded table d
    → d'.seen ≡ m.identity ∷ d.seen
    → d'.models ≡ add_class excluded m d.models
    → Settled excluded table d'
see-Settled excluded table m d d' same h e f i g = elim (Bool-cases (nat_eq m.identity i)) [
  | inl q ↦
      let at : i ≡ m.identity = ground arith in
      ground (arith, at, f, same, add_class-is_skipped excluded m d.models)
  | inr q ↦ ground (
    arith,
    f,
    e,
    g,
    is_skipped-add_class excluded m d.models (table i) (h i (ground (arith, e, g))),
  )
]

skipped_of_none :
    (excluded : List String) (m : ModelClass) (models : Models)
    → m.tablename ≡ none
    → is_skipped excluded models m.tablename ≡ false
    → ⊥
unfolding is_skipped
skipped_of_none excluded m models e h = ground (arith, e, h)

free_of_some :
    (excluded : List String) (m : ModelClass) (models : Models) (t : String)
    → m.tablename ≡ some t
    → is_skipped excluded models m.tablename ≡ false
    → contains t models || is_in excluded t ≡ false
unfolding is_skipped
free_of_some excluded m models t e h = ground (arith, e, h)

maybe_register-Steps :
    (excluded : List String) (table : ℕ → Option String) (m : ModelClass) (d : Discovering)
    → m.tablename ≡ table m.identity
    → Settled excluded table d
    → Steps excluded table m d
maybe_register-Steps excluded table m d same h =
    elim (Bool-cases (any (λ i. nat_eq i m.identity) d.seen)) [
      | inl seen ↦
          let skipped : is_skipped excluded d.models m.tablename ≡ true =
            ground (arith, same, h m.identity seen) in
          (
            d,
            maybe_register_seen excluded m d seen,
            sym (add_class_of_skipped excluded m d.models skipped),
            h,
          )
      | inr new ↦ elim (Bool-cases (is_skipped excluded d.models m.tablename)) [
        | inl skipped ↦
            let same_models = sym (add_class_of_skipped excluded m d.models skipped) in
            (
              see m d,
              maybe_register_skipped excluded m d new skipped,
              same_models,
              see-Settled excluded table m d (see m d) same h refl same_models,
            )
        | inr free ↦ elim (Option-cases m.tablename) [
          | inl e ↦ absurd (skipped_of_none excluded m d.models e free)
          | inr (t, e) ↦
              let free' = free_of_some excluded m d.models t e free in
              let added : (add_found m t d).models ≡ add_class excluded m d.models =
                ground (arith, e, free') in
              (
                add_found m t d,
                maybe_register_new excluded m t d new e free',
                added,
                see-Settled excluded table m d (add_found m t d) same h refl added,
              )
        ]
      ]
    ]

-- What the classes hold for a table that was not registered before.
or_else_first :
    (excluded : List String) (t : String) (m : ModelClass) (ms : List ModelClass)
    (o : Option RegisteredModel)
    → or_else (or_else o (first_named excluded t (m ∷ []))) (first_named excluded t ms)
      ≡ or_else o (first_named excluded t (m ∷ ms))
or_else_first excluded t m ms (some r) = refl
or_else_first excluded t m ms none = elim (Option-cases m.tablename) [
  | inl e ↦ ground (arith, e)
  | inr (s, e) ↦ ground (arith, e)
]

or_else-none : (o : Option RegisteredModel) → or_else o none ≡ o
or_else-none none = refl
or_else-none (some r) = refl

discover_all_lem :
    (excluded : List String) (table : ℕ → Option String) (ms : List ModelClass) (d : Discovering)
    → All (λ m. m.tablename ≡ table m.identity) ms
    → Settled excluded table d
    → (d' : Discovering) × (discover_all excluded ms d ≡ ok d')
      × ((t : String)
          → lookup t d'.models ≡ or_else (lookup t d.models) (first_named excluded t ms))
unfolding discover_all
discover_all_lem excluded table [] d same h = (d, refl, λ t. sym (or_else-none (lookup t d.models)))
discover_all_lem excluded table (m ∷ ms) d (one, same) h =
    let (d1, e1, models1, h1) = maybe_register-Steps excluded table m d one h in
    let (d2, e2, models2) = discover_all_lem excluded table ms d1 same h1 in
    (d2, rw e1 e2, λ t. step t d1 d2 models1 (models2 t))
  where
    step :
        (t : String) (d1 d2 : Discovering)
        → d1.models ≡ add_class excluded m d.models
        → lookup t d2.models ≡ or_else (lookup t d1.models) (first_named excluded t ms)
        → lookup t d2.models ≡ or_else (lookup t d.models) (first_named excluded t (m ∷ ms))
    step t d1 d2 f g =
        g
        ∙ ap (λ k. or_else (lookup t k) (first_named excluded t ms)) f
        ∙ ap (λ o. or_else o (first_named excluded t ms)) (lookup-add_class excluded m d.models t)
        ∙ or_else_first excluded t m ms (lookup t d.models)

-- Where the table name of a class depends on the class alone, `auto_discover` raises nothing, and
-- leaves under each table name what was registered there before, or else the first of the classes
-- with that name, unless the name is excluded; under all other names there is nothing.
pub auto_discover_lem :
    (excluded : List String) (table : ℕ → Option String) (classes : List ModelClass)
    (models : Models)
    → All (λ m. m.tablename ≡ table m.identity) classes
    → (d : Discovering) × (auto_discover excluded classes models ≡ ok d)
      × ((t : String)
          → lookup t d.models ≡ or_else (lookup t models) (first_named excluded t classes))
unfolding auto_discover
auto_discover_lem excluded table classes models same =
    discover_all_lem excluded table classes (record { models = models; seen = []; discovered = [] })
      same (λ i h. absurd (ground (arith, h)))

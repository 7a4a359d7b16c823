-- ===== src/Registry/Registration.antt =====
-- What `register` of fastapi_admin_kit/registry/core.py keeps.
use fastapi_admin_kit.Base.{
  String, Bool, true, false, not, ◌||◌, Option, none, some, List, [], ◌∷◌, ◌++◌, All, keep, ◌≡◌,
  refl, arith, ◌==◌, nat_eq, if◌then◌else◌, eq_iff, Option-cases, inl, inr, ◌∙◌, sym, ap,
}
use fastapi_admin_kit.Base.Dict.{lookup, insert, lookup-insert}
use fastapi_admin_kit.Base.Result.{Result, ok, err, value_error, ◌>>=◌}
use fastapi_admin_kit.Registry.{
  admin_of, valid_fields, unknown_fields, unknown_overrides, ModelClass, AdminClass,
  RegisteredModel, Models, is_in, first_pk, validate_is_sqlalchemy_model, check_conflicts,
  is_other_model, validate_model_registration, validate_admin_fields, build_registered_model,
  register,
}

-- The checks of `register`, the repeated ones once.
abbrev checked :
    Models → ModelClass → Option AdminClass → String → Result (RegisteredModel × Models)
checked models m a t =
    if is_other_model m (lookup t models)
    then err value_error
    else (validate_admin_fields m (some (admin_of a)) >>= λ _. ok (
      record { model = m; admin = admin_of a; table_name = t; pk_field = first_pk m.columns },
      insert t
          (record { model = m; admin = admin_of a; table_name = t; pk_field = first_pk m.columns })
          models,
    ))

register_unnamed :
    (models : Models) (m : ModelClass) (a : Option AdminClass)
    → m.tablename ≡ none
    → register models m a ≡ err value_error
unfolding register validate_model_registration validate_is_sqlalchemy_model
register_unnamed models m a e = ground (arith, e)

register_named :
    (models : Models) (m : ModelClass) (a : Option AdminClass) (t : String)
    → m.tablename ≡ some t
    → register models m a ≡ checked models m a t
unfolding register build_registered_model validate_model_registration validate_is_sqlalchemy_model
    check_conflicts
register_named models m a t e = ground (arith, e)

keep-nil : (p : String → Bool) (xs : List String) → keep p xs ≡ [] → All (λ x. p x ≡ false) xs
keep-nil p [] e = tt
keep-nil p (x ∷ xs) e = (ground (arith, e), keep-nil p xs (ground (arith, e)))

append-nil_parts : (xs ys : List String) → xs ++ ys ≡ [] → (xs ≡ []) × (ys ≡ [])
append-nil_parts [] ys e = (refl, e)
append-nil_parts (x ∷ xs) ys e = absurd (ground (arith, e))

-- Each name is a column, a relation or a public method of the admin class.
abbrev pub AllKnown : ModelClass → AdminClass → List String → Type 0
AllKnown m a names = All (λ f. is_in (valid_fields m) f || is_in a.methods f ≡ true) names

All-unknown_fields :
    (m : ModelClass) (a : AdminClass) (names : List String)
    → unknown_fields m a names ≡ []
    → AllKnown m a names
unfolding unknown_fields
All-unknown_fields m a [] e = tt
All-unknown_fields m a (x ∷ xs) e =
    (ground (arith, e), All-unknown_fields m a xs (ground (arith, e)))

-- An admin class whose lists name nothing that the model does not have.
abbrev pub IsSound : ModelClass → AdminClass → Type 0
IsSound m a =
    AllKnown m a a.list_display
    × AllKnown m a a.exclude
    × AllKnown m a a.readonly_fields
    × All (λ f. is_in (valid_fields m) f ≡ true) a.formfield_overrides

All-unknown_overrides :
    (m : ModelClass) (names : List String)
    → keep (λ f. not (is_in (valid_fields m) f)) names ≡ []
    → All (λ f. is_in (valid_fields m) f ≡ true) names
All-unknown_overrides m [] e = tt
All-unknown_overrides m (x ∷ xs) e =
    (ground (arith, e), All-unknown_overrides m xs (ground (arith, e)))

no_unknown :
    (m : ModelClass) (a : AdminClass)
    → validate_admin_fields m (some a) ≡ ok tt
    → unknown_fields m a a.list_display
        ++ unknown_fields m a a.exclude
        ++ unknown_fields m a a.readonly_fields
        ++ unknown_overrides m a
      ≡ []
unfolding validate_admin_fields
no_unknown m a e = ground (arith, e)

validate_admin_fields-IsSound :
    (m : ModelClass) (a : AdminClass) → validate_admin_fields m (some a) ≡ ok tt → IsSound m a
unfolding unknown_overrides
validate_admin_fields-IsSound m a e =
    let shown = unknown_fields m a a.list_display in
    let hidden = unknown_fields m a a.exclude in
    let fixed = unknown_fields m a a.readonly_fields in
    let (p, overrides) =
      append-nil_parts (shown ++ hidden ++ fixed) (unknown_overrides m a) (no_unknown m a e) in
    let (q, c) = append-nil_parts (shown ++ hidden) fixed p in
    let (a', b) = append-nil_parts shown hidden q in
    (
      All-unknown_fields m a a.list_display a',
      All-unknown_fields m a a.exclude b,
      All-unknown_fields m a a.readonly_fields c,
      All-unknown_overrides m a.formfield_overrides overrides,
    )

-- The model keeps the tables that it has.
abbrev pub keeps_class : Option RegisteredModel → Option RegisteredModel → Bool
keeps_class none new = true
keeps_class (some old) none = false
keeps_class (some old) (some new) = nat_eq old.model.identity new.model.identity

abbrev pub Registers : Models → ModelClass → Option AdminClass → RegisteredModel → Models → Type 0
Registers models m a r models' =
    (m.tablename ≡ some r.table_name)
    × IsSound m (admin_of a)
    × ((t : String) → lookup t models' ≡ (if r.table_name == t then some r else lookup t models))
    × ((t : String) → keeps_class (lookup t models) (lookup t models') ≡ true)

keeps_class_refl : (o : Option RegisteredModel) → keeps_class o o ≡ true
keeps_class_refl none = refl
keeps_class_refl (some r) = ground arith

keeps_class-stored :
    (models : Models) (m : ModelClass) (t s : String) (stored : RegisteredModel)
    → is_other_model m (lookup t models) ≡ false
    → stored.model ≡ m
    → keeps_class (lookup s models) (if t == s then some stored else lookup s models) ≡ true
keeps_class-stored models m t s stored free e =
    ground (arith, free, e, eq_iff t s, keeps_class_refl (lookup s models), ap (λ c. c.identity) e)

checked-Registers :
    (models : Models) (m : ModelClass) (a : Option AdminClass) (t : String) (r : RegisteredModel)
    (models' : Models)
    → m.tablename ≡ some t
    → checked models m a t ≡ ok (r, models')
    → Registers models m a r models'
checked-Registers models m a t r models' named e =
    let free : is_other_model m (lookup t models) ≡ false = ground (arith, e) in
    let sound : validate_admin_fields m (some (admin_of a)) ≡ ok tt = ground (arith, e) in
    let stored : RegisteredModel = record {
      model = m;
      admin = admin_of a;
      table_name = t;
      pk_field = first_pk m.columns;
    } in
    let same : stored ≡ r = ground (arith, e) in
    let put : insert t stored models ≡ models' = ground (arith, e) in
    let name : t ≡ r.table_name = ap (λ s. s.table_name) same in
    let stored_at : (s : String)
        → lookup s models' ≡ (if t == s then some stored else lookup s models) =
      λ s. sym (ap (lookup s) put) ∙ lookup-insert t s stored models in
    let keeps : (s : String)
        → keeps_class (lookup s models) (lookup s models')
          ≡ keeps_class (lookup s models) (if t == s then some stored else lookup s models)
        → keeps_class (lookup s models) (lookup s models') ≡ true =
      λ s f. f ∙ keeps_class-stored models m t s stored free refl in
    (
      ground (arith, named, name),
      validate_admin_fields-IsSound m (admin_of a) sound,
      λ s. stored_at s ∙ ground (arith, same, name),
      λ s. keeps s (ap (keeps_class (lookup s models)) (stored_at s)),
    )

-- A registration that succeeds was sound, and changes one entry. The class has a table name, under
-- which it now stands, and which no other class had; what the admin class lists to be shown,
-- excluded or read-only are columns, relations or its own public methods, and its overrides are for
-- columns and relations; all other tables are registered as before, and no table changes its class.
pub register-Registers :
    (models : Models) (m : ModelClass) (a : Option AdminClass) (r : RegisteredModel)
    (models' : Models)
    → register models m a ≡ ok (r, models')
    → Registers models m a r models'
register-Registers models m a r models' e = elim (Option-cases m.tablename) [
  | inl none_given ↦ absurd (ground (arith, register_unnamed models m a none_given, e))
  | inr (t, named) ↦
      checked-Registers models m a t r models' named (sym (register_named models m a t named) ∙ e)
]

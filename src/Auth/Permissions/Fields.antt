-- ===== src/Auth/Permissions/Fields.antt =====
-- The fields that the checker of fastapi_admin_kit/auth/permissions.py allows.
use fastapi_admin_kit.Base.{
  ℕ, String, Bool, true, false, ◌&&◌, Option, none, some, List, [], ◌∷◌, ◌==◌, ◌≡◌, refl,
  if◌then◌else◌, arith, inl, inr, Bool-cases, Option-cases,
}
use fastapi_admin_kit.Base.Value.{Value}
use fastapi_admin_kit.Auth.Permissions.{
  lookup_pair, insert_pair, PermissionChecker, new_checker, is_anonymous, get_allowed_fields,
}
use fastapi_admin_kit.Auth.Permissions.Granted.{lookup_pair-insert_pair}

-- The requests for fields, the first one first.
unfoldable pub ask_fields : List (String × String) → PermissionChecker → PermissionChecker
unfolding get_allowed_fields
ask_fields [] c = c
ask_fields ((table, mode) ∷ asked) c = ask_fields asked (get_allowed_fields table mode c).1

-- No field for a user without an id and without roles; no restriction for all others.
abbrev pub fields_of : Bool → List ℕ → Option Value → Option (List String)
fields_of true roles user = none
fields_of false [] none = some []
fields_of false [] (some id) = none
fields_of false (r ∷ rs) user = none

abbrev Consistent : Bool → List ℕ → Option Value → PermissionChecker → Type 0
Consistent superuser roles user c =
    (c.is_superuser ≡ superuser)
    × (c.role_ids ≡ roles)
    × (c.user_id ≡ user)
    × ((t m : String) (f : Option (List String))
        → lookup_pair t m c.field_cache ≡ some f
        → f ≡ fields_of superuser roles user)

fields_of-is_anonymous :
    (roles : List ℕ) (user : Option Value) (c : PermissionChecker)
    → c.role_ids ≡ roles
    → c.user_id ≡ user
    → (if is_anonymous c then some [] else none) ≡ fields_of false roles user
fields_of-is_anonymous [] none c r u = ground (arith, r, u)
fields_of-is_anonymous [] (some id) c r u = ground (arith, r, u)
fields_of-is_anonymous (x ∷ xs) user c r u = ground (arith, r, u)

get_allowed_fields_superuser :
    (t m : String) (c : PermissionChecker)
    → c.is_superuser ≡ true
    → get_allowed_fields t m c ≡ (none, c)
unfolding get_allowed_fields
get_allowed_fields_superuser t m c s = ground (arith, s)

get_allowed_fields_hit :
    (t m : String) (c : PermissionChecker) (f : Option (List String))
    → c.is_superuser ≡ false
    → lookup_pair t m c.field_cache ≡ some f
    → get_allowed_fields t m c ≡ (f, c)
unfolding get_allowed_fields
get_allowed_fields_hit t m c f s e = ground (arith, s, e)

store_fields : String → String → Option (List String) → PermissionChecker → PermissionChecker
store_fields t m f c = record c { field_cache = insert_pair t m f c.field_cache }

get_allowed_fields_miss :
    (t m : String) (c : PermissionChecker) (f : Option (List String))
    → c.is_superuser ≡ false
    → lookup_pair t m c.field_cache ≡ none
    → (if is_anonymous c then some [] else none) ≡ f
    → get_allowed_fields t m c ≡ (f, store_fields t m f c)
unfolding get_allowed_fields store_fields
get_allowed_fields_miss t m c f s e a = ground (arith, s, e, a)

store_fields-Consistent :
    (roles : List ℕ) (user : Option Value) (t m : String) (c : PermissionChecker)
    → Consistent false roles user c
    → Consistent false roles user (store_fields t m (fields_of false roles user) c)
unfolding store_fields
store_fields-Consistent roles user t m c (s, r, u, h) = (s, r, u, known)
  where
    f : Option (List String)
    f = fields_of false roles user

    known :
        (t' m' : String) (g : Option (List String))
        → lookup_pair t' m' (insert_pair t m f c.field_cache) ≡ some g
        → g ≡ f
    known t' m' g e = elim (Bool-cases (t == t' && m == m')) [
      | inl q ↦ ground (arith, e, lookup_pair-insert_pair t m t' m' f c.field_cache)
      | inr q ↦ h t' m' g (ground (arith, e, lookup_pair-insert_pair t m t' m' f c.field_cache))
    ]

get_allowed_fields-Consistent :
    (superuser : Bool) (roles : List ℕ) (user : Option Value) (t m : String) (c : PermissionChecker)
    → Consistent superuser roles user c
    → ((get_allowed_fields t m c).0 ≡ fields_of superuser roles user)
      × Consistent superuser roles user (get_allowed_fields t m c).1
get_allowed_fields-Consistent true roles user t m c (s, r, u, h) =
    rw (get_allowed_fields_superuser t m c s) (refl, (s, r, u, h))
get_allowed_fields-Consistent false roles user t m c (s, r, u, h) =
    elim (Option-cases (lookup_pair t m c.field_cache)) [
      | inr (f, e) ↦ rw (get_allowed_fields_hit t m c f s e) (h t m f e, (s, r, u, h))
      | inl e ↦
          let f = fields_of false roles user in
          rw (get_allowed_fields_miss t m c f s e (fields_of-is_anonymous roles user c r u))
            (refl, store_fields-Consistent roles user t m c (s, r, u, h))
    ]

ask_fields-Consistent :
    (superuser : Bool) (roles : List ℕ) (user : Option Value) (asked : List (String × String))
    (c : PermissionChecker)
    → Consistent superuser roles user c
    → Consistent superuser roles user (ask_fields asked c)
unfolding ask_fields
ask_fields-Consistent superuser roles user [] c h = h
ask_fields-Consistent superuser roles user ((t, m) ∷ asked) c h =
    ask_fields-Consistent superuser roles user asked (get_allowed_fields t m c).1
      (get_allowed_fields-Consistent superuser roles user t m c h).1

-- Whatever fields were asked for before, a user without an id and without roles may access no field
-- of any table in any mode, and all others, and every superuser, are not restricted.
pub get_allowed_fields-ask_fields :
    (superuser : Bool) (roles : List ℕ) (user : Option Value) (asked : List (String × String))
    (table mode : String)
    → (get_allowed_fields table mode (ask_fields asked (new_checker superuser roles user))).0
      ≡ fields_of superuser roles user
get_allowed_fields-ask_fields superuser roles user asked table mode =
    let c = new_checker superuser roles user in
    let start : Consistent superuser roles user c =
      (refl, refl, refl, λ t m f e. absurd (ground (arith, e))) in
    (get_allowed_fields-Consistent superuser roles user table mode (ask_fields asked c)
      (ask_fields-Consistent superuser roles user asked c start)).0

-- ===== src/Auth/Permissions/Answers.antt =====
-- The answers of the checker of fastapi_admin_kit/auth/permissions.py over a whole request.
use fastapi_admin_kit.Base.{
  ℕ, String, Bool, true, false, ◌||◌, Option, some, List, [], ◌∷◌, ◌≡◌, refl, arith, eq_iff, inl,
  inr, Option-cases,
}
use fastapi_admin_kit.Base.Value.{Value}
use fastapi_admin_kit.Auth.Permissions.{
  PermissionSet, all_permissions, Grants, lookup_pair, PermissionChecker, new_checker,
  load_role_permissions, load_direct_permissions, get_merged_permission, has_permission,
  permission_set, load_permissions,
}
use fastapi_admin_kit.Auth.Permissions.Granted.{
  is_granted, Coherent, remember, has_permission-Remembers, has_permission_hit, has_permission_miss,
  get_merged_permission-Coherent, lookup_pair-insert_pair,
}

-- The questions that a request asks, the first one first.
unfoldable pub ask : Grants → List (String × String) → PermissionChecker → PermissionChecker
unfolding has_permission
ask db [] c = c
ask db ((table, action) ∷ asked) c = ask db asked (has_permission db table action c).1

ask-Coherent :
    (db : Grants) (roles : List ℕ) (user : Option Value) (asked : List (String × String))
    (c : PermissionChecker)
    → Coherent db roles user c
    → Coherent db roles user (ask db asked c)
unfolding ask
ask-Coherent db roles user [] c h = h
ask-Coherent db roles user ((t, a) ∷ asked) c h =
    let (_, ok, _) = has_permission-Remembers db roles user t a c h in
    ask-Coherent db roles user asked (has_permission db t a c).1 ok

ask-superuser :
    (db : Grants) (asked : List (String × String)) (c : PermissionChecker)
    → c.is_superuser ≡ true
    → ask db asked c ≡ c
unfolding ask has_permission
ask-superuser db [] c s = refl
ask-superuser db ((t, a) ∷ asked) c s = ground (arith, s, ask-superuser db asked c s)

has_permission-superuser :
    (db : Grants) (t a : String) (c : PermissionChecker)
    → c.is_superuser ≡ true
    → has_permission db t a c ≡ (true, c)
unfolding has_permission
has_permission-superuser db t a c s = ground (arith, s)

new_checker-Coherent :
    (db : Grants) (roles : List ℕ) (user : Option Value)
    → Coherent db roles user (new_checker false roles user)
new_checker-Coherent db roles user = (refl, refl, refl, tt, tt, λ t a b e. absurd (ground arith))

-- Whatever the request has asked before, an action on a table is allowed exactly when the user is
-- a superuser, or some permission row of one of the user's roles or of the user names that table
-- and allows that action.
pub has_permission-ask :
    (db : Grants) (superuser : Bool) (roles : List ℕ) (user : Option Value)
    (asked : List (String × String)) (table action : String)
    → (has_permission db table action (ask db asked (new_checker superuser roles user))).0
      ≡ superuser || is_granted db roles user table action
has_permission-ask db true roles user asked table action =
    let c = new_checker true roles user in
    ground (arith, ask-superuser db asked c refl, has_permission-superuser db table action c refl)
has_permission-ask db false roles user asked table action =
    let c = new_checker false roles user in
    let ok = ask-Coherent db roles user asked c (new_checker-Coherent db roles user) in
    (has_permission-Remembers db roles user table action (ask db asked c) ok).0

cache-get_merged_permission :
    (db : Grants) (t a : String) (c : PermissionChecker)
    → (get_merged_permission db t a c).1.cache ≡ c.cache
unfolding get_merged_permission load_role_permissions load_direct_permissions
cache-get_merged_permission db t a c = ground arith

-- The cache holds the answer.
abbrev Knows : Grants → List ℕ → Option Value → String → String → PermissionChecker → Type 0
Knows db roles user t a c = lookup_pair t a c.cache ≡ some (is_granted db roles user t a)

remember-Knows :
    (db : Grants) (roles : List ℕ) (user : Option Value) (t a t' a' : String) (b : Bool)
    (c : PermissionChecker)
    → b ≡ is_granted db roles user t' a'
    → Knows db roles user t a c
    → Knows db roles user t a (remember t' a' (b, c)).1
unfolding remember
remember-Knows db roles user t a t' a' b c same known =
    ground (arith, same, lookup_pair-insert_pair t' a' t a b c.cache, eq_iff t' t, eq_iff a' a)

has_permission-Knows :
    (db : Grants) (roles : List ℕ) (user : Option Value) (t a t' a' : String)
    (c : PermissionChecker)
    → Coherent db roles user c
    → Knows db roles user t a c
    → Knows db roles user t a (has_permission db t' a' c).1
has_permission-Knows db roles user t a t' a' c h known =
    elim (Option-cases (lookup_pair t' a' c.cache)) [
      | inr (b, e) ↦ rw (has_permission_hit db t' a' c b h.0 e) known
      | inl e ↦
          let (b, c') = get_merged_permission db t' a' c in
          let (same, ok) = get_merged_permission-Coherent db roles user t' a' c h in
          rw (has_permission_miss db t' a' c h.0 e) (
            remember-Knows db roles user t a t' a' (get_merged_permission db t' a' c).0
              (get_merged_permission db t' a' c).1 same
              (ground (arith, cache-get_merged_permission db t' a' c, known)))
    ]

-- The set whose six fields are the answers for the table.
abbrev pub granted_set : Grants → Bool → List ℕ → Option Value → String → PermissionSet
granted_set db superuser roles user table = record {
  can_view = superuser || is_granted db roles user table "view";
  can_create = superuser || is_granted db roles user table "create";
  can_edit = superuser || is_granted db roles user table "edit";
  can_delete = superuser || is_granted db roles user table "delete";
  can_export = superuser || is_granted db roles user table "export";
  can_import = superuser || is_granted db roles user table "import";
}

-- The checker after the questions, every answer known.
abbrev AllKnow : Grants → List ℕ → Option Value → String → List String → PermissionChecker → Type 0
AllKnow db roles user t [] c = Unit
AllKnow db roles user t (a ∷ actions) c =
    Knows db roles user t a c × AllKnow db roles user t actions c

has_permission-AllKnow :
    (db : Grants) (roles : List ℕ) (user : Option Value) (t a' : String) (actions : List String)
    (c : PermissionChecker)
    → Coherent db roles user c
    → AllKnow db roles user t actions c
    → Coherent db roles user (has_permission db t a' c).1
      × AllKnow db roles user t (a' ∷ actions) (has_permission db t a' c).1
has_permission-AllKnow db roles user t a' actions c h known =
    let (_, ok, now) = has_permission-Remembers db roles user t a' c h in
    (ok, (now, go actions known))
  where
    go :
        (actions : List String)
        → AllKnow db roles user t actions c
        → AllKnow db roles user t actions (has_permission db t a' c).1
    go [] known = tt
    go (a ∷ actions) (one, known) =
        (has_permission-Knows db roles user t a t a' c h one, go actions known)

permission_set-AllKnow :
    (db : Grants) (roles : List ℕ) (user : Option Value) (t : String) (c : PermissionChecker)
    → c.is_superuser ≡ false
    → AllKnow db roles user t ("import" ∷ "export" ∷ "delete" ∷ "edit" ∷ "create" ∷ "view" ∷ []) c
    → permission_set t c ≡ granted_set db false roles user t
unfolding permission_set
permission_set-AllKnow db roles user t c s (i, (x, (d, (e, (n, (v, tt)))))) =
    ground (arith, s, i, x, d, e, n, v)

load_permissions-Coherent :
    (db : Grants) (roles : List ℕ) (user : Option Value) (t : String) (c : PermissionChecker)
    → Coherent db roles user c
    → (load_permissions db t c).0 ≡ granted_set db false roles user t
unfolding load_permissions
load_permissions-Coherent db roles user t c h =
    let (h1, k1) = has_permission-AllKnow db roles user t "view" [] c h tt in
    let c1 = (has_permission db t "view" c).1 in
    let (h2, k2) = has_permission-AllKnow db roles user t "create" ("view" ∷ []) c1 h1 k1 in
    let c2 = (has_permission db t "create" c1).1 in
    let (h3, k3) =
      has_permission-AllKnow db roles user t "edit" ("create" ∷ "view" ∷ []) c2 h2 k2 in
    let c3 = (has_permission db t "edit" c2).1 in
    let (h4, k4) =
      has_permission-AllKnow db roles user t "delete" ("edit" ∷ "create" ∷ "view" ∷ []) c3 h3 k3 in
    let c4 = (has_permission db t "delete" c3).1 in
    let (h5, k5) =
      has_permission-AllKnow db roles user t "export" ("delete" ∷ "edit" ∷ "create" ∷ "view" ∷ [])
        c4 h4 k4 in
    let c5 = (has_permission db t "export" c4).1 in
    let (h6, k6) =
      has_permission-AllKnow db roles user t "import"
        ("export" ∷ "delete" ∷ "edit" ∷ "create" ∷ "view" ∷ []) c5 h5 k5 in
    permission_set-AllKnow db roles user t (has_permission db t "import" c5).1 h6.0 k6

load_permissions-superuser :
    (db : Grants) (roles : List ℕ) (user : Option Value) (t : String)
    → (load_permissions db t (new_checker true roles user)).0 ≡ all_permissions
unfolding load_permissions has_permission permission_set
load_permissions-superuser db roles user t = refl

-- `load_permissions`, called after any questions, returns the set whose six fields are the answers
-- that `has_permission` gives: all of them for a superuser, else what the permission rows of the
-- user's roles and of the user allow on the table.
pub load_permissions-ask :
    (db : Grants) (superuser : Bool) (roles : List ℕ) (user : Option Value)
    (asked : List (String × String)) (table : String)
    → (load_permissions db table (ask db asked (new_checker superuser roles user))).0
      ≡ granted_set db superuser roles user table
load_permissions-ask db true roles user asked table =
    let c = new_checker true roles user in
    rw (ask-superuser db asked c refl) (load_permissions-superuser db roles user table)
load_permissions-ask db false roles user asked table =
    let c = new_checker false roles user in
    load_permissions-Coherent db roles user table (ask db asked c)
      (ask-Coherent db roles user asked c (new_checker-Coherent db roles user))

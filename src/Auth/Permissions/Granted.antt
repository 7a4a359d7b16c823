-- ===== src/Auth/Permissions/Granted.antt =====
-- What the checker of fastapi_admin_kit/auth/permissions.py answers, against the rows it is given.
use fastapi_admin_kit.Base.{
  true, ℕ, String, Bool, false, ◌&&◌, ◌||◌, Option, none, some, List, [], ◌∷◌, any, ◌==◌, ◌≡◌, refl,
  if◌then◌else◌, arith, eq_iff, eq_refl, inl, inr, Bool-cases, Option-cases,
}
use fastapi_admin_kit.Base.Dict.{Dict, lookup_or, lookup-insert}
use fastapi_admin_kit.Base.Value.{Value}
use fastapi_admin_kit.Auth.Permissions.{
  PermissionSet, no_permissions, Permission, Grants, PairDict, lookup_pair, insert_pair,
  PermissionChecker, grant, add_permission, add_permissions, roles_of, load_role_permissions,
  direct_of, load_direct_permissions, allows, allows_in, get_merged_permission, has_permission,
}

abbrev pub row_allows : String → String → Permission → Bool
row_allows table action perm = perm.table_name == table && allows action perm.flags

-- Some row of the user's roles, or of the user, gives the action on the table.
abbrev pub is_granted : Grants → List ℕ → Option Value → String → String → Bool
is_granted db roles user table action =
    any (row_allows table action) (roles_of db roles)
    || any (row_allows table action) (direct_of db user)

if_or :
    (test p q x y z : Bool)
    → z ≡ x || y
    → (if test then if p then true else q else z)
      ≡ (if test then p else x) || (if test then q else y)
if_or true true q x y z h = refl
if_or true false q x y z h = refl
if_or false p q x y z h = h

allows-grant :
    (action : String) (p q : PermissionSet)
    → allows action (grant p q) ≡ allows action p || allows action q
unfolding allows grant
allows-grant action p q =
    let on_import = if_or (action == "import") p.can_import q.can_import false false false refl in
    let on_export = if_or (action == "export") p.can_export q.can_export _ _ _ on_import in
    let on_delete = if_or (action == "delete") p.can_delete q.can_delete _ _ _ on_export in
    let on_edit = if_or (action == "edit") p.can_edit q.can_edit _ _ _ on_delete in
    let on_create = if_or (action == "create") p.can_create q.can_create _ _ _ on_edit in
    let on_view = if_or (action == "view") p.can_view q.can_view _ _ _ on_create in on_view

allows-no_permissions : (action : String) → allows action no_permissions ≡ false
unfolding allows
allows-no_permissions action = ground arith

allows_in-add_permission :
    (table action : String) (perm : Permission) (d : Dict PermissionSet)
    → allows_in table action (add_permission perm d)
      ≡ row_allows table action perm || allows_in table action d
allows_in-add_permission table action perm d = ground (
  arith,
  lookup-insert perm.table_name table
      (grant perm.flags (lookup_or perm.table_name no_permissions d)) d,
  allows-grant action perm.flags (lookup_or perm.table_name no_permissions d),
  allows-no_permissions action,
  eq_iff perm.table_name table,
)

allows_in-add_permissions :
    (table action : String) (perms : List Permission) (d : Dict PermissionSet)
    → allows_in table action (add_permissions perms d)
      ≡ any (row_allows table action) perms || allows_in table action d
unfolding add_permissions
allows_in-add_permissions table action [] d = refl
allows_in-add_permissions table action (perm ∷ perms) d = ground (
  arith,
  allows_in-add_permissions table action perms (add_permission perm d),
  allows_in-add_permission table action perm d,
)

pub lookup_pair-insert_pair :
    {V : Type 0} (a b c d : String) (v : V) (m : PairDict V)
    → lookup_pair c d (insert_pair a b v m)
      ≡ (if a == c && b == d then some v else lookup_pair c d m)
lookup_pair-insert_pair a b c d v [] = refl
lookup_pair-insert_pair a b c d v ((x, y, w) ∷ m) = ground (
  arith,
  lookup_pair-insert_pair a b c d v m,
  eq_iff a c,
  eq_iff b d,
  eq_iff x a,
  eq_iff y b,
  eq_iff x c,
  eq_iff y d,
)

-- A cache that, where it is filled, answers for the rows.
abbrev Answers : List Permission → Option (Dict PermissionSet) → Type 0
Answers rows none = Unit
Answers rows (some d) = (t a : String) → allows_in t a d ≡ any (row_allows t a) rows

abbrev AllKnown : Grants → List ℕ → Option Value → PairDict Bool → Type 0
AllKnown db roles user m =
    (t a : String) (b : Bool) → lookup_pair t a m ≡ some b → b ≡ is_granted db roles user t a

-- The caches hold what the session answers.
abbrev pub Coherent : Grants → List ℕ → Option Value → PermissionChecker → Type 0
Coherent db roles user c =
    (c.is_superuser ≡ false)
    × (c.role_ids ≡ roles)
    × (c.user_id ≡ user)
    × Answers (roles_of db roles) c.role_cache
    × Answers (direct_of db user) c.direct_cache
    × AllKnown db roles user c.cache

add_permissions-Answers : (rows : List Permission) → Answers rows (some (add_permissions rows []))
add_permissions-Answers rows t a = ground (arith, allows_in-add_permissions t a rows [])

-- A loader answers for its rows, and keeps the rest of the checker.
load_role_permissions_hit :
    (db : Grants) (c : PermissionChecker) (d : Dict PermissionSet)
    → c.role_cache ≡ some d
    → load_role_permissions db c ≡ (d, c)
unfolding load_role_permissions
load_role_permissions_hit db c d e = ground (arith, e)

load_role_permissions_miss :
    (db : Grants) (c : PermissionChecker)
    → c.role_cache ≡ none
    → load_role_permissions db c ≡ (
      add_permissions (roles_of db c.role_ids) [],
      record c { role_cache = some (add_permissions (roles_of db c.role_ids) []) },
    )
unfolding load_role_permissions
load_role_permissions_miss db c e = ground (arith, e)

load_direct_permissions_hit :
    (db : Grants) (c : PermissionChecker) (d : Dict PermissionSet)
    → c.direct_cache ≡ some d
    → load_direct_permissions db c ≡ (d, c)
unfolding load_direct_permissions
load_direct_permissions_hit db c d e = ground (arith, e)

load_direct_permissions_miss :
    (db : Grants) (c : PermissionChecker)
    → c.direct_cache ≡ none
    → load_direct_permissions db c ≡ (
      add_permissions (direct_of db c.user_id) [],
      record c { direct_cache = some (add_permissions (direct_of db c.user_id) []) },
    )
unfolding load_direct_permissions
load_direct_permissions_miss db c e = ground (arith, e)

load_role_permissions-Coherent :
    (db : Grants) (roles : List ℕ) (user : Option Value) (c : PermissionChecker)
    → Coherent db roles user c
    → Answers (roles_of db roles) (some (load_role_permissions db c).0)
      × Coherent db roles user (load_role_permissions db c).1
load_role_permissions-Coherent db roles user c (s, r, u, h, k, m) =
    elim (Option-cases c.role_cache) [
      | inr (d, e) ↦ rw (load_role_permissions_hit db c d e) (rw e at h, (s, r, u, h, k, m))
      | inl e ↦
          let loaded : Answers (roles_of db roles)
              (some (add_permissions (roles_of db c.role_ids) [])) =
            λ t a. ground (arith, r, add_permissions-Answers (roles_of db roles) t a) in
          rw (load_role_permissions_miss db c e) (loaded, (s, r, u, loaded, k, m))
    ]

load_direct_permissions-Coherent :
    (db : Grants) (roles : List ℕ) (user : Option Value) (c : PermissionChecker)
    → Coherent db roles user c
    → Answers (direct_of db user) (some (load_direct_permissions db c).0)
      × Coherent db roles user (load_direct_permissions db c).1
load_direct_permissions-Coherent db roles user c (s, r, u, h, k, m) =
    elim (Option-cases c.direct_cache) [
      | inr (d, e) ↦ rw (load_direct_permissions_hit db c d e) (rw e at k, (s, r, u, h, k, m))
      | inl e ↦
          let loaded : Answers (direct_of db user)
              (some (add_permissions (direct_of db c.user_id) [])) =
            λ t a. ground (arith, u, add_permissions-Answers (direct_of db user) t a) in
          rw (load_direct_permissions_miss db c e) (loaded, (s, r, u, h, loaded, m))
    ]

pub get_merged_permission-Coherent :
    (db : Grants) (roles : List ℕ) (user : Option Value) (t a : String) (c : PermissionChecker)
    → Coherent db roles user c
    → ((get_merged_permission db t a c).0 ≡ is_granted db roles user t a)
      × Coherent db roles user (get_merged_permission db t a c).1
unfolding get_merged_permission
get_merged_permission-Coherent db roles user t a c h =
    let (by_role, h') = load_role_permissions-Coherent db roles user c h in
    let c' = (load_role_permissions db c).1 in
    let (by_user, h'') = load_direct_permissions-Coherent db roles user c' h' in
    (ground (arith, by_role t a, by_user t a), h'')

insert_pair-AllKnown :
    (db : Grants) (roles : List ℕ) (user : Option Value) (t a : String) (b : Bool)
    (m : PairDict Bool)
    → b ≡ is_granted db roles user t a
    → AllKnown db roles user m
    → AllKnown db roles user (insert_pair t a b m)
insert_pair-AllKnown db roles user t a b m same h t' a' b' e =
    elim (Bool-cases (t == t' && a == a')) [
      | inl q ↦
          ground (arith, eq_iff t t', eq_iff a a', lookup_pair-insert_pair t a t' a' b m, same)
      | inr q ↦ h t' a' b' (ground (arith, lookup_pair-insert_pair t a t' a' b m))
    ]

pub has_permission_hit :
    (db : Grants) (t a : String) (c : PermissionChecker) (b : Bool)
    → c.is_superuser ≡ false
    → lookup_pair t a c.cache ≡ some b
    → has_permission db t a c ≡ (b, c)
unfolding has_permission
has_permission_hit db t a c b s e = ground (arith, s, e)

unfoldable pub remember : String → String → Bool × PermissionChecker → Bool × PermissionChecker
remember t a (b, c) = (b, record c { cache = insert_pair t a b c.cache })

pub has_permission_miss :
    (db : Grants) (t a : String) (c : PermissionChecker)
    → c.is_superuser ≡ false
    → lookup_pair t a c.cache ≡ none
    → has_permission db t a c ≡ remember t a (get_merged_permission db t a c)
unfolding has_permission remember
has_permission_miss db t a c s e = ground (arith, s, e)

-- The answer and the checker after it, with the answer remembered.
abbrev pub Remembers :
    Grants → List ℕ → Option Value → String → String → Bool × PermissionChecker → Type 0
Remembers db roles user t a (b, c) =
    (b ≡ is_granted db roles user t a)
    × Coherent db roles user c
    × (lookup_pair t a c.cache ≡ some (is_granted db roles user t a))

pub remember-Remembers :
    (db : Grants) (roles : List ℕ) (user : Option Value) (t a : String) (b : Bool)
    (c : PermissionChecker)
    → b ≡ is_granted db roles user t a
    → Coherent db roles user c
    → Remembers db roles user t a (remember t a (b, c))
unfolding remember
remember-Remembers db roles user t a b c same (s, r, u, h, k, m) = (
  same,
  (s, r, u, h, k, insert_pair-AllKnown db roles user t a b c.cache same m),
  ground (arith, lookup_pair-insert_pair t a t a b c.cache, eq_refl t, eq_refl a, same),
)

pub has_permission-Remembers :
    (db : Grants) (roles : List ℕ) (user : Option Value) (t a : String) (c : PermissionChecker)
    → Coherent db roles user c
    → Remembers db roles user t a (has_permission db t a c)
has_permission-Remembers db roles user t a c (s, r, u, h, k, m) =
    elim (Option-cases (lookup_pair t a c.cache)) [
      | inr (b, e) ↦
          let same = m t a b e in
          rw (has_permission_hit db t a c b s e) (same, (s, r, u, h, k, m), ground (arith, e, same))
      | inl e ↦
          let (same, ok) = get_merged_permission-Coherent db roles user t a c (s, r, u, h, k, m) in
          rw (has_permission_miss db t a c s e) (
            remember-Remembers db roles user t a (get_merged_permission db t a c).0
              (get_merged_permission db t a c).1 same ok)
    ]

-- ===== src/Auth/Permissions.antt =====
-- The per-request checker of fastapi_admin_kit/auth/permissions.py. The two queries of the session
-- are parameters (`Grants`): what they select is read, and then kept for the rest of the request.
-- Log lines are left out.
pub mod Granted
pub mod Answers
pub mod Fields
use fastapi_admin_kit.Base.{
  ℕ, String, Bool, true, false, ◌&&◌, ◌||◌, Option, none, some, List, [], ◌∷◌, any, ◌==◌,
  if◌then◌else◌,
}
use fastapi_admin_kit.Base.Dict.{Dict, lookup, lookup_or, insert}
use fastapi_admin_kit.Base.Value.{Value}

pub record PermissionSet : Type 0 where
  pub can_view : Bool
  pub can_create : Bool
  pub can_edit : Bool
  pub can_delete : Bool
  pub can_export : Bool
  pub can_import : Bool

-- `PermissionSet()`, by its defaults.
abbrev pub no_permissions : PermissionSet
no_permissions = record {
  can_view = false;
  can_create = false;
  can_edit = false;
  can_delete = false;
  can_export = false;
  can_import = false;
}

abbrev pub all_permissions : PermissionSet
all_permissions = record {
  can_view = true;
  can_create = true;
  can_edit = true;
  can_delete = true;
  can_export = true;
  can_import = true;
}

-- A row of the table of permissions, in the columns that the checker reads.
pub record Permission : Type 0 where
  pub table_name : String
  pub flags : PermissionSet

-- What the session answers: the permissions joined to any of the roles, and those of the user.
pub record Grants : Type 0 where
  pub of_roles : List ℕ → List Permission
  pub of_user : Value → List Permission

-- A `dict` whose keys are pairs of texts.
abbrev pub PairDict : Type 0 → Type 0
PairDict V = List (String × String × V)

abbrev pub lookup_pair : {V : Type 0} → String → String → PairDict V → Option V
lookup_pair a b [] = none
lookup_pair a b ((c, d, v) ∷ rest) = if c == a && d == b then some v else lookup_pair a b rest

abbrev pub insert_pair : {V : Type 0} → String → String → V → PairDict V → PairDict V
insert_pair a b v [] = (a, b, v) ∷ []
insert_pair a b v ((c, d, w) ∷ rest) =
    if c == a && d == b then (c, d, v) ∷ rest else (c, d, w) ∷ insert_pair a b v rest

pub record PermissionChecker : Type 0 where
  pub is_superuser : Bool
  pub role_ids : List ℕ
  pub user_id : Option Value
  pub role_cache : Option (Dict PermissionSet)
  pub direct_cache : Option (Dict PermissionSet)
  pub cache : PairDict Bool
  pub field_cache : PairDict (Option (List String))

-- `__init__`, with the superuser flag, the roles and the id read from the user or the snapshot.
abbrev pub new_checker : Bool → List ℕ → Option Value → PermissionChecker
new_checker superuser roles user = record {
  is_superuser = superuser;
  role_ids = roles;
  user_id = user;
  role_cache = none;
  direct_cache = none;
  cache = [];
  field_cache = [];
}

-- The six assignments under `if perm.can_…`.
unfoldable pub grant : PermissionSet → PermissionSet → PermissionSet
grant perm ps = record {
  can_view = if perm.can_view then true else ps.can_view;
  can_create = if perm.can_create then true else ps.can_create;
  can_edit = if perm.can_edit then true else ps.can_edit;
  can_delete = if perm.can_delete then true else ps.can_delete;
  can_export = if perm.can_export then true else ps.can_export;
  can_import = if perm.can_import then true else ps.can_import;
}

abbrev pub add_permission : Permission → Dict PermissionSet → Dict PermissionSet
add_permission perm d =
    insert perm.table_name (grant perm.flags (lookup_or perm.table_name no_permissions d)) d

-- The loop of both loaders.
unfoldable pub add_permissions : List Permission → Dict PermissionSet → Dict PermissionSet
add_permissions [] d = d
add_permissions (perm ∷ perms) d = add_permissions perms (add_permission perm d)

abbrev pub roles_of : Grants → List ℕ → List Permission
roles_of db [] = []
roles_of db (r ∷ rs) = db.of_roles (r ∷ rs)

unfoldable pub load_role_permissions :
    Grants → PermissionChecker → Dict PermissionSet × PermissionChecker
unfolding add_permissions
load_role_permissions db c = elim c.role_cache [
  | some d ↦ (d, c)
  | none ↦
      let d = add_permissions (roles_of db c.role_ids) [] in (d, record c { role_cache = some d })
]

abbrev pub direct_of : Grants → Option Value → List Permission
direct_of db none = []
direct_of db (some user) = db.of_user user

unfoldable pub load_direct_permissions :
    Grants → PermissionChecker → Dict PermissionSet × PermissionChecker
unfolding add_permissions
load_direct_permissions db c = elim c.direct_cache [
  | some d ↦ (d, c)
  | none ↦
      let d = add_permissions (direct_of db c.user_id) [] in (d, record c { direct_cache = some d })
]

-- `getattr(ps, f"can_{action}", False)`
unfoldable pub allows : String → PermissionSet → Bool
allows action ps =
    if action == "view"
    then ps.can_view
    else if action == "create"
    then ps.can_create
    else if action == "edit"
    then ps.can_edit
    else if action == "delete"
    then ps.can_delete
    else if action == "export"
    then ps.can_export
    else if action == "import"
    then ps.can_import
    else false

abbrev pub allows_in : String → String → Dict PermissionSet → Bool
allows_in table action d = elim (lookup table d) [ some ps ↦ allows action ps | none ↦ false ]

unfoldable pub get_merged_permission :
    Grants → String → String → PermissionChecker → Bool × PermissionChecker
unfolding load_role_permissions load_direct_permissions
get_merged_permission db table action c =
    let (role_perms, c') = load_role_permissions db c in
    let (direct_perms, c'') = load_direct_permissions db c' in
    (allows_in table action role_perms || allows_in table action direct_perms, c'')

unfoldable pub has_permission :
    Grants → String → String → PermissionChecker → Bool × PermissionChecker
unfolding get_merged_permission
has_permission db table action c = elim c.is_superuser [
  | true ↦ (true, c)
  | false ↦ elim (lookup_pair table action c.cache) [
    | some known ↦ (known, c)
    | none ↦
        let (answer, c') = get_merged_permission db table action c in
        (answer, record c' { cache = insert_pair table action answer c'.cache })
  ]
]

abbrev pub is_anonymous : PermissionChecker → Bool
is_anonymous c = elim c.role_ids [
  | [] ↦ elim c.user_id [ none ↦ true | some _ ↦ false ]
  | _ ∷ _ ↦ false
]

-- `none` is no restriction.
unfoldable pub get_allowed_fields :
    String → String → PermissionChecker → Option (List String) × PermissionChecker
get_allowed_fields table mode c = elim c.is_superuser [
  | true ↦ (none, c)
  | false ↦ elim (lookup_pair table mode c.field_cache) [
    | some known ↦ (known, c)
    | none ↦
        let fields = if is_anonymous c then some [] else none in
        (fields, record c { field_cache = insert_pair table mode fields c.field_cache })
  ]
]

abbrev pub known_or_false : String → String → PairDict Bool → Bool
known_or_false table action cache = elim (lookup_pair table action cache) [
  | some b ↦ b
  | none ↦ false
]

unfoldable pub permission_set : String → PermissionChecker → PermissionSet
permission_set table c = elim c.is_superuser [
  | true ↦ all_permissions
  | false ↦ record {
    can_view = known_or_false table "view" c.cache;
    can_create = known_or_false table "create" c.cache;
    can_edit = known_or_false table "edit" c.cache;
    can_delete = known_or_false table "delete" c.cache;
    can_export = known_or_false table "export" c.cache;
    can_import = known_or_false table "import" c.cache;
  }
]

unfoldable pub load_permissions :
    Grants → String → PermissionChecker → PermissionSet × PermissionChecker
unfolding has_permission permission_set
load_permissions db table c =
    let c1 = (has_permission db table "view" c).1 in
    let c2 = (has_permission db table "create" c1).1 in
    let c3 = (has_permission db table "edit" c2).1 in
    let c4 = (has_permission db table "delete" c3).1 in
    let c5 = (has_permission db table "export" c4).1 in
    let c6 = (has_permission db table "import" c5).1 in (permission_set table c6, c6)

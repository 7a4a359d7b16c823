-- ===== src/Nav.antt =====
-- The sidebar builder, fastapi_admin_kit/nav.py.
pub mod Groups
pub mod Totality
mod Tests
use Prim.Native.String.{◌++◌ as append}
use fastapi_admin_kit.Base.{
  String, Bool, true, false, ◌&&◌, ◌||◌, Option, none, some, List, [], ◌∷◌, ◌++◌, map, any,
  is_truthy, ◌==◌, if◌then◌else◌,
}
use fastapi_admin_kit.Base.Int.{ℤ, pos, ltb_ℤ, eq_ℤ}
use fastapi_admin_kit.Base.Dict.{Dict, lookup, lookup_or, insert}
use fastapi_admin_kit.Base.Result.{Result, ok, ◌>>=◌}
use fastapi_admin_kit.Base.Value.{Value, null, str, eq_value, lt_value}
use fastapi_admin_kit.Base.Sort.{sort_by}

pub record NavItemConfig : Type 0 where
  pub label : String
  pub url : String
  pub icon : Option String
  pub order : ℤ
  pub permission : Option String

pub record NavGroupConfig : Type 0 where
  pub tag : String
  pub label : Option String
  pub icon : Option String
  pub order : ℤ
  pub collapsed_by_default : Bool
  pub permission : Option String
  pub extra_items : List NavItemConfig

-- A child of an item: a `BuiltNavItem` whose order, badge and children are the defaults.
pub record BuiltNavChild : Type 0 where
  pub label : String
  pub url : String
  pub icon : Option String
  pub permission_table : Option String

-- The badge function goes by its name.
pub record BuiltNavItem : Type 0 where
  pub label : String
  pub url : String
  pub icon : Option String
  pub order : ℤ
  pub badge_fn : Option String
  pub permission_table : Option String
  pub children : List BuiltNavChild

-- The label is a text, or `None` where a configuration without one is found by its tag in lower case.
pub record BuiltNavGroup : Type 0 where
  pub tag : String
  pub label : Value
  pub icon : Option String
  pub order : ℤ
  pub collapsed_by_default : Bool
  pub permission_table : Option String
  pub items : List BuiltNavItem

-- A registered model, with what its admin says of the sidebar.
pub record NavModel : Type 0 where
  pub table_name : String
  pub verbose_name_plural : String
  pub skip_auto_routes : Bool
  pub export_endpoint : Option String
  pub icon : Option String
  pub nav_order : ℤ
  pub get_nav_badge : Option String
  pub tags : List String
  pub tag : Option String
  pub nav_children : List NavItemConfig

-- A text that is given and not empty.
abbrev pub given : Option String → Option String
given none = none
given (some s) = if is_truthy s then some s else none

-- `_get_tags`
unfoldable pub get_tags : NavModel → List String
get_tags m = elim m.tags [
  | t ∷ ts ↦ t ∷ ts
  | [] ↦ elim (given m.tag) [ some t ↦ t ∷ [] | none ↦ "Other" ∷ [] ]
]

-- `_build_children`
unfoldable pub build_children : List NavItemConfig → List BuiltNavChild
build_children [] = []
build_children (c ∷ cs) =
    record { label = c.label; url = c.url; icon = c.icon; permission_table = c.permission }
    ∷ build_children cs

-- `_build_extra_items`
unfoldable pub build_extra_items : List NavItemConfig → List BuiltNavItem
build_extra_items [] = []
build_extra_items (e ∷ es) =
    record {
      label = e.label;
      url = e.url;
      icon = e.icon;
      order = e.order;
      badge_fn = none;
      permission_table = e.permission;
      children = [];
    }
    ∷ build_extra_items es

abbrev pub is_api_only : Option String → Bool
is_api_only none = false
is_api_only (some e) = e == "api"

abbrev pub is_hidden : NavModel → Bool
is_hidden m = m.skip_auto_routes || is_api_only m.export_endpoint

unfoldable pub model_item : String → NavModel → BuiltNavItem
unfolding build_children
model_item admin_path m = record {
  label = m.verbose_name_plural;
  url = append (append (append admin_path "/") m.table_name) "/";
  icon = m.icon;
  order = m.nav_order;
  badge_fn = m.get_nav_badge;
  permission_table = some m.table_name;
  children = build_children m.nav_children;
}

abbrev pub Buckets : Type 0
Buckets = Dict (List BuiltNavItem)

-- `buckets.setdefault(tag, []).append(item)`, for each of the tags.
unfoldable pub put_item : BuiltNavItem → List String → Buckets → Buckets
put_item item [] b = b
put_item item (t ∷ ts) b = put_item item ts (insert t (lookup_or t [] b ++ item ∷ []) b)

unfoldable pub fill_buckets : String → List NavModel → Buckets → Buckets
unfolding put_item model_item get_tags
fill_buckets admin_path [] b = b
fill_buckets admin_path (m ∷ ms) b =
    fill_buckets admin_path ms
      (if is_hidden m then b else put_item (model_item admin_path m) (get_tags m) b)

-- `<` on the pairs `(order, label)`.
unfoldable pub lt_key : ℤ → Value → ℤ → Value → Result Bool
lt_key o l o' l' =
    if eq_ℤ o o' then (if eq_value l l' then ok false else lt_value l l') else ok (ltb_ℤ o o')

unfoldable pub item_before : BuiltNavItem → BuiltNavItem → Result Bool
unfolding lt_key
item_before i j = lt_key i.order (str i.label) j.order (str j.label)

abbrev pub item_order_before : BuiltNavItem → BuiltNavItem → Result Bool
item_order_before i j = ok (ltb_ℤ i.order j.order)

abbrev pub config_before : NavGroupConfig → NavGroupConfig → Result Bool
config_before c d = ok (ltb_ℤ c.order d.order)

unfoldable pub group_before : BuiltNavGroup → BuiltNavGroup → Result Bool
unfolding lt_key
group_before g h = lt_key g.order g.label h.order h.label

abbrev pub is_in : String → List String → Bool
is_in t seen = any (λ s. s == t) seen

-- `title` is `str.title`, and `lower` is `str.lower`.
module _ (title lower : String → String) where
  abbrev pub configured_record : NavGroupConfig → List BuiltNavItem → BuiltNavGroup
  configured_record c items = record {
    tag = c.tag;
    label = str (elim (given c.label) [ some l ↦ l | none ↦ title c.tag ]);
    icon = c.icon;
    order = c.order;
    collapsed_by_default = c.collapsed_by_default;
    permission_table = c.permission;
    items = items;
  }

  unfoldable pub configured_group : Buckets → NavGroupConfig → Result BuiltNavGroup
  unfolding item_before build_extra_items
  configured_group b c = do
    items ← sort_by item_before (lookup_or c.tag [] b)
    all_items ← sort_by item_order_before (items ++ build_extra_items c.extra_items)
    ok (configured_record c all_items)

  -- The first loop: the groups, and the tags seen.
  unfoldable pub configured_groups :
      Buckets → List NavGroupConfig → List String → Result (List BuiltNavGroup × List String)
  unfolding configured_group
  configured_groups b [] seen = ok ([], seen)
  configured_groups b (c ∷ cs) seen =
      let skipped = configured_groups b cs seen in
      let rest = configured_groups b cs (c.tag ∷ seen) in
      if is_in c.tag seen
      then skipped
      else (configured_group b c >>= λ g. rest >>= λ p. ok (g ∷ p.0, p.1))

  -- `configured_lower.get(tag.lower())`: of two configurations the later one.
  abbrev pub find_config : String → List NavGroupConfig → Option NavGroupConfig
  find_config key [] = none
  find_config key (c ∷ cs) = elim (find_config key cs) [
    | some d ↦ some d
    | none ↦ if lower c.tag == key then some c else none
  ]

  abbrev pub label_of : Option String → Value
  label_of none = null
  label_of (some l) = str l

  abbrev pub bucket_record : String → Option NavGroupConfig → List BuiltNavItem → BuiltNavGroup
  bucket_record tag none items = record {
    tag = tag;
    label = str (title tag);
    icon = none;
    order = pos 999;
    collapsed_by_default = false;
    permission_table = none;
    items = items;
  }
  bucket_record tag (some c) items = record {
    tag = tag;
    label = label_of c.label;
    icon = c.icon;
    order = c.order;
    collapsed_by_default = c.collapsed_by_default;
    permission_table = c.permission;
    items = items;
  }

  -- The second loop.
  unfoldable pub bucket_groups :
      List NavGroupConfig → Buckets → List String → Result (List BuiltNavGroup)
  unfolding item_before
  bucket_groups configs [] seen = ok []
  bucket_groups configs ((tag, items) ∷ b) seen =
      let skipped = bucket_groups configs b seen in
      let rest = bucket_groups configs b (tag ∷ seen) in
      if is_in tag seen
      then skipped
      else (sort_by item_before items >>= λ sorted.
          rest >>= λ gs. ok (bucket_record tag (find_config (lower tag) configs) sorted ∷ gs))

  unfoldable pub build : List NavModel → List NavGroupConfig → String → Result (List BuiltNavGroup)
  unfolding fill_buckets configured_groups bucket_groups group_before
  build models configs admin_path = do
    let b = fill_buckets admin_path models []
    ordered ← sort_by config_before configs
    p ← configured_groups b ordered []
    gs ← bucket_groups configs b p.1
    sort_by group_before (p.0 ++ gs)

-- ===== src/Nav/Tests.antt =====
-- Sidebars that fastapi_admin_kit/nav.py builds.
use fastapi_admin_kit.Base.{
  String, false, ◌||◌, Option, none, some, List, [], ◌∷◌, any, ◌==◌, ◌≡◌, refl,
}
use fastapi_admin_kit.Base.Int.{pos}
use fastapi_admin_kit.Base.Result.{ok, err, type_error}
use fastapi_admin_kit.Base.Value.{str, lt_value, eq_value}
use fastapi_admin_kit.Base.Sort.{sort_by, insert_sorted, IsSorted}
use fastapi_admin_kit.Nav.{
  NavGroupConfig, BuiltNavItem, BuiltNavGroup, NavModel, get_tags, model_item, build_children,
  put_item, fill_buckets, build_extra_items, lt_key, item_before, group_before, configured_group,
  configured_groups, bucket_groups, build,
}
use fastapi_admin_kit.Nav.Groups.{groups_of, one_if, is_shown_under, build-once}
use fastapi_admin_kit.Nav.Totality.{build_total}

abbrev post : NavModel
post = record {
  table_name = "post";
  verbose_name_plural = "Posts";
  skip_auto_routes = false;
  export_endpoint = none;
  icon = none;
  nav_order = pos 999;
  get_nav_badge = none;
  tags = [];
  tag = some "Blog";
  nav_children = [];
}

abbrev group_config : String → Option String → NavGroupConfig
group_config tag label = record {
  tag = tag;
  label = label;
  icon = none;
  order = pos 999;
  collapsed_by_default = false;
  permission = none;
  extra_items = [];
}

-- `str.title` and `str.lower` on the two tags in use.
abbrev title : String → String
title s = "Blog"

abbrev lower : String → String
lower s = "blog"

abbrev post_item : BuiltNavItem
post_item = record {
  label = "Posts";
  url = "/admin/post/";
  icon = none;
  order = pos 999;
  badge_fn = none;
  permission_table = some "post";
  children = [];
}

abbrev blog : BuiltNavGroup
blog = record {
  tag = "Blog";
  label = str "Our blog";
  icon = none;
  order = pos 999;
  collapsed_by_default = false;
  permission_table = none;
  items = post_item ∷ [];
}

blog_built :
    build title lower (post ∷ []) (group_config "Blog" (some "Our blog") ∷ []) "/admin"
    ≡ ok (blog ∷ [])
unfolding build fill_buckets put_item model_item build_children get_tags configured_groups
    configured_group bucket_groups sort_by insert_sorted build_extra_items item_before lt_key
blog_built = refl

-- A group configured without a label, under the tag in another case: two groups of the same order, of
-- which one has no label, cannot be compared.
blog_raises :
    build title lower (post ∷ []) (group_config "blog" none ∷ []) "/admin" ≡ err type_error
unfolding build fill_buckets put_item model_item build_children get_tags configured_groups
    configured_group bucket_groups sort_by insert_sorted build_extra_items item_before group_before
    lt_key lt_value eq_value
blog_raises = refl

build-once_example :
    (groups_of "Blog" (blog ∷ [])
      ≡ one_if (
          any (λ c. c.tag == "Blog") (group_config "Blog" (some "Our blog") ∷ [])
          || any (is_shown_under "Blog") (post ∷ [])))
    × IsSorted group_before (blog ∷ [])
build-once_example =
    build-once title lower (post ∷ []) (group_config "Blog" (some "Our blog") ∷ []) "/admin" "Blog"
      (blog ∷ []) blog_built

build_total_example :
    (gs : List BuiltNavGroup) × (build title lower
        (post ∷ [])
        (group_config "Blog" (some "Our blog") ∷ [])
        "/admin"
      ≡ ok gs)
build_total_example =
    build_total title lower (post ∷ []) (group_config "Blog" (some "Our blog") ∷ []) "/admin"
      (("Our blog", refl), tt)

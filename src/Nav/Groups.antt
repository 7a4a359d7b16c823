-- ===== src/Nav/Groups.antt =====
-- Which groups the sidebar of fastapi_admin_kit/nav.py has.
use fastapi_admin_kit.Base.{
  ℕ, ◌+◌, String, Bool, true, false, not, ◌&&◌, ◌||◌, Option, none, some, List, [], ◌∷◌, ◌++◌, any,
  keep, length, ◌==◌, ◌≡◌, refl, sym, ap, ◌∙◌, arith, Bool-cases, inl, inr, eq_iff, ltb,
}
use fastapi_admin_kit.Base.Dict.{lookup_or, insert}
use fastapi_admin_kit.Base.Result.{Result, ok, ◌>>=◌, bind-eq-ok}
use fastapi_admin_kit.Base.Value.{Value, eq_value_comm, lt_value_asymm}
use fastapi_admin_kit.Base.Int.{ℤ}
use fastapi_admin_kit.Base.Sort.{
  insert_sorted, insert_sorted_cons, sort_by, sort_by-IsSorted, IsSorted,
}
use fastapi_admin_kit.Nav.{
  NavGroupConfig, BuiltNavItem, BuiltNavGroup, NavModel, get_tags, is_hidden, model_item, Buckets,
  put_item, fill_buckets, item_before, config_before, group_before, is_in, configured_group,
  configured_groups, find_config, bucket_record, bucket_groups, build, lt_key, item_order_before,
  build_extra_items,
}

-- How many groups have the tag.
abbrev pub groups_of : String → List BuiltNavGroup → ℕ
groups_of t gs = length (keep (λ g. g.tag == t) gs)

abbrev pub one_if : Bool → ℕ
one_if true = 1
one_if false = 0

module _ {A : Type 0} (before : A → A → Result Bool) (p : A → Bool) where
  keep-insert_sorted :
      (x : A) (ys zs : List A)
      → insert_sorted before x ys ≡ ok zs
      → length (keep p zs) ≡ length (keep p (x ∷ ys))
  unfolding insert_sorted
  keep-insert_sorted x [] zs e = let same : x ∷ [] ≡ zs = cc in rw (← same) refl
  keep-insert_sorted x (y ∷ ys) zs e = elim (insert_sorted_cons before x y ys zs e) [
    | inl (_, (ws, q, same)) ↦ rw same (ground (arith, keep-insert_sorted x ys ws q))
    | inr (_, same) ↦ rw same refl
  ]

  keep-sort_by :
      (xs ys : List A) → sort_by before xs ≡ ok ys → length (keep p ys) ≡ length (keep p xs)
  unfolding sort_by
  keep-sort_by [] ys e = let same : [] ≡ ys = cc in rw (← same) refl
  keep-sort_by (x ∷ xs) ys e =
      let (ws, q, r) = bind-eq-ok (sort_by before xs) (insert_sorted before x) e in
      ground (arith, keep-insert_sorted x ws ys r, keep-sort_by xs ws q)

  any_of_keep : (xs : List A) → any p xs ≡ ltb 0 (length (keep p xs))
  any_of_keep [] = refl
  any_of_keep (x ∷ xs) = ground (arith, any_of_keep xs)

  any-sort_by : (xs ys : List A) → sort_by before xs ≡ ok ys → any p ys ≡ any p xs
  any-sort_by xs ys e = any_of_keep ys ∙ ap (ltb 0) (keep-sort_by xs ys e) ∙ sym (any_of_keep xs)

groups_of-append :
    (t : String) (gs hs : List BuiltNavGroup)
    → groups_of t (gs ++ hs) ≡ groups_of t gs + groups_of t hs
groups_of-append t [] hs = omega arith
groups_of-append t (g ∷ gs) hs = ground (arith, groups_of-append t gs hs)

-- A bucket for the tag.
abbrev has_bucket : String → Buckets → Bool
has_bucket t b = any (λ p. p.0 == t) b

has_bucket-insert :
    (t k : String) (items : List BuiltNavItem) (b : Buckets)
    → has_bucket t (insert k items b) ≡ has_bucket t b || k == t
has_bucket-insert t k items [] = ground arith
has_bucket-insert t k items ((j, v) ∷ b) =
    ground (arith, has_bucket-insert t k items b, eq_iff j k, eq_iff j t, eq_iff k t)

has_bucket-put_item :
    (t : String) (item : BuiltNavItem) (ts : List String) (b : Buckets)
    → has_bucket t (put_item item ts b) ≡ has_bucket t b || is_in t ts
unfolding put_item
has_bucket-put_item t item [] b = ground arith
has_bucket-put_item t item (s ∷ ts) b =
    let items = lookup_or s [] b ++ item ∷ [] in
    ground (arith, has_bucket-put_item t item ts (insert s items b), has_bucket-insert t s items b)

-- The model is shown, under the tag.
abbrev pub is_shown_under : String → NavModel → Bool
is_shown_under t m = not (is_hidden m) && is_in t (get_tags m)

has_bucket-fill_buckets :
    (admin_path t : String) (ms : List NavModel) (b : Buckets)
    → has_bucket t (fill_buckets admin_path ms b) ≡ has_bucket t b || any (is_shown_under t) ms
unfolding fill_buckets
has_bucket-fill_buckets admin_path t [] b = ground arith
has_bucket-fill_buckets admin_path t (m ∷ ms) b = ground (
  arith,
  has_bucket-fill_buckets admin_path t ms b,
  has_bucket-fill_buckets admin_path t ms (put_item (model_item admin_path m) (get_tags m) b),
  has_bucket-put_item t (model_item admin_path m) (get_tags m) b,
)

module _ (title lower : String → String) where
  tag-configured_group :
      (b : Buckets) (c : NavGroupConfig) (g : BuiltNavGroup)
      → configured_group title lower b c ≡ ok g
      → g.tag ≡ c.tag
  unfolding configured_group
  tag-configured_group b c g e =
      let (items, e1, e2) = bind-eq-ok (sort_by item_before (lookup_or c.tag [] b)) _ e in
      let (all_items, e3, e4) =
        bind-eq-ok (sort_by item_order_before (items ++ build_extra_items c.extra_items)) _ e2 in
      ground (arith, e4)

  pub configured_groups_nil :
      (b : Buckets) (seen : List String) → configured_groups title lower b [] seen ≡ ok ([], seen)
  unfolding configured_groups
  configured_groups_nil b seen = refl

  pub configured_groups_seen :
      (b : Buckets) (c : NavGroupConfig) (cs : List NavGroupConfig) (seen : List String)
      → is_in c.tag seen ≡ true
      → configured_groups title lower b (c ∷ cs) seen ≡ configured_groups title lower b cs seen
  unfolding configured_groups
  configured_groups_seen b c cs seen h = ground (arith, h)

  pub configured_groups_new :
      (b : Buckets) (c : NavGroupConfig) (cs : List NavGroupConfig) (seen : List String)
      → is_in c.tag seen ≡ false
      → configured_groups title lower b (c ∷ cs) seen ≡ (
          configured_group title lower b c >>= λ g.
          configured_groups title lower b cs (c.tag ∷ seen) >>= λ p. ok (g ∷ p.0, p.1))
  unfolding configured_groups
  configured_groups_new b c cs seen h = ground (arith, h)

  -- The first loop has one group for each configured tag that was not seen.
  configured_groups-once :
      (t : String) (b : Buckets) (cs : List NavGroupConfig) (seen : List String)
      (p : List BuiltNavGroup × List String)
      → configured_groups title lower b cs seen ≡ ok p
      → (groups_of t p.0 ≡ one_if (any (λ c. c.tag == t) cs && not (is_in t seen)))
        × (is_in t p.1 ≡ is_in t seen || any (λ c. c.tag == t) cs)
  configured_groups-once t b [] seen p e =
      let none_left : [] ≡ p.0 = ground (arith, configured_groups_nil b seen, e) in
      let same : seen ≡ p.1 = ground (arith, configured_groups_nil b seen, e) in
      (ap (groups_of t) (sym none_left), ap (is_in t) (sym same) ∙ ground arith)
  configured_groups-once t b (c ∷ cs) seen p e = elim (Bool-cases (is_in c.tag seen)) [
    | inl was ↦
        let (n, s) =
          configured_groups-once t b cs seen p (sym (configured_groups_seen b c cs seen was) ∙ e) in
        (ground (arith, n, was, eq_iff c.tag t), ground (arith, s, was, eq_iff c.tag t))
    | inr new ↦
        let (g, e1, e2) =
          bind-eq-ok (configured_group title lower b c) _
            (sym (configured_groups_new b c cs seen new) ∙ e) in
        let (q, e3, e4) = bind-eq-ok (configured_groups title lower b cs (c.tag ∷ seen)) _ e2 in
        let (n, s) = configured_groups-once t b cs (c.tag ∷ seen) q e3 in
        let tag = tag-configured_group b c g e1 in
        let front : g ∷ q.0 ≡ p.0 = ground (arith, e4) in
        let after : q.1 ≡ p.1 = ground (arith, e4) in
        (
          ap (groups_of t) (sym front) ∙ ground (arith, n, tag, new, eq_iff c.tag t),
          ap (is_in t) (sym after) ∙ ground (arith, s),
        )
  ]

  pub bucket_groups_seen :
      (configs : List NavGroupConfig) (k : String) (items : List BuiltNavItem) (b : Buckets)
      (seen : List String)
      → is_in k seen ≡ true
      → bucket_groups title lower configs ((k, items) ∷ b) seen
        ≡ bucket_groups title lower configs b seen
  unfolding bucket_groups
  bucket_groups_seen configs k items b seen h = ground (arith, h)

  pub bucket_groups_new :
      (configs : List NavGroupConfig) (k : String) (items : List BuiltNavItem) (b : Buckets)
      (seen : List String)
      → is_in k seen ≡ false
      → bucket_groups title lower configs ((k, items) ∷ b) seen ≡ (
          sort_by item_before items >>= λ sorted.
          bucket_groups title lower configs b (k ∷ seen) >>= λ gs.
          ok (bucket_record title lower k (find_config title lower (lower k) configs) sorted ∷ gs))
  unfolding bucket_groups
  bucket_groups_new configs k items b seen h = ground (arith, h)

  tag-bucket_record :
      (k : String) (c : Option NavGroupConfig) (items : List BuiltNavItem)
      → (bucket_record title lower k c items).tag ≡ k
  tag-bucket_record k none items = refl
  tag-bucket_record k (some c) items = refl

  pub bucket_groups_nil :
      (configs : List NavGroupConfig) (seen : List String)
      → bucket_groups title lower configs [] seen ≡ ok []
  unfolding bucket_groups
  bucket_groups_nil configs seen = refl

  -- The second loop has one group for each bucket whose tag was not seen.
  bucket_groups-once :
      (t : String) (configs : List NavGroupConfig) (b : Buckets) (seen : List String)
      (gs : List BuiltNavGroup)
      → bucket_groups title lower configs b seen ≡ ok gs
      → groups_of t gs ≡ one_if (has_bucket t b && not (is_in t seen))
  bucket_groups-once t configs [] seen gs e =
      let none_left : [] ≡ gs = ground (arith, bucket_groups_nil configs seen, e) in
      ap (groups_of t) (sym none_left)
  bucket_groups-once t configs ((k, items) ∷ b) seen gs e = elim (Bool-cases (is_in k seen)) [
    | inl was ↦
        let n =
          bucket_groups-once t configs b seen gs
            (sym (bucket_groups_seen configs k items b seen was) ∙ e) in
        ground (arith, n, was, eq_iff k t)
    | inr new ↦
        let (sorted, e1, e2) =
          bind-eq-ok (sort_by item_before items) _
            (sym (bucket_groups_new configs k items b seen new) ∙ e) in
        let (hs, e3, e4) = bind-eq-ok (bucket_groups title lower configs b (k ∷ seen)) _ e2 in
        let n = bucket_groups-once t configs b (k ∷ seen) hs e3 in
        let g = bucket_record title lower k (find_config title lower (lower k) configs) sorted in
        let tag = tag-bucket_record k (find_config title lower (lower k) configs) sorted in
        let front : g ∷ hs ≡ gs = ground (arith, e4) in
        ap (groups_of t) (sym front) ∙ ground (arith, n, tag, new, eq_iff k t)
  ]

lt_key_asymm : (o o' : ℤ) (l l' : Value) → lt_key o l o' l' ≡ ok true → lt_key o' l' o l ≡ ok false
unfolding lt_key
lt_key_asymm o o' l l' h = ground (arith, eq_value_comm l l', lt_value_asymm l l')

group_before_asymm :
    (g h : BuiltNavGroup) → group_before g h ≡ ok true → group_before h g ≡ ok false
unfolding group_before
group_before_asymm g h e = lt_key_asymm g.order h.order g.label h.label e

-- A sidebar that is built has one group for each tag that is configured or under which a model is
-- shown, and no other group; the groups are in order, and groups of the same order by their labels.
pub build-once :
    (title lower : String → String) (models : List NavModel) (configs : List NavGroupConfig)
    (admin_path t : String) (gs : List BuiltNavGroup)
    → build title lower models configs admin_path ≡ ok gs
    → (groups_of t gs ≡ one_if (any (λ c. c.tag == t) configs || any (is_shown_under t) models))
      × IsSorted group_before gs
unfolding build
build-once title lower models configs admin_path t gs e =
    let b = fill_buckets admin_path models [] in
    let (ordered, e1, f1) = bind-eq-ok (sort_by config_before configs) _ e in
    let (p, e2, f2) = bind-eq-ok (configured_groups title lower b ordered []) _ f1 in
    let (hs, e3, f3) = bind-eq-ok (bucket_groups title lower configs b p.1) _ f2 in
    let (one, seen) = configured_groups-once title lower t b ordered [] p e2 in
    let two = bucket_groups-once title lower t configs b p.1 hs e3 in
    let same = any-sort_by config_before (λ c. c.tag == t) configs ordered e1 in
    let shown = has_bucket-fill_buckets admin_path t models [] in
    let sum : groups_of t (p.0 ++ hs) ≡ groups_of t p.0 + groups_of t hs =
      groups_of-append t p.0 hs in
    (
      keep-sort_by group_before (λ g. g.tag == t) (p.0 ++ hs) gs f3
          ∙ sum
          ∙ ground (arith, one, two, seen, same, shown),
      sort_by-IsSorted group_before group_before_asymm (p.0 ++ hs) gs f3,
    )

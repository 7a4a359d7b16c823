-- ===== src/Nav/Totality.antt =====
-- When the sidebar builder of fastapi_admin_kit/nav.py returns.
use fastapi_admin_kit.Base.{
  String, Bool, true, false, Option, none, some, List, [], ◌∷◌, ◌++◌, All, All-append, codes,
  if◌then◌else◌, ap, ◌≡◌, refl, sym, ◌∙◌, arith, Bool-cases, Option-cases, inl, inr,
}
use fastapi_admin_kit.Base.Int.{ℤ, eq_ℤ, ltb_ℤ}
use fastapi_admin_kit.Base.Dict.{lookup_or}
use fastapi_admin_kit.Base.Result.{Result, ok}
use fastapi_admin_kit.Base.Value.{Value, str, lt_value, eq_value, lt_codes}
use fastapi_admin_kit.Base.Sort.{sort_by, sort_by_total}
use fastapi_admin_kit.Nav.{
  NavGroupConfig, BuiltNavItem, BuiltNavGroup, NavModel, Buckets, fill_buckets, item_before,
  item_order_before, config_before, group_before, lt_key, is_in, build_extra_items,
  configured_group, configured_groups, find_config, bucket_record, bucket_groups, build, label_of,
  configured_record,
}
use fastapi_admin_kit.Nav.Groups.{
  configured_groups_nil, configured_groups_seen, configured_groups_new, bucket_groups_nil,
  bucket_groups_seen, bucket_groups_new,
}

-- A comparison that returns.
abbrev Returns : {A : Type 0} → Result A → Type 0
Returns {A} r = (a : A) × (r ≡ ok a)

lt_pick :
    (b c x : Bool) (r : Result Bool)
    → Returns r
    → Returns (if b then if c then ok false else r else ok x)
lt_pick true true x r h = (false, refl)
lt_pick true false x r h = h
lt_pick false c x r h = (x, refl)

lt_value-str : (s t : String) (l l' : Value) → l ≡ str s → l' ≡ str t → Returns (lt_value l l')
unfolding lt_value
lt_value-str s t l l' e e' = (lt_codes (codes s) (codes t), rw (e, e') refl)

lt_key_total :
    (o o' : ℤ) (l l' : Value) (s s' : String) → l ≡ str s → l' ≡ str s' → Returns (lt_key o l o' l')
unfolding lt_key
lt_key_total o o' l l' s s' e e' =
    lt_pick (eq_ℤ o o') (eq_value l l') (ltb_ℤ o o') (lt_value l l') (lt_value-str s s' l l' e e')

item_before_total : (i j : BuiltNavItem) → Returns (item_before i j)
unfolding item_before
item_before_total i j =
    lt_key_total i.order j.order (str i.label) (str j.label) i.label j.label refl refl

-- Any comparison that returns on all elements sorts every list.
everything : {A : Type 0} (xs : List A) → All (λ x. Unit {0}) xs
everything [] = tt
everything (x ∷ xs) = (tt, everything xs)

sort_total :
    {A : Type 0} (before : A → A → Result Bool)
    → ((x y : A) → Returns (before x y))
    → (xs : List A) → Returns (sort_by before xs)
sort_total before h xs =
    let (ys, e, _) = sort_by_total before (λ x. Unit {0}) (λ x y p q. h x y) xs (everything xs) in
    (ys, e)

-- The configuration names its label.
abbrev pub HasLabel : NavGroupConfig → Type 0
HasLabel c = (l : String) × (c.label ≡ some l)

abbrev IsLabelled : BuiltNavGroup → Type 0
IsLabelled g = (l : String) × (g.label ≡ str l)

group_before_total :
    (g h : BuiltNavGroup) → IsLabelled g → IsLabelled h → Returns (group_before g h)
unfolding group_before
group_before_total g h (l, e) (m, f) = lt_key_total g.order h.order g.label h.label l m e f

module _ (title lower : String → String) where
  configured_group_total :
      (b : Buckets) (c : NavGroupConfig)
      → (g : BuiltNavGroup) × (configured_group title lower b c ≡ ok g) × IsLabelled g
  unfolding configured_group
  configured_group_total b c =
      let (items, e) = sort_total item_before item_before_total (lookup_or c.tag [] b) in
      let (all_items, f) =
        sort_total item_order_before (λ i j. (ltb_ℤ i.order j.order, refl))
          (items ++ build_extra_items c.extra_items) in
      (configured_record title lower c all_items, rw (e, f) refl, (_, refl))

  configured_groups_total :
      (b : Buckets) (cs : List NavGroupConfig) (seen : List String)
      → (p : List BuiltNavGroup × List String) × (configured_groups title lower b cs seen ≡ ok p)
        × All IsLabelled p.0
  configured_groups_total b [] seen = (([], seen), configured_groups_nil title lower b seen, tt)
  configured_groups_total b (c ∷ cs) seen = elim (Bool-cases (is_in c.tag seen)) [
    | inl was ↦
        let (p, e, h) = configured_groups_total b cs seen in
        (p, configured_groups_seen title lower b c cs seen was ∙ e, h)
    | inr new ↦
        let (g, e, l) = configured_group_total b c in
        let (p, f, h) = configured_groups_total b cs (c.tag ∷ seen) in
        ((g ∷ p.0, p.1), rw (configured_groups_new title lower b c cs seen new, e, f) refl, (l, h))
  ]

  find_config-HasLabel :
      (key : String) (cs : List NavGroupConfig) (c : NavGroupConfig)
      → All HasLabel cs
      → find_config title lower key cs ≡ some c
      → HasLabel c
  find_config-HasLabel key [] c h e = absurd (ground (arith, e))
  find_config-HasLabel key (d ∷ cs) c (l, h) e =
      elim (Option-cases (find_config title lower key cs)) [
        | inr (f, k) ↦ find_config-HasLabel key cs c h (ground (arith, e, k))
        | inl k ↦
            let same : d ≡ c = ground (arith, e, k) in (l.0, ap (λ x. x.label) (sym same) ∙ l.1)
      ]

  bucket_record-IsLabelled :
      (configs : List NavGroupConfig) (key tag : String) (items : List BuiltNavItem)
      → All HasLabel configs
      → (o : Option NavGroupConfig) → find_config title lower key configs ≡ o
      → IsLabelled (bucket_record title lower tag o items)
  bucket_record-IsLabelled configs key tag items h none e = (title tag, refl)
  bucket_record-IsLabelled configs key tag items h (some c) e =
      let (l, f) = find_config-HasLabel key configs c h e in (l, ap (label_of title lower) f)

  bucket_groups_total :
      (configs : List NavGroupConfig) (b : Buckets) (seen : List String)
      → All HasLabel configs
      → (gs : List BuiltNavGroup) × (bucket_groups title lower configs b seen ≡ ok gs)
        × All IsLabelled gs
  bucket_groups_total configs [] seen h = ([], bucket_groups_nil title lower configs seen, tt)
  bucket_groups_total configs ((k, items) ∷ b) seen h = elim (Bool-cases (is_in k seen)) [
    | inl was ↦
        let (gs, e, ls) = bucket_groups_total configs b seen h in
        (gs, bucket_groups_seen title lower configs k items b seen was ∙ e, ls)
    | inr new ↦
        let (sorted, e) = sort_total item_before item_before_total items in
        let (gs, f, ls) = bucket_groups_total configs b (k ∷ seen) h in
        let c = find_config title lower (lower k) configs in
        (
          bucket_record title lower k c sorted ∷ gs,
          rw (bucket_groups_new title lower configs k items b seen new, e, f) refl,
          (bucket_record-IsLabelled configs (lower k) k sorted h c refl, ls),
        )
  ]

  -- Where every configured group names its label, the sidebar is built.
  pub build_total :
      (models : List NavModel) (configs : List NavGroupConfig) (admin_path : String)
      → All HasLabel configs
      → (gs : List BuiltNavGroup) × (build title lower models configs admin_path ≡ ok gs)
  unfolding build
  build_total models configs admin_path h =
      let b = fill_buckets admin_path models [] in
      let (ordered, e1) = sort_total config_before (λ c d. (ltb_ℤ c.order d.order, refl)) configs in
      let (p, e2, l1) = configured_groups_total b ordered [] in
      let (hs, e3, l2) = bucket_groups_total configs b p.1 h in
      let (gs, e4, _) =
        sort_by_total group_before IsLabelled group_before_total (p.0 ++ hs)
          (All-append IsLabelled p.0 hs l1 l2) in
      (gs, rw (e1, e2, e3) e4)

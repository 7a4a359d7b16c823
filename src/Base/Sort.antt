-- ===== src/Base/Sort.antt =====
-- `list.sort` with a comparison that may raise. The stable arrangement of a list is unique, and two
-- elements that end side by side have been compared, so any stable comparison sort raises on the
-- same lists as this insertion sort.
use mathlib.Core.Path.{◌≡◌, refl}
use mathlib.Core.Logic.{◌⊎◌, inl, inr}
use mathlib.Core.Bool.{Bool, true, false}
use mathlib.Core.List.{List, [], ◌∷◌, Perm}
use mathlib.Core.List.Perm
use fastapi_admin_kit.Base.Lists.{All}
use fastapi_admin_kit.Base.Result.{Result, ok, err, ◌>>=◌, bind-eq-ok}

module _ {ℓ} {A : Type ℓ} (before : A → A → Result Bool) where
  -- `x` goes in front of the first element that is not strictly before it.
  unfoldable pub insert_sorted : A → List A → Result (List A)
  insert_sorted x [] = ok (x ∷ [])
  insert_sorted x (y ∷ ys) =
      let rest = insert_sorted x ys in
      before y x >>= λ b. elim b [ true ↦ rest >>= λ zs. ok (y ∷ zs) | false ↦ ok (x ∷ y ∷ ys) ]

  unfoldable pub sort_by : List A → Result (List A)
  unfolding insert_sorted
  sort_by [] = ok []
  sort_by (x ∷ xs) = sort_by xs >>= λ ys. insert_sorted x ys

  -- Each element is not strictly before the one in front of it.
  abbrev pub IsSortedFrom : A → List A → Type ℓ
  IsSortedFrom x [] = Unit
  IsSortedFrom x (y ∷ ys) = (before y x ≡ ok false) × IsSortedFrom y ys

  abbrev pub IsSorted : List A → Type ℓ
  IsSorted [] = Unit
  IsSorted (x ∷ xs) = IsSortedFrom x xs

  pub insert_sorted_cons :
      (x y : A) (ys zs : List A)
      → insert_sorted x (y ∷ ys) ≡ ok zs
      → (before y x ≡ ok true) × ((ws : List A) × (insert_sorted x ys ≡ ok ws) × (zs ≡ y ∷ ws))
        ⊎ (before y x ≡ ok false) × (zs ≡ x ∷ y ∷ ys)
  unfolding insert_sorted
  insert_sorted_cons x y ys zs e = go (before y x) (insert_sorted x ys) refl refl e
    where
      go :
          (b : Result Bool) (r : Result (List A))
          → before y x ≡ b
          → insert_sorted x ys ≡ r
          → (b >>= λ c. elim c [ true ↦ r >>= λ zs. ok (y ∷ zs) | false ↦ ok (x ∷ y ∷ ys) ]) ≡ ok zs
          → (before y x ≡ ok true) × ((ws : List A) × (insert_sorted x ys ≡ ok ws) × (zs ≡ y ∷ ws))
            ⊎ (before y x ≡ ok false) × (zs ≡ x ∷ y ∷ ys)
      go (ok true) (ok ws) p q h = inl (p, (ws, q, cc))
      go (ok true) (err _) p q h = cc
      go (ok false) r p q h = inr (p, cc)
      go (err _) r p q h = cc

  pub insert_sorted-perm : (x : A) (ys zs : List A) → insert_sorted x ys ≡ ok zs → Perm zs (x ∷ ys)
  unfolding insert_sorted
  insert_sorted-perm x [] zs e = let h : x ∷ [] ≡ zs = cc in rw (← h) (Perm.refl (x ∷ []))
  insert_sorted-perm x (y ∷ ys) zs e = elim (insert_sorted_cons x y ys zs e) [
    | inl (_, (ws, q, same)) ↦
        rw same (Perm.trans (Perm.cons y (insert_sorted-perm x ys ws q)) (Perm.swap x y ys))
    | inr (_, same) ↦ rw same (Perm.refl (x ∷ y ∷ ys))
  ]

  -- `sort` rearranges.
  pub sort_by-perm : (xs ys : List A) → sort_by xs ≡ ok ys → Perm ys xs
  unfolding sort_by
  sort_by-perm [] ys e = let h : [] ≡ ys = cc in rw (← h) (Perm.refl [])
  sort_by-perm (x ∷ xs) ys e =
      let (ws, p, q) = bind-eq-ok (sort_by xs) (insert_sorted x) e in
      Perm.trans (insert_sorted-perm x ws ys q) (Perm.cons x (sort_by-perm xs ws p))

  module _ (asymm : (x y : A) → before x y ≡ ok true → before y x ≡ ok false) where
    insert_from-IsSorted :
        (w x : A) (ys zs : List A)
        → before x w ≡ ok false
        → IsSortedFrom w ys
        → insert_sorted x ys ≡ ok zs
        → IsSortedFrom w zs
    unfolding insert_sorted
    insert_from-IsSorted w x [] zs p s e = let h : x ∷ [] ≡ zs = cc in rw (← h) (p, tt)
    insert_from-IsSorted w x (y ∷ ys) zs p (q, s) e = elim (insert_sorted_cons x y ys zs e) [
      | inl (lt, (ws, r, same)) ↦ rw same (q, insert_from-IsSorted y x ys ws (asymm y x lt) s r)
      | inr (ge, same) ↦ rw same (p, (ge, s))
    ]

    insert_sorted-IsSorted :
        (x : A) (ys zs : List A) → IsSorted ys → insert_sorted x ys ≡ ok zs → IsSorted zs
    unfolding insert_sorted
    insert_sorted-IsSorted x [] zs s e = let h : x ∷ [] ≡ zs = cc in rw (← h) tt
    insert_sorted-IsSorted x (y ∷ ys) zs s e = elim (insert_sorted_cons x y ys zs e) [
      | inl (lt, (ws, r, same)) ↦ rw same (insert_from-IsSorted y x ys ws (asymm y x lt) s r)
      | inr (ge, same) ↦ rw same (ge, s)
    ]

    -- `sort` orders.
    pub sort_by-IsSorted : (xs ys : List A) → sort_by xs ≡ ok ys → IsSorted ys
    unfolding sort_by
    sort_by-IsSorted [] ys e = let h : [] ≡ ys = cc in rw (← h) tt
    sort_by-IsSorted (x ∷ xs) ys e =
        let (ws, p, q) = bind-eq-ok (sort_by xs) (insert_sorted x) e in
        insert_sorted-IsSorted x ws ys (sort_by-IsSorted xs ws p) q

  -- Where elements with `P` can be compared, `sort` returns.
  module _ {κ} (P : A → Type κ)
      (comparable : (x y : A) → P x → P y → (b : Bool) × (before x y ≡ ok b)) where
    insert_sorted_total :
        (x : A) (ys : List A)
        → P x
        → All P ys
        → (zs : List A) × (insert_sorted x ys ≡ ok zs) × All P zs
    unfolding insert_sorted
    insert_sorted_total x [] p h = (x ∷ [], refl, (p, tt))
    insert_sorted_total x (y ∷ ys) p (q, h) =
        let (b, e) = comparable y x q p in
        let (zs, f, k) = insert_sorted_total x ys p h in go b e zs f k
      where
        go :
            (b : Bool)
            → before y x ≡ ok b
            → (zs : List A) → insert_sorted x ys ≡ ok zs
            → All P zs
            → (ws : List A) × (insert_sorted x (y ∷ ys) ≡ ok ws) × All P ws
        go true e zs f k = (y ∷ zs, rw (e, f), (q, k))
        go false e zs f k = (x ∷ y ∷ ys, rw e, (p, (q, h)))

    pub sort_by_total : (xs : List A) → All P xs → (ys : List A) × (sort_by xs ≡ ok ys) × All P ys
    unfolding sort_by
    sort_by_total [] h = ([], refl, tt)
    sort_by_total (x ∷ xs) (p, h) =
        let (ys, e, k) = sort_by_total xs h in
        let (zs, f, l) = insert_sorted_total x ys p k in (zs, rw e f, l)

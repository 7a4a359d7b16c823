-- ===== src/Memory/Seeding.antt =====
-- What `seed_roles` of fastapi_admin_kit/backends/memory.py leaves in the store.
use mathlib.Core.List.{append-nil, append_assoc}
use fastapi_admin_kit.Base.{
  ℕ, suc, ◌+◌, ◌≡◌, ◌≢◌, refl, ap, ◌∙◌, String, Bool, true, false, some, List, [], ◌∷◌, ◌++◌, arith,
  length, length-append,
}
use fastapi_admin_kit.Base.Int.{pos}
use fastapi_admin_kit.Base.Dict.{Dict, lookup, insert, lookup-insert}
use fastapi_admin_kit.Base.Result.{ok}
use fastapi_admin_kit.Base.Value.{int, lt_value}
use fastapi_admin_kit.Memory.Rows.{Record, max_from, next_id}
use fastapi_admin_kit.Memory.Action.{Store}
use fastapi_admin_kit.Memory.Database.{
  SeedRole, role_table, perm_table, junction_table, role_row, perm_row, append_row, fresh_id,
  seed_perms, seed_each, clear_table, clear_all, is_empty, seed_roles, rows_at,
}

-- The ids of the rows, in order, are `k + 1`, `k + 2` and so on.
abbrev pub NumberedFrom : ℕ → List Record → Type 0
NumberedFrom k [] = Unit
NumberedFrom k (r ∷ rs) = (lookup "id" r ≡ some (int (pos (suc k)))) × NumberedFrom (suc k) rs

max_from-NumberedFrom :
    (k : ℕ) (rows : List Record)
    → NumberedFrom k rows
    → max_from (int (pos k)) rows ≡ ok (int (pos (k + length rows)))
unfolding max_from lt_value
max_from-NumberedFrom k [] h = ap (λ n. ok (int (pos n))) (omega arith)
max_from-NumberedFrom k (r ∷ rs) (e, h) = ground (arith, max_from-NumberedFrom (suc k) rs h)

next_id-NumberedFrom :
    (rows : List Record) → NumberedFrom 0 rows → next_id rows ≡ ok (int (pos (suc (length rows))))
unfolding next_id
next_id-NumberedFrom [] h = refl
next_id-NumberedFrom (r ∷ rs) (e, h) = ground (arith, max_from-NumberedFrom 1 rs h)

NumberedFrom-append :
    (k : ℕ) (rows : List Record) (r : Record)
    → NumberedFrom k rows
    → lookup "id" r ≡ some (int (pos (suc (k + length rows))))
    → NumberedFrom k (rows ++ r ∷ [])
NumberedFrom-append k [] r h e = (rw e (ap (λ n. some (int (pos (suc n)))) (omega arith)), tt)
NumberedFrom-append k (x ∷ xs) r (q, h) e =
    (q, NumberedFrom-append (suc k) xs r h (e ∙ ap (λ n. some (int (pos (suc n)))) (omega arith)))

-- The rows that the roles stand for, with consecutive ids from `k` on.
abbrev pub role_rows : ℕ → List SeedRole → List Record
role_rows k [] = []
role_rows k (spec ∷ specs) = role_row spec (int (pos k)) ∷ role_rows (suc k) specs

abbrev pub perm_rows : ℕ → Dict (Dict Bool) → List Record
perm_rows k [] = []
perm_rows k ((table, actions) ∷ perms) =
    perm_row table actions (int (pos k)) ∷ perm_rows (suc k) perms

abbrev pub link_row : ℕ → ℕ → Record
link_row role perm = ("role_id", int (pos role)) ∷ ("permission_id", int (pos perm)) ∷ []

abbrev pub link_rows : ℕ → ℕ → Dict (Dict Bool) → List Record
link_rows role k [] = []
link_rows role k (_ ∷ perms) = link_row role k ∷ link_rows role (suc k) perms

abbrev pub all_perm_rows : ℕ → List SeedRole → List Record
all_perm_rows k [] = []
all_perm_rows k (spec ∷ specs) =
    perm_rows k spec.permissions ++ all_perm_rows (k + length spec.permissions) specs

-- A role with id `role` is linked to each of its own permissions.
abbrev pub all_link_rows : ℕ → ℕ → List SeedRole → List Record
all_link_rows role k [] = []
all_link_rows role k (spec ∷ specs) =
    link_rows role k spec.permissions
    ++ all_link_rows (suc role) (k + length spec.permissions) specs

-- The three tables of a store, with consecutive ids.
pub record Holds (s : Store) (roles perms links : List Record) : Type 0 where
  pub roles_at : lookup role_table s ≡ some roles
  pub perms_at : lookup perm_table s ≡ some perms
  pub links_at : lookup junction_table s ≡ some links
  pub roles_numbered : NumberedFrom 0 roles
  pub perms_numbered : NumberedFrom 0 perms

append_row_lem :
    (name : String) (r : Record) (rows : List Record) (s : Store)
    → lookup name s ≡ some rows
    → append_row name r s ≡ (ok tt, insert name (rows ++ r ∷ []) s)
unfolding append_row rows_at
append_row_lem name r rows s e = ground arith

fresh_id_lem :
    (name : String) (rows : List Record) (s : Store)
    → lookup name s ≡ some rows
    → NumberedFrom 0 rows
    → fresh_id name s ≡ (ok (int (pos (suc (length rows)))), s)
unfolding fresh_id
fresh_id_lem name rows s e h = ground (arith, next_id-NumberedFrom rows h)

length-concat {ℓ} : {A : Type ℓ} (xs : List A) (x : A) → length (xs ++ x ∷ []) ≡ suc (length xs)
length-concat xs x = length-append xs (x ∷ []) ∙ omega arith

NumberedFrom-next :
    (rows : List Record) (r : Record)
    → NumberedFrom 0 rows
    → lookup "id" r ≡ some (int (pos (suc (length rows))))
    → NumberedFrom 0 (rows ++ r ∷ [])
NumberedFrom-next rows r h e =
    NumberedFrom-append 0 rows r h (e ∙ ap (λ n. some (int (pos (suc n)))) (omega arith))

module _ {s : Store} {roles perms links : List Record} (h : Holds s roles perms links) where
  set_roles :
      (rows : List Record) → NumberedFrom 0 rows → Holds (insert role_table rows s) rows perms links
  set_roles rows n = record {
    roles_at = lookup-insert role_table role_table rows s;
    perms_at = lookup-insert role_table perm_table rows s ∙ h.perms_at;
    links_at = lookup-insert role_table junction_table rows s ∙ h.links_at;
    roles_numbered = n;
    perms_numbered = h.perms_numbered;
  }

  set_perms :
      (rows : List Record) → NumberedFrom 0 rows → Holds (insert perm_table rows s) roles rows links
  set_perms rows n = record {
    roles_at = lookup-insert perm_table role_table rows s ∙ h.roles_at;
    perms_at = lookup-insert perm_table perm_table rows s;
    links_at = lookup-insert perm_table junction_table rows s ∙ h.links_at;
    roles_numbered = h.roles_numbered;
    perms_numbered = n;
  }

  set_links : (rows : List Record) → Holds (insert junction_table rows s) roles perms rows
  set_links rows = record {
    roles_at = lookup-insert junction_table role_table rows s ∙ h.roles_at;
    perms_at = lookup-insert junction_table perm_table rows s ∙ h.perms_at;
    links_at = lookup-insert junction_table junction_table rows s;
    roles_numbered = h.roles_numbered;
    perms_numbered = h.perms_numbered;
  }

-- One role's permissions.
seed_perms_lem :
    (role : ℕ) (ps : Dict (Dict Bool)) (s : Store) (roles perms links : List Record)
    → Holds s roles perms links
    → (s' : Store) × (seed_perms (int (pos role)) ps s ≡ (ok tt, s'))
      × Holds s' roles
          (perms ++ perm_rows (suc (length perms)) ps)
          (links ++ link_rows role (suc (length perms)) ps)
unfolding seed_perms
seed_perms_lem role [] s roles perms links h = (s, refl, rw (append-nil perms, append-nil links) h)
seed_perms_lem role ((table, actions) ∷ ps) s roles perms links h =
    let k = suc (length perms) in
    let row = perm_row table actions (int (pos k)) in
    let link = link_row role k in
    let s₁ = insert perm_table (perms ++ row ∷ []) s in
    let h₁ = set_perms h (perms ++ row ∷ []) (NumberedFrom-next perms row h.perms_numbered refl) in
    let h₂ = set_links h₁ (links ++ link ∷ []) in
    let (s', e, h') =
      seed_perms_lem role ps (insert junction_table (links ++ link ∷ []) s₁) roles
        (perms ++ row ∷ []) (links ++ link ∷ []) h₂ in
    (
      s',
      ground (
        arith,
        fresh_id_lem perm_table perms s h.perms_at h.perms_numbered,
        append_row_lem perm_table row perms s h.perms_at,
        append_row_lem junction_table link links s₁ h₁.links_at,
        e,
      ),
      rw
          (
            ap suc (length-concat perms row),
            append_assoc perms (row ∷ []) (perm_rows (suc k) ps),
            append_assoc links (link ∷ []) (link_rows role (suc k) ps),
          )
          at h',
    )

length-perm_rows : (k : ℕ) (ps : Dict (Dict Bool)) → length (perm_rows k ps) ≡ length ps
length-perm_rows k [] = refl
length-perm_rows k (_ ∷ ps) = ap suc (length-perm_rows (suc k) ps)

seed_each_lem :
    (specs : List SeedRole) (s : Store) (roles perms links : List Record)
    → Holds s roles perms links
    → (s' : Store) × (seed_each specs s ≡ (ok tt, s'))
      × Holds s'
          (roles ++ role_rows (suc (length roles)) specs)
          (perms ++ all_perm_rows (suc (length perms)) specs)
          (links ++ all_link_rows (suc (length roles)) (suc (length perms)) specs)
unfolding seed_each
seed_each_lem [] s roles perms links h =
    (s, refl, rw (append-nil roles, append-nil perms, append-nil links) h)
seed_each_lem (spec ∷ specs) s roles perms links h =
    let k = suc (length roles) in
    let p = suc (length perms) in
    let row = role_row spec (int (pos k)) in
    let ps = perm_rows p spec.permissions in
    let ls = link_rows k p spec.permissions in
    let passed : suc (length (perms ++ ps)) ≡ p + length spec.permissions =
      omega (arith, length-append perms ps, length-perm_rows p spec.permissions) in
    let h₁ = set_roles h (roles ++ row ∷ []) (NumberedFrom-next roles row h.roles_numbered refl) in
    let (s₂, e₂, h₂) = seed_perms_lem k spec.permissions _ (roles ++ row ∷ []) perms links h₁ in
    let (s', e, h') = seed_each_lem specs s₂ (roles ++ row ∷ []) (perms ++ ps) (links ++ ls) h₂ in
    (
      s',
      ground (
        arith,
        fresh_id_lem role_table roles s h.roles_at h.roles_numbered,
        append_row_lem role_table row roles s h.roles_at,
        e₂,
        e,
      ),
      rw
          (
            ap suc (length-concat roles row),
            passed,
            append_assoc roles (row ∷ []) (role_rows (suc k) specs),
            append_assoc perms ps,
            append_assoc links ls,
          )
          at h',
    )

clear_table_lem :
    (name : String) (rows : List Record) (s : Store)
    → lookup name s ≡ some rows
    → clear_table name s ≡ (ok tt, insert name [] s)
unfolding clear_table rows_at
clear_table_lem name rows s e = ground arith

-- The store after the first, the second and the third table has been emptied.
abbrev cleared₁ : Store → Store
cleared₁ s = insert role_table [] s

abbrev cleared₂ : Store → Store
cleared₂ s = insert perm_table [] (cleared₁ s)

abbrev cleared : Store → Store
cleared s = insert junction_table [] (cleared₂ s)

not_empty : (rows : List Record) → rows ≢ [] → is_empty rows ≡ false
not_empty [] h = absurd (h refl)
not_empty (r ∷ rows) h = refl

module _ (specs : List SeedRole) (s : Store) {roles perms links : List Record}
    (roles_at : lookup role_table s ≡ some roles) (perms_at : lookup perm_table s ≡ some perms)
    (links_at : lookup junction_table s ≡ some links) where
  cleared-Holds : Holds (cleared s) [] [] []
  cleared-Holds = record {
    roles_at =
        lookup-insert junction_table role_table [] (cleared₂ s)
        ∙ lookup-insert perm_table role_table [] (cleared₁ s)
        ∙ lookup-insert role_table role_table [] s;
    perms_at =
        lookup-insert junction_table perm_table [] (cleared₂ s)
        ∙ lookup-insert perm_table perm_table [] (cleared₁ s);
    links_at = lookup-insert junction_table junction_table [] (cleared₂ s);
    roles_numbered = tt;
    perms_numbered = tt;
  }

  clear_all_lem : clear_all true s ≡ (ok tt, cleared s)
  unfolding clear_all
  clear_all_lem = ground (
    arith,
    clear_table_lem role_table roles s roles_at,
    clear_table_lem perm_table perms (cleared₁ s)
        (lookup-insert role_table perm_table [] s ∙ perms_at),
    clear_table_lem junction_table links (cleared₂ s) (
        lookup-insert perm_table junction_table [] (cleared₁ s)
        ∙ lookup-insert role_table junction_table [] s
        ∙ links_at),
  )

  -- With `overwrite`, whatever the three tables held, `seed_roles` leaves exactly the roles and
  -- permissions that were asked for, both with ids 1, 2, 3 and so on in order, and a link from each
  -- role to each of its own permissions. Without it, a store that has roles is left as it is.
  pub seed_roles-Holds :
      ((s' : Store) × (seed_roles specs true s ≡ (ok tt, s'))
        × Holds s' (role_rows 1 specs) (all_perm_rows 1 specs) (all_link_rows 1 1 specs))
      × (roles ≢ [] → seed_roles specs false s ≡ (ok tt, s))
  unfolding seed_roles rows_at
  seed_roles-Holds =
      let (s', e, h) = seed_each_lem specs (cleared s) [] [] [] cleared-Holds in
      (
        (s', ground (arith, clear_all_lem, e), h),
        λ some_role. ground (arith, not_empty roles some_role),
      )

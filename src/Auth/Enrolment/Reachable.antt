-- ===== src/Auth/Enrolment/Reachable.antt =====
-- The tables that requests can lead to, fastapi_admin_kit/views/totp.py.
use fastapi_admin_kit.Base.{
  ℕ, Bool, true, false, not, ◌&&◌, Option, none, some, List, [], ◌∷◌, ◌++◌, keep, keep-append, ◌≡◌,
  refl, arith, Bool-cases, inl, inr, if◌then◌else◌,
}
use fastapi_admin_kit.Base.Result.{Result, ok, err}
use fastapi_admin_kit.Base.Text.{Unicode}
use fastapi_admin_kit.Base.Value.{Value, is_null, eq_value, eq_value_comm, eq_value_trans}
use fastapi_admin_kit.Auth.Totp.{Crypto}
use fastapi_admin_kit.Auth.Enrolment.{
  UserTotp, Rows, is_of, is_given, with_record, choose, one_or_none, get_totp_record, put, attempt,
  Page, sent_code, totp_setup_view, totp_enable_post, totp_disable_post,
  totp_regenerate_backup_codes, verify_backup, verify_second, totp_verify_post,
}

-- There is a list of backup codes, empty once all are used, exactly while the second factor is enabled.
abbrev pub is_some {ℓ} : {A : Type ℓ} → Option A → Bool
is_some none = false
is_some (some _) = true

abbrev pub IsConsistent : UserTotp → Type 0
IsConsistent r = is_some r.backup_codes ≡ r.enabled

-- Each user has one row at most, and every row is consistent.
abbrev pub IsTable : Rows → Type 0
IsTable [] = Unit
IsTable (r ∷ rows) = IsConsistent r × (keep (is_of r.user_id) rows ≡ []) × IsTable rows

keep_same :
    (a b : Value) (rows : Rows) → eq_value a b ≡ true → keep (is_of a) rows ≡ keep (is_of b) rows
keep_same a b [] e = refl
keep_same a b (r ∷ rows) e = ground (
  arith,
  keep_same a b rows e,
  eq_value_trans a b r.user_id e,
  eq_value_comm r.user_id a,
  eq_value_comm r.user_id b,
)

keep-put :
    (r : UserTotp) (id : Value) (rows : Rows)
    → keep (is_of id) rows ≡ []
    → is_of id r ≡ false
    → keep (is_of id) (put r rows) ≡ []
unfolding put
keep-put r id [] k other = refl
keep-put r id (s ∷ rows) k other = ground (arith, keep-put r id rows)

put-IsTable : (r : UserTotp) (rows : Rows) → IsConsistent r → IsTable rows → IsTable (put r rows)
unfolding put
put-IsTable r [] c t = tt
put-IsTable r (s ∷ rows) c (d, alone, t) = elim (Bool-cases (is_of r.user_id s)) [
  | inl same ↦
      let moved = keep_same s.user_id r.user_id rows same in
      let rest : IsTable (r ∷ rows) = (c, ground (arith, moved, alone), t) in rw same rest
  | inr other ↦
      let differ : is_of s.user_id r ≡ false =
        ground (arith, other, eq_value_comm s.user_id r.user_id) in
      let rest : IsTable (s ∷ put r rows) =
        (d, keep-put r s.user_id rows alone differ, put-IsTable r rows c t) in
      rw other rest
]

append-IsTable :
    (rows : Rows) (r : UserTotp)
    → keep (is_of r.user_id) rows ≡ []
    → IsConsistent r
    → IsTable rows
    → IsTable (rows ++ r ∷ [])
append-IsTable [] r k c t = (c, refl, tt)
append-IsTable (s ∷ rows) r k c (d, alone, t) =
    let differ : is_of s.user_id r ≡ false = ground (arith, k, eq_value_comm s.user_id r.user_id) in
    (
      d,
      ground (arith, keep-append (is_of s.user_id) rows (r ∷ []), differ, alone),
      append-IsTable rows r (ground (arith, k)) c t,
    )

-- The three ways in which a handler goes on.
attempt-IsTable :
    {V : Type 0} (rows : Rows) (step : Result V) (rest : V → Result Page × Rows)
    → IsTable rows
    → ((v : V) → step ≡ ok v → IsTable (rest v).1)
    → IsTable (attempt rows step rest).1
unfolding attempt
attempt-IsTable rows (err e) rest t h = t
attempt-IsTable rows (ok v) rest t h = h v refl

pick-IsTable :
    (b : Bool) (x y : Result Page × Rows)
    → (b ≡ true → IsTable x.1)
    → (b ≡ false → IsTable y.1)
    → IsTable (if b then x else y).1
pick-IsTable true x y h k = h refl
pick-IsTable false x y h k = k refl

choose-IsTable :
    {V : Type 0} (found : Option V) (x : Result Page × Rows) (f : V → Result Page × Rows)
    → (found ≡ none → IsTable x.1)
    → ((v : V) → IsTable (f v).1)
    → IsTable (choose found x f).1
unfolding choose
choose-IsTable none x f h k = h refl
choose-IsTable (some v) x f h k = k v

with_record-IsTable :
    (rows : Rows) (id : Value) (missing : Result Page) (rest : UserTotp → Result Page × Rows)
    → IsTable rows
    → ((r : UserTotp) → IsTable (rest r).1)
    → IsTable (with_record rows id missing rest).1
unfolding with_record
with_record-IsTable rows id missing rest t h =
    attempt-IsTable rows (get_totp_record rows id) (λ found. choose found (missing, rows) rest) t
      (λ found e. choose-IsTable found (missing, rows) rest (λ n. t) h)

one_or_none-none : (rs : List UserTotp) → one_or_none rs ≡ ok none → rs ≡ []
one_or_none-none [] e = refl
one_or_none-none (r ∷ []) e = cc
one_or_none-none (r ∷ s ∷ rs) e = cc

totp_setup_view-IsTable :
    (id : Value) (secret : List ℕ) (rows : Rows)
    → IsTable rows
    → IsTable (totp_setup_view id secret rows).1
unfolding totp_setup_view get_totp_record
totp_setup_view-IsTable id secret rows t = attempt-IsTable rows _ _ t (λ found e.
    choose-IsTable found _ _
      (λ n.
        append-IsTable rows fresh (one_or_none-none (keep (is_of id) rows) (missing found e n)) refl
          t)
      (λ r. pick-IsTable r.enabled _ _ (λ h. t) (λ h. t)))
  where
    fresh : UserTotp
    fresh = record { user_id = id; secret_key = secret; enabled = false; backup_codes = none }

    missing :
        (found : Option UserTotp)
        → one_or_none (keep (is_of id) rows) ≡ ok found
        → found ≡ none
        → one_or_none (keep (is_of id) rows) ≡ ok none
    missing found e n = cc

module _ (u : Unicode) (crypto : Crypto) where
  totp_enable_post-IsTable :
      (id : Value) (now : ℕ) (code : List ℕ) (hashes : List (List ℕ)) (rows : Rows)
      → IsTable rows
      → IsTable (totp_enable_post u crypto id now code hashes rows).1
  unfolding totp_enable_post
  totp_enable_post-IsTable id now code hashes rows t = with_record-IsTable rows id _ _ t (λ r.
      attempt-IsTable rows _ _ t (λ valid e.
        pick-IsTable valid _ _
          (λ h. put-IsTable (record r { enabled = true; backup_codes = some hashes }) rows refl t)
          (λ h. t)))

  totp_disable_post-IsTable :
      (id : Value) (now : ℕ) (code : List ℕ) (password : Bool) (rows : Rows)
      → IsTable rows
      → IsTable (totp_disable_post u crypto id now code password rows).1
  unfolding totp_disable_post
  totp_disable_post-IsTable id now code password rows t =
      pick-IsTable (not password) _ _ (λ h. t)
        (λ h. with_record-IsTable rows id _ _ t (λ r.
          pick-IsTable (not r.enabled) _ _ (λ h. t)
            (λ h. attempt-IsTable rows _ _ t (λ valid e.
              pick-IsTable valid _ _
                (λ h. put-IsTable (record r { enabled = false; backup_codes = none }) rows refl t)
                (λ h. t)))))

  totp_regenerate-IsTable :
      (id : Value) (hashes : List (List ℕ)) (rows : Rows)
      → IsTable rows
      → IsTable (totp_regenerate_backup_codes u crypto id hashes rows).1
  unfolding totp_regenerate_backup_codes
  totp_regenerate-IsTable id hashes rows t = with_record-IsTable rows id _ _ t (λ r.
      pick-IsTable (not r.enabled) _ _ (λ h. t) (λ h. put-IsTable _ rows (ground (arith, h)) t))

  verify_second-IsTable :
      (r : UserTotp) (now : ℕ) (code : List ℕ) (id : Value) (rows : Rows)
      → IsTable rows
      → IsTable (verify_second u crypto r now code id rows).1
  unfolding verify_second verify_backup
  verify_second-IsTable r now code id rows t =
      pick-IsTable (r.enabled && is_given u crypto code) _ _
        (λ live. attempt-IsTable rows _ _ t (λ valid e.
          pick-IsTable valid _ _ (λ h. t)
            (λ h.
              choose-IsTable r.backup_codes _ _ (λ n. t)
                (λ hashes. attempt-IsTable rows _ _ t (λ v e.
                  pick-IsTable v.0 _ _ (λ h. put-IsTable _ rows (ground (arith, live)) t)
                    (λ h. t))))))
        (λ h. t)

  totp_verify_post-IsTable :
      (upper : List ℕ → List ℕ) (resolve_user : Value → Option Value) (pending : Result Value)
      (now : ℕ) (code : List ℕ) (rows : Rows)
      → IsTable rows
      → IsTable (totp_verify_post u crypto upper resolve_user pending now code rows).1
  unfolding totp_verify_post
  totp_verify_post-IsTable upper resolve_user pending now code rows t =
      attempt-IsTable rows pending _ t (λ sent e.
        pick-IsTable (is_null sent) _ _ (λ h. t)
          (λ h.
            choose-IsTable (resolve_user sent) _ _ (λ n. t)
              (λ id.
                with_record-IsTable rows id _ _ t
                  (λ r. verify_second-IsTable r now (upper (sent_code u crypto code)) id rows t))))

  -- One request, by any user at any time.
  pub data Step : Rows → Rows → Type 0 where
    setup :
        (id : Value) (secret : List ℕ) (rows : Rows) → Step rows (totp_setup_view id secret rows).1
    enable :
        (id : Value) (now : ℕ) (code : List ℕ) (hashes : List (List ℕ)) (rows : Rows)
        → Step rows (totp_enable_post u crypto id now code hashes rows).1
    disable :
        (id : Value) (now : ℕ) (code : List ℕ) (password : Bool) (rows : Rows)
        → Step rows (totp_disable_post u crypto id now code password rows).1
    regenerate :
        (id : Value) (hashes : List (List ℕ)) (rows : Rows)
        → Step rows (totp_regenerate_backup_codes u crypto id hashes rows).1
    verify :
        (upper : List ℕ → List ℕ) (resolve_user : Value → Option Value) (pending : Result Value)
        (now : ℕ) (code : List ℕ) (rows : Rows)
        → Step rows (totp_verify_post u crypto upper resolve_user pending now code rows).1

  pub data Reachable : Rows → Type 0 where
    empty : Reachable []
    after : {rows next : Rows} → Reachable rows → Step rows next → Reachable next

  Step-IsTable : {rows next : Rows} → Step rows next → IsTable rows → IsTable next
  Step-IsTable (setup id secret rows) t = totp_setup_view-IsTable id secret rows t
  Step-IsTable (enable id now code hashes rows) t =
      totp_enable_post-IsTable id now code hashes rows t
  Step-IsTable (disable id now code password rows) t =
      totp_disable_post-IsTable id now code password rows t
  Step-IsTable (regenerate id hashes rows) t = totp_regenerate-IsTable id hashes rows t
  Step-IsTable (verify upper resolve_user pending now code rows) t =
      totp_verify_post-IsTable upper resolve_user pending now code rows t

  -- In every table that requests lead to, each user has one row at most, and a row holds a list of
  -- backup codes, which may be empty once all are used, exactly while its second factor is enabled.
  pub reachable-IsTable : {rows : Rows} → Reachable rows → IsTable rows
  reachable-IsTable empty = tt
  reachable-IsTable (after before step) = Step-IsTable step (reachable-IsTable before)

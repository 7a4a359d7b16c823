-- ===== src/Auth/Enrolment/Login.antt =====
-- What a session takes where the second factor is enabled, fastapi_admin_kit/views/totp.py.
use fastapi_admin_kit.Base.{
  ℕ, Bool, true, false, ◌&&◌, Option, none, some, List, ◌≡◌, refl, ◌⊎◌, inl, inr, arith,
  if◌then◌else◌,
}
use fastapi_admin_kit.Base.Result.{Result, ok, err}
use fastapi_admin_kit.Base.Text.{Unicode}
use fastapi_admin_kit.Base.Value.{Value, is_null}
use fastapi_admin_kit.Auth.Totp.{Crypto, verify_totp, verify_backup_code}
use fastapi_admin_kit.Auth.Enrolment.{
  UserTotp, Rows, is_given, with_record, choose, get_totp_record, put, attempt, Page, session_for,
  invalid_code, sent_code, verify_backup, verify_second, totp_verify_post,
}

-- Which step an answer comes from.
attempt-eq-ok :
    {V : Type 0} (rows : Rows) (step : Result V) (rest : V → Result Page × Rows) {p : Page}
    {next : Rows}
    → attempt rows step rest ≡ (ok p, next)
    → (v : V) × (step ≡ ok v) × (rest v ≡ (ok p, next))
unfolding attempt
attempt-eq-ok rows (err e) rest h = cc
attempt-eq-ok rows (ok v) rest h = (v, refl, h)

choose-eq :
    {V : Type 0} (found : Option V) (missing : Result Page × Rows) (rest : V → Result Page × Rows)
    {answer : Result Page × Rows}
    → choose found missing rest ≡ answer
    → (missing ≡ answer) ⊎ ((v : V) × (found ≡ some v) × (rest v ≡ answer))
unfolding choose
choose-eq none missing rest h = inl h
choose-eq (some v) missing rest h = inr (v, refl, h)

if-eq :
    (b : Bool) (x y : Result Page × Rows) {answer : Result Page × Rows}
    → (if b then x else y) ≡ answer
    → ((b ≡ true) × (x ≡ answer)) ⊎ ((b ≡ false) × (y ≡ answer))
if-eq true x y h = inl (refl, h)
if-eq false x y h = inr (refl, h)

module _ (u : Unicode) (crypto : Crypto) where
  -- The code is a one-time code of the row, or one of its backup codes, which then is spent.
  abbrev pub IsVerified : UserTotp → ℕ → List ℕ → Rows → Rows → Type 0
  IsVerified r now code rows next =
      ((verify_totp crypto now r.secret_key code 1 ≡ ok true) × (next ≡ rows))
      ⊎ ((hashes left : List (List ℕ)) × (r.backup_codes ≡ some hashes)
          × (verify_backup_code crypto code hashes ≡ ok (true, left))
          × (next ≡ put (record r { backup_codes = some left }) rows))

  verify_backup-eq :
      (r : UserTotp) (code : List ℕ) (id who : Value) (rows next : Rows)
      → verify_backup u crypto r code id rows ≡ (ok (session_for who), next)
      → (hashes left : List (List ℕ)) × (r.backup_codes ≡ some hashes)
        × (verify_backup_code crypto code hashes ≡ ok (true, left))
        × (next ≡ put (record r { backup_codes = some left }) rows)
        × (who ≡ id)
  unfolding verify_backup
  verify_backup-eq r code id who rows next h =
      elim (choose-eq r.backup_codes (ok invalid_code, rows) _ h) [
        | inl nothing ↦ cc
        | inr (hashes, e, run) ↦
            let ((b, left), v, last) =
              attempt-eq-ok rows (verify_backup_code crypto code hashes) _ run in
            elim (if-eq b _ _ last) [
              | inl (good, answer) ↦ (hashes, left, e, cc, cc, cc)
              | inr (bad, answer) ↦ cc
            ]
      ]

  verify_second-eq :
      (r : UserTotp) (now : ℕ) (code : List ℕ) (id who : Value) (rows next : Rows)
      → verify_second u crypto r now code id rows ≡ (ok (session_for who), next)
      → (r.enabled ≡ true) × IsVerified r now code rows next × (who ≡ id)
  unfolding verify_second
  verify_second-eq r now code id who rows next h =
      elim (if-eq (r.enabled && is_given u crypto code) _ _ h) [
        | inr (bad, answer) ↦ cc
        | inl (live, run) ↦
            let on : r.enabled ≡ true = ground (arith, live) in
            let (valid, v, last) =
              attempt-eq-ok rows (verify_totp crypto now r.secret_key code 1) _ run in
            elim (if-eq valid _ _ last) [
              | inl (good, answer) ↦ (on, inl (cc, cc), cc)
              | inr (bad, backup) ↦
                  let (hashes, left, e, spent, n, w) =
                    verify_backup-eq r code id who rows next backup in
                  (on, inr (hashes, left, e, spent, n), w)
            ]
      ]

  -- A session that the second step issues is the session of the user whom the pending token names,
  -- and it takes the user's row with the second factor enabled and a code that is a one-time code of
  -- its secret or a backup code of it; a backup code is spent in the table that is left, and a
  -- one-time code leaves the table as it is.
  pub totp_verify_post-IsVerified :
      (upper : List ℕ → List ℕ) (resolve_user : Value → Option Value) (pending : Result Value)
      (now : ℕ) (code : List ℕ) (rows next : Rows) (who : Value)
      → totp_verify_post u crypto upper resolve_user pending now code rows
        ≡ (ok (session_for who), next)
      → (named : Value) × (pending ≡ ok named)
        × (is_null named ≡ false)
        × (resolve_user named ≡ some who)
        × (r : UserTotp) × (get_totp_record rows who ≡ ok (some r))
        × (r.enabled ≡ true)
        × IsVerified r now (upper (sent_code u crypto code)) rows next
  unfolding totp_verify_post with_record
  totp_verify_post-IsVerified upper resolve_user pending now code rows next who h =
      let (named, p, run) = attempt-eq-ok rows pending _ h in
      elim (if-eq (is_null named) _ _ run) [
        | inl (nothing, answer) ↦ cc
        | inr (given, run) ↦ elim (choose-eq (resolve_user named) _ _ run) [
          | inl answer ↦ cc
          | inr (id, user, run) ↦
              let (found, g, run) = attempt-eq-ok rows (get_totp_record rows id) _ run in
              elim (choose-eq found _ _ run) [
                | inl answer ↦ cc
                | inr (r, f, run) ↦
                    let (on, verified, w) =
                      verify_second-eq r now (upper (sent_code u crypto code)) id who rows next
                        run in
                    (named, p, given, rw w user, r, rw w (cc), on, verified)
              ]
        ]
      ]

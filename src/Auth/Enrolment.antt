-- ===== src/Auth/Enrolment.antt =====
-- Enrolment in two-factor authentication and the second step of a login,
-- fastapi_admin_kit/views/totp.py with the queries of fastapi_admin_kit/auth/totp.py. `rows` is the
-- table of UserTOTP. The JSON column of hashes is the list that it stands for. Drawn secrets and
-- backup codes are arguments, with the hashes of the codes.
pub mod Reachable
pub mod Login
mod Tests
use fastapi_admin_kit.Base.{
  ℕ, Bool, true, false, not, ◌&&◌, Option, none, some, List, [], ◌∷◌, ◌++◌, keep, if◌then◌else◌,
}
use fastapi_admin_kit.Base.Result.{Result, ok, err, http_error, multiple_results, ◌>>=◌, map_result}
use fastapi_admin_kit.Base.Text.{Unicode, strip}
use fastapi_admin_kit.Base.Value.{Value, eq_value, is_null}
use fastapi_admin_kit.Auth.Totp.{Crypto, verify_totp, verify_backup_code}

pub record UserTotp : Type 0 where
  pub user_id : Value
  pub secret_key : List ℕ
  pub enabled : Bool
  pub backup_codes : Option (List (List ℕ))

abbrev pub Rows : Type 0
Rows = List UserTotp

abbrev pub is_of : Value → UserTotp → Bool
is_of user_id r = eq_value r.user_id user_id

-- `scalar_one_or_none`, which raises on two rows.
abbrev pub one_or_none : List UserTotp → Result (Option UserTotp)
one_or_none [] = ok none
one_or_none (r ∷ []) = ok (some r)
one_or_none (r ∷ s ∷ rs) = err multiple_results

unfoldable pub get_totp_record : Rows → Value → Result (Option UserTotp)
get_totp_record rows user_id = one_or_none (keep (is_of user_id) rows)

abbrev pub is_enabled : Option UserTotp → Bool
is_enabled none = false
is_enabled (some r) = r.enabled

unfoldable pub has_totp_enabled : Rows → Value → Result Bool
has_totp_enabled rows user_id = map_result is_enabled (get_totp_record rows user_id)

-- A change of the row that was read is written to the table with the flush.
unfoldable pub put : UserTotp → Rows → Rows
put r [] = []
put r (s ∷ rows) = if is_of r.user_id s then r ∷ rows else s ∷ put r rows

-- What a request is answered with.
pub data Page : Type 0 where
  already_enabled : Page
  secret_shown : List ℕ → Page
  invalid_code : Page
  wrong_password : Page
  codes_shown : Page
  disabled : Page
  to_login : Page
  session_for : Value → Page

abbrev Answer : Type 0
Answer = Result Page × Rows

-- A raise of a step before any change: the table stays.
unfoldable pub attempt :
    {V : Type 0} → Rows → Result V → (V → Result Page × Rows) → Result Page × Rows
attempt rows (err e) rest = (err e, rows)
attempt rows (ok v) rest = rest v

unfoldable pub choose :
    {V : Type 0} → Option V → Result Page × Rows → (V → Result Page × Rows) → Result Page × Rows
choose none missing rest = missing
choose (some v) missing rest = rest v

-- The row of the user, or the answer where there is none.
unfoldable pub with_record :
    Rows → Value → Result Page → (UserTotp → Result Page × Rows) → Result Page × Rows
with_record rows user_id missing rest =
    attempt rows (get_totp_record rows user_id) (λ found. choose found (missing, rows) rest)

unfoldable pub totp_setup_view : Value → List ℕ → Rows → Answer
totp_setup_view user_id secret rows = attempt rows (get_totp_record rows user_id) (λ found.
    choose found
      (
        ok (secret_shown secret),
        rows
            ++ record {
              user_id = user_id;
              secret_key = secret;
              enabled = false;
              backup_codes = none;
            }
              ∷ [],
      )
      (λ r.
        if r.enabled then (ok already_enabled, rows) else (ok (secret_shown r.secret_key), rows)))

module _ (u : Unicode) (crypto : Crypto) where
  -- `form.get("code", "").strip()`, on the text that was sent or the empty one
  abbrev pub sent_code : List ℕ → List ℕ
  sent_code code = strip u.is_space code

  unfoldable pub totp_enable_post : Value → ℕ → List ℕ → List (List ℕ) → Rows → Answer
  totp_enable_post user_id now code hashes rows = with_record rows user_id (err http_error) (λ r.
      attempt rows (verify_totp crypto now r.secret_key (sent_code code) 1) (λ valid.
        if valid
        then (ok codes_shown, put (record r { enabled = true; backup_codes = some hashes }) rows)
        else (ok invalid_code, rows)))

  -- `password` is what `user.verify_password` says of the password that was sent.
  unfoldable pub totp_disable_post : Value → ℕ → List ℕ → Bool → Rows → Answer
  totp_disable_post user_id now code password rows =
      if not password
      then (ok wrong_password, rows)
      else (with_record rows user_id (err http_error) (λ r.
          if not r.enabled
          then (err http_error, rows)
          else (attempt rows (verify_totp crypto now r.secret_key (sent_code code) 1) (λ valid.
              if valid
              then (ok disabled, put (record r { enabled = false; backup_codes = none }) rows)
              else (ok invalid_code, rows)))))

  unfoldable pub totp_regenerate_backup_codes : Value → List (List ℕ) → Rows → Answer
  totp_regenerate_backup_codes user_id hashes rows = with_record rows user_id (err http_error) (λ r.
      if not r.enabled
      then (err http_error, rows)
      else (ok codes_shown, put (record r { backup_codes = some hashes }) rows))

  abbrev pub is_given : List ℕ → Bool
  is_given [] = false
  is_given (_ ∷ _) = true

  -- The `elif` of `totp_verify_post`: a backup code, and the row that is written if it counts.
  unfoldable pub verify_backup : UserTotp → List ℕ → Value → Rows → Answer
  verify_backup r code user_id rows =
      choose r.backup_codes (ok invalid_code, rows)
        (λ hashes. attempt rows (verify_backup_code crypto code hashes) (λ (found, left).
          if found
          then (ok (session_for user_id), put (record r { backup_codes = some left }) rows)
          else (ok invalid_code, rows)))

  unfoldable pub verify_second : UserTotp → ℕ → List ℕ → Value → Rows → Answer
  verify_second r now code user_id rows =
      if r.enabled && is_given code
      then (attempt rows (verify_totp crypto now r.secret_key code 1) (λ valid.
          if valid then (ok (session_for user_id), rows) else verify_backup r code user_id rows))
      else (ok invalid_code, rows)

  -- `pending` is what `decode_pending_2fa` says of the token that was sent, `resolve_user` the query
  -- for the user, by the id that the user has, and `upper` is `str.upper`.
  unfoldable pub totp_verify_post :
      (upper : List ℕ → List ℕ) (resolve_user : Value → Option Value)
      → Result Value
      → ℕ
      → List ℕ
      → Rows
      → Answer
  totp_verify_post upper resolve_user pending now code rows = attempt rows pending (λ user_id.
      if is_null user_id
      then (ok to_login, rows)
      else (choose (resolve_user user_id) (ok to_login, rows)
          (λ id.
            with_record rows id (ok invalid_code)
              (λ r. verify_second r now (upper (sent_code code)) id rows))))

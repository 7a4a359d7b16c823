-- ===== src/Auth/Enrolment/Tests.antt =====
-- An enrolment and a login, fastapi_admin_kit/views/totp.py.
use fastapi_admin_kit.Fixtures.{ascii}
use fastapi_admin_kit.Base.{
  ℕ, Bool, true, false, Option, none, some, List, [], ◌∷◌, codes, ◌≡◌, refl,
}
use fastapi_admin_kit.Base.Int.{pos}
use fastapi_admin_kit.Base.Result.{ok}
use fastapi_admin_kit.Base.Text.{eq_codes, strip, lstrip, starts_with}
use fastapi_admin_kit.Base.Value.{Value, int, is_null, eq_value, decimal}
use fastapi_admin_kit.Auth.Totp.{
  verify_totp, verify_each, generate_hotp, decode_secret, pack, truncate, unpack, six_digits,
  compare_digest, verify_backup_code, is_hash_of, is_bcrypt_hash,
}
use fastapi_admin_kit.Auth.Totp.Tests.{plain, secret}
use fastapi_admin_kit.Auth.Enrolment.{
  UserTotp, Rows, session_for, get_totp_record, with_record, attempt, choose, put, sent_code,
  totp_setup_view, totp_enable_post, verify_second, verify_backup, totp_verify_post,
}
use fastapi_admin_kit.Auth.Enrolment.Reachable.{
  IsTable, empty, after, setup, enable, reachable-IsTable,
}
use fastapi_admin_kit.Auth.Enrolment.Login.{IsVerified, totp_verify_post-IsVerified}

abbrev seven : Value
seven = int (pos 7)

abbrev row : Bool → Option (List (List ℕ)) → UserTotp
row enabled hashes = record {
  user_id = seven;
  secret_key = secret;
  enabled = enabled;
  backup_codes = hashes;
}

abbrev hashes : List (List ℕ)
hashes = codes "$2b$AAAA" ∷ codes "$2b$BBBB" ∷ []

abbrev enrolled : Rows
enrolled = row true (some hashes) ∷ []

abbrev started : Rows
started = row false none ∷ []

set_up : (totp_setup_view seven secret []).1 ≡ started
unfolding totp_setup_view get_totp_record attempt choose
set_up = refl

enabled_row : (totp_enable_post ascii plain seven 60 (codes "528256") hashes started).1 ≡ enrolled
unfolding totp_enable_post with_record get_totp_record attempt choose put verify_totp verify_each
    generate_hotp decode_secret pack truncate unpack six_digits decimal compare_digest eq_codes
    eq_value strip lstrip
enabled_row = refl

reachable-IsTable_example :
    IsTable
      (totp_enable_post ascii plain seven 60
        (codes "528256")
        hashes
        (totp_setup_view seven secret []).1).1
reachable-IsTable_example = reachable-IsTable ascii plain (
    after (after empty (setup seven secret []))
      (enable seven 60 (codes "528256") hashes (totp_setup_view seven secret []).1))

abbrev spent : Rows
spent = row true (some (codes "$2b$AAAA" ∷ [])) ∷ []

logged_in :
    totp_verify_post ascii plain (λ s. s) (λ id. some id) (ok seven) 60 (codes "BBBB") enrolled
    ≡ (ok (session_for seven), spent)
unfolding totp_verify_post verify_second verify_backup with_record get_totp_record attempt choose
    put verify_totp verify_each verify_backup_code is_hash_of is_bcrypt_hash compare_digest eq_codes
    eq_value strip lstrip starts_with
logged_in = refl

totp_verify_post-IsVerified_example :
    (named : Value) × (ok seven ≡ ok named)
    × (is_null named ≡ false)
    × (some named ≡ some seven)
    × (r : UserTotp) × (get_totp_record enrolled seven ≡ ok (some r))
    × (r.enabled ≡ true)
    × IsVerified ascii plain r 60 (sent_code ascii plain (codes "BBBB")) enrolled spent
totp_verify_post-IsVerified_example =
    totp_verify_post-IsVerified ascii plain (λ s. s) (λ id. some id) (ok seven) 60 (codes "BBBB")
      enrolled spent seven logged_in

-- ===== src/Auth/Totp/Tests.antt =====
-- Concrete codes of fastapi_admin_kit/auth/totp.py. In place of HMAC-SHA1 stand twenty bytes that start
-- with the last byte of the counter, twice.
use fastapi_admin_kit.Base.{
  ℕ, ◌+◌, ◌/◌, ◌≤◌, Bool, true, ◌||◌, some, List, [], ◌∷◌, ◌++◌, codes, length, ltb, ◌≡◌, refl, ◌↔◌,
  arith,
}
use fastapi_admin_kit.Base.Int.{pos}
use fastapi_admin_kit.Base.Result.{ok, err, type_error}
use fastapi_admin_kit.Base.Text.{eq_codes, starts_with}
use fastapi_admin_kit.Base.Value.{decimal, is_ascii_digit}
use fastapi_admin_kit.Auth.Totp.{
  Crypto, last_byte, six_digits, unpack, pack, compare_digest, decode_secret, truncate,
  generate_hotp, verify_totp, is_bcrypt_hash, is_hash_of, verify_backup_code,
}
use fastapi_admin_kit.Auth.Totp.Codes.{verify_totp-generate_hotp, verify_totp-is_ascii}
use fastapi_admin_kit.Auth.Totp.Backup.{redeem, redeem-length}

abbrev digest_of : ℕ → List ℕ
digest_of b = b ∷ b ∷ 0 ∷ 0 ∷ 0 ∷ 0 ∷ 0 ∷ 0 ∷ 0 ∷ 0 ∷ 0 ∷ 0 ∷ 0 ∷ 0 ∷ 0 ∷ 0 ∷ 0 ∷ 0 ∷ 0 ∷ 0 ∷ []

-- Every character above 127 counts as a digit too. A hash is the code itself, behind `$2b$` or not.
abbrev pub plain : Crypto
plain = record {
  b32decode = λ s. some s;
  hmac_sha1 = λ key m. digest_of (last_byte m);
  sha256_hex = λ code. codes "x";
  checkpw = λ code h. some (eq_codes (codes "$2b$" ++ code) h);
  is_digit = λ c. is_ascii_digit c || ltb 127 c;
}

abbrev pub secret : List ℕ
secret = codes "ABCDEFGH"

-- At the 60th second the counter is 2; this is the code of counter 3.
code_of_three : generate_hotp plain secret (pos 3) ≡ ok (codes "528256")
unfolding generate_hotp decode_secret pack truncate unpack six_digits decimal
code_of_three = refl

verify_totp-generate_hotp_example :
    (accepted : Bool) × (verify_totp plain 60 secret (codes "528256") 1 ≡ ok accepted)
    × ((accepted ≡ true) ↔ (
        (c : ℕ) × (60 / 30 ≤ c + 1)
        × (c ≤ 60 / 30 + 1)
        × (generate_hotp plain secret (pos c) ≡ ok (codes "528256"))))
unfolding decode_secret
verify_totp-generate_hotp_example =
    verify_totp-generate_hotp plain (λ key m. refl) secret secret refl (λ c h. ground (arith, h)) 60
      1 (codes "528256") refl (omega arith) (omega arith)

-- Arabic digits.
abbrev arabic : List ℕ
arabic = 1633 ∷ 1634 ∷ 1635 ∷ 1636 ∷ 1637 ∷ 1638 ∷ []

verify_totp-is_ascii_example : verify_totp plain 60 secret arabic 1 ≡ err type_error
unfolding decode_secret
verify_totp-is_ascii_example =
    verify_totp-is_ascii plain (λ key m. refl) secret secret refl 60 1 arabic refl refl
      (omega arith) (omega arith)

abbrev hashes : List (List ℕ)
hashes = codes "$2b$AAAA" ∷ codes "$2b$BBBB" ∷ []

used_once : redeem plain (codes "BBBB" ∷ codes "BBBB" ∷ []) hashes ≡ ok (1, codes "$2b$AAAA" ∷ [])
unfolding redeem verify_backup_code is_hash_of is_bcrypt_hash compare_digest eq_codes starts_with
used_once = refl

redeem-length_example :
    (n : ℕ) × (left : List (List ℕ)) × (redeem plain (codes "BBBB" ∷ codes "BBBB" ∷ []) hashes
      ≡ ok (n, left))
    × (n + length left ≡ length hashes)
unfolding is_bcrypt_hash starts_with
redeem-length_example =
    redeem-length plain (λ code. refl) (codes "BBBB" ∷ codes "BBBB" ∷ []) hashes refl

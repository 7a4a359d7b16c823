-- ===== src/Auth/Totp.antt =====
-- Time-based one-time codes and backup codes, fastapi_admin_kit/auth/totp.py. Texts are lists of code
-- points, bytes are numbers below 256, and the clock counts seconds.
pub mod Codes
pub mod Backup
pub mod Tests
use fastapi_admin_kit.Base.{
  ℕ, zero, suc, ◌+◌, ◌-◌, ◌*◌, ◌/◌, ◌%◌, Bool, true, false, not, ◌&&◌, ◌||◌, Option, none, some,
  List, [], ◌∷◌, ◌++◌, any, all, take, drop, length, codes, ltb, nat_eq, if◌then◌else◌,
}
use fastapi_admin_kit.Base.Int.{ℤ, pos, negsuc, ◌+ℤ◌}
use fastapi_admin_kit.Base.Result.{Result, ok, err, value_error, type_error, struct_error, ◌>>=◌}
use fastapi_admin_kit.Base.Text.{eq_codes, starts_with}
use fastapi_admin_kit.Base.Value.{decimal}

-- The cryptography: `base64.b32decode` (`none` is a `binascii.Error`, a `ValueError`), HMAC-SHA1 of a
-- key and a message, the hexadecimal SHA-256, and `bcrypt.checkpw` (`none` is a `ValueError`). The
-- last field is `str.isdigit` of a character.
pub record Crypto : Type 0 where
  pub b32decode : List ℕ → Option (List ℕ)
  pub hmac_sha1 : List ℕ → List ℕ → List ℕ
  pub sha256_hex : List ℕ → List ℕ
  pub checkpw : List ℕ → List ℕ → Option Bool
  pub is_digit : ℕ → Bool

-- `c * n` for a text of one character
abbrev pub replicate : ℕ → ℕ → List ℕ
replicate zero c = []
replicate (suc n) c = c ∷ replicate n c

-- `s.zfill(n)` for digits
abbrev pub zfill : ℕ → List ℕ → List ℕ
zfill n s = replicate (n - length s) b'0' ++ s

-- `hmac.compare_digest` of two texts, which must be ASCII.
abbrev pub is_ascii : List ℕ → Bool
is_ascii s = all (λ c. ltb c 128) s

unfoldable pub compare_digest : List ℕ → List ℕ → Result Bool
compare_digest s t = if is_ascii s && is_ascii t then ok (eq_codes s t) else err type_error

-- `struct.pack(">Q", n)`
abbrev pub two_pow_64 : ℕ
two_pow_64 = 18446744073709551616

abbrev pub big_endian : ℕ → List ℕ
big_endian n =
    n / 72057594037927936 % 256
    ∷ n / 281474976710656 % 256
    ∷ n / 1099511627776 % 256
    ∷ n / 4294967296 % 256
    ∷ n / 16777216 % 256
    ∷ n / 65536 % 256
    ∷ n / 256 % 256
    ∷ n % 256
    ∷ []

unfoldable pub pack : ℤ → Result (List ℕ)
pack (pos n) = if ltb n two_pow_64 then ok (big_endian n) else err struct_error
pack (negsuc n) = err struct_error

-- `struct.unpack(">I", bytes)[0]`
unfoldable pub unpack : List ℕ → Result ℕ
unpack (a ∷ b ∷ c ∷ d ∷ []) = ok (a * 16777216 + b * 65536 + c * 256 + d)
unpack _ = err struct_error

-- `digest[-1]`, and 0 where there is none
abbrev pub last_byte : List ℕ → ℕ
last_byte [] = 0
last_byte (b ∷ []) = b
last_byte (b ∷ c ∷ bs) = last_byte (c ∷ bs)

-- `range(-window, window + 1)`, from an offset on
abbrev pub offsets_from : ℕ → ℤ → List ℤ
offsets_from zero k = []
offsets_from (suc n) k = k ∷ offsets_from n (k +ℤ pos 1)

abbrev pub minus : ℕ → ℤ
minus zero = pos 0
minus (suc n) = negsuc n

abbrev pub offsets : ℕ → List ℤ
offsets window = offsets_from (window + window + 1) (minus window)

-- The six digits of a number of 31 bits.
unfoldable pub six_digits : ℕ → List ℕ
unfolding decimal
six_digits n = zfill 6 (decimal (n % 1000000))

-- `_is_bcrypt_hash`
unfoldable pub is_bcrypt_hash : List ℕ → Bool
is_bcrypt_hash value =
    starts_with (codes "$2a$") value
    || starts_with (codes "$2b$") value
    || starts_with (codes "$2y$") value

module _ (crypto : Crypto) where
  -- `base64.b32decode(secret + "=" * ((8 - len(secret) % 8) % 8))`
  unfoldable pub decode_secret : List ℕ → Result (List ℕ)
  decode_secret secret =
      elim (crypto.b32decode (secret ++ replicate ((8 - length secret % 8) % 8) b'=')) [
        | some key ↦ ok key
        | none ↦ err value_error
      ]

  -- The truncation of a digest to a code; `& 0x0F` and `& 0x7FFFFFFF` are remainders.
  unfoldable pub truncate : List ℕ → Result (List ℕ)
  unfolding unpack six_digits
  truncate digest = unpack (take 4 (drop (last_byte digest % 16) digest)) >>= λ n.
      ok (six_digits (n % 2147483648))

  -- `_generate_hotp`
  unfoldable pub generate_hotp : List ℕ → ℤ → Result (List ℕ)
  unfolding decode_secret truncate pack
  generate_hotp secret counter = decode_secret secret >>= λ key.
      pack counter >>= λ counter_bytes. truncate (crypto.hmac_sha1 key counter_bytes)

  -- The loop of `verify_totp` over the offsets that are left.
  unfoldable pub verify_each : List ℕ → List ℕ → ℕ → List ℤ → Result Bool
  unfolding generate_hotp compare_digest
  verify_each secret code counter [] = ok false
  verify_each secret code counter (offset ∷ later) =
      let rest = verify_each secret code counter later in
      generate_hotp secret (pos counter +ℤ offset) >>= λ expected.
      compare_digest code expected >>= λ same. if same then ok true else rest

  abbrev pub is_six_digits : List ℕ → Bool
  is_six_digits code = nat_eq (length code) 6 && all crypto.is_digit code

  unfoldable pub verify_totp : ℕ → List ℕ → List ℕ → ℕ → Result Bool
  unfolding verify_each
  verify_totp now secret code window =
      if is_six_digits code then verify_each secret code (now / 30) (offsets window) else ok false

  -- Whether one stored hash is the code's; a `ValueError` of bcrypt is caught and counts as no.
  unfoldable pub is_hash_of : List ℕ → List ℕ → Result Bool
  unfolding is_bcrypt_hash compare_digest
  is_hash_of code h =
      if is_bcrypt_hash h
      then ok (elim (crypto.checkpw code h) [ some b ↦ b | none ↦ false ])
      else compare_digest (crypto.sha256_hex code) h

  -- The answer and the list that is left, which Python changes in place.
  unfoldable pub verify_backup_code : List ℕ → List (List ℕ) → Result (Bool × List (List ℕ))
  unfolding is_hash_of
  verify_backup_code code [] = ok (false, [])
  verify_backup_code code (h ∷ hs) =
      let rest = verify_backup_code code hs in
      is_hash_of code h >>= λ same.
      if same then ok (true, hs) else (rest >>= λ (found, left). ok (found, h ∷ left))

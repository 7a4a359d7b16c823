-- ===== src/Auth/Totp/Codes.antt =====
-- What verification of a one-time code accepts, fastapi_admin_kit/auth/totp.py.
use fastapi_admin_kit.Base.{
  ℕ, zero, suc, ◌+◌, ◌*◌, length-take, length-drop, ◌-◌, ◌/◌, ◌%◌, ◌≤◌, ◌<◌, Bool, true, false,
  List, [], ◌∷◌, all, all-append, all-weaken, length-append, take, drop, length, ltb, ◌≡◌, refl,
  ◌↔◌, arith, Bool-cases, inl, inr, if◌then◌else◌,
}
use fastapi_admin_kit.Base.Int.{ℤ, pos, negsuc, ◌+ℤ◌}
use fastapi_admin_kit.Base.Result.{ok, err, type_error}
use fastapi_admin_kit.Base.Text.{eq_codes, eq_codes_iff}
use fastapi_admin_kit.Base.Value.{decimal, all-decimal, length-decimal, is_ascii_digit}
use fastapi_admin_kit.Auth.Totp.{
  Crypto, replicate, six_digits, is_ascii, compare_digest, pack, two_pow_64, big_endian, unpack,
  last_byte, minus, offsets_from, decode_secret, truncate, generate_hotp, verify_each,
  is_six_digits, verify_totp,
}

length-replicate : (n c : ℕ) → length (replicate n c) ≡ n
length-replicate zero c = refl
length-replicate (suc n) c = omega (arith, length-replicate n c)

all-replicate : (n : ℕ) → all is_ascii_digit (replicate n b'0') ≡ true
all-replicate zero = refl
all-replicate (suc n) = ground (arith, all-replicate n)

length-six_digits : (n : ℕ) → length (six_digits n) ≡ 6
unfolding six_digits
length-six_digits n =
    let d = decimal (n % 1000000) in
    let short = length-decimal 5 (n % 1000000) (omega arith) in
    omega
      (arith, length-append (replicate (6 - length d) b'0') d, length-replicate (6 - length d) b'0')

all-six_digits : (n : ℕ) → all is_ascii_digit (six_digits n) ≡ true
unfolding six_digits
all-six_digits n =
    let d = decimal (n % 1000000) in
    ground (
      arith,
      all-append is_ascii_digit (replicate (6 - length d) b'0') d,
      all-replicate (6 - length d),
      all-decimal (n % 1000000),
    )

-- A code as `_generate_hotp` makes them.
abbrev pub IsCode : List ℕ → Type 0
IsCode code = (length code ≡ 6) × (all is_ascii_digit code ≡ true)

unpack_lem : (bs : List ℕ) → length bs ≡ 4 → (n : ℕ) × (unpack bs ≡ ok n)
unfolding unpack
unpack_lem [] h = absurd (omega arith)
unpack_lem (a ∷ []) h = absurd (omega arith)
unpack_lem (a ∷ b ∷ []) h = absurd (omega arith)
unpack_lem (a ∷ b ∷ c ∷ []) h = absurd (omega arith)
unpack_lem (a ∷ b ∷ c ∷ d ∷ []) h = (a * 16777216 + b * 65536 + c * 256 + d, refl)
unpack_lem (a ∷ b ∷ c ∷ d ∷ e ∷ bs) h = absurd (omega arith)

is_ascii-digit : (c : ℕ) → is_ascii_digit c ≡ true → ltb c 128 ≡ true
is_ascii-digit c h = ground arith

compare_digest-ok :
    (s t : List ℕ)
    → is_ascii s ≡ true
    → all is_ascii_digit t ≡ true
    → compare_digest s t ≡ ok (eq_codes s t)
unfolding compare_digest
compare_digest-ok s t a d =
    let b = all-weaken is_ascii_digit (λ c. ltb c 128) t is_ascii-digit d in rw (a, b) refl

next_offset : (k : ℤ) (n s : ℕ) → pos n +ℤ k ≡ pos s → pos n +ℤ (k +ℤ pos 1) ≡ pos (suc s)
next_offset (pos j) n s e = ground arith
next_offset (negsuc j) n s e = ground arith

first_offset : (window n : ℕ) → window ≤ n → pos n +ℤ minus window ≡ pos (n - window)
first_offset zero n h = ground arith
first_offset (suc w) n h = ground arith

module _ (crypto : Crypto) where
  truncate_lem :
      (digest : List ℕ)
      → length digest ≡ 20
      → (code : List ℕ) × (truncate crypto digest ≡ ok code) × IsCode code
  unfolding truncate
  truncate_lem digest h =
      let m = last_byte digest % 16 in
      let small : m ≤ 15 = omega arith in
      let four = length-take 4 (drop m digest) (omega (arith, length-drop m digest)) in
      let (n, e) = unpack_lem (take 4 (drop m digest)) four in
      (
        six_digits (n % 2147483648),
        rw e refl,
        (length-six_digits (n % 2147483648), all-six_digits (n % 2147483648)),
      )

  -- What `hmac` documents: a SHA-1 digest has twenty bytes.
  module _ (digest_size : (key m : List ℕ) → length (crypto.hmac_sha1 key m) ≡ 20)
      (secret key : List ℕ) (decoded : decode_secret crypto secret ≡ ok key) where
    generate_hotp_total :
        (c : ℕ)
        → c < two_pow_64
        → (code : List ℕ) × (generate_hotp crypto secret (pos c) ≡ ok code) × IsCode code
    unfolding generate_hotp pack
    generate_hotp_total c h =
        let (code, e, shape) =
          truncate_lem (crypto.hmac_sha1 key (big_endian c)) (digest_size key (big_endian c)) in
        let small : ltb c two_pow_64 ≡ true = ground arith in (code, rw (decoded, small) e, shape)

    -- The code of some counter from `s` on, among `n`.
    abbrev IsAccepted : List ℕ → ℕ → ℕ → Type 0
    IsAccepted code s n =
        (c : ℕ) × (s ≤ c) × (c < s + n) × (generate_hotp crypto secret (pos c) ≡ ok code)

    verify_each_step :
        (code expected : List ℕ) (counter s : ℕ) (k : ℤ) (later : List ℤ)
        → is_ascii code ≡ true
        → pos counter +ℤ k ≡ pos s
        → generate_hotp crypto secret (pos s) ≡ ok expected
        → IsCode expected
        → verify_each crypto secret code counter (k ∷ later) ≡ (
            if eq_codes code expected
            then ok true
            else verify_each crypto secret code counter later)
    unfolding verify_each
    verify_each_step code expected counter s k later a e g (size, digits) =
        rw (e, g, compare_digest-ok code expected a digits) refl

    verify_each_lem :
        (code : List ℕ) (counter n s : ℕ) (k : ℤ)
        → is_ascii code ≡ true
        → pos counter +ℤ k ≡ pos s
        → s + n ≤ two_pow_64
        → (accepted : Bool) × (verify_each crypto secret code counter (offsets_from n k)
            ≡ ok accepted)
          × ((accepted ≡ true) ↔ IsAccepted code s n)
    unfolding verify_each
    verify_each_lem code counter zero s k a e h =
        (false, refl, (λ f. cc, λ h. let (c, low, high, g) = h in absurd (omega arith)))
    verify_each_lem code counter (suc n) s k a e h =
        let (expected, g, shape) = generate_hotp_total s (omega arith) in
        let (accepted, v, iff) =
          verify_each_lem code counter n (suc s) (k +ℤ pos 1) a (next_offset k counter s e)
            (omega arith) in
        let step =
          verify_each_step code expected counter s k (offsets_from n (k +ℤ pos 1)) a e g shape in
        elim (Bool-cases (eq_codes code expected)) [
          | inl same ↦
              let equal = (eq_codes_iff code expected).0 same in
              (
                true,
                rw (step, same) refl,
                (λ t. (s, omega arith, omega arith, rw equal g), λ found. refl),
              )
          | inr other ↦ (
            accepted,
            rw (step, other) v,
            (
              λ t. let (c, low, high, found) = iff.0 t in (c, omega arith, omega arith, found),
              λ found. later expected g other iff.1 found,
            ),
          )
        ]
      where
        later :
            (expected : List ℕ) {accepted : Bool}
            → generate_hotp crypto secret (pos s) ≡ ok expected
            → eq_codes code expected ≡ false
            → (IsAccepted code (suc s) n → accepted ≡ true)
            → IsAccepted code s (suc n)
            → accepted ≡ true
        later expected g other bwd (c, low, high, found) = elim (Bool-cases (ltb s c)) [
          | inl beyond ↦ bwd (c, ground (arith, beyond), omega arith, found)
          | inr here ↦
              let same : c ≡ s = ground (arith, here) in
              let equal : code ≡ expected = cc in
              let test = (eq_codes_iff code expected).1 equal in cc
        ]

    -- For an ASCII text the verification answers, and says yes exactly to the codes of the
    -- counters from `window` before the current one to `window` after it. The secret is one that
    -- decodes, the digits 0 to 9 are digits, a digest has twenty bytes, and the counters of the
    -- window are neither negative nor beyond 64 bits.
    pub verify_totp-generate_hotp :
        (digits : (c : ℕ) → is_ascii_digit c ≡ true → crypto.is_digit c ≡ true) (now window : ℕ)
        (code : List ℕ)
        → is_ascii code ≡ true
        → window ≤ now / 30
        → now / 30 + window < two_pow_64
        → (accepted : Bool) × (verify_totp crypto now secret code window ≡ ok accepted)
          × ((accepted ≡ true) ↔ (
              (c : ℕ) × (now / 30 ≤ c + window)
              × (c ≤ now / 30 + window)
              × (generate_hotp crypto secret (pos c) ≡ ok code)))
    unfolding verify_totp
    verify_totp-generate_hotp digits now window code a low high =
        let counter = now / 30 in
        let (accepted, v, iff) =
          verify_each_lem code counter (window + window + 1) (counter - window) (minus window) a
            (first_offset window counter low) (omega arith) in
        elim (Bool-cases (is_six_digits crypto code)) [
          | inl six ↦ (
            accepted,
            rw six v,
            (
              λ t. let (c, l, h, g) = iff.0 t in (c, omega arith, omega arith, g),
              λ found. let (c, l, h, g) = found in iff.1 (c, omega arith, omega arith, g),
            ),
          )
          | inr other ↦ (
            false,
            rw other refl,
            (λ t. cc, λ found. let (c, l, h, g) = found in absurd (refused c h g other)),
          )
        ]
      where
        refused :
            (c : ℕ)
            → c ≤ now / 30 + window
            → generate_hotp crypto secret (pos c) ≡ ok code
            → is_six_digits crypto code ≡ false
            → ⊥
        refused c h g other =
            let (expected, e, shape) = generate_hotp_total c (omega arith) in
            let equal : code ≡ expected = cc in
            let all_digits = all-weaken is_ascii_digit crypto.is_digit expected digits shape.1 in
            let six : length expected ≡ 6 = shape.0 in
            let test : is_six_digits crypto expected ≡ true = ground (arith, six, all_digits) in cc

    -- Six digits that are not all ASCII pass the first test and then make the comparison raise a
    -- `TypeError`, whatever the secret's codes are. The secret decodes, a digest has twenty bytes, and
    -- the first counter of the window is neither negative nor beyond 64 bits.
    pub verify_totp-is_ascii :
        (now window : ℕ) (code : List ℕ)
        → is_six_digits crypto code ≡ true
        → is_ascii code ≡ false
        → window ≤ now / 30
        → now / 30 < two_pow_64
        → verify_totp crypto now secret code window ≡ err type_error
    unfolding verify_totp verify_each compare_digest
    verify_totp-is_ascii now window code six other low high =
        let (expected, e, shape) = generate_hotp_total (now / 30 - window) (omega arith) in
        let one : window + window + 1 ≡ suc (window + window) = omega arith in
        rw (six, one, first_offset window (now / 30) low, e, other) refl

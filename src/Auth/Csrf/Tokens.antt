-- ===== src/Auth/Csrf/Tokens.antt =====
-- Tokens are verified as they are generated, fastapi_admin_kit/auth/csrf.py.
use fastapi_admin_kit.Base.{
  ℕ, ◌+◌, ◌*◌, ◌/◌, ◌%◌, Bool, true, false, not, ◌&&◌, ◌||◌, none, some, List, [], ◌∷◌, ◌++◌, all,
  all-weaken, ltb, leb, nat_eq, ◌≡◌, refl, ap, arith, if◌then◌else◌,
}
use fastapi_admin_kit.Base.Int.{pos}
use fastapi_admin_kit.Base.Result.{ok}
use fastapi_admin_kit.Base.Text.{eq_codes}
use fastapi_admin_kit.Base.Value.{decimal, is_ascii_digit}
use fastapi_admin_kit.Auth.Totp.{compare_digest}
use fastapi_admin_kit.Auth.Csrf.{
  Signature, hex, hex_digit, rpartition, rsplit_two, payload_of, max_age_seconds, is_fresh,
  generate_csrf_token, verify_csrf_token,
}
use fastapi_admin_kit.Auth.Csrf.Multipart.Encoded.{lacks}

-- What `hexdigest` and `int` document: lower-case hexadecimal digits, and numbers read back.
abbrev pub is_hex : ℕ → Bool
is_hex c = is_ascii_digit c || (leb b'a' c && leb c b'f')

pub record SignatureLaws (signature : Signature) : Type 0 where
  pub sign_hex : (key payload : List ℕ) → all is_hex (signature.sign key payload) ≡ true
  pub parse_decimal : (n : ℕ) → signature.parse_int (decimal n) ≡ some (pos n)

rpartition-lacks : (d : ℕ) (t : List ℕ) → lacks d t ≡ true → rpartition d t ≡ none
unfolding rpartition
rpartition-lacks d [] h = refl
rpartition-lacks d (c ∷ t) h =
    let later = rpartition-lacks d t (ground arith) in
    let other : nat_eq c d ≡ false = ground arith in rw (later, other) refl

rpartition-append :
    (d : ℕ) (s t : List ℕ) → lacks d t ≡ true → rpartition d (s ++ d ∷ t) ≡ some (s, t)
unfolding rpartition
rpartition-append d [] t h =
    let same : nat_eq d d ≡ true = ground arith in rw (rpartition-lacks d t h, same) refl
rpartition-append d (c ∷ s) t h = rw (rpartition-append d s t h) refl

rsplit_two-append :
    (a b c : List ℕ)
    → lacks b'.' b ≡ true
    → lacks b'.' c ≡ true
    → rsplit_two ((a ++ b'.' ∷ b) ++ b'.' ∷ c) ≡ some (a, b, c)
unfolding rsplit_two
rsplit_two-append a b c hb hc =
    rw (rsplit_two, rpartition-append b'.' (a ++ b'.' ∷ b) c hc, rpartition-append b'.' a b hb) refl

hex_digit-ne_dot : (n : ℕ) → nat_eq (hex_digit n) b'.' ≡ false
hex_digit-ne_dot n = ground arith

lacks-hex : (bs : List ℕ) → lacks b'.' (hex bs) ≡ true
lacks-hex [] = refl
lacks-hex (b ∷ bs) =
    ground (arith, lacks-hex bs, hex_digit-ne_dot (b / 16), hex_digit-ne_dot (b % 16))

is_hex-ne_dot : (c : ℕ) → is_hex c ≡ true → not (nat_eq c b'.') ≡ true
is_hex-ne_dot c h = ground arith

is_hex-ascii : (c : ℕ) → is_hex c ≡ true → ltb c 128 ≡ true
is_hex-ascii c h = ground arith

module _ (signature : Signature) (laws : SignatureLaws signature) (ticks : ℕ) where
  is_fresh-decimal :
      (t now : ℕ)
      → is_fresh signature ticks now (decimal t) ≡ leb now ((t + max_age_seconds) * ticks)
  unfolding is_fresh
  is_fresh-decimal t now =
      rw (is_fresh, laws.parse_decimal t) (not_ltb ((t + max_age_seconds) * ticks))
    where
      not_ltb : (high : ℕ) → not (ltb high now) ≡ leb now high
      not_ltb high = ground arith

  -- A token that was generated under a key is accepted under a key that signs its payload alike,
  -- until an hour after the second of its generation, and not afterwards or under another key; it
  -- never makes the verification raise.
  pub verify_csrf_token-generate_csrf_token :
      (key key' : List ℕ) (issued now : ℕ) (random_bytes : List ℕ)
      → verify_csrf_token signature ticks key' now
          (generate_csrf_token signature ticks key issued random_bytes)
        ≡ (let payload = payload_of (decimal (issued / ticks)) (hex random_bytes) in
            ok (
              eq_codes (signature.sign key payload) (signature.sign key' payload)
              && leb now ((issued / ticks + max_age_seconds) * ticks)))
  unfolding verify_csrf_token generate_csrf_token compare_digest
  verify_csrf_token-generate_csrf_token key key' issued now random_bytes =
      let timestamp = decimal (issued / ticks) in
      let payload = payload_of timestamp (hex random_bytes) in
      let sig = signature.sign key payload in
      let sig' = signature.sign key' payload in
      let dots =
        all-weaken is_hex (λ c. not (nat_eq c b'.')) sig is_hex-ne_dot
          (laws.sign_hex key payload) in
      let plain = all-weaken is_hex (λ c. ltb c 128) sig is_hex-ascii (laws.sign_hex key payload) in
      let plain' =
        all-weaken is_hex (λ c. ltb c 128) sig' is_hex-ascii (laws.sign_hex key' payload) in
      rw
        (
          verify_csrf_token,
          rsplit_two-append timestamp (hex random_bytes) sig (lacks-hex random_bytes) dots,
          plain,
          plain',
        )
        (both (eq_codes sig sig'))
    where
      both :
          (b : Bool)
          → ok (if b then is_fresh signature ticks now (decimal (issued / ticks)) else false)
            ≡ ok (b && leb now ((issued / ticks + max_age_seconds) * ticks))
      both true = ap ok (is_fresh-decimal (issued / ticks) now)
      both false = refl

-- ===== src/Auth/Csrf.antt =====
-- Double-submit CSRF tokens, fastapi_admin_kit/auth/csrf.py. Texts are lists of code points, bodies
-- lists of bytes. The clock counts ticks, `ticks` to the second.
pub mod Multipart
pub mod Tokens
pub mod Middleware
pub mod Forms
pub mod Cycle
mod Runs
use fastapi_admin_kit.Base.{
  ℕ, suc, ◌+◌, ◌*◌, ◌/◌, ◌%◌, Bool, true, false, not, ◌&&◌, ◌||◌, Option, none, some, List, [], ◌∷◌,
  ◌++◌, ◌-◌, codes, ltb, nat_eq, if◌then◌else◌,
}
use fastapi_admin_kit.Base.Int.{ℤ, pos, negsuc}
use fastapi_admin_kit.Base.Result.{Result, ok, err, Error, ◌>>=◌}
use fastapi_admin_kit.Base.Value.{decimal}
use fastapi_admin_kit.Auth.Totp.{compare_digest}

-- The hexadecimal HMAC-SHA256 of a text under a key, and `int` of a text (`none` is a `ValueError`).
pub record Signature : Type 0 where
  pub sign : List ℕ → List ℕ → List ℕ
  pub parse_int : List ℕ → Option ℤ

abbrev pub max_age_seconds : ℕ
max_age_seconds = 3600

abbrev pub hex_digit : ℕ → ℕ
hex_digit n = if ltb n 10 then b'0' + n else b'a' + (n - 10)

-- `random_bytes.hex()`
abbrev pub hex : List ℕ → List ℕ
hex [] = []
hex (b ∷ bs) = hex_digit (b / 16) ∷ hex_digit (b % 16) ∷ hex bs

-- The text before and after the last `d`: one step of `rsplit`.
unfoldable pub rpartition : ℕ → List ℕ → Option (List ℕ × List ℕ)
rpartition d [] = none
rpartition d (c ∷ s) = elim (rpartition d s) [
  | some split ↦ some (c ∷ split.0, split.1)
  | none ↦ if nat_eq c d then some ([], s) else none
]

-- `token.rsplit(".", 2)`, where it has three parts.
unfoldable pub rsplit_two : List ℕ → Option (List ℕ × List ℕ × List ℕ)
rsplit_two token = elim (rpartition b'.' token) [
  | none ↦ none
  | some outer ↦ elim (rpartition b'.' outer.0) [
    | none ↦ none
    | some inner ↦ some (inner.0, inner.1, outer.1)
  ]
]

-- `time.time() - token_time > CSRF_TOKEN_MAX_AGE`
abbrev pub is_stale : ℕ → ℕ → ℤ → Bool
is_stale ticks now (pos t) = ltb ((t + max_age_seconds) * ticks) now
is_stale ticks now (negsuc t) = ltb (max_age_seconds * ticks) (now + suc t * ticks)

abbrev pub payload_of : List ℕ → List ℕ → List ℕ
payload_of timestamp random = timestamp ++ b'.' ∷ random

-- The keys that the app state holds: `admin_secret_key`, and that of the session backend.
pub record Keys : Type 0 where
  pub admin_secret_key : Option (List ℕ)
  pub session_backend : Option (Option (List ℕ))

-- `if not text`
abbrev pub is_blank : Option (List ℕ) → Bool
is_blank none = true
is_blank (some []) = true
is_blank (some (_ ∷ _)) = false

-- `_get_secret_key`
unfoldable pub get_secret_key : Keys → Option (List ℕ)
get_secret_key k =
    if is_blank k.admin_secret_key
    then (elim k.session_backend [ none ↦ none | some key ↦ key ])
    else k.admin_secret_key

-- What `validate_csrf_token` reads of a request.
pub record Submitted : Type 0 where
  pub header : Option (List ℕ)
  pub state_token : Option (List ℕ)
  pub cookie : Option (List ℕ)

pub data Verdict : Type 0 where
  accepted : Verdict
  not_configured : Verdict
  token_missing : Verdict
  cookie_missing : Verdict
  invalid_token : Verdict
  invalid_cookie : Verdict
  raised : Error → Verdict

-- The argument, or the header, or the request's state.
abbrev pub or_else : Option (List ℕ) → Option (List ℕ) → Option (List ℕ)
or_else none other = other
or_else (some token) other = some token

abbrev pub form_token : Option (List ℕ) → Submitted → Option (List ℕ)
form_token argument s = or_else (or_else argument s.header) s.state_token

abbrev pub judge : Result Bool → Verdict → Verdict → Verdict
judge (err e) refused next = raised e
judge (ok false) refused next = refused
judge (ok true) refused next = next

-- The status of the `HTTPException`; a `raise` that is no `HTTPException` has none.
abbrev pub status_of : Verdict → Option ℕ
status_of accepted = none
status_of not_configured = some 500
status_of (raised e) = none
status_of _ = some 403

module _ (signature : Signature) (ticks : ℕ) where
  unfoldable pub generate_csrf_token : List ℕ → ℕ → List ℕ → List ℕ
  generate_csrf_token key now random_bytes =
      let payload = payload_of (decimal (now / ticks)) (hex random_bytes) in
      payload ++ b'.' ∷ signature.sign key payload

  unfoldable pub is_fresh : ℕ → List ℕ → Bool
  is_fresh now timestamp = elim (signature.parse_int timestamp) [
    | none ↦ false
    | some token_time ↦ not (is_stale ticks now token_time)
  ]

  -- `_verify_csrf_token`
  unfoldable pub verify_csrf_token : List ℕ → ℕ → List ℕ → Result Bool
  verify_csrf_token key now token = elim (rsplit_two token) [
    | none ↦ ok false
    | some parts ↦
        compare_digest parts.2 (signature.sign key (payload_of parts.0 parts.1)) >>= λ same.
        ok (if same then is_fresh now parts.0 else false)
  ]

  unfoldable pub check_tokens : List ℕ → ℕ → Option (List ℕ) → Option (List ℕ) → Verdict
  check_tokens key now none cookie = token_missing
  check_tokens key now (some token) none =
      if is_blank (some token) then token_missing else cookie_missing
  check_tokens key now (some token) (some cookie) =
      if is_blank (some token)
      then token_missing
      else (if is_blank (some cookie)
          then cookie_missing
          else (judge (verify_csrf_token key now token) invalid_token
              (judge (verify_csrf_token key now cookie) invalid_cookie accepted)))

  unfoldable pub validate_csrf_token : Keys → ℕ → Option (List ℕ) → Submitted → Verdict
  validate_csrf_token keys now argument s = elim (get_secret_key keys) [
    | none ↦ not_configured
    | some key ↦ check_tokens key now (form_token argument s) s.cookie
  ]

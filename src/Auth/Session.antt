-- ===== src/Auth/Session.antt =====
-- The signed-cookie sessions of fastapi_admin_kit/auth/session.py. `Signer` stands for the serializers
-- of `itsdangerous` under the secret key: `Token` are the texts that they write, the salt is an
-- argument, and the clock counts seconds.
pub mod Tokens
use fastapi_admin_kit.Base.{
  ℕ, String, Bool, true, false, Option, none, some, ◌==◌, if◌then◌else◌, [], ◌∷◌,
}
use fastapi_admin_kit.Base.Int.{pos}
use fastapi_admin_kit.Base.Dict.{Dict, insert, contains, lookup_or}
use fastapi_admin_kit.Base.Result.{Result, ok, err, attribute_error}
use fastapi_admin_kit.Base.Value.{Value, null, int}

-- What a token holds: a JSON object, or another JSON value.
pub data Payload : Type 0 where
  object : Dict Value → Payload
  other : Payload

pub record Signer (Token : Type 0) : Type 0 where
  pub is_empty : Token → Bool
  pub dumps : String → ℕ → Dict Value → Token
  pub loads : String → ℕ → ℕ → Token → Option Payload

pub record SignedCookieSessionBackend : Type 0 where
  pub session_ttl : ℕ
  pub cookie_name : String
  pub secure : Bool

-- The constants of `__init__`.
abbrev pub session_salt : String
session_salt = "admin-session"

abbrev pub mfa_salt : String
mfa_salt = "admin-2fa"

abbrev pub mfa_ttl : ℕ
mfa_ttl = 300

pub record Cookie (Token : Type 0) : Type 0 where
  pub key : String
  pub value : Token
  pub max_age : ℕ
  pub path : String
  pub secure : Bool
  pub httponly : Bool
  pub samesite : String

module _ {Token : Type 0} (signer : Signer Token) where
  -- The payload with its `iat`, which `encode` writes into the caller's dict.
  unfoldable pub stamp : ℕ → Dict Value → Dict Value
  stamp now payload =
      if contains "iat" payload then payload else insert "iat" (int (pos now)) payload

  unfoldable pub encode : ℕ → Dict Value → Token × Dict Value
  unfolding stamp
  encode now payload = (signer.dumps session_salt now (stamp now payload), stamp now payload)

  abbrev pub with_iat : Payload → Option (Dict Value)
  with_iat (object d) = if contains "iat" d then some d else none
  with_iat other = none

  unfoldable pub decode : SignedCookieSessionBackend → ℕ → Option Token → Option (Dict Value)
  decode b now none = none
  decode b now (some token) = elim (signer.is_empty token) [
    | true ↦ none
    | false ↦ elim (signer.loads session_salt b.session_ttl now token) [
      | none ↦ none
      | some payload ↦ with_iat payload
    ]
  ]

  unfoldable pub load : SignedCookieSessionBackend → ℕ → Option Token → Option (Dict Value)
  unfolding decode
  load b now token = decode b now token

  unfoldable pub encode_pending_2fa : ℕ → Value → Token
  encode_pending_2fa now user_id = signer.dumps mfa_salt now (("user_id", user_id) ∷ [])

  -- `payload.get("user_id")`, where `None` is `null`.
  abbrev pub user_id_of : Payload → Result Value
  user_id_of (object d) = ok (lookup_or "user_id" null d)
  user_id_of other = err attribute_error

  unfoldable pub decode_pending_2fa : ℕ → Option Token → Result Value
  decode_pending_2fa now none = ok null
  decode_pending_2fa now (some token) = elim (signer.is_empty token) [
    | true ↦ ok null
    | false ↦ elim (signer.loads mfa_salt mfa_ttl now token) [
      | none ↦ ok null
      | some payload ↦ user_id_of payload
    ]
  ]

  -- The scheme of the request's URL, and `""` where it has none.
  unfoldable pub should_secure : SignedCookieSessionBackend → String → Bool
  should_secure b scheme = if b.secure then scheme == "https" else false

  -- The cookie that `save` sets; `none` is no request.
  unfoldable pub save : SignedCookieSessionBackend → ℕ → Dict Value → Option String → Cookie Token
  unfolding encode should_secure
  save b now d request = record {
    key = b.cookie_name;
    value = (encode now d).0;
    max_age = b.session_ttl;
    path = "/";
    secure = elim request [ some scheme ↦ should_secure b scheme | none ↦ b.secure ];
    httponly = true;
    samesite = "strict";
  }

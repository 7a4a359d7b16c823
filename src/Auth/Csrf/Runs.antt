-- ===== src/Auth/Csrf/Runs.antt =====
-- A form that is shown and sent back, fastapi_admin_kit/auth/csrf.py. In place of the HMAC stands one
-- text for all keys and payloads.
use fastapi_admin_kit.Fixtures.{ascii}
use fastapi_admin_kit.Base.{inl, true, none, some, List, [], ◌∷◌, ◌++◌, codes, ◌≡◌, refl, ap, arith}
use fastapi_admin_kit.Base.Int.{pos}
use fastapi_admin_kit.Base.Result.{ok}
use fastapi_admin_kit.Base.Text.{starts_with, is_infix, split, strip, lstrip}
use fastapi_admin_kit.Base.Value.{decimal, read_digits, read_digits-decimal}
use fastapi_admin_kit.Auth.Csrf.{
  Signature, Keys, generate_csrf_token, get_secret_key, validate_csrf_token, accepted,
}
use fastapi_admin_kit.Auth.Csrf.Multipart.{dashes, boundary_in}
use fastapi_admin_kit.Auth.Csrf.Multipart.Encoded.{Sent, body_of}
use fastapi_admin_kit.Auth.Csrf.Tokens.{SignatureLaws}
use fastapi_admin_kit.Auth.Csrf.Middleware.{
  Encoding, Request, Dispatched, csrf_cookie, dispatch, submitted,
}
use fastapi_admin_kit.Auth.Csrf.Forms.{IsMultipart}
use fastapi_admin_kit.Auth.Csrf.Cycle.{validate_csrf_token-dispatch}

abbrev one_text : Signature
one_text = record {
  sign = λ key payload. codes "ab";
  parse_int = λ s. some (pos (read_digits 0 s));
}

one_text_laws : SignatureLaws one_text
one_text_laws = record {
  sign_hex = λ key payload. refl;
  parse_decimal = λ n. ap (λ k. some (pos k)) (read_digits-decimal n);
}

abbrev same_bytes : Encoding
same_bytes = record { encode = λ s. s; decode = λ bs. bs; parse_qs = λ body name. none }

abbrev fields : List Sent
fields =
    record { header = codes "Content-Disposition: form-data; name=\"title\""; value = codes "--x" }
    ∷ record {
      header = codes "Content-Disposition: form-data; name=\"csrf_token\"";
      value = codes "0.ff.ab";
    }
    ∷ []

abbrev keys : Keys
keys = record { admin_secret_key = some (codes "k"); session_backend = none }

abbrev shown : Request
shown = record {
  method = "GET";
  content_type = [];
  body = [];
  cookie = none;
  header = none;
  is_https = true;
}

abbrev sent : Request
sent = record {
  method = "POST";
  content_type = codes "multipart/form-data; boundary=xyz";
  body = body_of (dashes ++ codes "xyz") fields;
  cookie = some (generate_csrf_token one_text 10 (codes "k") 7 (255 ∷ []));
  header = none;
  is_https = true;
}

sent-IsMultipart :
    IsMultipart ascii one_text same_bytes
      (λ s. refl)
      10
      sent
      (generate_csrf_token one_text 10 (codes "k") 7 (255 ∷ []))
unfolding generate_csrf_token decimal boundary_in split strip lstrip is_infix starts_with
sent-IsMultipart = record {
  multipart = refl;
  b = b'x';
  bs = codes "yz";
  boundary = refl;
  no_lf = refl;
  no_cr = refl;
  fields = fields;
  sound = refl;
  written = refl;
  field = record {
    header = codes "Content-Disposition: form-data; name=\"csrf_token\"";
    value = codes "0.ff.ab";
  };
  named = refl;
  holds = refl;
}

validate_csrf_token-dispatch_example :
    (first second : Dispatched) × (dispatch ascii one_text same_bytes 10 keys 7 (255 ∷ []) shown
      ≡ ok first)
    × (first.csrf_token ≡ generate_csrf_token one_text 10 (codes "k") 7 (255 ∷ []))
    × (first.set_cookie ≡ some (csrf_cookie first.csrf_token true))
    × (dispatch ascii one_text same_bytes 10 keys 900 (1 ∷ []) sent ≡ ok second)
    × (validate_csrf_token one_text 10 keys 900 none
          (submitted ascii one_text same_bytes 10 sent second)
        ≡ accepted)
unfolding get_secret_key
validate_csrf_token-dispatch_example =
    validate_csrf_token-dispatch ascii one_text one_text_laws same_bytes (λ s. refl) 10 keys
      (codes "k") 7 900 (255 ∷ []) (1 ∷ []) 7 (255 ∷ []) shown sent refl refl (inl (refl, refl, tt))
      (omega arith) refl refl (refl, inl sent-IsMultipart)

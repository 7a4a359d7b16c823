-- ===== src/Auth/Csrf/Middleware.antt =====
-- The middleware and the two exception handlers of fastapi_admin_kit/auth/csrf.py.
use fastapi_admin_kit.Base.{
  ℕ, String, ◌==◌, Bool, false, ◌||◌, Option, none, some, List, [], ◌∷◌, ◌++◌, codes, any, nat_eq,
  if◌then◌else◌,
}
use fastapi_admin_kit.Base.Result.{Result, ok, ◌>>=◌}
use fastapi_admin_kit.Base.Text.{Unicode, is_infix, eq_codes}
use fastapi_admin_kit.Auth.Session.{Cookie}
use fastapi_admin_kit.Auth.Csrf.{
  Signature, Keys, Submitted, is_blank, get_secret_key, generate_csrf_token, verify_csrf_token,
}
use fastapi_admin_kit.Auth.Csrf.Multipart.{extract_multipart_field}

-- What the middleware calls outside the repository: bytes of a text and back, and the values that
-- `parse_qs` finds under a name (`none` where it raises).
pub record Encoding : Type 0 where
  pub encode : List ℕ → List ℕ
  pub decode : List ℕ → List ℕ
  pub parse_qs : List ℕ → List ℕ → Option (List (List ℕ))

pub record Request : Type 0 where
  pub method : String
  pub content_type : List ℕ
  pub body : List ℕ
  pub cookie : Option (List ℕ)
  pub header : Option (List ℕ)
  pub is_https : Bool

-- What the middleware leaves on the request and on the response.
pub record Dispatched : Type 0 where
  pub csrf_token : List ℕ
  pub state_token : Option (List ℕ)
  pub set_cookie : Option (Cookie (List ℕ))

abbrev pub changing : List String
changing = "POST" ∷ "PUT" ∷ "PATCH" ∷ "DELETE" ∷ []

abbrev pub field_name : List ℕ
field_name = codes "csrf_token"

abbrev pub first_of : Option (List (List ℕ)) → Option (List ℕ)
first_of none = none
first_of (some []) = none
first_of (some (value ∷ values)) = some value

-- `if token: request.state._csrf_token = token`
abbrev pub given : Option (List ℕ) → Option (List ℕ)
given token = if is_blank token then none else token

unfoldable pub csrf_cookie : List ℕ → Bool → Cookie (List ℕ)
csrf_cookie token is_https = record {
  key = "admin_csrf_token";
  value = token;
  max_age = 3600;
  path = "/";
  secure = is_https;
  httponly = false;
  samesite = "lax";
}

module _ (u : Unicode) (signature : Signature) (encoding : Encoding) (ticks : ℕ) where
  -- The cookie that the request came with if it is valid, and a new token otherwise.
  unfoldable pub token_for : List ℕ → ℕ → List ℕ → Option (List ℕ) → Result (List ℕ)
  token_for key now random_bytes none =
      ok (generate_csrf_token signature ticks key now random_bytes)
  token_for key now random_bytes (some cookie) =
      if is_blank (some cookie)
      then ok (generate_csrf_token signature ticks key now random_bytes)
      else (verify_csrf_token signature ticks key now cookie >>= λ valid.
          ok (if valid then cookie else generate_csrf_token signature ticks key now random_bytes))

  unfoldable pub body_token : Request → Option (List ℕ)
  body_token r =
      if is_infix (codes "multipart/form-data") r.content_type
      then extract_multipart_field u encoding.encode encoding.decode r.body r.content_type
          field_name
      else (if is_infix (codes "application/x-www-form-urlencoded") r.content_type
          then first_of (encoding.parse_qs r.body field_name)
          else none)

  unfoldable pub state_token_of : Request → Option (List ℕ)
  state_token_of r = if any (λ m. r.method == m) changing then given (body_token r) else none

  -- `CSRFMiddleware.dispatch`, around the call of the application.
  unfoldable pub dispatch : Keys → ℕ → List ℕ → Request → Result Dispatched
  dispatch keys now random_bytes r = elim (get_secret_key keys) [
    | none ↦ ok (record { csrf_token = []; state_token = state_token_of r; set_cookie = none })
    | some key ↦ token_for key now random_bytes r.cookie >>= λ token. ok (record {
      csrf_token = token;
      state_token = state_token_of r;
      set_cookie = if is_blank (some key) then none else some (csrf_cookie token r.is_https);
    })
  ]

  -- What the dependency reads after the middleware.
  unfoldable pub submitted : Request → Dispatched → Submitted
  submitted r d = record { header = r.header; state_token = d.state_token; cookie = r.cookie }

-- An answer of the handlers. `raised` hands the exception on.
pub data Response : Type 0 where
  redirect : List ℕ → Response
  json : ℕ → List ℕ → Response
  html : ℕ → List ℕ → Response
  raised : Response

abbrev pub or_text : List ℕ → List ℕ → List ℕ
or_text [] other = other
or_text (c ∷ s) other = c ∷ s

abbrev pub login_of : List ℕ → List ℕ
login_of admin_path = admin_path ++ codes "/login"

-- The login page, with the page to return to unless that is the login page.
unfoldable pub login_url : List ℕ → List ℕ → List ℕ → List ℕ
login_url admin_path path query =
    if eq_codes path (login_of admin_path)
    then login_of admin_path
    else (if is_blank (some query)
        then login_of admin_path ++ (codes "?next=" ++ path)
        else login_of admin_path ++ (codes "?next=" ++ (path ++ (codes "%3F" ++ query))))

unfoldable pub auth_redirect_handler :
    (status : ℕ) (detail accept admin_path path query : List ℕ) → Response
auth_redirect_handler status detail accept admin_path path query =
    if nat_eq status 401
    then (if is_infix (codes "text/html") accept
        then redirect (login_url admin_path path query)
        else json 401 (or_text detail (codes "Not authenticated")))
    else raised

-- `session` is what the session backend decodes of the session cookie, and `quote` is
-- `urllib.parse.quote`.
unfoldable pub forbidden_handler :
    (quote : List ℕ → List ℕ) (session : Bool) (status : ℕ) (detail accept admin_path : List ℕ)
    → Response
forbidden_handler quote session status detail accept admin_path =
    if nat_eq status 403
    then (if is_infix (codes "text/html") accept || is_infix (codes "text/xhtml") accept
        then (if session
            then html 403
                (or_text detail (codes "You do not have permission to access this resource."))
            else redirect (
                login_of admin_path
                ++ (codes "?error="
                    ++ quote (or_text detail (codes "Session expired. Please log in again.")))))
        else json 403 (or_text detail (codes "Forbidden")))
    else raised

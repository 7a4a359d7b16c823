-- ===== src/Auth/Csrf/Forms.antt =====
-- What `CSRFMiddleware` reads from a form that a browser sends back, fastapi_admin_kit/auth/csrf.py.
use fastapi_admin_kit.Base.{
  ◌⊎◌, inl, inr, ℕ, true, false, some, List, ◌∷◌, ◌++◌, codes, all, find, ◌≡◌, refl,
}
use fastapi_admin_kit.Base.Text.{Unicode, is_infix, split}
use fastapi_admin_kit.Auth.Csrf.{Signature, is_blank}
use fastapi_admin_kit.Auth.Csrf.Multipart.{
  dashes, marker_of, boundary_in, extract_with, extract_multipart_field,
}
use fastapi_admin_kit.Auth.Csrf.Multipart.Encoded.{
  Sent, lacks, names, is_sound, body_of, first_value-body_of,
}
use fastapi_admin_kit.Auth.Csrf.Middleware.{
  Encoding, Request, field_name, body_token, state_token_of,
}

module _ (u : Unicode) (signature : Signature) (encoding : Encoding)
    (decode_encode : (s : List ℕ) → encoding.decode (encoding.encode s) ≡ s) (ticks : ℕ) where
  -- A multipart body whose first field of that name holds the token.
  pub record IsMultipart (r : Request) (token : List ℕ) : Type 0 where
    pub multipart : is_infix (codes "multipart/form-data") r.content_type ≡ true
    pub b : ℕ
    pub bs : List ℕ
    pub boundary :
        boundary_in u encoding.encode encoding.decode (split b';' r.content_type) ≡ some (b ∷ bs)
    pub no_lf : lacks 10 (b ∷ bs) ≡ true
    pub no_cr : lacks 13 (b ∷ bs) ≡ true
    pub fields : List Sent
    pub sound : all (is_sound (dashes ++ b ∷ bs)) fields ≡ true
    pub written : r.body ≡ body_of (dashes ++ b ∷ bs) fields
    pub field : Sent
    pub named : find (names (encoding.encode (marker_of field_name))) fields ≡ some field
    pub holds : field.value ≡ encoding.encode token

  -- A body as query string, which is read back with the token as the first value of that name.
  pub record IsUrlencoded (r : Request) (token : List ℕ) : Type 0 where
    pub not_multipart : is_infix (codes "multipart/form-data") r.content_type ≡ false
    pub urlencoded : is_infix (codes "application/x-www-form-urlencoded") r.content_type ≡ true
    pub later_values : List (List ℕ)
    pub values : encoding.parse_qs r.body field_name ≡ some (token ∷ later_values)

  -- A form that a browser sends back: a POST with the token in a body of one of the two kinds.
  abbrev pub IsForm : Request → List ℕ → Type 0
  IsForm r token = (r.method ≡ "POST") × (IsMultipart r token ⊎ IsUrlencoded r token)

  body_token_of_multipart :
      (r : Request) (token : List ℕ)
      → IsMultipart r token
      → body_token u signature encoding ticks r ≡ some token
  unfolding body_token extract_multipart_field extract_with
  body_token_of_multipart r token form =
      let found =
        first_value-body_of form.b form.bs (encoding.encode (marker_of field_name)) form.fields
          form.no_lf form.no_cr form.sound in
      rw
        (
          form.multipart,
          form.boundary,
          form.written,
          found,
          form.named,
          form.holds,
          decode_encode token,
        )
        refl

  body_token_of_urlencoded :
      (r : Request) (token : List ℕ)
      → IsUrlencoded r token
      → body_token u signature encoding ticks r ≡ some token
  unfolding body_token
  body_token_of_urlencoded r token form = rw (form.not_multipart, form.urlencoded, form.values) refl

  body_token_of_form :
      (r : Request) (token : List ℕ)
      → IsForm r token
      → body_token u signature encoding ticks r ≡ some token
  body_token_of_form r token (posted, inl form) = body_token_of_multipart r token form
  body_token_of_form r token (posted, inr form) = body_token_of_urlencoded r token form

  pub state_token_of_form :
      (r : Request) (token : List ℕ)
      → IsForm r token
      → is_blank (some token) ≡ false
      → state_token_of u signature encoding ticks r ≡ some token
  unfolding state_token_of
  state_token_of_form r token form some_token =
      rw (body_token_of_form r token form, some_token, form.0) refl

-- ===== src/Auth/Csrf/Cycle.antt =====
-- A form that was shown can be sent back, fastapi_admin_kit/auth/csrf.py.
use fastapi_admin_kit.Base.{
  Option, ◌⊎◌, inl, inr, Bool-cases, ℕ, ◌+◌, ◌*◌, ◌/◌, ◌≤◌, Bool, true, false, none, some, List, [],
  ◌∷◌, ◌++◌, leb, ◌≡◌, refl, ap, ◌∙◌, arith, if◌then◌else◌,
}
use fastapi_admin_kit.Base.Result.{ok}
use fastapi_admin_kit.Base.Text.{Unicode, eq_codes_iff}
use fastapi_admin_kit.Base.Value.{decimal}
use fastapi_admin_kit.Auth.Csrf.{
  hex, Signature, Keys, accepted, is_blank, payload_of, max_age_seconds, get_secret_key,
  generate_csrf_token, verify_csrf_token, check_tokens, validate_csrf_token,
}
use fastapi_admin_kit.Auth.Csrf.Tokens.{SignatureLaws, verify_csrf_token-generate_csrf_token}
use fastapi_admin_kit.Auth.Csrf.Forms.{IsForm, state_token_of_form}
use fastapi_admin_kit.Auth.Csrf.Middleware.{
  Encoding, Request, Dispatched, csrf_cookie, token_for, state_token_of, dispatch, submitted,
}

is_blank-append : (s t : List ℕ) (c : ℕ) → is_blank (some (s ++ c ∷ t)) ≡ false
is_blank-append [] t c = refl
is_blank-append (d ∷ s) t c = refl

module _ (u : Unicode) (signature : Signature) (laws : SignatureLaws signature)
    (encoding : Encoding) (decode_encode : (s : List ℕ) → encoding.decode (encoding.encode s) ≡ s)
    (ticks : ℕ) where
  token_for_lem :
      (key : List ℕ) (now : ℕ) (random_bytes cookie : List ℕ) (valid : Bool)
      → is_blank (some cookie) ≡ false
      → verify_csrf_token signature ticks key now cookie ≡ ok valid
      → token_for u signature encoding ticks key now random_bytes (some cookie)
        ≡ ok (if valid then cookie else generate_csrf_token signature ticks key now random_bytes)
  unfolding token_for
  token_for_lem key now random_bytes cookie valid some_cookie v = rw (some_cookie, v) refl

  generated_some :
      (key : List ℕ) (now : ℕ) (random_bytes : List ℕ)
      → is_blank (some (generate_csrf_token signature ticks key now random_bytes)) ≡ false
  unfolding generate_csrf_token
  generated_some key now random_bytes = is_blank-append _ _ b'.'

  -- Within the hour a token is valid under its own key.
  generated_valid :
      (key : List ℕ) (now later : ℕ) (random_bytes : List ℕ)
      → later ≤ (now / ticks + max_age_seconds) * ticks
      → verify_csrf_token signature ticks key later
          (generate_csrf_token signature ticks key now random_bytes)
        ≡ ok true
  generated_valid key now later random_bytes h =
      let payload = payload_of (decimal (now / ticks)) (hex random_bytes) in
      let same = (eq_codes_iff (signature.sign key payload) (signature.sign key payload)).1 refl in
      let fresh : leb later ((now / ticks + max_age_seconds) * ticks) ≡ true = ground (arith, h) in
      verify_csrf_token-generate_csrf_token signature laws ticks key key now later random_bytes
      ∙ rw (same, fresh) refl

  check_tokens_lem :
      (key : List ℕ) (now : ℕ) (token : List ℕ)
      → is_blank (some token) ≡ false
      → verify_csrf_token signature ticks key now token ≡ ok true
      → check_tokens signature ticks key now (some token) (some token) ≡ accepted
  unfolding check_tokens
  check_tokens_lem key now token some_token valid = rw (some_token, valid) refl

  -- The token that was made at `minted` from `bytes` is served to a request with the cookie: it was
  -- made for this request, which came with no cookie, an empty one or one that is not valid, or it
  -- is the cookie and still valid.
  abbrev pub IsNew : List ℕ → ℕ → Option (List ℕ) → Type 0
  IsNew key now none = Unit
  IsNew key now (some c) =
      (is_blank (some c) ≡ true) ⊎ (verify_csrf_token signature ticks key now c ≡ ok false)

  abbrev pub IsServed : List ℕ → ℕ → List ℕ → Option (List ℕ) → ℕ → List ℕ → Type 0
  IsServed key now random_bytes cookie minted bytes =
      ((minted ≡ now) × (bytes ≡ random_bytes) × IsNew key now cookie)
      ⊎ ((cookie ≡ some (generate_csrf_token signature ticks key minted bytes))
          × (now ≤ (minted / ticks + max_age_seconds) * ticks))

  token_for-new :
      (key : List ℕ) (now : ℕ) (random_bytes : List ℕ) (cookie : Option (List ℕ))
      → IsNew key now cookie
      → token_for u signature encoding ticks key now random_bytes cookie
        ≡ ok (generate_csrf_token signature ticks key now random_bytes)
  unfolding token_for
  token_for-new key now random_bytes none h = refl
  token_for-new key now random_bytes (some c) (inl blank) = rw blank refl
  token_for-new key now random_bytes (some c) (inr stale) = elim (Bool-cases (is_blank (some c))) [
    | inl blank ↦ rw blank refl
    | inr not_blank ↦ rw (not_blank, stale) refl
  ]

  token_for-served :
      (key : List ℕ) (now : ℕ) (random_bytes : List ℕ) (cookie : Option (List ℕ)) (minted : ℕ)
      (bytes : List ℕ)
      → IsServed key now random_bytes cookie minted bytes
      → token_for u signature encoding ticks key now random_bytes cookie
        ≡ ok (generate_csrf_token signature ticks key minted bytes)
  token_for-served key now random_bytes cookie minted bytes (inl (at, same, new)) =
      rw (at, same) (token_for-new key now random_bytes cookie new)
  token_for-served key now random_bytes cookie minted bytes (inr (own, in_time)) =
      let token = generate_csrf_token signature ticks key minted bytes in
      ap (token_for u signature encoding ticks key now random_bytes) own
      ∙ token_for_lem key now random_bytes token true (generated_some key minted bytes)
          (generated_valid key minted now bytes in_time)

  -- What the middleware leaves where a key is set.
  unfoldable after : Request → List ℕ → Dispatched
  after r token = record {
    csrf_token = token;
    state_token = state_token_of u signature encoding ticks r;
    set_cookie = some (csrf_cookie token r.is_https);
  }

  dispatch_lem :
      (keys : Keys) (key : List ℕ) (now : ℕ) (random_bytes : List ℕ) (r : Request) (token : List ℕ)
      → get_secret_key keys ≡ some key
      → is_blank (some key) ≡ false
      → token_for u signature encoding ticks key now random_bytes r.cookie ≡ ok token
      → dispatch u signature encoding ticks keys now random_bytes r ≡ ok (after r token)
  unfolding dispatch after
  dispatch_lem keys key now random_bytes r token has_key some_key t =
      rw (dispatch, has_key, t, some_key) refl

  validate_lem :
      (keys : Keys) (key : List ℕ) (now : ℕ) (token : List ℕ) (r : Request)
      → get_secret_key keys ≡ some key
      → r.cookie ≡ some token
      → r.header ≡ none
      → state_token_of u signature encoding ticks r ≡ some token
      → is_blank (some token) ≡ false
      → verify_csrf_token signature ticks key now token ≡ ok true
      → validate_csrf_token signature ticks keys now none
          (submitted u signature encoding ticks r (after r token))
        ≡ accepted
  unfolding validate_csrf_token submitted after
  validate_lem keys key now token r has_key cookie no_header state some_token valid =
      rw (validate_csrf_token, has_key, state, cookie, no_header)
        (check_tokens_lem key now token some_token valid)

  -- A request that came with no cookie, an empty one or one that is not valid is answered with a
  -- new token, and one that came with a token made before under the same key, which is still valid,
  -- with that token; it stands in the page and is set as the cookie. Where the form of that page is
  -- sent back by POST, as multipart or as a query string, with the cookie and without the header,
  -- within an hour after the second in which the token was made, the middleware answers it too and
  -- the dependency accepts it. The key is set and not empty, the laws of the signature hold, and
  -- bytes decode to the text they encode.
  pub validate_csrf_token-dispatch :
      (keys : Keys) (key : List ℕ) (now later : ℕ) (random_bytes random_later : List ℕ) (minted : ℕ)
      (bytes : List ℕ) (shown sent : Request)
      → get_secret_key keys ≡ some key
      → is_blank (some key) ≡ false
      → IsServed key now random_bytes shown.cookie minted bytes
      → later ≤ (minted / ticks + max_age_seconds) * ticks
      → sent.cookie ≡ some (generate_csrf_token signature ticks key minted bytes)
      → sent.header ≡ none
      → IsForm u signature encoding decode_encode ticks sent
          (generate_csrf_token signature ticks key minted bytes)
      → (first second : Dispatched) × (dispatch u signature encoding ticks keys now random_bytes
            shown
          ≡ ok first)
        × (first.csrf_token ≡ generate_csrf_token signature ticks key minted bytes)
        × (first.set_cookie ≡ some (csrf_cookie first.csrf_token shown.is_https))
        × (dispatch u signature encoding ticks keys later random_later sent ≡ ok second)
        × (validate_csrf_token signature ticks keys later none
              (submitted u signature encoding ticks sent second)
            ≡ accepted)
  unfolding after
  validate_csrf_token-dispatch keys key now later random_bytes random_later minted bytes shown sent
        has_key some_key served in_time cookie no_header form =
      let token = generate_csrf_token signature ticks key minted bytes in
      let some_token = generated_some key minted bytes in
      let valid = generated_valid key minted later bytes in_time in
      (
        after shown token,
        after sent token,
        dispatch_lem keys key now random_bytes shown token has_key some_key
            (token_for-served key now random_bytes shown.cookie minted bytes served),
        refl,
        refl,
        dispatch_lem keys key later random_later sent token has_key some_key (
            ap (token_for u signature encoding ticks key later random_later) cookie
            ∙ token_for_lem key later random_later token true some_token valid),
        validate_lem keys key later token sent has_key cookie no_header
            (state_token_of_form u signature encoding decode_encode ticks sent token form
              some_token)
            some_token valid,
      )

-- ===== src/Auth/Session/Tokens.antt =====
-- What the tokens of fastapi_admin_kit/auth/session.py prove.
use fastapi_admin_kit.Base.{
  leb, Bool-cases, inl, inr, ◌&&◌, ℕ, ◌+◌, ◌≤◌, ◌<◌, String, true, false, none, some, ◌==◌,
  if◌then◌else◌, [], ◌∷◌, ◌≡◌, refl, arith, eq_iff, if-elim,
}
use fastapi_admin_kit.Base.Int.{pos}
use fastapi_admin_kit.Base.Dict.{
  Dict, lookup, contains, lookup_or, lookup-insert, insert-IsDict, IsDict,
}
use fastapi_admin_kit.Base.Result.{ok}
use fastapi_admin_kit.Base.Value.{Value, null, int}
use fastapi_admin_kit.Auth.Session.{
  object, Signer, SignedCookieSessionBackend, session_salt, mfa_salt, mfa_ttl, stamp, encode,
  decode, encode_pending_2fa, decode_pending_2fa, should_secure, save,
}

-- What `itsdangerous` documents: a dict is read back from its token under the token's own salt, at no
-- earlier time and while it is young enough, and not under another salt nor afterwards.
pub record SignerLaws {Token : Type 0} (signer : Signer Token) : Type 0 where
  pub dumps_written :
      (salt : String) (now : ℕ) (d : Dict Value) → signer.is_empty (signer.dumps salt now d) ≡ false
  pub loads_dumps :
      (salt : String) (max_age issued now : ℕ) (d : Dict Value)
      → IsDict d
      → issued ≤ now
      → now ≤ issued + max_age
      → signer.loads salt max_age now (signer.dumps salt issued d) ≡ some (object d)
  pub loads_expired :
      (salt : String) (max_age issued now : ℕ) (d : Dict Value)
      → issued + max_age < now
      → signer.loads salt max_age now (signer.dumps salt issued d) ≡ none
  pub loads_salted :
      (salt salt' : String) (max_age issued now : ℕ) (d : Dict Value)
      → (salt == salt') ≡ false
      → signer.loads salt' max_age now (signer.dumps salt issued d) ≡ none

module _ {Token : Type 0} (signer : Signer Token) (laws : SignerLaws signer) where
  lookup-stamp :
      (now : ℕ) (d : Dict Value) (k : String)
      → lookup k (stamp signer now d)
        ≡ (if k == "iat" then some (lookup_or "iat" (int (pos now)) d) else lookup k d)
  unfolding stamp
  lookup-stamp now d k =
      ground (arith, lookup-insert "iat" k (int (pos now)) d, eq_iff "iat" k, eq_iff k "iat")

  contains-stamp : (now : ℕ) (d : Dict Value) → contains "iat" (stamp signer now d) ≡ true
  contains-stamp now d = ground (arith, lookup-stamp now d "iat")

  -- The payload that is read back: the one that was saved, with the time of saving as its `iat` if it
  -- had none.
  abbrev pub IsStamped : ℕ → Dict Value → Dict Value → Type 0
  IsStamped issued d read =
      (k : String)
      → lookup k read
        ≡ (if k == "iat" then some (lookup_or "iat" (int (pos issued)) d) else lookup k d)

  decode_lem :
      (b : SignedCookieSessionBackend) (issued now : ℕ) (d : Dict Value)
      → contains "iat" d ≡ true
      → IsDict d
      → issued ≤ now
      → decode signer b now (some (signer.dumps session_salt issued d))
        ≡ (if leb now (issued + b.session_ttl) then some d else none)
  unfolding decode
  decode_lem b issued now d has dict past = elim (Bool-cases (leb now (issued + b.session_ttl))) [
    | inl young ↦ ground (
      arith,
      has,
      laws.dumps_written session_salt issued d,
      laws.loads_dumps session_salt b.session_ttl issued now d dict past (ground arith),
    )
    | inr old ↦ ground (
      arith,
      laws.dumps_written session_salt issued d,
      laws.loads_expired session_salt b.session_ttl issued now d (ground arith),
    )
  ]

  stamp-IsDict : (now : ℕ) (d : Dict Value) → IsDict d → IsDict (stamp signer now d)
  unfolding stamp
  stamp-IsDict now d dict =
      if-elim IsDict (contains "iat" d) _ _ (λ has. dict)
        (λ none_yet. insert-IsDict "iat" (int (pos now)) d dict)

  -- At no earlier time than it was set, the cookie that `save` sets is read back as long as it is
  -- no older than the session's time to live, and not afterwards; what is read is what was saved,
  -- with the time of saving as its `iat` if it came with none. The cookie is secure exactly when
  -- that is configured and the request came over HTTPS.
  pub decode-save :
      (b : SignedCookieSessionBackend) (issued now : ℕ) (d : Dict Value) (scheme : String)
      → IsDict d
      → issued ≤ now
      → (read : Dict Value) × IsStamped issued d read
        × (decode signer b now (some (save signer b issued d (some scheme)).value)
            ≡ (if leb now (issued + b.session_ttl) then some read else none))
        × ((save signer b issued d (some scheme)).secure ≡ b.secure && scheme == "https")
  unfolding save encode should_secure
  decode-save b issued now d scheme dict past = (
    stamp signer issued d,
    lookup-stamp issued d,
    decode_lem b issued now (stamp signer issued d) (contains-stamp issued d)
        (stamp-IsDict issued d dict) past,
    ground arith,
  )

  -- A token counts for nothing outside its purpose: the token of a login that waits for its second
  -- factor is never a session, and the token of a session names no waiting user. From the time
  -- that it was made on, a waiting token names its user for five minutes, and nobody afterwards.
  pub decode_pending_2fa-encode_pending_2fa :
      (b : SignedCookieSessionBackend) (issued now : ℕ) (d : Dict Value) (user : Value)
      → issued ≤ now
      → (decode signer b now (some (encode_pending_2fa signer issued user)) ≡ none)
        × (decode_pending_2fa signer now (some (encode signer issued d).0) ≡ ok null)
        × (decode_pending_2fa signer now (some (encode_pending_2fa signer issued user))
            ≡ ok (if leb now (issued + mfa_ttl) then user else null))
  unfolding decode encode encode_pending_2fa decode_pending_2fa
  decode_pending_2fa-encode_pending_2fa b issued now d user past =
      let session = stamp signer issued d in
      let waiting : Dict Value = ("user_id", user) ∷ [] in
      (
        ground (
          arith,
          laws.dumps_written mfa_salt issued waiting,
          laws.loads_salted mfa_salt session_salt b.session_ttl issued now waiting refl,
        ),
        ground (
          arith,
          laws.dumps_written session_salt issued session,
          laws.loads_salted session_salt mfa_salt mfa_ttl issued now session refl,
        ),
        elim (Bool-cases (leb now (issued + mfa_ttl))) [
          | inl young ↦ ground (
            arith,
            laws.dumps_written mfa_salt issued waiting,
            laws.loads_dumps mfa_salt mfa_ttl issued now waiting (refl, tt) past (ground arith),
          )
          | inr old ↦ ground (
            arith,
            laws.dumps_written mfa_salt issued waiting,
            laws.loads_expired mfa_salt mfa_ttl issued now waiting (ground arith),
          )
        ],
      )

-- ===== src/Auth/Tests.antt =====
-- Concrete runs of the limiter and of the permission checker of fastapi_admin_kit/auth/.
use fastapi_admin_kit.Base.Dict.{Dict}
use fastapi_admin_kit.Base.Result.{ok}
use fastapi_admin_kit.Auth.Session.{
  Payload, object, Signer, SignedCookieSessionBackend, decode, save, encode, encode_pending_2fa,
  decode_pending_2fa,
}
use fastapi_admin_kit.Auth.Session.Tokens.{
  SignerLaws, IsStamped, decode-save, decode_pending_2fa-encode_pending_2fa,
}
use fastapi_admin_kit.Base.{
  ℕ, Option, String, ◌==◌, ◌&&◌, if◌then◌else◌, eq_refl, ◌+◌, ◌*◌, true, false, ◌||◌, none, some,
  List, [], ◌∷◌, ◌≡◌, refl, arith, length, keep, leb,
}
use fastapi_admin_kit.Base.Value.{Value, int, null}
use fastapi_admin_kit.Base.Int.{pos}
use fastapi_admin_kit.Auth.Ratelimit.{
  RateLimiter, is_live, is_rate_limited, check_rate_limit, cleanup, is_rate_limited,
  remaining_seconds, seconds_left,
}
use fastapi_admin_kit.Auth.Ratelimit.History.{
  Call, recorded, cleared, run, attempts_in, new_limiter, is_rate_limited-run,
}
use fastapi_admin_kit.Auth.Ratelimit.Retry.{check_rate_limit-retry}
use fastapi_admin_kit.Auth.Permissions.{no_permissions, Grants, new_checker, has_permission}
use fastapi_admin_kit.Auth.Permissions.Granted.{is_granted}
use fastapi_admin_kit.Auth.Permissions.Answers.{ask, has_permission-ask}

abbrev logins : List Call
logins = recorded "a" 1 ∷ recorded "b" 2 ∷ cleared "a" 3 ∷ recorded "a" 4 ∷ recorded "a" 5 ∷ []

is_rate_limited-run_example :
    (is_rate_limited "a" 9 (run logins (new_limiter 2 3 2))).0
    ≡ leb 2 (length (keep (is_live 6 9) (attempts_in "a" logins [])))
is_rate_limited-run_example =
    is_rate_limited-run 2 3 2 logins "a" 9
      (omega arith, (omega arith, (omega arith, (omega arith, (omega arith, (omega arith, tt))))))

-- Two attempts, at the ticks 4 and 5 of a clock with two ticks to the second.
abbrev full : RateLimiter
full = record (new_limiter 2 3 2) { attempts = ("a", 4 ∷ 5 ∷ []) ∷ [] }

full_refused : check_rate_limit "a" 6 7 full ≡ (some 2, full)
unfolding check_rate_limit is_rate_limited remaining_seconds cleanup seconds_left
full_refused = refl

check_rate_limit-retry_example : (is_rate_limited "a" (7 + 2 * 2) full).0 ≡ false
check_rate_limit-retry_example =
    check_rate_limit-retry "a" 6 7 2 full full (omega arith) (omega arith) (omega arith)
      full_refused

-- Role 1 may view and edit products; user 7 may delete them.
abbrev shop : Grants
shop = record {
  of_roles = λ roles.
      record {
        table_name = "product";
        flags = record no_permissions { can_view = true; can_edit = true };
      }
      ∷ [];
  of_user = λ user.
      record { table_name = "product"; flags = record no_permissions { can_delete = true } } ∷ [];
}

has_permission-ask_example :
    (has_permission shop "product" "delete"
      (ask shop (("product", "view") ∷ []) (new_checker false (1 ∷ []) (some (int (pos 7)))))).0
    ≡ false || is_granted shop (1 ∷ []) (some (int (pos 7))) "product" "delete"
has_permission-ask_example =
    has_permission-ask shop false (1 ∷ []) (some (int (pos 7))) (("product", "view") ∷ []) "product"
      "delete"

-- A token, or the empty text: the salt, the time and the payload, in the open.
abbrev OpenToken : Type 0
OpenToken = Option (String × ℕ × Dict Value)

abbrev read_open : String → ℕ → ℕ → OpenToken → Option Payload
read_open salt max_age now none = none
read_open salt max_age now (some (written, issued, d)) =
    if written == salt && (leb issued now && leb now (issued + max_age))
    then some (object d)
    else none

abbrev open_signer : Signer OpenToken
open_signer = record {
  is_empty = λ token. elim token [ none ↦ true | some _ ↦ false ];
  dumps = λ salt now d. some (salt, now, d);
  loads = read_open;
}

open_laws : SignerLaws open_signer
open_laws = record {
  dumps_written = λ salt now d. refl;
  loads_dumps = λ salt max_age issued now d dict past young. ground (arith, eq_refl salt);
  loads_expired = λ salt max_age issued now d old. ground arith;
  loads_salted = λ salt salt' max_age issued now d differ. ground arith;
}

abbrev hourly : SignedCookieSessionBackend
hourly = record { session_ttl = 3600; cookie_name = "admin_session"; secure = true }

abbrev login : Dict Value
login = ("user_id", int (pos 7)) ∷ []

decode-save_example :
    (read : Dict Value) × IsStamped open_signer open_laws 100 login read
    × (decode open_signer hourly 3700 (some (save open_signer hourly 100 login (some "http")).value)
        ≡ some read)
    × ((save open_signer hourly 100 login (some "http")).secure ≡ false)
decode-save_example =
    decode-save open_signer open_laws hourly 100 3700 login "http" (refl, tt) (omega arith)

decode_pending_2fa-encode_pending_2fa_example :
    (decode open_signer hourly 500 (some (encode_pending_2fa open_signer 100 (int (pos 7)))) ≡ none)
    × (decode_pending_2fa open_signer 500 (some (encode open_signer 100 login).0) ≡ ok null)
    × (decode_pending_2fa open_signer 500 (some (encode_pending_2fa open_signer 100 (int (pos 7))))
        ≡ ok null)
decode_pending_2fa-encode_pending_2fa_example =
    decode_pending_2fa-encode_pending_2fa open_signer open_laws hourly 100 500 login (int (pos 7))
      (omega arith)

-- ===== src/Auth/Ratelimit.antt =====
-- The sliding-window limiter of fastapi_admin_kit/auth/ratelimit.py. Each method holds the lock for
-- its whole body, so a method is one step. The float of `time.monotonic()` is a number of ticks,
-- `ticks` to the second.
pub mod History
pub mod Retry
use fastapi_admin_kit.Base.{
  ℕ, ◌+◌, ◌-◌, ◌*◌, ◌/◌, String, Bool, true, false, Option, none, some, List, [], ◌∷◌, ◌++◌, length,
  keep, ltb, leb,
}
use fastapi_admin_kit.Base.Dict.{Dict, lookup_or, insert, erase}

pub record RateLimiter : Type 0 where
  pub max_attempts : ℕ
  pub window_seconds : ℕ
  pub ticks : ℕ
  pub attempts : Dict (List ℕ)

abbrev pub window : RateLimiter → ℕ
window l = l.window_seconds * l.ticks

-- `t > now - window`, with no negative number: `now` is below `t + window`.
abbrev pub is_live : ℕ → ℕ → ℕ → Bool
is_live width now t = ltb now (t + width)

-- `self._attempts[key]` of the `defaultdict`.
abbrev pub attempts_of : String → RateLimiter → List ℕ
attempts_of key l = lookup_or key [] l.attempts

-- `_cleanup`
unfoldable pub cleanup : String → ℕ → RateLimiter → RateLimiter
cleanup key now l = record l {
  attempts = insert key (keep (is_live (window l) now) (attempts_of key l)) l.attempts;
}

unfoldable pub is_rate_limited : String → ℕ → RateLimiter → Bool × RateLimiter
unfolding cleanup
is_rate_limited key now l =
    let l' = cleanup key now l in (leb l.max_attempts (length (attempts_of key l')), l')

unfoldable pub record_attempt : String → ℕ → RateLimiter → RateLimiter
unfolding cleanup
record_attempt key now l =
    let l' = cleanup key now l in
    record l' { attempts = insert key (attempts_of key l' ++ now ∷ []) l'.attempts }

-- The entry that `pop` removes reads as the empty list afterwards.
unfoldable pub reset : String → RateLimiter → RateLimiter
reset key l = record l { attempts = erase key l.attempts }

-- `max(0, int(window - (now - oldest)) + 1)`. The oldest attempt that is left is live, so the
-- difference is positive, and `int` rounds down.
unfoldable pub seconds_left : RateLimiter → ℕ → List ℕ → ℕ
seconds_left l now [] = 0
seconds_left l now (oldest ∷ later) = (oldest + window l - now) / l.ticks + 1

unfoldable pub remaining_seconds : String → ℕ → RateLimiter → ℕ × RateLimiter
unfolding cleanup seconds_left
remaining_seconds key now l =
    let l' = cleanup key now l in (seconds_left l now (attempts_of key l'), l')

-- `check_rate_limit`, whose two calls read the clock at `now` and at `later`. The result is the
-- `Retry-After` of the 429, or `none` where nothing is raised.
unfoldable pub check_rate_limit : String → ℕ → ℕ → RateLimiter → Option ℕ × RateLimiter
unfolding is_rate_limited remaining_seconds
check_rate_limit key now later l =
    let (limited, l') = is_rate_limited key now l in
    elim limited [
      | true ↦ let (retry, l'') = remaining_seconds key later l' in (some retry, l'')
      | false ↦ (none, l')
    ]

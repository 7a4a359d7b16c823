-- ===== src/Auth/Ratelimit/Retry.antt =====
-- What the `Retry-After` of fastapi_admin_kit/auth/ratelimit.py promises.
use Prim.Native.Nat.{ℕ}
use native.Mathlib.Nat.{div-lt_iff_lt-mul}
use fastapi_admin_kit.Base.{
  ℕ, ◌+◌, ◌-◌, ◌*◌, ◌/◌, ◌≤◌, ◌<◌, ◌≡◌, refl, String, false, some, List, [], ◌∷◌, arith, length,
  keep, leb, length-keep-le,
}
use fastapi_admin_kit.Auth.Ratelimit.{
  RateLimiter, window, is_live, attempts_of, cleanup, is_rate_limited, seconds_left,
  remaining_seconds, check_rate_limit,
}
use fastapi_admin_kit.Auth.Ratelimit.History.{attempts_of-cleanup_self}

-- A quotient, rounded up by one, is past what was divided.
div-past : (n t : ℕ) → 0 < t → n < (n / t + 1) * t
div-past n t h = (div-lt_iff_lt-mul h).0 (omega arith)

-- After the seconds announced, the oldest attempt has left the window.
seconds_left-expires :
    (l : RateLimiter) (now oldest : ℕ) (later : List ℕ)
    → 0 < l.ticks
    → is_live (window l) (now + seconds_left l now (oldest ∷ later) * l.ticks) oldest ≡ false
unfolding seconds_left
seconds_left-expires l now oldest later h =
    let past = div-past (oldest + window l - now) l.ticks h in ground arith

-- One attempt fewer is left once the seconds announced are over.
length-keep-seconds_left :
    (l : RateLimiter) (now : ℕ) (xs : List ℕ)
    → 0 < l.ticks
    → 0 < l.max_attempts
    → length xs ≤ l.max_attempts
    → leb l.max_attempts
        (length (keep (is_live (window l) (now + seconds_left l now xs * l.ticks)) xs))
      ≡ false
length-keep-seconds_left l now [] t m few = ground arith
length-keep-seconds_left l now (x ∷ xs) t m few =
    let at = now + seconds_left l now (x ∷ xs) * l.ticks in
    ground (arith, seconds_left-expires l now x xs t, length-keep-le (is_live (window l) at) xs)

check_limited :
    (key : String) (now later retry : ℕ) (l l' : RateLimiter)
    → check_rate_limit key now later l ≡ (some retry, l')
    → (l' ≡ cleanup key later (cleanup key now l))
      × (retry ≡ seconds_left l later (attempts_of key (cleanup key later (cleanup key now l))))
unfolding check_rate_limit is_rate_limited remaining_seconds cleanup seconds_left
check_limited key now later retry l l' e = ground (arith, e)

length-cleanup :
    (key : String) (t : ℕ) (l : RateLimiter)
    → length (attempts_of key (cleanup key t l)) ≤ length (attempts_of key l)
length-cleanup key t l = ground (
  arith,
  attempts_of-cleanup_self key t l,
  length-keep-le (is_live (window l) t) (attempts_of key l),
)

cleanup_settings :
    (key : String) (t : ℕ) (l : RateLimiter)
    → ((cleanup key t l).ticks ≡ l.ticks)
      × ((cleanup key t l).max_attempts ≡ l.max_attempts)
      × (window (cleanup key t l) ≡ window l)
unfolding cleanup
cleanup_settings key t l = (refl, refl, refl)

seconds_left-cleanup :
    (key : String) (t now : ℕ) (l : RateLimiter) (xs : List ℕ)
    → seconds_left (cleanup key t l) now xs ≡ seconds_left l now xs
unfolding cleanup seconds_left
seconds_left-cleanup key t now l [] = refl
seconds_left-cleanup key t now l (x ∷ xs) = refl

-- With a positive limit and a clock that ticks, a key that is refused, and that has no more than
-- `max_attempts` attempts on record, is let in again once the seconds of the `Retry-After` have
-- passed without a further attempt.
pub check_rate_limit-retry :
    (key : String) (now later retry : ℕ) (l l' : RateLimiter)
    → 0 < l.ticks
    → 0 < l.max_attempts
    → length (attempts_of key l) ≤ l.max_attempts
    → check_rate_limit key now later l ≡ (some retry, l')
    → (is_rate_limited key (later + retry * l.ticks) l').0 ≡ false
unfolding is_rate_limited
check_rate_limit-retry key now later retry l l' t m few e =
    let (after, seconds) = check_limited key now later retry l l' e in
    let one = cleanup key now l in
    let two = cleanup key later one in
    let (ticks1, most1, width1) = cleanup_settings key now l in
    let (ticks2, most2, width2) = cleanup_settings key later one in
    let at = later + retry * l.ticks in
    let short : length (attempts_of key two) ≤ l.max_attempts =
      ground (arith, length-cleanup key later one, length-cleanup key now l) in
    ground (
      arith,
      length-keep-seconds_left l later (attempts_of key two) t m short,
      attempts_of-cleanup_self key at two,
      seconds_left-cleanup key now later l (attempts_of key two),
      cleanup_settings key at two,
    )

-- ===== src/Auth/Ratelimit/History.antt =====
-- The limiter of fastapi_admin_kit/auth/ratelimit.py against a history of its calls.
use fastapi_admin_kit.Base.{
  ℕ, ◌*◌, ◌≤◌, ◌≡◌, refl, ◌∙◌, String, Bool, List, [], ◌∷◌, ◌++◌, arith, length, keep, leb, ◌==◌,
  eq_iff, eq_refl, if◌then◌else◌,
}
use fastapi_admin_kit.Base.Dict.{IsDict, lookup-insert, lookup-erase, insert-IsDict, erase-IsDict}
use fastapi_admin_kit.Auth.Ratelimit.{
  RateLimiter, window, is_live, attempts_of, cleanup, is_rate_limited, record_attempt, reset,
  remaining_seconds,
}

-- One call, with the time at which it reads the clock.
pub data Call : Type 0 where
  checked recorded asked : String → ℕ → Call
  cleared : String → ℕ → Call

abbrev pub time_of : Call → ℕ
time_of (checked key t) = t
time_of (recorded key t) = t
time_of (asked key t) = t
time_of (cleared key t) = t

unfoldable pub step : Call → RateLimiter → RateLimiter
step (checked key t) l = (is_rate_limited key t l).1
step (recorded key t) l = record_attempt key t l
step (asked key t) l = (remaining_seconds key t l).1
step (cleared key t) l = reset key l

-- The calls in order, the oldest first.
unfoldable pub run : List Call → RateLimiter → RateLimiter
unfolding step
run [] l = l
run (c ∷ cs) l = run cs (step c l)

-- The clock does not run backwards, from `start` on.
abbrev pub InOrder : ℕ → List Call → Type 0
InOrder start [] = Unit
InOrder start (c ∷ cs) = (start ≤ time_of c) × InOrder (time_of c) cs

-- The attempts for `key` since its last reset, behind the attempts `past` that came before the calls.
abbrev pub attempts_in : String → List Call → List ℕ → List ℕ
attempts_in key [] past = past
attempts_in key (recorded k t ∷ cs) past =
    attempts_in key cs (if k == key then past ++ t ∷ [] else past)
attempts_in key (cleared k t ∷ cs) past = attempts_in key cs (if k == key then [] else past)
attempts_in key (checked k t ∷ cs) past = attempts_in key cs past
attempts_in key (asked k t ∷ cs) past = attempts_in key cs past

keep-keep :
    (w t now : ℕ) (xs : List ℕ)
    → t ≤ now
    → keep (is_live w now) (keep (is_live w t) xs) ≡ keep (is_live w now) xs
keep-keep w t now [] h = refl
keep-keep w t now (x ∷ xs) h = ground (arith, keep-keep w t now xs h)

keep-append : (p : ℕ → Bool) (xs ys : List ℕ) → keep p (xs ++ ys) ≡ keep p xs ++ keep p ys
keep-append p [] ys = refl
keep-append p (x ∷ xs) ys = ground (arith, keep-append p xs ys)

-- At every time from `from` on, the limiter's live attempts for the key are those of `xs`.
abbrev Agrees : ℕ → String → ℕ → RateLimiter → List ℕ → Type 0
Agrees w key from l xs =
    (now : ℕ) → from ≤ now → keep (is_live w now) (attempts_of key l) ≡ keep (is_live w now) xs

attempts_of-cleanup :
    (k key : String) (t : ℕ) (l : RateLimiter)
    → attempts_of key (cleanup k t l)
      ≡ (if k == key then keep (is_live (window l) t) (attempts_of key l) else attempts_of key l)
unfolding cleanup
attempts_of-cleanup k key t l = ground (
  arith,
  lookup-insert k key (keep (is_live (window l) t) (attempts_of k l)) l.attempts,
  eq_iff k key,
)

cleanup-Agrees :
    (k key : String) (t from : ℕ) (l : RateLimiter) (xs : List ℕ)
    → from ≤ t
    → Agrees (window l) key from l xs
    → Agrees (window l) key t (cleanup k t l) xs
cleanup-Agrees k key t from l xs le h now later = ground (
  arith,
  attempts_of-cleanup k key t l,
  keep-keep (window l) t now (attempts_of key l) later,
  h now,
)

record-Agrees :
    (k key : String) (t from : ℕ) (l : RateLimiter) (xs : List ℕ)
    → from ≤ t
    → Agrees (window l) key from l xs
    → Agrees (window l) key t (record_attempt k t l) (if k == key then xs ++ t ∷ [] else xs)
unfolding record_attempt
record-Agrees k key t from l xs le h now later =
    let l' = cleanup k t l in
    ground (
      arith,
      cleanup-Agrees k key t from l xs le h now later,
      lookup-insert k key (attempts_of k l' ++ t ∷ []) l'.attempts,
      keep-append (is_live (window l) now) (attempts_of key l') (t ∷ []),
      keep-append (is_live (window l) now) xs (t ∷ []),
      eq_iff k key,
    )

reset-Agrees :
    (k key : String) (t from : ℕ) (l : RateLimiter) (xs : List ℕ)
    → IsDict l.attempts
    → from ≤ t
    → Agrees (window l) key from l xs
    → Agrees (window l) key t (reset k l) (if k == key then [] else xs)
unfolding reset
reset-Agrees k key t from l xs dict le h now later =
    ground (arith, lookup-erase k key l.attempts dict, h now)

-- What the calls keep of the limiter: its settings, and that no key stands twice.
abbrev Keeps : RateLimiter → RateLimiter → Type 0
Keeps l l' = (window l' ≡ window l) × (l'.max_attempts ≡ l.max_attempts) × IsDict l'.attempts

step-Keeps : (c : Call) (l : RateLimiter) → IsDict l.attempts → Keeps l (step c l)
unfolding step is_rate_limited record_attempt remaining_seconds cleanup reset
step-Keeps (checked key t) l h =
    (refl, refl, insert-IsDict key (keep (is_live (window l) t) (attempts_of key l)) l.attempts h)
step-Keeps (asked key t) l h =
    (refl, refl, insert-IsDict key (keep (is_live (window l) t) (attempts_of key l)) l.attempts h)
step-Keeps (recorded key t) l h =
    let l' = cleanup key t l in
    let kept = insert-IsDict key (keep (is_live (window l) t) (attempts_of key l)) l.attempts h in
    (refl, refl, insert-IsDict key (attempts_of key l' ++ t ∷ []) l'.attempts kept)
step-Keeps (cleared key t) l h = (refl, refl, erase-IsDict key l.attempts h)

step_attempts :
    (c : Call) (key : String) (start : ℕ) (l : RateLimiter) (xs : List ℕ)
    → IsDict l.attempts
    → start ≤ time_of c
    → Agrees (window l) key start l xs
    → Agrees (window l) key (time_of c) (step c l) (attempts_in key (c ∷ []) xs)
unfolding step is_rate_limited remaining_seconds
step_attempts (checked k t) key start l xs dict le h = cleanup-Agrees k key t start l xs le h
step_attempts (asked k t) key start l xs dict le h = cleanup-Agrees k key t start l xs le h
step_attempts (recorded k t) key start l xs dict le h = record-Agrees k key t start l xs le h
step_attempts (cleared k t) key start l xs dict le h = reset-Agrees k key t start l xs dict le h

attempts_in-cons :
    (key : String) (c : Call) (cs : List Call) (xs : List ℕ)
    → attempts_in key cs (attempts_in key (c ∷ []) xs) ≡ attempts_in key (c ∷ cs) xs
attempts_in-cons key (checked k t) cs xs = refl
attempts_in-cons key (asked k t) cs xs = refl
attempts_in-cons key (recorded k t) cs xs = refl
attempts_in-cons key (cleared k t) cs xs = refl

-- The same of a limiter whose settings are named.
abbrev Tracks : ℕ → ℕ → String → ℕ → RateLimiter → List ℕ → Type 0
Tracks w m key start l xs =
    (window l ≡ w) × (l.max_attempts ≡ m) × IsDict l.attempts × Agrees w key start l xs

step-Tracks :
    (w m : ℕ) (c : Call) (key : String) (start : ℕ) (l : RateLimiter) (xs : List ℕ)
    → start ≤ time_of c
    → Tracks w m key start l xs
    → Tracks w m key (time_of c) (step c l) (attempts_in key (c ∷ []) xs)
step-Tracks w m c key start l xs le (width, most, dict, agrees) =
    let (width', most', dict') = step-Keeps c l dict in
    let agrees' =
      step_attempts c key start l xs dict le (λ now h. ground (arith, width, agrees now h)) in
    (width' ∙ width, most' ∙ most, dict', λ now h. ground (arith, width, agrees' now h))

run-Tracks :
    (w m : ℕ) (cs : List Call) (key : String) (start now : ℕ) (l : RateLimiter) (xs : List ℕ)
    → InOrder start (cs ++ checked key now ∷ [])
    → Tracks w m key start l xs
    → Tracks w m key now (run cs l) (attempts_in key cs xs)
unfolding run
run-Tracks w m [] key start now l xs (le, ok) (width, most, dict, agrees) =
    (width, most, dict, λ t h. agrees t (omega arith))
run-Tracks w m (c ∷ cs) key start now l xs (le, ok) tracks =
    let after = step-Tracks w m c key start l xs le tracks in
    rw (attempts_in-cons key c cs xs) at
      (run-Tracks w m cs key (time_of c) now (step c l) (attempts_in key (c ∷ []) xs) ok after)

abbrev pub new_limiter : ℕ → ℕ → ℕ → RateLimiter
new_limiter most seconds ticks = record {
  max_attempts = most;
  window_seconds = seconds;
  ticks = ticks;
  attempts = [];
}

pub attempts_of-cleanup_self :
    (key : String) (t : ℕ) (l : RateLimiter)
    → attempts_of key (cleanup key t l) ≡ keep (is_live (window l) t) (attempts_of key l)
attempts_of-cleanup_self key t l = ground (arith, attempts_of-cleanup key key t l, eq_refl key)

-- After any calls whose clock does not run backwards, a key is limited exactly when the attempts
-- recorded for it since its last reset, counted over the window that ends now, are `max_attempts`
-- or more; checks, and the calls for other keys, make no difference.
pub is_rate_limited-run :
    (most seconds ticks : ℕ) (cs : List Call) (key : String) (now : ℕ)
    → InOrder 0 (cs ++ checked key now ∷ [])
    → (is_rate_limited key now (run cs (new_limiter most seconds ticks))).0
      ≡ leb most (length (keep (is_live (seconds * ticks) now) (attempts_in key cs [])))
unfolding is_rate_limited
is_rate_limited-run most seconds ticks cs key now ok =
    let l = new_limiter most seconds ticks in
    let start : Tracks (seconds * ticks) most key 0 l [] = (refl, refl, tt, λ t h. refl) in
    let (width, same, _, agrees) = run-Tracks (seconds * ticks) most cs key 0 now l [] ok start in
    ground
      (arith, width, same, agrees now (omega arith), attempts_of-cleanup_self key now (run cs l))

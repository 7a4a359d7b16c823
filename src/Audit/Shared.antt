-- ===== src/Audit/Shared.antt =====
-- Which requests share a context, fastapi_admin_kit/audit/context.py and audit/middleware.py.
use fastapi_admin_kit.Base.{
  ℕ, ◌<◌, String, Bool, true, false, not, ◌&&◌, some, List, [], ◌∷◌, any, nat_eq, ◌||◌, ◌≡◌, refl,
  ap, ◌∙◌, inl, inr, Bool-cases, arith,
}
use fastapi_admin_kit.Base.Dict.{Dict}
use fastapi_admin_kit.Audit.Context.{
  Contexts, start, or_shared, update, at, get_audit_context, set_audit_context, clear_audit_context,
  request_data, set_given, Event, enters, resolves, leaves, step, run,
}

abbrev pub is_among : ℕ → List ℕ → Bool
is_among c cs = any (λ d. nat_eq d c) cs

-- No request does anything once it has been answered.
abbrev pub is_orderly : List ℕ → List Event → Bool
is_orderly gone [] = true
is_orderly gone (enters c ip agent ∷ es) = not (is_among c gone) && is_orderly gone es
is_orderly gone (resolves c user_id user_email ∷ es) = not (is_among c gone) && is_orderly gone es
is_orderly gone (leaves c ∷ es) = is_orderly (c ∷ gone) es

-- The requests that have been answered.
abbrev pub answered : List ℕ → List Event → List ℕ
answered gone [] = gone
answered gone (leaves c ∷ es) = answered (c ∷ gone) es
answered gone (_ ∷ es) = answered gone es

-- All that requests put into their contexts, in the order of events.
abbrev pub noted : Event → Dict String → Dict String
noted (enters c ip agent) d = update d (request_data ip agent)
noted (resolves c user_id user_email) d =
    update d (("user_id", user_id) ∷ ("user_email", user_email) ∷ [])
noted (leaves c) d = d

abbrev pub noted_all : List Event → Dict String → Dict String
noted_all [] d = d
noted_all (e ∷ es) d = noted_all es (noted e d)

-- Contexts that are not gone have no dict but the default one.
abbrev pub IsShared : List ℕ → Contexts → Type 0
IsShared gone s = (0 < s.next) × ((c : ℕ) → is_among c gone ≡ false → or_shared (s.own c) ≡ 0)

-- The events from `s` on are those, and lead to what is noted in the default dict.
abbrev IsStep : List ℕ → Dict String → Contexts → Type 0
IsStep gone d s = IsShared gone s × (s.heap 0 ≡ d)

set_audit_context-IsStep :
    (gone : List ℕ) (c : ℕ) (info : Dict String) (s : Contexts)
    → is_among c gone ≡ false
    → IsShared gone s
    → IsStep gone (update (s.heap 0) info) (set_audit_context c info s)
unfolding set_audit_context
set_audit_context-IsStep gone c info s here (low, h) = ((low, go), rw (h c here) refl)
  where
    go :
        (d : ℕ)
        → is_among d gone ≡ false
        → or_shared (at c (some (or_shared (s.own c))) s.own d) ≡ 0
    go d there = elim (Bool-cases (nat_eq d c)) [
      | inl same ↦ rw same (h c here)
      | inr other ↦ rw other (h d there)
    ]

set_given-IsStep :
    (gone : List ℕ) (c : ℕ) (info : Dict String) (s : Contexts)
    → is_among c gone ≡ false
    → IsShared gone s
    → IsStep gone (update (s.heap 0) info) (set_given c info s)
unfolding update
set_given-IsStep gone c [] s here h = (h, refl)
set_given-IsStep gone c (e ∷ info) s here h = set_audit_context-IsStep gone c (e ∷ info) s here h

clear_audit_context-IsStep :
    (gone : List ℕ) (c : ℕ) (s : Contexts)
    → IsShared gone s
    → IsStep (c ∷ gone) (s.heap 0) (clear_audit_context c s)
unfolding clear_audit_context
clear_audit_context-IsStep gone c s (low, h) =
    ((omega arith, go), let apart : nat_eq 0 s.next ≡ false = ground (arith, low) in rw apart refl)
  where
    go :
        (d : ℕ)
        → (nat_eq c d || is_among d gone) ≡ false
        → or_shared (at c (some s.next) s.own d) ≡ 0
    go d there =
        let other : nat_eq d c ≡ false = ground (arith, there) in
        rw other (h d (ground (arith, there)))

-- The rest of the events, from contexts that share the default dict on.
run-IsStep :
    (gone : List ℕ) (es : List Event) (s : Contexts)
    → is_orderly gone es ≡ true
    → IsShared gone s
    → IsStep (answered gone es) (noted_all es (s.heap 0)) (run es s)
unfolding run step
run-IsStep gone [] s orderly h = (h, refl)
run-IsStep gone (enters c ip agent ∷ es) s orderly h =
    let (shared, now) =
      set_given-IsStep gone c (request_data ip agent) s (ground (arith, orderly)) h in
    let (shared', later) =
      run-IsStep gone es (set_given c (request_data ip agent) s) (ground (arith, orderly)) shared in
    (shared', later ∙ ap (noted_all es) now)
run-IsStep gone (resolves c user_id user_email ∷ es) s orderly h =
    let info : Dict String = ("user_id", user_id) ∷ ("user_email", user_email) ∷ [] in
    let (shared, now) = set_audit_context-IsStep gone c info s (ground (arith, orderly)) h in
    let (shared', later) =
      run-IsStep gone es (set_audit_context c info s) (ground (arith, orderly)) shared in
    (shared', later ∙ ap (noted_all es) now)
run-IsStep gone (leaves c ∷ es) s orderly h =
    let (shared, now) = clear_audit_context-IsStep gone c s h in
    let (shared', later) = run-IsStep (c ∷ gone) es (clear_audit_context c s) orderly shared in
    (shared', later ∙ ap (noted_all es) now)

-- Whatever requests come in, find their users and are answered, in whatever order, no request doing
-- anything after its answer: the context of each that has not been answered, also of one that found
-- no user, gives all that was put into any of them, what came later over what came before. So a change
-- is logged under the user who was found last, in whichever request.
pub get_audit_context-run :
    (es : List Event) (d : ℕ)
    → is_orderly [] es ≡ true
    → is_among d (answered [] es) ≡ false
    → get_audit_context d (run es start) ≡ noted_all es []
unfolding get_audit_context
get_audit_context-run es d orderly here =
    let (shared, now) = run-IsStep [] es start orderly (omega arith, λ c h. refl) in
    ap (λ r. (run es start).heap r) (shared.1 d here) ∙ now

-- ===== src/Audit/Tests.antt =====
-- Requests at once and one behind the other, fastapi_admin_kit/audit/context.py.
use fastapi_admin_kit.Base.{none, some, List, [], ◌∷◌, ◌≡◌, refl}
use fastapi_admin_kit.Audit.Context.{
  Event, enters, resolves, leaves, update, get_audit_context, set_audit_context,
  clear_audit_context, start, step, run,
}
use fastapi_admin_kit.Audit.Shared.{noted_all, get_audit_context-run}

-- The requests 1 of ada and 2 of bob at once, and after bob's is answered one of nobody.
abbrev three : List Event
three =
    enters 1 (some "10.0.0.1") none
    ∷ enters 2 (some "10.0.0.2") none
    ∷ resolves 1 "7" "ada@x"
    ∷ resolves 2 "8" "bob@x"
    ∷ leaves 2
    ∷ enters 3 (some "10.0.0.3") none
    ∷ []

nobody_is_bob :
    get_audit_context 3 (run three start)
    ≡ ("ip_address", "10.0.0.3") ∷ ("user_id", "8") ∷ ("user_email", "bob@x") ∷ []
unfolding get_audit_context run step set_audit_context clear_audit_context update
nobody_is_bob = refl

get_audit_context-run_example : get_audit_context 3 (run three start) ≡ noted_all three []
get_audit_context-run_example = get_audit_context-run three 3 refl refl

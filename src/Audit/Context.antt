-- ===== src/Audit/Context.antt =====
-- `get_audit_context`, `set_audit_context` and `clear_audit_context` of
-- fastapi_admin_kit/audit/context.py, and what audit/middleware.py does with them. The dicts are
-- objects of a heap: the one at 0 is the default of the context variable, which `update` changes in
-- place. Contexts go by numbers; each request has one, which starts without a binding, and the
-- tasks of a request copy it.
use fastapi_admin_kit.Base.{
  ℕ, suc, String, Option, none, some, List, [], ◌∷◌, ◌++◌, nat_eq, is_truthy, if◌then◌else◌,
}
use fastapi_admin_kit.Base.Dict.{Dict, insert}

pub record Contexts : Type 0 where
  pub heap : ℕ → Dict String
  pub next : ℕ
  pub own : ℕ → Option ℕ

abbrev pub start : Contexts
start = record { heap = λ r. []; next = 1; own = λ c. none }

abbrev pub or_shared : Option ℕ → ℕ
or_shared none = 0
or_shared (some r) = r

-- `current.update(info)`
unfoldable pub update : Dict String → Dict String → Dict String
update info [] = info
update info ((k, v) ∷ more) = update (insert k v info) more

abbrev pub at {ℓ} : {A : Type ℓ} → ℕ → A → (ℕ → A) → ℕ → A
at k a f j = if nat_eq j k then a else f j

unfoldable pub get_audit_context : ℕ → Contexts → Dict String
get_audit_context c s = s.heap (or_shared (s.own c))

unfoldable pub set_audit_context : ℕ → Dict String → Contexts → Contexts
set_audit_context c info s =
    let r = or_shared (s.own c) in
    record s { heap = at r (update (s.heap r) info) s.heap; own = at c (some r) s.own }

unfoldable pub clear_audit_context : ℕ → Contexts → Contexts
clear_audit_context c s = record {
  heap = at s.next [] s.heap;
  next = suc s.next;
  own = at c (some s.next) s.own;
}

-- What the middleware knows of a request: its address, if there is a client, and its user agent.
abbrev pub address_entry : Option String → Dict String
address_entry none = []
address_entry (some ip) = ("ip_address", ip) ∷ []

abbrev pub agent_entry : Option String → Dict String
agent_entry none = []
agent_entry (some agent) = if is_truthy agent then ("user_agent", agent) ∷ [] else []

abbrev pub request_data : Option String → Option String → Dict String
request_data ip agent = address_entry ip ++ agent_entry agent

abbrev pub set_given : ℕ → Dict String → Contexts → Contexts
set_given c [] s = s
set_given c (e ∷ info) s = set_audit_context c (e ∷ info) s

-- What happens to the contexts of requests: a request comes in (`dispatch` before `call_next`), its
-- user is found (`resolve_user`), it is answered (`dispatch` behind it).
pub data Event : Type 0 where
  enters : (c : ℕ) (ip agent : Option String) → Event
  resolves : (c : ℕ) (user_id user_email : String) → Event
  leaves : (c : ℕ) → Event

unfoldable pub step : Event → Contexts → Contexts
step (enters c ip agent) s = set_given c (request_data ip agent) s
step (resolves c user_id user_email) s =
    set_audit_context c (("user_id", user_id) ∷ ("user_email", user_email) ∷ []) s
step (leaves c) s = clear_audit_context c s

unfoldable pub run : List Event → Contexts → Contexts
run [] s = s
run (e ∷ es) s = run es (step e s)

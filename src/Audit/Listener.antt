-- ===== src/Audit/Listener.antt =====
-- The session listeners of fastapi_admin_kit/audit/listener.py. An object has its current and its
-- committed column values; `flushed` is what a flush makes of it, and `audit_table` the table of
-- the log itself. Sessions go by `id(session)`. `compute_diff` is that of both backends.
use fastapi_admin_kit.Base.{
  ℕ, String, ◌==◌, Bool, false, not, ◌&&◌, Option, none, some, List, [], ◌∷◌, ◌++◌, keep, map, take,
  nat_eq, if◌then◌else◌,
}
use fastapi_admin_kit.Base.Dict.{Dict, lookup, insert}
use fastapi_admin_kit.Base.Value.{Value, null, str_of}
use fastapi_admin_kit.Memory.Introspection.{compute_diff}

pub record Object : Type 0 where
  pub model_name : String
  pub tablename : Option String
  pub text : List ℕ
  pub id : Option Value
  pub current : Dict Value
  pub committed : Dict Value

pub record AuditRow : Type 0 where
  pub action : String
  pub model_name : String
  pub table_name : String
  pub object_id : List ℕ
  pub object_repr : List ℕ
  pub changes : Option (Dict (Value × Value))
  pub full_snapshot : Dict Value
  pub user_id : Option String
  pub user_email : Option String
  pub ip_address : Option String
  pub user_agent : Option String

abbrev pub id_or : Option Value → Option Value → List ℕ
id_or (some v) other = str_of v
id_or none (some v) = str_of v
id_or none none = []

abbrev pub table_of : Option String → String
table_of none = ""
table_of (some t) = t

-- `_build_audit_row`
unfoldable pub build_audit_row :
    Object → String → Dict String → Option (Dict (Value × Value)) → Dict Value → AuditRow
build_audit_row obj action context changes snap = record {
  action = action;
  model_name = obj.model_name;
  table_name = table_of obj.tablename;
  object_id = id_or (lookup "id" snap) obj.id;
  object_repr = take 500 obj.text;
  changes = changes;
  full_snapshot = snap;
  user_id = lookup "user_id" context;
  user_email = lookup "user_email" context;
  ip_address = lookup "ip_address" context;
  user_agent = lookup "user_agent" context;
}

pub record Pending : Type 0 where
  pub object : Object
  pub snap : Dict Value
  pub context : Dict String

pub record Session : Type 0 where
  pub id : ℕ
  pub added : List Object
  pub dirty : List Object
  pub deleted : List Object

-- What waits for a flush, by session, and the rows of the log that were added.
pub record State : Type 0 where
  pub pending : ℕ → List Pending
  pub rows : List AuditRow

abbrev pub put_pending : ℕ → List Pending → (ℕ → List Pending) → ℕ → List Pending
put_pending id items pending j = if nat_eq j id then items else pending j

module _ (is_registered : String → Bool) (audit_table : String) where
  unfoldable pub is_audited : Object → Bool
  is_audited obj = elim obj.tablename [
    | none ↦ false
    | some t ↦ is_registered t && not (t == audit_table)
  ]

  abbrev pub capture : Dict String → Object → Pending
  capture context obj = record { object = obj; snap = obj.current; context = context }

  unfoldable pub new_items : Dict String → List Object → List Pending
  new_items context objs = map (capture context) (keep is_audited objs)

  abbrev pub add_change :
      Dict String → Object → Dict (Value × Value) → List AuditRow → List AuditRow
  add_change context obj [] rows = rows
  add_change context obj (d ∷ ds) rows =
      build_audit_row obj "UPDATE" context (some (d ∷ ds)) obj.current ∷ rows

  unfoldable pub update_rows : Dict String → List Object → List AuditRow
  update_rows context [] = []
  update_rows context (obj ∷ objs) =
      let rest = update_rows context objs in
      if is_audited obj
      then add_change context obj (compute_diff obj.committed obj.current) rest
      else rest

  abbrev pub delete_row : Dict String → Object → AuditRow
  delete_row context obj = build_audit_row obj "DELETE" context none obj.current

  unfoldable pub delete_rows : Dict String → List Object → List AuditRow
  delete_rows context objs = map (delete_row context) (keep is_audited objs)

  -- `_pending_creates` is written only if there are new items.
  abbrev pub remember : ℕ → List Pending → (ℕ → List Pending) → ℕ → List Pending
  remember id [] pending = pending
  remember id (p ∷ ps) pending = put_pending id (p ∷ ps) pending

  unfoldable pub before_flush : Dict String → Session → State → State
  before_flush context s state = record {
    pending = remember s.id (new_items context s.added) state.pending;
    rows = state.rows ++ (update_rows context s.dirty ++ delete_rows context s.deleted);
  }

  module _ (flushed : Object → Object) where
    abbrev pub or_null : Option Value → Value
    or_null none = null
    or_null (some v) = v

    abbrev pub create_row : Pending → AuditRow
    create_row p =
        let obj = flushed p.object in
        build_audit_row obj "CREATE" p.context none (insert "id" (or_null obj.id) p.snap)

    unfoldable pub after_flush_postexec : ℕ → State → State
    after_flush_postexec id state = record {
      pending = put_pending id [] state.pending;
      rows = state.rows ++ map create_row (state.pending id);
    }

    -- A flush that fails never comes to the second listener.
    unfoldable pub flush : (succeeds : Bool) → Dict String → Session → State → State
    flush succeeds context s state =
        let before = before_flush context s state in
        if succeeds then after_flush_postexec s.id before else before

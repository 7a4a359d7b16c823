-- ===== src/Audit/Stale.antt =====
-- What a failed flush leaves behind, fastapi_admin_kit/audit/listener.py.
use fastapi_admin_kit.Base.{
  ℕ, String, Bool, true, false, List, [], ◌∷◌, ◌++◌, map, nat_eq, ◌≡◌, refl, arith,
}
use fastapi_admin_kit.Base.Dict.{Dict}
use fastapi_admin_kit.Audit.Listener.{
  Object, AuditRow, Pending, Session, State, new_items, update_rows, delete_rows, before_flush,
  create_row, after_flush_postexec, flush,
}

module _ (is_registered : String → Bool) (audit_table : String) (flushed : Object → Object) where
  abbrev pub changes : Dict String → Session → List AuditRow
  changes context s =
      update_rows is_registered audit_table context s.dirty
      ++ delete_rows is_registered audit_table context s.deleted

  -- After a flush that failed, the next flush of the session, if it has no new objects, logs the
  -- changes of both and the creation of the objects of the first one.
  pub flush-flush :
      (context context' : Dict String) (s t : Session) (p : Pending) (ps : List Pending)
      (state : State)
      → t.id ≡ s.id
      → new_items is_registered audit_table context s.added ≡ p ∷ ps
      → new_items is_registered audit_table context' t.added ≡ []
      → (flush is_registered audit_table flushed true context' t
          (flush is_registered audit_table flushed false context s state)).rows
        ≡ ((state.rows ++ changes context s) ++ changes context' t)
          ++ map (create_row is_registered audit_table flushed) (p ∷ ps)
  unfolding flush before_flush after_flush_postexec
  flush-flush context context' s t p ps state same items none_new =
      rw (none_new, items, same, (nat_self s.id)) refl
    where
      nat_self : (n : ℕ) → nat_eq n n ≡ true
      nat_self n = ground arith

-- ===== src/CoreStore/Maintenance.antt =====
-- InspectSession and ResetSession of internal/corestore/maintenance.go, the offline operations.
use harness_security_gateway.Prelude.{Bool, not, ◌&&◌, Option, none, some, ◌==◌, if◌then◌else◌}
use harness_security_gateway.Prelude.Bytes.{Bytes, beq}
use harness_security_gateway.Prelude.Results.{Result, ok, ◌>>◌, guard}
use harness_security_gateway.Prelude.Tables.{select_where, count_where, delete_where, order_by}
use harness_security_gateway.CoreStore.Types.{
  Error, session_scope_busy, storage, Run, Session, SessionKey, Db,
}
use harness_security_gateway.CoreStore.Validate.{validate_session_key, validate_session_ref, is_set}
use harness_security_gateway.CoreStore.Tables.{Tx, attempt, holds_scope, key_beq, find_session}
use harness_security_gateway.CoreStore.Dispatch.{queue_before, first_of_list}

pub record MaintenanceSessionStatus : Type 0 where
  pub session : Option Session
  pub nonterminal_run : Option Run

pub data SessionResetResult : Type 0 where
  reset not_found ref_mismatch : SessionResetResult

-- inspectMaintenanceSessionTx
unfoldable pub inspect_scope : SessionKey → Db → MaintenanceSessionStatus
inspect_scope key db = record {
  session = find_session key db.sessions;
  nonterminal_run = first_of_list (order_by queue_before (select_where (holds_scope key) db.runs));
}

unfoldable pub inspect_session : SessionKey → Db → Result Error MaintenanceSessionStatus
unfolding inspect_scope
inspect_session key db = do validate_session_key key; ok (inspect_scope key db)

abbrev pub is_pointer : SessionKey → Bytes → Session → Bool
is_pointer key ref s = key_beq s.key key && beq s.ref ref

unfoldable pub reset_found : SessionKey → Bytes → Db → Option Session → Tx SessionResetResult
reset_found key expected db none = (ok not_found, db)
reset_found key expected db (some session) =
    if beq session.ref expected
    then (attempt (guard (count_where (is_pointer key expected) db.sessions == 1) storage) db λ _.
        (ok reset, record db { sessions = delete_where (is_pointer key expected) db.sessions }))
    else (ok ref_mismatch, db)

-- ResetSession
unfoldable pub reset_session : SessionKey → Bytes → Db → Tx SessionResetResult
unfolding inspect_scope reset_found
reset_session key expected db =
    attempt (validate_session_key key >> validate_session_ref expected) db λ _.
      let status = inspect_scope key db in
      attempt (guard (not (is_set status.nonterminal_run)) session_scope_busy) db
        λ _. reset_found key expected db status.session

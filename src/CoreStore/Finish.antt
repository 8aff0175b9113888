-- ===== src/CoreStore/Finish.antt =====
-- FinishRun of internal/corestore/runs.go: the terminal result of a Run, the session that it leaves
-- and the reply, in one transaction.
pub mod Reply
pub mod Repeat
use harness_security_gateway.Prelude.{
  ℕ, Bool, false, not, ◌&&◌, Option, none, some, ◌==◌, if◌then◌else◌,
}
use harness_security_gateway.Prelude.Bytes.{Bytes, beq, opt_beq, coalesce}
use harness_security_gateway.Prelude.Results.{Result, ok, ◌>>=◌, ◌>>◌, guard}
use harness_security_gateway.Prelude.Tables.{update_where}
use harness_security_gateway.CoreStore.Types.{
  Error, conflict, not_found, dispatch_lost, start_unprepared, invalid_transition, AdmissionOptions,
  Run, RunState, completed, failed, cancelled, interrupted, RunFailureCode, FinishRunInput,
  TextDeliveryInput, Session, Db, is_dispatching, is_terminal, is_active,
}
use harness_security_gateway.CoreStore.Validate.{
  Checked, is_empty, is_set, now_millis, validate_finish, validate_delivery,
}
use harness_security_gateway.CoreStore.Tables.{
  Tx, attempt, lapsed, has_id, find_run, or_error, scope_of, put_session,
}
use harness_security_gateway.CoreStore.Outbox.{insert_delivery}

-- The position of a code among the constants, by which codes are compared.
abbrev pub failure_index : RunFailureCode → ℕ
failure_index RunFailureCode.target_unavailable = 0
failure_index RunFailureCode.revision_mismatch = 1
failure_index RunFailureCode.invalid_session = 2
failure_index RunFailureCode.policy_denied = 3
failure_index RunFailureCode.deadline_exceeded = 4
failure_index RunFailureCode.output_limit = 5
failure_index RunFailureCode.runner_failed = 6
failure_index RunFailureCode.protocol_violation = 7
failure_index RunFailureCode.runtime_interrupted = 8
failure_index RunFailureCode.internal = 9
failure_index RunFailureCode.unsupported = 10

-- run.FailureCode != nil && *run.FailureCode == code, where a code that is none is the empty string.
abbrev pub same_code : Option RunFailureCode → Option RunFailureCode → Bool
same_code none _ = false
same_code (some a) none = false
same_code (some a) (some b) = failure_index a == failure_index b

-- sameOptionalString
abbrev pub same_optional : Option Bytes → Bytes → Bool
same_optional none supplied = is_empty supplied
same_optional (some stored) supplied = not (is_empty supplied) && beq stored supplied

-- sameFinish, for a Run and an input of one state; other pairs of states differ.
abbrev pub same_finish_in : RunState → RunState → Run → FinishRunInput → Bool
same_finish_in completed completed run input =
    opt_beq run.output_text input.output_text
    && not (is_set run.failure_code)
    && same_optional run.result_session_ref input.result_session_ref
same_finish_in failed failed run input =
    not (is_set run.output_text) && same_code run.failure_code input.failure_code
same_finish_in interrupted interrupted run input =
    not (is_set run.output_text) && same_code run.failure_code input.failure_code
same_finish_in cancelled cancelled run input =
    not (is_set run.output_text) && not (is_set run.failure_code)
same_finish_in _ _ run input = false

abbrev pub same_finish : Run → FinishRunInput → Bool
same_finish run input = same_finish_in run.state input.state run input

-- The columns that the UPDATE writes: an empty string is NULL.
abbrev pub optional : Bytes → Option Bytes
optional s = if is_empty s then none else some s

abbrev pub finished_output : FinishRunInput → Option Bytes
finished_output input = elim input.state [ completed ↦ some input.output_text | _ ↦ none ]

abbrev pub finish : FinishRunInput → ℕ → Run → Run
finish input now r = record r {
  state = input.state;
  dispatch_expires_at = none;
  output_text = finished_output input;
  failure_code = input.failure_code;
  result_session_ref = optional input.result_session_ref;
  updated_at = now;
}

abbrev pub result_session : Run → FinishRunInput → ℕ → Session
result_session run input now = record {
  key = scope_of run;
  ref = input.result_session_ref;
  updated_at = now;
}

-- The Run's own change, and the session that a newly finished Run leaves.
unfoldable pub finish_run_row : Run → FinishRunInput → ℕ → Db → Result Error Db
finish_run_row run input now db =
    if is_terminal run.state then (do guard (same_finish run input) conflict; ok db) else (do
      guard (is_active run.state) invalid_transition
      guard (not (is_dispatching run.state && lapsed now run.dispatch_expires_at)) dispatch_lost
      ok (record db {
        runs = update_where (has_id input.run_id) (finish input now) db.runs;
        sessions =
            if is_empty input.result_session_ref
            then db.sessions
            else put_session (result_session run input now) db.sessions;
      }))

abbrev pub validate_reply : Option TextDeliveryInput → Checked
validate_reply none = ok tt
validate_reply (some reply) = validate_delivery reply

unfoldable pub insert_reply :
    AdmissionOptions → Run → Option TextDeliveryInput → ℕ → Db → Result Error Db
unfolding insert_delivery
insert_reply options run none now db = ok db
insert_reply options run (some reply) now db = do
  deliveries ← insert_delivery options run reply now db
  ok (record db { deliveries = deliveries })

-- FinishRun
unfoldable pub finish_run :
    AdmissionOptions → ℕ → FinishRunInput → Option TextDeliveryInput → Db → Tx (Unit {0})
unfolding finish_run_row insert_reply
finish_run options clock input reply db =
    attempt (validate_finish input >> now_millis clock) db λ now.
      attempt (or_error not_found (find_run input.run_id db.runs)) db λ run.
        attempt (guard (beq (coalesce run.dispatch_token) input.dispatch_token) dispatch_lost) db
          λ _. attempt (guard run.start_prepared start_unprepared) db λ _.
            attempt (validate_reply reply) db λ _.
              attempt (finish_run_row run input now db) db λ finished.
                attempt (insert_reply options run reply now finished) db λ done. (ok tt, done)

-- ===== src/SandboxStore/Staged.antt =====
-- StageTerminal and stagedTerminal of internal/sandboxstore/staged.go.
pub mod Reading
use harness_security_gateway.Prelude.{
  ℕ, Bool, true, false, not, ◌&&◌, ◌||◌, Option, none, some, leb, if◌then◌else◌,
}
use harness_security_gateway.Prelude.Bytes.{Bytes, opt_beq, coalesce}
use harness_security_gateway.Prelude.Results.{Result, ok, err, ◌>>=◌, ◌>>◌, guard, is_ok}
use harness_security_gateway.Prelude.Tables.{find_where, exists_where, insert_row}
use harness_security_gateway.ExecutionWire.{
  MediaType, RunEventType, FailureCode, RunEvent, validate_event,
}
use harness_security_gateway.SandboxStore.Types.{
  Error, conflict, illegal_transition, session_scope, invalid_argument, storage, SessionMapping,
  Run, StagedRow, Ledger,
}
use harness_security_gateway.SandboxStore.Validate.{as_argument}
use harness_security_gateway.SandboxStore.Tables.{
  or_error, staged_for, read_run, require_run_credential,
}
use harness_security_gateway.SandboxStore.Sessions.{has_ref}
use harness_security_gateway.SandboxStore.Equal.{same_event, same_mapping}
use harness_security_gateway.SandboxStore.Events.{is_ongoing, event_columns, validate_run_event}

pub record TerminalCandidate : Type 0 where
  pub event : RunEvent
  pub mapping : Option SessionMapping
  pub staged_at : ℕ

-- A NULL column reads as the empty string, which is no constant of the two enumerations.
abbrev pub or_media : Option MediaType → MediaType
or_media none = MediaType.unsupported
or_media (some m) = m

abbrev pub or_code : Option FailureCode → FailureCode
or_code none = FailureCode.unsupported
or_code (some c) = c

abbrev pub mapping_of : Option Bytes → Option Bytes → Option SessionMapping
mapping_of none token = none
mapping_of (some ref) token = some (record { ref = ref; vendor_token = coalesce token })

abbrev pub bare_event : StagedRow → RunEvent
bare_event s = record {
  run_id = s.run_id;
  seq = s.seq;
  event_type = s.event_type;
  progress = none;
  result = none;
  failure = none;
}

abbrev pub staged_failure : StagedRow → RunEvent
staged_failure s = record (bare_event s) {
  failure = some (record { code = or_code s.failure_code; message = coalesce s.message });
}

abbrev pub staged_result : StagedRow → RunEvent
staged_result s = record (bare_event s) {
  result = some (record {
    output = record { media_type = or_media s.output_media_type; text = coalesce s.message };
    session_ref = s.result_session_ref;
  });
}

-- The switch of stagedTerminal.
unfoldable pub candidate_of : StagedRow → RunEventType → Result Error TerminalCandidate
candidate_of s RunEventType.completed = ok (record {
  event = staged_result s;
  mapping = mapping_of s.result_session_ref s.vendor_token;
  staged_at = s.staged_at;
})
candidate_of s RunEventType.failed =
    ok (record { event = staged_failure s; mapping = none; staged_at = s.staged_at })
candidate_of s RunEventType.interrupted =
    ok (record { event = staged_failure s; mapping = none; staged_at = s.staged_at })
candidate_of s RunEventType.cancelled =
    ok (record { event = bare_event s; mapping = none; staged_at = s.staged_at })
candidate_of s _ = err illegal_transition

unfoldable pub read_candidate : StagedRow → Result Error TerminalCandidate
unfolding candidate_of
read_candidate s = do
  candidate ← candidate_of s s.event_type
  guard (is_ok (validate_event candidate.event)) storage
  ok candidate

-- stagedTerminal
unfoldable pub staged_terminal : Bytes → Ledger → Result Error TerminalCandidate
unfolding read_candidate
staged_terminal run_id db = do
  s ← or_error storage (find_where (staged_for run_id) db.staged)
  read_candidate s

abbrev pub token_of : Option SessionMapping → Option Bytes
token_of none = none
token_of (some mapping) = some mapping.vendor_token

unfoldable pub staged_row : RunEvent → Option SessionMapping → ℕ → StagedRow
unfolding event_columns
staged_row event mapping now =
    let c = event_columns event in
    record {
      run_id = event.run_id;
      seq = event.seq;
      event_type = event.event_type;
      message = c.message;
      output_media_type = c.output_media_type;
      result_session_ref = c.result_session_ref;
      vendor_token = token_of mapping;
      failure_code = c.failure_code;
      staged_at = now;
    }

-- Whether the reference of a successor session is taken, or staged already.
abbrev pub reference_used : Option SessionMapping → Ledger → Bool
reference_used none db = false
reference_used (some mapping) db =
    exists_where (has_ref mapping.ref) db.sessions
    || exists_where (λ s. opt_beq s.result_session_ref mapping.ref) db.staged

abbrev pub insert_staged : StagedRow → Ledger → Ledger
insert_staged s db = record db { staged = insert_row s db.staged }

-- A staged Run answers an exact repetition, and refuses any other outcome.
unfoldable pub stage_checked :
    Run → RunEvent → Option SessionMapping → ℕ → Ledger → Result Error (Run × Ledger)
unfolding staged_terminal staged_row
stage_checked run event mapping now db =
    if run.terminal_pending
    then (do
      candidate ← staged_terminal event.run_id db
      guard (same_event candidate.event event && same_mapping candidate.mapping mapping) conflict
      ok (run, db))
    else (do
      next ← validate_run_event run.row event mapping
      guard (not (reference_used mapping db)) session_scope
      guard (leb run.row.created_at now) illegal_transition
      ok (record run { terminal_pending = true }, insert_staged (staged_row event mapping now) db))

-- StageTerminal; an event of no known type is refused by its validation.
unfoldable pub stage_terminal :
    RunEvent → Option SessionMapping → ℕ → Ledger → Result Error (Run × Ledger)
unfolding stage_checked
stage_terminal event mapping now db = do
  as_argument (validate_event event)
  guard (not (is_ongoing event.event_type)) invalid_argument
  run ← read_run event.run_id db
  require_run_credential run true db
  stage_checked run event mapping now db

-- ===== src/SandboxStore/Events.antt =====
-- AppendEvent, validateRunEvent, appendEventTx, transition and ReconcileInterrupted of
-- internal/sandboxstore/events.go.
use harness_security_gateway.Prelude.{
  ℕ, ◌+◌, Bool, true, false, not, ◌&&◌, ◌||◌, Option, none, some, leb, ◌==◌, if◌then◌else◌,
}
use harness_security_gateway.Prelude.Bytes.{Bytes, beq}
use harness_security_gateway.Prelude.Results.{Result, ok, err, ◌>>=◌, ◌>>◌, guard}
use harness_security_gateway.Prelude.Tables.{insert_row, delete_where}
use harness_security_gateway.CoreStore.Validate.{is_set}
use harness_security_gateway.ExecutionWire.{
  MediaType, RunState, accepted, running, cancelling, RunEventType, started, progress, ProgressKind,
  FailureCode, runtime_interrupted, TextContent, RunProgress, RunResult, RunFailure, RunEvent,
  validate_event, max_events,
}
use harness_security_gateway.SandboxStore.Types.{
  Error, illegal_transition, event_sequence, invalid_argument, SessionMode, new_only, opaque_resume,
  SessionMapping, RunRow, Run, EventRow, Ledger,
}
use harness_security_gateway.SandboxStore.Validate.{
  Checked, as_argument, validate_run_id, validate_session_mapping,
}
use harness_security_gateway.SandboxStore.Tables.{is_terminal, lock_of, read_run, set_run}
use harness_security_gateway.SandboxStore.Sessions.{bind_session}

-- transition, for a state that is not terminal.
abbrev next_state : RunState → RunEventType → Result Error RunState
next_state accepted started = ok running
next_state running progress = ok running
next_state cancelling progress = ok cancelling
next_state running RunEventType.completed = ok RunState.completed
next_state cancelling RunEventType.completed = ok RunState.completed
next_state accepted RunEventType.failed = ok RunState.failed
next_state running RunEventType.failed = ok RunState.failed
next_state cancelling RunEventType.failed = ok RunState.failed
next_state accepted RunEventType.cancelled = ok RunState.cancelled
next_state running RunEventType.cancelled = ok RunState.cancelled
next_state cancelling RunEventType.cancelled = ok RunState.cancelled
next_state accepted RunEventType.interrupted = ok RunState.interrupted
next_state running RunEventType.interrupted = ok RunState.interrupted
next_state cancelling RunEventType.interrupted = ok RunState.interrupted
next_state _ _ = err illegal_transition

unfoldable pub transition : RunState → RunEventType → Result Error RunState
transition state event_type =
    if is_terminal state then err illegal_transition else next_state state event_type

abbrev pub is_completed : RunEventType → Bool
is_completed RunEventType.completed = true
is_completed _ = false

-- started and progress.
abbrev pub is_ongoing : RunEventType → Bool
is_ongoing started = true
is_ongoing progress = true
is_ongoing _ = false

abbrev is_interrupted : RunState → Bool
is_interrupted RunState.interrupted = true
is_interrupted _ = false

abbrev pub result_ref : Option RunResult → Option Bytes
result_ref none = none
result_ref (some r) = r.session_ref

abbrev pub same_bool : Bool → Bool → Bool
same_bool true b = b
same_bool false b = not b

-- What a Run of the mode may publish on completion.
abbrev mode_allows : Option SessionMode → Bool → Bool
mode_allows (some new_only) has_ref = not has_ref
mode_allows (some opaque_resume) has_ref = has_ref
mode_allows _ has_ref = false

abbrev mapping_matches : Option Bytes → Option SessionMapping → Checked
mapping_matches ref none = ok tt
mapping_matches none (some mapping) = err invalid_argument
mapping_matches (some ref) (some mapping) = do
  guard (beq mapping.ref ref) invalid_argument
  validate_session_mapping mapping

-- The checks of a completion.
unfoldable pub validate_completion : RunRow → Option Bytes → Option SessionMapping → Checked
validate_completion row ref mapping = do
  guard (same_bool (is_set ref) (is_set mapping)) invalid_argument
  guard (mode_allows row.session_mode (is_set ref)) invalid_argument
  mapping_matches ref mapping

-- The checks of validateRunEvent: a mapping comes with a completion only, the last sequence number is
-- kept for a terminal event, and a pending intent may only be interrupted.
abbrev pub mapping_placed : RunEvent → Option SessionMapping → Bool
mapping_placed event mapping = is_completed event.event_type || not (is_set mapping)

abbrev pub leaves_room : RunEvent → Bool
leaves_room event = not (is_ongoing event.event_type && leb max_events event.seq)

abbrev pub intent_allows : RunRow → RunState → Bool
intent_allows row next =
    not (row.runtime_intent_pending && is_terminal next && not (is_interrupted next))

abbrev pub validate_result : RunRow → RunEvent → Option SessionMapping → Checked
validate_result row event mapping =
    if is_completed event.event_type
    then validate_completion row (result_ref event.result) mapping
    else ok tt

-- validateRunEvent
unfoldable pub validate_run_event :
    RunRow → RunEvent → Option SessionMapping → Result Error RunState
unfolding transition validate_completion
validate_run_event row event mapping = do
  as_argument (validate_event event)
  guard (event.seq == row.last_event_seq + 1) event_sequence
  guard (mapping_placed event mapping) invalid_argument
  guard (leaves_room event) event_sequence
  next ← transition row.state event.event_type
  guard (intent_allows row next) illegal_transition
  validate_result row event mapping
  ok next

-- eventColumns: the columns that run_events and staged_terminals share.
pub record EventColumns : Type 0 where
  pub progress_kind : Option ProgressKind
  pub message : Option Bytes
  pub output_media_type : Option MediaType
  pub result_session_ref : Option Bytes
  pub failure_code : Option FailureCode
  pub output : Option TextContent
  pub failure : Option RunFailure

abbrev no_columns : EventColumns
no_columns = record {
  progress_kind = none;
  message = none;
  output_media_type = none;
  result_session_ref = none;
  failure_code = none;
  output = none;
  failure = none;
}

abbrev failure_columns : Option RunFailure → EventColumns
failure_columns none = no_columns
failure_columns (some f) = record no_columns {
  message = some f.message;
  failure_code = some f.code;
  failure = some f;
}

-- The payload of a valid event is there where its type asks for it.
unfoldable pub columns_of :
    RunEventType → Option RunProgress → Option RunResult → Option RunFailure → EventColumns
columns_of progress (some p) result failure = record no_columns {
  progress_kind = some p.kind;
  message = some p.text;
}
columns_of RunEventType.completed p (some r) failure = record no_columns {
  message = some r.output.text;
  output_media_type = some r.output.media_type;
  result_session_ref = r.session_ref;
  output = some r.output;
}
columns_of RunEventType.failed p result failure = failure_columns failure
columns_of RunEventType.interrupted p result failure = failure_columns failure
columns_of _ _ _ _ = no_columns

unfoldable pub event_columns : RunEvent → EventColumns
unfolding columns_of
event_columns e = columns_of e.event_type e.progress e.result e.failure

unfoldable pub event_row : RunEvent → EventRow
unfolding event_columns
event_row e =
    let c = event_columns e in
    record {
      run_id = e.run_id;
      seq = e.seq;
      event_type = e.event_type;
      progress_kind = c.progress_kind;
      message = c.message;
      output_media_type = c.output_media_type;
      result_session_ref = c.result_session_ref;
      failure_code = c.failure_code;
    }

-- The UPDATE of the Run that an event advances.
unfoldable pub advance : RunState → RunEvent → ℕ → RunRow → RunRow
unfolding event_columns
advance next e now r = record r {
  state = next;
  last_event_seq = e.seq;
  output = (event_columns e).output;
  result_session_ref = (event_columns e).result_session_ref;
  failure = (event_columns e).failure;
  updated_at = now;
  terminal_at = if is_terminal next then some now else none;
}

abbrev pub bind_mapping : RunRow → Option SessionMapping → ℕ → Ledger → Result Error Ledger
bind_mapping row none now db = ok db
bind_mapping row (some mapping) now db = bind_session row mapping now db

abbrev pub record_event : RunState → RunEvent → ℕ → Ledger → Ledger
record_event next event now db =
    set_run event.run_id (advance next event now)
      (record db { events = insert_row (event_row event) db.events })

-- appendEventTx
unfoldable pub append_event_tx :
    RunRow → RunEvent → Option SessionMapping → ℕ → Ledger → Result Error (Run × Ledger)
unfolding validate_run_event advance event_row
append_event_tx row event mapping now db = do
  next ← validate_run_event row event mapping
  bound ← bind_mapping row mapping now db
  run ← read_run event.run_id (record_event next event now bound)
  ok (run, record_event next event now bound)

-- AppendEvent
unfoldable pub append_event :
    RunEvent → Option SessionMapping → ℕ → Ledger → Result Error (Run × Ledger)
unfolding append_event_tx
append_event event mapping now db = do
  as_argument (validate_event event)
  run ← read_run event.run_id db
  guard
      (not (run.terminal_pending || (run.credential_required && not (is_ongoing event.event_type))))
      illegal_transition
  append_event_tx run.row event mapping now db

abbrev pub interruption : Bytes → ℕ → Bytes → RunEvent
interruption run_id seq message = record {
  run_id = run_id;
  seq = seq;
  event_type = RunEventType.interrupted;
  progress = none;
  result = none;
  failure = some (record { code = runtime_interrupted; message = message });
}

-- The UPDATEs of ReconcileInterrupted.
abbrev pub interrupt : ℕ → Bytes → ℕ → RunRow → RunRow
interrupt seq message now r = record r {
  state = RunState.interrupted;
  last_event_seq = seq;
  failure = some (record { code = runtime_interrupted; message = message });
  runtime_ref = none;
  runtime_intent_pending = false;
  runtime_intent_boot_id = none;
  updated_at = now;
  terminal_at = some now;
}

abbrev pub clear_runtime : ℕ → RunRow → RunRow
clear_runtime now r = record r {
  runtime_ref = none;
  runtime_intent_pending = false;
  runtime_intent_boot_id = none;
  updated_at = now;
}

-- The ledger with the invented event.
unfoldable pub interrupted_ledger : Bytes → RunRow → Bytes → ℕ → Ledger → Ledger
unfolding event_row
interrupted_ledger run_id row message now db =
    let seq = row.last_event_seq + 1 in
    set_run run_id (interrupt seq message now)
      (record db { events = insert_row (event_row (interruption run_id seq message)) db.events })

-- The Run's new state, by whether it was terminal already.
unfoldable pub reconcile : Bytes → RunRow → Bytes → ℕ → Ledger → Result Error Ledger
unfolding interrupted_ledger
reconcile run_id row message now db =
    if is_terminal row.state then ok (set_run run_id (clear_runtime now) db) else (do
      as_argument (validate_event (interruption run_id (row.last_event_seq + 1) message))
      ok (interrupted_ledger run_id row message now db))

abbrev pub release_lock : Bytes → Ledger → Ledger
release_lock run_id db = record db {
  workspace_locks = delete_where (lock_of run_id) db.workspace_locks;
}

-- ReconcileInterrupted
unfoldable pub reconcile_interrupted : Bytes → Bytes → ℕ → Ledger → Result Error (Run × Ledger)
unfolding reconcile
reconcile_interrupted run_id message now db = do
  validate_run_id run_id
  run ← read_run run_id db
  guard (not (is_set run.row.runtime_ref || run.row.runtime_intent_pending || run.terminal_pending))
      illegal_transition
  reconciled ← reconcile run_id run.row message now db
  final ← read_run run_id (release_lock run_id reconciled)
  ok (final, release_lock run_id reconciled)

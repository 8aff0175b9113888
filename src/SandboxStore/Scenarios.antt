-- ===== src/SandboxStore/Scenarios.antt =====
-- One Run from its registration to its published failure.
use harness_security_gateway.Prelude.{
  ◌≡◌, ◌≤◌, ◌<◌, refl, arith, true, false, Option, none, some, List, [], ◌∷◌,
}
use harness_security_gateway.Prelude.Bytes.{Bytes, codes, beq}
use harness_security_gateway.Prelude.Results.{ok}
use harness_security_gateway.Prelude.Tables.{
  find_where, exists_where, update_where, insert_row, delete_where,
}
use harness_security_gateway.Text.{
  valid_utf8, runes_of, any_of, all_of, is_space, is_blank, is_lower_hex, is_ascii_alphanumeric,
}
use harness_security_gateway.SessionAuth.{validate_digest}
use harness_security_gateway.ExecutionWire as wire
use harness_security_gateway.ExecutionWire.{
  text_plain, running, RunState, RunEventType, started, runner_failed, StartRunRequest, RunEvent,
  GetRunResponse, validate_start_run, validate_name, validate_opaque_ref, validate_input,
  validate_event, validate_payload, validate_failure,
}
use harness_security_gateway.SandboxStore.Types.{
  new_only, stateless, SessionPolicy, RunRow, Run, Ledger,
}
use harness_security_gateway.SandboxStore.Validate.{
  validate_run_id, validate_logical_id, validate_runtime_ref, validate_boot_id, boot_id_from,
  validate_session_policy,
}
use harness_security_gateway.SandboxStore.Tables.{
  staged_for, has_run_id, scan_run, read_run, acquire_run_credential, require_run_credential,
  is_terminal,
}
use harness_security_gateway.SandboxStore.Register.{
  new_run, require_target_revision, turn_number, lock_workspace, consume_session, admit_start,
  register_start,
}
use harness_security_gateway.SandboxStore.Events.{
  transition, validate_run_event, columns_of, event_columns, event_row, advance, append_event_tx,
  append_event,
}
use harness_security_gateway.SandboxStore.Runtime.{
  begin_runtime_intent, set_runtime_ref, confirm_runtime_stopped, publish, retire,
}
use harness_security_gateway.SandboxStore.Staged.{
  insert_staged, stage_terminal, stage_checked, staged_row, staged_terminal, read_candidate,
  candidate_of,
}
use harness_security_gateway.SandboxStore.Snapshot.{get_snapshot, stored_event}
use harness_security_gateway.SandboxStore.History.{stored_event-row}
use harness_security_gateway.SandboxStore.Register.Repeat.{register_start-repeats}
use harness_security_gateway.SandboxStore.Trace.Final.{get_snapshot-final}
use harness_security_gateway.SandboxStore.Trace.Published.{IsPublished, stage_terminal-publishes}
use harness_security_gateway.SandboxStore.Invariant.{row_of}
use harness_security_gateway.SandboxStore.Trace.{
  Op, Authorities, authorize, register, begin_intent, set_runtime, cancel, append, stage, confirm,
  reconcile, step, run_ops, empty_ledger,
}
use harness_security_gateway.SandboxStore.Trace.Snapshots.{
  IsSnapshot, reachable-IsSnapshot, reachable-has_room,
}

abbrev hex : Bytes
hex = codes "0123456789abcdef0123456789abcdef0123456789abcdef0123456789abcdef"

-- Functions in place of the fingerprint and of SHA-256.
abbrev fingerprint_of : StartRunRequest → Option Bytes
fingerprint_of request = some hex

abbrev digest : Bytes → Bytes
digest s = hex

abbrev request : StartRunRequest
request = record {
  run_id = codes "run_1";
  target_id = codes "t1";
  expected_revision = codes "r1";
  session_scope_digest = hex;
  session_ref = none;
  input = record { media_type = text_plain; text = codes "hello" };
  deadline = some 9100000;
}

abbrev policy : SessionPolicy
policy = record { mode = new_only; max_age_seconds = 0; max_turns = 0 }

abbrev authorities : Authorities
authorities = record {
  target_revisions =
      record {
        target_id = codes "t1";
        revision = codes "r1";
        runner_state_kind = stateless;
        bound = false;
      }
      ∷ [];
  runner_state_owners = [];
  target_credentials = [];
  credential_generations = [];
  credential_revocations = [];
}

abbrev started_event : RunEvent
started_event = record {
  run_id = codes "run_1";
  seq = 1;
  event_type = started;
  progress = none;
  result = none;
  failure = none;
}

abbrev ops : List Op
ops =
    authorize authorities
    ∷ register request (codes "r1") (codes "w1") true policy 9000000
    ∷ begin_intent (codes "run_1") (codes "01234567-89ab-cdef-0123-456789abcdef") 9000100
    ∷ set_runtime (codes "run_1") (codes "c1") 9000200
    ∷ append started_event none 9000300
    ∷ []

-- The Run's row after these operations.
abbrev row : RunRow
row = record (new_run request hex hex (codes "r1") (codes "w1") true policy 0 9000000) {
  state = running;
  last_event_seq = 1;
  runtime_ref = some (codes "c1");
  updated_at = 9000300;
}

at : row_of (codes "run_1") (run_ops fingerprint_of digest ops empty_ledger).runs ≡ some row
unfolding run_ops step register_start validate_start_run wire.validate_run_id validate_name
    validate_opaque_ref validate_digest validate_input wire.validate_text validate_run_id
    validate_logical_id validate_runtime_ref validate_boot_id boot_id_from validate_session_policy
    valid_utf8 runes_of any_of all_of is_space is_blank is_lower_hex is_ascii_alphanumeric read_run
    scan_run has_run_id admit_start require_target_revision turn_number lock_workspace
    consume_session acquire_run_credential require_run_credential begin_runtime_intent
    set_runtime_ref append_event append_event_tx validate_run_event transition validate_event
    validate_payload advance event_row event_columns columns_of find_where exists_where update_where
    insert_row beq
at = refl

reachable-IsSnapshot_example :
    IsSnapshot (run_ops fingerprint_of digest ops empty_ledger) (codes "run_1") row
reachable-IsSnapshot_example = reachable-IsSnapshot fingerprint_of digest ops (codes "run_1") row at

reachable-has_room_example :
    (row.last_event_seq ≤ 512) × (is_terminal row.state ≡ false → row.last_event_seq < 512)
reachable-has_room_example = reachable-has_room fingerprint_of digest ops (codes "run_1") row at

abbrev failed_event : RunEvent
failed_event = record started_event {
  seq = 2;
  event_type = RunEventType.failed;
  failure = some (record { code = runner_failed; message = codes "no answer" });
}

-- The failure is staged, and published once the runner is known to have stopped.
abbrev ended_ops : List Op
ended_ops =
    authorize authorities
    ∷ register request (codes "r1") (codes "w1") true policy 9000000
    ∷ append started_event none 9000300
    ∷ stage failed_event none 9000400
    ∷ confirm (codes "run_1") (λ n. 9000500)
    ∷ []

abbrev ended_row : RunRow
ended_row = record (new_run request hex hex (codes "r1") (codes "w1") true policy 0 9000000) {
  state = RunState.failed;
  last_event_seq = 2;
  failure = some (record { code = runner_failed; message = codes "no answer" });
  updated_at = 9000500;
  terminal_at = some 9000500;
}

ended_at :
    row_of (codes "run_1") (run_ops fingerprint_of digest ended_ops empty_ledger).runs
    ≡ some ended_row
unfolding run_ops step register_start validate_start_run wire.validate_run_id validate_name
    validate_opaque_ref validate_digest validate_input wire.validate_text validate_run_id
    validate_logical_id validate_failure validate_session_policy valid_utf8 runes_of any_of all_of
    is_space is_blank is_lower_hex is_ascii_alphanumeric read_run scan_run has_run_id admit_start
    require_target_revision turn_number lock_workspace consume_session acquire_run_credential
    require_run_credential stage_terminal stage_checked staged_row confirm_runtime_stopped publish
    staged_terminal read_candidate candidate_of retire append_event append_event_tx
    validate_run_event transition validate_event validate_payload advance event_row event_columns
    columns_of find_where exists_where update_where insert_row beq delete_where
ended_at = refl

get_snapshot-final_example :
    (response : GetRunResponse) × (get_snapshot
        (codes "run_1")
        (run_ops fingerprint_of digest ended_ops empty_ledger)
      ≡ ok response)
    × (get_snapshot (codes "run_1") (
          run_ops fingerprint_of digest
            (reconcile (codes "run_1") (codes "lost") 9000600 ∷ [])
            (run_ops fingerprint_of digest ended_ops empty_ledger))
        ≡ ok response)
get_snapshot-final_example =
    get_snapshot-final fingerprint_of digest ended_ops
      (reconcile (codes "run_1") (codes "lost") 9000600 ∷ []) (codes "run_1") ended_row ended_at
      refl

failed_valid : validate_event failed_event ≡ ok tt
unfolding validate_event wire.validate_run_id validate_payload validate_failure wire.validate_text
    valid_utf8 runes_of any_of all_of is_space is_blank is_ascii_alphanumeric
failed_valid = refl

stored_event-row_example : stored_event (event_row failed_event) ≡ failed_event
stored_event-row_example = stored_event-row failed_event failed_valid

-- The Run while its runner is at work.
abbrev running_ops : List Op
running_ops =
    authorize authorities
    ∷ register request (codes "r1") (codes "w1") true policy 9000000
    ∷ append started_event none 9000300
    ∷ []

abbrev running_run : Run
running_run = record {
  row = record (new_run request hex hex (codes "r1") (codes "w1") true policy 0 9000000) {
    state = running;
    last_event_seq = 1;
    updated_at = 9000300;
  };
  workspace_lock_held = true;
  terminal_pending = true;
  credential_required = false;
  credential_lease_held = false;
}

abbrev running_ledger : Ledger
running_ledger = run_ops fingerprint_of digest running_ops empty_ledger

failure_staged :
    stage_terminal failed_event none 9000400 running_ledger
    ≡ ok (running_run, insert_staged (staged_row failed_event none 9000400) running_ledger)
unfolding run_ops step register_start validate_start_run wire.validate_run_id validate_name
    validate_opaque_ref validate_digest validate_input wire.validate_text validate_run_id
    validate_logical_id validate_failure validate_session_policy valid_utf8 runes_of any_of all_of
    is_space is_blank is_lower_hex is_ascii_alphanumeric read_run scan_run has_run_id admit_start
    require_target_revision turn_number lock_workspace consume_session acquire_run_credential
    require_run_credential stage_terminal stage_checked staged_row append_event append_event_tx
    validate_run_event transition validate_event validate_payload advance event_row event_columns
    columns_of find_where exists_where update_where insert_row beq delete_where
failure_staged = refl

none_staged :
    exists_where
      (staged_for (codes "run_1"))
      (run_ops fingerprint_of digest running_ops empty_ledger).staged
    ≡ false
unfolding run_ops step register_start validate_start_run wire.validate_run_id validate_name
    validate_opaque_ref validate_digest validate_input wire.validate_text validate_run_id
    validate_logical_id validate_session_policy valid_utf8 runes_of any_of all_of is_space is_blank
    is_lower_hex is_ascii_alphanumeric read_run scan_run has_run_id admit_start
    require_target_revision turn_number lock_workspace consume_session acquire_run_credential
    append_event append_event_tx validate_run_event transition validate_event validate_payload
    advance event_row event_columns columns_of find_where exists_where update_where insert_row beq
none_staged = refl

-- The outcome once more as an event, and a cancellation, after it was staged.
abbrev asked_ops : List Op
asked_ops = append failed_event none 9000450 ∷ cancel (codes "run_1") 9000460 ∷ []

stage_terminal-publishes_example :
    IsPublished failed_event
      (λ n. 9000500)
      running_ledger
      (run_ops fingerprint_of digest asked_ops
        (insert_staged (staged_row failed_event none 9000400) running_ledger))
stage_terminal-publishes_example =
    stage_terminal-publishes fingerprint_of digest running_ops asked_ops failed_event 9000400
      (λ n. 9000500) running_run
      (insert_staged (staged_row failed_event none 9000400) running_ledger) failure_staged
      none_staged refl (refl, (refl, tt)) (omega arith)

-- The ledger that only knows the target.
abbrev known_ledger : Ledger
known_ledger = record empty_ledger { target_revisions = authorities.target_revisions }

abbrev registered_run : Run
registered_run = record {
  row = new_run request hex hex (codes "r1") (codes "w1") true policy 0 9000000;
  workspace_lock_held = true;
  terminal_pending = false;
  credential_required = false;
  credential_lease_held = false;
}

abbrev registered_ledger : Ledger
registered_ledger = record known_ledger {
  runs = registered_run.row ∷ [];
  workspace_locks = record { workspace_id = codes "w1"; run_id = codes "run_1" } ∷ [];
}

registered :
    register_start fingerprint_of digest request
      (codes "r1")
      (codes "w1")
      true
      policy
      9000000
      known_ledger
    ≡ ok ((registered_run, true), registered_ledger)
unfolding register_start validate_start_run wire.validate_run_id validate_name validate_opaque_ref
    validate_digest validate_input wire.validate_text validate_run_id validate_logical_id
    validate_session_policy valid_utf8 runes_of any_of all_of is_space is_blank is_lower_hex
    is_ascii_alphanumeric read_run scan_run has_run_id admit_start require_target_revision
    turn_number lock_workspace consume_session acquire_run_credential find_where exists_where
    update_where insert_row beq
registered = refl

register_start-repeats_example :
    register_start fingerprint_of digest request
      (codes "r1")
      (codes "w1")
      true
      policy
      9000700
      registered_ledger
    ≡ ok ((registered_run, false), registered_ledger)
register_start-repeats_example =
    register_start-repeats fingerprint_of digest request (codes "r1") (codes "w1") true policy
      9000000 known_ledger registered_run true registered_ledger 9000700 registered

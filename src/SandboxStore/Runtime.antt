-- ===== src/SandboxStore/Runtime.antt =====
-- The runtime authority of a Run in internal/sandboxstore/runs.go: the intent to create a container,
-- its reference, cancellation, and the proof that the runtime has stopped.
use harness_security_gateway.Prelude.{
  ℕ, Bool, true, false, not, ◌&&◌, ◌||◌, none, some, List, [], ◌∷◌, ltb, leb, ◌==◌, if◌then◌else◌,
}
use harness_security_gateway.Prelude.Bytes.{Bytes, opt_beq, bytes_lt, coalesce}
use harness_security_gateway.Prelude.Results.{Result, ok, err, ◌>>=◌, ◌>>◌, guard}
use harness_security_gateway.Prelude.Tables.{
  select_where, exists_where, update_where, delete_where, order_by,
}
use harness_security_gateway.CoreStore.Validate.{is_empty, is_set}
use harness_security_gateway.ExecutionWire.{RunState, accepted, running, cancelling, is_accepted}
use harness_security_gateway.SandboxStore.Types.{
  Error, conflict, illegal_transition, unsafe_legacy_session_state, RunRow, Run, Ledger,
}
use harness_security_gateway.SandboxStore.Validate.{
  validate_run_id, validate_boot_id, validate_runtime_ref,
}
use harness_security_gateway.SandboxStore.Tables.{
  is_active, is_terminal, has_run_id, staged_for, lock_of, occupied_by, scan_run, read_run, set_run,
  require_run_credential,
}
use harness_security_gateway.SandboxStore.Events.{append_event_tx}
use harness_security_gateway.SandboxStore.Staged.{staged_terminal}

-- The WHERE of BeginRuntimeIntent, on the Run that is read first.
abbrev pub intent_free : Run → Bool
intent_free run =
    not run.row.runtime_intent_pending
    && not (is_set run.row.runtime_ref)
    && is_accepted run.row.state
    && not run.terminal_pending

abbrev pub intend : Bytes → ℕ → RunRow → RunRow
intend boot_id now r = record r {
  runtime_intent_pending = true;
  runtime_intent_boot_id = some boot_id;
  updated_at = now;
}

-- The switch of BeginRuntimeIntent where the update matched no row.
abbrev pub intent_refused : Run → Bytes → Result Error (Unit {0})
intent_refused run boot_id =
    if is_terminal run.row.state || run.terminal_pending || is_set run.row.runtime_ref
    then err illegal_transition
    else if run.row.runtime_intent_pending && opt_beq run.row.runtime_intent_boot_id boot_id
    then ok tt
    else if run.row.runtime_intent_pending
    then err conflict
    else if not (is_accepted run.row.state)
    then err illegal_transition
    else err conflict

-- BeginRuntimeIntent; the answer says whether the intent is new.
unfoldable pub begin_runtime_intent :
    Bytes → Bytes → ℕ → Ledger → Result Error ((Run × Bool) × Ledger)
begin_runtime_intent run_id boot_id now db = do
  validate_run_id run_id
  validate_boot_id boot_id
  prior ← read_run run_id db
  require_run_credential prior false db
  if intent_free prior
      then (do
        run ← read_run run_id (set_run run_id (intend boot_id now) db)
        ok ((run, true), set_run run_id (intend boot_id now) db))
      else (do intent_refused prior boot_id; ok ((prior, false), db))

abbrev pub clear_intent : ℕ → RunRow → RunRow
clear_intent now r = record r {
  runtime_intent_pending = false;
  runtime_intent_boot_id = none;
  updated_at = now;
}

-- WHERE run_id = ? AND runtime_intent_pending = 1 AND runtime_ref IS NULL
abbrev pub clearable : Bytes → RunRow → Bool
clearable run_id r = has_run_id run_id r && (r.runtime_intent_pending && not (is_set r.runtime_ref))

abbrev pub cleared : Bytes → ℕ → Ledger → Ledger
cleared run_id now db = record db {
  runs = update_where (clearable run_id) (clear_intent now) db.runs;
}

-- ClearRuntimeIntent. Whether the update matched is whether a row was clearable.
unfoldable pub clear_runtime_intent : Bytes → ℕ → Ledger → Result Error (Run × Ledger)
clear_runtime_intent run_id now db = do
  validate_run_id run_id
  run ← read_run run_id (cleared run_id now db)
  guard (exists_where (clearable run_id) db.runs || not (is_set run.row.runtime_ref))
      illegal_transition
  guard (not run.row.runtime_intent_pending) conflict
  ok (run, cleared run_id now db)

abbrev pub bind_runtime : Bytes → ℕ → RunRow → RunRow
bind_runtime runtime_ref now r = record r {
  runtime_ref = some runtime_ref;
  runtime_intent_pending = false;
  runtime_intent_boot_id = none;
  updated_at = now;
}

-- Another Run with the reference, which the unique index refuses.
abbrev pub owned_by_other : Bytes → Bytes → RunRow → Bool
owned_by_other run_id runtime_ref r = not (has_run_id run_id r) && opt_beq r.runtime_ref runtime_ref

-- The WHERE of SetRuntimeRef.
abbrev pub bindable : Run → Bytes → Bool
bindable run runtime_ref =
    is_active run.row.state
    && not run.terminal_pending
    && ((not (is_set run.row.runtime_ref) && run.row.runtime_intent_pending)
        || (opt_beq run.row.runtime_ref runtime_ref && not run.row.runtime_intent_pending))

-- The errors of SetRuntimeRef where the update matched no row.
abbrev pub binding_refused : Run → Bytes → Bool → Error
binding_refused run runtime_ref taken =
    if is_terminal run.row.state
    then illegal_transition
    else if is_set run.row.runtime_ref && not (opt_beq run.row.runtime_ref runtime_ref)
    then conflict
    else if taken
    then conflict
    else illegal_transition

-- SetRuntimeRef
unfoldable pub set_runtime_ref : Bytes → Bytes → ℕ → Ledger → Result Error (Run × Ledger)
set_runtime_ref run_id runtime_ref now db =
    let taken = exists_where (owned_by_other run_id runtime_ref) db.runs in
    do
      validate_run_id run_id
      validate_runtime_ref runtime_ref
      prior ← read_run run_id db
      require_run_credential prior true db
      guard (bindable prior runtime_ref && not taken) (binding_refused prior runtime_ref taken)
      run ← read_run run_id (set_run run_id (bind_runtime runtime_ref now) db)
      ok (run, set_run run_id (bind_runtime runtime_ref now) db)

abbrev pub cancel_run : ℕ → RunRow → RunRow
cancel_run now r = record r { state = cancelling; updated_at = now }

-- The switch of MarkCancelling.
abbrev pub cancelled_ledger : RunState → Bytes → ℕ → Ledger → Result Error Ledger
cancelled_ledger cancelling run_id now db = ok db
cancelled_ledger accepted run_id now db = ok (set_run run_id (cancel_run now) db)
cancelled_ledger running run_id now db = ok (set_run run_id (cancel_run now) db)
cancelled_ledger _ run_id now db = err illegal_transition

-- MarkCancelling
unfoldable pub mark_cancelling : Bytes → ℕ → Ledger → Result Error (Run × Ledger)
mark_cancelling run_id now db = do
  validate_run_id run_id
  run ← read_run run_id db
  guard (not run.terminal_pending) illegal_transition
  marked ← cancelled_ledger run.row.state run_id now db
  final ← read_run run_id marked
  ok (final, marked)

abbrev pub forget_runtime : ℕ → RunRow → RunRow
forget_runtime now r = record r { runtime_ref = none; updated_at = now }

-- What ConfirmRuntimeStopped takes from a Run: its runtime, its locks and its staged terminal.
unfoldable pub retire : Bytes → ℕ → Ledger → Ledger
retire run_id now db = record db {
  runs = update_where (has_run_id run_id) (forget_runtime now) db.runs;
  workspace_locks = delete_where (lock_of run_id) db.workspace_locks;
  credential_occupancy = delete_where (occupied_by run_id) db.credential_occupancy;
  staged = delete_where (staged_for run_id) db.staged;
}

abbrev pub holds_authority : Run → Bool
holds_authority run =
    run.terminal_pending
    || run.credential_lease_held
    || is_set run.row.runtime_ref
    || run.workspace_lock_held

-- The publication of a staged terminal. `clock n` is the n-th reading of the clock.
unfoldable pub publish : Bytes → Run → (ℕ → ℕ) → Ledger → Result Error Ledger
publish run_id run clock db =
    if run.terminal_pending
    then (do
      candidate ← staged_terminal run_id db
      guard (leb candidate.staged_at (clock 0)) illegal_transition
      published ← append_event_tx run.row candidate.event candidate.mapping (clock 1) db
      ok published.1)
    else if is_terminal run.row.state
    then ok db
    else err illegal_transition

-- ConfirmRuntimeStopped
unfoldable pub confirm_runtime_stopped : Bytes → (ℕ → ℕ) → Ledger → Result Error (Run × Ledger)
unfolding publish retire
confirm_runtime_stopped run_id clock db = do
  validate_run_id run_id
  run ← read_run run_id db
  guard (not run.row.runtime_intent_pending) illegal_transition
  if holds_authority run then require_run_credential run true db else ok tt
  published ← publish run_id run clock db
  final ← read_run run_id (retire run_id (clock 2) published)
  ok (final, retire run_id (clock 2) published)

-- ORDER BY created_at_unix_ms, run_id
unfoldable pub run_before : RunRow → RunRow → Bool
run_before a b =
    ltb a.created_at b.created_at || (a.created_at == b.created_at && bytes_lt a.run_id b.run_id)

-- The loop of listRuns.
unfoldable pub scan_runs : Ledger → List RunRow → Result Error (List Run)
scan_runs db [] = ok []
scan_runs db (row ∷ rest) = do
  run ← scan_run db row
  guard (not (is_empty (coalesce run.row.session_scope_digest))) unsafe_legacy_session_state
  more ← scan_runs db rest
  ok (run ∷ more)

-- ListNonTerminal
unfoldable pub list_non_terminal : Ledger → Result Error (List Run)
unfolding scan_runs run_before
list_non_terminal db =
    scan_runs db (order_by run_before (select_where (λ r. is_active r.state) db.runs))

abbrev unreconciled : Ledger → RunRow → Bool
unreconciled db r =
    is_active r.state
    || is_set r.runtime_ref
    || r.runtime_intent_pending
    || exists_where (lock_of r.run_id) db.workspace_locks
    || exists_where (occupied_by r.run_id) db.credential_occupancy

-- ListUnreconciled
unfoldable pub list_unreconciled : Ledger → Result Error (List Run)
unfolding scan_runs run_before
list_unreconciled db = scan_runs db (order_by run_before (select_where (unreconciled db) db.runs))

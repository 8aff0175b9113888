-- ===== src/SandboxStore/Invariant/Runtimes.antt =====
-- The operations on events, outcomes and runtimes keep the histories.

use harness_security_gateway.Prelude.{
  ℕ, ◌≡◌, refl, true, false, not, ◌&&◌, ◌||◌, Option, none, some, arith,
}
use harness_security_gateway.Prelude.Bytes.{Bytes}
use harness_security_gateway.Prelude.Results.{ok, guard, ok-injective}
use harness_security_gateway.Prelude.Tables.{exists_where}
use harness_security_gateway.CoreStore.Validate.{is_set}
use harness_security_gateway.ExecutionWire.{
  RunState, accepted, running, cancelling, RunEvent, validate_event,
}
use harness_security_gateway.SandboxStore.Types.{
  illegal_transition, invalid_argument, conflict, RunRow, Run, SessionMapping, Ledger,
}
use harness_security_gateway.SandboxStore.Validate.{
  validate_run_id, validate_boot_id, validate_runtime_ref, as_argument,
}
use harness_security_gateway.SandboxStore.Tables.{
  has_run_id, read_run, is_terminal, set_run, require_run_credential,
}
use harness_security_gateway.SandboxStore.Events.{
  is_ongoing, bind_mapping, record_event, validate_run_event, append_event_tx, append_event,
}
use harness_security_gateway.SandboxStore.Staged.{stage_checked, stage_terminal}
use harness_security_gateway.SandboxStore.Runtime.{
  intent_free, intend, intent_refused, begin_runtime_intent, clear_intent, clearable, cleared,
  clear_runtime_intent, bind_runtime, bindable, binding_refused, owned_by_other, set_runtime_ref,
  cancel_run, cancelled_ledger, mark_cancelling, forget_runtime, retire,
}
use harness_security_gateway.SandboxStore.History.Steps.{IsHistory-runtime, cancel-IsHistory}
use harness_security_gateway.SandboxStore.Invariant.{row_of, events_of, IsStable, LedgerProperty}
use harness_security_gateway.SandboxStore.Invariant.Operations.{
  Holds, Saves, Saves-bind, Saves-then, Saves-if, Saves-ok, Saves-from, Same-Holds, read_run-row,
  IsHistory-of, Same, bind_mapping-Same, record_event-Holds,
}

stage_checked-Same :
    (run r : Run) (event : RunEvent) (mapping : Option SessionMapping) (now : ℕ) (db db' : Ledger)
    → stage_checked run event mapping now db ≡ ok (r, db')
    → Same db db'
unfolding stage_checked
stage_checked-Same run r event mapping now db db' h = (ground arith, ground arith)

module _ {P : LedgerProperty} (stable : IsStable P) where
  pub append_event_tx-Saves :
      (row : RunRow) (event : RunEvent) (mapping : Option SessionMapping) (now : ℕ) (db : Ledger)
      → row_of event.run_id db.runs ≡ some row
      → Holds P db
      → Saves P (append_event_tx row event mapping now db)
  unfolding append_event_tx
  append_event_tx-Saves row event mapping now db at h =
      Saves-bind (validate_run_event row event mapping) _ λ next checked.
        Saves-bind (bind_mapping row mapping now db) _ λ bound binding.
          Saves-bind (read_run event.run_id (record_event next event now bound)) _ λ run _.
            Saves-ok run _ (
              record_event-Holds stable db bound row event mapping next now at
                (bind_mapping-Same db bound row mapping now binding) checked h)

  pub append_event-Saves :
      (event : RunEvent) (mapping : Option SessionMapping) (now : ℕ) (db : Ledger)
      → Holds P db
      → Saves P (append_event event mapping now db)
  unfolding append_event
  append_event-Saves event mapping now db h = Saves-then (as_argument (validate_event event)) _ λ _.
      Saves-bind (read_run event.run_id db) _ λ run read.
        Saves-then
          (guard
            (not (
              run.terminal_pending
              || (run.credential_required && not (is_ongoing event.event_type))))
            illegal_transition)
          _
          λ _.
            append_event_tx-Saves run.row event mapping now db
              (read_run-row event.run_id db run read) h

  pub stage_terminal-Saves :
      (event : RunEvent) (mapping : Option SessionMapping) (now : ℕ) (db : Ledger)
      → Holds P db
      → Saves P (stage_terminal event mapping now db)
  unfolding stage_terminal
  stage_terminal-Saves event mapping now db h =
      Saves-then (as_argument (validate_event event)) _ λ _.
        Saves-then (guard (not (is_ongoing event.event_type)) invalid_argument) _ λ _.
          Saves-bind (read_run event.run_id db) _ λ run _.
            Saves-then (require_run_credential run true db) _ λ _.
              Saves-from (stage_checked run event mapping now db) λ r db' e.
                Same-Holds P db db' (stage_checked-Same run r event mapping now db db' e) h

  pub begin_runtime_intent-Saves :
      (run_id boot_id : Bytes) (now : ℕ) (db : Ledger)
      → Holds P db
      → Saves P (begin_runtime_intent run_id boot_id now db)
  unfolding begin_runtime_intent
  begin_runtime_intent-Saves run_id boot_id now db h = Saves-then (validate_run_id run_id) _ λ _.
      Saves-then (validate_boot_id boot_id) _ λ valid. Saves-bind (read_run run_id db) _ λ prior _.
        Saves-then (require_run_credential prior false db) _ λ _.
          Saves-if (intent_free prior) _ _
            (λ _. Saves-bind (read_run run_id (set_run run_id (intend boot_id now) db)) _ λ run _.
              Saves-ok (run, true) _
                (stable.on_rows (intend boot_id now) (λ r. refl) (λ r. refl) (λ r. refl)
                  (has_run_id run_id) db.runs db.events
                  (λ r es k.
                    IsHistory-runtime r es true (some boot_id) r.runtime_ref now k (rw valid refl))
                  h))
            (λ _. Saves-then (intent_refused prior boot_id) _ λ _. Saves-ok (prior, false) db h)

  pub clear_runtime_intent-Saves :
      (run_id : Bytes) (now : ℕ) (db : Ledger)
      → Holds P db
      → Saves P (clear_runtime_intent run_id now db)
  unfolding clear_runtime_intent
  clear_runtime_intent-Saves run_id now db h = Saves-then (validate_run_id run_id) _ λ _.
      Saves-bind (read_run run_id (cleared run_id now db)) _ λ run _.
        Saves-then
          (guard (exists_where (clearable run_id) db.runs || not (is_set run.row.runtime_ref))
            illegal_transition)
          _
          λ _. Saves-then (guard (not run.row.runtime_intent_pending) conflict) _ λ _.
            Saves-ok run _ (
              stable.on_rows (clear_intent now) (λ r. refl) (λ r. refl) (λ r. refl)
                (clearable run_id) db.runs db.events
                (λ r es k. IsHistory-runtime r es false none r.runtime_ref now k refl) h)

  pub set_runtime_ref-Saves :
      (run_id runtime_ref : Bytes) (now : ℕ) (db : Ledger)
      → Holds P db
      → Saves P (set_runtime_ref run_id runtime_ref now db)
  unfolding set_runtime_ref
  set_runtime_ref-Saves run_id runtime_ref now db h =
      let taken = exists_where (owned_by_other run_id runtime_ref) db.runs in
      Saves-then (validate_run_id run_id) _ λ _.
        Saves-then (validate_runtime_ref runtime_ref) _ λ _.
          Saves-bind (read_run run_id db) _ λ prior _.
            Saves-then (require_run_credential prior true db) _ λ _.
              Saves-then
                (guard (bindable prior runtime_ref && not taken)
                  (binding_refused prior runtime_ref taken))
                _
                λ _.
                  Saves-bind (read_run run_id (set_run run_id (bind_runtime runtime_ref now) db)) _
                    λ run _. Saves-ok run _ (
                      stable.on_rows (bind_runtime runtime_ref now) (λ r. refl) (λ r. refl)
                        (λ r. refl) (has_run_id run_id) db.runs db.events
                        (λ r es k. IsHistory-runtime r es false none (some runtime_ref) now k refl)
                        h)

  -- The ledger in which a Run that was read is marked.
  cancelled_ledger-Holds :
      (run_id : Bytes) (row : RunRow) (now : ℕ) (db db' : Ledger)
      → row_of run_id db.runs ≡ some row
      → cancelled_ledger row.state run_id now db ≡ ok db'
      → Holds P db
      → Holds P db'
  cancelled_ledger-Holds run_id row now db db' at marked h = go row.state refl marked
    where
      marks : is_terminal row.state ≡ false → Holds P (set_run run_id (cancel_run now) db)
      marks active =
          stable.on_active run_id (cancel_run now) (λ r. refl) db.runs db.events db.events row at
            active
            (cancel-IsHistory row (events_of run_id db.events) now
              (IsHistory-of run_id db row at (stable.histories db.runs db.events h)) active)
            (λ k n. refl) h

      go : (s : RunState) → row.state ≡ s → cancelled_ledger s run_id now db ≡ ok db' → Holds P db'
      go cancelling e m = rw (← ok-injective m) h
      go accepted e m = rw (← ok-injective m) (marks (rw e refl))
      go running e m = rw (← ok-injective m) (marks (rw e refl))
      go RunState.completed e m = cc
      go RunState.failed e m = cc
      go RunState.cancelled e m = cc
      go RunState.interrupted e m = cc
      go RunState.unsupported e m = cc

  pub mark_cancelling-Saves :
      (run_id : Bytes) (now : ℕ) (db : Ledger)
      → Holds P db
      → Saves P (mark_cancelling run_id now db)
  unfolding mark_cancelling
  mark_cancelling-Saves run_id now db h = Saves-then (validate_run_id run_id) _ λ _.
      Saves-bind (read_run run_id db) _ λ run read.
        Saves-then (guard (not run.terminal_pending) illegal_transition) _ λ _.
          Saves-bind (cancelled_ledger run.row.state run_id now db) _ λ marked done.
            Saves-bind (read_run run_id marked) _ λ final _. Saves-ok final marked (
              cancelled_ledger-Holds run_id run.row now db marked (read_run-row run_id db run read)
                done h)

  pub retire-Holds :
      (run_id : Bytes) (now : ℕ) (db : Ledger) → Holds P db → Holds P (retire run_id now db)
  unfolding retire
  retire-Holds run_id now db h =
      stable.on_rows (forget_runtime now) (λ r. refl) (λ r. refl) (λ r. refl) (has_run_id run_id)
        db.runs db.events
        (λ r es k.
          IsHistory-runtime r es r.runtime_intent_pending r.runtime_intent_boot_id none now k
            k.readable)
        h

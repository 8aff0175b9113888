-- ===== src/SandboxStore/Trace/Recorded.antt =====
-- An event that passes validateRunEvent is recorded, and ConfirmRuntimeStopped by its steps.
use harness_security_gateway.Prelude.{ℕ, ◌≡◌, refl, ◌∙◌, true, false, none, some, List}
use harness_security_gateway.Prelude.Bytes.{Bytes}
use harness_security_gateway.Prelude.Results.{ok}
use harness_security_gateway.Prelude.Tables.{update_where}
use harness_security_gateway.Prelude.Tables.Laws.{find_where_sound}
use harness_security_gateway.ExecutionWire.{RunState, RunEvent}
use harness_security_gateway.SandboxStore.Types.{RunRow, Run, Ledger}
use harness_security_gateway.SandboxStore.Validate.{validate_run_id}
use harness_security_gateway.SandboxStore.Tables.{has_run_id, read_run, require_run_credential}
use harness_security_gateway.SandboxStore.Events.{
  advance, validate_run_event, append_event_tx, record_event,
}
use harness_security_gateway.SandboxStore.Invariant.{
  AreHistories-IsStable, row_of, events_of, row_of-update,
}
use harness_security_gateway.SandboxStore.Invariant.Operations.{
  HasHistories, IsHistory-of, record_event-Holds,
}
use harness_security_gateway.SandboxStore.Trace.Snapshots.{read_run-history}
use harness_security_gateway.SandboxStore.Runtime.{
  holds_authority, retire, publish, confirm_runtime_stopped,
}

-- The row of a Run that is updated where it stands.
pub row_of-changed :
    (id : Bytes) (change : RunRow → RunRow) (runs : List RunRow) (row : RunRow)
    → ((r : RunRow) → (change r).run_id ≡ r.run_id)
    → row_of id runs ≡ some row
    → row_of id (update_where (has_run_id id) change runs) ≡ some (change row)
row_of-changed id change runs row keeps at =
    row_of-update id change keeps id (has_run_id id) runs
    ∙ rw (at, find_where_sound (has_run_id id) runs row at) refl

pub append_event_tx-records :
    (row : RunRow) (event : RunEvent) (next : RunState) (now : ℕ) (db : Ledger)
    → row_of event.run_id db.runs ≡ some row
    → validate_run_event row event none ≡ ok next
    → HasHistories db
    → (run : Run) × (append_event_tx row event none now db
        ≡ ok (run, record_event next event now db))
unfolding append_event_tx
append_event_tx-records row event next now db at checked h =
    let after = record_event next event now db in
    let placed = row_of-changed event.run_id (advance next event now) db.runs row (λ r. refl) at in
    let kept =
      record_event-Holds AreHistories-IsStable db db row event none next now at (refl, refl) checked
        h in
    let (run, read, _) =
      read_run-history after event.run_id (advance next event now row)
        (events_of event.run_id after.events) placed
        (IsHistory-of event.run_id after (advance next event now row) placed kept) in
    (run, rw (checked, read) refl)

pub confirm_runtime_stopped-confirms :
    (run_id : Bytes) (clock : ℕ → ℕ) (db published : Ledger) (run final : Run)
    → validate_run_id run_id ≡ ok tt
    → read_run run_id db ≡ ok run
    → run.row.runtime_intent_pending ≡ false
    → holds_authority run ≡ true
    → require_run_credential run true db ≡ ok tt
    → publish run_id run clock db ≡ ok published
    → read_run run_id (retire run_id (clock 2) published) ≡ ok final
    → confirm_runtime_stopped run_id clock db ≡ ok (final, retire run_id (clock 2) published)
unfolding confirm_runtime_stopped
confirm_runtime_stopped-confirms run_id clock db published run final named found idle held
      credential done reads =
    rw (named, found, held, credential, done, reads, idle) refl

-- ===== src/SandboxStore/Trace/Published.antt =====
-- A staged outcome is published once the runtime is known to have stopped: StageTerminal of
-- internal/sandboxstore/staged.go together with ConfirmRuntimeStopped of runs.go.
use harness_security_gateway.Prelude.{
  ap, ℕ, ◌≤◌, ◌≡◌, refl, sym, ◌∙◌, Bool, true, false, not, Option, none, some, List, [], ◌∷◌, ◌++◌,
  arith, leb,
}
use harness_security_gateway.Prelude.Bytes.{Bytes}
use harness_security_gateway.Prelude.Results.{ok, guard-passed, >>-ok, >>-ok_right, >>=-eq-ok}
use harness_security_gateway.Prelude.Tables.{exists_where}
use harness_security_gateway.Prelude.Tables.Laws.{exists_where-deleted}
use harness_security_gateway.ExecutionWire.{RunState, RunEvent, StartRunRequest, validate_event}
use harness_security_gateway.SandboxStore.Types.{invalid_argument, RunRow, Run, Ledger}
use harness_security_gateway.SandboxStore.Validate.{validate_run_id, as_argument}
use harness_security_gateway.SandboxStore.Tables.{
  is_terminal, staged_for, lock_of, occupied_by, read_run, require_run_credential,
}
use harness_security_gateway.SandboxStore.Events.{
  is_ongoing, event_row, advance, validate_run_event, record_event,
}
use harness_security_gateway.SandboxStore.Staged.{
  read_candidate, staged_row, insert_staged, stage_terminal,
}
use harness_security_gateway.SandboxStore.History.Steps.{validate_run_event-ends, as_argument-ok}
use harness_security_gateway.SandboxStore.Invariant.{AreHistories-IsStable, row_of, events_of}
use harness_security_gateway.SandboxStore.Invariant.Operations.{
  HasHistories, read_run-row, IsHistory-of, events_of-own, record_event-Holds,
}
use harness_security_gateway.SandboxStore.Invariant.Runtimes.{retire-Holds}
use harness_security_gateway.SandboxStore.Trace.{Op, run_ops, empty_ledger}
use harness_security_gateway.SandboxStore.Trace.Snapshots.{
  read_run-history, run_ops-Holds, empty-HasHistories,
}
use harness_security_gateway.SandboxStore.Trace.Pending.{AreRequests, run_ops-waits}
use harness_security_gateway.SandboxStore.Runtime.{
  forget_runtime, retire, publish, confirm_runtime_stopped,
}
use harness_security_gateway.SandboxStore.Staged.Reading.{
  read_candidate-staged, read_run-staged, require_run_credential-staged, staged_terminal-staged,
  read_run-pending, stage_checked-first, validate_run_event-unbound, validate_event-named,
}
use harness_security_gateway.SandboxStore.Trace.Recorded.{
  row_of-changed, append_event_tx-records, confirm_runtime_stopped-confirms,
}

-- The confirmation after which the staged `event` is the Run's last: it succeeds, the Run has ended, its
-- log has this event more, and it holds no lock, no credential and no staged outcome any longer.
pub record IsPublished (event : RunEvent) (clock : ℕ → ℕ) (db staged : Ledger) : Type 0 where
  pub final : Run
  pub after : Ledger
  pub confirmed : confirm_runtime_stopped event.run_id clock staged ≡ ok (final, after)
  pub ended : is_terminal final.row.state ≡ true
  pub logged :
      events_of event.run_id after.events ≡ events_of event.run_id db.events ++ event_row event ∷ []
  pub unlocked : exists_where (lock_of event.run_id) after.workspace_locks ≡ false
  pub released : exists_where (occupied_by event.run_id) after.credential_occupancy ≡ false
  pub unstaged : exists_where (staged_for event.run_id) after.staged ≡ false

-- The publication of an outcome that was staged for the Run `read`.
module _ (event : RunEvent) (now : ℕ) (clock : ℕ → ℕ) (db : Ledger) (read : Run)
    (next : RunState) where
  publish-staged :
      exists_where (staged_for event.run_id) db.staged ≡ false
      → row_of event.run_id db.runs ≡ some read.row
      → read_candidate (staged_row event none now)
        ≡ ok (record { event = event; mapping = none; staged_at = now })
      → leb now (clock 0) ≡ true
      → validate_run_event read.row event none ≡ ok next
      → HasHistories db
      → publish event.run_id
          (record read { terminal_pending = true })
          clock
          (insert_staged (staged_row event none now) db)
        ≡ ok (record_event next event (clock 1) (insert_staged (staged_row event none now) db))
  unfolding publish staged_row
  publish-staged fresh at candidate timely checked h =
      let staged = insert_staged (staged_row event none now) db in
      let (run, appended) =
        append_event_tx-records read.row event next (clock 1) staged at checked h in
      rw (staged_terminal-staged (staged_row event none now) db fresh, candidate, timely, appended)
        refl

  retired-IsPublished :
      row_of event.run_id db.runs ≡ some read.row
      → validate_run_event read.row event none ≡ ok next
      → is_ongoing event.event_type ≡ false
      → validate_run_id event.run_id ≡ ok tt
      → read.row.runtime_intent_pending ≡ false
      → read_run event.run_id (insert_staged (staged_row event none now) db)
        ≡ ok (record read { terminal_pending = true })
      → require_run_credential
          (record read { terminal_pending = true })
          true
          (insert_staged (staged_row event none now) db)
        ≡ ok tt
      → publish event.run_id
          (record read { terminal_pending = true })
          clock
          (insert_staged (staged_row event none now) db)
        ≡ ok (record_event next event (clock 1) (insert_staged (staged_row event none now) db))
      → HasHistories db
      → IsPublished event clock db (insert_staged (staged_row event none now) db)
  unfolding retire advance event_row
  retired-IsPublished at checked final named idle found credential published h =
      let staged = insert_staged (staged_row event none now) db in
      let recorded = record_event next event (clock 1) staged in
      let after = retire event.run_id (clock 2) recorded in
      let kept = retire-Holds AreHistories-IsStable event.run_id (clock 2) recorded (
        record_event-Holds AreHistories-IsStable staged staged read.row event none next (clock 1) at
          (refl, refl) checked h) in
      let last = forget_runtime (clock 2) (advance next event (clock 1) read.row) in
      let placed : row_of event.run_id after.runs ≡ some last =
        row_of-changed event.run_id (forget_runtime (clock 2)) recorded.runs
          (advance next event (clock 1) read.row) (λ r. refl)
          (row_of-changed event.run_id (advance next event (clock 1)) staged.runs read.row
            (λ r. refl) at) in
      let (run, reads, same) =
        read_run-history after event.run_id last (events_of event.run_id after.events) placed
          (IsHistory-of event.run_id after last placed kept) in
      record {
        final = run;
        after = after;
        confirmed =
            confirm_runtime_stopped-confirms event.run_id clock staged recorded
              (record read { terminal_pending = true }) run named found idle refl credential
              published reads;
        ended =
            ap (λ (r : RunRow). is_terminal r.state) same
            ∙ validate_run_event-ends read.row event none next checked final;
        logged = events_of-own (event_row event) event.run_id db.events refl;
        unlocked = exists_where-deleted (lock_of event.run_id) recorded.workspace_locks;
        released = exists_where-deleted (occupied_by event.run_id) recorded.credential_occupancy;
        unstaged = exists_where-deleted (staged_for event.run_id) recorded.staged;
      }

stage_terminal-IsPublished :
    (event : RunEvent) (now : ℕ) (clock : ℕ → ℕ) (db staged : Ledger) (run : Run)
    → HasHistories db
    → stage_terminal event none now db ≡ ok (run, staged)
    → exists_where (staged_for event.run_id) db.staged ≡ false
    → run.row.runtime_intent_pending ≡ false
    → now ≤ clock 0
    → IsPublished event clock db staged
unfolding stage_terminal staged_row validate_run_id
stage_terminal-IsPublished event now clock db staged run h done fresh idle timely =
    let valid = as_argument-ok (validate_event event) (>>-ok _ _ done) in
    let named = validate_event-named event valid in
    let (final, permitted) =
      guard-passed (not (is_ongoing event.event_type)) invalid_argument _
        (>>-ok_right (as_argument (validate_event event)) _ done) in
    let (read, found, leased) = >>=-eq-ok (read_run event.run_id db) _ permitted in
    let credential = >>-ok (require_run_credential read true db) _ leased in
    let (next, checked, same, stored) =
      stage_checked-first read run event now db staged
        (read_run-pending event.run_id db read found ∙ fresh)
        (>>-ok_right (require_run_credential read true db) _ leased) in
    let at = read_run-row event.run_id db read found in
    let ends = not-true (is_ongoing event.event_type) final in
    let s = staged_row event none now in
    rw stored (
      retired-IsPublished event now clock db read next at checked ends (ap as_argument named)
        (ap (λ (r : RunRow). r.runtime_intent_pending) (sym same) ∙ idle)
        (read_run-staged s db fresh read found)
        (require_run_credential-staged s db fresh read credential)
        (publish-staged event now clock db read next fresh at
          (read_candidate-staged event now valid ends
            (validate_run_event-unbound read.row event next checked))
          (≤→leb now (clock 0) timely) checked h)
        h)
  where
    not-true : (b : Bool) → not b ≡ true → b ≡ false
    not-true b e = ground arith

    ≤→leb : (a b : ℕ) → a ≤ b → leb a b ≡ true
    ≤→leb a b le = ground arith

-- After a first staging the Run reads as one that waits for the proof that its runtime has stopped.
stage_terminal-pending :
    (event : RunEvent) (now : ℕ) (db staged : Ledger) (run : Run)
    → stage_terminal event none now db ≡ ok (run, staged)
    → exists_where (staged_for event.run_id) db.staged ≡ false
    → (read : Run) × (read_run event.run_id staged ≡ ok read) × (read.terminal_pending ≡ true)
unfolding stage_terminal staged_row
stage_terminal-pending event now db staged run done fresh =
    let permitted =
      guard-passed (not (is_ongoing event.event_type)) invalid_argument _
        (>>-ok_right (as_argument (validate_event event)) _ done) in
    let (read, found, leased) = >>=-eq-ok (read_run event.run_id db) _ permitted.1 in
    let (next, checked, same, stored) =
      stage_checked-first read run event now db staged
        (read_run-pending event.run_id db read found ∙ fresh)
        (>>-ok_right (require_run_credential read true db) _ leased) in
    (
      record read { terminal_pending = true },
      ap (read_run event.run_id) stored
          ∙ read_run-staged (staged_row event none now) db fresh read found,
      refl,
    )

module _ (fingerprint_of : StartRunRequest → Option Bytes) (sha256_hex : Bytes → Bytes) where
  -- A staged outcome is published: when StageTerminal accepts a terminal event without a session for a
  -- Run of a ledger that operations on a new one have made, nothing was staged for the Run before and it
  -- has no pending intent, then, after any further calls of AppendEvent, StageTerminal, MarkCancelling,
  -- ReconcileInterrupted, BeginRuntimeIntent and SetRuntimeRef for this Run, ConfirmRuntimeStopped
  -- succeeds for it at a clock reading that is not before the staging. The Run has then ended, its log
  -- is the one before the staging with exactly the staged event, and it holds no workspace lock, no
  -- credential and no staged outcome.
  pub stage_terminal-publishes :
      (ops more : List Op) (event : RunEvent) (now : ℕ) (clock : ℕ → ℕ) (run : Run)
      (staged : Ledger)
      → stage_terminal event none now (run_ops fingerprint_of sha256_hex ops empty_ledger)
        ≡ ok (run, staged)
      → exists_where
          (staged_for event.run_id)
          (run_ops fingerprint_of sha256_hex ops empty_ledger).staged
        ≡ false
      → run.row.runtime_intent_pending ≡ false
      → AreRequests event.run_id more
      → now ≤ clock 0
      → IsPublished event clock
          (run_ops fingerprint_of sha256_hex ops empty_ledger)
          (run_ops fingerprint_of sha256_hex more staged)
  stage_terminal-publishes ops more event now clock run staged done fresh idle asked timely =
      let db = run_ops fingerprint_of sha256_hex ops empty_ledger in
      let (read, found, waits) = stage_terminal-pending event now db staged run done fresh in
      let kept =
        run_ops-waits event.run_id staged read found waits fingerprint_of sha256_hex more asked in
      rw kept (
        stage_terminal-IsPublished event now clock db staged run
          (run_ops-Holds AreHistories-IsStable fingerprint_of sha256_hex ops empty_ledger
            (empty-HasHistories fingerprint_of sha256_hex))
          done fresh idle timely)

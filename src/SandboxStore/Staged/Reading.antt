-- ===== src/SandboxStore/Staged/Reading.antt =====
-- What StageTerminal of internal/sandboxstore/staged.go leaves is read back: the Run, its credential and
-- the staged event.
use harness_security_gateway.Prelude.{
  ap, ℕ, ◌≡◌, refl, sym, ◌∙◌, true, false, not, Option, none, some, leb,
}
use harness_security_gateway.Prelude.Bytes.{Bytes, coalesce, beq_refl}
use harness_security_gateway.Prelude.Results.{
  ok, guard, guard-passed, >>-ok, >>-ok_right, >>=-eq-ok, ok-injective,
}
use harness_security_gateway.Prelude.Tables.{exists_where, insert_row}
use harness_security_gateway.Prelude.Tables.Laws.{find_where-insert, exists_where-insert}
use harness_security_gateway.ExecutionWire as wire
use harness_security_gateway.ExecutionWire.{
  RunState, RunEventType, progress, RunEvent, RunProgress, RunResult, RunFailure, StartRunRequest,
  validate_event, validate_payload,
}
use harness_security_gateway.SandboxStore.Types.{
  not_found, storage, illegal_transition, invalid_argument, session_scope,
  unsafe_legacy_session_state, RunRow, Run, StagedRow, Ledger,
}
use harness_security_gateway.SandboxStore.Tables.{
  or_error, has_run_id, staged_for, intent_readable, scan_run, read_run, require_run_credential,
}
use harness_security_gateway.SandboxStore.Events.{
  is_completed, is_ongoing, result_ref, same_bool, validate_completion, columns_of, event_columns,
  validate_run_event,
}
use harness_security_gateway.SandboxStore.Staged.{
  candidate_of, read_candidate, staged_terminal, staged_row, insert_staged, stage_checked,
}
use harness_security_gateway.SandboxStore.History.{validate_event-payload}
use harness_security_gateway.SandboxStore.History.Steps.{validate_run_event-IsChecked}
use harness_security_gateway.SandboxStore.Invariant.{row_of, row_of→≡}
use harness_security_gateway.SandboxStore.Invariant.Operations.{or_error-some}
use harness_security_gateway.CoreStore.Validate.{is_empty, is_set}

-- The columns of a staged outcome lose nothing, where no session comes with it.
candidate-payload :
    (run_id : Bytes) (seq now : ℕ) (t : RunEventType) (p : Option RunProgress)
    (r : Option RunResult) (f : Option RunFailure)
    → validate_payload t p r f ≡ ok tt
    → is_ongoing t ≡ false
    → (is_completed t ≡ true → result_ref r ≡ none)
    → candidate_of
        (staged_row
          (record {
            run_id = run_id;
            seq = seq;
            event_type = t;
            progress = p;
            result = r;
            failure = f;
          })
          none
          now)
        t
      ≡ ok (record {
        event = record {
          run_id = run_id;
          seq = seq;
          event_type = t;
          progress = p;
          result = r;
          failure = f;
        };
        mapping = none;
        staged_at = now;
      })
unfolding validate_payload candidate_of staged_row event_columns columns_of
candidate-payload run_id seq now RunEventType.cancelled none none none h e u = refl
candidate-payload run_id seq now RunEventType.completed none (some r) none h e u = rw (u refl) refl
candidate-payload run_id seq now RunEventType.failed none none (some f) h e u = refl
candidate-payload run_id seq now RunEventType.interrupted none none (some f) h e u = refl
candidate-payload run_id seq now t p r f h e u = cc

pub read_candidate-staged :
    (event : RunEvent) (now : ℕ)
    → validate_event event ≡ ok tt
    → is_ongoing event.event_type ≡ false
    → (is_completed event.event_type ≡ true → result_ref event.result ≡ none)
    → read_candidate (staged_row event none now)
      ≡ ok (record { event = event; mapping = none; staged_at = now })
unfolding read_candidate staged_row
read_candidate-staged event now valid final unbound =
    let read : candidate_of (staged_row event none now) event.event_type
        ≡ ok (record { event = event; mapping = none; staged_at = now }) =
      candidate-payload event.run_id event.seq now event.event_type event.progress event.result
        event.failure (validate_event-payload event valid) final unbound in
    rw (read, valid) refl

module _ (s : StagedRow) (db : Ledger)
    (fresh : exists_where (staged_for s.run_id) db.staged ≡ false) where
  staged_for-staged :
      (id : Bytes) → id ≡ s.run_id → exists_where (staged_for id) (insert_row s db.staged) ≡ true
  staged_for-staged id same =
      rw same
        (exists_where-insert (staged_for s.run_id) s db.staged ∙ rw (fresh, beq_refl s.run_id) refl)

  -- Staging marks the Run, and changes nothing else of it.
  scan_run-staged :
      (row : RunRow) (run : Run)
      → row.run_id ≡ s.run_id
      → scan_run db row ≡ ok run
      → scan_run (insert_staged s db) row ≡ ok (record run { terminal_pending = true })
  unfolding scan_run
  scan_run-staged row run same h =
      let (readable, made) =
        guard-passed (intent_readable row.runtime_intent_pending row.runtime_intent_boot_id) storage
          _ h in
      rw (readable, staged_for-staged row.run_id same)
        (ap (λ (r : Run). ok (record r { terminal_pending = true })) (ok-injective made))

  pub read_run-staged :
      (run : Run)
      → read_run s.run_id db ≡ ok run
      → read_run s.run_id (insert_staged s db) ≡ ok (record run { terminal_pending = true })
  unfolding read_run has_run_id
  read_run-staged run h =
      let (row, found, rest) = >>=-eq-ok (or_error not_found (row_of s.run_id db.runs)) _ h in
      let (scanned, scan, last) = >>=-eq-ok (scan_run db row) _ rest in
      let (scoped, same) =
        guard-passed (not (is_empty (coalesce scanned.row.session_scope_digest)))
          unsafe_legacy_session_state _ last in
      let at = or_error-some not_found (row_of s.run_id db.runs) row found in
      rw (found, scan_run-staged row scanned (row_of→≡ s.run_id db.runs row at) scan, scoped)
        (ap (λ (r : Run). ok (record r { terminal_pending = true })) (ok-injective same))

  pub require_run_credential-staged :
      (run : Run)
      → require_run_credential run true db ≡ ok tt
      → require_run_credential (record run { terminal_pending = true }) true (insert_staged s db)
        ≡ ok tt
  unfolding require_run_credential
  require_run_credential-staged run h = h

  pub staged_terminal-staged : staged_terminal s.run_id (insert_staged s db) ≡ read_candidate s
  unfolding staged_terminal
  staged_terminal-staged =
      rw (find_where-insert (staged_for s.run_id) s db.staged, fresh, beq_refl s.run_id) refl

scan_run-pending :
    (db : Ledger) (row : RunRow) (run : Run)
    → scan_run db row ≡ ok run
    → run.terminal_pending ≡ exists_where (staged_for row.run_id) db.staged
unfolding scan_run
scan_run-pending db row run h =
    ap (λ (r : Run). r.terminal_pending) (sym (ok-injective (>>-ok_right (guard _ storage) _ h)))

pub read_run-pending :
    (id : Bytes) (db : Ledger) (run : Run)
    → read_run id db ≡ ok run
    → run.terminal_pending ≡ exists_where (staged_for id) db.staged
unfolding read_run has_run_id
read_run-pending id db run h =
    let (row, found, rest) = >>=-eq-ok (or_error not_found (row_of id db.runs)) _ h in
    let (scanned, scan, last) = >>=-eq-ok (scan_run db row) _ rest in
    let same = ok-injective (>>-ok_right (guard _ unsafe_legacy_session_state) _ last) in
    let named = row_of→≡ id db.runs row (or_error-some not_found (row_of id db.runs) row found) in
    ap (λ (r : Run). r.terminal_pending) (sym same)
    ∙ scan_run-pending db row scanned scan
    ∙ ap (λ i. exists_where (staged_for i) db.staged) named

-- What a first staging without a session has checked and stored.
pub stage_checked-first :
    (read run : Run) (event : RunEvent) (now : ℕ) (db staged : Ledger)
    → read.terminal_pending ≡ false
    → stage_checked read event none now db ≡ ok (run, staged)
    → (next : RunState) × (validate_run_event read.row event none ≡ ok next)
      × (run.row ≡ read.row)
      × (staged ≡ insert_staged (staged_row event none now) db)
unfolding stage_checked
stage_checked-first read run event now db staged first h =
    let (next, checked, rest) =
      >>=-eq-ok (validate_run_event read.row event none) _ (rw first at h) in
    let (_, timely) = guard-passed true session_scope _ rest in
    let (_, last) = guard-passed (leb read.row.created_at now) illegal_transition _ timely in
    (
      next,
      checked,
      ap (λ (x : Run × Ledger). x.0.row) (sym (ok-injective last)),
      ap (λ (x : Run × Ledger). x.1) (sym (ok-injective last)),
    )

-- An outcome without a session names none in its result.
pub validate_run_event-unbound :
    (row : RunRow) (event : RunEvent) (next : RunState)
    → validate_run_event row event none ≡ ok next
    → is_completed event.event_type ≡ true
    → result_ref event.result ≡ none
unfolding validate_completion
validate_run_event-unbound row event next h completed =
    let result : validate_completion row (result_ref event.result) none ≡ ok tt =
      rw completed at (validate_run_event-IsChecked row event none next h).result in
    let (unset, _) =
      guard-passed (same_bool (is_set (result_ref event.result)) false) invalid_argument _ result in
    go (result_ref event.result) unset
  where
    go : (o : Option Bytes) → same_bool (is_set o) false ≡ true → o ≡ none
    go none e = refl
    go (some ref) e = cc

pub validate_event-named :
    (e : RunEvent) → validate_event e ≡ ok tt → wire.validate_run_id e.run_id ≡ ok tt
unfolding validate_event
validate_event-named e h = >>-ok (wire.validate_run_id e.run_id) _ h

-- ===== src/SandboxStore/Invariant/Outcomes.antt =====
-- The operations that end a Run, and the one that begins it, keep the histories.
use mathlib.Core.Path.{subst}
use harness_security_gateway.Prelude.{
  ap, ℕ, ◌+◌, ◌≡◌, refl, sym, ◌∙◌, Bool, true, false, not, ◌||◌, none, some, arith, leb,
  if◌then◌else◌, Bool-cases, inl, inr,
}
use harness_security_gateway.Prelude.Bytes.{Bytes, beq→≡}
use harness_security_gateway.Prelude.Results.{
  Result, ok, err, ◌>>◌, guard, >>=-eq-ok, >>-ok, >>-ok_right, ok-injective, guard-passed,
}
use harness_security_gateway.Prelude.Tables.{find_where, insert_row}
use harness_security_gateway.Prelude.Tables.Laws.{find_where_sound}
use harness_security_gateway.CoreStore.Validate.{is_set}
use harness_security_gateway.ExecutionWire.{RunEventType, validate_event}
use harness_security_gateway.SandboxStore.Types.{
  Error, illegal_transition, storage, RunRow, Run, StagedRow, Ledger,
}
use harness_security_gateway.SandboxStore.Validate.{validate_run_id, as_argument}
use harness_security_gateway.SandboxStore.Tables.{
  or_error, has_run_id, staged_for, read_run, is_terminal, require_run_credential,
}
use harness_security_gateway.SandboxStore.Events.{
  event_row, append_event_tx, interruption, interrupt, clear_runtime, reconcile, interrupted_ledger,
  release_lock, reconcile_interrupted,
}
use harness_security_gateway.SandboxStore.Staged.{
  TerminalCandidate, candidate_of, read_candidate, staged_terminal,
}
use harness_security_gateway.SandboxStore.Runtime.{
  retire, publish, holds_authority, confirm_runtime_stopped,
}
use harness_security_gateway.SandboxStore.History.Steps.{
  IsHistory-runtime, interrupt-IsHistory, as_argument-ok,
}
use harness_security_gateway.SandboxStore.Invariant.{
  row_of, events_of, IsStable, LedgerProperty, events_of-push, row_of→≡,
}
use harness_security_gateway.SandboxStore.Invariant.Operations.{
  Holds, Saves, Saves-bind, Saves-then, KeptBy, Saves-ok, or_error-some, read_run-row, IsHistory-of,
  events_of-own,
}
use harness_security_gateway.SandboxStore.Invariant.Runtimes.{append_event_tx-Saves, retire-Holds}

candidate_of-run_id :
    (s : StagedRow) (t : RunEventType) (c : TerminalCandidate)
    → candidate_of s t ≡ ok c
    → c.event.run_id ≡ s.run_id
unfolding candidate_of
candidate_of-run_id s t c h = ground arith

pub staged_terminal-run_id :
    (run_id : Bytes) (db : Ledger) (c : TerminalCandidate)
    → staged_terminal run_id db ≡ ok c
    → c.event.run_id ≡ run_id
unfolding staged_terminal read_candidate
staged_terminal-run_id run_id db c h =
    let (s, found, rest) =
      >>=-eq-ok (or_error storage (find_where (staged_for run_id) db.staged)) _ h in
    let (d, made, last) = >>=-eq-ok (candidate_of s s.event_type) _ rest in
    ap (λ (x : TerminalCandidate). x.event.run_id)
      (sym (ok-injective (>>-ok_right (guard _ storage) _ last)))
    ∙ candidate_of-run_id s s.event_type d made
    ∙ beq→≡ s.run_id run_id (
        find_where_sound (staged_for run_id) db.staged s
          (or_error-some storage (find_where (staged_for run_id) db.staged) s found))

module _ {P : LedgerProperty} (stable : IsStable P) where
  publish-Holds :
      (run_id : Bytes) (run : Run) (clock : ℕ → ℕ) (db db' : Ledger)
      → row_of run_id db.runs ≡ some run.row
      → publish run_id run clock db ≡ ok db'
      → Holds P db
      → Holds P db'
  unfolding publish
  publish-Holds run_id run clock db db' at done h = elim (Bool-cases run.terminal_pending) [
    | inl pending ↦
        let (c, staged, rest) = >>=-eq-ok (staged_terminal run_id db) _ (rw pending at done) in
        let (_, timely) = guard-passed (leb c.staged_at (clock 0)) illegal_transition _ rest in
        let (published, appended, last) =
          >>=-eq-ok (append_event_tx run.row c.event c.mapping (clock 1) db) _ timely in
        let saved =
          append_event_tx-Saves stable run.row c.event c.mapping (clock 1) db
            (ap (λ i. row_of i db.runs) (staged_terminal-run_id run_id db c staged) ∙ at) h in
        subst (Holds P) (ok-injective last) (subst (KeptBy P) appended saved.kept)
    | inr n ↦ unchanged (is_terminal run.row.state) (rw n at done)
  ]
    where
      unchanged :
          (b : Bool)
          → ◌≡◌ {A = Result Error Ledger} (if b then ok db else err illegal_transition) (ok db')
          → Holds P db'
      unchanged true e = rw (← ok-injective e) h
      unchanged false e = cc

  pub confirm_runtime_stopped-Saves :
      (run_id : Bytes) (clock : ℕ → ℕ) (db : Ledger)
      → Holds P db
      → Saves P (confirm_runtime_stopped run_id clock db)
  unfolding confirm_runtime_stopped
  confirm_runtime_stopped-Saves run_id clock db h = Saves-then (validate_run_id run_id) _ λ _.
      Saves-bind (read_run run_id db) _ λ run read.
        Saves-then (guard (not run.row.runtime_intent_pending) illegal_transition) _ λ _.
          Saves-then (if holds_authority run then require_run_credential run true db else ok tt) _
            λ _. Saves-bind (publish run_id run clock db) _ λ published done.
              Saves-bind (read_run run_id (retire run_id (clock 2) published)) _ λ final _.
                Saves-ok final (retire run_id (clock 2) published) (
                  retire-Holds stable run_id (clock 2) published (
                    publish-Holds run_id run clock db published (read_run-row run_id db run read)
                      done h))

  reconcile-Holds :
      (run_id message : Bytes) (row : RunRow) (now : ℕ) (db db' : Ledger)
      → row_of run_id db.runs ≡ some row
      → reconcile run_id row message now db ≡ ok db'
      → Holds P db
      → Holds P db'
  unfolding reconcile event_row
  reconcile-Holds run_id message row now db db' at done h =
      elim (Bool-cases (is_terminal row.state)) [
        | inl t ↦ subst (Holds P) (ok-injective (rw t at done)) (
            stable.on_rows (clear_runtime now) (λ r. refl) (λ r. refl) (λ r. refl)
              (has_run_id run_id) db.runs db.events
              (λ r es k. IsHistory-runtime r es false none none now k refl) h)
        | inr n ↦
            let checked : (as_argument
                    (validate_event (interruption run_id (row.last_event_seq + 1) message))
                  >> ok (interrupted_ledger run_id row message now db))
                ≡ ok db' =
              rw n at done in
            subst (Holds P) (ok-injective (>>-ok_right _ _ checked)) (
              stable.on_active run_id (interrupt (row.last_event_seq + 1) message now) (λ r. refl)
                db.runs db.events
                (insert_row (event_row (interruption run_id (row.last_event_seq + 1) message))
                  db.events)
                row at n
                (rw
                  (events_of-own (event_row (interruption run_id (row.last_event_seq + 1) message))
                    run_id db.events refl)
                  (interrupt-IsHistory row (events_of run_id db.events) run_id message now
                    (IsHistory-of run_id db row at (stable.histories db.runs db.events h))
                    (sym (row_of→≡ run_id db.runs row at)) (as_argument-ok _ (>>-ok _ _ checked))))
                (λ k m.
                  events_of-push run_id k
                    (event_row (interruption run_id (row.last_event_seq + 1) message)) db.events
                    refl m)
                h)
      ]

  pub reconcile_interrupted-Saves :
      (run_id message : Bytes) (now : ℕ) (db : Ledger)
      → Holds P db
      → Saves P (reconcile_interrupted run_id message now db)
  unfolding reconcile_interrupted
  reconcile_interrupted-Saves run_id message now db h = Saves-then (validate_run_id run_id) _ λ _.
      Saves-bind (read_run run_id db) _ λ run read.
        Saves-then
          (guard
            (not (
              is_set run.row.runtime_ref || run.row.runtime_intent_pending || run.terminal_pending))
            illegal_transition)
          _
          λ _. Saves-bind (reconcile run_id run.row message now db) _ λ reconciled done.
            Saves-bind (read_run run_id (release_lock run_id reconciled)) _ λ final _.
              Saves-ok final (release_lock run_id reconciled) (
                reconcile-Holds run_id message run.row now db reconciled
                  (read_run-row run_id db run read) done h)

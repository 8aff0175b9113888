-- ===== src/SandboxStore/Trace/Pending.antt =====
-- A Run with a staged outcome waits for the proof that its runtime has stopped: what the guards on
-- terminal_pending in internal/sandboxstore (runs.go, events.go, staged.go) refuse until then.
use harness_security_gateway.Prelude.{
  ℕ, ◌≡◌, refl, Bool, true, false, not, ◌&&◌, ◌||◌, Option, List, [], ◌∷◌, arith,
}
use harness_security_gateway.Prelude.Bytes.{Bytes}
use harness_security_gateway.Prelude.Results.{Result, ok, err, ◌>>=◌, ◌>>◌, guard}
use harness_security_gateway.Prelude.Tables.{exists_where}
use harness_security_gateway.CoreStore.Validate.{is_set}
use harness_security_gateway.ExecutionWire.{StartRunRequest, RunEvent, validate_event}
use harness_security_gateway.SandboxStore.Types.{
  Error, invalid_argument, conflict, SessionMapping, Run, Ledger,
}
use harness_security_gateway.SandboxStore.Validate.{
  validate_run_id, validate_boot_id, validate_runtime_ref, as_argument,
}
use harness_security_gateway.SandboxStore.Tables.{ledger_after, read_run, require_run_credential}
use harness_security_gateway.SandboxStore.Events.{is_ongoing, append_event, reconcile_interrupted}
use harness_security_gateway.SandboxStore.Equal.{same_event, same_mapping}
use harness_security_gateway.SandboxStore.Staged.{stage_terminal, stage_checked, staged_terminal}
use harness_security_gateway.SandboxStore.Runtime.{
  begin_runtime_intent, set_runtime_ref, mark_cancelling, intent_free, intent_refused, bindable,
  owned_by_other,
}
use harness_security_gateway.SandboxStore.Trace.{
  Op, register, clear_intent, confirm, authorize, append, stage, cancel, reconcile, begin_intent,
  set_runtime, step, run_ops,
}

-- An event, an outcome, a cancellation, an interruption, an intent or a reference for the Run `id`.
abbrev pub IsRequest : Bytes → Op → Type 0
IsRequest id (append event mapping now) = event.run_id ≡ id
IsRequest id (stage event mapping now) = event.run_id ≡ id
IsRequest id (cancel run_id now) = run_id ≡ id
IsRequest id (reconcile run_id message now) = run_id ≡ id
IsRequest id (begin_intent run_id boot_id now) = run_id ≡ id
IsRequest id (set_runtime run_id runtime_ref now) = run_id ≡ id
IsRequest id _ = ⊥

-- All operations of a list are such requests.
abbrev pub AreRequests : Bytes → List Op → Type 0
AreRequests id [] = Unit
AreRequests id (op ∷ ops) = IsRequest id op × AreRequests id ops

module _ {A B : Type 0} (db : Ledger) where
  ledger_after->>= :
      (r : Result Error A) (next : A → Result Error (B × Ledger))
      → ((a : A) → r ≡ ok a → ledger_after (next a) db ≡ db)
      → ledger_after (r >>= next) db ≡ db
  ledger_after->>= (ok a) next h = h a refl
  ledger_after->>= (err e) next h = refl

module _ {B : Type 0} (db : Ledger) where
  ledger_after->> :
      (r : Result Error (Unit {0})) (next : Result Error (B × Ledger))
      → ledger_after next db ≡ db
      → ledger_after (r >> next) db ≡ db
  ledger_after->> (ok u) next h = h
  ledger_after->> (err e) next h = refl

  ledger_after-guard :
      (b : Bool) (e : Error) (next : Result Error (B × Ledger))
      → b ≡ false
      → ledger_after (guard b e >> next) db ≡ db
  ledger_after-guard b e next h = rw h refl

module _ (id : Bytes) (db : Ledger) (read : Run) (found : read_run id db ≡ ok read)
    (waits : read.terminal_pending ≡ true) where
  append_event-waits :
      (event : RunEvent) (mapping : Option SessionMapping) (now : ℕ)
      → event.run_id ≡ id
      → ledger_after (append_event event mapping now db) db ≡ db
  unfolding append_event
  append_event-waits event mapping now named =
      let ends = read.credential_required && not (is_ongoing event.event_type) in
      let blocked : not (read.terminal_pending || ends) ≡ false = rw waits refl in
      ledger_after->> db (as_argument (validate_event event)) _
        (rw (named, found) (ledger_after-guard db _ _ _ blocked))

  stage_checked-waits :
      (event : RunEvent) (mapping : Option SessionMapping) (now : ℕ)
      → ledger_after (stage_checked read event mapping now db) db ≡ db
  unfolding stage_checked
  stage_checked-waits event mapping now = rw waits (
      ledger_after->>= db (staged_terminal event.run_id db) _ λ candidate _.
        let same = same_event candidate.event event && same_mapping candidate.mapping mapping in
        ledger_after->> db (guard same conflict) (ok (record read { terminal_pending = true }, db))
          refl)

  stage_terminal-waits :
      (event : RunEvent) (mapping : Option SessionMapping) (now : ℕ)
      → event.run_id ≡ id
      → ledger_after (stage_terminal event mapping now db) db ≡ db
  unfolding stage_terminal
  stage_terminal-waits event mapping now named =
      ledger_after->> db (as_argument (validate_event event)) _ (
        ledger_after->> db (guard (not (is_ongoing event.event_type)) invalid_argument) _ (
          rw (named, found)
            (ledger_after->> db (require_run_credential read true db) _
              (stage_checked-waits (record event { run_id = id }) mapping now))))

  mark_cancelling-waits : (now : ℕ) → ledger_after (mark_cancelling id now db) db ≡ db
  unfolding mark_cancelling
  mark_cancelling-waits now =
      let blocked : not read.terminal_pending ≡ false = rw waits refl in
      ledger_after->> db (validate_run_id id) _ (rw found (ledger_after-guard db _ _ _ blocked))

  reconcile_interrupted-waits :
      (message : Bytes) (now : ℕ) → ledger_after (reconcile_interrupted id message now db) db ≡ db
  unfolding reconcile_interrupted
  reconcile_interrupted-waits message now =
      let held = is_set read.row.runtime_ref in
      let blocked : not (held || read.row.runtime_intent_pending || read.terminal_pending) ≡ false =
        ground arith in
      ledger_after->> db (validate_run_id id) _ (rw found (ledger_after-guard db _ _ _ blocked))

  begin_runtime_intent-waits :
      (boot_id : Bytes) (now : ℕ) → ledger_after (begin_runtime_intent id boot_id now db) db ≡ db
  unfolding begin_runtime_intent
  begin_runtime_intent-waits boot_id now =
      let busy : intent_free read ≡ false = ground arith in
      ledger_after->> db (validate_run_id id) _ (
        ledger_after->> db (validate_boot_id boot_id) _ (
          rw found (
            ledger_after->> db (require_run_credential read false db) _
              (rw busy (ledger_after->> db (intent_refused read boot_id) _ refl)))))

  set_runtime_ref-waits :
      (runtime_ref : Bytes) (now : ℕ) → ledger_after (set_runtime_ref id runtime_ref now db) db ≡ db
  unfolding set_runtime_ref
  set_runtime_ref-waits runtime_ref now =
      let taken = exists_where (owned_by_other id runtime_ref) db.runs in
      let blocked : (bindable read runtime_ref && not taken) ≡ false = ground arith in
      ledger_after->> db (validate_run_id id) _ (
        ledger_after->> db (validate_runtime_ref runtime_ref) _ (
          rw found (
            ledger_after->> db (require_run_credential read true db) _
              (ledger_after-guard db _ _ _ blocked))))

  module _ (fingerprint_of : StartRunRequest → Option Bytes) (sha256_hex : Bytes → Bytes) where
    step-waits : (op : Op) → IsRequest id op → step fingerprint_of sha256_hex op db ≡ db
    unfolding step
    step-waits (append event mapping now) h = append_event-waits event mapping now h
    step-waits (stage event mapping now) h = stage_terminal-waits event mapping now h
    step-waits (cancel run_id now) h = rw h (mark_cancelling-waits now)
    step-waits (reconcile run_id message now) h = rw h (reconcile_interrupted-waits message now)
    step-waits (begin_intent run_id boot_id now) h = rw h (begin_runtime_intent-waits boot_id now)
    step-waits (set_runtime run_id runtime_ref now) h = rw h (set_runtime_ref-waits runtime_ref now)
    step-waits (register request revision workspace_id writable policy now) h = absurd h
    step-waits (clear_intent run_id now) h = absurd h
    step-waits (confirm run_id clock) h = absurd h
    step-waits (authorize a) h = absurd h

    -- While an outcome is staged for the Run, requests for it leave the ledger as it is.
    pub run_ops-waits :
        (ops : List Op) → AreRequests id ops → run_ops fingerprint_of sha256_hex ops db ≡ db
    unfolding run_ops
    run_ops-waits [] h = refl
    run_ops-waits (op ∷ ops) h = rw (step-waits op h.0) (run_ops-waits ops h.1)

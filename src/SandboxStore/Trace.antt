-- ===== src/SandboxStore/Trace.antt =====
-- Sequences of the store's operations.
pub mod Snapshots
pub mod Final
pub mod Recorded
pub mod Pending
pub mod Published
use harness_security_gateway.Prelude.{ℕ, ◌≡◌, Bool, Option, List, [], ◌∷◌}
use harness_security_gateway.Prelude.Bytes.{Bytes}
use harness_security_gateway.Prelude.Results.{Result}
use harness_security_gateway.ExecutionWire.{StartRunRequest, RunEvent}
use harness_security_gateway.SandboxStore.Types.{
  SessionPolicy, SessionMapping, TargetRevision, RunnerStateOwner, TargetCredential,
  CredentialGeneration, CredentialRef, Ledger,
}
use harness_security_gateway.SandboxStore.Tables.{ledger_after}
use harness_security_gateway.SandboxStore.Register.{register_start}
use harness_security_gateway.SandboxStore.Runtime.{
  begin_runtime_intent, clear_runtime_intent, set_runtime_ref, mark_cancelling,
  confirm_runtime_stopped,
}
use harness_security_gateway.SandboxStore.Events.{append_event, reconcile_interrupted}
use harness_security_gateway.SandboxStore.Staged.{stage_terminal}

-- What the operations on targets and credentials may store.
pub record Authorities : Type 0 where
  pub target_revisions : List TargetRevision
  pub runner_state_owners : List RunnerStateOwner
  pub target_credentials : List TargetCredential
  pub credential_generations : List CredentialGeneration
  pub credential_revocations : List CredentialRef

-- The operations with what they read from outside: arguments, the clock. `authorize` stands for every
-- operation on targets and credentials: it stores any authorities.
pub data Op : Type 0 where
  register : StartRunRequest → Bytes → Bytes → Bool → SessionPolicy → ℕ → Op
  begin_intent : Bytes → Bytes → ℕ → Op
  clear_intent : Bytes → ℕ → Op
  set_runtime : Bytes → Bytes → ℕ → Op
  cancel : Bytes → ℕ → Op
  append : RunEvent → Option SessionMapping → ℕ → Op
  stage : RunEvent → Option SessionMapping → ℕ → Op
  confirm : Bytes → (ℕ → ℕ) → Op
  reconcile : Bytes → Bytes → ℕ → Op
  authorize : Authorities → Op

module _ (fingerprint_of : StartRunRequest → Option Bytes) (sha256_hex : Bytes → Bytes) where
  -- The ledger after one operation.
  unfoldable pub step : Op → Ledger → Ledger
  step (register request revision workspace_id writable policy now) db =
      ledger_after
        (register_start fingerprint_of sha256_hex request revision workspace_id writable policy now
          db)
        db
  step (begin_intent run_id boot_id now) db =
      ledger_after (begin_runtime_intent run_id boot_id now db) db
  step (clear_intent run_id now) db = ledger_after (clear_runtime_intent run_id now db) db
  step (set_runtime run_id runtime_ref now) db =
      ledger_after (set_runtime_ref run_id runtime_ref now db) db
  step (cancel run_id now) db = ledger_after (mark_cancelling run_id now db) db
  step (append event mapping now) db = ledger_after (append_event event mapping now db) db
  step (stage event mapping now) db = ledger_after (stage_terminal event mapping now db) db
  step (confirm run_id clock) db = ledger_after (confirm_runtime_stopped run_id clock db) db
  step (reconcile run_id message now) db =
      ledger_after (reconcile_interrupted run_id message now db) db
  step (authorize a) db = record db {
    target_revisions = a.target_revisions;
    runner_state_owners = a.runner_state_owners;
    target_credentials = a.target_credentials;
    credential_generations = a.credential_generations;
    credential_revocations = a.credential_revocations;
  }

  unfoldable pub run_ops : List Op → Ledger → Ledger
  unfolding step
  run_ops [] db = db
  run_ops (op ∷ ops) db = run_ops ops (step op db)

-- The ledger of a new database.
abbrev pub empty_ledger : Ledger
empty_ledger = record {
  runs = [];
  events = [];
  staged = [];
  sessions = [];
  session_uses = [];
  workspace_locks = [];
  target_revisions = [];
  runner_state_owners = [];
  target_credentials = [];
  credential_generations = [];
  credential_revocations = [];
  credential_occupancy = [];
}

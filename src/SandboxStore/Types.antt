-- ===== src/SandboxStore/Types.antt =====
-- The errors, inputs and tables of internal/sandboxstore. Times are milliseconds; a column that is
-- only written for diagnosis is left out.
use harness_security_gateway.Prelude.{ℕ, Bool, ◌*◌, Option, List}
use harness_security_gateway.Prelude.Bytes.{Bytes}
use harness_security_gateway.ExecutionWire.{
  MediaType, RunState, RunEventType, ProgressKind, FailureCode, TextContent, RunFailure,
}

abbrev pub max_workspace_id_bytes : ℕ
max_workspace_id_bytes = 128

abbrev pub max_runtime_ref_bytes : ℕ
max_runtime_ref_bytes = 256

-- targetmanifest.MaxSessionAgeSeconds and MaxSessionTurns.
abbrev pub max_session_age_seconds : ℕ
max_session_age_seconds = 30 * 24 * 60 * 60

abbrev pub max_session_turns : ℕ
max_session_turns = 1024

-- runnerwire.MaxSessionTokenBytes.
abbrev pub max_vendor_token_bytes : ℕ
max_vendor_token_bytes = 1024

-- The sentinel errors of the store; `storage` is every other error.
pub data Error : Type 0 where
  not_found conflict workspace_busy session_busy revision_mismatch : Error
  target_revision_not_found illegal_transition event_sequence session_scope : Error
  invalid_argument unsafe_legacy_session_state runner_state_ownership_unknown : Error
  credential_authority credential_busy storage : Error

-- targetmanifest.SessionMode and RunnerStateKind.
pub data SessionMode : Type 0 where
  new_only opaque_resume unsupported : SessionMode

pub data RunnerStateKind : Type 0 where
  stateless persistent unsupported : RunnerStateKind

pub record SessionPolicy : Type 0 where
  pub mode : SessionMode
  pub max_age_seconds : ℕ
  pub max_turns : ℕ

pub record SessionMapping : Type 0 where
  pub ref : Bytes
  pub vendor_token : Bytes

-- A row of `runs`. A session column that is NULL in a legacy row reads as none, or as 0; the two
-- columns of an output are NULL together, and so are those of a failure.
pub record RunRow : Type 0 where
  pub run_id : Bytes
  pub fingerprint : Bytes
  pub target_id : Bytes
  pub target_revision : Bytes
  pub workspace_id : Bytes
  pub writable : Bool
  pub input_sha256 : Bytes
  pub requested_session_ref : Option Bytes
  pub session_scope_digest : Option Bytes
  pub session_mode : Option SessionMode
  pub session_max_age_seconds : ℕ
  pub session_max_turns : ℕ
  pub session_turn_number : ℕ
  pub deadline : ℕ
  pub state : RunState
  pub last_event_seq : ℕ
  pub runtime_ref : Option Bytes
  pub runtime_intent_pending : Bool
  pub runtime_intent_boot_id : Option Bytes
  pub output : Option TextContent
  pub result_session_ref : Option Bytes
  pub failure : Option RunFailure
  pub created_at : ℕ
  pub updated_at : ℕ
  pub terminal_at : Option ℕ

-- Run: a row with the answers of the EXISTS columns of runSelectColumns.
pub record Run : Type 0 where
  pub row : RunRow
  pub workspace_lock_held : Bool
  pub terminal_pending : Bool
  pub credential_required : Bool
  pub credential_lease_held : Bool

-- A row of `run_events`.
pub record EventRow : Type 0 where
  pub run_id : Bytes
  pub seq : ℕ
  pub event_type : RunEventType
  pub progress_kind : Option ProgressKind
  pub message : Option Bytes
  pub output_media_type : Option MediaType
  pub result_session_ref : Option Bytes
  pub failure_code : Option FailureCode

-- A row of `staged_terminals`.
pub record StagedRow : Type 0 where
  pub run_id : Bytes
  pub seq : ℕ
  pub event_type : RunEventType
  pub message : Option Bytes
  pub output_media_type : Option MediaType
  pub result_session_ref : Option Bytes
  pub vendor_token : Option Bytes
  pub failure_code : Option FailureCode
  pub staged_at : ℕ

-- A row of `sessions`.
pub record SessionRow : Type 0 where
  pub session_ref : Bytes
  pub target_id : Bytes
  pub target_revision : Bytes
  pub session_scope_digest : Bytes
  pub vendor_token : Bytes
  pub parent_session_ref : Option Bytes
  pub created_by_run_id : Bytes
  pub lineage_started_at : ℕ
  pub expires_at : ℕ
  pub turn_number : ℕ
  pub created_at : ℕ

pub record SessionUse : Type 0 where
  pub session_ref : Bytes
  pub run_id : Bytes

pub record WorkspaceLock : Type 0 where
  pub workspace_id : Bytes
  pub run_id : Bytes

-- A row of `target_revisions`; `bound` is credential_kind = 'bound'.
pub record TargetRevision : Type 0 where
  pub target_id : Bytes
  pub revision : Bytes
  pub runner_state_kind : RunnerStateKind
  pub bound : Bool

-- A row of `runner_state_owners`, by the target revision that it names.
pub record RunnerStateOwner : Type 0 where
  pub target_id : Bytes
  pub target_revision : Bytes

pub record CredentialRef : Type 0 where
  pub slot_ref : Bytes
  pub generation : ℕ

pub record TargetCredential : Type 0 where
  pub target_id : Bytes
  pub target_revision : Bytes
  pub ref : CredentialRef

pub record CredentialGeneration : Type 0 where
  pub ref : CredentialRef
  pub source_digest : Bytes
  pub workspace_ref : Bytes
  pub scope_digest : Bytes

pub record CredentialOccupancy : Type 0 where
  pub source_digest : Bytes
  pub ref : CredentialRef
  pub run_id : Bytes

pub record Ledger : Type 0 where
  pub runs : List RunRow
  pub events : List EventRow
  pub staged : List StagedRow
  pub sessions : List SessionRow
  pub session_uses : List SessionUse
  pub workspace_locks : List WorkspaceLock
  pub target_revisions : List TargetRevision
  pub runner_state_owners : List RunnerStateOwner
  pub target_credentials : List TargetCredential
  pub credential_generations : List CredentialGeneration
  pub credential_revocations : List CredentialRef
  pub credential_occupancy : List CredentialOccupancy

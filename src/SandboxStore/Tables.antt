-- ===== src/SandboxStore/Tables.antt =====
-- The SQL that the operations of internal/sandboxstore share: reading a Run, and the credential checks
-- of credentials.go.
use harness_security_gateway.Prelude.{
  Bool, true, false, not, ◌&&◌, ◌||◌, Option, none, some, ◌==◌, if◌then◌else◌,
}
use harness_security_gateway.Prelude.Bytes.{Bytes, beq, opt_beq, coalesce}
use harness_security_gateway.Prelude.Results.{Result, ok, err, ◌>>=◌, ◌>>◌, guard, is_ok}
use harness_security_gateway.Prelude.Tables.{find_where, exists_where, update_where, insert_row}
use harness_security_gateway.CoreStore.Validate.{is_empty}
use harness_security_gateway.ExecutionWire.{RunState, accepted, running, cancelling}
use harness_security_gateway.SandboxStore.Types.{
  Error, not_found, unsafe_legacy_session_state, credential_authority, credential_busy, storage,
  RunRow, Run, StagedRow, WorkspaceLock, TargetRevision, CredentialRef, TargetCredential,
  CredentialGeneration, CredentialOccupancy, Ledger,
}
use harness_security_gateway.SandboxStore.Validate.{validate_boot_id}

-- The ledger after an operation: an error rolls back.
abbrev pub ledger_after : {A : Type 0} → Result Error (A × Ledger) → Ledger → Ledger
ledger_after (ok (_, db)) before = db
ledger_after (err _) before = before

abbrev pub or_error : {A : Type 0} → Error → Option A → Result Error A
or_error e none = err e
or_error e (some a) = ok a

-- state IN ('accepted','running','cancelling')
abbrev pub is_active : RunState → Bool
is_active accepted = true
is_active running = true
is_active cancelling = true
is_active _ = false

-- isTerminal
abbrev pub is_terminal : RunState → Bool
is_terminal RunState.completed = true
is_terminal RunState.failed = true
is_terminal RunState.cancelled = true
is_terminal RunState.interrupted = true
is_terminal _ = false

-- WHERE run_id = ?
unfoldable pub has_run_id : Bytes → RunRow → Bool
has_run_id id r = beq r.run_id id

abbrev pub staged_for : Bytes → StagedRow → Bool
staged_for id s = beq s.run_id id

abbrev pub lock_of : Bytes → WorkspaceLock → Bool
lock_of id l = beq l.run_id id

abbrev pub occupied_by : Bytes → CredentialOccupancy → Bool
occupied_by id o = beq o.run_id id

abbrev pub revision_of : Bytes → Bytes → TargetRevision → Bool
revision_of target_id revision t = beq t.target_id target_id && beq t.revision revision

abbrev pub ref_beq : CredentialRef → CredentialRef → Bool
ref_beq a b = beq a.slot_ref b.slot_ref && a.generation == b.generation

-- The boot identifier of an intent is valid, and stands only beside an intent.
abbrev pub intent_readable : Bool → Option Bytes → Bool
intent_readable pending none = true
intent_readable pending (some boot_id) = pending && is_ok (validate_boot_id boot_id)

-- scanRun on a row, with the EXISTS columns.
unfoldable pub scan_run : Ledger → RunRow → Result Error Run
scan_run db row = do
  guard (intent_readable row.runtime_intent_pending row.runtime_intent_boot_id) storage
  ok (record {
    row = row;
    workspace_lock_held = exists_where (lock_of row.run_id) db.workspace_locks;
    terminal_pending = exists_where (staged_for row.run_id) db.staged;
    credential_required =
        exists_where (λ t. revision_of row.target_id row.target_revision t && t.bound)
          db.target_revisions;
    credential_lease_held = exists_where (occupied_by row.run_id) db.credential_occupancy;
  })

-- getStoredRunQuerier and getRunQuerier.
unfoldable pub read_run : Bytes → Ledger → Result Error Run
unfolding scan_run has_run_id
read_run id db = do
  row ← or_error not_found (find_where (has_run_id id) db.runs)
  run ← scan_run db row
  guard (not (is_empty (coalesce run.row.session_scope_digest))) unsafe_legacy_session_state
  ok run

-- UPDATE runs SET ... WHERE run_id = ?
abbrev pub set_run : Bytes → (RunRow → RunRow) → Ledger → Ledger
set_run id change db = record db { runs = update_where (has_run_id id) change db.runs }

abbrev revoked : CredentialRef → Ledger → Bool
revoked ref db = exists_where (ref_beq ref) db.credential_revocations

abbrev pub credential_of : RunRow → TargetCredential → Bool
credential_of row t = beq t.target_id row.target_id && beq t.target_revision row.target_revision

-- The generations that a Run's target may use now.
abbrev usable_for : RunRow → Ledger → CredentialGeneration → Bool
usable_for row db g =
    exists_where (λ t. credential_of row t && ref_beq t.ref g.ref) db.target_credentials
    && not (revoked g.ref db)

abbrev busy_with : CredentialGeneration → Bytes → CredentialOccupancy → Bool
busy_with g run_id o =
    beq o.source_digest g.source_digest || beq o.ref.slot_ref g.ref.slot_ref || beq o.run_id run_id

-- acquireRunCredential
unfoldable pub acquire_run_credential : Run → Ledger → Result Error Ledger
acquire_run_credential run db =
    if not run.credential_required
    then (do guard (not run.credential_lease_held) credential_authority; ok db)
    else (do
      g ←
          or_error credential_authority
            (find_where (usable_for run.row db) db.credential_generations)
      guard
          (opt_beq run.row.session_scope_digest g.scope_digest
            && beq g.workspace_ref run.row.workspace_id)
          credential_authority
      guard (not (exists_where (busy_with g run.row.run_id) db.credential_occupancy))
          credential_busy
      ok (record db {
        credential_occupancy =
            insert_row
              (record { source_digest = g.source_digest; ref = g.ref; run_id = run.row.run_id })
              db.credential_occupancy;
      }))

-- The generation behind an occupancy, for the Run's own workspace and scope.
abbrev backs : RunRow → CredentialOccupancy → CredentialGeneration → Bool
backs row o g =
    ref_beq g.ref o.ref
    && beq g.source_digest o.source_digest
    && beq g.workspace_ref row.workspace_id
    && opt_beq row.session_scope_digest g.scope_digest

abbrev proves : RunRow → Bool → Ledger → CredentialOccupancy → Bool
proves row allow_revoked db o =
    occupied_by row.run_id o
    && exists_where (λ t. credential_of row t && ref_beq t.ref o.ref) db.target_credentials
    && exists_where (backs row o) db.credential_generations
    && (allow_revoked || not (revoked o.ref db))

-- requireRunCredential
unfoldable pub require_run_credential : Run → Bool → Ledger → Result Error (Unit {0})
require_run_credential run allow_revoked db =
    if not run.credential_required
    then guard (not run.credential_lease_held) credential_authority
    else guard (exists_where (proves run.row allow_revoked db) db.credential_occupancy)
        credential_authority

-- ===== src/SandboxStore/Register.antt =====
-- RegisterStart of internal/sandboxstore/runs.go, GetRun, and requireTargetRevision of targets.go.
pub mod Repeat
use harness_security_gateway.Prelude.{
  ℕ, ◌+◌, Bool, true, false, not, ◌&&◌, ◌||◌, Option, none, some, ltb, leb, if◌then◌else◌,
}
use harness_security_gateway.Prelude.Bytes.{Bytes, beq, opt_beq}
use harness_security_gateway.Prelude.Results.{Result, ok, err, ◌>>=◌, ◌>>◌, guard}
use harness_security_gateway.Prelude.Tables.{find_where, exists_where, insert_row}
use harness_security_gateway.CoreStore.Validate.{is_set}
use harness_security_gateway.ExecutionWire.{
  StartRunRequest, accepted, validate_start_run, max_revision_bytes,
}
use harness_security_gateway.SandboxStore.Types.{
  Error, not_found, conflict, workspace_busy, session_busy, revision_mismatch,
  target_revision_not_found, session_scope, invalid_argument, runner_state_ownership_unknown,
  storage, SessionMode, new_only, opaque_resume, RunnerStateKind, stateless, persistent,
  SessionPolicy, RunRow, Run, WorkspaceLock, RunnerStateOwner, Ledger, max_workspace_id_bytes,
}
use harness_security_gateway.SandboxStore.Validate.{
  as_argument, validate_run_id, validate_logical_id, validate_session_policy,
}
use harness_security_gateway.SandboxStore.Tables.{
  or_error, is_active, revision_of, read_run, acquire_run_credential,
}
use harness_security_gateway.SandboxStore.Sessions.{session_for_admission, use_of}

abbrev owner_of : Bytes → Bytes → RunnerStateOwner → Bool
owner_of target_id revision o = beq o.target_id target_id && beq o.target_revision revision

abbrev owned_kind : RunnerStateKind → Bool → Result Error RunnerStateKind
owned_kind stateless false = ok stateless
owned_kind persistent true = ok persistent
owned_kind _ _ = err runner_state_ownership_unknown

-- requireTargetRevision
unfoldable pub require_target_revision : Bytes → Bytes → Ledger → Result Error RunnerStateKind
require_target_revision target_id revision db = do
  t ←
      or_error target_revision_not_found
        (find_where (revision_of target_id revision) db.target_revisions)
  owned_kind t.runner_state_kind (exists_where (owner_of target_id revision) db.runner_state_owners)

abbrev pub is_new_only : SessionMode → Bool
is_new_only new_only = true
is_new_only _ = false

abbrev pub resumes : SessionMode → Bool
resumes opaque_resume = true
resumes _ = false

abbrev pub needs_new_only : RunnerStateKind → Bool
needs_new_only stateless = true
needs_new_only _ = false

-- The turn of the new Run: of a first turn, or of the session that it resumes.
unfoldable pub turn_number :
    StartRunRequest → Bytes → SessionPolicy → ℕ → Ledger → Option Bytes → Result Error ℕ
turn_number request revision policy now db none = ok (if resumes policy.mode then 1 else 0)
turn_number request revision policy now db (some ref) = do
  s ← session_for_admission ref request.target_id revision request.session_scope_digest db
  guard (leb s.created_at now && ltb now s.expires_at && ltb s.turn_number policy.max_turns)
      session_scope
  ok (s.turn_number + 1)

abbrev pub in_active_scope : StartRunRequest → Bytes → RunRow → Bool
in_active_scope request revision r =
    beq r.target_id request.target_id
    && beq r.target_revision revision
    && opt_beq r.session_scope_digest request.session_scope_digest
    && is_active r.state

abbrev deadline_millis : Option ℕ → ℕ
deadline_millis none = 0
deadline_millis (some t) = t

abbrev pub new_run :
    StartRunRequest → Bytes → Bytes → Bytes → Bytes → Bool → SessionPolicy → ℕ → ℕ → RunRow
new_run request fingerprint input_digest revision workspace_id writable policy turn now = record {
  run_id = request.run_id;
  fingerprint = fingerprint;
  target_id = request.target_id;
  target_revision = revision;
  workspace_id = workspace_id;
  writable = writable;
  input_sha256 = input_digest;
  requested_session_ref = request.session_ref;
  session_scope_digest = some request.session_scope_digest;
  session_mode = some policy.mode;
  session_max_age_seconds = policy.max_age_seconds;
  session_max_turns = policy.max_turns;
  session_turn_number = turn;
  deadline = deadline_millis request.deadline;
  state = accepted;
  last_event_seq = 0;
  runtime_ref = none;
  runtime_intent_pending = false;
  runtime_intent_boot_id = none;
  output = none;
  result_session_ref = none;
  failure = none;
  created_at = now;
  updated_at = now;
  terminal_at = none;
}

abbrev pub insert_run : RunRow → Ledger → Ledger
insert_run row db = record db { runs = insert_row row db.runs }

abbrev lock_conflict : Bytes → Bytes → WorkspaceLock → Bool
lock_conflict workspace_id run_id l = beq l.workspace_id workspace_id || beq l.run_id run_id

-- INSERT OR IGNORE INTO workspace_locks
unfoldable pub lock_workspace : Bool → Bytes → Bytes → Ledger → Result Error Ledger
lock_workspace false workspace_id run_id db = ok db
lock_workspace true workspace_id run_id db = do
  guard (not (exists_where (lock_conflict workspace_id run_id) db.workspace_locks)) workspace_busy
  ok (record db {
    workspace_locks =
        insert_row (record { workspace_id = workspace_id; run_id = run_id }) db.workspace_locks;
  })

-- INSERT INTO session_uses, whose two columns are unique.
unfoldable pub consume_session : Option Bytes → Bytes → Ledger → Result Error Ledger
consume_session none run_id db = ok db
consume_session (some ref) run_id db = do
  guard (not (exists_where (use_of ref) db.session_uses)) session_scope
  guard (not (exists_where (λ u. beq u.run_id run_id) db.session_uses)) storage
  ok (record db {
    session_uses = insert_row (record { session_ref = ref; run_id = run_id }) db.session_uses;
  })

-- `fingerprint_of` is executionwire.StartRunFingerprint of a valid request, and `sha256_hex` the
-- lower-case hexadecimal digits of SHA-256.
module _ (fingerprint_of : StartRunRequest → Option Bytes) (sha256_hex : Bytes → Bytes) where
  -- A request whose run_id no Run has.
  unfoldable pub admit_start :
      StartRunRequest
      → Bytes
      → Bytes
      → Bytes
      → Bool
      → SessionPolicy
      → ℕ
      → Ledger
      → Result Error ((Run × Bool) × Ledger)
  unfolding turn_number lock_workspace consume_session
  admit_start request fingerprint revision workspace_id writable policy now db = do
    kind ← require_target_revision request.target_id revision db
    guard (not (needs_new_only kind) || is_new_only policy.mode) invalid_argument
    guard (ltb 0 now) invalid_argument
    turn ← turn_number request revision policy now db request.session_ref
    guard (not (exists_where (in_active_scope request revision) db.runs)) session_busy
    let row =
        new_run request fingerprint (sha256_hex request.input.text) revision workspace_id writable
          policy turn now
    let inserted = insert_run row db
    admitted ← read_run request.run_id inserted
    acquired ← acquire_run_credential admitted inserted
    locked ← lock_workspace writable workspace_id request.run_id acquired
    used ← consume_session request.session_ref request.run_id locked
    run ← read_run request.run_id used
    ok ((run, true), used)

  abbrev pub replay_or_admit :
      StartRunRequest
      → Bytes
      → Bytes
      → Bytes
      → Bool
      → SessionPolicy
      → ℕ
      → Ledger
      → Result Error Run
      → Result Error ((Run × Bool) × Ledger)
  replay_or_admit request fingerprint revision workspace_id writable policy now db (ok existing) =
      do guard (beq existing.row.fingerprint fingerprint) conflict; ok ((existing, false), db)
  replay_or_admit request fingerprint revision workspace_id writable policy now db (err not_found) =
      admit_start request fingerprint revision workspace_id writable policy now db
  replay_or_admit request fingerprint revision workspace_id writable policy now db (err e) = err e

  -- RegisterStart
  unfoldable pub register_start :
      StartRunRequest
      → Bytes
      → Bytes
      → Bool
      → SessionPolicy
      → ℕ
      → Ledger
      → Result Error ((Run × Bool) × Ledger)
  unfolding admit_start
  register_start request revision workspace_id writable policy now db = do
    as_argument (validate_start_run request)
    validate_logical_id revision max_revision_bytes
    guard (beq request.expected_revision revision) revision_mismatch
    validate_logical_id workspace_id max_workspace_id_bytes
    validate_session_policy policy policy.mode
    guard (not (is_set request.session_ref) || resumes policy.mode) session_scope
    fingerprint ← or_error invalid_argument (fingerprint_of request)
    replay_or_admit request fingerprint revision workspace_id writable policy now db
        (read_run request.run_id db)

-- GetRun
unfoldable pub get_run : Bytes → Ledger → Result Error Run
get_run run_id db = do validate_run_id run_id; read_run run_id db

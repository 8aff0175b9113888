-- ===== src/SandboxStore/Invariant/Admission.antt =====
-- RegisterStart keeps the histories.
use harness_security_gateway.Prelude.{
  ℕ, ◌≡◌, refl, Bool, true, false, not, ◌||◌, Option, none, some, [], ◌∷◌, arith, ltb,
}
use harness_security_gateway.Prelude.Bytes.{Bytes, beq, coalesce}
use harness_security_gateway.Prelude.Results.{
  Result, ok, err, ◌>>=◌, ◌>>◌, guard, is_ok, >>-ok, >>-ok_right, guard-passed,
}
use harness_security_gateway.Prelude.Tables.{exists_where}
use harness_security_gateway.CoreStore.Validate.{is_set, is_empty}
use harness_security_gateway.SessionAuth.{validate_digest}
use harness_security_gateway.ExecutionWire as wire
use harness_security_gateway.ExecutionWire.{
  StartRunRequest, validate_name, validate_start_run, validate_events, max_revision_bytes,
  max_target_id_bytes, invalid,
}
use harness_security_gateway.SandboxStore.Types.{
  Error, not_found, conflict, revision_mismatch, session_scope, session_busy,
  unsafe_legacy_session_state, invalid_argument, SessionPolicy, RunRow, Run, Ledger,
  max_workspace_id_bytes,
}
use harness_security_gateway.SandboxStore.Validate.{
  validate_logical_id, validate_session_policy, as_argument,
}
use harness_security_gateway.SandboxStore.Tables.{
  or_error, read_run, scan_run, acquire_run_credential,
}
use harness_security_gateway.SandboxStore.Register.{
  new_run, insert_run, require_target_revision, needs_new_only, is_new_only, turn_number,
  in_active_scope, lock_workspace, consume_session, admit_start, resumes, replay_or_admit,
  register_start,
}
use harness_security_gateway.SandboxStore.History.{IsHistory, final_fits}
use harness_security_gateway.SandboxStore.History.Steps.{as_argument-ok}
use harness_security_gateway.SandboxStore.Invariant.{row_of, IsStable, LedgerProperty}
use harness_security_gateway.SandboxStore.Invariant.Operations.{
  Holds, Saves, Saves-bind, Saves-then, Saves-ok, Same-Holds, acquire_run_credential-Same,
  lock_workspace-Same, consume_session-Same,
}

-- A Run that is not found has no row.
pub read_run-missing :
    (id : Bytes) (db : Ledger) → read_run id db ≡ err not_found → row_of id db.runs ≡ none
unfolding read_run scan_run
read_run-missing id db h = go (row_of id db.runs) h
  where
    go :
        (o : Option RunRow)
        → (do
          row ← or_error not_found o
          run ← scan_run db row
          guard (not (is_empty (coalesce run.row.session_scope_digest))) unsafe_legacy_session_state
          ok run)
          ≡ err not_found
        → o ≡ none
    go none h = refl
    go (some row) h = absurd (ground arith)

digest_set : (d : Bytes) → is_ok (validate_digest d) ≡ true → is_empty d ≡ false
unfolding validate_digest
digest_set [] h = cc
digest_set (c ∷ d) h = refl

new_run-IsHistory :
    (request : StartRunRequest) (fingerprint digest revision workspace_id : Bytes) (writable : Bool)
    (policy : SessionPolicy) (turn now : ℕ)
    → validate_start_run request ≡ ok tt
    → IsHistory
        (new_run request fingerprint digest revision workspace_id writable policy turn now)
        []
unfolding validate_start_run validate_events final_fits
new_run-IsHistory request fingerprint digest revision workspace_id writable policy turn now h =
    let after_target =
      >>-ok_right (validate_name request.target_id max_target_id_bytes) _
        (>>-ok_right (wire.validate_run_id request.run_id) _ h) in
    let after_revision =
      >>-ok_right (validate_name request.expected_revision max_revision_bytes) _ after_target in
    let (digest_ok, _) =
      guard-passed (is_ok (validate_digest request.session_scope_digest)) invalid _
        after_revision in
    record {
      named = >>-ok (wire.validate_run_id request.run_id) _ h;
      scoped = digest_set request.session_scope_digest digest_ok;
      readable = refl;
      known = refl;
      listed = refl;
      counted = refl;
      final = refl;
      room = λ _. omega arith;
      bounded = omega arith;
    }

module _ {P : LedgerProperty} (stable : IsStable P) where
  module _ (fingerprint_of : StartRunRequest → Option Bytes) (sha256_hex : Bytes → Bytes)
      (request : StartRunRequest) (revision workspace_id : Bytes) (writable : Bool)
      (policy : SessionPolicy) (now : ℕ) (db : Ledger) where
    -- What the steps after the insertion do to the ledger.
    admitted-Holds :
        (row : RunRow) (run : Run) (acquired locked used : Ledger)
        → acquire_run_credential run (insert_run row db) ≡ ok acquired
        → lock_workspace writable workspace_id request.run_id acquired ≡ ok locked
        → consume_session request.session_ref request.run_id locked ≡ ok used
        → Holds P (insert_run row db)
        → Holds P used
    admitted-Holds row run acquired locked used a l u h =
        Same-Holds P locked used
          (consume_session-Same locked used request.session_ref request.run_id u)
          (Same-Holds P acquired locked
            (lock_workspace-Same acquired locked writable workspace_id request.run_id l)
            (Same-Holds P (insert_run row db) acquired
              (acquire_run_credential-Same (insert_run row db) acquired run a) h))

    admit_start-Saves :
        (fingerprint : Bytes)
        → validate_start_run request ≡ ok tt
        → row_of request.run_id db.runs ≡ none
        → Holds P db
        → Saves P (
            admit_start fingerprint_of sha256_hex request fingerprint revision workspace_id writable
              policy now db)
    unfolding admit_start
    admit_start-Saves fingerprint valid fresh h =
        Saves-bind (require_target_revision request.target_id revision db) _ λ kind _.
          Saves-then (guard (not (needs_new_only kind) || is_new_only policy.mode) invalid_argument)
            _
            λ _. Saves-then (guard (ltb 0 now) invalid_argument) _ λ _.
              Saves-bind (turn_number request revision policy now db request.session_ref) _
                λ turn _.
                  let row =
                    new_run request fingerprint (sha256_hex request.input.text) revision
                      workspace_id writable policy turn now in
                  Saves-then
                    (guard (not (exists_where (in_active_scope request revision) db.runs))
                      session_busy)
                    _
                    λ _. Saves-bind (read_run request.run_id (insert_run row db)) _ λ admitted _.
                      Saves-bind (acquire_run_credential admitted (insert_run row db)) _
                        λ acquired a.
                          Saves-bind (lock_workspace writable workspace_id request.run_id acquired)
                            _
                            λ locked l.
                              Saves-bind (consume_session request.session_ref request.run_id locked)
                                _
                                λ used u. Saves-bind (read_run request.run_id used) _ λ run _.
                                  Saves-ok (run, true) used
                                    (admitted-Holds row admitted acquired locked used a l u (
                                      stable.on_insert row db.runs db.events fresh
                                        (new_run-IsHistory request fingerprint
                                          (sha256_hex request.input.text) revision workspace_id
                                          writable policy turn now valid)
                                        h))

    replay_or_admit-Saves :
        (fingerprint : Bytes) (r : Result Error Run)
        → validate_start_run request ≡ ok tt
        → read_run request.run_id db ≡ r
        → Holds P db
        → Saves P (
            replay_or_admit fingerprint_of sha256_hex request fingerprint revision workspace_id
              writable policy now db r)
    replay_or_admit-Saves fingerprint (ok existing) valid e h =
        Saves-then (guard (beq existing.row.fingerprint fingerprint) conflict) _
          λ _. Saves-ok (existing, false) db h
    replay_or_admit-Saves fingerprint (err not_found) valid e h =
        admit_start-Saves fingerprint valid (read_run-missing request.run_id db e) h
    replay_or_admit-Saves fingerprint (err _) valid e h = record { kept = tt }

    pub register_start-Saves :
        Holds P db
        → Saves P (
            register_start fingerprint_of sha256_hex request revision workspace_id writable policy
              now db)
    unfolding register_start
    register_start-Saves h = Saves-then (as_argument (validate_start_run request)) _ λ valid.
        Saves-then (validate_logical_id revision max_revision_bytes) _ λ _.
          Saves-then (guard (beq request.expected_revision revision) revision_mismatch) _ λ _.
            Saves-then (validate_logical_id workspace_id max_workspace_id_bytes) _ λ _.
              Saves-then (validate_session_policy policy policy.mode) _ λ _.
                Saves-then
                  (guard (not (is_set request.session_ref) || resumes policy.mode) session_scope) _
                  λ _.
                    Saves-bind (or_error invalid_argument (fingerprint_of request)) _
                      λ fingerprint _.
                        replay_or_admit-Saves fingerprint (read_run request.run_id db)
                          (as_argument-ok (validate_start_run request) valid) refl h

-- ===== src/SandboxStore/Register/Repeat.antt =====
-- RegisterStart of internal/sandboxstore/runs.go can be repeated.
use harness_security_gateway.Prelude.{
  ap, ℕ, ◌≡◌, refl, sym, ◌∙◌, Bool, true, false, not, ◌||◌, Option, none, some, ltb,
}
use harness_security_gateway.Prelude.Bytes.{Bytes, beq, beq_refl}
use harness_security_gateway.Prelude.Results.{
  Result, ok, err, guard-passed, >>-ok, >>-ok_right, >>=-eq-ok, ok-injective,
}
use harness_security_gateway.Prelude.Tables.{exists_where}
use harness_security_gateway.Prelude.Tables.Laws.{find_where-insert, find_where-none}
use harness_security_gateway.CoreStore.Validate.{is_set}
use harness_security_gateway.ExecutionWire.{StartRunRequest, validate_start_run, max_revision_bytes}
use harness_security_gateway.SandboxStore.Types.{
  Error, not_found, conflict, revision_mismatch, session_scope, session_busy, invalid_argument,
  SessionPolicy, RunRow, Run, Ledger, max_workspace_id_bytes,
}
use harness_security_gateway.SandboxStore.Validate.{
  validate_logical_id, validate_session_policy, as_argument,
}
use harness_security_gateway.SandboxStore.Tables.{
  or_error, has_run_id, read_run, acquire_run_credential,
}
use harness_security_gateway.SandboxStore.Register.{
  new_run, insert_run, require_target_revision, needs_new_only, is_new_only, turn_number,
  in_active_scope, lock_workspace, consume_session, admit_start, resumes, replay_or_admit,
  register_start,
}
use harness_security_gateway.SandboxStore.Invariant.{row_of}
use harness_security_gateway.SandboxStore.Invariant.Operations.{
  read_run-row, acquire_run_credential-Same, lock_workspace-Same, consume_session-Same,
}
use harness_security_gateway.SandboxStore.Invariant.Admission.{read_run-missing}

-- The row that is inserted where its identifier is new is the one that is found.
row_of-inserted :
    (row : RunRow) (db : Ledger)
    → row_of row.run_id db.runs ≡ none
    → row_of row.run_id (insert_run row db).runs ≡ some row
unfolding has_run_id
row_of-inserted row db fresh =
    find_where-insert (has_run_id row.run_id) row db.runs
    ∙ rw (find_where-none (has_run_id row.run_id) db.runs fresh, beq_refl row.run_id) refl

some-injective : {A : Type 0} {a b : A} → some a ≡ some b → a ≡ b
some-injective e = cc

module _ (fingerprint_of : StartRunRequest → Option Bytes) (sha256_hex : Bytes → Bytes)
    (request : StartRunRequest) (revision workspace_id : Bytes) (writable : Bool)
    (policy : SessionPolicy) (now : ℕ) (db : Ledger) where
  -- What a successful registration leaves: the Run is read back, with the request's fingerprint.
  record IsRegistered (fingerprint : Bytes) (run : Run) (after : Ledger) : Type 0 where
    found : read_run request.run_id after ≡ ok run
    same : beq run.row.fingerprint fingerprint ≡ true

  admit_start-IsRegistered :
      (fingerprint : Bytes) (run : Run) (created : Bool) (after : Ledger)
      → row_of request.run_id db.runs ≡ none
      → admit_start fingerprint_of sha256_hex request fingerprint revision workspace_id writable
          policy now db
        ≡ ok ((run, created), after)
      → IsRegistered fingerprint run after
  unfolding admit_start
  admit_start-IsRegistered fingerprint run created after fresh h =
      let (kind, _, h1) = >>=-eq-ok (require_target_revision request.target_id revision db) _ h in
      let (_, h2) =
        guard-passed (not (needs_new_only kind) || is_new_only policy.mode) invalid_argument _ h1 in
      let (_, h3) = guard-passed (ltb 0 now) invalid_argument _ h2 in
      let (turn, _, h4) =
        >>=-eq-ok (turn_number request revision policy now db request.session_ref) _ h3 in
      let (_, h5) =
        guard-passed (not (exists_where (in_active_scope request revision) db.runs)) session_busy _
          h4 in
      let row =
        new_run request fingerprint (sha256_hex request.input.text) revision workspace_id writable
          policy turn now in
      let (admitted, _, h6) = >>=-eq-ok (read_run request.run_id (insert_run row db)) _ h5 in
      let (acquired, a, h7) =
        >>=-eq-ok (acquire_run_credential admitted (insert_run row db)) _ h6 in
      let (locked, l, h8) =
        >>=-eq-ok (lock_workspace writable workspace_id request.run_id acquired) _ h7 in
      let (used, u, h9) =
        >>=-eq-ok (consume_session request.session_ref request.run_id locked) _ h8 in
      let (final, read, h10) = >>=-eq-ok (read_run request.run_id used) _ h9 in
      let runs : used.runs ≡ (insert_run row db).runs =
        (consume_session-Same locked used request.session_ref request.run_id u).0
        ∙ (lock_workspace-Same acquired locked writable workspace_id request.run_id l).0
        ∙ (acquire_run_credential-Same (insert_run row db) acquired admitted a).0 in
      let stored : final.row ≡ row = some-injective (
        sym (read_run-row request.run_id used final read)
        ∙ ap (row_of request.run_id) runs
        ∙ row_of-inserted row db fresh) in
      let ends = ok-injective h10 in
      record {
        found =
            ap (read_run request.run_id) (sym (ap (λ (x : (Run × Bool) × Ledger). x.1) ends))
            ∙ read
            ∙ ap (λ (x : (Run × Bool) × Ledger). ok x.0.0) ends;
        same =
            ap (λ (x : (Run × Bool) × Ledger). beq x.0.0.row.fingerprint fingerprint) (sym ends)
            ∙ ap (λ (r : RunRow). beq r.fingerprint fingerprint) stored
            ∙ beq_refl fingerprint;
      }

  replay_or_admit-IsRegistered :
      (fingerprint : Bytes) (r : Result Error Run) (run : Run) (created : Bool) (after : Ledger)
      → read_run request.run_id db ≡ r
      → replay_or_admit fingerprint_of sha256_hex request fingerprint revision workspace_id writable
          policy now db r
        ≡ ok ((run, created), after)
      → IsRegistered fingerprint run after
  replay_or_admit-IsRegistered fingerprint (ok existing) run created after e h =
      let (same, last) = guard-passed (beq existing.row.fingerprint fingerprint) conflict _ h in
      let ends = ok-injective last in
      record {
        found =
            ap (read_run request.run_id) (sym (ap (λ (x : (Run × Bool) × Ledger). x.1) ends))
            ∙ e
            ∙ ap (λ (x : (Run × Bool) × Ledger). ok x.0.0) ends;
        same =
            ap (λ (x : (Run × Bool) × Ledger). beq x.0.0.row.fingerprint fingerprint) (sym ends)
            ∙ same;
      }
  replay_or_admit-IsRegistered fingerprint (err not_found) run created after e h =
      admit_start-IsRegistered fingerprint run created after (read_run-missing request.run_id db e)
        h
  replay_or_admit-IsRegistered fingerprint (err _) run created after e h = cc

  replay_or_admit-replays :
      (fingerprint : Bytes) (run : Run) (after : Ledger) (later : ℕ)
      → IsRegistered fingerprint run after
      → replay_or_admit fingerprint_of sha256_hex request fingerprint revision workspace_id writable
          policy later after
          (read_run request.run_id after)
        ≡ ok ((run, false), after)
  replay_or_admit-replays fingerprint run after later r = rw (r.found, r.same) refl

  -- A StartRun request can be repeated: once RegisterStart has succeeded, the same request succeeds at
  -- any later clock reading too, answers with the same Run as one that is not new, and leaves the ledger
  -- as it is, although its workspace is then locked, its session used and its scope busy.
  pub register_start-repeats :
      (run : Run) (created : Bool) (after : Ledger) (later : ℕ)
      → register_start fingerprint_of sha256_hex request revision workspace_id writable policy now
          db
        ≡ ok ((run, created), after)
      → register_start fingerprint_of sha256_hex request revision workspace_id writable policy later
          after
        ≡ ok ((run, false), after)
  unfolding register_start
  register_start-repeats run created after later h =
      let h1 = >>-ok_right (as_argument (validate_start_run request)) _ h in
      let h2 = >>-ok_right (validate_logical_id revision max_revision_bytes) _ h1 in
      let (expected, h3) =
        guard-passed (beq request.expected_revision revision) revision_mismatch _ h2 in
      let h4 = >>-ok_right (validate_logical_id workspace_id max_workspace_id_bytes) _ h3 in
      let h5 = >>-ok_right (validate_session_policy policy policy.mode) _ h4 in
      let (resumable, h6) =
        guard-passed (not (is_set request.session_ref) || resumes policy.mode) session_scope _ h5 in
      let (fingerprint, made, h7) =
        >>=-eq-ok (or_error invalid_argument (fingerprint_of request)) _ h6 in
      rw
        (
          >>-ok (as_argument (validate_start_run request)) _ h,
          >>-ok (validate_logical_id revision max_revision_bytes) _ h1,
          expected,
          >>-ok (validate_logical_id workspace_id max_workspace_id_bytes) _ h3,
          >>-ok (validate_session_policy policy policy.mode) _ h4,
          resumable,
          made,
        )
        (replay_or_admit-replays fingerprint run after later (
          replay_or_admit-IsRegistered fingerprint (read_run request.run_id db) run created after
            refl h7))

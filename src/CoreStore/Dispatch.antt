-- ===== src/CoreStore/Dispatch.antt =====
-- ListRunningRuns, ClaimQueuedRun, PrepareRunStart and MarkRunRunning of internal/corestore/runs.go.
pub mod Order
pub mod Claim
use harness_security_gateway.Prelude.{
  ℕ, ◌+◌, Bool, true, not, ◌&&◌, ◌||◌, Option, none, some, List, [], ◌∷◌, ltb, leb, ◌==◌,
  if◌then◌else◌,
}
use harness_security_gateway.Prelude.Bytes.{Bytes, beq, opt_beq, coalesce, bytes_lt}
use harness_security_gateway.Prelude.Results.{Result, ok, err, ◌>>◌, guard}
use harness_security_gateway.Prelude.Tables.{
  select_where, count_where, exists_where, update_where, order_by, take,
}
use harness_security_gateway.CoreStore.Types.{
  Error, invalid, conflict, not_found, dispatch_lost, start_unprepared, invalid_transition, storage,
  Run, queued, dispatching, running, PrepareRunStartInput, PreparedRunStart, Session, Db, is_queued,
  is_dispatching, is_running, is_active, max_id_bytes, max_reconcile_runs,
}
use harness_security_gateway.CoreStore.Validate.{
  Checked, now_millis, validate_identifier, validate_prepare_run_start,
}
use harness_security_gateway.CoreStore.Options.{validate_lease, lease_expiry}
use harness_security_gateway.CoreStore.Tables.{
  Tx, attempt, sql_expired, lapsed, has_id, find_run, or_error, scope_of, find_session,
}

-- ORDER BY created_at_ms, id
unfoldable pub queue_before : Run → Run → Bool
queue_before a b =
    ltb a.created_at b.created_at || (a.created_at == b.created_at && bytes_lt a.id b.id)

-- ListRunningRuns
unfoldable pub list_running_runs : ℕ → Db → Result Error (List Run)
unfolding queue_before
list_running_runs limit db = do
  guard (leb 1 limit && leb limit max_reconcile_runs) invalid
  ok (take limit (order_by queue_before (select_where (λ r. is_running r.state) db.runs)))

abbrev pub expired_dispatch : ℕ → Run → Bool
expired_dispatch now r = is_dispatching r.state && sql_expired now r.dispatch_expires_at

abbrev pub requeue : ℕ → Run → Run
requeue now r = record r {
  state = queued;
  dispatch_token = none;
  dispatch_expires_at = none;
  updated_at = now;
}

unfoldable pub release_expired : ℕ → List Run → List Run
release_expired now runs = update_where (expired_dispatch now) (requeue now) runs

abbrev pub first_of_list : List Run → Option Run
first_of_list [] = none
first_of_list (r ∷ _) = some r

-- SELECT ... WHERE state = 'queued' ORDER BY created_at_ms, id LIMIT 1
unfoldable pub next_queued : List Run → Option Run
unfolding queue_before
next_queued runs =
    first_of_list (order_by queue_before (select_where (λ r. is_queued r.state) runs))

abbrev pub claimable : Bytes → Run → Bool
claimable id r = has_id id r && is_queued r.state

abbrev pub dispatch : Bytes → ℕ → ℕ → Run → Run
dispatch token expires now r = record r {
  state = dispatching;
  dispatch_token = some token;
  dispatch_expires_at = some expires;
  dispatch_attempt_count = r.dispatch_attempt_count + 1;
  updated_at = now;
}

-- The index runs_dispatch_token.
abbrev pub has_dispatch_token : Bytes → Run → Bool
has_dispatch_token token r = opt_beq r.dispatch_token token

unfoldable pub claim_next : ℕ → ℕ → Result Error Bytes → Db → Db → Option Run → Tx (Option Run)
claim_next lease now new_token db released none = (ok none, released)
claim_next lease now new_token db released (some run) = attempt new_token db λ token.
    attempt (validate_identifier token max_id_bytes) db λ _.
      attempt (lease_expiry now lease) db λ expires.
        attempt (guard (not (exists_where (has_dispatch_token token) released.runs)) storage) db
          λ _. attempt (guard (count_where (claimable run.id) released.runs == 1) storage) db λ _. (
            ok (some (dispatch token expires now run)),
            record released {
              runs = update_where (claimable run.id) (dispatch token expires now) released.runs;
            },
          )

-- ClaimQueuedRun; `new_token` is what the token source returns if it is called.
unfoldable pub claim_queued_run : ℕ → ℕ → Result Error Bytes → Db → Tx (Option Run)
unfolding claim_next
claim_queued_run lease clock new_token db =
    attempt (validate_lease lease >> now_millis clock) db λ now.
      let released = record db { runs = release_expired now db.runs } in
      if exists_where (λ r. is_active r.state) released.runs
      then (ok none, released)
      else claim_next lease now new_token db released (next_queued released.runs)

abbrev pub prepared_start_from_run : Run → PreparedRunStart
prepared_start_from_run run = record {
  session_ref = run.start_session_ref;
  deadline = run.start_deadline;
}

-- A fresh start requires no current session, and a resumed one exactly the current reference.
abbrev pub check_start_session : Option Bytes → Option Session → Checked
check_start_session none none = ok tt
check_start_session none (some current) = err conflict
check_start_session (some ref) none = err conflict
check_start_session (some ref) (some current) = guard (beq current.ref ref) conflict

abbrev pub preparable : Bytes → Bytes → Run → Bool
preparable id token r =
    has_id id r && is_dispatching r.state && opt_beq r.dispatch_token token && not r.start_prepared

abbrev pub prepare : Option Bytes → Option ℕ → ℕ → Run → Run
prepare session_ref deadline now r = record r {
  start_prepared = true;
  start_session_ref = session_ref;
  start_deadline = deadline;
  updated_at = now;
}

abbrev pub holds_dispatch : ℕ → Bytes → Run → Bool
holds_dispatch now token run =
    is_dispatching run.state
    && beq (coalesce run.dispatch_token) token
    && not (lapsed now run.dispatch_expires_at)

-- PrepareRunStart
unfoldable pub prepare_run_start : ℕ → PrepareRunStartInput → Db → Tx PreparedRunStart
prepare_run_start clock input db = attempt (now_millis clock) db λ now.
    attempt (validate_prepare_run_start input now) db λ _.
      attempt (or_error not_found (find_run input.run_id db.runs)) db λ run.
        attempt (guard (holds_dispatch now input.dispatch_token run) dispatch_lost) db λ _.
          if run.start_prepared
          then (ok (prepared_start_from_run run), db)
          else attempt
              (check_start_session input.session_ref (find_session (scope_of run) db.sessions)) db
              λ _.
                attempt
                  (guard (count_where (preparable run.id input.dispatch_token) db.runs == 1)
                    storage)
                  db
                  λ _. (
                    ok (record { session_ref = input.session_ref; deadline = input.deadline }),
                    record db {
                      runs =
                          update_where (preparable run.id input.dispatch_token)
                            (prepare input.session_ref input.deadline now) db.runs;
                    },
                  )

abbrev pub run_now : ℕ → Run → Run
run_now now r = record r { state = running; dispatch_expires_at = none; updated_at = now }

-- MarkRunRunning
unfoldable pub mark_run_running : ℕ → Bytes → Bytes → Db → Tx (Unit {0})
mark_run_running clock run_id token db =
    attempt
      (validate_identifier run_id max_id_bytes
        >> (validate_identifier token max_id_bytes >> now_millis clock))
      db
      λ now. attempt (or_error not_found (find_run run_id db.runs)) db λ run.
        attempt (guard (beq (coalesce run.dispatch_token) token) dispatch_lost) db λ _.
          if is_running run.state
          then (ok tt, db)
          else attempt (guard (is_dispatching run.state) invalid_transition) db λ _.
            attempt (guard (not (lapsed now run.dispatch_expires_at)) dispatch_lost) db λ _.
              attempt (guard run.start_prepared start_unprepared) db λ _.
                (ok tt, record db { runs = update_where (has_id run_id) (run_now now) db.runs })

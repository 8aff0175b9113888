-- ===== src/SandboxStore/Trace/Snapshots.antt =====
-- Along every sequence of operations each Run has a valid snapshot.
use mathlib.Core.Path.{subst}
use harness_security_gateway.Prelude.{
  ap, ◌≤◌, ◌<◌, ◌≡◌, ◌∙◌, refl, sym, false, Option, some, List, [], ◌∷◌, map,
}
use harness_security_gateway.Prelude.Bytes.{Bytes}
use harness_security_gateway.Prelude.Results.{Result, ok, err}
use harness_security_gateway.Prelude.Tables.{find_where, select_where}
use harness_security_gateway.ExecutionWire as wire
use harness_security_gateway.ExecutionWire.{
  StartRunRequest, RunEvent, GetRunResponse, validate_response,
}
use harness_security_gateway.SandboxStore.Types.{Error, RunRow, Run, EventRow, Ledger}
use harness_security_gateway.SandboxStore.Validate.{validate_run_id}
use harness_security_gateway.SandboxStore.Tables.{ledger_after, is_terminal, scan_run, read_run}
use harness_security_gateway.SandboxStore.Snapshot.{
  stored_event, list_events, response_of, get_snapshot,
}
use harness_security_gateway.SandboxStore.History.{IsHistory}
use harness_security_gateway.SandboxStore.History.Response.{IsHistory-listed, IsHistory-valid}
use harness_security_gateway.SandboxStore.Invariant.{
  IsStable, LedgerProperty, AreHistories-IsStable, row_of, events_of, row_of→≡,
}
use harness_security_gateway.SandboxStore.Invariant.Operations.{
  HasHistories, Holds, Saves, IsHistory-of,
}
use harness_security_gateway.SandboxStore.Invariant.Runtimes.{
  append_event-Saves, stage_terminal-Saves, begin_runtime_intent-Saves, clear_runtime_intent-Saves,
  set_runtime_ref-Saves, mark_cancelling-Saves,
}
use harness_security_gateway.SandboxStore.Invariant.Outcomes.{
  confirm_runtime_stopped-Saves, reconcile_interrupted-Saves,
}
use harness_security_gateway.SandboxStore.Invariant.Admission.{register_start-Saves}
use harness_security_gateway.SandboxStore.Trace.{
  Op, register, begin_intent, clear_intent, set_runtime, cancel, append, stage, confirm, reconcile,
  authorize, step, run_ops, empty_ledger,
}

-- The snapshot of a Run: it is read, it is that Run's, it passes the validation of the wire, and its
-- events are those of the ledger.
pub record IsSnapshot (db : Ledger) (id : Bytes) (row : RunRow) : Type 0 where
  pub response : GetRunResponse
  pub read : get_snapshot id db ≡ ok response
  pub valid : validate_response response ≡ ok tt
  pub named : response.status.run_id ≡ id
  pub state : response.status.state ≡ row.state
  pub count : response.status.last_event_seq ≡ row.last_event_seq
  pub listed : response.events ≡ map stored_event (events_of id db.events)

-- A stored row with a history is read as a Run.
pub read_run-history :
    (db : Ledger) (id : Bytes) (row : RunRow) (es : List EventRow)
    → row_of id db.runs ≡ some row
    → IsHistory row es
    → (run : Run) × (read_run id db ≡ ok run) × (run.row ≡ row)
unfolding read_run scan_run
read_run-history db id row es at h = rw (at, h.readable, h.scoped) (_, refl, refl)

get_snapshot-reads :
    (db : Ledger) (id : Bytes) (run : Run) (events : List RunEvent)
    → wire.validate_run_id id ≡ ok tt
    → read_run id db ≡ ok run
    → list_events id db ≡ ok events
    → validate_response (response_of run events) ≡ ok tt
    → get_snapshot id db ≡ ok (response_of run events)
unfolding get_snapshot validate_run_id
get_snapshot-reads db id run events named found listed valid = rw (named, found, listed, valid) refl

pub IsSnapshot-of :
    (db : Ledger) (id : Bytes) (row : RunRow)
    → HasHistories db
    → row_of id db.runs ≡ some row
    → IsSnapshot db id row
unfolding list_events
IsSnapshot-of db id row h at =
    let own = IsHistory-of id db row at h in
    let (run, found, same) = read_run-history db id row (events_of id db.events) at own in
    let valid = IsHistory-valid row (events_of id db.events) own in
    record {
      response = response_of run (map stored_event (events_of id db.events));
      read =
          get_snapshot-reads db id run (map stored_event (events_of id db.events))
            (subst (λ i. wire.validate_run_id i ≡ ok tt) (row_of→≡ id db.runs row at) own.named)
            found (IsHistory-listed row (events_of id db.events) own) (passes run (sym same) valid);
      valid = passes run (sym same) valid;
      named = ap (λ (r : RunRow). r.run_id) same ∙ row_of→≡ id db.runs row at;
      state = ap (λ (r : RunRow). r.state) same;
      count = ap (λ (r : RunRow). r.last_event_seq) same;
      listed = refl;
    }
  where
    passes :
        (run : Run)
        → row ≡ run.row
        → validate_response
            (response_of (record run { row = row }) (map stored_event (events_of id db.events)))
          ≡ ok tt
        → validate_response (response_of run (map stored_event (events_of id db.events))) ≡ ok tt
    passes run e v =
        subst
          (λ r.
            validate_response
              (response_of (record run { row = r }) (map stored_event (events_of id db.events)))
            ≡ ok tt)
          e v

kept_after :
    {P : LedgerProperty} {A : Type 0} (m : Result Error (A × Ledger)) (db : Ledger)
    → Saves P m
    → Holds P db
    → Holds P (ledger_after m db)
kept_after (ok (a, db')) db s h = s.kept
kept_after (err e) db s h = h

module _ {P : LedgerProperty} (stable : IsStable P)
    (fingerprint_of : StartRunRequest → Option Bytes) (sha256_hex : Bytes → Bytes) where
  pub step-Holds :
      (op : Op) (db : Ledger) → Holds P db → Holds P (step fingerprint_of sha256_hex op db)
  unfolding step
  step-Holds (register request revision workspace_id writable policy now) db h =
      kept_after _ db
        (register_start-Saves stable fingerprint_of sha256_hex request revision workspace_id
          writable policy now db h)
        h
  step-Holds (begin_intent run_id boot_id now) db h =
      kept_after _ db (begin_runtime_intent-Saves stable run_id boot_id now db h) h
  step-Holds (clear_intent run_id now) db h =
      kept_after _ db (clear_runtime_intent-Saves stable run_id now db h) h
  step-Holds (set_runtime run_id runtime_ref now) db h =
      kept_after _ db (set_runtime_ref-Saves stable run_id runtime_ref now db h) h
  step-Holds (cancel run_id now) db h =
      kept_after _ db (mark_cancelling-Saves stable run_id now db h) h
  step-Holds (append event mapping now) db h =
      kept_after _ db (append_event-Saves stable event mapping now db h) h
  step-Holds (stage event mapping now) db h =
      kept_after _ db (stage_terminal-Saves stable event mapping now db h) h
  step-Holds (confirm run_id clock) db h =
      kept_after _ db (confirm_runtime_stopped-Saves stable run_id clock db h) h
  step-Holds (reconcile run_id message now) db h =
      kept_after _ db (reconcile_interrupted-Saves stable run_id message now db h) h
  step-Holds (authorize a) db h = h

  pub run_ops-Holds :
      (ops : List Op) (db : Ledger)
      → Holds P db
      → Holds P (run_ops fingerprint_of sha256_hex ops db)
  unfolding run_ops
  run_ops-Holds [] db h = h
  run_ops-Holds (op ∷ ops) db h =
      run_ops-Holds ops (step fingerprint_of sha256_hex op db) (step-Holds op db h)

module _ (fingerprint_of : StartRunRequest → Option Bytes) (sha256_hex : Bytes → Bytes) where
  pub empty-HasHistories : HasHistories empty_ledger
  unfolding find_where select_where
  empty-HasHistories = record { of_run = λ k. refl }

  -- Whatever operations have run on a new ledger, GetSnapshot answers for every stored Run, with a
  -- response that passes executionwire's validation: the events are valid and numbered from one
  -- without a gap, and the state is the one that the last of them implies.
  pub reachable-IsSnapshot :
      (ops : List Op) (id : Bytes) (row : RunRow)
      → row_of id (run_ops fingerprint_of sha256_hex ops empty_ledger).runs ≡ some row
      → IsSnapshot (run_ops fingerprint_of sha256_hex ops empty_ledger) id row
  reachable-IsSnapshot ops id row at =
      IsSnapshot-of (run_ops fingerprint_of sha256_hex ops empty_ledger) id row
        (run_ops-Holds AreHistories-IsStable fingerprint_of sha256_hex ops empty_ledger
          empty-HasHistories)
        at

  -- A Run that has not ended has room for the event that ends it: along every sequence of operations
  -- its last event number is below the limit of 512, which no Run ever passes.
  pub reachable-has_room :
      (ops : List Op) (id : Bytes) (row : RunRow)
      → row_of id (run_ops fingerprint_of sha256_hex ops empty_ledger).runs ≡ some row
      → (row.last_event_seq ≤ 512) × (is_terminal row.state ≡ false → row.last_event_seq < 512)
  reachable-has_room ops id row at =
      let own = IsHistory-of id (run_ops fingerprint_of sha256_hex ops empty_ledger) row at (
        run_ops-Holds AreHistories-IsStable fingerprint_of sha256_hex ops empty_ledger
          empty-HasHistories) in
      (own.bounded, own.room)

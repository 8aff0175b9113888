-- ===== src/SandboxStore/Invariant/Operations.antt =====
-- Every operation of the store keeps the histories.
use mathlib.Core.Path.{subst}
use harness_security_gateway.Prelude.{
  ap, ℕ, ◌≡◌, refl, sym, ◌∙◌, Bool, true, false, ◌&&◌, Option, none, some, List, [], ◌∷◌, ◌++◌,
  arith, leb, ltb, ◌==◌, if◌then◌else◌,
}
use harness_security_gateway.Prelude.Bytes.{Bytes, beq_refl}
use harness_security_gateway.Prelude.Results.{
  Result, ok, err, ◌>>=◌, ◌>>◌, guard, >>=-eq-ok, >>-ok_right, guard-passed, ok-injective,
}
use harness_security_gateway.Prelude.Tables.{find_where, insert_row}
use harness_security_gateway.Prelude.Tables.Laws.{select_where-insert}
use harness_security_gateway.ExecutionWire.{RunState, RunEvent}
use harness_security_gateway.SandboxStore.Types.{
  Error, not_found, unsafe_legacy_session_state, storage, invalid_argument, session_scope, EventRow,
  RunRow, Run, SessionMapping, SessionRow, Ledger,
}
use harness_security_gateway.SandboxStore.Validate.{validate_session_mapping}
use harness_security_gateway.SandboxStore.Tables.{
  or_error, has_run_id, scan_run, read_run, acquire_run_credential,
}
use harness_security_gateway.SandboxStore.Sessions.{
  new_session, has_ref, bind_session, insert_session, lineage_of, has_lifecycle,
}
use harness_security_gateway.SandboxStore.Register.{lock_workspace, consume_session}
use harness_security_gateway.SandboxStore.Events.{
  event_row, validate_run_event, advance, bind_mapping, record_event,
}
use harness_security_gateway.SandboxStore.Snapshot.{event_for}
use harness_security_gateway.SandboxStore.History.{IsHistory}
use harness_security_gateway.SandboxStore.History.Steps.{
  advance-IsHistory, validate_run_event-active,
}
use harness_security_gateway.SandboxStore.Invariant.{
  AreHistories, HistoryOf, row_of, events_of, IsStable, LedgerProperty, events_of-push, row_of→≡,
}

-- The ledger's histories, and what an operation leaves of them.
abbrev pub HasHistories : Ledger → Type 0
HasHistories db = AreHistories db.runs db.events

abbrev pub Holds : LedgerProperty → Ledger → Type 0
Holds P db = P db.runs db.events

abbrev pub KeptBy : LedgerProperty → {A : Type 0} → Result Error (A × Ledger) → Type 0
KeptBy P (ok (_, db)) = Holds P db
KeptBy P (err _) = Unit

pub record Saves (P : LedgerProperty) {A : Type 0} (m : Result Error (A × Ledger)) : Type 0 where
  pub kept : KeptBy P m

module _ {P : LedgerProperty} {A B : Type 0} where
  pub Saves-bind :
      (r : Result Error B) (k : B → Result Error (A × Ledger))
      → ((b : B) → r ≡ ok b → Saves P (k b))
      → Saves P (r >>= k)
  Saves-bind (ok b) k h = h b refl
  Saves-bind (err e) k h = record { kept = tt }

module _ {P : LedgerProperty} {A : Type 0} where
  pub Saves-then :
      (r : Result Error (Unit {0})) (m : Result Error (A × Ledger))
      → (r ≡ ok tt → Saves P m)
      → Saves P (r >> m)
  Saves-then (ok _) m h = h refl
  Saves-then (err e) m h = record { kept = tt }

  pub Saves-if :
      (b : Bool) (m n : Result Error (A × Ledger))
      → (b ≡ true → Saves P m)
      → (b ≡ false → Saves P n)
      → Saves P (if b then m else n)
  Saves-if true m n hm hn = hm refl
  Saves-if false m n hm hn = hn refl

  pub Saves-ok : (a : A) (db : Ledger) → Holds P db → Saves P {A = A} (ok (a, db))
  Saves-ok a db h = record { kept = h }

pub or_error-some :
    {A : Type 0} (e : Error) (o : Option A) (a : A) → or_error e o ≡ ok a → o ≡ some a
or_error-some e none a h = cc
or_error-some e (some b) a h = cc

scan_run-row : (db : Ledger) (row : RunRow) (run : Run) → scan_run db row ≡ ok run → run.row ≡ row
unfolding scan_run
scan_run-row db row run h =
    ap (λ (r : Run). r.row) (sym (ok-injective (>>-ok_right (guard _ storage) _ h)))

-- A call of which only the successful outcome matters.
pub Saves-from :
    {P : LedgerProperty} {A : Type 0} (m : Result Error (A × Ledger))
    → ((a : A) (db : Ledger) → m ≡ ok (a, db) → Holds P db)
    → Saves P m
Saves-from (ok (a, db)) h = record { kept = h a db refl }
Saves-from (err e) h = record { kept = tt }

-- A Run that is read is a row of the ledger.
pub read_run-row :
    (id : Bytes) (db : Ledger) (run : Run)
    → read_run id db ≡ ok run
    → row_of id db.runs ≡ some run.row
unfolding read_run has_run_id
read_run-row id db run h =
    let (row, found, rest) = >>=-eq-ok (or_error not_found (row_of id db.runs)) _ h in
    let (scanned, scan, last) = >>=-eq-ok (scan_run db row) _ rest in
    let same = ok-injective (>>-ok_right (guard _ unsafe_legacy_session_state) _ last) in
    or_error-some not_found (row_of id db.runs) row found
    ∙ ap some (sym (scan_run-row db row scanned scan) ∙ ap (λ (r : Run). r.row) same)

-- Steps that leave the Runs and the events alone.
abbrev pub Same : Ledger → Ledger → Type 0
Same db db' = (db'.runs ≡ db.runs) × (db'.events ≡ db.events)

module _ (db db' : Ledger) where
  insert_session-Same :
      (new : SessionRow) (o : Option SessionRow) → insert_session new db o ≡ ok db' → Same db db'
  unfolding insert_session
  insert_session-Same new none h = (ground arith, ground arith)
  insert_session-Same new (some s) h = (ground arith, ground arith)

  bind_session-Same :
      (row : RunRow) (mapping : SessionMapping) (now : ℕ)
      → bind_session row mapping now db ≡ ok db'
      → Same db db'
  unfolding bind_session
  bind_session-Same row mapping now h =
      let valid = >>-ok_right (validate_session_mapping mapping) _ h in
      let (_, lived) = guard-passed (has_lifecycle row) invalid_argument _ valid in
      let (_, timely) = guard-passed (leb row.created_at now) session_scope _ lived in
      let (line, _, rest) = >>=-eq-ok (lineage_of row row.requested_session_ref db) _ timely in
      let (_, last) =
        guard-passed (line.turn == row.session_turn_number && ltb line.started line.expires)
          session_scope _ rest in
      insert_session-Same (new_session row mapping line now)
        (find_where (has_ref mapping.ref) db.sessions) last

  pub bind_mapping-Same :
      (row : RunRow) (mapping : Option SessionMapping) (now : ℕ)
      → bind_mapping row mapping now db ≡ ok db'
      → Same db db'
  bind_mapping-Same row none now h = (ground arith, ground arith)
  bind_mapping-Same row (some mapping) now h = bind_session-Same row mapping now h

  pub acquire_run_credential-Same :
      (run : Run) → acquire_run_credential run db ≡ ok db' → Same db db'
  unfolding acquire_run_credential
  acquire_run_credential-Same run h = (ground arith, ground arith)

  pub lock_workspace-Same :
      (writable : Bool) (workspace_id run_id : Bytes)
      → lock_workspace writable workspace_id run_id db ≡ ok db'
      → Same db db'
  unfolding lock_workspace
  lock_workspace-Same writable workspace_id run_id h = (ground arith, ground arith)

  pub consume_session-Same :
      (ref : Option Bytes) (run_id : Bytes) → consume_session ref run_id db ≡ ok db' → Same db db'
  unfolding consume_session
  consume_session-Same ref run_id h = (ground arith, ground arith)

pub Same-Holds : (P : LedgerProperty) (db db' : Ledger) → Same db db' → Holds P db → Holds P db'
Same-Holds P db db' (same_runs, same_events) h = rw (same_runs, same_events) h

-- The history of a Run that was read.
pub IsHistory-of :
    (id : Bytes) (db : Ledger) (row : RunRow)
    → row_of id db.runs ≡ some row
    → HasHistories db
    → IsHistory row (events_of id db.events)
IsHistory-of id db row at h = subst (λ o. HistoryOf o (events_of id db.events)) at (h.of_run id)

pub events_of-own :
    (e : EventRow) (id : Bytes) (events : List EventRow)
    → e.run_id ≡ id
    → events_of id (insert_row e events) ≡ events_of id events ++ e ∷ []
unfolding insert_row
events_of-own e id events same =
    select_where-insert (event_for id) e events ∙ rw (same, beq_refl id) refl

-- An accepted event, recorded for the Run that was read.
pub record_event-Holds :
    {P : LedgerProperty} (stable : IsStable P) (db bound : Ledger) (row : RunRow) (event : RunEvent)
    (mapping : Option SessionMapping) (next : RunState) (now : ℕ)
    → row_of event.run_id db.runs ≡ some row
    → Same db bound
    → validate_run_event row event mapping ≡ ok next
    → Holds P db
    → Holds P (record_event next event now bound)
unfolding advance event_row
record_event-Holds stable db bound row event mapping next now at (same_runs, same_events) checked
      h =
    rw (same_runs, same_events)
      (stable.on_active event.run_id (advance next event now) (λ r. refl) db.runs db.events
        (insert_row (event_row event) db.events) row at
        (validate_run_event-active row event mapping next checked)
        (rw (events_of-own (event_row event) event.run_id db.events refl) (
          advance-IsHistory row (events_of event.run_id db.events) event mapping next now
            (IsHistory-of event.run_id db row at (stable.histories db.runs db.events h))
            (sym (row_of→≡ event.run_id db.runs row at)) checked))
        (λ k n. events_of-push event.run_id k (event_row event) db.events refl n) h)

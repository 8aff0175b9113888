-- ===== src/SandboxStore/Snapshot.antt =====
-- GetSnapshot and listEventsQuerier of internal/sandboxstore/events.go.
use harness_security_gateway.Prelude.{Bool, Option, none, some, List, [], ◌∷◌, ltb}
use harness_security_gateway.Prelude.Bytes.{Bytes, beq, coalesce}
use harness_security_gateway.Prelude.Results.{Result, ok, ◌>>=◌, ◌>>◌, guard, is_ok}
use harness_security_gateway.Prelude.Tables.{select_where, order_by}
use harness_security_gateway.ExecutionWire.{
  RunEventType, progress, ProgressKind, RunEvent, GetRunResponse, validate_event, validate_response,
}
use harness_security_gateway.SandboxStore.Types.{Error, storage, EventRow, Run, Ledger}
use harness_security_gateway.SandboxStore.Validate.{validate_run_id}
use harness_security_gateway.SandboxStore.Tables.{read_run}
use harness_security_gateway.SandboxStore.Staged.{or_media, or_code}

abbrev or_kind : Option ProgressKind → ProgressKind
or_kind none = ProgressKind.unsupported
or_kind (some k) = k

abbrev bare_event : EventRow → RunEvent
bare_event r = record {
  run_id = r.run_id;
  seq = r.seq;
  event_type = r.event_type;
  progress = none;
  result = none;
  failure = none;
}

abbrev failure_event : EventRow → RunEvent
failure_event r = record (bare_event r) {
  failure = some (record { code = or_code r.failure_code; message = coalesce r.message });
}

-- The switch of listEventsQuerier.
unfoldable pub event_of : EventRow → RunEventType → RunEvent
event_of r progress = record (bare_event r) {
  progress = some (record { kind = or_kind r.progress_kind; text = coalesce r.message });
}
event_of r RunEventType.completed = record (bare_event r) {
  result = some (record {
    output = record { media_type = or_media r.output_media_type; text = coalesce r.message };
    session_ref = r.result_session_ref;
  });
}
event_of r RunEventType.failed = failure_event r
event_of r RunEventType.interrupted = failure_event r
event_of r _ = bare_event r

unfoldable pub stored_event : EventRow → RunEvent
unfolding event_of
stored_event r = event_of r r.event_type

-- The loop of listEventsQuerier.
unfoldable pub read_events : List EventRow → Result Error (List RunEvent)
unfolding stored_event
read_events [] = ok []
read_events (r ∷ rest) = do
  guard (is_ok (validate_event (stored_event r))) storage
  more ← read_events rest
  ok (stored_event r ∷ more)

abbrev pub event_for : Bytes → EventRow → Bool
event_for run_id e = beq e.run_id run_id

abbrev pub seq_before : EventRow → EventRow → Bool
seq_before a b = ltb a.seq b.seq

-- listEventsQuerier
unfoldable pub list_events : Bytes → Ledger → Result Error (List RunEvent)
unfolding read_events
list_events run_id db =
    read_events (order_by seq_before (select_where (event_for run_id) db.events))

abbrev pub response_of : Run → List RunEvent → GetRunResponse
response_of run events = record {
  status = record {
    run_id = run.row.run_id;
    state = run.row.state;
    last_event_seq = run.row.last_event_seq;
  };
  events = events;
}

-- GetSnapshot
unfoldable pub get_snapshot : Bytes → Ledger → Result Error GetRunResponse
unfolding list_events
get_snapshot run_id db = do
  validate_run_id run_id
  run ← read_run run_id db
  events ← list_events run_id db
  guard (is_ok (validate_response (response_of run events))) storage
  ok (response_of run events)

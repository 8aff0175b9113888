-- ===== src/SandboxStore/History/Response.antt =====
-- A Run with a history has a snapshot that is valid.

use harness_security_gateway.Prelude.{
  ap, ℕ, ◌+◌, ◌≤◌, ◌≡◌, refl, sym, ◌∙◌, true, false, List, [], ◌∷◌, map, arith, leb, ltb, ◌==◌,
  ==→≡,
}
use harness_security_gateway.Prelude.Bytes.{Bytes, beq, length}
use harness_security_gateway.Prelude.Results.{ok, >>-ok, >>-ok_right, guard-passed}
use harness_security_gateway.Prelude.Tables.{order_by, insert_by}
use harness_security_gateway.ExecutionWire as wire
use harness_security_gateway.ExecutionWire.{
  RunState, RunEventType, RunStatus, RunEvent, GetRunResponse, invalid, validate_event,
  validate_events, validate_status, validate_response_events, validate_response, matches_final,
  final_type,
}
use harness_security_gateway.SandboxStore.Types.{RunRow, EventRow}
use harness_security_gateway.SandboxStore.Snapshot.{event_of, stored_event, read_events, seq_before}
use harness_security_gateway.SandboxStore.History.{IsHistory, final_fits, length-map}

stored_event-seq : (r : EventRow) → (stored_event r).seq ≡ r.seq
unfolding stored_event event_of
stored_event-seq r = ground arith

-- What the loop of GetRunResponse.Validate checks of its first event.
record IsNext (run_id : Bytes) (i : ℕ) (e : RunEvent) (rest : List RunEvent) : Type 0 where
  valid : validate_event e ≡ ok tt
  seq : e.seq ≡ i + 1
  others : validate_events run_id (i + 1) rest ≡ ok tt

validate_events-IsNext :
    (run_id : Bytes) (i : ℕ) (e : RunEvent) (rest : List RunEvent)
    → validate_events run_id i (e ∷ rest) ≡ ok tt
    → IsNext run_id i e rest
unfolding validate_events
validate_events-IsNext run_id i e rest h =
    let (_, after_id) =
      guard-passed (beq e.run_id run_id) invalid _ (>>-ok_right (validate_event e) _ h) in
    let (seq, others) = guard-passed (e.seq == i + 1) invalid _ after_id in
    record { valid = >>-ok (validate_event e) _ h; seq = ==→≡ e.seq (i + 1) seq; others = others }

insert_by-least :
    (x : EventRow) (xs : List EventRow) (run_id : Bytes) (i : ℕ)
    → x.seq ≡ i + 1
    → validate_events run_id (i + 1) (map stored_event xs) ≡ ok tt
    → insert_by seq_before x xs ≡ x ∷ xs
unfolding insert_by
insert_by-least x [] run_id i seq h = refl
insert_by-least x (y ∷ ys) run_id i seq h =
    let n = validate_events-IsNext run_id (i + 1) (stored_event y) (map stored_event ys) h in
    rw (later y.seq (sym (stored_event-seq y) ∙ n.seq)) refl
  where
    later : (k : ℕ) → k ≡ i + 1 + 1 → ltb k x.seq ≡ false
    later k e = ground arith

-- ORDER BY seq finds numbered events in their order.
order_by-numbered :
    (run_id : Bytes) (i : ℕ) (es : List EventRow)
    → validate_events run_id i (map stored_event es) ≡ ok tt
    → order_by seq_before es ≡ es
unfolding order_by
order_by-numbered run_id i [] h = refl
order_by-numbered run_id i (x ∷ xs) h =
    let n = validate_events-IsNext run_id i (stored_event x) (map stored_event xs) h in
    ap (insert_by seq_before x) (order_by-numbered run_id (i + 1) xs n.others)
    ∙ insert_by-least x xs run_id i (sym (stored_event-seq x) ∙ n.seq) n.others

read_events-numbered :
    (run_id : Bytes) (i : ℕ) (es : List EventRow)
    → validate_events run_id i (map stored_event es) ≡ ok tt
    → read_events es ≡ ok (map stored_event es)
unfolding read_events
read_events-numbered run_id i [] h = refl
read_events-numbered run_id i (x ∷ xs) h =
    let n = validate_events-IsNext run_id i (stored_event x) (map stored_event xs) h in
    rw (n.valid, read_events-numbered run_id (i + 1) xs n.others) refl

-- The events of a Run with a history are listed as they were recorded.
pub IsHistory-listed :
    (r : RunRow) (es : List EventRow)
    → IsHistory r es
    → read_events (order_by seq_before es) ≡ ok (map stored_event es)
IsHistory-listed r es h =
    ap read_events (order_by-numbered r.run_id 0 es h.listed)
    ∙ read_events-numbered r.run_id 0 es h.listed

not_accepted :
    (s : RunState) (t : RunEventType) → matches_final s t ≡ true → wire.is_accepted s ≡ false
unfolding matches_final
not_accepted s t h = ground arith

abbrev status_of : RunRow → RunStatus
status_of r = record { run_id = r.run_id; state = r.state; last_event_seq = r.last_event_seq }

abbrev Fits : RunRow → List RunEvent → Type 0
Fits r events =
    (validate_status (status_of r) ≡ ok tt)
    × (validate_response_events (status_of r) events ≡ ok tt)

response-Fits :
    (r : RunRow) (events : List RunEvent)
    → wire.validate_run_id r.run_id ≡ ok tt
    → wire.valid_state r.state ≡ true
    → r.last_event_seq ≤ 512
    → length events ≡ r.last_event_seq
    → validate_events r.run_id 0 events ≡ ok tt
    → final_fits r.state events ≡ true
    → Fits r events
unfolding validate_status validate_response_events final_fits
response-Fits r [] named known bounded counted listed final = (ground arith, ground arith)
response-Fits r (e ∷ rest) named known bounded counted listed final =
    let moved = not_accepted r.state (final_type e rest) final in
    (rw (named, known, moved) (ground arith), rw listed (ground arith))

-- The response of a Run with a history passes its validation.
pub IsHistory-valid :
    (r : RunRow) (es : List EventRow)
    → IsHistory r es
    → validate_response (record { status = status_of r; events = map stored_event es }) ≡ ok tt
unfolding validate_response
IsHistory-valid r es h =
    let counted = length-map stored_event es ∙ h.counted in
    let (status_ok, events_ok) =
      response-Fits r (map stored_event es) h.named h.known h.bounded counted h.listed h.final in
    rw (status_ok, events_ok, few (length (map stored_event es)) (rw counted h.bounded)) refl
  where
    few : (n : ℕ) → n ≤ 512 → leb n wire.max_events ≡ true
    few n h = ground arith

-- ===== src/SandboxStore/History.antt =====
-- The history of one Run: its events as GetSnapshot reads them, and what they say of its row.
pub mod Steps
pub mod Response
use mathlib.Core.List.{map-append, length-append}
use harness_security_gateway.Prelude.{
  ap, ℕ, zero, suc, ◌+◌, ◌≤◌, ◌<◌, ◌≡◌, refl, sym, ◌∙◌, Bool, true, false, not, ◌&&◌, ◌||◌, Option,
  none, some, List, [], ◌∷◌, ◌++◌, map, arith, leb, ltb, ◌==◌,
}
use harness_security_gateway.Prelude.Bytes.{Bytes, beq, beq_refl, coalesce, length}
use harness_security_gateway.Prelude.Results.{
  Result, ok, err, ◌>>◌, guard, is_ok, >>-ok, >>-ok_right, guard-true,
}
use harness_security_gateway.CoreStore.Validate.{is_empty}
use harness_security_gateway.ExecutionWire as wire
use harness_security_gateway.ExecutionWire.{
  WireError, RunState, accepted, running, cancelling, RunEventType, started, progress, RunProgress,
  RunResult, RunFailure, RunEvent, validate_payload, validate_event, validate_events, matches_final,
  final_type, valid_state, is_accepted, is_cancelling, is_runtime_interrupted,
}
use harness_security_gateway.SandboxStore.Types.{Error, RunRow, EventRow}
use harness_security_gateway.SandboxStore.Tables.{intent_readable, is_terminal}
use harness_security_gateway.SandboxStore.Events.{
  transition, is_ongoing, columns_of, event_columns, event_row,
}
use harness_security_gateway.SandboxStore.Snapshot.{event_of, stored_event}

stored-payload :
    (run_id : Bytes) (seq : ℕ) (t : RunEventType) (p : Option RunProgress) (r : Option RunResult)
    (f : Option RunFailure)
    → validate_payload t p r f ≡ ok tt
    → stored_event (
        event_row (record {
          run_id = run_id;
          seq = seq;
          event_type = t;
          progress = p;
          result = r;
          failure = f;
        }))
      ≡ record { run_id = run_id; seq = seq; event_type = t; progress = p; result = r; failure = f }
unfolding validate_payload stored_event event_of event_row event_columns columns_of
stored-payload run_id seq started none none none h = refl
stored-payload run_id seq RunEventType.cancelled none none none h = refl
stored-payload run_id seq progress (some p) none none h = refl
stored-payload run_id seq RunEventType.completed none (some r) none h = refl
stored-payload run_id seq RunEventType.failed none none (some f) h = refl
stored-payload run_id seq RunEventType.interrupted none none (some f) h = refl
stored-payload run_id seq t p r f h = cc

transition-matches :
    (s : RunState) (t : RunEventType) (next : RunState)
    → transition s t ≡ ok next
    → matches_final next t ≡ true
unfolding transition matches_final
transition-matches s t next h = ground arith

pub validate_event-payload :
    (e : RunEvent)
    → validate_event e ≡ ok tt
    → validate_payload e.event_type e.progress e.result e.failure ≡ ok tt
unfolding validate_event
validate_event-payload e h =
    >>-ok_right (guard _ _) _ (>>-ok_right (wire.validate_run_id e.run_id) _ h)

-- The columns of the event log lose nothing: reading back the row in which a valid event is recorded
-- gives the event.
pub stored_event-row : (e : RunEvent) → validate_event e ≡ ok tt → stored_event (event_row e) ≡ e
stored_event-row e h =
    stored-payload e.run_id e.seq e.event_type e.progress e.result e.failure
      (validate_event-payload e h)

pub transition-ongoing :
    (s : RunState) (t : RunEventType) (next : RunState)
    → transition s t ≡ ok next
    → is_terminal next ≡ not (is_ongoing t)
unfolding transition
transition-ongoing s t next h = ground arith

transition-valid :
    (s : RunState) (t : RunEventType) (next : RunState)
    → transition s t ≡ ok next
    → valid_state next ≡ true
unfolding transition
transition-valid s t next h = ground arith

pub transition-active :
    (s : RunState) (t : RunEventType) (next : RunState)
    → transition s t ≡ ok next
    → is_terminal s ≡ false
unfolding transition
transition-active s t next h = ground arith

-- What the final event says of the state; a Run without events has only been accepted or cancelled.
unfoldable pub final_fits : RunState → List RunEvent → Bool
final_fits state [] = is_accepted state || is_cancelling state
final_fits state (event ∷ rest) = matches_final state (final_type event rest)

-- A Run's row agrees with its events: they are valid and numbered from one without a gap, the row
-- counts them, its state is what the last of them says, and a Run that has not ended has room for the
-- event that ends it.
pub record IsHistory (r : RunRow) (es : List EventRow) : Type 0 where
  pub named : wire.validate_run_id r.run_id ≡ ok tt
  pub scoped : is_empty (coalesce r.session_scope_digest) ≡ false
  pub readable : intent_readable r.runtime_intent_pending r.runtime_intent_boot_id ≡ true
  pub known : valid_state r.state ≡ true
  pub listed : validate_events r.run_id 0 (map stored_event es) ≡ ok tt
  pub counted : length es ≡ r.last_event_seq
  pub final : final_fits r.state (map stored_event es) ≡ true
  pub room : is_terminal r.state ≡ false → r.last_event_seq < 512
  pub bounded : r.last_event_seq ≤ 512

length-snoc : {A : Type 0} (xs : List A) (x : A) → length (xs ++ x ∷ []) ≡ length xs + 1
length-snoc [] x = omega arith
length-snoc (y ∷ xs) x = omega (arith, length-snoc xs x)

validate_events-snoc :
    (run_id : Bytes) (i : ℕ) (es : List RunEvent) (e : RunEvent)
    → validate_events run_id i es ≡ ok tt
    → validate_event e ≡ ok tt
    → beq e.run_id run_id ≡ true
    → e.seq ≡ i + length es + 1
    → validate_events run_id i (es ++ e ∷ []) ≡ ok tt
unfolding validate_events
validate_events-snoc run_id i [] e h v same seq = ground arith
validate_events-snoc run_id i (x ∷ es) e h v same seq =
    ground (arith, validate_events-snoc run_id (i + 1) es e)

final_fits-snoc :
    (s : RunState) (es : List RunEvent) (e : RunEvent)
    → matches_final s e.event_type ≡ true
    → final_fits s (es ++ e ∷ []) ≡ true
unfolding final_fits
final_fits-snoc s [] e h = h
final_fits-snoc s (x ∷ es) e h = go x es
  where
    go : (x : RunEvent) (es : List RunEvent) → matches_final s (final_type x (es ++ e ∷ [])) ≡ true
    go x [] = h
    go x (y ∷ es) = go y es

length-map : {A B : Type 0} (f : A → B) (xs : List A) → length (map f xs) ≡ length xs
length-map f [] = refl
length-map f (x ∷ xs) = ap suc (length-map f xs)

event_bounded : (e : RunEvent) → validate_event e ≡ ok tt → e.seq ≤ 512
unfolding validate_event
event_bounded e h = ground arith

-- A row `r'` that differs from `r` by one more event.
pub push-IsHistory :
    (r r' : RunRow) (es : List EventRow) (e : RunEvent)
    → IsHistory r es
    → validate_event e ≡ ok tt
    → e.run_id ≡ r.run_id
    → e.seq ≡ r.last_event_seq + 1
    → matches_final r'.state e.event_type ≡ true
    → valid_state r'.state ≡ true
    → (is_terminal r'.state ≡ false → e.seq < 512)
    → r'.run_id ≡ r.run_id
    → r'.session_scope_digest ≡ r.session_scope_digest
    → intent_readable r'.runtime_intent_pending r'.runtime_intent_boot_id ≡ true
    → r'.last_event_seq ≡ e.seq
    → IsHistory r' (es ++ event_row e ∷ [])
push-IsHistory r r' es e h valid same next fits known room same_id same_scope readable seq =
    record {
      named = ap wire.validate_run_id same_id ∙ h.named;
      scoped = ap (λ d. is_empty (coalesce d)) same_scope ∙ h.scoped;
      readable = readable;
      known = known;
      listed =
          rw (same_id, map-append stored_event es (event_row e ∷ []), stored_event-row e valid)
            (validate_events-snoc r.run_id 0 (map stored_event es) e h.listed valid
              (rw same (beq_refl r.run_id))
              (omega (arith, next, length-map stored_event es, h.counted)));
      counted = length-snoc es (event_row e) ∙ ap (λ n. n + 1) h.counted ∙ sym next ∙ sym seq;
      final =
          rw (map-append stored_event es (event_row e ∷ []), stored_event-row e valid)
            (final_fits-snoc r'.state (map stored_event es) e fits);
      room = λ active. rw seq (room active);
      bounded = rw seq (event_bounded e valid);
    }

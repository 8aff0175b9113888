-- ===== src/RunnerWire/Sequence/Lifecycle.antt =====
-- Which streams of events a Sequence accepts to their end.
use mathlib.Core.Bool.{false≢true}
use harness_security_gateway.Prelude.{
  ℕ, suc, ◌≤◌, ◌<◌, ◌≡◌, refl, sym, ◌∙◌, inl, inr, Bool, true, false, not, ◌&&◌, List, [], ◌∷◌,
  arith, ◌==◌, if◌then◌else◌, Bool-cases, &&-true_left, &&-true_right, ==→≡,
}
use harness_security_gateway.Prelude.Bytes.{Bytes, beq}
use harness_security_gateway.Prelude.Results.{
  Result, ok, err, is_ok, Result-cases, ◌>>◌, ok-injective, >>-ok_right,
}
use harness_security_gateway.RunnerWire.{
  WireError, event_sequence, Envelope, FrameType, RunEvent, run_started, run_progress,
  run_completed, run_failed, run_cancelled, event_run_id, event_sequence_of, is_start_event,
  is_terminal_event, validate, validate_event, max_events, validate_identifier, max_run_id_bytes,
}
use harness_security_gateway.RunnerWire.Sequence.{
  Sequence, accept, accept_checked, accept_valid, follow, finalize, accept_stream, new_sequence,
}

abbrev is_nil : List RunEvent → Bool
is_nil [] = true
is_nil (_ ∷ _) = false

-- A valid event of the Run at its position.
abbrev is_next : Bytes → ℕ → RunEvent → Bool
is_next run_id position event =
    is_ok (validate event) && beq (event_run_id event) run_id && event_sequence_of event == position

-- What may follow the start: events at the next positions, none of them a start, of which exactly
-- the last one is terminal.
abbrev pub is_continuation : Bytes → ℕ → List RunEvent → Bool
is_continuation run_id position [] = false
is_continuation run_id position (event ∷ events) =
    is_next run_id position event
    && not (is_start_event event)
    && (if is_terminal_event event
        then is_nil events
        else is_continuation run_id (suc position) events)

-- The lifecycle of a Run: its start at position 1, and a continuation from position 2.
abbrev pub is_lifecycle : Bytes → List RunEvent → Bool
is_lifecycle run_id [] = false
is_lifecycle run_id (event ∷ events) =
    is_next run_id 1 event && is_start_event event && is_continuation run_id 2 events

validate_event-bound :
    (e : Envelope) (want : FrameType) → is_ok (validate_event e want) ≡ true → e.seq ≤ max_events
unfolding validate_event
validate_event-bound e want h = ground arith

validate-bound :
    (event : RunEvent) → is_ok (validate event) ≡ true → event_sequence_of event ≤ max_events
unfolding validate
validate-bound (run_started e) h = validate_event-bound e FrameType.started h
validate-bound (run_progress e kind text) h =
    ground (arith, validate_event-bound e FrameType.progress)
validate-bound (run_completed e output token) h =
    ground (arith, validate_event-bound e FrameType.completed)
validate-bound (run_failed e failure) h = ground (arith, validate_event-bound e FrameType.failed)
validate-bound (run_cancelled e) h = validate_event-bound e FrameType.cancelled h

-- A stream whose first event is valid, and one whose first event is not.
accept_stream-valid :
    (s : Sequence) (event : RunEvent) (events : List RunEvent)
    → is_ok (validate event) ≡ true
    → accept_stream s (event ∷ events)
      ≡ ((accept_valid s event).0 >> accept_stream (accept_valid s event).1 events)
unfolding accept_stream accept accept_checked
accept_stream-valid s event events h = elim (Result-cases (validate event)) [
  | inl (_, e) ↦ rw e refl
  | inr (_, e) ↦ absurd (false≢true (rw e at h))
]

accept_stream-invalid :
    (s : Sequence) (event : RunEvent) (events : List RunEvent)
    → is_ok (validate event) ≡ false
    → is_ok (accept_stream s (event ∷ events)) ≡ false
unfolding accept_stream accept accept_checked
accept_stream-invalid s event events h = elim (Result-cases (validate event)) [
  | inl (_, e) ↦ absurd (false≢true (sym (rw e at h)))
  | inr (_, e) ↦ rw e refl
]

accept_stream-nil : (s : Sequence) → is_ok (accept_stream s []) ≡ (s.started && s.terminal)
unfolding accept_stream finalize
accept_stream-nil s = ground arith

refused : (m n : Result WireError (Unit {0})) → is_ok m ≡ false → is_ok (m >> n) ≡ false
refused (ok _) n h = absurd (false≢true (sym h))
refused (err _) n h = refl

accept_valid-terminal :
    (s : Sequence) (event : RunEvent) → s.terminal ≡ true → is_ok (accept_valid s event).0 ≡ false
unfolding accept_valid
accept_valid-terminal s event t = ground arith

-- After a terminal event nothing is accepted.
after_terminal :
    (s : Sequence) (events : List RunEvent)
    → s.started ≡ true
    → s.terminal ≡ true
    → is_ok (accept_stream s events) ≡ is_nil events
after_terminal s [] h t = rw (accept_stream-nil, h, t) refl
after_terminal s (event ∷ events) h t = elim (Bool-cases (is_ok (validate event))) [
  | inl e ↦
      rw (accept_stream-valid s event events e) (refused _ _ (accept_valid-terminal s event t))
  | inr e ↦ accept_stream-invalid s event events e
]

-- A started validator accepts the next event, moving to its position, or refuses it.
accept_valid-started :
    (s : Sequence) (event : RunEvent)
    → s.started ≡ true
    → s.terminal ≡ false
    → 0 < s.last_seq
    → s.last_seq ≤ max_events
    → accept_valid s event ≡ (
        if beq (event_run_id event) s.run_id
          && event_sequence_of event == suc s.last_seq
          && not (is_start_event event)
        then (
          ok tt,
          record s { last_seq = event_sequence_of event; terminal = is_terminal_event event },
        )
        else (err event_sequence, s))
unfolding accept_valid follow
accept_valid-started s event h t p b = ground arith

-- The first event moves a fresh validator to position 1, or is refused.
accept_valid-fresh :
    (s : Sequence) (event : RunEvent)
    → s.started ≡ false
    → s.terminal ≡ false
    → s.last_seq ≡ 0
    → accept_valid s event ≡ (
        if beq (event_run_id event) s.run_id && event_sequence_of event == 1 && is_start_event event
        then (ok tt, record s { last_seq = 1; started = true; terminal = false })
        else (err event_sequence, s))
unfolding accept_valid follow
accept_valid-fresh s (run_started e) h t p = ground arith
accept_valid-fresh s (run_progress e kind text) h t p = ground arith
accept_valid-fresh s (run_completed e output token) h t p = ground arith
accept_valid-fresh s (run_failed e failure) h t p = ground arith
accept_valid-fresh s (run_cancelled e) h t p = ground arith

accept_stream-continuation :
    (s : Sequence) (events : List RunEvent)
    → s.started ≡ true
    → s.terminal ≡ false
    → 0 < s.last_seq
    → s.last_seq ≤ max_events
    → is_ok (accept_stream s events) ≡ is_continuation s.run_id (suc s.last_seq) events
accept_stream-continuation s [] h t p b = rw (accept_stream-nil, h, t) refl
accept_stream-continuation s (event ∷ events) h t p b = elim (Bool-cases (is_ok (validate event))) [
  | inr e ↦ accept_stream-invalid s event events e ∙ rw e refl
  | inl e ↦
      rw (accept_stream-valid s event events e, accept_valid-started s event h t p b, e)
        (elim (Bool-cases (
          beq (event_run_id event) s.run_id
          && event_sequence_of event == suc s.last_seq
          && not (is_start_event event))) [
            | inr n ↦ rw n refl
            | inl y ↦ rw y (elim (Bool-cases (is_terminal_event event)) [
              | inl last ↦ rw last (
                  after_terminal (record s { last_seq = event_sequence_of event; terminal = true })
                    events h refl)
              | inr more ↦
                  let here : event_sequence_of event ≡ suc s.last_seq =
                    ==→≡ _ _ (&&-true_right _ _ (&&-true_left _ _ y)) in
                  rw (more, here)
                    (accept_stream-continuation
                      (record s { last_seq = suc s.last_seq; terminal = false }) events h refl
                      (omega arith) (omega (arith, validate-bound event e, here)))
            ])
          ])
]

abbrev fresh : Bytes → Sequence
fresh run_id = record { run_id = run_id; last_seq = 0; started = false; terminal = false }

new_sequence→≡ : (run_id : Bytes) (s : Sequence) → new_sequence run_id ≡ ok s → fresh run_id ≡ s
unfolding new_sequence
new_sequence→≡ run_id s h =
    ok-injective (>>-ok_right (validate_identifier run_id max_run_id_bytes) _ h)

from_fresh :
    (run_id : Bytes) (events : List RunEvent)
    → is_ok (accept_stream (fresh run_id) events) ≡ is_lifecycle run_id events
from_fresh run_id [] = accept_stream-nil (fresh run_id)
from_fresh run_id (event ∷ events) = elim (Bool-cases (is_ok (validate event))) [
  | inr e ↦ accept_stream-invalid (fresh run_id) event events e ∙ rw e refl
  | inl e ↦
      rw
        (
          accept_stream-valid (fresh run_id) event events e,
          accept_valid-fresh (fresh run_id) event refl refl refl,
          e,
        )
        (elim (Bool-cases (
          beq (event_run_id event) run_id
          && event_sequence_of event == 1
          && is_start_event event)) [
            | inr n ↦ rw n refl
            | inl y ↦ rw y (
                accept_stream-continuation
                  (record { run_id = run_id; last_seq = 1; started = true; terminal = false })
                  events refl refl (omega arith) (omega arith))
          ])
]

-- A validator of a Run accepts a whole stream, its end included, exactly when the stream is a
-- lifecycle of that Run: every event is valid and of the Run, the positions are 1, 2, 3 and so on,
-- the first event and no other is run.started, and the last event and no other is terminal.
pub accept_stream-lifecycle :
    (run_id : Bytes) (s : Sequence) (events : List RunEvent)
    → new_sequence run_id ≡ ok s
    → is_ok (accept_stream s events) ≡ is_lifecycle run_id events
accept_stream-lifecycle run_id s events h =
    rw (← new_sequence→≡ run_id s h) (from_fresh run_id events)

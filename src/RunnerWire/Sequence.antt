-- ===== src/RunnerWire/Sequence.antt =====
-- internal/runnerwire/sequence.go: the validator of the events of one Run.
pub mod Lifecycle
use harness_security_gateway.Prelude.{
  ℕ, ◌+◌, ◌%◌, ◌^◌, Bool, true, false, not, ◌&&◌, ◌||◌, List, [], ◌∷◌, ◌==◌, if◌then◌else◌,
}
use harness_security_gateway.Prelude.Bytes.{Bytes, beq}
use harness_security_gateway.Prelude.Results.{Result, ok, err, ◌>>◌, guard}
use harness_security_gateway.RunnerWire.{
  WireError, Checked, event_sequence, RunEvent, event_run_id, event_sequence_of, is_start_event,
  is_terminal_event, validate, validate_identifier, max_run_id_bytes,
}

pub record Sequence : Type 0 where
  pub run_id : Bytes
  pub last_seq : ℕ
  pub started : Bool
  pub terminal : Bool

unfoldable pub new_sequence : Bytes → Result WireError Sequence
new_sequence run_id = do
  validate_identifier run_id max_run_id_bytes
  ok (record { run_id = run_id; last_seq = 0; started = false; terminal = false })

-- The outcome of a call and the validator after it.
abbrev pub Step : Type 0
Step = Result WireError (Unit {0}) × Sequence

-- The end of Accept: the seq check, and the fields that an accepted event sets.
unfoldable pub follow : Sequence → RunEvent → Step
follow s event =
    if not (s.last_seq == 0) && not (event_sequence_of event == (s.last_seq + 1) % 2 ^ 64)
    then (err event_sequence, s)
    else (
      ok tt,
      record s {
        last_seq = event_sequence_of event;
        terminal = s.terminal || is_terminal_event event;
      },
    )

-- The checks between Validate and the seq check.
unfoldable pub accept_valid : Sequence → RunEvent → Step
unfolding follow
accept_valid s event =
    if not (beq (event_run_id event) s.run_id)
    then (err event_sequence, s)
    else if s.terminal
    then (err event_sequence, s)
    else if s.started
    then (if is_start_event event then (err event_sequence, s) else follow s event)
    else if not (is_start_event event)
    then (err event_sequence, s)
    else if not (event_sequence_of event == 1)
    then (err event_sequence, s)
    else follow (record s { started = true }) event

unfoldable pub accept_checked : Sequence → RunEvent → Checked → Step
unfolding accept_valid
accept_checked s event (ok _) = accept_valid s event
accept_checked s event (err e) = (err e, s)

-- Accept
unfoldable pub accept : Sequence → RunEvent → Step
unfolding accept_checked
accept s event = accept_checked s event (validate event)

-- Finalize
unfoldable pub finalize : Sequence → Result WireError (Unit {0})
finalize s = do guard s.started event_sequence; guard s.terminal event_sequence

-- The events of a stream, up to the first that is refused, and then the end of the stream.
unfoldable pub accept_stream : Sequence → List RunEvent → Result WireError (Unit {0})
unfolding accept finalize
accept_stream s [] = finalize s
accept_stream s (event ∷ events) = let one = accept s event in one.0 >> accept_stream one.1 events

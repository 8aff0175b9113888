-- ===== src/RunnerWire/Scenarios.antt =====
-- A runner's stream of events on concrete inputs.
use harness_security_gateway.Prelude.{ℕ, ◌≡◌, refl, true, false, List, [], ◌∷◌}
use harness_security_gateway.Prelude.Bytes.{codes, beq}
use harness_security_gateway.Prelude.Results.{ok, is_ok}
use harness_security_gateway.Text.{
  valid_utf8, runes_of, any_of, all_of, is_space, is_blank, is_ascii_alphanumeric,
}
use harness_security_gateway.RunnerWire.{
  Envelope, FrameType, RunEvent, run_started, run_progress, run_completed, status,
  validate_identifier, validate, validate_event, validate_utf8_text, validate_text_content,
}
use harness_security_gateway.RunnerWire.Sequence.{Sequence, new_sequence, accept_stream}
use harness_security_gateway.RunnerWire.Sequence.Lifecycle.{is_lifecycle, accept_stream-lifecycle}

abbrev at : FrameType → ℕ → Envelope
at type seq = record {
  protocol = codes "hrp/1";
  frame_type = type;
  run_id = codes "run_1";
  seq = seq;
}

abbrev answer : RunEvent
answer =
    run_completed (at FrameType.completed 3) (record { is_text_plain = true; text = codes "hi" }) []

abbrev stream : List RunEvent
stream =
    run_started (at FrameType.started 1)
    ∷ run_progress (at FrameType.progress 2) status (codes "working")
    ∷ answer
    ∷ []

abbrev sequence : Sequence
sequence = record { run_id = codes "run_1"; last_seq = 0; started = false; terminal = false }

created : new_sequence (codes "run_1") ≡ ok sequence
unfolding new_sequence validate_identifier all_of is_ascii_alphanumeric any_of
created = refl

accept_stream-lifecycle_example :
    is_ok (accept_stream sequence stream) ≡ is_lifecycle (codes "run_1") stream
accept_stream-lifecycle_example = accept_stream-lifecycle (codes "run_1") sequence stream created

-- The stream is a lifecycle, and it is none when its end is missing.
stream-lifecycle : is_lifecycle (codes "run_1") stream ≡ true
unfolding validate validate_event validate_identifier validate_utf8_text validate_text_content
    valid_utf8 runes_of all_of any_of is_blank is_space is_ascii_alphanumeric beq
stream-lifecycle = refl

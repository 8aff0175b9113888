-- ===== src/RunnerWire.antt =====
-- The run events of internal/runnerwire/types.go and their validation. Every refusal of a frame is
-- `invalid_frame`; the message, which names the field, is left out. `unsupported` stands for each
-- string that is none of a type's constants.
pub mod Sequence
mod Scenarios
use harness_security_gateway.Prelude.{
  ℕ, Bool, true, false, not, ◌&&◌, ◌||◌, ltb, leb, ◌==◌, if◌then◌else◌,
}
use harness_security_gateway.Prelude.Bytes.{Bytes, codes, beq, length}
use harness_security_gateway.Prelude.Results.{Result, ok, ◌>>◌, guard}
use harness_security_gateway.Text.{valid_utf8, is_blank, any_of, all_of, is_ascii_alphanumeric}
use harness_security_gateway.CoreStore.Validate.{is_empty}

pub data WireError : Type 0 where
  invalid_frame event_sequence : WireError

abbrev pub max_run_id_bytes : ℕ
max_run_id_bytes = 64

abbrev pub max_events : ℕ
max_events = 512

abbrev pub max_output_text_bytes : ℕ
max_output_text_bytes = 32768

abbrev pub max_progress_text_bytes : ℕ
max_progress_text_bytes = 4096

abbrev pub max_error_message_bytes : ℕ
max_error_message_bytes = 4096

abbrev pub max_session_token_bytes : ℕ
max_session_token_bytes = 1024

pub data FrameType : Type 0 where
  runner_ready run_start started progress completed failed cancelled unsupported : FrameType

pub data ProgressKind : Type 0 where
  status output_delta unsupported : ProgressKind

pub data ErrorCode : Type 0 where
  input_rejected invalid_session policy_denied harness_error runner_internal unsupported : ErrorCode

pub record TextContent : Type 0 where
  pub is_text_plain : Bool
  pub text : Bytes

pub record Failure : Type 0 where
  pub code : ErrorCode
  pub message : Bytes

-- The fields that every event has.
pub record Envelope : Type 0 where
  pub protocol : Bytes
  pub frame_type : FrameType
  pub run_id : Bytes
  pub seq : ℕ

-- RunStarted, RunProgress, RunCompleted, RunFailed and RunCancelled.
pub data RunEvent : Type 0 where
  run_started : Envelope → RunEvent
  run_progress : Envelope → ProgressKind → Bytes → RunEvent
  run_completed : Envelope → TextContent → Bytes → RunEvent
  run_failed : Envelope → Failure → RunEvent
  run_cancelled : Envelope → RunEvent

abbrev pub envelope : RunEvent → Envelope
envelope (run_started e) = e
envelope (run_progress e kind text) = e
envelope (run_completed e output token) = e
envelope (run_failed e failure) = e
envelope (run_cancelled e) = e

-- EventSequence
abbrev pub event_sequence_of : RunEvent → ℕ
event_sequence_of event = (envelope event).seq

-- EventRunID
abbrev pub event_run_id : RunEvent → Bytes
event_run_id event = (envelope event).run_id

-- Terminal
abbrev pub is_terminal_event : RunEvent → Bool
is_terminal_event (run_started e) = false
is_terminal_event (run_progress e kind text) = false
is_terminal_event _ = true

-- FrameType() == TypeRunStarted
abbrev pub is_start_event : RunEvent → Bool
is_start_event (run_started e) = true
is_start_event _ = false

abbrev pub Checked : Type 0
Checked = Result WireError (Unit {0})

abbrev frame_index : FrameType → ℕ
frame_index FrameType.runner_ready = 0
frame_index FrameType.run_start = 1
frame_index FrameType.started = 2
frame_index FrameType.progress = 3
frame_index FrameType.completed = 4
frame_index FrameType.failed = 5
frame_index FrameType.cancelled = 6
frame_index FrameType.unsupported = 7

abbrev is_identifier_char : ℕ → Bool
is_identifier_char c = is_ascii_alphanumeric c || any_of (λ d. d == c) (codes "-_.:/@")

abbrev is_token_char : ℕ → Bool
is_token_char c = is_ascii_alphanumeric c || any_of (λ d. d == c) (codes "-._~:/@+=")

unfoldable pub validate_identifier : Bytes → ℕ → Checked
validate_identifier value max_bytes = do
  guard (not (is_empty value)) invalid_frame
  guard (leb (length value) max_bytes) invalid_frame
  guard (all_of is_identifier_char value) invalid_frame

unfoldable pub validate_opaque_token : Bytes → ℕ → Checked
validate_opaque_token value max_bytes = do
  guard (not (is_empty value) && leb (length value) max_bytes) invalid_frame
  guard (all_of is_token_char value) invalid_frame

unfoldable pub validate_utf8_text : Bytes → ℕ → Checked
validate_utf8_text value max_bytes = do
  guard (valid_utf8 value) invalid_frame
  guard (not (any_of (λ c. c == 0) value)) invalid_frame
  guard (leb (length value) max_bytes) invalid_frame

unfoldable pub validate_text_content : TextContent → ℕ → Checked
unfolding validate_utf8_text
validate_text_content content max_bytes = do
  guard content.is_text_plain invalid_frame
  validate_utf8_text content.text max_bytes

-- validateEnvelope, then the fields of every event.
unfoldable pub validate_event : Envelope → FrameType → Checked
validate_event e want = do
  guard (beq e.protocol (codes "hrp/1")) invalid_frame
  guard (frame_index e.frame_type == frame_index want) invalid_frame
  validate_identifier e.run_id max_run_id_bytes
  guard (not (e.seq == 0)) invalid_frame
  guard (leb e.seq max_events) invalid_frame

abbrev valid_kind : ProgressKind → Bool
valid_kind ProgressKind.unsupported = false
valid_kind _ = true

abbrev valid_error_code : ErrorCode → Bool
valid_error_code ErrorCode.unsupported = false
valid_error_code _ = true

-- The Validate methods.
unfoldable pub validate : RunEvent → Checked
unfolding validate_text_content
validate (run_started e) = validate_event e FrameType.started
validate (run_progress e kind text) = do
  validate_event e FrameType.progress
  guard (valid_kind kind) invalid_frame
  validate_utf8_text text max_progress_text_bytes
  guard (not (is_blank text)) invalid_frame
validate (run_completed e output token) = do
  validate_event e FrameType.completed
  validate_text_content output max_output_text_bytes
  if is_empty token then ok tt else validate_opaque_token token max_session_token_bytes
validate (run_failed e failure) = do
  validate_event e FrameType.failed
  guard (valid_error_code failure.code) invalid_frame
  guard (not (is_blank failure.message)) invalid_frame
  validate_utf8_text failure.message max_error_message_bytes
validate (run_cancelled e) = validate_event e FrameType.cancelled

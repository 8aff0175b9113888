-- ===== src/ExecutionWire.antt =====
-- internal/executionwire/types.go and validate.go: the protocol between agentd and sandboxd.
-- `unsupported` stands for each string that is none of a type's constants. Every refusal is `invalid`;
-- the field and the problem are left out. A deadline is none where Go has the zero time, and is
-- otherwise in milliseconds, with 0 for what lies before the epoch.
use harness_security_gateway.Prelude.{
  ℕ, suc, ◌+◌, ◌*◌, Bool, true, false, not, ◌&&◌, ◌||◌, Option, none, some, List, [], ◌∷◌, leb,
  ◌==◌,
}
use harness_security_gateway.Prelude.Bytes.{Bytes, beq, length}
use harness_security_gateway.Prelude.Results.{Result, ok, err, ◌>>◌, guard, is_ok}
use harness_security_gateway.Text.{valid_utf8, is_blank, any_of, all_of, is_ascii_alphanumeric}
use harness_security_gateway.CoreStore.Validate.{is_empty, max_deadline}
use harness_security_gateway.SessionAuth.{validate_digest}

abbrev pub max_run_id_bytes : ℕ
max_run_id_bytes = 64

abbrev pub max_target_id_bytes : ℕ
max_target_id_bytes = 128

abbrev pub max_revision_bytes : ℕ
max_revision_bytes = 160

abbrev pub max_session_ref_bytes : ℕ
max_session_ref_bytes = 512

abbrev pub max_input_text_bytes : ℕ
max_input_text_bytes = 32 * 1024

abbrev pub max_output_text_bytes : ℕ
max_output_text_bytes = 32 * 1024

abbrev pub max_progress_text_bytes : ℕ
max_progress_text_bytes = 8 * 1024

abbrev pub max_failure_message_bytes : ℕ
max_failure_message_bytes = 4 * 1024

abbrev pub max_events : ℕ
max_events = 512

pub data WireError : Type 0 where
  invalid : WireError

abbrev pub Checked : Type 0
Checked = Result WireError (Unit {0})

pub data MediaType : Type 0 where
  text_plain unsupported : MediaType

pub data RunState : Type 0 where
  accepted running cancelling completed failed cancelled interrupted unsupported : RunState

pub data RunEventType : Type 0 where
  started progress completed failed cancelled interrupted unsupported : RunEventType

pub data ProgressKind : Type 0 where
  status output_delta unsupported : ProgressKind

pub data FailureCode : Type 0 where
  target_unavailable revision_mismatch invalid_session policy_denied deadline_exceeded output_limit
        runner_failed protocol_violation runtime_interrupted internal unsupported :
      FailureCode

-- TextInput and TextOutput.
pub record TextContent : Type 0 where
  pub media_type : MediaType
  pub text : Bytes

pub record StartRunRequest : Type 0 where
  pub run_id : Bytes
  pub target_id : Bytes
  pub expected_revision : Bytes
  pub session_scope_digest : Bytes
  pub session_ref : Option Bytes
  pub input : TextContent
  pub deadline : Option ℕ

pub record RunStatus : Type 0 where
  pub run_id : Bytes
  pub state : RunState
  pub last_event_seq : ℕ

pub record RunProgress : Type 0 where
  pub kind : ProgressKind
  pub text : Bytes

pub record RunResult : Type 0 where
  pub output : TextContent
  pub session_ref : Option Bytes

pub record RunFailure : Type 0 where
  pub code : FailureCode
  pub message : Bytes

pub record RunEvent : Type 0 where
  pub run_id : Bytes
  pub seq : ℕ
  pub event_type : RunEventType
  pub progress : Option RunProgress
  pub result : Option RunResult
  pub failure : Option RunFailure

pub record GetRunResponse : Type 0 where
  pub status : RunStatus
  pub events : List RunEvent

-- MediaType.valid
abbrev pub valid_media : MediaType → Bool
valid_media text_plain = true
valid_media MediaType.unsupported = false

-- RunState.valid
abbrev pub valid_state : RunState → Bool
valid_state RunState.unsupported = false
valid_state _ = true

-- ProgressKind.valid
abbrev pub valid_kind : ProgressKind → Bool
valid_kind ProgressKind.unsupported = false
valid_kind _ = true

-- FailureCode.valid
abbrev pub valid_code : FailureCode → Bool
valid_code FailureCode.unsupported = false
valid_code _ = true

abbrev pub is_runtime_interrupted : FailureCode → Bool
is_runtime_interrupted runtime_interrupted = true
is_runtime_interrupted _ = false

abbrev is_run_id_char : ℕ → Bool
is_run_id_char c = is_ascii_alphanumeric c || c == b'-' || c == b'_'

abbrev pub is_name_char : ℕ → Bool
is_name_char c =
    is_ascii_alphanumeric c || c == b'-' || c == b'_' || c == b'.' || c == b':' || c == b'@'

abbrev is_opaque_char : ℕ → Bool
is_opaque_char c = is_ascii_alphanumeric c || c == b'-' || c == b'_' || c == b'.' || c == b'~'

-- The three checks of a bounded string of certain bytes.
abbrev validate_chars : (ℕ → Bool) → ℕ → Bytes → Checked
validate_chars allowed max_bytes value = do
  guard (not (is_empty value) && leb (length value) max_bytes) invalid
  guard (all_of allowed value) invalid

unfoldable pub validate_run_id : Bytes → Checked
validate_run_id value = validate_chars is_run_id_char max_run_id_bytes value

unfoldable pub validate_name : Bytes → ℕ → Checked
validate_name value max_bytes = validate_chars is_name_char max_bytes value

unfoldable pub validate_opaque_ref : Bytes → Checked
validate_opaque_ref value = validate_chars is_opaque_char max_session_ref_bytes value

abbrev validate_optional_ref : Option Bytes → Checked
validate_optional_ref none = ok tt
validate_optional_ref (some ref) = validate_opaque_ref ref

-- The checks of a text, with whether it may be blank.
unfoldable pub validate_text : Bool → ℕ → Bytes → Checked
validate_text allow_blank max_bytes text = do
  guard (valid_utf8 text) invalid
  guard (allow_blank || not (is_blank text)) invalid
  guard (not (any_of (λ c. c == 0) text)) invalid
  guard (leb (length text) max_bytes) invalid

-- TextInput.Validate
unfoldable pub validate_input : TextContent → Checked
unfolding validate_text
validate_input i = do
  guard (valid_media i.media_type) invalid
  validate_text false max_input_text_bytes i.text

-- A deadline is set, and its year is at most 9999. The deadline is taken in UTC; MarshalText judges the
-- year in the zone that the deadline carries, which differs only within a day of that bound.
abbrev valid_deadline : Option ℕ → Bool
valid_deadline none = false
valid_deadline (some deadline) = leb deadline max_deadline

unfoldable pub validate_start_run : StartRunRequest → Checked
unfolding validate_run_id validate_name validate_input
validate_start_run r = do
  validate_run_id r.run_id
  validate_name r.target_id max_target_id_bytes
  validate_name r.expected_revision max_revision_bytes
  guard (is_ok (validate_digest r.session_scope_digest)) invalid
  validate_optional_ref r.session_ref
  validate_input r.input
  guard (valid_deadline r.deadline) invalid

abbrev pub is_accepted : RunState → Bool
is_accepted accepted = true
is_accepted _ = false

abbrev pub is_cancelling : RunState → Bool
is_cancelling cancelling = true
is_cancelling _ = false

unfoldable pub validate_status : RunStatus → Checked
validate_status s = do
  validate_run_id s.run_id
  guard (valid_state s.state) invalid
  guard (leb s.last_event_seq max_events) invalid
  guard (not (is_accepted s.state) || s.last_event_seq == 0) invalid
  guard (is_accepted s.state || is_cancelling s.state || not (s.last_event_seq == 0)) invalid

unfoldable pub validate_progress : RunProgress → Checked
unfolding validate_text
validate_progress p = do
  guard (valid_kind p.kind) invalid
  validate_text false max_progress_text_bytes p.text

-- TextOutput.Validate
unfoldable pub validate_output : TextContent → Checked
unfolding validate_text
validate_output o = do
  guard (valid_media o.media_type) invalid
  validate_text true max_output_text_bytes o.text

unfoldable pub validate_result : RunResult → Checked
unfolding validate_output
validate_result r = do validate_output r.output; validate_optional_ref r.session_ref

unfoldable pub validate_failure : RunFailure → Checked
unfolding validate_text
validate_failure f = do
  guard (valid_code f.code) invalid
  validate_text false max_failure_message_bytes f.message

-- The switch of RunEvent.Validate.
unfoldable pub validate_payload :
    RunEventType → Option RunProgress → Option RunResult → Option RunFailure → Checked
unfolding validate_progress validate_result validate_failure
validate_payload started none none none = ok tt
validate_payload cancelled none none none = ok tt
validate_payload progress (some p) none none = validate_progress p
validate_payload completed none (some r) none = validate_result r
validate_payload failed none none (some f) = do
  guard (not (is_runtime_interrupted f.code)) invalid
  validate_failure f
validate_payload interrupted none none (some f) = do
  guard (is_runtime_interrupted f.code) invalid
  validate_failure f
validate_payload _ _ _ _ = err invalid

unfoldable pub validate_event : RunEvent → Checked
unfolding validate_run_id validate_payload
validate_event e = do
  validate_run_id e.run_id
  guard (not (e.seq == 0) && leb e.seq max_events) invalid
  validate_payload e.event_type e.progress e.result e.failure

-- The loop of GetRunResponse.Validate from the event at `index`.
unfoldable pub validate_events : Bytes → ℕ → List RunEvent → Checked
unfolding validate_event
validate_events run_id index [] = ok tt
validate_events run_id index (event ∷ rest) = do
  validate_event event
  guard (beq event.run_id run_id) invalid
  guard (event.seq == index + 1) invalid
  validate_events run_id (index + 1) rest

-- validateStateAgainstFinalEvent
unfoldable pub matches_final : RunState → RunEventType → Bool
matches_final running started = true
matches_final running progress = true
matches_final cancelling started = true
matches_final cancelling progress = true
matches_final RunState.completed RunEventType.completed = true
matches_final RunState.failed RunEventType.failed = true
matches_final RunState.cancelled RunEventType.cancelled = true
matches_final RunState.interrupted RunEventType.interrupted = true
matches_final _ _ = false

-- The type of the last of the events `event ∷ rest`.
abbrev pub final_type : RunEvent → List RunEvent → RunEventType
final_type event [] = event.event_type
final_type event (next ∷ rest) = final_type next rest

unfoldable pub validate_response_events : RunStatus → List RunEvent → Checked
unfolding validate_events matches_final
validate_response_events s [] =
    guard ((is_accepted s.state || is_cancelling s.state) && s.last_event_seq == 0) invalid
validate_response_events s (event ∷ rest) = do
  validate_events s.run_id 0 (event ∷ rest)
  guard (suc (length rest) == s.last_event_seq) invalid
  guard (matches_final s.state (final_type event rest)) invalid

-- GetRunResponse.Validate
unfoldable pub validate_response : GetRunResponse → Checked
unfolding validate_status validate_response_events
validate_response r = do
  validate_status r.status
  guard (leb (length r.events) max_events) invalid
  validate_response_events r.status r.events

-- ===== src/CoreStore/Validate.antt =====
-- internal/corestore/validate.go, and the clock and option checks of internal/corestore/store.go.
-- Every refusal is `invalid`; the message, which names the field, is left out.
use harness_security_gateway.Prelude.{
  ℕ, zero, suc, ◌-◌, ◌^◌, Bool, true, false, not, ◌&&◌, ◌||◌, Option, none, some, List, [], ◌∷◌,
  ltb, leb, ◌==◌, if◌then◌else◌,
}
use harness_security_gateway.Prelude.Bytes.{Bytes, length}
use harness_security_gateway.Prelude.Results.{Result, ok, err, ◌>>◌, guard}
use harness_security_gateway.Text.{
  valid_utf8, runes_of, is_space, is_control, is_blank, any_of, all_of, is_lower_hex,
  is_ascii_alphanumeric,
}
use harness_security_gateway.CoreStore.Types.{
  Error, invalid, RunState, completed, failed, cancelled, interrupted, RunFailureCode,
  runtime_interrupted, IngestTextRunInput, TextRunAuthorization, SessionKey, FinishRunInput,
  PrepareRunStartInput, TextDeliveryInput, DeliveryFailureCode, temporary, rate_limited,
  recipient_unavailable, content_rejected, not_authorized, connector_internal, DeliveryOutcome,
  delivered, retry, permanent_failure, CompleteDeliveryInput, max_id_bytes, max_target_id_bytes,
  max_revision_bytes, max_session_ref_bytes, sha256_hex_bytes, max_text_bytes,
}

abbrev pub Checked : Type 0
Checked = Result Error (Unit {0})

abbrev pub is_empty : Bytes → Bool
is_empty [] = true
is_empty (_ ∷ _) = false

abbrev pub is_set {ℓ} : {A : Type ℓ} → Option A → Bool
is_set none = false
is_set (some _) = true

-- The largest int64.
abbrev pub max_int64 : ℕ
max_int64 = 2 ^ 63 - 1

-- A reading of 0 stands for every clock value that is not after the Unix epoch.
unfoldable pub now_millis : ℕ → Result Error ℕ
now_millis zero = err invalid
now_millis (suc n) = ok (suc n)

is_separator : ℕ → Bool
is_separator r = is_space r || is_control r

unfoldable pub validate_identifier : Bytes → ℕ → Checked
unfolding is_separator
validate_identifier value max_bytes = do
  guard (not (is_empty value) && leb (length value) max_bytes) invalid
  guard (valid_utf8 value) invalid
  guard (not (any_of is_separator (runes_of value))) invalid

-- The loops over (field, value, limit); the field's name is left out.
unfoldable pub validate_identifiers : List (Bytes × ℕ) → Checked
validate_identifiers [] = ok tt
validate_identifiers ((value, limit) ∷ items) =
    validate_identifier value limit >> validate_identifiers items

unfoldable pub validate_text : Bytes → Bool → Checked
validate_text value allow_empty = do
  guard (valid_utf8 value) invalid
  guard (leb (length value) max_text_bytes) invalid
  guard (allow_empty || not (is_blank value)) invalid
  guard (not (any_of (λ c. c == 0) value)) invalid

unfoldable pub validate_sha256_hex : Bytes → Checked
validate_sha256_hex value = do
  guard (length value == sha256_hex_bytes) invalid
  guard (all_of is_lower_hex value) invalid

is_session_ref_char : ℕ → Bool
is_session_ref_char c = is_ascii_alphanumeric c || c == b'-' || c == b'_' || c == b'.' || c == b'~'

unfoldable pub validate_session_ref : Bytes → Checked
unfolding is_session_ref_char
validate_session_ref value = do
  guard (not (is_empty value) && leb (length value) max_session_ref_bytes) invalid
  guard (all_of is_session_ref_char value) invalid

unfoldable pub validate_ingest : IngestTextRunInput → Checked
unfolding validate_identifiers
validate_ingest input = do
  validate_identifiers (
      (input.connector_id, max_id_bytes)
      ∷ (input.event_id, max_id_bytes)
      ∷ (input.actor_ref, max_id_bytes)
      ∷ (input.conversation_ref, max_id_bytes)
      ∷ (input.message_ref, max_id_bytes)
      ∷ [])
  guard (ltb 0 input.occurred_at) invalid
  validate_text input.text false

unfoldable pub validate_text_run_authorization : TextRunAuthorization → Checked
unfolding validate_identifiers
validate_text_run_authorization a = do
  validate_identifiers
      ((a.target_id, max_target_id_bytes) ∷ (a.target_revision, max_revision_bytes) ∷ [])
  validate_sha256_hex a.binding_fingerprint
  validate_sha256_hex a.policy_revision

unfoldable pub validate_session_key : SessionKey → Checked
unfolding validate_identifiers
validate_session_key key = do
  validate_sha256_hex key.binding_fingerprint
  validate_identifiers (
      (key.connector_id, max_id_bytes)
      ∷ (key.actor_ref, max_id_bytes)
      ∷ (key.conversation_ref, max_id_bytes)
      ∷ (key.target_id, max_target_id_bytes)
      ∷ (key.target_revision, max_revision_bytes)
      ∷ [])

-- RunFailureCode.valid
abbrev pub valid_failure : RunFailureCode → Bool
valid_failure RunFailureCode.unsupported = false
valid_failure _ = true

-- What a failed Run may carry: a valid code other than runtime_interrupted.
abbrev pub failed_code : Option RunFailureCode → Bool
failed_code none = false
failed_code (some runtime_interrupted) = false
failed_code (some code) = valid_failure code

abbrev pub is_interruption : Option RunFailureCode → Bool
is_interruption (some runtime_interrupted) = true
is_interruption _ = false

-- The switch of validateFinish.
unfoldable pub validate_finish_state : RunState → FinishRunInput → Checked
validate_finish_state completed input = do
  guard (not (is_set input.failure_code)) invalid
  validate_text input.output_text true
  if is_empty input.result_session_ref then ok tt else validate_session_ref input.result_session_ref
validate_finish_state failed input = do
  guard (is_empty input.output_text && is_empty input.result_session_ref) invalid
  guard (failed_code input.failure_code) invalid
validate_finish_state cancelled input =
    guard
      (is_empty input.output_text
        && not (is_set input.failure_code)
        && is_empty input.result_session_ref)
      invalid
validate_finish_state interrupted input =
    guard
      (is_empty input.output_text
        && is_empty input.result_session_ref
        && is_interruption input.failure_code)
      invalid
validate_finish_state _ input = err invalid

unfoldable pub validate_finish : FinishRunInput → Checked
unfolding validate_finish_state
validate_finish input = do
  validate_identifier input.run_id max_id_bytes
  validate_identifier input.dispatch_token max_id_bytes
  validate_finish_state input.state input

-- The last millisecond of the year 9999.
abbrev pub max_deadline : ℕ
max_deadline = 253402300799999

-- Deadlines before 1970 stand at 0, which is never after the store's time. The deadline is taken in UTC;
-- MarshalText judges the year in the zone that the deadline carries, which differs only within a day
-- of the last year's end.
abbrev valid_deadline : Option ℕ → ℕ → Bool
valid_deadline none now = false
valid_deadline (some deadline) now = leb deadline max_deadline && ltb now deadline

abbrev validate_optional_ref : Option Bytes → Checked
validate_optional_ref none = ok tt
validate_optional_ref (some ref) = validate_session_ref ref

unfoldable pub validate_prepare_run_start : PrepareRunStartInput → ℕ → Checked
validate_prepare_run_start input now = do
  validate_identifier input.run_id max_id_bytes
  validate_identifier input.dispatch_token max_id_bytes
  validate_optional_ref input.session_ref
  guard (valid_deadline input.deadline now) invalid

unfoldable pub validate_delivery : TextDeliveryInput → Checked
validate_delivery input = do
  validate_identifier input.id max_id_bytes
  validate_text input.text false

abbrev pub retryable : Option DeliveryFailureCode → Bool
retryable (some temporary) = true
retryable (some rate_limited) = true
retryable (some connector_internal) = true
retryable _ = false

abbrev pub permanent : Option DeliveryFailureCode → Bool
permanent (some recipient_unavailable) = true
permanent (some content_rejected) = true
permanent (some not_authorized) = true
permanent (some connector_internal) = true
permanent _ = false

-- The switch of validateCompletion.
unfoldable pub validate_outcome : DeliveryOutcome → CompleteDeliveryInput → Checked
validate_outcome delivered input = do
  validate_identifier input.provider_message_ref max_id_bytes
  guard (not (is_set input.failure_code)) invalid
validate_outcome retry input = do
  guard (is_empty input.provider_message_ref) invalid
  guard (retryable input.failure_code) invalid
validate_outcome permanent_failure input = do
  guard (is_empty input.provider_message_ref) invalid
  guard (permanent input.failure_code) invalid
validate_outcome DeliveryOutcome.unsupported input = err invalid

unfoldable pub validate_completion : CompleteDeliveryInput → Checked
unfolding validate_identifiers validate_outcome
validate_completion input = do
  validate_identifiers (
      (input.connector_id, max_id_bytes)
      ∷ (input.delivery_id, max_id_bytes)
      ∷ (input.lease_token, max_id_bytes)
      ∷ [])
  validate_outcome input.outcome input

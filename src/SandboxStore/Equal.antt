-- ===== src/SandboxStore/Equal.antt =====
-- reflect.DeepEqual on the events and the session mappings of internal/sandboxstore/staged.go. Valid
-- events have no `unsupported` value.
use harness_security_gateway.Prelude.{ℕ, Bool, true, false, ◌&&◌, Option, none, some, ◌==◌}
use harness_security_gateway.Prelude.Bytes.{beq}
use harness_security_gateway.ExecutionWire.{
  MediaType, text_plain, RunEventType, started, progress, ProgressKind, status, output_delta,
  FailureCode, target_unavailable, revision_mismatch, invalid_session, policy_denied,
  deadline_exceeded, output_limit, runner_failed, protocol_violation, runtime_interrupted, internal,
  TextContent, RunProgress, RunResult, RunFailure, RunEvent,
}
use harness_security_gateway.SandboxStore.Types.{SessionMapping}

-- The positions of the constants, by which they are compared.
abbrev type_index : RunEventType → ℕ
type_index started = 0
type_index progress = 1
type_index RunEventType.completed = 2
type_index RunEventType.failed = 3
type_index RunEventType.cancelled = 4
type_index RunEventType.interrupted = 5
type_index RunEventType.unsupported = 6

abbrev media_index : MediaType → ℕ
media_index text_plain = 0
media_index MediaType.unsupported = 1

abbrev kind_index : ProgressKind → ℕ
kind_index status = 0
kind_index output_delta = 1
kind_index ProgressKind.unsupported = 2

abbrev code_index : FailureCode → ℕ
code_index target_unavailable = 0
code_index revision_mismatch = 1
code_index invalid_session = 2
code_index policy_denied = 3
code_index deadline_exceeded = 4
code_index output_limit = 5
code_index runner_failed = 6
code_index protocol_violation = 7
code_index runtime_interrupted = 8
code_index internal = 9
code_index FailureCode.unsupported = 10

abbrev same_option : {A : Type 0} → (A → A → Bool) → Option A → Option A → Bool
same_option same none none = true
same_option same (some a) (some b) = same a b
same_option same _ _ = false

abbrev same_progress : RunProgress → RunProgress → Bool
same_progress a b = kind_index a.kind == kind_index b.kind && beq a.text b.text

abbrev same_content : TextContent → TextContent → Bool
same_content a b = media_index a.media_type == media_index b.media_type && beq a.text b.text

abbrev same_result : RunResult → RunResult → Bool
same_result a b = same_content a.output b.output && same_option beq a.session_ref b.session_ref

abbrev same_failure : RunFailure → RunFailure → Bool
same_failure a b = code_index a.code == code_index b.code && beq a.message b.message

unfoldable pub same_event : RunEvent → RunEvent → Bool
same_event a b =
    beq a.run_id b.run_id
    && a.seq == b.seq
    && type_index a.event_type == type_index b.event_type
    && same_option same_progress a.progress b.progress
    && same_option same_result a.result b.result
    && same_option same_failure a.failure b.failure

unfoldable pub same_mapping : Option SessionMapping → Option SessionMapping → Bool
same_mapping =
    same_option (λ (a b : SessionMapping). beq a.ref b.ref && beq a.vendor_token b.vendor_token)

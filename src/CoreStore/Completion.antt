-- ===== src/CoreStore/Completion.antt =====
-- CompleteDelivery and retryBackoff of internal/corestore/outbox.go.
pub mod Backoff
pub mod Repeat
use harness_security_gateway.Prelude.{
  ℕ, zero, suc, ◌+◌, ◌-◌, ◌*◌, ◌/◌, Bool, true, false, not, ◌&&◌, Option, none, some, ltb, leb,
  ◌==◌, if◌then◌else◌,
}
use harness_security_gateway.Prelude.Bytes.{Bytes, beq, coalesce}
use harness_security_gateway.Prelude.Results.{Result, ok, ◌>>=◌, ◌>>◌, guard}
use harness_security_gateway.Prelude.Tables.{find_where, update_where}
use harness_security_gateway.CoreStore.Types.{
  Error, invalid, conflict, not_found, lease_lost, DeliveryState, pending, leased, permanent_failed,
  DeliveryFailureCode, temporary, rate_limited, recipient_unavailable, content_rejected,
  not_authorized, connector_internal, Delivery, DeliveryOutcome, retry, permanent_failure,
  CompleteDeliveryInput, Db,
}
use harness_security_gateway.CoreStore.Validate.{max_int64, now_millis, validate_completion}
use harness_security_gateway.CoreStore.Options.{hour, millisecond}
use harness_security_gateway.CoreStore.Tables.{Tx, attempt, lapsed, or_error, owned_by}
use harness_security_gateway.CoreStore.Outbox.{has_delivery_id}

abbrev pub max_retry_delay : ℕ
max_retry_delay = hour

-- The loop of retryBackoff, by the rounds that are left.
unfoldable pub backoff_loop : ℕ → ℕ → ℕ
backoff_loop zero delay = delay
backoff_loop (suc rounds) delay =
    let doubled = backoff_loop rounds (delay * 2) in
    if ltb delay max_retry_delay
    then (if ltb (max_retry_delay / 2) delay then max_retry_delay else doubled)
    else delay

unfoldable pub retry_backoff : ℕ → ℕ → ℕ
unfolding backoff_loop
retry_backoff retry_delay attempt_count =
    let delay = backoff_loop (attempt_count - 1) retry_delay in
    if ltb max_retry_delay delay then max_retry_delay else delay

-- The position of a code among the constants, by which codes are compared; 0 is the empty string.
abbrev pub delivery_code_index : Option DeliveryFailureCode → ℕ
delivery_code_index none = 0
delivery_code_index (some temporary) = 1
delivery_code_index (some rate_limited) = 2
delivery_code_index (some recipient_unavailable) = 3
delivery_code_index (some content_rejected) = 4
delivery_code_index (some not_authorized) = 5
delivery_code_index (some connector_internal) = 6
delivery_code_index (some DeliveryFailureCode.unsupported) = 7

abbrev pub same_delivery_code : Option DeliveryFailureCode → Option DeliveryFailureCode → Bool
same_delivery_code a b = delivery_code_index a == delivery_code_index b

abbrev pub is_outcome_delivered : DeliveryOutcome → Bool
is_outcome_delivered DeliveryOutcome.delivered = true
is_outcome_delivered _ = false

abbrev pub is_outcome_retry : DeliveryOutcome → Bool
is_outcome_retry retry = true
is_outcome_retry _ = false

abbrev pub is_outcome_permanent : DeliveryOutcome → Bool
is_outcome_permanent permanent_failure = true
is_outcome_permanent _ = false

abbrev pub complete_delivered : Bytes → ℕ → Delivery → Delivery
complete_delivered provider_ref now d = record d {
  state = DeliveryState.delivered;
  lease_expires_at = none;
  provider_message_ref = some provider_ref;
  failure_code = none;
  updated_at = now;
}

abbrev pub complete_retry : ℕ → Option DeliveryFailureCode → ℕ → Delivery → Delivery
complete_retry retry_at code now d = record d {
  state = pending;
  lease_expires_at = none;
  available_at = retry_at;
  failure_code = code;
  updated_at = now;
}

abbrev pub complete_permanent : Option DeliveryFailureCode → ℕ → Delivery → Delivery
complete_permanent code now d = record d {
  state = permanent_failed;
  lease_expires_at = none;
  failure_code = code;
  updated_at = now;
}

-- When a retried delivery is next available; an int64 that wraps is not after `now`.
unfoldable pub retry_time : ℕ → ℕ → ℕ → Result Error ℕ
unfolding retry_backoff
retry_time retry_delay now attempt_count =
    let retry_at = now + retry_backoff retry_delay attempt_count / millisecond in
    do guard (ltb now retry_at && leb retry_at max_int64) invalid; ok retry_at

-- The update that a completion makes of the leased row, by its outcome.
unfoldable pub completion :
    ℕ → ℕ → CompleteDeliveryInput → Delivery → DeliveryOutcome → Result Error (Delivery → Delivery)
completion retry_delay now input d DeliveryOutcome.delivered =
    ok (complete_delivered input.provider_message_ref now)
completion retry_delay now input d retry = do
  retry_at ← retry_time retry_delay now d.attempt_count
  ok (complete_retry retry_at input.failure_code now)
completion retry_delay now input d permanent_failure =
    ok (complete_permanent input.failure_code now)
completion retry_delay now input d DeliveryOutcome.unsupported = ok (λ row. row)

-- A settled or retried delivery answers an exact repetition, and refuses any other result.
unfoldable pub complete_by_state :
    ℕ → ℕ → CompleteDeliveryInput → Delivery → Db → DeliveryState → Tx (Unit {0})
complete_by_state retry_delay now input d db DeliveryState.delivered =
    attempt
      (guard
        (is_outcome_delivered input.outcome
          && beq (coalesce d.provider_message_ref) input.provider_message_ref)
        conflict)
      db λ _. (ok tt, db)
complete_by_state retry_delay now input d db permanent_failed =
    attempt
      (guard
        (is_outcome_permanent input.outcome && same_delivery_code d.failure_code input.failure_code)
        conflict)
      db λ _. (ok tt, db)
complete_by_state retry_delay now input d db pending =
    attempt
      (guard
        (is_outcome_retry input.outcome && same_delivery_code d.failure_code input.failure_code)
        conflict)
      db λ _. (ok tt, db)
complete_by_state retry_delay now input d db leased =
    attempt (guard (not (lapsed now d.lease_expires_at)) lease_lost) db λ _.
      attempt (completion retry_delay now input d input.outcome) db λ change. (
        ok tt,
        record db {
          deliveries = update_where (has_delivery_id input.delivery_id) change db.deliveries;
        },
      )

-- CompleteDelivery
unfoldable pub complete_delivery : ℕ → ℕ → CompleteDeliveryInput → Db → Tx (Unit {0})
unfolding complete_by_state
complete_delivery retry_delay clock input db = attempt (now_millis clock) db λ now.
    attempt (validate_completion input) db λ _.
      attempt
        (or_error not_found (
          find_where
            (λ d. has_delivery_id input.delivery_id d && owned_by input.connector_id db.runs d)
            db.deliveries))
        db
        λ d.
          attempt (guard (beq (coalesce d.lease_token) input.lease_token) lease_lost) db
            λ _. complete_by_state retry_delay now input d db d.state

-- ===== src/AgentService/Answers.antt =====
-- The answers of Service.Complete (internal/agentservice/service.go) to a valid completion.
use mathlib.Core.Bool.{false≢true}
use mathlib.Core.Path.{subst}
use harness_security_gateway.Prelude.{
  ap, ℕ, zero, suc, ◌+◌, ◌≤◌, ◌<◌, ◌≡◌, refl, sym, ◌∙◌, Bool, true, false, Option, none, some,
  arith,
}
use harness_security_gateway.Prelude.Results.{Result, ok, err, guard, is_ok}
use harness_security_gateway.CoreStore.Types.{
  Error, conflict, not_found, lease_lost, DeliveryState, pending, leased, permanent_failed,
  Delivery, DeliveryOutcome, retry, permanent_failure, CompleteDeliveryInput, Db,
}
use harness_security_gateway.CoreStore.Validate.{
  max_int64, now_millis, validate_identifier, validate_completion,
}
use harness_security_gateway.CoreStore.Options.{millisecond}
use harness_security_gateway.CoreStore.Tables.{or_error}
use harness_security_gateway.CoreStore.Tables.Keeps.{Ensures, Ensures-attempt, Ensures-pair}
use harness_security_gateway.CoreStore.Completion.{
  complete_delivery, complete_by_state, completion, retry_time, retry_backoff, max_retry_delay,
}
use harness_security_gateway.CoreStore.Completion.Backoff.{retry_backoff_lem, grows}
use harness_security_gateway.CoreStore.Admission.{now_millis→≡}
use harness_security_gateway.ConnectorWire.{
  DeliveryComplete, validate_delivery_complete, max_id_bytes,
}
use harness_security_gateway.AgentService.{
  ErrorCode, delivery_not_found, unavailable, Service, after, map_store_error, map_completion_error,
  completion_checks, under_database, completion_input, complete,
}
use harness_security_gateway.AgentService.Completes.{complete-validates}

-- The errors that the store may give for a completion that it accepts.
data IsStoreAnswer : Result Error (Unit {0}) → Type 0 where
  settled : IsStoreAnswer (ok tt)
  missing : IsStoreAnswer (err not_found)
  lost : IsStoreAnswer (err lease_lost)
  differs : IsStoreAnswer (err conflict)

-- What the connector may be told: done, or that the delivery or its lease is gone.
abbrev IsAnswer : Result ErrorCode (Unit {0}) → Type 0
IsAnswer (ok _) = Unit
IsAnswer (err delivery_not_found) = Unit
IsAnswer (err ErrorCode.lease_lost) = Unit
IsAnswer (err _) = ⊥

-- The answer, and the store after it, for a database that works or does not.
abbrev pub IsAnswered : Bool → Db → Result ErrorCode (Unit {0}) × Db → Type 0
IsAnswered true db answer = IsAnswer answer.0
IsAnswered false db answer = answer ≡ (err unavailable, db)

err-injective : {E A : Type 0} {a b : E} → ◌≡◌ {A = Result E A} (err a) (err b) → a ≡ b
err-injective h = cc

guard-answers :
    (b : Bool) (e : Error) (e' : Error)
    → IsStoreAnswer (err e)
    → guard b e ≡ err e'
    → IsStoreAnswer (err e')
guard-answers true e e' h h' = cc
guard-answers false e e' h h' = subst (λ x. IsStoreAnswer (err x)) (err-injective h') h

or_error-answers :
    {A : Type 0} (o : Option A) (e' : Error)
    → or_error not_found o ≡ err e'
    → IsStoreAnswer (err e')
or_error-answers none e' h = subst (λ x. IsStoreAnswer (err x)) (err-injective h) missing
or_error-answers (some a) e' h = cc

retry_backoff-at_least : (base n : ℕ) → base ≤ max_retry_delay → base ≤ retry_backoff base n
unfolding retry_backoff
retry_backoff-at_least base zero h = ground arith
retry_backoff-at_least base (suc n) h =
    rw (retry_backoff_lem base n h) (omega (arith, grows base n))

retry_backoff-at_most : (base n : ℕ) → retry_backoff base n ≤ max_retry_delay
unfolding retry_backoff
retry_backoff-at_most base n = ground arith

module _ (retry_delay now : ℕ) (input : CompleteDeliveryInput)
    (base_min : millisecond ≤ retry_delay) (base_max : retry_delay ≤ max_retry_delay)
    (room : now + 3600000 ≤ max_int64) where
  retry_time-ok : (n : ℕ) → is_ok (retry_time retry_delay now n) ≡ true
  unfolding retry_time
  retry_time-ok n =
      ground
        (arith, retry_backoff-at_least retry_delay n base_max, retry_backoff-at_most retry_delay n)

  completion-ok :
      (d : Delivery) (outcome : DeliveryOutcome)
      → is_ok (completion retry_delay now input d outcome) ≡ true
  unfolding completion
  completion-ok d DeliveryOutcome.delivered = refl
  completion-ok d retry = ground (arith, retry_time-ok d.attempt_count)
  completion-ok d permanent_failure = refl
  completion-ok d DeliveryOutcome.unsupported = refl

  complete_by_state-answers :
      (d : Delivery) (db : Db) (state : DeliveryState)
      → Ensures (λ r _. IsStoreAnswer r) (complete_by_state retry_delay now input d db state)
  unfolding complete_by_state
  complete_by_state-answers d db DeliveryState.delivered =
      Ensures-attempt _ db _ (λ e h. guard-answers _ conflict e differs h)
        λ _ _. Ensures-pair _ db settled
  complete_by_state-answers d db permanent_failed =
      Ensures-attempt _ db _ (λ e h. guard-answers _ conflict e differs h)
        λ _ _. Ensures-pair _ db settled
  complete_by_state-answers d db pending =
      Ensures-attempt _ db _ (λ e h. guard-answers _ conflict e differs h)
        λ _ _. Ensures-pair _ db settled
  complete_by_state-answers d db leased =
      Ensures-attempt _ db _ (λ e h. guard-answers _ lease_lost e lost h)
        λ _ _.
          Ensures-attempt (completion retry_delay now input d input.outcome) db _
            (λ e h. absurd (false≢true (ap is_ok (sym h) ∙ completion-ok d input.outcome)))
            λ _ _. Ensures-pair _ _ settled

now_millis-never :
    (clock : ℕ) (e : Error) → 0 < clock → now_millis clock ≡ err e → IsStoreAnswer (err e)
unfolding now_millis
now_millis-never zero e h h' = absurd (omega arith)
now_millis-never (suc n) e h h' = cc

module _ (retry_delay clock : ℕ) (input : CompleteDeliveryInput)
    (base_min : millisecond ≤ retry_delay) (base_max : retry_delay ≤ max_retry_delay)
    (after_epoch : 0 < clock) (room : clock + 3600000 ≤ max_int64) where
  complete_delivery-answers :
      (db : Db)
      → validate_completion input ≡ ok tt
      → Ensures (λ r _. IsStoreAnswer r) (complete_delivery retry_delay clock input db)
  unfolding complete_delivery
  complete_delivery-answers db valid =
      Ensures-attempt _ db _ (λ e h. now_millis-never clock e after_epoch h)
        λ now read. rw (now_millis→≡ clock now read) (
          Ensures-attempt (validate_completion input) db _
            (λ e h. absurd (false≢true (ap is_ok (sym h ∙ valid))))
            λ _ _.
              Ensures-attempt _ db _ (λ e h. or_error-answers _ e h)
                λ d _.
                  Ensures-attempt _ db _ (λ e h. guard-answers _ lease_lost e lost h)
                    λ _ _.
                      complete_by_state-answers retry_delay clock input base_min base_max room d db
                        d.state)

-- The connector sees the store's answer, and an unavailable database as `unavailable`.
after-answers :
    (works : Bool) (r : Result Error (Unit {0})) (db later : Db)
    → IsStoreAnswer r
    → IsAnswered works db
        (after (under_database works (ok tt) db (r, later)) map_completion_error (λ _. ok tt))
unfolding map_completion_error map_store_error under_database
after-answers true _ db later settled = tt
after-answers true _ db later missing = tt
after-answers true _ db later lost = tt
after-answers true _ db later differs = tt
after-answers false r db later h = refl

completion_checks-passed :
    (clock : ℕ) (input : CompleteDeliveryInput)
    → 0 < clock
    → validate_completion input ≡ ok tt
    → completion_checks clock input ≡ ok tt
unfolding completion_checks now_millis
completion_checks-passed zero input after_epoch valid = absurd (omega arith)
completion_checks-passed (suc n) input after_epoch valid = valid

-- A valid completion is answered by success, by `delivery_not_found` or by `lease_lost` when the database
-- works, and by `unavailable` when it cannot begin the transaction, which leaves the store as it was;
-- `internal` is never the answer. This is for a service with a valid connector identifier, a retry delay between one
-- millisecond and one hour, and a clock that is after the epoch and at least an hour below the last
-- int64.
pub complete-answers :
    (works : Bool) (retry_delay clock : ℕ) (s : Service) (v : DeliveryComplete) (db : Db)
    → millisecond ≤ retry_delay
    → retry_delay ≤ max_retry_delay
    → 0 < clock
    → clock + 3600000 ≤ max_int64
    → validate_identifier s.connector_id max_id_bytes ≡ ok tt
    → validate_delivery_complete v ≡ ok tt
    → IsAnswered works db (complete works retry_delay clock s v db)
unfolding complete
complete-answers works retry_delay clock s v db base_min base_max after_epoch room connector valid =
    let (m, mapped, good) = complete-validates s v connector valid in
    let tx = complete_delivery retry_delay clock (completion_input s v m) db in
    rw (valid, mapped, completion_checks-passed clock (completion_input s v m) after_epoch good)
      (after-answers works tx.0 db tx.1 (
        (complete_delivery-answers retry_delay clock (completion_input s v m) base_min base_max
          after_epoch room db good).holds))

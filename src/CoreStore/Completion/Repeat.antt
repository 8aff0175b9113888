-- ===== src/CoreStore/Completion/Repeat.antt =====
-- CompleteDelivery repeated with the same outcome.
use harness_security_gateway.Prelude.{
  ℕ, suc, ◌≡◌, refl, ap, ◌∙◌, Bool, true, ◌&&◌, Option, some, arith, &&-true_left,
}
use harness_security_gateway.Prelude.Bytes.{beq, beq_refl, coalesce}
use harness_security_gateway.Prelude.Results.{ok, guard, >>=-eq-ok, ok-injective}
use harness_security_gateway.Prelude.Tables.{find_where, update_where}
use harness_security_gateway.Prelude.Tables.Laws.{find_where-update, find_where_sound}
use harness_security_gateway.CoreStore.Types.{
  conflict, Delivery, DeliveryState, pending, leased, permanent_failed, DeliveryOutcome,
  DeliveryFailureCode, CompleteDeliveryInput, Db, lease_lost,
}
use harness_security_gateway.CoreStore.Validate.{now_millis, validate_completion, validate_outcome}
use harness_security_gateway.CoreStore.Tables.{attempt, owned_by}
use harness_security_gateway.CoreStore.Tables.Keeps.{Ensures, Ensures-attempt, Ensures-pair}
use harness_security_gateway.CoreStore.Outbox.{has_delivery_id}
use harness_security_gateway.CoreStore.Completion.{
  complete_delivery, complete_by_state, completion, retry_time, is_outcome_delivered,
  is_outcome_permanent, is_outcome_retry, same_delivery_code,
}
use harness_security_gateway.CoreStore.Invariant.Operations.{or_error-some}

abbrev is_addressed : CompleteDeliveryInput → Db → Delivery → Bool
is_addressed input db d =
    has_delivery_id input.delivery_id d && owned_by input.connector_id db.runs d

-- The answer to a repetition, which a settled or retried row gives.
abbrev Repeats : ℕ → ℕ → CompleteDeliveryInput → Db → Delivery → Type 0
Repeats retry_delay now input db d =
    complete_by_state retry_delay now input d db d.state ≡ (ok tt, db)

repeated :
    (retry_delay later : ℕ) (input : CompleteDeliveryInput) (db : Db) (d : Delivery)
    → validate_completion input ≡ ok tt
    → find_where (is_addressed input db) db.deliveries ≡ some d
    → guard (beq (coalesce d.lease_token) input.lease_token) lease_lost ≡ ok tt
    → Repeats retry_delay (suc later) input db d
    → complete_delivery retry_delay (suc later) input db ≡ (ok tt, db)
unfolding complete_delivery attempt now_millis
repeated retry_delay later input db d valid found token again = rw valid (rw found (rw token again))

same_delivery_code_refl : (code : Option DeliveryFailureCode) → same_delivery_code code code ≡ true
same_delivery_code_refl code = ground arith

-- The three updates of a leased row settle it, or release it with the code of the retry.
completion-Repeats :
    (retry_delay now later : ℕ) (input : CompleteDeliveryInput) (d : Delivery) (db : Db)
    (change : Delivery → Delivery)
    → validate_outcome input.outcome input ≡ ok tt
    → completion retry_delay now input d input.outcome ≡ ok change
    → Repeats retry_delay later input db (change d)
unfolding complete_by_state completion attempt validate_outcome
completion-Repeats retry_delay now later input d db change valid h = go input.outcome refl h
  where
    go :
        (o : DeliveryOutcome)
        → input.outcome ≡ o
        → completion retry_delay now input d o ≡ ok change
        → Repeats retry_delay later input db (change d)
    go DeliveryOutcome.delivered e h =
        rw (← ok-injective h) (rw (e, beq_refl input.provider_message_ref) refl)
    go DeliveryOutcome.retry e h =
        let (at, _, made) = >>=-eq-ok (retry_time retry_delay now d.attempt_count) _ h in
        rw (← ok-injective made) (rw (e, same_delivery_code_refl input.failure_code) refl)
    go DeliveryOutcome.permanent_failure e h =
        rw (← ok-injective h) (rw (e, same_delivery_code_refl input.failure_code) refl)
    go DeliveryOutcome.unsupported e h = ground arith

record KeepsKeys (change : Delivery → Delivery) : Type 0 where
  same_id : (x : Delivery) → (change x).id ≡ x.id
  same_run : (x : Delivery) → (change x).run_id ≡ x.run_id
  same_token : (x : Delivery) → (change x).lease_token ≡ x.lease_token

completion-KeepsKeys :
    (retry_delay now : ℕ) (input : CompleteDeliveryInput) (d : Delivery) (o : DeliveryOutcome)
    (change : Delivery → Delivery)
    → completion retry_delay now input d o ≡ ok change
    → KeepsKeys change
unfolding completion
completion-KeepsKeys retry_delay now input d DeliveryOutcome.delivered change h =
    rw (← ok-injective h)
      (record { same_id = λ x. refl; same_run = λ x. refl; same_token = λ x. refl })
completion-KeepsKeys retry_delay now input d DeliveryOutcome.retry change h =
    let (at, _, made) = >>=-eq-ok (retry_time retry_delay now d.attempt_count) _ h in
    rw (← ok-injective made)
      (record { same_id = λ x. refl; same_run = λ x. refl; same_token = λ x. refl })
completion-KeepsKeys retry_delay now input d DeliveryOutcome.permanent_failure change h =
    rw (← ok-injective h)
      (record { same_id = λ x. refl; same_run = λ x. refl; same_token = λ x. refl })
completion-KeepsKeys retry_delay now input d DeliveryOutcome.unsupported change h =
    rw (← ok-injective h)
      (record { same_id = λ x. refl; same_run = λ x. refl; same_token = λ x. refl })

-- What a successful completion leaves: a row that answers its repetition.
record IsCompleted (retry_delay later : ℕ) (input : CompleteDeliveryInput) (d : Delivery) (db : Db)
    : Type 0 where
  row : Delivery
  found : find_where (is_addressed input db) db.deliveries ≡ some row
  same_token : row.lease_token ≡ d.lease_token
  repeats : Repeats retry_delay later input db row

abbrev updated : CompleteDeliveryInput → (Delivery → Delivery) → Db → Db
updated input change db = record db {
  deliveries = update_where (has_delivery_id input.delivery_id) change db.deliveries;
}

find-updated :
    (input : CompleteDeliveryInput) (d : Delivery) (db : Db) (change : Delivery → Delivery)
    → KeepsKeys change
    → find_where (is_addressed input db) db.deliveries ≡ some d
    → find_where
        (is_addressed input db)
        (update_where (has_delivery_id input.delivery_id) change db.deliveries)
      ≡ some (change d)
unfolding owned_by
find-updated input d db change k found =
    rw
      (
        find_where-update (is_addressed input db) (has_delivery_id input.delivery_id) change
            db.deliveries (λ x. rw (k.same_id x, k.same_run x) refl),
        found,
        &&-true_left (has_delivery_id input.delivery_id d) (owned_by input.connector_id db.runs d)
            (find_where_sound (is_addressed input db) db.deliveries d found),
      )
      refl

module _ (retry_delay now later : ℕ) (input : CompleteDeliveryInput) (d : Delivery) (db : Db) where
  settled :
      find_where (is_addressed input db) db.deliveries ≡ some d
      → Repeats retry_delay later input db d
      → IsCompleted retry_delay later input d db
  settled found again = record { row = d; found = found; same_token = refl; repeats = again }

  in_state :
      (state : DeliveryState)
      → d.state ≡ state
      → complete_by_state retry_delay later input d db state ≡ (ok tt, db)
      → Repeats retry_delay later input db d
  in_state state e h =
      ap (λ (s : DeliveryState). complete_by_state retry_delay later input d db s) e ∙ h

  leased-Ensures :
      validate_outcome input.outcome input ≡ ok tt
      → find_where (is_addressed input db) db.deliveries ≡ some d
      → Ensures
          (λ r db'. r ≡ ok tt → IsCompleted retry_delay later input d db')
          (complete_by_state retry_delay now input d db leased)
  unfolding complete_by_state
  leased-Ensures valid found =
      Ensures-attempt _ db _ (λ _ _ h. cc)
        λ _ _.
          Ensures-attempt _ db _ (λ _ _ h. cc)
            λ change made.
              let k = completion-KeepsKeys retry_delay now input d input.outcome change made in
              Ensures-pair _ (updated input change db) (λ _. record {
                row = change d;
                found = find-updated input d db change k found;
                same_token = k.same_token d;
                repeats =
                    completion-Repeats retry_delay now later input d (updated input change db)
                      change valid made;
              })

  complete_by_state-Ensures :
      (state : DeliveryState)
      → d.state ≡ state
      → validate_outcome input.outcome input ≡ ok tt
      → find_where (is_addressed input db) db.deliveries ≡ some d
      → Ensures
          (λ r db'. r ≡ ok tt → IsCompleted retry_delay later input d db')
          (complete_by_state retry_delay now input d db state)
  unfolding complete_by_state attempt
  complete_by_state-Ensures DeliveryState.delivered e valid found =
      Ensures-attempt
        (guard
          (is_outcome_delivered input.outcome
            && beq (coalesce d.provider_message_ref) input.provider_message_ref)
          conflict)
        db _ (λ _ _ h. cc)
        λ u same. Ensures-pair _ db (λ _. settled found (in_state _ e (rw same refl)))
  complete_by_state-Ensures permanent_failed e valid found =
      Ensures-attempt
        (guard
          (is_outcome_permanent input.outcome
            && same_delivery_code d.failure_code input.failure_code)
          conflict)
        db _ (λ _ _ h. cc)
        λ u same. Ensures-pair _ db (λ _. settled found (in_state _ e (rw same refl)))
  complete_by_state-Ensures pending e valid found =
      Ensures-attempt
        (guard
          (is_outcome_retry input.outcome && same_delivery_code d.failure_code input.failure_code)
          conflict)
        db _ (λ _ _ h. cc)
        λ u same. Ensures-pair _ db (λ _. settled found (in_state _ e (rw same refl)))
  complete_by_state-Ensures leased e valid found = leased-Ensures valid found

valid_outcome :
    (input : CompleteDeliveryInput)
    → validate_completion input ≡ ok tt
    → validate_outcome input.outcome input ≡ ok tt
unfolding validate_completion
valid_outcome input h = ground arith

complete_delivery-Ensures :
    (retry_delay clock later : ℕ) (input : CompleteDeliveryInput) (db : Db)
    → Ensures
        (λ r db'. r ≡ ok tt → complete_delivery retry_delay (suc later) input db' ≡ (ok tt, db'))
        (complete_delivery retry_delay clock input db)
unfolding complete_delivery
complete_delivery-Ensures retry_delay clock later input db =
    Ensures-attempt _ db _ (λ _ _ h. cc)
      λ now _.
        Ensures-attempt _ db _ (λ _ _ h. cc)
          λ u valid.
            Ensures-attempt _ db _ (λ _ _ h. cc)
              λ d found.
                Ensures-attempt _ db _ (λ _ _ h. cc)
                  λ v token.
                    let m = complete_by_state retry_delay now input d db d.state in
                    let done =
                      (complete_by_state-Ensures retry_delay now (suc later) input d db d.state refl
                        (valid_outcome input valid) (or_error-some _ _ d found)).holds in
                    Ensures-pair m.0 m.1 (λ h.
                      let c = done h in
                      repeated retry_delay later input m.1 c.row valid c.found
                        (rw c.same_token token) c.repeats)

-- CompleteDelivery can be repeated: once it has succeeded, the same call succeeds again at any later
-- clock and leaves the database as it is, whether the outcome was delivered, a permanent failure or a
-- retry.
pub complete_delivery-repeats :
    (retry_delay clock later : ℕ) (input : CompleteDeliveryInput) (db : Db)
    → (complete_delivery retry_delay clock input db).0 ≡ ok tt
    → complete_delivery retry_delay
        (suc later)
        input
        (complete_delivery retry_delay clock input db).1
      ≡ (ok tt, (complete_delivery retry_delay clock input db).1)
complete_delivery-repeats retry_delay clock later input db h =
    (complete_delivery-Ensures retry_delay clock later input db).holds h

-- ===== src/AgentService.antt =====
-- internal/agentservice/service.go: what one connector may ask of agentd, over corestore. The store is
-- the database, and its clock and sources of identifiers are the answers that they give; a service
-- that is nil or has no store is not a value of the model.
pub mod Hash
pub mod Admission
pub mod Completes
pub mod Answers
mod Scenarios
use harness_security_gateway.Prelude.{
  ℕ, ◌*◌, Bool, true, false, not, ◌&&◌, ◌||◌, Option, none, some, List, [], ◌∷◌, ltb, leb,
  if◌then◌else◌,
}
use harness_security_gateway.Prelude.Bytes.{Bytes, codes, beq, length, coalesce}
use harness_security_gateway.Prelude.Results.{Result, ok, err, ◌>>=◌, ◌>>◌, guard, is_ok}
use harness_security_gateway.CoreStore.Types.{
  Error, storage, invalid, conflict, not_found, dispatch_lost, start_unprepared, invalid_transition,
  session_scope_busy, denied, AdmissionOptions, IngestTextRunInput, TextRunAuthorization,
  IngestResult, TextDelivery, DeliveryOutcome, retry, permanent_failure, DeliveryFailureCode,
  temporary, rate_limited, recipient_unavailable, content_rejected, not_authorized,
  connector_internal, CompleteDeliveryInput, Db,
}
use harness_security_gateway.CoreStore.Validate.{is_empty, now_millis, validate_completion}
use harness_security_gateway.CoreStore.Tables.{Tx}
use harness_security_gateway.CoreStore.Ingest.{Pages, ingest_text_run}
use harness_security_gateway.CoreStore.Outbox.{is_leased, claim_text_deliveries}
use harness_security_gateway.CoreStore.Completion.{complete_delivery}
use harness_security_gateway.AgentPolicy.{
  PolicyError, no_binding, self_event, Decision, Endpoint, authorize,
}
use harness_security_gateway.ConnectorWire.{
  InboundEvent, InboundReceipt, DeliveryClaim, OutboundText, DeliveryClaimResult, DeliveryComplete,
  content_type_action, inbound_accepted, inbound_duplicate, delivery_delivered, delivery_retry,
  delivery_permanent_failure, failure_temporary, failure_rate_limited,
  failure_recipient_unavailable, failure_content_rejected, failure_not_authorized,
  failure_connector_internal, validate_inbound_event, validate_inbound_receipt,
  validate_delivery_claim, validate_claim_result, validate_delivery_complete,
}
use harness_security_gateway.AgentService.Hash.{inbound_event_preimage, legacy_event_preimage}

-- The codes of connectorhttp.ServiceError; its cause is left out.
pub data ErrorCode : Type 0 where
  forbidden action_unsupported event_conflict event_expired quota_exceeded run_in_progress
        delivery_not_found lease_lost unavailable internal :
      ErrorCode

pub record Service : Type 0 where
  pub endpoint : Endpoint
  pub connector_id : Bytes
  pub delivery_lease : ℕ

abbrev second : ℕ
second = 1000000000

-- newService; none stands for its errors.
unfoldable pub new_service : Endpoint → ℕ → Option Service
new_service endpoint delivery_lease =
    if ltb delivery_lease second || ltb (600 * second) delivery_lease
    then none
    else if is_empty endpoint.connector_id
    then none
    else some (record {
      endpoint = endpoint;
      connector_id = endpoint.connector_id;
      delivery_lease = delivery_lease;
    })

-- `if err != nil { return map(err) }` after a call of the store.
abbrev pub after :
    {A B : Type 0} → Tx A → (Error → ErrorCode) → (A → Result ErrorCode B) → Result ErrorCode B × Db
after (ok a, db) code next = (next a, db)
after (err e, db) code next = (err (code e), db)

unfoldable pub map_store_error : Error → ErrorCode
map_store_error invalid = internal
map_store_error dispatch_lost = internal
map_store_error start_unprepared = internal
map_store_error invalid_transition = internal
map_store_error _ = unavailable

unfoldable pub map_completion_error : Error → ErrorCode
unfolding map_store_error
map_completion_error not_found = delivery_not_found
map_completion_error Error.lease_lost = ErrorCode.lease_lost
map_completion_error conflict = ErrorCode.lease_lost
map_completion_error e = map_store_error e

-- What errors.As finds in an error of the store: the ServiceError of the authorizer, when the store
-- returned that call's error.
abbrev public_error : {A : Type 0} → Result ErrorCode A → Error → Option ErrorCode
public_error (err code) denied = some code
public_error _ _ = none

unfoldable pub map_private_error : Error → ErrorCode
unfolding map_store_error
map_private_error session_scope_busy = run_in_progress
map_private_error conflict = event_conflict
map_private_error Error.event_expired = ErrorCode.event_expired
map_private_error Error.quota_exceeded = ErrorCode.quota_exceeded
map_private_error e = map_store_error e

abbrev or_private : Error → Option ErrorCode → ErrorCode
or_private e (some code) = code
or_private e none = map_private_error e

-- mapIngestError
abbrev pub map_ingest_error : {A : Type 0} → Result ErrorCode A → Error → ErrorCode
map_ingest_error authorized e = or_private e (public_error authorized e)

abbrev pub authorization_of : Decision → TextRunAuthorization
authorization_of decision = record {
  target_id = decision.target_id;
  target_revision = decision.target_revision;
  binding_fingerprint = decision.binding_fingerprint;
  policy_revision = decision.policy_revision;
}

abbrev pub authorized_as : Result PolicyError Decision → Result ErrorCode TextRunAuthorization
authorized_as (ok decision) = ok (authorization_of decision)
authorized_as (err no_binding) = err forbidden
authorized_as (err self_event) = err forbidden
authorized_as (err _) = err internal

-- The authorizer that Ingest passes to the store.
unfoldable pub authorize_run : Service → InboundEvent → Result ErrorCode TextRunAuthorization
authorize_run s event = authorized_as (authorize s.endpoint event.actor_ref event.conversation_ref)

-- The same answer as the store sees it.
abbrev pub as_callback : {A : Type 0} → Result ErrorCode A → Result Error A
as_callback (ok a) = ok a
as_callback (err _) = err denied

abbrev pub disposition_of : Bool → Bytes
disposition_of true = inbound_duplicate
disposition_of false = inbound_accepted

unfoldable pub receipt_of : InboundEvent → IngestResult → Result ErrorCode InboundReceipt
receipt_of event result =
    let receipt : InboundReceipt = record {
      event_id = event.event_id;
      disposition = disposition_of result.duplicate;
      run_id = result.run.id;
    } in
    do guard (is_ok (validate_inbound_receipt receipt)) internal; ok receipt

module _ (sha256 : Bytes → Bytes) where
  unfoldable pub ingest_input : Service → InboundEvent → IngestTextRunInput
  ingest_input s event = record {
    connector_id = s.connector_id;
    event_id = event.event_id;
    payload_hash = sha256 (inbound_event_preimage s.connector_id event);
    legacy_payload_hash = sha256 (legacy_event_preimage event);
    actor_ref = event.actor_ref;
    conversation_ref = event.conversation_ref;
    message_ref = event.message_ref;
    occurred_at = event.occurred_at;
    text = event.content.text;
  }

  -- The call of IngestTextRun.
  unfoldable pub store_event :
      AdmissionOptions
      → ℕ
      → Pages
      → Result Error Bytes
      → Service
      → InboundEvent
      → Db
      → Tx IngestResult
  store_event options clock pages new_run_id s event db =
      ingest_text_run options clock pages (ingest_input s event)
        (as_callback (authorize_run s event)) new_run_id db

  -- Service.Ingest
  unfoldable pub ingest :
      AdmissionOptions
      → ℕ
      → Pages
      → Result Error Bytes
      → Service
      → InboundEvent
      → Db
      → Result ErrorCode InboundReceipt × Db
  unfolding store_event
  ingest options clock pages new_run_id s event db =
      if not (is_ok (validate_inbound_event event))
      then (err internal, db)
      else if beq event.content.content_type content_type_action
      then (err action_unsupported, db)
      else after (store_event options clock pages new_run_id s event db)
          (map_ingest_error (authorize_run s event)) (receipt_of event)

-- UnixMilli of an optional time; the zero time is not positive.
abbrev unix_milli : Option ℕ → ℕ
unix_milli none = 0
unix_milli (some t) = t

abbrev outbound_text : TextDelivery → OutboundText
outbound_text d = record {
  delivery_id = d.delivery.id;
  lease_token = coalesce d.delivery.lease_token;
  lease_expires = unix_milli d.delivery.lease_expires_at;
  conversation_ref = d.conversation_ref;
  reply_to_ref = d.reply_to_ref;
  content = record { media_type = codes "text/plain"; text = d.delivery.text };
}

-- The loop of Claim.
unfoldable pub outbound_texts : Bytes → List TextDelivery → Result ErrorCode (List OutboundText)
outbound_texts connector_id [] = ok []
outbound_texts connector_id (d ∷ rest) = do
  guard (beq d.connector_id connector_id && is_leased d.delivery.state) internal
  more ← outbound_texts connector_id rest
  ok (outbound_text d ∷ more)

unfoldable pub claim_result :
    Service → DeliveryClaim → List TextDelivery → Result ErrorCode DeliveryClaimResult
unfolding outbound_texts
claim_result s request deliveries = do
  guard (leb (length deliveries) request.limit) internal
  texts ← outbound_texts s.connector_id deliveries
  guard (is_ok (validate_claim_result (record { deliveries = texts }))) internal
  ok (record { deliveries = texts })

-- Service.Claim
unfoldable pub claim :
    ℕ
    → (ℕ → Result Error Bytes)
    → Service
    → DeliveryClaim
    → Db
    → Result ErrorCode DeliveryClaimResult × Db
unfolding claim_result
claim clock tokens s request db =
    if not (is_ok (validate_delivery_claim request))
    then (err internal, db)
    else after (claim_text_deliveries s.connector_id request.limit s.delivery_lease clock tokens db)
        map_store_error (claim_result s request)

abbrev pub map_outcome : Bytes → Option DeliveryOutcome
map_outcome outcome =
    if beq outcome delivery_delivered
    then some DeliveryOutcome.delivered
    else if beq outcome delivery_retry
    then some retry
    else if beq outcome delivery_permanent_failure
    then some permanent_failure
    else none

-- none within some is the empty class; none is the default case.
abbrev pub map_failure : Bytes → Option (Option DeliveryFailureCode)
map_failure class =
    if is_empty class
    then some none
    else if beq class failure_temporary
    then some (some temporary)
    else if beq class failure_rate_limited
    then some (some rate_limited)
    else if beq class failure_recipient_unavailable
    then some (some recipient_unavailable)
    else if beq class failure_content_rejected
    then some (some content_rejected)
    else if beq class failure_not_authorized
    then some (some not_authorized)
    else if beq class failure_connector_internal
    then some (some connector_internal)
    else none

abbrev both : {A B : Type 0} → Option A → Option B → Option (A × B)
both (some a) (some b) = some (a, b)
both _ _ = none

-- mapCompletion
unfoldable pub map_completion :
    DeliveryComplete → Option (DeliveryOutcome × Option DeliveryFailureCode)
map_completion completion =
    both (map_outcome completion.outcome) (map_failure completion.failure_class)

abbrev pub completion_input :
    Service
    → DeliveryComplete
    → DeliveryOutcome × Option DeliveryFailureCode
    → CompleteDeliveryInput
completion_input s completion mapped = record {
  connector_id = s.connector_id;
  delivery_id = completion.delivery_id;
  lease_token = completion.lease_token;
  outcome = mapped.0;
  provider_message_ref = completion.provider_message_ref;
  failure_code = mapped.1;
}

-- What CompleteDelivery checks before its transaction.
unfoldable pub completion_checks : ℕ → CompleteDeliveryInput → Result Error (Unit {0})
completion_checks clock input = do now ← now_millis clock; validate_completion input

-- An operation of the store when the database works, and when it does not: then the transaction cannot
-- be begun, so the answer is what the checks before it found, or else the database's error, and nothing
-- is stored.
unfoldable pub under_database : {A : Type 0} → Bool → Result Error (Unit {0}) → Db → Tx A → Tx A
under_database true checked db tx = tx
under_database false (err e) db tx = (err e, db)
under_database false (ok checked) db tx = (err storage, db)

unfoldable pub complete_mapped :
    Bool
    → ℕ
    → ℕ
    → Service
    → DeliveryComplete
    → Db
    → Option (DeliveryOutcome × Option DeliveryFailureCode)
    → Result ErrorCode (Unit {0}) × Db
complete_mapped works retry_delay clock s completion db none = (err internal, db)
complete_mapped works retry_delay clock s completion db (some mapped) =
    after
      (under_database works (completion_checks clock (completion_input s completion mapped)) db
        (complete_delivery retry_delay clock (completion_input s completion mapped) db))
      map_completion_error (λ _. ok tt)

-- Service.Complete; the first argument says whether the database works.
unfoldable pub complete :
    Bool → ℕ → ℕ → Service → DeliveryComplete → Db → Result ErrorCode (Unit {0}) × Db
unfolding complete_mapped
complete works retry_delay clock s completion db =
    if not (is_ok (validate_delivery_complete completion))
    then (err internal, db)
    else complete_mapped works retry_delay clock s completion db (map_completion completion)

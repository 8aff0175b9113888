-- ===== src/AgentService/Scenarios.antt =====
-- One message through a service of one binding, and its completion.
use harness_security_gateway.Prelude.{◌≡◌, refl, true, false, Option, none, some, [], ◌∷◌, arith}
use harness_security_gateway.Prelude.Bytes.{Bytes, codes, beq}
use harness_security_gateway.Prelude.Results.{Result, ok}
use harness_security_gateway.Prelude.Tables.{
  find_where, exists_where, count_where, insert_row, delete_where,
}
use harness_security_gateway.Text.{
  valid_utf8, runes_of, any_of, all_of, is_space, is_control, is_blank, is_lower_hex,
}
use harness_security_gateway.CoreStore.Types.{
  Error, AdmissionOptions, DeliveryOutcome, DeliveryFailureCode, empty_db,
}
use harness_security_gateway.CoreStore.Validate.{
  now_millis, validate_identifier, validate_identifiers, validate_text, validate_ingest,
  validate_sha256_hex, validate_text_run_authorization, validate_completion,
}
use harness_security_gateway.CoreStore.Tables.{attempt, has_id, find_run}
use harness_security_gateway.CoreStore.Evict.{advance_horizon, horizon_of, evict_inbound_receipts}
use harness_security_gateway.CoreStore.Ingest.{
  Pages, session_scope_busy?, retained_input_bytes, outstanding_of, check_inbound_capacity,
  check_fresh, admit, receive, ingest_text_run,
}
use harness_security_gateway.CoreStore.Admission.{is_admission}
use harness_security_gateway.AgentPolicy.{
  PolicyError, Connector, Binding, Decision, Endpoint, Policy, lookup, assign, find_decision,
  put_decision, authorize, empty_endpoints, binding_fingerprint, add_binding, add_bindings,
  compile_tables, endpoint,
}
use harness_security_gateway.ConnectorWire.{
  InboundEvent, InboundReceipt, DeliveryComplete, content_type_text, inbound_accepted,
  delivery_retry, failure_temporary, validate_id, validate_ids, validate_content,
  validate_inbound_event, validate_inbound_receipt, validate_outcome, validate_delivery_complete,
}
use harness_security_gateway.ConnectorWire as wire
use harness_security_gateway.AgentService.{
  Service, new_service, ingest, ingest_input, store_event, authorize_run, receipt_of, complete,
  map_completion, completion_input,
}
use harness_security_gateway.AgentService.Hash.RoundTrip.{Fits, inbound_event_preimage-injective}
use harness_security_gateway.AgentService.Admission.{
  IsGrantedRun, ingest-IsGrantedRun, ingest-acknowledges, accepted,
}
use harness_security_gateway.AgentService.Completes.{complete-validates}
use harness_security_gateway.AgentService.Answers.{IsAnswered, complete-answers}

abbrev event : InboundEvent
event = record {
  event_id = codes "e1";
  actor_ref = codes "u1";
  conversation_ref = codes "c1";
  message_ref = codes "m1";
  occurred_at = 9000000;
  content = record { content_type = content_type_text; text = codes "hello there"; action = none };
}

event-Fits : Fits (codes "discord") event
event-Fits = record {
  connector = omega arith;
  id = omega arith;
  actor = omega arith;
  conversation = omega arith;
  message = omega arith;
  time = omega arith;
  content_type = omega arith;
  text = omega arith;
  action = tt;
}

inbound_event_preimage-injective_example : (codes "discord" ≡ codes "discord") × (event ≡ event)
inbound_event_preimage-injective_example =
    inbound_event_preimage-injective (codes "discord") (codes "discord") event event event-Fits
      event-Fits refl

abbrev limits : AdmissionOptions
limits = record {
  accept_window = 3600000000000;
  receipt_window = 7200000000000;
  future_skew = 60000000000;
  max_receipts = 100;
  max_queued_runs = 10;
  max_nonterminal_runs = 20;
  max_pending_deliveries = 10;
  max_retained_input_bytes = 65536;
  max_database_pages = 1000;
}

abbrev pages : Pages
pages = record { page_count = 12; free_pages = 0 }

abbrev hex : Bytes
hex = codes "0123456789abcdef0123456789abcdef0123456789abcdef0123456789abcdef"

abbrev binding : Binding
binding = record {
  connector_id = codes "discord";
  actor_ref = codes "u1";
  conversation_ref = codes "c1";
  target = record { id = codes "t1"; revision = codes "r1" };
}

abbrev connector : Connector
connector = record { id = codes "discord"; self_actor_ref = codes "bot" }

-- Functions in place of json.Marshal and SHA-256.
abbrev marshal : Binding → Result PolicyError Bytes
marshal b = ok b.actor_ref

abbrev digest : Bytes → Bytes
digest s = hex

abbrev decision : Decision
decision = record {
  binding_fingerprint = hex;
  policy_revision = hex;
  target_id = codes "t1";
  target_revision = codes "r1";
}

abbrev discord : Endpoint
discord = record {
  connector_id = codes "discord";
  self_actor_ref = codes "bot";
  policy_revision = hex;
  bindings = (record { actor_ref = codes "u1"; conversation_ref = codes "c1" }, decision) ∷ [];
}

abbrev policy : Policy
policy = record { revision = hex; endpoints = (codes "discord", discord) ∷ [] }

compiled : compile_tables marshal digest hex (connector ∷ []) (binding ∷ []) ≡ ok policy
unfolding compile_tables empty_endpoints add_bindings add_binding binding_fingerprint put_decision
    lookup assign beq
compiled = refl

served : endpoint policy (codes "discord") ≡ ok discord
unfolding endpoint lookup beq
served = refl

abbrev service : Service
service = record {
  endpoint = discord;
  connector_id = codes "discord";
  delivery_lease = 30000000000;
}

made : new_service discord 30000000000 ≡ some service
unfolding new_service
made = refl

valid_event : validate_inbound_event event ≡ ok tt
unfolding validate_inbound_event validate_ids validate_id validate_content wire.validate_text
    valid_utf8 runes_of any_of is_space is_control beq
valid_event = refl

is_text : beq event.content.content_type wire.content_type_action ≡ false
unfolding beq
is_text = refl

admitted :
    is_admission
      (store_event digest limits 9000500 pages (ok (codes "run_1")) service event empty_db).0
    ≡ true
unfolding store_event ingest_input authorize_run authorize find_decision lookup ingest_text_run
    attempt validate_ingest validate_identifiers validate_identifier now_millis valid_utf8 runes_of
    any_of all_of is_space is_control is_blank validate_text evict_inbound_receipts advance_horizon
    horizon_of delete_where find_where receive admit check_fresh validate_text_run_authorization
    validate_sha256_hex is_lower_hex session_scope_busy? exists_where check_inbound_capacity
    count_where outstanding_of retained_input_bytes insert_row has_id find_run beq
admitted = refl

ingest-acknowledges_example :
    (id : Bytes) × (◌≡◌ {A = Result Error Bytes} (ok (codes "run_1")) (ok id))
    × (ingest digest limits 9000500 pages (ok (codes "run_1")) service event empty_db ≡ (
      ok (accepted event id),
      (store_event digest limits 9000500 pages (ok (codes "run_1")) service event empty_db).1,
    ))
ingest-acknowledges_example =
    ingest-acknowledges digest limits 9000500 pages (ok (codes "run_1")) service event empty_db
      valid_event is_text admitted

abbrev receipt : InboundReceipt
receipt = record { event_id = codes "e1"; disposition = inbound_accepted; run_id = codes "run_1" }

answered :
    (ingest digest limits 9000500 pages (ok (codes "run_1")) service event empty_db).0 ≡ ok receipt
unfolding ingest validate_inbound_event validate_ids validate_id validate_content wire.validate_text
    receipt_of validate_inbound_receipt store_event ingest_input authorize_run authorize
    find_decision lookup ingest_text_run attempt validate_ingest validate_identifiers
    validate_identifier now_millis valid_utf8 runes_of any_of all_of is_space is_control is_blank
    validate_text evict_inbound_receipts advance_horizon horizon_of delete_where find_where receive
    admit check_fresh validate_text_run_authorization validate_sha256_hex is_lower_hex
    session_scope_busy? exists_where check_inbound_capacity count_where outstanding_of
    retained_input_bytes insert_row has_id find_run beq
answered = refl

ingest-IsGrantedRun_example :
    IsGrantedRun digest limits 9000500 pages
      (ok (codes "run_1"))
      service
      event
      empty_db
      marshal
      digest
      hex
      (binding ∷ [])
      (codes "discord")
      receipt
      (ingest digest limits 9000500 pages (ok (codes "run_1")) service event empty_db).1
ingest-IsGrantedRun_example =
    ingest-IsGrantedRun digest limits 9000500 pages (ok (codes "run_1")) service event empty_db
      marshal digest hex (codes "discord") (binding ∷ []) (connector ∷ []) policy discord
      30000000000 receipt compiled served made answered refl

abbrev completion : DeliveryComplete
completion = record {
  delivery_id = codes "out_1";
  lease_token = codes "l1";
  outcome = delivery_retry;
  provider_message_ref = [];
  failure_class = failure_temporary;
}

valid_connector : validate_identifier (codes "discord") wire.max_id_bytes ≡ ok tt
unfolding validate_identifier valid_utf8 runes_of any_of is_space is_control
valid_connector = refl

valid_completion : validate_delivery_complete completion ≡ ok tt
unfolding validate_delivery_complete validate_outcome validate_id valid_utf8 runes_of any_of
    is_space is_control beq
valid_completion = refl

complete-validates_example :
    (m : DeliveryOutcome × Option DeliveryFailureCode) × (map_completion completion ≡ some m)
    × (validate_completion (completion_input service completion m) ≡ ok tt)
complete-validates_example = complete-validates service completion valid_connector valid_completion

complete-answers_example :
    IsAnswered false empty_db (complete false 1000000000 9001000 service completion empty_db)
complete-answers_example =
    complete-answers false 1000000000 9001000 service completion empty_db (omega arith)
      (omega arith) (omega arith) (omega arith) valid_connector valid_completion

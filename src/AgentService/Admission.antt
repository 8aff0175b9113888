-- ===== src/AgentService/Admission.antt =====
-- What Service.Ingest accepts: every admission of the store is acknowledged, and each rests on an
-- exact configured binding.
use harness_security_gateway.Prelude.{
  ap, ℕ, ◌≡◌, refl, sym, ◌∙◌, Bool, true, false, not, some, List, arith, if◌then◌else◌,
}
use harness_security_gateway.Prelude.Bytes.{Bytes, beq, beq_refl}
use harness_security_gateway.Prelude.Results.{
  Result, ok, err, is_ok, guard, ok-injective, >>-ok, >>-ok_right,
}
use harness_security_gateway.Prelude.Tables.{exists_where}
use harness_security_gateway.Prelude.Tables.Laws.{find_where-insert}
use harness_security_gateway.CoreStore.Types.{
  Error, AdmissionOptions, TextRunAuthorization, IngestResult, Run, Db,
}
use harness_security_gateway.CoreStore.Tables.{Tx, has_id, find_run}
use harness_security_gateway.CoreStore.Evict.{evict_inbound_receipts}
use harness_security_gateway.CoreStore.Ingest.{Pages, insert_admitted, new_run}
use harness_security_gateway.CoreStore.Admission.{is_admission, admission_lem}
use harness_security_gateway.AgentPolicy.{
  PolicyError, no_binding, self_event, Connector, Binding, Decision, Endpoint, Policy,
  compile_tables, endpoint,
}
use harness_security_gateway.AgentPolicy.Exact.{IsGranted, endpoint-IsSound, authorize-IsGranted}
use harness_security_gateway.ConnectorWire.{
  InboundEvent, InboundReceipt, content_type_action, inbound_accepted, validate_id, validate_ids,
  validate_inbound_event, validate_inbound_receipt, max_id_bytes,
}
use harness_security_gateway.ConnectorWire.Agrees.{identifier→validate_id}
use harness_security_gateway.AgentService.{
  ErrorCode, internal, action_unsupported, Service, new_service, after, map_ingest_error,
  authorized_as, authorize_run, as_callback, authorization_of, disposition_of, receipt_of,
  ingest_input, store_event, ingest,
}

after-ok :
    {A B : Type 0} (m : Tx A) (code : Error → ErrorCode) (next : A → Result ErrorCode B) (b : B)
    → (after m code next).0 ≡ ok b
    → (a : A) × (m.0 ≡ ok a) × (next a ≡ ok b) × ((after m code next).1 ≡ m.1)
after-ok (ok a, db) code next b h = (a, refl, h, refl)
after-ok (err e, db) code next b h = cc

after-done :
    {A B : Type 0} (m : Tx A) (code : Error → ErrorCode) (next : A → Result ErrorCode B) (a : A)
    (b : B)
    → m.0 ≡ ok a
    → next a ≡ ok b
    → after m code next ≡ (ok b, m.1)
after-done (ok x, db) code next a b h h' = rw (ok-injective {A = _} h) (ap (λ r. (r, db)) h')
after-done (err e, db) code next a b h h' = cc

abbrev pub accepted : InboundEvent → Bytes → InboundReceipt
accepted event run_id = record {
  event_id = event.event_id;
  disposition = inbound_accepted;
  run_id = run_id;
}

event_id_valid :
    (event : InboundEvent)
    → validate_inbound_event event ≡ ok tt
    → validate_id event.event_id max_id_bytes ≡ ok tt
unfolding validate_inbound_event validate_ids
event_id_valid event h = >>-ok _ _ (>>-ok _ _ h)

receipt_of-accepted :
    (event : InboundEvent) (run : Run)
    → validate_inbound_event event ≡ ok tt
    → validate_id run.id max_id_bytes ≡ ok tt
    → receipt_of event (record { run = run; duplicate = false }) ≡ ok (accepted event run.id)
unfolding receipt_of validate_inbound_receipt
receipt_of-accepted event run valid named =
    ground (arith, event_id_valid event valid, beq_refl inbound_accepted)

authorized→ :
    (r : Result PolicyError Decision) (a : TextRunAuthorization)
    → as_callback (authorized_as r) ≡ ok a
    → (d : Decision) × (r ≡ ok d) × (a ≡ authorization_of d)
authorized→ (ok d) a h = (d, refl, sym (ok-injective h))
authorized→ (err no_binding) a h = cc
authorized→ (err self_event) a h = cc
authorized→ (err PolicyError.invalid) a h = cc
authorized→ (err PolicyError.unknown_connector) a h = cc
authorized→ (err PolicyError.nil_map) a h = cc

-- A receipt that says `accepted` comes from a result that is no duplicate.
receipt_of-admission :
    (event : InboundEvent) (result : IngestResult) (r : InboundReceipt)
    → receipt_of event result ≡ ok r
    → r.disposition ≡ inbound_accepted
    → (result.duplicate ≡ false) × (r.run_id ≡ result.run.id)
unfolding receipt_of
receipt_of-admission event result r h is_accepted =
    let same = ok-injective (>>-ok_right (guard _ _) _ h) in
    (
      not_duplicate result.duplicate
          (ap (λ (x : InboundReceipt). x.disposition) same ∙ is_accepted),
      sym (ap (λ (x : InboundReceipt). x.run_id) same),
    )
  where
    not_duplicate : (b : Bool) → disposition_of b ≡ inbound_accepted → b ≡ false
    not_duplicate true e = cc
    not_duplicate false e = refl

new_service→endpoint :
    (e : Endpoint) (lease : ℕ) (s : Service) → new_service e lease ≡ some s → s.endpoint ≡ e
unfolding new_service
new_service→endpoint e lease s h = ground arith

new_service→connector :
    (e : Endpoint) (lease : ℕ) (s : Service)
    → new_service e lease ≡ some s
    → s.connector_id ≡ e.connector_id
unfolding new_service
new_service→connector e lease s h = ground arith

module _ (sha256 : Bytes → Bytes) (options : AdmissionOptions) (clock : ℕ) (pages : Pages)
    (new_run_id : Result Error Bytes) (s : Service) (event : InboundEvent) (db : Db) where
  abbrev stored : Tx IngestResult
  stored = store_event sha256 options clock pages new_run_id s event db

  -- A Run that the store admits is always acknowledged: for a valid text event, when IngestTextRun
  -- creates a Run, Ingest answers with an accepted receipt that names it, and never with an error.
  pub ingest-acknowledges :
      validate_inbound_event event ≡ ok tt
      → beq event.content.content_type content_type_action ≡ false
      → is_admission stored.0 ≡ true
      → (id : Bytes) × (new_run_id ≡ ok id)
        × (ingest sha256 options clock pages new_run_id s event db
            ≡ (ok (accepted event id), stored.1))
  unfolding ingest store_event
  ingest-acknowledges valid is_text admitted =
      let a =
        admission_lem options clock pages (ingest_input sha256 s event)
          (as_callback (authorize_run s event)) new_run_id db admitted in
      (
        a.id,
        a.identified,
        rw (valid, is_text)
            (after-done stored _ _ _ (accepted event a.id) a.result (
              receipt_of-accepted event
                (new_run (ingest_input sha256 s event) a.authorization a.id clock) valid
                (identifier→validate_id a.id max_id_bytes a.named))),
      )

  -- What an accepted receipt stands for: the decision of the policy, the binding of the
  -- configuration behind it, and the stored Run that carries it.
  pub record IsGrantedRun (marshal : Binding → Result PolicyError Bytes)
      (sha256_hex : Bytes → Bytes) (revision : Bytes) (bindings : List Binding) (connector : Bytes)
      (r : InboundReceipt) (db' : Db) : Type 0 where
    pub decision : Decision
    pub granted : IsGranted marshal sha256_hex revision bindings connector (
      record { actor_ref = event.actor_ref; conversation_ref = event.conversation_ref },
      decision,
    )
    pub run : Run
    pub found : find_run r.run_id db'.runs ≡ some run
    pub of_connector : run.connector_id ≡ connector
    pub of_event : run.event_id ≡ event.event_id
    pub message : run.message_ref ≡ event.message_ref
    pub actor : run.actor_ref ≡ event.actor_ref
    pub conversation : run.conversation_ref ≡ event.conversation_ref
    pub text : run.input_text ≡ event.content.text
    pub target_id : run.target_id ≡ decision.target_id
    pub target_revision : run.target_revision ≡ decision.target_revision
    pub fingerprint : run.binding_fingerprint ≡ decision.binding_fingerprint

  ingest-stored :
      (r : InboundReceipt)
      → (ingest sha256 options clock pages new_run_id s event db).0 ≡ ok r
      → (result : IngestResult) × (stored.0 ≡ ok result)
        × (receipt_of event result ≡ ok r)
        × ((ingest sha256 options clock pages new_run_id s event db).1 ≡ stored.1)
  unfolding ingest
  ingest-stored r h =
      passed (is_ok (validate_inbound_event event))
        (beq event.content.content_type content_type_action) h
    where
      passed :
          (valid is_action : Bool)
          → (if not valid
              then (err internal, db)
              else if is_action
              then (err action_unsupported, db)
              else after stored (map_ingest_error (authorize_run s event)) (receipt_of event)).0
            ≡ ok r
          → (result : IngestResult) × (stored.0 ≡ ok result)
            × (receipt_of event result ≡ ok r)
            × ((if not valid
                  then (err internal, db)
                  else if is_action
                  then (err action_unsupported, db)
                  else after stored (map_ingest_error (authorize_run s event)) (receipt_of event)).1
                ≡ stored.1)
      passed false is_action h = cc
      passed true true h = cc
      passed true false h = after-ok stored _ _ r h

  find_admitted :
      (a : TextRunAuthorization) (id : Bytes) (evicted : Db)
      → exists_where (has_id id) evicted.runs ≡ false
      → find_run id (insert_admitted (ingest_input sha256 s event) a id clock evicted).runs
        ≡ some (new_run (ingest_input sha256 s event) a id clock)
  unfolding find_run has_id
  find_admitted a id evicted new = ground (
    arith,
    find_where-insert (has_id id) (new_run (ingest_input sha256 s event) a id clock) evicted.runs,
    new,
    beq_refl id,
  )

  module _ (marshal : Binding → Result PolicyError Bytes) (sha256_hex : Bytes → Bytes)
      (revision connector : Bytes) (bindings : List Binding) (connectors : List Connector)
      (policy : Policy) (e : Endpoint) (lease : ℕ) where
    -- Authority from end to end: a service whose endpoint comes from a compiled policy answers with
    -- an accepted receipt only when the configuration lists a binding of its connector for exactly
    -- the event's actor and conversation; the Run that the receipt names is then stored, with that
    -- connector, with the event's identifier, message, actor, conversation and text, and with the
    -- target and fingerprint of that binding.
    pub ingest-IsGrantedRun :
        (r : InboundReceipt)
        → compile_tables marshal sha256_hex revision connectors bindings ≡ ok policy
        → endpoint policy connector ≡ ok e
        → new_service e lease ≡ some s
        → (ingest sha256 options clock pages new_run_id s event db).0 ≡ ok r
        → r.disposition ≡ inbound_accepted
        → IsGrantedRun marshal sha256_hex revision bindings connector r
            (ingest sha256 options clock pages new_run_id s event db).1
    unfolding authorize_run ingest_input store_event
    ingest-IsGrantedRun r compiled served made answered is_accepted =
        let (result, stored_ok, received, same_db) = ingest-stored r answered in
        let (fresh, same_id) = receipt_of-admission event result r received is_accepted in
        let admitted : is_admission stored.0 ≡ true = rw (stored_ok, fresh) refl in
        let a =
          admission_lem options clock pages (ingest_input sha256 s event)
            (as_callback (authorize_run s event)) new_run_id db admitted in
        let (d, decided, same) = authorized→ _ a.authorization a.authorized in
        let named : r.run_id ≡ a.id =
          same_id ∙ ap (λ (x : IngestResult). x.run.id) (ok-injective (sym stored_ok ∙ a.result)) in
        record {
          decision = d;
          granted =
              authorize-IsGranted marshal sha256_hex revision bindings connectors policy connector
                event.actor_ref event.conversation_ref e d compiled served
                (rw (← new_service→endpoint e lease s made) decided);
          run = new_run (ingest_input sha256 s event) a.authorization a.id clock;
          found =
              rw (same_db, named, a.inserted)
                (find_admitted a.authorization a.id
                  (evict_inbound_receipts options s.connector_id clock db) a.new_id);
          of_connector =
              new_service→connector e lease s made
              ∙ (endpoint-IsSound marshal sha256_hex revision bindings connectors policy connector e
                  compiled served).connector;
          of_event = refl;
          message = refl;
          actor = refl;
          conversation = refl;
          text = refl;
          target_id = ap (λ (x : TextRunAuthorization). x.target_id) same;
          target_revision = ap (λ (x : TextRunAuthorization). x.target_revision) same;
          fingerprint = ap (λ (x : TextRunAuthorization). x.binding_fingerprint) same;
        }

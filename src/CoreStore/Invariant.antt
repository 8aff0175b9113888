-- ===== src/CoreStore/Invariant.antt =====
-- What the schema of internal/corestore/migrations and the operations keep true of the database:
-- the CHECK constraints that relate columns of a row, the primary keys, unique indexes and foreign keys,
-- and the two limits on execution. The CHECK constraints of a single column are left out.
pub mod Runs
pub mod Changes
pub mod Outbox
pub mod References
pub mod Keys
pub mod Operations
pub mod Preserved
pub mod PreservedRuns
pub mod PreservedOutbox
use harness_security_gateway.Prelude.{
  ℕ, ◌≤◌, ◌<◌, ◌≡◌, Bool, true, false, not, ◌&&◌, ◌||◌, Option, none, some, List,
}
use harness_security_gateway.Prelude.Bytes.{Bytes, beq, opt_beq}
use harness_security_gateway.Prelude.Tables.{count_where, exists_where, All}
use harness_security_gateway.CoreStore.Types.{
  Run, RunState, completed, failed, interrupted, Receipt, Delivery, DeliveryState, pending, leased,
  delivered, permanent_failed, Session, SessionKey, Horizon, Db, is_queued, is_dispatching,
  is_running, is_terminal, is_active,
}
use harness_security_gateway.CoreStore.Validate.{
  is_set, failed_code, is_interruption, max_deadline, retryable, permanent,
}
use harness_security_gateway.CoreStore.Tables.{has_id, holds_scope, key_beq}
use harness_security_gateway.CoreStore.Ingest.{is_receipt}
use harness_security_gateway.CoreStore.Dispatch.{has_dispatch_token}
use harness_security_gateway.CoreStore.Outbox.{has_delivery_id, delivers, has_lease_token}

abbrev pub is_completed : RunState → Bool
is_completed completed = true
is_completed _ = false

abbrev pub is_failed : RunState → Bool
is_failed failed = true
is_failed _ = false

abbrev pub is_interrupted : RunState → Bool
is_interrupted interrupted = true
is_interrupted _ = false

abbrev pub DeadlineInRange : Option ℕ → Type 0
DeadlineInRange none = Unit
DeadlineInRange (some d) = (0 < d) × (d ≤ max_deadline)

-- The CHECK constraints of the table runs that relate its columns.
pub record IsValidRun (r : Run) : Type 0 where
  pub output : is_set r.output_text ≡ is_completed r.state
  pub failure : is_set r.failure_code ≡ (is_failed r.state || is_interrupted r.state)
  pub failed_needs_code : is_failed r.state ≡ true → failed_code r.failure_code ≡ true
  pub interrupted_needs_code : is_interrupted r.state ≡ true → is_interruption r.failure_code ≡ true
  pub session_of_completed : is_set r.result_session_ref ≡ true → is_completed r.state ≡ true
  pub prepared_deadline : is_set r.start_deadline ≡ r.start_prepared
  pub prepared_session : is_set r.start_session_ref ≡ true → r.start_prepared ≡ true
  pub deadline_range : DeadlineInRange r.start_deadline
  pub started_prepared :
      (is_running r.state || is_terminal r.state) ≡ true → r.start_prepared ≡ true
  pub token_unless_queued : is_set r.dispatch_token ≡ not (is_queued r.state)
  pub expiry_when_dispatching : is_set r.dispatch_expires_at ≡ is_dispatching r.state

-- The rows, unique indexes and execution limits of the table runs.
pub record IsRunTable (runs : List Run) : Type 0 where
  pub rows : All IsValidRun runs
  pub ids : (id : Bytes) → count_where (has_id id) runs ≤ 1
  pub tokens : (token : Bytes) → count_where (has_dispatch_token token) runs ≤ 1
  pub one_active : count_where (λ r. is_active r.state) runs ≤ 1
  pub one_per_scope : (key : SessionKey) → count_where (holds_scope key) runs ≤ 1

abbrev pub lease_check : DeliveryState → Bool → Bool → Bool → Bool → Bool
lease_check pending token expires provider failure = not (expires || provider)
lease_check leased token expires provider failure = token && expires && not provider
lease_check delivered token expires provider failure =
    token && not expires && provider && not failure
lease_check permanent_failed token expires provider failure =
    token && not expires && not provider && failure

abbrev pub is_permanent : DeliveryState → Bool
is_permanent permanent_failed = true
is_permanent _ = false

-- The CHECK constraints of the table text_deliveries that relate its columns.
pub record IsValidDelivery (d : Delivery) : Type 0 where
  pub columns :
      lease_check d.state
        (is_set d.lease_token)
        (is_set d.lease_expires_at)
        (is_set d.provider_message_ref)
        (is_set d.failure_code)
      ≡ true
  pub open_code :
      is_permanent d.state ≡ false → is_set d.failure_code ≡ true → retryable d.failure_code ≡ true
  pub permanent_code : is_permanent d.state ≡ true → permanent d.failure_code ≡ true

-- The rows and unique indexes of the table text_deliveries.
pub record IsDeliveryTable (deliveries : List Delivery) : Type 0 where
  pub rows : All IsValidDelivery deliveries
  pub ids : (id : Bytes) → count_where (has_delivery_id id) deliveries ≤ 1
  pub one_reply : (run_id : Bytes) → count_where (delivers run_id) deliveries ≤ 1
  pub tokens : (token : Bytes) → count_where (has_lease_token token) deliveries ≤ 1

abbrev pub records_run : Bytes → Receipt → Bool
records_run id i = beq i.run_id id

-- The unique indexes of the table inbound_events.
pub record IsReceiptTable (receipts : List Receipt) : Type 0 where
  pub keys : (connector event : Bytes) → count_where (is_receipt connector event) receipts ≤ 1
  pub run_ids : (id : Bytes) → count_where (records_run id) receipts ≤ 1

abbrev pub Refers : List Run → Bytes → Type 0
Refers runs id = exists_where (has_id id) runs ≡ true

-- The foreign keys.
pub record HasReferences (db : Db) : Type 0 where
  pub of_receipts : All (λ i. Refers db.runs i.run_id) db.receipts
  pub of_deliveries : All (λ d. Refers db.runs d.run_id) db.deliveries

-- The primary keys of the tables sessions and inbound_event_horizons.
pub record HasKeys (sessions : List Session) (horizons : List Horizon) : Type 0 where
  pub of_sessions : (key : SessionKey) → count_where (λ s. key_beq s.key key) sessions ≤ 1
  pub of_horizons :
      (connector : Bytes) → count_where (λ h. beq h.connector_id connector) horizons ≤ 1

pub record IsWellFormed (db : Db) : Type 0 where
  pub runs_ok : IsRunTable db.runs
  pub deliveries_ok : IsDeliveryTable db.deliveries
  pub receipts_ok : IsReceiptTable db.receipts
  pub references : HasReferences db
  pub keys_ok : HasKeys db.sessions db.horizons

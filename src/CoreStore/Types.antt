-- ===== src/CoreStore/Types.antt =====
-- internal/corestore/types.go and the tables of internal/corestore/migrations.
-- A string is its bytes; an optional string and a NULL column are an Option. Timestamps are Unix
-- milliseconds. `unsupported` stands for each string that is none of a type's constants.
use harness_security_gateway.Prelude.{ℕ, Bool, true, false, Option, List, []}
use harness_security_gateway.Prelude.Bytes.{Bytes}

abbrev pub max_id_bytes : ℕ
max_id_bytes = 256

abbrev pub max_target_id_bytes : ℕ
max_target_id_bytes = 128

abbrev pub max_revision_bytes : ℕ
max_revision_bytes = 160

abbrev pub max_session_ref_bytes : ℕ
max_session_ref_bytes = 512

abbrev pub sha256_hex_bytes : ℕ
sha256_hex_bytes = 64

abbrev pub max_text_bytes : ℕ
max_text_bytes = 32768

abbrev pub max_claim_limit : ℕ
max_claim_limit = 20

abbrev pub max_reconcile_runs : ℕ
max_reconcile_runs = 100

-- The sentinel errors. `storage` is an error of the database that has none, `denied` and
-- `source_failed` are what a caller's callback returned.
pub data Error : Type 0 where
  invalid conflict not_found dispatch_lost start_unprepared lease_lost : Error
  invalid_transition event_expired quota_exceeded session_scope_busy : Error
  unsupported_hash_version storage denied source_failed : Error

-- The windows and the skew are durations in nanoseconds.
pub record AdmissionOptions : Type 0 where
  pub accept_window : ℕ
  pub receipt_window : ℕ
  pub future_skew : ℕ
  pub max_receipts : ℕ
  pub max_queued_runs : ℕ
  pub max_nonterminal_runs : ℕ
  pub max_pending_deliveries : ℕ
  pub max_retained_input_bytes : ℕ
  pub max_database_pages : ℕ

pub data RunState : Type 0 where
  queued dispatching running completed failed cancelled interrupted : RunState

abbrev pub is_queued : RunState → Bool
is_queued queued = true
is_queued _ = false

abbrev pub is_dispatching : RunState → Bool
is_dispatching dispatching = true
is_dispatching _ = false

abbrev pub is_running : RunState → Bool
is_running running = true
is_running _ = false

-- state IN ('completed', 'failed', 'cancelled', 'interrupted')
abbrev pub is_terminal : RunState → Bool
is_terminal queued = false
is_terminal dispatching = false
is_terminal running = false
is_terminal _ = true

-- state IN ('dispatching', 'running')
abbrev pub is_active : RunState → Bool
is_active dispatching = true
is_active running = true
is_active _ = false

-- state IN ('queued', 'dispatching', 'running')
abbrev pub is_nonterminal : RunState → Bool
is_nonterminal queued = true
is_nonterminal dispatching = true
is_nonterminal running = true
is_nonterminal _ = false

pub data RunFailureCode : Type 0 where
  target_unavailable revision_mismatch invalid_session policy_denied deadline_exceeded output_limit
        runner_failed protocol_violation runtime_interrupted internal unsupported :
      RunFailureCode

pub record IngestTextRunInput : Type 0 where
  pub connector_id : Bytes
  pub event_id : Bytes
  pub payload_hash : Bytes
  pub legacy_payload_hash : Bytes
  pub actor_ref : Bytes
  pub conversation_ref : Bytes
  pub message_ref : Bytes
  -- In milliseconds; 0 stands for every value that is not positive, all of which are refused.
  pub occurred_at : ℕ
  pub text : Bytes

pub record TextRunAuthorization : Type 0 where
  pub target_id : Bytes
  pub target_revision : Bytes
  pub binding_fingerprint : Bytes
  pub policy_revision : Bytes

-- A row of `runs`.
pub record Run : Type 0 where
  pub id : Bytes
  pub connector_id : Bytes
  pub event_id : Bytes
  pub actor_ref : Bytes
  pub conversation_ref : Bytes
  pub message_ref : Bytes
  pub target_id : Bytes
  pub target_revision : Bytes
  pub binding_fingerprint : Bytes
  pub policy_revision : Bytes
  pub input_text : Bytes
  pub state : RunState
  pub dispatch_token : Option Bytes
  pub dispatch_expires_at : Option ℕ
  pub dispatch_attempt_count : ℕ
  pub start_prepared : Bool
  pub start_session_ref : Option Bytes
  pub start_deadline : Option ℕ
  pub output_text : Option Bytes
  pub failure_code : Option RunFailureCode
  pub result_session_ref : Option Bytes
  pub created_at : ℕ
  pub updated_at : ℕ

pub record IngestResult : Type 0 where
  pub run : Run
  pub duplicate : Bool

-- `failure_code` is none where Go has the empty string.
pub record FinishRunInput : Type 0 where
  pub run_id : Bytes
  pub dispatch_token : Bytes
  pub state : RunState
  pub output_text : Bytes
  pub failure_code : Option RunFailureCode
  pub result_session_ref : Bytes

-- `deadline` is none where Go has the zero time, and is otherwise in milliseconds, rounded down.
pub record PrepareRunStartInput : Type 0 where
  pub run_id : Bytes
  pub dispatch_token : Bytes
  pub session_ref : Option Bytes
  pub deadline : Option ℕ

pub record PreparedRunStart : Type 0 where
  pub session_ref : Option Bytes
  pub deadline : Option ℕ

pub record SessionKey : Type 0 where
  pub binding_fingerprint : Bytes
  pub connector_id : Bytes
  pub actor_ref : Bytes
  pub conversation_ref : Bytes
  pub target_id : Bytes
  pub target_revision : Bytes

-- A row of `sessions`.
pub record Session : Type 0 where
  pub key : SessionKey
  pub ref : Bytes
  pub updated_at : ℕ

pub record TextDeliveryInput : Type 0 where
  pub id : Bytes
  pub text : Bytes

pub data DeliveryState : Type 0 where
  pending leased delivered permanent_failed : DeliveryState

pub data DeliveryFailureCode : Type 0 where
  temporary rate_limited recipient_unavailable content_rejected not_authorized connector_internal
        unsupported :
      DeliveryFailureCode

-- A row of `text_deliveries`.
pub record Delivery : Type 0 where
  pub id : Bytes
  pub run_id : Bytes
  pub text : Bytes
  pub state : DeliveryState
  pub lease_token : Option Bytes
  pub lease_expires_at : Option ℕ
  pub attempt_count : ℕ
  pub available_at : ℕ
  pub provider_message_ref : Option Bytes
  pub failure_code : Option DeliveryFailureCode
  pub created_at : ℕ
  pub updated_at : ℕ

-- What a Connector receives: a delivery with the addressing of its Run.
pub record TextDelivery : Type 0 where
  pub delivery : Delivery
  pub connector_id : Bytes
  pub conversation_ref : Bytes
  pub reply_to_ref : Bytes

pub data DeliveryOutcome : Type 0 where
  delivered retry permanent_failure unsupported : DeliveryOutcome

pub record CompleteDeliveryInput : Type 0 where
  pub connector_id : Bytes
  pub delivery_id : Bytes
  pub lease_token : Bytes
  pub outcome : DeliveryOutcome
  pub provider_message_ref : Bytes
  pub failure_code : Option DeliveryFailureCode

-- A row of `inbound_events`.
pub record Receipt : Type 0 where
  pub connector_id : Bytes
  pub event_id : Bytes
  pub payload_hash : Bytes
  pub payload_hash_version : ℕ
  pub run_id : Bytes
  pub occurred_at : ℕ
  pub received_at : ℕ

-- A row of `inbound_event_horizons`.
pub record Horizon : Type 0 where
  pub connector_id : Bytes
  pub evicted_through : ℕ

-- The database: its tables in the order of insertion.
pub record Db : Type 0 where
  pub runs : List Run
  pub receipts : List Receipt
  pub horizons : List Horizon
  pub sessions : List Session
  pub deliveries : List Delivery

abbrev pub empty_db : Db
empty_db = record { runs = []; receipts = []; horizons = []; sessions = []; deliveries = [] }

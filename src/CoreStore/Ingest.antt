-- ===== src/CoreStore/Ingest.antt =====
-- IngestTextRun of internal/corestore/runs.go and what it calls: replay lookup, receipt eviction,
-- admission checks and the insertion of a queued Run.
use harness_security_gateway.Prelude.{
  ℕ, ◌+◌, ◌*◌, ◌/◌, Bool, true, false, not, ◌&&◌, ◌||◌, Option, none, some, List, [], ◌∷◌, ltb, leb,
  ◌==◌, if◌then◌else◌,
}
use harness_security_gateway.Prelude.Bytes.{Bytes, beq, length}
use harness_security_gateway.Prelude.Results.{Result, ok, err, ◌>>◌, guard}
use harness_security_gateway.Prelude.Tables.{find_where, count_where, exists_where, insert_row}
use harness_security_gateway.CoreStore.Types.{
  Error, conflict, event_expired, quota_exceeded, session_scope_busy, unsupported_hash_version,
  storage, AdmissionOptions, IngestTextRunInput, TextRunAuthorization, IngestResult, Run, queued,
  Receipt, SessionKey, Db, is_queued, is_nonterminal, max_id_bytes,
}
use harness_security_gateway.CoreStore.Validate.{
  Checked, max_int64, now_millis, validate_ingest, validate_text_run_authorization,
  validate_identifier,
}
use harness_security_gateway.CoreStore.Options.{millisecond}
use harness_security_gateway.CoreStore.Tables.{
  Tx, attempt, has_id, find_run, or_error, holds_scope, owned_by,
}
use harness_security_gateway.CoreStore.Evict.{
  cutoff_of, horizon_of, is_outstanding, evict_inbound_receipts,
}

-- What SQLite's page_count and freelist_count answer during the transaction.
pub record Pages : Type 0 where
  pub page_count : ℕ
  pub free_pages : ℕ

-- WHERE connector_id = ? AND event_id = ?
unfoldable pub is_receipt : Bytes → Bytes → Receipt → Bool
is_receipt connector event r = beq r.connector_id connector && beq r.event_id event

unfoldable pub scope_of_input : IngestTextRunInput → TextRunAuthorization → SessionKey
scope_of_input input a = record {
  binding_fingerprint = a.binding_fingerprint;
  connector_id = input.connector_id;
  actor_ref = input.actor_ref;
  conversation_ref = input.conversation_ref;
  target_id = a.target_id;
  target_revision = a.target_revision;
}

unfoldable pub session_scope_busy? : IngestTextRunInput → TextRunAuthorization → Db → Bool
unfolding scope_of_input holds_scope
session_scope_busy? input a db = exists_where (holds_scope (scope_of_input input a)) db.runs

abbrev pub of_connector : Bytes → Run → Bool
of_connector connector r = beq r.connector_id connector

-- SUM(length(input_text)) of a connector's Runs.
unfoldable pub retained_input_bytes : Bytes → List Run → ℕ
retained_input_bytes connector [] = 0
retained_input_bytes connector (r ∷ rest) =
    (if of_connector connector r then length r.input_text else 0)
    + retained_input_bytes connector rest

unfoldable pub outstanding_of : Bytes → Db → ℕ
outstanding_of connector db =
    count_where (λ d. is_outstanding d.state && owned_by connector db.runs d) db.deliveries

-- checkInboundCapacity. `retained > limit - new` is written without the subtraction.
unfoldable pub check_inbound_capacity : AdmissionOptions → Pages → Bytes → ℕ → Db → Checked
check_inbound_capacity options pages connector new_bytes db = do
  guard (ltb (count_where (λ i. beq i.connector_id connector) db.receipts) options.max_receipts)
      quota_exceeded
  guard
      (ltb (count_where (λ r. of_connector connector r && is_queued r.state) db.runs)
        options.max_queued_runs)
      quota_exceeded
  guard
      (ltb (count_where (λ r. of_connector connector r && is_nonterminal r.state) db.runs)
        options.max_nonterminal_runs)
      quota_exceeded
  guard (ltb (outstanding_of connector db) options.max_pending_deliveries) quota_exceeded
  guard (leb (retained_input_bytes connector db.runs + new_bytes) options.max_retained_input_bytes)
      quota_exceeded
  guard (ltb pages.page_count options.max_database_pages || not (pages.free_pages == 0))
      quota_exceeded

-- The three time checks on a new event: not too far in the future, above the horizon, and inside
-- the accept window. A future limit past the last int64 wraps to a negative one, which no time meets.
unfoldable pub check_fresh : AdmissionOptions → ℕ → ℕ → ℕ → Checked
check_fresh options now horizon occurred = do
  let limit = (now * millisecond + options.future_skew) / millisecond
  guard (leb limit max_int64 && leb occurred limit) event_expired
  guard (ltb horizon occurred) event_expired
  guard (leb (cutoff_of now options.accept_window) occurred) event_expired

abbrev pub new_run : IngestTextRunInput → TextRunAuthorization → Bytes → ℕ → Run
new_run input a id now = record {
  id = id;
  connector_id = input.connector_id;
  event_id = input.event_id;
  actor_ref = input.actor_ref;
  conversation_ref = input.conversation_ref;
  message_ref = input.message_ref;
  target_id = a.target_id;
  target_revision = a.target_revision;
  binding_fingerprint = a.binding_fingerprint;
  policy_revision = a.policy_revision;
  input_text = input.text;
  state = queued;
  dispatch_token = none;
  dispatch_expires_at = none;
  dispatch_attempt_count = 0;
  start_prepared = false;
  start_session_ref = none;
  start_deadline = none;
  output_text = none;
  failure_code = none;
  result_session_ref = none;
  created_at = now;
  updated_at = now;
}

abbrev pub new_receipt : IngestTextRunInput → Bytes → ℕ → Receipt
new_receipt input id now = record {
  connector_id = input.connector_id;
  event_id = input.event_id;
  payload_hash = input.payload_hash;
  payload_hash_version = 2;
  run_id = id;
  occurred_at = input.occurred_at;
  received_at = now;
}

abbrev pub insert_admitted : IngestTextRunInput → TextRunAuthorization → Bytes → ℕ → Db → Db
insert_admitted input a id now db = record db {
  runs = insert_row (new_run input a id now) db.runs;
  receipts = insert_row (new_receipt input id now) db.receipts;
}

-- A key with no retained receipt. `commitRejectedIngest` keeps the eviction, `evicted`; any other
-- error rolls it back, to `db`.
unfoldable pub admit :
    AdmissionOptions
    → ℕ
    → Pages
    → IngestTextRunInput
    → Result Error TextRunAuthorization
    → Result Error Bytes
    → Db
    → Db
    → Tx IngestResult
admit options now pages input authorize new_run_id db evicted =
    let horizon = horizon_of input.connector_id evicted.horizons in
    attempt (check_fresh options now horizon input.occurred_at) evicted λ _.
      attempt authorize evicted λ a. attempt (validate_text_run_authorization a) db λ _.
        attempt (guard (not (session_scope_busy? input a evicted)) session_scope_busy) evicted λ _.
          attempt
            (check_inbound_capacity options pages input.connector_id (length input.text) evicted)
            evicted
            λ _. attempt new_run_id evicted λ id.
              attempt (validate_identifier id max_id_bytes) db λ _.
                attempt (guard (not (exists_where (has_id id) evicted.runs)) conflict) db λ _.
                  let admitted = insert_admitted input a id now evicted in
                  attempt (or_error storage (find_run id admitted.runs)) db
                    λ run. (ok (record { run = run; duplicate = false }), admitted)

abbrev pub expected_hash : IngestTextRunInput → ℕ → Result Error Bytes
expected_hash input version =
    if version == 1
    then ok input.legacy_payload_hash
    else if version == 2
    then ok input.payload_hash
    else err unsupported_hash_version

-- A key whose receipt is retained: policy, quota and the current time are not consulted.
unfoldable pub replay : IngestTextRunInput → Receipt → Db → Db → Tx IngestResult
replay input receipt db evicted =
    attempt (expected_hash input receipt.payload_hash_version) db λ hash.
      attempt (guard (beq receipt.payload_hash hash) conflict) evicted λ _.
        attempt (or_error storage (find_run receipt.run_id evicted.runs)) db
          λ run. (ok (record { run = run; duplicate = true }), evicted)

unfoldable pub receive :
    AdmissionOptions
    → ℕ
    → Pages
    → IngestTextRunInput
    → Result Error TextRunAuthorization
    → Result Error Bytes
    → Db
    → Db
    → Option Receipt
    → Tx IngestResult
unfolding admit replay
receive options now pages input authorize new_run_id db evicted none =
    admit options now pages input authorize new_run_id db evicted
receive options now pages input authorize new_run_id db evicted (some receipt) =
    replay input receipt db evicted

-- IngestTextRun. `authorize` and `new_run_id` are what the two callbacks return if they are called.
unfoldable pub ingest_text_run :
    AdmissionOptions
    → ℕ
    → Pages
    → IngestTextRunInput
    → Result Error TextRunAuthorization
    → Result Error Bytes
    → Db
    → Tx IngestResult
ingest_text_run options clock pages input authorize new_run_id db =
    attempt (validate_ingest input >> now_millis clock) db λ now.
      let evicted = evict_inbound_receipts options input.connector_id now db in
      receive options now pages input authorize new_run_id db evicted
        (find_where (is_receipt input.connector_id input.event_id) evicted.receipts)

-- ===== src/CoreStore/Scenarios/Work.antt =====
-- The work on the message of the scenario, step by step.
use harness_security_gateway.Prelude.{suc, ◌≡◌, ◌⊎◌, refl, true, Option, none, some, [], ◌∷◌}
use harness_security_gateway.Prelude.Bytes.{codes, beq}
use harness_security_gateway.Prelude.Results.{ok, err}
use harness_security_gateway.Prelude.Tables.{
  find_where, exists_where, count_where, insert_row, delete_where, update_where, select_where,
  order_by, insert_by,
}
use harness_security_gateway.Text.{
  valid_utf8, runes_of, any_of, all_of, is_space, is_control, is_blank, is_lower_hex,
  is_ascii_alphanumeric,
}
use harness_security_gateway.CoreStore.Types.{
  denied, storage, running, Run, Receipt, completed, FinishRunInput, TextDeliveryInput, Db,
  empty_db,
}
use harness_security_gateway.CoreStore.Validate.{
  now_millis, validate_identifier, validate_identifiers, validate_text, validate_ingest,
  validate_sha256_hex, validate_text_run_authorization, validate_session_ref, validate_finish,
  validate_finish_state, validate_delivery,
}
use harness_security_gateway.CoreStore.Options.{validate_lease, lease_expiry}
use harness_security_gateway.CoreStore.Tables.{attempt, has_id, find_run, put_session, owned_by}
use harness_security_gateway.CoreStore.Evict.{advance_horizon, horizon_of, evict_inbound_receipts}
use harness_security_gateway.CoreStore.Ingest.{
  is_receipt, session_scope_busy?, retained_input_bytes, outstanding_of, check_inbound_capacity,
  check_fresh, admit, receive, ingest_text_run, new_run, new_receipt,
}
use harness_security_gateway.CoreStore.Dispatch.{
  release_expired, next_queued, dispatch, claim_next, claim_queued_run,
}
use harness_security_gateway.CoreStore.Dispatch.Claim.{IsClaim, claim_queued_run-IsClaim}
use harness_security_gateway.CoreStore.Outbox.{insert_delivery, insert_checked}
use harness_security_gateway.CoreStore.Finish.{finish_run, finish_run_row, insert_reply}
use harness_security_gateway.CoreStore.Finish.Repeat.{finish_run-repeats}
use harness_security_gateway.CoreStore.Replay.{IsReplay, ingest-IsReplay}
use harness_security_gateway.CoreStore.Trace.{Op, step, run_ops, ingest, claim_run}
use harness_security_gateway.CoreStore.Invariant.{IsWellFormed}
use harness_security_gateway.CoreStore.Trace.WellFormed.{reachable-IsWellFormed}
use harness_security_gateway.CoreStore.Trace.Evolution.{Survives}
use harness_security_gateway.CoreStore.Trace.Evolution.Life.{IsCompacted, step-Survives}
use harness_security_gateway.CoreStore.Scenarios.{limits, options, pages, message, granted, now}

abbrev receive_message : Op
receive_message = ingest now pages message (ok granted) (ok (codes "run_1"))

abbrev queued_run : Run
queued_run = new_run message granted (codes "run_1") now

abbrev receipt : Receipt
receipt = new_receipt message (codes "run_1") now

-- The database with the message's queued Run.
abbrev pub one_run : Db
one_run = record {
  runs = queued_run ∷ [];
  receipts = receipt ∷ [];
  horizons = record { connector_id = codes "discord"; evicted_through = 1800500 } ∷ [];
  sessions = [];
  deliveries = [];
}

received : run_ops options (receive_message ∷ []) empty_db ≡ one_run
unfolding run_ops step ingest_text_run attempt validate_ingest validate_identifiers
    validate_identifier now_millis valid_utf8 runes_of any_of all_of is_space is_control is_blank
    validate_text evict_inbound_receipts advance_horizon horizon_of delete_where find_where receive
    admit check_fresh validate_text_run_authorization validate_sha256_hex is_lower_hex
    session_scope_busy? exists_where check_inbound_capacity count_where outstanding_of
    retained_input_bytes insert_row has_id find_run beq
received = refl

along : (a b : Db) → a ≡ b → IsWellFormed a → IsWellFormed b
along a b e w = rw (← e) w

one_run-IsWellFormed : IsWellFormed one_run
one_run-IsWellFormed =
    along _ one_run received (reachable-IsWellFormed options (receive_message ∷ []))

message-valid : validate_ingest message ≡ ok tt
unfolding validate_ingest validate_identifiers validate_identifier valid_utf8 runes_of any_of all_of
    is_space is_control is_blank validate_text
message-valid = refl

retained :
    find_where
      (is_receipt message.connector_id message.event_id)
      (evict_inbound_receipts limits message.connector_id (suc now) one_run).receipts
    ≡ some receipt
unfolding find_where is_receipt evict_inbound_receipts advance_horizon horizon_of delete_where beq
retained = refl

ingest-IsReplay_example :
    IsReplay receipt
      (codes "p2")
      (evict_inbound_receipts limits message.connector_id (suc now) one_run)
      (ingest_text_run limits (suc now) pages message (err denied) (err storage) one_run)
ingest-IsReplay_example =
    ingest-IsReplay limits now pages message (err denied) (err storage) one_run receipt (codes "p2")
      one_run-IsWellFormed message-valid retained refl

abbrev dispatched : Run
dispatched = dispatch (codes "d1") 9030600 9000600 queued_run

claimed : (claim_queued_run 30000000000 9000600 (ok (codes "d1")) one_run).0 ≡ ok (some dispatched)
unfolding claim_queued_run attempt validate_lease now_millis release_expired update_where
    exists_where next_queued order_by insert_by select_where claim_next validate_identifier
    valid_utf8 runes_of any_of is_space is_control lease_expiry count_where has_id beq
claimed = refl

claim_queued_run-IsClaim_example :
    IsClaim 30000000000 9000600
      (ok (codes "d1"))
      one_run
      (claim_queued_run 30000000000 9000600 (ok (codes "d1")) one_run).1
      dispatched
claim_queued_run-IsClaim_example =
    claim_queued_run-IsClaim 30000000000 9000600 (ok (codes "d1")) one_run dispatched
      one_run-IsWellFormed claimed

stored : find_run (codes "run_1") one_run.runs ≡ some queued_run
unfolding find_run has_id find_where beq
stored = refl

step-Survives_example :
    Survives
      (codes "run_1")
      queued_run
      (step options (claim_run 30000000000 9000600 (ok (codes "d1"))) one_run).runs
    ⊎ IsCompacted options
        (claim_run 30000000000 9000600 (ok (codes "d1")))
        one_run
        (codes "run_1")
        queued_run
step-Survives_example =
    step-Survives options (claim_run 30000000000 9000600 (ok (codes "d1"))) one_run (codes "run_1")
      queued_run one_run-IsWellFormed stored

-- The message's Run, prepared and running.
abbrev running_run : Run
running_run = record queued_run {
  state = running;
  dispatch_token = some (codes "d1");
  dispatch_attempt_count = 1;
  start_prepared = true;
  start_deadline = some 9100000;
}

abbrev executing : Db
executing = record one_run { runs = running_run ∷ [] }

abbrev result : FinishRunInput
result = record {
  run_id = codes "run_1";
  dispatch_token = codes "d1";
  state = completed;
  output_text = codes "hi";
  failure_code = none;
  result_session_ref = codes "s1";
}

abbrev reply : Option TextDeliveryInput
reply = some (record { id = codes "out_1"; text = codes "hi" })

finished : (finish_run limits 9000900 result reply executing).0 ≡ ok tt
unfolding finish_run attempt validate_finish validate_finish_state validate_identifier validate_text
    validate_session_ref valid_utf8 runes_of any_of all_of is_space is_control is_blank now_millis
    is_ascii_alphanumeric find_run has_id find_where beq validate_delivery finish_run_row
    update_where put_session insert_reply insert_delivery insert_checked outstanding_of count_where
    owned_by
finished = refl

finish_run-repeats_example :
    finish_run limits
      (suc 9000999)
      result
      reply
      (finish_run limits 9000900 result reply executing).1
    ≡ (ok tt, (finish_run limits 9000900 result reply executing).1)
finish_run-repeats_example =
    finish_run-repeats limits 9000900 9000999 result reply executing finished

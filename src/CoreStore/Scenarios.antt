-- ===== src/CoreStore/Scenarios.antt =====
-- A store at work on concrete inputs: a message is ingested, dispatched, finished and delivered.
mod Work
mod Delivery
use Prim.Native.Nat.{min}
use harness_security_gateway.Prelude.{
  ℕ, suc, ◌*◌, ◌^◌, ◌≡◌, refl, true, false, Option, none, some, List, [], ◌∷◌, arith,
}
use harness_security_gateway.Prelude.Bytes.{Bytes, codes, beq, bytes_lt}
use harness_security_gateway.Prelude.Results.{Result, ok, err}
use harness_security_gateway.Prelude.Tables.{
  find_where, exists_where, count_where, insert_row, delete_where,
}
use harness_security_gateway.Text.{
  valid_utf8, runes_of, any_of, all_of, is_space, is_control, is_blank, is_lower_hex,
  is_ascii_alphanumeric,
}
use harness_security_gateway.CoreStore.Types.{
  Error, AdmissionOptions, IngestTextRunInput, TextRunAuthorization, PrepareRunStartInput,
  FinishRunInput, completed, TextDeliveryInput, CompleteDeliveryInput, DeliveryOutcome, Db,
  empty_db,
}
use harness_security_gateway.CoreStore.Validate.{
  now_millis, validate_identifier, validate_identifiers, validate_text, validate_ingest,
  validate_sha256_hex, validate_text_run_authorization,
}
use harness_security_gateway.CoreStore.Tables.{
  attempt, has_id, find_run, in_scope, holds_scope, owned_by,
}
use harness_security_gateway.CoreStore.Evict.{
  advance_horizon, horizon_of, evictable, evict_inbound_receipts, compactable_run,
  compactable_delivery,
}
use harness_security_gateway.CoreStore.Ingest.{
  Pages, is_receipt, scope_of_input, session_scope_busy?, retained_input_bytes, outstanding_of,
  check_inbound_capacity, check_fresh, admit, receive, ingest_text_run,
}
use harness_security_gateway.CoreStore.Admission.{is_admission}
use harness_security_gateway.CoreStore.Admission.Limits.{IsWithinLimits, admission-IsWithinLimits}
use harness_security_gateway.CoreStore.Completion.{retry_backoff, max_retry_delay}
use harness_security_gateway.CoreStore.Completion.Backoff.{retry_backoff_lem}
use harness_security_gateway.CoreStore.Invariant.{IsWellFormed}
use harness_security_gateway.CoreStore.Trace.{
  Op, Options, run_ops, ingest, claim_run, prepare_start, mark_running, finish, claim_deliveries,
  complete,
}
use harness_security_gateway.CoreStore.Trace.WellFormed.{reachable-IsWellFormed}
use harness_security_gateway.CoreStore.Trace.Once.{admitted_once}

abbrev pub limits : AdmissionOptions
limits = record {
  accept_window = 3600000000000;
  receipt_window = 7200000000000;
  future_skew = 60000000000;
  max_receipts = 100;
  max_queued_runs = 10;
  max_nonterminal_runs = 20;
  max_pending_deliveries = 10;
  max_retained_input_bytes = 65536;
  max_database_pages = 1000;
}

abbrev pub options : Options
options = record { admission = limits; retry_delay = 1000000000 }

abbrev pub pages : Pages
pages = record { page_count = 12; free_pages = 0 }

abbrev pub hex : Bytes
hex = codes "0123456789abcdef0123456789abcdef0123456789abcdef0123456789abcdef"

abbrev pub message : IngestTextRunInput
message = record {
  connector_id = codes "discord";
  event_id = codes "e1";
  payload_hash = codes "p2";
  legacy_payload_hash = codes "p1";
  actor_ref = codes "u1";
  conversation_ref = codes "c1";
  message_ref = codes "m1";
  occurred_at = 9000000;
  text = codes "hello there";
}

abbrev pub granted : TextRunAuthorization
granted = record {
  target_id = codes "t1";
  target_revision = codes "r1";
  binding_fingerprint = hex;
  policy_revision = hex;
}

abbrev pub now : ℕ
now = 9000500

pub admitted :
    is_admission
      (ingest_text_run limits now pages message (ok granted) (ok (codes "run_1")) empty_db).0
    ≡ true
unfolding ingest_text_run attempt validate_ingest validate_identifiers validate_identifier
    now_millis valid_utf8 runes_of any_of all_of is_space is_control is_blank validate_text
    evict_inbound_receipts advance_horizon horizon_of delete_where find_where receive admit
    check_fresh validate_text_run_authorization validate_sha256_hex is_lower_hex session_scope_busy?
    exists_where check_inbound_capacity count_where outstanding_of retained_input_bytes insert_row
    has_id find_run beq
admitted = refl

admission-IsWithinLimits_example :
    IsWithinLimits limits now pages message
      (ok granted)
      (ok (codes "run_1"))
      (evict_inbound_receipts limits message.connector_id now empty_db)
      (ingest_text_run limits now pages message (ok granted) (ok (codes "run_1")) empty_db).0
      (ingest_text_run limits now pages message (ok granted) (ok (codes "run_1")) empty_db).1
admission-IsWithinLimits_example =
    admission-IsWithinLimits limits now pages message (ok granted) (ok (codes "run_1")) empty_db
      admitted

-- The operations that follow the message's ingest: its Run is claimed, prepared, started and
-- finished with a reply, which is leased and delivered.
abbrev pub work : List Op
work =
    claim_run 30000000000 9000600 (ok (codes "d1"))
    ∷ prepare_start 9000700 (record {
      run_id = codes "run_1";
      dispatch_token = codes "d1";
      session_ref = none;
      deadline = some 9100000;
    })
    ∷ mark_running 9000800 (codes "run_1") (codes "d1")
    ∷ finish 9000900
        (record {
          run_id = codes "run_1";
          dispatch_token = codes "d1";
          state = completed;
          output_text = codes "hi";
          failure_code = none;
          result_session_ref = codes "s1";
        })
        (some (record { id = codes "out_1"; text = codes "hi" }))
    ∷ claim_deliveries (codes "discord") 5 30000000000 9001000 (λ _. ok (codes "l1"))
    ∷ complete 9001100 (record {
      connector_id = codes "discord";
      delivery_id = codes "out_1";
      lease_token = codes "l1";
      outcome = DeliveryOutcome.delivered;
      provider_message_ref = codes "m2";
      failure_code = none;
    })
    ∷ []

reachable-IsWellFormed_example :
    IsWellFormed
      (run_ops options (ingest now pages message (ok granted) (ok (codes "run_1")) ∷ work) empty_db)
reachable-IsWellFormed_example =
    reachable-IsWellFormed options
      (ingest now pages message (ok granted) (ok (codes "run_1")) ∷ work)

admitted_once_example :
    is_admission
      (ingest_text_run limits 99000000 pages message (ok granted) (ok (codes "run_2")) (
        run_ops options work
          (ingest_text_run limits now pages message
            (ok granted)
            (ok (codes "run_1"))
            empty_db).1)).0
    ≡ false
admitted_once_example =
    admitted_once options now 99000000 pages pages message message (ok granted) (ok granted)
      (ok (codes "run_1")) (ok (codes "run_2")) empty_db work admitted refl refl refl

retry_backoff_lem_example :
    retry_backoff 1000000000 (suc 3) ≡ min (1000000000 * 2 ^ 3) max_retry_delay
retry_backoff_lem_example = retry_backoff_lem 1000000000 3 (omega arith)

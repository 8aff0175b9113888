-- ===== src/CoreStore/Trace.antt =====
-- The life of a store: the operations of internal/corestore in the order in which their SQLite
-- transactions commit. Writers are serialised (_txlock=immediate), so each operation is one step.
pub mod WellFormed
pub mod Inbox
pub mod Once
pub mod Evolution
use harness_security_gateway.Prelude.{ℕ, List, [], ◌∷◌, Option}
use harness_security_gateway.Prelude.Bytes.{Bytes}
use harness_security_gateway.Prelude.Results.{Result}
use harness_security_gateway.CoreStore.Types.{
  Error, AdmissionOptions, IngestTextRunInput, TextRunAuthorization, PrepareRunStartInput,
  FinishRunInput, TextDeliveryInput, CompleteDeliveryInput, SessionKey, Db,
}
use harness_security_gateway.CoreStore.Ingest.{Pages, ingest_text_run}
use harness_security_gateway.CoreStore.Dispatch.{
  claim_queued_run, prepare_run_start, mark_run_running,
}
use harness_security_gateway.CoreStore.Finish.{finish_run}
use harness_security_gateway.CoreStore.Outbox.{claim_text_deliveries}
use harness_security_gateway.CoreStore.Completion.{complete_delivery}
use harness_security_gateway.CoreStore.Maintenance.{reset_session}

-- A call of an operation that may change the database, with the clock reading and the answers of
-- the callbacks that it would meet.
pub data Op : Type 0 where
  ingest :
      ℕ → Pages → IngestTextRunInput → Result Error TextRunAuthorization → Result Error Bytes → Op
  claim_run : ℕ → ℕ → Result Error Bytes → Op
  prepare_start : ℕ → PrepareRunStartInput → Op
  mark_running : ℕ → Bytes → Bytes → Op
  finish : ℕ → FinishRunInput → Option TextDeliveryInput → Op
  claim_deliveries : Bytes → ℕ → ℕ → ℕ → (ℕ → Result Error Bytes) → Op
  complete : ℕ → CompleteDeliveryInput → Op
  reset : SessionKey → Bytes → Op

-- The options of an open store: its admission bounds and its retry delay.
pub record Options : Type 0 where
  pub admission : AdmissionOptions
  pub retry_delay : ℕ

unfoldable pub step : Options → Op → Db → Db
step o (ingest clock pages input authorize new_run_id) db =
    (ingest_text_run o.admission clock pages input authorize new_run_id db).1
step o (claim_run lease clock new_token) db = (claim_queued_run lease clock new_token db).1
step o (prepare_start clock input) db = (prepare_run_start clock input db).1
step o (mark_running clock run_id token) db = (mark_run_running clock run_id token db).1
step o (finish clock input reply) db = (finish_run o.admission clock input reply db).1
step o (claim_deliveries connector limit lease clock tokens) db =
    (claim_text_deliveries connector limit lease clock tokens db).1
step o (complete clock input) db = (complete_delivery o.retry_delay clock input db).1
step o (reset key expected) db = (reset_session key expected db).1

unfoldable pub run_ops : Options → List Op → Db → Db
run_ops o [] db = db
run_ops o (op ∷ ops) db = run_ops o ops (step o op db)

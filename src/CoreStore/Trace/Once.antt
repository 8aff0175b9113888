-- ===== src/CoreStore/Trace/Once.antt =====
-- An inbound event is admitted once.
pub mod Known
use mathlib.Core.Bool.{false≢true}
use harness_security_gateway.Prelude.{
  ℕ, ◌≤◌, ◌<◌, ◌≡◌, sym, ◌∙◌, ap, ◌⊎◌, inl, inr, Bool, true, false, ◌&&◌, Option, none, some, List,
  [], ◌∷◌, arith, Bool-cases, leb, ◌==◌, leb→le,
}
use harness_security_gateway.Prelude.Bytes.{Bytes, beq, beq→≡, beq_refl}
use harness_security_gateway.Prelude.Results.{Result, ok}
use harness_security_gateway.Prelude.Tables.{exists_where}
use harness_security_gateway.Prelude.Tables.Laws.{
  exists_where-narrow, exists_where-delete, exists_where-insert,
}
use harness_security_gateway.CoreStore.Types.{
  Error, AdmissionOptions, IngestTextRunInput, TextRunAuthorization, Receipt, Horizon, Db,
}
use harness_security_gateway.CoreStore.Tables.Keeps.{Keeps, Keeps-attempt, Keeps-pair}
use harness_security_gateway.CoreStore.Evict.{
  advance_horizon, horizon_of, cutoff_of, evictable, evict_inbound_receipts,
}
use harness_security_gateway.CoreStore.Ingest.{
  Pages, is_receipt, ingest_text_run, receive, admit, replay, check_fresh, insert_admitted,
}
use harness_security_gateway.CoreStore.Admission.{is_admission, admission_lem}
use harness_security_gateway.CoreStore.Trace.{
  Op, Options, step, run_ops, ingest, claim_run, prepare_start, mark_running, finish,
  claim_deliveries, complete, reset,
}
use harness_security_gateway.CoreStore.Trace.Inbox.{
  SameInbox, claim_queued_run-SameInbox, prepare_run_start-SameInbox, mark_run_running-SameInbox,
  finish_run-SameInbox, claim_text_deliveries-SameInbox, complete_delivery-SameInbox,
  reset_session-SameInbox,
}
use harness_security_gateway.CoreStore.Trace.Once.Known.{
  recorded, IsKnown, fresh_above, evict-IsKnown, run_ops-IsKnown, unseen-passed,
}

module _ (o : Options) where
  -- An admitted event is known from then on.
  admitted-IsKnown :
      (clock : ℕ) (pages : Pages) (input : IngestTextRunInput)
      (authorize : Result Error TextRunAuthorization) (new_run_id : Result Error Bytes) (db : Db)
      → is_admission (ingest_text_run o.admission clock pages input authorize new_run_id db).0
        ≡ true
      → IsKnown input.connector_id input.event_id input.occurred_at
          (ingest_text_run o.admission clock pages input authorize new_run_id db).1
  unfolding is_receipt
  admitted-IsKnown clock pages input authorize new_run_id db h =
      let a = admission_lem o.admission clock pages input authorize new_run_id db h in
      record {
        known = inl (
            rw a.inserted (
              rw exists_where-insert
                (ground (arith, beq_refl input.connector_id, beq_refl input.event_id))));
      }

  -- A known event is not admitted.
  known_not_admitted :
      (clock : ℕ) (pages : Pages) (input : IngestTextRunInput)
      (authorize : Result Error TextRunAuthorization) (new_run_id : Result Error Bytes) (db : Db)
      → IsKnown input.connector_id input.event_id input.occurred_at db
      → is_admission (ingest_text_run o.admission clock pages input authorize new_run_id db).0
        ≡ false
  known_not_admitted clock pages input authorize new_run_id db k =
      elim (Bool-cases
        (is_admission (ingest_text_run o.admission clock pages input authorize new_run_id db).0)) [
          | inr e ↦ e
          | inl e ↦
              let a = admission_lem o.admission clock pages input authorize new_run_id db e in
              let evicted = evict_inbound_receipts o.admission input.connector_id clock db in
              let ke =
                evict-IsKnown input.connector_id input.event_id input.occurred_at o.admission
                  input.connector_id clock db k in
              let passed =
                unseen-passed input.connector_id input.event_id input.occurred_at evicted a.unseen
                  ke in
              let ahead =
                fresh_above o.admission clock (horizon_of input.connector_id evicted.horizons)
                  input.occurred_at a.fresh in
              absurd (omega arith)
        ]

  -- Once an event has been admitted, it is never admitted again: after any further operations, an
  -- ingest of the same connector, event and time of occurrence, whatever else it carries, creates no
  -- Run.
  pub admitted_once :
      (clock clock' : ℕ) (pages pages' : Pages) (input input' : IngestTextRunInput)
      (authorize authorize' : Result Error TextRunAuthorization)
      (new_run_id new_run_id' : Result Error Bytes) (db : Db) (ops : List Op)
      → is_admission (ingest_text_run o.admission clock pages input authorize new_run_id db).0
        ≡ true
      → input'.connector_id ≡ input.connector_id
      → input'.event_id ≡ input.event_id
      → input'.occurred_at ≡ input.occurred_at
      → is_admission
          (ingest_text_run o.admission clock' pages' input' authorize' new_run_id' (
            run_ops o ops
              (ingest_text_run o.admission clock pages input authorize new_run_id db).1)).0
        ≡ false
  admitted_once clock clock' pages pages' input input' authorize authorize' new_run_id new_run_id'
        db ops h same_c same_e same_t =
      known_not_admitted clock' pages' input' authorize' new_run_id' _ (
        rw (same_c, same_e, same_t)
          (run_ops-IsKnown input.connector_id input.event_id input.occurred_at o ops _
            (admitted-IsKnown clock pages input authorize new_run_id db h)))

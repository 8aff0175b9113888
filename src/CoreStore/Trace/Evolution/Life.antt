-- ===== src/CoreStore/Trace/Evolution/Life.antt =====
-- A stored Run over one operation: it evolves, or it was terminal and is compacted away.

use harness_security_gateway.Prelude.{ℕ, ◌≡◌, ◌⊎◌, inl, Option, none, some}
use harness_security_gateway.Prelude.Bytes.{Bytes, beq}
use harness_security_gateway.Prelude.Results.{Result}
use harness_security_gateway.CoreStore.Types.{
  Error, Run, Db, Delivery, DeliveryState, Session, SessionKey, CompleteDeliveryInput,
}
use harness_security_gateway.CoreStore.Tables.{find_run}
use harness_security_gateway.CoreStore.Tables.Keeps.{Keeps, Keeps-attempt, Keeps-if, Keeps-pair}
use harness_security_gateway.CoreStore.Evict.{evict_inbound_receipts}
use harness_security_gateway.CoreStore.Ingest.{ingest_text_run}
use harness_security_gateway.CoreStore.Outbox.{claim_text_deliveries}
use harness_security_gateway.CoreStore.Completion.{complete_delivery, complete_by_state}
use harness_security_gateway.CoreStore.Maintenance.{reset_session, reset_found}
use harness_security_gateway.CoreStore.Invariant.{IsWellFormed}
use harness_security_gateway.CoreStore.Trace.{
  Op, Options, step, ingest, claim_run, prepare_start, mark_running, finish, claim_deliveries,
  complete, reset,
}
use harness_security_gateway.CoreStore.Trace.Evolution.{Evolves-refl, Survives}
use harness_security_gateway.CoreStore.Trace.Evolution.Steps.{
  claim_queued_run-Survives, prepare_run_start-Survives, mark_run_running-Survives,
  finish_run-Survives,
}
use harness_security_gateway.CoreStore.Trace.Evolution.Compaction.{IsCompaction, ingest-Fate}

module _ (id : Bytes) (r : Run) where
  claim_text_deliveries-Survives :
      (connector : Bytes) (limit lease clock : ℕ) (tokens : ℕ → Result Error Bytes) (db : Db)
      → Survives id r db.runs
      → Keeps
          (λ d. Survives id r d.runs)
          (claim_text_deliveries connector limit lease clock tokens db)
  unfolding claim_text_deliveries
  claim_text_deliveries-Survives connector limit lease clock tokens db s =
      Keeps-attempt _ db _ s λ _ _. Keeps-attempt _ db _ s λ _ _. Keeps-attempt _ db _ s λ now _.
        Keeps-attempt _ db _ s λ expires _. Keeps-attempt _ db _ s λ claimed _. Keeps-pair _ _ s

  complete_by_state-Survives :
      (retry_delay now : ℕ) (input : CompleteDeliveryInput) (d : Delivery) (db : Db)
      (state : DeliveryState)
      → Survives id r db.runs
      → Keeps (λ d. Survives id r d.runs) (complete_by_state retry_delay now input d db state)
  unfolding complete_by_state
  complete_by_state-Survives retry_delay now input d db DeliveryState.leased s =
      Keeps-attempt _ db _ s λ _ _. Keeps-attempt _ db _ s λ change _. Keeps-pair _ _ s
  complete_by_state-Survives retry_delay now input d db DeliveryState.pending s =
      Keeps-attempt _ db _ s λ _ _. Keeps-pair _ db s
  complete_by_state-Survives retry_delay now input d db DeliveryState.delivered s =
      Keeps-attempt _ db _ s λ _ _. Keeps-pair _ db s
  complete_by_state-Survives retry_delay now input d db DeliveryState.permanent_failed s =
      Keeps-attempt _ db _ s λ _ _. Keeps-pair _ db s

  complete_delivery-Survives :
      (retry_delay clock : ℕ) (input : CompleteDeliveryInput) (db : Db)
      → Survives id r db.runs
      → Keeps (λ d. Survives id r d.runs) (complete_delivery retry_delay clock input db)
  unfolding complete_delivery
  complete_delivery-Survives retry_delay clock input db s = Keeps-attempt _ db _ s λ now _.
      Keeps-attempt _ db _ s λ _ _. Keeps-attempt _ db _ s λ d _.
        Keeps-attempt _ db _ s
          λ _ _. complete_by_state-Survives retry_delay now input d db d.state s

  reset_found-Survives :
      (key : SessionKey) (expected : Bytes) (db : Db) (session : Option Session)
      → Survives id r db.runs
      → Keeps (λ d. Survives id r d.runs) (reset_found key expected db session)
  unfolding reset_found
  reset_found-Survives key expected db none s = Keeps-pair _ db s
  reset_found-Survives key expected db (some session) s =
      Keeps-if (beq session.ref expected) _ _ (λ _. Keeps-attempt _ db _ s λ _ _. Keeps-pair _ _ s)
        (λ _. Keeps-pair _ db s)

  reset_session-Survives :
      (key : SessionKey) (expected : Bytes) (db : Db)
      → Survives id r db.runs
      → Keeps (λ d. Survives id r d.runs) (reset_session key expected db)
  unfolding reset_session
  reset_session-Survives key expected db s =
      Keeps-attempt _ db _ s
        λ _ _. Keeps-attempt _ db _ s λ _ _. reset_found-Survives key expected db _ s

-- Only an ingest may take a Run away.
abbrev pub IsCompacted : Options → Op → Db → Bytes → Run → Type 0
IsCompacted o (ingest clock pages input authorize new_run_id) db id r =
    IsCompaction input clock (evict_inbound_receipts o.admission input.connector_id clock db)
      (ingest_text_run o.admission clock pages input authorize new_run_id db).1 id r
IsCompacted _ _ _ _ _ = ⊥

-- In a well-formed database, every operation keeps every stored Run, unless it is an ingest that
-- compacts a Run which has ended, of its own connector, to which no receipt or delivery that is left
-- refers. The Run that is kept under the identifier has the same admitted evidence (addressing,
-- authorization, input); its state moved only along the steps queued, dispatching, back to queued,
-- running, terminal; its start parameters are unchanged if they were prepared; and if it was terminal
-- it is the same row.
pub step-Survives :
    (o : Options) (op : Op) (db : Db) (id : Bytes) (r : Run)
    → IsWellFormed db
    → find_run id db.runs ≡ some r
    → Survives id r (step o op db).runs ⊎ IsCompacted o op db id r
unfolding step
step-Survives o op db id r w found = go op
  where
    s : Survives id r db.runs
    s = record { row = r; found = found; evolves = Evolves-refl r }

    go : (op : Op) → Survives id r (step o op db).runs ⊎ IsCompacted o op db id r
    go (ingest clock pages input authorize new_run_id) =
        (ingest-Fate id r o.admission clock pages input authorize new_run_id db w found).after
    go (claim_run lease clock new_token) =
        inl (claim_queued_run-Survives id r lease clock new_token db s).after
    go (prepare_start clock input) = inl (prepare_run_start-Survives id r clock input db s).after
    go (mark_running clock run_id token) =
        inl (mark_run_running-Survives id r clock run_id token db s).after
    go (finish clock input reply) =
        inl (finish_run-Survives id r o.admission clock input reply db s).after
    go (claim_deliveries connector limit lease clock tokens) =
        inl (claim_text_deliveries-Survives id r connector limit lease clock tokens db s).after
    go (complete clock input) =
        inl (complete_delivery-Survives id r o.retry_delay clock input db s).after
    go (reset key expected) = inl (reset_session-Survives id r key expected db s).after

-- ===== src/CoreStore/Trace/Inbox.antt =====
-- Which operations change the receipts and the replay horizons: only IngestTextRun.
use harness_security_gateway.Prelude.{
  ℕ, ◌≡◌, refl, ◌∙◌, inl, inr, Option, none, some, arith, Bool-cases,
}
use harness_security_gateway.Prelude.Bytes.{Bytes, beq}
use harness_security_gateway.Prelude.Results.{Result, ok, >>=-eq-ok, ok-injective}
use harness_security_gateway.Prelude.Tables.{exists_where}
use harness_security_gateway.CoreStore.Types.{
  Error, AdmissionOptions, Run, Db, PrepareRunStartInput, FinishRunInput, TextDeliveryInput,
  CompleteDeliveryInput, SessionKey, Session, Delivery, DeliveryState, is_active, is_running,
  is_terminal,
}
use harness_security_gateway.CoreStore.Tables.Keeps.{Keeps, Keeps-attempt, Keeps-if, Keeps-pair}
use harness_security_gateway.CoreStore.Dispatch.{
  release_expired, claim_queued_run, claim_next, prepare_run_start, mark_run_running,
}
use harness_security_gateway.CoreStore.Finish.{finish_run, finish_run_row, insert_reply}
use harness_security_gateway.CoreStore.Outbox.{claim_text_deliveries, insert_delivery}
use harness_security_gateway.CoreStore.Completion.{complete_delivery, complete_by_state}
use harness_security_gateway.CoreStore.Maintenance.{reset_session, reset_found}

-- The receipts and horizons are those of `db`.
pub record SameInbox (db db' : Db) : Type 0 where
  pub receipts : db'.receipts ≡ db.receipts
  pub horizons : db'.horizons ≡ db.horizons

same : (db : Db) → SameInbox db db
same db = record { receipts = refl; horizons = refl }

claim_next-SameInbox :
    (lease now : ℕ) (new_token : Result Error Bytes) (db released : Db) (next : Option Run)
    → SameInbox db released
    → Keeps (SameInbox db) (claim_next lease now new_token db released next)
unfolding claim_next
claim_next-SameInbox lease now new_token db released none s = Keeps-pair _ _ s
claim_next-SameInbox lease now new_token db released (some run) s =
    Keeps-attempt new_token db _ (same db) λ token _. Keeps-attempt _ db _ (same db) λ _ _.
      Keeps-attempt _ db _ (same db) λ expires _. Keeps-attempt _ db _ (same db) λ _ _.
        Keeps-attempt _ db _ (same db)
          λ _ _. Keeps-pair _ _ (record { receipts = s.receipts; horizons = s.horizons })

pub claim_queued_run-SameInbox :
    (lease clock : ℕ) (new_token : Result Error Bytes) (db : Db)
    → Keeps (SameInbox db) (claim_queued_run lease clock new_token db)
unfolding claim_queued_run
claim_queued_run-SameInbox lease clock new_token db = Keeps-attempt _ db _ (same db) λ now _.
    Keeps-if (exists_where (λ r. is_active r.state) (release_expired now db.runs)) _ _
      (λ _. Keeps-pair _ _ (record { receipts = refl; horizons = refl }))
      λ _.
        claim_next-SameInbox lease now new_token db _ _
          (record { receipts = refl; horizons = refl })

pub prepare_run_start-SameInbox :
    (clock : ℕ) (input : PrepareRunStartInput) (db : Db)
    → Keeps (SameInbox db) (prepare_run_start clock input db)
unfolding prepare_run_start
prepare_run_start-SameInbox clock input db = Keeps-attempt _ db _ (same db) λ now _.
    Keeps-attempt _ db _ (same db) λ _ _. Keeps-attempt _ db _ (same db) λ run _.
      Keeps-attempt _ db _ (same db) λ _ _.
        Keeps-if run.start_prepared _ _ (λ _. Keeps-pair _ db (same db))
          λ _. Keeps-attempt _ db _ (same db) λ _ _.
            Keeps-attempt _ db _ (same db)
              λ _ _. Keeps-pair _ _ (record { receipts = refl; horizons = refl })

pub mark_run_running-SameInbox :
    (clock : ℕ) (run_id token : Bytes) (db : Db)
    → Keeps (SameInbox db) (mark_run_running clock run_id token db)
unfolding mark_run_running
mark_run_running-SameInbox clock run_id token db = Keeps-attempt _ db _ (same db) λ now _.
    Keeps-attempt _ db _ (same db) λ run _. Keeps-attempt _ db _ (same db) λ _ _.
      Keeps-if (is_running run.state) _ _ (λ _. Keeps-pair _ db (same db))
        λ _. Keeps-attempt _ db _ (same db) λ _ _. Keeps-attempt _ db _ (same db) λ _ _.
          Keeps-attempt _ db _ (same db)
            λ _ _. Keeps-pair _ _ (record { receipts = refl; horizons = refl })

finish_run_row-SameInbox :
    (run : Run) (input : FinishRunInput) (now : ℕ) (db db' : Db)
    → finish_run_row run input now db ≡ ok db'
    → SameInbox db db'
unfolding finish_run_row
finish_run_row-SameInbox run input now db db' h = elim (Bool-cases (is_terminal run.state)) [
  | inl e ↦ let kept : db ≡ db' = ground arith in rw (← kept) (same db)
  | inr e ↦ ground arith
]

insert_reply-SameInbox :
    (options : AdmissionOptions) (run : Run) (reply : Option TextDeliveryInput) (now : ℕ)
    (db db' : Db)
    → insert_reply options run reply now db ≡ ok db'
    → SameInbox db db'
unfolding insert_reply
insert_reply-SameInbox options run none now db db' h = rw (← ok-injective h) (same db)
insert_reply-SameInbox options run (some reply) now db db' h =
    let (ds, _, changed) =
      >>=-eq-ok (insert_delivery options run reply now db)
        (λ ds. ok (record db { deliveries = ds })) h in
    rw (← ok-injective changed) (record { receipts = refl; horizons = refl })

pub finish_run-SameInbox :
    (options : AdmissionOptions) (clock : ℕ) (input : FinishRunInput)
    (reply : Option TextDeliveryInput) (db : Db)
    → Keeps (SameInbox db) (finish_run options clock input reply db)
unfolding finish_run
finish_run-SameInbox options clock input reply db = Keeps-attempt _ db _ (same db) λ now _.
    Keeps-attempt _ db _ (same db) λ run _. Keeps-attempt _ db _ (same db) λ _ _.
      Keeps-attempt _ db _ (same db) λ _ _. Keeps-attempt _ db _ (same db) λ _ _.
        Keeps-attempt _ db _ (same db) λ finished row.
          Keeps-attempt _ db _ (same db) λ done inserted.
            let a = finish_run_row-SameInbox run input now db finished row in
            let b = insert_reply-SameInbox options run reply now finished done inserted in
            Keeps-pair _ done
              (record { receipts = b.receipts ∙ a.receipts; horizons = b.horizons ∙ a.horizons })

pub claim_text_deliveries-SameInbox :
    (connector : Bytes) (limit lease clock : ℕ) (tokens : ℕ → Result Error Bytes) (db : Db)
    → Keeps (SameInbox db) (claim_text_deliveries connector limit lease clock tokens db)
unfolding claim_text_deliveries
claim_text_deliveries-SameInbox connector limit lease clock tokens db =
    Keeps-attempt _ db _ (same db) λ _ _. Keeps-attempt _ db _ (same db) λ _ _.
      Keeps-attempt _ db _ (same db) λ now _. Keeps-attempt _ db _ (same db) λ expires _.
        Keeps-attempt _ db _ (same db)
          λ claimed _. Keeps-pair _ _ (record { receipts = refl; horizons = refl })

complete_by_state-SameInbox :
    (retry_delay now : ℕ) (input : CompleteDeliveryInput) (d : Delivery) (db : Db)
    (state : DeliveryState)
    → Keeps (SameInbox db) (complete_by_state retry_delay now input d db state)
unfolding complete_by_state
complete_by_state-SameInbox retry_delay now input d db DeliveryState.leased =
    Keeps-attempt _ db _ (same db) λ _ _.
      Keeps-attempt _ db _ (same db)
        λ change _. Keeps-pair _ _ (record { receipts = refl; horizons = refl })
complete_by_state-SameInbox retry_delay now input d db DeliveryState.pending =
    Keeps-attempt _ db _ (same db) λ _ _. Keeps-pair _ db (same db)
complete_by_state-SameInbox retry_delay now input d db DeliveryState.delivered =
    Keeps-attempt _ db _ (same db) λ _ _. Keeps-pair _ db (same db)
complete_by_state-SameInbox retry_delay now input d db DeliveryState.permanent_failed =
    Keeps-attempt _ db _ (same db) λ _ _. Keeps-pair _ db (same db)

pub complete_delivery-SameInbox :
    (retry_delay clock : ℕ) (input : CompleteDeliveryInput) (db : Db)
    → Keeps (SameInbox db) (complete_delivery retry_delay clock input db)
unfolding complete_delivery
complete_delivery-SameInbox retry_delay clock input db = Keeps-attempt _ db _ (same db) λ now _.
    Keeps-attempt _ db _ (same db) λ _ _. Keeps-attempt _ db _ (same db) λ d _.
      Keeps-attempt _ db _ (same db)
        λ _ _. complete_by_state-SameInbox retry_delay now input d db d.state

reset_found-SameInbox :
    (key : SessionKey) (expected : Bytes) (db : Db) (session : Option Session)
    → Keeps (SameInbox db) (reset_found key expected db session)
unfolding reset_found
reset_found-SameInbox key expected db none = Keeps-pair _ db (same db)
reset_found-SameInbox key expected db (some s) =
    Keeps-if (beq s.ref expected) _ _
      (λ _.
        Keeps-attempt _ db _ (same db)
          λ _ _. Keeps-pair _ _ (record { receipts = refl; horizons = refl }))
      (λ _. Keeps-pair _ db (same db))

pub reset_session-SameInbox :
    (key : SessionKey) (expected : Bytes) (db : Db)
    → Keeps (SameInbox db) (reset_session key expected db)
unfolding reset_session
reset_session-SameInbox key expected db =
    Keeps-attempt _ db _ (same db)
      λ _ _. Keeps-attempt _ db _ (same db) λ _ _. reset_found-SameInbox key expected db _

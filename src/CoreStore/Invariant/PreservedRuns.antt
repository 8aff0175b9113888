-- ===== src/CoreStore/Invariant/PreservedRuns.antt =====
-- The dispatch operations and FinishRun keep a well-formed database.
use harness_security_gateway.Prelude.{
  ℕ, ◌≡◌, Bool, refl, inl, inr, true, false, Option, none, some, List, arith, if◌then◌else◌,
  Bool-cases,
}
use harness_security_gateway.Prelude.Bytes.{Bytes, beq→≡}
use harness_security_gateway.Prelude.Results.{Result, ok, >>=-eq-ok, >>-ok, ok-injective}
use harness_security_gateway.Prelude.Tables.{update_where, exists_where}
use harness_security_gateway.Prelude.Tables.Laws.{
  find_where_sound, All-insert, find_where-exists, exists_where-update,
}
use harness_security_gateway.CoreStore.Types.{
  Error, Run, Db, AdmissionOptions, PrepareRunStartInput, FinishRunInput, TextDeliveryInput,
  is_active, is_running, is_terminal,
}
use harness_security_gateway.CoreStore.Validate.{is_set, is_empty, validate_prepare_run_start}
use harness_security_gateway.CoreStore.Tables.{put_session, has_id, find_run}
use harness_security_gateway.CoreStore.Tables.Keeps.{Keeps, Keeps-attempt, Keeps-if, Keeps-pair}
use harness_security_gateway.CoreStore.Dispatch.{
  claim_queued_run, claim_next, release_expired, prepare_run_start, mark_run_running,
  expired_dispatch, requeue, claimable, dispatch, run_now, preparable, prepare,
}
use harness_security_gateway.CoreStore.Finish.{
  result_session, finish_run, finish_run_row, insert_reply, finish,
}
use harness_security_gateway.CoreStore.Outbox.{insert_delivery, new_delivery}
use harness_security_gateway.CoreStore.Invariant.{IsWellFormed, HasKeys, Refers, DeadlineInRange}
use harness_security_gateway.CoreStore.Invariant.Changes.{
  release_expired-IsRunTable, dispatch-IsRunTable, prepare-IsRunTable, run_now-IsRunTable,
  finish-IsRunTable, validate_finish-IsResult, IsResult,
}
use harness_security_gateway.CoreStore.Invariant.Outbox.{
  insert_delivery-IsDeliveryTable, insert_delivery_cases,
}
use harness_security_gateway.CoreStore.Invariant.References.{update-HasReferences}
use harness_security_gateway.CoreStore.Invariant.Keys.{put_session-HasKeys}
use harness_security_gateway.CoreStore.Invariant.Operations.{guard_holds, or_error-some, not-true}

released-IsWellFormed :
    (now : ℕ) (db : Db)
    → IsWellFormed db
    → IsWellFormed (record db { runs = release_expired now db.runs })
released-IsWellFormed now db w = record {
  runs_ok = release_expired-IsRunTable now db.runs w.runs_ok;
  deliveries_ok = w.deliveries_ok;
  receipts_ok = w.receipts_ok;
  keys_ok = w.keys_ok;
  references =
      unfold release_expired in
      update-HasReferences (expired_dispatch now) (requeue now) db (λ x. refl) w.references;
}

claim_next-IsWellFormed :
    (lease now : ℕ) (new_token : Result Error Bytes) (db released : Db) (next : Option Run)
    → exists_where (λ r. is_active r.state) released.runs ≡ false
    → IsWellFormed db
    → IsWellFormed released
    → Keeps IsWellFormed (claim_next lease now new_token db released next)
unfolding claim_next
claim_next-IsWellFormed lease now new_token db released none idle w wr = Keeps-pair _ released wr
claim_next-IsWellFormed lease now new_token db released (some run) idle w wr =
    Keeps-attempt new_token db _ w λ token _. Keeps-attempt _ db _ w λ _ _.
      Keeps-attempt _ db _ w λ expires _. Keeps-attempt _ db _ w λ u unused.
        Keeps-attempt _ db _ w λ _ _. Keeps-pair _ _ (record {
          runs_ok =
              dispatch-IsRunTable run.id token expires now released.runs idle
                (not-true _ (guard_holds _ _ u unused)) wr.runs_ok;
          deliveries_ok = wr.deliveries_ok;
          receipts_ok = wr.receipts_ok;
          keys_ok = wr.keys_ok;
          references =
              update-HasReferences (claimable run.id) (dispatch token expires now) released
                (λ x. refl) wr.references;
        })

pub claim_queued_run-IsWellFormed :
    (lease clock : ℕ) (new_token : Result Error Bytes) (db : Db)
    → IsWellFormed db
    → Keeps IsWellFormed (claim_queued_run lease clock new_token db)
unfolding claim_queued_run
claim_queued_run-IsWellFormed lease clock new_token db w = Keeps-attempt _ db _ w λ now _.
    Keeps-if _ _ _ (λ _. Keeps-pair _ _ (released-IsWellFormed now db w))
      λ idle.
        claim_next-IsWellFormed lease now new_token db _ _ idle w (released-IsWellFormed now db w)

prepared_deadline :
    (input : PrepareRunStartInput) (now : ℕ) (u : Unit {0})
    → validate_prepare_run_start input now ≡ ok u
    → (is_set input.deadline ≡ true) × DeadlineInRange input.deadline
unfolding validate_prepare_run_start
prepared_deadline input now u h = ground arith

pub prepare_run_start-IsWellFormed :
    (clock : ℕ) (input : PrepareRunStartInput) (db : Db)
    → IsWellFormed db
    → Keeps IsWellFormed (prepare_run_start clock input db)
unfolding prepare_run_start
prepare_run_start-IsWellFormed clock input db w = Keeps-attempt _ db _ w λ now _.
    Keeps-attempt _ db _ w λ u valid. Keeps-attempt _ db _ w λ run _. Keeps-attempt _ db _ w λ _ _.
      Keeps-if run.start_prepared _ _ (λ _. Keeps-pair _ db w)
        λ _. Keeps-attempt _ db _ w λ _ _. Keeps-attempt _ db _ w λ _ _. Keeps-pair _ _ (record {
          runs_ok =
              prepare-IsRunTable run.id input.dispatch_token input.session_ref input.deadline now
                db.runs (prepared_deadline input now u valid).0
                (prepared_deadline input now u valid).1 w.runs_ok;
          deliveries_ok = w.deliveries_ok;
          receipts_ok = w.receipts_ok;
          keys_ok = w.keys_ok;
          references =
              update-HasReferences (preparable run.id input.dispatch_token)
                (prepare input.session_ref input.deadline now) db (λ x. refl) w.references;
        })

pub mark_run_running-IsWellFormed :
    (clock : ℕ) (run_id token : Bytes) (db : Db)
    → IsWellFormed db
    → Keeps IsWellFormed (mark_run_running clock run_id token db)
unfolding mark_run_running
mark_run_running-IsWellFormed clock run_id token db w = Keeps-attempt _ db _ w λ now _.
    Keeps-attempt _ db _ w λ run found. Keeps-attempt _ db _ w λ _ _.
      Keeps-if (is_running run.state) _ _ (λ _. Keeps-pair _ db w)
        λ _. Keeps-attempt _ db _ w λ u dispatching. Keeps-attempt _ db _ w λ _ _.
          Keeps-attempt _ db _ w λ v prepared. Keeps-pair _ _ (record {
            runs_ok =
                run_now-IsRunTable run run_id now db.runs (or_error-some _ _ run found)
                  (guard_holds _ _ u dispatching) (guard_holds _ _ v prepared) w.runs_ok;
            deliveries_ok = w.deliveries_ok;
            receipts_ok = w.receipts_ok;
            keys_ok = w.keys_ok;
            references =
                update-HasReferences (has_id run_id) (run_now now) db (λ x. refl) w.references;
          })

finish_run_row-IsWellFormed :
    (run : Run) (input : FinishRunInput) (now : ℕ) (db db' : Db)
    → IsResult input
    → find_run input.run_id db.runs ≡ some run
    → run.start_prepared ≡ true
    → finish_run_row run input now db ≡ ok db'
    → IsWellFormed db
    → IsWellFormed db' × ((id : Bytes) → Refers db.runs id → Refers db'.runs id)
unfolding finish_run_row
finish_run_row-IsWellFormed run input now db db' result found prepared h w =
    elim (Bool-cases (is_terminal run.state)) [
      | inl e ↦ let same : db ≡ db' = ground arith in (rw (← same) w, λ id r. rw (← same) r)
      | inr e ↦
          let active : is_active run.state ≡ true = ground arith in
          let changed : finished ≡ db' = ground arith in
          (
            rw (← changed) (after active),
            λ id r. rw (← changed) (
                unfold has_id in
                rw
                  (exists_where-update (has_id id) (has_id input.run_id) (finish input now) db.runs
                    (λ x. refl))
                  r),
          )
    ]
  where
    finished : Db
    finished = record db {
      runs = update_where (has_id input.run_id) (finish input now) db.runs;
      sessions =
          if is_empty input.result_session_ref
          then db.sessions
          else put_session (result_session run input now) db.sessions;
    }

    result_keys :
        (b : Bool)
        → HasKeys
            (if b then db.sessions else put_session (result_session run input now) db.sessions)
            db.horizons
    result_keys true = w.keys_ok
    result_keys false = put_session-HasKeys db.sessions db.horizons w.keys_ok _

    after : is_active run.state ≡ true → IsWellFormed finished
    after active = record {
      runs_ok = finish-IsRunTable run input now db.runs result found active prepared w.runs_ok;
      deliveries_ok = w.deliveries_ok;
      receipts_ok = w.receipts_ok;
      keys_ok = result_keys (is_empty input.result_session_ref);
      references =
          let refs =
            update-HasReferences (has_id input.run_id) (finish input now) db (λ x. refl)
              w.references in
          record { of_receipts = refs.of_receipts; of_deliveries = refs.of_deliveries };
    }

insert_reply-IsWellFormed :
    (options : AdmissionOptions) (run : Run) (reply : Option TextDeliveryInput) (now : ℕ)
    (db db' : Db)
    → insert_reply options run reply now db ≡ ok db'
    → Refers db.runs run.id
    → IsWellFormed db
    → IsWellFormed db'
unfolding insert_reply
insert_reply-IsWellFormed options run none now db db' h here w = rw (← ok-injective h) w
insert_reply-IsWellFormed options run (some reply) now db db' h here w =
    let (ds, inserted, changed) =
      >>=-eq-ok (insert_delivery options run reply now db)
        (λ ds. ok (record db { deliveries = ds })) h in
    rw (← ok-injective changed) (record {
      runs_ok = w.runs_ok;
      deliveries_ok =
          insert_delivery-IsDeliveryTable options run reply now db ds inserted w.deliveries_ok;
      receipts_ok = w.receipts_ok;
      keys_ok = w.keys_ok;
      references = record {
        of_receipts = w.references.of_receipts;
        of_deliveries = elim (insert_delivery_cases options run reply now db ds inserted) [
          | inl e ↦ rw e w.references.of_deliveries
          | inr (e, _, _) ↦ rw e (
              All-insert (λ d. Refers db.runs d.run_id) (new_delivery run reply now) db.deliveries
                here w.references.of_deliveries)
        ];
      };
    })

pub found-Refers :
    (id : Bytes) (run : Run) (runs : List Run) → find_run id runs ≡ some run → Refers runs run.id
unfolding find_run has_id
found-Refers id run runs h =
    rw (beq→≡ run.id id (find_where_sound _ runs run h)) (find_where-exists _ runs run h)

pub finish_run-IsWellFormed :
    (options : AdmissionOptions) (clock : ℕ) (input : FinishRunInput)
    (reply : Option TextDeliveryInput) (db : Db)
    → IsWellFormed db
    → Keeps IsWellFormed (finish_run options clock input reply db)
unfolding finish_run
finish_run-IsWellFormed options clock input reply db w = Keeps-attempt _ db _ w λ now valid.
    Keeps-attempt _ db _ w λ run found. Keeps-attempt _ db _ w λ _ _.
      Keeps-attempt _ db _ w λ u prepared. Keeps-attempt _ db _ w λ _ _.
        Keeps-attempt _ db _ w λ finished row. Keeps-attempt _ db _ w λ done inserted.
          let stored = or_error-some _ _ run found in
          let (wf, still) =
            finish_run_row-IsWellFormed run input now db finished
              (validate_finish-IsResult input (>>-ok _ _ valid)) stored (guard_holds _ _ u prepared)
              row w in
          Keeps-pair _ done (
            insert_reply-IsWellFormed options run reply now finished done inserted
              (still run.id (found-Refers input.run_id run db.runs stored)) wf)

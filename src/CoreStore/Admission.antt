-- ===== src/CoreStore/Admission.antt =====
-- What IngestTextRun of internal/corestore/runs.go has checked when it creates a Run.
pub mod Limits
use harness_security_gateway.Prelude.{
  ap, zero, suc, ℕ, ◌≡◌, refl, sym, Bool, true, false, not, Option, none, some, arith,
}
use harness_security_gateway.Prelude.Bytes.{Bytes, beq_refl, length}
use harness_security_gateway.Prelude.Results.{Result, ok, err, ok-injective, >>-ok_right}
use harness_security_gateway.Prelude.Tables.{find_where, exists_where}
use harness_security_gateway.Prelude.Tables.Laws.{find_where-none, find_where-insert}
use harness_security_gateway.CoreStore.Types.{
  Error, AdmissionOptions, IngestTextRunInput, TextRunAuthorization, IngestResult, Receipt, Run, Db,
  max_id_bytes,
}
use harness_security_gateway.CoreStore.Validate.{
  now_millis, validate_identifier, validate_ingest, validate_text_run_authorization,
}
use harness_security_gateway.CoreStore.Tables.{has_id, find_run}
use harness_security_gateway.CoreStore.Tables.Keeps.{Ensures, Ensures-attempt, Ensures-pair}
use harness_security_gateway.CoreStore.Evict.{evict_inbound_receipts, horizon_of}
use harness_security_gateway.CoreStore.Ingest.{
  Pages, is_receipt, ingest_text_run, receive, admit, replay, check_fresh, check_inbound_capacity,
  session_scope_busy?, insert_admitted, new_run,
}
use harness_security_gateway.CoreStore.Invariant.Operations.{guard_holds, not-true, or_error-some}

-- Whether an outcome reports a newly created Run.
abbrev pub is_admission : Result Error IngestResult → Bool
is_admission (ok r) = not r.duplicate
is_admission (err e) = false

found_admitted :
    (input : IngestTextRunInput) (a : TextRunAuthorization) (id : Bytes) (now : ℕ) (db : Db)
    (run : Run)
    → exists_where (has_id id) db.runs ≡ false
    → find_run id (insert_admitted input a id now db).runs ≡ some run
    → run ≡ new_run input a id now
unfolding find_run has_id
found_admitted input a id now db run new found =
    ground (arith, find_where-insert (has_id id) (new_run input a id now) db.runs, beq_refl id)

pub now_millis→≡ : (clock now : ℕ) → now_millis clock ≡ ok now → now ≡ clock
unfolding now_millis
now_millis→≡ zero now h = cc
now_millis→≡ (suc n) now h = sym (ok-injective h)

module _ (options : AdmissionOptions) (clock : ℕ) (pages : Pages) (input : IngestTextRunInput)
    (authorize : Result Error TextRunAuthorization) (new_run_id : Result Error Bytes) where
  -- Everything that holds when the outcome `r` with database `db'` is an admission at `now`, from
  -- the database `evicted` after eviction.
  pub record IsAdmitted (now : ℕ) (evicted : Db) (r : Result Error IngestResult) (db' : Db)
      : Type 0 where
    pub authorization : TextRunAuthorization
    pub id : Bytes
    pub authorized : authorize ≡ ok authorization
    pub identified : new_run_id ≡ ok id
    pub valid : validate_text_run_authorization authorization ≡ ok tt
    pub named : validate_identifier id max_id_bytes ≡ ok tt
    pub unseen :
        exists_where (is_receipt input.connector_id input.event_id) evicted.receipts ≡ false
    pub fresh :
        check_fresh options now (horizon_of input.connector_id evicted.horizons) input.occurred_at
        ≡ ok tt
    pub free : session_scope_busy? input authorization evicted ≡ false
    pub capacity :
        check_inbound_capacity options pages input.connector_id (length input.text) evicted ≡ ok tt
    pub new_id : exists_where (has_id id) evicted.runs ≡ false
    pub result : r ≡ ok (record { run = new_run input authorization id now; duplicate = false })
    pub inserted : db' ≡ insert_admitted input authorization id now evicted

  admit-IsAdmitted :
      (now : ℕ) (db evicted : Db)
      → exists_where (is_receipt input.connector_id input.event_id) evicted.receipts ≡ false
      → Ensures
          (λ r db'. is_admission r ≡ true → IsAdmitted now evicted r db')
          (admit options now pages input authorize new_run_id db evicted)
  unfolding admit
  admit-IsAdmitted now db evicted unseen =
      Ensures-attempt _ evicted _ (λ _ _ h. cc)
        λ u fresh.
          Ensures-attempt authorize evicted _ (λ _ _ h. cc)
            λ a authorized.
              Ensures-attempt _ db _ (λ _ _ h. cc)
                λ u' valid.
                  Ensures-attempt _ evicted _ (λ _ _ h. cc)
                    λ v free.
                      Ensures-attempt _ evicted _ (λ _ _ h. cc)
                        λ v' capacity.
                          Ensures-attempt new_run_id evicted _ (λ _ _ h. cc)
                            λ id identified.
                              Ensures-attempt _ db _ (λ _ _ h. cc)
                                λ w named.
                                  Ensures-attempt _ db _ (λ _ _ h. cc)
                                    λ x new_id.
                                      Ensures-attempt _ db _ (λ _ _ h. cc)
                                        λ run found. Ensures-pair _ _ (λ h. record {
                                          authorization = a;
                                          id = id;
                                          authorized = authorized;
                                          identified = identified;
                                          valid = valid;
                                          named = named;
                                          unseen = unseen;
                                          fresh = fresh;
                                          free = not-true _ (guard_holds _ _ v free);
                                          capacity = capacity;
                                          new_id = not-true _ (guard_holds _ _ x new_id);
                                          result =
                                              ap
                                                (λ (x : Run).
                                                  ok (record { run = x; duplicate = false }))
                                                (found_admitted input a id now evicted run
                                                  (not-true _ (guard_holds _ _ x new_id))
                                                  (or_error-some _ _ run found));
                                          inserted = refl;
                                        })

  receive-IsAdmitted :
      (now : ℕ) (db evicted : Db) (found : Option Receipt)
      → find_where (is_receipt input.connector_id input.event_id) evicted.receipts ≡ found
      → Ensures
          (λ r db'. is_admission r ≡ true → IsAdmitted now evicted r db')
          (receive options now pages input authorize new_run_id db evicted found)
  unfolding receive replay
  receive-IsAdmitted now db evicted none e =
      admit-IsAdmitted now db evicted (find_where-none _ evicted.receipts e)
  receive-IsAdmitted now db evicted (some i) e =
      Ensures-attempt _ db _ (λ _ _ h. cc)
        λ _ _.
          Ensures-attempt _ evicted _ (λ _ _ h. cc)
            λ _ _. Ensures-attempt _ db _ (λ _ _ h. cc) λ _ _. Ensures-pair _ evicted (λ h. cc)

  ingest-IsAdmitted :
      (db : Db)
      → Ensures
          (λ r db'.
            is_admission r ≡ true
            → IsAdmitted clock (evict_inbound_receipts options input.connector_id clock db) r db')
          (ingest_text_run options clock pages input authorize new_run_id db)
  unfolding ingest_text_run
  ingest-IsAdmitted db =
      Ensures-attempt _ db _ (λ _ _ h. cc)
        λ now valid. rw (now_millis→≡ clock now (>>-ok_right (validate_ingest input) _ valid)) (
          receive-IsAdmitted clock db (evict_inbound_receipts options input.connector_id clock db) _
            refl)

  -- The checks that an ingest has passed when it reports a newly created Run.
  pub admission_lem :
      (db : Db)
      → is_admission (ingest_text_run options clock pages input authorize new_run_id db).0 ≡ true
      → IsAdmitted clock
          (evict_inbound_receipts options input.connector_id clock db)
          (ingest_text_run options clock pages input authorize new_run_id db).0
          (ingest_text_run options clock pages input authorize new_run_id db).1
  admission_lem db h = (ingest-IsAdmitted db).holds h

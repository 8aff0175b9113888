-- ===== src/CoreStore/Admission/Limits.antt =====
-- What IngestTextRun leaves when it creates a Run: the limits hold in the new database.
use harness_security_gateway.Prelude.{
  ℕ, ◌+◌, ◌*◌, ◌≤◌, ◌<◌, ◌≡◌, refl, sym, ◌∙◌, ◌⊎◌, inl, inr, Bool, true, false, not, ◌&&◌, ◌||◌,
  none, some, List, [], ◌∷◌, arith, leb, ltb, ◌==◌, leb→le, ltb→lt, Bool-cases, if◌then◌else◌,
}
use harness_security_gateway.Prelude.Bytes.{Bytes, beq, beq_refl, length}
use harness_security_gateway.Prelude.Results.{Result, ok, guard-true, guard-passed}
use harness_security_gateway.Prelude.Tables.{count_where, exists_where, insert_row}
use harness_security_gateway.Prelude.Tables.Laws.{
  find_where-not-exists, count_where-insert, count_where-not-exists, find_where-insert,
}
use harness_security_gateway.CoreStore.Types.{
  Error, event_expired, quota_exceeded, AdmissionOptions, IngestTextRunInput, TextRunAuthorization,
  IngestResult, Run, Db, is_queued, is_nonterminal,
}
use harness_security_gateway.CoreStore.Validate.{max_int64}
use harness_security_gateway.CoreStore.Options.{millisecond}
use harness_security_gateway.CoreStore.Tables.{has_id, find_run, holds_scope, in_scope, scope_of}
use harness_security_gateway.CoreStore.Evict.{horizon_of, cutoff_of, evict_inbound_receipts}
use harness_security_gateway.CoreStore.Ingest.{
  Pages, is_receipt, ingest_text_run, check_fresh, check_inbound_capacity, session_scope_busy?,
  new_receipt, scope_of_input, outstanding_of, retained_input_bytes, insert_admitted, new_run,
}
use harness_security_gateway.CoreStore.Admission.{is_admission, admission_lem}

-- The times that check_fresh lets pass.
record IsTimely (options : AdmissionOptions) (now horizon occurred : ℕ) : Type 0 where
  not_future : occurred * millisecond ≤ now * millisecond + options.future_skew
  in_window : now * millisecond < (occurred + 1) * millisecond + options.accept_window
  above_horizon : horizon < occurred

check_fresh-IsTimely :
    (options : AdmissionOptions) (now horizon occurred : ℕ)
    → check_fresh options now horizon occurred ≡ ok tt
    → IsTimely options now horizon occurred
unfolding check_fresh
check_fresh-IsTimely options now horizon occurred h =
    let (early, h1) = guard-passed (leb _ max_int64 && leb occurred _) event_expired _ h in
    let (above, h2) = guard-passed (ltb horizon occurred) event_expired _ h1 in
    let late = guard-true (leb (cutoff_of now options.accept_window) occurred) event_expired h2 in
    record {
      not_future = ground arith;
      in_window = ground arith;
      above_horizon = ltb→lt horizon occurred above;
    }

-- The room that checkInboundCapacity finds for one event more.
record HasRoom (options : AdmissionOptions) (pages : Pages) (connector : Bytes) (bytes : ℕ)
    (db : Db) : Type 0 where
  receipts : count_where (λ i. beq i.connector_id connector) db.receipts < options.max_receipts
  queued_runs :
      count_where (λ r. beq r.connector_id connector && is_queued r.state) db.runs
      < options.max_queued_runs
  nonterminal_runs :
      count_where (λ r. beq r.connector_id connector && is_nonterminal r.state) db.runs
      < options.max_nonterminal_runs
  deliveries : outstanding_of connector db < options.max_pending_deliveries
  input_bytes : retained_input_bytes connector db.runs + bytes ≤ options.max_retained_input_bytes
  space : (pages.page_count < options.max_database_pages) ⊎ (0 < pages.free_pages)

free_space :
    (pages : Pages) (limit : ℕ)
    → (ltb pages.page_count limit || not (pages.free_pages == 0)) ≡ true
    → (pages.page_count < limit) ⊎ (0 < pages.free_pages)
free_space pages limit h = elim (Bool-cases (ltb pages.page_count limit)) [
  | inl e ↦ inl (ltb→lt pages.page_count limit e)
  | inr e ↦ inr (ground arith)
]

check_inbound_capacity-HasRoom :
    (options : AdmissionOptions) (pages : Pages) (connector : Bytes) (bytes : ℕ) (db : Db)
    → check_inbound_capacity options pages connector bytes db ≡ ok tt
    → HasRoom options pages connector bytes db
unfolding check_inbound_capacity
check_inbound_capacity-HasRoom options pages connector bytes db h =
    let (receipts, h1) = guard-passed (ltb _ options.max_receipts) quota_exceeded _ h in
    let (queued_runs, h2) = guard-passed (ltb _ options.max_queued_runs) quota_exceeded _ h1 in
    let (nonterminal, h3) = guard-passed (ltb _ options.max_nonterminal_runs) quota_exceeded _ h2 in
    let (deliveries, h4) =
      guard-passed (ltb (outstanding_of connector db) options.max_pending_deliveries) quota_exceeded
        _ h3 in
    let (input_bytes, h5) =
      guard-passed (leb _ options.max_retained_input_bytes) quota_exceeded _ h4 in
    record {
      receipts = ltb→lt _ _ receipts;
      queued_runs = ltb→lt _ _ queued_runs;
      nonterminal_runs = ltb→lt _ _ nonterminal;
      deliveries = ltb→lt _ _ deliveries;
      input_bytes = leb→le _ _ input_bytes;
      space = free_space pages options.max_database_pages (guard-true _ quota_exceeded h5);
    }

retained_input_bytes-insert :
    (connector : Bytes) (r : Run) (runs : List Run)
    → r.connector_id ≡ connector
    → retained_input_bytes connector (insert_row r runs)
      ≡ retained_input_bytes connector runs + length r.input_text
unfolding retained_input_bytes insert_row
retained_input_bytes-insert connector r [] same = rw (same, beq_refl connector) (omega arith)
retained_input_bytes-insert connector r (x ∷ runs) same =
    omega (arith, retained_input_bytes-insert connector r runs same)

-- What an ingest that created a Run leaves in `db'`; `evicted` is the database after its eviction.
module _ (options : AdmissionOptions) (clock : ℕ) (pages : Pages) (input : IngestTextRunInput)
    (authorize : Result Error TextRunAuthorization) (new_run_id : Result Error Bytes) where
  pub record IsWithinLimits (evicted : Db) (r : Result Error IngestResult) (db' : Db) : Type 0 where
    pub authorization : TextRunAuthorization
    pub id : Bytes
    pub authorized : authorize ≡ ok authorization
    pub identified : new_run_id ≡ ok id
    pub answered : r ≡ ok (record { run = new_run input authorization id clock; duplicate = false })
    pub stored : find_run id db'.runs ≡ some (new_run input authorization id clock)
    pub others : (k : Bytes) → beq id k ≡ false → find_run k db'.runs ≡ find_run k evicted.runs
    pub one_row : count_where (has_id id) db'.runs ≡ 1
    pub one_receipt : count_where (is_receipt input.connector_id input.event_id) db'.receipts ≡ 1
    pub alone :
        count_where (holds_scope (scope_of (new_run input authorization id clock))) db'.runs ≡ 1
    pub not_future : input.occurred_at * millisecond ≤ clock * millisecond + options.future_skew
    pub in_window :
        clock * millisecond < (input.occurred_at + 1) * millisecond + options.accept_window
    pub above_horizon : horizon_of input.connector_id db'.horizons < input.occurred_at
    pub receipts :
        count_where (λ i. beq i.connector_id input.connector_id) db'.receipts ≤ options.max_receipts
    pub queued_runs :
        count_where (λ r. beq r.connector_id input.connector_id && is_queued r.state) db'.runs
        ≤ options.max_queued_runs
    pub nonterminal_runs :
        count_where (λ r. beq r.connector_id input.connector_id && is_nonterminal r.state) db'.runs
        ≤ options.max_nonterminal_runs
    pub deliveries : outstanding_of input.connector_id evicted < options.max_pending_deliveries
    pub input_bytes :
        retained_input_bytes input.connector_id db'.runs ≤ options.max_retained_input_bytes
    pub space : (pages.page_count < options.max_database_pages) ⊎ (0 < pages.free_pages)

  inserted_once :
      {A : Type 0} (p : A → Bool) (x : A) (xs : List A)
      → exists_where p xs ≡ false
      → p x ≡ true
      → count_where p (insert_row x xs) ≡ 1
  inserted_once p x xs none_before passes =
      count_where-insert p x xs ∙ rw (count_where-not-exists p xs none_before, passes) refl

  inserted_within :
      {A : Type 0} (p : A → Bool) (x : A) (xs : List A) (limit : ℕ)
      → count_where p xs < limit
      → count_where p (insert_row x xs) ≤ limit
  inserted_within p x xs limit room = rw (count_where-insert p x xs) (ground (arith, room))

  inserted-found :
      (a : TextRunAuthorization) (id : Bytes) (evicted : Db)
      → exists_where (has_id id) evicted.runs ≡ false
      → find_run id (insert_admitted input a id clock evicted).runs
        ≡ some (new_run input a id clock)
  unfolding find_run has_id
  inserted-found a id evicted fresh =
      find_where-insert (has_id id) (new_run input a id clock) evicted.runs
      ∙ rw (fresh, beq_refl id) refl

  inserted-others :
      (a : TextRunAuthorization) (id : Bytes) (evicted : Db) (k : Bytes)
      → beq id k ≡ false
      → find_run k (insert_admitted input a id clock evicted).runs ≡ find_run k evicted.runs
  unfolding find_run has_id
  inserted-others a id evicted k n =
      find_where-insert (has_id k) (new_run input a id clock) evicted.runs
      ∙ rw n (missing (exists_where (has_id k) evicted.runs) refl)
    where
      missing :
          (b : Bool)
          → exists_where (has_id k) evicted.runs ≡ b
          → (if b then find_run k evicted.runs else none) ≡ find_run k evicted.runs
      missing true e = refl
      missing false e = sym (find_where-not-exists (has_id k) evicted.runs e)

  holds_own_scope :
      (a : TextRunAuthorization) (id : Bytes)
      → holds_scope (scope_of (new_run input a id clock)) (new_run input a id clock) ≡ true
  unfolding holds_scope in_scope
  holds_own_scope a id =
      rw
        (
          beq_refl a.binding_fingerprint,
          beq_refl input.connector_id,
          beq_refl input.actor_ref,
          beq_refl input.conversation_ref,
          beq_refl a.target_id,
          beq_refl a.target_revision,
        )
        refl

  scope_free :
      (a : TextRunAuthorization) (id : Bytes) (evicted : Db)
      → session_scope_busy? input a evicted ≡ false
      → exists_where (holds_scope (scope_of (new_run input a id clock))) evicted.runs ≡ false
  unfolding session_scope_busy? scope_of_input
  scope_free a id evicted h = h

  is_own_receipt :
      (id : Bytes)
      → is_receipt input.connector_id input.event_id (new_receipt input id clock) ≡ true
  unfolding is_receipt
  is_own_receipt id = rw (beq_refl input.connector_id, beq_refl input.event_id) refl

  -- When an ingest reports a newly created Run, every limit holds of the database that it leaves: the
  -- event is not in the future by more than the skew, inside the accept window (to the millisecond)
  -- and above the connector's replay horizon; the receipts, queued Runs, nonterminal Runs and retained
  -- input bytes of the connector, the new ones included, are within their quotas, its outstanding
  -- deliveries after the eviction are below theirs, and the database had a page left. The answer is the
  -- queued Run of exactly the policy's authorization under the generated identifier. That Run is stored,
  -- it alone has its identifier and it alone holds its session scope, the event has exactly one
  -- receipt, and any other identifier finds what it found after the eviction.
  pub admission-IsWithinLimits :
      (db : Db)
      → is_admission (ingest_text_run options clock pages input authorize new_run_id db).0 ≡ true
      → IsWithinLimits
          (evict_inbound_receipts options input.connector_id clock db)
          (ingest_text_run options clock pages input authorize new_run_id db).0
          (ingest_text_run options clock pages input authorize new_run_id db).1
  unfolding has_id
  admission-IsWithinLimits db h =
      let a = admission_lem options clock pages input authorize new_run_id db h in
      let evicted = evict_inbound_receipts options input.connector_id clock db in
      let run = new_run input a.authorization a.id clock in
      let time =
        check_fresh-IsTimely options clock (horizon_of input.connector_id evicted.horizons)
          input.occurred_at a.fresh in
      let room =
        check_inbound_capacity-HasRoom options pages input.connector_id (length input.text) evicted
          a.capacity in
      rw a.inserted (record {
        authorization = a.authorization;
        id = a.id;
        authorized = a.authorized;
        identified = a.identified;
        answered = a.result;
        stored = inserted-found a.authorization a.id evicted a.new_id;
        others = inserted-others a.authorization a.id evicted;
        one_row = inserted_once (has_id a.id) run evicted.runs a.new_id (beq_refl a.id);
        one_receipt =
            inserted_once (is_receipt input.connector_id input.event_id)
              (new_receipt input a.id clock) evicted.receipts a.unseen (is_own_receipt a.id);
        alone =
            inserted_once (holds_scope (scope_of run)) run evicted.runs
              (scope_free a.authorization a.id evicted a.free)
              (holds_own_scope a.authorization a.id);
        not_future = time.not_future;
        in_window = time.in_window;
        above_horizon = time.above_horizon;
        receipts =
            inserted_within (λ i. beq i.connector_id input.connector_id)
              (new_receipt input a.id clock) evicted.receipts options.max_receipts room.receipts;
        queued_runs =
            inserted_within (λ r. beq r.connector_id input.connector_id && is_queued r.state) run
              evicted.runs options.max_queued_runs room.queued_runs;
        nonterminal_runs =
            inserted_within (λ r. beq r.connector_id input.connector_id && is_nonterminal r.state)
              run evicted.runs options.max_nonterminal_runs room.nonterminal_runs;
        deliveries = room.deliveries;
        input_bytes =
            rw (retained_input_bytes-insert input.connector_id run evicted.runs refl)
              room.input_bytes;
        space = room.space;
      })

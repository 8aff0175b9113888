-- ===== src/CoreStore/Invariant/PreservedOutbox.antt =====
-- The outbox operations and the offline session reset keep a well-formed database.
use harness_security_gateway.Prelude.{
  ℕ, suc, ◌≡◌, refl, false, Option, none, some, List, [], ◌∷◌, arith,
}
use harness_security_gateway.Prelude.Bytes.{Bytes, beq}
use harness_security_gateway.Prelude.Results.{Result, ok, >>=-eq-ok, >>-ok_right, ok-injective}
use harness_security_gateway.Prelude.Tables.{find_where, exists_where, update_where, All}
use harness_security_gateway.Prelude.Tables.Laws.{find_where-and, All-update_same}
use harness_security_gateway.CoreStore.Types.{
  DeliveryOutcome, Error, Run, Delivery, DeliveryState, TextDelivery, Db, CompleteDeliveryInput,
  SessionKey, Session, leased,
}
use harness_security_gateway.CoreStore.Validate.{validate_completion, validate_outcome}
use harness_security_gateway.CoreStore.Tables.{owned_by}
use harness_security_gateway.CoreStore.Tables.Keeps.{Keeps, Keeps-attempt, Keeps-if, Keeps-pair}
use harness_security_gateway.CoreStore.Outbox.{
  lease_each, lease_row, claim_text_deliveries, leasable, lease_to, expired_lease, release_lease,
  token_taken, has_delivery_id,
}
use harness_security_gateway.CoreStore.Completion.{
  complete_delivery, complete_by_state, completion, retry_time,
}
use harness_security_gateway.CoreStore.Maintenance.{reset_session, reset_found}
use harness_security_gateway.CoreStore.Invariant.{IsWellFormed, IsDeliveryTable, Refers}
use harness_security_gateway.CoreStore.Invariant.Outbox.{
  release_lease-IsDeliveryTable, lease_to-IsDeliveryTable, completion-IsDeliveryTable,
}
use harness_security_gateway.CoreStore.Invariant.Keys.{delete_session-HasKeys}
use harness_security_gateway.CoreStore.Invariant.Operations.{or_error-some}

-- The deliveries of a well-formed database may be replaced by a valid table of known Runs.
abbrev IsOutbox : List Run → List Delivery → Type 0
IsOutbox runs ds = IsDeliveryTable ds × All (λ d. Refers runs d.run_id) ds

replace-IsWellFormed :
    (db : Db) (ds : List Delivery)
    → IsWellFormed db
    → IsOutbox db.runs ds
    → IsWellFormed (record db { deliveries = ds })
replace-IsWellFormed db ds w o = record {
  runs_ok = w.runs_ok;
  deliveries_ok = o.0;
  receipts_ok = w.receipts_ok;
  references = record { of_receipts = w.references.of_receipts; of_deliveries = o.1 };
  keys_ok = w.keys_ok;
}

lease_row-IsOutbox :
    (connector : Bytes) (expires now : ℕ) (runs : List Run) (token id : Bytes) (ds : List Delivery)
    (one : TextDelivery × List Delivery)
    → lease_row connector expires now runs token id ds ≡ ok one
    → IsOutbox runs ds
    → IsOutbox runs one.1
unfolding lease_row
lease_row-IsOutbox connector expires now runs token id ds one h o =
    let unused : exists_where (token_taken token id) ds ≡ false = ground arith in
    let updated : update_where (leasable connector runs id) (lease_to token expires now) ds
        ≡ one.1 =
      ground arith in
    rw (← updated) (
      lease_to-IsDeliveryTable connector runs id token expires now ds unused o.0,
      All-update_same (λ d. Refers runs d.run_id) (leasable connector runs id)
          (lease_to token expires now) ds (λ d _ r. r) o.1,
    )

lease_each-IsOutbox :
    (connector : Bytes) (expires now : ℕ) (runs : List Run) (tokens : ℕ → Result Error Bytes)
    (n : ℕ) (rows ds : List Delivery) (out : List TextDelivery × List Delivery)
    → lease_each connector expires now runs tokens n rows ds ≡ ok out
    → IsOutbox runs ds
    → IsOutbox runs out.1
unfolding lease_each
lease_each-IsOutbox connector expires now runs tokens n [] ds out h o = rw (← ok-injective h) o
lease_each-IsOutbox connector expires now runs tokens n (row ∷ rest) ds out h o =
    let (token, _, h₁) = >>=-eq-ok (tokens n) _ h in
    let (one, e, h₂) = >>=-eq-ok (lease_row connector expires now runs token row.id ds) _ h₁ in
    let (more, e', h₃) =
      >>=-eq-ok (lease_each connector expires now runs tokens (suc n) rest one.1) _ h₂ in
    rw (← ok-injective h₃) (
      lease_each-IsOutbox connector expires now runs tokens (suc n) rest one.1 more e'
        (lease_row-IsOutbox connector expires now runs token row.id ds one e o))

pub claim_text_deliveries-IsWellFormed :
    (connector : Bytes) (limit lease clock : ℕ) (tokens : ℕ → Result Error Bytes) (db : Db)
    → IsWellFormed db
    → Keeps IsWellFormed (claim_text_deliveries connector limit lease clock tokens db)
unfolding claim_text_deliveries
claim_text_deliveries-IsWellFormed connector limit lease clock tokens db w =
    Keeps-attempt _ db _ w λ _ _. Keeps-attempt _ db _ w λ _ _. Keeps-attempt _ db _ w λ now _.
      Keeps-attempt _ db _ w λ expires _. Keeps-attempt _ db _ w λ claimed leased. Keeps-pair _ _ (
        replace-IsWellFormed db claimed.1 w (
          lease_each-IsOutbox connector expires now db.runs tokens 0 _ _ claimed leased (
            release_lease-IsDeliveryTable connector db.runs now db.deliveries w.deliveries_ok,
            All-update_same (λ d. Refers db.runs d.run_id) (expired_lease connector db.runs now)
                (release_lease now) db.deliveries (λ d _ r. r) w.references.of_deliveries,
          )))

keeps_run :
    (retry_delay now : ℕ) (input : CompleteDeliveryInput) (d : Delivery) (o : DeliveryOutcome)
    (change : Delivery → Delivery)
    → completion retry_delay now input d o ≡ ok change
    → (x : Delivery) → (change x).run_id ≡ x.run_id
unfolding completion
keeps_run retry_delay now input d DeliveryOutcome.delivered change h x = rw (← ok-injective h)
keeps_run retry_delay now input d DeliveryOutcome.retry change h x =
    let (at, _, h') = >>=-eq-ok (retry_time retry_delay now d.attempt_count) _ h in
    rw (← ok-injective h')
keeps_run retry_delay now input d DeliveryOutcome.permanent_failure change h x =
    rw (← ok-injective h)
keeps_run retry_delay now input d DeliveryOutcome.unsupported change h x = rw (← ok-injective h)

complete_by_state-IsWellFormed :
    (retry_delay now : ℕ) (input : CompleteDeliveryInput) (d : Delivery) (db : Db)
    (state : DeliveryState)
    → validate_outcome input.outcome input ≡ ok tt
    → find_where (has_delivery_id input.delivery_id) db.deliveries ≡ some d
    → d.state ≡ state
    → IsWellFormed db
    → Keeps IsWellFormed (complete_by_state retry_delay now input d db state)
unfolding complete_by_state
complete_by_state-IsWellFormed retry_delay now input d db leased valid found state w =
    Keeps-attempt _ db _ w λ _ _. Keeps-attempt _ db _ w λ change h. Keeps-pair _ _ (
      replace-IsWellFormed db _ w (
        completion-IsDeliveryTable retry_delay now input d input.outcome change db.deliveries h
            valid found state w.deliveries_ok,
        All-update_same (λ x. Refers db.runs x.run_id) (has_delivery_id input.delivery_id) change
            db.deliveries
            (λ x _ r. rw (keeps_run retry_delay now input d input.outcome change h x) r)
            w.references.of_deliveries,
      ))
complete_by_state-IsWellFormed retry_delay now input d db DeliveryState.pending valid found state
      w =
    Keeps-attempt _ db _ w λ _ _. Keeps-pair _ db w
complete_by_state-IsWellFormed retry_delay now input d db DeliveryState.delivered valid found state
      w =
    Keeps-attempt _ db _ w λ _ _. Keeps-pair _ db w
complete_by_state-IsWellFormed retry_delay now input d db DeliveryState.permanent_failed valid found
      state w =
    Keeps-attempt _ db _ w λ _ _. Keeps-pair _ db w

completion_outcome :
    (input : CompleteDeliveryInput) (u : Unit {0})
    → validate_completion input ≡ ok u
    → validate_outcome input.outcome input ≡ ok tt
unfolding validate_completion
completion_outcome input tt h = >>-ok_right _ (validate_outcome input.outcome input) h

pub complete_delivery-IsWellFormed :
    (retry_delay clock : ℕ) (input : CompleteDeliveryInput) (db : Db)
    → IsWellFormed db
    → Keeps IsWellFormed (complete_delivery retry_delay clock input db)
unfolding complete_delivery
complete_delivery-IsWellFormed retry_delay clock input db w = Keeps-attempt _ db _ w λ now _.
    Keeps-attempt _ db _ w λ u valid. Keeps-attempt _ db _ w λ d found.
      Keeps-attempt _ db _ w λ _ _.
        complete_by_state-IsWellFormed retry_delay now input d db d.state
          (completion_outcome input u valid)
          (find_where-and (has_delivery_id input.delivery_id) (owned_by input.connector_id db.runs)
            db.deliveries d (w.deliveries_ok.ids input.delivery_id) (or_error-some _ _ d found))
          refl w

reset_found-IsWellFormed :
    (key : SessionKey) (expected : Bytes) (db : Db) (session : Option Session)
    → IsWellFormed db
    → Keeps IsWellFormed (reset_found key expected db session)
unfolding reset_found
reset_found-IsWellFormed key expected db none w = Keeps-pair _ db w
reset_found-IsWellFormed key expected db (some s) w =
    Keeps-if (beq s.ref expected) _ _
      (λ _. Keeps-attempt _ db _ w λ _ _. Keeps-pair _ _ (record {
        runs_ok = w.runs_ok;
        deliveries_ok = w.deliveries_ok;
        receipts_ok = w.receipts_ok;
        references = record {
          of_receipts = w.references.of_receipts;
          of_deliveries = w.references.of_deliveries;
        };
        keys_ok = delete_session-HasKeys db.sessions db.horizons w.keys_ok _;
      }))
      (λ _. Keeps-pair _ db w)

pub reset_session-IsWellFormed :
    (key : SessionKey) (expected : Bytes) (db : Db)
    → IsWellFormed db
    → Keeps IsWellFormed (reset_session key expected db)
unfolding reset_session
reset_session-IsWellFormed key expected db w =
    Keeps-attempt _ db _ w
      λ _ _. Keeps-attempt _ db _ w λ _ _. reset_found-IsWellFormed key expected db _ w

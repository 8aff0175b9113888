-- ===== src/CoreStore/Invariant/References.antt =====
-- The foreign keys hold after each change of a table, eviction included.
use harness_security_gateway.Prelude.{ℕ, ◌≡◌, ◌∙◌, Bool, true, false, List, arith}
use harness_security_gateway.Prelude.Bytes.{Bytes, beq, beq_refl, beq_comm}
use harness_security_gateway.Prelude.Tables.{exists_where, update_where, delete_where, insert_row}
use harness_security_gateway.Prelude.Tables.Laws.{
  exists_where-update, exists_where-insert, exists_where-delete, All-map, All-both, All-delete,
  All-exists, All-insert, count_where-delete_le,
}
use harness_security_gateway.CoreStore.Types.{
  Run, Db, AdmissionOptions, IngestTextRunInput, TextRunAuthorization,
}
use harness_security_gateway.CoreStore.Tables.{has_id}
use harness_security_gateway.CoreStore.Evict.{
  evict_inbound_receipts, evictable, compactable_delivery, compactable_run, forgotten, horizon_of,
  advance_horizon, cutoff_of,
}
use harness_security_gateway.CoreStore.Ingest.{is_receipt, insert_admitted, new_run, new_receipt}
use harness_security_gateway.CoreStore.Invariant.Keys.{advance_horizon-HasKeys}
use harness_security_gateway.CoreStore.Invariant.{Refers, HasReferences, IsWellFormed, records_run}
use harness_security_gateway.CoreStore.Invariant.Runs.{delete-IsRunTable}
use harness_security_gateway.CoreStore.Invariant.Outbox.{delete-IsDeliveryTable}

abbrev IsThere : {A : Type 0} → List A → A → Type 0
IsThere {A} xs x = (p : A → Bool) → p x ≡ true → exists_where p xs ≡ true

-- Updates of Runs that keep identifiers.
pub update-HasReferences :
    (q : Run → Bool) (f : Run → Run) (db : Db)
    → ((x : Run) → (f x).id ≡ x.id)
    → HasReferences db
    → HasReferences (record db { runs = update_where q f db.runs })
unfolding has_id
update-HasReferences q f db same h = record {
  of_receipts =
      All-map (λ i. Refers db.runs i.run_id) (λ i. Refers (update_where q f db.runs) i.run_id)
        db.receipts (λ i e. step i.run_id e) h.of_receipts;
  of_deliveries =
      All-map (λ d. Refers db.runs d.run_id) (λ d. Refers (update_where q f db.runs) d.run_id)
        db.deliveries (λ d e. step d.run_id e) h.of_deliveries;
}
  where
    step : (id : Bytes) → Refers db.runs id → Refers (update_where q f db.runs) id
    step id e = rw (exists_where-update (has_id id) q f db.runs (λ x. rw (same x))) e

-- A deletion of Runs that no remaining receipt or delivery refers to.
pub delete-HasReferences :
    (q : Run → Bool) (db : Db)
    → ((r : Run) → exists_where (λ i. beq i.run_id r.id) db.receipts ≡ true → q r ≡ false)
    → ((r : Run) → exists_where (λ d. beq d.run_id r.id) db.deliveries ≡ true → q r ≡ false)
    → HasReferences db
    → HasReferences (record db { runs = delete_where q db.runs })
unfolding has_id
delete-HasReferences q db spared_i spared_d h = record {
  of_receipts =
      All-map (λ i. Refers db.runs i.run_id × IsThere db.receipts i)
        (λ i. Refers (delete_where q db.runs) i.run_id) db.receipts
        (λ i h. kept i.run_id h.0 (λ r m. spared_i r (h.1 _ m)))
        (All-both (λ i. Refers db.runs i.run_id) (IsThere db.receipts) db.receipts h.of_receipts
          (All-exists db.receipts));
  of_deliveries =
      All-map (λ d. Refers db.runs d.run_id × IsThere db.deliveries d)
        (λ d. Refers (delete_where q db.runs) d.run_id) db.deliveries
        (λ d h. kept d.run_id h.0 (λ r m. spared_d r (h.1 _ m)))
        (All-both (λ d. Refers db.runs d.run_id) (IsThere db.deliveries) db.deliveries
          h.of_deliveries (All-exists db.deliveries));
}
  where
    kept :
        (id : Bytes)
        → Refers db.runs id
        → ((r : Run) → beq id r.id ≡ true → q r ≡ false)
        → Refers (delete_where q db.runs) id
    kept id e spared =
        rw (exists_where-delete (has_id id) q db.runs (λ r m. spared r (beq_comm id r.id ∙ m))) e

pub evict-IsWellFormed :
    (options : AdmissionOptions) (connector : Bytes) (now : ℕ) (db : Db)
    → IsWellFormed db
    → IsWellFormed (evict_inbound_receipts options connector now db)
unfolding evict_inbound_receipts
evict-IsWellFormed options connector now db w =
    let horizons = advance_horizon connector (cutoff_of now options.receipt_window) db.horizons in
    let old = evictable connector (horizon_of connector horizons) in
    let receipts = delete_where old db.receipts in
    let settled = compactable_delivery connector receipts db.runs in
    let deliveries = delete_where settled db.deliveries in
    record {
      runs_ok = delete-IsRunTable (compactable_run connector receipts deliveries) db.runs w.runs_ok;
      deliveries_ok = delete-IsDeliveryTable settled db.deliveries w.deliveries_ok;
      receipts_ok = record {
        keys = λ c e.
            omega (
              arith,
              count_where-delete_le (is_receipt c e) old db.receipts,
              w.receipts_ok.keys c e,
            );
        run_ids = λ id. omega (
          arith,
          count_where-delete_le (records_run id) old db.receipts,
          w.receipts_ok.run_ids id,
        );
      };
      references =
          delete-HasReferences (compactable_run connector receipts deliveries)
            (record db { horizons = horizons; receipts = receipts; deliveries = deliveries })
            (λ r e. unfold compactable_run forgotten in ground arith)
            (λ r e. unfold compactable_run forgotten in ground arith)
            (record {
              of_receipts =
                  All-delete (λ i. Refers db.runs i.run_id) old db.receipts
                    w.references.of_receipts;
              of_deliveries =
                  All-delete (λ d. Refers db.runs d.run_id) settled db.deliveries
                    w.references.of_deliveries;
            });
      keys_ok = advance_horizon-HasKeys db.sessions db.horizons w.keys_ok connector _;
    }

-- An admitted Run and its receipt.
pub insert_admitted-HasReferences :
    (input : IngestTextRunInput) (a : TextRunAuthorization) (id : Bytes) (now : ℕ) (db : Db)
    → HasReferences db
    → HasReferences (insert_admitted input a id now db)
unfolding has_id
insert_admitted-HasReferences input a id now db h = record {
  of_receipts =
      All-insert (λ i. Refers runs i.run_id) (new_receipt input id now) db.receipts
        (rw exists_where-insert (ground (arith, beq_refl id)))
        (All-map (λ i. Refers db.runs i.run_id) (λ i. Refers runs i.run_id) db.receipts
          (λ i e. grown i.run_id e) h.of_receipts);
  of_deliveries =
      All-map (λ d. Refers db.runs d.run_id) (λ d. Refers runs d.run_id) db.deliveries
        (λ d e. grown d.run_id e) h.of_deliveries;
}
  where
    runs : List Run
    runs = insert_row (new_run input a id now) db.runs

    grown : (key : Bytes) → Refers db.runs key → Refers runs key
    grown key e = rw exists_where-insert (ground arith)

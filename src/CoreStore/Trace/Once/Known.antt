-- ===== src/CoreStore/Trace/Once/Known.antt =====
-- An admitted event stays known: eviction forgets a receipt only behind the replay horizon.
use mathlib.Core.Bool.{false≢true}
use harness_security_gateway.Prelude.{
  ℕ, ◌≤◌, ◌<◌, ◌≡◌, sym, ◌∙◌, ap, ◌⊎◌, inl, inr, Bool, true, false, ◌&&◌, Option, none, some, List,
  [], ◌∷◌, arith, Bool-cases, leb, ◌==◌, leb→le,
}
use harness_security_gateway.Prelude.Bytes.{Bytes, beq, beq→≡}
use harness_security_gateway.Prelude.Results.{Result, ok}
use harness_security_gateway.Prelude.Tables.{exists_where}
use harness_security_gateway.Prelude.Tables.Laws.{
  exists_where-narrow, exists_where-delete, exists_where-insert,
}
use harness_security_gateway.CoreStore.Types.{
  Error, AdmissionOptions, IngestTextRunInput, TextRunAuthorization, Receipt, Horizon, Db,
}
use harness_security_gateway.CoreStore.Tables.Keeps.{Keeps, Keeps-attempt, Keeps-pair}
use harness_security_gateway.CoreStore.Evict.{
  advance_horizon, horizon_of, cutoff_of, evictable, evict_inbound_receipts,
}
use harness_security_gateway.CoreStore.Ingest.{
  Pages, is_receipt, ingest_text_run, receive, admit, replay, check_fresh, insert_admitted,
}
use harness_security_gateway.CoreStore.Trace.{
  Op, Options, step, run_ops, ingest, claim_run, prepare_start, mark_running, finish,
  claim_deliveries, complete, reset,
}
use harness_security_gateway.CoreStore.Trace.Inbox.{
  SameInbox, claim_queued_run-SameInbox, prepare_run_start-SameInbox, mark_run_running-SameInbox,
  finish_run-SameInbox, claim_text_deliveries-SameInbox, complete_delivery-SameInbox,
  reset_session-SameInbox,
}

-- The replay horizon of a connector never moves back.
horizon_of-advance :
    (c c' : Bytes) (cutoff : ℕ) (hs : List Horizon)
    → horizon_of c hs ≤ horizon_of c (advance_horizon c' cutoff hs)
unfolding horizon_of advance_horizon
horizon_of-advance c c' cutoff [] = omega arith
horizon_of-advance c c' cutoff (h ∷ hs) = ground (arith, horizon_of-advance c c' cutoff hs)

-- The receipt of the event, at its time of occurrence.
abbrev pub recorded : Bytes → Bytes → ℕ → Receipt → Bool
recorded c e t i = is_receipt c e i && i.occurred_at == t

-- An event is known while its receipt is retained, and stays known when the horizon has passed it.
pub record IsKnown (c e : Bytes) (t : ℕ) (db : Db) : Type 0 where
  pub known : (exists_where (recorded c e t) db.receipts ≡ true) ⊎ (t ≤ horizon_of c db.horizons)

pub fresh_above :
    (options : AdmissionOptions) (now horizon t : ℕ)
    → check_fresh options now horizon t ≡ ok tt
    → horizon < t
unfolding check_fresh
fresh_above options now horizon t h = ground arith

module _ (c e : Bytes) (t : ℕ) where
  -- Eviction spares the receipt of an event that the new horizon has not passed.
  spared :
      (c' : Bytes) (hs : List Horizon) (i : Receipt)
      → leb t (horizon_of c hs) ≡ false
      → recorded c e t i ≡ true
      → evictable c' (horizon_of c' hs) i ≡ false
  unfolding evictable is_receipt
  spared c' hs i ahead m = elim (Bool-cases (beq i.connector_id c')) [
    | inr other ↦ rw other
    | inl same ↦
        let from_c = beq→≡ i.connector_id c (ground arith) in
        let to_c' = beq→≡ i.connector_id c' same in
        let one : c ≡ c' = sym from_c ∙ to_c' in
        ground (arith, ap (λ (k : Bytes). horizon_of k hs) one)
  ]

  pub evict-IsKnown :
      (options : AdmissionOptions) (c' : Bytes) (now : ℕ) (db : Db)
      → IsKnown c e t db
      → IsKnown c e t (evict_inbound_receipts options c' now db)
  unfolding evict_inbound_receipts
  evict-IsKnown options c' now db k =
      let hs = advance_horizon c' (cutoff_of now options.receipt_window) db.horizons in
      elim (Bool-cases (leb t (horizon_of c hs))) [
        | inl passed ↦ record { known = inr (leb→le _ _ passed) }
        | inr ahead ↦ elim k.known [
          | inr h ↦ record {
            known = inr (
                omega (
                  arith,
                  h,
                  horizon_of-advance c c' (cutoff_of now options.receipt_window) db.horizons,
                ));
          }
          | inl here ↦ record {
            known = inl (
                exists_where-delete (recorded c e t) (evictable c' (horizon_of c' hs)) db.receipts
                  (λ i m. spared c' hs i ahead m)
                ∙ here);
          }
        ]
      ]

  same-IsKnown : (db db' : Db) → SameInbox db db' → IsKnown c e t db → IsKnown c e t db'
  same-IsKnown db db' s k = record { known = rw (s.receipts, s.horizons) k.known }

  insert-IsKnown :
      (input : IngestTextRunInput) (a : TextRunAuthorization) (id : Bytes) (now : ℕ) (db : Db)
      → IsKnown c e t db
      → IsKnown c e t (insert_admitted input a id now db)
  insert-IsKnown input a id now db k = elim k.known [
    | inl here ↦ record { known = inl (rw exists_where-insert (rw here)) }
    | inr passed ↦ record { known = inr passed }
  ]

  admit-IsKnown :
      (options : AdmissionOptions) (now : ℕ) (pages : Pages) (input : IngestTextRunInput)
      (authorize : Result Error TextRunAuthorization) (new_run_id : Result Error Bytes)
      (db evicted : Db)
      → IsKnown c e t db
      → IsKnown c e t evicted
      → Keeps (IsKnown c e t) (admit options now pages input authorize new_run_id db evicted)
  unfolding admit
  admit-IsKnown options now pages input authorize new_run_id db evicted k ke =
      Keeps-attempt _ evicted _ ke λ _ _. Keeps-attempt authorize evicted _ ke λ a _.
        Keeps-attempt _ db _ k λ _ _. Keeps-attempt _ evicted _ ke λ _ _.
          Keeps-attempt _ evicted _ ke λ _ _. Keeps-attempt new_run_id evicted _ ke λ id _.
            Keeps-attempt _ db _ k λ _ _. Keeps-attempt _ db _ k λ _ _.
              Keeps-attempt _ db _ k
                λ _ _. Keeps-pair _ _ (insert-IsKnown input a id now evicted ke)

  receive-IsKnown :
      (options : AdmissionOptions) (now : ℕ) (pages : Pages) (input : IngestTextRunInput)
      (authorize : Result Error TextRunAuthorization) (new_run_id : Result Error Bytes)
      (db evicted : Db) (found : Option Receipt)
      → IsKnown c e t db
      → IsKnown c e t evicted
      → Keeps
          (IsKnown c e t)
          (receive options now pages input authorize new_run_id db evicted found)
  unfolding receive replay
  receive-IsKnown options now pages input authorize new_run_id db evicted none k ke =
      admit-IsKnown options now pages input authorize new_run_id db evicted k ke
  receive-IsKnown options now pages input authorize new_run_id db evicted (some i) k ke =
      Keeps-attempt _ db _ k λ _ _.
        Keeps-attempt _ evicted _ ke λ _ _. Keeps-attempt _ db _ k λ _ _. Keeps-pair _ evicted ke

  ingest_text_run-IsKnown :
      (options : AdmissionOptions) (clock : ℕ) (pages : Pages) (input : IngestTextRunInput)
      (authorize : Result Error TextRunAuthorization) (new_run_id : Result Error Bytes) (db : Db)
      → IsKnown c e t db
      → Keeps (IsKnown c e t) (ingest_text_run options clock pages input authorize new_run_id db)
  unfolding ingest_text_run
  ingest_text_run-IsKnown options clock pages input authorize new_run_id db k =
      Keeps-attempt _ db _ k λ now _.
        receive-IsKnown options now pages input authorize new_run_id db _ _ k
          (evict-IsKnown options input.connector_id now db k)

  step-IsKnown : (o : Options) (op : Op) (db : Db) → IsKnown c e t db → IsKnown c e t (step o op db)
  unfolding step
  step-IsKnown o (ingest clock pages input authorize new_run_id) db k =
      (ingest_text_run-IsKnown o.admission clock pages input authorize new_run_id db k).after
  step-IsKnown o (claim_run lease clock new_token) db k =
      same-IsKnown db _ (claim_queued_run-SameInbox lease clock new_token db).after k
  step-IsKnown o (prepare_start clock input) db k =
      same-IsKnown db _ (prepare_run_start-SameInbox clock input db).after k
  step-IsKnown o (mark_running clock run_id token) db k =
      same-IsKnown db _ (mark_run_running-SameInbox clock run_id token db).after k
  step-IsKnown o (finish clock input reply) db k =
      same-IsKnown db _ (finish_run-SameInbox o.admission clock input reply db).after k
  step-IsKnown o (claim_deliveries connector limit lease clock tokens) db k =
      same-IsKnown db _
        (claim_text_deliveries-SameInbox connector limit lease clock tokens db).after k
  step-IsKnown o (complete clock input) db k =
      same-IsKnown db _ (complete_delivery-SameInbox o.retry_delay clock input db).after k
  step-IsKnown o (reset key expected) db k =
      same-IsKnown db _ (reset_session-SameInbox key expected db).after k

  pub run_ops-IsKnown :
      (o : Options) (ops : List Op) (db : Db) → IsKnown c e t db → IsKnown c e t (run_ops o ops db)
  unfolding run_ops
  run_ops-IsKnown o [] db k = k
  run_ops-IsKnown o (op ∷ ops) db k = run_ops-IsKnown o ops (step o op db) (step-IsKnown o op db k)

  -- The events that an ingest of a known event meets: no receipt means a passed horizon.
  pub unseen-passed :
      (db : Db)
      → exists_where (is_receipt c e) db.receipts ≡ false
      → IsKnown c e t db
      → t ≤ horizon_of c db.horizons
  unseen-passed db unseen k = elim k.known [
    | inr passed ↦ passed
    | inl here ↦ absurd (
        false≢true (
          sym (exists_where-narrow (is_receipt c e) (λ i. i.occurred_at == t) db.receipts unseen)
          ∙ here))
  ]

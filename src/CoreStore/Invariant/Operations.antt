-- ===== src/CoreStore/Invariant/Operations.antt =====
-- Every operation of the store keeps a well-formed database.
use mathlib.Core.Bool.{false≢true}
use harness_security_gateway.Prelude.{
  ℕ, ◌+◌, ◌≤◌, ◌≡◌, refl, sym, ◌∙◌, inl, inr, Bool, true, false, not, Option, none, some, List, [],
  ◌∷◌, arith, Bool-cases, if◌then◌else◌, &&-true_left, &&-true_right,
}
use harness_security_gateway.Prelude.Bytes.{Bytes, beq, beq→≡}
use harness_security_gateway.Prelude.Results.{ok, guard}
use harness_security_gateway.Prelude.Tables.{exists_where, All}
use harness_security_gateway.Prelude.Tables.Laws.{count_where-insert, count_where-not-exists}
use harness_security_gateway.CoreStore.Types.{
  Error, Receipt, Db, IngestTextRunInput, TextRunAuthorization,
}
use harness_security_gateway.CoreStore.Tables.{has_id, or_error, holds_scope}
use harness_security_gateway.CoreStore.Tables.Scope.{in_scope→≡}
use harness_security_gateway.CoreStore.Ingest.{
  is_receipt, insert_admitted, new_run, new_receipt, scope_of_input,
}
use harness_security_gateway.CoreStore.Invariant.{Refers, HasReferences, IsWellFormed, records_run}
use harness_security_gateway.CoreStore.Invariant.Changes.{insert-IsRunTable}
use harness_security_gateway.CoreStore.Invariant.References.{insert_admitted-HasReferences}

pub guard_holds : (b : Bool) (e : Error) (u : Unit {0}) → guard b e ≡ ok u → b ≡ true
guard_holds true e u h = refl
guard_holds false e u h = cc

pub not-true : (b : Bool) → not b ≡ true → b ≡ false
not-true true h = cc
not-true false h = refl

pub or_error-some :
    {A : Type 0} (e : Error) (o : Option A) (a : A) → or_error e o ≡ ok a → o ≡ some a
or_error-some e none a h = cc
or_error-some e (some b) a h = cc

pub is_receipt→≡ :
    (c e : Bytes) (i : Receipt) → is_receipt c e i ≡ true → (i.connector_id ≡ c) × (i.event_id ≡ e)
unfolding is_receipt
is_receipt→≡ c e i h =
    (beq→≡ i.connector_id c (&&-true_left _ _ h), beq→≡ i.event_id e (&&-true_right _ _ h))

-- A fresh row does not bring a count above one.
count_fresh : (c : ℕ) (b : Bool) → c ≤ 1 → (b ≡ true → c ≡ 0) → c + (if b then 1 else 0) ≤ 1
count_fresh c true h k = omega (arith, k refl)
count_fresh c false h k = omega arith

module _ (input : IngestTextRunInput) (a : TextRunAuthorization) (id : Bytes) (now : ℕ)
    (db : Db) where
  no_receipt_of_fresh :
      HasReferences db
      → exists_where (has_id id) db.runs ≡ false
      → (receipts : List Receipt) → All (λ i. Refers db.runs i.run_id) receipts
      → exists_where (records_run id) receipts ≡ false
  unfolding exists_where
  no_receipt_of_fresh h fresh [] r = refl
  no_receipt_of_fresh h fresh (i ∷ rest) r = elim (Bool-cases (beq i.run_id id)) [
    | inl e ↦ absurd (false≢true (sym fresh ∙ rw (beq→≡ i.run_id id e) at r.0))
    | inr e ↦ rw e (no_receipt_of_fresh h fresh rest r.1)
  ]

  pub insert_admitted-IsWellFormed :
      IsWellFormed db
      → exists_where (has_id id) db.runs ≡ false
      → exists_where (holds_scope (scope_of_input input a)) db.runs ≡ false
      → exists_where (is_receipt input.connector_id input.event_id) db.receipts ≡ false
      → IsWellFormed (insert_admitted input a id now db)
  insert_admitted-IsWellFormed w fresh free new = record {
    runs_ok =
        insert-IsRunTable (new_run input a id now) db.runs (ground arith) refl fresh
          (λ key e.
            rw (← in_scope→≡ key (new_run input a id now) e) (unfold scope_of_input in free))
          w.runs_ok;
    deliveries_ok = w.deliveries_ok;
    receipts_ok = record {
      keys = λ c e. rw count_where-insert (
          count_fresh _ _ (w.receipts_ok.keys c e) (λ h.
            let (same_c, same_e) = is_receipt→≡ c e (new_receipt input id now) h in
            rw (← same_c, ← same_e)
              (count_where-not-exists (is_receipt input.connector_id input.event_id) db.receipts
                new)));
      run_ids = λ k. rw count_where-insert (
          count_fresh _ _ (w.receipts_ok.run_ids k) (λ h. rw (← beq→≡ id k h) (
            count_where-not-exists (records_run id) db.receipts
              (no_receipt_of_fresh w.references fresh db.receipts w.references.of_receipts))));
    };
    references = insert_admitted-HasReferences input a id now db w.references;
    keys_ok = w.keys_ok;
  }

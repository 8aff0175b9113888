-- ===== src/CoreStore/Trace/Evolution/Compaction.antt =====
-- A stored Run over IngestTextRun of internal/corestore/runs.go: it evolves, or it has ended and is
-- compacted away with the receipts.
use mathlib.Core.Option.{some-injective}
use harness_security_gateway.Prelude.{
  ap, ℕ, ◌≤◌, ◌≡◌, refl, sym, ◌∙◌, ◌⊎◌, inl, inr, Bool, true, false, Option, none, some, List, [],
  ◌∷◌, arith, Bool-cases, if◌then◌else◌,
}
use harness_security_gateway.Prelude.Bytes.{Bytes, beq, beq→≡}
use harness_security_gateway.Prelude.Results.{Result, >>-ok_right}
use harness_security_gateway.Prelude.Tables.{find_where, exists_where, count_where, delete_where}
use harness_security_gateway.Prelude.Tables.Laws.{
  find_where-not-exists, find_where-insert, find_where-none, exists_where-delete_le,
  exists_where-count_pos,
}
use harness_security_gateway.CoreStore.Types.{
  Error, Run, Db, Receipt, is_terminal, AdmissionOptions, IngestTextRunInput, TextRunAuthorization,
}
use harness_security_gateway.CoreStore.Validate.{validate_ingest}
use harness_security_gateway.CoreStore.Admission.{now_millis→≡}
use harness_security_gateway.CoreStore.Tables.{has_id, find_run}
use harness_security_gateway.CoreStore.Tables.Keeps.{Keeps, Keeps-attempt, Keeps-pair}
use harness_security_gateway.CoreStore.Evict.{evict_inbound_receipts, compactable_run, forgotten}
use harness_security_gateway.CoreStore.Ingest.{
  Pages, ingest_text_run, receive, admit, replay, new_run, insert_admitted,
}
use harness_security_gateway.CoreStore.Invariant.{IsWellFormed}
use harness_security_gateway.CoreStore.Trace.Evolution.{Evolves-refl, Survives, Survives-insert}

find_where-delete_none :
    (p q : Run → Bool) (rows : List Run)
    → count_where p rows ≤ 0
    → find_where p (delete_where q rows) ≡ none
find_where-delete_none p q rows c = elim (Bool-cases (exists_where p rows)) [
  | inl e ↦ let some_row = exists_where-count_pos p rows e in absurd (omega arith)
  | inr e ↦ find_where-not-exists p _ (exists_where-delete_le p q rows e)
]

find_where-delete :
    (p q : Run → Bool) (x : Run) (rows : List Run)
    → count_where p rows ≤ 1
    → find_where p rows ≡ some x
    → find_where p (delete_where q rows) ≡ (if q x then none else some x)
unfolding find_where delete_where count_where
find_where-delete p q x [] c h = cc
find_where-delete p q x (y ∷ rows) c h = elim (Bool-cases (p y)) [
  | inl e ↦
      let one : y ≡ x = some-injective y x (rw e at h) in
      let others : count_where p rows ≤ 0 = ground arith in
      elim (Bool-cases (q y)) [
        | inl gone ↦ rw (← one, gone) (find_where-delete_none p q rows others)
        | inr stays ↦ rw (← one, stays, e) refl
      ]
  | inr e ↦
      let rest = find_where-delete p q x rows (ground arith) (rw e at h) in
      elim (Bool-cases (q y)) [ inl gone ↦ rw gone rest | inr stays ↦ rw (stays, e) rest ]
]

-- What the outcome of an ingest holds: of the database before it, of the one after the eviction, and of
-- that with the admitted Run.
module _ (P : Db → Type 0) (options : AdmissionOptions) (now : ℕ) (pages : Pages)
    (input : IngestTextRunInput) (authorize : Result Error TextRunAuthorization)
    (new_run_id : Result Error Bytes) (db evicted : Db) (k : P db) (ke : P evicted)
    (ka : (a : TextRunAuthorization) (id : Bytes)
      → P (insert_admitted input a id now evicted)) where
  admit-Keeps : Keeps P (admit options now pages input authorize new_run_id db evicted)
  unfolding admit
  admit-Keeps = Keeps-attempt _ evicted _ ke λ _ _. Keeps-attempt authorize evicted _ ke λ a _.
      Keeps-attempt _ db _ k λ _ _. Keeps-attempt _ evicted _ ke λ _ _.
        Keeps-attempt _ evicted _ ke λ _ _. Keeps-attempt new_run_id evicted _ ke λ new_id _.
          Keeps-attempt _ db _ k λ _ _.
            Keeps-attempt _ db _ k λ _ _. Keeps-attempt _ db _ k λ _ _. Keeps-pair _ _ (ka a new_id)

  receive-Keeps :
      (found : Option Receipt)
      → Keeps P (receive options now pages input authorize new_run_id db evicted found)
  unfolding receive replay
  receive-Keeps none = admit-Keeps
  receive-Keeps (some i) = Keeps-attempt _ db _ k λ _ _.
      Keeps-attempt _ evicted _ ke λ _ _. Keeps-attempt _ db _ k λ _ _. Keeps-pair _ evicted ke

-- How the row `r` under `id` left the database in an ingest: it had ended, it was a Run of the event's
-- connector, no receipt or delivery that is left refers to it, and what is stored under its identifier
-- afterwards, if anything, is the Run that this ingest created.
pub record IsCompaction (input : IngestTextRunInput) (now : ℕ) (evicted db' : Db) (id : Bytes)
    (r : Run) : Type 0 where
  pub ended : is_terminal r.state ≡ true
  pub same_connector : beq r.connector_id input.connector_id ≡ true
  pub unrecorded : exists_where (λ i. beq i.run_id r.id) evicted.receipts ≡ false
  pub undelivered : exists_where (λ d. beq d.run_id r.id) evicted.deliveries ≡ false
  pub replaced :
      (x : Run)
      → find_run id db'.runs ≡ some x
      → (a : TextRunAuthorization) × (x ≡ new_run input a id now)

module _ (id : Bytes) (r : Run) where
  evict-found :
      (options : AdmissionOptions) (connector : Bytes) (now : ℕ) (db : Db)
      → IsWellFormed db
      → find_run id db.runs ≡ some r
      → find_run id (evict_inbound_receipts options connector now db).runs ≡ (
          if compactable_run connector
            (evict_inbound_receipts options connector now db).receipts
            (evict_inbound_receipts options connector now db).deliveries
            r
          then none
          else some r)
  unfolding evict_inbound_receipts find_run
  evict-found options connector now db w found =
      find_where-delete (has_id id) _ r db.runs (w.runs_ok.ids id) found

  compactable-IsCompaction :
      (input : IngestTextRunInput) (now : ℕ) (evicted db' : Db)
      → compactable_run input.connector_id evicted.receipts evicted.deliveries r ≡ true
      → ((x : Run)
          → find_run id db'.runs ≡ some x
          → (a : TextRunAuthorization) × (x ≡ new_run input a id now))
      → IsCompaction input now evicted db' id r
  unfolding compactable_run forgotten
  compactable-IsCompaction input now evicted db' c replaced = record {
    ended = ground arith;
    same_connector = ground arith;
    unrecorded = ground arith;
    undelivered = ground arith;
    replaced = replaced;
  }

  inserted-replaced :
      (input : IngestTextRunInput) (now : ℕ) (a : TextRunAuthorization) (new_id : Bytes)
      (evicted : Db)
      → find_run id evicted.runs ≡ none
      → (x : Run) → find_run id (insert_admitted input a new_id now evicted).runs ≡ some x
      → (b : TextRunAuthorization) × (x ≡ new_run input b id now)
  unfolding find_run has_id
  inserted-replaced input now a new_id evicted gone x h =
      let found =
        sym (find_where-insert (has_id id) (new_run input a new_id now) evicted.runs) ∙ h in
      let fresh = find_where-none (has_id id) evicted.runs gone in
      go (beq new_id id) refl (rw fresh at found)
    where
      go :
          (b : Bool)
          → beq new_id id ≡ b
          → ◌≡◌ {A = Option Run} (if b then some (new_run input a new_id now) else none) (some x)
          → (b : TextRunAuthorization) × (x ≡ new_run input b id now)
      go true e f =
          (a, sym (some-injective _ x f) ∙ ap (λ i. new_run input a i now) (beq→≡ new_id id e))
      go false e f = cc

  -- Over an ingest a stored Run survives or is compacted.
  pub ingest-Fate :
      (options : AdmissionOptions) (clock : ℕ) (pages : Pages) (input : IngestTextRunInput)
      (authorize : Result Error TextRunAuthorization) (new_run_id : Result Error Bytes) (db : Db)
      → IsWellFormed db
      → find_run id db.runs ≡ some r
      → Keeps
          (λ d.
            Survives id r d.runs
            ⊎ IsCompaction input clock
                (evict_inbound_receipts options input.connector_id clock db)
                d
                id
                r)
          (ingest_text_run options clock pages input authorize new_run_id db)
  unfolding ingest_text_run
  ingest-Fate options clock pages input authorize new_run_id db w found =
      Keeps-attempt _ db _ (inl s) λ now valid.
        rw (now_millis→≡ clock now (>>-ok_right (validate_ingest input) _ valid))
          (elim (Bool-cases
            (compactable_run input.connector_id evicted.receipts evicted.deliveries r)) [
              | inl c ↦
                  let gone : find_run id evicted.runs ≡ none = left ∙ rw c refl in
                  receive-Keeps _ options clock pages input authorize new_run_id db evicted (inl s)
                    (inr (compactable-IsCompaction input clock evicted evicted c (λ x h. cc)))
                    (λ a new_id. inr (
                      compactable-IsCompaction input clock evicted
                        (insert_admitted input a new_id clock evicted) c
                        (inserted-replaced input clock a new_id evicted gone)))
                    _
              | inr n ↦
                  let stays : Survives id r evicted.runs = record {
                    row = r;
                    found = left ∙ rw n refl;
                    evolves = Evolves-refl r;
                  } in
                  receive-Keeps _ options clock pages input authorize new_run_id db evicted (inl s)
                    (inl stays)
                    (λ a new_id.
                      inl (Survives-insert id r (new_run input a new_id clock) evicted.runs stays))
                    _
            ])
    where
      evicted : Db
      evicted = evict_inbound_receipts options input.connector_id clock db

      left : find_run id evicted.runs ≡ (
          if compactable_run input.connector_id evicted.receipts evicted.deliveries r
          then none
          else some r)
      left = evict-found options input.connector_id clock db w found

      s : Survives id r db.runs
      s = record { row = r; found = found; evolves = Evolves-refl r }

-- ===== src/CoreStore/Invariant/Preserved.antt =====
-- Every operation of the store keeps a well-formed database.
use harness_security_gateway.Prelude.{ℕ, ◌≡◌, refl, false, Option, none, some}
use harness_security_gateway.Prelude.Bytes.{Bytes}
use harness_security_gateway.Prelude.Results.{Result}
use harness_security_gateway.Prelude.Tables.{find_where, exists_where}
use harness_security_gateway.Prelude.Tables.Laws.{find_where-none}
use harness_security_gateway.CoreStore.Types.{
  Error, Receipt, Db, AdmissionOptions, IngestTextRunInput, TextRunAuthorization,
}
use harness_security_gateway.CoreStore.Tables.Keeps.{Keeps, Keeps-attempt, Keeps-pair}
use harness_security_gateway.CoreStore.Evict.{evict_inbound_receipts}
use harness_security_gateway.CoreStore.Ingest.{
  Pages, is_receipt, ingest_text_run, receive, admit, replay, session_scope_busy?,
}
use harness_security_gateway.CoreStore.Invariant.{IsWellFormed}
use harness_security_gateway.CoreStore.Invariant.References.{evict-IsWellFormed}
use harness_security_gateway.CoreStore.Invariant.Operations.{
  guard_holds, not-true, insert_admitted-IsWellFormed,
}

admit-IsWellFormed :
    (options : AdmissionOptions) (now : ℕ) (pages : Pages) (input : IngestTextRunInput)
    (authorize : Result Error TextRunAuthorization) (new_run_id : Result Error Bytes)
    (db evicted : Db)
    → IsWellFormed db
    → IsWellFormed evicted
    → exists_where (is_receipt input.connector_id input.event_id) evicted.receipts ≡ false
    → Keeps IsWellFormed (admit options now pages input authorize new_run_id db evicted)
unfolding admit session_scope_busy?
admit-IsWellFormed options now pages input authorize new_run_id db evicted w we new =
    Keeps-attempt _ evicted _ we λ _ _. Keeps-attempt authorize evicted _ we λ a _.
      Keeps-attempt _ db _ w λ _ _. Keeps-attempt _ evicted _ we λ u free.
        Keeps-attempt _ evicted _ we λ _ _. Keeps-attempt new_run_id evicted _ we λ id _.
          Keeps-attempt _ db _ w λ _ _. Keeps-attempt _ db _ w λ v fresh.
            Keeps-attempt _ db _ w λ _ _. Keeps-pair _ _ (
              insert_admitted-IsWellFormed input a id now evicted we
                (not-true _ (guard_holds _ _ v fresh)) (not-true _ (guard_holds _ _ u free)) new)

replay-IsWellFormed :
    (input : IngestTextRunInput) (receipt : Receipt) (db evicted : Db)
    → IsWellFormed db
    → IsWellFormed evicted
    → Keeps IsWellFormed (replay input receipt db evicted)
unfolding replay
replay-IsWellFormed input receipt db evicted w we =
    Keeps-attempt _ db _ w λ _ _.
      Keeps-attempt _ evicted _ we λ _ _. Keeps-attempt _ db _ w λ _ _. Keeps-pair _ evicted we

receive-IsWellFormed :
    (options : AdmissionOptions) (now : ℕ) (pages : Pages) (input : IngestTextRunInput)
    (authorize : Result Error TextRunAuthorization) (new_run_id : Result Error Bytes)
    (db evicted : Db) (found : Option Receipt)
    → find_where (is_receipt input.connector_id input.event_id) evicted.receipts ≡ found
    → IsWellFormed db
    → IsWellFormed evicted
    → Keeps IsWellFormed (receive options now pages input authorize new_run_id db evicted found)
unfolding receive
receive-IsWellFormed options now pages input authorize new_run_id db evicted none e w we =
    admit-IsWellFormed options now pages input authorize new_run_id db evicted w we
      (find_where-none _ evicted.receipts e)
receive-IsWellFormed options now pages input authorize new_run_id db evicted (some r) e w we =
    replay-IsWellFormed input r db evicted w we

pub ingest_text_run-IsWellFormed :
    (options : AdmissionOptions) (clock : ℕ) (pages : Pages) (input : IngestTextRunInput)
    (authorize : Result Error TextRunAuthorization) (new_run_id : Result Error Bytes) (db : Db)
    → IsWellFormed db
    → Keeps IsWellFormed (ingest_text_run options clock pages input authorize new_run_id db)
unfolding ingest_text_run
ingest_text_run-IsWellFormed options clock pages input authorize new_run_id db w =
    Keeps-attempt _ db _ w λ now _.
      receive-IsWellFormed options now pages input authorize new_run_id db
        (evict_inbound_receipts options input.connector_id now db) _ refl w
        (evict-IsWellFormed options input.connector_id now db w)

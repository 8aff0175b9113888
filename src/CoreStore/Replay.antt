-- ===== src/CoreStore/Replay.antt =====
-- What IngestTextRun answers to a key whose receipt is retained.
use harness_security_gateway.Prelude.{
  ℕ, suc, ◌≡◌, refl, true, some, if◌then◌else◌, Bool-cases, inl, inr,
}
use harness_security_gateway.Prelude.Bytes.{Bytes, beq}
use harness_security_gateway.Prelude.Results.{Result, ok, err}
use harness_security_gateway.Prelude.Tables.{find_where}
use harness_security_gateway.Prelude.Tables.Laws.{All-find_where, exists-find_where}
use harness_security_gateway.CoreStore.Types.{
  Error, conflict, AdmissionOptions, IngestTextRunInput, TextRunAuthorization, IngestResult,
  Receipt, Run, Db,
}
use harness_security_gateway.CoreStore.Validate.{now_millis, validate_ingest}
use harness_security_gateway.CoreStore.Tables.{Tx, attempt, find_run, has_id}
use harness_security_gateway.CoreStore.Evict.{evict_inbound_receipts}
use harness_security_gateway.CoreStore.Ingest.{
  Pages, is_receipt, receive, replay, ingest_text_run, expected_hash,
}
use harness_security_gateway.CoreStore.Invariant.{IsWellFormed}
use harness_security_gateway.CoreStore.Invariant.References.{evict-IsWellFormed}

-- The answer `m` to a receipt: its Run if the payload hash is `hash`, and a conflict if not.
pub record IsReplay (receipt : Receipt) (hash : Bytes) (evicted : Db) (m : Tx IngestResult)
    : Type 0 where
  pub run : Run
  pub recorded : find_run receipt.run_id evicted.runs ≡ some run
  pub answer : m ≡ (
      if beq receipt.payload_hash hash
      then (ok (record { run = run; duplicate = true }), evicted)
      else (err conflict, evicted))

replay-IsReplay :
    (input : IngestTextRunInput) (receipt : Receipt) (hash : Bytes) (db evicted : Db) (run : Run)
    → expected_hash input receipt.payload_hash_version ≡ ok hash
    → find_run receipt.run_id evicted.runs ≡ some run
    → replay input receipt db evicted ≡ (
        if beq receipt.payload_hash hash
        then (ok (record { run = run; duplicate = true }), evicted)
        else (err conflict, evicted))
unfolding replay attempt
replay-IsReplay input receipt hash db evicted run v found =
    rw (v, found)
      (elim (Bool-cases (beq receipt.payload_hash hash)) [ inl e ↦ rw e refl | inr e ↦ rw e refl ])

-- In a well-formed database, a valid event whose receipt is retained is answered from that receipt
-- alone, whatever the policy, the quotas, the Run identifiers and the free pages are: with the
-- receipt's Run, as a duplicate, if the payload has the hash that the receipt's version calls for,
-- and with a conflict otherwise. In both cases the database is the one after eviction.
pub ingest-IsReplay :
    (options : AdmissionOptions) (clock : ℕ) (pages : Pages) (input : IngestTextRunInput)
    (authorize : Result Error TextRunAuthorization) (new_run_id : Result Error Bytes) (db : Db)
    (receipt : Receipt) (hash : Bytes)
    → IsWellFormed db
    → validate_ingest input ≡ ok tt
    → find_where
        (is_receipt input.connector_id input.event_id)
        (evict_inbound_receipts options input.connector_id (suc clock) db).receipts
      ≡ some receipt
    → expected_hash input receipt.payload_hash_version ≡ ok hash
    → IsReplay receipt hash
        (evict_inbound_receipts options input.connector_id (suc clock) db)
        (ingest_text_run options (suc clock) pages input authorize new_run_id db)
unfolding ingest_text_run receive now_millis attempt find_run
ingest-IsReplay options clock pages input authorize new_run_id db receipt hash w valid kept
      version =
    let evicted = evict_inbound_receipts options input.connector_id (suc clock) db in
    let we = evict-IsWellFormed options input.connector_id (suc clock) db w in
    let present = All-find_where _ _ evicted.receipts receipt we.references.of_receipts kept in
    let (run, found) = exists-find_where (has_id receipt.run_id) evicted.runs present in
    record {
      run = run;
      recorded = found;
      answer = rw (valid, kept) (replay-IsReplay input receipt hash db evicted run version found);
    }

-- ===== src/CoreStore/Outbox.antt =====
-- internal/corestore/outbox.go: the durable replies, their leases, and their completion.
use harness_security_gateway.Prelude.{
  ℕ, suc, ◌+◌, Bool, true, false, not, ◌&&◌, ◌||◌, Option, none, some, List, [], ◌∷◌, ltb, leb,
  ◌==◌, if◌then◌else◌,
}
use harness_security_gateway.Prelude.Bytes.{Bytes, beq, opt_beq, bytes_lt}
use harness_security_gateway.Prelude.Results.{Result, ok, err, ◌>>=◌, ◌>>◌, guard}
use harness_security_gateway.Prelude.Tables.{
  find_where, select_where, count_where, exists_where, update_where, insert_row, order_by, take,
}
use harness_security_gateway.CoreStore.Types.{
  Error, invalid, conflict, quota_exceeded, storage, AdmissionOptions, Run, TextDeliveryInput,
  DeliveryState, pending, leased, Delivery, TextDelivery, Db, max_id_bytes, max_claim_limit,
}
use harness_security_gateway.CoreStore.Validate.{now_millis, validate_identifier}
use harness_security_gateway.CoreStore.Options.{validate_lease, lease_expiry}
use harness_security_gateway.CoreStore.Tables.{
  Tx, attempt, sql_expired, find_run, or_error, owned_by,
}
use harness_security_gateway.CoreStore.Ingest.{outstanding_of}

abbrev pub has_delivery_id : Bytes → Delivery → Bool
has_delivery_id id d = beq d.id id

abbrev pub delivers : Bytes → Delivery → Bool
delivers run_id d = beq d.run_id run_id

abbrev pub new_delivery : Run → TextDeliveryInput → ℕ → Delivery
new_delivery run input now = record {
  id = input.id;
  run_id = run.id;
  text = input.text;
  state = pending;
  lease_token = none;
  lease_expires_at = none;
  attempt_count = 0;
  available_at = now;
  provider_message_ref = none;
  failure_code = none;
  created_at = now;
  updated_at = now;
}

-- insertDeliveryTx, by the delivery of that identifier and by that of the Run. The result is the
-- new table of deliveries.
unfoldable pub insert_checked :
    AdmissionOptions
    → Run
    → TextDeliveryInput
    → ℕ
    → Db
    → Option Delivery
    → Option Delivery
    → Result Error (List Delivery)
insert_checked options run input now db (some existing) by_run =
    if beq existing.run_id run.id && beq existing.text input.text
    then ok db.deliveries
    else err conflict
insert_checked options run input now db none (some existing) =
    if beq existing.text input.text then ok db.deliveries else err conflict
insert_checked options run input now db none none =
    if ltb (outstanding_of run.connector_id db) options.max_pending_deliveries
    then ok (insert_row (new_delivery run input now) db.deliveries)
    else err quota_exceeded

unfoldable pub insert_delivery :
    AdmissionOptions → Run → TextDeliveryInput → ℕ → Db → Result Error (List Delivery)
unfolding insert_checked
insert_delivery options run input now db =
    insert_checked options run input now db (find_where (has_delivery_id input.id) db.deliveries)
      (find_where (delivers run.id) db.deliveries)

abbrev pub is_pending : DeliveryState → Bool
is_pending pending = true
is_pending _ = false

abbrev pub is_leased : DeliveryState → Bool
is_leased leased = true
is_leased _ = false

abbrev pub expired_lease : Bytes → List Run → ℕ → Delivery → Bool
expired_lease connector runs now d =
    owned_by connector runs d && is_leased d.state && sql_expired now d.lease_expires_at

abbrev pub release_lease : ℕ → Delivery → Delivery
release_lease now d = record d {
  state = pending;
  lease_token = none;
  lease_expires_at = none;
  updated_at = now;
}

-- ORDER BY d.available_at_ms, d.created_at_ms, d.id
unfoldable pub delivery_before : Delivery → Delivery → Bool
delivery_before a b =
    ltb a.available_at b.available_at
    || (a.available_at == b.available_at
        && (ltb a.created_at b.created_at || (a.created_at == b.created_at && bytes_lt a.id b.id)))

abbrev pub due : Bytes → List Run → ℕ → Delivery → Bool
due connector runs now d = owned_by connector runs d && is_pending d.state && leb d.available_at now

abbrev pub leasable : Bytes → List Run → Bytes → Delivery → Bool
leasable connector runs id d =
    has_delivery_id id d && is_pending d.state && owned_by connector runs d

abbrev pub lease_to : Bytes → ℕ → ℕ → Delivery → Delivery
lease_to token expires now d = record d {
  state = leased;
  lease_token = some token;
  lease_expires_at = some expires;
  attempt_count = d.attempt_count + 1;
  updated_at = now;
}

abbrev pub has_lease_token : Bytes → Delivery → Bool
has_lease_token token d = opt_beq d.lease_token token

-- A row other than the one to lease that has the token, which the unique index refuses.
abbrev pub token_taken : Bytes → Bytes → Delivery → Bool
token_taken token id d = has_lease_token token d && not (has_delivery_id id d)

-- The columns of the joined Run.
abbrev pub with_run : Delivery → Run → TextDelivery
with_run d run = record {
  delivery = d;
  connector_id = run.connector_id;
  conversation_ref = run.conversation_ref;
  reply_to_ref = run.message_ref;
}

-- SELECT ... FROM text_deliveries JOIN runs WHERE d.id = ?
unfoldable pub read_delivery : Bytes → List Run → List Delivery → Result Error TextDelivery
read_delivery id runs deliveries = do
  d ← or_error storage (find_where (has_delivery_id id) deliveries)
  run ← or_error storage (find_run d.run_id runs)
  ok (with_run d run)

-- The body of the loop over the claimable rows: one row is leased under a fresh token.
unfoldable pub lease_row :
    Bytes
    → ℕ
    → ℕ
    → List Run
    → Bytes
    → Bytes
    → List Delivery
    → Result Error (TextDelivery × List Delivery)
lease_row connector expires now runs token id deliveries = do
  validate_identifier token max_id_bytes
  guard (not (exists_where (token_taken token id) deliveries)) storage
  guard (count_where (leasable connector runs id) deliveries == 1) storage
  let updated = update_where (leasable connector runs id) (lease_to token expires now) deliveries
  claimed ← read_delivery id runs updated
  ok (claimed, updated)

-- The loop; `tokens n` is what the n-th call of the token source returns.
unfoldable pub lease_each :
    Bytes
    → ℕ
    → ℕ
    → List Run
    → (ℕ → Result Error Bytes)
    → ℕ
    → List Delivery
    → List Delivery
    → Result Error (List TextDelivery × List Delivery)
unfolding lease_row
lease_each connector expires now runs tokens n [] deliveries = ok ([], deliveries)
lease_each connector expires now runs tokens n (row ∷ rest) deliveries = do
  token ← tokens n
  one ← lease_row connector expires now runs token row.id deliveries
  more ← lease_each connector expires now runs tokens (suc n) rest one.1
  ok (one.0 ∷ more.0, more.1)

-- ClaimTextDeliveries
unfoldable pub claim_text_deliveries :
    Bytes → ℕ → ℕ → ℕ → (ℕ → Result Error Bytes) → Db → Tx (List TextDelivery)
unfolding lease_each delivery_before
claim_text_deliveries connector limit lease clock tokens db =
    attempt (validate_identifier connector max_id_bytes) db λ _.
      attempt (guard (leb 1 limit && leb limit max_claim_limit) invalid) db λ _.
        attempt (validate_lease lease >> now_millis clock) db λ now.
          attempt (lease_expiry now lease) db λ expires.
            let released =
              update_where (expired_lease connector db.runs now) (release_lease now)
                db.deliveries in
            let claimable =
              take limit
                (order_by delivery_before (select_where (due connector db.runs now) released)) in
            attempt (lease_each connector expires now db.runs tokens 0 claimable released) db
              λ claimed. (ok claimed.0, record db { deliveries = claimed.1 })

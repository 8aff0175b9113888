-- ===== src/CoreStore/Invariant/Outbox.antt =====
-- Each change that an operation makes of the table text_deliveries keeps its invariant.
use harness_security_gateway.Prelude.{
  ℕ, ◌≤◌, ◌≡◌, refl, not, ◌&&◌, ◌⊎◌, inl, inr, Bool, true, false, Option, none, some, List, [], ◌∷◌,
  arith, Bool-cases,
}
use harness_security_gateway.Prelude.Bytes.{Bytes, beq, beq→≡}
use harness_security_gateway.Prelude.Results.{ok, >>=-eq-ok, ok-injective}
use harness_security_gateway.Prelude.Tables.{
  count_where, exists_where, find_where, update_where, delete_where, insert_row, All,
}
use harness_security_gateway.Prelude.Tables.Laws.{
  count_where-insert, count_where-delete_le, count_where-not-exists, find_where_unique,
  find_where-none, All-insert, All-delete, All-update_same, All-update, count_where-update_le,
}
use harness_security_gateway.CoreStore.Types.{
  Run, Delivery, CompleteDeliveryInput, DeliveryOutcome, TextDeliveryInput, AdmissionOptions, Db,
  leased,
}
use harness_security_gateway.CoreStore.Validate.{validate_outcome}
use harness_security_gateway.CoreStore.Outbox.{
  has_delivery_id, delivers, has_lease_token, new_delivery, insert_delivery, insert_checked,
  expired_lease, release_lease, leasable, lease_to, token_taken,
}
use harness_security_gateway.CoreStore.Completion.{
  completion, retry_time, complete_delivered, complete_retry, complete_permanent,
}
use harness_security_gateway.CoreStore.Invariant.{IsValidDelivery, IsDeliveryTable}

pub release_lease-IsDeliveryTable :
    (connector : Bytes) (runs : List Run) (now : ℕ) (ds : List Delivery)
    → IsDeliveryTable ds
    → IsDeliveryTable (update_where (expired_lease connector runs now) (release_lease now) ds)
release_lease-IsDeliveryTable connector runs now ds t =
    let q = expired_lease connector runs now in
    let f = release_lease now in
    record {
      rows = All-update_same IsValidDelivery q f ds (λ x e v. ground arith) t.rows;
      ids = λ k.
          omega (arith, count_where-update_le (has_delivery_id k) q f ds (λ x _ h. h), t.ids k);
      one_reply =
          λ k. omega (arith, count_where-update_le (delivers k) q f ds (λ x _ h. h), t.one_reply k);
      tokens = λ k.
          omega (arith, count_where-update_le (has_lease_token k) q f ds (λ x _ h. cc), t.tokens k);
    }

-- An update of rows that pass `r` adds to those that pass `p` none that do not pass `r`.
count_where-update_within :
    (p q r : Delivery → Bool) (f : Delivery → Delivery) (ds : List Delivery)
    → ((x : Delivery) → q x ≡ true → r x ≡ true)
    → exists_where (λ x. p x && not (r x)) ds ≡ false
    → count_where p (update_where q f ds) ≤ count_where r ds
unfolding count_where update_where exists_where
count_where-update_within p q r f [] h e = omega arith
count_where-update_within p q r f (x ∷ ds) h e =
    ground (arith, h x, count_where-update_within p q r f ds h)

-- One pending delivery is leased under a token that no other delivery has.
pub lease_to-IsDeliveryTable :
    (connector : Bytes) (runs : List Run) (id token : Bytes) (expires now : ℕ) (ds : List Delivery)
    → exists_where (token_taken token id) ds ≡ false
    → IsDeliveryTable ds
    → IsDeliveryTable (update_where (leasable connector runs id) (lease_to token expires now) ds)
lease_to-IsDeliveryTable connector runs id token expires now ds unused t =
    let q = leasable connector runs id in
    let f = lease_to token expires now in
    record {
      rows = All-update_same IsValidDelivery q f ds (λ x e v. ground arith) t.rows;
      ids = λ k.
          omega (arith, count_where-update_le (has_delivery_id k) q f ds (λ x _ h. h), t.ids k);
      one_reply =
          λ k. omega (arith, count_where-update_le (delivers k) q f ds (λ x _ h. h), t.one_reply k);
      tokens = λ k. elim (Bool-cases (beq token k)) [
        | inl e ↦ omega (
          arith,
          count_where-update_within (has_lease_token k) q (has_delivery_id id) f ds
              (λ x h. ground arith) (rw (← beq→≡ token k e) unused),
          t.ids id,
        )
        | inr e ↦
            omega
              (arith, count_where-update_le (has_lease_token k) q f ds (λ x _ h. cc), t.tokens k)
      ];
    }

-- A fresh pending delivery of a Run that has none.
pub insert-IsDeliveryTable :
    (run : Run) (input : TextDeliveryInput) (now : ℕ) (ds : List Delivery)
    → exists_where (has_delivery_id input.id) ds ≡ false
    → exists_where (delivers run.id) ds ≡ false
    → IsDeliveryTable ds
    → IsDeliveryTable (insert_row (new_delivery run input now) ds)
insert-IsDeliveryTable run input now ds fresh unanswered t = record {
  rows = All-insert IsValidDelivery (new_delivery run input now) ds (ground arith) t.rows;
  ids = λ k. rw count_where-insert (elim (Bool-cases (beq input.id k)) [
    | inl e ↦ rw e (
        omega
          (arith, count_where-not-exists (has_delivery_id k) ds (rw (← beq→≡ input.id k e) fresh)))
    | inr e ↦ rw e (omega (arith, t.ids k))
  ]);
  one_reply = λ k. rw count_where-insert (elim (Bool-cases (beq run.id k)) [
    | inl e ↦
        rw e (
          omega
            (arith, count_where-not-exists (delivers k) ds (rw (← beq→≡ run.id k e) unanswered)))
    | inr e ↦ rw e (omega (arith, t.one_reply k))
  ]);
  tokens = λ k. rw count_where-insert (omega (arith, t.tokens k));
}

-- A successful insertion adds one fresh row, or finds the reply already there.
pub insert_delivery_cases :
    (options : AdmissionOptions) (run : Run) (input : TextDeliveryInput) (now : ℕ) (db : Db)
    (ds : List Delivery)
    → insert_delivery options run input now db ≡ ok ds
    → (ds ≡ db.deliveries)
      ⊎ ((ds ≡ insert_row (new_delivery run input now) db.deliveries)
          × (exists_where (has_delivery_id input.id) db.deliveries ≡ false)
          × (exists_where (delivers run.id) db.deliveries ≡ false))
unfolding insert_delivery insert_checked
insert_delivery_cases options run input now db ds h =
    go (find_where (has_delivery_id input.id) db.deliveries)
      (find_where (delivers run.id) db.deliveries) refl refl h
  where
    go :
        (a b : Option Delivery)
        → find_where (has_delivery_id input.id) db.deliveries ≡ a
        → find_where (delivers run.id) db.deliveries ≡ b
        → insert_checked options run input now db a b ≡ ok ds
        → (ds ≡ db.deliveries)
          ⊎ ((ds ≡ insert_row (new_delivery run input now) db.deliveries)
              × (exists_where (has_delivery_id input.id) db.deliveries ≡ false)
              × (exists_where (delivers run.id) db.deliveries ≡ false))
    go (some a) b ea eb h = inl (ground arith)
    go none (some b) ea eb h = inl (ground arith)
    go none none ea eb h = inr (
      ground arith,
      find_where-none (has_delivery_id input.id) db.deliveries ea,
      find_where-none (delivers run.id) db.deliveries eb,
    )

pub insert_delivery-IsDeliveryTable :
    (options : AdmissionOptions) (run : Run) (input : TextDeliveryInput) (now : ℕ) (db : Db)
    (ds : List Delivery)
    → insert_delivery options run input now db ≡ ok ds
    → IsDeliveryTable db.deliveries
    → IsDeliveryTable ds
insert_delivery-IsDeliveryTable options run input now db ds h t =
    elim (insert_delivery_cases options run input now db ds h) [
      | inl e ↦ rw e t
      | inr (e, fresh, unanswered) ↦
          rw e (insert-IsDeliveryTable run input now db.deliveries fresh unanswered t)
    ]

pub delete-IsDeliveryTable :
    (q : Delivery → Bool) (ds : List Delivery)
    → IsDeliveryTable ds
    → IsDeliveryTable (delete_where q ds)
delete-IsDeliveryTable q ds t = record {
  rows = All-delete IsValidDelivery q ds t.rows;
  ids = λ k. omega (arith, count_where-delete_le (has_delivery_id k) q ds, t.ids k);
  one_reply = λ k. omega (arith, count_where-delete_le (delivers k) q ds, t.one_reply k);
  tokens = λ k. omega (arith, count_where-delete_le (has_lease_token k) q ds, t.tokens k);
}

-- A change of the one row with an identifier that keeps its keys and its validity.
change-IsDeliveryTable :
    (id : Bytes) (d : Delivery) (change : Delivery → Delivery) (ds : List Delivery)
    → ((x : Delivery) → (change x).id ≡ x.id)
    → ((x : Delivery) → (change x).run_id ≡ x.run_id)
    → ((x : Delivery) → (change x).lease_token ≡ x.lease_token)
    → (IsValidDelivery d → IsValidDelivery (change d))
    → find_where (has_delivery_id id) ds ≡ some d
    → IsDeliveryTable ds
    → IsDeliveryTable (update_where (has_delivery_id id) change ds)
change-IsDeliveryTable id d change ds same_id same_run same_token valid found t =
    let q = has_delivery_id id in
    let only = find_where_unique q ds d (t.ids id) found in
    record {
      rows =
          All-update (λ x. (q x ≡ true → x ≡ d) × IsValidDelivery x) IsValidDelivery q change ds
            (λ x e h. rw (h.0 e) (valid (rw (h.0 e) at h.1))) (λ x e h. h.1) (both ds only t.rows);
      ids = λ k. omega (
        arith,
        count_where-update_le (has_delivery_id k) q change ds (λ x _ h. rw same_id at h),
        t.ids k,
      );
      one_reply = λ k. omega (
        arith,
        count_where-update_le (delivers k) q change ds (λ x _ h. rw same_run at h),
        t.one_reply k,
      );
      tokens = λ k. omega (
        arith,
        count_where-update_le (has_lease_token k) q change ds (λ x _ h. rw same_token at h),
        t.tokens k,
      );
    }
  where
    both :
        (xs : List Delivery)
        → All (λ x. has_delivery_id id x ≡ true → x ≡ d) xs
        → All IsValidDelivery xs
        → All (λ x. (has_delivery_id id x ≡ true → x ≡ d) × IsValidDelivery x) xs
    both [] a b = tt
    both (x ∷ xs) a b = ((a.0, b.0), both xs a.1 b.1)

-- A leased delivery is completed as a valid completion says.
pub completion-IsDeliveryTable :
    (retry_delay now : ℕ) (input : CompleteDeliveryInput) (d : Delivery) (outcome : DeliveryOutcome)
    (change : Delivery → Delivery) (ds : List Delivery)
    → completion retry_delay now input d outcome ≡ ok change
    → validate_outcome outcome input ≡ ok tt
    → find_where (has_delivery_id input.delivery_id) ds ≡ some d
    → d.state ≡ leased
    → IsDeliveryTable ds
    → IsDeliveryTable (update_where (has_delivery_id input.delivery_id) change ds)
unfolding validate_outcome completion
completion-IsDeliveryTable retry_delay now input d DeliveryOutcome.delivered change ds h valid found
      state t =
    let e = ok-injective h in
    rw (← e) (
      change-IsDeliveryTable input.delivery_id d (complete_delivered input.provider_message_ref now)
        ds (λ x. refl) (λ x. refl) (λ x. refl) (λ v. ground arith) found t)
completion-IsDeliveryTable retry_delay now input d DeliveryOutcome.retry change ds h valid found
      state t =
    let (retry_at, _, h') =
      >>=-eq-ok (retry_time retry_delay now d.attempt_count)
        (λ at. ok (complete_retry at input.failure_code now)) h in
    let e = ok-injective h' in
    rw (← e) (
      change-IsDeliveryTable input.delivery_id d (complete_retry retry_at input.failure_code now) ds
        (λ x. refl) (λ x. refl) (λ x. refl) (λ v. ground arith) found t)
completion-IsDeliveryTable retry_delay now input d DeliveryOutcome.permanent_failure change ds h
      valid found state t =
    let e = ok-injective h in
    rw (← e) (
      change-IsDeliveryTable input.delivery_id d (complete_permanent input.failure_code now) ds
        (λ x. refl) (λ x. refl) (λ x. refl) (λ v. ground arith) found t)
completion-IsDeliveryTable retry_delay now input d DeliveryOutcome.unsupported change ds h valid
      found state t =
    cc

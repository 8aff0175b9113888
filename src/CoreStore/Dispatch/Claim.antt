-- ===== src/CoreStore/Dispatch/Claim.antt =====
-- What a successful ClaimQueuedRun returns.
use mathlib.Core.Option
use mathlib.Core.Option.{some-injective}
use harness_security_gateway.Prelude.{
  ℕ, ◌+◌, ◌≡◌, refl, sym, ◌∙◌, Bool, true, false, ◌||◌, Option, none, some, List, [], ◌∷◌, ==→≡,
  arith, Bool-cases, inl, inr, if◌then◌else◌,
}
use harness_security_gateway.Prelude.Bytes.{Bytes, beq, beq→≡, beq_refl, beq_comm}
use harness_security_gateway.Prelude.Results.{Result, ok, ok-injective, >>-ok_right}
use harness_security_gateway.Prelude.Tables.{
  find_where, select_where, count_where, exists_where, update_where, All,
}
use harness_security_gateway.Prelude.Tables.Laws.{
  find_where-update, find_where_sound, count_where-update_add, count_where-not-exists,
  exists_where-count_pos,
}
use harness_security_gateway.CoreStore.Types.{Error, Run, dispatching, Db, is_queued, is_active}
use harness_security_gateway.CoreStore.Options.{lease_expiry, validate_lease}
use harness_security_gateway.CoreStore.Tables.Keeps.{
  Ensures, Ensures-attempt, Ensures-pair, Ensures-if,
}
use harness_security_gateway.CoreStore.Admission.{now_millis→≡}
use harness_security_gateway.CoreStore.Dispatch.{
  queue_before, release_expired, next_queued, dispatch, claimable, claim_next, claim_queued_run,
  has_dispatch_token,
}
use harness_security_gateway.CoreStore.Dispatch.Order.{next_queued-first, next_queued-found}
use harness_security_gateway.CoreStore.Tables.{has_id, find_run}
use harness_security_gateway.CoreStore.Invariant.{IsWellFormed}
use harness_security_gateway.CoreStore.Invariant.Changes.{release_expired-IsRunTable}
use harness_security_gateway.CoreStore.Invariant.Operations.{guard_holds, not-true}

-- The steps of a claim of `run`: `released` is the table after the expired dispatches went back to
-- the queue.
record IsStep (lease now : ℕ) (new_token : Result Error Bytes) (released db' : Db) (run : Run)
    : Type 0 where
  token : Bytes
  expires : ℕ
  waiting : Run
  generated : new_token ≡ ok token
  lease_end : lease_expiry now lease ≡ ok expires
  idle : exists_where (λ r. is_active r.state) released.runs ≡ false
  selected : next_queued released.runs ≡ some waiting
  fresh : exists_where (has_dispatch_token token) released.runs ≡ false
  one_row : count_where (claimable waiting.id) released.runs ≡ 1
  leased : run ≡ dispatch token expires now waiting
  stored : db' ≡ record released {
    runs = update_where (claimable waiting.id) (dispatch token expires now) released.runs;
  }

abbrev Claims : ℕ → ℕ → Result Error Bytes → Db → Result Error (Option Run) → Db → Type 0
Claims lease now new_token released r db' =
    (run : Run) → r ≡ ok (some run) → IsStep lease now new_token released db' run

claim_next-IsStep :
    (lease now : ℕ) (new_token : Result Error Bytes) (db released : Db) (next : Option Run)
    → exists_where (λ r. is_active r.state) released.runs ≡ false
    → next_queued released.runs ≡ next
    → Ensures
        (Claims lease now new_token released)
        (claim_next lease now new_token db released next)
unfolding claim_next
claim_next-IsStep lease now new_token db released none idle e = Ensures-pair _ _ (λ run h. cc)
claim_next-IsStep lease now new_token db released (some waiting) idle e =
    Ensures-attempt new_token db _ (λ _ _ run h. cc)
      λ token generated.
        Ensures-attempt _ db _ (λ _ _ run h. cc)
          λ _ _.
            Ensures-attempt (lease_expiry now lease) db _ (λ _ _ run h. cc)
              λ expires lease_end.
                Ensures-attempt _ db _ (λ _ _ run h. cc)
                  λ u fresh.
                    Ensures-attempt _ db _ (λ _ _ run h. cc)
                      λ v one_row. Ensures-pair _ _ (λ run h. record {
                        token = token;
                        expires = expires;
                        waiting = waiting;
                        generated = generated;
                        lease_end = lease_end;
                        idle = idle;
                        selected = e;
                        fresh = not-true _ (guard_holds _ _ u fresh);
                        one_row = ==→≡ _ _ (guard_holds _ _ v one_row);
                        leased = sym (some-injective _ _ (ok-injective h));
                        stored = refl;
                      })

ensured :
    (lease clock : ℕ) (new_token : Result Error Bytes) (db : Db)
    → Ensures
        (Claims lease clock new_token (record db { runs = release_expired clock db.runs }))
        (claim_queued_run lease clock new_token db)
unfolding claim_queued_run
ensured lease clock new_token db =
    Ensures-attempt _ db _ (λ _ _ run h. cc)
      λ now valid. rw (now_millis→≡ clock now (>>-ok_right (validate_lease lease) _ valid)) (
        Ensures-if (exists_where (λ r. is_active r.state) (release_expired clock db.runs)) _ _
          (λ _. Ensures-pair _ _ (λ run h. cc))
          λ idle. claim_next-IsStep lease clock new_token db _ _ idle refl)

-- What a claim of `run` means for the database `db`, where the expired dispatches go back to the queue
-- first: `waiting` is the stored Run as it was in the queue.
pub record IsClaim (lease now : ℕ) (new_token : Result Error Bytes) (db db' : Db) (run : Run)
    : Type 0 where
  pub token : Bytes
  pub expires : ℕ
  pub waiting : Run
  pub generated : new_token ≡ ok token
  pub lease_end : lease_expiry now lease ≡ ok expires
  pub listed : find_run run.id (release_expired now db.runs) ≡ some waiting
  pub queued : is_queued waiting.state ≡ true
  pub oldest :
      All
        (λ r. queue_before r waiting ≡ false)
        (select_where (λ r. is_queued r.state) (release_expired now db.runs))
  pub leased : run ≡ record waiting {
    state = dispatching;
    dispatch_token = some token;
    dispatch_expires_at = some expires;
    dispatch_attempt_count = waiting.dispatch_attempt_count + 1;
    updated_at = now;
  }
  pub stored : find_run run.id db'.runs ≡ some run
  pub others :
      (id : Bytes)
      → beq run.id id ≡ false
      → find_run id db'.runs ≡ find_run id (release_expired now db.runs)
  pub idle : count_where (λ r. is_active r.state) (release_expired now db.runs) ≡ 0
  pub one_active : count_where (λ r. is_active r.state) db'.runs ≡ 1
  pub one_holder : count_where (has_dispatch_token token) db'.runs ≡ 1

exists_where-found :
    (p q : Run → Bool) (runs : List Run) (r : Run)
    → find_where p runs ≡ some r
    → q r ≡ true
    → exists_where q runs ≡ true
unfolding find_where exists_where
exists_where-found p q [] r h e = cc
exists_where-found p q (x ∷ runs) r h e = elim (Bool-cases (p x)) [
  | inl y ↦ rw (some-injective x r (rw y at h), e) refl
  | inr n ↦ rw (exists_where-found p q runs r (rw n at h) e) (or_true (q x))
]
  where
    or_true : (b : Bool) → (b || true) ≡ true
    or_true b = ground arith

-- The update of the one queued row `waiting`.
module _ (waiting : Run) (token : Bytes) (expires now : ℕ) (runs : List Run)
    (listed : find_run waiting.id runs ≡ some waiting)
    (queued : is_queued waiting.state ≡ true) where
  dispatched-found :
      find_run waiting.id (update_where (claimable waiting.id) (dispatch token expires now) runs)
      ≡ some (dispatch token expires now waiting)
  unfolding find_run has_id
  dispatched-found =
      find_where-update (has_id waiting.id) (claimable waiting.id) (dispatch token expires now) runs
        (λ x. refl)
      ∙ rw (listed, beq_refl waiting.id, queued) refl

  dispatched-others :
      (id : Bytes)
      → beq waiting.id id ≡ false
      → find_run id (update_where (claimable waiting.id) (dispatch token expires now) runs)
        ≡ find_run id runs
  unfolding find_run has_id
  dispatched-others id n =
      find_where-update (has_id id) (claimable waiting.id) (dispatch token expires now) runs
        (λ x. refl)
      ∙ go (find_run id runs) refl
    where
      go :
          (o : Option Run)
          → find_run id runs ≡ o
          → Option.map (λ x. if claimable waiting.id x then dispatch token expires now x else x) o
            ≡ o
      go none e = refl
      go (some x) e =
          rw (beq→≡ x.id id (find_where_sound (has_id id) runs x e), beq_comm id waiting.id, n) refl

  -- A test that no row passed and every dispatched one does is passed by one row.
  dispatched-once :
      (q : Run → Bool)
      → count_where q runs ≡ 0
      → count_where (claimable waiting.id) runs ≡ 1
      → q (dispatch token expires now waiting) ≡ true
      → count_where q (update_where (claimable waiting.id) (dispatch token expires now) runs) ≡ 1
  unfolding find_run
  dispatched-once q none_before one passes =
      let updated = update_where (claimable waiting.id) (dispatch token expires now) runs in
      omega (
        arith,
        count_where-update_add q (claimable waiting.id) (dispatch token expires now) runs,
        exists_where-count_pos q updated (
            exists_where-found (has_id waiting.id) q updated (dispatch token expires now waiting)
              dispatched-found passes),
        none_before,
        one,
      )

-- A claim in a well-formed database returns a Run only when nothing is executing: after the expired
-- dispatches have gone back to the queue, no Run is dispatching or running. The Run is a stored,
-- queued one, and the oldest (no queued Run is before it by creation time and identifier). It is
-- returned, and stored, with the columns of that row except that it is dispatching, under the
-- generated token, until the lease ends, with one attempt more; every other identifier finds what it
-- found; and afterwards exactly one Run is dispatching or running and exactly one holds the token.
pub claim_queued_run-IsClaim :
    (lease clock : ℕ) (new_token : Result Error Bytes) (db : Db) (run : Run)
    → IsWellFormed db
    → (claim_queued_run lease clock new_token db).0 ≡ ok (some run)
    → IsClaim lease clock new_token db (claim_queued_run lease clock new_token db).1 run
claim_queued_run-IsClaim lease clock new_token db run w h =
    let s = (ensured lease clock new_token db).holds run h in
    let released = release_expired clock db.runs in
    let table = release_expired-IsRunTable clock db.runs w.runs_ok in
    let (listed, queued) = next_queued-found released s.waiting table.ids s.selected in
    let idle = count_where-not-exists (λ r. is_active r.state) released s.idle in
    rw (s.stored, s.leased)
      (record {
        token = s.token;
        expires = s.expires;
        waiting = s.waiting;
        generated = s.generated;
        lease_end = s.lease_end;
        listed = listed;
        queued = queued;
        oldest = next_queued-first released s.waiting s.selected;
        leased = refl;
        stored = dispatched-found s.waiting s.token s.expires clock released listed queued;
        others = dispatched-others s.waiting s.token s.expires clock released listed queued;
        idle = idle;
        one_active =
            dispatched-once s.waiting s.token s.expires clock released listed queued
              (λ r. is_active r.state) idle s.one_row refl;
        one_holder =
            dispatched-once s.waiting s.token s.expires clock released listed queued
              (has_dispatch_token s.token)
              (count_where-not-exists (has_dispatch_token s.token) released s.fresh) s.one_row
              (beq_refl s.token);
      })

-- ===== src/CoreStore/Invariant/Changes.antt =====
-- Each change that an operation makes of the table runs keeps its invariant.
use harness_security_gateway.Prelude.{
  ℕ, ◌≤◌, ◌≡◌, refl, ap, inl, inr, Bool, true, false, ◌&&◌, ◌||◌, Option, some, List, [], ◌∷◌,
  arith, Bool-cases, &&-true_left, if◌then◌else◌,
}
use harness_security_gateway.Prelude.Bytes.{Bytes, beq, beq→≡}
use harness_security_gateway.Prelude.Results.{ok}
use harness_security_gateway.Prelude.Tables.{exists_where, update_where, insert_row, All}
use harness_security_gateway.Prelude.Tables.Laws.{
  count_where-insert, count_where-update_add, count_where-le, count_where-not-exists,
  find_where_unique, All-insert, All-update_same, count_where-update_le,
}
use harness_security_gateway.CoreStore.Types.{
  Run, SessionKey, FinishRunInput, is_active, is_queued, is_terminal, is_dispatching,
  is_nonterminal,
}
use harness_security_gateway.CoreStore.Validate.{
  is_set, failed_code, is_interruption, is_empty, validate_finish, validate_finish_state,
}
use harness_security_gateway.CoreStore.Tables.{has_id, holds_scope, in_scope, find_run}
use harness_security_gateway.CoreStore.Dispatch.{
  has_dispatch_token, release_expired, expired_dispatch, requeue, claimable, dispatch, preparable,
  prepare, run_now,
}
use harness_security_gateway.CoreStore.Finish.{finish}
use harness_security_gateway.CoreStore.Invariant.{
  IsValidRun, IsRunTable, DeadlineInRange, is_completed, is_failed, is_interrupted,
}
use harness_security_gateway.CoreStore.Invariant.Runs.{IsMild, update-IsRunTable}

abbrev Any : Run → Type 0
Any x = Unit

all-Any : (runs : List Run) → All Any runs
all-Any [] = tt
all-Any (x ∷ runs) = (tt, all-Any runs)

requeue-IsMild : (now : ℕ) → IsMild Any (expired_dispatch now) (requeue now)
unfolding holds_scope
requeue-IsMild now = record {
  valid = λ x _ e v. ground arith;
  same_id = λ x. refl;
  token = λ t x _ e h. cc;
  active = λ x _ e h. cc;
  scope = λ key x _ e h. ground arith;
}

pub release_expired-IsRunTable :
    (now : ℕ) (runs : List Run) → IsRunTable runs → IsRunTable (release_expired now runs)
unfolding release_expired
release_expired-IsRunTable now runs t =
    update-IsRunTable Any (expired_dispatch now) (requeue now) runs (requeue-IsMild now)
      (all-Any runs) t

-- A new queued Run with a fresh identifier and a free scope.
pub insert-IsRunTable :
    (r : Run) (runs : List Run)
    → IsValidRun r
    → is_queued r.state ≡ true
    → exists_where (has_id r.id) runs ≡ false
    → ((key : SessionKey) → in_scope key r ≡ true → exists_where (holds_scope key) runs ≡ false)
    → IsRunTable runs
    → IsRunTable (insert_row r runs)
unfolding has_id holds_scope
insert-IsRunTable r runs v queued fresh free t = record {
  rows = All-insert IsValidRun r runs v t.rows;
  ids = λ id. rw count_where-insert (elim (Bool-cases (beq r.id id)) [
    | inl e ↦ omega (
      arith,
      count_where-not-exists (has_id id) runs (rw (← beq→≡ r.id id e) fresh),
      one_more (beq r.id id),
    )
    | inr e ↦ rw e (omega (arith, t.ids id))
  ]);
  tokens = λ k. rw count_where-insert (ground (arith, t.tokens k, v.token_unless_queued));
  one_active = rw count_where-insert (ground (arith, t.one_active));
  one_per_scope = λ k. rw count_where-insert (elim (Bool-cases (in_scope k r)) [
    | inl e ↦ omega (
      arith,
      count_where-not-exists (holds_scope k) runs (free k e),
      one_more (in_scope k r && is_nonterminal r.state),
    )
    | inr e ↦ rw e (omega (arith, t.one_per_scope k))
  ]);
}
  where
    one_more : (b : Bool) → (if b then 1 else 0) ≤ 1
    one_more b = ground arith

-- Where no Run is active and no Run has the token, one queued Run is dispatched.
pub dispatch-IsRunTable :
    (id token : Bytes) (expires now : ℕ) (runs : List Run)
    → exists_where (λ r. is_active r.state) runs ≡ false
    → exists_where (has_dispatch_token token) runs ≡ false
    → IsRunTable runs
    → IsRunTable (update_where (claimable id) (dispatch token expires now) runs)
unfolding has_id holds_scope
dispatch-IsRunTable id token expires now runs idle unused t =
    let q = claimable id in
    let f = dispatch token expires now in
    let few = count_where-le (claimable id) (has_id id) runs (λ x h. &&-true_left _ _ h) in
    record {
      rows = All-update_same IsValidRun q f runs (λ x e v. ground arith) t.rows;
      ids = λ k. omega (arith, count_where-update_le (has_id k) q f runs (λ x _ h. h), t.ids k);
      tokens = λ k. elim (Bool-cases (beq token k)) [
        | inl e ↦ omega (
          arith,
          count_where-update_add (has_dispatch_token k) q f runs,
          count_where-not-exists (has_dispatch_token k) runs (rw (← beq→≡ token k e) unused),
          few,
          t.ids id,
        )
        | inr e ↦
            omega (
              arith,
              count_where-update_le (has_dispatch_token k) q f runs (λ x _ h. cc),
              t.tokens k,
            )
      ];
      one_active = omega (
        arith,
        count_where-update_add (λ r. is_active r.state) q f runs,
        count_where-not-exists (λ r. is_active r.state) runs idle,
        few,
        t.ids id,
      );
      one_per_scope = λ k. omega (
        arith,
        count_where-update_le (holds_scope k) q f runs (λ x e h. ground arith),
        t.one_per_scope k,
      );
    }

module _ (run : Run) where
  -- The rows that a test finds are the given one.
  abbrev pub Only : (Run → Bool) → Run → Type 0
  Only p x = p x ≡ true → x ≡ run

  pub Only-row :
      (id : Bytes) (runs : List Run)
      → IsRunTable runs
      → find_run id runs ≡ some run
      → All (Only (has_id id)) runs
  unfolding find_run
  Only-row id runs t h = find_where_unique (has_id id) runs run (t.ids id) h

pub prepare-IsRunTable :
    (id token : Bytes) (ref : Option Bytes) (deadline : Option ℕ) (now : ℕ) (runs : List Run)
    → is_set deadline ≡ true
    → DeadlineInRange deadline
    → IsRunTable runs
    → IsRunTable (update_where (preparable id token) (prepare ref deadline now) runs)
unfolding holds_scope
prepare-IsRunTable id token ref deadline now runs set range t =
    update-IsRunTable Any (preparable id token) (prepare ref deadline now) runs
      (record {
        valid = λ x _ e v. ground arith;
        same_id = λ x. refl;
        token = λ t x _ e h. h;
        active = λ x _ e h. h;
        scope = λ key x _ e h. h;
      })
      (all-Any runs) t

pub run_now-IsRunTable :
    (run : Run) (id : Bytes) (now : ℕ) (runs : List Run)
    → find_run id runs ≡ some run
    → is_dispatching run.state ≡ true
    → run.start_prepared ≡ true
    → IsRunTable runs
    → IsRunTable (update_where (has_id id) (run_now now) runs)
unfolding holds_scope
run_now-IsRunTable run id now runs found state prepared t =
    update-IsRunTable (Only run (has_id id)) (has_id id) (run_now now) runs
      (record {
        valid = λ x o e v.
            let same = o e in
            ground (arith, ap (λ (r : Run). r.state) same, ap (λ (r : Run). r.start_prepared) same);
        same_id = λ x. refl;
        token = λ t x o e h. h;
        active = λ x o e h. rw (o e) (ground arith);
        scope = λ key x o e h. let same = o e in ground (arith, ap (λ (r : Run). r.state) same);
      })
      (Only-row run id runs t found) t

-- What validateFinish ensures of a terminal result.
pub record IsResult (input : FinishRunInput) : Type 0 where
  pub terminal : is_terminal input.state ≡ true
  pub failure : is_set input.failure_code ≡ (is_failed input.state || is_interrupted input.state)
  pub failed_needs_code : is_failed input.state ≡ true → failed_code input.failure_code ≡ true
  pub interrupted_needs_code :
      is_interrupted input.state ≡ true → is_interruption input.failure_code ≡ true
  pub session : is_empty input.result_session_ref ≡ false → is_completed input.state ≡ true

finish-IsValidRun :
    (run x : Run) (input : FinishRunInput) (now : ℕ)
    → IsResult input
    → IsValidRun x
    → x.state ≡ run.state
    → x.start_prepared ≡ run.start_prepared
    → is_active run.state ≡ true
    → run.start_prepared ≡ true
    → IsValidRun (finish input now x)
finish-IsValidRun run x input now result v state same active prepared = record {
  output = ground (arith, result.terminal);
  failure = result.failure;
  failed_needs_code = result.failed_needs_code;
  interrupted_needs_code = result.interrupted_needs_code;
  session_of_completed = λ h. result.session (ground arith);
  prepared_deadline = v.prepared_deadline;
  prepared_session = v.prepared_session;
  deadline_range = v.deadline_range;
  started_prepared = λ h. cc;
  token_unless_queued = ground (arith, result.terminal, v.token_unless_queued);
  expiry_when_dispatching = ground (arith, result.terminal);
}

pub finish-IsRunTable :
    (run : Run) (input : FinishRunInput) (now : ℕ) (runs : List Run)
    → IsResult input
    → find_run input.run_id runs ≡ some run
    → is_active run.state ≡ true
    → run.start_prepared ≡ true
    → IsRunTable runs
    → IsRunTable (update_where (has_id input.run_id) (finish input now) runs)
unfolding holds_scope
finish-IsRunTable run input now runs result found active prepared t =
    update-IsRunTable (Only run (has_id input.run_id)) (has_id input.run_id) (finish input now) runs
      (record {
        valid = λ x o e v.
            let state = ap (λ (r : Run). r.state) (o e) in
            let prepared_x = ap (λ (r : Run). r.start_prepared) (o e) in
            finish-IsValidRun run x input now result v state prepared_x active prepared;
        same_id = λ x. refl;
        token = λ t x o e h. h;
        active = λ x o e h. ground (arith, result.terminal);
        scope = λ key x o e h. ground (arith, result.terminal);
      })
      (Only-row run input.run_id runs t found) t

-- A finish that passes validateFinish is a terminal result.
pub validate_finish_state-IsResult :
    (input : FinishRunInput) → validate_finish_state input.state input ≡ ok tt → IsResult input
unfolding validate_finish_state
validate_finish_state-IsResult input h = ground arith

pub validate_finish-IsResult :
    (input : FinishRunInput) → validate_finish input ≡ ok tt → IsResult input
unfolding validate_finish
validate_finish-IsResult input h = validate_finish_state-IsResult input (ground arith)

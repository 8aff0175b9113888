-- ===== src/CoreStore/Trace/Evolution/Steps.antt =====
-- Every operation of the store moves a stored Run along its life.
use mathlib.Core.Bool.{false≢true}
use mathlib.Core.Option.{some-injective}
use harness_security_gateway.Prelude.Tables.Laws.{find_where_sound}
use harness_security_gateway.Prelude.{
  ℕ, ◌≡◌, refl, sym, ◌∙◌, inl, inr, true, Option, none, some, List, arith, Bool-cases, &&-true_left,
  &&-true_right,
}
use harness_security_gateway.Prelude.Bytes.{Bytes, beq→≡}
use harness_security_gateway.Prelude.Results.{Result, ok, >>-ok}
use harness_security_gateway.Prelude.Tables.{exists_where, update_where}
use harness_security_gateway.CoreStore.Types.{
  Error, Run, RunState, Db, queued, dispatching, is_terminal, is_active, is_queued, is_dispatching,
  is_running, FinishRunInput, PrepareRunStartInput, TextDeliveryInput, AdmissionOptions,
}
use harness_security_gateway.CoreStore.Validate.{validate_finish}
use harness_security_gateway.CoreStore.Tables.{has_id, find_run}
use harness_security_gateway.CoreStore.Tables.Keeps.{Keeps, Keeps-attempt, Keeps-if, Keeps-pair}
use harness_security_gateway.CoreStore.Dispatch.{
  release_expired, requeue, expired_dispatch, dispatch, claimable, claim_next, claim_queued_run,
  prepare, preparable, prepare_run_start, run_now, mark_run_running,
}
use harness_security_gateway.CoreStore.Finish.{finish, finish_run, finish_run_row}
use harness_security_gateway.CoreStore.Finish.Reply.{insert_reply-same_runs}
use harness_security_gateway.CoreStore.Invariant.Changes.{IsResult, validate_finish-IsResult}
use harness_security_gateway.CoreStore.Invariant.Operations.{guard_holds, not-true, or_error-some}
use harness_security_gateway.CoreStore.Trace.Evolution.{
  Reaches, is_claimed, is_released, is_started, is_finished, Evolves-change, Survives,
  Survives-update,
}

-- The states that a test of a row allows.
Reaches-queued :
    (s : RunState) (x : Run) → is_queued x.state ≡ true → Reaches s x.state → Reaches s queued
Reaches-queued s x h m = go x.state h m
  where
    go : (t : RunState) → is_queued t ≡ true → Reaches s t → Reaches s queued
    go RunState.queued h m = m
    go RunState.dispatching h m = cc
    go RunState.running h m = cc
    go RunState.completed h m = cc
    go RunState.failed h m = cc
    go RunState.cancelled h m = cc
    go RunState.interrupted h m = cc

Reaches-dispatching :
    (s : RunState) (x : Run)
    → is_dispatching x.state ≡ true
    → Reaches s x.state
    → Reaches s dispatching
Reaches-dispatching s x h m = go x.state h m
  where
    go : (t : RunState) → is_dispatching t ≡ true → Reaches s t → Reaches s dispatching
    go RunState.dispatching h m = m
    go RunState.queued h m = cc
    go RunState.running h m = cc
    go RunState.completed h m = cc
    go RunState.failed h m = cc
    go RunState.cancelled h m = cc
    go RunState.interrupted h m = cc

module _ (id : Bytes) (r : Run) where
  release_expired-Survives :
      (now : ℕ) (runs : List Run) → Survives id r runs → Survives id r (release_expired now runs)
  unfolding release_expired
  release_expired-Survives now runs s =
      Survives-update id r (expired_dispatch now) (requeue now) runs s (λ x. refl)
        (λ x _ e h.
          Evolves-change r x (requeue now x) e refl (ground arith)
            (is_released (Reaches-dispatching r.state x (&&-true_left _ _ h) e.moves)) (λ _. refl))

  dispatch-Survives :
      (waiting token : Bytes) (expires now : ℕ) (runs : List Run)
      → Survives id r runs
      → Survives id r (update_where (claimable waiting) (dispatch token expires now) runs)
  dispatch-Survives waiting token expires now runs s =
      Survives-update id r (claimable waiting) (dispatch token expires now) runs s (λ x. refl)
        (λ x _ e h.
          Evolves-change r x (dispatch token expires now x) e refl (ground arith)
            (is_claimed (Reaches-queued r.state x (&&-true_right _ _ h) e.moves)) (λ _. refl))

  claim_next-Survives :
      (lease now : ℕ) (new_token : Result Error Bytes) (db released : Db) (next : Option Run)
      → Survives id r db.runs
      → Survives id r released.runs
      → Keeps (λ d. Survives id r d.runs) (claim_next lease now new_token db released next)
  unfolding claim_next
  claim_next-Survives lease now new_token db released none s k = Keeps-pair _ _ k
  claim_next-Survives lease now new_token db released (some run) s k =
      Keeps-attempt new_token db _ s λ token _. Keeps-attempt _ db _ s λ _ _.
        Keeps-attempt _ db _ s λ expires _. Keeps-attempt _ db _ s λ _ _.
          Keeps-attempt _ db _ s
            λ _ _. Keeps-pair _ _ (dispatch-Survives run.id token expires now released.runs k)

  pub claim_queued_run-Survives :
      (lease clock : ℕ) (new_token : Result Error Bytes) (db : Db)
      → Survives id r db.runs
      → Keeps (λ d. Survives id r d.runs) (claim_queued_run lease clock new_token db)
  unfolding claim_queued_run
  claim_queued_run-Survives lease clock new_token db s = Keeps-attempt _ db _ s λ now _.
      let k = release_expired-Survives now db.runs s in
      Keeps-if (exists_where (λ r. is_active r.state) (release_expired now db.runs)) _ _
        (λ _. Keeps-pair _ _ k) λ _. claim_next-Survives lease now new_token db _ _ s k

  pub prepare_run_start-Survives :
      (clock : ℕ) (input : PrepareRunStartInput) (db : Db)
      → Survives id r db.runs
      → Keeps (λ d. Survives id r d.runs) (prepare_run_start clock input db)
  unfolding prepare_run_start
  prepare_run_start-Survives clock input db s = Keeps-attempt _ db _ s λ now _.
      Keeps-attempt _ db _ s λ _ _. Keeps-attempt _ db _ s λ run _. Keeps-attempt _ db _ s λ _ _.
        Keeps-if run.start_prepared _ _ (λ _. Keeps-pair _ db s)
          λ _. Keeps-attempt _ db _ s λ _ _. Keeps-attempt _ db _ s λ _ _. Keeps-pair _ _ (
            Survives-update id r (preparable run.id input.dispatch_token)
              (prepare input.session_ref input.deadline now) db.runs s (λ x. refl)
              (λ x _ e h.
                Evolves-change r x (prepare input.session_ref input.deadline now x) e refl
                  (ground arith) e.moves
                  (λ y. absurd (false≢true (sym (not-true _ (&&-true_right _ _ h)) ∙ y)))))

  -- The row under an identifier that an operation read is the one that it changes.
  the_row :
      (run_id : Bytes) (run x : Run) (runs : List Run)
      → find_run run_id runs ≡ some run
      → find_run id runs ≡ some x
      → has_id run_id x ≡ true
      → x ≡ run
  unfolding find_run has_id
  the_row run_id run x runs found here same =
      let one : id ≡ run_id =
        sym (beq→≡ x.id id (find_where_sound (has_id id) runs x here)) ∙ beq→≡ x.id run_id same in
      some-injective x run (sym here ∙ rw one found)

  pub mark_run_running-Survives :
      (clock : ℕ) (run_id token : Bytes) (db : Db)
      → Survives id r db.runs
      → Keeps (λ d. Survives id r d.runs) (mark_run_running clock run_id token db)
  unfolding mark_run_running
  mark_run_running-Survives clock run_id token db s = Keeps-attempt _ db _ s λ now _.
      Keeps-attempt _ db _ s λ run found. Keeps-attempt _ db _ s λ _ _.
        Keeps-if (is_running run.state) _ _ (λ _. Keeps-pair _ db s)
          λ _. Keeps-attempt _ db _ s λ u live. Keeps-attempt _ db _ s λ _ _.
            Keeps-attempt _ db _ s λ _ _. Keeps-pair _ _ (
              Survives-update id r (has_id run_id) (run_now now) db.runs s (λ x. refl)
                (λ x here e h.
                  let one = the_row run_id run x db.runs (or_error-some _ _ run found) here h in
                  let d : is_dispatching x.state ≡ true = rw one (guard_holds _ _ u live) in
                  Evolves-change r x (run_now now x) e refl (ground arith)
                    (is_started (Reaches-dispatching r.state x d e.moves)) (λ _. refl)))

  finish_run_row-Survives :
      (run : Run) (input : FinishRunInput) (now : ℕ) (db db' : Db)
      → IsResult input
      → find_run input.run_id db.runs ≡ some run
      → Survives id r db.runs
      → finish_run_row run input now db ≡ ok db'
      → Survives id r db'.runs
  unfolding finish_run_row
  finish_run_row-Survives run input now db db' result found s h =
      elim (Bool-cases (is_terminal run.state)) [
        | inl e ↦ let kept : db ≡ db' = ground arith in rw (← kept) s
        | inr live ↦
            let changed : db'.runs ≡ update_where (has_id input.run_id) (finish input now) db.runs =
              ground arith in
            let active : is_active run.state ≡ true = ground arith in
            rw changed (
              Survives-update id r (has_id input.run_id) (finish input now) db.runs s (λ x. refl)
                (λ x here e same.
                  let one = the_row input.run_id run x db.runs found here same in
                  Evolves-change r x (finish input now x) e refl (rw one live)
                    (is_finished (rw one active) result.terminal e.moves) (λ _. refl)))
      ]

  same_runs : (runs runs' : List Run) → runs' ≡ runs → Survives id r runs → Survives id r runs'
  same_runs runs runs' e s = rw e s

  pub finish_run-Survives :
      (options : AdmissionOptions) (clock : ℕ) (input : FinishRunInput)
      (reply : Option TextDeliveryInput) (db : Db)
      → Survives id r db.runs
      → Keeps (λ d. Survives id r d.runs) (finish_run options clock input reply db)
  unfolding finish_run
  finish_run-Survives options clock input reply db s = Keeps-attempt _ db _ s λ now valid.
      Keeps-attempt _ db _ s λ run found. Keeps-attempt _ db _ s λ _ _.
        Keeps-attempt _ db _ s λ _ _. Keeps-attempt _ db _ s λ _ _.
          Keeps-attempt _ db _ s λ finished row. Keeps-attempt _ db _ s λ done inserted.
            let after : Survives id r finished.runs =
              finish_run_row-Survives run input now db finished
                (validate_finish-IsResult input (>>-ok (validate_finish input) _ valid))
                (or_error-some _ _ run found) s row in
            Keeps-pair _ done (
              same_runs finished.runs done.runs
                (insert_reply-same_runs options run reply now finished done inserted) after)

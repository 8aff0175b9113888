-- ===== src/CoreStore/Finish/Repeat.antt =====
-- FinishRun repeated with the same result and the same reply.

use harness_security_gateway.Prelude.{
  ℕ, suc, ◌≡◌, refl, ◌∙◌, inl, inr, Bool, true, Option, none, some, List, [], ◌∷◌, arith,
  Bool-cases,
}
use harness_security_gateway.Prelude.Bytes.{Bytes, beq, beq_refl, coalesce}
use harness_security_gateway.Prelude.Results.{ok, >>-ok, guard}
use harness_security_gateway.Prelude.Tables.{update_where}
use harness_security_gateway.Prelude.Tables.Laws.{find_where-update, find_where_sound}
use harness_security_gateway.CoreStore.Types.{
  Error, start_unprepared, AdmissionOptions, Run, RunState, FinishRunInput, TextDeliveryInput, Db,
  is_terminal, RunFailureCode,
}
use harness_security_gateway.CoreStore.Validate.{validate_finish, now_millis, is_set}
use harness_security_gateway.CoreStore.Tables.{attempt, has_id, find_run}
use harness_security_gateway.CoreStore.Tables.Keeps.{Ensures, Ensures-attempt, Ensures-pair}
use harness_security_gateway.CoreStore.Finish.{
  finish, finish_run, finish_run_row, insert_reply, same_finish, same_code, same_optional, optional,
  validate_reply,
}
use harness_security_gateway.CoreStore.Invariant.Changes.{IsResult, validate_finish-IsResult}
use harness_security_gateway.CoreStore.Invariant.Operations.{guard_holds, or_error-some}
use harness_security_gateway.CoreStore.Finish.Reply.{insert_reply-again, insert_reply-same_runs}

same_code_refl : (code : Option RunFailureCode) → is_set code ≡ true → same_code code code ≡ true
same_code_refl none h = cc
same_code_refl (some code) h = ground arith

same_optional_refl : (ref : Bytes) → same_optional (optional ref) ref ≡ true
same_optional_refl [] = refl
same_optional_refl (c ∷ ref) = beq_refl (c ∷ ref)

-- The stored result is the one that was given.
same_finish-finish :
    (input : FinishRunInput) (now : ℕ) (run : Run)
    → IsResult input
    → same_finish (finish input now run) input ≡ true
same_finish-finish input now run result = go input.state refl
  where
    go : (state : RunState) → input.state ≡ state → same_finish (finish input now run) input ≡ true
    go RunState.completed e = ground (
      arith,
      beq_refl input.output_text,
      same_optional_refl input.result_session_ref,
      result.failure,
    )
    go RunState.failed e = ground (arith, same_code_refl input.failure_code, result.failure)
    go RunState.interrupted e = ground (arith, same_code_refl input.failure_code, result.failure)
    go RunState.cancelled e = ground (arith, result.failure)
    go RunState.queued e = ground (arith, result.terminal)
    go RunState.dispatching e = ground (arith, result.terminal)
    go RunState.running e = ground (arith, result.terminal)

-- A Run whose terminal result is that of the input.
record IsFinished (input : FinishRunInput) (run : Run) (db : Db) : Type 0 where
  row : Run
  found : find_run input.run_id db.runs ≡ some row
  same_id : row.id ≡ run.id
  same_token : row.dispatch_token ≡ run.dispatch_token
  same_prepared : row.start_prepared ≡ run.start_prepared
  terminal : is_terminal row.state ≡ true
  result : same_finish row input ≡ true

find-finished :
    (input : FinishRunInput) (now : ℕ) (run : Run) (runs : List Run)
    → find_run input.run_id runs ≡ some run
    → find_run input.run_id (update_where (has_id input.run_id) (finish input now) runs)
      ≡ some (finish input now run)
unfolding find_run has_id
find-finished input now run runs found =
    rw
      (
        find_where-update _ _ (finish input now) runs (λ x. refl),
        found,
        find_where_sound _ runs run found,
      )
      refl

finish_run_row-IsFinished :
    (run : Run) (input : FinishRunInput) (now : ℕ) (db db' : Db)
    → IsResult input
    → find_run input.run_id db.runs ≡ some run
    → finish_run_row run input now db ≡ ok db'
    → IsFinished input run db'
unfolding finish_run_row
finish_run_row-IsFinished run input now db db' result found h =
    elim (Bool-cases (is_terminal run.state)) [
      | inl e ↦
          let kept : db ≡ db' = ground arith in
          record {
            row = run;
            found = rw (← kept) found;
            same_id = refl;
            same_token = refl;
            same_prepared = refl;
            terminal = e;
            result = ground arith;
          }
      | inr e ↦
          let changed : db'.runs ≡ update_where (has_id input.run_id) (finish input now) db.runs =
            ground arith in
          record {
            row = finish input now run;
            found = rw changed (find-finished input now run db.runs found);
            same_id = refl;
            same_token = refl;
            same_prepared = refl;
            terminal = result.terminal;
            result = same_finish-finish input now run result;
          }
    ]

finish_run_row-settled :
    (row : Run) (input : FinishRunInput) (now : ℕ) (db : Db)
    → is_terminal row.state ≡ true
    → same_finish row input ≡ true
    → finish_run_row row input now db ≡ ok db
unfolding finish_run_row
finish_run_row-settled row input now db terminal same = ground arith

guard-ok : (b : Bool) (e : Error) → b ≡ true → guard b e ≡ ok tt
guard-ok b e h = rw h refl

repeated :
    (options : AdmissionOptions) (clock : ℕ) (input : FinishRunInput)
    (reply : Option TextDeliveryInput) (row : Run) (db : Db)
    → validate_finish input ≡ ok tt
    → find_run input.run_id db.runs ≡ some row
    → beq (coalesce row.dispatch_token) input.dispatch_token ≡ true
    → guard row.start_prepared start_unprepared ≡ ok tt
    → validate_reply reply ≡ ok tt
    → finish_run_row row input (suc clock) db ≡ ok db
    → insert_reply options row reply (suc clock) db ≡ ok db
    → finish_run options (suc clock) input reply db ≡ (ok tt, db)
unfolding finish_run attempt now_millis
repeated options clock input reply row db valid found token prepared reply_ok settled again =
    rw (valid, found) (rw token (rw prepared (rw reply_ok (rw settled (rw again refl)))))

finish_run-Ensures :
    (options : AdmissionOptions) (clock later : ℕ) (input : FinishRunInput)
    (reply : Option TextDeliveryInput) (db : Db)
    → Ensures
        (λ r db'. r ≡ ok tt → finish_run options (suc later) input reply db' ≡ (ok tt, db'))
        (finish_run options clock input reply db)
unfolding finish_run
finish_run-Ensures options clock later input reply db =
    Ensures-attempt _ db _ (λ _ _ h. cc)
      λ now valid.
        Ensures-attempt _ db _ (λ _ _ h. cc)
          λ run found.
            Ensures-attempt _ db _ (λ _ _ h. cc)
              λ u token.
                Ensures-attempt _ db _ (λ _ _ h. cc)
                  λ v prepared.
                    Ensures-attempt _ db _ (λ _ _ h. cc)
                      λ w reply_ok.
                        Ensures-attempt _ db _ (λ _ _ h. cc)
                          λ finished row.
                            Ensures-attempt _ db _ (λ _ _ h. cc)
                              λ done inserted. Ensures-pair _ done λ _.
                                let valid_input = >>-ok (validate_finish input) _ valid in
                                let f =
                                  finish_run_row-IsFinished run input now db finished
                                    (validate_finish-IsResult input valid_input)
                                    (or_error-some _ _ run found) row in
                                repeated options later input reply f.row done valid_input
                                  (rw
                                    (insert_reply-same_runs options run reply now finished done
                                      inserted)
                                    f.found)
                                  (rw f.same_token (guard_holds _ _ u token))
                                  (guard-ok _ _ (f.same_prepared ∙ guard_holds _ _ v prepared))
                                  reply_ok
                                  (finish_run_row-settled f.row input (suc later) done f.terminal
                                    f.result)
                                  (insert_reply-again options run f.row reply now (suc later)
                                    finished done f.same_id inserted)

-- FinishRun can be repeated: once it has succeeded, the same call with the same reply succeeds again
-- at any later clock and leaves the database as it is.
pub finish_run-repeats :
    (options : AdmissionOptions) (clock later : ℕ) (input : FinishRunInput)
    (reply : Option TextDeliveryInput) (db : Db)
    → (finish_run options clock input reply db).0 ≡ ok tt
    → finish_run options (suc later) input reply (finish_run options clock input reply db).1
      ≡ (ok tt, (finish_run options clock input reply db).1)
finish_run-repeats options clock later input reply db h =
    (finish_run-Ensures options clock later input reply db).holds h

-- ===== src/SandboxStore/History/Steps.antt =====
-- The steps of one Run keep its history.
use harness_security_gateway.Prelude.{
  ap, ℕ, ◌+◌, ◌<◌, ◌≡◌, refl, sym, ◌∙◌, Bool, true, false, not, Option, List, [], ◌∷◌, ◌++◌, map,
  arith, ◌==◌, ==→≡,
}
use harness_security_gateway.Prelude.Bytes.{Bytes}
use harness_security_gateway.Prelude.Results.{
  Result, ok, err, >>-ok, >>-ok_right, guard-passed, >>=-eq-ok, ok-injective,
}
use harness_security_gateway.ExecutionWire.{
  RunState, cancelling, RunEventType, RunEvent, validate_event, matches_final, final_type,
}
use harness_security_gateway.SandboxStore.Types.{
  event_sequence, invalid_argument, illegal_transition, SessionMapping, RunRow, EventRow,
}
use harness_security_gateway.SandboxStore.Validate.{as_argument}
use harness_security_gateway.SandboxStore.Tables.{intent_readable, is_terminal}
use harness_security_gateway.SandboxStore.Events.{
  transition, is_ongoing, event_row, validate_run_event, mapping_placed, leaves_room, intent_allows,
  validate_result, advance, interruption, interrupt,
}
use harness_security_gateway.SandboxStore.Runtime.{cancel_run}
use harness_security_gateway.SandboxStore.Snapshot.{stored_event}
use harness_security_gateway.SandboxStore.History.{
  IsHistory, push-IsHistory, final_fits, transition-matches, transition-active, transition-ongoing,
  transition-valid,
}

pub as_argument-ok : {E : Type 0} (r : Result E (Unit {0})) → as_argument r ≡ ok tt → r ≡ ok tt
as_argument-ok (ok _) h = refl
as_argument-ok (err e) h = cc

-- What validateRunEvent has checked.
pub record IsChecked (row : RunRow) (event : RunEvent) (mapping : Option SessionMapping)
    (next : RunState) : Type 0 where
  pub valid : validate_event event ≡ ok tt
  pub seq : event.seq ≡ row.last_event_seq + 1
  pub reserved : is_ongoing event.event_type ≡ true → event.seq < 512
  pub moved : transition row.state event.event_type ≡ ok next
  pub result : validate_result row event mapping ≡ ok tt

pub validate_run_event-IsChecked :
    (row : RunRow) (event : RunEvent) (mapping : Option SessionMapping) (next : RunState)
    → validate_run_event row event mapping ≡ ok next
    → IsChecked row event mapping next
unfolding validate_run_event
validate_run_event-IsChecked row event mapping next h =
    let rest = >>-ok_right (as_argument (validate_event event)) _ h in
    let (seq, after_seq) =
      guard-passed (event.seq == row.last_event_seq + 1) event_sequence _ rest in
    let (_, after_mapping) =
      guard-passed (mapping_placed event mapping) invalid_argument _ after_seq in
    let (room, after_room) = guard-passed (leaves_room event) event_sequence _ after_mapping in
    let (state, moved, last) = >>=-eq-ok (transition row.state event.event_type) _ after_room in
    let (_, after_intent) = guard-passed (intent_allows row state) illegal_transition _ last in
    let same = ok-injective (>>-ok_right (validate_result row event mapping) _ after_intent) in
    record {
      valid = as_argument-ok (validate_event event) (>>-ok _ _ h);
      seq = ==→≡ event.seq (row.last_event_seq + 1) seq;
      reserved = λ ongoing. has_room event ongoing room;
      moved = moved ∙ ap ok same;
      result = >>-ok (validate_result row event mapping) _ after_intent;
    }
  where
    has_room : (e : RunEvent) → is_ongoing e.event_type ≡ true → leaves_room e ≡ true → e.seq < 512
    has_room e ongoing h = ground arith

-- A Run has ended once its event is not one that leaves it going on.
pub validate_run_event-ends :
    (row : RunRow) (event : RunEvent) (mapping : Option SessionMapping) (next : RunState)
    → validate_run_event row event mapping ≡ ok next
    → is_ongoing event.event_type ≡ false
    → is_terminal next ≡ true
validate_run_event-ends row event mapping next h final =
    transition-ongoing row.state event.event_type next
      (validate_run_event-IsChecked row event mapping next h).moved
    ∙ ap not final

-- Only a Run that has not ended gets an event.
pub validate_run_event-active :
    (row : RunRow) (event : RunEvent) (mapping : Option SessionMapping) (next : RunState)
    → validate_run_event row event mapping ≡ ok next
    → is_terminal row.state ≡ false
validate_run_event-active row event mapping next h =
    transition-active row.state event.event_type next
      (validate_run_event-IsChecked row event mapping next h).moved

-- An event that validateRunEvent accepts is added to the history.
pub advance-IsHistory :
    (r : RunRow) (es : List EventRow) (event : RunEvent) (mapping : Option SessionMapping)
    (next : RunState) (now : ℕ)
    → IsHistory r es
    → event.run_id ≡ r.run_id
    → validate_run_event r event mapping ≡ ok next
    → IsHistory (advance next event now r) (es ++ event_row event ∷ [])
unfolding advance
advance-IsHistory r es event mapping next now h same checked =
    let c = validate_run_event-IsChecked r event mapping next checked in
    push-IsHistory r (advance next event now r) es event h c.valid same c.seq
      (transition-matches r.state event.event_type next c.moved)
      (transition-valid r.state event.event_type next c.moved)
      (λ active. c.reserved (ongoing _ (sym (transition-ongoing _ _ _ c.moved) ∙ active))) refl refl
      h.readable refl
  where
    ongoing : (b : Bool) → not b ≡ false → b ≡ true
    ongoing true h = refl
    ongoing false h = cc

-- The interruption that ReconcileInterrupted invents is added to the history.
pub interrupt-IsHistory :
    (r : RunRow) (es : List EventRow) (id message : Bytes) (now : ℕ)
    → IsHistory r es
    → id ≡ r.run_id
    → validate_event (interruption id (r.last_event_seq + 1) message) ≡ ok tt
    → IsHistory
        (interrupt (r.last_event_seq + 1) message now r)
        (es ++ event_row (interruption id (r.last_event_seq + 1) message) ∷ [])
unfolding matches_final
interrupt-IsHistory r es id message now h same valid =
    push-IsHistory r (interrupt (r.last_event_seq + 1) message now r) es
      (interruption id (r.last_event_seq + 1) message) h valid same refl refl refl (λ active. cc)
      refl refl refl refl

cancelling-fits :
    (s : RunState) (es : List RunEvent)
    → is_terminal s ≡ false
    → final_fits s es ≡ true
    → final_fits cancelling es ≡ true
unfolding final_fits matches_final
cancelling-fits s [] active h = refl
cancelling-fits s (e ∷ es) active h = go s (final_type e es) active h
  where
    go :
        (s : RunState) (t : RunEventType)
        → is_terminal s ≡ false
        → matches_final s t ≡ true
        → matches_final cancelling t ≡ true
    go s t active h = ground arith

-- A cancellation request leaves the events as they are.
pub cancel-IsHistory :
    (r : RunRow) (es : List EventRow) (now : ℕ)
    → IsHistory r es
    → is_terminal r.state ≡ false
    → IsHistory (cancel_run now r) es
cancel-IsHistory r es now h active = record {
  named = h.named;
  scoped = h.scoped;
  readable = h.readable;
  known = refl;
  listed = h.listed;
  counted = h.counted;
  final = cancelling-fits r.state (map stored_event es) active h.final;
  room = λ _. h.room active;
  bounded = h.bounded;
}

-- A change of the runtime's columns leaves the history as it is.
pub IsHistory-runtime :
    (r : RunRow) (es : List EventRow) (pending : Bool) (boot ref : Option Bytes) (now : ℕ)
    → IsHistory r es
    → intent_readable pending boot ≡ true
    → IsHistory
        (record r {
          runtime_ref = ref;
          runtime_intent_pending = pending;
          runtime_intent_boot_id = boot;
          updated_at = now;
        })
        es
IsHistory-runtime r es pending boot ref now h readable = record {
  named = h.named;
  scoped = h.scoped;
  readable = readable;
  known = h.known;
  listed = h.listed;
  counted = h.counted;
  final = h.final;
  room = h.room;
  bounded = h.bounded;
}

-- ===== src/CoreStore/Trace/Evolution.antt =====
-- How one operation may change a stored Run.
pub mod Steps
pub mod Compaction
pub mod Life
use mathlib.Core.Bool.{false≢true}
use harness_security_gateway.Prelude.{
  ℕ, ◌+◌, ◌≤◌, ◌<◌, ◌≡◌, refl, sym, ◌∙◌, ap, ◌⊎◌, inl, inr, Bool, true, false, not, ◌&&◌, Option,
  none, some, List, [], ◌∷◌, arith, Bool-cases, if◌then◌else◌, &&-true_left, &&-true_right,
}
use harness_security_gateway.Prelude.Bytes.{Bytes, beq}
use harness_security_gateway.Prelude.Tables.{
  find_where, exists_where, count_where, update_where, delete_where, insert_row,
}
use harness_security_gateway.Prelude.Tables.Laws.{
  find_where-update, find_where-insert, find_where-exists, find_where_sound, find_where-not-exists,
  exists_where-delete_le, count_where-not-exists, exists_where-count_pos,
}
use harness_security_gateway.CoreStore.Types.{
  Run, RunState, queued, dispatching, running, Db, is_terminal, is_active, is_queued,
  is_dispatching,
}
use harness_security_gateway.CoreStore.Tables.{has_id, find_run}

-- The steps of a Run's life, from a state: it is claimed from the queue, goes back to it, starts,
-- and finishes from either active state.
pub data Reaches : RunState → RunState → Type 0 where
  stays : {s : RunState} → Reaches s s
  is_claimed : {s : RunState} → Reaches s queued → Reaches s dispatching
  is_released : {s : RunState} → Reaches s dispatching → Reaches s queued
  is_started : {s : RunState} → Reaches s dispatching → Reaches s running
  is_finished :
      {s t u : RunState} → is_active t ≡ true → is_terminal u ≡ true → Reaches s t → Reaches s u

-- What is written when a Run is admitted.
pub record Evidence : Type 0 where
  pub id : Bytes
  pub connector_id : Bytes
  pub event_id : Bytes
  pub actor_ref : Bytes
  pub conversation_ref : Bytes
  pub message_ref : Bytes
  pub target_id : Bytes
  pub target_revision : Bytes
  pub binding_fingerprint : Bytes
  pub policy_revision : Bytes
  pub input_text : Bytes
  pub created_at : ℕ

abbrev pub evidence : Run → Evidence
evidence r = record {
  id = r.id;
  connector_id = r.connector_id;
  event_id = r.event_id;
  actor_ref = r.actor_ref;
  conversation_ref = r.conversation_ref;
  message_ref = r.message_ref;
  target_id = r.target_id;
  target_revision = r.target_revision;
  binding_fingerprint = r.binding_fingerprint;
  policy_revision = r.policy_revision;
  input_text = r.input_text;
  created_at = r.created_at;
}

-- What PrepareRunStart writes.
pub record Start : Type 0 where
  pub prepared : Bool
  pub session_ref : Option Bytes
  pub deadline : Option ℕ

abbrev pub start_of : Run → Start
start_of r = record {
  prepared = r.start_prepared;
  session_ref = r.start_session_ref;
  deadline = r.start_deadline;
}

-- A Run keeps what was admitted, and its start once prepared; its state moves along the steps, and
-- nothing of a terminal Run changes.
pub record Evolves (r r' : Run) : Type 0 where
  pub same_evidence : evidence r' ≡ evidence r
  pub moves : Reaches r.state r'.state
  pub keeps_start : r.start_prepared ≡ true → start_of r' ≡ start_of r
  pub settled : is_terminal r.state ≡ true → r' ≡ r

pub Evolves-refl : (r : Run) → Evolves r r
Evolves-refl r = record {
  same_evidence = refl;
  moves = stays;
  keeps_start = λ _. refl;
  settled = λ _. refl;
}

-- One change of a row that is not terminal.
pub Evolves-change :
    (r x y : Run)
    → Evolves r x
    → evidence y ≡ evidence x
    → is_terminal x.state ≡ false
    → Reaches r.state y.state
    → (x.start_prepared ≡ true → start_of y ≡ start_of x)
    → Evolves r y
Evolves-change r x y e same live moves start = record {
  same_evidence = same ∙ e.same_evidence;
  moves = moves;
  keeps_start = λ h. start (ap (λ (s : Start). s.prepared) (e.keeps_start h) ∙ h) ∙ e.keeps_start h;
  settled =
      λ h. absurd (false≢true (sym live ∙ ap (λ (x : Run). is_terminal x.state) (e.settled h) ∙ h));
}

-- The Run under an identifier has evolved from `r`.
pub record Survives (id : Bytes) (r : Run) (runs : List Run) : Type 0 where
  pub row : Run
  pub found : find_run id runs ≡ some row
  pub evolves : Evolves r row

pub Survives-update :
    (id : Bytes) (r : Run) (q : Run → Bool) (f : Run → Run) (runs : List Run)
    → Survives id r runs
    → ((x : Run) → (f x).id ≡ x.id)
    → ((x : Run) → find_run id runs ≡ some x → Evolves r x → q x ≡ true → Evolves r (f x))
    → Survives id r (update_where q f runs)
unfolding find_run has_id
Survives-update id r q f runs s same change =
    let found : find_where (has_id id) (update_where q f runs)
        ≡ some (if q s.row then f s.row else s.row) =
      rw (find_where-update (has_id id) q f runs (λ x. rw (same x) refl), s.found) refl in
    elim (Bool-cases (q s.row)) [
      | inl e ↦ record {
        row = f s.row;
        found = rw e at found;
        evolves = change s.row s.found s.evolves e;
      }
      | inr e ↦ record { row = s.row; found = rw e at found; evolves = s.evolves }
    ]

pub Survives-insert :
    (id : Bytes) (r x : Run) (runs : List Run)
    → Survives id r runs
    → Survives id r (insert_row x runs)
unfolding find_run
Survives-insert id r x runs s = record {
  row = s.row;
  found = rw (find_where-insert, find_where-exists (has_id id) runs s.row s.found) s.found;
  evolves = s.evolves;
}

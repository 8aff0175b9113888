-- ===== src/SandboxStore/Invariant.antt =====
-- The ledger's histories: every Run's row agrees with its events, and every event has a Run.
pub mod Operations
pub mod Runtimes
pub mod Outcomes
pub mod Admission
use mathlib.Core.Option
use harness_security_gateway.Prelude.{
  ap, ℕ, ◌≡◌, refl, sym, ◌∙◌, ◌⊎◌, inl, inr, Bool, true, false, ◌&&◌, Option, none, some, List, [],
  ◌∷◌, ◌++◌, arith, if◌then◌else◌, Bool-cases, Option-cases,
}
use harness_security_gateway.Prelude.Bytes.{Bytes, codes, beq, beq→≡, beq_refl, beq_comm}
use harness_security_gateway.Prelude.Tables.{
  find_where, select_where, exists_where, update_where, insert_row,
}
use harness_security_gateway.Prelude.Tables.Laws.{
  find_where_sound, find_where-update, find_where-insert, find_where-none, find_where-exists,
  select_where-insert,
}
use harness_security_gateway.SandboxStore.Types.{RunRow, EventRow, Ledger}
use harness_security_gateway.SandboxStore.Tables.{has_run_id, is_terminal}
use harness_security_gateway.SandboxStore.Snapshot.{event_for}
use harness_security_gateway.SandboxStore.History.{IsHistory}

-- The history of the Run that a row stands for, and no events where there is no row.
abbrev pub HistoryOf : Option RunRow → List EventRow → Type 0
HistoryOf none es = es ≡ []
HistoryOf (some r) es = IsHistory r es

abbrev pub row_of : Bytes → List RunRow → Option RunRow
row_of id runs = find_where (has_run_id id) runs

abbrev pub events_of : Bytes → List EventRow → List EventRow
events_of id events = select_where (event_for id) events

pub record AreHistories (runs : List RunRow) (events : List EventRow) : Type 0 where
  pub of_run : (k : Bytes) → HistoryOf (row_of k runs) (events_of k events)

pub row_of→≡ :
    (id : Bytes) (runs : List RunRow) (r : RunRow) → row_of id runs ≡ some r → r.run_id ≡ id
unfolding has_run_id
row_of→≡ id runs r h = beq→≡ r.run_id id (find_where_sound (has_run_id id) runs r h)

module _ (id : Bytes) (change : RunRow → RunRow)
    (keeps_id : (r : RunRow) → (change r).run_id ≡ r.run_id) where
  pub row_of-update :
      (k : Bytes) (q : RunRow → Bool) (runs : List RunRow)
      → row_of k (update_where q change runs)
        ≡ Option.map (λ r. if q r then change r else r) (row_of k runs)
  unfolding has_run_id
  row_of-update k q runs =
      find_where-update (has_run_id k) q change runs (λ r. ap (λ i. beq i k) (keeps_id r))

  -- An update of any rows, each of which keeps its history.
  pub update-AreHistories :
      (q : RunRow → Bool) (runs : List RunRow) (events : List EventRow)
      → ((r : RunRow) (es : List EventRow) → IsHistory r es → IsHistory (change r) es)
      → AreHistories runs events
      → AreHistories (update_where q change runs) events
  update-AreHistories q runs events step h = record {
    of_run =
        λ k. rw (row_of-update k q runs) (go (row_of k runs) (events_of k events) (h.of_run k));
  }
    where
      choose :
          (b : Bool) (r : RunRow) (es : List EventRow)
          → IsHistory r es
          → IsHistory (if b then change r else r) es
      choose true r es h = step r es h
      choose false r es h = h

      go :
          (o : Option RunRow) (es : List EventRow)
          → HistoryOf o es
          → HistoryOf (Option.map (λ r. if q r then change r else r) o) es
      go none es h = h
      go (some r) es h = choose (q r) r es h

  -- A change of the row found under `id`, with events that change for that Run alone.
  pub change-AreHistories :
      (runs : List RunRow) (events events' : List EventRow) (found : RunRow)
      → row_of id runs ≡ some found
      → IsHistory (change found) (events_of id events')
      → ((k : Bytes) → beq id k ≡ false → events_of k events' ≡ events_of k events)
      → AreHistories runs events
      → AreHistories (update_where (has_run_id id) change runs) events'
  unfolding has_run_id
  change-AreHistories runs events events' found at step others h = record {
    of_run = λ k. elim (Bool-cases (beq id k)) [
      | inl e ↦
          rw (← beq→≡ id k e, row_of-update id (has_run_id id) runs, at)
            (rw (ap (λ i. beq i id) (row_of→≡ id runs found at) ∙ beq_refl id) step)
      | inr n ↦
          rw (row_of-update k (has_run_id id) runs, others k n)
            (go k n (row_of k runs) (events_of k events) refl (h.of_run k))
    ];
  }
    where
      go :
          (k : Bytes)
          → beq id k ≡ false
          → (o : Option RunRow) (es : List EventRow) → row_of k runs ≡ o
          → HistoryOf o es
          → HistoryOf (Option.map (λ r. if has_run_id id r then change r else r) o) es
      go k n none es e h = h
      go k n (some r) es e h = rw (ap (λ i. beq i id) (row_of→≡ k runs r e) ∙ beq_comm k id ∙ n) h

-- A property of the Runs and their events.
abbrev pub LedgerProperty : Type 1
LedgerProperty = List RunRow → List EventRow → Type 0

-- What every operation keeps, of the Runs and their events: it implies the histories, and it is kept
-- by each of the ways in which the store changes these tables. Rows whose runtime changes keep their
-- state and their count; only a Run that has not ended gets an event or a state; and a new Run is put
-- where none had its identifier.
pub record IsStable (P : LedgerProperty) : Type 0 where
  pub histories :
      (runs : List RunRow) (events : List EventRow) → P runs events → AreHistories runs events
  pub on_rows :
      (change : RunRow → RunRow)
      → ((r : RunRow) → (change r).run_id ≡ r.run_id)
      → ((r : RunRow) → (change r).state ≡ r.state)
      → ((r : RunRow) → (change r).last_event_seq ≡ r.last_event_seq)
      → (q : RunRow → Bool) (runs : List RunRow) (events : List EventRow)
      → ((r : RunRow) (es : List EventRow) → IsHistory r es → IsHistory (change r) es)
      → P runs events
      → P (update_where q change runs) events
  pub on_active :
      (id : Bytes) (change : RunRow → RunRow)
      → ((r : RunRow) → (change r).run_id ≡ r.run_id)
      → (runs : List RunRow) (events events' : List EventRow) (found : RunRow)
      → row_of id runs ≡ some found
      → is_terminal found.state ≡ false
      → IsHistory (change found) (events_of id events')
      → ((k : Bytes) → beq id k ≡ false → events_of k events' ≡ events_of k events)
      → P runs events
      → P (update_where (has_run_id id) change runs) events'
  pub on_insert :
      (row : RunRow) (runs : List RunRow) (events : List EventRow)
      → row_of row.run_id runs ≡ none
      → IsHistory row []
      → P runs events
      → P (insert_row row runs) events

-- A Run that is inserted where none had its identifier.
pub insert-AreHistories :
    (row : RunRow) (runs : List RunRow) (events : List EventRow)
    → row_of row.run_id runs ≡ none
    → IsHistory row []
    → AreHistories runs events
    → AreHistories (insert_row row runs) events
unfolding has_run_id
insert-AreHistories row runs events fresh new h = record {
  of_run = λ k.
      rw (find_where-insert (has_run_id k) row runs)
        (go k (row_of k runs) (events_of k events) refl (h.of_run k));
}
  where
    placed :
        (k : Bytes) (es : List EventRow)
        → es ≡ []
        → HistoryOf (if beq row.run_id k then some row else none) es
    placed k es e = elim (Bool-cases (beq row.run_id k)) [ inl y ↦ rw (y, e) new | inr n ↦ rw n e ]

    go :
        (k : Bytes) (o : Option RunRow) (es : List EventRow)
        → row_of k runs ≡ o
        → HistoryOf o es
        → HistoryOf
            (if exists_where (has_run_id k) runs
              then row_of k runs
              else if beq row.run_id k
              then some row
              else none)
            es
    go k none es e h = rw (find_where-none (has_run_id k) runs e) (placed k es h)
    go k (some r) es e h = rw (find_where-exists (has_run_id k) runs r e, e) h

pub events_of-push :
    (id k : Bytes) (e : EventRow) (events : List EventRow)
    → e.run_id ≡ id
    → beq id k ≡ false
    → events_of k (insert_row e events) ≡ events_of k events
events_of-push id k e events same n = select_where-insert (event_for k) e events ∙ rw (same, n) refl

-- The histories themselves are stable.
pub AreHistories-IsStable : IsStable AreHistories
AreHistories-IsStable = record {
  histories = λ runs events h. h;
  on_rows = λ change keeps_id _ _ q runs events step h.
      update-AreHistories (codes "") change keeps_id q runs events step h;
  on_active = λ id change keeps_id runs events events' found at _ step others h.
      change-AreHistories id change keeps_id runs events events' found at step others h;
  on_insert = insert-AreHistories;
}

-- ===== src/SandboxStore/Trace/Final.antt =====
-- An ended Run is final: no operation of internal/sandboxstore changes what GetSnapshot tells of it.
use harness_security_gateway.Prelude.{
  ap, ℕ, ◌≡◌, refl, sym, ◌∙◌, Bool, true, false, Option, none, some, List, [], if◌then◌else◌,
  Bool-cases, inl, inr, map,
}
use harness_security_gateway.Prelude.Bytes.{Bytes, beq, beq→≡, beq_comm}
use harness_security_gateway.Prelude.Results.{ok}
use harness_security_gateway.Prelude.Tables.{update_where, insert_row}
use harness_security_gateway.Prelude.Tables.Laws.{find_where-insert, find_where-exists}
use harness_security_gateway.ExecutionWire.{RunState, RunEvent, StartRunRequest, GetRunResponse}
use harness_security_gateway.SandboxStore.Types.{RunRow, EventRow}
use harness_security_gateway.SandboxStore.Tables.{has_run_id, is_terminal}
use harness_security_gateway.SandboxStore.Snapshot.{stored_event, get_snapshot}
use harness_security_gateway.SandboxStore.History.{IsHistory}
use harness_security_gateway.SandboxStore.Invariant.{
  AreHistories, AreHistories-IsStable, IsStable, row_of, events_of, row_of→≡, row_of-update,
}
use harness_security_gateway.SandboxStore.Trace.{Op, run_ops, empty_ledger}
use harness_security_gateway.SandboxStore.Trace.Snapshots.{
  IsSnapshot-of, run_ops-Holds, empty-HasHistories,
}

-- The Run `id` has ended as the row `past` says, with the events `es`.
record IsEnded (id : Bytes) (past : RunRow) (es : List EventRow) (runs : List RunRow)
    (events : List EventRow) : Type 0 where
  histories : AreHistories runs events
  ended : is_terminal past.state ≡ true
  row : RunRow
  at : row_of id runs ≡ some row
  state : row.state ≡ past.state
  count : row.last_event_seq ≡ past.last_event_seq
  listed : events_of id events ≡ es

module _ (id : Bytes) (past : RunRow) (es : List EventRow) where
  update-IsEnded :
      (change : RunRow → RunRow)
      → ((r : RunRow) → (change r).run_id ≡ r.run_id)
      → ((r : RunRow) → (change r).state ≡ r.state)
      → ((r : RunRow) → (change r).last_event_seq ≡ r.last_event_seq)
      → (q : RunRow → Bool) (runs : List RunRow) (events : List EventRow)
      → ((r : RunRow) (k : List EventRow) → IsHistory r k → IsHistory (change r) k)
      → IsEnded id past es runs events
      → IsEnded id past es (update_where q change runs) events
  update-IsEnded change keeps_id keeps_state keeps_seq q runs events step h = record {
    histories =
        AreHistories-IsStable.on_rows change keeps_id keeps_state keeps_seq q runs events step
          h.histories;
    ended = h.ended;
    row = if q h.row then change h.row else h.row;
    at = row_of-update id change keeps_id id q runs ∙ rw h.at refl;
    state = same_state (q h.row) ∙ h.state;
    count = same_count (q h.row) ∙ h.count;
    listed = h.listed;
  }
    where
      same_state : (b : Bool) → (if b then change h.row else h.row).state ≡ h.row.state
      same_state true = keeps_state h.row
      same_state false = refl

      same_count :
          (b : Bool) → (if b then change h.row else h.row).last_event_seq ≡ h.row.last_event_seq
      same_count true = keeps_seq h.row
      same_count false = refl

  -- A change of a Run that has not ended is one of another Run.
  active_elsewhere :
      (other : Bytes) (runs : List RunRow) (events : List EventRow) (found : RunRow)
      → row_of other runs ≡ some found
      → is_terminal found.state ≡ false
      → IsEnded id past es runs events
      → beq other id ≡ false
  active_elsewhere other runs events found at active h = elim (Bool-cases (beq other id)) [
    | inl e ↦
        let same : some found ≡ some h.row =
          sym at ∙ ap (λ i. row_of i runs) (beq→≡ other id e) ∙ h.at in
        let terminal : is_terminal h.row.state ≡ true = ap is_terminal h.state ∙ h.ended in cc
    | inr n ↦ n
  ]

  change-IsEnded :
      (other : Bytes) (change : RunRow → RunRow)
      → ((r : RunRow) → (change r).run_id ≡ r.run_id)
      → (runs : List RunRow) (events events' : List EventRow) (found : RunRow)
      → row_of other runs ≡ some found
      → is_terminal found.state ≡ false
      → IsHistory (change found) (events_of other events')
      → ((k : Bytes) → beq other k ≡ false → events_of k events' ≡ events_of k events)
      → IsEnded id past es runs events
      → IsEnded id past es (update_where (has_run_id other) change runs) events'
  unfolding has_run_id
  change-IsEnded other change keeps_id runs events events' found at active step others h =
      let elsewhere = active_elsewhere other runs events found at active h in
      record {
        histories =
            AreHistories-IsStable.on_active other change keeps_id runs events events' found at
              active step others h.histories;
        ended = h.ended;
        row = h.row;
        at =
            row_of-update other change keeps_id id (has_run_id other) runs
            ∙ rw
                (
                  h.at,
                  ap (λ i. beq i other) (row_of→≡ id runs h.row h.at),
                  beq_comm id other,
                  elsewhere,
                )
                refl;
        state = h.state;
        count = h.count;
        listed = others id elsewhere ∙ h.listed;
      }

  insert-IsEnded :
      (row : RunRow) (runs : List RunRow) (events : List EventRow)
      → row_of row.run_id runs ≡ none
      → IsHistory row []
      → IsEnded id past es runs events
      → IsEnded id past es (insert_row row runs) events
  insert-IsEnded row runs events fresh new h = record {
    histories = AreHistories-IsStable.on_insert row runs events fresh new h.histories;
    ended = h.ended;
    row = h.row;
    at =
        find_where-insert (has_run_id id) row runs
        ∙ rw (find_where-exists (has_run_id id) runs h.row h.at, h.at) refl;
    state = h.state;
    count = h.count;
    listed = h.listed;
  }

  IsEnded-IsStable : IsStable (IsEnded id past es)
  IsEnded-IsStable = record {
    histories = λ runs events h. h.histories;
    on_rows = update-IsEnded;
    on_active = change-IsEnded;
    on_insert = insert-IsEnded;
  }

same_response :
    (a b : GetRunResponse)
    → a.status.run_id ≡ b.status.run_id
    → a.status.state ≡ b.status.state
    → a.status.last_event_seq ≡ b.status.last_event_seq
    → a.events ≡ b.events
    → a ≡ b
same_response a b named state count events =
    go a.status.run_id a.status.state a.status.last_event_seq a.events named state count events
  where
    response : Bytes → RunState → ℕ → List RunEvent → GetRunResponse
    response run_id state seq events = record {
      status = record { run_id = run_id; state = state; last_event_seq = seq };
      events = events;
    }

    go :
        (i : Bytes) (s : RunState) (n : ℕ) (es : List RunEvent)
        → i ≡ b.status.run_id
        → s ≡ b.status.state
        → n ≡ b.status.last_event_seq
        → es ≡ b.events
        → response i s n es ≡ b
    go i s n es p q r t = rw (p, q, r, t) refl

module _ (fingerprint_of : StartRunRequest → Option Bytes) (sha256_hex : Bytes → Bytes) where
  -- An ended Run is final: once the row of a Run that operations on a new ledger have stored is in a
  -- terminal state, GetSnapshot answers for it with a response, and with the very same response after
  -- any further operations.
  pub get_snapshot-final :
      (ops more : List Op) (id : Bytes) (row : RunRow)
      → row_of id (run_ops fingerprint_of sha256_hex ops empty_ledger).runs ≡ some row
      → is_terminal row.state ≡ true
      → (response : GetRunResponse) × (get_snapshot id
            (run_ops fingerprint_of sha256_hex ops empty_ledger)
          ≡ ok response)
        × (get_snapshot id (
              run_ops fingerprint_of sha256_hex more
                (run_ops fingerprint_of sha256_hex ops empty_ledger))
            ≡ ok response)
  get_snapshot-final ops more id row at ended =
      let db = run_ops fingerprint_of sha256_hex ops empty_ledger in
      let later = run_ops fingerprint_of sha256_hex more db in
      let h =
        run_ops-Holds AreHistories-IsStable fingerprint_of sha256_hex ops empty_ledger
          (empty-HasHistories fingerprint_of sha256_hex) in
      let now = IsSnapshot-of db id row h at in
      let kept : IsEnded id row (events_of id db.events) later.runs later.events =
        run_ops-Holds (IsEnded-IsStable id row (events_of id db.events)) fingerprint_of sha256_hex
          more db
          (record {
            histories = h;
            ended = ended;
            row = row;
            at = at;
            state = refl;
            count = refl;
            listed = refl;
          }) in
      let then_ = IsSnapshot-of later id kept.row kept.histories kept.at in
      (
        now.response,
        now.read,
        then_.read
            ∙ ap ok (
                same_response then_.response now.response (then_.named ∙ sym now.named)
                  (then_.state ∙ kept.state ∙ sym now.state)
                  (then_.count ∙ kept.count ∙ sym now.count)
                  (then_.listed ∙ ap (map stored_event) kept.listed ∙ sym now.listed)),
      )

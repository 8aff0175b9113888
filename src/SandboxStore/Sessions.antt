-- ===== src/SandboxStore/Sessions.antt =====
-- internal/sandboxstore/sessions.go: one-use session references and their lineage.
use harness_security_gateway.Prelude.{
  ℕ, ◌+◌, ◌*◌, Bool, true, false, not, ◌&&◌, ◌||◌, Option, none, some, ltb, leb, ◌==◌,
}
use harness_security_gateway.Prelude.Bytes.{Bytes, beq, opt_beq, coalesce}
use harness_security_gateway.Prelude.Results.{Result, ok, ◌>>=◌, ◌>>◌, guard}
use harness_security_gateway.Prelude.Tables.{find_where, exists_where, insert_row}
use harness_security_gateway.ExecutionWire.{is_accepted}
use harness_security_gateway.SandboxStore.Types.{
  Error, conflict, session_scope, invalid_argument, storage, SessionMode, opaque_resume,
  SessionMapping, RunRow, SessionRow, SessionUse, Ledger,
}
use harness_security_gateway.SandboxStore.Validate.{
  validate_run_id, validate_session_mapping, validate_session_lookup,
}
use harness_security_gateway.SandboxStore.Tables.{or_error, staged_for}

abbrev pub is_opaque_resume : Option SessionMode → Bool
is_opaque_resume (some opaque_resume) = true
is_opaque_resume _ = false

abbrev pub has_ref : Bytes → SessionRow → Bool
has_ref ref s = beq s.session_ref ref

abbrev pub use_of : Bytes → SessionUse → Bool
use_of ref u = beq u.session_ref ref

-- The Run that consumed a reference and still may resolve it.
abbrev resolves_for : Bytes → SessionRow → Ledger → RunRow → Bool
resolves_for run_id s db r =
    beq r.run_id run_id
    && is_accepted r.state
    && not (exists_where (staged_for r.run_id) db.staged)
    && is_opaque_resume r.session_mode
    && opt_beq r.requested_session_ref s.session_ref
    && beq r.target_id s.target_id
    && beq r.target_revision s.target_revision
    && opt_beq r.session_scope_digest s.session_scope_digest

-- ResolveSessionForRun
unfoldable pub resolve_session_for_run :
    Bytes → Bytes → Bytes → Bytes → Bytes → Ledger → Result Error Bytes
resolve_session_for_run run_id session_ref target_id target_revision digest db = do
  validate_run_id run_id
  validate_session_lookup session_ref target_id target_revision digest
  s ← or_error session_scope (
      find_where
        (λ s.
          has_ref session_ref s
          && beq s.target_id target_id
          && beq s.target_revision target_revision
          && beq s.session_scope_digest digest
          && exists_where (λ u. use_of session_ref u && beq u.run_id run_id) db.session_uses
          && exists_where (resolves_for run_id s db) db.runs)
        db.sessions)
  ok s.vendor_token

-- sessionForAdmission
unfoldable pub session_for_admission :
    Bytes → Bytes → Bytes → Bytes → Ledger → Result Error SessionRow
session_for_admission session_ref target_id target_revision digest db = do
  validate_session_lookup session_ref target_id target_revision digest
  s ← or_error session_scope (find_where (has_ref session_ref) db.sessions)
  guard
      (not (exists_where (use_of session_ref) db.session_uses)
        && beq s.target_id target_id
        && beq s.target_revision target_revision
        && beq s.session_scope_digest digest)
      session_scope
  ok s

-- The lineage of a new session: when it started, when it expires, and its turn.
pub record Lineage : Type 0 where
  pub started : ℕ
  pub expires : ℕ
  pub turn : ℕ

abbrev parent_for : RunRow → Bytes → Ledger → SessionRow → Bool
parent_for row parent db s =
    has_ref parent s
    && exists_where (λ u. use_of parent u && beq u.run_id row.run_id) db.session_uses
    && beq s.target_id row.target_id
    && beq s.target_revision row.target_revision
    && opt_beq row.session_scope_digest s.session_scope_digest

-- The root of a lineage, or the successor of the reference that the Run consumed.
unfoldable pub lineage_of : RunRow → Option Bytes → Ledger → Result Error Lineage
lineage_of row none db = ok (record {
  started = row.created_at;
  expires = row.created_at + row.session_max_age_seconds * 1000;
  turn = 1;
})
lineage_of row (some parent) db = do
  s ← or_error session_scope (find_where (parent_for row parent db) db.sessions)
  ok (record { started = s.lineage_started_at; expires = s.expires_at; turn = s.turn_number + 1 })

abbrev pub new_session : RunRow → SessionMapping → Lineage → ℕ → SessionRow
new_session row mapping line now = record {
  session_ref = mapping.ref;
  target_id = row.target_id;
  target_revision = row.target_revision;
  session_scope_digest = coalesce row.session_scope_digest;
  vendor_token = mapping.vendor_token;
  parent_session_ref = row.requested_session_ref;
  created_by_run_id = row.run_id;
  lineage_started_at = line.started;
  expires_at = line.expires;
  turn_number = line.turn;
  created_at = now;
}

abbrev same_parent : Option Bytes → Option Bytes → Bool
same_parent none none = true
same_parent (some a) (some b) = beq a b
same_parent _ _ = false

abbrev same_session : SessionRow → SessionRow → Bool
same_session a b =
    beq a.target_id b.target_id
    && beq a.target_revision b.target_revision
    && beq a.session_scope_digest b.session_scope_digest
    && beq a.vendor_token b.vendor_token
    && same_parent a.parent_session_ref b.parent_session_ref
    && beq a.created_by_run_id b.created_by_run_id
    && a.lineage_started_at == b.lineage_started_at
    && a.expires_at == b.expires_at
    && a.turn_number == b.turn_number

-- The insertion, by the session that has the reference already. The other two unique columns are the
-- creating Run and the parent.
unfoldable pub insert_session : SessionRow → Ledger → Option SessionRow → Result Error Ledger
insert_session new db (some stored) = do guard (same_session stored new) conflict; ok db
insert_session new db none = do
  guard
      (not (
        exists_where
          (λ s.
            beq s.created_by_run_id new.created_by_run_id
            || opt_beq s.parent_session_ref (coalesce new.parent_session_ref))
          db.sessions))
      storage
  ok (record db { sessions = insert_row new db.sessions })

abbrev pub has_lifecycle : RunRow → Bool
has_lifecycle row =
    is_opaque_resume row.session_mode
    && ltb 0 row.session_max_age_seconds
    && ltb 0 row.session_max_turns
    && leb 1 row.session_turn_number
    && leb row.session_turn_number row.session_max_turns

-- bindSession
unfoldable pub bind_session : RunRow → SessionMapping → ℕ → Ledger → Result Error Ledger
unfolding lineage_of insert_session
bind_session row mapping now db = do
  validate_session_mapping mapping
  guard (has_lifecycle row) invalid_argument
  guard (leb row.created_at now) session_scope
  line ← lineage_of row row.requested_session_ref db
  guard (line.turn == row.session_turn_number && ltb line.started line.expires) session_scope
  insert_session (new_session row mapping line now) db
      (find_where (has_ref mapping.ref) db.sessions)

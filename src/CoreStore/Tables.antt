-- ===== src/CoreStore/Tables.antt =====
-- The SQL of internal/corestore as functions on tables: the WHERE tests that the operations share,
-- sessions.go, and the end of a transaction.
pub mod Scope
pub mod Keeps
use harness_security_gateway.Prelude.{
  ℕ, Bool, true, false, ◌&&◌, Option, none, some, List, [], ◌∷◌, leb, if◌then◌else◌,
}
use harness_security_gateway.Prelude.Bytes.{Bytes, beq}
use harness_security_gateway.Prelude.Results.{Result, ok, err, ◌>>◌}
use harness_security_gateway.Prelude.Tables.{find_where, exists_where}
use harness_security_gateway.CoreStore.Types.{
  Error, Run, Delivery, Session, SessionKey, Db, not_found, is_nonterminal, max_id_bytes,
}
use harness_security_gateway.CoreStore.Validate.{validate_session_key, validate_identifier}

-- The outcome of an operation and the database after it.
abbrev pub Tx : Type 0 → Type 0
Tx A = Result Error A × Db

-- `if err != nil { return err }` in a transaction: a failing step ends it, leaving `db`, which is
-- the state before the transaction where it rolls back and the state to keep where it commits.
unfoldable pub attempt : {A B : Type 0} → Result Error A → Db → (A → Tx B) → Tx B
attempt (ok a) db k = k a
attempt (err e) db k = (err e, db)

-- column <= now in SQL: NULL is not.
abbrev pub sql_expired : ℕ → Option ℕ → Bool
sql_expired now none = false
sql_expired now (some expires) = leb expires now

-- IsZero() or UnixMilli() <= now in Go: NULL reads as the zero time.
abbrev pub lapsed : ℕ → Option ℕ → Bool
lapsed now none = true
lapsed now (some expires) = leb expires now

-- WHERE id = ?
unfoldable pub has_id : Bytes → Run → Bool
has_id id r = beq r.id id

unfoldable pub find_run : Bytes → List Run → Option Run
unfolding has_id
find_run id runs = find_where (has_id id) runs

abbrev pub or_error : {A : Type 0} → Error → Option A → Result Error A
or_error e none = err e
or_error e (some a) = ok a

-- GetRun
unfoldable pub get_run : Bytes → Db → Result Error Run
get_run id db = do validate_identifier id max_id_bytes; or_error not_found (find_run id db.runs)

-- The scope of a Run: WHERE binding_fingerprint = ? AND ... AND target_revision = ?
unfoldable pub in_scope : SessionKey → Run → Bool
in_scope key r =
    beq r.binding_fingerprint key.binding_fingerprint
    && beq r.connector_id key.connector_id
    && beq r.actor_ref key.actor_ref
    && beq r.conversation_ref key.conversation_ref
    && beq r.target_id key.target_id
    && beq r.target_revision key.target_revision

-- The index runs_one_nonterminal_session_scope.
unfoldable pub holds_scope : SessionKey → Run → Bool
unfolding in_scope
holds_scope key r = in_scope key r && is_nonterminal r.state

unfoldable pub key_beq : SessionKey → SessionKey → Bool
key_beq a b =
    beq a.binding_fingerprint b.binding_fingerprint
    && beq a.connector_id b.connector_id
    && beq a.actor_ref b.actor_ref
    && beq a.conversation_ref b.conversation_ref
    && beq a.target_id b.target_id
    && beq a.target_revision b.target_revision

abbrev pub scope_of : Run → SessionKey
scope_of r = record {
  binding_fingerprint = r.binding_fingerprint;
  connector_id = r.connector_id;
  actor_ref = r.actor_ref;
  conversation_ref = r.conversation_ref;
  target_id = r.target_id;
  target_revision = r.target_revision;
}

unfoldable pub find_session : SessionKey → List Session → Option Session
unfolding key_beq
find_session key sessions = find_where (λ s. key_beq s.key key) sessions

-- GetSession
unfoldable pub get_session : SessionKey → Db → Result Error (Option Session)
get_session key db = do validate_session_key key; ok (find_session key db.sessions)

-- putSessionTx: INSERT ... ON CONFLICT DO UPDATE.
unfoldable pub put_session : Session → List Session → List Session
unfolding key_beq
put_session session [] = session ∷ []
put_session session (s ∷ rest) =
    if key_beq s.key session.key
    then record s { ref = session.ref; updated_at = session.updated_at } ∷ rest
    else s ∷ put_session session rest

-- JOIN runs AS r ON r.id = d.run_id WHERE r.connector_id = ?
unfoldable pub run_of_connector : Bytes → Bytes → Run → Bool
run_of_connector connector run_id r = beq r.id run_id && beq r.connector_id connector

unfoldable pub owned_by : Bytes → List Run → Delivery → Bool
unfolding run_of_connector
owned_by connector runs d = exists_where (run_of_connector connector d.run_id) runs

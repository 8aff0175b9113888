-- ===== src/SessionAuth/Agrees.antt =====
-- The scopes of sessionauth and the session keys of corestore: two validations that agree.
use harness_security_gateway.Prelude.{ℕ, ◌≡◌, refl, List, [], ◌∷◌, arith}
use harness_security_gateway.Prelude.Bytes.{Bytes}
use harness_security_gateway.Prelude.Results.{is_ok}
use harness_security_gateway.CoreStore.Types.{SessionKey}
use harness_security_gateway.CoreStore.Validate.{
  validate_identifier, validate_identifiers, validate_sha256_hex, validate_session_key,
}
use harness_security_gateway.SessionAuth.{
  valid_identifier, validate_items, validate_digest, validate_scope,
}

valid_identifier-agrees :
    (value : Bytes) (limit : ℕ)
    → valid_identifier value limit ≡ is_ok (validate_identifier value limit)
unfolding valid_identifier validate_identifier
valid_identifier-agrees value limit = ground arith

validate_items-agrees :
    (items : List (Bytes × ℕ)) → is_ok (validate_items items) ≡ is_ok (validate_identifiers items)
unfolding validate_items validate_identifiers
validate_items-agrees [] = refl
validate_items-agrees ((value, limit) ∷ items) =
    ground (arith, valid_identifier-agrees value limit, validate_items-agrees items)

validate_digest-agrees :
    (value : Bytes) → is_ok (validate_digest value) ≡ is_ok (validate_sha256_hex value)
unfolding validate_digest validate_sha256_hex
validate_digest-agrees value = ground arith

-- sessionauth.Validate and corestore's validateSessionKey accept the same scopes.
pub validate_scope-agrees :
    (scope : SessionKey) → is_ok (validate_scope scope) ≡ is_ok (validate_session_key scope)
unfolding validate_scope validate_session_key
validate_scope-agrees scope = ground (
  arith,
  validate_digest-agrees scope.binding_fingerprint,
  validate_items-agrees (
      (scope.connector_id, 256)
      ∷ (scope.actor_ref, 256)
      ∷ (scope.conversation_ref, 256)
      ∷ (scope.target_id, 128)
      ∷ (scope.target_revision, 160)
      ∷ []),
)

-- ===== src/SessionAuth.antt =====
-- Validate of internal/sessionauth/scope.go. A Scope has the fields of corestore.SessionKey and is
-- that type here; the one refusal, ErrInvalidScope, is `invalid`.
pub mod Agrees
use harness_security_gateway.Prelude.{
  ℕ, Bool, true, false, not, ◌&&◌, ◌||◌, List, [], ◌∷◌, ltb, ◌==◌, if◌then◌else◌,
}
use harness_security_gateway.Prelude.Bytes.{Bytes, length}
use harness_security_gateway.Prelude.Results.{Result, ok, err, ◌>>◌, guard}
use harness_security_gateway.Text.{
  valid_utf8, runes_of, is_space, is_control, any_of, all_of, is_lower_hex,
}
use harness_security_gateway.CoreStore.Types.{SessionKey}
use harness_security_gateway.CoreStore.Validate.{is_empty}

pub data ScopeError : Type 0 where
  invalid : ScopeError

abbrev pub Checked : Type 0
Checked = Result ScopeError (Unit {0})

abbrev pub is_valid : Checked → Bool
is_valid (ok _) = true
is_valid (err _) = false

-- ValidateDigest
unfoldable pub validate_digest : Bytes → Checked
validate_digest value = do
  guard (length value == 64) invalid
  guard (all_of is_lower_hex value) invalid

unfoldable pub valid_identifier : Bytes → ℕ → Bool
valid_identifier value limit =
    if is_empty value || ltb limit (length value) || not (valid_utf8 value)
    then false
    else not (any_of (λ r. is_space r || is_control r) (runes_of value))

-- The loop of Validate.
unfoldable pub validate_items : List (Bytes × ℕ) → Checked
validate_items [] = ok tt
validate_items ((value, limit) ∷ items) =
    let rest = validate_items items in
    if not (valid_identifier value limit) then err invalid else rest

-- Validate
unfoldable pub validate_scope : SessionKey → Checked
unfolding validate_items
validate_scope scope = do
  validate_digest scope.binding_fingerprint
  validate_items (
      (scope.connector_id, 256)
      ∷ (scope.actor_ref, 256)
      ∷ (scope.conversation_ref, 256)
      ∷ (scope.target_id, 128)
      ∷ (scope.target_revision, 160)
      ∷ [])

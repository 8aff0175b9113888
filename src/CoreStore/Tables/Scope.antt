-- ===== src/CoreStore/Tables/Scope.antt =====
-- The scope test decides equality with the scope of a Run.
use harness_security_gateway.Prelude.{◌≡◌, true, arith}
use harness_security_gateway.Prelude.Bytes.{beq→≡, beq_refl}
use harness_security_gateway.CoreStore.Types.{Run, SessionKey}
use harness_security_gateway.CoreStore.Tables.{in_scope, scope_of, key_beq}

pub in_scope→≡ : (key : SessionKey) (r : Run) → in_scope key r ≡ true → scope_of r ≡ key
unfolding in_scope
in_scope→≡ key r h = ground (
  arith,
  beq→≡ r.binding_fingerprint key.binding_fingerprint,
  beq→≡ r.connector_id key.connector_id,
  beq→≡ r.actor_ref key.actor_ref,
  beq→≡ r.conversation_ref key.conversation_ref,
  beq→≡ r.target_id key.target_id,
  beq→≡ r.target_revision key.target_revision,
)

pub in_scope-scope_of : (r : Run) → in_scope (scope_of r) r ≡ true
unfolding in_scope
in_scope-scope_of r = ground (
  arith,
  beq_refl r.binding_fingerprint,
  beq_refl r.connector_id,
  beq_refl r.actor_ref,
  beq_refl r.conversation_ref,
  beq_refl r.target_id,
  beq_refl r.target_revision,
)

pub key_beq→≡ : (a b : SessionKey) → key_beq a b ≡ true → a ≡ b
unfolding key_beq
key_beq→≡ a b h = ground (
  arith,
  beq→≡ a.binding_fingerprint b.binding_fingerprint,
  beq→≡ a.connector_id b.connector_id,
  beq→≡ a.actor_ref b.actor_ref,
  beq→≡ a.conversation_ref b.conversation_ref,
  beq→≡ a.target_id b.target_id,
  beq→≡ a.target_revision b.target_revision,
)

pub key_beq_refl : (a : SessionKey) → key_beq a a ≡ true
unfolding key_beq
key_beq_refl a = ground (
  arith,
  beq_refl a.binding_fingerprint,
  beq_refl a.connector_id,
  beq_refl a.actor_ref,
  beq_refl a.conversation_ref,
  beq_refl a.target_id,
  beq_refl a.target_revision,
)

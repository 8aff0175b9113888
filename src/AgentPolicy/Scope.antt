-- ===== src/AgentPolicy/Scope.antt =====
-- The scope of a decision, as corestore takes it.
use harness_security_gateway.Prelude.{◌≡◌, sym, ◌∙◌, ap, true, arith, List}
use harness_security_gateway.Prelude.Bytes.{Bytes}
use harness_security_gateway.Prelude.Results.{
  Result, ok, is_ok, guard-true, >>=-eq-ok, >>-ok, >>-ok_right, ok-injective,
}
use harness_security_gateway.CoreStore.Types.{SessionKey}
use harness_security_gateway.CoreStore.Validate.{validate_session_key}
use harness_security_gateway.SessionAuth.{Checked, validate_scope, is_valid}
use harness_security_gateway.SessionAuth.Agrees.{validate_scope-agrees}
use harness_security_gateway.AgentPolicy.Exact.{IsGranted, endpoint-IsSound, authorize-IsGranted}
use harness_security_gateway.AgentPolicy.{
  PolicyError, Connector, Binding, Policy, compile_tables, endpoint, Endpoint, Decision, invalid,
  authorize, session_scope, scope_for,
}

is_valid-is_ok : (c : Checked) → is_valid c ≡ is_ok c
is_valid-is_ok c = ground arith

module _ (marshal : Binding → Result PolicyError Bytes) (sha256_hex : Bytes → Bytes)
    (revision : Bytes) (all : List Binding) (connector actor conversation : Bytes) where
  -- What a scope that SessionScope returned is, field by field, and the binding behind it.
  pub record IsScopeOf (scope : SessionKey) : Type 0 where
    pub decision : Decision
    pub granted :
        IsGranted marshal sha256_hex revision all connector
          (record { actor_ref = actor; conversation_ref = conversation }, decision)
    pub of_connector : scope.connector_id ≡ connector
    pub of_actor : scope.actor_ref ≡ actor
    pub of_conversation : scope.conversation_ref ≡ conversation
    pub fingerprint : scope.binding_fingerprint ≡ granted.fingerprint
    pub target_id : scope.target_id ≡ granted.binding.target.id
    pub target_revision : scope.target_revision ≡ granted.binding.target.revision
    pub accepted : is_ok (validate_session_key scope) ≡ true

  -- When the endpoint of a compiled policy for a connector returns a scope for an actor in a
  -- conversation, the configuration lists a binding of exactly that connector, actor and
  -- conversation; each field of the scope is the connector, the actor, the conversation, the
  -- fingerprint or the target of that binding; and corestore's validateSessionKey accepts the scope.
  pub session_scope-IsScopeOf :
      (connectors : List Connector) (policy : Policy) (e : Endpoint) (scope : SessionKey)
      → compile_tables marshal sha256_hex revision connectors all ≡ ok policy
      → endpoint policy connector ≡ ok e
      → session_scope e actor conversation ≡ ok scope
      → IsScopeOf scope
  unfolding session_scope
  session_scope-IsScopeOf connectors policy e scope compiled found h =
      let (decision, authorized, rest) = >>=-eq-ok (authorize e actor conversation) _ h in
      let made = scope_for e actor conversation decision in
      let test = guard-true (is_valid (validate_scope made)) invalid (>>-ok _ _ rest) in
      let same = sym (ok-injective (>>-ok_right _ _ rest)) in
      let g =
        authorize-IsGranted marshal sha256_hex revision all connectors policy connector actor
          conversation e decision compiled found authorized in
      let sound =
        endpoint-IsSound marshal sha256_hex revision all connectors policy connector e compiled
          found in
      record {
        decision = decision;
        granted = g;
        of_connector = ap (λ (k : SessionKey). k.connector_id) same ∙ sound.connector;
        of_actor = ap (λ (k : SessionKey). k.actor_ref) same;
        of_conversation = ap (λ (k : SessionKey). k.conversation_ref) same;
        fingerprint =
            ap (λ (k : SessionKey). k.binding_fingerprint) same
            ∙ ap (λ (d : Decision). d.binding_fingerprint) g.decided;
        target_id =
            ap (λ (k : SessionKey). k.target_id) same
            ∙ ap (λ (d : Decision). d.target_id) g.decided;
        target_revision =
            ap (λ (k : SessionKey). k.target_revision) same
            ∙ ap (λ (d : Decision). d.target_revision) g.decided;
        accepted =
            ap (λ (k : SessionKey). is_ok (validate_session_key k)) same
            ∙ sym (validate_scope-agrees made)
            ∙ sym (is_valid-is_ok (validate_scope made))
            ∙ test;
      }

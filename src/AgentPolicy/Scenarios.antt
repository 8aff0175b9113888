-- ===== src/AgentPolicy/Scenarios.antt =====
-- A policy of one connector and one binding.
use harness_security_gateway.Prelude.{◌≡◌, refl, [], ◌∷◌}
use harness_security_gateway.Prelude.Bytes.{Bytes, codes, beq}
use harness_security_gateway.Prelude.Results.{Result, ok, is_ok}
use harness_security_gateway.CoreStore.Types.{SessionKey}
use harness_security_gateway.CoreStore.Validate.{validate_session_key}
use harness_security_gateway.SessionAuth.{
  validate_scope, validate_items, validate_digest, valid_identifier,
}
use harness_security_gateway.Text.{
  valid_utf8, runes_of, any_of, all_of, is_space, is_control, is_lower_hex,
}
use harness_security_gateway.AgentPolicy.Scope.{IsScopeOf, session_scope-IsScopeOf}
use harness_security_gateway.SessionAuth.Agrees.{validate_scope-agrees}
use harness_security_gateway.AgentPolicy.{
  session_scope, PolicyError, Connector, Binding, Decision, Endpoint, Policy, lookup, assign,
  find_decision, put_decision, authorize, empty_endpoints, binding_fingerprint, add_binding,
  add_bindings, compile_tables, endpoint,
}
use harness_security_gateway.AgentPolicy.Exact.{IsGranted, authorize-IsGranted}

abbrev connector : Connector
connector = record { id = codes "discord"; self_actor_ref = codes "bot" }

abbrev binding : Binding
binding = record {
  connector_id = codes "discord";
  actor_ref = codes "u1";
  conversation_ref = codes "c1";
  target = record { id = codes "t1"; revision = codes "r1" };
}

-- Functions in place of json.Marshal and SHA-256.
abbrev marshal : Binding → Result PolicyError Bytes
marshal b = ok b.actor_ref

abbrev digest : Bytes → Bytes
digest s = codes "digest"

abbrev decision : Decision
decision = record {
  binding_fingerprint = codes "digest";
  policy_revision = codes "revision";
  target_id = codes "t1";
  target_revision = codes "r1";
}

abbrev discord : Endpoint
discord = record {
  connector_id = codes "discord";
  self_actor_ref = codes "bot";
  policy_revision = codes "revision";
  bindings = (record { actor_ref = codes "u1"; conversation_ref = codes "c1" }, decision) ∷ [];
}

abbrev policy : Policy
policy = record { revision = codes "revision"; endpoints = (codes "discord", discord) ∷ [] }

compiled :
    compile_tables marshal digest (codes "revision") (connector ∷ []) (binding ∷ []) ≡ ok policy
unfolding compile_tables empty_endpoints add_bindings add_binding binding_fingerprint put_decision
    lookup assign beq
compiled = refl

served : endpoint policy (codes "discord") ≡ ok discord
unfolding endpoint lookup beq
served = refl

authorized : authorize discord (codes "u1") (codes "c1") ≡ ok decision
unfolding authorize find_decision lookup beq
authorized = refl

authorize-IsGranted_example :
    IsGranted marshal digest
      (codes "revision")
      (binding ∷ [])
      (codes "discord")
      (record { actor_ref = codes "u1"; conversation_ref = codes "c1" }, decision)
authorize-IsGranted_example =
    authorize-IsGranted marshal digest (codes "revision") (binding ∷ []) (connector ∷ []) policy
      (codes "discord") (codes "u1") (codes "c1") discord decision compiled served authorized

abbrev scope : SessionKey
scope = record {
  binding_fingerprint = codes "digest";
  connector_id = codes "discord";
  actor_ref = codes "u1";
  conversation_ref = codes "c1";
  target_id = codes "t1";
  target_revision = codes "r1";
}

validate_scope-agrees_example : is_ok (validate_scope scope) ≡ is_ok (validate_session_key scope)
validate_scope-agrees_example = validate_scope-agrees scope

abbrev hex : Bytes
hex = codes "0123456789abcdef0123456789abcdef0123456789abcdef0123456789abcdef"

abbrev sealed : Endpoint
sealed = record discord {
  bindings =
      (
        record { actor_ref = codes "u1"; conversation_ref = codes "c1" },
        record decision { binding_fingerprint = hex },
      )
      ∷ [];
}

abbrev sealed_scope : SessionKey
sealed_scope = record scope { binding_fingerprint = hex }

abbrev seal : Bytes → Bytes
seal s = hex

abbrev sealed_policy : Policy
sealed_policy = record { revision = codes "revision"; endpoints = (codes "discord", sealed) ∷ [] }

sealed_compiled :
    compile_tables marshal seal (codes "revision") (connector ∷ []) (binding ∷ [])
    ≡ ok sealed_policy
unfolding compile_tables empty_endpoints add_bindings add_binding binding_fingerprint put_decision
    lookup assign beq
sealed_compiled = refl

sealed_served : endpoint sealed_policy (codes "discord") ≡ ok sealed
unfolding endpoint lookup beq
sealed_served = refl

projected : session_scope sealed (codes "u1") (codes "c1") ≡ ok sealed_scope
unfolding session_scope authorize find_decision lookup beq validate_scope validate_items
    validate_digest valid_identifier valid_utf8 runes_of any_of all_of is_space is_control
    is_lower_hex
projected = refl

session_scope-IsScopeOf_example :
    IsScopeOf marshal seal
      (codes "revision")
      (binding ∷ [])
      (codes "discord")
      (codes "u1")
      (codes "c1")
      sealed_scope
session_scope-IsScopeOf_example =
    session_scope-IsScopeOf marshal seal (codes "revision") (binding ∷ []) (codes "discord")
      (codes "u1") (codes "c1") (connector ∷ []) sealed_policy sealed sealed_scope sealed_compiled
      sealed_served projected

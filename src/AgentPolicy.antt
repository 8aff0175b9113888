-- ===== src/AgentPolicy.antt =====
-- internal/agentpolicy/policy.go: the compiled exact bindings of the operator's configuration.
-- `compile_tables` is Compile after config.Validate and policyRevision have answered; a map of Go is
-- an association list, and an assignment to it replaces the entry of the key.
pub mod Exact
pub mod Scope
mod Scenarios
use harness_security_gateway.Prelude.{
  ℕ, Bool, true, false, not, ◌&&◌, ◌||◌, Option, none, some, List, [], ◌∷◌, ◌++◌, if◌then◌else◌,
}
use harness_security_gateway.Prelude.Bytes.{Bytes, codes, beq}
use harness_security_gateway.Prelude.Results.{Result, ok, err, ◌>>=◌, ◌>>◌, guard}
use harness_security_gateway.CoreStore.Types.{SessionKey}
use harness_security_gateway.CoreStore.Validate.{is_empty}
use harness_security_gateway.SessionAuth.{validate_scope, is_valid}

-- `nil_map` is the panic of an assignment to the map of a connector that is not configured, which
-- config.Validate rules out.
pub data PolicyError : Type 0 where
  invalid unknown_connector self_event no_binding nil_map : PolicyError

pub record Target : Type 0 where
  pub id : Bytes
  pub revision : Bytes

-- agentconfig.Connector and agentconfig.Binding, as far as Compile reads them.
pub record Connector : Type 0 where
  pub id : Bytes
  pub self_actor_ref : Bytes

pub record Binding : Type 0 where
  pub connector_id : Bytes
  pub actor_ref : Bytes
  pub conversation_ref : Bytes
  pub target : Target

pub record BindingKey : Type 0 where
  pub actor_ref : Bytes
  pub conversation_ref : Bytes

pub record Decision : Type 0 where
  pub binding_fingerprint : Bytes
  pub policy_revision : Bytes
  pub target_id : Bytes
  pub target_revision : Bytes

pub record Endpoint : Type 0 where
  pub connector_id : Bytes
  pub self_actor_ref : Bytes
  pub policy_revision : Bytes
  pub bindings : List (BindingKey × Decision)

pub record Policy : Type 0 where
  pub revision : Bytes
  pub endpoints : List (Bytes × Endpoint)

abbrev key_beq : BindingKey → BindingKey → Bool
key_beq a b = beq a.actor_ref b.actor_ref && beq a.conversation_ref b.conversation_ref

-- m[key] and m[key] = value, for a test of equal keys.
unfoldable pub lookup {ℓ κ} :
    {K : Type ℓ} {A : Type κ} → (K → K → Bool) → K → List (K × A) → Option A
lookup same key [] = none
lookup same key ((k, a) ∷ rest) = if same k key then some a else lookup same key rest

unfoldable pub assign {ℓ κ} :
    {K : Type ℓ} {A : Type κ} → (K → K → Bool) → K → A → List (K × A) → List (K × A)
assign same key value [] = (key, value) ∷ []
assign same key value ((k, a) ∷ rest) =
    if same k key then (k, value) ∷ rest else (k, a) ∷ assign same key value rest

unfoldable pub find_decision : BindingKey → List (BindingKey × Decision) → Option Decision
unfolding lookup
find_decision key bindings = lookup key_beq key bindings

unfoldable pub put_decision :
    BindingKey → Decision → List (BindingKey × Decision) → List (BindingKey × Decision)
unfolding assign
put_decision key decision bindings = assign key_beq key decision bindings

abbrev or_refuse : {A : Type 0} → PolicyError → Option A → Result PolicyError A
or_refuse e none = err e
or_refuse e (some a) = ok a

-- Endpoint.Authorize. The zero Endpoint, whose map is nil, has no connector_id either.
unfoldable pub authorize : Endpoint → Bytes → Bytes → Result PolicyError Decision
authorize e actor_ref conversation_ref = do
  guard (not (is_empty e.connector_id || is_empty e.self_actor_ref || is_empty e.policy_revision))
      invalid
  guard (not (is_empty actor_ref || is_empty conversation_ref)) invalid
  guard (not (beq actor_ref e.self_actor_ref)) self_event
  or_refuse no_binding (
      find_decision (record { actor_ref = actor_ref; conversation_ref = conversation_ref })
        e.bindings)

abbrev pub scope_for : Endpoint → Bytes → Bytes → Decision → SessionKey
scope_for e actor_ref conversation_ref decision = record {
  binding_fingerprint = decision.binding_fingerprint;
  connector_id = e.connector_id;
  actor_ref = actor_ref;
  conversation_ref = conversation_ref;
  target_id = decision.target_id;
  target_revision = decision.target_revision;
}

-- Endpoint.SessionScope; sessionauth.Scope has the fields of corestore.SessionKey.
unfoldable pub session_scope : Endpoint → Bytes → Bytes → Result PolicyError SessionKey
session_scope e actor_ref conversation_ref = do
  decision ← authorize e actor_ref conversation_ref
  guard (is_valid (validate_scope (scope_for e actor_ref conversation_ref decision))) invalid
  ok (scope_for e actor_ref conversation_ref decision)

-- The first loop of Compile.
unfoldable pub empty_endpoints :
    Bytes → List Connector → List (Bytes × Endpoint) → List (Bytes × Endpoint)
unfolding assign
empty_endpoints revision [] endpoints = endpoints
empty_endpoints revision (c ∷ connectors) endpoints = empty_endpoints revision connectors (
    assign beq c.id
      (record {
        connector_id = c.id;
        self_actor_ref = c.self_actor_ref;
        policy_revision = revision;
        bindings = [];
      })
      endpoints)

-- `marshal` is json.Marshal of the canonical binding, and `sha256_hex` the lower-case hexadecimal
-- digits of SHA-256.
module _ (marshal : Binding → Result PolicyError Bytes) (sha256_hex : Bytes → Bytes) where
  unfoldable pub binding_fingerprint : Binding → Result PolicyError Bytes
  binding_fingerprint b = do
    encoded ← marshal b
    ok (sha256_hex (codes "hgw.binding/v1" ++ 0 ∷ encoded))

  abbrev decision_of : Bytes → Binding → Bytes → Decision
  decision_of revision b fingerprint = record {
    binding_fingerprint = fingerprint;
    policy_revision = revision;
    target_id = b.target.id;
    target_revision = b.target.revision;
  }

  -- The body of the second loop of Compile.
  unfoldable pub add_binding :
      Bytes → Binding → List (Bytes × Endpoint) → Result PolicyError (List (Bytes × Endpoint))
  unfolding binding_fingerprint put_decision lookup assign
  add_binding revision b endpoints = do
    fingerprint ← binding_fingerprint b
    endpoint ← or_refuse nil_map (lookup beq b.connector_id endpoints)
    ok (
        assign beq b.connector_id
          (record endpoint {
            bindings =
                put_decision
                  (record { actor_ref = b.actor_ref; conversation_ref = b.conversation_ref })
                  (decision_of revision b fingerprint) endpoint.bindings;
          })
          endpoints)

  unfoldable pub add_bindings :
      Bytes → List Binding → List (Bytes × Endpoint) → Result PolicyError (List (Bytes × Endpoint))
  unfolding add_binding
  add_bindings revision [] endpoints = ok endpoints
  add_bindings revision (b ∷ bindings) endpoints = do
    added ← add_binding revision b endpoints
    add_bindings revision bindings added

  -- Compile
  unfoldable pub compile_tables : Bytes → List Connector → List Binding → Result PolicyError Policy
  unfolding empty_endpoints add_bindings
  compile_tables revision connectors bindings = do
    endpoints ← add_bindings revision bindings (empty_endpoints revision connectors [])
    ok (record { revision = revision; endpoints = endpoints })

-- Policy.Endpoint; the copy of the map has the same entries.
unfoldable pub endpoint : Policy → Bytes → Result PolicyError Endpoint
endpoint p connector_id = do
  guard (not (is_empty p.revision)) invalid
  or_refuse unknown_connector (lookup beq connector_id p.endpoints)

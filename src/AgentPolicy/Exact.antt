-- ===== src/AgentPolicy/Exact.antt =====
-- Only exact bindings grant authority.
use mathlib.Core.Option.{some-injective}
use harness_security_gateway.Prelude.{
  ◌≡◌, refl, sym, ◌∙◌, ◌⊎◌, inl, inr, Bool, true, Option, none, some, List, [], ◌∷◌, arith,
  Bool-cases, &&-true_left, &&-true_right,
}
use harness_security_gateway.Prelude.Bytes.{Bytes, beq, beq→≡}
use harness_security_gateway.Prelude.Results.{
  Result, ok, guard, >>=-eq-ok, >>-ok_right, ok-injective,
}
use harness_security_gateway.Prelude.Tables.{All}
use harness_security_gateway.AgentPolicy.{
  PolicyError, no_binding, Connector, Binding, BindingKey, Decision, Endpoint, Policy, lookup,
  assign, authorize, empty_endpoints, binding_fingerprint, decision_of, add_binding, add_bindings,
  compile_tables, endpoint, find_decision, put_decision, or_refuse, key_beq,
}

module _ {ℓ κ μ} {K : Type ℓ} {A : Type κ} (P : K × A → Type μ) (same : K → K → Bool) where
  lookup-All :
      (key : K) (m : List (K × A)) (a : A)
      → All P m
      → lookup same key m ≡ some a
      → (k : K) × (same k key ≡ true) × P (k, a)
  unfolding lookup
  lookup-All key [] a h e = cc
  lookup-All key ((k, b) ∷ rest) a (h, hs) e = elim (Bool-cases (same k key)) [
    | inl y ↦ (k, y, rw (← some-injective b a (rw y at e)) h)
    | inr n ↦ lookup-All key rest a hs (rw n at e)
  ]

  assign-All :
      (key : K) (value : A) (m : List (K × A))
      → ((k : K) → same k key ≡ true → P (k, value))
      → P (key, value)
      → All P m
      → All P (assign same key value m)
  unfolding assign
  assign-All key value [] hk h hs = (h, tt)
  assign-All key value ((k, b) ∷ rest) hk h (p, ps) = elim (Bool-cases (same k key)) [
    | inl y ↦ rw y (hk k y, ps)
    | inr n ↦ rw n (p, assign-All key value rest hk h ps)
  ]

or_refuse-some :
    {A : Type 0} (e : PolicyError) (o : Option A) (a : A) → or_refuse e o ≡ ok a → o ≡ some a
or_refuse-some e none a h = cc
or_refuse-some e (some b) a h = cc

authorize→found :
    (e : Endpoint) (actor conversation : Bytes) (decision : Decision)
    → authorize e actor conversation ≡ ok decision
    → lookup key_beq (record { actor_ref = actor; conversation_ref = conversation }) e.bindings
      ≡ some decision
unfolding authorize find_decision
authorize→found e actor conversation decision h =
    or_refuse-some no_binding _ decision (ground arith)

abbrev pub IsIn : Binding → List Binding → Type 0
IsIn b [] = ⊥
IsIn b (x ∷ xs) = (b ≡ x) ⊎ IsIn b xs

module _ (marshal : Binding → Result PolicyError Bytes) (sha256_hex : Bytes → Bytes)
    (revision : Bytes) (all : List Binding) where
  -- A configured binding of the connector for exactly the actor and the conversation of the key,
  -- whose fingerprint and target the decision carries.
  pub record IsGranted (connector : Bytes) (entry : BindingKey × Decision) : Type 0 where
    pub binding : Binding
    pub listed : IsIn binding all
    pub connector_matches : binding.connector_id ≡ connector
    pub actor_matches : binding.actor_ref ≡ entry.0.actor_ref
    pub conversation_matches : binding.conversation_ref ≡ entry.0.conversation_ref
    pub fingerprint : Bytes
    pub computed : binding_fingerprint marshal sha256_hex binding ≡ ok fingerprint
    pub decided : entry.1 ≡ decision_of marshal sha256_hex revision binding fingerprint

  -- The endpoint that is stored under a connector is that connector's.
  pub record IsSound (entry : Bytes × Endpoint) : Type 0 where
    pub connector : entry.1.connector_id ≡ entry.0
    pub granted : All (IsGranted entry.0) entry.1.bindings

  empty_endpoints-IsSound :
      (connectors : List Connector) (endpoints : List (Bytes × Endpoint))
      → All IsSound endpoints
      → All IsSound (empty_endpoints revision connectors endpoints)
  unfolding empty_endpoints
  empty_endpoints-IsSound [] endpoints h = h
  empty_endpoints-IsSound (c ∷ connectors) endpoints h = empty_endpoints-IsSound connectors _ (
      assign-All IsSound beq c.id _ endpoints
        (λ k e. record { connector = sym (beq→≡ k c.id e); granted = tt })
        (record { connector = refl; granted = tt }) h)

  put_decision-granted :
      (b : Binding) (fingerprint : Bytes) (entries : List (BindingKey × Decision))
      → IsIn b all
      → binding_fingerprint marshal sha256_hex b ≡ ok fingerprint
      → All (IsGranted b.connector_id) entries
      → All (IsGranted b.connector_id) (
          put_decision
            (record { actor_ref = b.actor_ref; conversation_ref = b.conversation_ref })
            (decision_of marshal sha256_hex revision b fingerprint)
            entries)
  unfolding put_decision
  put_decision-granted b fingerprint entries listed computed h =
      let for_key : (k : BindingKey)
          → b.actor_ref ≡ k.actor_ref
          → b.conversation_ref ≡ k.conversation_ref
          → IsGranted b.connector_id (k, decision_of marshal sha256_hex revision b fingerprint) =
        λ k actor conversation. record {
          binding = b;
          listed = listed;
          connector_matches = refl;
          actor_matches = actor;
          conversation_matches = conversation;
          fingerprint = fingerprint;
          computed = computed;
          decided = refl;
        } in
      assign-All (IsGranted b.connector_id) key_beq _ _ entries
        (λ k e.
          for_key k (sym (beq→≡ _ _ (&&-true_left _ _ e))) (sym (beq→≡ _ _ (&&-true_right _ _ e))))
        (for_key _ refl refl) h

  add_binding-IsSound :
      (b : Binding) (endpoints added : List (Bytes × Endpoint))
      → IsIn b all
      → All IsSound endpoints
      → add_binding marshal sha256_hex revision b endpoints ≡ ok added
      → All IsSound added
  unfolding add_binding put_decision
  add_binding-IsSound b endpoints added listed h e =
      let (fingerprint, computed, rest) =
        >>=-eq-ok (binding_fingerprint marshal sha256_hex b) _ e in
      let (point, found, final) =
        >>=-eq-ok (or_refuse _ (lookup beq b.connector_id endpoints)) _ rest in
      let (k, same_k, sound) =
        lookup-All IsSound beq b.connector_id endpoints point h (or_refuse-some _ _ _ found) in
      let here : IsSound (b.connector_id, point) = rw (← beq→≡ k b.connector_id same_k) sound in
      let now : (c : Bytes)
          → b.connector_id ≡ c
          → IsSound (
            c,
            record point {
              bindings =
                  put_decision
                    (record { actor_ref = b.actor_ref; conversation_ref = b.conversation_ref })
                    (decision_of marshal sha256_hex revision b fingerprint) point.bindings;
            },
          ) =
        λ c e. rw (← e) (record {
          connector = here.connector;
          granted = put_decision-granted b fingerprint point.bindings listed computed here.granted;
        }) in
      rw (← ok-injective final) (
        assign-All IsSound beq b.connector_id _ endpoints (λ c e. now c (sym (beq→≡ _ _ e)))
          (now _ refl) h)

  add_bindings-IsSound :
      (bindings : List Binding) (endpoints added : List (Bytes × Endpoint))
      → ((b : Binding) → IsIn b bindings → IsIn b all)
      → All IsSound endpoints
      → add_bindings marshal sha256_hex revision bindings endpoints ≡ ok added
      → All IsSound added
  unfolding add_bindings
  add_bindings-IsSound [] endpoints added incl h e = rw (← ok-injective e) h
  add_bindings-IsSound (b ∷ bindings) endpoints added incl h e =
      let (one, first, rest) =
        >>=-eq-ok (add_binding marshal sha256_hex revision b endpoints) _ e in
      add_bindings-IsSound bindings one added (λ x i. incl x (inr i))
        (add_binding-IsSound b endpoints one (incl b (inl refl)) h first) rest

  -- The endpoint that a compiled policy answers for a connector.
  pub endpoint-IsSound :
      (connectors : List Connector) (policy : Policy) (connector : Bytes) (e : Endpoint)
      → compile_tables marshal sha256_hex revision connectors all ≡ ok policy
      → endpoint policy connector ≡ ok e
      → IsSound (connector, e)
  unfolding compile_tables endpoint
  endpoint-IsSound connectors policy connector e compiled found =
      let (endpoints, added, made) =
        >>=-eq-ok
          (add_bindings marshal sha256_hex revision all (empty_endpoints revision connectors [])) _
          compiled in
      let sound =
        add_bindings-IsSound all _ endpoints (λ b i. i) (empty_endpoints-IsSound connectors [] tt)
          added in
      let stored = or_refuse-some _ _ _ (>>-ok_right (guard _ _) _ found) in
      let (c, same_c, at) =
        lookup-All IsSound beq connector policy.endpoints e (rw (← ok-injective made) sound)
          stored in
      rw (← beq→≡ c connector same_c) at

  -- Authority comes only from the configuration: when a compiled policy's endpoint for a connector
  -- authorizes an actor in a conversation, the configuration lists a binding of that connector for
  -- exactly that actor and that conversation, and the decision carries that binding's fingerprint
  -- and target and the policy's revision.
  pub authorize-IsGranted :
      (connectors : List Connector) (policy : Policy) (connector actor conversation : Bytes)
      (e : Endpoint) (decision : Decision)
      → compile_tables marshal sha256_hex revision connectors all ≡ ok policy
      → endpoint policy connector ≡ ok e
      → authorize e actor conversation ≡ ok decision
      → IsGranted connector
          (record { actor_ref = actor; conversation_ref = conversation }, decision)
  authorize-IsGranted connectors policy connector actor conversation e decision compiled found
        granted =
      let (k, same_k, g) =
        lookup-All (IsGranted connector) key_beq
          (record { actor_ref = actor; conversation_ref = conversation }) e.bindings decision
          (endpoint-IsSound connectors policy connector e compiled found).granted
          (authorize→found e actor conversation decision granted) in
      record {
        binding = g.binding;
        listed = g.listed;
        connector_matches = g.connector_matches;
        actor_matches = g.actor_matches ∙ beq→≡ _ _ (&&-true_left _ _ same_k);
        conversation_matches = g.conversation_matches ∙ beq→≡ _ _ (&&-true_right _ _ same_k);
        fingerprint = g.fingerprint;
        computed = g.computed;
        decided = g.decided;
      }

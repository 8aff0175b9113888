-- ===== src/AgentService/Completes.antt =====
-- Service.Complete: what the connector's own validation accepts, the store accepts.
use harness_security_gateway.Prelude.{
  ◌≡◌, ◌⊎◌, refl, Bool, true, false, ◌||◌, Option, none, some, if◌then◌else◌, inl, inr,
}
use harness_security_gateway.Prelude.Bytes.{Bytes, beq, beq→≡}
use harness_security_gateway.Prelude.Results.{ok, guard, ◌>>◌, >>-ok, >>-ok_right, guard-true}
use harness_security_gateway.CoreStore.Types.{
  DeliveryOutcome, DeliveryFailureCode, temporary, rate_limited, connector_internal, not_authorized,
  content_rejected, recipient_unavailable,
}
use harness_security_gateway.CoreStore.Validate as store
use harness_security_gateway.CoreStore.Validate.{
  is_empty, validate_identifier, validate_identifiers, validate_outcome, validate_completion,
}
use harness_security_gateway.ConnectorWire as wire
use harness_security_gateway.ConnectorWire.{
  DeliveryComplete, validate_delivery_complete, validate_id, max_id_bytes, delivery_delivered,
  delivery_retry, delivery_permanent_failure, failure_temporary, failure_rate_limited,
  failure_recipient_unavailable, failure_content_rejected, failure_not_authorized,
  failure_connector_internal,
}
use harness_security_gateway.ConnectorWire.Agrees.{validate_id→identifier}
use harness_security_gateway.AgentService.{
  Service, map_outcome, map_failure, map_completion, completion_input,
}

or-cases : (a b : Bool) → (a || b) ≡ true → (a ≡ true) ⊎ (b ≡ true)
or-cases true b h = inl refl
or-cases false b h = inr h

-- A class that may be retried has a code, which may be retried.
map_failure-retryable :
    (class : Bytes)
    → wire.retryable class ≡ true
    → (code : Option DeliveryFailureCode) × (map_failure class ≡ some code)
      × (store.retryable code ≡ true)
unfolding beq
map_failure-retryable class h = elim (or-cases _ (beq class failure_connector_internal) h) [
  | inr e ↦ rw (beq→≡ class failure_connector_internal e) (some connector_internal, refl, refl)
  | inl h' ↦ elim (or-cases _ (beq class failure_rate_limited) h') [
    | inr e ↦ rw (beq→≡ class failure_rate_limited e) (some rate_limited, refl, refl)
    | inl e ↦ rw (beq→≡ class failure_temporary e) (some temporary, refl, refl)
  ]
]

map_failure-permanent :
    (class : Bytes)
    → wire.permanent class ≡ true
    → (code : Option DeliveryFailureCode) × (map_failure class ≡ some code)
      × (store.permanent code ≡ true)
unfolding beq
map_failure-permanent class h = elim (or-cases _ (beq class failure_connector_internal) h) [
  | inr e ↦ rw (beq→≡ class failure_connector_internal e) (some connector_internal, refl, refl)
  | inl h' ↦ elim (or-cases _ (beq class failure_not_authorized) h') [
    | inr e ↦ rw (beq→≡ class failure_not_authorized e) (some not_authorized, refl, refl)
    | inl h'' ↦ elim (or-cases _ (beq class failure_content_rejected) h'') [
      | inr e ↦ rw (beq→≡ class failure_content_rejected e) (some content_rejected, refl, refl)
      | inl e ↦
          rw (beq→≡ class failure_recipient_unavailable e) (some recipient_unavailable, refl, refl)
    ]
  ]
]

if-cases :
    (b : Bool) (m n : wire.Checked)
    → (if b then m else n) ≡ ok tt
    → ((b ≡ true) × (m ≡ ok tt)) ⊎ ((b ≡ false) × (n ≡ ok tt))
if-cases true m n h = inl (refl, h)
if-cases false m n h = inr (refl, h)

map_completion-some :
    (v : DeliveryComplete) (x : DeliveryOutcome) (y : Option DeliveryFailureCode)
    → map_outcome v.outcome ≡ some x
    → map_failure v.failure_class ≡ some y
    → map_completion v ≡ some (x, y)
unfolding map_completion
map_completion-some v x y h h' = rw (h, h') refl

-- What the store accepts of a completion that is mapped.
abbrev IsMapped : Service → DeliveryComplete → Type 0
IsMapped s v =
    (m : DeliveryOutcome × Option DeliveryFailureCode) × (map_completion v ≡ some m)
    × (store.validate_outcome m.0 (completion_input s v m) ≡ ok tt)

module _ (s : Service) (v : DeliveryComplete) where
  IsMapped-delivered :
      beq v.outcome delivery_delivered ≡ true
      → (validate_id v.provider_message_ref max_id_bytes
          >> guard (is_empty v.failure_class) wire.invalid)
        ≡ ok tt
      → IsMapped s v
  unfolding store.validate_outcome
  IsMapped-delivered d h =
      let no_class = guard-true (is_empty v.failure_class) wire.invalid (>>-ok_right _ _ h) in
      (
        (DeliveryOutcome.delivered, none),
        map_completion-some v _ _ (rw d refl) (rw no_class refl),
        rw (validate_id→identifier v.provider_message_ref max_id_bytes (>>-ok _ _ h)) refl,
      )

  IsMapped-retry :
      beq v.outcome delivery_delivered ≡ false
      → beq v.outcome delivery_retry ≡ true
      → (guard (is_empty v.provider_message_ref) wire.invalid
          >> guard (wire.retryable v.failure_class) wire.invalid)
        ≡ ok tt
      → IsMapped s v
  unfolding store.validate_outcome
  IsMapped-retry n r h =
      let no_ref = guard-true (is_empty v.provider_message_ref) wire.invalid (>>-ok _ _ h) in
      let (code, mapped, good) = map_failure-retryable v.failure_class (
        guard-true (wire.retryable v.failure_class) wire.invalid
          (>>-ok_right (guard (is_empty v.provider_message_ref) wire.invalid) _ h)) in
      (
        (DeliveryOutcome.retry, code),
        map_completion-some v _ code (rw (n, r) refl) mapped,
        rw (no_ref, good) refl,
      )

  IsMapped-permanent :
      beq v.outcome delivery_delivered ≡ false
      → beq v.outcome delivery_retry ≡ false
      → beq v.outcome delivery_permanent_failure ≡ true
      → (guard (is_empty v.provider_message_ref) wire.invalid
          >> guard (wire.permanent v.failure_class) wire.invalid)
        ≡ ok tt
      → IsMapped s v
  unfolding store.validate_outcome
  IsMapped-permanent n n' p h =
      let no_ref = guard-true (is_empty v.provider_message_ref) wire.invalid (>>-ok _ _ h) in
      let (code, mapped, good) = map_failure-permanent v.failure_class (
        guard-true (wire.permanent v.failure_class) wire.invalid
          (>>-ok_right (guard (is_empty v.provider_message_ref) wire.invalid) _ h)) in
      (
        (DeliveryOutcome.permanent_failure, code),
        map_completion-some v _ code (rw (n, n', p) refl) mapped,
        rw (no_ref, good) refl,
      )

  validate_outcome-IsMapped : wire.validate_outcome v ≡ ok tt → IsMapped s v
  unfolding wire.validate_outcome
  validate_outcome-IsMapped h = elim (if-cases (beq v.outcome delivery_delivered) _ _ h) [
    | inl (d, done) ↦ IsMapped-delivered d done
    | inr (n, h') ↦ elim (if-cases (beq v.outcome delivery_retry) _ _ h') [
      | inl (r, done) ↦ IsMapped-retry n r done
      | inr (n', h'') ↦ elim (if-cases (beq v.outcome delivery_permanent_failure) _ _ h'') [
        | inl (p, done) ↦ IsMapped-permanent n n' p done
        | inr (n'', never) ↦ cc
      ]
    ]
  ]

  -- What the connector protocol accepts of a completion, the store accepts: under a valid connector
  -- identifier, a completion that validates is mapped to an outcome and a code, and the input that
  -- Complete builds from them passes corestore's validateCompletion.
  pub complete-validates :
      validate_identifier s.connector_id max_id_bytes ≡ ok tt
      → validate_delivery_complete v ≡ ok tt
      → (m : DeliveryOutcome × Option DeliveryFailureCode) × (map_completion v ≡ some m)
        × (validate_completion (completion_input s v m) ≡ ok tt)
  unfolding validate_delivery_complete validate_completion validate_identifiers
  complete-validates connector h =
      let id = validate_id→identifier v.delivery_id max_id_bytes (>>-ok _ _ h) in
      let rest = >>-ok_right (validate_id v.delivery_id max_id_bytes) _ h in
      let token = validate_id→identifier v.lease_token max_id_bytes (>>-ok _ _ rest) in
      let (m, mapped, good) =
        validate_outcome-IsMapped (>>-ok_right (validate_id v.lease_token max_id_bytes) _ rest) in
      (m, mapped, rw (connector, id, token) good)

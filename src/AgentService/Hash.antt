-- ===== src/AgentService/Hash.antt =====
-- hashInboundEvent and hashInboundEventV1 of internal/agentservice/service.go: the bytes that they
-- write to SHA-256. A Go string is shorter than 2^63 bytes; big-endian words wrap at 2^64.
pub mod RoundTrip
use harness_security_gateway.Prelude.{ℕ, ◌/◌, ◌%◌, ◌^◌, Option, none, some, List, [], ◌∷◌, ◌++◌}
use harness_security_gateway.Prelude.Bytes.{Bytes, codes, length}
use harness_security_gateway.ConnectorWire.{InboundAction, InboundContent, InboundEvent}

abbrev pub inbound_event_hash_domain : Bytes
inbound_event_hash_domain = codes "harnessgateway.local/core/agentservice/inbound-event/v2"

abbrev pub legacy_inbound_event_hash_domain : Bytes
legacy_inbound_event_hash_domain = codes "harnessgateway.local/core/agentservice/inbound-event/v1"

-- binary.BigEndian.PutUint64
unfoldable pub put_uint64 : ℕ → Bytes
put_uint64 n =
    n / 2 ^ 56 % 256
    ∷ n / 2 ^ 48 % 256
    ∷ n / 2 ^ 40 % 256
    ∷ n / 2 ^ 32 % 256
    ∷ n / 2 ^ 24 % 256
    ∷ n / 2 ^ 16 % 256
    ∷ n / 2 ^ 8 % 256
    ∷ n % 256
    ∷ []

-- writeHashString
unfoldable pub hash_string : Bytes → Bytes
hash_string value = put_uint64 (length value) ++ value

unfoldable pub hash_action : Option InboundAction → Bytes
hash_action none = 0 ∷ []
hash_action (some action) = 1 ∷ hash_string action.action_type ++ hash_string action.target_alias

-- What the two functions write from the event's identifier on.
unfoldable pub hash_event : InboundEvent → Bytes
hash_event event =
    hash_string event.event_id
    ++ hash_string event.actor_ref
    ++ hash_string event.conversation_ref
    ++ hash_string event.message_ref
    ++ put_uint64 event.occurred_at
    ++ hash_string event.content.content_type
    ++ hash_string event.content.text
    ++ hash_action event.content.action

-- hashInboundEvent
unfoldable pub inbound_event_preimage : Bytes → InboundEvent → Bytes
inbound_event_preimage connector_id event =
    hash_string inbound_event_hash_domain ++ hash_string connector_id ++ hash_event event

-- hashInboundEventV1
unfoldable pub legacy_event_preimage : InboundEvent → Bytes
legacy_event_preimage event = hash_string legacy_inbound_event_hash_domain ++ hash_event event

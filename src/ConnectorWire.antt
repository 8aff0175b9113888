-- ===== src/ConnectorWire.antt =====
-- internal/connectorwire/types.go and validate.go: the documents that a connector and agentd exchange.
-- A string type of Go is its bytes, and its constants are named below. Every refusal is `invalid`; the
-- field and the problem are left out. A time of 0 stands for every int64 that is not positive, all of
-- which are refused. A slice of deliveries that is nil is not a value of the model.

pub mod Agrees
use harness_security_gateway.Prelude.{
  ℕ, zero, suc, ◌-◌, ◌*◌, Bool, true, false, not, ◌&&◌, ◌||◌, Option, none, some, List, [], ◌∷◌,
  ltb, leb, ◌==◌, if◌then◌else◌,
}
use harness_security_gateway.Prelude.Bytes.{Bytes, codes, beq, length}
use harness_security_gateway.Prelude.Results.{Result, ok, err, ◌>>◌, guard}
use harness_security_gateway.Text.{
  valid_utf8, runes_of, is_space, is_control, any_of, is_ascii_alphanumeric,
}
use harness_security_gateway.CoreStore.Validate.{is_empty}

abbrev pub max_id_bytes : ℕ
max_id_bytes = 256

abbrev pub max_alias_bytes : ℕ
max_alias_bytes = 64

abbrev pub max_text_bytes : ℕ
max_text_bytes = 32 * 1024

abbrev pub max_claim_deliveries : ℕ
max_claim_deliveries = 20

pub data WireError : Type 0 where
  invalid : WireError

abbrev pub Checked : Type 0
Checked = Result WireError (Unit {0})

abbrev pub content_type_text : Bytes
content_type_text = codes "text"

abbrev pub content_type_action : Bytes
content_type_action = codes "action"

abbrev pub action_status : Bytes
action_status = codes "status"

abbrev pub action_cancel : Bytes
action_cancel = codes "cancel"

abbrev pub action_select_target : Bytes
action_select_target = codes "select_target"

abbrev pub inbound_accepted : Bytes
inbound_accepted = codes "accepted"

abbrev pub inbound_duplicate : Bytes
inbound_duplicate = codes "duplicate"

abbrev pub delivery_delivered : Bytes
delivery_delivered = codes "delivered"

abbrev pub delivery_retry : Bytes
delivery_retry = codes "retry"

abbrev pub delivery_permanent_failure : Bytes
delivery_permanent_failure = codes "permanent_failure"

abbrev pub failure_temporary : Bytes
failure_temporary = codes "temporary_failure"

abbrev pub failure_rate_limited : Bytes
failure_rate_limited = codes "rate_limited"

abbrev pub failure_recipient_unavailable : Bytes
failure_recipient_unavailable = codes "recipient_unavailable"

abbrev pub failure_content_rejected : Bytes
failure_content_rejected = codes "content_rejected"

abbrev pub failure_not_authorized : Bytes
failure_not_authorized = codes "not_authorized"

abbrev pub failure_connector_internal : Bytes
failure_connector_internal = codes "connector_internal"

pub record InboundAction : Type 0 where
  pub action_type : Bytes
  pub target_alias : Bytes

pub record InboundContent : Type 0 where
  pub content_type : Bytes
  pub text : Bytes
  pub action : Option InboundAction

pub record InboundEvent : Type 0 where
  pub event_id : Bytes
  pub actor_ref : Bytes
  pub conversation_ref : Bytes
  pub message_ref : Bytes
  pub occurred_at : ℕ
  pub content : InboundContent

pub record InboundReceipt : Type 0 where
  pub event_id : Bytes
  pub disposition : Bytes
  pub run_id : Bytes

pub record DeliveryClaim : Type 0 where
  pub limit : ℕ

pub record PlainText : Type 0 where
  pub media_type : Bytes
  pub text : Bytes

pub record OutboundText : Type 0 where
  pub delivery_id : Bytes
  pub lease_token : Bytes
  pub lease_expires : ℕ
  pub conversation_ref : Bytes
  pub reply_to_ref : Bytes
  pub content : PlainText

pub record DeliveryClaimResult : Type 0 where
  pub deliveries : List OutboundText

pub record DeliveryComplete : Type 0 where
  pub delivery_id : Bytes
  pub lease_token : Bytes
  pub outcome : Bytes
  pub provider_message_ref : Bytes
  pub failure_class : Bytes

abbrev separates : ℕ → Bool
separates r = is_space r || is_control r

unfoldable pub validate_id : Bytes → ℕ → Checked
validate_id value max_bytes = do
  guard (not (is_empty value)) invalid
  guard (valid_utf8 value) invalid
  guard (leb (length value) max_bytes) invalid
  guard (not (any_of separates (runes_of value))) invalid

-- The loops over (name, value); the name is left out.
unfoldable pub validate_ids : List Bytes → Checked
validate_ids [] = ok tt
validate_ids (value ∷ rest) = validate_id value max_id_bytes >> validate_ids rest

unfoldable pub validate_text : Bytes → Checked
validate_text value = do
  guard (not (is_empty value)) invalid
  guard (valid_utf8 value) invalid
  guard (leb (length value) max_text_bytes) invalid
  guard (not (any_of (λ c. c == 0) value)) invalid

abbrev is_alias_separator : ℕ → Bool
is_alias_separator r = r == b'.' || r == b'_' || r == b'-'

-- The loop of validateAlias at byte `i` of `size`. It goes on past ASCII only, so that each rune that
-- it reads is a byte, and a byte from 0x80 on is the start of a rune that it refuses.
unfoldable pub validate_alias_from : ℕ → ℕ → Bytes → Checked
validate_alias_from i size [] = ok tt
validate_alias_from i size (r ∷ rest) = do
  guard (is_ascii_alphanumeric r || (ltb 0 i && ltb i (size - 1) && is_alias_separator r)) invalid
  validate_alias_from (suc i) size rest

unfoldable pub validate_alias : Bytes → Checked
unfolding validate_alias_from
validate_alias value = do
  guard (not (is_empty value)) invalid
  guard (valid_utf8 value && leb (length value) max_alias_bytes) invalid
  validate_alias_from 0 (length value) value

-- InboundActionV1.validate
unfoldable pub validate_action : InboundAction → Checked
validate_action v =
    if beq v.action_type action_status || beq v.action_type action_cancel
    then guard (is_empty v.target_alias) invalid
    else if beq v.action_type action_select_target
    then validate_alias v.target_alias
    else err invalid

abbrev validate_some_action : Option InboundAction → Checked
validate_some_action none = err invalid
validate_some_action (some action) = validate_action action

abbrev is_absent {ℓ} : {A : Type ℓ} → Option A → Bool
is_absent none = true
is_absent (some _) = false

-- InboundContentV1.validate
unfoldable pub validate_content : InboundContent → Checked
validate_content v =
    if beq v.content_type content_type_text
    then (do guard (is_absent v.action) invalid; validate_text v.text)
    else if beq v.content_type content_type_action
    then (do guard (is_empty v.text) invalid; validate_some_action v.action)
    else err invalid

unfoldable pub validate_inbound_event : InboundEvent → Checked
unfolding validate_ids validate_content
validate_inbound_event v = do
  validate_ids (v.event_id ∷ v.actor_ref ∷ v.conversation_ref ∷ v.message_ref ∷ [])
  guard (ltb 0 v.occurred_at) invalid
  validate_content v.content

-- An identifier that may be left out.
abbrev validate_optional_id : Bytes → Checked
validate_optional_id value = if is_empty value then ok tt else validate_id value max_id_bytes

unfoldable pub validate_inbound_receipt : InboundReceipt → Checked
validate_inbound_receipt v = do
  validate_id v.event_id max_id_bytes
  guard (beq v.disposition inbound_accepted || beq v.disposition inbound_duplicate) invalid
  validate_optional_id v.run_id

-- A limit that is not positive is 0 here.
unfoldable pub validate_delivery_claim : DeliveryClaim → Checked
validate_delivery_claim v = guard (leb 1 v.limit && leb v.limit max_claim_deliveries) invalid

unfoldable pub validate_plain_text : PlainText → Checked
validate_plain_text v = do
  guard (beq v.media_type (codes "text/plain")) invalid
  validate_text v.text

unfoldable pub validate_outbound_text : OutboundText → Checked
unfolding validate_ids validate_plain_text
validate_outbound_text v = do
  validate_ids (v.delivery_id ∷ v.lease_token ∷ v.conversation_ref ∷ [])
  guard (ltb 0 v.lease_expires) invalid
  validate_optional_id v.reply_to_ref
  validate_plain_text v.content

unfoldable pub validate_outbound_texts : List OutboundText → Checked
unfolding validate_outbound_text
validate_outbound_texts [] = ok tt
validate_outbound_texts (v ∷ rest) = validate_outbound_text v >> validate_outbound_texts rest

unfoldable pub validate_claim_result : DeliveryClaimResult → Checked
unfolding validate_outbound_texts
validate_claim_result v = do
  guard (leb (length v.deliveries) max_claim_deliveries) invalid
  validate_outbound_texts v.deliveries

abbrev pub retryable : Bytes → Bool
retryable value =
    beq value failure_temporary
    || beq value failure_rate_limited
    || beq value failure_connector_internal

abbrev pub permanent : Bytes → Bool
permanent value =
    beq value failure_recipient_unavailable
    || beq value failure_content_rejected
    || beq value failure_not_authorized
    || beq value failure_connector_internal

-- The switch of DeliveryCompleteV1.Validate.
unfoldable pub validate_outcome : DeliveryComplete → Checked
validate_outcome v =
    if beq v.outcome delivery_delivered
    then (do
      validate_id v.provider_message_ref max_id_bytes
      guard (is_empty v.failure_class) invalid)
    else if beq v.outcome delivery_retry
    then (do
      guard (is_empty v.provider_message_ref) invalid
      guard (retryable v.failure_class) invalid)
    else if beq v.outcome delivery_permanent_failure
    then (do
      guard (is_empty v.provider_message_ref) invalid
      guard (permanent v.failure_class) invalid)
    else err invalid

unfoldable pub validate_delivery_complete : DeliveryComplete → Checked
unfolding validate_ids validate_outcome
validate_delivery_complete v = do
  validate_id v.delivery_id max_id_bytes
  validate_id v.lease_token max_id_bytes
  validate_outcome v

-- ===== src/AgentService/Hash/RoundTrip.antt =====
-- The framing of the payload hash (hashInboundEvent of internal/agentservice/service.go) and its decoder.
use mathlib.Core.Option.{some-injective}
use mathlib.Core.List.{append_assoc, append-nil}
use harness_security_gateway.Prelude.{
  ℕ, zero, suc, ◌+◌, ◌*◌, ◌<◌, ◌^◌, ◌≡◌, refl, sym, ap, ◌∙◌, Option, none, some, [], ◌∷◌, ◌++◌,
  arith, ◌==◌, if◌then◌else◌,
}
use harness_security_gateway.Prelude.Bytes.{Bytes, length}
use harness_security_gateway.ConnectorWire.{InboundAction, InboundEvent}
use harness_security_gateway.AgentService.Hash.{
  put_uint64, hash_string, hash_action, hash_event, inbound_event_preimage,
  inbound_event_hash_domain,
}

infixl 5 ◌>>=◌
abbrev ◌>>=◌ : {A B : Type 0} → Option A → (A → Option B) → Option B
none >>= next = none
some a >>= next = next a

-- A reader of the format: the word of eight bytes at the front, and the string after its length.
unfoldable read_uint64 : Bytes → Option (ℕ × Bytes)
read_uint64 (a ∷ b ∷ c ∷ d ∷ e ∷ f ∷ g ∷ h ∷ rest) =
    some (
      ((((((((a * 256) + b) * 256 + c) * 256 + d) * 256 + e) * 256 + f) * 256 + g) * 256 + h),
      rest,
    )
read_uint64 _ = none

unfoldable split : ℕ → Bytes → Option (Bytes × Bytes)
split zero s = some ([], s)
split (suc n) [] = none
split (suc n) (c ∷ s) = do (taken, rest) ← split n s; some (c ∷ taken, rest)

unfoldable read_string : Bytes → Option (Bytes × Bytes)
unfolding read_uint64 split
read_string s = do (n, rest) ← read_uint64 s; split n rest

read_uint64-put :
    (n : ℕ) (rest : Bytes) → n < 2 ^ 64 → read_uint64 (put_uint64 n ++ rest) ≡ some (n, rest)
unfolding read_uint64 put_uint64
read_uint64-put n rest h = ap (λ (k : ℕ). some (k, rest)) (omega arith)

split-length : (s rest : Bytes) → split (length s) (s ++ rest) ≡ some (s, rest)
unfolding split
split-length [] rest = refl
split-length (c ∷ s) rest = rw (split-length s rest) refl

read_string-hash :
    (s rest : Bytes) → length s < 2 ^ 64 → read_string (hash_string s ++ rest) ≡ some (s, rest)
unfolding read_string hash_string
read_string-hash s rest h =
    rw append_assoc (rw (read_uint64-put (length s) (s ++ rest) h) (split-length s rest))

unfoldable read_action : Bytes → Option (Option InboundAction × Bytes)
unfolding read_string
read_action [] = none
read_action (tag ∷ s) = if tag == 0 then some (none, s) else (do
  (action_type, s₁) ← read_string s
  (target_alias, s₂) ← read_string s₁
  some (some (record { action_type = action_type; target_alias = target_alias }), s₂))

unfoldable read_event : Bytes → Option (InboundEvent × Bytes)
unfolding read_string read_uint64 read_action
read_event s = do
  (event_id, s₁) ← read_string s
  (actor_ref, s₂) ← read_string s₁
  (conversation_ref, s₃) ← read_string s₂
  (message_ref, s₄) ← read_string s₃
  (occurred_at, s₅) ← read_uint64 s₄
  (content_type, s₆) ← read_string s₅
  (text, s₇) ← read_string s₆
  (action, s₈) ← read_action s₇
  some (
    record {
      event_id = event_id;
      actor_ref = actor_ref;
      conversation_ref = conversation_ref;
      message_ref = message_ref;
      occurred_at = occurred_at;
      content = record { content_type = content_type; text = text; action = action };
    },
    s₈,
  )

-- A preimage of the current domain, read back.
unfoldable pub read_preimage : Bytes → Option ((Bytes × Bytes × InboundEvent) × Bytes)
unfolding read_string read_event
read_preimage s = do
  (domain, s₁) ← read_string s
  (connector_id, s₂) ← read_string s₁
  (event, s₃) ← read_event s₂
  some ((domain, connector_id, event), s₃)

abbrev ActionFits : Option InboundAction → Type 0
ActionFits none = Unit
ActionFits (some a) = (length a.action_type < 2 ^ 64) × (length a.target_alias < 2 ^ 64)

-- The lengths of the strings and the time fit in the words that frame them.
pub record Fits (connector_id : Bytes) (event : InboundEvent) : Type 0 where
  pub connector : length connector_id < 2 ^ 64
  pub id : length event.event_id < 2 ^ 64
  pub actor : length event.actor_ref < 2 ^ 64
  pub conversation : length event.conversation_ref < 2 ^ 64
  pub message : length event.message_ref < 2 ^ 64
  pub time : event.occurred_at < 2 ^ 64
  pub content_type : length event.content.content_type < 2 ^ 64
  pub text : length event.content.text < 2 ^ 64
  pub action : ActionFits event.content.action

read_action-hash :
    (a : Option InboundAction) (rest : Bytes)
    → ActionFits a
    → read_action (hash_action a ++ rest) ≡ some (a, rest)
unfolding read_action hash_action
read_action-hash none rest h = refl
read_action-hash (some a) rest (h, h') = rw append_assoc (
    rw (read_string-hash a.action_type (hash_string a.target_alias ++ rest) h)
      (rw (read_string-hash a.target_alias rest h') refl))

read_event-hash :
    (connector_id : Bytes) (e : InboundEvent) (rest : Bytes)
    → Fits connector_id e
    → read_event (hash_event e ++ rest) ≡ some (e, rest)
unfolding read_event hash_event
read_event-hash connector_id e rest h = simp (
  append_assoc,
  read_string-hash e.event_id _ h.id,
  read_string-hash e.actor_ref _ h.actor,
  read_string-hash e.conversation_ref _ h.conversation,
  read_string-hash e.message_ref _ h.message,
  read_uint64-put e.occurred_at _ h.time,
  read_string-hash e.content.content_type _ h.content_type,
  read_string-hash e.content.text _ h.text,
  read_action-hash e.content.action rest h.action,
)

read_event-hash_end :
    (connector_id : Bytes) (e : InboundEvent)
    → Fits connector_id e
    → read_event (hash_event e) ≡ some (e, [])
read_event-hash_end connector_id e h =
    ap read_event (sym (append-nil (hash_event e))) ∙ read_event-hash connector_id e [] h

read_preimage-framed :
    (domain connector_id : Bytes) (event : InboundEvent)
    → length domain < 2 ^ 64
    → Fits connector_id event
    → read_preimage (hash_string domain ++ hash_string connector_id ++ hash_event event)
      ≡ some ((domain, connector_id, event), [])
unfolding read_preimage
read_preimage-framed domain connector_id event fits h = simp (
  append_assoc,
  read_string-hash domain _ fits,
  read_string-hash connector_id _ h.connector,
  read_event-hash_end connector_id event h,
)

read_preimage-inbound_event :
    (connector_id : Bytes) (event : InboundEvent)
    → Fits connector_id event
    → read_preimage (inbound_event_preimage connector_id event)
      ≡ some ((inbound_event_hash_domain, connector_id, event), [])
unfolding inbound_event_preimage
read_preimage-inbound_event connector_id event h =
    read_preimage-framed inbound_event_hash_domain connector_id event (omega arith) h

-- Two events that are hashed from the same bytes are the same event of the same connector, where the
-- strings and the times of both fit in the words that frame them.
pub inbound_event_preimage-injective :
    (c c' : Bytes) (event event' : InboundEvent)
    → Fits c event
    → Fits c' event'
    → inbound_event_preimage c event ≡ inbound_event_preimage c' event'
    → (c ≡ c') × (event ≡ event')
inbound_event_preimage-injective c c' event event' h h' same =
    let found = some-injective _ _ (
      sym (read_preimage-inbound_event c event h)
      ∙ ap read_preimage same
      ∙ read_preimage-inbound_event c' event' h') in
    (
      ap (λ (r : (Bytes × Bytes × InboundEvent) × Bytes). r.0.1) found,
      ap (λ (r : (Bytes × Bytes × InboundEvent) × Bytes). r.0.2) found,
    )

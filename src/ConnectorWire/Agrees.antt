-- ===== src/ConnectorWire/Agrees.antt =====
-- The identifiers of the connector protocol and those of corestore: two validations that agree.
use harness_security_gateway.Prelude.{ℕ, ◌≡◌, refl, ◌∙◌, sym, ap, true, arith}
use harness_security_gateway.Prelude.Bytes.{Bytes}
use harness_security_gateway.Prelude.Results.{Result, ok, err, is_ok}
use harness_security_gateway.CoreStore.Validate.{validate_identifier}
use harness_security_gateway.ConnectorWire.{validate_id}

pub validate_id-agrees :
    (value : Bytes) (limit : ℕ)
    → is_ok (validate_id value limit) ≡ is_ok (validate_identifier value limit)
unfolding validate_id validate_identifier
validate_id-agrees value limit = ground arith

pub is_ok-true {κ} : {E : Type κ} (r : Result E (Unit {0})) → is_ok r ≡ true → r ≡ ok tt
is_ok-true (ok u) h = refl
is_ok-true (err e) h = cc

pub validate_id→identifier :
    (value : Bytes) (limit : ℕ)
    → validate_id value limit ≡ ok tt
    → validate_identifier value limit ≡ ok tt
validate_id→identifier value limit h =
    is_ok-true _ (sym (validate_id-agrees value limit) ∙ ap is_ok h)

pub identifier→validate_id :
    (value : Bytes) (limit : ℕ)
    → validate_identifier value limit ≡ ok tt
    → validate_id value limit ≡ ok tt
identifier→validate_id value limit h = is_ok-true _ (validate_id-agrees value limit ∙ ap is_ok h)

-- ===== src/SandboxStore/Validate.antt =====
-- The argument checks of internal/sandboxstore/runs.go and sessions.go, and hostepoch.Validate.
use harness_security_gateway.Prelude.{
  ℕ, suc, Bool, true, not, ◌&&◌, ◌||◌, [], ◌∷◌, ltb, leb, ◌==◌, if◌then◌else◌,
}
use harness_security_gateway.Prelude.Bytes.{Bytes, length}
use harness_security_gateway.Prelude.Results.{Result, ok, err, ◌>>◌, guard, is_ok}
use harness_security_gateway.Text.{valid_utf8, all_of, is_lower_hex, is_ascii_alphanumeric}
use harness_security_gateway.CoreStore.Validate.{is_empty}
use harness_security_gateway.SessionAuth.{validate_digest}
use harness_security_gateway.ExecutionWire as wire
use harness_security_gateway.ExecutionWire.{is_name_char}
use harness_security_gateway.SandboxStore.Types.{
  Error, invalid_argument, SessionMode, new_only, opaque_resume, SessionPolicy, SessionMapping,
  max_runtime_ref_bytes, max_session_age_seconds, max_session_turns, max_vendor_token_bytes,
}

abbrev pub Checked : Type 0
Checked = Result Error (Unit {0})

-- An error of another validator, as ErrInvalidArgument.
abbrev pub as_argument : {E : Type 0} → Result E (Unit {0}) → Checked
as_argument (ok _) = ok tt
as_argument (err _) = err invalid_argument

unfoldable pub validate_run_id : Bytes → Checked
validate_run_id run_id = as_argument (wire.validate_run_id run_id)

unfoldable pub validate_logical_id : Bytes → ℕ → Checked
validate_logical_id value max_bytes = do
  guard (not (is_empty value) && leb (length value) max_bytes && valid_utf8 value) invalid_argument
  guard (all_of is_name_char value) invalid_argument

unfoldable pub validate_runtime_ref : Bytes → Checked
validate_runtime_ref value = do
  guard (not (is_empty value) && leb (length value) max_runtime_ref_bytes && valid_utf8 value)
      invalid_argument
  guard (all_of is_name_char value) invalid_argument

abbrev pub boot_id_bytes : ℕ
boot_id_bytes = 36

-- The loop of hostepoch.Validate at byte `i`.
unfoldable pub boot_id_from : ℕ → Bytes → Bool
boot_id_from i [] = true
boot_id_from i (c ∷ rest) =
    (if i == 8 || i == 13 || i == 18 || i == 23 then c == b'-' else is_lower_hex c)
    && boot_id_from (suc i) rest

unfoldable pub validate_boot_id : Bytes → Checked
unfolding boot_id_from
validate_boot_id value = do
  guard (length value == boot_id_bytes) invalid_argument
  guard (boot_id_from 0 value) invalid_argument

unfoldable pub validate_session_policy : SessionPolicy → SessionMode → Checked
validate_session_policy policy new_only =
    guard (policy.max_age_seconds == 0 && policy.max_turns == 0) invalid_argument
validate_session_policy policy opaque_resume =
    guard
      (ltb 0 policy.max_age_seconds
        && ltb 0 policy.max_turns
        && leb policy.max_age_seconds max_session_age_seconds
        && leb policy.max_turns max_session_turns)
      invalid_argument
validate_session_policy policy SessionMode.unsupported = err invalid_argument

abbrev is_token_char : ℕ → Bool
is_token_char c =
    is_ascii_alphanumeric c
    || c == b'-'
    || c == b'.'
    || c == b'_'
    || c == b'~'
    || c == b':'
    || c == b'/'
    || c == b'@'
    || c == b'+'
    || c == b'='

-- The request that validateSessionMapping builds is valid but for its reference.
unfoldable pub validate_session_mapping : SessionMapping → Checked
validate_session_mapping mapping = do
  as_argument (wire.validate_opaque_ref mapping.ref)
  guard
      (not (is_empty mapping.vendor_token)
        && leb (length mapping.vendor_token) max_vendor_token_bytes)
      invalid_argument
  guard (all_of is_token_char mapping.vendor_token) invalid_argument

-- validateSessionRef, whose token is valid.
unfoldable pub validate_session_ref : Bytes → Checked
validate_session_ref session_ref = as_argument (wire.validate_opaque_ref session_ref)

unfoldable pub validate_session_lookup : Bytes → Bytes → Bytes → Bytes → Checked
unfolding validate_session_ref validate_logical_id
validate_session_lookup session_ref target_id target_revision session_scope_digest = do
  validate_session_ref session_ref
  validate_logical_id target_id 128
  validate_logical_id target_revision 160
  guard (is_ok (validate_digest session_scope_digest)) invalid_argument

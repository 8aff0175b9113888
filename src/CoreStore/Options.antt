-- ===== src/CoreStore/Options.antt =====
-- Bounds of internal/corestore: validateAdmissionOptions of store.go, and the lease checks.
use harness_security_gateway.Prelude.{ℕ, ◌+◌, ◌/◌, ◌-◌, ◌*◌, ◌^◌, ◌&&◌, ltb, leb}
use harness_security_gateway.Prelude.Results.{Result, ok, ◌>>◌, guard}
use harness_security_gateway.CoreStore.Types.{Error, invalid, AdmissionOptions, max_text_bytes}
use harness_security_gateway.CoreStore.Validate.{Checked, max_int64}

abbrev second : ℕ
second = 1000000000

abbrev pub hour : ℕ
hour = 3600 * second

abbrev day : ℕ
day = 24 * hour

abbrev quota : ℕ → Checked
quota n = guard (leb 1 n && leb n 1000000000) invalid

unfoldable pub validate_admission_options : AdmissionOptions → Checked
validate_admission_options options = do
  guard (leb second options.accept_window && leb options.accept_window (30 * day)) invalid
  guard (ltb options.accept_window options.receipt_window && leb options.receipt_window (365 * day))
      invalid
  guard (leb options.future_skew day) invalid
  quota options.max_receipts
  quota options.max_queued_runs
  quota options.max_nonterminal_runs
  quota options.max_pending_deliveries
  guard (leb options.max_queued_runs options.max_nonterminal_runs) invalid
  guard
      (leb max_text_bytes options.max_retained_input_bytes
        && leb options.max_retained_input_bytes (2 ^ 40))
      invalid
  guard (leb 64 options.max_database_pages && leb options.max_database_pages 2147483646) invalid

-- A lease of Runs or deliveries lasts between one second and ten minutes.
unfoldable pub validate_lease : ℕ → Checked
validate_lease lease = guard (leb second lease && leb lease (600 * second)) invalid

abbrev pub millisecond : ℕ
millisecond = 1000000

-- `now + lease.Milliseconds()`, if it is an int64.
unfoldable pub lease_expiry : ℕ → ℕ → Result Error ℕ
lease_expiry now lease =
    let lease_millis = lease / millisecond in
    do
      guard (ltb 0 lease_millis && leb now (max_int64 - lease_millis)) invalid
      ok (now + lease_millis)

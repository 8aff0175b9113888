-- ===== src/CoreStore/Completion/Backoff.antt =====
-- retryBackoff doubles the base for each attempt and never passes one hour.
use Prim.Native.Nat.{min}
use native.Mathlib.Nat.{pow-suc}
use harness_security_gateway.Prelude.{ℕ, zero, suc, ◌*◌, ◌^◌, ◌≤◌, ◌≡◌, arith}
use harness_security_gateway.CoreStore.Completion.{backoff_loop, retry_backoff, max_retry_delay}

power_pos : (n : ℕ) → 1 ≤ 2 ^ n
power_pos zero = omega arith
power_pos (suc n) = rw pow-suc (omega (arith, power_pos n))

double_power : (d n : ℕ) → d * 2 ^ suc n ≡ d * 2 * 2 ^ n
double_power d n = rw pow-suc (grind arith)

pub grows : (d n : ℕ) → d ≤ d * 2 ^ n
grows d n = grind (arith, power_pos n)

backoff_loop_lem :
    (n d : ℕ) → d ≤ max_retry_delay → backoff_loop n d ≡ min (d * 2 ^ n) max_retry_delay
unfolding backoff_loop
backoff_loop_lem zero d h = omega arith
backoff_loop_lem (suc n) d h =
    rw double_power (ground (arith, backoff_loop_lem n (d * 2), grows (d * 2) n))

-- With a base of at most one hour, attempt n + 1 waits base * 2^n, and one hour where that would be
-- more.
pub retry_backoff_lem :
    (base n : ℕ)
    → base ≤ max_retry_delay
    → retry_backoff base (suc n) ≡ min (base * 2 ^ n) max_retry_delay
unfolding retry_backoff
retry_backoff_lem base n h = ground (arith, backoff_loop_lem n base h)

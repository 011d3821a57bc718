-- ===== src/Core/Retry/Backoff.antt =====
-- app/core/retry.py: the waits between attempts.
use llm_agent_runtime.Prelude.{ℕ, zero, suc, ◌+◌, ◌-◌, ◌*◌, ◌^◌, ◌≤◌, ◌≡◌, some, arith}
use native.Mathlib.Nat.{pow-suc}
use llm_agent_runtime.Core.Retry.{backoff_delay}

doubled :
    (n base : ℕ) → base * 2 ^ (suc n + 1 - 1) ≡ base * 2 ^ (suc n - 1) + base * 2 ^ (suc n - 1)
doubled n base =
    let up : suc n + 1 - 1 ≡ suc n = omega arith in
    let down : suc n - 1 ≡ n = omega arith in rw (up, down, pow-suc) (grind arith)

-- From one attempt to the next the wait does not shrink, at most doubles, and stays within the cap.
pub backoff_delay_grows :
    (attempt base cap d e : ℕ)
    → backoff_delay attempt base cap ≡ some d
    → backoff_delay (attempt + 1) base cap ≡ some e
    → (d ≤ e) × (e ≤ d + d) × (e ≤ cap)
unfolding backoff_delay
backoff_delay_grows zero base cap d e h k = cc
backoff_delay_grows (suc n) base cap d e h k = ground (arith, doubled n base)

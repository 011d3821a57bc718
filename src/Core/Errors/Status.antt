-- ===== src/Core/Errors/Status.antt =====
-- app/core/errors.py: which HTTP failures are worth another attempt.
use llm_agent_runtime.Prelude.{ℕ, ◌≡◌, ◌↔◌, ◌⊎◌, ◌≤◌, ◌<◌, true, arith}
use llm_agent_runtime.Core.Errors.{retryable_by_code, code_from_http_status}

-- An HTTP failure is retried exactly when its status is 429 or lies in 500..599.
pub retryable-code_from_http_status :
    (status : ℕ)
    → (retryable_by_code (code_from_http_status status) ≡ true)
      ↔ ((status ≡ 429) ⊎ ((500 ≤ status) × (status < 600)))
unfolding retryable_by_code code_from_http_status
retryable-code_from_http_status status = (λ h. ground arith, λ h. ground arith)

-- ===== src/Core/Retry.antt =====
-- app/core/retry.py: which errors are transient, and how long to wait. Delays are milliseconds.
pub mod Transient
pub mod Backoff
use llm_agent_runtime.Prelude.{
  ℕ, zero, suc, ◌*◌, ◌-◌, ◌^◌, min, String, Bool, true, false, List, [], ◌∷◌, Option, none, some,
  any, contains, ltb, if◌then◌else◌,
}
use llm_agent_runtime.Core.Errors.{
  ToolErrorCode, ToolExecutionError, retryable_by_code, if_not_negative,
}

abbrev pub transient_markers : List String
transient_markers = "timeout" ∷ "超时" ∷ "connection" ∷ "网络" ∷ "temporarily" ∷ []

-- `lower` stands for `str.lower`.
unfoldable pub looks_transient : (String → String) → String → Bool
looks_transient lower error_text =
    any (λ marker. contains marker (lower error_text)) transient_markers

by_code : (String → String) → String → Option ToolErrorCode → Bool
by_code lower text none = looks_transient lower text
by_code lower text (some ToolErrorCode.unknown) = looks_transient lower text
by_code lower text (some code) = retryable_by_code code

pub is_transient_error : (String → String) → ToolExecutionError → Bool
unfolding by_code
is_transient_error lower error = elim error.retryable [
  | some explicit ↦ explicit
  | none ↦ by_code lower error.message error.code
]

unfoldable pub retry_delay_hint : ToolExecutionError → Option ℕ
retry_delay_hint error = elim error.retry_after_s [
  | none ↦ none
  | some value ↦ if_not_negative value
]

-- `none` is the `ValueError` of an attempt below 1.
unfoldable pub backoff_delay : (attempt base_delay_s max_delay_s : ℕ) → Option ℕ
backoff_delay attempt base_delay_s max_delay_s =
    if ltb attempt 1 then none else some (min (base_delay_s * 2 ^ (attempt - 1)) max_delay_s)

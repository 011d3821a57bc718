-- ===== src/Core/Retry/Transient.antt =====
-- app/core/retry.py: the evidence that `is_transient_error` takes.
use llm_agent_runtime.Prelude.{◌≡◌, ◌≢◌, refl, String, Bool, none, some, arith}
use llm_agent_runtime.Core.Errors.{ToolErrorCode, ToolExecutionError, retryable_by_code}
use llm_agent_runtime.Core.Retry.{is_transient_error}

module _ (lower : String → String) (e : ToolExecutionError) where
  -- A code other than `unknown`, with no explicit mark, decides by the table: the text of the error
  -- does not matter.
  pub is_transient_error_by_code :
      (code : ToolErrorCode)
      → e.retryable ≡ none
      → e.code ≡ some code
      → code ≢ ToolErrorCode.unknown
      → is_transient_error lower e ≡ retryable_by_code code
  unfolding is_transient_error
  is_transient_error_by_code ToolErrorCode.unknown r c h = absurd (h refl)
  is_transient_error_by_code code r c h = ground arith

  -- An explicit mark overrides the code and the text.
  pub is_transient_error_explicit :
      (b : Bool) → e.retryable ≡ some b → is_transient_error lower e ≡ b
  unfolding is_transient_error
  is_transient_error_explicit b h = ground arith

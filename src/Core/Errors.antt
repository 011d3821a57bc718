-- ===== src/Core/Errors.antt =====
-- app/core/errors.py: the structured error codes, and app/tools/registry.py's error classes that
-- carry them. Delays are milliseconds.
use llm_agent_runtime.Prelude.{
  ℕ, ◌≡◌, ◌↔◌, ◌⊎◌, ◌≤◌, ◌<◌, String, Bool, true, false, Option, none, some, ◌&&◌, ◌||◌, ltb, leb,
  ◌==◌, str_eq, if◌then◌else◌,
}
pub mod Status

pub data ToolErrorCode : Type 0 where
  timeout network rate_limited upstream_5xx upstream_4xx auth permission not_found invalid_args
        unknown :
      ToolErrorCode

unfoldable pub retryable_by_code : ToolErrorCode → Bool
retryable_by_code ToolErrorCode.timeout = true
retryable_by_code ToolErrorCode.network = true
retryable_by_code ToolErrorCode.rate_limited = true
retryable_by_code ToolErrorCode.upstream_5xx = true
retryable_by_code ToolErrorCode.upstream_4xx = false
retryable_by_code ToolErrorCode.auth = false
retryable_by_code ToolErrorCode.permission = false
retryable_by_code ToolErrorCode.not_found = false
retryable_by_code ToolErrorCode.invalid_args = false
retryable_by_code ToolErrorCode.unknown = false

pub code_from_http_status : ℕ → ToolErrorCode
code_from_http_status status =
    if status == 429
    then ToolErrorCode.rate_limited
    else if status == 401 || status == 403
    then ToolErrorCode.auth
    else if status == 404
    then ToolErrorCode.not_found
    else if leb 500 status && ltb status 600
    then ToolErrorCode.upstream_5xx
    else if leb 400 status && ltb status 500
    then ToolErrorCode.upstream_4xx
    else ToolErrorCode.unknown

-- A signed number of milliseconds, as `float` reads it from a header.
pub data Seconds : Type 0 where
  pos : ℕ → Seconds
  negsuc : ℕ → Seconds

abbrev pub if_not_negative : Seconds → Option ℕ
if_not_negative (pos n) = some n
if_not_negative (negsuc n) = none

-- `read_float text` stands for `float(str(value).strip())`, with `none` where that raises.
unfoldable pub parse_retry_after : (String → Option Seconds) → Option String → Option ℕ
parse_retry_after read_float none = none
parse_retry_after read_float (some value) =
    if str_eq value ""
    then none
    else elim (read_float value) [ none ↦ none | some seconds ↦ if_not_negative seconds ]

pub record UpstreamHttpError : Type 0 where
  pub status_code : ℕ
  pub message : String
  pub retry_after_s : Option Seconds

pub record ToolExecutionError : Type 0 where
  pub message : String
  pub code : Option ToolErrorCode
  pub retryable : Option Bool
  pub retry_after_s : Option Seconds

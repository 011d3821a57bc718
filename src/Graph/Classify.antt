-- ===== src/Graph/Classify.antt =====
-- app/graph/nodes.py: `_classify_failure` and the tables of codes that it reads.
pub mod Verdicts
pub mod Examples
use llm_agent_runtime.Prelude.{
  String, str_eq, Bool, true, false, not, List, [], ◌∷◌, any, keep, contains, if◌then◌else◌,
}
use llm_agent_runtime.Core.Errors.{ToolErrorCode}
use llm_agent_runtime.Core.Retry.{looks_transient}
use llm_agent_runtime.Graph.State.{
  ErrorKind, retryable, plan_defect, fatal, ErrorType, validation, runtime,
}

abbrev pub is_plan_defect_code : ToolErrorCode → Bool
is_plan_defect_code ToolErrorCode.invalid_args = true
is_plan_defect_code ToolErrorCode.not_found = true
is_plan_defect_code _ = false

abbrev pub is_fatal_code : ToolErrorCode → Bool
is_fatal_code ToolErrorCode.permission = true
is_fatal_code ToolErrorCode.auth = true
is_fatal_code _ = false

abbrev is_validation : ErrorType → Bool
is_validation validation = true
is_validation runtime = false

-- the text fallback, for observations that carry no code
unfoldable classify_text : (String → String) → List ErrorType → String → ErrorKind
classify_text lower error_types errors =
    if contains "未知工具" errors
    then plan_defect
    else if any is_validation error_types
    then plan_defect
    else if looks_transient lower errors
    then retryable
    else if any (λ k. contains k errors) ("越界" ∷ "Permission" ∷ "禁止" ∷ "路径" ∷ [])
    then fatal
    else retryable

abbrev pub is_empty {ℓ} : {A : Type ℓ} → List A → Bool
is_empty [] = true
is_empty (x ∷ xs) = false

pub classify_failure : (String → String) → List ToolErrorCode → List ErrorType → String → ErrorKind
classify_failure lower codes error_types errors =
    if any is_plan_defect_code codes
    then plan_defect
    else if any is_fatal_code codes
    then fatal
    else if not (is_empty codes)
    then retryable
    else classify_text lower error_types errors

-- The text of a code.
unfoldable pub code_name : ToolErrorCode → String
code_name ToolErrorCode.timeout = "timeout"
code_name ToolErrorCode.network = "network"
code_name ToolErrorCode.rate_limited = "rate_limited"
code_name ToolErrorCode.upstream_5xx = "upstream_5xx"
code_name ToolErrorCode.upstream_4xx = "upstream_4xx"
code_name ToolErrorCode.auth = "auth"
code_name ToolErrorCode.permission = "permission"
code_name ToolErrorCode.not_found = "not_found"
code_name ToolErrorCode.invalid_args = "invalid_args"
code_name ToolErrorCode.unknown = "unknown"

same_code : ToolErrorCode → ToolErrorCode → Bool
unfolding code_name
same_code a b = str_eq (code_name a) (code_name b)

-- `sorted(codes)` of the set of codes: by text, each once.
pub sorted_codes : List ToolErrorCode → List ToolErrorCode
sorted_codes codes =
    keep (λ c. any (same_code c) codes)
      (ToolErrorCode.auth ∷ ToolErrorCode.invalid_args ∷ ToolErrorCode.network
        ∷ ToolErrorCode.not_found ∷ ToolErrorCode.permission ∷ ToolErrorCode.rate_limited
        ∷ ToolErrorCode.timeout ∷ ToolErrorCode.unknown ∷ ToolErrorCode.upstream_4xx
        ∷ ToolErrorCode.upstream_5xx ∷ [])

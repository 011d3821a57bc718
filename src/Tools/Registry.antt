-- ===== src/Tools/Registry.antt =====
-- app/tools/registry.py: the specifications of the tools, and the one place where a tool is run. What
-- a handler does is a parameter, since a tool reaches out of the program; `W` is the world it acts on.
use llm_agent_runtime.Prelude.{
  ℕ, ◌-◌, String, str_eq, Bool, not, List, [], ◌∷◌, ◌++◌, map, take, Option, none, some, format,
  join, clip, show_ℕ, if◌then◌else◌,
}
use llm_agent_runtime.Prelude.Json.{
  Json, num, str, Fields, field_of, truthy, set_field, set_default,
}
use llm_agent_runtime.Prelude.Python.{Python}
use llm_agent_runtime.Core.Errors.{
  ToolErrorCode, ToolExecutionError, UpstreamHttpError, Seconds, code_from_http_status,
}

-- The classes of `_EXCEPTION_CODE_MAP`, and any other.
pub data ExceptionClass : Type 0 where
  permission_error file_not_found_error connection_error timeout_error value_error other_error :
      ExceptionClass

-- What a handler returns or raises; `ran_out` is the `TimeoutError` of `asyncio.wait_for`, which is the
-- class of the handler's own `TimeoutError` too.
pub data Handled : Type 0 where
  produced : Fields → Handled
  ran_out : Handled
  tool_error : ToolExecutionError → Handled
  upstream_error : UpstreamHttpError → Handled
  exception : ExceptionClass → (type_name text : String) → Handled
  -- a `BaseException` that is no `Exception`
  died : String → Handled

-- What `execute` returns or raises.
pub data ToolOutcome : Type 0 where
  returned : Fields → ToolOutcome
  invalid : String → ToolOutcome
  failed : ToolExecutionError → ToolOutcome
  escaped : String → ToolOutcome

-- `iter_errors` lists `path: message` for each error that the schema's validator finds, by path.
pub record ToolSpec (W : Type 0) : Type 0 where
  pub name : String
  pub description : String
  pub input_schema : Json
  pub iter_errors : Json → List String
  pub handler : Json → W → Handled × W
  pub timeout_s : String
  pub key_result : Bool
  pub key_output_limit : ℕ
  pub retry_transient : Bool

unfoldable pub code_for_exception : ExceptionClass → Option ToolErrorCode
code_for_exception permission_error = some ToolErrorCode.permission
code_for_exception file_not_found_error = some ToolErrorCode.not_found
code_for_exception connection_error = some ToolErrorCode.network
code_for_exception timeout_error = some ToolErrorCode.timeout
code_for_exception value_error = some ToolErrorCode.invalid_args
code_for_exception other_error = none

execution_error : String → Option ToolErrorCode → Option Seconds → ToolExecutionError
execution_error message code retry_after_s = record {
  message = message;
  code = code;
  retryable = none;
  retry_after_s = retry_after_s;
}

-- The `_tools` of a registry, by name, in the order of registration.
module _ {W : Type 0} where
  unfoldable pub find_tool : List (ToolSpec W) → String → Option (ToolSpec W)
  find_tool [] name = none
  find_tool (spec ∷ tools) name = if str_eq spec.name name then some spec else find_tool tools name

  -- `none` is the `ValueError` of a name that is taken.
  unfoldable pub register : ToolSpec W → List (ToolSpec W) → Option (List (ToolSpec W))
  register spec tools = elim (find_tool tools spec.name) [
    | some other ↦ none
    | none ↦ some (tools ++ spec ∷ [])
  ]

  -- the error of `get` for a name that is not registered
  unfoldable pub unknown_tool : Python → List (ToolSpec W) → String → ToolExecutionError
  unfolding execution_error
  unknown_tool py tools name =
      execution_error
        (format ("未知工具: " ∷ name ∷ "，可用工具: " ∷ py.sorted_names (map (λ s. s.name) tools) ∷ []))
        (some ToolErrorCode.not_found) none

  -- `some` is the text of the `ToolValidationError`.
  unfoldable pub validate : ToolSpec W → Json → Option String
  validate spec arguments = message (spec.iter_errors arguments)
    where
      message : List String → Option String
      message [] = none
      message (e ∷ es) =
          some (format ("参数不符合 schema [" ∷ spec.name ∷ "]: " ∷ join "; " (take 3 (e ∷ es)) ∷ []))

  -- `elapsed_ms` is the time that the handler took.
  unfoldable pub outcome_of : ToolSpec W → (elapsed_ms : ℕ) → Handled → ToolOutcome
  unfolding execution_error
  outcome_of spec elapsed_ms (produced result) =
      returned (set_field "elapsed_ms" (num elapsed_ms) (set_default "tool" (str spec.name) result))
  outcome_of spec elapsed_ms ran_out = failed (
      execution_error (format ("工具 " ∷ spec.name ∷ " 执行超时（>" ∷ spec.timeout_s ∷ "s）" ∷ []))
        (some ToolErrorCode.timeout) none)
  outcome_of spec elapsed_ms (died e) = escaped e
  outcome_of spec elapsed_ms (tool_error e) = failed e
  outcome_of spec elapsed_ms (upstream_error e) = failed (
      execution_error
        (format ("工具 " ∷ spec.name ∷ " 上游返回 HTTP " ∷ show_ℕ e.status_code ∷ ": " ∷ e.message ∷ []))
        (some (code_from_http_status e.status_code)) e.retry_after_s)
  outcome_of spec elapsed_ms (exception timeout_error type_name text) = failed (
      execution_error (format ("工具 " ∷ spec.name ∷ " 执行超时（>" ∷ spec.timeout_s ∷ "s）" ∷ []))
        (some ToolErrorCode.timeout) none)
  outcome_of spec elapsed_ms (exception c type_name text) = failed (
      execution_error (format ("工具 " ∷ spec.name ∷ " 运行异常: " ∷ type_name ∷ ": " ∷ text ∷ []))
        (code_for_exception c) none)

  unfoldable pub execute :
      Python → (clock : W → ℕ) → List (ToolSpec W) → String → Json → W → ToolOutcome × W
  execute py clock tools name arguments w = elim (find_tool tools name) [
    | none ↦ (failed (unknown_tool py tools name), w)
    | some spec ↦ elim (validate spec arguments) [
      | some message ↦ (invalid message, w)
      | none ↦
          let (handled, w') = spec.handler arguments w in
          (outcome_of spec (clock w' - clock w) handled, w')
    ]
  ]

  -- The outer `none` is the `TypeError` of a summary that is no text and cannot be cut; a summary
  -- that is a list, which Python cuts as a list, is counted as one.
  unfoldable pub key_text : Python → ToolSpec W → Fields → Option String
  key_text py spec result = text (field_of "summary" result)
    where
      result_text : Option Json → String
      result_text none = ""
      result_text (some v) = py.text_of v

      text : Option Json → Option String
      text none = some (clip spec.key_output_limit (result_text (field_of "result" result)))
      text (some (str s)) =
          if str_eq s ""
          then some (clip spec.key_output_limit (result_text (field_of "result" result)))
          else some (clip spec.key_output_limit s)
      text (some v) =
          if truthy v
          then none
          else some (clip spec.key_output_limit (result_text (field_of "result" result)))

  unfoldable pub extract_key_output :
      Python → List (ToolSpec W) → String → Fields → Option (Option String)
  extract_key_output py tools name result = elim (find_tool tools name) [
    | none ↦ some none
    | some spec ↦
        if not spec.key_result
        then some none
        else elim (key_text py spec result) [ none ↦ none | some text ↦ some (some text) ]
  ]

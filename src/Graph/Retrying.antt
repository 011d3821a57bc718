-- ===== src/Graph/Retrying.antt =====
-- app/graph/nodes.py: `_cancellable_sleep` and `_retry_transient`, the retries of a tool that failed.
pub mod Attempts
use llm_agent_runtime.Prelude.{
  ℕ, zero, suc, ◌+◌, ◌-◌, ◌/◌, min, String, Bool, true, false, not, ◌&&◌, List, [], ◌∷◌, Option,
  none, some, ltb, leb, if◌then◌else◌, format, clip,
}
use llm_agent_runtime.Prelude.Json.{Json, null, num, str, Fields}
use llm_agent_runtime.Prelude.Python.{Python}
use llm_agent_runtime.Core.Errors.{ToolErrorCode, ToolExecutionError}
use llm_agent_runtime.Core.Llm.{ToolCall}
use llm_agent_runtime.Core.Retry.{is_transient_error, retry_delay_hint, backoff_delay}
use llm_agent_runtime.Tools.Registry.{
  escaped, ToolOutcome, returned, invalid, failed, ToolSpec, execute, find_tool,
}
use llm_agent_runtime.Graph.State.{Settings, Event}
use llm_agent_runtime.Graph.Run.{
  escape, Result, ok, Env, Run, pure, asks, lift, emit, fail, ◌>>=◌, ◌>>◌,
}
use llm_agent_runtime.Graph.Classify.{code_name}

-- The three values that `_retry_transient` returns.
pub record Retried : Type 0 where
  pub result : Option Fields
  pub error : String
  pub error_code : Option ToolErrorCode

gave_up : String → Option ToolErrorCode → Retried
gave_up error error_code = record { result = none; error = error; error_code = error_code }

canceled_text : ToolExecutionError → String
canceled_text e = format (e.message ∷ "（任务已取消，不再重试）" ∷ [])

-- `_code_value`
pub code_value : Option ToolErrorCode → Json
code_value none = null
code_value (some c) = str (code_name c)

-- The delay before a retry: the upstream's hint or else the backoff, neither above the maximum.
unfoldable pub delay_of : Settings → ℕ → ToolExecutionError → Option ℕ
delay_of settings attempt e = elim (retry_delay_hint e) [
  | some hint ↦ some (min hint settings.retry_max_delay_s)
  | none ↦ backoff_delay attempt settings.retry_base_delay_s settings.retry_max_delay_s
]

delay_source : ToolExecutionError → String
delay_source e = elim (retry_delay_hint e) [ some hint ↦ "retry_after" | none ↦ "backoff" ]

scheduled_event : ToolCall → ℕ → ℕ → ToolExecutionError → Event
unfolding code_value delay_source
scheduled_event call attempt delay e = record {
  type = "tool_retry_scheduled";
  payload =
      ("tool", str call.name)
      ∷ ("call_id", str call.id)
      ∷ ("attempt", num attempt)
      ∷ ("delay_s", num delay)
      ∷ ("delay_source", str (delay_source e))
      ∷ ("error_code", code_value e.code)
      ∷ ("error", str (clip 300 e.message))
      ∷ [];
}

success_event : ToolCall → ℕ → ℕ → Event
success_event call attempt delay = record {
  type = "tool_retry_success";
  payload =
      ("tool", str call.name)
      ∷ ("call_id", str call.id)
      ∷ ("attempt", num attempt)
      ∷ ("delay_s", num delay)
      ∷ [];
}

exhausted_event : ToolCall → ℕ → ToolExecutionError → Event
unfolding code_value
exhausted_event call attempts e = record {
  type = "tool_retry_exhausted";
  payload =
      ("tool", str call.name)
      ∷ ("call_id", str call.id)
      ∷ ("attempts", num attempts)
      ∷ ("error_code", code_value e.code)
      ∷ ("error", str (clip 300 e.message))
      ∷ [];
}

module _ {W : Type 0} (env : Env W) (task_id : String) where
  -- `remaining` milliseconds in slices of 500; `slices` bounds their number.
  pub sleep_slices : (slices remaining : ℕ) → W → Bool × W
  sleep_slices zero remaining w = (false, w)
  sleep_slices (suc slices) remaining w =
      if not (ltb 0 remaining)
      then (false, w)
      else if env.canceled task_id w
      then (true, w)
      else sleep_slices slices (remaining - min 500 remaining) (env.sleep (min 500 remaining) w)

  pub cancellable_sleep : ℕ → Run W Bool
  cancellable_sleep delay w =
      let (woken, w') = sleep_slices ((delay + 499) / 500) delay w in (ok woken, [], w')

module _ {W : Type 0} (py : Python) (settings : Settings) (env : Env W) (task_id : String) where
  abbrev pub run_tool : String → Json → Run W ToolOutcome
  run_tool name args =
      lift (λ w. let (outcome, w') = execute py env.clock env.tools name args w in (ok outcome, w'))

  -- The end of the loop after `attempts` retries.
  retries_over : ToolCall → ℕ → ToolExecutionError → Run W Retried
  unfolding gave_up exhausted_event
  retries_over call attempts e =
      if not (leb settings.retry_max_attempts attempts && ltb 0 settings.retry_max_attempts)
      then pure (gave_up e.message e.code)
      else do emit (exhausted_event call attempts e); pure (gave_up e.message e.code)

  -- What follows a retry; `again` is the rest of the loop.
  after_retry :
      (again : ToolExecutionError → Run W Retried)
      → ToolCall
      → (attempt delay : ℕ) → ToolExecutionError
      → ToolOutcome
      → Run W Retried
  unfolding gave_up success_event
  after_retry again call attempt delay e (failed e') = again e'
  after_retry again call attempt delay e (invalid message) =
      pure (gave_up (format ("重试期间参数校验失败: " ∷ message ∷ [])) (some ToolErrorCode.invalid_args))
  after_retry again call attempt delay e (escaped x) = escape x
  after_retry again call attempt delay e (returned result) = do
    emit (success_event call attempt delay)
    pure (record { result = some result; error = e.message; error_code = e.code })

  -- One retry after `delay`.
  retry_once :
      (again : ToolExecutionError → Run W Retried)
      → ToolCall
      → Json
      → (attempt delay : ℕ) → ToolExecutionError
      → Run W Retried
  unfolding gave_up canceled_text scheduled_event after_retry
  retry_once again call args attempt delay e = do
    emit (scheduled_event call attempt delay e)
    woken ← cancellable_sleep env task_id delay
    if woken
        then pure (gave_up (canceled_text e) e.code)
        else do outcome ← run_tool call.name args; after_retry again call attempt delay e outcome

  -- The loop from `attempt` on, with `left` attempts to go.
  pub retry_from : ToolCall → Json → (left attempt : ℕ) → ToolExecutionError → Run W Retried
  unfolding gave_up canceled_text retry_once
  retry_from call args zero attempt e = retries_over call (attempt - 1) e
  retry_from call args (suc left) attempt e =
      let again = retry_from call args left (attempt + 1) in
      if not (is_transient_error py.lower e) then retries_over call (attempt - 1) e else do
        stop ← asks (env.canceled task_id)
        if stop
            then pure (gave_up (canceled_text e) e.code)
            else elim (delay_of settings attempt e) [
              | none ↦ fail "attempt 从 1 开始"
              | some delay ↦ retry_once again call args attempt delay e
            ]

  -- whether the tool may be run again with the same arguments
  unfoldable pub may_retry : String → Bool
  may_retry name = elim (find_tool env.tools name) [
    | none ↦ false
    | some spec ↦ spec.retry_transient
  ]

  pub retry_transient : ToolCall → Json → ToolExecutionError → Run W Retried
  unfolding gave_up
  retry_transient call args first_error =
      if not (is_transient_error py.lower first_error && may_retry call.name)
      then pure (gave_up first_error.message first_error.code)
      else retry_from call args settings.retry_max_attempts 1 first_error

-- ===== src/Graph/Retrying/Attempts.antt =====
-- app/graph/nodes.py: how often `_retry_transient` runs a tool.
use llm_agent_runtime.Prelude.{
  ℕ, zero, suc, ◌+◌, ◌-◌, ◌/◌, ◌≤◌, min, String, ◌&&◌, arith, Bool-cases, Option-cases, inl, inr,
  ltb, leb,
}
use llm_agent_runtime.Prelude.Json.{Json}
use llm_agent_runtime.Prelude.Python.{Python}
use llm_agent_runtime.Core.Errors.{ToolExecutionError}
use llm_agent_runtime.Core.Retry.{is_transient_error}
use llm_agent_runtime.Core.Llm.{ToolCall}
use llm_agent_runtime.Tools.Registry.{escaped, ToolOutcome, returned, invalid, failed, execute}
use llm_agent_runtime.Graph.State.{Settings}
use llm_agent_runtime.Graph.Run.{Env, Run, Within}
use llm_agent_runtime.Graph.Retrying.{
  sleep_slices, cancellable_sleep, retries_over, retry_from, retry_transient, delay_of, Retried,
  may_retry, run_tool, after_retry, retry_once,
}

module _ {W : Type 0} (py : Python) (settings : Settings) (env : Env W) (task_id : String)
    (calls : W → ℕ)
    (on_tool : (name : String) (args : Json) (w : W)
      → calls (execute py env.clock env.tools name args w).1 ≤ calls w + 1)
    (on_sleep : (d : ℕ) (w : W) → calls (env.sleep d w) ≤ calls w) where
  sleep_slices-within :
      (slices remaining : ℕ) (w : W)
      → calls (sleep_slices env task_id slices remaining w).1 ≤ calls w
  unfolding sleep_slices
  sleep_slices-within zero remaining w = omega arith
  sleep_slices-within (suc slices) remaining w =
      let rest =
        sleep_slices-within slices (remaining - min 500 remaining)
          (env.sleep (min 500 remaining) w) in
      let slept = on_sleep (min 500 remaining) w in
      elim (Bool-cases (ltb 0 remaining)) [
        | inl e ↦ elim (Bool-cases (env.canceled task_id w)) [
          | inl c ↦ rw (e, c) omega arith
          | inr c ↦ rw (e, c) omega arith
        ]
        | inr e ↦ rw e omega arith
      ]

  retries_over-Within :
      (call : ToolCall) (n : ℕ) (e : ToolExecutionError)
      → Within calls 0 (retries_over py settings env task_id call n e)
  unfolding retries_over
  retries_over-Within call n e w =
      elim (Bool-cases (leb settings.retry_max_attempts n && ltb 0 settings.retry_max_attempts)) [
        | inl t ↦ rw t omega arith
        | inr t ↦ rw t omega arith
      ]

  cancellable_sleep-Within : (d : ℕ) → Within calls 0 (cancellable_sleep env task_id d)
  unfolding cancellable_sleep
  cancellable_sleep-Within d w = let s = sleep_slices-within ((d + 499) / 500) d w in omega arith

  run_tool-Within :
      (name : String) (args : Json) → Within calls 1 (run_tool py settings env task_id name args)
  run_tool-Within name args w = on_tool name args w

  module _ (again : ToolExecutionError → Run W Retried) (n : ℕ)
      (on_again : (e : ToolExecutionError) → Within calls n (again e)) where
    after_retry-Within :
        (call : ToolCall) (attempt delay : ℕ) (e : ToolExecutionError) (outcome : ToolOutcome)
        → Within calls n (after_retry py settings env task_id again call attempt delay e outcome)
    unfolding after_retry
    after_retry-Within call attempt delay e (failed e') w = on_again e' w
    after_retry-Within call attempt delay e (invalid message) w = omega arith
    after_retry-Within call attempt delay e (escaped x) w = omega arith
    after_retry-Within call attempt delay e (returned result) w = omega arith

    retry_once-Within :
        (call : ToolCall) (args : Json) (attempt delay : ℕ) (e : ToolExecutionError)
        → Within calls (suc n) (retry_once py settings env task_id again call args attempt delay e)
    unfolding retry_once cancellable_sleep
    retry_once-Within call args attempt delay e w =
        let s = cancellable_sleep-Within delay w in
        let w1 = (cancellable_sleep env task_id delay w).2 in
        let t = on_tool call.name args w1 in
        let (outcome, w2) = execute py env.clock env.tools call.name args w1 in
        let last = after_retry-Within call attempt delay e outcome w2 in
        elim (Bool-cases (sleep_slices env task_id ((delay + 499) / 500) delay w).0) [
          | inl woken ↦ rw woken omega arith
          | inr slept ↦ rw slept omega arith
        ]

  pub retry_from-Within :
      (call : ToolCall) (args : Json) (left n : ℕ) (e : ToolExecutionError)
      → Within calls left (retry_from py settings env task_id call args left n e)
  unfolding retry_from
  retry_from-Within call args zero n e w = retries_over-Within call (n - 1) e w
  retry_from-Within call args (suc left) n e w = elim (Bool-cases (is_transient_error py.lower e)) [
    | inr t ↦ rw t (let over = retries_over-Within call (n - 1) e w in omega arith)
    | inl t ↦ elim (Bool-cases (env.canceled task_id w)) [
      | inl stop ↦ rw (t, stop) omega arith
      | inr stop ↦ elim (Option-cases (delay_of settings n e)) [
        | inl d ↦ rw (t, stop, d) omega arith
        | inr (delay, d) ↦
            rw (t, stop, d)
              (retry_once-Within (retry_from py settings env task_id call args left (n + 1)) left
                (retry_from-Within call args left (n + 1)) call args n delay e w)
      ]
    ]
  ]

  -- `_retry_transient` runs the tool at most `retry_max_attempts` times.
  pub retry_transient-Within :
      (call : ToolCall) (args : Json) (e : ToolExecutionError)
      → Within calls settings.retry_max_attempts
          (retry_transient py settings env task_id call args e)
  unfolding retry_transient
  retry_transient-Within call args e w =
      elim (Bool-cases
        (is_transient_error py.lower e && may_retry py settings env task_id call.name)) [
          | inl t ↦ rw t (retry_from-Within call args settings.retry_max_attempts 1 e w)
          | inr t ↦ rw t omega arith
        ]

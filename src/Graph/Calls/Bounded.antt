-- ===== src/Graph/Calls/Bounded.antt =====
-- app/graph/nodes.py: how often `_execute_call` runs a tool.
use llm_agent_runtime.Prelude.{
  ℕ, zero, suc, ◌+◌, ◌≤◌, String, Bool, false, List, Option, none, some, arith, Bool-cases,
  Option-cases, inl, inr, str_eq,
}
use llm_agent_runtime.Prelude.Json.{Json}
use llm_agent_runtime.Prelude.Python.{Python}
use llm_agent_runtime.Core.Errors.{ToolExecutionError}
use llm_agent_runtime.Core.Llm.{ToolCall, Message}
use llm_agent_runtime.Tools.Registry.{
  escaped, ToolOutcome, returned, invalid, failed, execute, find_tool,
}
use llm_agent_runtime.Graph.State.{AgentState, Settings}
use llm_agent_runtime.Graph.Prompts.{Prompts}
use llm_agent_runtime.Graph.Run.{Env, Run, Within, Within-bind, Within-pure, pure, lift}
use llm_agent_runtime.Graph.Context.{model_of}
use llm_agent_runtime.Graph.Retrying.{run_tool, retry_transient}
use llm_agent_runtime.Graph.Retrying.Attempts.{retry_transient-Within}
use llm_agent_runtime.Graph.Calls.{
  Healed, healed, broken, unhealed, repair_args, heal, retried, after_heal, self_heal, execute_call,
  repair_request, heal_outcome, heal_repaired, retried_obs, first_outcome, fixed_of,
}

module _ {W : Type 0} (py : Python) (prompts : Prompts) (settings : Settings) (env : Env W)
    (calls : W → ℕ)
    (on_tool : (name : String) (args : Json) (w : W)
      → calls (execute py env.clock env.tools name args w).1 ≤ calls w + 1)
    (on_sleep : (d : ℕ) (w : W) → calls (env.sleep d w) ≤ calls w)
    (on_chat : (messages : List Message) (with_tools : Bool) (model : String) (w : W)
      → calls (env.chat messages with_tools model w).1 ≤ calls w) where
  repair_args-Within :
      (st : AgentState) (name : String) (args : Json) (error : String)
      → Within calls 0 (repair_args py prompts settings env st name args error)
  unfolding repair_args
  repair_args-Within st name args error w = elim (Option-cases (find_tool env.tools name)) [
    | inl e ↦ rw (repair_args, e) omega arith
    | inr (spec, e) ↦
        rw (repair_args, e)
          (Within-bind calls
            (lift (
              env.chat (repair_request py prompts settings env spec args error) false
                (model_of settings st)))
            (λ resp. pure (fixed_of py spec resp, resp.tokens_used)) 0 0 0 (omega arith)
            (λ w'.
              let le =
                on_chat (repair_request py prompts settings env spec args error) false
                  (model_of settings st) w' in
              omega arith)
            (λ resp w'. omega arith) w)
  ]

  run_tool-Within :
      (st : AgentState) (name : String) (args : Json)
      → Within calls 1 (run_tool py settings env st.task_id name args)
  run_tool-Within st name args w = on_tool name args w

  heal_outcome-Within :
      (again : Json → String → Run W Healed) (n : ℕ)
      (on_again : (args : Json) (error : String) → Within calls n (again args error))
      (call : ToolCall) (fixed : Json) (attempts tokens : ℕ) (outcome : ToolOutcome)
      → Within calls n
          (heal_outcome py prompts settings env again call fixed attempts tokens outcome)
  unfolding heal_outcome
  heal_outcome-Within again n h call fixed attempts tokens (returned r) w = omega arith
  heal_outcome-Within again n h call fixed attempts tokens (invalid error) w = h fixed error w
  heal_outcome-Within again n h call fixed attempts tokens (escaped x) w = omega arith
  heal_outcome-Within again n h call fixed attempts tokens (failed e) w = omega arith

  heal_repaired-Within :
      (again : ℕ → Json → String → Run W Healed) (n : ℕ)
      (on_again : (tokens : ℕ) (args : Json) (error : String)
        → Within calls n (again tokens args error))
      (st : AgentState) (call : ToolCall) (args : Json) (error : String) (attempts tokens : ℕ)
      (repair : Option Json × ℕ)
      → Within calls
          (1 + n)
          (heal_repaired py prompts settings env again st call args error attempts tokens repair)
  unfolding heal_repaired
  heal_repaired-Within again n h st call args error attempts tokens (none, spent) =
      λ w. let le = h (tokens + spent) args error w in omega arith
  heal_repaired-Within again n h st call args error attempts tokens (some fixed, spent) =
      Within-bind calls (run_tool py settings env st.task_id call.name fixed)
        (heal_outcome py prompts settings env (again (tokens + spent)) call fixed attempts
          (tokens + spent))
        1 n (1 + n) (omega arith) (run_tool-Within st call.name fixed)
        (heal_outcome-Within (again (tokens + spent)) n (h (tokens + spent)) call fixed attempts
          (tokens + spent))

  pub heal-Within :
      (st : AgentState) (call : ToolCall) (left attempts tokens : ℕ) (args : Json) (error : String)
      → Within calls left (heal py prompts settings env st call left attempts tokens args error)
  unfolding heal
  heal-Within st call zero attempts tokens args error w = omega arith
  heal-Within st call (suc left) attempts tokens args error w =
      Within-bind calls (repair_args py prompts settings env st call.name args error)
        (heal_repaired py prompts settings env
          (heal py prompts settings env st call left (attempts + 1)) st call args error
          (attempts + 1) tokens)
        0 (1 + left) (suc left) (omega arith) (repair_args-Within st call.name args error)
        (heal_repaired-Within (heal py prompts settings env st call left (attempts + 1)) left
          (heal-Within st call left (attempts + 1)) st call args error (attempts + 1) tokens)
        w

  retried-Within :
      (st : AgentState) (call : ToolCall) (args : Json) (e : ToolExecutionError)
      (attempts tokens : ℕ)
      → Within calls settings.retry_max_attempts
          (retried py prompts settings env st call args e attempts tokens)
  unfolding retried
  retried-Within st call args e attempts tokens w =
      let le =
        Within-bind calls (retry_transient py settings env st.task_id call args e)
          (λ r. pure (retried_obs py prompts settings env call args attempts tokens r))
          settings.retry_max_attempts 0 settings.retry_max_attempts (omega arith)
          (retry_transient-Within py settings env st.task_id calls on_tool on_sleep call args e)
          (λ r.
            Within-pure calls (retried_obs py prompts settings env call args attempts tokens r) 0)
          w in
      omega arith

  after_heal-Within :
      (st : AgentState) (call : ToolCall) (h : Healed)
      → Within calls settings.retry_max_attempts (after_heal py prompts settings env st call h)
  unfolding after_heal
  after_heal-Within st call (healed args result attempts tokens) w = omega arith
  after_heal-Within st call (broken args e attempts tokens) w =
      retried-Within st call args e attempts tokens w
  after_heal-Within st call (unhealed args error attempts tokens) w = omega arith

  self_heal-Within :
      (st : AgentState) (call : ToolCall) (error : String)
      → Within calls
          (settings.max_selfheal_retries + settings.retry_max_attempts)
          (self_heal py prompts settings env st call error)
  unfolding self_heal
  self_heal-Within st call error =
      Within-bind calls
        (heal py prompts settings env st call settings.max_selfheal_retries 0 0 call.arguments
          error)
        (after_heal py prompts settings env st call) settings.max_selfheal_retries
        settings.retry_max_attempts (settings.max_selfheal_retries + settings.retry_max_attempts)
        (omega arith) (heal-Within st call settings.max_selfheal_retries 0 0 call.arguments error)
        (after_heal-Within st call)

  first_outcome-Within :
      (st : AgentState) (call : ToolCall) (outcome : ToolOutcome)
      → Within calls
          (settings.max_selfheal_retries + settings.retry_max_attempts)
          (first_outcome py prompts settings env st call outcome)
  unfolding first_outcome
  first_outcome-Within st call (returned result) w = omega arith
  first_outcome-Within st call (invalid error) w = self_heal-Within st call error w
  first_outcome-Within st call (escaped x) w = omega arith
  first_outcome-Within st call (failed e) w =
      let le = retried-Within st call call.arguments e 0 0 w in omega arith

  -- One call of the model runs its tool at most once, and then once for each repair of the arguments
  -- and once for each retry that the settings allow; `calls` counts the runs of tools in the world, which
  -- one `execute` grows by at most one and neither a call of the model nor a wait grows.
  pub execute_call-within :
      (st : AgentState) (call : ToolCall) (w : W)
      → calls (execute_call py prompts settings env st call w).2
        ≤ calls w + (1 + (settings.max_selfheal_retries + settings.retry_max_attempts))
  unfolding execute_call
  execute_call-within st call w = elim (Bool-cases (str_eq call.args_parse_error "")) [
    | inl e ↦ rw e (
        Within-bind calls (run_tool py settings env st.task_id call.name call.arguments)
          (first_outcome py prompts settings env st call) 1
          (settings.max_selfheal_retries + settings.retry_max_attempts)
          (1 + (settings.max_selfheal_retries + settings.retry_max_attempts)) (omega arith)
          (run_tool-Within st call.name call.arguments) (first_outcome-Within st call) w)
    | inr e ↦ rw e (let le = self_heal-Within st call call.args_parse_error w in omega arith)
  ]

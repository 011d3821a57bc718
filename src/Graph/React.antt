-- ===== src/Graph/React.antt =====
-- app/graph/nodes.py: `react_step_node`, the step in which the model decides, and
-- `approval_gate_node`, at which a person may stop its tool calls.
pub mod Budgeted
pub mod Approved
pub mod Steps
use llm_agent_runtime.Prelude.{
  ℕ, ◌+◌, String, Bool, true, false, not, ◌&&◌, List, [], ◌∷◌, ◌++◌, map, Option, none, some,
  length, ltb, leb, str_eq, if◌then◌else◌, clip,
}
use llm_agent_runtime.Prelude.Json.{Json, Fields, num, str, obj, arr, bool, array, end, field}
use llm_agent_runtime.Prelude.Python.{Python}
use llm_agent_runtime.Core.Budget.{Action, BudgetDecision, check_budget}
use llm_agent_runtime.Core.Llm.{ToolCall, LlmResponse}
use llm_agent_runtime.Graph.Plan.{safe_layers}
use llm_agent_runtime.Graph.State.{
  AgentState, Settings, Event, Status, is_plan_execute, ErrorKind, no_error,
}
use llm_agent_runtime.Graph.Prompts.{Prompts}
use llm_agent_runtime.Graph.Context.{assemble_base, model_of, assistant_message}
use llm_agent_runtime.Graph.Run.{Result, Env, Run, pure, asks, lift, emit, ◌>>=◌, ◌>>◌}
use llm_agent_runtime.Graph.Classify.{is_empty}

call_json : ToolCall → Json
call_json c = obj (field "name" (str c.name) (field "arguments" c.arguments end))

step_event : AgentState → LlmResponse → Event
unfolding call_json
step_event st resp = record {
  type = "llm_step";
  payload =
      ("iteration", num (st.iterations + 1))
      ∷ ("thought", str (clip 400 resp.text))
      ∷ ("tool_calls", arr (array (map call_json resp.tool_calls)))
      ∷ ("model", str resp.model)
      ∷ [];
}

draft_event : LlmResponse → Event
draft_event resp = record {
  type = "llm_final_draft";
  payload = ("text", str (clip 400 resp.text)) ∷ ("model", str resp.model) ∷ [];
}

-- The update after the model has answered; `downgrade` says whether this step downgraded it.
pub answered : Python → Bool → AgentState → LlmResponse → AgentState × Event
unfolding step_event draft_event
answered py downgrade st resp =
    let updated = record st {
      messages = st.messages ++ assistant_message py resp ∷ [];
      pending_tool_calls = resp.tool_calls;
      tokens_used = st.tokens_used + resp.tokens_used;
      steps_used = st.steps_used + 1;
      iterations = st.iterations + 1;
      error_kind = no_error;
      downgraded = if downgrade then true else st.downgraded;
    } in
    if is_empty resp.tool_calls
    then (record updated { needs_final = true; final_answer = resp.text }, draft_event resp)
    else (updated, step_event st resp)

abbrev budget_of : Settings → AgentState → BudgetDecision
budget_of settings st =
    check_budget st.tokens_used st.steps_used st.max_tokens st.max_steps st.downgraded
      (not (str_eq settings.llm_model_cheap ""))

-- every batch of the plan has run
unfoldable pub plan_is_over : AgentState → Bool
plan_is_over st =
    is_plan_execute st.mode
    && (not (is_empty st.plan) && leb (length (safe_layers st.plan)) st.current_step)

unfoldable budget_event : String → List (String × Json) → Event
budget_event type payload = record { type = type; payload = payload }

module _ {W : Type 0} (py : Python) (prompts : Prompts) (settings : Settings) (env : Env W) where
  -- The call of the model and its update.
  pub ask_model : Bool → String → AgentState → Run W AgentState
  ask_model downgrade model st = do
    now ← asks env.now_context
    resp ← lift (env.chat (assemble_base prompts now st) true model)
    emit (answered py downgrade st resp).1
    pure (answered py downgrade st resp).0

  -- The step within the budget `decision`.
  pub decide : BudgetDecision → AgentState → Run W AgentState
  decide decision st = elim decision.action [
    | Action.exceeded ↦ do
      emit (budget_event "budget_exceeded" (("reason", str decision.reason) ∷ []))
      pure (record st {
        status = Status.budget_exceeded;
        needs_final = true;
        last_error = decision.reason;
        error_kind = no_error;
      })
    | Action.ok ↦
        if plan_is_over st
        then pure (record st { needs_final = true })
        else ask_model false (model_of settings st) st
    | Action.downgrade ↦ if plan_is_over st then pure (record st { needs_final = true }) else do
      emit (
          budget_event "budget_downgrade"
            (("reason", str decision.reason) ∷ ("model", str settings.llm_model_cheap) ∷ []))
      ask_model true settings.llm_model_cheap st
  ]

  pub react_step_node : AgentState → Run W AgentState
  react_step_node st w =
      if env.canceled st.task_id w
      then pure
          (record st { status = Status.canceled; needs_final = true; final_answer = "任务已被用户取消。" }) w
      else decide (budget_of settings st) st w

-- What `interrupt` gives back: nothing while no decision has been made, then the decision.
pub data Gate : Type 0 where
  passed : AgentState → List Event → Gate
  suspended : Json → Gate

gate_event : String → Bool → Event
gate_event type decision = record { type = type; payload = ("decision", bool decision) ∷ [] }

interrupt_payload : AgentState → Json
unfolding call_json
interrupt_payload st = obj (
    field "goal" (str st.goal) (
      field "round" (num st.iterations)
        (field "tools" (arr (array (map call_json st.pending_tool_calls))) end)))

unfoldable pub approval_gate_node : Option Bool → AgentState → Gate
unfolding gate_event interrupt_payload
approval_gate_node decision st = if not st.require_approval then passed st [] else elim decision [
  | none ↦ suspended (interrupt_payload st)
  | some true ↦
      passed (record st { approval_pending = false }) (gate_event "approval_granted" true ∷ [])
  | some false ↦
      passed
        (record st {
          approval_pending = false;
          status = Status.canceled;
          last_error = "人工审批拒绝";
          pending_tool_calls = [];
          final_answer = "人工审批拒绝，任务已被人工终止。";
        })
        (gate_event "approval_rejected" false ∷ [])
]

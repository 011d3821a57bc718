-- ===== src/Graph/Context.antt =====
-- app/graph/nodes.py: the context of a call of the model (`_assemble_base`, `_model`,
-- `_assistant_message`, `_prune_key_outputs`) and the reading of its JSON (`parse_json_loose`).
pub mod Pruning
use Prim.Native.String
use llm_agent_runtime.Prelude.{
  ℕ, zero, suc, ◌+◌, ◌-◌, String, Bool, true, false, not, ◌&&◌, ◌||◌, List, [], ◌∷◌, ◌++◌, map,
  Option, none, some, length, keep, get_elem?, last_n, ltb, leb, str_eq, if◌then◌else◌, join, clip,
  format, show_ℕ, Dict, is_prefix,
}
use llm_agent_runtime.Prelude.Json.{Json, Fields, obj, arr, str, end, field}
use llm_agent_runtime.Prelude.Python.{Python}
use llm_agent_runtime.Core.Llm.{
  Role, system, user, assistant, Message, ToolCall, LlmResponse, estimate_tokens,
}
use llm_agent_runtime.Core.Compressor.{inject_key_outputs}
use llm_agent_runtime.Graph.Plan.{PlanStep, StepStatus, is_pending, safe_layers}
use llm_agent_runtime.Graph.State.{AgentState, Settings, is_plan_execute}
use llm_agent_runtime.Graph.Prompts.{Prompts}

abbrev pub key_outputs_max_items : ℕ
key_outputs_max_items = 30

abbrev pub key_outputs_token_budget : ℕ
key_outputs_token_budget = 1500

item_tokens : String × String → ℕ
item_tokens (k, v) = estimate_tokens (format (k ∷ ": " ∷ v ∷ []))

pub total_tokens : Dict String → ℕ
unfolding item_tokens
total_tokens [] = 0
total_tokens (kv ∷ items) = item_tokens kv + total_tokens items

-- The `while` loop: the oldest entries go until the rest fits.
pub drop_oldest : ℕ → Dict String → Dict String
drop_oldest total [] = []
drop_oldest total (kv ∷ items) =
    let rest = drop_oldest (total - item_tokens kv) items in
    if ltb key_outputs_token_budget total then rest else kv ∷ items

pub prune_key_outputs : Dict String → Dict String
prune_key_outputs key_outputs =
    let items =
      if ltb key_outputs_max_items (length key_outputs)
      then last_n key_outputs_max_items key_outputs
      else key_outputs in
    drop_oldest (total_tokens items) items

unfoldable pub step_status_text : StepStatus → String
step_status_text StepStatus.pending = "pending"
step_status_text StepStatus.done = "done"
step_status_text StepStatus.failed = "failed"
step_status_text StepStatus.skipped = "skipped"

plan_lines : ℕ → List PlanStep → List String
unfolding step_status_text
plan_lines i [] = []
plan_lines i (p ∷ plan) =
    format (show_ℕ (i + 1) ∷ ". [" ∷ step_status_text p.status ∷ "] " ∷ p.description ∷ [])
    ∷ plan_lines (i + 1) plan

plan_text : List PlanStep → String
unfolding plan_lines
plan_text plan = join "\n" (plan_lines 0 plan)

description_line : List PlanStep → ℕ → List String
description_line plan i = elim (get_elem? plan i) [
  | none ↦ []
  | some p ↦ if is_pending p.status then format ("- " ∷ p.description ∷ []) ∷ [] else []
]

description_lines : List PlanStep → List ℕ → List String
unfolding description_line
description_lines plan [] = []
description_lines plan (i ∷ batch) = description_line plan i ++ description_lines plan batch

or_else : String → String → String
or_else default s = if str_eq s "" then default else s

unfoldable plan_context : Prompts → AgentState → String
unfolding plan_text description_lines or_else
plan_context prompts st =
    if is_plan_execute st.mode && ltb 0 (length st.plan)
    then elim (get_elem? (safe_layers st.plan) st.current_step) [
      | none ↦ ""
      | some batch ↦
          prompts.plan_context_line (plan_text st.plan) (st.current_step + 1)
            (length (safe_layers st.plan))
            (or_else "（本批步骤已全部完成）" (join "\n" (description_lines st.plan batch)))
    ]
    else ""

abbrev pub plain_message : Role → String → Message
plain_message role content = record {
  role = role;
  content = content;
  tool_calls = [];
  tool_call_id = "";
  name = "";
}

-- `now` is the text of `_now_context()`.
unfoldable pub assemble_base : Prompts → String → AgentState → List Message
unfolding plan_context
assemble_base prompts now st =
    plain_message system
      (format (inject_key_outputs prompts.react_system st.key_outputs ∷ now ∷ []))
    ∷ plain_message user
        (prompts.react_task st.goal st.steps_used st.max_steps (plan_context prompts st))
    ∷ st.messages

unfoldable pub model_of : Settings → AgentState → String
model_of settings st =
    if st.downgraded && not (str_eq settings.llm_model_cheap "")
    then settings.llm_model_cheap
    else settings.llm_model

assistant_call : Python → ToolCall → Json
assistant_call py c = obj (
    field "id" (str c.id) (
      field "type" (str "function") (
        field "function"
          (obj (field "name" (str c.name) (field "arguments" (str (py.dumps c.arguments)) end)))
          end)))

unfoldable pub assistant_message : Python → LlmResponse → Message
unfolding assistant_call
assistant_message py resp = record {
  role = assistant;
  content = resp.text;
  tool_calls = map (assistant_call py) resp.tool_calls;
  tool_call_id = "";
  name = "";
}

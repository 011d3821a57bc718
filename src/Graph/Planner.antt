-- ===== src/Graph/Planner.antt =====
-- app/graph/nodes.py: `planner_node`, which makes or remakes the plan.
pub mod Open
pub mod Opened
pub mod Steps
use Prim.Native.Char.{code}
use Prim.Native.String
use llm_agent_runtime.Prelude.{
  ℕ, zero, suc, ◌+◌, ◌-◌, ◌*◌, String, Bool, true, false, not, ◌&&◌, ◌||◌, List, [], ◌∷◌, ◌++◌, map,
  Option, none, some, length, any, keep, ltb, leb, ◌==◌, str_eq, if◌then◌else◌, join, clip, format,
  show_ℕ, Dict, lookup_or, insert, is_prefix, max, text_length,
}
use llm_agent_runtime.Prelude.Json.{
  Json, Fields, null, num, obj, arr, str, field_of, items, array, truthy, iterate,
}
use llm_agent_runtime.Prelude.Python.{Python}
use llm_agent_runtime.Core.Llm.{Role, system, user, Message, LlmResponse}
use llm_agent_runtime.Graph.Plan.{PlanStep, StepStatus, is_done, safe_layers}
use llm_agent_runtime.Graph.State.{
  AgentState, Settings, Event, Mode, plan_execute, is_plan_execute, ErrorKind, no_error,
}
use llm_agent_runtime.Graph.Prompts.{Prompts}
use llm_agent_runtime.Graph.Context.{plain_message, model_of}
use llm_agent_runtime.Graph.Run.{
  Result, ok, raised, Env, Run, pure, asks, lift, emit_all, ◌>>=◌, ◌>>◌,
}
use llm_agent_runtime.Graph.Critic.{pending_at}
use llm_agent_runtime.Graph.PlanText.{parse_json_loose, parse_plan_steps, raw_steps, numbered_id}

abbrev is_end : String → Bool
is_end String.[] = true
is_end _ = false

-- `int(m.group(1))` where `re.match(r"^s(\d+)$", id)`: `\d` takes every decimal digit, and `$` stands before a
-- line break at the end, too.
number_after : Python → ℕ → String → Option ℕ
number_after py n String.[] = some n
number_after py n (String.◌∷◌ c s) = elim (py.decimal (code c)) [
  | some d ↦ number_after py (n * 10 + d) s
  | none ↦ if (code c == 10) && is_end s then some n else none
]

id_number : Python → String → Option ℕ
unfolding number_after
id_number py (String.◌∷◌ s (String.◌∷◌ c rest)) =
    if code s == b's'
    then elim (py.decimal (code c)) [ some d ↦ number_after py d rest | none ↦ none ]
    else none
id_number py _ = none

unfoldable pub highest_id : Python → List PlanStep → ℕ
unfolding id_number
highest_id py [] = 0
highest_id py (p ∷ plan) = elim (id_number py p.id) [
  | none ↦ highest_id py plan
  | some n ↦ max n (highest_id py plan)
]

rename_from : ℕ → Dict String → List PlanStep → Dict String
rename_from next names [] = names
rename_from next names (p ∷ steps) =
    rename_from (next + 1) (insert p.id (numbered_id next) names) steps

-- `done[-1]["id"] if done else ""`
last_id : List PlanStep → String
last_id [] = ""
last_id (p ∷ []) = p.id
last_id (p ∷ q ∷ plan) = last_id (q ∷ plan)

renamed_deps : Dict String → String → Option (List String) → Option (List String)
renamed_deps names last_done none = none
renamed_deps names last_done (some []) = some (if str_eq last_done "" then [] else last_done ∷ [])
renamed_deps names last_done (some (d ∷ deps)) = some (map (λ e. lookup_or e e names) (d ∷ deps))

renamed : Dict String → String → PlanStep → PlanStep
unfolding renamed_deps
renamed names last_done p = record p {
  id = lookup_or p.id p.id names;
  deps = renamed_deps names last_done p.deps;
}

-- The plan after a replanning: the steps that are done, then the new ones under new ids.
pub replanned : Python → List PlanStep → List PlanStep → List PlanStep
unfolding renamed rename_from last_id
replanned py old steps =
    let finished = keep (λ p. is_done p.status) old in
    let names = rename_from (highest_id py old + 1) [] steps in
    finished ++ map (renamed names (last_id finished)) steps

-- The first batch with a pending step, or the number of the batches.
pub first_open : ℕ → List PlanStep → List (List ℕ) → ℕ
first_open i plan [] = i
first_open i plan (batch ∷ layers) =
    if any (λ j. pending_at j plan) batch then i else first_open (i + 1) plan layers

abbrev is_replan : AgentState → Bool
is_replan st = not (str_eq st.last_error "")

goal_step : AgentState → PlanStep
goal_step st = record {
  id = "s1";
  description = st.goal;
  status = StepStatus.pending;
  result = "";
  deps = none;
}

abbrev or_goal : AgentState → List PlanStep → List PlanStep
or_goal st [] = goal_step st ∷ []
or_goal st (p ∷ steps) = p ∷ steps

plan_event : AgentState → List PlanStep → List PlanStep → LlmResponse → Event
plan_event st steps new_plan resp = record {
  type = if is_replan st then "replan" else "plan_created";
  payload =
      ("steps", arr (array (map (λ p. str p.description) steps)))
      ∷ ("plan_size", num (length new_plan))
      ∷ ("layers", arr (array (map (λ layer. num (length layer)) (safe_layers new_plan))))
      ∷ ("tokens", num resp.tokens_used)
      ∷ ("raw", str (clip 500 resp.text))
      ∷ [];
}

upgraded_event : List PlanStep → Event
upgraded_event new_plan = record {
  type = "mode_upgraded";
  payload =
      ("from", str "react")
      ∷ ("to", str "plan_execute")
      ∷ ("plan_size", num (length new_plan))
      ∷ [];
}

abbrev is_upgrade : Settings → AgentState → Bool
is_upgrade settings st =
    is_replan st
    && (not (is_plan_execute st.mode) && ltb st.mode_switches settings.max_mode_switches)

-- The update of the planner, once the steps have been read.
pub planned : Python → Settings → AgentState → LlmResponse → List PlanStep → AgentState × List Event
unfolding goal_step plan_event upgraded_event
planned py settings st resp parsed =
    let steps = or_goal st parsed in
    let new_plan = if is_replan st then replanned py st.plan steps else steps in
    let updated = record st {
      plan = new_plan;
      current_step = first_open 0 new_plan (safe_layers new_plan);
      tokens_used = st.tokens_used + resp.tokens_used;
      last_error = "";
      error_kind = no_error;
    } in
    if is_upgrade settings st
    then (
      record updated { mode = plan_execute; mode_switches = st.mode_switches + 1 },
      plan_event st steps new_plan resp ∷ upgraded_event new_plan ∷ [],
    )
    else (updated, plan_event st steps new_plan resp ∷ [])

planner_prompt : Prompts → String → AgentState → List Message
planner_prompt prompts now st =
    let plan_desc = join "\n" (map (λ p. format ("- " ∷ p.description ∷ [])) st.plan) in
    let note =
      if is_replan st
      then prompts.replan_note (clip 200 st.last_error)
      else if str_eq plan_desc ""
      then ""
      else format ("\n现有背景信息：" ∷ plan_desc ∷ []) in
    plain_message system (format (prompts.plan_system st.max_steps ∷ now ∷ []))
    ∷ plain_message user (format ("用户目标：" ∷ st.goal ∷ note ∷ []))
    ∷ []

pub planner_update : Python → Settings → AgentState → LlmResponse → Result (AgentState × List Event)
planner_update py settings st resp =
    elim (parse_plan_steps py (raw_steps (parse_json_loose py resp.text))) [
      | none ↦ raised "TypeError"
      | some steps ↦ ok (planned py settings st resp steps)
    ]

unfoldable pub planner_node :
    {W : Type 0} → Python → Prompts → Settings → Env W → AgentState → Run W AgentState
unfolding planner_prompt
planner_node py prompts settings env st = do
  now ← asks env.now_context
  resp ← lift (env.chat (planner_prompt prompts now st) false (model_of settings st))
  update ← (λ w. (planner_update py settings st resp, [], w))
  emit_all update.1
  pure update.0

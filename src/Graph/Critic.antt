-- ===== src/Graph/Critic.antt =====
-- app/graph/nodes.py: `critic_node`, which advances the plan after a success and reviews a failure.
pub mod Batch
pub mod Steps
pub mod Switches
mod Examples
use llm_agent_runtime.Prelude.{
  ℕ, zero, suc, ◌+◌, ◌-◌, String, Bool, true, false, not, ◌&&◌, ◌||◌, List, [], ◌∷◌, ◌++◌, map,
  Option, none, some, length, any, keep, get_elem?, ltb, leb, if◌then◌else◌, join, clip, contains,
  format,
}
use llm_agent_runtime.Prelude.Json.{Json, Fields, str, num, arr, array, field_of}
use llm_agent_runtime.Core.Errors.{ToolErrorCode}
use llm_agent_runtime.Core.Retry.{looks_transient}
use llm_agent_runtime.Graph.Plan.{PlanStep, StepStatus, is_pending, is_done, safe_layers}
use llm_agent_runtime.Graph.State.{
  Status, is_live, ErrorKind, no_error, retryable, plan_defect, fatal, Mode, react, plan_execute,
  is_plan_execute, Observation, ErrorType, validation, runtime, AgentState, Settings, Event,
}
use llm_agent_runtime.Graph.Run.{Result, ok, raised, killed}
use llm_agent_runtime.Graph.Classify.{classify_failure, is_empty, code_name, sorted_codes}

abbrev pub failures : List Observation → List Observation
failures observations = keep (λ o. not o.is_ok) observations

abbrev pub codes_of : List Observation → List ToolErrorCode
codes_of [] = []
codes_of (o ∷ os) = elim o.error_code [ none ↦ codes_of os | some c ↦ c ∷ codes_of os ]

abbrev errors_of : List Observation → String
errors_of failed = join "; " (map (λ o. clip 200 o.error) failed)

-- `o["result"].get("summary", "")[:200]`; `none` for a summary that is no text, on which the slice or the
-- join raises.
abbrev summary_of : Observation → Option String
summary_of o = elim (field_of "summary" o.result) [
  | none ↦ some ""
  | some (str s) ↦ some (clip 200 s)
  | some _ ↦ none
]

abbrev summaries_in : List Observation → Option (List String)
summaries_in [] = some []
summaries_in (o ∷ os) = elim (summary_of o) [
  | none ↦ none
  | some s ↦ elim (summaries_in os) [ none ↦ none | some ss ↦ some (s ∷ ss) ]
]

abbrev pub summaries_of : List Observation → Option String
summaries_of observations = elim (summaries_in (keep (λ o. o.is_ok) observations)) [
  | none ↦ none
  | some ss ↦ some (clip 400 (join "; " ss))
]

-- `plan[i] = f(plan[i])`
abbrev pub update_at : ℕ → (PlanStep → PlanStep) → List PlanStep → List PlanStep
update_at i f [] = []
update_at zero f (p ∷ plan) = f p ∷ plan
update_at (suc i) f (p ∷ plan) = p ∷ update_at i f plan

abbrev pub is_pending_step : Option PlanStep → Bool
is_pending_step none = false
is_pending_step (some p) = is_pending p.status

abbrev pub pending_at : ℕ → List PlanStep → Bool
pending_at i plan = is_pending_step (get_elem? plan i)

abbrev description_at : ℕ → List PlanStep → String
description_at i plan = elim (get_elem? plan i) [ none ↦ "" | some p ↦ p.description ]

abbrev finish : String → PlanStep → PlanStep
finish summaries p = record p { status = StepStatus.done; result = summaries }

abbrev step_done : ℕ → String → ℕ → Event
step_done i description remaining = record {
  type = "step_done";
  payload =
      ("step", num (i + 1)) ∷ ("description", str description) ∷ ("remaining", num remaining) ∷ [];
}

-- The loop over the current batch: each pending step becomes done.
pub finish_batch : String → ℕ → List ℕ → List PlanStep → List PlanStep × List Event
finish_batch summaries left [] plan = (plan, [])
finish_batch summaries left (i ∷ batch) plan =
    let here = pending_at i plan in
    let left' = if here then left - 1 else left in
    let (plan', events) =
      finish_batch summaries left' batch
        (if here then update_at i (finish summaries) plan else plan) in
    (plan', if here then step_done i (description_at i plan) left' ∷ events else events)

-- The batch is known: it is finished, unless a summary raises.
abbrev advance_batch : AgentState → List ℕ → Option String → Result (List PlanStep × List Event)
unfolding finish_batch
advance_batch st batch none = raised "TypeError"
advance_batch st batch (some summaries) =
    ok (finish_batch summaries (length (keep (λ p. is_pending p.status) st.plan)) batch st.plan)

pub advance_plan : AgentState → List Observation → Result (List PlanStep × List Event)
unfolding advance_batch
advance_plan st observations =
    if not (is_empty st.plan) && is_plan_execute st.mode && not (is_empty observations)
    then elim (get_elem? (safe_layers st.plan) st.current_step) [
      | none ↦ ok (st.plan, [])
      | some batch ↦ advance_batch st batch (summaries_of observations)
    ]
    else ok (st.plan, [])

kind_name : ErrorKind → String
kind_name no_error = "none"
kind_name retryable = "retryable"
kind_name plan_defect = "plan_defect"
kind_name fatal = "fatal"

unfoldable critic_event : ErrorKind → String → List ToolErrorCode → Event
unfolding kind_name
critic_event kind errors codes = record {
  type = "critic";
  payload =
      ("verdict", str (kind_name kind))
      ∷ ("errors", str (clip 300 errors))
      ∷ ("error_codes", arr (array (map (λ c. str (code_name c)) (sorted_codes codes))))
      ∷ [];
}

unfoldable thrashing_event : ℕ → ℕ → ℕ → String → Event
thrashing_event switches limit streak errors = record {
  type = "mode_thrashing_stopped";
  payload =
      ("mode_switches", num switches)
      ∷ ("limit", num limit)
      ∷ ("consecutive_defects", num streak)
      ∷ ("error", str (clip 200 errors))
      ∷ [];
}

unfoldable downgraded_event : ℕ → ℕ → String → Event
downgraded_event streak switches errors = record {
  type = "mode_downgraded";
  payload =
      ("from", str "plan_execute")
      ∷ ("to", str "react")
      ∷ ("consecutive_defects", num streak)
      ∷ ("error", str (clip 200 errors))
      ∷ ("mode_switches", num switches)
      ∷ [];
}

-- The branch of a plan defect; `updated` holds the updates made before it.
defect_branch : Settings → AgentState → String → AgentState × List Event
defect_branch settings updated errors =
    let streak = updated.plan_defect_streak + 1 in
    let threshold = settings.adaptive_downgrade_after_replans in
    let switches = updated.mode_switches + 1 in
    if is_plan_execute updated.mode && (ltb 0 threshold && leb threshold streak)
    then (if ltb settings.max_mode_switches switches
        then (
          record updated { status = Status.failed; needs_final = true },
          thrashing_event updated.mode_switches settings.max_mode_switches streak errors ∷ [],
        )
        else (
          record updated {
            mode = react;
            plan = keep (λ p. is_done p.status) updated.plan;
            current_step = 0;
            plan_defect_streak = 0;
            mode_switches = switches;
            error_kind = retryable;
          },
          downgraded_event streak switches errors ∷ [],
        ))
    else (record updated { plan_defect_streak = streak }, [])

failure_branch : Settings → AgentState → ErrorKind → String → AgentState × List Event
failure_branch settings updated fatal errors =
    (record updated { status = Status.failed; needs_final = true }, [])
failure_branch settings updated retryable errors = (
  if leb updated.max_steps updated.iterations
      then record updated { status = Status.failed; needs_final = true }
      else updated,
  [],
)
failure_branch settings updated plan_defect errors = defect_branch settings updated errors
failure_branch settings updated no_error errors = (updated, [])

-- `codes` is a set in the source: it is searched, and sorted for the event.
review_failures :
    (String → String) → Settings → AgentState → List Observation → AgentState × List Event
review_failures lower settings st failed =
    let codes = codes_of failed in
    let errors = errors_of failed in
    let kind = classify_failure lower codes (map (λ o. o.error_type) failed) errors in
    let updated = record st { error_kind = kind; last_error = errors } in
    let (st', events) = failure_branch settings updated kind errors in
    (st', critic_event kind errors codes ∷ events)

succeeded : AgentState → Result (List PlanStep × List Event) → Result (AgentState × List Event)
succeeded st (raised e) = raised e
succeeded st (killed e) = killed e
succeeded st (ok (plan', events)) = ok (
  record st {
    error_kind = no_error;
    last_error = "";
    plan = plan';
    current_step = st.current_step + 1;
    plan_defect_streak = 0;
  },
  events,
)

review_success : AgentState → Result (AgentState × List Event)
unfolding succeeded advance_plan
review_success st = succeeded st (advance_plan st st.last_observations)

pub critic_node : (String → String) → Settings → AgentState → Result (AgentState × List Event)
critic_node lower settings st =
    if not (is_live st.status)
    then ok (st, [])
    else if is_empty (failures st.last_observations)
    then review_success st
    else ok (review_failures lower settings st (failures st.last_observations))

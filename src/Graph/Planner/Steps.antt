-- ===== src/Graph/Planner/Steps.antt =====
-- app/graph/nodes.py: what `planner_node` leaves of the step budget.
use llm_agent_runtime.Prelude.{refl, false, Bool-cases, inl, inr, List, [], none, some}
use llm_agent_runtime.Prelude.Python.{Python}
use llm_agent_runtime.Core.Llm.{LlmResponse}
use llm_agent_runtime.Graph.State.{AgentState, Settings, Event, SameSteps}
use llm_agent_runtime.Graph.Plan.{PlanStep}
use llm_agent_runtime.Graph.Prompts.{Prompts}
use llm_agent_runtime.Graph.Context.{model_of}
use llm_agent_runtime.Graph.PlanText.{parse_json_loose, parse_plan_steps, raw_steps}
use llm_agent_runtime.Graph.Run.{
  Result, ok, raised, killed, Env, pure, lift, emit_all, ◌>>=◌, ◌>>◌, Returns, Returns-bind,
}
use llm_agent_runtime.Graph.Planner.{
  planner_node, planner_update, planned, planner_prompt, is_upgrade,
}

planned-SameSteps :
    (py : Python) (settings : Settings) (st : AgentState) (resp : LlmResponse)
    (steps : List PlanStep)
    → SameSteps st (planned py settings st resp steps).0
unfolding planned
planned-SameSteps py settings st resp steps = elim (Bool-cases (is_upgrade settings st)) [
  | inl e ↦ rw e (refl, refl)
  | inr e ↦ rw e (refl, refl)
]

update-SameSteps :
    (py : Python) (settings : Settings) (st : AgentState) (resp : LlmResponse)
    → Returns (λ u. SameSteps st u.0) (planner_update py settings st resp)
unfolding planner_update
update-SameSteps py settings st resp =
    elim (parse_plan_steps py (raw_steps (parse_json_loose py resp.text)))
      as (λ found.
        Returns (λ (u : AgentState × List Event). SameSteps st u.0)
          (elim found as (λ _. Result (AgentState × List Event)) [
            | none ↦ raised "TypeError"
            | some steps ↦ ok (planned py settings st resp steps)
          ])) [ none ↦ tt | some steps ↦ planned-SameSteps py settings st resp steps ]

pub planner_node-SameSteps :
    {W : Type 0} (py : Python) (prompts : Prompts) (settings : Settings) (env : Env W)
    (st : AgentState) (w : W)
    → Returns (SameSteps st) (planner_node py prompts settings env st w).0
unfolding planner_node
planner_node-SameSteps {W} py prompts settings env st w =
    Returns-bind (SameSteps st)
      (lift (env.chat (planner_prompt prompts (env.now_context w) st) false (model_of settings st)))
      (λ resp.
        ((λ u. (planner_update py settings st resp, [], u)) >>= λ update.
        emit_all update.1 >> pure update.0))
      w
      (λ resp w' e.
        go w' (planner_update py settings st resp) (update-SameSteps py settings st resp))
  where
    go :
        (w' : W) (r : Result (AgentState × List Event))
        → Returns (λ u. SameSteps st u.0) r
        → Returns
            (SameSteps st)
            (((λ u. (r, [], u)) >>= λ update. emit_all update.1 >> pure update.0) w').0
    go w' (ok u) same = same
    go w' (raised x) same = tt
    go w' (killed x) same = tt

-- ===== src/Graph/Critic/Steps.antt =====
-- app/graph/nodes.py: what `critic_node` leaves of the step budget.
use llm_agent_runtime.Prelude.{◌+◌, refl, String, List, ◌&&◌, Bool-cases, inl, inr, ltb, leb}
use llm_agent_runtime.Graph.State.{
  AgentState, Settings, ErrorKind, retryable, plan_defect, fatal, no_error, is_live,
  is_plan_execute, SameSteps, Event,
}
use llm_agent_runtime.Graph.Plan.{PlanStep}
use llm_agent_runtime.Graph.Run.{Result, ok, raised, killed, Returns}
use llm_agent_runtime.Graph.Classify.{is_empty}
use llm_agent_runtime.Graph.Critic.{
  critic_node, failures, defect_branch, failure_branch, review_failures, review_success, succeeded,
  advance_plan,
}

defect_branch-SameSteps :
    (settings : Settings) (st : AgentState) (errors : String)
    → SameSteps st (defect_branch settings st errors).0
unfolding defect_branch
defect_branch-SameSteps settings st errors =
    elim (Bool-cases (
      is_plan_execute st.mode
      && (ltb 0 settings.adaptive_downgrade_after_replans
          && leb settings.adaptive_downgrade_after_replans (st.plan_defect_streak + 1)))) [
            | inr e ↦ rw e (refl, refl)
            | inl e ↦ elim (Bool-cases (ltb settings.max_mode_switches (st.mode_switches + 1))) [
              | inl over ↦ rw (e, over) (refl, refl)
              | inr room ↦ rw (e, room) (refl, refl)
            ]
          ]

failure_branch-SameSteps :
    (settings : Settings) (st : AgentState) (kind : ErrorKind) (errors : String)
    → SameSteps st (failure_branch settings st kind errors).0
unfolding failure_branch
failure_branch-SameSteps settings st fatal errors = (refl, refl)
failure_branch-SameSteps settings st retryable errors =
    elim (Bool-cases (leb st.max_steps st.iterations)) [
      | inl e ↦ rw e (refl, refl)
      | inr e ↦ rw e (refl, refl)
    ]
failure_branch-SameSteps settings st plan_defect errors = defect_branch-SameSteps settings st errors
failure_branch-SameSteps settings st no_error errors = (refl, refl)

succeeded-SameSteps :
    (st : AgentState) (r : Result (List PlanStep × List Event))
    → Returns (λ done. SameSteps st done.0) (succeeded st r)
unfolding succeeded
succeeded-SameSteps st (ok found) = (refl, refl)
succeeded-SameSteps st (raised e) = tt
succeeded-SameSteps st (killed e) = tt

pub critic_node-SameSteps :
    (lower : String → String) (settings : Settings) (st : AgentState)
    → Returns (λ done. SameSteps st done.0) (critic_node lower settings st)
unfolding critic_node review_failures review_success
critic_node-SameSteps lower settings st = elim (Bool-cases (is_live st.status)) [
  | inr ended ↦ rw ended (refl, refl)
  | inl live ↦ elim (Bool-cases (is_empty (failures st.last_observations))) [
    | inl none_failed ↦
        rw (live, none_failed) (succeeded-SameSteps st (advance_plan st st.last_observations))
    | inr some_failed ↦ rw (live, some_failed) (failure_branch-SameSteps settings _ _ _)
  ]
]

-- ===== src/Graph/Critic/Switches.antt =====
-- app/graph/nodes.py: how `critic_node` changes the mode of a task.
use llm_agent_runtime.Prelude.{
  ◌+◌, ◌≤◌, ◌≡◌, ◌⊎◌, inl, inr, refl, String, true, List, arith, Bool-cases, ltb, leb, ◌&&◌,
}
use llm_agent_runtime.Graph.Plan.{PlanStep}
use llm_agent_runtime.Graph.State.{
  AgentState, Settings, is_live, Mode, react, plan_execute, is_plan_execute, ErrorKind, no_error,
  fatal, retryable, plan_defect, Event,
}
use llm_agent_runtime.Graph.Run.{Result, ok, raised, killed, Returns}
use llm_agent_runtime.Graph.Classify.{is_empty}
use llm_agent_runtime.Graph.Critic.{
  critic_node, failures, review_success, review_failures, failure_branch, defect_branch, succeeded,
  advance_plan,
}

-- The mode and the count of switches stay, or the task goes from plan mode to free reasoning, which counts
-- as a switch, and this within the limit.
abbrev pub Switched : Settings → AgentState → AgentState → Type 0
Switched settings st st' =
    ((st'.mode ≡ st.mode) × (st'.mode_switches ≡ st.mode_switches))
    ⊎ (((st.mode ≡ plan_execute) × (st'.mode ≡ react))
        × ((st'.mode_switches ≡ st.mode_switches + 1)
            × (st'.mode_switches ≤ settings.max_mode_switches)))

in_plan_mode : (m : Mode) → is_plan_execute m ≡ true → m ≡ plan_execute
in_plan_mode react h = cc
in_plan_mode plan_execute h = refl

module _ (settings : Settings) (st : AgentState) (errors : String) where
  defect_branch-Switched : Switched settings st (defect_branch settings st errors).0
  unfolding defect_branch
  defect_branch-Switched =
      elim (Bool-cases (
        is_plan_execute st.mode
        && (ltb 0 settings.adaptive_downgrade_after_replans
            && leb settings.adaptive_downgrade_after_replans (st.plan_defect_streak + 1)))) [
              | inr e ↦ rw e (inl (refl, refl))
              | inl e ↦
                  let planning : is_plan_execute st.mode ≡ true = ground arith in
                  elim (Bool-cases (ltb settings.max_mode_switches (st.mode_switches + 1))) [
                    | inl over ↦ rw (e, over) (inl (refl, refl))
                    | inr room ↦
                        rw (e, room)
                          (inr ((in_plan_mode st.mode planning, refl), (refl, ground arith)))
                  ]
            ]

  failure_branch-Switched :
      (kind : ErrorKind) → Switched settings st (failure_branch settings st kind errors).0
  unfolding failure_branch
  failure_branch-Switched fatal = inl (refl, refl)
  failure_branch-Switched retryable = elim (Bool-cases (leb st.max_steps st.iterations)) [
    | inl e ↦ rw e (inl (refl, refl))
    | inr e ↦ rw e (inl (refl, refl))
  ]
  failure_branch-Switched plan_defect = defect_branch-Switched
  failure_branch-Switched no_error = inl (refl, refl)

succeeded-Switched :
    (settings : Settings) (st : AgentState) (r : Result (List PlanStep × List Event))
    → Returns (λ done. Switched settings st done.0) (succeeded st r)
unfolding succeeded
succeeded-Switched settings st (ok found) = inl (refl, refl)
succeeded-Switched settings st (raised e) = tt
succeeded-Switched settings st (killed e) = tt

-- Whatever the critic finds, it leaves the mode and the count of mode switches as they are, or takes the
-- task from plan mode to free reasoning, counts this as one more switch, and the count is within the
-- limit: it never changes the mode without counting it, nor beyond the limit.
pub critic_node-Switched :
    (lower : String → String) (settings : Settings) (st : AgentState)
    → Returns (λ done. Switched settings st done.0) (critic_node lower settings st)
unfolding critic_node review_failures review_success
critic_node-Switched lower settings st = elim (Bool-cases (is_live st.status)) [
  | inr ended ↦ rw ended (inl (refl, refl))
  | inl live ↦ elim (Bool-cases (is_empty (failures st.last_observations))) [
    | inl none_failed ↦
        rw (live, none_failed)
          (succeeded-Switched settings st (advance_plan st st.last_observations))
    | inr some_failed ↦ rw (live, some_failed) (failure_branch-Switched settings _ _ _)
  ]
]

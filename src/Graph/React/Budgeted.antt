-- ===== src/Graph/React/Budgeted.antt =====
-- app/graph/nodes.py: what a step of `react_step_node` spends.
use llm_agent_runtime.Prelude.{
  ◌+◌, ◌<◌, ◌≡◌, ◌≢◌, ◌⊎◌, inl, inr, refl, String, List, Bool, true, false, not, str_eq, Bool-cases,
}
use llm_agent_runtime.Prelude.Python.{Python}
use llm_agent_runtime.Core.Budget.{Action, BudgetDecision}
use llm_agent_runtime.Core.Budget.Decisions.{in_budget}
use llm_agent_runtime.Core.Llm.{LlmResponse, Message}
use llm_agent_runtime.Graph.State.{AgentState, Settings}
use llm_agent_runtime.Graph.Prompts.{Prompts}
use llm_agent_runtime.Graph.Context.{assemble_base, model_of}
use llm_agent_runtime.Graph.Classify.{is_empty}
use llm_agent_runtime.Graph.Run.{Env, ok, pure, lift, emit, ◌>>◌, Returns, Returns-bind}
use llm_agent_runtime.Graph.React.{
  answered, budget_of, plan_is_over, ask_model, decide, react_step_node,
}

-- The model has given this answer to a request with the tools.
unfoldable pub HasAnswered : {W : Type 0} → Env W → W → LlmResponse → Type 0
HasAnswered env w resp =
    (messages : List Message) × ((model : String) × ((env.chat messages true model w).0 ≡ ok resp))

-- Either nothing is spent and the task is to finish, or one step that was left and the tokens of an
-- answer that the model has given, whose calls are the ones to run.
abbrev pub Spends : {W : Type 0} → Env W → W → AgentState → AgentState → Type 0
Spends env w st st' =
    ((st'.max_steps ≡ st.max_steps) × (st'.max_tokens ≡ st.max_tokens))
    × (((st'.steps_used ≡ st.steps_used)
          × ((st'.tokens_used ≡ st.tokens_used) × (st'.needs_final ≡ true)))
        ⊎ ((st.steps_used < st.max_steps)
            × ((st'.steps_used ≡ st.steps_used + 1)
                × ((resp : LlmResponse) × (HasAnswered env w resp
                      × ((st'.tokens_used ≡ st.tokens_used + resp.tokens_used)
                          × (st'.pending_tool_calls ≡ resp.tool_calls)))))))

module _ {W : Type 0} (py : Python) (prompts : Prompts) (settings : Settings) (env : Env W) where
  answered-Spends :
      (downgrade : Bool) (st : AgentState) (resp : LlmResponse)
      (left : st.steps_used < st.max_steps) (w : W) (said : HasAnswered env w resp)
      → Spends env w st (answered py downgrade st resp).0
  unfolding answered
  answered-Spends downgrade st resp left w said = elim (Bool-cases (is_empty resp.tool_calls)) [
    | inl e ↦ rw e ((refl, refl), inr (left, (refl, (resp, (said, (refl, refl))))))
    | inr e ↦ rw e ((refl, refl), inr (left, (refl, (resp, (said, (refl, refl))))))
  ]

  ask_model-Spends :
      (downgrade : Bool) (model : String) (st : AgentState) (left : st.steps_used < st.max_steps)
      (w : W)
      → Returns (Spends env w st) (ask_model py prompts settings env downgrade model st w).0
  unfolding ask_model HasAnswered
  ask_model-Spends downgrade model st left w =
      Returns-bind (Spends env w st)
        (lift (env.chat (assemble_base prompts (env.now_context w) st) true model))
        (λ resp. emit (answered py downgrade st resp).1 >> pure (answered py downgrade st resp).0) w
        (λ resp w' e.
          answered-Spends downgrade st resp left w
            (assemble_base prompts (env.now_context w) st, (model, e)))

  idle : (st : AgentState) (w : W) → Spends env w st (record st { needs_final = true })
  idle st w = ((refl, refl), inl (refl, (refl, refl)))

  decide-Spends :
      (decision : BudgetDecision) (st : AgentState) (w : W)
      (left : decision.action ≢ Action.exceeded → st.steps_used < st.max_steps)
      → Returns (Spends env w st) (decide py prompts settings env decision st w).0
  unfolding decide
  decide-Spends decision st w left = go decision.action refl
    where
      go :
          (action : Action)
          → decision.action ≡ action
          → Returns (Spends env w st) (decide py prompts settings env decision st w).0
      go Action.exceeded e = rw (decide, e) ((refl, refl), inl (refl, (refl, refl)))
      go Action.ok e = elim (Bool-cases (plan_is_over st)) [
        | inl over ↦ rw (decide, e, over) (idle st w)
        | inr more ↦
            rw (decide, e, more)
              (ask_model-Spends false (model_of settings st) st (left (rw e (λ x. cc))) w)
      ]
      go Action.downgrade e = elim (Bool-cases (plan_is_over st)) [
        | inl over ↦ rw (decide, e, over) (idle st w)
        | inr more ↦
            rw (decide, e, more)
              (ask_model-Spends true settings.llm_model_cheap st (left (rw e (λ x. cc))) w)
      ]

  -- A step that returns has spent nothing and asks for the end of the task, or it has spent one of the
  -- steps that were left and exactly the tokens of an answer that the model has given to a request with
  -- the tools, and the calls of that answer are pending: it never takes a step beyond the budget. The
  -- limits stay.
  pub react_step_node-Spends :
      (st : AgentState) (w : W)
      → Returns (Spends env w st) (react_step_node py prompts settings env st w).0
  unfolding react_step_node
  react_step_node-Spends st w = elim (Bool-cases (env.canceled st.task_id w)) [
    | inl stop ↦ rw stop (((refl, refl), inl (refl, (refl, refl))))
    | inr on ↦ rw on (
        decide-Spends (budget_of settings st) st w (
          in_budget st.tokens_used st.steps_used st.max_tokens st.max_steps st.downgraded
            (not (str_eq settings.llm_model_cheap ""))))
  ]

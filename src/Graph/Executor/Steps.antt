-- ===== src/Graph/Executor/Steps.antt =====
-- app/graph/nodes.py: what `tool_executor_node` leaves of the step budget.
use llm_agent_runtime.Prelude.{refl, Bool-cases, inl, inr, map, List}
use llm_agent_runtime.Prelude.Python.{Python}
use llm_agent_runtime.Graph.State.{AgentState, Settings, SameSteps, Observation}
use llm_agent_runtime.Graph.Prompts.{Prompts}
use llm_agent_runtime.Graph.Classify.{is_empty}
use llm_agent_runtime.Graph.Run.{Result, Env, pure, lift, emit_all, ◌>>◌, Returns, Returns-bind}
use llm_agent_runtime.Graph.Executor.{
  tool_executor_node, after_gather, collected, Totals, executed_update, run_all, observation_event,
}

module _ {W : Type 0} (py : Python) (prompts : Prompts) (settings : Settings) (env : Env W) where
  after_gather-SameSteps :
      (st : AgentState) (ran : List (Result Observation) × Totals) (w : W)
      → Returns (SameSteps st) (after_gather py prompts settings env st ran w).0
  unfolding after_gather executed_update
  after_gather-SameSteps st ran w =
      Returns-bind (SameSteps st)
        (lift (λ w'. (collected py prompts settings env st.pending_tool_calls ran.0, w')))
        (λ observations.
          emit_all (map (observation_event py prompts settings env) observations)
          >> pure (executed_update py prompts settings env st (observations, ran.1)))
        w (λ observations w' got. (refl, refl))

pub tool_executor_node-SameSteps :
    {W : Type 0} (py : Python) (prompts : Prompts) (settings : Settings) (env : Env W)
    (st : AgentState) (w : W)
    → Returns (SameSteps st) (tool_executor_node py prompts settings env st w).0
unfolding tool_executor_node
tool_executor_node-SameSteps py prompts settings env st w =
    elim (Bool-cases (is_empty st.pending_tool_calls)) [
      | inl e ↦ rw e (refl, refl)
      | inr e ↦ elim (Bool-cases (env.canceled st.task_id w)) [
        | inl stop ↦ rw (e, stop) (refl, refl)
        | inr live ↦
            rw (e, live)
              (Returns-bind (SameSteps st)
                (run_all py prompts settings env st st.pending_tool_calls (record {
                  key_outputs = st.key_outputs;
                  tokens = st.tokens_used;
                  selfheal_used = 0;
                }))
                (after_gather py prompts settings env st) w
                (λ ran w' got. after_gather-SameSteps py prompts settings env st ran w'))
      ]
    ]

-- ===== src/Graph/Planner/Opened.antt =====
-- app/graph/nodes.py: the batch at which `planner_node` lets the task go on.
use llm_agent_runtime.Prelude.{ℕ, ◌≡◌, refl, true, false, List, [], some, get_elem?, any}
use llm_agent_runtime.Prelude.Python.{Python}
use llm_agent_runtime.Core.Llm.{LlmResponse}
use llm_agent_runtime.Graph.Plan.{safe_layers}
use llm_agent_runtime.Graph.State.{AgentState, Settings, Event}
use llm_agent_runtime.Graph.Prompts.{Prompts}
use llm_agent_runtime.Graph.Context.{model_of}
use llm_agent_runtime.Graph.Critic.{pending_at}
use llm_agent_runtime.Graph.Run.{
  Result, ok, raised, killed, Env, pure, lift, emit_all, ◌>>=◌, ◌>>◌, Returns, Returns-bind,
}
use llm_agent_runtime.Graph.Planner.{planner_prompt, planner_update, planner_node}
use llm_agent_runtime.Graph.Planner.Open.{planner_update-open}

-- The current batch is one of the plan's, and a step of it is pending.
pub IsOpen : AgentState → Type 0
IsOpen st =
    (batch : List ℕ) × (get_elem? (safe_layers st.plan) st.current_step ≡ some batch)
    × (any (λ j. pending_at j st.plan) batch ≡ true)

IsOpen-update :
    (py : Python) (settings : Settings) (st : AgentState) (resp : LlmResponse)
    → Returns (λ u. IsOpen u.0) (planner_update py settings st resp)
unfolding IsOpen
IsOpen-update py settings st resp = go (planner_update py settings st resp) refl
  where
    go :
        (r : Result (AgentState × List Event))
        → planner_update py settings st resp ≡ r
        → Returns (λ u. IsOpen u.0) r
    go (ok (st', events)) e = planner_update-open py settings st resp st' events e
    go (raised x) e = tt
    go (killed x) e = tt

-- Whenever `planner_node` returns, after a first plan or a new one, the current batch is one of the
-- plan's batches and holds a pending step, whatever the model answered.
pub planner_node-IsOpen :
    {W : Type 0} (py : Python) (prompts : Prompts) (settings : Settings) (env : Env W)
    (st : AgentState) (w : W)
    → Returns IsOpen (planner_node py prompts settings env st w).0
unfolding planner_node
planner_node-IsOpen {W} py prompts settings env st w =
    Returns-bind IsOpen
      (lift (env.chat (planner_prompt prompts (env.now_context w) st) false (model_of settings st)))
      (λ resp.
        ((λ u. (planner_update py settings st resp, [], u)) >>= λ update.
        emit_all update.1 >> pure update.0))
      w
      (λ resp w' e.
        go resp w' (planner_update py settings st resp) (IsOpen-update py settings st resp))
  where
    go :
        (resp : LlmResponse) (w' : W) (r : Result (AgentState × List Event))
        → Returns (λ u. IsOpen u.0) r
        → Returns IsOpen (((λ u. (r, [], u)) >>= λ update. emit_all update.1 >> pure update.0) w').0
    go resp w' (ok u) opened = opened
    go resp w' (raised x) opened = tt
    go resp w' (killed x) opened = tt

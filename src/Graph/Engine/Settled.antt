-- ===== src/Graph/Engine/Settled.antt =====
-- app/graph/engine.py: what a run of the graph leaves when it has ended.
use llm_agent_runtime.Prelude.{ℕ, zero, suc, ◌≡◌, Bool, false, List, Option}
use llm_agent_runtime.Prelude.Python.{Python}
use llm_agent_runtime.Graph.State.{AgentState, Settings, Event, is_live}
use llm_agent_runtime.Graph.Prompts.{Prompts}
use llm_agent_runtime.Graph.Run.{Result, ok, raised, killed, Env, Returns}
use llm_agent_runtime.Graph.Routes.{
  Target, planner, react_step, approval_gate, tool_executor, critic, compressor, finisher,
}
use llm_agent_runtime.Graph.React.{Gate, passed, suspended, react_step_node, approval_gate_node}
use llm_agent_runtime.Graph.Planner.{planner_node}
use llm_agent_runtime.Graph.Executor.{tool_executor_node}
use llm_agent_runtime.Graph.Finisher.{compressor_node, finisher_node}
use llm_agent_runtime.Graph.Finisher.Outcome.{Ended, finisher_node-Ended}
use llm_agent_runtime.Graph.Critic.{critic_node}
use llm_agent_runtime.Graph.Engine.{
  edge, Progress, moving, ended, stopped, paused, of_run, of_review, of_gate, arrive, leave, node,
  superstep, supersteps, start_at,
}

-- A run that has ended has left a status that is not live.
abbrev pub IsSettled : {W : Type 0} → Progress W → Type 0
IsSettled (ended st w) = is_live st.status ≡ false
IsSettled _ = Unit

any_result : (r : Result AgentState) → Returns (λ st. Unit {0}) r
any_result (ok st) = tt
any_result (raised e) = tt
any_result (killed e) = tt

module _ {W : Type 0} where
  run-IsSettled :
      (t : Target) (st : AgentState) (r : Result AgentState) (es : List Event) (w : W)
      (P : AgentState → Type 0) (keeps : Returns P r)
      (onward : (st' : AgentState) → P st' → IsSettled (arrive (edge t st') st' w))
      → IsSettled (leave t st (of_run (r, es, w)))
  run-IsSettled t st (ok st') es w P keeps onward = onward st' keeps
  run-IsSettled t st (raised e) es w P keeps onward = tt
  run-IsSettled t st (killed e) es w P keeps onward = tt

  gate-IsSettled :
      (st : AgentState) (g : Gate) (w : W) → IsSettled (leave approval_gate st (of_gate g w))
  unfolding edge
  gate-IsSettled st (passed st' events) w = tt
  gate-IsSettled st (suspended payload) w = tt

  review-IsSettled :
      (st : AgentState) (r : Result (AgentState × List Event)) (w : W)
      → IsSettled (leave critic st (of_review r w))
  unfolding edge
  review-IsSettled st (ok done) w = tt
  review-IsSettled st (raised e) w = tt
  review-IsSettled st (killed e) w = tt

  finisher-IsSettled :
      (env : Env W) (st st' : AgentState) (v w : W) (e : Ended env v st st')
      → IsSettled (arrive (edge finisher st') st' w)
  unfolding edge Ended
  finisher-IsSettled env st st' v w e = e.1.0

module _ {W : Type 0} (py : Python) (prompts : Prompts) (settings : Settings) (env : Env W)
    (decision : W → Option Bool) where
  pub superstep-IsSettled :
      (t : Target) (st : AgentState) (w : W)
      → IsSettled (superstep py prompts settings env decision t st w)
  unfolding superstep node edge
  superstep-IsSettled planner st w =
      run-IsSettled planner st (planner_node py prompts settings env st w).0
        (planner_node py prompts settings env st w).1 (planner_node py prompts settings env st w).2
        (λ st'. Unit {0}) (any_result _) (λ st' h. tt)
  superstep-IsSettled react_step st w =
      run-IsSettled react_step st (react_step_node py prompts settings env st w).0
        (react_step_node py prompts settings env st w).1
        (react_step_node py prompts settings env st w).2 (λ st'. Unit {0}) (any_result _)
        (λ st' h. tt)
  superstep-IsSettled approval_gate st w = gate-IsSettled st (approval_gate_node (decision w) st) w
  superstep-IsSettled tool_executor st w =
      run-IsSettled tool_executor st (tool_executor_node py prompts settings env st w).0
        (tool_executor_node py prompts settings env st w).1
        (tool_executor_node py prompts settings env st w).2 (λ st'. Unit {0}) (any_result _)
        (λ st' h. tt)
  superstep-IsSettled critic st w = review-IsSettled st (critic_node py.lower settings st) w
  superstep-IsSettled compressor st w =
      run-IsSettled compressor st (compressor_node py prompts settings env st w).0
        (compressor_node py prompts settings env st w).1
        (compressor_node py prompts settings env st w).2 (λ st'. Unit {0}) (any_result _)
        (λ st' h. tt)
  superstep-IsSettled finisher st w =
      run-IsSettled finisher st (finisher_node py prompts settings env st w).0
        (finisher_node py prompts settings env st w).1
        (finisher_node py prompts settings env st w).2 (Ended env w st)
        (finisher_node-Ended py prompts settings env st w)
        (λ st'.
          finisher-IsSettled {W = W} env st st' w (finisher_node py prompts settings env st w).2)

  pub supersteps-IsSettled :
      (n : ℕ) (p : Progress W) (settled : IsSettled p)
      → IsSettled (supersteps py prompts settings env decision n p)
  unfolding supersteps
  supersteps-IsSettled zero p settled = settled
  supersteps-IsSettled (suc n) (moving t st w) settled =
      supersteps-IsSettled n (superstep py prompts settings env decision t st w)
        (superstep-IsSettled t st w)
  supersteps-IsSettled (suc n) (ended st w) settled = settled
  supersteps-IsSettled (suc n) (stopped e w) settled = tt
  supersteps-IsSettled (suc n) (paused payload st w) settled = tt

  pub start_at-IsSettled :
      (st : AgentState) (w : W) → IsSettled (start_at py prompts settings env decision st w)
  unfolding start_at
  start_at-IsSettled st w = tt

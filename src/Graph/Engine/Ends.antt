-- ===== src/Graph/Engine/Ends.antt =====
-- app/graph/engine.py: how many supersteps a run of the graph takes.
use llm_agent_runtime.Prelude.{
  ℕ, zero, suc, ◌+◌, ◌-◌, ◌*◌, ◌≤◌, ◌<◌, ◌≡◌, Bool, false, List, Option, inl, inr, Bool-cases,
  arith,
}
use llm_agent_runtime.Prelude.Python.{Python}
use llm_agent_runtime.Graph.State.{AgentState, Settings, Event, SameSteps, is_live, is_plan_execute}
use llm_agent_runtime.Graph.Prompts.{Prompts}
use llm_agent_runtime.Graph.Run.{Result, ok, raised, killed, Env, Returns}
use llm_agent_runtime.Graph.Routes.{
  Target, planner, react_step, approval_gate, tool_executor, critic, compressor, finisher,
  route_entry, route_after_step, route_after_gate, route_after_critic, is_plan_defect,
}
use llm_agent_runtime.Graph.React.{Gate, passed, suspended, react_step_node, approval_gate_node}
use llm_agent_runtime.Graph.React.Budgeted.{Spends, react_step_node-Spends}
use llm_agent_runtime.Graph.React.Steps.{Passes, approval_gate_node-SameSteps}
use llm_agent_runtime.Graph.Planner.{planner_node}
use llm_agent_runtime.Graph.Planner.Steps.{planner_node-SameSteps}
use llm_agent_runtime.Graph.Executor.{tool_executor_node}
use llm_agent_runtime.Graph.Executor.Steps.{tool_executor_node-SameSteps}
use llm_agent_runtime.Graph.Critic.{critic_node}
use llm_agent_runtime.Graph.Critic.Steps.{critic_node-SameSteps}
use llm_agent_runtime.Graph.Finisher.{compressor_node, finisher_node}
use llm_agent_runtime.Graph.Finisher.Outcome.{Ended, finisher_node-Ended}
use llm_agent_runtime.Graph.Finisher.Steps.{compressor_node-SameSteps}
use llm_agent_runtime.Graph.Engine.{
  edge, Progress, moving, ended, stopped, paused, of_run, of_review, of_gate, arrive, leave, node,
  superstep, supersteps, start_at,
}

abbrev steps_left : AgentState → ℕ
steps_left st = st.max_steps - st.steps_used

-- The supersteps that may still come: five for each step that is left, and what ends a round.
abbrev pub rank : Target → AgentState → ℕ
rank finisher st = 1
rank react_step st = 5 * steps_left st + 2
rank planner st = 5 * steps_left st + 3
rank compressor st = 5 * steps_left st + 3
rank critic st = 5 * steps_left st + 4
rank tool_executor st = 5 * steps_left st + 5
rank approval_gate st = 5 * steps_left st + 6

abbrev pub ahead : {W : Type 0} → Progress W → ℕ
ahead (moving t st w) = rank t st
ahead _ = 0

-- The run does not go on.
abbrev pub HasEnded : {W : Type 0} → Progress W → Type 0
HasEnded (moving t st w) = ⊥
HasEnded _ = Unit

spent-down :
    {W : Type 0} (env : Env W) (w : W) (st st' : AgentState) (going : st'.needs_final ≡ false)
    (spends : Spends env w st st')
    → 5 * steps_left st' + 6 < 5 * steps_left st + 2
spent-down env w st st' going (limits, inl (steps, (tokens, final))) = cc
spent-down env w st st' going (limits, inr (some_left, (steps, answer))) =
    omega (arith, limits.0, steps, some_left)

module _ {W : Type 0} where
  -- A node that keeps the budget, with an edge that goes down.
  run-goes_down :
      (t : Target) (st : AgentState) (r : Result AgentState) (es : List Event) (w : W)
      (P : AgentState → Type 0) (keeps : Returns P r)
      (down : (st' : AgentState) → P st' → ahead (arrive (edge t st') st' w) < rank t st)
      (some_left : 0 < rank t st)
      → ahead (leave t st (of_run (r, es, w))) < rank t st
  run-goes_down t st (ok st') es w P keeps down some_left = down st' keeps
  run-goes_down t st (raised e) es w P keeps down some_left = some_left
  run-goes_down t st (killed e) es w P keeps down some_left = some_left

  finisher-down :
      (st st' : AgentState) (w : W) → ahead (arrive (edge finisher st') st' w) < rank finisher st
  unfolding edge
  finisher-down st st' w = omega arith

  planner-down :
      (st st' : AgentState) (w : W) (same : SameSteps st st')
      → ahead (arrive (edge planner st') st' w) < rank planner st
  unfolding edge
  planner-down st st' w same = omega (arith, same)

  compressor-down :
      (st st' : AgentState) (w : W) (same : SameSteps st st')
      → ahead (arrive (edge compressor st') st' w) < rank compressor st
  unfolding edge
  compressor-down st st' w same = omega (arith, same)

  executor-down :
      (st st' : AgentState) (w : W) (same : SameSteps st st')
      → ahead (arrive (edge tool_executor st') st' w) < rank tool_executor st
  unfolding edge
  executor-down st st' w same = omega (arith, same)

  critic-down :
      (st st' : AgentState) (w : W) (same : SameSteps st st')
      → ahead (arrive (edge critic st') st' w) < rank critic st
  unfolding edge route_after_critic
  critic-down st st' w same = elim (Bool-cases (is_live st'.status)) [
    | inr over ↦ rw (over) (omega arith)
    | inl live ↦ elim (Bool-cases (is_plan_defect st'.error_kind)) [
      | inl defect ↦ rw (live, defect) (omega (arith, same))
      | inr fine ↦ rw (live, fine) (omega (arith, same))
    ]
  ]

  gate-down :
      (st st' : AgentState) (w : W) (same : SameSteps st st')
      → ahead (arrive (edge approval_gate st') st' w) < rank approval_gate st
  unfolding edge route_after_gate
  gate-down st st' w same = elim (Bool-cases (is_live st'.status)) [
    | inr over ↦ rw (over) (omega arith)
    | inl live ↦ rw (live) (omega (arith, same))
  ]

  step-down :
      (env : Env W) (v : W) (st st' : AgentState) (w : W) (spends : Spends env v st st')
      → ahead (arrive (edge react_step st') st' w) < rank react_step st
  unfolding edge route_after_step
  step-down env v st st' w spends = elim (Bool-cases (is_live st'.status)) [
    | inr over ↦ rw over (omega arith)
    | inl live ↦ elim (Bool-cases st'.needs_final) [
      | inl final ↦ simp (live, final) (omega arith)
      | inr going ↦ simp (live, going) (spent-down env v st st' going spends)
    ]
  ]

module _ {W : Type 0} (py : Python) (prompts : Prompts) (settings : Settings) (env : Env W)
    (decision : W → Option Bool) where
  gate-goes_down :
      (st : AgentState) (g : Gate) (w : W) (keeps : Passes (SameSteps st) g)
      → ahead (leave approval_gate st (of_gate g w)) < rank approval_gate st
  gate-goes_down st (passed st' events) w keeps = gate-down st st' w keeps
  gate-goes_down st (suspended payload) w keeps = omega arith

  review-goes_down :
      (st : AgentState) (r : Result (AgentState × List Event)) (w : W)
      (keeps : Returns (λ done. SameSteps st done.0) r)
      → ahead (leave critic st (of_review r w)) < rank critic st
  review-goes_down st (ok done) w keeps = critic-down st done.0 w keeps
  review-goes_down st (raised e) w keeps = omega arith
  review-goes_down st (killed e) w keeps = omega arith

  -- Every superstep brings the end nearer.
  superstep-goes_down :
      (t : Target) (st : AgentState) (w : W)
      → ahead (superstep py prompts settings env decision t st w) < rank t st
  unfolding superstep node
  superstep-goes_down planner st w =
      run-goes_down planner st (planner_node py prompts settings env st w).0
        (planner_node py prompts settings env st w).1 (planner_node py prompts settings env st w).2
        (SameSteps st) (planner_node-SameSteps py prompts settings env st w)
        (λ st'. planner-down st st' _) (omega arith)
  superstep-goes_down react_step st w =
      run-goes_down react_step st (react_step_node py prompts settings env st w).0
        (react_step_node py prompts settings env st w).1
        (react_step_node py prompts settings env st w).2 (Spends env w st)
        (react_step_node-Spends py prompts settings env st w) (λ st'. step-down env w st st' _)
        (omega arith)
  superstep-goes_down approval_gate st w =
      gate-goes_down st (approval_gate_node (decision w) st) w
        (approval_gate_node-SameSteps (decision w) st)
  superstep-goes_down tool_executor st w =
      run-goes_down tool_executor st (tool_executor_node py prompts settings env st w).0
        (tool_executor_node py prompts settings env st w).1
        (tool_executor_node py prompts settings env st w).2 (SameSteps st)
        (tool_executor_node-SameSteps py prompts settings env st w) (λ st'. executor-down st st' _)
        (omega arith)
  superstep-goes_down critic st w =
      review-goes_down st (critic_node py.lower settings st) w
        (critic_node-SameSteps py.lower settings st)
  superstep-goes_down compressor st w =
      run-goes_down compressor st (compressor_node py prompts settings env st w).0
        (compressor_node py prompts settings env st w).1
        (compressor_node py prompts settings env st w).2 (SameSteps st)
        (compressor_node-SameSteps py prompts settings env st w) (λ st'. compressor-down st st' _)
        (omega arith)
  superstep-goes_down finisher st w =
      run-goes_down finisher st (finisher_node py prompts settings env st w).0
        (finisher_node py prompts settings env st w).1
        (finisher_node py prompts settings env st w).2 (Ended env w st)
        (finisher_node-Ended py prompts settings env st w) (λ st' e. finisher-down st st' _)
        (omega arith)

  some_ahead : (t : Target) (st : AgentState) → 0 < rank t st
  some_ahead planner st = omega arith
  some_ahead react_step st = omega arith
  some_ahead approval_gate st = omega arith
  some_ahead tool_executor st = omega arith
  some_ahead critic st = omega arith
  some_ahead compressor st = omega arith
  some_ahead finisher st = omega arith

  supersteps-HasEnded :
      (n : ℕ) (p : Progress W) (enough : ahead p ≤ n)
      → HasEnded (supersteps py prompts settings env decision n p)
  unfolding supersteps
  supersteps-HasEnded zero (moving t st w) enough =
      let some = some_ahead t st in absurd (omega arith)
  supersteps-HasEnded zero (ended st w) enough = tt
  supersteps-HasEnded zero (stopped e w) enough = tt
  supersteps-HasEnded zero (paused payload st w) enough = tt
  supersteps-HasEnded (suc n) (moving t st w) enough =
      let down = superstep-goes_down t st w in
      supersteps-HasEnded n (superstep py prompts settings env decision t st w) (omega arith)
  supersteps-HasEnded (suc n) (ended st w) enough = tt
  supersteps-HasEnded (suc n) (stopped e w) enough = tt
  supersteps-HasEnded (suc n) (paused payload st w) enough = tt

  start-ahead :
      (st : AgentState) (w : W)
      → ahead (start_at py prompts settings env decision st w) ≤ 5 * steps_left st + 3
  unfolding start_at route_entry
  start-ahead st w = elim (Bool-cases (is_plan_execute st.mode)) [
    | inl plan ↦ rw plan (omega arith)
    | inr free ↦ rw free (omega arith)
  ]

  -- A run of the graph ends, pauses for a decision or fails within five supersteps for each step of its
  -- budget and three more, whatever the model, the tools and the people do.
  pub supersteps_enough :
      (st : AgentState) (w : W)
      → HasEnded (
          supersteps py prompts settings env decision
            (5 * (st.max_steps - st.steps_used) + 3)
            (start_at py prompts settings env decision st w))
  supersteps_enough st w =
      supersteps-HasEnded (5 * steps_left st + 3) (start_at py prompts settings env decision st w)
        (start-ahead st w)

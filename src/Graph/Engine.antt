-- ===== src/Graph/Engine.antt =====
-- app/graph/engine.py: the graph that `_build` wires, one node at a time, and the limit on its
-- supersteps that `_config` sets. `decision` is what the approval gate's `interrupt` gives back.
pub mod Ends
pub mod Settled
pub mod Sequence
pub mod Spans
mod Examples
use llm_agent_runtime.Prelude.{
  ℕ, zero, suc, ◌+◌, ◌*◌, ◌≡◌, Bool, List, ◌++◌, Option, String, ltb, max, if◌then◌else◌,
}
use llm_agent_runtime.Prelude.Json.{Json}
use llm_agent_runtime.Prelude.Python.{Python}
use llm_agent_runtime.Graph.State.{AgentState, Settings, Event}
use llm_agent_runtime.Graph.Prompts.{Prompts}
use llm_agent_runtime.Graph.Run.{Result, ok, raised, killed, Env}
use llm_agent_runtime.Graph.Routes.{
  Target, planner, react_step, approval_gate, tool_executor, critic, compressor, finisher,
  route_entry, route_after_step, route_after_gate, route_after_critic,
}
use llm_agent_runtime.Graph.React.{Gate, passed, suspended, react_step_node, approval_gate_node}
use llm_agent_runtime.Graph.Planner.{planner_node}
use llm_agent_runtime.Graph.Executor.{tool_executor_node}
use llm_agent_runtime.Graph.Critic.{critic_node}
use llm_agent_runtime.Graph.Finisher.{compressor_node, finisher_node}

-- Where a run stands: before a node, or at `END`.
pub data Place : Type 0 where
  before : Target → Place
  at_end : Place

-- `{"tool_executor": "approval_gate", "finisher": "finisher"}`
abbrev pub after_step : Target → Target
after_step tool_executor = approval_gate
after_step t = t

-- The edges out of each node, read off the state after it.
pub edge : Target → AgentState → Place
edge planner st = before react_step
edge react_step st = before (after_step (route_after_step st))
edge approval_gate st = before (route_after_gate st)
edge tool_executor st = before critic
edge critic st = before (route_after_critic st)
edge compressor st = before react_step
edge finisher st = at_end

-- What a node leaves: a state, an exception, or the gate's request for a decision.
pub data Left (W : Type 0) : Type 0 where
  left : AgentState → W → Left W
  crashed : String → W → Left W
  waiting : Json → W → Left W

-- What a run has come to.
pub data Progress (W : Type 0) : Type 0 where
  moving : Target → AgentState → W → Progress W
  ended : AgentState → W → Progress W
  stopped : String → W → Progress W
  paused : Json → AgentState → W → Progress W

module _ {W : Type 0} where
  abbrev of_run : Result AgentState × List Event × W → Left W
  of_run (ok st, events, w) = left st w
  of_run (raised e, events, w) = crashed e w
  of_run (killed e, events, w) = crashed e w

  abbrev pub of_review : Result (AgentState × List Event) → W → Left W
  of_review (ok (st, events)) w = left st w
  of_review (raised e) w = crashed e w
  of_review (killed e) w = crashed e w

  abbrev of_gate : Gate → W → Left W
  of_gate (passed st events) w = left st w
  of_gate (suspended payload) w = waiting payload w

  abbrev arrive : Place → AgentState → W → Progress W
  arrive (before t) st w = moving t st w
  arrive at_end st w = ended st w

  -- The edge out of `t`, once the node has run on `st`.
  abbrev pub leave : Target → AgentState → Left W → Progress W
  leave t st (left st' w) = arrive (edge t st') st' w
  leave t st (crashed e w) = stopped e w
  leave t st (waiting payload w) = paused payload st w

module _ {W : Type 0} (py : Python) (prompts : Prompts) (settings : Settings) (env : Env W)
    (decision : W → Option Bool) where
  pub node : Target → AgentState → W → Left W
  node planner st w = of_run (planner_node py prompts settings env st w)
  node react_step st w = of_run (react_step_node py prompts settings env st w)
  node approval_gate st w = of_gate (approval_gate_node (decision w) st) w
  node tool_executor st w = of_run (tool_executor_node py prompts settings env st w)
  node critic st w = of_review (critic_node py.lower settings st) w
  node compressor st w = of_run (compressor_node py prompts settings env st w)
  node finisher st w = of_run (finisher_node py prompts settings env st w)

  pub superstep : Target → AgentState → W → Progress W
  unfolding node
  superstep t st w = leave t st (node t st w)

  -- The first `n` supersteps from `t`, or fewer if the run stops before.
  pub supersteps : ℕ → Progress W → Progress W
  supersteps zero p = p
  supersteps (suc n) (moving t st w) = supersteps n (superstep t st w)
  supersteps (suc n) (ended st w) = ended st w
  supersteps (suc n) (stopped e w) = stopped e w
  supersteps (suc n) (paused payload st w) = paused payload st w

  -- `START`, for the state that `init_state` makes.
  pub start_at : AgentState → W → Progress W
  start_at st w = moving (route_entry st) st w

-- `recursion_limit`; 0 stands for every `max_steps` that is missing or not positive.
pub recursion_limit : Settings → (max_steps : ℕ) → ℕ
recursion_limit settings max_steps =
    let steps = if ltb 0 max_steps then max_steps else max settings.default_max_steps 1 in
    steps * 4 + 24

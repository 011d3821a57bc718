-- ===== src/Graph/Routes.antt =====
-- app/graph/nodes.py: the routes out of the nodes. A route names a node of the graph.
use llm_agent_runtime.Prelude.{Bool, true, false, not, if◌then◌else◌}
use llm_agent_runtime.Graph.State.{AgentState, is_live, is_plan_execute, ErrorKind, plan_defect}

pub data Target : Type 0 where
  planner react_step approval_gate tool_executor critic compressor finisher : Target

unfoldable pub route_entry : AgentState → Target
route_entry st = if is_plan_execute st.mode then Target.planner else Target.react_step

unfoldable pub route_after_step : AgentState → Target
route_after_step st =
    if not (is_live st.status)
    then Target.finisher
    else if st.needs_final
    then Target.finisher
    else Target.tool_executor

unfoldable pub route_after_gate : AgentState → Target
route_after_gate st = if not (is_live st.status) then Target.finisher else Target.tool_executor

abbrev pub is_plan_defect : ErrorKind → Bool
is_plan_defect plan_defect = true
is_plan_defect _ = false

unfoldable pub route_after_critic : AgentState → Target
route_after_critic st =
    if not (is_live st.status)
    then Target.finisher
    else if is_plan_defect st.error_kind
    then Target.planner
    else Target.compressor

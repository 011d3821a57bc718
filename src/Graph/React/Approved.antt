-- ===== src/Graph/React/Approved.antt =====
-- app/graph/nodes.py: when the tools of a task that needs approval run.
use llm_agent_runtime.Prelude.{◌≡◌, refl, ap, Bool, true, false, Option, none, some, List}
use llm_agent_runtime.Graph.State.{AgentState, Event}
use llm_agent_runtime.Graph.Routes.{Target, route_after_gate}
use llm_agent_runtime.Graph.React.{Gate, passed, suspended, approval_gate_node}

abbrev onward_of : Gate → Target
onward_of (passed st events) = route_after_gate st
onward_of (suspended payload) = Target.finisher

-- The tools of a task that needs approval run only after a person has said yes: when the gate lets the
-- state pass and the route behind it leads to the tools, the decision was to approve.
pub gate-approved :
    (decision : Option Bool) (st st' : AgentState) (events : List Event)
    (needed : st.require_approval ≡ true)
    (through : approval_gate_node decision st ≡ passed st' events)
    (onward : route_after_gate st' ≡ Target.tool_executor)
    → decision ≡ some true
unfolding approval_gate_node route_after_gate
gate-approved (some true) st st' events needed through onward = refl
gate-approved none st st' events needed through onward = let shut = rw needed at through in cc
gate-approved (some false) st st' events needed through onward =
    let shut = ap onward_of (rw needed at through) in cc

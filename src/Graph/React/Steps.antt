-- ===== src/Graph/React/Steps.antt =====
-- app/graph/nodes.py: what `approval_gate_node` leaves of the step budget.
use llm_agent_runtime.Prelude.{refl, Bool, true, false, Option, none, some, Bool-cases, inl, inr}
use llm_agent_runtime.Graph.State.{AgentState, SameSteps}
use llm_agent_runtime.Graph.React.{Gate, passed, suspended, approval_gate_node}

-- `P` holds of what the gate lets pass.
abbrev pub Passes : (AgentState → Type 0) → Gate → Type 0
Passes P (passed st events) = P st
Passes P (suspended payload) = Unit

pub approval_gate_node-SameSteps :
    (decision : Option Bool) (st : AgentState)
    → Passes (SameSteps st) (approval_gate_node decision st)
unfolding approval_gate_node
approval_gate_node-SameSteps none st = elim (Bool-cases st.require_approval) [
  | inr free ↦ simp free (refl, refl)
  | inl needed ↦ simp needed tt
]
approval_gate_node-SameSteps (some true) st = elim (Bool-cases st.require_approval) [
  | inr free ↦ simp free (refl, refl)
  | inl needed ↦ simp needed (refl, refl)
]
approval_gate_node-SameSteps (some false) st = elim (Bool-cases st.require_approval) [
  | inr free ↦ simp free (refl, refl)
  | inl needed ↦ simp needed (refl, refl)
]

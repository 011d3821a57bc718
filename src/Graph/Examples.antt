-- ===== src/Graph/Examples.antt =====
-- The nodes of app/graph/nodes.py in the world of `Fixtures`.
use llm_agent_runtime.Prelude.{
  ℕ, ◌+◌, ◌≤◌, ◌≡◌, refl, String, true, [], ◌∷◌, some, arith, Bool-cases, str_eq, inl, inr, Dict,
}
use llm_agent_runtime.Prelude.Json.{Json}
use llm_agent_runtime.Tools.Registry.{execute, find_tool, validate}
use llm_agent_runtime.Graph.Run.{Returns, Ends}
use llm_agent_runtime.Graph.Routes.{Target, route_after_gate}
use llm_agent_runtime.Graph.React.{passed, approval_gate_node, react_step_node}
use llm_agent_runtime.Graph.React.Budgeted.{Spends, react_step_node-Spends}
use llm_agent_runtime.Graph.React.Approved.{gate-approved}
use llm_agent_runtime.Graph.Planner.{planner_node}
use llm_agent_runtime.Graph.Planner.Opened.{IsOpen, planner_node-IsOpen}
use llm_agent_runtime.Graph.Calls.{execute_call}
use llm_agent_runtime.Graph.Calls.Bounded.{execute_call-within}
use llm_agent_runtime.Graph.Executor.{tool_executor_node}
use llm_agent_runtime.Graph.Executor.Paired.{Answers, CallDied, tool_executor_node-Answers}
use llm_agent_runtime.Graph.Fixtures.{py, prompts, settings, env, call, start, calling}

-- In this world a run of a tool counts one, and of any other name none.
one_each :
    (name : String) (args : Json) (n : ℕ) → (execute py env.clock env.tools name args n).1 ≤ n + 1
unfolding execute find_tool validate
one_each name args n = elim (Bool-cases (str_eq "search" name)) [
  | inl e ↦ rw (execute, find_tool, e) omega arith
  | inr e ↦ rw (execute, find_tool, e) omega arith
]

react_step_node-Spends_example :
    Returns (Spends env 0 start) (react_step_node py prompts settings env start 0).0
react_step_node-Spends_example = react_step_node-Spends py prompts settings env start 0

planner_node-IsOpen_example : Returns IsOpen (planner_node py prompts settings env start 0).0
planner_node-IsOpen_example = planner_node-IsOpen py prompts settings env start 0

execute_call-within_example :
    (execute_call py prompts settings env calling call 0).2 ≤ 0 + (1 + (3 + 2))
execute_call-within_example =
    execute_call-within py prompts settings env (λ n. n) one_each (λ d n. omega arith)
      (λ messages with_tools model n. omega arith) calling call 0

tool_executor_node-Answers_example :
    Ends
      (Answers py prompts settings env calling)
      (CallDied py prompts settings env calling 0)
      (tool_executor_node py prompts settings env calling 0).0
tool_executor_node-Answers_example =
    tool_executor_node-Answers py prompts settings env calling 0 refl

granted :
    approval_gate_node (some true) calling
    ≡ passed calling
        (record { type = "approval_granted"; payload = ("decision", Json.bool true) ∷ [] } ∷ [])
unfolding approval_gate_node
granted = refl

onward : route_after_gate calling ≡ Target.tool_executor
unfolding route_after_gate
onward = refl

gate-approved_example : some true ≡ some true
gate-approved_example =
    gate-approved (some true) calling calling
      (record { type = "approval_granted"; payload = ("decision", Json.bool true) ∷ [] } ∷ []) refl
      granted onward

abbrev outputs : Dict String
outputs = ("search(call_1)", "found") ∷ []

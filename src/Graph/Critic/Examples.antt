-- ===== src/Graph/Critic/Examples.antt =====
-- app/graph/nodes.py: `critic_node` on a round of a plan and on failed calls.
use llm_agent_runtime.Prelude.{◌≡◌, refl, String, true, false, [], ◌∷◌, none, some, get_elem?}
use llm_agent_runtime.Prelude.Json.{obj, null, end, field}
use llm_agent_runtime.Core.Errors.{ToolErrorCode}
use llm_agent_runtime.Graph.Plan.{safe_layers}
use llm_agent_runtime.Graph.Plan.Examples.{diamond, diamond_layers}
use llm_agent_runtime.Graph.State.{AgentState, Observation, plan_execute, runtime}
use llm_agent_runtime.Graph.Fixtures.{settings, start}
use llm_agent_runtime.Graph.Run.{Returns, Succeeds}
use llm_agent_runtime.Graph.Critic.{critic_node, failures, summaries_of}
use llm_agent_runtime.Graph.Critic.Batch.{Advanced, critic_node-success}
use llm_agent_runtime.Graph.Critic.Switches.{Switched, critic_node-Switched}

abbrev lower : String → String
lower s = s

abbrev seen : Observation
seen = record {
  is_ok = true;
  tool = "search";
  arguments = obj end;
  result = end;
  error = "";
  error_type = runtime;
  error_code = none;
}

abbrev failed_with : ToolErrorCode → Observation
failed_with code = record seen { is_ok = false; error = "failed"; error_code = some code }

abbrev planned : AgentState
planned = record start { mode = plan_execute; plan = diamond; last_observations = seen ∷ [] }

-- One more defect reaches the threshold.
abbrev defective : AgentState
defective = record planned {
  last_observations = failed_with ToolErrorCode.not_found ∷ [];
  plan_defect_streak = 1;
}

no_failures : failures planned.last_observations ≡ []
no_failures = refl

current : get_elem? (safe_layers planned.plan) planned.current_step ≡ some (0 ∷ [])
current = rw diamond_layers refl

critic_node-success_example :
    Succeeds (Advanced planned (0 ∷ []) "") (critic_node lower settings planned)
critic_node-success_example =
    critic_node-success lower settings planned (0 ∷ []) "" refl refl refl no_failures (λ e. cc)
      current

-- A summary that is no text: the critic raises.
unreadable : summaries_of (record seen { result = field "summary" null end } ∷ []) ≡ none
unreadable = refl

critic_node-Switched_example :
    Returns (λ done. Switched settings defective done.0) (critic_node lower settings defective)
critic_node-Switched_example = critic_node-Switched lower settings defective

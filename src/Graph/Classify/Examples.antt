-- ===== src/Graph/Classify/Examples.antt =====
-- Tests of app/graph/nodes.py's order of the error codes.
use llm_agent_runtime.Prelude.{◌≡◌, refl, [], ◌∷◌}
use llm_agent_runtime.Core.Errors.{ToolErrorCode}
use llm_agent_runtime.Graph.Classify.{sorted_codes, same_code, code_name}

codes_sorted :
    sorted_codes (ToolErrorCode.timeout ∷ ToolErrorCode.auth ∷ ToolErrorCode.timeout ∷ [])
    ≡ ToolErrorCode.auth ∷ ToolErrorCode.timeout ∷ []
unfolding sorted_codes same_code code_name
codes_sorted = refl

-- ===== src/Graph/Classify/Verdicts.antt =====
-- app/graph/nodes.py: what `_classify_failure` makes of the codes of failed calls.
use llm_agent_runtime.Prelude.{◌≡◌, ◌↔◌, String, true, false, List, ◌∷◌, any, arith}
use llm_agent_runtime.Core.Errors.{ToolErrorCode}
use llm_agent_runtime.Graph.State.{fatal, plan_defect, ErrorType}
use llm_agent_runtime.Graph.Classify.{classify_failure, is_plan_defect_code, is_fatal_code}

-- With at least one code the text plays no part: a verdict is a plan defect exactly when some code is
-- one, and fatal exactly when some code is fatal and none is a plan defect.
pub classify_failure_by_code :
    (lower : String → String) (code : ToolErrorCode) (codes : List ToolErrorCode)
    (types : List ErrorType) (errors : String)
    → ((classify_failure lower (code ∷ codes) types errors ≡ plan_defect)
        ↔ (any is_plan_defect_code (code ∷ codes) ≡ true))
      × ((classify_failure lower (code ∷ codes) types errors ≡ fatal) ↔ (
          (any is_plan_defect_code (code ∷ codes) ≡ false)
          × (any is_fatal_code (code ∷ codes) ≡ true)))
unfolding classify_failure
classify_failure_by_code lower code codes types errors =
    ((λ h. ground arith, λ h. ground arith), (λ h. ground arith, λ h. ground arith))

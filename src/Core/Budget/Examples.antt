-- ===== src/Core/Budget/Examples.antt =====
-- app/core/budget.py: `check_budget` at concrete figures.
use llm_agent_runtime.Prelude.{◌<◌, ◌≡◌, ◌↔◌, true, false}
use llm_agent_runtime.Core.Budget.{check_budget, ok}
use llm_agent_runtime.Core.Budget.Decisions.{check_budget-ok_iff}

check_budget-ok_iff_example :
    ((check_budget 10 3 100 24 false true).action ≡ ok) ↔ ((3 < 24) × (10 < 100))
check_budget-ok_iff_example = check_budget-ok_iff 10 3 100 24 false true

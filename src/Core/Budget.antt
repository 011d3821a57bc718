-- ===== src/Core/Budget.antt =====
-- app/core/budget.py: the two budgets of a task, in tokens and in steps.
pub mod Decisions
pub mod Examples
use llm_agent_runtime.Prelude.{
  ℕ, String, Bool, [], ◌∷◌, leb, ◌&&◌, not, if◌then◌else◌, format, show_ℕ,
}

pub data Action : Type 0 where
  ok downgrade exceeded : Action

pub record BudgetDecision : Type 0 where
  pub action : Action
  pub reason : String

abbrev used_of : String → ℕ → ℕ → String → String
used_of front used limit back = format (front ∷ show_ℕ used ∷ "/" ∷ show_ℕ limit ∷ back ∷ [])

pub check_budget :
    (tokens_used steps_used max_tokens max_steps : ℕ) (downgraded has_cheap_model : Bool)
    → BudgetDecision
check_budget tokens_used steps_used max_tokens max_steps downgraded has_cheap_model =
    if leb max_steps steps_used
    then record { action = exceeded; reason = used_of "步数预算耗尽（" steps_used max_steps "）" }
    else if leb max_tokens tokens_used
    then (if has_cheap_model && not downgraded
        then record {
          action = downgrade;
          reason = used_of "token 预算超限（" tokens_used max_tokens "），降级为便宜模型续跑";
        }
        else record {
          action = exceeded;
          reason = used_of "token 预算耗尽（" tokens_used max_tokens "）";
        })
    else record { action = ok; reason = "" }

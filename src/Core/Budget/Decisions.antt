-- ===== src/Core/Budget/Decisions.antt =====
-- app/core/budget.py: when `check_budget` stops a task, downgrades its model or lets it go on.
use llm_agent_runtime.Prelude.{ℕ, ◌≤◌, ◌<◌, ◌≡◌, ◌≢◌, ◌↔◌, Bool, true, false, arith}
use llm_agent_runtime.Core.Budget.{check_budget, ok, downgrade, exceeded}

module _ (tokens_used steps_used max_tokens max_steps : ℕ) (downgraded has_cheap_model : Bool) where
  -- A task goes on with its model exactly when both its steps and its tokens are below their limits.
  pub check_budget-ok_iff :
      ((check_budget tokens_used steps_used max_tokens max_steps downgraded has_cheap_model).action
        ≡ ok)
      ↔ ((steps_used < max_steps) × (tokens_used < max_tokens))
  unfolding check_budget
  check_budget-ok_iff = (λ h. ground arith, λ h. ground arith)

  -- The model is downgraded exactly when steps are left, the tokens are used up, a cheap model is
  -- configured and the task has not been downgraded before.
  pub check_budget-downgrade_iff :
      ((check_budget tokens_used steps_used max_tokens max_steps downgraded has_cheap_model).action
        ≡ downgrade)
      ↔ ((steps_used < max_steps)
          × (max_tokens ≤ tokens_used)
          × (has_cheap_model ≡ true)
          × (downgraded ≡ false))
  unfolding check_budget
  check_budget-downgrade_iff = (λ h. ground arith, λ h. ground arith)

-- A decision that is not `exceeded` leaves a step to take.
pub in_budget :
    (tokens_used steps_used max_tokens max_steps : ℕ) (downgraded has_cheap_model : Bool)
    → (check_budget tokens_used steps_used max_tokens max_steps downgraded has_cheap_model).action
      ≢ exceeded
    → steps_used < max_steps
unfolding check_budget
in_budget tokens_used steps_used max_tokens max_steps downgraded has_cheap_model h = ground arith

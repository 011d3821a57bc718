-- ===== src/Graph/Prompts.antt =====
-- app/graph/prompts.py and SUMMARY_PROMPT of app/core/compressor.py: the texts that are sent to the
-- model. Only the places at which they are filled in are modelled, so the texts are a parameter.
use llm_agent_runtime.Prelude.{ℕ, String}

pub record Prompts : Type 0 where
  pub react_system : String
  pub react_task : (goal : String) (used_steps max_steps : ℕ) (plan_context : String) → String
  pub plan_context_line :
      (plan_text : String) (current_step total_batches : ℕ) (step_desc : String) → String
  pub replan_note : (failed_step : String) → String
  pub plan_system : (max_steps : ℕ) → String
  pub repair_system : String
  pub finish_system : String
  pub budget_exceeded : (reason : String) (done_count total_count : ℕ) (key_data : String) → String
  pub summary : (trajectory : String) → String

-- ===== src/Storage/Journal/Found.antt =====
-- app/storage/repository.py: `get_tool_execution` reads the table only through the row that it finds.
use llm_agent_runtime.Prelude.{◌≡◌, refl, String, none}
use llm_agent_runtime.Storage.Journal.{Table, find_row, get_tool_execution}

module _ (task_id call_id : String) where
  pub get-missing :
      (table : Table) (missing : find_row task_id call_id table ≡ none)
      → get_tool_execution task_id call_id table ≡ none
  unfolding get_tool_execution
  get-missing table missing = rw (get_tool_execution, missing) refl

  pub get-same_row :
      (table table' : Table)
      (same : find_row task_id call_id table' ≡ find_row task_id call_id table)
      → get_tool_execution task_id call_id table' ≡ get_tool_execution task_id call_id table
  unfolding get_tool_execution
  get-same_row table table' same = rw (get_tool_execution, same) refl

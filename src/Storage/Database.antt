-- ===== src/Storage/Database.antt =====
-- app/storage/repository.py: the four tables together, and `delete_task`, which takes a task's row and
-- all that belongs to it. The checkpoints stand in a store of their own, which the deletion clears as far
-- as it can; they are not part of the model.
pub mod Deleted
use llm_agent_runtime.Prelude.{
  String, str_eq, Bool, not, List, [], ◌∷◌, Option, none, some, if◌then◌else◌, keep,
}
use llm_agent_runtime.Storage.Journal.{ToolExecution, Table}
use llm_agent_runtime.Storage.Tasks.{Task, Tasks, has_id, get_task}
use llm_agent_runtime.Storage.Events.{EventRow, EventTable, of_task}
use llm_agent_runtime.Storage.Spans.{SpanRow, SpanTable}

pub record Database : Type 0 where
  pub tasks : Tasks
  pub events : EventTable
  pub spans : SpanTable
  pub executions : Table

-- `session.delete(task)`, by the primary key
abbrev pub without_task : String → Tasks → Tasks
without_task task_id ts = keep (λ t. not (has_id task_id t)) ts

-- `for model in (Event, Span, ToolExecution)`
abbrev pub cleared : String → Database → Database
cleared task_id db = record {
  tasks = without_task task_id db.tasks;
  events = keep (λ e. not (of_task task_id e)) db.events;
  spans = keep (λ s. not (str_eq s.task_id task_id)) db.spans;
  executions = keep (λ r. not (str_eq r.task_id task_id)) db.executions;
}

unfoldable pub delete_task :
    String → (tenant_id : Option String) → Database → Option Task × Database
unfolding get_task
delete_task task_id tenant_id db = elim (get_task task_id tenant_id db.tasks) [
  | none ↦ (none, db)
  | some t ↦ (some t, cleared task_id db)
]

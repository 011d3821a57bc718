-- ===== src/Storage/Metrics.antt =====
-- app/storage/repository.py: `metrics`. A status or a type that has no row counts 0; the average is kept as
-- the sum of the durations and the number of the rows.
pub mod Isolated
use llm_agent_runtime.Prelude.{
  ℕ, ◌+◌, String, str_eq, Bool, true, false, List, [], ◌∷◌, Option, none, some, if◌then◌else◌,
  length, keep, count, any, ◌==◌,
}
use llm_agent_runtime.Storage.Tasks.{
  Task, Tasks, TaskStatus, queued, running, resuming, waiting_approval, done, failed, canceled,
  budget_exceeded, owned_by, has_id, sum_by,
}
use llm_agent_runtime.Storage.Events.{EventRow, EventTable}

abbrev pub code_of : TaskStatus → ℕ
code_of queued = 0
code_of running = 1
code_of resuming = 2
code_of waiting_approval = 3
code_of done = 4
code_of failed = 5
code_of canceled = 6
code_of budget_exceeded = 7

abbrev pub has_status : TaskStatus → Task → Bool
has_status s t = code_of t.status == code_of s

pub record Metrics : Type 0 where
  pub tasks_by_status : TaskStatus → ℕ
  pub total_tokens : ℕ
  pub total_steps : ℕ
  pub total_selfheals : ℕ
  pub total_duration : ℕ
  pub rows : ℕ
  pub events_by_type : String → ℕ

-- `Event.task_id.in_(task_ids)`
abbrev pub of_rows : Tasks → EventRow → Bool
of_rows ts e = any (has_id e.task_id) ts

abbrev pub counted_events : Option String → Tasks → EventTable → EventTable
counted_events none ts es = es
counted_events (some tenant_id) ts es = keep (of_rows ts) es

abbrev pub has_type : String → EventRow → Bool
has_type type e = str_eq e.event.type type

-- What is counted over the rows that are picked.
abbrev pub measured : Option String → EventTable → Tasks → Metrics
measured tenant_id es rows = record {
  tasks_by_status = λ s. count (has_status s) rows;
  total_tokens = sum_by (λ t. t.tokens_used) rows;
  total_steps = sum_by (λ t. t.steps_used) rows;
  total_selfheals = sum_by (λ t. t.selfheal_count) rows;
  total_duration = sum_by (λ t. t.duration) rows;
  rows = length rows;
  events_by_type = λ type. count (has_type type) (counted_events tenant_id rows es);
}

unfoldable pub metrics : (tenant_id : Option String) → Tasks → EventTable → Metrics
metrics tenant_id ts es = measured tenant_id es (keep (owned_by tenant_id) ts)

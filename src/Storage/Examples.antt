-- ===== src/Storage/Examples.antt =====
-- app/storage/repository.py at concrete values.
use llm_agent_runtime.Prelude.{
  none, List, arith, ◌≡◌, refl, String, str_eq, true, false, [], ◌∷◌, Option, some,
}
use llm_agent_runtime.Graph.State.{react}
use llm_agent_runtime.Storage.Tasks.{
  Task, Tasks, running, waiting_approval, is_active, new_task, set_tokens_used, update_task,
  get_task, fail_interrupted_tasks, tenant_token_usage, count_tasks_since,
}
use llm_agent_runtime.Storage.Tasks.Quota.{fail_interrupted_tasks-frees}
use llm_agent_runtime.Storage.Lease.{Lease, Move, turns, releases, plays}
use llm_agent_runtime.Storage.Lease.Exclusive.{plays-exclusive}
use llm_agent_runtime.Storage.Metrics.{metrics}
use llm_agent_runtime.Storage.Metrics.Isolated.{the_table, metrics-foreign}
use llm_agent_runtime.Storage.Events.{EventRow, append_event}
use llm_agent_runtime.Storage.Database.{Database, delete_task}
use llm_agent_runtime.Storage.Database.Deleted.{Gone, SameFor, delete_task_complete}

abbrev mine : Task
mine = record (new_task "t1" "find it" react 1000 24 "a" false 5) { status = running }

abbrev yours : Task
yours = record (new_task "t2" "ask first" react 1000 24 "b" true 6) { status = waiting_approval }

abbrev tasks : Tasks
tasks = mine ∷ yours ∷ []

fail_interrupted_tasks-frees_example :
    let tasks' = (fail_interrupted_tasks "restart" 9 tasks).1 in
    ((tenant_token_usage "a" 0 tasks').reserved ≡ 0)
    × ((tenant_token_usage "a" 0 tasks').used ≡ (tenant_token_usage "a" 0 tasks).used)
    × ((scope : Option String) → count_tasks_since 0 scope tasks' ≡ count_tasks_since 0 scope tasks)
    × ((j : String) (scope : Option String) (t : Task)
        → get_task j scope tasks ≡ some t
        → is_active t.status ≡ false
        → get_task j scope tasks' ≡ some t)
fail_interrupted_tasks-frees_example = fail_interrupted_tasks-frees "restart" 9 "a" 0 tasks

abbrev db : Database
db = record { tasks = tasks; events = []; spans = []; executions = [] }

found : get_task "t1" (some "a") tasks ≡ some mine
unfolding get_task
found = refl

delete_task_complete_example :
    ((delete_task "t1" (some "a") db).0 ≡ some mine)
    × Gone "t1" (delete_task "t1" (some "a") db).1
    × ((j : String) → str_eq j "t1" ≡ false → SameFor j db (delete_task "t1" (some "a") db).1)
delete_task_complete_example = delete_task_complete "t1" (some "a") db mine found

abbrev lease : Lease
lease = record { owner = "api"; acquired_at = 1000 }

abbrev others : List Move
others = turns "worker" 1500 ∷ releases "worker" ∷ turns "worker" 2000 ∷ []

plays-exclusive_example : plays others (some lease) ≡ ([], some lease)
plays-exclusive_example = plays-exclusive others lease (omega arith, (refl, (omega arith, tt)))

hidden : get_task "t1" (some "b") tasks ≡ none
unfolding get_task
hidden = refl

abbrev news : EventRow
news = record {
  task_id = "t1";
  seq = 1;
  trace_id = "a";
  event = record { type = "plan"; payload = [] };
}

metrics-foreign_example :
    metrics
      (some "b")
      (update_task "t1" (set_tokens_used 70 ∷ []) 9 tasks).1
      (the_table [] (append_event news []))
    ≡ metrics (some "b") tasks []
metrics-foreign_example = metrics-foreign "b" (set_tokens_used 70 ∷ []) 9 tasks news [] hidden

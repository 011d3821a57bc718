-- ===== src/Api/Tasks/Examples.antt =====
-- app/api/routes_tasks.py, the endpoints of a task, at concrete values.
use llm_agent_runtime.Prelude.{◌≡◌, String, str_eq, true, false, [], ◌∷◌, Option, none, some}
use llm_agent_runtime.Graph.State.{react}
use llm_agent_runtime.Storage.Tasks.{new_task, get_task}
use llm_agent_runtime.Worker.Queue.{new_queue}
use llm_agent_runtime.Api.Tasks.{App, delete, respond, not_found}
use llm_agent_runtime.Api.Tasks.Others.{respond-own_row}

abbrev app : App
app = record {
  queue = new_queue 2 true (
      new_task "t1" "find it" react 1000 24 "a" false 5
      ∷ new_task "t2" "ask" react 1000 24 "b" false 6
      ∷ []);
  events = [];
  spans = [];
  executions = [];
}

respond-own_row_example :
    let after = respond delete "a" "t2" 9 app in
    ((j : String) (scope : Option String)
      → str_eq j "t2" ≡ false
      → get_task j scope after.1.queue.tasks ≡ get_task j scope app.queue.tasks)
    × (get_task "t2" (some "a") app.queue.tasks ≡ none → after ≡ (not_found, app))
respond-own_row_example = respond-own_row delete "a" "t2" 9 app

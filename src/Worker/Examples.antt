-- ===== src/Worker/Examples.antt =====
-- app/worker/local_queue.py at concrete values; the engine is that of the world of `Graph/Fixtures`.
use llm_agent_runtime.Prelude.{refl, arith, true, false, [], ◌∷◌, none, List}
use llm_agent_runtime.Graph.State.{react}
use llm_agent_runtime.Graph.Routes.{approval_gate}
use llm_agent_runtime.Graph.Fixtures.{start}
use llm_agent_runtime.Storage.Tasks.{Task, running, new_task}
use llm_agent_runtime.Worker.Runs.{Snapshot, standing}
use llm_agent_runtime.Worker.Queue.{Queue, Run, holding, new_queue}
use llm_agent_runtime.Worker.Queue.Shifts.{IsSound, holders}
use llm_agent_runtime.Worker.Queue.Once.{
  Move, submits, resumes, consumes, begins, enters_at, looks, cancels, plays, plays-IsSound,
}

abbrev moves : List Move
moves =
    submits "t1" none 5
    ∷ consumes
    ∷ resumes "t1" none
    ∷ begins 0
    ∷ enters_at 0
    ∷ looks 0
    ∷ cancels "t1"
    ∷ []

fresh : IsSound 2 (new_queue 2 true [])
unfolding holders new_queue
fresh = (tt, λ task_id. omega arith, refl)

plays-IsSound_example : IsSound 2 (plays moves (new_queue 2 true []))
plays-IsSound_example = plays-IsSound 2 moves (new_queue 2 true []) fresh

abbrev row : Task
row = record (new_task "t1" "find it" react 1000 20 "a" false 5) { status = running }

abbrev holder : Run
holder = record { handle = 0; task_id = "t1"; resume = none; stage = holding }

abbrev busy : Queue
busy = record {
  waiting_ids = [];
  traces = [];
  taken = [];
  registered = ("t1", 0) ∷ [];
  runs = holder ∷ [];
  next_handle = 1;
  free = 1;
  closing = false;
  has_engine = true;
  canceled_ids = [];
  tasks = row ∷ [];
}

abbrev snapshot : Snapshot
snapshot = standing approval_gate start true

-- ===== src/Worker/Runs/Written.antt =====
-- app/graph/engine.py, app/worker/local_queue.py and app/storage/repository.py: the row of a task after a
-- run.
use llm_agent_runtime.Prelude.{ℕ, ◌≡◌, false}
use llm_agent_runtime.Prelude.Python.{Python}
use llm_agent_runtime.Graph.State.{is_live}
use llm_agent_runtime.Graph.Prompts.{Prompts}
use llm_agent_runtime.Storage.Tasks.{Task, is_active, written}
use llm_agent_runtime.Worker.Queue.{Run, Queue, Outcome, outcome_fields}
use llm_agent_runtime.Worker.Runs.{Snapshot, at_end}

-- The row that an outcome leaves is not active.
abbrev pub IsOver : Outcome → Type 0
IsOver outcome =
    (duration now : ℕ) (t : Task)
    → is_active (written (outcome_fields outcome duration) now t).status ≡ false

-- What a snapshot says of a graph at its end is the state of a run that has ended.
abbrev pub IsTrue : Snapshot → Type 0
IsTrue (at_end st) = is_live st.status ≡ false
IsTrue _ = Unit

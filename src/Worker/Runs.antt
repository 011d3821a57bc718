-- ===== src/Worker/Runs.antt =====
-- app/graph/engine.py, `run_task`, `resume_task` and what `_execute` makes of the graph's result, for the
-- queue of app/worker/local_queue.py. The checkpoint of a task is LangGraph's; what the code reads of it is
-- a parameter. So is the text of LangGraph's error for a run beyond the recursion limit.
pub mod Written
use llm_agent_runtime.Prelude.{
  ℕ, ◌-◌, String, Bool, true, false, ◌&&◌, Option, none, some, if◌then◌else◌,
}
use llm_agent_runtime.Prelude.Python.{Python}
use llm_agent_runtime.Graph.State.{AgentState, Settings, Status, init_state}
use llm_agent_runtime.Graph.Prompts.{Prompts}
use llm_agent_runtime.Graph.Run.{Env}
use llm_agent_runtime.Graph.Routes.{Target}
use llm_agent_runtime.Graph.Engine.{
  Progress, moving, ended, stopped, paused, superstep, supersteps, start_at, recursion_limit,
}
use llm_agent_runtime.Storage.Tasks.{Task}
use llm_agent_runtime.Worker.Queue.{Outcome, returned, crashed}

-- What `aget_state` says: nothing was ever saved, the graph is at its end, or it stands before a node, with
-- or without an interrupt that waits for a decision.
pub data Snapshot : Type 0 where
  nothing_saved : Snapshot
  at_end : AgentState → Snapshot
  standing : Target → AgentState → (interrupted : Bool) → Snapshot

abbrev pub is_none {ℓ} : {A : Type ℓ} → Option A → Bool
is_none none = true
is_none (some a) = false

-- The end of `_execute`: a run that is paused waits for an approval.
abbrev pub outcome_of : {W : Type 0} → (too_deep : String) → Progress W → Outcome
outcome_of too_deep (moving t st w) = crashed too_deep
outcome_of too_deep (ended st w) = returned st
outcome_of too_deep (stopped e w) = crashed e
outcome_of too_deep (paused payload st w) =
    returned (record st { status = Status.waiting_approval })

module _ {W : Type 0} (py : Python) (prompts : Prompts) (settings : Settings) (env : Env W)
    (too_deep : String) where
  -- A gate has no decision before someone resumes the task.
  unfoldable pub run_task : Task → W → Outcome
  run_task t w = outcome_of too_deep (
      supersteps py prompts settings env (λ w'. none) (recursion_limit settings t.max_steps)
        (start_at py prompts settings env (λ w'. none)
          (init_state t.id t.goal t.mode t.max_tokens t.max_steps t.require_approval) w))

  -- The decision is for the gate that waits; the next gate asks again.
  abbrev pub resumed : Option Bool → Target → AgentState → W → Progress W
  resumed resume_value t st w =
      supersteps py prompts settings env (λ w'. none) (recursion_limit settings st.max_steps - 1)
        (superstep py prompts settings env (λ w'. resume_value) t st w)

  unfoldable pub resume_task : Snapshot → (resume_value : Option Bool) → W → Outcome
  resume_task nothing_saved resume_value w =
      crashed "ValueError: 无可恢复的断点：任务从未执行过（无任何 checkpoint），请重新提交任务"
  resume_task (at_end st) resume_value w = returned st
  resume_task (standing t st interrupted) resume_value w =
      if interrupted && is_none resume_value
      then crashed "ValueError: 任务在等待人工审批，请通过 /approve 或 /reject 提供决策"
      else outcome_of too_deep (resumed resume_value t st w)

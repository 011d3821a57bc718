-- ===== src/Storage/Journal/Replayed.antt =====
-- app/storage/repository.py as the `ToolJournal` of app/graph/engine.py, and the calls of
-- app/graph/nodes.py that meet it. The world is the table and all the rest, `V`.
use llm_agent_runtime.Prelude.{◌≡◌, [], ◌∷◌, some, ap}
use llm_agent_runtime.Prelude.Python.{Python}
use llm_agent_runtime.Core.Llm.{ToolCall}
use llm_agent_runtime.Graph.State.{AgentState, Settings, Observation}
use llm_agent_runtime.Graph.Prompts.{Prompts}
use llm_agent_runtime.Graph.Run.{ok, Env, Journal}
use llm_agent_runtime.Graph.Executor.{Totals, journal_call_key, replay_event, run_one, settle}
use llm_agent_runtime.Graph.Executor.Replay.{run_one-recorded}
use llm_agent_runtime.Storage.Journal.{
  Table, get_tool_execution, try_claim_tool_execution, complete_tool_execution,
}
use llm_agent_runtime.Storage.Journal.Claims.{try_claim-recorded}

abbrev pub table_journal : {V : Type 0} → Journal (Table × V)
table_journal = record {
  try_claim = λ task_id call_key tool arguments w.
      let (claim, table) = try_claim_tool_execution task_id call_key tool arguments w.0 in
      (ok claim, (table, w.1));
  get = λ task_id call_key w. (ok (get_tool_execution task_id call_key w.0), w);
  complete =
      λ task_id call_key obs w. (ok tt, (complete_tool_execution task_id call_key obs w.0, w.1));
}

-- With the repository as its journal, a call whose result is in the table is not run again: table and
-- world stay as they are, the only event is the replay, and the result is settled as a fresh one would be.
pub run_one-stored :
    {V : Type 0} (py : Python) (prompts : Prompts) (settings : Settings) (env : Env (Table × V))
    (has_journal : env.journal ≡ some table_journal) (st : AgentState) (call : ToolCall)
    (totals : Totals) (obs : Observation) (table : Table) (v : V)
    (done : get_tool_execution st.task_id (journal_call_key py st call) table ≡ some obs)
    → run_one py prompts settings env st call totals (table, v)
      ≡ (ok (settle py env.tools call obs totals), replay_event call obs ∷ [], (table, v))
run_one-stored py prompts settings env has_journal st call totals obs table v done =
    run_one-recorded py prompts settings env table_journal has_journal st call totals obs (table, v)
      (table, v)
      (ap (λ r. (ok r.0, (r.1, v)))
        (try_claim-recorded st.task_id (journal_call_key py st call) call.name call.arguments table
          obs done))

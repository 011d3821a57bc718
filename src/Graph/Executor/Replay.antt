-- ===== src/Graph/Executor/Replay.antt =====
-- app/graph/nodes.py: `tool_executor_node` on a call that the journal has recorded.
use llm_agent_runtime.Prelude.{◌≡◌, refl, [], ◌∷◌, some}
use llm_agent_runtime.Prelude.Python.{Python}
use llm_agent_runtime.Core.Llm.{ToolCall}
use llm_agent_runtime.Graph.State.{AgentState, Settings, Observation}
use llm_agent_runtime.Graph.Prompts.{Prompts}
use llm_agent_runtime.Graph.Run.{ok, Env, Journal, recorded}
use llm_agent_runtime.Graph.Executor.{
  Totals, journal_call_key, find_replay, after_replay, replay_event, run_one, settle,
}

-- A call that the journal has recorded is not run again: the world changes only by the claim, the only
-- event is the replay, and the recorded observation is settled as the one of a fresh run would be.
pub run_one-recorded :
    {W : Type 0} (py : Python) (prompts : Prompts) (settings : Settings) (env : Env W)
    (journal : Journal W) (has_journal : env.journal ≡ some journal) (st : AgentState)
    (call : ToolCall) (totals : Totals) (obs : Observation) (w w' : W)
    (done : journal.try_claim st.task_id (journal_call_key py st call) call.name call.arguments w
      ≡ (ok (recorded obs), w'))
    → run_one py prompts settings env st call totals w
      ≡ (ok (settle py env.tools call obs totals), replay_event call obs ∷ [], w')
unfolding run_one find_replay after_replay
run_one-recorded py prompts settings env journal has_journal st call totals obs w w' done =
    rw (has_journal, done) refl

-- ===== src/Storage/Journal/Examples.antt =====
-- The table of tool executions at concrete values.
use llm_agent_runtime.Prelude.{ℕ, false, String, ◌∷◌, ◌≡◌, refl, true, [], none, some}
use llm_agent_runtime.Prelude.Json.{null, end}
use llm_agent_runtime.Graph.State.{Observation, runtime}
use llm_agent_runtime.Graph.Fixtures.{py, prompts, settings, calling, call, reply}
use llm_agent_runtime.Graph.Executor.{Totals, journal_call_key, run_one, settle, replay_event}
use llm_agent_runtime.Storage.Journal.Replayed.{table_journal, run_one-stored}
use llm_agent_runtime.Graph.Run.{ok, Env, Claim, claimed, busy}
use llm_agent_runtime.Storage.Journal.{
  Table, tool_exec_dict, row_of, replay_of, get_tool_execution, try_claim_tool_execution,
  complete_tool_execution,
}
use llm_agent_runtime.Storage.Journal.Claims.{replayed, try_claim-exclusive, get-complete-claim}

abbrev obs : Observation
obs = record {
  is_ok = true;
  tool = "search";
  arguments = null;
  result = end;
  error = "";
  error_type = runtime;
  error_code = none;
}

abbrev claim : Claim × Table
claim = try_claim_tool_execution "t1" "c1" "search" null []

won : claim.0 ≡ claimed
unfolding try_claim_tool_execution
won = refl

try_claim-exclusive_example :
    try_claim_tool_execution "t1" "c1" "search" null claim.1 ≡ (busy, claim.1)
try_claim-exclusive_example = try_claim-exclusive "t1" "c1" "search" null [] won "search" null

get-complete-claim_example :
    get_tool_execution "t1" "c1" (complete_tool_execution "t1" "c1" obs claim.1)
    ≡ some (replayed obs)
get-complete-claim_example = get-complete-claim "t1" "c1" "search" null [] won obs

abbrev kept : Table
kept = complete_tool_execution "t1" "c1" obs []

found : get_tool_execution "t1" "c1" kept ≡ some obs
unfolding get_tool_execution complete_tool_execution replay_of row_of tool_exec_dict
found = refl

-- A world of a table and nothing else that matters.
abbrev env : Env (Table × ℕ)
env = record {
  chat = λ messages with_tools model w. (ok reply, w);
  tools = [];
  journal = some table_journal;
  canceled = λ task_id w. false;
  sleep = λ d w. w;
  now_context = λ w. "now";
  clock = λ w. 0;
}

abbrev key : String
key = journal_call_key py calling call

abbrev before : Claim × Table
before = try_claim_tool_execution "t1" key "search" null []

claim_before : before.0 ≡ claimed
unfolding try_claim_tool_execution
claim_before = refl

abbrev stored : Table
stored = complete_tool_execution "t1" key obs before.1

abbrev totals : Totals
totals = record { key_outputs = []; tokens = 0; selfheal_used = 0 }

run_one-stored_example : run_one py prompts settings env calling call totals (stored, 0) ≡ (
  ok (settle py env.tools call (replayed obs) totals),
  replay_event call (replayed obs) ∷ [],
  (stored, 0),
)
run_one-stored_example =
    run_one-stored py prompts settings env refl calling call totals (replayed obs) stored 0
      (get-complete-claim "t1" key "search" null [] claim_before obs)

-- ===== src/Graph/Fixtures.antt =====
-- A world in which the witnesses of this folder run the nodes: it counts the runs of its one tool,
-- and its model always gives the same answer.
use llm_agent_runtime.Prelude.{ℕ, zero, suc, ◌+◌, true, false, [], ◌∷◌, none, some}
use llm_agent_runtime.Prelude.Json.{null, str, obj, end, field}
use llm_agent_runtime.Prelude.Python.{Python}
use llm_agent_runtime.Core.Llm.{ToolCall, LlmResponse}
use llm_agent_runtime.Tools.Registry.{ToolSpec, Handled, produced, tool_error}
use llm_agent_runtime.Core.Errors.{ToolErrorCode}
use llm_agent_runtime.Graph.State.{AgentState, Settings, react, init_state}
use llm_agent_runtime.Graph.Prompts.{Prompts}
use llm_agent_runtime.Graph.Run.{Env, ok}

abbrev pub py : Python
py = record {
  lower = λ s. s;
  strip = λ s. s;
  strip_ticks = λ s. s;
  text_of = λ v. "";
  dumps = λ v. "{}";
  dumps_sorted = λ v. "{}";
  raw_decode = λ s. none;
  sha1_hex = λ s. s;
  int_of = λ s. none;
  decimal = λ n. none;
  sorted_names = λ names. "[]";
}

abbrev pub prompts : Prompts
prompts = record {
  react_system = "react";
  react_task = λ goal used limit context. goal;
  plan_context_line = λ text step total desc. text;
  replan_note = λ note. note;
  plan_system = λ limit. "plan";
  repair_system = "repair";
  finish_system = "finish";
  budget_exceeded = λ reason finished total kept. reason;
  summary = λ text. text;
}

abbrev pub settings : Settings
settings = record {
  llm_model = "large";
  llm_model_cheap = "small";
  compress_threshold_tokens = 6000;
  max_selfheal_retries = 3;
  adaptive_downgrade_after_replans = 2;
  max_mode_switches = 2;
  retry_max_attempts = 2;
  retry_base_delay_s = 500;
  retry_max_delay_s = 8000;
  default_max_steps = 24;
}

abbrev pub call : ToolCall
call = record { id = "call_1"; name = "search"; arguments = obj end; args_parse_error = "" }

-- The tool times out at its first run and gives a result at the others.
abbrev answer : ℕ → Handled
answer zero = tool_error (record {
  message = "slow";
  code = some ToolErrorCode.timeout;
  retryable = none;
  retry_after_s = none;
})
answer (suc n) = produced (field "summary" (str "found") end)

abbrev pub search : ToolSpec ℕ
search = record {
  name = "search";
  description = "search";
  input_schema = null;
  iter_errors = λ v. [];
  handler = λ v n. (answer n, n + 1);
  timeout_s = "30.0";
  key_result = true;
  key_output_limit = 1500;
  retry_transient = true;
}

abbrev pub reply : LlmResponse
reply = record { text = "looking"; tool_calls = call ∷ []; model = "large"; tokens_used = 7 }

abbrev pub env : Env ℕ
env = record {
  chat = λ messages with_tools model n. (ok reply, n);
  tools = search ∷ [];
  journal = none;
  canceled = λ task_id n. false;
  sleep = λ d n. n;
  now_context = λ n. "now";
  clock = λ n. n;
}

abbrev pub start : AgentState
start = init_state "t1" "find it" react 1000 24 true

abbrev pub calling : AgentState
calling = record start { pending_tool_calls = call ∷ [] }

-- ===== src/Graph/Executor.antt =====
-- app/graph/nodes.py: `tool_executor_node`, which runs the calls that the model has asked for, and
-- `_journal_call_key` and `_await_claim_result`. The source starts the calls together; here each runs to
-- its end before the next, which is one of the source's schedules. The store of the events does not fail.
pub mod Paired
pub mod Replay
pub mod Steps
use llm_agent_runtime.Prelude.{
  ℕ, zero, suc, ◌+◌, ◌*◌, ◌-◌, String, Bool, true, false, not, ◌&&◌, List, [], ◌∷◌, ◌++◌, map,
  Option, none, some, length, ltb, str_eq, if◌then◌else◌, format, clip, text_length, show_ℕ, Dict,
  insert,
}
use llm_agent_runtime.Prelude.Json.{
  Json, null, bool, num, str, arr, obj, nil, cons, Fields, end, field, field_of, without_field,
}
use llm_agent_runtime.Prelude.Python.{Python}
use llm_agent_runtime.Core.Errors.{ToolErrorCode}
use llm_agent_runtime.Core.Llm.{ToolCall, Message, Role, tool}
use llm_agent_runtime.Tools.Registry.{ToolSpec, extract_key_output}
use llm_agent_runtime.Graph.State.{
  AgentState, Settings, Event, Observation, ErrorType, validation, runtime, Status,
}
use llm_agent_runtime.Graph.Prompts.{Prompts}
use llm_agent_runtime.Graph.Run.{
  Result, ok, raised, Env, Run, pure, asks, lift, killed, attempt, gathered, escape, emit, emit_all,
  fail, ◌>>=◌, ◌>>◌, Journal, Claim, claimed, busy, recorded,
}
use llm_agent_runtime.Graph.Context.{prune_key_outputs}
use llm_agent_runtime.Graph.Classify.{is_empty, code_name}
use llm_agent_runtime.Graph.Retrying.{code_value}
use llm_agent_runtime.Graph.Calls.{Executed, execute_call, failure}

-- `sha1_hex` gives the digest of which the source keeps a part.
pub call_fingerprint : Python → ToolCall → String
call_fingerprint py call = clip 10 (
    py.sha1_hex (
      py.dumps_sorted (
        obj (
          field "n" (str call.name)
            (field "a" call.arguments (field "p" (str call.args_parse_error) end))))))

unfoldable pub journal_call_key : Python → AgentState → ToolCall → String
unfolding call_fingerprint
journal_call_key py st call =
    let key = format (call.id ∷ "#" ∷ show_ℕ st.iterations ∷ ":" ∷ call_fingerprint py call ∷ []) in
    if ltb 80 (text_length key) then clip 20 (py.sha1_hex key) else key

-- What the calls of one round add up.
pub record Totals : Type 0 where
  pub key_outputs : Dict String
  pub tokens : ℕ
  pub selfheal_used : ℕ

-- `int(extra)` of the tokens that a subagent has spent
int_of_budget : Python → Json → Option ℕ
int_of_budget py null = some 0
int_of_budget py (bool b) = some (if b then 1 else 0)
int_of_budget py (num n) = some n
int_of_budget py (str s) = if str_eq s "" then some 0 else py.int_of s
int_of_budget py (arr nil) = some 0
int_of_budget py (arr (cons v vs)) = none
int_of_budget py (obj end) = some 0
int_of_budget py (obj (field k v fs)) = none

budget_tokens : Python → Fields → Option ℕ
unfolding int_of_budget
budget_tokens py result = elim (field_of "_budget_tokens" result) [
  | none ↦ some 0
  | some v ↦ int_of_budget py v
]

abbrev with_key : ToolCall → Observation → Option String → Totals → Totals
with_key call obs none totals = totals
with_key call obs (some text) totals = if str_eq text "" then totals else record totals {
  key_outputs = insert (format (obs.tool ∷ "(" ∷ call.id ∷ ")" ∷ [])) text totals.key_outputs;
}

-- The processing that an execution and a replay share.
unfoldable pub settle :
    {W : Type 0}
    → Python
    → List (ToolSpec W)
    → ToolCall
    → Observation
    → Totals
    → Result Observation × Totals
unfolding budget_tokens
settle py tools call obs totals =
    if not obs.is_ok
    then (ok obs, totals)
    else elim (extract_key_output py tools obs.tool obs.result) [
      | none ↦ (raised "TypeError", totals)
      | some key ↦
          let kept = with_key call obs key totals in
          elim (budget_tokens py obs.result) [
            | none ↦ (raised "ValueError", kept)
            | some extra ↦ (
              ok (record obs { result = without_field "_budget_tokens" obs.result }),
              record kept { tokens = kept.tokens + extra },
            )
          ]
    ]

takeover_event : ToolCall → Event
takeover_event call = record {
  type = "tool_claim_takeover";
  payload =
      ("tool", str call.name)
      ∷ ("call_id", str call.id)
      ∷ ("reason", str "占位超过 5.0s 未完成，判定对方已中断，接管重跑")
      ∷ [];
}

pub replay_event : ToolCall → Observation → Event
replay_event call obs = record {
  type = "tool_replay";
  payload =
      ("tool", str obs.tool)
      ∷ ("call_id", str call.id)
      ∷ ("arguments", obs.arguments)
      ∷ ("ok", bool obs.is_ok)
      ∷ ("reason", str "checkpoint 重跑：命中工具执行流水，跳过重复执行")
      ∷ [];
}

-- `_await_claim_result`: polls every 250 ms until `deadline`; 20 polls reach the 5 s if the clock
-- advances by at least the time that is slept.
unfoldable pub await_claim_result :
    {W : Type 0}
    → Env W
    → Journal W
    → (task_id call_key : String) → (polls deadline : ℕ) → Run W (Option Observation)
await_claim_result env journal task_id call_key zero deadline = pure none
await_claim_result env journal task_id call_key (suc polls) deadline = do
  now ← asks env.clock
  if not (ltb now deadline) then pure none else do
    lift (λ w. (ok tt, env.sleep 250 w))
    found ← lift (journal.get task_id call_key)
    elim found [
      | some obs ↦ pure (some obs)
      | none ↦ await_claim_result env journal task_id call_key polls deadline
    ]

module _ {W : Type 0} (py : Python) (prompts : Prompts) (settings : Settings) (env : Env W) where
  -- The observation to replay, if the journal has one.
  unfoldable pub find_replay :
      AgentState → ToolCall → Option (Journal W) → Run W (Option Observation)
  unfolding takeover_event
  find_replay st call none = pure none
  find_replay st call (some journal) = do
    claim ←
        lift (journal.try_claim st.task_id (journal_call_key py st call) call.name call.arguments)
    elim claim [
      | claimed ↦ pure none
      | recorded obs ↦ pure (some obs)
      | busy ↦ do
        now ← asks env.clock
        found ←
            await_claim_result env journal st.task_id (journal_call_key py st call) 20 (now + 5000)
        elim found [ some obs ↦ pure (some obs) | none ↦ do emit (takeover_event call); pure none ]
    ]

  complete_journal : AgentState → ToolCall → Option (Journal W) → Observation → Run W (Unit {0})
  complete_journal st call none obs = pure tt
  complete_journal st call (some journal) obs =
      lift (journal.complete st.task_id (journal_call_key py st call) obs)

  -- The totals after an execution.
  abbrev pub spent : Executed → Totals → Totals
  spent x totals = record totals {
    tokens = totals.tokens + x.repair_tokens;
    selfheal_used = totals.selfheal_used + x.attempts;
  }

  -- The end of an execution; `filed` is what recording it has given.
  after_filing : ToolCall → Totals → Executed → Result (Unit {0}) → Result Observation × Totals
  after_filing call totals x (raised e) = (raised e, spent x totals)
  after_filing call totals x (killed e) = (killed e, spent x totals)
  after_filing call totals x (ok u) = settle py env.tools call x.obs (spent x totals)

  after_execution :
      AgentState → ToolCall → Totals → Result Executed → Run W (Result Observation × Totals)
  unfolding after_filing complete_journal
  after_execution st call totals (raised e) = pure (raised e, totals)
  after_execution st call totals (killed e) = escape e
  after_execution st call totals (ok x) =
      attempt (complete_journal st call env.journal x.obs) >>= λ filed.
      pure (after_filing call totals x filed)

  after_replay :
      AgentState
      → ToolCall
      → Totals
      → Result (Option Observation)
      → Run W (Result Observation × Totals)
  unfolding after_execution replay_event
  after_replay st call totals (raised e) = pure (raised e, totals)
  after_replay st call totals (killed e) = escape e
  after_replay st call totals (ok (some obs)) =
      emit (replay_event call obs) >> pure (settle py env.tools call obs totals)
  after_replay st call totals (ok none) =
      attempt (execute_call py prompts settings env st call) >>= after_execution st call totals

  -- `run_one`: what the call gives, and the totals, which a call that raises later has changed too. A
  -- call that is killed is the end of the node, and its totals are of no use.
  pub run_one : AgentState → ToolCall → Totals → Run W (Result Observation × Totals)
  unfolding after_replay
  run_one st call totals = attempt (find_replay st call env.journal) >>= after_replay st call totals

  -- What `gather` has of a call, and the totals after it.
  abbrev pub gathered_one :
      Result (Result Observation × Totals) → Totals → Result Observation × Totals
  gathered_one (ok found) totals = found
  gathered_one (raised e) totals = (raised e, totals)
  gathered_one (killed e) totals = (killed e, totals)

  -- `raw_results`: whatever a call does, the others run.
  pub run_all : AgentState → List ToolCall → Totals → Run W (List (Result Observation) × Totals)
  run_all st [] totals = pure ([], totals)
  run_all st (call ∷ calls) totals = gathered (run_one st call totals) >>= λ r.
      run_all st calls (gathered_one r totals).1 >>= λ rest.
      pure ((gathered_one r totals).0 ∷ rest.0, rest.1)

  -- A call that raised counts as a runtime failure; one that was killed ends the node.
  unfoldable pub observed : ToolCall → Result Observation → Result Observation
  observed call (ok obs) = ok obs
  observed call (raised e) =
      ok (failure call.name call.arguments (format ("执行协程内部异常: " ∷ e ∷ [])) runtime none)
  observed call (killed e) = killed e

  abbrev pub with_observation :
      Result Observation → Result (List Observation) → Result (List Observation)
  with_observation (ok obs) (ok observations) = ok (obs ∷ observations)
  with_observation (ok obs) (raised e) = raised e
  with_observation (ok obs) (killed e) = killed e
  with_observation (raised e) rest = raised e
  with_observation (killed e) rest = killed e

  -- The observations of a round: the first call that was killed is raised again.
  unfoldable pub collected : List ToolCall → List (Result Observation) → Result (List Observation)
  unfolding observed
  collected (call ∷ calls) (r ∷ rs) = with_observation (observed call r) (collected calls rs)
  collected calls rs = ok []

  error_fields : Observation → Fields
  error_fields obs = elim obs.error_code [
    | none ↦ field "error" (str obs.error) end
    | some c ↦ field "error" (str obs.error) (field "error_code" (str (code_name c)) end)
  ]

  tool_message : ToolCall → Observation → Message
  unfolding error_fields
  tool_message call obs = record {
    role = tool;
    content = clip 6000 (py.dumps (obj (if obs.is_ok then obs.result else error_fields obs)));
    tool_calls = [];
    tool_call_id = call.id;
    name = call.name;
  }

  abbrev json_or : Json → Option Json → Json
  json_or default none = default
  json_or default (some v) = v

  abbrev type_name : ErrorType → String
  type_name validation = "validation"
  type_name runtime = "runtime"

  observation_event : Observation → Event
  observation_event obs =
      if obs.is_ok
      then record {
        type = "tool_result";
        payload =
            ("tool", str obs.tool)
            ∷ ("arguments", obs.arguments)
            ∷ (
              "summary",
              str (clip 300 (py.text_of (json_or (str "") (field_of "summary" obs.result)))),
            )
            ∷ ("elapsed_ms", json_or null (field_of "elapsed_ms" obs.result))
            ∷ [];
      }
      else record {
        type = "tool_error";
        payload =
            ("tool", str obs.tool)
            ∷ ("arguments", obs.arguments)
            ∷ ("error", str obs.error)
            ∷ ("error_type", str (type_name obs.error_type))
            ∷ ("error_code", code_value obs.error_code)
            ∷ [];
      }

  pub tool_messages : List ToolCall → List Observation → List Message
  unfolding tool_message
  tool_messages (call ∷ calls) (obs ∷ observations) =
      tool_message call obs ∷ tool_messages calls observations
  tool_messages calls observations = []

  -- The update after all calls have run.
  pub executed_update : AgentState → List Observation × Totals → AgentState
  executed_update st ran = record st {
    messages = st.messages ++ tool_messages st.pending_tool_calls ran.0;
    pending_tool_calls = [];
    last_observations = ran.0;
    key_outputs = prune_key_outputs ran.1.key_outputs;
    selfheal_total = st.selfheal_total + ran.1.selfheal_used;
    tokens_used = ran.1.tokens;
  }

  -- The node once `gather` has all results.
  pub after_gather : AgentState → List (Result Observation) × Totals → Run W AgentState
  unfolding observation_event executed_update
  after_gather st ran = lift (λ w. (collected st.pending_tool_calls ran.0, w)) >>= λ observations.
      emit_all (map observation_event observations)
      >> pure (executed_update st (observations, ran.1))

  pub tool_executor_node : AgentState → Run W AgentState
  unfolding after_gather
  tool_executor_node st w =
      if is_empty st.pending_tool_calls
      then pure (record st { last_observations = [] }) w
      else if env.canceled st.task_id w
      then pure
          (record st {
            status = Status.canceled;
            needs_final = true;
            final_answer = "任务已被用户取消。";
            pending_tool_calls = [];
            last_observations = [];
          })
          w
      else (run_all st st.pending_tool_calls
              (record { key_outputs = st.key_outputs; tokens = st.tokens_used; selfheal_used = 0 })
            >>= after_gather st)
          w

-- ===== src/Graph/Calls.antt =====
-- app/graph/nodes.py: `_repair_args` and `_execute_call`, one call of a tool with the repair of its
-- arguments.
pub mod Bounded
use llm_agent_runtime.Prelude.{
  ℕ, zero, suc, ◌+◌, String, Bool, true, false, not, List, [], ◌∷◌, Option, none, some, str_eq,
  if◌then◌else◌, format,
}
use llm_agent_runtime.Prelude.Json.{Json, num, str, obj, Fields, end, field}
use llm_agent_runtime.Prelude.Python.{Python}
use llm_agent_runtime.Core.Errors.{ToolErrorCode, ToolExecutionError}
use llm_agent_runtime.Core.Llm.{ToolCall, Message, LlmResponse, Role, system, user}
use llm_agent_runtime.Tools.Registry.{
  escaped, ToolOutcome, returned, invalid, failed, ToolSpec, execute, find_tool, unknown_tool,
  validate,
}
use llm_agent_runtime.Graph.State.{
  AgentState, Settings, Event, Observation, ErrorType, validation, runtime,
}
use llm_agent_runtime.Graph.Prompts.{Prompts}
use llm_agent_runtime.Graph.Run.{escape, Result, ok, Env, Run, pure, lift, emit, fail, ◌>>=◌, ◌>>◌}
use llm_agent_runtime.Graph.Context.{plain_message, model_of}
use llm_agent_runtime.Graph.PlanText.{parse_json_loose}
use llm_agent_runtime.Graph.Retrying.{Retried, run_tool, retry_transient}

-- The three values that `_execute_call` returns.
pub record Executed : Type 0 where
  pub obs : Observation
  pub attempts : ℕ
  pub repair_tokens : ℕ

-- What the self-healing loop ends with.
pub data Healed : Type 0 where
  healed : (arguments : Json) → Fields → (attempts tokens : ℕ) → Healed
  broken : (arguments : Json) → ToolExecutionError → (attempts tokens : ℕ) → Healed
  unhealed : (arguments : Json) → (error : String) → (attempts tokens : ℕ) → Healed

unfoldable pub success : String → Json → Fields → Observation
success name arguments result = record {
  is_ok = true;
  tool = name;
  arguments = arguments;
  result = result;
  error = "";
  error_type = runtime;
  error_code = none;
}

unfoldable pub failure : String → Json → String → ErrorType → Option ToolErrorCode → Observation
failure name arguments error error_type error_code = record {
  is_ok = false;
  tool = name;
  arguments = arguments;
  result = end;
  error = error;
  error_type = error_type;
  error_code = error_code;
}

invalid_event : ToolCall → Json → String → ℕ → Event
invalid_event call args error attempt = record {
  type = "tool_validation_failed";
  payload =
      ("tool", str call.name)
      ∷ ("call_id", str call.id)
      ∷ ("arguments", args)
      ∷ ("error", str error)
      ∷ ("attempt", num attempt)
      ∷ [];
}

healed_event : ToolCall → Json → ℕ → Event
healed_event call args attempt = record {
  type = "selfheal_success";
  payload =
      ("tool", str call.name)
      ∷ ("call_id", str call.id)
      ∷ ("healed_arguments", args)
      ∷ ("attempt", num attempt)
      ∷ [];
}

-- The arguments that the answer holds, if they are an object that the schema admits.
fixed_of : {W : Type 0} → Python → ToolSpec W → LlmResponse → Option Json
fixed_of py spec resp = elim (parse_json_loose py resp.text) [
  | some (obj fs) ↦ elim (validate spec (obj fs)) [ none ↦ some (obj fs) | some e ↦ none ]
  | _ ↦ none
]

module _ {W : Type 0} (py : Python) (prompts : Prompts) (settings : Settings) (env : Env W) where
  repair_request : ToolSpec W → Json → String → List Message
  repair_request spec bad_args error =
      plain_message system prompts.repair_system
      ∷ plain_message user (
          py.dumps (
            obj (
              field "tool" (str spec.name) (
                field "description" (str spec.description) (
                  field "input_schema" spec.input_schema (
                    field "validation_error" (str error)
                      (field "original_arguments" bad_args end)))))))
      ∷ []

  -- The repaired arguments and the tokens spent; an unknown tool raises.
  pub repair_args : AgentState → String → Json → String → Run W (Option Json × ℕ)
  unfolding repair_request fixed_of
  repair_args st tool_name bad_args error = elim (find_tool env.tools tool_name) [
    | none ↦ fail (unknown_tool py env.tools tool_name).message
    | some spec ↦
        lift (env.chat (repair_request spec bad_args error) false (model_of settings st))
        >>= λ resp. pure (fixed_of py spec resp, resp.tokens_used)
  ]

  -- What a run of the tool on repaired arguments leads to; `again` is the rest of the loop.
  heal_outcome :
      (again : Json → String → Run W Healed)
      → ToolCall
      → Json
      → (attempts tokens : ℕ) → ToolOutcome
      → Run W Healed
  unfolding healed_event
  heal_outcome again call fixed attempts tokens (returned result) = do
    emit (healed_event call fixed attempts)
    pure (healed fixed result attempts tokens)
  heal_outcome again call fixed attempts tokens (invalid error) = again fixed error
  heal_outcome again call fixed attempts tokens (escaped x) = escape x
  heal_outcome again call fixed attempts tokens (failed e) = pure (broken fixed e attempts tokens)

  heal_repaired :
      (again : ℕ → Json → String → Run W Healed)
      → AgentState
      → ToolCall
      → Json
      → String
      → (attempts tokens : ℕ) → Option Json × ℕ
      → Run W Healed
  unfolding heal_outcome
  heal_repaired again st call args error attempts tokens (none, spent) =
      again (tokens + spent) args error
  heal_repaired again st call args error attempts tokens (some fixed, spent) =
      run_tool py settings env st.task_id call.name fixed
      >>= heal_outcome (again (tokens + spent)) call fixed attempts (tokens + spent)

  -- The self-healing loop, with `left` of its attempts to go.
  pub heal :
      AgentState → ToolCall → (left attempts tokens : ℕ) → Json → (last_err : String) → Run W Healed
  unfolding invalid_event heal_repaired
  heal st call zero attempts tokens args last_err = pure (unhealed args last_err attempts tokens)
  heal st call (suc left) attempts tokens args last_err =
      let again = heal st call left (attempts + 1) in
      emit (invalid_event call args last_err (attempts + 1))
      >> (repair_args st call.name args last_err
          >>= heal_repaired again st call args last_err (attempts + 1) tokens)

  retried_obs : ToolCall → Json → (attempts tokens : ℕ) → Retried → Executed
  retried_obs call args attempts tokens r = record {
    obs = elim r.result [
      | some result ↦ success call.name args result
      | none ↦ failure call.name args r.error runtime r.error_code
    ];
    attempts = attempts;
    repair_tokens = tokens;
  }

  -- A run error: retried, and the observation of what comes of it.
  retried :
      AgentState → ToolCall → Json → ToolExecutionError → (attempts tokens : ℕ) → Run W Executed
  unfolding retried_obs
  retried st call args e attempts tokens =
      retry_transient py settings env st.task_id call args e >>= λ r.
      pure (retried_obs call args attempts tokens r)

  -- What follows the self-healing loop.
  after_heal : AgentState → ToolCall → Healed → Run W Executed
  unfolding retried
  after_heal st call (healed args result attempts tokens) =
      pure (record {
        obs = success call.name args result;
        attempts = attempts;
        repair_tokens = tokens;
      })
  after_heal st call (broken args e attempts tokens) = retried st call args e attempts tokens
  after_heal st call (unhealed args error attempts tokens) = pure (record {
    obs = failure call.name args error validation (some ToolErrorCode.invalid_args);
    attempts = attempts;
    repair_tokens = tokens;
  })

  self_heal : AgentState → ToolCall → String → Run W Executed
  unfolding after_heal
  self_heal st call error =
      heal st call settings.max_selfheal_retries 0 0 call.arguments error >>= after_heal st call

  -- What the first run of the tool leads to.
  first_outcome : AgentState → ToolCall → ToolOutcome → Run W Executed
  unfolding self_heal retried
  first_outcome st call (returned result) =
      pure
        (record { obs = success call.name call.arguments result; attempts = 0; repair_tokens = 0 })
  first_outcome st call (invalid error) = self_heal st call error
  first_outcome st call (escaped x) = escape x
  first_outcome st call (failed e) = retried st call call.arguments e 0 0

  pub execute_call : AgentState → ToolCall → Run W Executed
  unfolding self_heal first_outcome
  execute_call st call =
      if not (str_eq call.args_parse_error "")
      then self_heal st call call.args_parse_error
      else run_tool py settings env st.task_id call.name call.arguments >>= first_outcome st call

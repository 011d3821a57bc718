-- ===== src/Graph/State.antt =====
-- app/graph/state.py: the state of a task, and the values that the nodes of app/graph/nodes.py pass
-- on. Every channel is overwritten whole, so a node returns the state after its update. The texts of
-- the state that are enumerations in the source are data types here.
use llm_agent_runtime.Prelude.{◌≡◌, ℕ, String, Bool, true, false, List, [], Option, Dict}
use llm_agent_runtime.Prelude.Json.{Json, Fields}
use llm_agent_runtime.Core.Errors.{ToolErrorCode}
use llm_agent_runtime.Core.Llm.{Message, ToolCall}
use llm_agent_runtime.Graph.Plan.{PlanStep}

-- `absent` is the empty text.
pub data Status : Type 0 where
  absent running done failed canceled budget_exceeded waiting_approval : Status

-- `status in (STATUS_RUNNING, "")`
abbrev pub is_live : Status → Bool
is_live Status.absent = true
is_live Status.running = true
is_live _ = false

pub data ErrorKind : Type 0 where
  no_error retryable plan_defect fatal : ErrorKind

pub data Mode : Type 0 where
  react plan_execute : Mode

abbrev pub is_plan_execute : Mode → Bool
is_plan_execute react = false
is_plan_execute plan_execute = true

pub data ErrorType : Type 0 where
  validation runtime : ErrorType

-- `result` is empty where the call failed; the three error fields are empty where it succeeded.
pub record Observation : Type 0 where
  pub is_ok : Bool
  pub tool : String
  pub arguments : Json
  pub result : Fields
  pub error : String
  pub error_type : ErrorType
  pub error_code : Option ToolErrorCode

pub record AgentState : Type 0 where
  pub task_id : String
  pub goal : String
  pub mode : Mode
  pub messages : List Message
  pub plan : List PlanStep
  pub current_step : ℕ
  pub plan_defect_streak : ℕ
  pub mode_switches : ℕ
  pub key_outputs : Dict String
  pub iterations : ℕ
  pub steps_used : ℕ
  pub tokens_used : ℕ
  pub max_steps : ℕ
  pub max_tokens : ℕ
  pub downgraded : Bool
  pub status : Status
  pub last_error : String
  pub error_kind : ErrorKind
  pub pending_tool_calls : List ToolCall
  pub last_observations : List Observation
  pub needs_final : Bool
  pub final_answer : String
  pub selfheal_total : ℕ
  pub require_approval : Bool
  pub approval_pending : Bool

-- The settings of app/config.py that the nodes read. Delays are milliseconds.
pub record Settings : Type 0 where
  pub llm_model : String
  pub llm_model_cheap : String
  pub compress_threshold_tokens : ℕ
  pub max_selfheal_retries : ℕ
  pub adaptive_downgrade_after_replans : ℕ
  pub max_mode_switches : ℕ
  pub retry_max_attempts : ℕ
  pub retry_base_delay_s : ℕ
  pub retry_max_delay_s : ℕ
  pub default_max_steps : ℕ

-- What `engine.emit` is called with.
pub record Event : Type 0 where
  pub type : String
  pub payload : List (String × Json)

abbrev pub init_state :
    (task_id goal : String) → Mode → (max_tokens max_steps : ℕ) → Bool → AgentState
init_state task_id goal mode max_tokens max_steps require_approval = record {
  task_id = task_id;
  goal = goal;
  mode = mode;
  messages = [];
  plan = [];
  current_step = 0;
  plan_defect_streak = 0;
  mode_switches = 0;
  key_outputs = [];
  iterations = 0;
  steps_used = 0;
  tokens_used = 0;
  max_steps = max_steps;
  max_tokens = max_tokens;
  downgraded = false;
  status = Status.running;
  last_error = "";
  error_kind = no_error;
  pending_tool_calls = [];
  last_observations = [];
  needs_final = false;
  final_answer = "";
  selfheal_total = 0;
  require_approval = require_approval;
  approval_pending = false;
}

-- The budget of steps and what is used of it are the same.
abbrev pub SameSteps : AgentState → AgentState → Type 0
SameSteps st st' = (st'.steps_used ≡ st.steps_used) × (st'.max_steps ≡ st.max_steps)

-- ===== src/Storage/Journal.antt =====
-- app/storage/repository.py: the table `tool_executions`, in which a call of a tool is claimed before it
-- runs and its result kept after. Each operation is one transaction; the unique constraint on the two
-- keys is what the insertion looks at. The JSON texts of the columns are the values they stand for.
pub mod Found
pub mod Claims
pub mod Replayed
pub mod Examples
use llm_agent_runtime.Prelude.{
  String, str_eq, Bool, true, false, ◌&&◌, List, [], ◌∷◌, ◌++◌, Option, none, some, if◌then◌else◌,
}
use llm_agent_runtime.Prelude.Json.{Json, Fields, end}
use llm_agent_runtime.Graph.State.{Observation, ErrorType, runtime}
use llm_agent_runtime.Graph.Run.{Claim, claimed, busy, recorded}

-- The column `error_type`: the mark of a claim whose tool still runs, or the type of a result.
pub data RowType : Type 0 where
  in_flight : RowType
  finished : ErrorType → RowType

pub record ToolExecution : Type 0 where
  pub task_id : String
  pub call_id : String
  pub tool : String
  pub arguments : Json
  pub is_ok : Bool
  pub result : Fields
  pub error : String
  pub error_type : RowType

abbrev pub Table : Type 0
Table = List ToolExecution

abbrev pub has_keys : String → String → ToolExecution → Bool
has_keys task_id call_id row = str_eq row.task_id task_id && str_eq row.call_id call_id

abbrev pub find_row : String → String → Table → Option ToolExecution
find_row task_id call_id [] = none
find_row task_id call_id (row ∷ rows) =
    if has_keys task_id call_id row then some row else find_row task_id call_id rows

-- The update of the first row with the two keys.
abbrev pub put_row : ToolExecution → Table → Table
put_row new [] = []
put_row new (row ∷ rows) =
    if has_keys new.task_id new.call_id row then new ∷ rows else row ∷ put_row new rows

-- `_tool_exec_dict`: there is no column for the error code.
pub tool_exec_dict : ToolExecution → ErrorType → Observation
tool_exec_dict row error_type = record {
  is_ok = row.is_ok;
  tool = row.tool;
  arguments = row.arguments;
  result = row.result;
  error = row.error;
  error_type = error_type;
  error_code = none;
}

placeholder : (task_id call_id tool : String) → Json → ToolExecution
placeholder task_id call_id tool arguments = record {
  task_id = task_id;
  call_id = call_id;
  tool = tool;
  arguments = arguments;
  is_ok = false;
  result = end;
  error = "执行中（占位）";
  error_type = in_flight;
}

row_of : (task_id call_id : String) → Observation → ToolExecution
row_of task_id call_id obs = record {
  task_id = task_id;
  call_id = call_id;
  tool = obs.tool;
  arguments = obs.arguments;
  is_ok = obs.is_ok;
  result = obs.result;
  error = obs.error;
  error_type = finished obs.error_type;
}

claim_of : ToolExecution → RowType → Claim
unfolding tool_exec_dict
claim_of row in_flight = busy
claim_of row (finished error_type) = recorded (tool_exec_dict row error_type)

replay_of : ToolExecution → RowType → Option Observation
unfolding tool_exec_dict
replay_of row in_flight = none
replay_of row (finished error_type) = some (tool_exec_dict row error_type)

pub get_tool_execution : (task_id call_id : String) → Table → Option Observation
unfolding replay_of
get_tool_execution task_id call_id table = elim (find_row task_id call_id table) [
  | none ↦ none
  | some row ↦ replay_of row row.error_type
]

pub try_claim_tool_execution : (task_id call_id tool : String) → Json → Table → Claim × Table
unfolding claim_of placeholder
try_claim_tool_execution task_id call_id tool arguments table =
    elim (find_row task_id call_id table) [
      | none ↦ (claimed, table ++ placeholder task_id call_id tool arguments ∷ [])
      | some row ↦ (claim_of row row.error_type, table)
    ]

completed : ToolExecution → RowType → Table → Table
completed new in_flight table = put_row new table
completed new (finished error_type) table = table

pub complete_tool_execution : (task_id call_id : String) → Observation → Table → Table
unfolding completed row_of
complete_tool_execution task_id call_id obs table = elim (find_row task_id call_id table) [
  | none ↦ table ++ row_of task_id call_id obs ∷ []
  | some row ↦ completed (row_of task_id call_id obs) row.error_type table
]

pub record_tool_execution : (task_id call_id : String) → Observation → Table → Table
unfolding row_of
record_tool_execution task_id call_id obs table = elim (find_row task_id call_id table) [
  | none ↦ table ++ row_of task_id call_id obs ∷ []
  | some row ↦ table
]

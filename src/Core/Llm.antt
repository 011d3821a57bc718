-- ===== src/Core/Llm.antt =====
-- app/core/llm.py: the messages, the answer of a model and the estimate of tokens.
pub mod Estimate
use Prim.Native.Char.{Char, code}
use Prim.Native.String
use llm_agent_runtime.Prelude.{
  ℕ, zero, ◌+◌, ◌-◌, ◌/◌, String, Bool, ◌&&◌, List, [], ◌∷◌, Option, none, some, leb, str_eq,
  text_length, if◌then◌else◌,
}
use llm_agent_runtime.Prelude.Json.{Json, obj, end, field_of}
use llm_agent_runtime.Prelude.Python.{Python}

pub data Role : Type 0 where
  system user assistant tool : Role

-- The calls of an assistant message are the dicts that `_assistant_message` of nodes.py writes.
pub record Message : Type 0 where
  pub role : Role
  pub content : String
  pub tool_calls : List Json
  pub tool_call_id : String
  pub name : String

-- `ToolCallRequest`
pub record ToolCall : Type 0 where
  pub id : String
  pub name : String
  pub arguments : Json
  pub args_parse_error : String

pub record LlmResponse : Type 0 where
  pub text : String
  pub tool_calls : List ToolCall
  pub model : String
  pub tokens_used : ℕ

is_cjk : Char → Bool
is_cjk ch = leb 0x4e00 (code ch) && leb (code ch) 0x9fff

-- `sum(1 for ch in text if ...)`
cjk_count : String → ℕ
unfolding is_cjk
cjk_count String.[] = 0
cjk_count (String.◌∷◌ ch s) = if is_cjk ch then 1 + cjk_count s else cjk_count s

pub estimate_tokens : String → ℕ
estimate_tokens text =
    if str_eq text "" then 0 else cjk_count text + (text_length text - cjk_count text) / 4 + 1

-- `tc.get("arguments", {})`
arguments_of : Json → Json
arguments_of (obj call) = elim (field_of "arguments" call) [ none ↦ obj end | some a ↦ a ]
arguments_of _ = obj end

unfoldable estimate_calls : Python → List Json → ℕ
unfolding arguments_of
estimate_calls py [] = 0
estimate_calls py (call ∷ calls) =
    estimate_tokens (py.dumps (arguments_of call)) + estimate_calls py calls

pub estimate_messages_tokens : Python → List Message → ℕ
estimate_messages_tokens py [] = 0
estimate_messages_tokens py (m ∷ messages) =
    estimate_tokens m.content
    + estimate_calls py m.tool_calls
    + estimate_messages_tokens py messages

unfoldable pub estimate_call_tokens : Python → List Message → String → ℕ
estimate_call_tokens py messages completion =
    estimate_messages_tokens py messages + estimate_tokens completion

-- ===== src/Core/Compressor.antt =====
-- app/core/compressor.py: a long history becomes a summary and its most recent messages.
pub mod Pairing
use llm_agent_runtime.Prelude.{
  ℕ, zero, suc, ◌+◌, ◌-◌, String, Bool, true, false, not, List, [], ◌∷◌, ◌++◌, map, Option, none,
  some, length, keep, last_n, take, ltb, str_eq, if◌then◌else◌, format, join, clip, Dict,
}
use llm_agent_runtime.Prelude.Python.{Python}
use llm_agent_runtime.Core.Llm.{
  Role, system, user, assistant, tool, Message, LlmResponse, estimate_messages_tokens,
}

abbrev pub keep_recent_window : ℕ
keep_recent_window = 6

unfoldable pub needs_compression : Python → List Message → ℕ → Bool
needs_compression py messages threshold_tokens =
    ltb threshold_tokens (estimate_messages_tokens py messages)

abbrev pub is_system : Role → Bool
is_system system = true
is_system _ = false

abbrev pub is_tool : Role → Bool
is_tool tool = true
is_tool _ = false

role_text : Role → String
role_text system = "system"
role_text user = "user"
role_text assistant = "assistant"
role_text tool = "tool"

-- The `while` loop: tool messages at the head of the window go back to the summarised part.
pub shift_orphans : List Message → List Message → List Message × List Message
shift_orphans mid [] = (mid, [])
shift_orphans mid (m ∷ recent) =
    let shifted = shift_orphans (mid ++ m ∷ []) recent in
    if is_tool m.role then shifted else (mid, m ∷ recent)

unfoldable pub trajectory : List Message → String
unfolding role_text
trajectory mid =
    join "\n" (map (λ m. format ("[" ∷ role_text m.role ∷ "] " ∷ clip 400 m.content ∷ [])) mid)

-- What `compress_messages` cuts out of a history: the system messages, what is summarised, and the
-- window.
pub split_history : List Message → List Message × List Message × List Message
split_history messages =
    let pinned = keep (λ m. is_system m.role) messages in
    let history = keep (λ m. not (is_system m.role)) messages in
    let recent = last_n keep_recent_window history in
    let (mid, window) = shift_orphans (take (length history - length recent) history) recent in
    (pinned, mid, window)

pub summary_message : String → Message
summary_message summary = record {
  role = user;
  content = format ("<先前执行摘要，由上下文压缩自动生成>\n" ∷ summary ∷ []);
  tool_calls = [];
  tool_call_id = "";
  name = "";
}

abbrev nothing_to_summarise : List Message → Bool
nothing_to_summarise [] = true
nothing_to_summarise (m ∷ mid) = false

-- The prompt of the summary, or `none` where the messages come back as they were.
unfoldable pub summary_request :
    Python → (String → String) → List Message → ℕ → Option (List Message)
summary_request py summary_prompt messages threshold_tokens =
    let (pinned, mid, recent) = split_history messages in
    if not (needs_compression py messages threshold_tokens)
    then none
    else if nothing_to_summarise mid
    then none
    else some (
        record {
          role = user;
          content = summary_prompt (trajectory mid);
          tool_calls = [];
          tool_call_id = "";
          name = "";
        }
        ∷ [])

-- The messages, the summary and its tokens, once the model has answered.
pub compressed_with : Python → List Message → LlmResponse → List Message × String × ℕ
compressed_with py messages resp =
    let (pinned, mid, recent) = split_history messages in
    let stripped = py.strip resp.text in
    let summary = if str_eq stripped "" then "（摘要生成失败，仅保留近期消息）" else stripped in
    (pinned ++ (summary_message summary ∷ recent), summary, resp.tokens_used)

key_line : String × String → String
key_line (k, v) = format ("- " ∷ k ∷ ": " ∷ v ∷ [])

unfoldable pub inject_key_outputs : String → Dict String → String
unfolding key_line
inject_key_outputs system_content [] = system_content
inject_key_outputs system_content (kv ∷ key_outputs) = format (
    system_content
    ∷ "\n\n[关键数据（已确认，不可压缩，直接引用）]\n"
    ∷ join "\n" (map key_line (kv ∷ key_outputs))
    ∷ [])

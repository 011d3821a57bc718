-- ===== src/Graph/Finisher.antt =====
-- app/graph/nodes.py: `compressor_node`, which keeps the history short, and `finisher_node`, which
-- ends a task.
pub mod Outcome
pub mod Steps
use llm_agent_runtime.Prelude.{
  ℕ, zero, suc, ◌+◌, ◌-◌, String, Bool, true, false, not, ◌&&◌, List, [], ◌∷◌, ◌++◌, map, Option,
  none, some, length, keep, last_n, ltb, leb, ◌==◌, str_eq, if◌then◌else◌, clip, format, join, Dict,
  max,
}
use llm_agent_runtime.Prelude.Json.{Json, Fields, num, str, obj, arr, bool, array, end, field}
use llm_agent_runtime.Prelude.Python.{Python}
use llm_agent_runtime.Core.Llm.{Role, system, user, Message, LlmResponse, estimate_messages_tokens}
use llm_agent_runtime.Core.Compressor.{needs_compression, summary_request, compressed_with}
use llm_agent_runtime.Graph.Plan.{PlanStep, StepStatus, is_done}
use llm_agent_runtime.Graph.State.{AgentState, Settings, Event, Status, is_plan_execute}
use llm_agent_runtime.Graph.Prompts.{Prompts}
use llm_agent_runtime.Graph.Context.{assemble_base, model_of, plain_message, step_status_text}
use llm_agent_runtime.Graph.Run.{Result, Env, Run, pure, asks, lift, emit, ◌>>=◌, ◌>>◌}

abbrev pub min_history_budget_tokens : ℕ
min_history_budget_tokens = 512

-- What is left for the history after the fixed part of the context; `-` stops at 0, below the minimum.
unfoldable pub history_threshold : Python → Prompts → Settings → String → AgentState → ℕ
history_threshold py prompts settings now st =
    max
      (settings.compress_threshold_tokens
        - estimate_messages_tokens py (assemble_base prompts now (record st { messages = [] })))
      min_history_budget_tokens

-- The event lists the keys of the key outputs in their order; the source sorts them.
unfoldable compressed_event : Python → AgentState → ℕ → ℕ → List Message → String → ℕ → Event
compressed_event py st overhead threshold compressed summary tokens = record {
  type = "context_compressed";
  payload =
      ("tokens_before", num (estimate_messages_tokens py st.messages))
      ∷ ("tokens_after", num (estimate_messages_tokens py compressed))
      ∷ ("fixed_overhead_tokens", num overhead)
      ∷ ("effective_history_threshold", num threshold)
      ∷ ("summary", str (clip 300 summary))
      ∷ ("llm_tokens", num tokens)
      ∷ ("key_outputs_retained", arr (array (map (λ kv. str kv.0) st.key_outputs)))
      ∷ [];
}

module _ {W : Type 0} (py : Python) (prompts : Prompts) (settings : Settings) (env : Env W) where
  compress_with : String → AgentState → List Message → Run W AgentState
  compress_with now st request = do
    resp ← lift (env.chat request false (model_of settings st))
    let result = compressed_with py st.messages resp
    emit (
        compressed_event py st
          (estimate_messages_tokens py (assemble_base prompts now (record st { messages = [] })))
          (history_threshold py prompts settings now st) result.0 result.1 result.2)
    pure (record st { messages = result.0; tokens_used = st.tokens_used + result.2 })

  -- The node once it is known what to send; `none` is a history that is short enough.
  compress_if : String → AgentState → Option (List Message) → Run W AgentState
  unfolding compress_with
  compress_if now st none = pure st
  compress_if now st (some request) = compress_with now st request

  unfoldable pub compressor_node : AgentState → Run W AgentState
  unfolding compressed_event compress_with compress_if
  compressor_node st = do
    now ← asks env.now_context
    compress_if now st (
        summary_request py prompts.summary st.messages
          (history_threshold py prompts settings now st))

key_data : Dict String → String
key_data key_outputs = join "\n" (map (λ kv. format ("- " ∷ kv.0 ∷ ": " ∷ kv.1 ∷ [])) key_outputs)

abbrev or_text : String → String → String
or_text s default = if str_eq s "" then default else s

-- `len(plan) or steps_used`
abbrev total_count : AgentState → ℕ
total_count st = if length st.plan == 0 then st.steps_used else length st.plan

budget_answer : Prompts → AgentState → String
unfolding key_data
budget_answer prompts st =
    prompts.budget_exceeded st.last_error (length (keep (λ p. is_done p.status) st.plan))
      (total_count st) (or_text (key_data st.key_outputs) "（无）")

step_result : PlanStep → String
step_result p = format (
    "- ["
    ∷ unfold step_status_text in
      step_status_text p.status ∷ "] " ∷ p.description ∷ "：" ∷ clip 200 p.result ∷ [])

key_fields : Dict String → Fields
key_fields [] = end
key_fields ((k, v) ∷ d) = field k (str v) (key_fields d)

unfoldable finish_request : Python → Prompts → String → AgentState → List Message
unfolding step_result key_fields
finish_request py prompts now st =
    plain_message system (format (prompts.finish_system ∷ now ∷ []))
    ∷ plain_message user (
        py.dumps (
          obj (
            field "goal" (str st.goal) (
              field "key_outputs" (obj (key_fields st.key_outputs)) (
                field "step_results" (str (join "\n" (map step_result st.plan))) (
                  field "recent"
                    (arr (array (map (λ m. str (clip 200 m.content)) (last_n 4 st.messages))))
                    end))))))
    ∷ []

unfoldable done_event : List (String × Json) → Event
done_event payload = record { type = "task_done"; payload = payload }

unfoldable tokens_event : ℕ → Event
tokens_event delta = record { type = "tokens"; payload = ("delta", num delta) ∷ [] }

module _ {W : Type 0} (py : Python) (prompts : Prompts) (settings : Settings) (env : Env W) where
  deliver : AgentState → String → ℕ → Run W AgentState
  deliver st answer tokens = do
    emit (done_event (("degraded", bool false) ∷ ("answer_preview", str (clip 200 answer)) ∷ []))
    pure (record st { final_answer = answer; status = Status.done; tokens_used = tokens })

  -- The ending of a task that was neither canceled nor failed nor stopped by its budget.
  pub complete : AgentState → Run W AgentState
  unfolding deliver
  complete st =
      if st.needs_final && (not (str_eq st.final_answer "") && not (is_plan_execute st.mode))
      then deliver st st.final_answer st.tokens_used
      else do
        now ← asks env.now_context
        resp ← lift (env.chat (finish_request py prompts now st) false (model_of settings st))
        emit (tokens_event resp.tokens_used)
        deliver st resp.text (st.tokens_used + resp.tokens_used)

  by_status : Status → AgentState → Run W AgentState
  unfolding budget_answer
  by_status Status.canceled st = do
    emit (record { type = "task_canceled"; payload = [] })
    pure (record st { status = Status.canceled; final_answer = or_text st.final_answer "任务已被取消。" })
  by_status Status.failed st = do
    emit (record { type = "task_failed"; payload = ("error", str (clip 300 st.last_error)) ∷ [] })
    pure (record st { final_answer = format ("任务失败：" ∷ st.last_error ∷ []) })
  by_status Status.budget_exceeded st = do
    emit (done_event (("degraded", bool true) ∷ []))
    pure (record st { final_answer = budget_answer prompts st })
  by_status _ st = complete st

  pub finisher_node : AgentState → Run W AgentState
  unfolding by_status
  finisher_node st = by_status st.status st

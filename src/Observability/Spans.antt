-- ===== src/Observability/Spans.antt =====
-- app/observability/spans.py: the buffer of the spans that are closed, and the time that a span spent
-- itself. The lock makes each operation of the buffer one step. Durations are milliseconds.
pub mod Drained
use llm_agent_runtime.Prelude.{
  ℕ, zero, suc, ◌+◌, ◌-◌, String, str_eq, Bool, true, false, not, List, [], ◌∷◌, ◌++◌,
  if◌then◌else◌, length, keep, leb, Dict, insert,
}
use llm_agent_runtime.Storage.Spans.{SpanRow}

-- `_SpanBuffer`
pub record Buffer : Type 0 where
  pub pending : List SpanRow
  pub max_pending : ℕ

-- `self._pending.pop(0)`; Python raises on an empty list, which a `max_pending` of 0 would come to.
abbrev pub without_oldest : List SpanRow → List SpanRow
without_oldest [] = []
without_oldest (s ∷ ss) = ss

unfoldable pub add : SpanRow → Buffer → Buffer
add span b =
    let kept =
      if leb b.max_pending (length b.pending) then without_oldest b.pending else b.pending in
    record b { pending = kept ++ span ∷ [] }

abbrev pub of_task : String → SpanRow → Bool
of_task task_id s = str_eq s.task_id task_id

unfoldable pub drain_for : String → Buffer → List SpanRow × Buffer
drain_for task_id b = (
  keep (of_task task_id) b.pending,
  record b { pending = keep (λ s. not (of_task task_id s)) b.pending },
)

unfoldable pub drain : Buffer → List SpanRow × Buffer
drain b = (b.pending, record b { pending = [] })

-- The durations of the spans right below a span.
abbrev pub below : String → List SpanRow → ℕ
below span_id [] = 0
below span_id (s ∷ ss) =
    let rest = below span_id ss in
    if str_eq s.parent_span_id span_id then s.duration_ms + rest else rest

abbrev own_times : List SpanRow → List SpanRow → Dict ℕ → Dict ℕ
own_times spans [] out = out
own_times spans (s ∷ ss) out =
    own_times spans ss (insert s.span_id (s.duration_ms - below s.span_id spans) out)

-- `max(0.0, own)`
unfoldable pub self_time_ms : List SpanRow → Dict ℕ
self_time_ms spans = own_times spans spans []

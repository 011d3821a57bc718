-- ===== src/Graph/Engine/Spans.antt =====
-- app/graph/engine.py: `flush_spans`, which stores the spans of a task that are closed, up to a limit. The
-- buffer of app/observability/spans.py hands over the spans of the task; a limit of 0 stands for every
-- `spans_max_per_task` that is not positive.
pub mod Capped
use llm_agent_runtime.Prelude.{
  ℕ, ◌+◌, ◌-◌, String, str_eq, Bool, true, false, ◌&&◌, not, List, [], ◌∷◌, if◌then◌else◌, length,
  take, keep, ltb, ◌==◌, Dict, lookup_or, insert,
}
use llm_agent_runtime.Storage.Spans.{SpanRow, SpanTable, record_spans}

-- `self._span_counts`, and the table behind the sink
pub record Flushed : Type 0 where
  pub counts : Dict ℕ
  pub table : SpanTable

-- `s.get("trace_id") != "-"`
abbrev pub has_trace : SpanRow → Bool
has_trace s = not (str_eq s.trace_id "-")

abbrev pub cut : (limit used : ℕ) → List SpanRow → List SpanRow
cut limit used pending =
    if ltb 0 limit && ltb limit (used + length pending)
    then take (limit - used) pending
    else pending

-- `fails` says that the sink raises: the spans are lost. The result is the number of spans written.
unfoldable pub flush_spans :
    (limit : ℕ) → (fails : Bool) → String → (drained : List SpanRow) → Flushed → ℕ × Flushed
unfolding record_spans
flush_spans limit fails task_id drained f =
    let used = lookup_or 0 task_id f.counts in
    let pending = cut limit used (keep has_trace drained) in
    if (length pending == 0) then (0, f) else if fails then (0, f) else (
      length pending,
      record {
        counts = insert task_id (used + length pending) f.counts;
        table = record_spans pending f.table;
      },
    )

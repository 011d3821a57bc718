-- ===== src/Storage/Spans.antt =====
-- app/storage/models.py and app/storage/repository.py: the table `spans`, in the order of insertion.
-- Times are numbers of milliseconds.
use llm_agent_runtime.Prelude.{
  ℕ, String, str_eq, Bool, true, ◌&&◌, List, [], ◌∷◌, ◌++◌, if◌then◌else◌, keep, leb,
}
use llm_agent_runtime.Prelude.Json.{Json}

pub record SpanRow : Type 0 where
  pub trace_id : String
  pub span_id : String
  pub parent_span_id : String
  pub kind : String
  pub name : String
  pub task_id : String
  pub start_ts : ℕ
  pub end_ts : ℕ
  pub duration_ms : ℕ
  pub status : String
  pub attributes : Json

abbrev pub SpanTable : Type 0
SpanTable = List SpanRow

unfoldable pub record_spans : List SpanRow → SpanTable → SpanTable
record_spans spans table = table ++ spans

unfoldable pub record_span : SpanRow → SpanTable → SpanTable
record_span span table = table ++ span ∷ []

-- `order_by(Span.start_ts, Span.id)`: the earlier row first among those that start together.
abbrev pub place_span : SpanRow → SpanTable → SpanTable
place_span s [] = s ∷ []
place_span s (t ∷ ts) = if leb s.start_ts t.start_ts then s ∷ t ∷ ts else t ∷ place_span s ts

abbrev pub by_start : SpanTable → SpanTable
by_start [] = []
by_start (s ∷ ss) = place_span s (by_start ss)

-- `if kind: stmt = stmt.where(Span.kind == kind)`
abbrev pub of_kind : String → SpanRow → Bool
of_kind kind s = if str_eq kind "" then true else str_eq s.kind kind

unfoldable pub get_spans : (trace_id kind : String) → SpanTable → SpanTable
get_spans trace_id kind table =
    by_start (keep (λ s. str_eq s.trace_id trace_id && of_kind kind s) table)

unfoldable pub get_spans_by_task : (task_id kind : String) → SpanTable → SpanTable
get_spans_by_task task_id kind table =
    by_start (keep (λ s. str_eq s.task_id task_id && of_kind kind s) table)

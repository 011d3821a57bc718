-- ===== src/Observability/Examples.antt =====
-- app/observability/spans.py at concrete values.
use llm_agent_runtime.Prelude.{◌≡◌, String, List, [], ◌∷◌, ◌++◌, keep, arith, refl}
use llm_agent_runtime.Prelude.Json.{null}
use llm_agent_runtime.Storage.Spans.{SpanRow}
use llm_agent_runtime.Observability.Spans.{Buffer, of_task, drain_for}
use llm_agent_runtime.Observability.Spans.Drained.{Move, adds, drains, added, plays, drain_for-own}

abbrev closed : String → SpanRow
closed task_id = record {
  trace_id = "a";
  span_id = "s1";
  parent_span_id = "";
  kind = "tool";
  name = "search";
  task_id = task_id;
  start_ts = 3;
  end_ts = 8;
  duration_ms = 5;
  status = "ok";
  attributes = null;
}

abbrev buffer : Buffer
buffer = record { pending = closed "t1" ∷ []; max_pending = 4 }

abbrev moves : List Move
moves = adds (closed "t2") ∷ adds (closed "t1") ∷ drains "t2" ∷ []

drain_for-own_example :
    (drain_for "t1" (plays moves buffer)).0 ≡ keep (of_task "t1") (buffer.pending ++ added moves)
drain_for-own_example = drain_for-own "t1" moves buffer (refl, tt) (omega arith)

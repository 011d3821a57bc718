-- ===== src/Graph/Engine/Examples.antt =====
-- app/graph/engine.py at concrete values, in the world of `Graph/Fixtures`.
use llm_agent_runtime.Prelude.{
  length, false, ◌+◌, ◌-◌, ◌*◌, ◌≡◌, arith, [], ◌∷◌, some, true, lookup_or,
}
use llm_agent_runtime.Graph.State.{AgentState, Event}
use llm_agent_runtime.Graph.Engine.{supersteps, start_at}
use llm_agent_runtime.Graph.Engine.Ends.{HasEnded, supersteps_enough}
use llm_agent_runtime.Storage.Events.{EventTable, get_events, get_max_event_seq}
use llm_agent_runtime.Storage.Events.Numbers.{row_at, rows_from}
use llm_agent_runtime.Graph.Engine.Sequence.{Seqs, stored, seed_seq, run_events}
use llm_agent_runtime.Graph.Engine.Sequence.Visible.{run_events-visible}
use llm_agent_runtime.Prelude.Json.{null}
use llm_agent_runtime.Storage.Spans.{SpanRow}
use llm_agent_runtime.Graph.Engine.Spans.{Flushed, flush_spans}
use llm_agent_runtime.Graph.Engine.Spans.Capped.{WithinCap, flush_spans-WithinCap}
use llm_agent_runtime.Observability.Spans.{Buffer, drain_for}
use llm_agent_runtime.Graph.Fixtures.{py, prompts, settings, env, start}

abbrev small : AgentState
small = record start { max_steps = 20 }

supersteps_enough_example : HasEnded (
    supersteps py prompts settings env
      (λ n. some true)
      (5 * (small.max_steps - small.steps_used) + 3)
      (start_at py prompts settings env (λ n. some true) small 0))
supersteps_enough_example = supersteps_enough py prompts settings env (λ n. some true) small 0

abbrev thought : Event
thought = record { type = "thought"; payload = [] }

-- A task with two events, one of which another engine has stored, and an event of another task.
abbrev table : EventTable
table = row_at "t1" "a" 1 thought ∷ row_at "t2" "b" 9 thought ∷ row_at "t1" "a" 2 thought ∷ []

run_events-visible_example :
    let last = get_max_event_seq "t1" table in
    let n = lookup_or 0 "t1" (seed_seq "t1" (stored last) []) in
    (seqs' : Seqs) × (table' : EventTable) × (run_events "t1" "c" (thought ∷ thought ∷ []) [] table
      ≡ some (seqs', table'))
    × (get_events "t1" (some last) table' ≡ rows_from "t1" "c" n (thought ∷ thought ∷ []))
run_events-visible_example = run_events-visible "t1" "c" (thought ∷ thought ∷ []) [] table

abbrev closed : SpanRow
closed = record {
  trace_id = "a";
  span_id = "s1";
  parent_span_id = "";
  kind = "tool";
  name = "search";
  task_id = "t1";
  start_ts = 3;
  end_ts = 8;
  duration_ms = 5;
  status = "ok";
  attributes = null;
}

-- One span was there before the process started, and it has stored none since.
abbrev flushed : Flushed
flushed = record { counts = []; table = closed ∷ [] }

flushed-WithinCap : WithinCap 2 (closed ∷ []) flushed
flushed-WithinCap j = (omega arith, omega arith)

abbrev buffer : Buffer
buffer = record { pending = closed ∷ closed ∷ closed ∷ []; max_pending = 10 }

flush_spans-WithinCap_example :
    let r = flush_spans 2 false "t1" (drain_for "t1" buffer).0 flushed in
    WithinCap 2 (closed ∷ []) r.1 × (length r.1.table ≡ length flushed.table + r.0)
flush_spans-WithinCap_example =
    flush_spans-WithinCap 2 false "t1" buffer (closed ∷ []) flushed (omega arith) flushed-WithinCap

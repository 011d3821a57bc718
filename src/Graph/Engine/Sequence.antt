-- ===== src/Graph/Engine/Sequence.antt =====
-- app/graph/engine.py: the numbers of the events, `_seed_seq` and `emit`, with the database of
-- `app/storage/repository.py` as the sink.
pub mod Visible
use llm_agent_runtime.Prelude.{
  ℕ, zero, suc, ◌+◌, ◌≤◌, ◌<◌, String, str_eq, Bool, List, [], ◌∷◌, ◌++◌, Option, none, some,
  if◌then◌else◌, ltb, Dict, lookup_or, insert,
}
use llm_agent_runtime.Graph.State.{Event}
use llm_agent_runtime.Storage.Events.{EventRow, EventTable, append_event, get_max_event_seq}

-- `self._seqs`
abbrev pub Seqs : Type 0
Seqs = Dict ℕ

-- What `journal.get_max_event_seq` gives: there is no journal, it raises, or a number.
pub data Stored : Type 0 where
  no_journal unreadable : Stored
  stored : ℕ → Stored

unfoldable pub seed_seq : String → Stored → Seqs → Seqs
seed_seq task_id no_journal seqs = seqs
seed_seq task_id unreadable seqs = seqs
seed_seq task_id (stored n) seqs =
    if ltb (lookup_or 0 task_id seqs) n then insert task_id n seqs else seqs

-- The event that `emit` hands to the sink, and the counters after it.
unfoldable pub numbered : (task_id trace_id : String) → Event → Seqs → EventRow × Seqs
numbered task_id trace_id event seqs =
    let n = lookup_or 0 task_id seqs + 1 in
    (
      record { task_id = task_id; seq = n; trace_id = trace_id; event = event },
      insert task_id n seqs,
    )

-- `emit`, with the table as the sink; `none` is the exception of the unique index.
abbrev stored_with : Seqs → Option EventTable → Option (Seqs × EventTable)
stored_with seqs none = none
stored_with seqs (some table) = some (seqs, table)

unfoldable pub emit :
    (task_id trace_id : String) → Event → Seqs → EventTable → Option (Seqs × EventTable)
unfolding numbered append_event
emit task_id trace_id event seqs table =
    let (row, seqs') = numbered task_id trace_id event seqs in
    stored_with seqs' (append_event row table)

-- The events of one run of the engine, in the order in which it emits them.
pub emit_all :
    (task_id trace_id : String) → List Event → Seqs → EventTable → Option (Seqs × EventTable)
unfolding emit numbered append_event
emit_all task_id trace_id [] seqs table = some (seqs, table)
emit_all task_id trace_id (e ∷ es) seqs table = elim (emit task_id trace_id e seqs table) [
  | none ↦ none
  | some next ↦ emit_all task_id trace_id es next.0 next.1
]

-- A run that starts, or goes on, on an engine: the counter is seeded from the table, then the events.
unfoldable pub run_events :
    (task_id trace_id : String) → List Event → Seqs → EventTable → Option (Seqs × EventTable)
unfolding seed_seq get_max_event_seq emit_all
run_events task_id trace_id events seqs table =
    emit_all task_id trace_id events
      (seed_seq task_id (stored (get_max_event_seq task_id table)) seqs) table

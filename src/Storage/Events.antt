-- ===== src/Storage/Events.antt =====
-- app/storage/models.py and app/storage/repository.py: the table `events`, whose unique index is on
-- `(task_id, seq)`. Rows stand in the order of insertion. `get_events` leaves out `ts`, and `seq` counts
-- from 1, so that a subscription to everything, `after_seq=-1`, is `none`.
pub mod Numbers
use llm_agent_runtime.Prelude.{
  ℕ, zero, suc, ◌+◌, ◌≤◌, String, str_eq, Bool, true, false, ◌&&◌, List, [], ◌∷◌, ◌++◌, Option,
  none, some, if◌then◌else◌, max, keep, any, ltb, leb, ◌==◌, Dict, lookup_or, insert,
}
use llm_agent_runtime.Graph.State.{Event}

pub record EventRow : Type 0 where
  pub task_id : String
  pub seq : ℕ
  pub trace_id : String
  pub event : Event

abbrev pub EventTable : Type 0
EventTable = List EventRow

abbrev pub of_task : String → EventRow → Bool
of_task task_id e = str_eq e.task_id task_id

abbrev pub same_key : EventRow → EventRow → Bool
same_key new e = of_task new.task_id e && (e.seq == new.seq)

-- `none` is the `IntegrityError` of the unique index.
unfoldable pub append_event : EventRow → EventTable → Option EventTable
append_event new table = if any (same_key new) table then none else some (table ++ new ∷ [])

-- `Event.seq > after_seq`
abbrev pub is_after : Option ℕ → EventRow → Bool
is_after none e = true
is_after (some after_seq) e = ltb after_seq e.seq

-- `order_by(Event.seq)`
abbrev pub place_event : EventRow → EventTable → EventTable
place_event e [] = e ∷ []
place_event e (f ∷ fs) = if leb e.seq f.seq then e ∷ f ∷ fs else f ∷ place_event e fs

abbrev pub by_seq : EventTable → EventTable
by_seq [] = []
by_seq (e ∷ es) = place_event e (by_seq es)

unfoldable pub get_events : String → (after_seq : Option ℕ) → EventTable → EventTable
get_events task_id after_seq table =
    by_seq (keep (λ e. of_task task_id e && is_after after_seq e) table)

abbrev pub max_seq : EventTable → ℕ
max_seq [] = 0
max_seq (e ∷ es) = max e.seq (max_seq es)

unfoldable pub get_max_event_seq : String → EventTable → ℕ
get_max_event_seq task_id table = max_seq (keep (of_task task_id) table)

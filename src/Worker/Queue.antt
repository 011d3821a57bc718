-- ===== src/Worker/Queue.antt =====
-- app/worker/local_queue.py: `LocalTaskQueue`. Its coroutines give way only at their awaits, so that what
-- happens between is a move: a submission, a turn of the consume loop, and each part of `_execute` up to
-- its next await. What the engine makes of a task comes with the move that ends the run.
pub mod Shifts
pub mod Known
pub mod Steps
pub mod Once
use llm_agent_runtime.Prelude.{
  ℕ, zero, suc, ◌+◌, ◌-◌, String, str_eq, Bool, true, false, ◌&&◌, not, List, [], ◌∷◌, ◌++◌, Option,
  none, some, if◌then◌else◌, ltb, ◌==◌, any, keep, count, Dict, lookup, insert, remove,
}
use llm_agent_runtime.Graph.State.{AgentState, Status}
use llm_agent_runtime.Storage.Tasks.{
  Task, Tasks, TaskStatus, queued, running, resuming, waiting_approval, done, failed, canceled,
  budget_exceeded, TaskField, set_status, set_result, set_error, set_tokens_used, set_steps_used,
  set_selfheal_count, set_duration, set_downgraded, update_task, get_task, fail_interrupted_tasks,
}

-- Where a coroutine of `_execute` stands: created, in the queue of the semaphore, and with a place of the
-- semaphore before `get_task`, after it, before the update to `running` or to `failed`, within the call of
-- the engine; and at its end.
pub data Stage : Type 0 where
  starting waiting looking found preparing failing holding over : Stage

abbrev pub is_live : Stage → Bool
is_live over = false
is_live _ = true

-- The coroutine is within `async with self._sem`.
abbrev pub has_place : Stage → Bool
has_place starting = false
has_place waiting = false
has_place over = false
has_place _ = true

abbrev pub order : Stage → ℕ
order starting = 0
order waiting = 1
order looking = 2
order found = 3
order preparing = 4
order failing = 5
order holding = 6
order over = 7

abbrev pub is_at : Stage → Stage → Bool
is_at was s = order s == order was

-- An `asyncio.Task` of `_execute`; `resume` is there for a resumption, with the decision if there is one.
pub record Run : Type 0 where
  pub handle : ℕ
  pub task_id : String
  pub resume : Option (Option Bool)
  pub stage : Stage

-- `taken` holds the trace that each coroutine has taken, by its handle.
pub record Queue : Type 0 where
  pub waiting_ids : List String
  pub traces : Dict (Option String)
  pub taken : List (ℕ × Option String)
  pub registered : Dict ℕ
  pub runs : List Run
  pub next_handle : ℕ
  pub free : ℕ
  pub closing : Bool
  pub has_engine : Bool
  pub canceled_ids : List String
  pub tasks : Tasks

unfoldable pub new_queue : (max_concurrent_tasks : ℕ) → Bool → Tasks → Queue
new_queue max_concurrent_tasks has_engine tasks = record {
  waiting_ids = [];
  traces = [];
  taken = [];
  registered = [];
  runs = [];
  next_handle = 0;
  free = max_concurrent_tasks;
  closing = false;
  has_engine = has_engine;
  canceled_ids = [];
  tasks = tasks;
}

-- `start`, in the local mode
unfoldable pub start : (now : ℕ) → Queue → Queue
unfolding fail_interrupted_tasks
start now q = record q { tasks = (fail_interrupted_tasks "服务重启导致任务中断（可从断点恢复）" now q.tasks).1 }

-- `self.repo.update_task(task_id, ...)`
unfoldable pub updates : String → List TaskField → (now : ℕ) → Queue → Queue
unfolding update_task
updates task_id fields now q = record q { tasks = (update_task task_id fields now q.tasks).1 }

unfoldable pub submit : String → (traceparent : Option String) → (now : ℕ) → Queue → Queue
submit task_id traceparent now q = record (updates task_id (set_status queued ∷ []) now q) {
  traces = insert task_id traceparent q.traces;
  waiting_ids = q.waiting_ids ++ task_id ∷ [];
}

-- `not old.done()`
abbrev pub runs_still : ℕ → List Run → Bool
runs_still handle runs = any (λ r. (r.handle == handle) && is_live r.stage) runs

abbrev pub is_registered : Option ℕ → List Run → Bool
is_registered none runs = false
is_registered (some handle) runs = runs_still handle runs

-- `_spawn`; the coroutine that it makes a task of runs its first line in a later turn.
unfoldable pub spawn : String → (resume : Option (Option Bool)) → Queue → Queue
spawn task_id resume q =
    if is_registered (lookup task_id q.registered) q.runs
    then record q { traces = remove task_id q.traces }
    else record q {
      registered = insert task_id q.next_handle q.registered;
      next_handle = q.next_handle + 1;
      runs =
          q.runs
          ++ record { handle = q.next_handle; task_id = task_id; resume = resume; stage = starting }
            ∷ [];
    }

-- `submit_resume`
unfoldable pub submit_resume : String → (resume_value : Option Bool) → Queue → Queue
unfolding spawn
submit_resume task_id resume_value q = spawn task_id (some resume_value) q

abbrev pub consumed : List String → Queue → Queue
unfolding spawn
consumed [] q = q
consumed (task_id ∷ ids) q = spawn task_id none (record q { waiting_ids = ids })

-- A turn of `_consume_loop`.
unfoldable pub consume : Queue → Queue
unfolding consumed
consume q = if q.closing then q else consumed q.waiting_ids q

abbrev pub is_some {ℓ} : {A : Type ℓ} → Option A → Bool
is_some none = false
is_some (some a) = true

-- `cancel`: the engine is asked to stop a task that is registered.
unfoldable pub cancel : String → Queue → Bool × Queue
cancel task_id q =
    if q.has_engine && is_some (lookup task_id q.registered)
    then (true, record q { canceled_ids = task_id ∷ q.canceled_ids })
    else (false, q)

-- The first run with a handle that is at a stage goes on to another.
abbrev pub shift : ℕ → (Stage → Bool) → Stage → List Run → List Run
shift handle here stage [] = []
shift handle here stage (r ∷ rs) =
    if (r.handle == handle) && here r.stage
    then record r { stage = stage } ∷ rs
    else r ∷ shift handle here stage rs

abbrev pub find_run : ℕ → (Stage → Bool) → List Run → Option Run
find_run handle here [] = none
find_run handle here (r ∷ rs) =
    if (r.handle == handle) && here r.stage then some r else find_run handle here rs

-- `self._traces.pop(task_id, None)`
abbrev popped : Option (Option String) → Option String
popped none = none
popped (some t) = t

abbrev begun : Queue → Option Run → Queue
begun q none = q
begun q (some r) = record q {
  taken = (r.handle, popped (lookup r.task_id q.traces)) ∷ q.taken;
  traces = remove r.task_id q.traces;
  runs = shift r.handle (is_at starting) waiting q.runs;
}

-- The first turn of the coroutine with this handle.
unfoldable pub begin : (handle : ℕ) → Queue → Queue
begin handle q = begun q (find_run handle (is_at starting) q.runs)

abbrev entered : Queue → Option Run → Queue
entered q none = q
entered q (some r) = record q {
  runs = shift r.handle (is_at waiting) looking q.runs;
  free = q.free - 1;
}

-- `async with self._sem`, for the run with this handle, if a place is free.
unfoldable pub enter : (handle : ℕ) → Queue → Queue
enter handle q = if ltb 0 q.free then entered q (find_run handle (is_at waiting) q.runs) else q

-- A run without its task ends at once.
abbrev pub seen : Run → Queue → Option Task → Queue
seen r q none = record q { runs = shift r.handle (is_at looking) over q.runs; free = q.free + 1 }
seen r q (some t) = record q { runs = shift r.handle (is_at looking) found q.runs; free = q.free }

abbrev pub looked : Queue → Option Run → Queue
unfolding get_task
looked q none = q
looked q (some r) = seen r q (get_task r.task_id none q.tasks)

-- `await self.repo.get_task(task_id)`
unfoldable pub look : (handle : ℕ) → Queue → Queue
unfolding looked
look handle q = looked q (find_run handle (is_at looking) q.runs)

abbrev prepared : Queue → Option Run → Queue
prepared q none = q
prepared q (some r) =
    if q.has_engine
    then record q {
      runs = shift r.handle (is_at found) preparing q.runs;
      free = q.free;
      canceled_ids = keep (λ id. not (str_eq id r.task_id)) q.canceled_ids;
    }
    else record q { runs = shift r.handle (is_at found) failing q.runs; free = q.free }

-- What the coroutine does with the row that it has: `clear_cancel`, if there is an engine.
unfoldable pub prepare : (handle : ℕ) → Queue → Queue
prepare handle q = prepared q (find_run handle (is_at found) q.runs)

abbrev marked : (now : ℕ) → Queue → Option Run → Queue
marked now q none = q
marked now q (some r) = record (updates r.task_id (set_status running ∷ []) now q) {
  runs = shift r.handle (is_at preparing) holding q.runs;
  free = q.free;
}

-- `await self.repo.update_task(task_id, status="running")`, and the call of the engine begins.
unfoldable pub mark : (handle now : ℕ) → Queue → Queue
mark handle now q = marked now q (find_run handle (is_at preparing) q.runs)

abbrev given_up : (now : ℕ) → Queue → Option Run → Queue
given_up now q none = q
given_up now q (some r) =
    record (updates r.task_id (set_status failed ∷ set_error "引擎未初始化" ∷ []) now q) {
      runs = shift r.handle (is_at failing) over q.runs;
      free = q.free + 1;
    }

-- The update of a run that has found no engine, and its end.
unfoldable pub give_up : (handle now : ℕ) → Queue → Queue
give_up handle now q = given_up now q (find_run handle (is_at failing) q.runs)

-- What the call of the engine comes to.
pub data Outcome : Type 0 where
  returned : AgentState → Outcome
  interrupted : Outcome
  crashed : String → Outcome

-- `final.get("status", "done")`. A final state always has a status that the finisher has written; the empty
-- one of a state that no node has touched, which the engine counts as `done` in its metrics only, has no
-- place among the statuses of a row, and stands as `done`.
abbrev pub status_of : Status → TaskStatus
status_of Status.absent = done
status_of Status.running = running
status_of Status.done = done
status_of Status.failed = failed
status_of Status.canceled = canceled
status_of Status.budget_exceeded = budget_exceeded
status_of Status.waiting_approval = waiting_approval

abbrev pub outcome_fields : Outcome → (duration : ℕ) → List TaskField
outcome_fields (returned st) duration =
    set_status (status_of st.status)
    ∷ set_result st.final_answer
    ∷ set_error st.last_error
    ∷ set_tokens_used st.tokens_used
    ∷ set_steps_used st.steps_used
    ∷ set_downgraded st.downgraded
    ∷ set_selfheal_count st.selfheal_total
    ∷ set_duration duration
    ∷ []
outcome_fields interrupted duration = set_status canceled ∷ set_error "执行被强制中断" ∷ []
outcome_fields (crashed e) duration = set_status failed ∷ set_error e ∷ set_duration duration ∷ []

abbrev ends : Outcome → (duration now : ℕ) → Queue → Option Run → Queue
ends outcome duration now q none = q
ends outcome duration now q (some r) =
    record (updates r.task_id (outcome_fields outcome duration) now q) {
      runs = shift r.handle (is_at holding) over q.runs;
      free = q.free + 1;
    }

-- The end of the run with this handle.
unfoldable pub finish : (handle : ℕ) → Outcome → (duration now : ℕ) → Queue → Queue
finish handle outcome duration now q =
    ends outcome duration now q (find_run handle (is_at holding) q.runs)

-- A run that is canceled outside of the `try` ends without a word, and gives its place back.
abbrev pub can_drop : Stage → Bool
can_drop holding = false
can_drop over = false
can_drop _ = true

abbrev pub place_of : Stage → ℕ
place_of s = if has_place s then 1 else 0

abbrev dropped : (was : Stage) → Queue → Option Run → Queue
dropped was q none = q
dropped was q (some r) = record q {
  runs = shift r.handle (is_at was) over q.runs;
  free = q.free + place_of was;
}

-- `t.cancel()` of `stop`, for a run that is not within the call of the engine.
unfoldable pub drop_run : (was : Stage) → (handle : ℕ) → Queue → Queue
drop_run was handle q =
    if can_drop was then dropped was q (find_run handle (is_at was) q.runs) else q

abbrev is_handle : ℕ → Option ℕ → Bool
is_handle handle none = false
is_handle handle (some h) = h == handle

-- The callback of a run that is done: it takes its own registration only.
unfoldable pub forget : String → (handle : ℕ) → Queue → Queue
forget task_id handle q =
    if not (runs_still handle q.runs) && is_handle handle (lookup task_id q.registered)
    then record q { registered = remove task_id q.registered }
    else q

-- `stop`: the loop takes no more.
unfoldable pub close : Queue → Queue
close q = record q { closing = true }

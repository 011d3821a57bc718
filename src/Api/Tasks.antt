-- ===== src/Api/Tasks.antt =====
-- app/api/routes_tasks.py: the endpoints that act on one task, in a local deployment. They read the row as
-- the tenant sees it first, in `owned_task`. Reads answer with what the tables hold.
pub mod Others
mod Examples
use llm_agent_runtime.Prelude.{
  ℕ, zero, suc, String, str_eq, Bool, true, false, List, [], ◌∷◌, Option, none, some, if◌then◌else◌,
  max,
}
use llm_agent_runtime.Storage.Tasks.{
  Task, Tasks, TaskStatus, queued, running, resuming, waiting_approval, done, failed, canceled,
  budget_exceeded, set_status, set_error, get_task, update_task,
}
use llm_agent_runtime.Storage.Events.{EventRow, EventTable, max_seq, get_events}
use llm_agent_runtime.Storage.Spans.{SpanTable}
use llm_agent_runtime.Storage.Journal.{Table}
use llm_agent_runtime.Storage.Database.{Database, delete_task}
use llm_agent_runtime.Api.Quotas.{
  QuotaSettings, Tenant, TaskCreate, Reply, accepted, refused, integrity_error, create_task,
}
use llm_agent_runtime.Worker.Queue.{submit, Queue, submit_resume, cancel, spawn, updates}

-- The queue holds the rows of `tasks`; the other tables stand beside it.
pub record App : Type 0 where
  pub queue : Queue
  pub events : EventTable
  pub spans : SpanTable
  pub executions : Table

abbrev pub db_of : App → Database
db_of app = record {
  tasks = app.queue.tasks;
  events = app.events;
  spans = app.spans;
  executions = app.executions;
}

abbrev pub with_db : App → Database → App
with_db app db = record {
  queue = record app.queue { tasks = db.tasks };
  events = db.events;
  spans = db.spans;
  executions = db.executions;
}

abbrev pub with_queue : App → Queue → App
with_queue app q = record app { queue = q }

-- `{"id": ..., "status": ...}`, or an `HTTPException`
pub data Response : Type 0 where
  answered : (task_id status : String) → Response
  not_found : Response
  conflict : TaskStatus → Response

-- `DELETABLE`
abbrev pub is_deletable : TaskStatus → Bool
is_deletable running = false
is_deletable resuming = false
is_deletable _ = true

-- What `resume_task` takes: a task that is over for good, waits for an approval, or is in the queue's
-- hands is not resumed.
abbrev pub is_resumable : TaskStatus → Bool
is_resumable failed = true
is_resumable _ = false

abbrev pub is_waiting_approval : TaskStatus → Bool
is_waiting_approval waiting_approval = true
is_waiting_approval _ = false

-- The endpoints: `POST .../resume`, `.../approve`, `.../reject`, `.../cancel`, and `DELETE`.
pub data Request : Type 0 where
  resume approve reject cancels delete : Request

resume_task : Task → App → Response × App
unfolding submit_resume
resume_task t app =
    if is_resumable t.status
    then (answered t.id "resuming", with_queue app (submit_resume t.id none app.queue))
    else (conflict t.status, app)

-- `approve_task` and `reject_task`
decide_task : (decision : Bool) → (status : String) → Task → App → Response × App
unfolding submit_resume
decide_task decision status t app =
    if is_waiting_approval t.status
    then (answered t.id status, with_queue app (submit_resume t.id (some decision) app.queue))
    else (conflict t.status, app)

cancel_task : (now : ℕ) → Task → App → Response × App
unfolding cancel updates update_task
cancel_task now t app =
    let (ok, q) = cancel t.id app.queue in
    if ok then (answered t.id "canceling", with_queue app q) else (
      answered t.id "canceled",
      with_queue app (updates t.id (set_status canceled ∷ set_error "任务尚未开始执行即被取消" ∷ []) now q),
    )

deleted : String → Option Task × Database → App → Response × App
deleted task_id (none, db) app = (not_found, app)
deleted task_id (some t, db) app = (answered task_id "deleted", with_db app db)

erase_task : (tenant_id : String) → Task → App → Response × App
unfolding deleted delete_task
erase_task tenant_id t app =
    if is_deletable t.status
    then deleted t.id (delete_task t.id (some tenant_id) (db_of app)) app
    else (conflict t.status, app)

acted : Request → (tenant_id : String) → (now : ℕ) → Task → App → Response × App
unfolding resume_task decide_task cancel_task erase_task
acted resume tenant_id now t app = resume_task t app
acted approve tenant_id now t app = decide_task true "resuming" t app
acted reject tenant_id now t app = decide_task false "canceling" t app
acted cancels tenant_id now t app = cancel_task now t app
acted delete tenant_id now t app = erase_task tenant_id t app

-- `owned_task`
owned : Request → (tenant_id : String) → (now : ℕ) → Option Task → App → Response × App
unfolding acted
owned request tenant_id now none app = (not_found, app)
owned request tenant_id now (some t) app = acted request tenant_id now t app

pub respond : Request → (tenant_id task_id : String) → (now : ℕ) → App → Response × App
unfolding owned get_task
respond request tenant_id task_id now app =
    owned request tenant_id now (get_task task_id (some tenant_id) app.queue.tasks) app

-- `create_task` in full: a request that is let in goes to the queue, with the trace that it came with.
enqueued : (traceparent : Option String) → (now : ℕ) → Reply × Database → App → Reply × App
unfolding submit
enqueued traceparent now (accepted task_id, db) app =
    let app' = with_db app db in
    (accepted task_id, with_queue app' (submit task_id traceparent now app'.queue))
enqueued traceparent now (refused r, db) app = (refused r, with_db app db)
enqueued traceparent now (integrity_error, db) app = (integrity_error, with_db app db)

unfoldable pub post_task :
    QuotaSettings
    → (day_start until_midnight now : ℕ) → (rate : Bool × ℕ) → TaskCreate
    → Tenant
    → (task_id : String) → (traceparent : Option String) → App
    → Reply × App
unfolding enqueued
post_task settings day_start until_midnight now rate body tenant task_id traceparent app =
    enqueued traceparent now
      (create_task settings day_start until_midnight now rate body tenant task_id (db_of app)) app

-- `get_events`: the events after a number, and the number to go on from; `none` is `-1`.
abbrev last_or : Option ℕ → EventTable → Option ℕ
last_or after [] = after
last_or after (e ∷ es) = some (max_seq (e ∷ es))

unfoldable pub poll_events : String → (after : Option ℕ) → App → EventTable × Option ℕ
unfolding get_events
poll_events task_id after app =
    let events = get_events task_id after app.events in (events, last_or after events)

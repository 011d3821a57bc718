-- ===== src/Storage/Tasks.antt =====
-- app/storage/models.py and app/storage/repository.py: the table `tasks`. Each operation is one
-- transaction, so a step of any interleaving; a time is a number of milliseconds. A list holds the rows,
-- the oldest first, and the primary key is what `session.get` looks at.
pub mod Rows
pub mod Quota
use llm_agent_runtime.Prelude.{
  ℕ, zero, suc, ◌+◌, ◌-◌, ◌≤◌, String, str_eq, Bool, true, false, ◌&&◌, ◌||◌, List, [], ◌∷◌, ◌++◌,
  map, Option, none, some, if◌then◌else◌, length, take, keep, any, ltb, leb,
}
use llm_agent_runtime.Graph.State.{Mode}

pub data TaskStatus : Type 0 where
  queued running resuming waiting_approval done failed canceled budget_exceeded : TaskStatus

pub record Task : Type 0 where
  pub id : String
  pub goal : String
  pub mode : Mode
  pub status : TaskStatus
  pub tenant_id : String
  pub require_approval : Bool
  pub max_tokens : ℕ
  pub max_steps : ℕ
  pub tokens_used : ℕ
  pub steps_used : ℕ
  pub downgraded : Bool
  pub selfheal_count : ℕ
  pub result : String
  pub error : String
  pub duration : ℕ
  pub created_at : ℕ
  pub updated_at : ℕ

abbrev pub Tasks : Type 0
Tasks = List Task

-- `_ACTIVE_STATUSES`
abbrev pub is_active : TaskStatus → Bool
is_active queued = true
is_active running = true
is_active resuming = true
is_active _ = false

abbrev pub has_id : String → Task → Bool
has_id task_id t = str_eq t.id task_id

-- `tenant_id` is `None` for the callers inside, which see every row.
abbrev pub owned_by : Option String → Task → Bool
owned_by none t = true
owned_by (some tenant_id) t = str_eq t.tenant_id tenant_id

abbrev pub find_task : (Task → Bool) → Tasks → Option Task
find_task p [] = none
find_task p (t ∷ ts) = if p t then some t else find_task p ts

-- The row that `create_task` adds, with the columns' defaults.
abbrev pub new_task :
    (task_id goal : String)
    → Mode
    → (max_tokens max_steps : ℕ) → (tenant_id : String) → Bool
    → (now : ℕ) → Task
new_task task_id goal mode max_tokens max_steps tenant_id require_approval now = record {
  id = task_id;
  goal = goal;
  mode = mode;
  status = queued;
  tenant_id = tenant_id;
  require_approval = require_approval;
  max_tokens = max_tokens;
  max_steps = max_steps;
  tokens_used = 0;
  steps_used = 0;
  downgraded = false;
  selfheal_count = 0;
  result = "";
  error = "";
  duration = 0;
  created_at = now;
  updated_at = now;
}

-- The insertion of a row: `none` is the `IntegrityError` of a key that is there.
unfoldable pub insert_task : Task → Tasks → Option Tasks
insert_task new ts = if any (has_id new.id) ts then none else some (ts ++ new ∷ [])

-- The keyword arguments of `update_task`.
pub data TaskField : Type 0 where
  set_status : TaskStatus → TaskField
  set_result set_error : String → TaskField
  set_tokens_used set_steps_used set_selfheal_count set_duration : ℕ → TaskField
  set_downgraded : Bool → TaskField

abbrev pub setattr : TaskField → Task → Task
setattr (set_status s) t = record t { status = s }
setattr (set_result r) t = record t { result = r }
setattr (set_error e) t = record t { error = e }
setattr (set_tokens_used n) t = record t { tokens_used = n }
setattr (set_steps_used n) t = record t { steps_used = n }
setattr (set_selfheal_count n) t = record t { selfheal_count = n }
setattr (set_duration n) t = record t { duration = n }
setattr (set_downgraded b) t = record t { downgraded = b }

abbrev pub setattrs : List TaskField → Task → Task
setattrs [] t = t
setattrs (f ∷ fs) t = setattrs fs (setattr f t)

abbrev pub written : List TaskField → ℕ → Task → Task
written fields now t = record (setattrs fields t) { updated_at = now }

-- A write to the rows that a test picks.
abbrev pub rewrite : (Task → Bool) → (Task → Task) → Tasks → Tasks
rewrite p f [] = []
rewrite p f (t ∷ ts) = (if p t then f t else t) ∷ rewrite p f ts

unfoldable pub update_task : String → List TaskField → (now : ℕ) → Tasks → Option Task × Tasks
update_task task_id fields now ts = elim (find_task (has_id task_id) ts) [
  | none ↦ (none, ts)
  | some t ↦ (some (written fields now t), rewrite (has_id task_id) (written fields now) ts)
]

-- `t.status = "failed"; t.error = error; t.updated_at = now`
abbrev pub swept : String → ℕ → Task → Task
swept error now t = record t { status = failed; error = error; updated_at = now }

abbrev pub is_interrupted : Task → Bool
is_interrupted t = is_active t.status

unfoldable pub fail_interrupted_tasks : (error : String) → (now : ℕ) → Tasks → ℕ × Tasks
fail_interrupted_tasks error now ts =
    (length (keep is_interrupted ts), rewrite is_interrupted (swept error now) ts)

-- `statuses = ("running", "resuming")`, and `updated_at < cutoff`
abbrev pub is_stale : (cutoff : ℕ) → Task → Bool
is_stale cutoff t = elim t.status [
  | running ↦ ltb t.updated_at cutoff
  | resuming ↦ ltb t.updated_at cutoff
  | _ ↦ false
]

unfoldable pub fail_stale_active_tasks :
    (max_age : ℕ) → (error : String) → (now : ℕ) → Tasks → ℕ × Tasks
fail_stale_active_tasks max_age error now ts =
    let cutoff = now - max_age in
    (length (keep (is_stale cutoff) ts), rewrite (is_stale cutoff) (swept error now) ts)

unfoldable pub get_task : String → (tenant_id : Option String) → Tasks → Option Task
get_task task_id tenant_id ts = find_task (λ t. has_id task_id t && owned_by tenant_id t) ts

-- `order_by(Task.created_at.desc())`
abbrev pub place_task : Task → Tasks → Tasks
place_task t [] = t ∷ []
place_task t (u ∷ us) = if leb u.created_at t.created_at then t ∷ u ∷ us else u ∷ place_task t us

abbrev pub newest_first : Tasks → Tasks
newest_first [] = []
newest_first (t ∷ ts) = place_task t (newest_first ts)

unfoldable pub list_tasks : (limit : ℕ) → (tenant_id : Option String) → Tasks → Tasks
list_tasks limit tenant_id ts = take limit (newest_first (keep (owned_by tenant_id) ts))

-- The rows that `tenant_id` has since `since`.
abbrev pub is_since : (since : ℕ) → Option String → Task → Bool
is_since since tenant_id t = leb since t.created_at && owned_by tenant_id t

unfoldable pub count_tasks_since : (since : ℕ) → Option String → Tasks → ℕ
count_tasks_since since tenant_id ts = length (keep (is_since since tenant_id) ts)

abbrev pub sum_by : (Task → ℕ) → Tasks → ℕ
sum_by f [] = 0
sum_by f (t ∷ ts) = f t + sum_by f ts

pub record Usage : Type 0 where
  pub used : ℕ
  pub reserved : ℕ

unfoldable pub tenant_token_usage : (tenant_id : String) → (since : ℕ) → Tasks → Usage
tenant_token_usage tenant_id since ts =
    let rows = keep (is_since since (some tenant_id)) ts in
    record {
      used = sum_by (λ t. t.tokens_used) rows;
      reserved = sum_by (λ t. t.max_tokens) (keep is_interrupted rows);
    }

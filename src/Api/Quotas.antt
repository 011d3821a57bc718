-- ===== src/Api/Quotas.antt =====
-- app/api/routes_tasks.py: the daily quotas of `_enforce_daily_quotas` and the submission `create_task`,
-- which inserts the row first and judges after. A limit of 0 stands for every limit that is not positive.
-- The minute limit and the new id are given; the queue is that of a local deployment.
pub mod Desk
mod Examples
use llm_agent_runtime.Prelude.{
  ℕ, zero, suc, ◌+◌, String, str_eq, Bool, true, false, ◌&&◌, List, [], ◌∷◌, ◌++◌, Option, none,
  some, if◌then◌else◌, ltb,
}
use llm_agent_runtime.Graph.State.{Mode}
use llm_agent_runtime.Storage.Tasks.{
  Task, Tasks, Usage, new_task, insert_task, count_tasks_since, tenant_token_usage,
}
use llm_agent_runtime.Storage.Database.{Database, delete_task}

pub record QuotaSettings : Type 0 where
  pub tenant_submit_per_min : ℕ
  pub tenant_daily_task_limit : ℕ
  pub global_daily_task_limit : ℕ
  pub default_max_tokens : ℕ
  pub default_max_steps : ℕ

-- `TenantContext`, as far as the quotas read it
pub record Tenant : Type 0 where
  pub id : String
  pub daily_token_quota : ℕ

-- The 429 answers, with what their texts name.
pub data Refusal : Type 0 where
  submit_rate : (limit retry_after : ℕ) → Refusal
  tenant_tasks : (limit retry_after : ℕ) → Refusal
  global_tasks : (limit retry_after : ℕ) → Refusal
  token_quota : (used reserved quota retry_after : ℕ) → Refusal

-- `limit > 0` and more than `limit` rows, the new one among them.
abbrev pub over : (limit n : ℕ) → Bool
over limit n = ltb 0 limit && ltb limit n

abbrev pub over_tenant : QuotaSettings → (day_start : ℕ) → Tenant → Tasks → Bool
unfolding count_tasks_since
over_tenant settings day_start tenant ts =
    over settings.tenant_daily_task_limit (count_tasks_since day_start (some tenant.id) ts)

abbrev pub over_global : QuotaSettings → (day_start : ℕ) → Tasks → Bool
over_global settings day_start ts =
    over settings.global_daily_task_limit (count_tasks_since day_start none ts)

abbrev pub over_tokens : (day_start : ℕ) → Tenant → Tasks → Bool
over_tokens day_start tenant ts =
    let usage = tenant_token_usage tenant.id day_start ts in
    over tenant.daily_token_quota (usage.used + usage.reserved)

unfoldable pub enforce_daily_quotas :
    QuotaSettings → (day_start until_midnight : ℕ) → Tenant → Tasks → Option Refusal
enforce_daily_quotas settings day_start until_midnight tenant ts =
    let usage = tenant_token_usage tenant.id day_start ts in
    if over_tenant settings day_start tenant ts
    then some (tenant_tasks settings.tenant_daily_task_limit until_midnight)
    else if over_global settings day_start ts
    then some (global_tasks settings.global_daily_task_limit until_midnight)
    else if over_tokens day_start tenant ts
    then some (token_quota usage.used usage.reserved tenant.daily_token_quota until_midnight)
    else none

pub record TaskCreate : Type 0 where
  pub goal : String
  pub mode : Mode
  pub max_tokens : ℕ
  pub max_steps : ℕ
  pub require_approval : Bool

-- `body.max_tokens or settings.default_max_tokens`; 0 stands for a field that is missing
abbrev pub or_default : ℕ → ℕ → ℕ
or_default zero d = d
or_default (suc n) d = suc n

abbrev pub row_for : QuotaSettings → TaskCreate → Tenant → (task_id : String) → (now : ℕ) → Task
row_for settings body tenant task_id now =
    new_task task_id body.goal body.mode (or_default body.max_tokens settings.default_max_tokens)
      (or_default body.max_steps settings.default_max_steps) tenant.id body.require_approval now

-- The answer: 202, 429, or the exception of a key that is there.
pub data Reply : Type 0 where
  accepted : (task_id : String) → Reply
  refused : Refusal → Reply
  integrity_error : Reply

pub judged : Option Refusal → (task_id : String) → Tenant → Database → Reply × Database
unfolding delete_task
judged none task_id tenant db = (accepted task_id, db)
judged (some r) task_id tenant db = (refused r, (delete_task task_id (some tenant.id) db).1)

pub inserted_with :
    QuotaSettings
    → (day_start until_midnight : ℕ) → Tenant
    → (task_id : String) → Database
    → Option Tasks
    → Reply × Database
unfolding judged enforce_daily_quotas
inserted_with settings day_start until_midnight tenant task_id db none = (integrity_error, db)
inserted_with settings day_start until_midnight tenant task_id db (some rows) =
    judged (enforce_daily_quotas settings day_start until_midnight tenant rows) task_id tenant
      (record db { tasks = rows })

-- `rate` is what the limiter of `_enforce_submit_rate` gives.
unfoldable pub create_task :
    QuotaSettings
    → (day_start until_midnight now : ℕ) → (rate : Bool × ℕ) → TaskCreate
    → Tenant
    → (task_id : String) → Database
    → Reply × Database
unfolding inserted_with insert_task
create_task settings day_start until_midnight now rate body tenant task_id db =
    if rate.0
    then inserted_with settings day_start until_midnight tenant task_id db
        (insert_task (row_for settings body tenant task_id now) db.tasks)
    else (refused (submit_rate settings.tenant_submit_per_min rate.1), db)

-- ===== src/Api/Quotas/Desk.antt =====
-- app/api/routes_tasks.py: requests of `create_task` that run side by side. Each of them gives way at its
-- awaits, so that its insertion and each of its three checks is a move of its own, and between them come
-- moves of other requests and of the rest of the program.
pub mod Moves
pub mod Limits
pub mod Alone
use llm_agent_runtime.Prelude.{
  ℕ, zero, suc, ◌+◌, String, str_eq, Bool, true, false, ◌&&◌, List, [], ◌∷◌, Option, none, some,
  if◌then◌else◌, keep, length, leb,
}
use llm_agent_runtime.Storage.Tasks.{
  Task, Tasks, TaskField, insert_task, update_task, fail_interrupted_tasks, fail_stale_active_tasks,
  is_since,
}
use llm_agent_runtime.Storage.Database.{Database, delete_task}
use llm_agent_runtime.Api.Quotas.{QuotaSettings, Tenant, over_tenant, over_global, over_tokens}

-- How far a request is.
pub data Phase : Type 0 where
  unknown inserted tenant_ok global_ok admitted rolled_back : Phase

-- The database, and the phase of each request, by its tenant and its new id.
pub record Desk : Type 0 where
  pub db : Database
  pub phase : (tenant_id task_id : String) → Phase

abbrev pub set_phase :
    (tenant_id task_id : String)
    → Phase
    → ((tenant_id task_id : String) → Phase)
    → (tenant_id task_id : String) → Phase
set_phase tenant_id task_id p f k j = if str_eq tenant_id k && str_eq task_id j then p else f k j

pub data Move : Type 0 where
  insert : Task → Move
  judge : Tenant → (task_id : String) → Move
  write : (task_id : String) → List TaskField → (now : ℕ) → Move
  erase : (task_id : String) → (tenant_id : Option String) → Move
  sweep : (error : String) → (now : ℕ) → Move
  sweep_stale : (max_age : ℕ) → (error : String) → (now : ℕ) → Move

abbrev pub with_rows : Desk → Tasks → Desk
with_rows d rows = record d { db = record d.db { tasks = rows } }

-- The insertion of a request whose id is new.
abbrev pub inserts : Task → Desk → Phase → Option Tasks → Desk
inserts t d unknown (some rows) = record (with_rows d rows) {
  phase = set_phase t.tenant_id t.id inserted d.phase;
}
inserts t d _ _ = d

-- A check: the request goes on, or its row is rolled back.
abbrev pub checked : Tenant → (task_id : String) → Desk → (refuses : Bool) → Phase → Desk
unfolding delete_task
checked tenant task_id d true next = record {
  db = (delete_task task_id (some tenant.id) d.db).1;
  phase = set_phase tenant.id task_id rolled_back d.phase;
}
checked tenant task_id d false next = record d { phase = set_phase tenant.id task_id next d.phase }

module _ (settings : QuotaSettings) (day_start : ℕ) where
  abbrev pub judges : Tenant → (task_id : String) → Desk → Phase → Desk
  judges tenant task_id d inserted =
      checked tenant task_id d (over_tenant settings day_start tenant d.db.tasks) tenant_ok
  judges tenant task_id d tenant_ok =
      checked tenant task_id d (over_global settings day_start d.db.tasks) global_ok
  judges tenant task_id d global_ok =
      checked tenant task_id d (over_tokens day_start tenant d.db.tasks) admitted
  judges tenant task_id d _ = d

  pub play : Move → Desk → Desk
  unfolding update_task fail_interrupted_tasks fail_stale_active_tasks insert_task
  play (insert t) d = inserts t d (d.phase t.tenant_id t.id) (insert_task t d.db.tasks)
  play (judge tenant task_id) d = judges tenant task_id d (d.phase tenant.id task_id)
  play (write task_id fields now) d = with_rows d (update_task task_id fields now d.db.tasks).1
  play (erase task_id tenant_id) d = record d { db = (delete_task task_id tenant_id d.db).1 }
  play (sweep error now) d = with_rows d (fail_interrupted_tasks error now d.db.tasks).1
  play (sweep_stale max_age error now) d =
      with_rows d (fail_stale_active_tasks max_age error now d.db.tasks).1

  pub plays : List Move → Desk → Desk
  plays [] d = d
  plays (m ∷ ms) d = plays ms (play m d)

-- The requests that have passed the tenant's check, and those that have passed the global one too.
abbrev pub past_tenant : Phase → Bool
past_tenant tenant_ok = true
past_tenant global_ok = true
past_tenant admitted = true
past_tenant _ = false

abbrev pub past_global : Phase → Bool
past_global global_ok = true
past_global admitted = true
past_global _ = false

abbrev pub is_admitted : Phase → Bool
is_admitted admitted = true
is_admitted _ = false

-- The rows of the day whose request is past a check.
abbrev pub count_past : (Phase → Bool) → (day_start : ℕ) → (tenant_id : Option String) → Desk → ℕ
count_past past day_start tenant_id d =
    length
      (keep (λ t. is_since day_start tenant_id t && past (d.phase t.tenant_id t.id)) d.db.tasks)

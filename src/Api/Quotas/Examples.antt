-- ===== src/Api/Quotas/Examples.antt =====
-- app/api/routes_tasks.py, the quotas and the submission, at concrete values.
use llm_agent_runtime.Prelude.{◌≤◌, arith, false, [], ◌∷◌, none, some, List}
use llm_agent_runtime.Graph.State.{react}
use llm_agent_runtime.Api.Quotas.{QuotaSettings, Tenant, TaskCreate, row_for}
use llm_agent_runtime.Api.Quotas.Desk.{
  Desk, Move, insert, judge, plays, unknown, count_past, past_tenant, past_global,
}
use llm_agent_runtime.Api.Quotas.Desk.Limits.{plays-tenant_limit, plays-global_limit}

abbrev settings : QuotaSettings
settings = record {
  tenant_submit_per_min = 6;
  tenant_daily_task_limit = 1;
  global_daily_task_limit = 2;
  default_max_tokens = 1000;
  default_max_steps = 24;
}

abbrev tenant : Tenant
tenant = record { id = "a"; daily_token_quota = 5000 }

abbrev body : TaskCreate
body = record {
  goal = "find it";
  mode = react;
  max_tokens = 0;
  max_steps = 0;
  require_approval = false;
}

abbrev desk : Desk
desk = record {
  db = record { tasks = []; events = []; spans = []; executions = [] };
  phase = λ tenant_id task_id. unknown;
}

-- Two requests of one tenant insert their rows before either is judged.
abbrev race : List Move
race =
    insert (row_for settings body tenant "t1" 5)
    ∷ insert (row_for settings body tenant "t2" 5)
    ∷ judge tenant "t1"
    ∷ judge tenant "t2"
    ∷ []

plays-tenant_limit_example :
    count_past past_tenant 0 (some "a") (plays settings 0 race desk)
    ≤ settings.tenant_daily_task_limit
plays-tenant_limit_example = plays-tenant_limit settings 0 "a" (omega arith) race desk (omega arith)

plays-global_limit_example :
    count_past past_global 0 none (plays settings 0 race desk) ≤ settings.global_daily_task_limit
plays-global_limit_example = plays-global_limit settings 0 (omega arith) race desk (omega arith)

-- ===== src/Api/Quotas/Desk/Limits.antt =====
-- app/api/routes_tasks.py: what the checks of `_enforce_daily_quotas` promise while requests run side by
-- side.
use llm_agent_runtime.Prelude.{
  both, same_text, ℕ, ◌≤◌, ◌<◌, ◌≡◌, refl, ap, String, str_eq, Bool, true, false, List, [], ◌∷◌,
  Option, none, some, count, count_mono, arith, eq_iff, Bool-cases, inl, inr,
}
use llm_agent_runtime.Storage.Tasks.{count_tasks_since, is_since}
use llm_agent_runtime.Api.Quotas.{
  QuotaSettings, Tenant, over, over_tenant, over_global, over_tokens,
}
use llm_agent_runtime.Api.Quotas.Desk.{
  Phase, unknown, inserted, tenant_ok, global_ok, admitted, rolled_back, Desk, set_phase, Move,
  play, plays, judges, past_tenant, past_global, count_past,
}
use llm_agent_runtime.Api.Quotas.Desk.Moves.{quiet, checked-Within, other-Within}

-- A check that lets a request through has counted at most `limit`.
over-false : (limit n : ℕ) (limited : 0 < limit) → over limit n ≡ false → n ≤ limit
over-false limit n limited h = ground arith

-- The rows past a check are rows of the day.
bounded :
    (past : Phase → Bool) (day_start : ℕ) (scope : Option String)
    (phase : (tenant_id task_id : String) → Phase) (d : Desk)
    → count_past past day_start scope (record d { phase = phase })
      ≤ count (is_since day_start scope) d.db.tasks
bounded past day_start scope phase d =
    count_mono _ _ d.db.tasks
      (λ t h. (both (is_since day_start scope t) (past (phase t.tenant_id t.id)) h).0)

module _ (settings : QuotaSettings) (day_start : ℕ) where
  module _ (k : String) (limited : 0 < settings.tenant_daily_task_limit) where
    abbrev TenantWithin : Desk → Type 0
    TenantWithin d = count_past past_tenant day_start (some k) d ≤ settings.tenant_daily_task_limit

    -- The phase of another tenant's request.
    other_tenant :
        (tenant_id task_id : String) (next : Phase) (d : Desk) (other : str_eq tenant_id k ≡ false)
        → count_past past_tenant day_start
            (some k)
            (record d { phase = set_phase tenant_id task_id next d.phase })
          ≤ count_past past_tenant day_start (some k) d
    other_tenant tenant_id task_id next d other = count_mono _ _ d.db.tasks (λ t h.
        ground
          (arith, h, other, eq_iff t.tenant_id k, eq_iff tenant_id t.tenant_id, eq_iff tenant_id k))

    tenant_check :
        (tenant : Tenant) (task_id : String) (d : Desk) (within : TenantWithin d)
        (passes : over_tenant settings day_start tenant d.db.tasks ≡ false)
        → TenantWithin (record d { phase = set_phase tenant.id task_id tenant_ok d.phase })
    unfolding over_tenant count_tasks_since
    tenant_check tenant task_id d within passes = elim (Bool-cases (str_eq tenant.id k)) [
      | inr other ↦ omega (arith, other_tenant tenant.id task_id tenant_ok d other, within)
      | inl own ↦ omega (
        arith,
        over-false settings.tenant_daily_task_limit
            (count (is_since day_start (some tenant.id)) d.db.tasks) limited passes,
        ap (λ i. count (is_since day_start (some i)) d.db.tasks) (same_text tenant.id k own),
        bounded past_tenant day_start (some k) (set_phase tenant.id task_id tenant_ok d.phase) d,
      )
    ]

    tenant_judges :
        (tenant : Tenant) (task_id : String) (d : Desk) (p : Phase)
        (at_p : d.phase tenant.id task_id ≡ p) (within : TenantWithin d)
        → TenantWithin (judges settings day_start tenant task_id d p)
    tenant_judges tenant task_id d inserted at_p within =
        checked-Within past_tenant day_start (some k) refl refl settings.tenant_daily_task_limit
          tenant task_id d (over_tenant settings day_start tenant d.db.tasks) tenant_ok within
          (tenant_check tenant task_id d within)
    tenant_judges tenant task_id d tenant_ok at_p within =
        checked-Within past_tenant day_start (some k) refl refl settings.tenant_daily_task_limit
          tenant task_id d (over_global settings day_start d.db.tasks) global_ok within
          (λ passes. omega (
            arith,
            quiet past_tenant day_start (some k) refl refl tenant.id task_id global_ok d
                (λ h. rw at_p refl),
            within,
          ))
    tenant_judges tenant task_id d global_ok at_p within =
        checked-Within past_tenant day_start (some k) refl refl settings.tenant_daily_task_limit
          tenant task_id d (over_tokens day_start tenant d.db.tasks) admitted within
          (λ passes. omega (
            arith,
            quiet past_tenant day_start (some k) refl refl tenant.id task_id admitted d
                (λ h. rw at_p refl),
            within,
          ))
    tenant_judges tenant task_id d unknown at_p within = within
    tenant_judges tenant task_id d admitted at_p within = within
    tenant_judges tenant task_id d rolled_back at_p within = within

    -- However the requests of `create_task`, their insertions and their three checks, interleave with each
    -- other and with updates, deletions and sweeps of the rows: when the daily limit of a tenant is on, and
    -- the tenant's rows of the day that are past its check are at first within it, they stay within it.
    pub plays-tenant_limit :
        (moves : List Move) (d : Desk) (start : TenantWithin d)
        → TenantWithin (plays settings day_start moves d)
    unfolding plays
    plays-tenant_limit [] d start = start
    plays-tenant_limit (m ∷ ms) d start = plays-tenant_limit ms (play settings day_start m d) (
        other-Within past_tenant day_start (some k) refl refl settings.tenant_daily_task_limit
          settings
          (λ tenant task_id d' within.
            tenant_judges tenant task_id d' (d'.phase tenant.id task_id) refl within)
          m d start)

  module _ (limited : 0 < settings.global_daily_task_limit) where
    abbrev GlobalWithin : Desk → Type 0
    GlobalWithin d = count_past past_global day_start none d ≤ settings.global_daily_task_limit

    keeps :
        (tenant_id task_id : String) (next : Phase) (d : Desk)
        (gains : past_global next ≡ true → past_global (d.phase tenant_id task_id) ≡ true)
        (within : GlobalWithin d)
        → GlobalWithin (record d { phase = set_phase tenant_id task_id next d.phase })
    keeps tenant_id task_id next d gains within =
        omega
          (arith, quiet past_global day_start none refl refl tenant_id task_id next d gains, within)

    global_judges :
        (tenant : Tenant) (task_id : String) (d : Desk) (p : Phase)
        (at_p : d.phase tenant.id task_id ≡ p) (within : GlobalWithin d)
        → GlobalWithin (judges settings day_start tenant task_id d p)
    unfolding count_tasks_since
    global_judges tenant task_id d inserted at_p within =
        checked-Within past_global day_start none refl refl settings.global_daily_task_limit tenant
          task_id d (over_tenant settings day_start tenant d.db.tasks) tenant_ok within
          (λ passes. keeps tenant.id task_id tenant_ok d (λ h. cc) within)
    global_judges tenant task_id d tenant_ok at_p within =
        checked-Within past_global day_start none refl refl settings.global_daily_task_limit tenant
          task_id d (over_global settings day_start d.db.tasks) global_ok within
          (λ passes. omega (
            arith,
            over-false settings.global_daily_task_limit (count (is_since day_start none) d.db.tasks)
                limited passes,
            bounded past_global day_start none (set_phase tenant.id task_id global_ok d.phase) d,
          ))
    global_judges tenant task_id d global_ok at_p within =
        checked-Within past_global day_start none refl refl settings.global_daily_task_limit tenant
          task_id d (over_tokens day_start tenant d.db.tasks) admitted within
          (λ passes. keeps tenant.id task_id admitted d (λ h. rw at_p refl) within)
    global_judges tenant task_id d unknown at_p within = within
    global_judges tenant task_id d admitted at_p within = within
    global_judges tenant task_id d rolled_back at_p within = within

    -- However the requests of `create_task` interleave with each other and with updates, deletions and
    -- sweeps of the rows: when the platform's daily limit is on, and the rows of the day that are past its
    -- check are at first within it, they stay within it.
    pub plays-global_limit :
        (moves : List Move) (d : Desk) (start : GlobalWithin d)
        → GlobalWithin (plays settings day_start moves d)
    unfolding plays
    plays-global_limit [] d start = start
    plays-global_limit (m ∷ ms) d start = plays-global_limit ms (play settings day_start m d) (
        other-Within past_global day_start none refl refl settings.global_daily_task_limit settings
          (λ tenant task_id d' within.
            global_judges tenant task_id d' (d'.phase tenant.id task_id) refl within)
          m d start)

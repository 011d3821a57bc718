-- ===== src/Api/Quotas/Desk/Moves.antt =====
-- app/api/routes_tasks.py: the rows past a check of `_enforce_daily_quotas`, move by move, for any check
-- that a request has not passed when it is inserted.
use llm_agent_runtime.Prelude.{
  own_text, both, same_text, ℕ, ◌-◌, ◌≤◌, ◌≡◌, refl, ap, ◌∙◌, String, str_eq, Bool, true, false,
  ◌&&◌, not, [], ◌∷◌, ◌++◌, Option, none, some, keep, count, count_mono, count-append, count-keep,
  count-same, arith, Bool-cases, Option-cases, inl, inr, any, leb,
}
use llm_agent_runtime.Storage.Tasks.{
  Task, Tasks, insert_task, fail_interrupted_tasks, fail_stale_active_tasks, is_since, get_task,
  rewrite, written, swept, has_id, is_interrupted, is_stale,
}
use llm_agent_runtime.Storage.Tasks.Rows.{SameOwner, written-SameOwner, update_task-rows}
use llm_agent_runtime.Storage.Database.{delete_task}
use llm_agent_runtime.Api.Quotas.{QuotaSettings, Tenant}
use llm_agent_runtime.Api.Quotas.Desk.{
  Phase, unknown, inserted, tenant_ok, global_ok, admitted, rolled_back, Desk, set_phase, Move,
  insert, judge, write, erase, sweep, sweep_stale, inserts, checked, judges, play, count_past,
}

and-false : (b : Bool) → (b && false) ≡ false
and-false b = ground arith

pub set_phase-own :
    (k j : String) (p : Phase) (f : (tenant_id task_id : String) → Phase)
    → set_phase k j p f k j ≡ p
set_phase-own k j p f = rw (own_text k, own_text j) refl

swept-SameOwner : (error : String) (now : ℕ) (t : Task) → SameOwner t (swept error now t)
swept-SameOwner error now t = (refl, refl, refl, refl)

is_since-same :
    (since : ℕ) (scope : Option String) (t u : Task) (same : SameOwner t u)
    → is_since since scope u ≡ is_since since scope t
is_since-same since none t u same = ap (λ c. leb since c && true) same.3
is_since-same since (some k) t u same =
    ap (λ c. leb since c && str_eq u.tenant_id k) same.3
    ∙ ap (λ o. leb since t.created_at && str_eq o k) same.1

module _ (past : Phase → Bool) (day_start : ℕ) (scope : Option String)
    (early : past inserted ≡ false) (gone : past rolled_back ≡ false) where
  abbrev pub Phases : Type 0
  Phases = (tenant_id task_id : String) → Phase

  abbrev pub is_past : Phases → Task → Bool
  is_past f t = is_since day_start scope t && past (f t.tenant_id t.id)

  pub set-past :
      (k j : String) (next : Phase) (f : Phases) (gains : past next ≡ true → past (f k j) ≡ true)
      (k' j' : String)
      → past (set_phase k j next f k' j') ≡ true
      → past (f k' j') ≡ true
  set-past k j next f gains k' j' h = elim (Bool-cases (str_eq k k' && str_eq j j')) [
    | inr other ↦ (rw other at h)
    | inl own ↦
        let keys = both (str_eq k k') (str_eq j j') own in
        moved (same_text k k' keys.0) (same_text j j' keys.1) (gains (rw own at h))
  ]
    where
      moved : k ≡ k' → j ≡ j' → past (f k j) ≡ true → past (f k' j') ≡ true
      moved e e' h' = cc

  is_past-set :
      (k j : String) (next : Phase) (f : Phases) (gains : past next ≡ true → past (f k j) ≡ true)
      (t : Task)
      → is_past (set_phase k j next f) t ≡ true
      → is_past f t ≡ true
  is_past-set k j next f gains t h = ground (arith, set-past k j next f gains t.tenant_id t.id, h)

  -- A phase that a request takes without passing the check.
  pub quiet :
      (k j : String) (next : Phase) (d : Desk)
      (gains : past next ≡ true → past (d.phase k j) ≡ true)
      → count_past past day_start scope (record d { phase = set_phase k j next d.phase })
        ≤ count_past past day_start scope d
  quiet k j next d gains =
      count_mono (is_past (set_phase k j next d.phase)) (is_past d.phase) d.db.tasks
        (is_past-set k j next d.phase gains)

  erase_shrinks :
      (task_id : String) (tenant_id : Option String) (d : Desk)
      → count_past past day_start scope (record d { db = (delete_task task_id tenant_id d.db).1 })
        ≤ count_past past day_start scope d
  unfolding delete_task
  erase_shrinks task_id tenant_id d = elim (Option-cases (get_task task_id tenant_id d.db.tasks)) [
    | inl e ↦ rw (delete_task, e) (omega arith)
    | inr (t, e) ↦
        rw (delete_task, e) (count-keep (is_past d.phase) (λ t. not (has_id task_id t)) d.db.tasks)
  ]

  is_past-same :
      (phases : Phases) (t u : Task) (same : SameOwner t u) → is_past phases u ≡ is_past phases t
  is_past-same phases t u same =
      ap (λ b. b && past (phases u.tenant_id u.id)) (is_since-same day_start scope t u same)
      ∙ ap (λ k. is_since day_start scope t && past (phases k u.id)) same.1
      ∙ ap (λ j. is_since day_start scope t && past (phases t.tenant_id j)) same.0

  rewrite_same :
      (p : Task → Bool) (f : Task → Task) (phases : Phases) (ts : Tasks)
      (keeps : (t : Task) → SameOwner t (f t))
      → count (is_past phases) (rewrite p f ts) ≡ count (is_past phases) ts
  rewrite_same p f phases [] keeps = refl
  rewrite_same p f phases (t ∷ ts) keeps = elim (Bool-cases (p t)) [
    | inl e ↦
        rw (e, is_past-same phases t (f t) (keeps t))
          (count-same (is_past phases t) (f t) t (keep (is_past phases) (rewrite p f ts))
            (keep (is_past phases) ts) (rewrite_same p f phases ts keeps))
    | inr e ↦ rw e (
        count-same (is_past phases t) t t (keep (is_past phases) (rewrite p f ts))
          (keep (is_past phases) ts) (rewrite_same p f phases ts keeps))
  ]

  module _ (t : Task) (d : Desk) where
    arrived : Phases
    arrived = set_phase t.tenant_id t.id inserted d.phase

    -- The new row is not past the check.
    newcomer : is_past arrived t ≡ false
    unfolding arrived
    newcomer =
        rw (set_phase-own t.tenant_id t.id inserted d.phase, early)
          (and-false (is_since day_start scope t))

    grown : count (is_past arrived) (d.db.tasks ++ t ∷ []) ≤ count_past past day_start scope d
    unfolding arrived
    grown = omega (
      arith,
      count-append (is_past arrived) d.db.tasks (t ∷ []),
      alone,
      quiet t.tenant_id t.id inserted d (λ h. absurd (never h)),
    )
      where
        alone : count (is_past arrived) (t ∷ []) ≡ 0
        alone = rw newcomer refl

        never : past inserted ≡ true → ⊥
        never h = cc

    inserts-none : (p : Phase) → inserts t d p none ≡ d
    inserts-none unknown = refl
    inserts-none inserted = refl
    inserts-none tenant_ok = refl
    inserts-none global_ok = refl
    inserts-none admitted = refl
    inserts-none rolled_back = refl

    inserts-some :
        (p : Phase)
        → count_past past day_start scope (inserts t d p (some (d.db.tasks ++ t ∷ [])))
          ≤ count_past past day_start scope d
    unfolding arrived
    inserts-some unknown = grown
    inserts-some inserted = omega arith
    inserts-some tenant_ok = omega arith
    inserts-some global_ok = omega arith
    inserts-some admitted = omega arith
    inserts-some rolled_back = omega arith

    insert_quiet :
        count_past past day_start scope
          (inserts t d (d.phase t.tenant_id t.id) (insert_task t d.db.tasks))
        ≤ count_past past day_start scope d
    unfolding insert_task
    insert_quiet = elim (Bool-cases (any (has_id t.id) d.db.tasks)) [
      | inl e ↦ rw (insert_task, e, inserts-none (d.phase t.tenant_id t.id)) (omega arith)
      | inr e ↦ rw (insert_task, e) (inserts-some (d.phase t.tenant_id t.id))
    ]

  module _ (limit : ℕ) where
    abbrev pub Within : Desk → Type 0
    Within d = count_past past day_start scope d ≤ limit

    pub checked-Within :
        (tenant : Tenant) (task_id : String) (d : Desk) (refuses : Bool) (next : Phase)
        (within : Within d)
        (goes : refuses ≡ false
          → Within (record d { phase = set_phase tenant.id task_id next d.phase }))
        → Within (checked tenant task_id d refuses next)
    unfolding checked
    checked-Within tenant task_id d false next within goes = goes refl
    checked-Within tenant task_id d true next within goes =
        let d' = record d { phase = set_phase tenant.id task_id rolled_back d.phase } in
        omega (
          arith,
          erase_shrinks task_id (some tenant.id) d',
          quiet tenant.id task_id rolled_back d (λ h. absurd (never h)),
          within,
        )
      where
        never : past rolled_back ≡ true → ⊥
        never h = cc

    -- All moves but a check.
    pub other-Within :
        (settings : QuotaSettings)
        (judging : (tenant : Tenant) (task_id : String) (d : Desk)
          → Within d
          → Within (judges settings day_start tenant task_id d (d.phase tenant.id task_id)))
        (m : Move) (d : Desk) (within : Within d)
        → Within (play settings day_start m d)
    unfolding play fail_interrupted_tasks fail_stale_active_tasks
    other-Within settings judging (insert t) d within = omega (arith, insert_quiet t d, within)
    other-Within settings judging (judge tenant task_id) d within = judging tenant task_id d within
    other-Within settings judging (write task_id fields now) d within =
        rw (update_task-rows task_id fields now d.db.tasks) (
          omega (
            arith,
            rewrite_same (has_id task_id) (written fields now) d.phase d.db.tasks
                (written-SameOwner fields now),
            within,
          ))
    other-Within settings judging (erase task_id tenant_id) d within =
        omega (arith, erase_shrinks task_id tenant_id d, within)
    other-Within settings judging (sweep error now) d within = omega (
      arith,
      rewrite_same is_interrupted (swept error now) d.phase d.db.tasks (swept-SameOwner error now),
      within,
    )
    other-Within settings judging (sweep_stale max_age error now) d within = omega (
      arith,
      rewrite_same (is_stale (now - max_age)) (swept error now) d.phase d.db.tasks
          (swept-SameOwner error now),
      within,
    )

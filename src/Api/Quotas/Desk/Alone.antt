-- ===== src/Api/Quotas/Desk/Alone.antt =====
-- app/api/routes_tasks.py: a request of `create_task` that nothing interrupts, against its moves.
use llm_agent_runtime.Prelude.{
  own_text, ℕ, ◌≡◌, refl, String, true, false, [], ◌∷◌, ◌++◌, any, Bool-cases, inl, inr, sym, ap,
  ◌∙◌,
}
use llm_agent_runtime.Storage.Tasks.{Task, insert_task, has_id}
use llm_agent_runtime.Storage.Database.{Database}
use llm_agent_runtime.Api.Quotas.{
  QuotaSettings, Tenant, TaskCreate, row_for, over_tenant, over_global, over_tokens, create_task,
  enforce_daily_quotas, judged, inserted_with,
}
use llm_agent_runtime.Api.Quotas.Desk.{
  Phase, unknown, inserted, Desk, set_phase, insert, judge, play, plays, judges, with_rows,
}
use llm_agent_runtime.Api.Quotas.Desk.Moves.{set_phase-own}

module _ (settings : QuotaSettings) (day_start until_midnight : ℕ) (tenant : Tenant)
    (task_id : String) where
  abbrev turn : Desk → Desk
  turn d = judges settings day_start tenant task_id d (d.phase tenant.id task_id)

  -- The phases after the checks of a request on its own.
  at_phase :
      (p : Phase) (d : Desk) (is : d.phase tenant.id task_id ≡ p)
      → turn d ≡ judges settings day_start tenant task_id d p
  at_phase p d is = rw is refl

  thrice-judged :
      (d : Desk) (is : d.phase tenant.id task_id ≡ inserted)
      → (turn (turn (turn d))).db
        ≡ (judged
            (enforce_daily_quotas settings day_start until_midnight tenant d.db.tasks)
            task_id
            tenant
            d.db).1
  unfolding judged enforce_daily_quotas
  thrice-judged d is = elim (Bool-cases (over_tenant settings day_start tenant d.db.tasks)) [
    | inl e ↦ simp (is, e, own_text tenant.id, own_text task_id) refl
    | inr e ↦ elim (Bool-cases (over_global settings day_start d.db.tasks)) [
      | inl f ↦ simp (is, e, f, own_text tenant.id, own_text task_id) refl
      | inr f ↦ elim (Bool-cases (over_tokens day_start tenant d.db.tasks)) [
        | inl g ↦ simp (is, e, f, g, own_text tenant.id, own_text task_id) refl
        | inr g ↦ simp (is, e, f, g, own_text tenant.id, own_text task_id) refl
      ]
    ]
  ]

  arrival : Task → Desk → Desk
  arrival row d = record (with_rows d (d.db.tasks ++ row ∷ [])) {
    phase = set_phase row.tenant_id row.id inserted d.phase;
  }

  insert-new :
      (row : Task) (d : Desk) (fresh : d.phase row.tenant_id row.id ≡ unknown)
      (missing : any (has_id row.id) d.db.tasks ≡ false)
      → play settings day_start (insert row) d ≡ arrival row d
  unfolding play insert_task arrival
  insert-new row d fresh missing = rw (play, fresh, insert_task, missing) refl

  create-new :
      (now retry_after : ℕ) (body : TaskCreate) (db : Database)
      (missing : any (has_id task_id) db.tasks ≡ false)
      → let row = row_for settings body tenant task_id now in
        let db' = record db { tasks = db.tasks ++ row ∷ [] } in
        (create_task settings day_start until_midnight now
          (true, retry_after)
          body
          tenant
          task_id
          db).1
        ≡ (judged
            (enforce_daily_quotas settings day_start until_midnight tenant db'.tasks)
            task_id
            tenant
            db').1
  unfolding create_task inserted_with insert_task
  create-new now retry_after body db missing = rw (create_task, insert_task, missing) refl

  -- A request that is let in by the minute limit, with an id that is new, leaves in the database exactly
  -- what its moves, the insertion and the three checks, leave there when no other move comes between.
  create_task-plays :
      (now retry_after : ℕ) (body : TaskCreate) (d : Desk)
      (fresh : d.phase tenant.id task_id ≡ unknown)
      → (create_task settings day_start until_midnight now
          (true, retry_after)
          body
          tenant
          task_id
          d.db).1
        ≡ (plays settings day_start
            (insert (row_for settings body tenant task_id now)
              ∷ judge tenant task_id
              ∷ judge tenant task_id
              ∷ judge tenant task_id
              ∷ [])
            d).db
  unfolding create_task inserted_with insert_task plays play arrival
  create_task-plays now retry_after body d fresh =
      elim (Bool-cases (any (has_id task_id) d.db.tasks)) [
        | inl e ↦ simp (e, fresh) refl
        | inr e ↦
            let row = row_for settings body tenant task_id now in
            create-new now retry_after body d.db e
            ∙ sym (thrice-judged (arrival row d) (set_phase-own tenant.id task_id inserted d.phase))
            ∙ ap (λ d'. (turn (turn (turn d'))).db) (sym (insert-new row d fresh e))
      ]

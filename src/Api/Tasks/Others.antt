-- ===== src/Api/Tasks/Others.antt =====
-- app/api/routes_tasks.py: which rows a request to one of the endpoints may change.
use llm_agent_runtime.Prelude.{
  ℕ, ◌≡◌, refl, ap, sym, subst, ◌∙◌, String, str_eq, Bool, true, false, ◌&&◌, [], ◌∷◌, Option, none,
  some, inl, inr, Bool-cases, Option-cases, lookup, same_text, both,
}
use llm_agent_runtime.Storage.Tasks.{
  Task, Tasks, set_status, set_error, canceled, get_task, has_id, owned_by,
}
use llm_agent_runtime.Storage.Tasks.Rows.{get_task-update}
use llm_agent_runtime.Storage.Database.{Database, delete_task}
use llm_agent_runtime.Storage.Database.Deleted.{delete_task_complete}
use llm_agent_runtime.Worker.Queue.{
  Queue, submit_resume, cancel, spawn, updates, is_registered, is_some,
}
use llm_agent_runtime.Api.Tasks.{
  App, db_of, with_db, Response, Request, resume, approve, reject, cancels, delete, resume_task,
  decide_task, cancel_task, deleted, erase_task, acted, owned, respond, is_resumable,
  is_waiting_approval, is_deletable, not_found,
}

-- The row that a tenant finds has the key that it looked for.
found_id :
    (task_id : String) (scope : Option String) (ts : Tasks) (t : Task)
    (found : get_task task_id scope ts ≡ some t)
    → t.id ≡ task_id
unfolding get_task
found_id task_id scope [] t found = absurd (nothing found)
  where
    nothing : none ≡ some t → ⊥
    nothing e = cc
found_id task_id scope (u ∷ us) t found = elim (Bool-cases (has_id task_id u && owned_by scope u)) [
  | inl e ↦
      that (rw (get_task, e) at found)
        (same_text u.id task_id (both (has_id task_id u) (owned_by scope u) e).0)
  | inr e ↦ found_id task_id scope us t (rw (get_task, e) at found)
]
  where
    id_of : Option Task → String
    id_of none = ""
    id_of (some v) = v.id

    that : some u ≡ some t → u.id ≡ task_id → t.id ≡ task_id
    that same own = sym (ap id_of same) ∙ own

spawn-tasks :
    (task_id : String) (resume_value : Option (Option Bool)) (q : Queue)
    → (spawn task_id resume_value q).tasks ≡ q.tasks
unfolding spawn
spawn-tasks task_id resume_value q =
    elim (Bool-cases (is_registered (lookup task_id q.registered) q.runs)) [
      | inl e ↦ rw (spawn, e) refl
      | inr e ↦ rw (spawn, e) refl
    ]

deleted-some :
    (task_id : String) (u : Task) (p : Option Task × Database) (app : App) (found : p.0 ≡ some u)
    → (deleted task_id p app).1 ≡ with_db app p.1
unfolding deleted
deleted-some task_id u (none, db) app found = absurd (nothing found)
  where
    nothing : none ≡ some u → ⊥
    nothing e = cc
deleted-some task_id u (some t, db) app found = refl

module _ (tenant_id : String) (now : ℕ) (t : Task) (app : App) (j : String) (scope : Option String)
    (other : str_eq j t.id ≡ false) where
  abbrev Kept : Response × App → Type 0
  Kept r = get_task j scope r.1.queue.tasks ≡ get_task j scope app.queue.tasks

  resume-Kept : Kept (resume_task t app)
  unfolding resume_task submit_resume
  resume-Kept = elim (Bool-cases (is_resumable t.status)) [
    | inr e ↦ simp e refl
    | inl e ↦ simp e (ap (λ ts. get_task j scope ts) (spawn-tasks t.id (some none) app.queue))
  ]

  decide-Kept : (decision : Bool) (status : String) → Kept (decide_task decision status t app)
  unfolding decide_task submit_resume
  decide-Kept decision status = elim (Bool-cases (is_waiting_approval t.status)) [
    | inr e ↦ simp e refl
    | inl e ↦
        simp e (ap (λ ts. get_task j scope ts) (spawn-tasks t.id (some (some decision)) app.queue))
  ]

  cancel-Kept : Kept (cancel_task now t app)
  unfolding cancel_task cancel updates
  cancel-Kept =
      elim (Bool-cases (app.queue.has_engine && is_some (lookup t.id app.queue.registered))) [
        | inl e ↦ rw (cancel_task, cancel, e) refl
        | inr e ↦
            rw (cancel_task, cancel, e)
              (get_task-update t.id (set_status canceled ∷ set_error "任务尚未开始执行即被取消" ∷ []) now j
                  scope app.queue.tasks
                ∙ rw other refl)
      ]

  erase-Kept : Kept (erase_task tenant_id t app)
  unfolding erase_task deleted delete_task
  erase-Kept = elim (Bool-cases (is_deletable t.status)) [
    | inr e ↦ rw (erase_task, e) refl
    | inl e ↦ elim (Option-cases (get_task t.id (some tenant_id) app.queue.tasks)) [
      | inl missing ↦ rw (erase_task, e, delete_task, missing) refl
      | inr (u, found) ↦
          let gone = delete_task_complete t.id (some tenant_id) (db_of app) u found in
          rw
            (
              erase_task,
              e,
              deleted-some t.id u (delete_task t.id (some tenant_id) (db_of app)) app gone.0,
            )
            ((gone.2 j other).0 scope)
    ]
  ]

  acted-Kept : (request : Request) → Kept (acted request tenant_id now t app)
  unfolding acted
  acted-Kept resume = resume-Kept
  acted-Kept approve = decide-Kept true "resuming"
  acted-Kept reject = decide-Kept false "canceling"
  acted-Kept cancels = cancel-Kept
  acted-Kept delete = erase-Kept

-- A request to an endpoint changes at most the row of the task that it names, and that one only if it is
-- the tenant's own: every other row reads as before, to whoever reads it, and a request for a task that the
-- tenant does not own is answered with 404 and changes nothing.
pub respond-own_row :
    (request : Request) (tenant_id task_id : String) (now : ℕ) (app : App)
    → let after = respond request tenant_id task_id now app in
      ((j : String) (scope : Option String)
        → str_eq j task_id ≡ false
        → get_task j scope after.1.queue.tasks ≡ get_task j scope app.queue.tasks)
      × (get_task task_id (some tenant_id) app.queue.tasks ≡ none → after ≡ (not_found, app))
unfolding respond owned
respond-own_row request tenant_id task_id now app =
    elim (Option-cases (get_task task_id (some tenant_id) app.queue.tasks)) [
      | inl missing ↦ simp missing (λ j scope other. refl, λ e. refl)
      | inr (t, found) ↦
          let own = found_id task_id (some tenant_id) app.queue.tasks t found in
          simp found (
            λ j scope other.
                acted-Kept tenant_id now t app j scope
                  (subst (λ i. str_eq j i ≡ false) (sym own) other) request,
            λ e. absurd (nothing e),
          )
    ]
  where
    nothing : {t : Task} → some t ≡ none → ⊥
    nothing e = cc

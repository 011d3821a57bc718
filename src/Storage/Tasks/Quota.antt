-- ===== src/Storage/Tasks/Quota.antt =====
-- app/storage/repository.py: the sweep at the start, against the quotas that the rows count in.
use llm_agent_runtime.Prelude.{
  ℕ, suc, ◌≡◌, refl, ap, String, Bool, false, ◌&&◌, [], ◌∷◌, Option, none, some, keep, length,
  Bool-cases, inl, inr, ◌∙◌,
}
use llm_agent_runtime.Storage.Tasks.{
  Task, Tasks, is_active, rewrite, swept, is_interrupted, fail_interrupted_tasks, is_since, sum_by,
  tenant_token_usage, get_task, count_tasks_since, owned_by, has_id,
}
use llm_agent_runtime.Storage.Tasks.Rows.{rewritten, find_task-rewrite, maps_to}

module _ (error : String) (now : ℕ) where
  abbrev sweeps : Tasks → Tasks
  sweeps ts = rewrite is_interrupted (swept error now) ts

  abbrev after : Task → Task
  after t = rewritten is_interrupted (swept error now) t

  keep-sweeps :
      (p : Task → Bool) (ts : Tasks) (blind : (t : Task) → p (after t) ≡ p t)
      → keep p (sweeps ts) ≡ sweeps (keep p ts)
  keep-sweeps p [] blind = refl
  keep-sweeps p (t ∷ ts) blind = elim (Bool-cases (p t)) [
    | inl e ↦ rw (blind t, e, keep-sweeps p ts blind) refl
    | inr e ↦ rw (blind t, e, keep-sweeps p ts blind) refl
  ]

  none_left : (ts : Tasks) → keep is_interrupted (sweeps ts) ≡ []
  none_left [] = refl
  none_left (t ∷ ts) = elim (Bool-cases (is_interrupted t)) [
    | inl e ↦ rw e (none_left ts)
    | inr e ↦ rw (e, e) (none_left ts)
  ]

  same_used :
      (ts : Tasks) → sum_by (λ t. t.tokens_used) (sweeps ts) ≡ sum_by (λ t. t.tokens_used) ts
  same_used [] = refl
  same_used (t ∷ ts) = elim (Bool-cases (is_interrupted t)) [
    | inl e ↦ rw (e, same_used ts) refl
    | inr e ↦ rw (e, same_used ts) refl
  ]

  same_count : (ts : Tasks) → length (sweeps ts) ≡ length ts
  same_count [] = refl
  same_count (t ∷ ts) = ap suc (same_count ts)

  since_blind :
      (since : ℕ) (scope : Option String) (t : Task)
      → is_since since scope (after t) ≡ is_since since scope t
  since_blind since none t = elim (Bool-cases (is_interrupted t)) [
    | inl e ↦ rw e refl
    | inr e ↦ rw e refl
  ]
  since_blind since (some k) t = elim (Bool-cases (is_interrupted t)) [
    | inl e ↦ rw e refl
    | inr e ↦ rw e refl
  ]

  key_blind :
      (j : String) (scope : Option String) (t : Task)
      → (has_id j (after t) && owned_by scope (after t)) ≡ (has_id j t && owned_by scope t)
  key_blind j none t = elim (Bool-cases (is_interrupted t)) [
    | inl e ↦ rw e refl
    | inr e ↦ rw e refl
  ]
  key_blind j (some k) t = elim (Bool-cases (is_interrupted t)) [
    | inl e ↦ rw e refl
    | inr e ↦ rw e refl
  ]

  -- After the sweep of a start no tokens are reserved, for any tenant and day; the tokens used and the
  -- number of the day's tasks, of the tenant and of all, are what they were; and a row that was not active,
  -- one that waits for an approval among them, is as it was.
  pub fail_interrupted_tasks-frees :
      (tenant_id : String) (since : ℕ) (ts : Tasks)
      → let ts' = (fail_interrupted_tasks error now ts).1 in
        ((tenant_token_usage tenant_id since ts').reserved ≡ 0)
        × ((tenant_token_usage tenant_id since ts').used
            ≡ (tenant_token_usage tenant_id since ts).used)
        × ((scope : Option String)
            → count_tasks_since since scope ts' ≡ count_tasks_since since scope ts)
        × ((j : String) (scope : Option String) (t : Task)
            → get_task j scope ts ≡ some t
            → is_active t.status ≡ false
            → get_task j scope ts' ≡ some t)
  unfolding fail_interrupted_tasks tenant_token_usage count_tasks_since get_task
  fail_interrupted_tasks-frees tenant_id since ts = (
    ap (λ rows. sum_by (λ t. t.max_tokens) (keep is_interrupted rows))
          (keep-sweeps (is_since since (some tenant_id)) ts (since_blind since (some tenant_id)))
        ∙ ap (λ rows. sum_by (λ t. t.max_tokens) rows)
            (none_left (keep (is_since since (some tenant_id)) ts)),
    ap (λ rows. sum_by (λ t. t.tokens_used) rows)
          (keep-sweeps (is_since since (some tenant_id)) ts (since_blind since (some tenant_id)))
        ∙ same_used (keep (is_since since (some tenant_id)) ts),
    λ scope.
        ap length (keep-sweeps (is_since since scope) ts (since_blind since scope))
        ∙ same_count (keep (is_since since scope) ts),
    λ j scope t found idle.
        find_task-rewrite (λ u. has_id j u && owned_by scope u) is_interrupted (swept error now) ts
          (key_blind j scope)
        ∙ ap (maps_to after) found
        ∙ rw idle refl,
  )

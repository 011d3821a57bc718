-- ===== src/Storage/Metrics/Isolated.antt =====
-- app/storage/repository.py: what the metrics of a tenant depend on.
use llm_agent_runtime.Prelude.{
  ℕ, ◌≡◌, refl, ap, ◌∙◌, String, str_eq, Bool, false, List, [], ◌∷◌, ◌++◌, Option, none, some, keep,
  any, count, length, Bool-cases, inl, inr,
}
use llm_agent_runtime.Storage.Tasks.{
  Task, Tasks, TaskField, has_id, owned_by, get_task, update_task, written, rewrite, sum_by,
}
use llm_agent_runtime.Storage.Tasks.Rows.{SameOwner, written-SameOwner, update_task-rows}
use llm_agent_runtime.Storage.Events.{EventRow, EventTable, same_key, append_event}
use llm_agent_runtime.Storage.Metrics.{Metrics, has_status, has_type, of_rows, measured, metrics}

owner_same :
    (k : String) (t u : Task) (same : SameOwner t u) → owned_by (some k) u ≡ owned_by (some k) t
owner_same k t u same = ap (λ o. str_eq o k) same.1

-- The rows of a tenant, after a write to a row that is not its own.
own_rows :
    (k task_id : String) (fields : List TaskField) (now : ℕ) (ts : Tasks)
    (hidden : get_task task_id (some k) ts ≡ none)
    → keep (owned_by (some k)) (rewrite (has_id task_id) (written fields now) ts)
      ≡ keep (owned_by (some k)) ts
unfolding get_task
own_rows k task_id fields now [] hidden = refl
own_rows k task_id fields now (t ∷ ts) hidden = elim (Bool-cases (has_id task_id t)) [
  | inr other ↦ elim (Bool-cases (owned_by (some k) t)) [
    | inl own ↦
        rw (other, own)
          (ap (λ l. t ∷ l) (own_rows k task_id fields now ts (rw (get_task, other) at hidden)))
    | inr foreign ↦
        rw (other, foreign) (own_rows k task_id fields now ts (rw (get_task, other) at hidden))
  ]
  | inl same ↦ elim (Bool-cases (owned_by (some k) t)) [
    | inl own ↦ absurd (nothing (rw (get_task, same, own) at hidden))
    | inr foreign ↦
        rw
          (
            same,
            owner_same k t (written fields now t) (written-SameOwner fields now t) ∙ foreign,
            foreign,
          )
          (own_rows k task_id fields now ts (rw (get_task, same, foreign) at hidden))
  ]
]
  where
    nothing : some t ≡ none → ⊥
    nothing e = cc

-- No row of the tenant is the task.
not_own :
    (k task_id : String) (ts : Tasks) (hidden : get_task task_id (some k) ts ≡ none)
    → any (has_id task_id) (keep (owned_by (some k)) ts) ≡ false
unfolding get_task
not_own k task_id [] hidden = refl
not_own k task_id (t ∷ ts) hidden = elim (Bool-cases (owned_by (some k) t)) [
  | inr foreign ↦ elim (Bool-cases (has_id task_id t)) [
    | inl same ↦ rw foreign (not_own k task_id ts (rw (get_task, same, foreign) at hidden))
    | inr other ↦ rw foreign (not_own k task_id ts (rw (get_task, other) at hidden))
  ]
  | inl own ↦ elim (Bool-cases (has_id task_id t)) [
    | inl same ↦ absurd (nothing (rw (get_task, same, own) at hidden))
    | inr other ↦ rw (own, other) (not_own k task_id ts (rw (get_task, other) at hidden))
  ]
]
  where
    nothing : some t ≡ none → ⊥
    nothing e = cc

keep-append-out :
    (p : EventRow → Bool) (e : EventRow) (out : p e ≡ false) (es : EventTable)
    → keep p (es ++ e ∷ []) ≡ keep p es
keep-append-out p e out [] = rw out refl
keep-append-out p e out (x ∷ es) = elim (Bool-cases (p x)) [
  | inl h ↦ rw h (ap (λ l. x ∷ l) (keep-append-out p e out es))
  | inr h ↦ rw h (keep-append-out p e out es)
]

abbrev pub the_table : EventTable → Option EventTable → EventTable
the_table es none = es
the_table es (some es') = es'

-- The events that a tenant counts, after an event of another's task, whether the index takes it or not.
counted-foreign :
    (k : String) (ts : Tasks) (e : EventRow) (es : EventTable)
    (hidden : get_task e.task_id (some k) ts ≡ none)
    → keep (of_rows (keep (owned_by (some k)) ts)) (the_table es (append_event e es))
      ≡ keep (of_rows (keep (owned_by (some k)) ts)) es
unfolding append_event
counted-foreign k ts e es hidden = elim (Bool-cases (any (same_key e) es)) [
  | inl taken ↦ rw (append_event, taken) refl
  | inr free ↦ rw (append_event, free) (keep-append-out _ e (not_own k e.task_id ts hidden) es)
]

-- While a task that a tenant does not own is updated, and an event of it written, be it refused by the
-- unique index or not, all the metrics that the tenant sees stay: its tasks by their status, its sums and
-- its events by their type.
pub metrics-foreign :
    (k : String) (fields : List TaskField) (now : ℕ) (ts : Tasks) (e : EventRow) (es : EventTable)
    (hidden : get_task e.task_id (some k) ts ≡ none)
    → metrics (some k) (update_task e.task_id fields now ts).1 (the_table es (append_event e es))
      ≡ metrics (some k) ts es
unfolding metrics
metrics-foreign k fields now ts e es hidden =
    ap (λ rows. metrics (some k) rows (the_table es (append_event e es)))
      (update_task-rows e.task_id fields now ts)
    ∙ ap (measured (some k) (the_table es (append_event e es)))
        (own_rows k e.task_id fields now ts hidden)
    ∙ ap (counting (keep (owned_by (some k)) ts)) (counted-foreign k ts e es hidden)
  where
    counting : Tasks → EventTable → Metrics
    counting rows counted = record {
      tasks_by_status = λ s. count (has_status s) rows;
      total_tokens = sum_by (λ t. t.tokens_used) rows;
      total_steps = sum_by (λ t. t.steps_used) rows;
      total_selfheals = sum_by (λ t. t.selfheal_count) rows;
      total_duration = sum_by (λ t. t.duration) rows;
      rows = length rows;
      events_by_type = λ type. count (has_type type) counted;
    }

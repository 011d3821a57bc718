-- ===== src/Storage/Database/Deleted.antt =====
-- app/storage/repository.py: what is left after `delete_task`, for every reader.
use llm_agent_runtime.Prelude.{
  ℕ, ◌≡◌, refl, ap, sym, ◌∙◌, String, str_eq, Bool, true, false, not, ◌&&◌, [], ◌∷◌, Option, none,
  some, keep, keep-none, keep-same, first, arith, eq_iff, Bool-cases, inl, inr,
}
use llm_agent_runtime.Storage.Tasks.{Task, Tasks, owned_by, find_task, get_task}
use llm_agent_runtime.Storage.Events.{is_after, by_seq, get_events}
use llm_agent_runtime.Storage.Spans.{of_kind, by_start, get_spans_by_task}
use llm_agent_runtime.Storage.Database.{Database, cleared, delete_task}

find_task-first : (p : Task → Bool) (ts : Tasks) → find_task p ts ≡ first (keep p ts)
find_task-first p [] = refl
find_task-first p (t ∷ ts) = elim (Bool-cases (p t)) [
  | inl e ↦ rw e refl
  | inr e ↦ rw e (find_task-first p ts)
]

-- Nothing of the task `j` is left: no reader finds anything, and no row of its tool calls is there, be it
-- a result or a claim.
abbrev pub Gone : String → Database → Type 0
Gone j db =
    (get_task j none db.tasks ≡ none)
    × ((after : Option ℕ) → get_events j after db.events ≡ [])
    × ((kind : String) → get_spans_by_task j kind db.spans ≡ [])
    × (keep (λ r. str_eq r.task_id j) db.executions ≡ [])

abbrev pub SameFor : String → Database → Database → Type 0
SameFor j db db' =
    ((tenant_id : Option String) → get_task j tenant_id db'.tasks ≡ get_task j tenant_id db.tasks)
    × ((after : Option ℕ) → get_events j after db'.events ≡ get_events j after db.events)
    × ((kind : String) → get_spans_by_task j kind db'.spans ≡ get_spans_by_task j kind db.spans)
    × (keep (λ r. str_eq r.task_id j) db'.executions ≡ keep (λ r. str_eq r.task_id j) db.executions)

module _ (task_id : String) (db : Database) where
  own_out :
      (i : String) (b : Bool) → (str_eq i task_id && b) ≡ true → not (str_eq i task_id) ≡ false
  own_out i b h = ground arith

  cleared-Gone : Gone task_id (cleared task_id db)
  unfolding get_task get_events get_spans_by_task
  cleared-Gone = (
    find_task-first _ (cleared task_id db).tasks
        ∙ ap first (keep-none _ _ db.tasks (λ t h. own_out t.id true h)),
    λ after. ap by_seq (keep-none _ _ db.events (λ e h. own_out e.task_id (is_after after e) h)),
    λ kind. ap by_start (keep-none _ _ db.spans (λ s h. own_out s.task_id (of_kind kind s) h)),
    keep-none _ _ db.executions (λ r h. rw h refl),
  )

  other_in :
      (i j : String) (b : Bool) (other : str_eq j task_id ≡ false)
      → (str_eq i j && b) ≡ true
      → not (str_eq i task_id) ≡ true
  other_in i j b other h = ground (arith, h, other, eq_iff i j, eq_iff i task_id, eq_iff j task_id)

  cleared-SameFor :
      (j : String) (other : str_eq j task_id ≡ false) → SameFor j db (cleared task_id db)
  unfolding get_task get_events get_spans_by_task
  cleared-SameFor j other = (
    λ tenant_id.
        find_task-first _ (cleared task_id db).tasks
        ∙ ap first (keep-same _ _ db.tasks (λ t h. other_in t.id j (owned_by tenant_id t) other h))
        ∙ sym (find_task-first _ db.tasks),
    λ after.
        ap by_seq
          (keep-same _ _ db.events (λ e h. other_in e.task_id j (is_after after e) other h)),
    λ kind.
        ap by_start (keep-same _ _ db.spans (λ s h. other_in s.task_id j (of_kind kind s) other h)),
    keep-same _ _ db.executions (λ r h. other_in r.task_id j true other (rw h refl)),
  )

-- `delete_task` of a row that the caller may see returns it, leaves nothing of the task in the four tables,
-- its row, its events, its spans and its tool calls, those that still run included, and leaves every
-- reader of another task with what it read before, and all rows of its tool calls.
pub delete_task_complete :
    (task_id : String) (tenant_id : Option String) (db : Database) (t : Task)
    (found : get_task task_id tenant_id db.tasks ≡ some t)
    → ((delete_task task_id tenant_id db).0 ≡ some t)
      × Gone task_id (delete_task task_id tenant_id db).1
      × ((j : String)
          → str_eq j task_id ≡ false
          → SameFor j db (delete_task task_id tenant_id db).1)
unfolding delete_task
delete_task_complete task_id tenant_id db t found =
    rw (delete_task, found) (refl, cleared-Gone task_id db, cleared-SameFor task_id db)

-- ===== src/Storage/Tasks/Rows.antt =====
-- app/storage/repository.py: reads of `tasks` after its writes, for a tenant and for the callers inside.
use llm_agent_runtime.Prelude.{
  ℕ, ◌≡◌, refl, ap, String, str_eq, Bool, true, ◌&&◌, List, [], ◌∷◌, Option, none, some,
  if◌then◌else◌, arith, eq_iff, Bool-cases, inl, inr, ◌∙◌, Option-cases, sym,
}
use llm_agent_runtime.Storage.Tasks.{
  Task, Tasks, TaskField, set_status, set_result, set_error, set_tokens_used, set_steps_used,
  set_downgraded, set_selfheal_count, set_duration, has_id, owned_by, find_task, setattr, setattrs,
  written, rewrite, update_task, get_task,
}

-- A write that keeps the identity of a row and its owner.
abbrev pub SameOwner : Task → Task → Type 0
SameOwner t u =
    (u.id ≡ t.id)
    × (u.tenant_id ≡ t.tenant_id)
    × (u.max_tokens ≡ t.max_tokens)
    × (u.created_at ≡ t.created_at)

setattr-SameOwner : (f : TaskField) (t : Task) → SameOwner t (setattr f t)
setattr-SameOwner (set_status s) t = (refl, refl, refl, refl)
setattr-SameOwner (set_result r) t = (refl, refl, refl, refl)
setattr-SameOwner (set_error e) t = (refl, refl, refl, refl)
setattr-SameOwner (set_tokens_used n) t = (refl, refl, refl, refl)
setattr-SameOwner (set_steps_used n) t = (refl, refl, refl, refl)
setattr-SameOwner (set_selfheal_count n) t = (refl, refl, refl, refl)
setattr-SameOwner (set_duration n) t = (refl, refl, refl, refl)
setattr-SameOwner (set_downgraded b) t = (refl, refl, refl, refl)

pub setattrs-SameOwner : (fs : List TaskField) (t : Task) → SameOwner t (setattrs fs t)
setattrs-SameOwner [] t = (refl, refl, refl, refl)
setattrs-SameOwner (f ∷ fs) t =
    let a = setattr-SameOwner f t in
    let b = setattrs-SameOwner fs (setattr f t) in (b.0 ∙ a.0, b.1 ∙ a.1, b.2 ∙ a.2, b.3 ∙ a.3)

pub written-SameOwner : (fs : List TaskField) (now : ℕ) (t : Task) → SameOwner t (written fs now t)
written-SameOwner fs now t = setattrs-SameOwner fs t

-- The row with a key, after a write to it.
abbrev pub rewritten : (Task → Bool) → (Task → Task) → Task → Task
rewritten p f t = if p t then f t else t

abbrev pub maps_to : (Task → Task) → Option Task → Option Task
maps_to f none = none
maps_to f (some t) = some (f t)

-- A search that a write leaves alone finds the written row.
pub find_task-rewrite :
    (q p : Task → Bool) (f : Task → Task) (ts : Tasks)
    (keeps : (t : Task) → q (rewritten p f t) ≡ q t)
    → find_task q (rewrite p f ts) ≡ maps_to (rewritten p f) (find_task q ts)
find_task-rewrite q p f [] keeps = refl
find_task-rewrite q p f (t ∷ ts) keeps = elim (Bool-cases (q t)) [
  | inl e ↦ rw (keeps t, e) refl
  | inr e ↦ rw (keeps t, e) (find_task-rewrite q p f ts keeps)
]

-- Nothing to write to.
rewrite-missing :
    (p : Task → Bool) (f : Task → Task) (ts : Tasks) (missing : find_task p ts ≡ none)
    → rewrite p f ts ≡ ts
rewrite-missing p f [] missing = refl
rewrite-missing p f (t ∷ ts) missing = elim (Bool-cases (p t)) [
  | inl e ↦ absurd (nothing (rw e at missing))
  | inr e ↦ rw (e, rewrite-missing p f ts (rw e at missing)) refl
]
  where
    nothing : some t ≡ none → ⊥
    nothing e = cc

owner-key :
    (j : String) (tenant_id : Option String) (t u : Task) (same : SameOwner t u)
    → (has_id j u && owned_by tenant_id u) ≡ (has_id j t && owned_by tenant_id t)
owner-key j none t u same = ap (λ i. str_eq i j && true) same.0
owner-key j (some k) t u same =
    ap (λ i. str_eq i j && str_eq u.tenant_id k) same.0
    ∙ ap (λ o. str_eq t.id j && str_eq o k) same.1

pub same_key : (i j k : String) (same : str_eq i j ≡ true) → str_eq i k ≡ str_eq j k
same_key i j k same = ground (arith, eq_iff i j, eq_iff i k, eq_iff j k)

module _ (task_id : String) (fields : List TaskField) (now : ℕ) where
  abbrev write : Task → Task
  write t = rewritten (has_id task_id) (written fields now) t

  pub update_task-rows :
      (ts : Tasks)
      → (update_task task_id fields now ts).1 ≡ rewrite (has_id task_id) (written fields now) ts
  unfolding update_task
  update_task-rows ts = elim (Option-cases (find_task (has_id task_id) ts)) [
    | inl e ↦ rw (update_task, e) (sym (rewrite-missing (has_id task_id) (written fields now) ts e))
    | inr (t, e) ↦ rw (update_task, e) refl
  ]

  write-key :
      (j : String) (tenant_id : Option String) (t : Task)
      → (has_id j (write t) && owned_by tenant_id (write t)) ≡ (has_id j t && owned_by tenant_id t)
  write-key j tenant_id t = elim (Bool-cases (has_id task_id t)) [
    | inl e ↦ rw e (owner-key j tenant_id t (written fields now t) (written-SameOwner fields now t))
    | inr e ↦ rw e refl
  ]

  found_key :
      (j : String) (tenant_id : Option String) (ts : Tasks)
      → maps_to write (get_task j tenant_id ts) ≡ (
          if str_eq j task_id
          then maps_to (written fields now) (get_task j tenant_id ts)
          else get_task j tenant_id ts)
  unfolding get_task
  found_key j tenant_id [] = elim (Bool-cases (str_eq j task_id)) [
    | inl e ↦ rw e refl
    | inr e ↦ rw e refl
  ]
  found_key j tenant_id (t ∷ ts) = elim (Bool-cases (has_id j t)) [
    | inr other ↦ rw (get_task, other) (found_key j tenant_id ts)
    | inl own ↦ elim (Bool-cases (owned_by tenant_id t)) [
      | inr foreign ↦ rw (get_task, own, foreign) (found_key j tenant_id ts)
      | inl mine ↦ elim (Bool-cases (str_eq j task_id)) [
        | inl e ↦ rw (get_task, own, mine, same_key t.id j task_id own, e) refl
        | inr e ↦ rw (get_task, own, mine, same_key t.id j task_id own, e) refl
      ]
    ]
  ]

  -- Whoever reads a row after `update_task`, a tenant or a caller inside, sees the fields that were written
  -- if it is the row with that key, and the row as it was otherwise; the owner never changes, so that a
  -- row which was not visible to a tenant stays so.
  pub get_task-update :
      (j : String) (tenant_id : Option String) (ts : Tasks)
      → get_task j tenant_id (update_task task_id fields now ts).1 ≡ (
          if str_eq j task_id
          then maps_to (written fields now) (get_task j tenant_id ts)
          else get_task j tenant_id ts)
  unfolding get_task
  get_task-update j tenant_id ts =
      ap (λ rows. get_task j tenant_id rows) (update_task-rows ts)
      ∙ find_task-rewrite (λ t. has_id j t && owned_by tenant_id t) (has_id task_id)
          (written fields now) ts (write-key j tenant_id)
      ∙ found_key j tenant_id ts

-- ===== src/Worker/Queue/Known.antt =====
-- app/worker/local_queue.py: the registered runs, `_running`.
use llm_agent_runtime.Prelude.{
  ℕ, ◌≡◌, refl, ap, sym, ◌∙◌, String, str_eq, Bool, true, false, ◌&&◌, ◌||◌, List, [], ◌∷◌, Option,
  none, some, ◌==◌, count, lookup, insert, remove, lookup-insert, lookup-remove, All, arith, eq_iff,
  Bool-cases, inl, inr, Dict, both, same_text,
}
use llm_agent_runtime.Worker.Queue.{is_live, Run, runs_still, is_registered}
use llm_agent_runtime.Worker.Queue.Shifts.{live_of, IsKnown}

-- No run of the task is under way.
abbrev pub IsIdle : String → List Run → Type 0
IsIdle task_id runs = All (λ r. live_of task_id r ≡ false) runs

known_handle :
    (task_id : String) (registered : Dict ℕ) (r : Run) (known : IsKnown registered r)
    (live : live_of task_id r ≡ true)
    → lookup task_id registered ≡ some r.handle
known_handle task_id registered r known live =
    let parts = both (str_eq r.task_id task_id) (is_live r.stage) live in
    ap (λ i. lookup i registered) (sym (same_text r.task_id task_id parts.0)) ∙ known parts.1

-- A registered run that is not over keeps its registration.
still_runs :
    (h : ℕ) (r : Run) (rs : List Run) (same : some h ≡ some r.handle)
    (live : is_live r.stage ≡ true) (done : runs_still h (r ∷ rs) ≡ false)
    → ⊥
still_runs h r rs same live done = ground (arith, live, done, handle)
  where
    handle : h ≡ r.handle
    handle = cc

or-right : (a b : Bool) → (a || b) ≡ false → b ≡ false
or-right a b h = ground arith

other_key :
    (i j : String) (b : Bool) (live : b ≡ true) (other : (str_eq i j && b) ≡ false)
    → str_eq j i ≡ false
other_key i j b live other = ground (arith, eq_iff i j, eq_iff j i)

module _ (task_id : String) (registered : Dict ℕ) where
  pub idle :
      (o : Option ℕ) (at_o : lookup task_id registered ≡ o) (runs : List Run)
      (known : All (IsKnown registered) runs) (free : is_registered o runs ≡ false)
      → IsIdle task_id runs
  idle o at_o [] known free = known
  idle none at_o (r ∷ rs) known free = (
    elim (Bool-cases (live_of task_id r)) [
      | inr e ↦ e
      | inl e ↦ absurd (nothing (sym at_o ∙ known_handle task_id registered r known.0 e))
    ],
    idle none at_o rs known.1 free,
  )
    where
      nothing : none ≡ some r.handle → ⊥
      nothing e = cc
  idle (some h) at_o (r ∷ rs) known free = (
    elim (Bool-cases (live_of task_id r)) [
      | inr e ↦ e
      | inl e ↦ absurd (
          still_runs h r rs (sym at_o ∙ known_handle task_id registered r known.0 e)
            (both (str_eq r.task_id task_id) (is_live r.stage) e).1 free)
    ],
    idle (some h) at_o rs known.1
        (or-right ((r.handle == h) && is_live r.stage) (runs_still h rs) free),
  )

  pub insert-IsKnown :
      (n : ℕ) (runs : List Run) (known : All (IsKnown registered) runs) (rest : IsIdle task_id runs)
      → All (IsKnown (insert task_id n registered)) runs
  insert-IsKnown n [] known rest = known
  insert-IsKnown n (r ∷ rs) known rest = (
    λ live.
        rw
          (
            lookup-insert task_id r.task_id n registered,
            other_key r.task_id task_id (is_live r.stage) live rest.0,
          )
          (known.0 live),
    insert-IsKnown n rs known.1 rest.1,
  )

  pub remove-IsKnown :
      (h : ℕ) (runs : List Run) (known : All (IsKnown registered) runs)
      (done : runs_still h runs ≡ false) (own : lookup task_id registered ≡ some h)
      → All (IsKnown (remove task_id registered)) runs
  remove-IsKnown h [] known done own = known
  remove-IsKnown h (r ∷ rs) known done own = (
    λ live. elim (Bool-cases (str_eq task_id r.task_id)) [
      | inr e ↦ rw (lookup-remove task_id r.task_id registered, e) (known.0 live)
      | inl e ↦ absurd (
          still_runs h r rs
            (sym own ∙ ap (λ i. lookup i registered) (same_text task_id r.task_id e) ∙ known.0 live)
            live done)
    ],
    remove-IsKnown h rs known.1
        (or-right ((r.handle == h) && is_live r.stage) (runs_still h rs) done) own,
  )

pub idle-count :
    (task_id : String) (runs : List Run) (rest : IsIdle task_id runs)
    → count (live_of task_id) runs ≡ 0
idle-count task_id [] rest = refl
idle-count task_id (r ∷ rs) rest = rw rest.0 (idle-count task_id rs rest.1)

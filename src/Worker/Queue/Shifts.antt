-- ===== src/Worker/Queue/Shifts.antt =====
-- app/worker/local_queue.py: runs of the queue side by side, and what a run that goes on does to the
-- counts of the others.
use llm_agent_runtime.Prelude.{
  both, ℕ, ◌+◌, ◌≤◌, ◌≡◌, refl, ap, String, str_eq, Bool, true, ◌&&◌, List, [], ◌∷◌, Option, none,
  some, if◌then◌else◌, ◌==◌, length, keep, count, lookup, All, arith, Bool-cases, inl, inr, Dict,
}
use llm_agent_runtime.Worker.Queue.{Stage, is_live, has_place, Run, Queue, shift, find_run}

abbrev pub live_of : String → Run → Bool
live_of task_id r = str_eq r.task_id task_id && is_live r.stage

unfoldable pub holders : List Run → ℕ
holders runs = count (λ r. has_place r.stage) runs

-- A run that is not over is the registered one of its task.
abbrev pub IsKnown : Dict ℕ → Run → Type 0
IsKnown registered r = is_live r.stage ≡ true → lookup r.task_id registered ≡ some r.handle

-- At most one run of each task is not over, it is the registered one, and the places of the semaphore are
-- taken by the runs within it and by no others.
abbrev pub IsSound : (permits : ℕ) → Queue → Type 0
IsSound permits q =
    All (IsKnown q.registered) q.runs
    × ((task_id : String) → count (live_of task_id) q.runs ≤ 1)
    × (holders q.runs + q.free ≡ permits)

module _ (handle : ℕ) (here : Stage → Bool) (stage : Stage)
    (alive : (s : Stage) → here s ≡ true → is_live s ≡ true) where
  pub shift-IsKnown :
      (registered : Dict ℕ) (runs : List Run) (known : All (IsKnown registered) runs)
      → All (IsKnown registered) (shift handle here stage runs)
  shift-IsKnown registered [] known = known
  shift-IsKnown registered (r ∷ rs) known =
      elim (Bool-cases ((r.handle == handle) && here r.stage)) [
        | inl e ↦
            rw e
              (λ h. known.0 (alive r.stage (both (r.handle == handle) (here r.stage) e).1), known.1)
        | inr e ↦ rw e (known.0, shift-IsKnown registered rs known.1)
      ]

  pub shift-once :
      (task_id : String) (runs : List Run)
      → count (live_of task_id) (shift handle here stage runs) ≤ count (live_of task_id) runs
  shift-once task_id [] = omega arith
  shift-once task_id (r ∷ rs) = elim (Bool-cases ((r.handle == handle) && here r.stage)) [
    | inl e ↦ rw e (ground (arith, alive r.stage (both (r.handle == handle) (here r.stage) e).1))
    | inr e ↦ rw e (ground (arith, shift-once task_id rs))
  ]

abbrev pub tally : Stage → ℕ
tally s = if has_place s then 1 else 0

holders-cons :
    (r : Run) (st : Stage) (rs : List Run)
    → length (
        if has_place st
        then r ∷ keep (λ r. has_place r.stage) rs
        else keep (λ r. has_place r.stage) rs)
      ≡ tally st + holders rs
unfolding holders
holders-cons r st rs = elim (Bool-cases (has_place st)) [
  | inl e ↦ rw e (omega arith)
  | inr e ↦ rw e (omega arith)
]

-- The runs within the semaphore, after the first run that is found has gone on.
pub shift-holders :
    (handle : ℕ) (here : Stage → Bool) (was stage : Stage)
    (only : (s : Stage) → here s ≡ true → s ≡ was) (runs : List Run) (r : Run)
    (found : find_run handle here runs ≡ some r)
    → holders (shift handle here stage runs) + tally was ≡ holders runs + tally stage
unfolding holders
shift-holders handle here was stage only [] r found = absurd (nothing found)
  where
    nothing : none ≡ some r → ⊥
    nothing e = cc
shift-holders handle here was stage only (s ∷ rs) r found =
    elim (Bool-cases ((s.handle == handle) && here s.stage)) [
      | inl e ↦ rw e (
          omega (
            arith,
            holders-cons (record s { stage = stage }) stage rs,
            holders-cons s s.stage rs,
            ap tally (only s.stage (both (s.handle == handle) (here s.stage) e).1),
          ))
      | inr e ↦ rw e (
          omega (
            arith,
            holders-cons s s.stage (shift handle here stage rs),
            holders-cons s s.stage rs,
            shift-holders handle here was stage only rs r (rw e at found),
          ))
    ]

pub found_handle :
    (handle : ℕ) (here : Stage → Bool) (runs : List Run) (r : Run)
    (found : find_run handle here runs ≡ some r)
    → r.handle ≡ handle
found_handle handle here [] r found = absurd (nothing found)
  where
    nothing : none ≡ some r → ⊥
    nothing e = cc
found_handle handle here (s ∷ rs) r found =
    elim (Bool-cases ((s.handle == handle) && here s.stage)) [
      | inl e ↦ that (rw e at found) (both (s.handle == handle) (here s.stage) e).0
      | inr e ↦ found_handle handle here rs r (rw e at found)
    ]
  where
    that : some s ≡ some r → (s.handle == handle) ≡ true → r.handle ≡ handle
    that same h = ground (arith, (ap handle_of same), h)
      where
        handle_of : Option Run → ℕ
        handle_of none = 0
        handle_of (some u) = u.handle

pub shift-missing :
    (handle : ℕ) (here : Stage → Bool) (stage : Stage) (runs : List Run)
    (missing : find_run handle here runs ≡ none)
    → shift handle here stage runs ≡ runs
shift-missing handle here stage [] missing = refl
shift-missing handle here stage (s ∷ rs) missing =
    elim (Bool-cases ((s.handle == handle) && here s.stage)) [
      | inl e ↦ absurd (nothing (rw e at missing))
      | inr e ↦ rw (e, shift-missing handle here stage rs (rw e at missing)) refl
    ]
  where
    nothing : some s ≡ none → ⊥
    nothing e = cc

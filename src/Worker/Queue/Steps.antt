-- ===== src/Worker/Queue/Steps.antt =====
-- app/worker/local_queue.py: the registered runs and the semaphore, operation by operation.
use llm_agent_runtime.Prelude.{
  ℕ, zero, suc, ◌+◌, ◌-◌, ◌≤◌, ◌≡◌, refl, ap, sym, ◌∙◌, subst, String, str_eq, Bool, true, false,
  ◌&&◌, not, List, [], ◌∷◌, ◌++◌, Option, none, some, ltb, count, count-append, lookup, insert,
  lookup-insert, All-append, arith, Bool-cases, Option-cases, inl, inr, ltb→lt, both, same_text,
  own_text,
}
use llm_agent_runtime.Storage.Tasks.{Task, get_task}
use llm_agent_runtime.Worker.Queue.{
  Stage, starting, waiting, looking, found, preparing, failing, holding, over, is_live, has_place,
  order, is_at, Run, Queue, runs_still, is_registered, spawn, shift, find_run, begin, enter, seen,
  looked, look, prepare, mark, give_up, Outcome, updates, finish, can_drop, place_of, drop_run,
  forget, consumed, is_handle,
}
use llm_agent_runtime.Worker.Queue.Known.{IsIdle, idle, insert-IsKnown, remove-IsKnown, idle-count}
use llm_agent_runtime.Worker.Queue.Shifts.{
  live_of, IsKnown, holders, IsSound, shift-IsKnown, shift-once, tally, shift-holders, found_handle,
}

stage_at : ℕ → Stage
stage_at zero = starting
stage_at (suc zero) = waiting
stage_at (suc (suc zero)) = looking
stage_at (suc (suc (suc zero))) = found
stage_at (suc (suc (suc (suc zero)))) = preparing
stage_at (suc (suc (suc (suc (suc zero))))) = failing
stage_at (suc (suc (suc (suc (suc (suc zero)))))) = holding
stage_at _ = over

stage_at-order : (s : Stage) → stage_at (order s) ≡ s
unfolding stage_at
stage_at-order starting = refl
stage_at-order waiting = refl
stage_at-order looking = refl
stage_at-order found = refl
stage_at-order preparing = refl
stage_at-order failing = refl
stage_at-order holding = refl
stage_at-order over = refl

only_at : (was s : Stage) → is_at was s ≡ true → s ≡ was
only_at was s e =
    let same : order s ≡ order was = ground arith in
    sym (stage_at-order s) ∙ ap stage_at same ∙ stage_at-order was

alive_at :
    (was : Stage) (alive : is_live was ≡ true) (s : Stage) → is_at was s ≡ true → is_live s ≡ true
alive_at was alive s e = ap is_live (only_at was s e) ∙ alive

module _ (permits : ℕ) where
  -- A run goes on, and with it the places that are free.
  goes_on :
      (handle free : ℕ) (was stage : Stage) (alive : is_live was ≡ true) (q : Queue) (r : Run)
      (is_there : find_run handle (is_at was) q.runs ≡ some r)
      (places : free + tally stage ≡ q.free + tally was) (sound : IsSound permits q)
      → IsSound permits (record q { runs = shift handle (is_at was) stage q.runs; free = free })
  goes_on handle free was stage alive q r is_there places sound = (
    shift-IsKnown handle (is_at was) stage (alive_at was alive) q.registered q.runs sound.0,
    λ j.
        omega (arith, shift-once handle (is_at was) stage (alive_at was alive) j q.runs, sound.1 j),
    omega (
      arith,
      shift-holders handle (is_at was) was stage (only_at was) q.runs r is_there,
      places,
      sound.2,
    ),
  )

  -- A run that is added while none of its task is under way.
  pub added-IsSound :
      (r : Run) (q : Queue) (stage : r.stage ≡ starting) (rest : IsIdle r.task_id q.runs)
      (sound : IsSound permits q)
      → IsSound permits (record q {
        registered = insert r.task_id r.handle q.registered;
        runs = q.runs ++ r ∷ [];
      })
  unfolding holders
  added-IsSound r q stage rest sound = (
    All-append (IsKnown (insert r.task_id r.handle q.registered)) q.runs (r ∷ [])
        (insert-IsKnown r.task_id q.registered r.handle q.runs sound.0 rest) (itself, tt),
    λ j. omega (arith, count-append (live_of j) q.runs (r ∷ []), alone j),
    omega (arith, count-append (λ s. has_place s.stage) q.runs (r ∷ []), not_in, sound.2),
  )
    where
      itself : IsKnown (insert r.task_id r.handle q.registered) r
      itself live =
          rw (lookup-insert r.task_id r.task_id r.handle q.registered, own_text r.task_id) refl

      not_in : count (λ s. has_place s.stage) (r ∷ []) ≡ 0
      not_in = rw stage refl

      alone : (j : String) → count (live_of j) q.runs + count (live_of j) (r ∷ []) ≤ 1
      alone j = elim (Bool-cases (str_eq r.task_id j)) [
        | inr other ↦ rw other (omega (arith, sound.1 j))
        | inl own ↦ ground (
          arith,
          idle-count r.task_id q.runs rest,
          ap (λ i. count (live_of i) q.runs) (same_text r.task_id j own),
        )
      ]

  pub spawn-IsSound :
      (task_id : String) (resume : Option (Option Bool)) (q : Queue) (sound : IsSound permits q)
      → IsSound permits (spawn task_id resume q)
  unfolding spawn holders
  spawn-IsSound task_id resume q sound =
      elim (Bool-cases (is_registered (lookup task_id q.registered) q.runs)) [
        | inl busy ↦ simp busy sound
        | inr free ↦ simp free (
            added-IsSound _ q refl
              (idle task_id q.registered (lookup task_id q.registered) refl q.runs sound.0 free)
              sound)
      ]

  pub consumed-IsSound :
      (ids : List String) (q : Queue) (sound : IsSound permits q) → IsSound permits (consumed ids q)
  unfolding consumed
  consumed-IsSound [] q sound = sound
  consumed-IsSound (task_id ∷ ids) q sound =
      spawn-IsSound task_id none (record q { waiting_ids = ids }) sound

  found_itself :
      (handle : ℕ) (here : Stage → Bool) (runs : List Run) (r : Run)
      (is_there : find_run handle here runs ≡ some r)
      → find_run r.handle here runs ≡ some r
  found_itself handle here runs r is_there =
      subst (λ h. find_run h here runs ≡ some r) (sym (found_handle handle here runs r is_there))
        is_there

  pub begin-IsSound :
      (handle : ℕ) (q : Queue) (sound : IsSound permits q) → IsSound permits (begin handle q)
  unfolding begin
  begin-IsSound handle q sound = elim (Option-cases (find_run handle (is_at starting) q.runs)) [
    | inl missing ↦ simp missing sound
    | inr (r, is_there) ↦ simp is_there (
        goes_on r.handle q.free starting waiting refl q r
          (found_itself handle (is_at starting) q.runs r is_there) (omega arith) sound)
  ]

  pub enter-IsSound :
      (handle : ℕ) (q : Queue) (sound : IsSound permits q) → IsSound permits (enter handle q)
  unfolding enter
  enter-IsSound handle q sound = elim (Bool-cases (ltb 0 q.free)) [
    | inr full ↦ simp full sound
    | inl some_free ↦ elim (Option-cases (find_run handle (is_at waiting) q.runs)) [
      | inl missing ↦ simp (some_free, missing) sound
      | inr (r, is_there) ↦
          simp (some_free, is_there)
            (goes_on r.handle (q.free - 1) waiting looking refl q r
              (found_itself handle (is_at waiting) q.runs r is_there)
              (omega (arith, ltb→lt 0 q.free some_free)) sound)
    ]
  ]

  seen-IsSound :
      (r : Run) (q : Queue) (is_there : find_run r.handle (is_at looking) q.runs ≡ some r)
      (sound : IsSound permits q) (t : Option Task)
      → IsSound permits (seen r q t)
  seen-IsSound r q is_there sound none =
      goes_on r.handle (q.free + 1) looking over refl q r is_there (omega arith) sound
  seen-IsSound r q is_there sound (some t) =
      goes_on r.handle q.free looking found refl q r is_there (omega arith) sound

  pub look-IsSound :
      (handle : ℕ) (q : Queue) (sound : IsSound permits q) → IsSound permits (look handle q)
  unfolding look looked
  look-IsSound handle q sound = elim (Option-cases (find_run handle (is_at looking) q.runs)) [
    | inl missing ↦ simp missing sound
    | inr (r, is_there) ↦ simp is_there (
        seen-IsSound r q (found_itself handle (is_at looking) q.runs r is_there) sound
          (get_task r.task_id none q.tasks))
  ]

  pub prepare-IsSound :
      (handle : ℕ) (q : Queue) (sound : IsSound permits q) → IsSound permits (prepare handle q)
  unfolding prepare
  prepare-IsSound handle q sound = elim (Option-cases (find_run handle (is_at found) q.runs)) [
    | inl missing ↦ simp missing sound
    | inr (r, is_there) ↦
        let itself = found_itself handle (is_at found) q.runs r is_there in
        elim (Bool-cases q.has_engine) [
          | inl e ↦
              simp (is_there, e)
                (goes_on r.handle q.free found preparing refl q r itself (omega arith) sound)
          | inr e ↦
              simp (is_there, e)
                (goes_on r.handle q.free found failing refl q r itself (omega arith) sound)
        ]
  ]

  pub mark-IsSound :
      (handle now : ℕ) (q : Queue) (sound : IsSound permits q) → IsSound permits (mark handle now q)
  unfolding mark updates
  mark-IsSound handle now q sound = elim (Option-cases (find_run handle (is_at preparing) q.runs)) [
    | inl missing ↦ simp missing sound
    | inr (r, is_there) ↦ simp is_there (
        goes_on r.handle q.free preparing holding refl q r
          (found_itself handle (is_at preparing) q.runs r is_there) (omega arith) sound)
  ]

  pub give_up-IsSound :
      (handle now : ℕ) (q : Queue) (sound : IsSound permits q)
      → IsSound permits (give_up handle now q)
  unfolding give_up updates
  give_up-IsSound handle now q sound =
      elim (Option-cases (find_run handle (is_at failing) q.runs)) [
        | inl missing ↦ simp missing sound
        | inr (r, is_there) ↦ simp is_there (
            goes_on r.handle (q.free + 1) failing over refl q r
              (found_itself handle (is_at failing) q.runs r is_there) (omega arith) sound)
      ]

  pub finish-IsSound :
      (handle : ℕ) (outcome : Outcome) (duration now : ℕ) (q : Queue) (sound : IsSound permits q)
      → IsSound permits (finish handle outcome duration now q)
  unfolding finish updates
  finish-IsSound handle outcome duration now q sound =
      elim (Option-cases (find_run handle (is_at holding) q.runs)) [
        | inl missing ↦ simp missing sound
        | inr (r, is_there) ↦ simp is_there (
            goes_on r.handle (q.free + 1) holding over refl q r
              (found_itself handle (is_at holding) q.runs r is_there) (omega arith) sound)
      ]

  pub drop-IsSound :
      (was : Stage) (handle : ℕ) (q : Queue) (sound : IsSound permits q)
      → IsSound permits (drop_run was handle q)
  unfolding drop_run
  drop-IsSound was handle q sound = elim (Bool-cases (can_drop was)) [
    | inr kept ↦ simp kept sound
    | inl free ↦ elim (Option-cases (find_run handle (is_at was) q.runs)) [
      | inl missing ↦ simp (free, missing) sound
      | inr (r, is_there) ↦
          simp (free, is_there)
            (goes_on r.handle (q.free + place_of was) was over (dropped_live was free) q r
              (found_itself handle (is_at was) q.runs r is_there) (omega arith) sound)
    ]
  ]
    where
      dropped_live : (s : Stage) → can_drop s ≡ true → is_live s ≡ true
      dropped_live starting e = refl
      dropped_live waiting e = refl
      dropped_live looking e = refl
      dropped_live found e = refl
      dropped_live preparing e = refl
      dropped_live failing e = refl
      dropped_live holding e = refl
      dropped_live over e = cc

  pub forget-IsSound :
      (task_id : String) (handle : ℕ) (q : Queue) (sound : IsSound permits q)
      → IsSound permits (forget task_id handle q)
  unfolding forget
  forget-IsSound task_id handle q sound =
      elim (Bool-cases
        (not (runs_still handle q.runs) && is_handle handle (lookup task_id q.registered))) [
          | inr other ↦ simp other sound
          | inl own ↦
              let parts =
                both (not (runs_still handle q.runs))
                  (is_handle handle (lookup task_id q.registered)) own in
              simp own (
                remove-IsKnown task_id q.registered handle q.runs sound.0
                    (not-true (runs_still handle q.runs) parts.0)
                    (registered_handle (lookup task_id q.registered) parts.1),
                sound.1,
                sound.2,
              )
        ]
    where
      not-true : (b : Bool) → not b ≡ true → b ≡ false
      not-true b h = ground arith

      registered_handle : (o : Option ℕ) → is_handle handle o ≡ true → o ≡ some handle
      registered_handle none h = cc
      registered_handle (some n) h = ground (arith, h)

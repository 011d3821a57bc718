-- ===== src/Worker/Queue/Once.antt =====
-- app/worker/local_queue.py: the queue, one move at a time.
use llm_agent_runtime.Prelude.{
  ℕ, String, Bool, ◌&&◌, List, [], ◌∷◌, Option, some, lookup, Bool-cases, inl, inr,
}
use llm_agent_runtime.Worker.Queue.{
  Stage, Queue, submit, spawn, submit_resume, consume, cancel, begin, enter, look, prepare, mark,
  give_up, Outcome, updates, is_some, finish, drop_run, forget, close,
}
use llm_agent_runtime.Worker.Queue.Steps.{
  spawn-IsSound, consumed-IsSound, begin-IsSound, enter-IsSound, look-IsSound, prepare-IsSound,
  mark-IsSound, give_up-IsSound, finish-IsSound, drop-IsSound, forget-IsSound,
}
use llm_agent_runtime.Worker.Queue.Shifts.{IsSound}

pub data Move : Type 0 where
  submits : String → (traceparent : Option String) → (now : ℕ) → Move
  resumes : String → (resume_value : Option Bool) → Move
  consumes closes : Move
  cancels : String → Move
  begins enters_at looks prepares : (handle : ℕ) → Move
  marks gives_up : (handle now : ℕ) → Move
  finishes : (handle : ℕ) → Outcome → (duration now : ℕ) → Move
  drops : (was : Stage) → (handle : ℕ) → Move
  forgets : String → (handle : ℕ) → Move

pub play : Move → Queue → Queue
unfolding submit submit_resume consume close cancel begin enter look prepare mark give_up finish
    drop_run forget spawn
play (submits task_id traceparent now) q = submit task_id traceparent now q
play (resumes task_id resume_value) q = submit_resume task_id resume_value q
play consumes q = consume q
play closes q = close q
play (cancels task_id) q = (cancel task_id q).1
play (begins handle) q = begin handle q
play (enters_at handle) q = enter handle q
play (looks handle) q = look handle q
play (prepares handle) q = prepare handle q
play (marks handle now) q = mark handle now q
play (gives_up handle now) q = give_up handle now q
play (finishes handle outcome duration now) q = finish handle outcome duration now q
play (drops was handle) q = drop_run was handle q
play (forgets task_id handle) q = forget task_id handle q

pub plays : List Move → Queue → Queue
plays [] q = q
plays (m ∷ ms) q = plays ms (play m q)

module _ (permits : ℕ) where
  cancel-IsSound :
      (task_id : String) (q : Queue) (sound : IsSound permits q)
      → IsSound permits (cancel task_id q).1
  unfolding cancel
  cancel-IsSound task_id q sound =
      elim (Bool-cases (q.has_engine && is_some (lookup task_id q.registered))) [
        | inl e ↦ rw (cancel, e) sound
        | inr e ↦ rw (cancel, e) sound
      ]

  play-IsSound : (m : Move) (q : Queue) (sound : IsSound permits q) → IsSound permits (play m q)
  unfolding play submit updates cancel consume close submit_resume
  play-IsSound (submits task_id traceparent now) q sound = sound
  play-IsSound (resumes task_id resume_value) q sound =
      spawn-IsSound permits task_id (some resume_value) q sound
  play-IsSound consumes q sound = elim (Bool-cases q.closing) [
    | inl e ↦ simp e sound
    | inr e ↦ simp e (consumed-IsSound permits q.waiting_ids q sound)
  ]
  play-IsSound closes q sound = sound
  play-IsSound (cancels task_id) q sound = cancel-IsSound task_id q sound
  play-IsSound (begins handle) q sound = begin-IsSound permits handle q sound
  play-IsSound (enters_at handle) q sound = enter-IsSound permits handle q sound
  play-IsSound (looks handle) q sound = look-IsSound permits handle q sound
  play-IsSound (prepares handle) q sound = prepare-IsSound permits handle q sound
  play-IsSound (marks handle now) q sound = mark-IsSound permits handle now q sound
  play-IsSound (gives_up handle now) q sound = give_up-IsSound permits handle now q sound
  play-IsSound (finishes handle outcome duration now) q sound =
      finish-IsSound permits handle outcome duration now q sound
  play-IsSound (drops was handle) q sound = drop-IsSound permits was handle q sound
  play-IsSound (forgets task_id handle) q sound = forget-IsSound permits task_id handle q sound

  -- However submissions, resumptions, cancellations, turns of the consume loop, and the parts of each run
  -- between two of its awaits follow on each other: at every moment at most one run of each task is
  -- not over, it is the one that is registered, which cancellation and shutdown reach, and the places of
  -- the semaphore that are not free are those of the runs within it. This holds from any state in which it
  -- holds.
  pub plays-IsSound :
      (moves : List Move) (q : Queue) (sound : IsSound permits q) → IsSound permits (plays moves q)
  unfolding plays
  plays-IsSound [] q sound = sound
  plays-IsSound (m ∷ ms) q sound = plays-IsSound ms (play m q) (play-IsSound m q sound)

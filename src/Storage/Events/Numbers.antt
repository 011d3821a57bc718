-- ===== src/Storage/Events/Numbers.antt =====
-- app/storage/repository.py: the numbers of the rows of `events`, and what a subscription after one of
-- them sees.
use llm_agent_runtime.Prelude.{
  own_text, ℕ, suc, ◌≤◌, ◌<◌, ◌≡◌, refl, ap, String, Bool, false, ◌&&◌, List, [], ◌∷◌, ◌++◌, some,
  max, keep, any, arith, Bool-cases, inl, inr, lt→ltb, le→ltb-false, le→leb,
}
use llm_agent_runtime.Graph.State.{Event}
use llm_agent_runtime.Storage.Events.{
  EventRow, EventTable, of_task, same_key, is_after, by_seq, max_seq,
}

abbrev pub row_at : (task_id trace_id : String) → ℕ → Event → EventRow
row_at task_id trace_id n e = record { task_id = task_id; seq = n; trace_id = trace_id; event = e }

-- The rows of `events` for a task whose last number is `n`.
abbrev pub rows_from : (task_id trace_id : String) → ℕ → List Event → EventTable
rows_from task_id trace_id n [] = []
rows_from task_id trace_id n (e ∷ es) =
    row_at task_id trace_id (suc n) e ∷ rows_from task_id trace_id (suc n) es

abbrev pub last_of : String → EventTable → ℕ
last_of task_id table = max_seq (keep (of_task task_id) table)

module _ (task_id trace_id : String) where
  abbrev seen : ℕ → EventRow → Bool
  seen after e = of_task task_id e && is_after (some after) e

  -- A number above the task's last is free.
  pub append-fresh :
      (n : ℕ) (new : Event) (table : EventTable) (above : last_of task_id table < n)
      → any (same_key (row_at task_id trace_id n new)) table ≡ false
  append-fresh n new [] above = refl
  append-fresh n new (e ∷ es) above = elim (Bool-cases (of_task task_id e)) [
    | inl own ↦ ground (arith, own, append-fresh n new es, (rw own at above))
    | inr other ↦ rw other (append-fresh n new es (rw other at above))
  ]

  pub last_of-append :
      (n : ℕ) (new : Event) (table : EventTable)
      → last_of task_id (table ++ row_at task_id trace_id n new ∷ [])
        ≡ max (last_of task_id table) n
  last_of-append n new [] = rw (own_text task_id) (ground arith)
  last_of-append n new (e ∷ es) = elim (Bool-cases (of_task task_id e)) [
    | inl own ↦ rw own (omega (arith, last_of-append n new es))
    | inr other ↦ rw other (last_of-append n new es)
  ]

  -- Nothing of the table is beyond the task's last number.
  pub seen_old :
      (after : ℕ) (table new : EventTable) (below : last_of task_id table ≤ after)
      → keep (seen after) (table ++ new) ≡ keep (seen after) new
  seen_old after [] new below = refl
  seen_old after (e ∷ es) new below = elim (Bool-cases (of_task task_id e)) [
    | inl own ↦
        rw (own, le→ltb-false after e.seq (omega (arith, (rw own at below))))
          (seen_old after es new (omega (arith, (rw own at below))))
    | inr other ↦ rw other (seen_old after es new (rw other at below))
  ]

  pub seen_new :
      (after n : ℕ) (events : List Event) (below : after ≤ n)
      → keep (seen after) (rows_from task_id trace_id n events)
        ≡ rows_from task_id trace_id n events
  seen_new after n [] below = refl
  seen_new after n (e ∷ es) below =
      rw (own_text task_id, lt→ltb after (suc n) (omega (arith, below)))
        (ap (λ l. row_at task_id trace_id (suc n) e ∷ l)
          (seen_new after (suc n) es (omega (arith, below))))

  pub by_seq-rows :
      (n : ℕ) (events : List Event)
      → by_seq (rows_from task_id trace_id n events) ≡ rows_from task_id trace_id n events
  by_seq-rows n [] = refl
  by_seq-rows n (e ∷ []) = refl
  by_seq-rows n (e ∷ f ∷ es) =
      rw (by_seq-rows (suc n) (f ∷ es), le→leb (suc n) (suc (suc n)) (omega arith)) refl

-- ===== src/Graph/Engine/Sequence/Visible.antt =====
-- app/graph/engine.py: the events of a run, as a subscriber of the table sees them.
use llm_agent_runtime.Prelude.{
  own_text, ℕ, suc, ◌≤◌, ◌≡◌, refl, ap, String, List, [], ◌∷◌, ◌++◌, some, ltb, lookup_or, insert,
  lookup-insert, arith, ◌∙◌, ltb-false→le, Bool-cases, inl, inr, Dict,
}
use native.Mathlib.Numerals.{add-one}
use mathlib.Core.List.{append-nil, append_assoc}
use llm_agent_runtime.Graph.State.{Event}
use llm_agent_runtime.Storage.Events.{EventTable, append_event, get_events, get_max_event_seq}
use llm_agent_runtime.Storage.Events.Numbers.{
  row_at, rows_from, last_of, append-fresh, last_of-append, seen_old, seen_new, by_seq-rows,
}
use llm_agent_runtime.Graph.Engine.Sequence.{
  Seqs, stored, seed_seq, numbered, emit, emit_all, run_events,
}

lookup_or-own : (k : String) (v : ℕ) (d : Dict ℕ) → lookup_or 0 k (insert k v d) ≡ v
lookup_or-own k v d = rw (lookup_or, lookup-insert k k v d, own_text k) refl

module _ (task_id trace_id : String) where
  emit-fresh :
      (n : ℕ) (e : Event) (seqs : Seqs) (table : EventTable) (at_n : lookup_or 0 task_id seqs ≡ n)
      (below : last_of task_id table ≤ n)
      → emit task_id trace_id e seqs table
        ≡ some (insert task_id (suc n) seqs, table ++ row_at task_id trace_id (suc n) e ∷ [])
  unfolding emit numbered append_event
  emit-fresh n e seqs table at_n below =
      rw
        (
          emit,
          numbered,
          at_n,
          add-one,
          append-fresh task_id trace_id (suc n) e table (omega (arith, below)),
        )
        refl

  emit_all-fresh :
      (n : ℕ) (es : List Event) (seqs : Seqs) (table : EventTable)
      (at_n : lookup_or 0 task_id seqs ≡ n) (below : last_of task_id table ≤ n)
      → (seqs' : Seqs) × (emit_all task_id trace_id es seqs table
          ≡ some (seqs', table ++ rows_from task_id trace_id n es))
  unfolding emit_all
  emit_all-fresh n [] seqs table at_n below = (seqs, rw (append-nil table) refl)
  emit_all-fresh n (e ∷ es) seqs table at_n below =
      let row = row_at task_id trace_id (suc n) e in
      let rest =
        emit_all-fresh (suc n) es (insert task_id (suc n) seqs) (table ++ row ∷ [])
          (lookup_or-own task_id (suc n) seqs)
          (omega (arith, last_of-append task_id trace_id (suc n) e table, below)) in
      (
        rest.0,
        rw (emit_all, emit-fresh n e seqs table at_n below)
            (rest.1
              ∙ ap (λ t. some (rest.0, t))
                  (append_assoc table (row ∷ []) (rows_from task_id trace_id (suc n) es))),
      )

  seeded :
      (stored_seq : ℕ) (seqs : Seqs)
      → stored_seq ≤ lookup_or 0 task_id (seed_seq task_id (stored stored_seq) seqs)
  unfolding seed_seq
  seeded m seqs = elim (Bool-cases (ltb (lookup_or 0 task_id seqs) m)) [
    | inl less ↦ rw (seed_seq, less, lookup_or-own task_id m seqs) (omega arith)
    | inr over ↦ rw (seed_seq, over) (ltb-false→le _ _ over)
  ]

  -- Whatever number the engine is at, be it one that started afresh after a crash, a run whose counter has
  -- been seeded from the table stores every event that it emits, numbered on without a gap, and a
  -- subscriber that has seen the task's last stored number sees exactly the new events, in the order in
  -- which they were emitted.
  pub run_events-visible :
      (events : List Event) (seqs : Seqs) (table : EventTable)
      → let last = get_max_event_seq task_id table in
        let n = lookup_or 0 task_id (seed_seq task_id (stored last) seqs) in
        (seqs' : Seqs) × (table' : EventTable) × (run_events task_id trace_id events seqs table
          ≡ some (seqs', table'))
        × (get_events task_id (some last) table' ≡ rows_from task_id trace_id n events)
  unfolding run_events get_events get_max_event_seq
  run_events-visible events seqs table =
      let last = last_of task_id table in
      let seqs0 = seed_seq task_id (stored last) seqs in
      let n = lookup_or 0 task_id seqs0 in
      let run = emit_all-fresh n events seqs0 table refl (seeded last seqs) in
      (
        run.0,
        table ++ rows_from task_id trace_id n events,
        run.1,
        rw
            (
              seen_old task_id trace_id last table (rows_from task_id trace_id n events)
                  (omega arith),
              seen_new task_id trace_id last n events (seeded last seqs),
              by_seq-rows task_id trace_id n events,
            )
            refl,
      )

-- ===== src/Graph/Engine/Spans/Capped.antt =====
-- app/graph/engine.py: how many spans `flush_spans` stores.
use llm_agent_runtime.Prelude.{
  ℕ, zero, suc, ◌+◌, ◌-◌, ◌≤◌, ◌<◌, ◌≡◌, String, str_eq, Bool, ◌&&◌, List, [], ◌∷◌, length,
  length-append, take, keep, ltb, ◌==◌, lookup_or, insert, lookup-insert, arith, Bool-cases, inl,
  inr, All, All-keep, count, count-append, true, ap, same_text, ◌++◌, if◌then◌else◌,
}
use llm_agent_runtime.Storage.Spans.{SpanRow, SpanTable, record_spans}
use llm_agent_runtime.Observability.Spans.{Buffer, of_task, drain_for}
use llm_agent_runtime.Graph.Engine.Spans.{Flushed, has_trace, cut, flush_spans}

length-take_le : (n : ℕ) (xs : List SpanRow) → length (take n xs) ≤ n
length-take_le zero xs = omega arith
length-take_le (suc n) [] = omega arith
length-take_le (suc n) (x ∷ xs) = omega (arith, length-take_le n xs)

cut_fits :
    (limit used : ℕ) (pending : List SpanRow) (limited : 0 < limit) (within : used ≤ limit)
    → used + length (cut limit used pending) ≤ limit
cut_fits limit used pending limited within =
    elim (Bool-cases (ltb 0 limit && ltb limit (used + length pending))) [
      | inl over ↦ rw over (omega (arith, length-take_le (limit - used) pending, within))
      | inr fits ↦ rw fits (ground (arith, fits, limited))
    ]

own_drained :
    (task_id : String) (ss : List SpanRow)
    → All (λ s. of_task task_id s ≡ true) (keep (of_task task_id) ss)
own_drained task_id [] = tt
own_drained task_id (s ∷ ss) = elim (Bool-cases (of_task task_id s)) [
  | inl own ↦ rw own (own, own_drained task_id ss)
  | inr other ↦ rw other (own_drained task_id ss)
]

All-take : (P : SpanRow → Type 0) (n : ℕ) (ss : List SpanRow) (all : All P ss) → All P (take n ss)
All-take P zero ss all = tt
All-take P (suc n) [] all = tt
All-take P (suc n) (s ∷ ss) all = (all.0, All-take P n ss all.1)

All-cut :
    (P : SpanRow → Type 0) (limit used : ℕ) (ss : List SpanRow) (all : All P ss)
    → All P (cut limit used ss)
All-cut P limit used ss all = elim (Bool-cases (ltb 0 limit && ltb limit (used + length ss))) [
  | inl over ↦ rw over (All-take P (limit - used) ss all)
  | inr fits ↦ rw fits all
]

-- The number of the rows of a task.
abbrev pub stored : String → SpanTable → ℕ
stored j table = count (of_task j) table

stored-own :
    (task_id j : String) (ss : List SpanRow) (all : All (λ s. of_task task_id s ≡ true) ss)
    → stored j ss ≡ (if str_eq task_id j then length ss else 0)
stored-own task_id j [] all = ground arith
stored-own task_id j (s ∷ ss) all =
    let rest = stored-own task_id j ss all.1 in rw (same_text s.task_id task_id all.0) ground arith

-- What a process has stored of a task is what it counts, and within the limit; `before` is the table as
-- the process found it when it started.
abbrev pub WithinCap : (limit : ℕ) → (before : SpanTable) → Flushed → Type 0
WithinCap limit before f =
    (j : String)
    → (stored j f.table ≡ stored j before + lookup_or 0 j f.counts)
      × (lookup_or 0 j f.counts ≤ limit)

grown :
    (limit : ℕ) (task_id : String) (pending : List SpanRow) (before : SpanTable) (f : Flushed)
    (own : All (λ s. of_task task_id s ≡ true) pending)
    (fits : lookup_or 0 task_id f.counts + length pending ≤ limit)
    (within : WithinCap limit before f)
    → WithinCap limit before (record {
      counts = insert task_id (lookup_or 0 task_id f.counts + length pending) f.counts;
      table = f.table ++ pending;
    })
grown limit task_id pending before f own fits within j =
    let new = lookup_or 0 task_id f.counts + length pending in
    let rows = count-append (of_task j) f.table pending in
    let added = stored-own task_id j pending own in
    let (same, below) = within j in
    elim (Bool-cases (str_eq task_id j)) [
      | inl e ↦
          let added' = rw e at added in
          let here = ap (λ k. lookup_or 0 k f.counts) (same_text task_id j e) in
          rw (lookup_or, lookup-insert task_id j new f.counts, e) (omega arith, fits)
      | inr e ↦
          let added' = rw e at added in
          rw (lookup_or, lookup-insert task_id j new f.counts, e) (omega arith, below)
    ]

-- When the limit on the spans of a task is on, a process never stores more spans of a task than the limit:
-- `flush_spans` of what the buffer hands over for a task keeps, for every task, the rows that were added
-- since the process started equal in number to what the process counts, and this within the limit,
-- whether spans are cut off, there are none or the sink raises; and the table grows by exactly the number
-- that it gives back.
pub flush_spans-WithinCap :
    (limit : ℕ) (fails : Bool) (task_id : String) (b : Buffer) (before : SpanTable) (f : Flushed)
    (limited : 0 < limit) (within : WithinCap limit before f)
    → let r = flush_spans limit fails task_id (drain_for task_id b).0 f in
      WithinCap limit before r.1 × (length r.1.table ≡ length f.table + r.0)
unfolding flush_spans record_spans drain_for
flush_spans-WithinCap limit fails task_id b before f limited within =
    let used = lookup_or 0 task_id f.counts in
    let pending = cut limit used (keep has_trace (drain_for task_id b).0) in
    elim (Bool-cases (length pending == 0)) [
      | inl e ↦ rw (flush_spans, e) (within, omega arith)
      | inr e ↦ elim (Bool-cases fails) [
        | inl lost ↦ rw (flush_spans, e, lost) (within, omega arith)
        | inr kept ↦
            rw (flush_spans, e, kept)
              (
                grown limit task_id pending before f
                    (All-cut _ limit used _
                      (All-keep _ _ has_trace _ (λ s own h. own) (own_drained task_id b.pending)))
                    (cut_fits limit used _ limited (within task_id).1) within,
                length-append f.table pending,
              )
      ]
    ]

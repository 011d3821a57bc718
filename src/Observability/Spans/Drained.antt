-- ===== src/Observability/Spans/Drained.antt =====
-- app/observability/spans.py: spans of tasks that run side by side, in one buffer.
use llm_agent_runtime.Prelude.{
  ◌+◌, ◌≤◌, ◌<◌, ◌≡◌, refl, ap, sym, ◌∙◌, String, str_eq, Bool, true, false, not, List, [], ◌∷◌,
  ◌++◌, length, length-append, length-keep-le, keep, keep-same, arith, eq_iff, Bool-cases, inl, inr,
  lt→leb-false,
}
use mathlib.Core.List.{append-nil, append_assoc}
use llm_agent_runtime.Storage.Spans.{SpanRow}
use llm_agent_runtime.Observability.Spans.{Buffer, add, of_task, drain_for}

pub data Move : Type 0 where
  adds : SpanRow → Move
  drains : (task_id : String) → Move

pub play : Move → Buffer → Buffer
unfolding add drain_for
play (adds span) b = add span b
play (drains task_id) b = (drain_for task_id b).1

pub plays : List Move → Buffer → Buffer
plays [] b = b
plays (m ∷ ms) b = plays ms (play m b)

-- The spans that moves add, in their order.
abbrev pub added : List Move → List SpanRow
added [] = []
added (adds span ∷ ms) = span ∷ added ms
added (drains task_id ∷ ms) = added ms

-- No move takes the task's spans.
abbrev pub IsUndrained : String → List Move → Type 0
IsUndrained j [] = Unit
IsUndrained j (adds span ∷ ms) = IsUndrained j ms
IsUndrained j (drains task_id ∷ ms) = (str_eq j task_id ≡ false) × IsUndrained j ms

keep-append :
    (p : SpanRow → Bool) (xs ys : List SpanRow) → keep p (xs ++ ys) ≡ keep p xs ++ keep p ys
keep-append p [] ys = refl
keep-append p (x ∷ xs) ys = elim (Bool-cases (p x)) [
  | inl e ↦ rw e (ap (λ l. x ∷ l) (keep-append p xs ys))
  | inr e ↦ rw e (keep-append p xs ys)
]

other_task :
    (i j k : String) (apart : str_eq j k ≡ false) → str_eq i j ≡ true → not (str_eq i k) ≡ true
other_task i j k apart h = ground (arith, apart, h, eq_iff i j, eq_iff i k, eq_iff j k)

add-room :
    (span : SpanRow) (b : Buffer) (room : length b.pending < b.max_pending)
    → add span b ≡ record b { pending = b.pending ++ span ∷ [] }
unfolding add
add-room span b room = rw (add, lt→leb-false b.max_pending (length b.pending) room) refl

-- While the buffer has room, a task gets all its spans, in the order in which they were closed, and no
-- others, whatever spans of other tasks are added or taken in between.
pub drain_for-own :
    (j : String) (moves : List Move) (b : Buffer) (undrained : IsUndrained j moves)
    (room : length b.pending + length (added moves) ≤ b.max_pending)
    → (drain_for j (plays moves b)).0 ≡ keep (of_task j) (b.pending ++ added moves)
unfolding plays play drain_for add
drain_for-own j [] b undrained room = ap (keep (of_task j)) (sym (append-nil b.pending))
drain_for-own j (adds span ∷ ms) b undrained room =
    let b' = record b { pending = b.pending ++ span ∷ [] } in
    ap (λ x. (drain_for j (plays ms x)).0) (add-room span b (omega (arith, room)))
    ∙ drain_for-own j ms b' undrained (omega (arith, length-append b.pending (span ∷ []), room))
    ∙ ap (keep (of_task j)) (append_assoc b.pending (span ∷ []) (added ms))
drain_for-own j (drains k ∷ ms) b undrained room =
    let rest = keep (λ s. not (of_task k s)) b.pending in
    drain_for-own j ms (record b { pending = rest }) undrained.1
      (omega (arith, length-keep-le (λ s. not (of_task k s)) b.pending, room))
    ∙ keep-append (of_task j) rest (added ms)
    ∙ ap (λ l. l ++ keep (of_task j) (added ms))
        (keep-same (of_task j) (λ s. not (of_task k s)) b.pending
          (λ s h. other_task s.task_id j k undrained.0 h))
    ∙ sym (keep-append (of_task j) b.pending (added ms))

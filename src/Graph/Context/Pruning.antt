-- ===== src/Graph/Context/Pruning.antt =====
-- app/graph/nodes.py: what `_prune_key_outputs` keeps.
use llm_agent_runtime.Prelude.{
  ℕ, ◌-◌, ◌≤◌, ◌≡◌, refl, ap, String, [], ◌∷◌, ◌++◌, length, Dict, ltb, arith, Bool-cases, inl, inr,
  take, take-append-drop, length-drop, last_n, sym, ◌∙◌,
}
use mathlib.Core.List.{append_assoc}
use llm_agent_runtime.Graph.Context.{
  drop_oldest, prune_key_outputs, total_tokens, item_tokens, key_outputs_max_items,
  key_outputs_token_budget,
}

-- `kept` is a later part of `items`.
abbrev pub IsLaterPart : Dict String → Dict String → Type 0
IsLaterPart kept items = (front : Dict String) × (items ≡ front ++ kept)

record Pruned (items kept : Dict String) : Type 0 where
  short : length kept ≤ length items
  cheap : total_tokens kept ≤ key_outputs_token_budget
  later : IsLaterPart kept items

drop_oldest-Pruned :
    (total : ℕ) (items : Dict String)
    → total ≡ total_tokens items
    → Pruned items (drop_oldest total items)
unfolding drop_oldest total_tokens
drop_oldest-Pruned total [] e = record {
  short = omega arith;
  cheap = omega arith;
  later = ([], refl);
}
drop_oldest-Pruned total (kv ∷ items) e =
    let ih = drop_oldest-Pruned (total - item_tokens kv) items (omega arith) in
    elim (Bool-cases (ltb key_outputs_token_budget total)) [
      | inl over ↦ rw over (record {
        short = omega (arith, ih.short);
        cheap = ih.cheap;
        later = (kv ∷ ih.later.0, ap (λ l. kv ∷ l) ih.later.1);
      })
      | inr within ↦
          rw within (record { short = omega arith; cheap = ground arith; later = ([], refl) })
    ]

pruned_of :
    (key_outputs items : Dict String)
    → length items ≤ key_outputs_max_items
    → IsLaterPart items key_outputs
    → (length (drop_oldest (total_tokens items) items) ≤ key_outputs_max_items)
      × (total_tokens (drop_oldest (total_tokens items) items) ≤ key_outputs_token_budget)
      × IsLaterPart (drop_oldest (total_tokens items) items) key_outputs
pruned_of key_outputs items small (front, e) =
    let p = drop_oldest-Pruned (total_tokens items) items refl in
    (
      omega (arith, p.short),
      p.cheap,
      (
        front ++ p.later.0,
        e ∙ ap (λ l. front ++ l) p.later.1 ∙ sym (append_assoc front p.later.0 _),
      ),
    )

-- What is kept of the key outputs is at most 30 entries and 1500 estimated tokens, and it is the most
-- recent part of them, unchanged.
pub prune_key_outputs_bounds :
    (key_outputs : Dict String)
    → (length (prune_key_outputs key_outputs) ≤ key_outputs_max_items)
      × (total_tokens (prune_key_outputs key_outputs) ≤ key_outputs_token_budget)
      × IsLaterPart (prune_key_outputs key_outputs) key_outputs
unfolding prune_key_outputs
prune_key_outputs_bounds key_outputs =
    elim (Bool-cases (ltb key_outputs_max_items (length key_outputs))) [
      | inr few ↦ rw few (pruned_of key_outputs key_outputs (ground arith) ([], refl))
      | inl many ↦ rw many (
          pruned_of key_outputs (last_n key_outputs_max_items key_outputs)
            (omega (arith, length-drop (length key_outputs - key_outputs_max_items) key_outputs))
            (
              take (length key_outputs - key_outputs_max_items) key_outputs,
              sym (take-append-drop (length key_outputs - key_outputs_max_items) key_outputs),
            ))
    ]

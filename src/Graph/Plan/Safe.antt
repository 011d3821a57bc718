-- ===== src/Graph/Plan/Safe.antt =====
-- app/graph/nodes.py: the fallbacks of `_safe_layers`.
use mathlib.Core.List.{flatten, Perm}
use mathlib.Core.List.Perm
use llm_agent_runtime.Prelude.{
  ℕ, suc, ◌≡◌, refl, ap, List, [], ◌∷◌, map, Option, none, some, length,
}
use llm_agent_runtime.Graph.Plan.{
  PlanStep, range, kahn, plan_layers, linearize_plan, safe_layers, dep_idx,
}
use llm_agent_runtime.Graph.Plan.Order.{plan_layers-perm}

pub length-linearize_plan : (plan : List PlanStep) → length (linearize_plan plan) ≡ length plan
unfolding linearize_plan
length-linearize_plan [] = refl
length-linearize_plan (p ∷ plan) = ap suc (length-linearize_plan plan)

flatten-singletons : (xs : List ℕ) → flatten (map (λ i. i ∷ []) xs) ≡ xs
unfolding flatten
flatten-singletons [] = refl
flatten-singletons (x ∷ xs) = ap (λ l. x ∷ l) (flatten-singletons xs)

fallback :
    (plan : List PlanStep) (found : Option (List (List ℕ)))
    → plan_layers (linearize_plan plan) ≡ found
    → Perm
        (flatten (elim found as (λ _. List (List ℕ)) [
          | some layers ↦ layers
          | none ↦ map (λ i. i ∷ []) (range (length plan))
        ]))
        (range (length plan))
fallback plan none e = rw (flatten-singletons (range (length plan))) Perm.rfl
fallback plan (some layers) e =
    rw (length-linearize_plan plan) at (plan_layers-perm (linearize_plan plan) layers e)

-- Whatever the ids and the dependencies of a plan, its batches hold every position exactly once.
pub safe_layers-perm :
    (plan : List PlanStep) → Perm (flatten (safe_layers plan)) (range (length plan))
unfolding safe_layers
safe_layers-perm plan = go (plan_layers plan) refl
  where
    go :
        (found : Option (List (List ℕ)))
        → plan_layers plan ≡ found
        → Perm
            (flatten (elim found as (λ _. List (List ℕ)) [
              | some layers ↦ layers
              | none ↦ elim (plan_layers (linearize_plan plan)) as (λ _. List (List ℕ)) [
                | some layers ↦ layers
                | none ↦ map (λ i. i ∷ []) (range (length plan))
              ]
            ]))
            (range (length plan))
    go none e = fallback plan (plan_layers (linearize_plan plan)) refl
    go (some layers) e = plan_layers-perm plan layers e

-- An empty plan has no batch.
pub safe_layers-nil : safe_layers [] ≡ []
unfolding safe_layers plan_layers dep_idx kahn
safe_layers-nil = refl

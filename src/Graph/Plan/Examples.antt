-- ===== src/Graph/Plan/Examples.antt =====
-- The plans of app/graph/nodes.py on a diamond of four steps and on a loop.
use mathlib.Core.List.{flatten, Perm}
use llm_agent_runtime.Prelude.{
  ℕ, zero, suc, ◌≡◌, ◌<◌, refl, List, [], ◌∷◌, Option, none, some, length, true, false, String,
  arith,
}
use llm_agent_runtime.Graph.Plan.{
  PlanStep, StepStatus, range, plan_layers, safe_layers, dep_idx, deps_at, has_duplicate, kahn, mem,
}
use llm_agent_runtime.Graph.Plan.Order.{IsOrdered, plan_layers-IsOrdered}
use llm_agent_runtime.Graph.Plan.Complete.{plan_layers_total}
use llm_agent_runtime.Graph.Plan.Safe.{safe_layers-perm}

abbrev pub step : String → Option (List String) → PlanStep
step id deps = record {
  id = id;
  description = id;
  status = StepStatus.pending;
  result = "";
  deps = deps;
}

abbrev pub diamond : List PlanStep
diamond =
    step "s1" (some [])
    ∷ step "s2" (some ("s1" ∷ []))
    ∷ step "s3" (some ("s1" ∷ []))
    ∷ step "s4" (some ("s2" ∷ "s3" ∷ []))
    ∷ []

abbrev pub batches : List (List ℕ)
batches = (0 ∷ []) ∷ (1 ∷ 2 ∷ []) ∷ (3 ∷ []) ∷ []

diamond-batches : plan_layers diamond ≡ some batches
unfolding plan_layers dep_idx kahn
diamond-batches = refl

pub diamond_layers : safe_layers diamond ≡ batches
unfolding safe_layers plan_layers dep_idx kahn
diamond_layers = refl

abbrev loop : List PlanStep
loop = step "s1" (some ("s2" ∷ [])) ∷ step "s2" (some ("s1" ∷ [])) ∷ []

loop_refused : plan_layers loop ≡ none
unfolding plan_layers dep_idx kahn
loop_refused = refl

abbrev old : List PlanStep
old = step "s1" none ∷ step "s2" none ∷ []

old_ids : has_duplicate [] old ≡ false
unfolding has_duplicate
old_ids = refl

abbrev diamond_deps : List (List ℕ)
diamond_deps = [] ∷ (0 ∷ []) ∷ (0 ∷ []) ∷ (1 ∷ 2 ∷ []) ∷ []

diamond-dep_idx : dep_idx diamond ≡ some diamond_deps
unfolding dep_idx
diamond-dep_idx = refl

ranked : (i d : ℕ) → i < length diamond → mem d (deps_at diamond_deps i) ≡ true → d < i
ranked zero d h m = ground arith
ranked (suc zero) d h m = ground arith
ranked (suc (suc zero)) d h m = ground arith
ranked (suc (suc (suc zero))) d h m = ground arith
ranked (suc (suc (suc (suc i)))) d h m = ground arith

plan_layers-IsOrdered_example :
    (deps : List (List ℕ)) × (dep_idx diamond ≡ some deps) × IsOrdered (deps_at deps) [] batches
plan_layers-IsOrdered_example = plan_layers-IsOrdered diamond batches diamond-batches

plan_layers_total_example : (layers : List (List ℕ)) × (plan_layers diamond ≡ some layers)
plan_layers_total_example = plan_layers_total diamond diamond_deps (λ i. i) diamond-dep_idx ranked

safe_layers-perm_example : Perm (flatten (safe_layers loop)) (range (length loop))
safe_layers-perm_example = safe_layers-perm loop

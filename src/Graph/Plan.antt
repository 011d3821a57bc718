-- ===== src/Graph/Plan.antt =====
-- app/graph/state.py (`PlanStep`) and the plan part of app/graph/nodes.py: the dependencies of the
-- steps and the batches in which they run. A reference to a step is its position in the plan, so a
-- batch is a list of positions. Every step has an id, since every step is built by
-- `_parse_plan_steps` or `planner_node`.
pub mod Kahn
pub mod Order
pub mod Complete
pub mod Safe
pub mod Linear
pub mod Examples
use mathlib.Core.List.{flatten}
use llm_agent_runtime.Prelude.{
  ℕ, zero, suc, ◌+◌, ◌-◌, String, Bool, true, false, not, ◌&&◌, ◌||◌, List, [], ◌∷◌, ◌++◌, map,
  Option, none, some, length, any, all, keep, ltb, ◌==◌, str_eq, if◌then◌else◌,
}

pub data StepStatus : Type 0 where
  pending done failed skipped : StepStatus

abbrev pub is_pending : StepStatus → Bool
is_pending StepStatus.pending = true
is_pending _ = false

abbrev pub is_done : StepStatus → Bool
is_done StepStatus.done = true
is_done _ = false

-- `deps` is `none` where the key is absent.
pub record PlanStep : Type 0 where
  pub id : String
  pub description : String
  pub status : StepStatus
  pub result : String
  pub deps : Option (List String)

-- `i in s`, for a set of positions
abbrev pub mem : ℕ → List ℕ → Bool
mem i s = any (λ j. j == i) s

-- `range(start, start + n)`
abbrev pub range_from : ℕ → ℕ → List ℕ
range_from start zero = []
range_from start (suc n) = start ∷ range_from (start + 1) n

abbrev pub range : ℕ → List ℕ
range = range_from 0

-- `ids[pid]`, the positions by id
index_of : String → ℕ → List PlanStep → Option ℕ
index_of pid i [] = none
index_of pid i (p ∷ plan) = if str_eq p.id pid then some i else index_of pid (i + 1) plan

pub has_duplicate : List String → List PlanStep → Bool
has_duplicate seen [] = false
has_duplicate seen (p ∷ plan) = any (str_eq p.id) seen || has_duplicate (p.id ∷ seen) plan

-- the loop over `refs`: `none` where an id is unknown
resolve : List PlanStep → List String → Option (List ℕ)
resolve plan [] = some []
resolve plan (r ∷ refs) = elim (index_of r 0 plan) [
  | none ↦ none
  | some j ↦ elim (resolve plan refs) [ none ↦ none | some deps ↦ some (j ∷ deps) ]
]

-- The dependencies of the step at position `i`: `none` where they are refused.
dep_indices : List PlanStep → ℕ → Option (List String) → Option (List ℕ)
dep_indices plan i none = some (if ltb 0 i then (i - 1) ∷ [] else [])
dep_indices plan i (some refs) = elim (resolve plan refs) [
  | none ↦ none
  | some deps ↦ if mem i deps then none else some deps
]

-- `dep_idx`, from the position `i` on
dep_idx_from : List PlanStep → ℕ → List PlanStep → Option (List (List ℕ))
dep_idx_from plan i [] = some []
dep_idx_from plan i (p ∷ rest) = elim (dep_indices plan i p.deps) [
  | none ↦ none
  | some deps ↦ elim (dep_idx_from plan (i + 1) rest) [
    | none ↦ none
    | some more ↦ some (deps ∷ more)
  ]
]

pub dep_idx : List PlanStep → Option (List (List ℕ))
unfolding dep_idx_from dep_indices resolve index_of has_duplicate
dep_idx plan = if has_duplicate [] plan then none else dep_idx_from plan 0 plan

-- `remaining[i]`
abbrev pub deps_at : List (List ℕ) → ℕ → List ℕ
deps_at [] i = []
deps_at (d ∷ deps) zero = d
deps_at (d ∷ deps) (suc i) = deps_at deps i

-- `i not in done and not (remaining[i] - done)`
abbrev pub is_ready : (ℕ → List ℕ) → List ℕ → ℕ → Bool
is_ready deps placed i = not (mem i placed) && all (λ d. mem d placed) (deps i)

abbrev pub ready : ℕ → (ℕ → List ℕ) → List ℕ → List ℕ
ready n deps placed = keep (is_ready deps placed) (range n)

-- The `while` loop over `done`, the positions placed so far. A round adds a batch or ends, so `n` rounds are enough.
pub kahn : ℕ → ℕ → (ℕ → List ℕ) → List ℕ → Option (List (List ℕ))
kahn zero n deps placed = if ltb (length placed) n then none else some []
kahn (suc fuel) n deps placed =
    let batch = ready n deps placed in
    let rest = kahn fuel n deps (placed ++ batch) in
    if ltb (length placed) n
    then elim batch [
      | [] ↦ none
      | b ∷ bs ↦ elim rest [ none ↦ none | some layers ↦ some ((b ∷ bs) ∷ layers) ]
    ]
    else some []

pub plan_layers : List PlanStep → Option (List (List ℕ))
plan_layers plan =
    let n = length plan in
    elim (dep_idx plan) [ none ↦ none | some deps ↦ kahn n n (deps_at deps) [] ]

without_deps : PlanStep → PlanStep
without_deps p = record p { deps = none }

pub linearize_plan : List PlanStep → List PlanStep
unfolding without_deps
linearize_plan plan = map without_deps plan

-- The copies that `_linearize_plan` makes are translated back by position.
pub safe_layers : List PlanStep → List (List ℕ)
safe_layers plan = elim (plan_layers plan) [
  | some layers ↦ layers
  | none ↦ elim (plan_layers (linearize_plan plan)) [
    | some layers ↦ layers
    | none ↦ map (λ i. i ∷ []) (range (length plan))
  ]
]

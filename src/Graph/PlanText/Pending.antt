-- ===== src/Graph/PlanText/Pending.antt =====
-- app/graph/nodes.py: the status of the steps that `_parse_plan_steps` reads.
use llm_agent_runtime.Prelude.{
  ℕ, ◌+◌, ◌≡◌, refl, true, List, [], ◌∷◌, ◌++◌, Option, none, some, all, length, arith,
}
use llm_agent_runtime.Prelude.Json.{Json, iterate, null, bool, num, str, arr, obj}
use llm_agent_runtime.Prelude.Python.{Python}
use llm_agent_runtime.Graph.Plan.{PlanStep, is_pending}
use llm_agent_runtime.Graph.PlanText.{step_of, steps_from, parse_plan_steps}

abbrev pub AllPending : List PlanStep → Type 0
AllPending steps = all (λ p. is_pending p.status) steps ≡ true

all-snoc :
    (steps : List PlanStep) (p : PlanStep)
    → AllPending steps
    → is_pending p.status ≡ true
    → AllPending (steps ++ p ∷ [])
all-snoc [] p h e = ground arith
all-snoc (s ∷ steps) p h e = ground (arith, all-snoc steps p)

step_of-pending :
    (py : Python) (n : ℕ) (item : Json) (p : PlanStep)
    → step_of py n item ≡ some p
    → is_pending p.status ≡ true
unfolding step_of
step_of-pending py n (obj fs) p h = ground arith
step_of-pending py n null p h = ground arith
step_of-pending py n (bool b) p h = ground arith
step_of-pending py n (num k) p h = ground arith
step_of-pending py n (str s) p h = ground arith
step_of-pending py n (arr vs) p h = ground arith

steps_from-pending :
    (py : Python) (steps : List PlanStep) (items : List Json)
    → AllPending steps
    → AllPending (steps_from py steps items)
unfolding steps_from
steps_from-pending py steps [] h = h
steps_from-pending py steps (item ∷ rest) h =
    go (λ more k. steps_from-pending py more rest k) (step_of py (length steps + 1) item) refl
  where
    go :
        ((more : List PlanStep) → AllPending more → AllPending (steps_from py more rest))
        → (found : Option PlanStep) → step_of py (length steps + 1) item ≡ found
        → AllPending (
            steps_from py
              (elim found as (λ _. List PlanStep) [ none ↦ steps | some step ↦ steps ++ step ∷ [] ])
              rest)
    go keep_on none e = keep_on steps h
    go keep_on (some p) e =
        keep_on (steps ++ p ∷ [])
          (all-snoc steps p h (step_of-pending py (length steps + 1) item p e))

pub parse_plan_steps-pending :
    (py : Python) (raw : Json) (steps : List PlanStep)
    → parse_plan_steps py raw ≡ some steps
    → AllPending steps
unfolding parse_plan_steps
parse_plan_steps-pending py raw steps h = go (iterate raw) h
  where
    go :
        (found : Option (List Json))
        → elim found as (λ _. Option (List PlanStep)) [
          | none ↦ none
          | some entries ↦ some (steps_from py [] entries)
        ]
          ≡ some steps
        → AllPending steps
    go none e = cc
    go (some entries) e =
        let same : steps ≡ steps_from py [] entries = cc in
        rw same (steps_from-pending py [] entries refl)

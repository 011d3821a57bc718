-- ===== src/Graph/Planner/Open.antt =====
-- app/graph/nodes.py: the batch at which a plan of `planner_node` starts.
use mathlib.Core.List.{flatten, Perm, Permᴰ}
use mathlib.Core.Logic.{∥∥₁_elim}
use mathlib.Core.Bool.{Bool-set}
use llm_agent_runtime.Prelude.{
  ℕ, zero, suc, ◌+◌, ◌<◌, ◌≡◌, refl, ap, ◌∙◌, String, Bool, true, ◌||◌, List, [], ◌∷◌, ◌++◌, Option,
  none, some, length, any, keep, get_elem?, arith, Bool-cases, inl, inr, if◌then◌else◌, map, Dict,
}
use llm_agent_runtime.Core.Llm.{LlmResponse}
use llm_agent_runtime.Graph.Plan.{PlanStep, is_pending, is_done, range, range_from, safe_layers}
use llm_agent_runtime.Graph.Plan.Safe.{safe_layers-perm}
use llm_agent_runtime.Graph.State.{AgentState, Settings, Event}
use llm_agent_runtime.Graph.Critic.{pending_at}
use llm_agent_runtime.Graph.PlanText.Pending.{AllPending, parse_plan_steps-pending}
use llm_agent_runtime.Graph.PlanText.{parse_plan_steps, raw_steps, parse_json_loose}
use llm_agent_runtime.Prelude.Python.{Python}
use llm_agent_runtime.Graph.Run.{Result, ok, raised}
use llm_agent_runtime.Graph.Planner.{
  first_open, planned, planner_update, replanned, renamed, is_replan, or_goal, goal_step,
  rename_from, highest_id, last_id,
}

any-permᴰ : (p : ℕ → Bool) {xs ys : List ℕ} → Permᴰ xs ys → any p xs ≡ any p ys
any-permᴰ p Permᴰ.nil = refl
any-permᴰ p (Permᴰ.cons e h) = cc (any-permᴰ p h)
any-permᴰ p (Permᴰ.swap {a = a} {b = b} {l = l} e f) = rw (← e, ← f) (swapped (p a) (p b) (any p l))
  where
    swapped : (x y z : Bool) → (x || (y || z)) ≡ (y || (x || z))
    swapped x y z = ground arith
any-permᴰ p (Permᴰ.trans h k) = any-permᴰ p h ∙ any-permᴰ p k

any-perm : (p : ℕ → Bool) {xs ys : List ℕ} → Perm xs ys → any p xs ≡ any p ys
any-perm p h = ∥∥₁_elim h (Bool-set _ _) (any-permᴰ p)

any-append : (p : ℕ → Bool) (xs ys : List ℕ) → any p (xs ++ ys) ≡ (any p xs || any p ys)
any-append p [] ys = refl
any-append p (x ∷ xs) ys = ground (arith, any-append p xs ys)

abbrev pending_in : List PlanStep → List ℕ → Bool
pending_in plan batch = any (λ j. pending_at j plan) batch

-- The batches before `k` are settled, and the one at `k` has a pending step.
record IsFirstOpen (plan : List PlanStep) (layers : List (List ℕ)) (k : ℕ) : Type 0 where
  inside : k < length layers
  batch : List ℕ
  current : get_elem? layers k ≡ some batch
  open_batch : pending_in plan batch ≡ true

first_open_lem :
    (start : ℕ) (plan : List PlanStep) (layers : List (List ℕ))
    → any (λ j. pending_at j plan) (flatten layers) ≡ true
    → (k : ℕ) × (first_open start plan layers ≡ start + k) × IsFirstOpen plan layers k
unfolding first_open flatten
first_open_lem start plan [] h = cc
first_open_lem start plan (batch ∷ layers) h = elim (Bool-cases (pending_in plan batch)) [
  | inl now ↦ (
    0,
    rw now (omega arith),
    record { inside = omega arith; batch = batch; current = refl; open_batch = now },
  )
  | inr settled ↦
      let rest : pending_in plan (flatten layers) ≡ true =
        (rw (any-append (λ j. pending_at j plan) batch (flatten layers), settled) at h) in
      let (k, e, f) = first_open_lem (start + 1) plan layers rest in
      (
        suc k,
        rw (settled, e) (omega arith),
        record {
          inside = omega (arith, f.inside);
          batch = f.batch;
          current = f.current;
          open_batch = f.open_batch;
        },
      )
]

any-range_from :
    (f : ℕ → Bool) (start n : ℕ)
    → any f (range_from (start + 1) n) ≡ any (λ j. f (suc j)) (range_from start n)
any-range_from f start zero = refl
any-range_from f start (suc n) =
    let step : f (start + 1) ≡ f (suc start) = ap f (omega arith) in
    cc (step, any-range_from f (start + 1) n)

abbrev has_pending : List PlanStep → Bool
has_pending plan = any (λ p. is_pending p.status) plan

any-positions : (plan : List PlanStep) → pending_in plan (range (length plan)) ≡ has_pending plan
any-positions [] = refl
any-positions (p ∷ plan) =
    cc (any-range_from (λ j. pending_at j (p ∷ plan)) 0 (length plan), any-positions plan)

-- Where a plan has a pending step, `planner_node` makes the batch of one current.
first_open-safe_layers :
    (plan : List PlanStep)
    → has_pending plan ≡ true
    → IsFirstOpen plan (safe_layers plan) (first_open 0 plan (safe_layers plan))
first_open-safe_layers plan h =
    let covered = any-perm (λ j. pending_at j plan) (safe_layers-perm plan) in
    let (k, e, f) = first_open_lem 0 plan (safe_layers plan) (covered ∙ any-positions plan ∙ h) in
    let same : first_open 0 plan (safe_layers plan) ≡ k = e ∙ omega arith in rw same f

has_pending-append :
    (xs ys : List PlanStep) → has_pending (xs ++ ys) ≡ (has_pending xs || has_pending ys)
has_pending-append [] ys = refl
has_pending-append (x ∷ xs) ys = ground (arith, has_pending-append xs ys)

or_goal-pending :
    (st : AgentState) (steps : List PlanStep)
    → AllPending steps
    → has_pending (or_goal st steps) ≡ true
unfolding goal_step
or_goal-pending st [] h = refl
or_goal-pending st (p ∷ steps) h = ground arith

has_pending-renamed :
    (names : Dict String) (last : String) (steps : List PlanStep)
    → has_pending (map (renamed names last) steps) ≡ has_pending steps
unfolding renamed
has_pending-renamed names last [] = refl
has_pending-renamed names last (p ∷ steps) = cc (has_pending-renamed names last steps)

module _ (py : Python) (settings : Settings) (st : AgentState) (resp : LlmResponse) where
  new_plan : List PlanStep → List PlanStep
  new_plan steps =
      if is_replan st then replanned py st.plan (or_goal st steps) else or_goal st steps

  plan-planned :
      (steps : List PlanStep) → (planned py settings st resp steps).0.plan ≡ new_plan steps
  unfolding planned new_plan
  plan-planned steps = ground arith

  step-planned :
      (steps : List PlanStep)
      → (planned py settings st resp steps).0.current_step
        ≡ first_open 0 (new_plan steps) (safe_layers (new_plan steps))
  unfolding planned new_plan
  step-planned steps = ground arith

  new_plan-pending :
      (steps : List PlanStep) → AllPending steps → has_pending (new_plan steps) ≡ true
  unfolding new_plan replanned
  new_plan-pending steps h = elim (Bool-cases (is_replan st)) [
    | inr first ↦ rw first (or_goal-pending st steps h)
    | inl again ↦
        rw
          (
            again,
            has_pending-append (keep (λ p. is_done p.status) st.plan) (
                map
                  (renamed (rename_from (highest_id py st.plan + 1) [] (or_goal st steps))
                    (last_id (keep (λ p. is_done p.status) st.plan)))
                  (or_goal st steps)),
            has_pending-renamed (rename_from (highest_id py st.plan + 1) [] (or_goal st steps))
                (last_id (keep (λ p. is_done p.status) st.plan)) (or_goal st steps),
            or_goal-pending st steps h,
          )
          (ground arith)
  ]

-- After the planner the current step is a batch of the plan in which a step is pending, so the task
-- has something to do, whatever the model answered.
pub planner_update-open :
    (py : Python) (settings : Settings) (st : AgentState) (resp : LlmResponse) (st' : AgentState)
    (events : List Event)
    → planner_update py settings st resp ≡ ok (st', events)
    → (batch : List ℕ) × (get_elem? (safe_layers st'.plan) st'.current_step ≡ some batch)
      × (any (λ j. pending_at j st'.plan) batch ≡ true)
unfolding planner_update
planner_update-open py settings st resp st' events h =
    go (parse_plan_steps py (raw_steps (parse_json_loose py resp.text))) refl h
  where
    finish :
        (steps : List PlanStep)
        → AllPending steps
        → ok (planned py settings st resp steps) ≡ ok (st', events)
        → (batch : List ℕ) × (get_elem? (safe_layers st'.plan) st'.current_step ≡ some batch)
          × (any (λ j. pending_at j st'.plan) batch ≡ true)
    finish steps pending e =
        let same : st' ≡ (planned py settings st resp steps).0 = cc in
        let f =
          first_open-safe_layers (new_plan py settings st resp steps)
            (new_plan-pending py settings st resp steps pending) in
        rw (same, plan-planned py settings st resp steps, step-planned py settings st resp steps)
          (f.batch, f.current, f.open_batch)

    go :
        (found : Option (List PlanStep))
        → parse_plan_steps py (raw_steps (parse_json_loose py resp.text)) ≡ found
        → elim found as (λ _. Result (AgentState × List Event)) [
          | none ↦ raised "TypeError"
          | some steps ↦ ok (planned py settings st resp steps)
        ]
          ≡ ok (st', events)
        → (batch : List ℕ) × (get_elem? (safe_layers st'.plan) st'.current_step ≡ some batch)
          × (any (λ j. pending_at j st'.plan) batch ≡ true)
    go none p e = cc
    go (some steps) p e = finish steps (parse_plan_steps-pending py _ steps p) e

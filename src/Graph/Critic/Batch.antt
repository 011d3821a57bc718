-- ===== src/Graph/Critic/Batch.antt =====
-- app/graph/nodes.py: what `critic_node` does to the plan after a round without failures.
use mathlib.Core.Option
use llm_agent_runtime.Prelude.{
  ℕ, zero, suc, ◌+◌, ◌-◌, ◌≡◌, refl, ◌≢◌, ◌∙◌, String, Bool, true, false, ◌&&◌, List, [], ◌∷◌,
  Option, none, some, get_elem?, length, keep, ◌==◌, if◌then◌else◌, arith, inl, inr, Bool-cases,
}
use llm_agent_runtime.Graph.Plan.{PlanStep, is_pending, mem, safe_layers}
use llm_agent_runtime.Graph.Plan.Safe.{safe_layers-nil}
use llm_agent_runtime.Graph.State.{AgentState, Settings, is_live, plan_execute, Observation, Event}
use llm_agent_runtime.Graph.Run.{ok, Succeeds}
use llm_agent_runtime.Graph.Classify.{is_empty}
use llm_agent_runtime.Graph.Critic.{
  finish_batch, finish, is_pending_step, update_at, pending_at, advance_plan, critic_node, failures,
  review_success, summaries_of, advance_batch, succeeded,
}

-- A step after its batch: done, if it was pending in the batch.
abbrev pub step_after : String → Bool → Option PlanStep → Option PlanStep
step_after summaries in_batch o =
    if in_batch && is_pending_step o then Option.map (finish summaries) o else o

get_elem?-update_at :
    (i j : ℕ) (f : PlanStep → PlanStep) (plan : List PlanStep)
    → get_elem? (update_at j f plan) i
      ≡ (if i == j then Option.map f (get_elem? plan i) else get_elem? plan i)
get_elem?-update_at i j f [] = ground arith
get_elem?-update_at zero zero f (p ∷ plan) = refl
get_elem?-update_at zero (suc j) f (p ∷ plan) = ground arith
get_elem?-update_at (suc i) zero f (p ∷ plan) = ground arith
get_elem?-update_at (suc i) (suc j) f (p ∷ plan) = ground (arith, get_elem?-update_at i j f plan)

same_position : (i j : ℕ) → (i == j) ≡ true → i ≡ j
same_position i j h = ground arith

mem_other : (i j : ℕ) (batch : List ℕ) → (i == j) ≡ false → mem i (j ∷ batch) ≡ mem i batch
mem_other i j batch h = ground arith

finish_twice :
    (summaries : String) (b : Bool) (o : Option PlanStep)
    → is_pending_step o ≡ true
    → step_after summaries b (Option.map (finish summaries) o) ≡ step_after summaries true o
finish_twice summaries b none h = ground arith
finish_twice summaries b (some p) h = ground arith

skip :
    (summaries : String) (j : ℕ) (batch : List ℕ) (plan : List PlanStep) (i : ℕ)
    → pending_at j plan ≡ false
    → step_after summaries (mem i batch) (get_elem? plan i)
      ≡ step_after summaries (mem i (j ∷ batch)) (get_elem? plan i)
skip summaries j batch plan i settled = elim (Bool-cases (i == j)) [
  | inl same ↦
      let at_i : pending_at i plan ≡ false = rw (same_position i j same) settled in ground arith
  | inr other ↦ rw (mem_other i j batch other) refl
]

take_one :
    (summaries : String) (j : ℕ) (batch : List ℕ) (plan : List PlanStep) (i : ℕ)
    → pending_at j plan ≡ true
    → step_after summaries (mem i batch) (get_elem? (update_at j (finish summaries) plan) i)
      ≡ step_after summaries (mem i (j ∷ batch)) (get_elem? plan i)
take_one summaries j batch plan i open_step =
    rw (get_elem?-update_at i j (finish summaries) plan) (elim (Bool-cases (i == j)) [
      | inl same ↦
          let at_i : pending_at i plan ≡ true = rw (same_position i j same) open_step in
          let first : mem i (j ∷ batch) ≡ true = ground arith in
          rw (same, first) (finish_twice summaries (mem i batch) (get_elem? plan i) at_i)
      | inr other ↦ rw (other, mem_other i j batch other) refl
    ])

finish_batch_lem :
    (summaries : String) (left : ℕ) (batch : List ℕ) (plan : List PlanStep) (i : ℕ)
    → get_elem? (finish_batch summaries left batch plan).0 i
      ≡ step_after summaries (mem i batch) (get_elem? plan i)
unfolding finish_batch
finish_batch_lem summaries left [] plan i = refl
finish_batch_lem summaries left (j ∷ batch) plan i = elim (Bool-cases (pending_at j plan)) [
  | inr settled ↦
      rw settled
        (finish_batch_lem summaries left batch plan i ∙ skip summaries j batch plan i settled)
  | inl open_step ↦ rw open_step (
      finish_batch_lem summaries (left - 1) batch (update_at j (finish summaries) plan) i
      ∙ take_one summaries j batch plan i open_step)
]

is_empty-false {ℓ} : {A : Type ℓ} (xs : List A) → xs ≢ [] → is_empty xs ≡ false
is_empty-false [] h = absurd (h refl)
is_empty-false (x ∷ xs) h = refl

planned :
    (plan : List PlanStep) (k : ℕ) (batch : List ℕ)
    → get_elem? (safe_layers plan) k ≡ some batch
    → is_empty plan ≡ false
planned [] k batch h = absurd (nothing (rw safe_layers-nil at h))
  where
    nothing : none ≡ some batch → ⊥
    nothing e = cc
planned (p ∷ plan) k batch h = refl

advance_plan-current :
    (st : AgentState) (observations : List Observation) (batch : List ℕ) (summaries : String)
    → summaries_of observations ≡ some summaries
    → st.mode ≡ plan_execute
    → observations ≢ []
    → get_elem? (safe_layers st.plan) st.current_step ≡ some batch
    → advance_plan st observations
      ≡ ok (finish_batch summaries (length (keep (λ p. is_pending p.status) st.plan)) batch st.plan)
unfolding advance_plan advance_batch
advance_plan-current st observations batch summaries texts mode some_call current =
    rw
      (
        mode,
        planned st.plan st.current_step batch current,
        is_empty-false observations some_call,
        current,
        texts,
      )
      refl

-- The batch is done, with the summaries as its result, and the next one is current.
abbrev pub Advanced : AgentState → List ℕ → String → AgentState × List Event → Type 0
Advanced st batch summaries (st', events) =
    ((i : ℕ) → get_elem? st'.plan i ≡ step_after summaries (mem i batch) (get_elem? st.plan i))
    × ((st'.current_step ≡ st.current_step + 1) × (st'.plan_defect_streak ≡ 0))

critic_node-live :
    (lower : String → String) (settings : Settings) (st : AgentState)
    → is_live st.status ≡ true
    → failures st.last_observations ≡ []
    → critic_node lower settings st ≡ review_success st
unfolding critic_node
critic_node-live lower settings st live no_failure = rw (live, no_failure) refl

module _ (lower : String → String) (settings : Settings) (st : AgentState) where
  -- In a task in plan mode that has not ended, after a round in which calls ran and none failed, while
  -- the plan has a current batch, and if the summaries of the calls are texts, the critic returns:
  -- exactly the pending steps of the current
  -- batch become done, with the clipped summaries of the calls as their result; every other step stays
  -- as it was, the next batch becomes current and the streak of defects ends.
  pub critic_node-success :
      (batch : List ℕ) (summaries : String)
      → summaries_of st.last_observations ≡ some summaries
      → is_live st.status ≡ true
      → st.mode ≡ plan_execute
      → failures st.last_observations ≡ []
      → st.last_observations ≢ []
      → get_elem? (safe_layers st.plan) st.current_step ≡ some batch
      → Succeeds (Advanced st batch summaries) (critic_node lower settings st)
  unfolding review_success succeeded
  critic_node-success batch summaries texts live mode no_failure some_call current =
      rw
        (
          critic_node-live lower settings st live no_failure,
          advance_plan-current st st.last_observations batch summaries texts mode some_call current,
        )
        (finish_batch_lem _ _ batch st.plan, (refl, refl))

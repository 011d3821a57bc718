-- ===== src/Graph/Plan/Linear.antt =====
-- app/graph/nodes.py: plans without `deps`, and `_linearize_plan`.
use llm_agent_runtime.Prelude.{
  ℕ, zero, suc, ◌+◌, ◌-◌, ◌≡◌, refl, ap, List, [], ◌∷◌, ◌++◌, map, Option, none, some, length, true,
  false, ◌≤◌, ◌<◌, keep, ltb, ◌==◌, if◌then◌else◌, arith, All, inl, inr, Bool-cases, ltb→lt, subst,
  ◌∙◌,
}
use llm_agent_runtime.Graph.Plan.{
  PlanStep, range_from, range, is_ready, ready, kahn, plan_layers, linearize_plan, safe_layers,
  dep_idx, deps_at, has_duplicate, dep_idx_from, dep_indices,
}
use llm_agent_runtime.Graph.Plan.Kahn.{keep_cong, All-map, All-mem, length-range}
use llm_agent_runtime.Graph.Plan.Complete.{mem-range}
use llm_agent_runtime.Graph.Plan.Safe.{length-linearize_plan}

abbrev chain : ℕ → List ℕ
chain i = if ltb 0 i then (i - 1) ∷ [] else []

keep_above : (k start n : ℕ) → k < start → keep (λ i. i == k) (range_from start n) ≡ []
keep_above k start zero h = refl
keep_above k start (suc n) h = ground (arith, keep_above k (start + 1) n)

keep_one :
    (k start n : ℕ) → start ≤ k → k < start + n → keep (λ i. i == k) (range_from start n) ≡ k ∷ []
keep_one k start zero low high = absurd (omega arith)
keep_one k start (suc n) low high =
    ground (arith, keep_one k (start + 1) n, keep_above k (start + 1) n)

range_from-snoc : (start n : ℕ) → range_from start n ++ (start + n) ∷ [] ≡ range_from start (suc n)
range_from-snoc start zero = ap (λ x. x ∷ []) (omega arith)
range_from-snoc start (suc n) =
    ap (λ l. start ∷ l)
      (subst (λ x. range_from (start + 1) n ++ x ∷ [] ≡ range_from (start + 1) (suc n))
        (omega arith) (range_from-snoc (start + 1) n))

extend :
    (k : ℕ) (batch : List ℕ) (found : Option (List (List ℕ))) (rest : List (List ℕ))
    → batch ≡ k ∷ []
    → found ≡ some rest
    → elim batch as (λ _. Option (List (List ℕ))) [
      | [] ↦ none
      | b ∷ bs ↦ elim found [ none ↦ none | some more ↦ some ((b ∷ bs) ∷ more) ]
    ]
      ≡ some ((k ∷ []) ∷ rest)
extend k batch found rest e h = rw (e, h) refl

module _ (n : ℕ) (deps : ℕ → List ℕ) (is_chain : (i : ℕ) → i < n → deps i ≡ chain i) where
  ready_one : (k i : ℕ) → i < n → is_ready deps (range k) i ≡ (i == k)
  ready_one k i h = rw (is_chain i h, mem-range i k) (ground (arith, mem-range (i - 1) k))

  ready_chain : (k : ℕ) → k < n → ready n deps (range k) ≡ k ∷ []
  ready_chain k h =
      keep_cong (is_ready deps (range k)) (λ i. i == k) (range n)
        (All-map (range n) (λ i m. ready_one k i (ltb→lt i n (rw (mem-range i n) at m)))
          (All-mem (range n)))
      ∙ keep_one k 0 n (omega arith) (omega arith)

  kahn_chain :
      (m k : ℕ) → k + m ≡ n → kahn m n deps (range k) ≡ some (map (λ i. i ∷ []) (range_from k m))
  unfolding kahn
  kahn_chain zero k e =
      let full : ltb (length (range k)) n ≡ false = rw (length-range k) (ground arith) in
      rw full refl
  kahn_chain (suc m) k e =
      let more : ltb (length (range k)) n ≡ true = rw (length-range k) (ground arith) in
      let next : range k ++ k ∷ [] ≡ range (suc k) =
        subst (λ x. range k ++ x ∷ [] ≡ range (suc k)) (omega arith) (range_from-snoc 0 k) in
      let one = ready_chain k (omega arith) in
      let same : range_from (k + 1) m ≡ range_from (suc k) m =
        ap (λ x. range_from x m) (omega arith) in
      rw (more, same)
        (extend k (ready n deps (range k)) (kahn m n deps (range k ++ ready n deps (range k)))
          (map (λ i. i ∷ []) (range_from (suc k) m)) one
          (rw (one, next) (kahn_chain m (suc k) (omega arith))))

-- The list of dependencies of a plan without `deps` keys.
chains : ℕ → List PlanStep → List (List ℕ)
chains i [] = []
chains i (p ∷ plan) = chain i ∷ chains (i + 1) plan

abbrev pub HasNoDeps : List PlanStep → Type 0
HasNoDeps plan = All (λ p. p.deps ≡ none) plan

dep_idx_from-chains :
    (plan : List PlanStep) (i : ℕ) (rest : List PlanStep)
    → HasNoDeps rest
    → dep_idx_from plan i rest ≡ some (chains i rest)
unfolding dep_idx_from dep_indices chains
dep_idx_from-chains plan i [] h = refl
dep_idx_from-chains plan i (p ∷ rest) h = rw (h.0, dep_idx_from-chains plan (i + 1) rest h.1) refl

deps_at-chains :
    (start : ℕ) (plan : List PlanStep) (i : ℕ)
    → i < length plan
    → deps_at (chains start plan) i ≡ chain (start + i)
unfolding chains
deps_at-chains start [] i h = absurd (omega arith)
deps_at-chains start (p ∷ plan) zero h = ap chain (omega arith)
deps_at-chains start (p ∷ plan) (suc i) h =
    deps_at-chains (start + 1) plan i (omega arith) ∙ ap chain (omega arith)

plan_layers_twice : (plan : List PlanStep) → has_duplicate [] plan ≡ true → plan_layers plan ≡ none
unfolding plan_layers dep_idx
plan_layers_twice plan twice = rw (twice, dep_idx, plan_layers) refl

-- A plan with distinct ids and no `deps` keys runs one step at a time, in its order.
pub plan_layers-linear :
    (plan : List PlanStep)
    → HasNoDeps plan
    → has_duplicate [] plan ≡ false
    → plan_layers plan ≡ some (map (λ i. i ∷ []) (range (length plan)))
unfolding plan_layers dep_idx
plan_layers-linear plan h once =
    rw (once, dep_idx_from-chains plan 0 plan h, dep_idx, plan_layers)
      (kahn_chain (length plan) (deps_at (chains 0 plan))
        (λ i k. deps_at-chains 0 plan i k ∙ ap chain (omega arith)) (length plan) 0 (omega arith))

HasNoDeps-linearize_plan : (plan : List PlanStep) → HasNoDeps (linearize_plan plan)
unfolding linearize_plan
HasNoDeps-linearize_plan [] = tt
HasNoDeps-linearize_plan (p ∷ plan) = (refl, HasNoDeps-linearize_plan plan)

-- A plan whose dependencies are refused, for whatever reason, runs one step at a time, in its order.
pub safe_layers-refused :
    (plan : List PlanStep)
    → plan_layers plan ≡ none
    → safe_layers plan ≡ map (λ i. i ∷ []) (range (length plan))
unfolding safe_layers
safe_layers-refused plan refused = elim (Bool-cases (has_duplicate [] (linearize_plan plan))) [
  | inl twice ↦ rw (refused, plan_layers_twice (linearize_plan plan) twice, safe_layers) refl
  | inr once ↦
      rw
        (
          refused,
          plan_layers-linear (linearize_plan plan) (HasNoDeps-linearize_plan plan) once,
          safe_layers,
        )
        (ap (λ n. map (λ i. i ∷ []) (range n)) (length-linearize_plan plan))
]

-- ===== src/Graph/Plan/Order.antt =====
-- app/graph/nodes.py: the order of the batches of `_plan_layers`.
use mathlib.Core.List.{flatten, Perm}
use mathlib.Core.List.Perm
use llm_agent_runtime.Prelude.{
  ℕ, zero, suc, ◌+◌, ◌≤◌, ◌<◌, ◌≡◌, ◌≢◌, refl, ap, ◌⊎◌, inl, inr, true, not, List, [], ◌∷◌, ◌++◌,
  Option, none, some, length, all, keep, ltb, arith, All, Bool-cases, tests,
}
use llm_agent_runtime.Graph.Plan.{
  PlanStep, mem, range, is_ready, ready, kahn, plan_layers, deps_at, dep_idx,
}
use llm_agent_runtime.Graph.Plan.Kahn.{waiting, round-perm, round_count, length-range}

-- What a successful run of the loop did first.
pub record Round (fuel n : ℕ) (deps : ℕ → List ℕ) (placed : List ℕ) (layers : List (List ℕ))
    : Type 0 where
  pub rest : List (List ℕ)
  pub unfinished : length placed < n
  pub nonempty : ready n deps placed ≢ []
  pub first : layers ≡ ready n deps placed ∷ rest
  pub goes_on : kahn fuel n deps (placed ++ ready n deps placed) ≡ some rest

round_of :
    (batch : List ℕ) (rest : Option (List (List ℕ))) (layers : List (List ℕ))
    → elim batch as (λ _. Option (List (List ℕ))) [
      | [] ↦ none
      | b ∷ bs ↦ elim rest [ none ↦ none | some more ↦ some ((b ∷ bs) ∷ more) ]
    ]
      ≡ some layers
    → (more : List (List ℕ)) × (batch ≢ []) × (layers ≡ batch ∷ more) × (rest ≡ some more)
round_of [] rest layers h = cc
round_of (b ∷ bs) none layers h = cc
round_of (b ∷ bs) (some more) layers h = (more, ground arith, cc, refl)

ends : (layers : List (List ℕ)) → some [] ≡ some layers → layers ≡ []
ends layers h = cc

pub kahn_cases :
    (fuel n : ℕ) (deps : ℕ → List ℕ) (placed : List ℕ) (layers : List (List ℕ))
    → kahn (suc fuel) n deps placed ≡ some layers
    → ((n ≤ length placed) × (layers ≡ [])) ⊎ Round fuel n deps placed layers
unfolding kahn
kahn_cases fuel n deps placed layers h = elim (Bool-cases (ltb (length placed) n)) [
  | inr finished ↦ inl (omega tests, ends layers (rw finished at h))
  | inl more ↦
      let (rest, nonempty, first, goes_on) =
        round_of (ready n deps placed) (kahn fuel n deps (placed ++ ready n deps placed)) layers
          (rw more at h) in
      inr (record {
        rest = rest;
        unfinished = omega tests;
        nonempty = nonempty;
        first = first;
        goes_on = goes_on;
      })
]

kahn-zero :
    (n : ℕ) (deps : ℕ → List ℕ) (placed : List ℕ) (layers : List (List ℕ))
    → kahn zero n deps placed ≡ some layers
    → (n ≤ length placed) × (layers ≡ [])
unfolding kahn
kahn-zero n deps placed layers h = elim (Bool-cases (ltb (length placed) n)) [
  | inr finished ↦ (omega tests, ends layers (rw finished at h))
  | inl more ↦ absurd (unfinished (rw more at h))
]
  where
    unfinished : none ≡ some layers → ⊥
    unfinished e = cc

waiting_none :
    (n : ℕ) (placed : List ℕ)
    → length placed + length (waiting n placed) ≡ n
    → n ≤ length placed
    → waiting n placed ≡ []
waiting_none n placed count full = go (waiting n placed) count
  where
    go : (w : List ℕ) → length placed + length w ≡ n → w ≡ []
    go [] e = refl
    go (x ∷ w) e = absurd (omega arith)

kahn-perm :
    (fuel n : ℕ) (deps : ℕ → List ℕ) (placed : List ℕ) (layers : List (List ℕ))
    → length placed + length (waiting n placed) ≡ n
    → kahn fuel n deps placed ≡ some layers
    → Perm (flatten layers) (waiting n placed)
unfolding flatten
kahn-perm zero n deps placed layers count h =
    let (full, none_left) = kahn-zero n deps placed layers h in
    rw (none_left, waiting_none n placed count full) Perm.rfl
kahn-perm (suc fuel) n deps placed layers count h = elim (kahn_cases fuel n deps placed layers h) [
  | inl (full, none_left) ↦ rw (none_left, waiting_none n placed count full) Perm.rfl
  | inr r ↦
      let ih =
        kahn-perm fuel n deps (placed ++ ready n deps placed) r.rest
          (round_count n deps placed count) r.goes_on in
      rw r.first (Perm.trans (Perm.append_left (ready n deps placed) ih) (round-perm n deps placed))
]

-- Every dependency of a step in `layers` has been placed before the batch of the step.
abbrev pub IsOrdered : (ℕ → List ℕ) → List ℕ → List (List ℕ) → Type 0
IsOrdered deps placed [] = Unit
IsOrdered deps placed (batch ∷ layers) =
    All (λ i. All (λ d. mem d placed ≡ true) (deps i)) batch
    × IsOrdered deps (placed ++ batch) layers

all→All :
    (placed ds : List ℕ) → all (λ d. mem d placed) ds ≡ true → All (λ d. mem d placed ≡ true) ds
all→All placed [] h = tt
all→All placed (d ∷ ds) h = (ground arith, all→All placed ds (ground arith))

keep_ready :
    (deps : ℕ → List ℕ) (placed xs : List ℕ)
    → All (λ i. All (λ d. mem d placed ≡ true) (deps i)) (keep (is_ready deps placed) xs)
keep_ready deps placed [] = tt
keep_ready deps placed (x ∷ xs) =
    let ih = keep_ready deps placed xs in
    elim (Bool-cases (is_ready deps placed x)) [
      | inl now ↦ rw now (all→All placed (deps x) (ground arith), ih)
      | inr later ↦ rw later ih
    ]

kahn-IsOrdered :
    (fuel n : ℕ) (deps : ℕ → List ℕ) (placed : List ℕ) (layers : List (List ℕ))
    → kahn fuel n deps placed ≡ some layers
    → IsOrdered deps placed layers
kahn-IsOrdered zero n deps placed layers h = rw (kahn-zero n deps placed layers h).1 tt
kahn-IsOrdered (suc fuel) n deps placed layers h = elim (kahn_cases fuel n deps placed layers h) [
  | inl (full, none_left) ↦ rw none_left tt
  | inr r ↦
      rw r.first (keep_ready deps placed (range n), kahn-IsOrdered fuel n deps _ r.rest r.goes_on)
]

waiting_start : (n : ℕ) → waiting n [] ≡ range n
waiting_start n = keep-All (range n)
  where
    keep-All : (xs : List ℕ) → keep (λ i. not (mem i [])) xs ≡ xs
    keep-All [] = refl
    keep-All (x ∷ xs) = ap (λ l. x ∷ l) (keep-All xs)

pub start_count : (n : ℕ) → length {A = ℕ} [] + length (waiting n []) ≡ n
start_count n = rw (waiting_start n, length-range n) (omega arith)

loop_of :
    (plan : List PlanStep) (layers : List (List ℕ))
    → plan_layers plan ≡ some layers
    → (deps : List (List ℕ)) × (dep_idx plan ≡ some deps)
      × (kahn (length plan) (length plan) (deps_at deps) [] ≡ some layers)
unfolding plan_layers
loop_of plan layers h = go (dep_idx plan) refl h
  where
    go :
        (found : Option (List (List ℕ)))
        → dep_idx plan ≡ found
        → elim found as (λ _. Option (List (List ℕ))) [
          | none ↦ none
          | some deps ↦ kahn (length plan) (length plan) (deps_at deps) []
        ]
          ≡ some layers
        → (deps : List (List ℕ)) × (dep_idx plan ≡ some deps)
          × (kahn (length plan) (length plan) (deps_at deps) [] ≡ some layers)
    go none e k = cc
    go (some deps) e k = (deps, e, k)

-- The batches of a layered plan hold every position of the plan, each exactly once.
pub plan_layers-perm :
    (plan : List PlanStep) (layers : List (List ℕ))
    → plan_layers plan ≡ some layers
    → Perm (flatten layers) (range (length plan))
plan_layers-perm plan layers h =
    let (deps, found, ran) = loop_of plan layers h in
    rw (waiting_start (length plan)) at (
      kahn-perm (length plan) (length plan) (deps_at deps) [] layers (start_count (length plan))
        ran)

-- In a layered plan a step stands in a later batch than each of its dependencies.
pub plan_layers-IsOrdered :
    (plan : List PlanStep) (layers : List (List ℕ))
    → plan_layers plan ≡ some layers
    → (deps : List (List ℕ)) × (dep_idx plan ≡ some deps) × IsOrdered (deps_at deps) [] layers
plan_layers-IsOrdered plan layers h =
    let (deps, found, ran) = loop_of plan layers h in
    (deps, found, kahn-IsOrdered (length plan) (length plan) (deps_at deps) [] layers ran)

-- ===== src/Graph/Plan/Complete.antt =====
-- app/graph/nodes.py: when `_plan_layers` accepts a plan.
use llm_agent_runtime.Prelude.{
  ℕ, zero, suc, ◌+◌, ◌≤◌, ◌<◌, ◌≡◌, ◌≢◌, refl, inl, inr, true, false, not, ◌&&◌, List, [], ◌∷◌,
  String, leb, ◌++◌, Option, none, some, length, all, ltb, if◌then◌else◌, arith, Bool-cases, tests,
  ltb→lt, lt→ltb,
}
use llm_agent_runtime.Graph.Plan.{
  PlanStep, mem, range_from, range, is_ready, ready, kahn, plan_layers, deps_at, dep_idx, index_of,
  resolve, dep_indices, dep_idx_from, has_duplicate,
}
use llm_agent_runtime.Graph.Plan.Kahn.{
  waiting, waiting-round, round_count, mem-keep, length-keep-add,
}
use llm_agent_runtime.Graph.Plan.Order.{start_count}

find_missing :
    (placed ds : List ℕ)
    → all (λ d. mem d placed) ds ≡ false
    → (d : ℕ) × (mem d ds ≡ true) × (mem d placed ≡ false)
find_missing placed [] h = cc
find_missing placed (d ∷ ds) h = elim (Bool-cases (mem d placed)) [
  | inr missing ↦ (d, ground arith, missing)
  | inl there ↦
      let (e, is_dep, missing) = find_missing placed ds (ground arith) in (e, ground arith, missing)
]

module _ (n : ℕ) (deps : ℕ → List ℕ) (rank : ℕ → ℕ)
    (ranked : (i d : ℕ)
      → mem i (range n) ≡ true
      → mem d (deps i) ≡ true
      → (mem d (range n) ≡ true) × (rank d < rank i)) where
  some_ready :
      (k : ℕ) (placed : List ℕ) (i : ℕ)
      → rank i < k
      → mem i (range n) ≡ true
      → mem i placed ≡ false
      → (j : ℕ) × (mem j (ready n deps placed) ≡ true)
  some_ready zero placed i low inside missing = absurd (omega arith)
  some_ready (suc k) placed i low inside missing =
      elim (Bool-cases (all (λ d. mem d placed) (deps i))) [
        | inl settled ↦ (i, rw (mem-keep (is_ready deps placed) i (range n)) (ground arith))
        | inr open_dep ↦
            let (d, is_dep, d_missing) = find_missing placed (deps i) open_dep in
            let below = ranked i d inside is_dep in
            some_ready k placed d (omega (arith, below.1)) below.0 d_missing
      ]

  nonempty : (placed : List ℕ) → 0 < length (waiting n placed) → ready n deps placed ≢ []
  nonempty placed h = go (waiting n placed) refl h
    where
      nothing : false ≡ true → ⊥
      nothing e = cc

      go : (w : List ℕ) → waiting n placed ≡ w → 0 < length w → ready n deps placed ≢ []
      go [] e k = absurd (omega arith)
      go (i ∷ w) e k =
          let there : mem i (waiting n placed) ≡ true = rw e (ground arith) in
          let parts : (mem i (range n) && not (mem i placed)) ≡ true =
            rw (mem-keep (λ j. not (mem j placed)) i (range n)) at there in
          let (j, is_in) =
            some_ready (suc (rank i)) placed i (omega arith) (ground arith) (ground arith) in
          λ empty. absurd (nothing (rw empty at is_in))

  proceed :
      (batch : List ℕ) (found : Option (List (List ℕ))) (rest : List (List ℕ))
      → batch ≢ []
      → found ≡ some rest
      → (layers : List (List ℕ)) × (elim batch as (λ _. Option (List (List ℕ))) [
        | [] ↦ none
        | b ∷ bs ↦ elim found [ none ↦ none | some more ↦ some ((b ∷ bs) ∷ more) ]
      ]
          ≡ some layers)
  proceed [] found rest h e = absurd (h refl)
  proceed (b ∷ bs) found rest h e = ((b ∷ bs) ∷ rest, rw e refl)

  nonempty→pos : (xs : List ℕ) → xs ≢ [] → 0 < length xs
  nonempty→pos [] h = absurd (h refl)
  nonempty→pos (x ∷ xs) h = omega arith

  kahn_total :
      (fuel : ℕ) (placed : List ℕ)
      → length placed + length (waiting n placed) ≡ n
      → length (waiting n placed) ≤ fuel
      → (layers : List (List ℕ)) × (kahn fuel n deps placed ≡ some layers)
  unfolding kahn
  kahn_total zero placed count small =
      let full : ltb (length placed) n ≡ false = ground arith in ([], rw full refl)
  kahn_total (suc fuel) placed count small = elim (Bool-cases (ltb (length placed) n)) [
    | inr full ↦ ([], rw full refl)
    | inl more ↦
        let some_now = nonempty placed (omega tests) in
        let next = placed ++ ready n deps placed in
        let fewer : length (waiting n next) ≤ fuel = rw (waiting-round n deps placed) (
          omega (
            arith,
            nonempty→pos (ready n deps placed) some_now,
            length-keep-add (λ i. not (mem i placed)) (λ i. all (λ d. mem d placed) (deps i))
                (range n),
          )) in
        let (rest, ran) = kahn_total fuel next (round_count n deps placed count) fewer in
        rw more (proceed (ready n deps placed) (kahn fuel n deps next) rest some_now ran)
  ]

mem-range_from : (i s n : ℕ) → mem i (range_from s n) ≡ (leb s i && ltb i (s + n))
mem-range_from i s zero = ground arith
mem-range_from i s (suc n) = ground (arith, mem-range_from i (s + 1) n)

pub mem-range : (i n : ℕ) → mem i (range n) ≡ ltb i n
mem-range i n = rw (mem-range_from i 0 n) (ground arith)

index_of_lt :
    (r : String) (i : ℕ) (plan : List PlanStep) (j : ℕ)
    → index_of r i plan ≡ some j
    → j < i + length plan
unfolding index_of
index_of_lt r i [] j h = cc
index_of_lt r i (p ∷ plan) j h = ground (arith, index_of_lt r (i + 1) plan j)

resolve_lt :
    (plan : List PlanStep) (refs : List String) (ds : List ℕ) (d : ℕ)
    → resolve plan refs ≡ some ds
    → mem d ds ≡ true
    → d < length plan
unfolding resolve
resolve_lt plan [] ds d h m = ground arith
resolve_lt plan (r ∷ refs) ds d h m =
    go (λ more q. resolve_lt plan refs more d q) (index_of r 0 plan) (resolve plan refs) refl refl h
  where
    go :
        ((more : List ℕ) → resolve plan refs ≡ some more → mem d more ≡ true → d < length plan)
        → (a : Option ℕ) (b : Option (List ℕ)) → index_of r 0 plan ≡ a
        → resolve plan refs ≡ b
        → elim a as (λ _. Option (List ℕ)) [
          | none ↦ none
          | some j ↦ elim b [ none ↦ none | some more ↦ some (j ∷ more) ]
        ]
          ≡ some ds
        → d < length plan
    go rec none b p q k = cc
    go rec (some j) none p q k = cc
    go rec (some j) (some more) p q k = ground (arith, index_of_lt r 0 plan j p, rec more q)

dep_indices_lt :
    (plan : List PlanStep) (i : ℕ) (refs : Option (List String)) (ds : List ℕ) (d : ℕ)
    → i < length plan
    → dep_indices plan i refs ≡ some ds
    → mem d ds ≡ true
    → d < length plan
unfolding dep_indices
dep_indices_lt plan i none ds d inside h m = ground arith
dep_indices_lt plan i (some refs) ds d inside h m = go (resolve plan refs) refl h
  where
    go :
        (a : Option (List ℕ))
        → resolve plan refs ≡ a
        → elim a as (λ _. Option (List ℕ)) [
          | none ↦ none
          | some deps ↦ if mem i deps then none else some deps
        ]
          ≡ some ds
        → d < length plan
    go none p k = cc
    go (some deps) p k = ground (arith, resolve_lt plan refs deps d p)

dep_idx_from_lt :
    (plan : List PlanStep) (start : ℕ) (rest : List PlanStep) (deps : List (List ℕ)) (i d : ℕ)
    → start + length rest ≤ length plan
    → dep_idx_from plan start rest ≡ some deps
    → mem d (deps_at deps i) ≡ true
    → d < length plan
unfolding dep_idx_from
dep_idx_from_lt plan start [] deps i d inside h m = go deps h m
  where
    go : (ds : List (List ℕ)) → some [] ≡ some ds → mem d (deps_at ds i) ≡ true → d < length plan
    go [] e k = cc
    go (x ∷ ds) e k = cc
dep_idx_from_lt plan start (p ∷ rest) deps i d inside h m =
    go (λ more j q. dep_idx_from_lt plan (start + 1) rest more j d (omega arith) q)
      (dep_indices plan start p.deps) (dep_idx_from plan (start + 1) rest) refl refl h
  where
    at :
        (first : List ℕ) (more : List (List ℕ)) (k : ℕ)
        → dep_indices plan start p.deps ≡ some first
        → ((j : ℕ) → mem d (deps_at more j) ≡ true → d < length plan)
        → mem d (deps_at (first ∷ more) k) ≡ true
        → d < length plan
    at first more zero p q k = dep_indices_lt plan start _ first d (omega arith) p k
    at first more (suc j) p q k = q j k

    go :
        ((more : List (List ℕ)) (j : ℕ)
          → dep_idx_from plan (start + 1) rest ≡ some more
          → mem d (deps_at more j) ≡ true
          → d < length plan)
        → (a : Option (List ℕ)) (b : Option (List (List ℕ))) → dep_indices plan start p.deps ≡ a
        → dep_idx_from plan (start + 1) rest ≡ b
        → elim a as (λ _. Option (List (List ℕ))) [
          | none ↦ none
          | some ds ↦ elim b [ none ↦ none | some more ↦ some (ds ∷ more) ]
        ]
          ≡ some deps
        → d < length plan
    go rec none b p q k = cc
    go rec (some x) none p q k = cc
    go rec (some x) (some more) p q k =
        let same : deps ≡ x ∷ more = cc in at x more i p (λ j. rec more j q) (rw same at m)

dep_idx_lt :
    (plan : List PlanStep) (deps : List (List ℕ)) (i d : ℕ)
    → dep_idx plan ≡ some deps
    → mem d (deps_at deps i) ≡ true
    → d < length plan
unfolding dep_idx
dep_idx_lt plan deps i d h m = elim (Bool-cases (has_duplicate [] plan)) [
  | inl twice ↦ absurd (refused (rw twice at h))
  | inr once ↦ dep_idx_from_lt plan 0 plan deps i d (omega arith) (rw once at h) m
]
  where
    refused : none ≡ some deps → ⊥
    refused e = cc

-- A plan whose ids are distinct, whose dependencies are known, and whose steps can be ranked above
-- their dependencies, is layered: the loop never stops early.
pub plan_layers_total :
    (plan : List PlanStep) (deps : List (List ℕ)) (rank : ℕ → ℕ)
    → dep_idx plan ≡ some deps
    → ((i d : ℕ) → i < length plan → mem d (deps_at deps i) ≡ true → rank d < rank i)
    → (layers : List (List ℕ)) × (plan_layers plan ≡ some layers)
unfolding plan_layers
plan_layers_total plan deps rank found ranked =
    rw (found, plan_layers)
      (kahn_total (length plan) (deps_at deps) rank inside (length plan) []
        (start_count (length plan)) (omega (arith, start_count (length plan))))
  where
    inside :
        (i d : ℕ)
        → mem i (range (length plan)) ≡ true
        → mem d (deps_at deps i) ≡ true
        → (mem d (range (length plan)) ≡ true) × (rank d < rank i)
    inside i d at_i m =
        let i_lt : i < length plan =
          ltb→lt i (length plan) (rw (mem-range i (length plan)) at at_i) in
        (
          rw (mem-range d (length plan))
              (lt→ltb d (length plan) (dep_idx_lt plan deps i d found m)),
          ranked i d i_lt m,
        )

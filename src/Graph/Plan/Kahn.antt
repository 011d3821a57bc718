-- ===== src/Graph/Plan/Kahn.antt =====
-- app/graph/nodes.py: the rounds of `_plan_layers`, and the steps that still wait.
use mathlib.Core.List.{Perm, perm_middle}
use mathlib.Core.List.Perm
use llm_agent_runtime.Prelude.{
  ℕ, zero, suc, ◌+◌, ◌≡◌, refl, ap, Bool, true, not, ◌&&◌, ◌||◌, List, [], ◌∷◌, ◌++◌, length, all,
  keep, arith, All, length-append, inl, inr, Bool-cases,
}
use llm_agent_runtime.Graph.Plan.{mem, range_from, range, is_ready, ready}

module _ {ℓ} {A : Type ℓ} where
  -- What `p && r` and `p && not r` keep is what `p` keeps.
  pub keep-perm :
      (p r : A → Bool) (xs : List A)
      → Perm (keep (λ x. p x && r x) xs ++ keep (λ x. p x && not (r x)) xs) (keep p xs)
  keep-perm p r [] = Perm.rfl
  keep-perm p r (x ∷ xs) =
      let ih = keep-perm p r xs in
      elim (Bool-cases (p x)) [
        | inl kept ↦ elim (Bool-cases (r x)) [
          | inl now ↦ rw (kept, now) (Perm.cons x ih)
          | inr later ↦ rw (kept, later) (Perm.trans (perm_middle _ _) (Perm.cons x ih))
        ]
        | inr dropped ↦ rw dropped ih
      ]

  pub length-keep-add :
      (p r : A → Bool) (xs : List A)
      → length (keep (λ x. p x && r x) xs) + length (keep (λ x. p x && not (r x)) xs)
        ≡ length (keep p xs)
  length-keep-add p r [] = refl
  length-keep-add p r (x ∷ xs) = ground (arith, length-keep-add p r xs)

  pub keep_cong : (f g : A → Bool) (xs : List A) → All (λ x. f x ≡ g x) xs → keep f xs ≡ keep g xs
  keep_cong f g [] h = refl
  keep_cong f g (x ∷ xs) h = ground (arith, keep_cong f g xs h.1)

pub mem-append : (i : ℕ) (xs ys : List ℕ) → mem i (xs ++ ys) ≡ (mem i xs || mem i ys)
mem-append i [] ys = refl
mem-append i (x ∷ xs) ys = ground (arith, mem-append i xs ys)

pub mem-keep : (p : ℕ → Bool) (i : ℕ) (xs : List ℕ) → mem i (keep p xs) ≡ (mem i xs && p i)
mem-keep p i [] = refl
mem-keep p i (x ∷ xs) = ground (arith, mem-keep p i xs)

pub All-map {ℓ κ μ} :
    {A : Type ℓ} {P : A → Type κ} {Q : A → Type μ} (xs : List A)
    → ((x : A) → P x → Q x)
    → All P xs
    → All Q xs
All-map [] f h = tt
All-map (x ∷ xs) f h = (f x h.0, All-map xs f h.1)

mem-weaken : (y i : ℕ) (xs : List ℕ) → mem i xs ≡ true → mem i (y ∷ xs) ≡ true
mem-weaken y i xs h = ground arith

pub All-mem : (xs : List ℕ) → All (λ i. mem i xs ≡ true) xs
All-mem [] = tt
All-mem (x ∷ xs) = (ground arith, All-map xs (λ i h. mem-weaken x i xs h) (All-mem xs))

length-range_from : (start n : ℕ) → length (range_from start n) ≡ n
length-range_from start zero = refl
length-range_from start (suc n) = ap suc (length-range_from (start + 1) n)

pub length-range : (n : ℕ) → length (range n) ≡ n
length-range n = length-range_from 0 n

-- The positions that have not been placed.
abbrev pub waiting : ℕ → List ℕ → List ℕ
waiting n placed = keep (λ i. not (mem i placed)) (range n)

module _ (n : ℕ) (deps : ℕ → List ℕ) (placed : List ℕ) where
  abbrev later : List ℕ
  later = keep (λ i. not (mem i placed) && not (all (λ d. mem d placed) (deps i))) (range n)

  not_placed :
      (i : ℕ)
      → mem i (range n) ≡ true
      → not (mem i (placed ++ ready n deps placed))
        ≡ (not (mem i placed) && not (all (λ d. mem d placed) (deps i)))
  not_placed i h =
      rw (mem-append i placed (ready n deps placed), mem-keep (is_ready deps placed) i (range n), h)
        (ground arith)

  pub waiting-round : waiting n (placed ++ ready n deps placed) ≡ later
  waiting-round = keep_cong _ _ (range n) (All-map (range n) not_placed (All-mem (range n)))

  pub round-perm :
      Perm (ready n deps placed ++ waiting n (placed ++ ready n deps placed)) (waiting n placed)
  round-perm =
      rw waiting-round
        (keep-perm (λ i. not (mem i placed)) (λ i. all (λ d. mem d placed) (deps i)) (range n))

  -- A round keeps the count of the positions, placed and not.
  pub round_count :
      length placed + length (waiting n placed) ≡ n
      → length (placed ++ ready n deps placed) + length (waiting n (placed ++ ready n deps placed))
        ≡ n
  round_count h = rw waiting-round (
      omega (
        arith,
        length-append placed (ready n deps placed),
        length-keep-add (λ i. not (mem i placed)) (λ i. all (λ d. mem d placed) (deps i)) (range n),
      ))

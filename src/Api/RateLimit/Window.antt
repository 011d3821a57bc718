-- ===== src/Api/RateLimit/Window.antt =====
-- app/api/ratelimit.py: what `SlidingWindowLimiter.allow` counts.
use llm_agent_runtime.Prelude.{
  ℕ, ◌+◌, ◌≤◌, ◌<◌, ◌≡◌, refl, String, true, List, [], ◌∷◌, arith, Bool-cases, inl, inr, leb, ltb,
  length, keep, lookup_or, All, ◌↔◌,
}
use llm_agent_runtime.Api.RateLimit.{drop_old, allow, Hits}

-- The hits of a key, oldest first.
abbrev pub IsSorted : List ℕ → Type 0
IsSorted [] = Unit
IsSorted (t ∷ ts) = All (λ u. t ≤ u) ts × IsSorted ts

-- The hits that are less than a window old.
abbrev pub recent : (now window_s : ℕ) → List ℕ → List ℕ
recent now window_s ts = keep (λ t. ltb now (t + window_s)) ts

keep-All :
    (now window_s t : ℕ) (ts : List ℕ) (new : now < t + window_s) (later : All (λ u. t ≤ u) ts)
    → recent now window_s ts ≡ ts
keep-All now window_s t [] new later = refl
keep-All now window_s t (u ∷ ts) new (le, later) =
    let rest = keep-All now window_s t ts new later in ground arith

-- On hits in order of time, dropping from the front leaves exactly the hits within the window.
pub drop_old-recent :
    (now window_s : ℕ) (ts : List ℕ) (sorted : IsSorted ts)
    → drop_old now window_s ts ≡ recent now window_s ts
unfolding drop_old
drop_old-recent now window_s [] sorted = refl
drop_old-recent now window_s (t ∷ ts) (first, rest) =
    let tail = drop_old-recent now window_s ts rest in
    elim (Bool-cases (leb (t + window_s) now)) [
      | inl old ↦ ground arith
      | inr new ↦ let all = keep-All now window_s t ts (ground arith) first in ground arith
    ]

-- With a positive limit, a request is let through exactly when fewer requests than the limit are
-- recorded for its key within the window before it, if the recorded times are in order.
pub allow-allowed_iff :
    (now : ℕ) (key : String) (limit window_s : ℕ) (hits : Hits) (positive : 0 < limit)
    (sorted : IsSorted (lookup_or [] key hits))
    → ((allow now key limit window_s hits).0.is_allowed ≡ true)
      ↔ (length (recent now window_s (lookup_or [] key hits)) < limit)
unfolding allow
allow-allowed_iff now key limit window_s hits positive sorted =
    rw⁻¹ (drop_old-recent now window_s (lookup_or [] key hits) sorted)
      (λ h. ground arith, λ h. ground arith)

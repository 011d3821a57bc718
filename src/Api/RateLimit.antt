-- ===== src/Api/RateLimit.antt =====
-- app/api/ratelimit.py: `SlidingWindowLimiter`. Times are milliseconds; `now` is `time.monotonic()`, and
-- a limit of 0 stands for every limit that is not positive.
pub mod Window
use llm_agent_runtime.Prelude.{
  ℕ, zero, suc, ◌+◌, ◌-◌, ◌/◌, max, String, Bool, true, false, ◌||◌, not, List, [], ◌∷◌, ◌++◌,
  Option, none, some, length, leb, ltb, ◌==◌, if◌then◌else◌, Dict, lookup_or, insert, keep,
}

abbrev pub max_keys : ℕ
max_keys = 8192

-- `self._hits`: the times of the hits of each key, oldest first
abbrev pub Hits : Type 0
Hits = Dict (List ℕ)

-- `while dq and dq[0] <= now - window_s: dq.popleft()`
pub drop_old : (now window_s : ℕ) → List ℕ → List ℕ
drop_old now window_s [] = []
drop_old now window_s (t ∷ ts) =
    let rest = drop_old now window_s ts in if leb (t + window_s) now then rest else t ∷ ts

-- whether `dq` is empty or `dq[-1] <= now - window_s`
is_stale : (now window_s : ℕ) → List ℕ → Bool
is_stale now window_s [] = true
is_stale now window_s (t ∷ []) = leb (t + window_s) now
is_stale now window_s (t ∷ u ∷ ts) = is_stale now window_s (u ∷ ts)

unfoldable pub prune : (now window_s : ℕ) → Hits → Hits
unfolding is_stale
prune now window_s hits = keep (λ h. not (is_stale now window_s h.1)) hits

-- `max(1, int(window_s - (now - dq[0])) + 1)`, in seconds
retry_after : (now window_s : ℕ) → List ℕ → ℕ
retry_after now window_s [] = 1
retry_after now window_s (t ∷ ts) = max 1 ((window_s - (now - t)) / 1000 + 1)

pub record Allowed : Type 0 where
  pub is_allowed : Bool
  pub retry_after_s : ℕ

pub allow : (now : ℕ) → (key : String) → (limit window_s : ℕ) → Hits → Allowed × Hits
unfolding retry_after
allow now key limit window_s hits =
    if limit == 0
    then (record { is_allowed = true; retry_after_s = 0 }, hits)
    else let dq = drop_old now window_s (lookup_or [] key hits) in
      if leb limit (length dq)
      then (
        record { is_allowed = false; retry_after_s = retry_after now window_s dq },
        insert key dq hits,
      )
      else let updated = insert key (dq ++ now ∷ []) hits in
        (
          record { is_allowed = true; retry_after_s = 0 },
          if ltb max_keys (length updated) then prune now window_s updated else updated,
        )

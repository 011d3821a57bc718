-- ===== src/Storage/Windows.antt =====
-- app/storage/models.py and app/storage/repository.py: the table `rate_windows`, the hits of each key in
-- each fixed window, and `rate_limit_hit`, one transaction.
pub mod Counts
use llm_agent_runtime.Prelude.{
  ℕ, zero, suc, ◌+◌, String, str_eq, Bool, true, false, ◌&&◌, not, List, [], ◌∷◌, if◌then◌else◌,
  keep, length, ltb, ◌==◌,
}

pub record RateWindow : Type 0 where
  pub scope : String
  pub window_start : ℕ
  pub hits : ℕ

abbrev pub Windows : Type 0
Windows = List RateWindow

abbrev pub is_window : String → ℕ → RateWindow → Bool
is_window scope window_start r = str_eq r.scope scope && (r.window_start == window_start)

-- The hits in the row of a window; 0 when there is none.
abbrev pub hits_of : String → ℕ → Windows → ℕ
hits_of scope window_start [] = 0
hits_of scope window_start (r ∷ rs) =
    if is_window scope window_start r then r.hits else hits_of scope window_start rs

-- `INSERT ... ON CONFLICT (scope, window_start) DO UPDATE SET hits = rate_windows.hits + 1`
abbrev pub upsert : String → ℕ → Windows → Windows
upsert scope window_start [] = record { scope = scope; window_start = window_start; hits = 1 } ∷ []
upsert scope window_start (r ∷ rs) =
    if is_window scope window_start r
    then record r { hits = suc r.hits } ∷ rs
    else r ∷ upsert scope window_start rs

-- `WHERE scope = :s AND window_start < :w`
abbrev pub is_past : String → ℕ → RateWindow → Bool
is_past scope window_start r = str_eq r.scope scope && ltb r.window_start window_start

unfoldable pub rate_limit_hit : String → (window_start : ℕ) → Windows → ℕ × Windows
rate_limit_hit scope window_start rows =
    let rows' = upsert scope window_start rows in
    let hits = hits_of scope window_start rows' in
    (hits, if hits == 1 then keep (λ r. not (is_past scope window_start r)) rows' else rows')

unfoldable pub count_rate_windows : String → Windows → ℕ
count_rate_windows scope rows = length (keep (λ r. str_eq r.scope scope) rows)

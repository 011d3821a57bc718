-- ===== src/Api/DbRateLimit.antt =====
-- app/api/ratelimit.py: `DbWindowLimiter`, on the table `rate_windows`. Times are milliseconds on the wall
-- clock; a limit of 0 stands for every limit that is not positive; a window is longer than 0.
pub mod Counted
mod Examples
use llm_agent_runtime.Prelude.{
  ℕ, zero, suc, ◌+◌, ◌-◌, ◌*◌, ◌/◌, max, String, Bool, true, false, Option, none, some,
  if◌then◌else◌, leb, ◌==◌,
}
use llm_agent_runtime.Storage.Windows.{Windows, rate_limit_hit}
use llm_agent_runtime.Api.RateLimit.{Allowed}

-- `math.floor(now / window_s) * window_s`
abbrev pub window_start : (now window_s : ℕ) → ℕ
window_start now window_s = (now / window_s) * window_s

-- `int(remaining)` counts seconds.
abbrev judged : (limit start window_s now : ℕ) → ℕ × Windows → Allowed × Windows
judged limit start window_s now (hits, rows) =
    if leb hits limit then (record { is_allowed = true; retry_after_s = 0 }, rows) else (
      record { is_allowed = false; retry_after_s = max 1 ((start + window_s - now) / 1000 + 1) },
      rows,
    )

-- `fails` says that the write raises: the request passes.
unfoldable pub allow :
    (fails : Bool) → (now : ℕ) → (key : String) → (limit window_s : ℕ) → Windows → Allowed × Windows
unfolding rate_limit_hit
allow fails now key limit window_s rows =
    if limit == 0
    then (record { is_allowed = true; retry_after_s = 0 }, rows)
    else if fails
    then (record { is_allowed = true; retry_after_s = 0 }, rows)
    else let start = window_start now window_s in
      judged limit start window_s now (rate_limit_hit key start rows)

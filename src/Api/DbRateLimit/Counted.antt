-- ===== src/Api/DbRateLimit/Counted.antt =====
-- app/api/ratelimit.py: `DbWindowLimiter` against a count of the requests, over all processes.
use llm_agent_runtime.Prelude.{
  ℕ, suc, ◌<◌, ◌≡◌, refl, ap, sym, ◌∙◌, String, false, ◌∷◌, count, ltb, leb, ◌==◌, arith,
  Bool-cases, inl, inr,
}
use llm_agent_runtime.Storage.Windows.{Windows, rate_limit_hit}
use llm_agent_runtime.Storage.Windows.Counts.{
  Log, IsForward, IsLatest, is_hit, table_of, table_of-cons, rate_limit_hit-counts,
}
use llm_agent_runtime.Api.DbRateLimit.{window_start, judged, allow}

judged-allowed :
    (limit start window_s now : ℕ) (r : ℕ × Windows)
    → (judged limit start window_s now r).0.is_allowed ≡ leb r.0 limit
judged-allowed limit start window_s now (hits, rows) = elim (Bool-cases (leb hits limit)) [
  | inl e ↦ rw e refl
  | inr e ↦ rw e refl
]

judged-rows :
    (limit start window_s now : ℕ) (r : ℕ × Windows) → (judged limit start window_s now r).1 ≡ r.1
judged-rows limit start window_s now (hits, rows) = elim (Bool-cases (leb hits limit)) [
  | inl e ↦ rw e refl
  | inr e ↦ rw e refl
]

is_on : (limit : ℕ) (limited : 0 < limit) → (limit == 0) ≡ false
is_on limit limited = ground arith

fewer : (c limit : ℕ) → leb (suc c) limit ≡ ltb c limit
fewer c limit = ground arith

-- `DbWindowLimiter` implements one counter for each key and window: when the table is what the earlier
-- requests have left, the windows of each key have not gone back, none of this key's lies after the present
-- one, the limit is on and the write does not raise, a request passes exactly when fewer than `limit`
-- earlier requests of its key lie in its window, and the table it leaves is that of the requests with this
-- one among them.
pub allow-count :
    (log : Log) (forward : IsForward log) (now : ℕ) (key : String) (limit window_s : ℕ)
    (limited : 0 < limit) (latest : IsLatest key (window_start now window_s) log)
    → let start = window_start now window_s in
      let r = allow false now key limit window_s (table_of log) in
      (r.0.is_allowed ≡ ltb (count (is_hit key start) log) limit)
      × (r.1 ≡ table_of ((key, start) ∷ log))
unfolding allow
allow-count log forward now key limit window_s limited latest =
    let start = window_start now window_s in
    let hit = rate_limit_hit key start (table_of log) in
    simp (is_on limit limited) (
      judged-allowed limit start window_s now hit
          ∙ ap (λ n. leb n limit) (rate_limit_hit-counts log forward key start latest)
          ∙ fewer (count (is_hit key start) log) limit,
      judged-rows limit start window_s now hit ∙ sym (table_of-cons key start log),
    )

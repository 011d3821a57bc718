-- ===== src/Api/DbRateLimit/Examples.antt =====
-- app/api/ratelimit.py, the limiter on the database, at concrete values.
use llm_agent_runtime.Prelude.{◌≡◌, arith, false, [], ◌∷◌, count, ltb}
use llm_agent_runtime.Storage.Windows.Counts.{Log, IsForward, IsLatest, is_hit, table_of}
use llm_agent_runtime.Api.DbRateLimit.{window_start, allow}
use llm_agent_runtime.Api.DbRateLimit.Counted.{allow-count}

abbrev log : Log
log = ("ip:1", 60000) ∷ ("ip:2", 60000) ∷ ("ip:1", 0) ∷ []

forward : IsForward log
forward = ((λ e. omega arith, (λ e. omega arith, tt)), ((λ e. omega arith, tt), (tt, tt)))

latest : IsLatest "ip:1" (window_start 61500 60000) log
latest = (λ e. omega arith, (λ e. omega arith, (λ e. omega arith, tt)))

allow-count_example :
    let start = window_start 61500 60000 in
    let r = allow false 61500 "ip:1" 2 60000 (table_of log) in
    (r.0.is_allowed ≡ ltb (count (is_hit "ip:1" start) log) 2)
    × (r.1 ≡ table_of (("ip:1", start) ∷ log))
allow-count_example = allow-count log forward 61500 "ip:1" 2 60000 (omega arith) latest

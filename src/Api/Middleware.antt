-- ===== src/Api/Middleware.antt =====
-- app/api/ratelimit.py: `PerIpRateLimitMiddleware`, on any limiter. An answer of the limiter is 429 or the
-- application's own.
use llm_agent_runtime.Prelude.{
  ℕ, String, str_eq, Bool, true, false, ◌&&◌, ◌||◌, not, Option, none, some, if◌then◌else◌,
}
use llm_agent_runtime.Api.RateLimit.{Allowed, Hits}
use llm_agent_runtime.Api.RateLimit.{allow}
use llm_agent_runtime.Api.DbRateLimit.{allow as allow_db}
use llm_agent_runtime.Storage.Windows.{Windows}

-- `RateLimiter`: a request of a key, at a time, within a limit.
pub record Limiter (S : Type 0) : Type 0 where
  pub allow : (now : ℕ) → (key : String) → (limit : ℕ) → S → Allowed × S

-- `window_s: float = 60.0`
abbrev pub default_window : ℕ
default_window = 60000

-- The two limiters.
unfoldable pub sliding_window : Limiter Hits
sliding_window = record { allow = λ now key limit hits. allow now key limit default_window hits }

unfoldable pub db_window : (fails : ℕ → Bool) → Limiter Windows
unfolding allow_db
db_window fails = record {
  allow = λ now key limit rows. allow_db (fails now) now key limit default_window rows;
}

-- An ASGI scope, with what Python's functions say of its texts: the method is in capitals, and `in_api` is
-- `path.startswith("/api")`.
pub record Scope : Type 0 where
  pub is_http : Bool
  pub in_api : Bool
  pub method : String
  pub client : Option String

-- `_READ_METHODS`
abbrev pub is_read : String → Bool
is_read method = str_eq method "GET" || (str_eq method "HEAD" || str_eq method "OPTIONS")

pub data Passage : Type 0 where
  passes : Passage
  too_many : (retry_after_s : ℕ) → Passage

abbrev pub ip_of : Option String → String
ip_of none = "unknown"
ip_of (some host) = host

-- `f"ip:{ip}"`
abbrev pub ip_key : (join : String → String → String) → Scope → String
ip_key join scope = join "ip:" (ip_of scope.client)

-- Whether the scope is counted.
abbrev pub is_counted : (read_exempt : Bool) → Scope → Bool
is_counted read_exempt scope =
    if not scope.is_http || not scope.in_api
    then false
    else if read_exempt && is_read scope.method
    then false
    else true

module _ {S : Type 0} (limiter : Limiter S) (join : String → String → String) where
  abbrev answered : Allowed × S → Passage × S
  answered (a, s) = (if a.is_allowed then passes else too_many a.retry_after_s, s)

  unfoldable pub per_ip :
      (read_exempt : Bool) → (ip_rate_limit_per_min : ℕ) → (now : ℕ) → Scope → S → Passage × S
  per_ip read_exempt ip_rate_limit_per_min now scope s =
      if is_counted read_exempt scope
      then answered (limiter.allow now (ip_key join scope) ip_rate_limit_per_min s)
      else (passes, s)

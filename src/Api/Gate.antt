-- ===== src/Api/Gate.antt =====
-- app/api/ratelimit.py: `ConcurrencyGate`, the slots of the long-lived connections. A bound of 0 stands
-- for every bound that is not positive: that side is open.
pub mod Slots
pub mod Connections
use llm_agent_runtime.Prelude.{
  ℕ, zero, suc, ◌+◌, ◌-◌, String, Bool, true, false, ◌||◌, ◌&&◌, not, List, [], ◌∷◌, Option, none,
  some, leb, ltb, ◌==◌, if◌then◌else◌, Dict, lookup_or, insert, remove,
}

pub record Gate : Type 0 where
  pub per_tenant : ℕ
  pub total : ℕ
  pub counts : Dict ℕ
  pub active : ℕ

unfoldable pub open_gate : (per_tenant total : ℕ) → Gate
open_gate per_tenant total = record {
  per_tenant = per_tenant;
  total = total;
  counts = [];
  active = 0;
}

-- `self._counts.get(tenant_id, 0)`
abbrev pub count_of : String → Gate → ℕ
count_of tenant_id g = lookup_or 0 tenant_id g.counts

unfoldable pub try_acquire : String → Gate → Bool × Gate
try_acquire tenant_id g =
    if ltb 0 g.total && leb g.total g.active
    then (false, g)
    else if ltb 0 g.per_tenant && leb g.per_tenant (count_of tenant_id g)
    then (false, g)
    else (
      true,
      record g {
        active = g.active + 1;
        counts = insert tenant_id (count_of tenant_id g + 1) g.counts;
      },
    )

unfoldable pub release : String → Gate → Gate
release tenant_id g =
    let n = count_of tenant_id g - 1 in
    record g {
      active = g.active - 1;
      counts = if leb n 0 then remove tenant_id g.counts else insert tenant_id n g.counts;
    }

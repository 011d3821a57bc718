-- ===== src/Api/Registry.antt =====
-- app/api/security.py: `TenantRegistry`, the cache of the tenants by the hash of their key, and the
-- endpoints of app/api/routes_admin.py that change a tenant. `resolve` awaits its query, so the
-- cache that it writes to may be another than the one in which it looked.
pub mod Coherent
use llm_agent_runtime.Prelude.{
  ℕ, String, str_eq, Bool, true, false, not, List, [], ◌∷◌, Option, none, some, if◌then◌else◌, leb,
  length, keep, Dict, lookup, insert,
}
use llm_agent_runtime.Storage.Tenants.{
  Tenant, Tenants, get_tenant_by_key_hash, is_tenant, TenantChange, new_key, patched, Updated,
  missing, refused, updated, update_tenant,
}

-- `_MAX_ENTRIES`
abbrev pub max_entries : ℕ
max_entries = 4096

-- `self._cache`; an entry that is `none` says that no tenant has the hash.
abbrev pub Cache : Type 0
Cache = Dict (Option Tenant)

abbrev resolved :
    String → Tenants → (later : Cache) → Option (Option Tenant) → Option Tenant × Cache
unfolding get_tenant_by_key_hash
resolved hash ts later (some row) = (row, later)
resolved hash ts later none =
    let row = get_tenant_by_key_hash hash ts in
    (row, insert hash row (if leb max_entries (length later) then [] else later))

-- `resolve`, by the hash of the key: `cache` is the cache in which it looks, `ts` the table as the query
-- finds it, and `later` the cache as it is once the query has come back, to which it writes. Where the
-- cache answers there is no await, and `later` is what the cache is at the time of the caller.
unfoldable pub resolve :
    (hash : String) → (cache : Cache) → Tenants → (later : Cache) → Option Tenant × Cache
unfolding resolved
resolve hash cache ts later = resolved hash ts later (lookup hash cache)

-- The entries that `invalidate_tenant` keeps.
abbrev pub stays : String → String × Option Tenant → Bool
stays tenant_id (hash, none) = false
stays tenant_id (hash, some t) = not (is_tenant tenant_id t)

unfoldable pub invalidate_tenant : String → Cache → Cache
invalidate_tenant tenant_id cache = keep (stays tenant_id) cache

-- `patch_tenant` and `rotate_key`, once an administrator is let in: 400 for a patch without fields,
-- 404, the exception of the unique index,
-- or the tenant as it is now.
pub data Changed : Type 0 where
  bad_request not_found integrity_error : Changed
  changed_to : Tenant → Changed

after_update : String → Updated → Tenants → Cache → Changed × Tenants × Cache
unfolding invalidate_tenant
after_update tenant_id missing ts cache = (not_found, ts, cache)
after_update tenant_id refused ts cache = (integrity_error, ts, cache)
after_update tenant_id (updated t ts') ts cache =
    (changed_to t, ts', invalidate_tenant tenant_id cache)

-- `if not fields`
abbrev pub is_empty : TenantChange → Bool
is_empty (patched none none none) = true
is_empty _ = false

pub change_tenant : String → TenantChange → Tenants → Cache → Changed × Tenants × Cache
unfolding after_update update_tenant
change_tenant tenant_id c ts cache =
    if is_empty c
    then (bad_request, ts, cache)
    else after_update tenant_id (update_tenant tenant_id c ts) ts cache

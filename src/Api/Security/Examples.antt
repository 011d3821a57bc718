-- ===== src/Api/Security/Examples.antt =====
-- app/api/security.py at concrete values.
use llm_agent_runtime.Prelude.{◌≡◌, ◌⊎◌, refl, true, false, [], ◌∷◌, none, some}
use llm_agent_runtime.Storage.Tenants.{Tenant, Tenants, get_tenant_by_key_hash, new_key}
use llm_agent_runtime.Api.Registry.{Cache, resolve, change_tenant}
use llm_agent_runtime.Api.Registry.Coherent.{IsCoherent, resolve-query, change_tenant-coherent}
use llm_agent_runtime.Api.Security.{
  Net, Request, AuthSettings, context_of, api_key, granted, extract_key, require_tenant,
}
use llm_agent_runtime.Api.Security.Doors.{HasKey, IsHere, require_tenant-doors}

abbrev team : Tenant
team = record {
  id = "a";
  name = "team";
  api_key_hash = "art-1";
  key_prefix = "art";
  enabled = true;
  daily_token_quota = 5000;
  created_at = 1;
}

abbrev tenants : Tenants
tenants = team ∷ []

abbrev cache : Cache
cache = ("art-1", some team) ∷ ("guess", none) ∷ []

coherent : IsCoherent tenants cache
unfolding get_tenant_by_key_hash
coherent = (refl, (refl, tt))

-- While the key `new-1` is looked up, another tenant comes, and the cache is emptied.
abbrev later_tenants : Tenants
later_tenants = team ∷ record team { id = "b"; name = "other"; api_key_hash = "art-9" } ∷ []

untouched : get_tenant_by_key_hash "new-1" later_tenants ≡ get_tenant_by_key_hash "new-1" tenants
unfolding get_tenant_by_key_hash
untouched = refl

resolve-query_example :
    ((resolve "new-1" cache tenants []).0 ≡ get_tenant_by_key_hash "new-1" tenants)
    × IsCoherent later_tenants (resolve "new-1" cache tenants []).1
resolve-query_example = resolve-query "new-1" tenants later_tenants cache [] coherent tt untouched

change_tenant-coherent_example :
    IsCoherent
      (change_tenant "a" (new_key "art-2" "art") tenants cache).1
      (change_tenant "a" (new_key "art-2" "art") tenants cache).2
change_tenant-coherent_example =
    change_tenant-coherent "a" (new_key "art-2" "art") tenants cache coherent

abbrev net : Net
net = record {
  hash_api_key = λ s. s;
  strip = λ s. s;
  strip_brackets = λ s. s;
  split_commas = λ s. [];
  unmapped = λ s. s;
  is_loopback = λ s. some false;
  is_bearer = λ s. false;
  after_bearer = λ s. s;
  is_stream = λ s. false;
}

abbrev request : Request
request = record {
  client_host = some "10.0.0.7";
  path = "/api/tasks";
  x_api_key = "art-1";
  authorization = "";
  api_key_param = "";
  x_forwarded_for = "";
  x_real_ip = "";
  forwarded = "";
}

abbrev settings : AuthSettings
settings = record {
  auth_enabled = true;
  auth_localhost_bypass = true;
  trusted_proxy_hops = 0;
  localhost_login_disabled = false;
}

passes :
    (require_tenant net settings request tenants cache cache).0 ≡ granted (context_of api_key team)
unfolding require_tenant extract_key resolve
passes = refl

require_tenant-doors_example :
    HasKey net settings request tenants (context_of api_key team)
    ⊎ IsHere net settings request tenants (context_of api_key team)
require_tenant-doors_example =
    require_tenant-doors net settings request tenants cache cache coherent (context_of api_key team)
      refl passes

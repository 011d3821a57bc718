-- ===== src/Api/Security.antt =====
-- app/api/security.py: who is let in, `require_tenant`, with the key of a request, the local bypass and
-- the header checks. A header that is missing is the empty text; the texts of the refusals are their codes.
pub mod Doors
mod Examples
use llm_agent_runtime.Prelude.{
  ℕ, zero, suc, ◌-◌, String, str_eq, Bool, true, false, ◌&&◌, ◌||◌, not, List, [], ◌∷◌, Option,
  none, some, if◌then◌else◌, length, leb, ltb, ◌==◌, keep, map, get_elem?,
}
use llm_agent_runtime.Storage.Tenants.{Tenant, Tenants, get_tenant_by_name, get_tenant_by_key_hash}
use llm_agent_runtime.Api.Registry.{Cache, resolve}

-- Python's standard functions that this file uses.
pub record Net : Type 0 where
  -- `hash_api_key`, `hashlib.sha256(key.encode("utf-8")).hexdigest()`
  pub hash_api_key : String → String
  -- `str.strip`
  pub strip : String → String
  -- `s.strip("[]")`
  pub strip_brackets : String → String
  -- `s.split(",")`
  pub split_commas : String → List String
  -- `s.removeprefix("::ffff:")`
  pub unmapped : String → String
  -- `ipaddress.ip_address(s).is_loopback`, `none` where it raises
  pub is_loopback : String → Option Bool
  -- `s.lower().startswith("bearer ")`
  pub is_bearer : String → Bool
  -- `s[7:]`
  pub after_bearer : String → String
  -- `path.endswith("/stream")`
  pub is_stream : String → Bool

pub record Request : Type 0 where
  pub client_host : Option String
  pub path : String
  pub x_api_key : String
  pub authorization : String
  pub api_key_param : String
  pub x_forwarded_for : String
  pub x_real_ip : String
  pub forwarded : String

pub record AuthSettings : Type 0 where
  pub auth_enabled : Bool
  pub auth_localhost_bypass : Bool
  pub trusted_proxy_hops : ℕ
  pub localhost_login_disabled : Bool

pub data Via : Type 0 where
  disabled api_key localhost : Via

-- `TenantContext`
pub record Context : Type 0 where
  pub id : String
  pub name : String
  pub daily_token_quota : ℕ
  pub via : Via

abbrev pub anonymous : Context
anonymous = record { id = "local"; name = "local"; daily_token_quota = 0; via = disabled }

abbrev pub context_of : Via → Tenant → Context
context_of via t = record {
  id = t.id;
  name = t.name;
  daily_token_quota = t.daily_token_quota;
  via = via;
}

-- An identity, or an `HTTPException` with its code.
pub data Access : Type 0 where
  granted : Context → Access
  denied : (code : ℕ) → Access

abbrev pub is_empty : String → Bool
is_empty s = str_eq s ""

abbrev pub last : ℕ → List String → Option String
last n xs = get_elem? xs (length xs - n)

abbrev or_host : String → Option String → String
or_host host none = host
or_host host (some h) = h

module _ (net : Net) where
  -- The host that is judged: the peer, or the hop that a trusted proxy wrote.
  abbrev seen_host : String → (hops : ℕ) → Request → String
  seen_host host hops r =
      let fwd = keep (λ p. not (is_empty p)) (map net.strip (net.split_commas r.x_forwarded_for)) in
      if ltb 0 hops && leb hops (length fwd) then or_host host (last hops fwd) else host

  abbrev is_local : Option Bool → Bool
  is_local none = false
  is_local (some b) = b

  abbrev loopback : String → Bool
  loopback s =
      let host = net.strip_brackets (net.strip s) in
      if str_eq host "localhost" || str_eq host "0.0.0.0"
      then true
      else is_local (net.is_loopback (net.unmapped host))

  -- `_client_is_loopback`
  pub client_is_loopback : (hops : ℕ) → Request → Option String → Bool
  client_is_loopback hops r none = false
  client_is_loopback hops r (some host) =
      if is_empty host then false else loopback (seen_host host hops r)

  -- `_has_forwarding_headers`
  abbrev pub has_forwarding_headers : Request → Bool
  has_forwarding_headers r =
      not (is_empty r.x_forwarded_for) || (not (is_empty r.x_real_ip) || not (is_empty r.forwarded))

  -- `_localhost_bypass_allowed`
  unfoldable pub localhost_bypass_allowed : AuthSettings → Request → Bool
  unfolding client_is_loopback
  localhost_bypass_allowed settings r =
      if not settings.auth_localhost_bypass
      then false
      else if settings.localhost_login_disabled
      then false
      else if not (client_is_loopback settings.trusted_proxy_hops r r.client_host)
      then false
      else if (settings.trusted_proxy_hops == 0) && has_forwarding_headers r
      then false
      else true

  -- `_extract_key`
  abbrev pub from_bearer : Request → String
  from_bearer r =
      if net.is_bearer r.authorization then net.strip (net.after_bearer r.authorization) else ""

  abbrev pub from_headers : Request → String
  from_headers r = let key = net.strip r.x_api_key in if is_empty key then from_bearer r else key

  unfoldable pub extract_key : Request → String
  extract_key r =
      let key = from_headers r in
      if is_empty key && net.is_stream r.path then net.strip r.api_key_param else key

  -- `_default_tenant`
  abbrev pub default_for : Option Tenant → Access
  default_for none = denied 401
  default_for (some t) = if t.enabled then granted (context_of localhost t) else denied 401

  unfoldable pub default_tenant : Tenants → Access
  unfolding get_tenant_by_name
  default_tenant ts = default_for (get_tenant_by_name "default" ts)

  -- `require_tenant`, after `_resolve_tenant_by_key` has looked the key up
  abbrev pub for_key : AuthSettings → Request → Tenants → Option Tenant → Access
  for_key settings r ts (some t) = if t.enabled then granted (context_of api_key t) else denied 403
  for_key settings r ts none =
      if localhost_bypass_allowed settings r then default_tenant ts else denied 401

  abbrev pub looked_up : AuthSettings → Request → Tenants → Option Tenant × Cache → Access × Cache
  looked_up settings r ts (row, cache) = (for_key settings r ts row, cache)

  -- `later` is the cache once the query for the key has come back.
  unfoldable pub require_tenant :
      AuthSettings → Request → Tenants → (cache later : Cache) → Access × Cache
  unfolding localhost_bypass_allowed default_tenant extract_key resolve
  require_tenant settings r ts cache later =
      if not settings.auth_enabled
      then (granted anonymous, cache)
      else let key = extract_key r in
        if not (is_empty key)
        then looked_up settings r ts (resolve (net.hash_api_key key) cache ts later)
        else (if localhost_bypass_allowed settings r then default_tenant ts else denied 401, cache)

  -- `_admin_key_from`
  abbrev admin_key_from : (x_admin_key authorization : String) → String
  admin_key_from x_admin_key authorization =
      let key = net.strip x_admin_key in
      if is_empty key
      then if net.is_bearer authorization then net.strip (net.after_bearer authorization) else ""
      else key

  -- `require_admin`: the code of the refusal, or `none`. `rate` is what the limiter says of the client, and
  -- true where there is none; `expected` is the key of the administrator.
  unfoldable pub require_admin :
      (auth_enabled rate : Bool) → (expected x_admin_key authorization : String) → Option ℕ
  require_admin auth_enabled rate expected x_admin_key authorization =
      if not auth_enabled
      then none
      else if not rate
      then some 429
      else if is_empty (admin_key_from x_admin_key authorization)
      then some 401
      else if is_empty expected || not (str_eq (admin_key_from x_admin_key authorization) expected)
      then some 403
      else none

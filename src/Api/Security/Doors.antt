-- ===== src/Api/Security/Doors.antt =====
-- app/api/security.py: the ways in that `require_tenant` has.
use llm_agent_runtime.Prelude.{
  ℕ, ◌≡◌, refl, ap, sym, Bool, true, false, ◌&&◌, not, Option, none, some, if◌then◌else◌, ◌==◌, ◌⊎◌,
  inl, inr, Bool-cases, arith,
}
use llm_agent_runtime.Storage.Tenants.{Tenant, Tenants, get_tenant_by_name, get_tenant_by_key_hash}
use llm_agent_runtime.Api.Registry.{Cache, resolve}
use llm_agent_runtime.Api.Registry.Coherent.{IsCoherent, resolve-answer}
use llm_agent_runtime.Api.Security.{
  Net, Request, AuthSettings, Context, context_of, api_key, localhost, Access, granted, denied,
  is_empty, client_is_loopback, has_forwarding_headers, localhost_bypass_allowed, extract_key,
  default_tenant, default_for, for_key, require_tenant,
}

gates :
    (a b c d : Bool)
    → (if not a
        then false
        else if b
        then false
        else if not c
        then false
        else if d
        then false
        else true)
      ≡ true
    → (a ≡ true) × (b ≡ false) × (c ≡ true) × (d ≡ false)
gates a b c d h = ground arith

module _ (net : Net) (settings : AuthSettings) (r : Request) (ts : Tenants) where
  -- The key of the request is the present key of a tenant that is enabled.
  abbrev pub HasKey : Context → Type 0
  HasKey ctx =
      (t : Tenant) × (is_empty (extract_key net r) ≡ false)
      × (get_tenant_by_key_hash (net.hash_api_key (extract_key net r)) ts ≡ some t)
      × (t.enabled ≡ true)
      × (ctx ≡ context_of api_key t)

  -- The bypass is on, the peer is this machine, no proxy stands before it, and the tenant is the default one.
  abbrev pub IsHere : Context → Type 0
  IsHere ctx =
      (t : Tenant) × (settings.auth_localhost_bypass ≡ true)
      × (settings.localhost_login_disabled ≡ false)
      × (client_is_loopback net settings.trusted_proxy_hops r r.client_host ≡ true)
      × (((settings.trusted_proxy_hops == 0) && has_forwarding_headers net r) ≡ false)
      × (get_tenant_by_name "default" ts ≡ some t)
      × (t.enabled ≡ true)
      × (ctx ≡ context_of localhost t)

  granted-same : (a b : Context) → granted a ≡ granted b → a ≡ b
  granted-same a b e = ap of e
    where
      of : Access → Context
      of (granted c) = c
      of (denied code) = a

  refused : (ctx : Context) (code : ℕ) → denied code ≡ granted ctx → ⊥
  refused ctx code e = cc

  default_granted :
      (ctx : Context) (o : Option Tenant) (passes : default_for net o ≡ granted ctx)
      → (t : Tenant) × (o ≡ some t) × (t.enabled ≡ true) × (ctx ≡ context_of localhost t)
  default_granted ctx none passes = absurd (refused ctx 401 passes)
  default_granted ctx (some t) passes = elim (Bool-cases t.enabled) [
    | inl on ↦ (t, refl, on, sym (granted-same (context_of localhost t) ctx (simp on at passes)))
    | inr off ↦ absurd (refused ctx 401 (simp off at passes))
  ]

  bypassed :
      (ctx : Context)
      (passes : (if localhost_bypass_allowed net settings r
          then default_tenant net ts
          else denied 401)
        ≡ granted ctx)
      → IsHere ctx
  unfolding localhost_bypass_allowed default_tenant
  bypassed ctx passes = elim (Bool-cases (localhost_bypass_allowed net settings r)) [
    | inr shut ↦ absurd (refused ctx 401 (rw shut at passes))
    | inl let_in ↦
        let g =
          gates settings.auth_localhost_bypass settings.localhost_login_disabled
            (client_is_loopback net settings.trusted_proxy_hops r r.client_host)
            ((settings.trusted_proxy_hops == 0) && has_forwarding_headers net r) let_in in
        let d = default_granted ctx (get_tenant_by_name "default" ts) (rw let_in at passes) in
        (d.0, g.0, g.1, g.2, g.3, d.1, d.2, d.3)
  ]

  keyed :
      (ctx : Context) (row : Option Tenant) (some_key : is_empty (extract_key net r) ≡ false)
      (query : row ≡ get_tenant_by_key_hash (net.hash_api_key (extract_key net r)) ts)
      (passes : for_key net settings r ts row ≡ granted ctx)
      → HasKey ctx ⊎ IsHere ctx
  keyed ctx none some_key query passes = inr (bypassed ctx passes)
  keyed ctx (some t) some_key query passes = elim (Bool-cases t.enabled) [
    | inl on ↦ inl (
      t,
      some_key,
      sym query,
      on,
      sym (granted-same (context_of api_key t) ctx (simp on at passes)),
    )
    | inr off ↦ absurd (refused ctx 403 (simp off at passes))
  ]

  -- With authentication on, and a cache that says what the table says, a request that is let in either
  -- presents the present key of a tenant that is enabled, and is that tenant, or it comes from this machine
  -- with the bypass on and, unless a trusted proxy is configured, without a header that a proxy writes, and
  -- is the default tenant, which is enabled.
  pub require_tenant-doors :
      (cache later : Cache) (coherent : IsCoherent ts cache) (ctx : Context)
      (auth : settings.auth_enabled ≡ true)
      (passes : (require_tenant net settings r ts cache later).0 ≡ granted ctx)
      → HasKey ctx ⊎ IsHere ctx
  unfolding require_tenant
  require_tenant-doors cache later coherent ctx auth passes =
      elim (Bool-cases (is_empty (extract_key net r))) [
        | inl no_key ↦ inr (bypassed ctx (rw (require_tenant, auth, no_key) at passes))
        | inr some_key ↦
            keyed ctx (resolve (net.hash_api_key (extract_key net r)) cache ts later).0 some_key
              (resolve-answer (net.hash_api_key (extract_key net r)) ts cache later coherent)
              (rw (require_tenant, auth, some_key) at passes)
      ]

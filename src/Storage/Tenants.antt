-- ===== src/Storage/Tenants.antt =====
-- app/storage/models.py and app/storage/repository.py: the table `tenants`, in the order of creation. The
-- primary key is `id`, and `api_key_hash` is unique.
use llm_agent_runtime.Prelude.{
  ℕ, String, str_eq, Bool, true, false, not, ◌&&◌, ◌||◌, List, [], ◌∷◌, ◌++◌, Option, none, some,
  if◌then◌else◌, any,
}

pub record Tenant : Type 0 where
  pub id : String
  pub name : String
  pub api_key_hash : String
  pub key_prefix : String
  pub enabled : Bool
  pub daily_token_quota : ℕ
  pub created_at : ℕ

abbrev pub Tenants : Type 0
Tenants = List Tenant

abbrev pub find_tenant : (Tenant → Bool) → Tenants → Option Tenant
find_tenant p [] = none
find_tenant p (t ∷ ts) = if p t then some t else find_tenant p ts

abbrev pub has_hash : String → Tenant → Bool
has_hash hash t = str_eq t.api_key_hash hash

abbrev pub is_tenant : String → Tenant → Bool
is_tenant tenant_id t = str_eq t.id tenant_id

unfoldable pub get_tenant_by_key_hash : String → Tenants → Option Tenant
get_tenant_by_key_hash hash ts = find_tenant (has_hash hash) ts

unfoldable pub get_tenant_by_name : String → Tenants → Option Tenant
get_tenant_by_name name ts = find_tenant (λ t. str_eq t.name name) ts

unfoldable pub get_tenant : String → Tenants → Option Tenant
get_tenant tenant_id ts = find_tenant (is_tenant tenant_id) ts

-- `none` is the `IntegrityError` of one of the two keys.
unfoldable pub create_tenant :
    (tenant_id name hash prefix : String) → (daily_token_quota now : ℕ) → Tenants → Option Tenants
create_tenant tenant_id name hash prefix daily_token_quota now ts =
    if any (λ t. is_tenant tenant_id t || has_hash hash t) ts
    then none
    else let row : Tenant = record {
      id = tenant_id;
      name = name;
      api_key_hash = hash;
      key_prefix = prefix;
      enabled = true;
      daily_token_quota = daily_token_quota;
      created_at = now;
    } in
      some (ts ++ row ∷ [])

-- The keyword arguments of `update_tenant`: a change of the key, or of what an administrator may set.
pub data TenantChange : Type 0 where
  new_key : (hash prefix : String) → TenantChange
  patched : (name : Option String) → (enabled : Option Bool) → (quota : Option ℕ) → TenantChange

abbrev pub or_old {ℓ} : {A : Type ℓ} → A → Option A → A
or_old a none = a
or_old a (some b) = b

abbrev pub changed : TenantChange → Tenant → Tenant
changed (new_key hash prefix) t = record t { api_key_hash = hash; key_prefix = prefix }
changed (patched name enabled quota) t = record t {
  name = or_old t.name name;
  enabled = or_old t.enabled enabled;
  daily_token_quota = or_old t.daily_token_quota quota;
}

abbrev pub change_in : String → TenantChange → Tenants → Tenants
change_in tenant_id c [] = []
change_in tenant_id c (t ∷ ts) =
    (if is_tenant tenant_id t then changed c t else t) ∷ change_in tenant_id c ts

-- A new hash that another row has is refused by the unique index.
abbrev pub clashes : String → TenantChange → Tenants → Bool
clashes tenant_id (new_key hash prefix) ts =
    any (λ t. has_hash hash t && not (is_tenant tenant_id t)) ts
clashes tenant_id (patched name enabled quota) ts = false

-- What `update_tenant` comes to: there is no such row, the unique index refuses, or the row is changed.
pub data Updated : Type 0 where
  missing refused : Updated
  updated : Tenant → Tenants → Updated

unfoldable pub update_tenant : String → TenantChange → Tenants → Updated
update_tenant tenant_id c ts = elim (find_tenant (is_tenant tenant_id) ts) [
  | none ↦ missing
  | some t ↦
      if clashes tenant_id c ts then refused else updated (changed c t) (change_in tenant_id c ts)
]

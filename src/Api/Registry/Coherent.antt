-- ===== src/Api/Registry/Coherent.antt =====
-- app/api/security.py: the cache of `TenantRegistry` against the table.
use llm_agent_runtime.Prelude.{
  ◌≡◌, refl, ap, sym, ◌∙◌, String, str_eq, Bool, true, false, not, [], ◌∷◌, Option, none, some, leb,
  length, lookup, insert, All, All-keep, arith, Bool-cases, Option-cases, inl, inr, same_text,
}
use llm_agent_runtime.Storage.Tenants.{
  Tenant, Tenants, find_tenant, has_hash, is_tenant, get_tenant_by_key_hash, TenantChange, new_key,
  patched, changed, change_in, clashes, update_tenant,
}
use llm_agent_runtime.Api.Registry.{
  Cache, max_entries, resolve, resolved, stays, invalidate_tenant, change_tenant, after_update,
  is_empty,
}

-- What an entry of the cache says of its hash is what the table says.
abbrev pub IsFresh : Tenants → String × Option Tenant → Type 0
IsFresh ts e = e.1 ≡ get_tenant_by_key_hash e.0 ts

abbrev pub IsCoherent : Tenants → Cache → Type 0
IsCoherent ts cache = All (IsFresh ts) cache

lookup-fresh :
    (ts : Tenants) (hash : String) (cache : Cache) (row : Option Tenant)
    (coherent : IsCoherent ts cache) (seen : lookup hash cache ≡ some row)
    → row ≡ get_tenant_by_key_hash hash ts
lookup-fresh ts hash [] row coherent seen = absurd (nothing seen)
  where
    nothing : none ≡ some row → ⊥
    nothing e = cc
lookup-fresh ts hash ((h, r) ∷ cache) row coherent seen = elim (Bool-cases (str_eq h hash)) [
  | inl e ↦
      here (rw e at seen) ∙ coherent.0 ∙ ap (λ i. get_tenant_by_key_hash i ts) (same_text h hash e)
  | inr e ↦ lookup-fresh ts hash cache row coherent.1 (rw e at seen)
]
  where
    here : some r ≡ some row → row ≡ r
    here same = cc

insert-coherent :
    (ts : Tenants) (hash : String) (cache : Cache) (coherent : IsCoherent ts cache)
    → IsCoherent ts (insert hash (get_tenant_by_key_hash hash ts) cache)
insert-coherent ts hash [] coherent = (refl, coherent)
insert-coherent ts hash ((h, r) ∷ cache) coherent = elim (Bool-cases (str_eq h hash)) [
  | inl e ↦ rw e (ap (λ i. get_tenant_by_key_hash i ts) (sym (same_text h hash e)), coherent.1)
  | inr e ↦ rw e (coherent.0, insert-coherent ts hash cache coherent.1)
]

pub resolve-answer :
    (hash : String) (ts : Tenants) (cache later : Cache) (coherent : IsCoherent ts cache)
    → (resolve hash cache ts later).0 ≡ get_tenant_by_key_hash hash ts
unfolding resolve resolved
resolve-answer hash ts cache later coherent = elim (Option-cases (lookup hash cache)) [
  | inr (row, e) ↦ simp e (lookup-fresh ts hash cache row coherent e)
  | inl e ↦ simp e refl
]

-- On a cache that says what the table says, `resolve` answers as a query of the table would, be it from the
-- cache, after a query, or after the cache was full and emptied. While its query runs, tenants may change
-- and other look-ups may write to the cache: as long as the row of this very key is not touched in
-- between, a cache that says what the table then says goes on to do so after the write.
pub resolve-query :
    (hash : String) (ts ts' : Tenants) (cache later : Cache) (coherent : IsCoherent ts cache)
    (coherent' : IsCoherent ts' later)
    (untouched : get_tenant_by_key_hash hash ts' ≡ get_tenant_by_key_hash hash ts)
    → ((resolve hash cache ts later).0 ≡ get_tenant_by_key_hash hash ts)
      × IsCoherent ts' (resolve hash cache ts later).1
unfolding resolve resolved
resolve-query hash ts ts' cache later coherent coherent' untouched =
    elim (Option-cases (lookup hash cache)) [
      | inr (row, e) ↦ simp e (lookup-fresh ts hash cache row coherent e, coherent')
      | inl e ↦ elim (Bool-cases (leb max_entries (length later))) [
        | inl full ↦ simp (e, full) (refl, rw (sym untouched) (insert-coherent ts' hash [] tt))
        | inr room ↦
            simp (e, room) (refl, rw (sym untouched) (insert-coherent ts' hash later coherent'))
      ]
    ]

module _ (tenant_id hash : String) where
  apart :
      (u t : Tenant)
      → some u ≡ some t
      → is_tenant tenant_id t ≡ false
      → is_tenant tenant_id u ≡ false
  apart u t same other = ap of same ∙ other
    where
      of : Option Tenant → Bool
      of none = false
      of (some v) = is_tenant tenant_id v

  -- The tenant with the hash is in the way of any other that wants it.
  in_the_way :
      (prefix : String) (ts : Tenants) (t : Tenant)
      (found : find_tenant (has_hash hash) ts ≡ some t) (other : is_tenant tenant_id t ≡ false)
      → clashes tenant_id (new_key hash prefix) ts ≡ true
  in_the_way prefix [] t found other = absurd (nothing found)
    where
      nothing : none ≡ some t → ⊥
      nothing e = cc
  in_the_way prefix (u ∷ us) t found other = elim (Bool-cases (has_hash hash u)) [
    | inl e ↦ rw (e, apart u t (rw e at found) other) refl
    | inr e ↦ rw e (in_the_way prefix us t (rw e at found) other)
  ]

  -- The row of the tenant itself is not the one that is found.
  own_row :
      (u t : Tenant) (us : Tenants) (found : find_tenant (has_hash hash) (u ∷ us) ≡ some t)
      (other : is_tenant tenant_id t ≡ false) (own : is_tenant tenant_id u ≡ true)
      → has_hash hash u ≡ false
  own_row u t us found other own = elim (Bool-cases (has_hash hash u)) [
    | inr e ↦ e
    | inl e ↦ absurd (no own (apart u t (rw e at found) other))
  ]
    where
      no : {b : Bool} → b ≡ true → b ≡ false → ⊥
      no x y = cc

  -- The row that changes does not get the hash.
  not_taken :
      (c : TenantChange) (u t : Tenant) (us : Tenants)
      (found : find_tenant (has_hash hash) us ≡ some t) (other : is_tenant tenant_id t ≡ false)
      (before : has_hash hash u ≡ false) (free : clashes tenant_id c us ≡ false)
      → has_hash hash (changed c u) ≡ false
  not_taken (patched name enabled quota) u t us found other before free = before
  not_taken (new_key n prefix) u t us found other before free = elim (Bool-cases (str_eq n hash)) [
    | inr e ↦ e
    | inl e ↦ absurd (
        no (in_the_way prefix us t found other)
          (ap (λ k. clashes tenant_id (new_key k prefix) us) (sym (same_text n hash e)) ∙ free))
  ]
    where
      no : {b : Bool} → b ≡ true → b ≡ false → ⊥
      no x y = cc

  fewer_clashes :
      (c : TenantChange) (u : Tenant) (us : Tenants) (free : clashes tenant_id c (u ∷ us) ≡ false)
      → clashes tenant_id c us ≡ false
  fewer_clashes (patched name enabled quota) u us free = free
  fewer_clashes (new_key n prefix) u us free = ground (arith, free)

  -- A hash that the table knows keeps its tenant while another tenant changes.
  find-change :
      (c : TenantChange) (ts : Tenants) (t : Tenant)
      (found : find_tenant (has_hash hash) ts ≡ some t) (other : is_tenant tenant_id t ≡ false)
      (free : clashes tenant_id c ts ≡ false)
      → find_tenant (has_hash hash) (change_in tenant_id c ts) ≡ some t
  find-change c [] t found other free = found
  find-change c (u ∷ us) t found other free =
      let less = fewer_clashes c u us free in
      elim (Bool-cases (is_tenant tenant_id u)) [
        | inl own ↦
            let before = own_row u t us found other own in
            let found' = the_rest u us t before found in
            rw (own, not_taken c u t us found' other before less)
              (find-change c us t found' other less)
        | inr foreign ↦ elim (Bool-cases (has_hash hash u)) [
          | inl e ↦ rw (foreign, e) (rw e at found)
          | inr e ↦ rw (foreign, e) (find-change c us t (rw e at found) other less)
        ]
      ]
    where
      the_rest :
          (u : Tenant) (us : Tenants) (t : Tenant)
          → has_hash hash u ≡ false
          → find_tenant (has_hash hash) (u ∷ us) ≡ some t
          → find_tenant (has_hash hash) us ≡ some t
      the_rest u us t e f = (rw e at f)

  stays_fresh :
      (c : TenantChange) (ts : Tenants) (free : clashes tenant_id c ts ≡ false)
      (row : Option Tenant) (fresh : row ≡ get_tenant_by_key_hash hash ts)
      (kept : stays tenant_id (hash, row) ≡ true)
      → row ≡ get_tenant_by_key_hash hash (change_in tenant_id c ts)
  unfolding get_tenant_by_key_hash
  stays_fresh c ts free none fresh kept = cc
  stays_fresh c ts free (some t) fresh kept = sym (find-change c ts t (sym fresh) (other kept) free)
    where
      other : not (is_tenant tenant_id t) ≡ true → is_tenant tenant_id t ≡ false
      other h = ground arith

-- A change of a tenant by `patch_tenant` or `rotate_key`, whatever it comes to, leaves a cache that says
-- what the table says as such: the tenant's old key is not answered from the cache, nor its old state.
pub change_tenant-coherent :
    (tenant_id : String) (c : TenantChange) (ts : Tenants) (cache : Cache)
    (coherent : IsCoherent ts cache)
    → IsCoherent (change_tenant tenant_id c ts cache).1 (change_tenant tenant_id c ts cache).2
unfolding change_tenant after_update update_tenant invalidate_tenant
change_tenant-coherent tenant_id c ts cache coherent = elim (Bool-cases (is_empty c)) [
  | inl none_given ↦ rw (change_tenant, none_given) coherent
  | inr given ↦ elim (Option-cases (find_tenant (is_tenant tenant_id) ts)) [
    | inl e ↦ rw (change_tenant, given, update_tenant, e) coherent
    | inr (t, e) ↦ elim (Bool-cases (clashes tenant_id c ts)) [
      | inl clash ↦ rw (change_tenant, given, update_tenant, e, clash) coherent
      | inr free ↦
          rw (change_tenant, given, update_tenant, e, free)
            (All-keep (IsFresh ts) (IsFresh (change_in tenant_id c ts)) (stays tenant_id) cache
              (λ entry fresh kept. stays_fresh tenant_id entry.0 c ts free entry.1 fresh kept)
              coherent)
    ]
  ]
]

-- ===== src/Api/Gate/Slots.antt =====
-- app/api/ratelimit.py: the counts of a `ConcurrencyGate`.
use llm_agent_runtime.Prelude.{
  ℕ, ◌+◌, ◌-◌, ◌≡◌, refl, ap, String, str_eq, true, arith, eq_iff, Bool-cases, inl, inr, lookup_or,
  insert, remove, lookup-insert, lookup-remove, leb, ltb, if◌then◌else◌, ◌&&◌, Dict,
}
use llm_agent_runtime.Api.Gate.{Gate, count_of, try_acquire, release}

count-insert :
    (k j : String) (n : ℕ) (g : Dict ℕ)
    → lookup_or 0 j (insert k n g) ≡ (if str_eq k j then n else lookup_or 0 j g)
count-insert k j n g = rw (lookup_or, lookup-insert k j n g) ground arith

count-remove :
    (k j : String) (g : Dict ℕ)
    → lookup_or 0 j (remove k g) ≡ (if str_eq k j then 0 else lookup_or 0 j g)
count-remove k j g = rw (lookup_or, lookup-remove k j g) ground arith

pub released-count :
    (tenant_id : String) (g : Gate) (other : String)
    → count_of other (release tenant_id g)
      ≡ (if str_eq tenant_id other then count_of tenant_id g - 1 else count_of other g)
unfolding release
released-count tenant_id g other = elim (Bool-cases (leb (count_of tenant_id g - 1) 0)) [
  | inl last ↦ rw last (let here = count-remove tenant_id other g.counts in ground arith)
  | inr more ↦ rw more (count-insert tenant_id other (count_of tenant_id g - 1) g.counts)
]

module _ (tenant_id : String) (g : Gate) where
  pub acquired-count :
      (other : String)
      → count_of other (try_acquire tenant_id g).1 ≡ (
          if (try_acquire tenant_id g).0 && str_eq tenant_id other
          then count_of tenant_id g + 1
          else count_of other g)
  unfolding try_acquire
  acquired-count other = elim (Bool-cases (ltb 0 g.total && leb g.total g.active)) [
    | inl full ↦ rw full refl
    | inr free ↦ elim (Bool-cases (ltb 0 g.per_tenant && leb g.per_tenant (count_of tenant_id g))) [
      | inl full ↦ rw (free, full) refl
      | inr room ↦
          rw (free, room) (count-insert tenant_id other (count_of tenant_id g + 1) g.counts)
    ]
  ]

  -- The two counts after a connection has come and gone.
  returned-count :
      (entered : (try_acquire tenant_id g).0 ≡ true) (other : String)
      → count_of other (release tenant_id (try_acquire tenant_id g).1) ≡ count_of other g
  returned-count entered other =
      let into = rw entered at (acquired-count other) in
      let own = rw (entered, own_name) at (acquired-count tenant_id) in
      let out = released-count tenant_id (try_acquire tenant_id g).1 other in
      elim (Bool-cases (str_eq tenant_id other)) [
        | inl e ↦
            let same = ap (λ k. count_of k g) ((eq_iff tenant_id other).0 e) in
            let out' = rw e at out in omega arith
        | inr e ↦ let out' = rw e at out in let into' = rw e at into in omega arith
      ]
    where
      own_name : str_eq tenant_id tenant_id ≡ true
      own_name = ground (arith, eq_iff tenant_id tenant_id)

-- A tenant that is let in and then leaves has left the counts of all tenants and the number of open
-- connections as they were.
release-try_acquire :
    (tenant_id other : String) (g : Gate) (entered : (try_acquire tenant_id g).0 ≡ true)
    → (count_of other (release tenant_id (try_acquire tenant_id g).1) ≡ count_of other g)
      × ((release tenant_id (try_acquire tenant_id g).1).active ≡ g.active)
unfolding try_acquire release
release-try_acquire tenant_id other g entered =
    (returned-count tenant_id g entered other, ground arith)

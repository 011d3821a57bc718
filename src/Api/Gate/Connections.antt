-- ===== src/Api/Gate/Connections.antt =====
-- app/api/ratelimit.py: the connections that a `ConcurrencyGate` has let in.
use llm_agent_runtime.Prelude.{
  ℕ, ◌+◌, ◌-◌, ◌≤◌, ◌≡◌, ◌⊎◌, refl, sym, ◌∙◌, ap, String, str_eq, true, arith, eq_iff, List, [],
  ◌∷◌, Bool, false, any, not, count, length, same_text, Bool-cases, inl, inr, leb, ltb,
  if◌then◌else◌, ◌&&◌,
}
use llm_agent_runtime.Api.Gate.{Gate, open_gate, count_of, try_acquire, release}
use llm_agent_runtime.Api.Gate.Slots.{acquired-count, released-count}

-- What happens at a gate: a connection of a tenant asks to be let in, or one that was let in ends.
pub data Move : Type 0 where
  arrives leaves : String → Move

-- One connection of the tenant less.
abbrev without_one : String → List String → List String
without_one tenant_id [] = []
without_one tenant_id (t ∷ ts) = if str_eq tenant_id t then ts else t ∷ without_one tenant_id ts

-- A gate, and the tenants of the connections that are open, as they were let in and ended.
abbrev arrived : String → List String → Bool × Gate → List String × Gate
arrived tenant_id conns (entered, g) = (if entered then tenant_id ∷ conns else conns, g)

abbrev pub play : Move → List String × Gate → List String × Gate
play (arrives t) (conns, g) = arrived t conns (try_acquire t g)
play (leaves t) (conns, g) =
    if any (str_eq t) conns then (without_one t conns, release t g) else (conns, g)

abbrev pub plays : List Move → List String × Gate → List String × Gate
plays [] s = s
plays (m ∷ ms) s = plays ms (play m s)

-- Whether both bounds leave room for one more connection of the tenant; a bound of 0 is none.
abbrev pub has_room : (per_tenant total : ℕ) → String → List String → Bool
has_room per_tenant total t conns =
    not (ltb 0 total && leb total (length conns))
    && not (ltb 0 per_tenant && leb per_tenant (count (str_eq t) conns))

-- The gate counts the connections that are open, and these are within the bounds.
abbrev pub Guards : (per_tenant total : ℕ) → List String × Gate → Type 0
Guards per_tenant total (conns, g) =
    ((g.total ≡ total) × (g.per_tenant ≡ per_tenant))
    × (((g.active ≡ length conns) × ((t : String) → count_of t g ≡ count (str_eq t) conns))
        × (((total ≡ 0) ⊎ (length conns ≤ total))
            × ((t : String) → (per_tenant ≡ 0) ⊎ (count (str_eq t) conns ≤ per_tenant))))

eq_sym : (a b : String) → str_eq a b ≡ str_eq b a
eq_sym a b = ground (arith, eq_iff a b, eq_iff b a)

count-without_one :
    (t j : String) (conns : List String) (there : any (str_eq t) conns ≡ true)
    → count (str_eq j) conns
      ≡ count (str_eq j) (without_one t conns) + (if str_eq t j then 1 else 0)
count-without_one t j [] there = cc
count-without_one t j (c ∷ conns) there = elim (Bool-cases (str_eq t c)) [
  | inl e ↦ rw (e, same_text t c e, eq_sym c j) ground arith
  | inr e ↦ rw e (let rest = count-without_one t j conns (rw e at there) in ground arith)
]

length-without_one :
    (t : String) (conns : List String) (there : any (str_eq t) conns ≡ true)
    → length conns ≡ length (without_one t conns) + 1
length-without_one t [] there = cc
length-without_one t (c ∷ conns) there = elim (Bool-cases (str_eq t c)) [
  | inl e ↦ rw e (omega arith)
  | inr e ↦ rw e (let rest = length-without_one t conns (rw e at there) in omega arith)
]

module _ (per_tenant total : ℕ) (t : String) (conns : List String) (g : Gate)
    (guards : Guards per_tenant total (conns, g)) where
  -- The gate lets a connection in exactly if there is room.
  entered-room : (try_acquire t g).0 ≡ has_room per_tenant total t conns
  unfolding try_acquire
  entered-room =
      let ((total_is, tenant_is), ((active, counts), bounds)) = guards in
      rw (total_is, tenant_is, active, counts t) (ground arith)

  refused_same : (try_acquire t g).0 ≡ false → (try_acquire t g).1 ≡ g
  unfolding try_acquire
  refused_same e = elim (Bool-cases (ltb 0 g.total && leb g.total g.active)) [
    | inl full ↦ rw full refl
    | inr free ↦ elim (Bool-cases (ltb 0 g.per_tenant && leb g.per_tenant (count_of t g))) [
      | inl full ↦ rw (free, full) refl
      | inr room ↦ absurd (no (rw (free, room) at e))
    ]
  ]
    where
      no : true ≡ false → ⊥
      no x = cc

  entered_sizes :
      (e : (try_acquire t g).0 ≡ true)
      → (((try_acquire t g).1.total ≡ g.total) × ((try_acquire t g).1.per_tenant ≡ g.per_tenant))
        × ((try_acquire t g).1.active ≡ g.active + 1)
  unfolding try_acquire
  entered_sizes e = elim (Bool-cases (ltb 0 g.total && leb g.total g.active)) [
    | inl full ↦ absurd (no (rw full at e))
    | inr free ↦ elim (Bool-cases (ltb 0 g.per_tenant && leb g.per_tenant (count_of t g))) [
      | inl full ↦ absurd (no (rw (free, full) at e))
      | inr room ↦ rw (free, room) ((refl, refl), refl)
    ]
  ]
    where
      no : false ≡ true → ⊥
      no x = cc

  -- What the gate counts for a tenant once the connection of `t` is in, or gone.
  counted-in :
      (e : (try_acquire t g).0 ≡ true) (j : String)
      → count_of j (try_acquire t g).1 ≡ count (str_eq j) (t ∷ conns)
  counted-in e j =
      let added = rw e at (acquired-count t g j) in
      let own = guards.1.0.1 t in
      let other = guards.1.0.1 j in
      elim (Bool-cases (str_eq t j)) [
        | inl same ↦
            let here = ap (λ k. count (str_eq k) conns) (same_text t j same) in
            let added' = rw same at added in rw (eq_sym j t, same) (omega arith)
        | inr apart ↦ let added' = rw apart at added in rw (eq_sym j t, apart) (omega arith)
      ]

  counted-out :
      (e : any (str_eq t) conns ≡ true) (j : String)
      → count_of j (release t g) ≡ count (str_eq j) (without_one t conns)
  counted-out e j =
      let gone = released-count t g j in
      let own = guards.1.0.1 t in
      let other = guards.1.0.1 j in
      let less = count-without_one t j conns e in
      elim (Bool-cases (str_eq t j)) [
        | inl same ↦
            let here = ap (λ k. count (str_eq k) conns) (same_text t j same) in
            let gone' = rw same at gone in let less' = rw same at less in omega arith
        | inr apart ↦ let gone' = rw apart at gone in let less' = rw apart at less in omega arith
      ]

  room_left :
      (room : has_room per_tenant total t conns ≡ true)
      → ((total ≡ 0) ⊎ (length (t ∷ conns) ≤ total))
        × ((j : String) → (per_tenant ≡ 0) ⊎ (count (str_eq j) (t ∷ conns) ≤ per_tenant))
  room_left room =
      let own : (per_tenant ≡ 0) ⊎ (count (str_eq t) conns + 1 ≤ per_tenant) = ground arith in
      (
        ground arith,
        λ j. elim (Bool-cases (str_eq t j)) [
          | inl same ↦
              let here = ap (λ k. count (str_eq k) conns) (same_text t j same) in
              rw (eq_sym j t, same) (elim own [ inl z ↦ inl z | inr le ↦ inr (omega arith) ])
          | inr apart ↦ rw (eq_sym j t, apart) (guards.1.1.1 j)
        ],
      )

  arrives-Guards : Guards per_tenant total (play (arrives t) (conns, g))
  arrives-Guards = elim (Bool-cases (try_acquire t g).0) [
    | inr e ↦ rw (e, refused_same e) guards
    | inl e ↦
        let ((total_is, tenant_is), ((active, counts), bounds)) = guards in
        let ((same_total, same_tenant), more) = entered_sizes e in
        rw e (
          (same_total ∙ total_is, same_tenant ∙ tenant_is),
          ((omega arith, counted-in e), room_left (sym entered-room ∙ e)),
        )
  ]

  released_sizes :
      ((release t g).total ≡ g.total)
      × (((release t g).per_tenant ≡ g.per_tenant) × ((release t g).active ≡ g.active - 1))
  unfolding release
  released_sizes = (refl, (refl, refl))

  leaves-Guards : Guards per_tenant total (play (leaves t) (conns, g))
  leaves-Guards = elim (Bool-cases (any (str_eq t) conns)) [
    | inr e ↦ rw e guards
    | inl e ↦
        let ((total_is, tenant_is), ((active, counts), (all, each))) = guards in
        let fewer = length-without_one t conns e in
        let (same_total, (same_tenant, less)) = released_sizes in
        rw e (
          (same_total ∙ total_is, same_tenant ∙ tenant_is),
          (
            (omega arith, counted-out e),
            (
              ground arith,
              λ j. let other = each j in let less = count-without_one t j conns e in ground arith,
            ),
          ),
        )
  ]

plays-Guards :
    (per_tenant total : ℕ) (ms : List Move) (s : List String × Gate)
    (guards : Guards per_tenant total s)
    → Guards per_tenant total (plays ms s)
plays-Guards per_tenant total [] s guards = guards
plays-Guards per_tenant total (arrives t ∷ ms) (conns, g) guards =
    plays-Guards per_tenant total ms _ (arrives-Guards per_tenant total t conns g guards)
plays-Guards per_tenant total (leaves t ∷ ms) (conns, g) guards =
    plays-Guards per_tenant total ms _ (leaves-Guards per_tenant total t conns g guards)

open_gate-Guards : (per_tenant total : ℕ) → Guards per_tenant total ([], open_gate per_tenant total)
unfolding open_gate
open_gate-Guards per_tenant total =
    ((refl, refl), ((refl, λ t. refl), (inr (omega arith), λ t. inr (omega arith))))

-- Whatever connections have asked and ended since the gate was opened, the open connections that it has
-- let in are within both bounds, in all and for each tenant, the gate counts exactly these, and it lets
-- the next connection in exactly if both bounds leave room for one more.
pub plays-WithinSlots :
    (per_tenant total : ℕ) (ms : List Move) (t : String)
    → let (conns, g) = plays ms ([], open_gate per_tenant total) in
      Guards per_tenant total (conns, g) × ((try_acquire t g).0 ≡ has_room per_tenant total t conns)
plays-WithinSlots per_tenant total ms t =
    let guards =
      plays-Guards per_tenant total ms ([], open_gate per_tenant total)
        (open_gate-Guards per_tenant total) in
    (guards, entered-room per_tenant total t _ _ guards)

-- ===== src/Storage/Lease.antt =====
-- app/storage/repository.py: the lease that lets one process at a time migrate the database, the row 1 of
-- `schema_migration_lease`. A turn of `_acquire_migration_lease` is one move; times are milliseconds on the
-- wall clock. A turn that raises leaves the row alone and is followed by another.
pub mod Exclusive
use llm_agent_runtime.Prelude.{
  ℕ, ◌+◌, String, str_eq, Bool, true, false, List, [], ◌∷◌, Option, none, some, if◌then◌else◌, ltb,
}

-- `LEASE_STALE_S`
abbrev pub lease_stale : ℕ
lease_stale = 120000

pub record Lease : Type 0 where
  pub owner : String
  pub acquired_at : ℕ

-- The insertion does nothing when the row is there; the deletion takes a row that is stale.
unfoldable pub acquire_turn : (owner : String) → (now : ℕ) → Option Lease → Bool × Option Lease
acquire_turn owner now none = (true, some (record { owner = owner; acquired_at = now }))
acquire_turn owner now (some lease) =
    (false, if ltb (lease.acquired_at + lease_stale) now then none else some lease)

unfoldable pub release : (owner : String) → Option Lease → Option Lease
release owner none = none
release owner (some lease) = if str_eq lease.owner owner then none else some lease

pub data Move : Type 0 where
  turns : (owner : String) → (now : ℕ) → Move
  releases : (owner : String) → Move

-- The moves of all processes, and the owners whose turn got the lease, in their order.
pub plays : List Move → Option Lease → List String × Option Lease
unfolding acquire_turn release
plays [] lease = ([], lease)
plays (turns owner now ∷ ms) lease =
    let (got, lease') = acquire_turn owner now lease in
    let (owners, last) = plays ms lease' in (if got then owner ∷ owners else owners, last)
plays (releases owner ∷ ms) lease = plays ms (release owner lease)

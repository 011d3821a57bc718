-- ===== src/Storage/Lease/Exclusive.antt =====
-- app/storage/repository.py: what the lease of the migrations promises.
use llm_agent_runtime.Prelude.{
  ℕ, ◌+◌, ◌≤◌, ◌<◌, ◌≡◌, refl, String, str_eq, false, List, [], ◌∷◌, some, All, le→ltb-false,
  lt→ltb,
}
use llm_agent_runtime.Storage.Lease.{
  lease_stale, Lease, acquire_turn, release, Move, turns, releases, plays,
}

-- A move before the lease is stale that does not give it back.
abbrev pub IsBefore : Lease → Move → Type 0
IsBefore lease (turns owner now) = now ≤ lease.acquired_at + lease_stale
IsBefore lease (releases owner) = str_eq lease.owner owner ≡ false

-- While a process holds the lease, which it has neither given back nor held for longer than 120 seconds, no
-- turn of any process gets it, and it stays with its holder, however turns and releases of the others
-- interleave.
pub plays-exclusive :
    (moves : List Move) (lease : Lease) (before : All (IsBefore lease) moves)
    → plays moves (some lease) ≡ ([], some lease)
unfolding plays acquire_turn release
plays-exclusive [] lease before = refl
plays-exclusive (turns owner now ∷ ms) lease before =
    rw
      (
        le→ltb-false (lease.acquired_at + lease_stale) now before.0,
        plays-exclusive ms lease before.1,
      )
      refl
plays-exclusive (releases owner ∷ ms) lease before =
    rw (before.0) (plays-exclusive ms lease before.1)

-- A lease that is left behind does not lock the others out: once it is stale, the second turn of a process
-- that nobody else comes before gets it.
pub acquire_turn-stale :
    (owner : String) (now later : ℕ) (lease : Lease) (stale : lease.acquired_at + lease_stale < now)
    → plays (turns owner now ∷ turns owner later ∷ []) (some lease)
      ≡ (owner ∷ [], some (record { owner = owner; acquired_at = later }))
unfolding plays acquire_turn
acquire_turn-stale owner now later lease stale =
    rw (lt→ltb (lease.acquired_at + lease_stale) now stale) refl

-- ===== src/Api/Examples.antt =====
-- The guards of app/api/ratelimit.py at concrete values.
use llm_agent_runtime.Prelude.{◌<◌, ◌≡◌, ◌↔◌, refl, arith, true, [], ◌∷◌, length, lookup_or, List}
use llm_agent_runtime.Api.RateLimit.{allow, Hits}
use llm_agent_runtime.Api.RateLimit.Window.{IsSorted, recent, allow-allowed_iff}
use llm_agent_runtime.Api.Gate.{open_gate, try_acquire, release}
use llm_agent_runtime.Api.Gate.Connections.{
  Guards, has_room, Move, arrives, leaves, plays, plays-WithinSlots,
}

abbrev hits : Hits
hits = ("ip:1", 1000 ∷ 2000 ∷ []) ∷ []

in_order : IsSorted (1000 ∷ 2000 ∷ [])
in_order = ((omega arith, tt), (tt, tt))

allow-allowed_iff_example :
    ((allow 61500 "ip:1" 2 60000 hits).0.is_allowed ≡ true)
    ↔ (length (recent 61500 60000 (lookup_or [] "ip:1" hits)) < 2)
allow-allowed_iff_example = allow-allowed_iff 61500 "ip:1" 2 60000 hits (omega arith) in_order

abbrev moves : List Move
moves = arrives "t1" ∷ arrives "t1" ∷ arrives "t2" ∷ leaves "t1" ∷ arrives "t3" ∷ []

plays-WithinSlots_example :
    let (conns, g) = plays moves ([], open_gate 1 2) in
    Guards 1 2 (conns, g) × ((try_acquire "t2" g).0 ≡ has_room 1 2 "t2" conns)
plays-WithinSlots_example = plays-WithinSlots 1 2 moves "t2"

still_open : (plays moves ([], open_gate 1 2)).0 ≡ "t3" ∷ "t2" ∷ []
unfolding open_gate try_acquire release
still_open = refl

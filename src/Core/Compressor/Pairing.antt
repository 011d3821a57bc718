-- ===== src/Core/Compressor/Pairing.antt =====
-- app/core/compressor.py: the history that `compress_messages` leaves.
use llm_agent_runtime.Prelude.{
  ℕ, zero, suc, ◌-◌, ◌≡◌, refl, ◌∙◌, String, str_eq, any, Option, some, true, false, not, ◌&&◌,
  List, [], ◌∷◌, ◌++◌, length, keep, last_n, take, drop, arith, take-append-drop, length-drop,
  Bool-cases, inl, inr,
}
use mathlib.Core.List.{append_assoc}
use llm_agent_runtime.Prelude.Json.{Json, str, obj, field_of}
use llm_agent_runtime.Prelude.Python.{Python}
use llm_agent_runtime.Core.Llm.{Role, system, user, assistant, tool, Message, LlmResponse}
use llm_agent_runtime.Core.Compressor.{
  keep_recent_window, is_system, is_tool, shift_orphans, split_history, summary_message,
  compressed_with,
}

-- The `id` of a call, as `_assistant_message` writes it.
abbrev ids_in : Option Json → List String
ids_in (some (str s)) = s ∷ []
ids_in _ = []

abbrev id_of : Json → List String
id_of (obj fields) = ids_in (field_of "id" fields)
id_of _ = []

abbrev ids_of : List Json → List String
ids_of [] = []
ids_of (c ∷ cs) = id_of c ++ ids_of cs

abbrev opened : Role → List Json → List String → List String
opened assistant calls ids = ids_of calls
opened tool calls ids = ids
opened _ calls ids = []

-- The calls that a tool message may answer after the message `m`: those of the last assistant message,
-- while only tool messages have come since.
abbrev pub open_after : List String → Message → List String
open_after ids m = opened m.role m.tool_calls ids

-- Each tool message answers, by its id, a call of the assistant message that it stands behind, with
-- nothing but other answers between them; `ids` are the calls that may be answered at the start.
abbrev pub IsPaired : List String → List Message → Type 0
IsPaired ids [] = Unit
IsPaired ids (m ∷ messages) =
    (is_tool m.role && not (any (str_eq m.tool_call_id) ids) ≡ false)
    × IsPaired (open_after ids m) messages

not_tool :
    (m : Message) (bad : is_tool m.role && not (any (str_eq m.tool_call_id) []) ≡ false)
    → is_tool m.role ≡ false
not_tool m bad = ground arith

open_after-same :
    (r : Role) (calls : List Json) (ids ids' : List String) (other : is_tool r ≡ false)
    → opened r calls ids ≡ opened r calls ids'
open_after-same system calls ids ids' other = refl
open_after-same user calls ids ids' other = refl
open_after-same assistant calls ids ids' other = refl
open_after-same tool calls ids ids' other = cc

-- What stands without open calls stands after any.
IsPaired-any : (ids : List String) (xs : List Message) → IsPaired [] xs → IsPaired ids xs
IsPaired-any ids [] h = tt
IsPaired-any ids (x ∷ xs) h =
    let other = not_tool x h.0 in
    (rw other refl, rw (open_after-same x.role x.tool_calls ids [] other) h.1)

system_opens :
    (r : Role) (calls : List Json) (ids : List String) (pinned : is_system r ≡ true)
    → (opened r calls ids ≡ []) × (is_tool r ≡ false)
system_opens system calls ids pinned = (refl, refl)
system_opens user calls ids pinned = cc
system_opens assistant calls ids pinned = cc
system_opens tool calls ids pinned = cc

IsPaired-history :
    (ids : List String) (xs : List Message)
    → IsPaired ids xs
    → IsPaired ids (keep (λ m. not (is_system m.role)) xs)
IsPaired-history ids [] h = tt
IsPaired-history ids (x ∷ xs) h =
    let rest = IsPaired-history (open_after ids x) xs h.1 in
    elim (Bool-cases (is_system x.role)) [
      | inl pinned ↦
          rw pinned
            (IsPaired-any ids _ (rw (system_opens x.role x.tool_calls ids pinned).0 at rest))
      | inr kept ↦ rw kept (h.0, rest)
    ]

IsPaired-drop :
    (n : ℕ) (ids : List String) (xs : List Message)
    → IsPaired ids xs
    → (later : List String) × IsPaired later (drop n xs)
IsPaired-drop zero ids xs h = (ids, h)
IsPaired-drop (suc n) ids [] h = ([], tt)
IsPaired-drop (suc n) ids (x ∷ xs) h = IsPaired-drop n (open_after ids x) xs h.1

IsPaired-shift_orphans :
    (ids : List String) (mid recent : List Message)
    → IsPaired ids recent
    → IsPaired [] (shift_orphans mid recent).1
unfolding shift_orphans
IsPaired-shift_orphans ids mid [] h = tt
IsPaired-shift_orphans ids mid (m ∷ recent) h = elim (Bool-cases (is_tool m.role)) [
  | inl orphan ↦ rw orphan (IsPaired-shift_orphans (open_after ids m) (mid ++ m ∷ []) recent h.1)
  | inr head ↦ rw head (rw head refl, rw (open_after-same m.role m.tool_calls [] ids head) h.1)
]

IsPaired-pinned :
    (xs rest : List Message)
    → IsPaired [] rest
    → IsPaired [] (keep (λ m. is_system m.role) xs ++ rest)
IsPaired-pinned [] rest h = h
IsPaired-pinned (x ∷ xs) rest h = elim (Bool-cases (is_system x.role)) [
  | inr other ↦ rw other (IsPaired-pinned xs rest h)
  | inl pinned ↦
      let (closed, no_tool) = system_opens x.role x.tool_calls [] pinned in
      rw pinned (rw no_tool refl, rw closed (IsPaired-pinned xs rest h))
]

-- A history in which each tool message answers a call of the assistant message that it stands behind
-- stays one when it is compressed: no answer that is kept loses the message that made its call.
pub compressed_with-IsPaired :
    (py : Python) (messages : List Message) (resp : LlmResponse)
    → IsPaired [] messages
    → IsPaired [] (compressed_with py messages resp).0
unfolding compressed_with split_history summary_message
compressed_with-IsPaired py messages resp h =
    let history = IsPaired-history [] messages h in
    let window = IsPaired-drop _ [] (keep (λ m. not (is_system m.role)) messages) history in
    IsPaired-pinned messages _ (refl, IsPaired-shift_orphans window.0 _ _ window.1)

shift_orphans-append :
    (mid recent : List Message)
    → (shift_orphans mid recent).0 ++ (shift_orphans mid recent).1 ≡ mid ++ recent
unfolding shift_orphans
shift_orphans-append mid [] = refl
shift_orphans-append mid (m ∷ recent) = elim (Bool-cases (is_tool m.role)) [
  | inl orphan ↦
      rw orphan (shift_orphans-append (mid ++ m ∷ []) recent ∙ append_assoc mid (m ∷ []) recent)
  | inr head ↦ rw head refl
]

last_n-length : (n : ℕ) (xs : List Message) → length xs - length (last_n n xs) ≡ length xs - n
last_n-length n xs = omega (arith, length-drop (length xs - n) xs)

-- Every message of the history is either summarised or kept in the window, in its order; the system
-- messages are pinned.
pub split_history-append :
    (messages : List Message)
    → ((split_history messages).1 ++ (split_history messages).2
        ≡ keep (λ m. not (is_system m.role)) messages)
      × ((split_history messages).0 ≡ keep (λ m. is_system m.role) messages)
unfolding split_history
split_history-append messages =
    let history = keep (λ m. not (is_system m.role)) messages in
    (
      shift_orphans-append
            (take (length history - length (last_n keep_recent_window history)) history)
            (last_n keep_recent_window history)
          ∙ rw (last_n-length keep_recent_window history)
              (take-append-drop (length history - keep_recent_window) history),
      refl,
    )

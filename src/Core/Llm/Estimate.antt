-- ===== src/Core/Llm/Estimate.antt =====
-- app/core/llm.py: the estimates of tokens, for texts and for histories.
use Prim.Native.Char.{Char}
use text.Mathlib.TextLemmas.{cons≢nil}
use llm_agent_runtime.Prelude.{
  ◌+◌, ◌≤◌, ◌≡◌, String, List, [], ◌∷◌, ◌++◌, arith, text_length, str_eq, eq_iff, false, Bool-cases,
  inl, inr,
}
use llm_agent_runtime.Prelude.Python.{Python}
use llm_agent_runtime.Core.Llm.{Message, cjk_count, estimate_tokens, estimate_messages_tokens}

cjk_count_le : (s : String) → cjk_count s ≤ text_length s
unfolding cjk_count
cjk_count_le String.[] = omega arith
cjk_count_le (String.◌∷◌ c s) = ground (arith, cjk_count_le s)

not_empty : (c : Char) (s : String) → str_eq (String.◌∷◌ c s) "" ≡ false
not_empty c s = elim (Bool-cases (str_eq (String.◌∷◌ c s) "")) [
  | inl same ↦ absurd (cons≢nil ((eq_iff (String.◌∷◌ c s) "").0 same))
  | inr other ↦ other
]

-- One more character never lowers the estimate, and a text has at most one token more than it has
-- characters.
pub estimate_tokens-cons :
    (c : Char) (s : String)
    → (estimate_tokens s ≤ estimate_tokens (String.◌∷◌ c s))
      × (estimate_tokens (String.◌∷◌ c s) ≤ text_length (String.◌∷◌ c s) + 1)
unfolding estimate_tokens cjk_count
estimate_tokens-cons c s = ground (arith, not_empty c s, cjk_count_le s)

-- The estimate of a history is the sum over its parts.
pub estimate_messages_tokens-append :
    (py : Python) (xs ys : List Message)
    → estimate_messages_tokens py (xs ++ ys)
      ≡ estimate_messages_tokens py xs + estimate_messages_tokens py ys
unfolding estimate_messages_tokens
estimate_messages_tokens-append py [] ys = omega arith
estimate_messages_tokens-append py (x ∷ xs) ys =
    omega (arith, estimate_messages_tokens-append py xs ys)

-- ===== src/Graph/Run.antt =====
-- What the nodes of app/graph/nodes.py do besides computing: they call the model and the tools, wait,
-- look at the cancel flag, emit events, and may raise. `W` is the state of the world outside.
use llm_agent_runtime.Prelude.{
  ℕ, ◌≡◌, refl, String, Bool, List, [], ◌∷◌, ◌++◌, Option, ◌+◌, ◌≤◌, arith,
}
use llm_agent_runtime.Prelude.Json.{Json}
use llm_agent_runtime.Core.Llm.{Message, LlmResponse}
use llm_agent_runtime.Graph.State.{Event, Observation}
use llm_agent_runtime.Tools.Registry.{ToolSpec}

-- What a call gives: a value, an `Exception`, or a `BaseException` that is none, such as a cancellation or
-- the death of the process, which `except Exception` does not catch.
pub data Result (A : Type 0) : Type 0 where
  ok : A → Result A
  raised : String → Result A
  killed : String → Result A

-- What `try_claim_tool_execution` says: the call is ours, another holds it, or it has been done.
pub data Claim : Type 0 where
  claimed : Claim
  busy : Claim
  recorded : Observation → Claim

-- `ToolJournal` of app/graph/engine.py: the record of the tools that have run, by task and call key.
pub record Journal (W : Type 0) : Type 0 where
  pub try_claim : (task_id call_key tool : String) → Json → W → Result Claim × W
  pub get : (task_id call_key : String) → W → Result (Option Observation) × W
  pub complete : (task_id call_key : String) → Observation → W → Result (Unit {0}) × W

-- The engine's collaborators. `chat messages with_tools model` is a call of the model; a call that
-- raises gives `raised`.
pub record Env (W : Type 0) : Type 0 where
  pub chat : List Message → Bool → String → W → Result LlmResponse × W
  pub tools : List (ToolSpec W)
  pub journal : Option (Journal W)
  pub canceled : String → W → Bool
  pub sleep : ℕ → W → W
  pub now_context : W → String
  -- `time.monotonic`, in milliseconds
  pub clock : W → ℕ

-- `except Exception`
abbrev pub caught : {A : Type 0} → Result A → Result (Result A)
caught (ok a) = ok (ok a)
caught (raised e) = ok (raised e)
caught (killed e) = killed e

-- An action returns or raises, and leaves the events that it emitted and the world after it.
abbrev pub Run : Type 0 → Type 0 → Type 0
Run W A = W → Result A × List Event × W

module _ {W A : Type 0} where
  abbrev pub pure : A → Run W A
  pure a w = (ok a, [], w)

  abbrev pub asks : (W → A) → Run W A
  asks f w = (ok (f w), [], w)

  -- `try` around an action, with `except Exception`
  abbrev pub attempt : Run W A → Run W (Result A)
  attempt m w = let (r, es, w') = m w in (caught r, es, w')

  -- One result of `asyncio.gather` with `return_exceptions=True`
  abbrev pub gathered : Run W A → Run W (Result A)
  gathered m w = let (r, es, w') = m w in (ok r, es, w')

  abbrev pub escape : String → Run W A
  escape e w = (killed e, [], w)

  abbrev pub fail : String → Run W A
  fail e w = (raised e, [], w)

  abbrev pub lift : (W → Result A × W) → Run W A
  lift f w = let (r, w') = f w in (r, [], w')

module _ {W : Type 0} where
  -- `engine.emit`, whose store of events does not fail.
  abbrev pub emit : Event → Run W (Unit {0})
  emit e w = (ok tt, e ∷ [], w)

  abbrev pub emit_all : List Event → Run W (Unit {0})
  emit_all es w = (ok tt, es, w)

module _ {W A B : Type 0} where
  abbrev pub after : Result A → List Event → W → (A → Run W B) → Result B × List Event × W
  after (ok a) es w f = let (r, es', w') = f a w in (r, es ++ es', w')
  after (raised e) es w f = (raised e, es, w)
  after (killed e) es w f = (killed e, es, w)

  infixl 5 ◌>>=◌ ◌>>◌
  abbrev pub ◌>>=◌ : Run W A → (A → Run W B) → Run W B
  ◌>>=◌ m f w = let (r, es, w') = m w in after r es w' f

  abbrev pub ◌>>◌ : Run W A → Run W B → Run W B
  m >> n = m >>= λ _. n

-- `P` holds of what an action returns, if it returns.
abbrev pub Returns {ℓ} : {A : Type 0} → (A → Type ℓ) → Result A → Type ℓ
Returns P (ok a) = P a
Returns P (raised e) = Unit
Returns P (killed e) = Unit

module _ {ℓ} {W A B : Type 0} (Q : B → Type ℓ) where
  -- The rule for a chain: what holds after every value of the first part holds after the chain.
  pub Returns-bind :
      (m : Run W A) (f : A → Run W B) (w : W)
      → ((a : A) (w' : W) → (m w).0 ≡ ok a → Returns Q (f a w').0)
      → Returns Q ((m >>= f) w).0
  Returns-bind m f w h = go (m w).0 (m w).1 (m w).2 (λ a e. h a (m w).2 e)
    where
      go :
          (r : Result A) (es : List Event) (w' : W)
          → ((a : A) → r ≡ ok a → Returns Q (f a w').0)
          → Returns Q (after r es w' f).0
      go (ok a) es w' k = k a refl
      go (raised e) es w' k = tt
      go (killed e) es w' k = tt

-- A measure `calls` of the world grows by at most `n` while `m` runs.
module _ {W : Type 0} (calls : W → ℕ) where
  abbrev pub Within : {A : Type 0} → ℕ → Run W A → Type 0
  Within n m = (w : W) → calls (m w).2 ≤ calls w + n

  -- The rule for a chain.
  pub Within-bind :
      {A B : Type 0} (m : Run W A) (f : A → Run W B) (a b n : ℕ)
      → a + b ≤ n
      → Within a m
      → ((x : A) → Within b (f x))
      → Within n (m >>= f)
  Within-bind m f a b n sum h k w = go (m w).0 (m w).1 (m w).2 (h w)
    where
      go :
          (r : Result _) (es : List Event) (w' : W)
          → calls w' ≤ calls w + a
          → calls (after r es w' f).2 ≤ calls w + n
      go (ok x) es w' le = let next = k x w' in omega arith
      go (raised e) es w' le = omega arith
      go (killed e) es w' le = omega arith

  pub Within-pure : {A : Type 0} (x : A) (n : ℕ) → Within n (pure x)
  Within-pure x n w = omega arith

-- An action has returned, and `P` holds of what it returned.
abbrev pub Succeeds : {A : Type 0} → (A → Type 0) → Result A → Type 0
Succeeds P (ok a) = P a
Succeeds P (raised e) = ⊥
Succeeds P (killed e) = ⊥

-- The rule for a chain.
pub Succeeds-bind :
    {W A B : Type 0} (P : A → Type 0) (Q : B → Type 0) (m : Run W A) (f : A → Run W B) (w : W)
    → Succeeds P (m w).0
    → ((a : A) (w' : W) → P a → Succeeds Q (f a w').0)
    → Succeeds Q ((m >>= f) w).0
Succeeds-bind {W} {A} {B} P Q m f w h k = go (m w).0 (m w).1 (m w).2 h
  where
    go : (r : Result A) (es : List Event) (w' : W) → Succeeds P r → Succeeds Q (after r es w' f).0
    go (ok x) es w' p = k x w' p
    go (raised e) es w' p = absurd p
    go (killed e) es w' p = absurd p

-- An action has returned, and `P` holds of what it returned, or it was killed, and `K` holds of the
-- exception: it has not raised an `Exception`.
abbrev pub Ends : {A : Type 0} → (A → Type 0) → (String → Type 0) → Result A → Type 0
Ends P K (ok a) = P a
Ends P K (raised e) = ⊥
Ends P K (killed e) = K e

-- The rule for a chain.
pub Ends-bind :
    {W A B : Type 0} (P : A → Type 0) (Q : B → Type 0) (K : String → Type 0) (m : Run W A)
    (f : A → Run W B) (w : W)
    → Ends P K (m w).0
    → ((a : A) (w' : W) → (m w).0 ≡ ok a → P a → Ends Q K (f a w').0)
    → Ends Q K ((m >>= f) w).0
Ends-bind {W} {A} {B} P Q K m f w h k = go (m w).0 (m w).1 (m w).2 h (λ a e. k a (m w).2 e)
  where
    go :
        (r : Result A) (es : List Event) (w' : W)
        → Ends P K r
        → ((a : A) → r ≡ ok a → P a → Ends Q K (f a w').0)
        → Ends Q K (after r es w' f).0
    go (ok x) es w' p k = k x refl p
    go (raised e) es w' p k = absurd p
    go (killed e) es w' p k = p

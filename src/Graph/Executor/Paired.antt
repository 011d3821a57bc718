-- ===== src/Graph/Executor/Paired.antt =====
-- app/graph/nodes.py: the tool messages that `tool_executor_node` writes, whatever its calls do.
use llm_agent_runtime.Prelude.{
  ℕ, suc, String, ◌≡◌, ◌⊎◌, refl, sym, ap, true, false, List, [], ◌∷◌, ◌++◌, map, Bool-cases, inl,
  inr, length, arith,
}
use mathlib.Core.List.{append-nil}
use llm_agent_runtime.Prelude.Python.{Python}
use llm_agent_runtime.Core.Llm.{ToolCall, Message}
use llm_agent_runtime.Graph.State.{AgentState, Settings, Observation}
use llm_agent_runtime.Graph.Prompts.{Prompts}
use llm_agent_runtime.Graph.Run.{
  Result, ok, raised, killed, Env, pure, lift, gathered, emit_all, Succeeds, Succeeds-bind, Ends,
  Ends-bind, ◌>>=◌, ◌>>◌,
}
use llm_agent_runtime.Graph.Classify.{is_empty}
use llm_agent_runtime.Graph.Executor.{
  Totals, gathered_one, with_observation, collected, after_gather, run_one, run_all, observed,
  tool_messages, tool_message, executed_update, tool_executor_node, observation_event,
}

Ends-Succeeds :
    {A : Type 0} (P : A → Type 0) (K : String → Type 0) (r : Result A) (h : Succeeds P r)
    → Ends P K r
Ends-Succeeds P K (ok a) h = h
Ends-Succeeds P K (raised e) h = h
Ends-Succeeds P K (killed e) h = absurd h

-- Another account of what was killed.
Ends-because :
    {A : Type 0} (P : A → Type 0) (K L : String → Type 0) (r : Result A) (h : Ends P K r)
    (why : (e : String) → K e → L e)
    → Ends P L r
Ends-because P K L (ok a) h why = h
Ends-because P K L (raised e) h why = h
Ends-because P K L (killed e) h why = why e h

empty_nil : (calls : List ToolCall) → is_empty calls ≡ true → calls ≡ []
empty_nil [] e = refl
empty_nil (call ∷ calls) e = cc

-- One of the results is the exception `e`, which is no `Exception`.
abbrev pub Died : String → List (Result Observation) → Type 0
Died e [] = ⊥
Died e (r ∷ rs) = (r ≡ killed e) ⊎ Died e rs

module _ {W : Type 0} (py : Python) (prompts : Prompts) (settings : Settings) (env : Env W) where
  -- Every call of the list gets a result.
  run_all-length :
      (st : AgentState) (calls : List ToolCall) (totals : Totals) (w : W)
      → Succeeds
          (λ ran. length ran.0 ≡ length calls)
          (run_all py prompts settings env st calls totals w).0
  unfolding run_all
  run_all-length st [] totals w = refl
  run_all-length st (call ∷ calls) totals w =
      Succeeds-bind (λ r. Unit {0}) (λ ran. length ran.0 ≡ suc (length calls))
        (gathered (run_one py prompts settings env st call totals))
        (λ r.
          run_all py prompts settings env st calls (gathered_one py prompts settings env r totals).1
          >>= λ rest. pure ((gathered_one py prompts settings env r totals).0 ∷ rest.0, rest.1))
        w tt
        (λ r w' u.
          Succeeds-bind (λ ran. length ran.0 ≡ length calls)
            (λ ran. length ran.0 ≡ suc (length calls))
            (run_all py prompts settings env st calls
              (gathered_one py prompts settings env r totals).1)
            (λ rest. pure ((gathered_one py prompts settings env r totals).0 ∷ rest.0, rest.1)) w'
            (run_all-length st calls (gathered_one py prompts settings env r totals).1 w')
            (λ rest w'' e. ap suc e))

  with_observation-Ends :
      (n : ℕ) (call : ToolCall) (r : Result Observation) (rs : List (Result Observation))
      (rest : Result (List Observation))
      → Ends (λ os. length os ≡ n) (λ e. Died e rs) rest
      → Ends
          (λ os. length os ≡ suc n)
          (λ e. Died e (r ∷ rs))
          (with_observation py prompts settings env (observed py prompts settings env call r) rest)
  unfolding observed
  with_observation-Ends n call (killed e) rs rest h = inl refl
  with_observation-Ends n call (ok obs) rs (ok os) h = ap suc h
  with_observation-Ends n call (ok obs) rs (raised e) h = h
  with_observation-Ends n call (ok obs) rs (killed e) h = inr h
  with_observation-Ends n call (raised x) rs (ok os) h = ap suc h
  with_observation-Ends n call (raised x) rs (raised e) h = h
  with_observation-Ends n call (raised x) rs (killed e) h = inr h

  collected-Ends :
      (calls : List ToolCall) (rs : List (Result Observation)) (same : length rs ≡ length calls)
      → Ends
          (λ os. length os ≡ length calls)
          (λ e. Died e rs)
          (collected py prompts settings env calls rs)
  unfolding collected
  collected-Ends [] [] same = refl
  collected-Ends [] (r ∷ rs) same = absurd (omega arith)
  collected-Ends (call ∷ calls) [] same = absurd (omega arith)
  collected-Ends (call ∷ calls) (r ∷ rs) same =
      with_observation-Ends (length calls) call r rs (collected py prompts settings env calls rs)
        (collected-Ends calls rs (omega arith))

  tool_messages-ids :
      (calls : List ToolCall) (observations : List Observation)
      (same : length observations ≡ length calls)
      → map (λ m. m.tool_call_id) (tool_messages py prompts settings env calls observations)
        ≡ map (λ c. c.id) calls
  unfolding tool_messages tool_message
  tool_messages-ids [] [] same = refl
  tool_messages-ids [] (obs ∷ observations) same = absurd (omega arith)
  tool_messages-ids (call ∷ calls) [] same = absurd (omega arith)
  tool_messages-ids (call ∷ calls) (obs ∷ observations) same =
      ap (λ ids. call.id ∷ ids) (tool_messages-ids calls observations (omega arith))

  -- What the executor owes the next request to the model: one answer for each call, in order.
  pub Answers : AgentState → AgentState → Type 0
  Answers st st' =
      (answers : List Message) × (st'.messages ≡ st.messages ++ answers
        × (map (λ m. m.tool_call_id) answers ≡ map (λ c. c.id) st.pending_tool_calls
            × st'.pending_tool_calls ≡ []))

  -- One of the pending calls has died of the exception `e`.
  pub CallDied : AgentState → W → String → Type 0
  CallDied st w e =
      (ran : List (Result Observation) × Totals) × (((run_all py prompts settings env st
            st.pending_tool_calls
            (record { key_outputs = st.key_outputs; tokens = st.tokens_used; selfheal_used = 0 })
            w).0
          ≡ ok ran)
        × Died e ran.0)

  after_gather-Answers :
      (st : AgentState) (w v : W) (ran : List (Result Observation) × Totals)
      (got : (run_all py prompts settings env st st.pending_tool_calls
          (record { key_outputs = st.key_outputs; tokens = st.tokens_used; selfheal_used = 0 })
          w).0
        ≡ ok ran)
      (same : length ran.0 ≡ length st.pending_tool_calls)
      → Ends (Answers st) (CallDied st w) (after_gather py prompts settings env st ran v).0
  unfolding after_gather executed_update Answers CallDied
  after_gather-Answers st w v ran got same =
      Ends-bind (λ os. length os ≡ length st.pending_tool_calls) (Answers st) (CallDied st w)
        (lift (λ w'. (collected py prompts settings env st.pending_tool_calls ran.0, w')))
        (λ os.
          emit_all (map (observation_event py prompts settings env) os)
          >> pure (executed_update py prompts settings env st (os, ran.1)))
        v
        (Ends-because (λ os. length {A = Observation} os ≡ length st.pending_tool_calls)
          (λ e. Died e ran.0) (CallDied st w)
          (collected py prompts settings env st.pending_tool_calls ran.0)
          (collected-Ends st.pending_tool_calls ran.0 same) (λ e died. (ran, (got, died))))
        (λ os w' e count. (
          tool_messages py prompts settings env st.pending_tool_calls os,
          (refl, (tool_messages-ids st.pending_tool_calls os count, refl)),
        ))

  -- Unless the task is canceled, and while the events can be stored, `tool_executor_node` returns,
  -- whatever `Exception` the tools, the model
  -- and the journal raise, and it appends one tool message for each pending call, with the ids of the
  -- calls in their order, and leaves no call pending; or one of its calls has died of an exception that is
  -- no `Exception`, and it raises this one.
  pub tool_executor_node-Answers :
      (st : AgentState) (w : W) (live : env.canceled st.task_id w ≡ false)
      → Ends (Answers st) (CallDied st w) (tool_executor_node py prompts settings env st w).0
  unfolding tool_executor_node Answers
  tool_executor_node-Answers st w live = elim (Bool-cases (is_empty st.pending_tool_calls)) [
    | inl e ↦ rw e (
      [],
      (
        sym (append-nil st.messages),
        (
          ap (map (λ c. c.id)) (sym (empty_nil st.pending_tool_calls e)),
          empty_nil st.pending_tool_calls e,
        ),
      ),
    )
    | inr e ↦
        rw (e, live)
          (Ends-bind (λ ran. length ran.0 ≡ length st.pending_tool_calls) (Answers st)
            (CallDied st w)
            (run_all py prompts settings env st st.pending_tool_calls
              (record { key_outputs = st.key_outputs; tokens = st.tokens_used; selfheal_used = 0 }))
            (after_gather py prompts settings env st) w
            (Ends-Succeeds (λ ran. length ran.0 ≡ length st.pending_tool_calls) (CallDied st w)
              (run_all py prompts settings env st st.pending_tool_calls
                (record {
                  key_outputs = st.key_outputs;
                  tokens = st.tokens_used;
                  selfheal_used = 0;
                })
                w).0
              (run_all-length st st.pending_tool_calls _ w))
            (λ ran w' got same. after_gather-Answers st w w' ran got same))
  ]

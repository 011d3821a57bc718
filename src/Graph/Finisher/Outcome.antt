-- ===== src/Graph/Finisher/Outcome.antt =====
-- app/graph/nodes.py: the state in which `finisher_node` leaves a task.
use llm_agent_runtime.Prelude.{
  ◌+◌, ◌≡◌, ◌⊎◌, inl, inr, refl, sym, ap, ◌∙◌, String, List, str_eq, false, not, ◌&&◌, Bool-cases,
}
use llm_agent_runtime.Prelude.Python.{Python}
use llm_agent_runtime.Core.Llm.{LlmResponse, Message}
use llm_agent_runtime.Graph.State.{AgentState, Settings, Status, is_live, is_plan_execute}
use llm_agent_runtime.Graph.Prompts.{Prompts}
use llm_agent_runtime.Graph.Context.{model_of}
use llm_agent_runtime.Graph.Run.{Env, ok, lift, emit, ◌>>◌, Returns, Returns-bind}
use llm_agent_runtime.Graph.Finisher.{
  deliver, complete, by_status, finisher_node, finish_request, tokens_event,
}

-- A task that was canceled, failed or stopped by its budget is left so; any other is done.
abbrev pub end_of : Status → Status
end_of Status.canceled = Status.canceled
end_of Status.failed = Status.failed
end_of Status.budget_exceeded = Status.budget_exceeded
end_of _ = Status.done

-- The tokens stay, or those of an answer that the model has given to a request without tools are added.
abbrev pub Charged : {W : Type 0} → Env W → W → AgentState → AgentState → Type 0
Charged env w st st' =
    (st'.tokens_used ≡ st.tokens_used)
    ⊎ ((resp : LlmResponse) × (((messages : List Message) × ((model : String) × ((env.chat messages
                  false model w).0
                ≡ ok resp)))
          × ((st'.tokens_used ≡ st.tokens_used + resp.tokens_used)
              × (st'.final_answer ≡ resp.text))))

unfoldable pub Ended : {W : Type 0} → Env W → W → AgentState → AgentState → Type 0
Ended env w st st' =
    (st'.status ≡ end_of st.status) × ((is_live st'.status ≡ false) × Charged env w st st')

module _ {W : Type 0} (py : Python) (prompts : Prompts) (settings : Settings) (env : Env W) where
  complete-Ended :
      (st : AgentState) (w : W) (runs_on : Status.done ≡ end_of st.status)
      → Returns (Ended env w st) (complete py prompts settings env st w).0
  unfolding complete deliver Ended
  complete-Ended st w runs_on =
      elim (Bool-cases
        (st.needs_final && (not (str_eq st.final_answer "") && not (is_plan_execute st.mode)))) [
          | inl e ↦ rw e (runs_on, (refl, inl refl))
          | inr e ↦ rw e (
              Returns-bind (Ended env w st)
                (lift (
                  env.chat (finish_request py prompts (env.now_context w) st) false
                    (model_of settings st)))
                (λ resp.
                  emit (tokens_event resp.tokens_used)
                  >> deliver py prompts settings env st resp.text
                      (st.tokens_used + resp.tokens_used))
                w (λ resp w' got. (runs_on, (refl, inr (resp, ((_, (_, got)), (refl, refl)))))))
        ]

  by_status-Ended :
      (status : Status) (st : AgentState) (same : st.status ≡ status) (w : W)
      → Returns (Ended env w st) (by_status py prompts settings env status st w).0
  unfolding by_status Ended
  by_status-Ended Status.canceled st same w = (ap end_of (sym same), (refl, inl refl))
  by_status-Ended Status.failed st same w =
      (same ∙ ap end_of (sym same), (ap is_live same, inl refl))
  by_status-Ended Status.budget_exceeded st same w =
      (same ∙ ap end_of (sym same), (ap is_live same, inl refl))
  by_status-Ended Status.absent st same w = complete-Ended st w (ap end_of (sym same))
  by_status-Ended Status.running st same w = complete-Ended st w (ap end_of (sym same))
  by_status-Ended Status.done st same w = complete-Ended st w (ap end_of (sym same))
  by_status-Ended Status.waiting_approval st same w = complete-Ended st w (ap end_of (sym same))

  pub finisher_node-Ended :
      (st : AgentState) (w : W)
      → Returns (Ended env w st) (finisher_node py prompts settings env st w).0
  unfolding finisher_node
  finisher_node-Ended st w = by_status-Ended st.status st refl w

-- ===== src/Graph/Finisher/Steps.antt =====
-- app/graph/nodes.py: what `compressor_node` leaves of the step budget.
use llm_agent_runtime.Prelude.{refl, String, List, Option, none, some, false}
use llm_agent_runtime.Prelude.Python.{Python}
use llm_agent_runtime.Core.Llm.{Message}
use llm_agent_runtime.Core.Compressor.{summary_request}
use llm_agent_runtime.Graph.State.{AgentState, Settings, SameSteps}
use llm_agent_runtime.Graph.Prompts.{Prompts}
use llm_agent_runtime.Graph.Context.{model_of}
use llm_agent_runtime.Graph.Run.{Env, lift, Returns, Returns-bind}
use llm_agent_runtime.Graph.Finisher.{
  compressor_node, compress_with, compress_if, history_threshold,
}

module _ {W : Type 0} (py : Python) (prompts : Prompts) (settings : Settings) (env : Env W) where
  compress_with-SameSteps :
      (now : String) (st : AgentState) (request : List Message) (w : W)
      → Returns (SameSteps st) (compress_with py prompts settings env now st request w).0
  unfolding compress_with
  compress_with-SameSteps now st request w =
      Returns-bind (SameSteps st) (lift (env.chat request false (model_of settings st))) _ w
        (λ resp w' got. (refl, refl))

  compress_if-SameSteps :
      (now : String) (st : AgentState) (request : Option (List Message)) (w : W)
      → Returns (SameSteps st) (compress_if py prompts settings env now st request w).0
  unfolding compress_if
  compress_if-SameSteps now st none w = (refl, refl)
  compress_if-SameSteps now st (some request) w = compress_with-SameSteps now st request w

  pub compressor_node-SameSteps :
      (st : AgentState) (w : W)
      → Returns (SameSteps st) (compressor_node py prompts settings env st w).0
  unfolding compressor_node
  compressor_node-SameSteps st w =
      compress_if-SameSteps (env.now_context w) st
        (summary_request py prompts.summary st.messages
          (history_threshold py prompts settings (env.now_context w) st))
        w

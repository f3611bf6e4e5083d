-- ===== src/Agent/Graph.antt =====
-- The graph that runner/src/nodes/agent/agent.ts builds for langgraph: `__start__` leads to "agent", "agent" to
-- what `shouldContinue` says, and "tools" back to "agent". `merge` is langgraph's reducer of messages.
use supallm.Common.{String, Bool, true, false, List, [], ◌≡◌, Result, ok, All}
use supallm.Nodes.{Error}
use supallm.Agent.{
  ChatMessage, system, ai, tool, last, tool_calls, responses, call_model, GraphNode, agent, tools,
  should_continue,
}

pub record GraphState : Type 0 where
  pub at : GraphNode
  pub messages : List ChatMessage

-- A message that the tool node makes: the response to a call.
unfoldable pub is_response : ChatMessage → Bool
is_response (tool id s) = true
is_response (system s) = false
is_response _ = false

-- The model's answers, as langchain types them: they are of the kind `ai`.
abbrev pub IsAnswer : ChatMessage → Type 0
IsAnswer m = (s : String) × (calls : List String) × (m ≡ ai s calls)

unfoldable pub calls_of : ChatMessage → List String
calls_of (ai s calls) = calls
calls_of _ = []

module _ (merge : List ChatMessage → List ChatMessage → List ChatMessage)
    (invoke : List ChatMessage → Result ChatMessage Error) (instructions : String) where
  -- The tool node responds to each call of the last message.
  pub data Step : GraphState → GraphState → Type 0 where
    calls_model :
        (ms ms' : List ChatMessage)
        → call_model invoke instructions ms ≡ ok ms'
        → Step
            (record { at = agent; messages = ms })
            (record { at = should_continue (merge ms ms'); messages = merge ms ms' })
    runs_tools :
        (ms made : List ChatMessage)
        → All (λ m. is_response m ≡ true) made
        → responses made ≡ tool_calls (last ms)
        → Step
            (record { at = tools; messages = ms })
            (record { at = agent; messages = merge ms made })

  pub data Reaches : GraphState → GraphState → Type 0 where
    here : (g : GraphState) → Reaches g g
    step : (f g h : GraphState) → Step f g → Reaches g h → Reaches f h

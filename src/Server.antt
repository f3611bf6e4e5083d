-- ===== src/Server.antt =====
-- runner/src/server.ts and runner/src/services/notifier/redis-notifier.ts: what becomes of a workflow message, from
-- the queue to the stream of events. `JSON.stringify` and msgpack are parameters.
pub mod Config
pub mod Published
mod Tests
use supallm.Common.{
  ℕ, String, Option, none, some, List, [], ◌∷◌, ◌++◌, Result, ok, error, ◌==◌, filter, map,
}
use supallm.Values.{Fields}
use supallm.Nodes.{
  NodeRunner, NodeEventType, node_result, agent_notification, node_log, tool_started,
  tool_completed, tool_failed,
}
use supallm.Context.{WorkflowDefinition, ExecutionOptions}
use supallm.Context.Service.{ContextService}
use supallm.Workflow.Events.{
  EventType, workflow_started, workflow_completed, workflow_failed, node_started, node_completed,
  node_failed, reported, Event,
}
use supallm.Workflow.Executor.Execution

pub record WorkflowMessage : Type 0 where
  pub workflow_id : String
  pub trigger_id : String
  pub session_id : String
  pub project_id : String
  pub definition : WorkflowDefinition
  pub inputs : Fields

unfoldable pub event_name : EventType → String
event_name workflow_started = "WORKFLOW_STARTED"
event_name workflow_completed = "WORKFLOW_COMPLETED"
event_name workflow_failed = "WORKFLOW_FAILED"
event_name node_started = "NODE_STARTED"
event_name node_completed = "NODE_COMPLETED"
event_name node_failed = "NODE_FAILED"
event_name (reported node_log) = "NODE_LOG"
event_name (reported node_result) = "NODE_RESULT"
event_name (reported tool_started) = "TOOL_STARTED"
event_name (reported tool_completed) = "TOOL_COMPLETED"
event_name (reported tool_failed) = "TOOL_FAILED"
event_name (reported agent_notification) = "AGENT_NOTIFICATION"

-- The types that `setupEventListeners` listens to; each has one listener.
unfoldable pub all_events : List String
all_events =
    "WORKFLOW_STARTED" ∷ "WORKFLOW_COMPLETED" ∷ "WORKFLOW_FAILED" ∷ "NODE_STARTED"
    ∷ "NODE_COMPLETED" ∷ "NODE_FAILED" ∷ "NODE_LOG" ∷ "NODE_RESULT" ∷ "TOOL_STARTED"
    ∷ "TOOL_COMPLETED" ∷ "TOOL_FAILED" ∷ "AGENT_NOTIFICATION" ∷ []

-- One call of `XADD`.
pub record StreamEntry : Type 0 where
  pub stream : String
  pub max_length : ℕ
  pub message_id : String
  pub payload : String
  pub metadata : List ℕ

module _ (stringify : Event → String) (encode_metadata : String → List ℕ) where
  -- `RedisNotifier.publish`
  unfoldable pub publish : Event → StreamEntry
  publish event = record {
    stream = "workflows:upstream:events:dispatch";
    max_length = 1000;
    message_id = event.trigger_id;
    payload = stringify event;
    metadata = encode_metadata event.trigger_id;
  }

  -- The listeners of the event's type, in the order in which they were added.
  unfoldable pub handle_event : Event → List StreamEntry
  unfolding publish event_name all_events
  handle_event event =
      map (λ type. publish event) (filter (λ type. type == event_name event.type) all_events)

  unfoldable pub handle_events : List Event → List StreamEntry
  unfolding handle_event
  handle_events [] = []
  handle_events (e ∷ es) = handle_event e ++ handle_events es

  unfoldable pub options_of : WorkflowMessage → ExecutionOptions
  options_of m = record {
    inputs = m.inputs;
    project_id = m.project_id;
    session_id = m.session_id;
    trigger_id = m.trigger_id;
  }

  -- What is written to the stream. An error of the executor is caught. `none`: its fuel ran out.
  unfoldable pub handle_workflow_execution :
      NodeRunner → (svc : ContextService) → WorkflowMessage → svc.Store → Option (List StreamEntry)
  unfolding handle_events options_of Execution.execute
  handle_workflow_execution run_node svc m store =
      elim (Execution.execute run_node svc m.workflow_id m.definition (options_of m) store) [
        | none ↦ none
        | some (error e) ↦ some []
        | some (ok r) ↦ some (handle_events r.events)
      ]

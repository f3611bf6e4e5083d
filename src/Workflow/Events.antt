-- ===== src/Workflow/Events.antt =====
-- runner/src/services/notifier/notifier.interface.ts, and `emitEvent` of
-- runner/src/services/workflow/workflow.executor.ts.
use supallm.Common.{String, Bool, true, false, Option, none, List, if◌then◌else◌}
use supallm.Values.{Fields}
use supallm.Nodes.{NodeType, Error, NodeEventType}
use supallm.Context.{ExecutionContext}

pub data EventType : Type 0 where
  workflow_started workflow_completed workflow_failed : EventType
  node_started node_completed node_failed : EventType
  reported : NodeEventType → EventType

-- A blocked node and the dependencies that it waits for.
pub record Blocked : Type 0 where
  pub node_id : String
  pub missing_deps : List String

-- The errors that end an execution, by the values that their messages are made of.
pub data WorkflowError : Type 0 where
  thrown : Error → WorkflowError
  circular : List Blocked → WorkflowError
  nodes_failed : List (String × Option Error) → WorkflowError

pub data Payload : Type 0 where
  inputs : Fields → Payload
  inputs_output : Fields → Fields → Payload
  failure : Error → Payload
  final : Option Fields → Payload
  workflow_failure : WorkflowError → Payload
  report : Fields → Payload

pub record Event : Type 0 where
  pub type : EventType
  pub workflow_id : String
  pub trigger_id : String
  pub session_id : String
  pub node_id : Option String
  pub node_type : Option NodeType
  pub payload : Payload

unfoldable pub is_node_event : EventType → Bool
is_node_event node_started = true
is_node_event node_completed = true
is_node_event node_failed = true
is_node_event (reported e) = true
is_node_event workflow_started = false
is_node_event _ = false

-- The event that `emitEvent` hands to the listeners: the common ids, and the node's for an event
-- about a node.
unfoldable pub make_event :
    EventType → ExecutionContext → Option String → Option NodeType → Payload → Event
unfolding is_node_event
make_event type context node_id node_type payload = record {
  type = type;
  workflow_id = context.workflow_id;
  trigger_id = context.trigger_id;
  session_id = context.session_id;
  node_id = if is_node_event type then node_id else none;
  node_type = if is_node_event type then node_type else none;
  payload = payload;
}

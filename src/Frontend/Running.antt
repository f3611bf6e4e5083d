-- ===== src/Frontend/Running.antt =====
-- The view of a flow that is running: frontend/src/components/builder/test-flow-dialog/running-flow.tsx and
-- running-flow-node.tsx. Where dagre puts the nodes, and what is drawn, is left out.
pub mod Events
mod Tests
use Prim.Native.String
use supallm.Common.{
  String, Bool, true, false, Option, none, some, List, [], ◌∷◌, ◌++◌, Result, ok, error, ◌>>=◌,
  ◌==◌, ◌&&◌, ◌||◌, not, if◌then◌else◌, map, filter, has, add,
}
use supallm.Common.Chars.{Chars, codes}
use supallm.Values.{Value, null, str, obj, arr, Items, nil, Fields, end, field, spread, get_field}
use supallm.Tools.Postgres.{same_name}
use supallm.Frontend.Handles.{HandleError, parse_handle_id}
use supallm.Frontend.NodeTypes.{is_running_flow_node_type, is_tool_node_type}
use supallm.Frontend.Editor.{Edge}

infixr 20 ◌+++◌
abbrev ◌+++◌ : String → String → String
s +++ t = String.◌++◌ s t

pub record RunningNode : Type 0 where
  pub id : String
  pub type : String
  pub payload : Fields

pub record LayoutEdge : Type 0 where
  pub id : String
  pub source : String
  pub target : String
  pub source_handle : String
  pub target_handle : String

-- `parseHandleId(handle ?? "")`
unfoldable pub type_of_handle : Option Chars → Result Chars HandleError
unfolding parse_handle_id
type_of_handle none = parse_handle_id [] >>= λ p. ok p.0
type_of_handle (some id) = parse_handle_id id >>= λ p. ok p.0

-- `${edge.source}->${edge.target}`
abbrev pub key : Edge → String
key e = e.source +++ "->" +++ e.target

unfoldable pub reversed_edge : Edge → Edge
reversed_edge e = record {
  id = e.id;
  source = e.target;
  target = e.source;
  source_handle = e.target_handle;
  target_handle = e.source_handle;
}

-- Step 2 of the layout; an edge whose target's handle cannot be parsed is an exception.
unfoldable pub deduplicate : List String → List Edge → Result (List Edge) HandleError
unfolding type_of_handle reversed_edge same_name codes has add
deduplicate seen [] = ok []
deduplicate seen (e ∷ es) =
    let rest = deduplicate (add (key e) seen) es in
    type_of_handle e.target_handle >>= λ target_type.
    if has (key e) seen
    then rest
    else rest >>= λ deduped.
        ok ((if same_name target_type (codes "tools") then reversed_edge e else e) ∷ deduped)

unfoldable pub layout_edge : Edge → LayoutEdge
layout_edge e = record {
  id = "layout-edge-" +++ e.source +++ "-" +++ e.target;
  source = e.source;
  target = e.target;
  source_handle = e.source +++ "-top";
  target_handle = e.target +++ "-bottom";
}

unfoldable pub layout_node : RunningNode → RunningNode
layout_node n = record n {
  payload = field "status" (str "idle") (field "nodeData" (obj n.payload) end);
}

unfoldable pub layout_graph_with_standard_handles :
    List RunningNode → List Edge → Result (List RunningNode × List LayoutEdge) HandleError
unfolding deduplicate layout_edge layout_node
layout_graph_with_standard_handles nodes raw_edges =
    deduplicate [] raw_edges >>= λ deduped. ok (map layout_node nodes, map layout_edge deduped)

abbrev avoids : Chars → Bool
avoids type = same_name type (codes "ai-model") || same_name type (codes "memory")

-- The edges of a model or of a memory are not shown.
unfoldable pub shown_edges : List Edge → Result (List Edge) HandleError
unfolding type_of_handle same_name codes
shown_edges [] = ok []
shown_edges (e ∷ es) =
    let rest = shown_edges es in
    type_of_handle e.target_handle >>= λ target_type.
    type_of_handle e.source_handle >>= λ source_type.
    rest >>= λ shown. ok (if avoids target_type && avoids source_type then shown else e ∷ shown)

unfoldable pub running_flow :
    List RunningNode → List Edge → Result (List RunningNode × List LayoutEdge) HandleError
unfolding layout_graph_with_standard_handles shown_edges is_running_flow_node_type is_tool_node_type
running_flow initial_nodes initial_edges = shown_edges initial_edges >>= λ edges.
    layout_graph_with_standard_handles
      (filter (λ n. is_running_flow_node_type n.type || is_tool_node_type n.type) initial_nodes)
      edges

-- What the setters do to the node that they are about: `{...node.data, ...}`.
unfoldable pub active : Value → Items → Fields → Fields
unfolding spread
active node_input node_logs payload = spread payload (
    field "nodeData" (obj payload) (
      field "status" (str "active")
        (field "input" node_input (field "output" null (field "logs" (arr node_logs) end)))))

unfoldable pub ended : Value → Fields → Fields
unfolding spread
ended node_output payload =
    spread payload (field "status" (str "ended") (field "output" node_output end))

unfoldable pub failed : Items → Value → Fields → Fields
unfolding spread
failed node_logs node_output payload =
    spread payload (
      field "status" (str "failed") (field "output" node_output (field "logs" (arr node_logs) end)))

unfoldable pub with_status : String → Fields → Fields
unfolding spread
with_status status payload = spread payload (field "status" (str status) end)

unfoldable pub update_node : String → (Fields → Fields) → List RunningNode → List RunningNode
update_node node_id update nodes =
    map (λ n. if n.id == node_id then record n { payload = update n.payload } else n) nodes

unfoldable pub set_active_node : String → Value → Items → List RunningNode → List RunningNode
unfolding update_node active
set_active_node node_id node_input node_logs nodes =
    update_node node_id (active node_input node_logs) nodes

unfoldable pub set_ended_node : String → Value → List RunningNode → List RunningNode
unfolding update_node ended
set_ended_node node_id node_output nodes = update_node node_id (ended node_output) nodes

unfoldable pub set_failed_node : String → Items → Value → List RunningNode → List RunningNode
unfolding update_node failed
set_failed_node node_id node_logs node_output nodes =
    update_node node_id (failed node_logs node_output) nodes

unfoldable pub set_workflow_output_status : String → List RunningNode → List RunningNode
unfolding update_node with_status
set_workflow_output_status status nodes = update_node "result-node" (with_status status) nodes

-- What the subscription to a run tells.
pub data FlowEvent : Type 0 where
  flow_end flow_fail : FlowEvent
  node_start : String → Value → FlowEvent
  node_end : String → Value → FlowEvent
  node_fail : String → Value → FlowEvent
  tool_start : String → Value → FlowEvent
  tool_end : String → Value → FlowEvent
  tool_fail : String → Value → FlowEvent

unfoldable pub on_event : FlowEvent → List RunningNode → List RunningNode
unfolding set_active_node set_ended_node set_failed_node set_workflow_output_status
on_event flow_end nodes = set_workflow_output_status "ended" nodes
on_event flow_fail nodes = set_workflow_output_status "failed" nodes
on_event (node_start node_id input) nodes = set_active_node node_id input nil nodes
on_event (node_end node_id output) nodes = set_ended_node node_id output nodes
on_event (node_fail node_id failure) nodes = set_failed_node node_id nil failure nodes
on_event (tool_start node_id input) nodes = set_active_node node_id input nil nodes
on_event (tool_end node_id output) nodes = set_ended_node node_id output nodes
on_event (tool_fail node_id failure) nodes = set_failed_node node_id nil failure nodes

unfoldable pub on_events : List FlowEvent → List RunningNode → List RunningNode
unfolding on_event
on_events [] nodes = nodes
on_events (e ∷ es) nodes = on_events es (on_event e nodes)

-- The store of the node that is inspected.
pub record InspectingNode : Type 0 where
  pub node_id : String
  pub node_input : Value
  pub node_output : Value

abbrev is_str : String → Value → Bool
is_str s (str t) = t == s
is_str s _ = false

unfoldable pub is_completed : Fields → Bool
unfolding get_field
is_completed payload =
    is_str "ended" (get_field "status" payload) || is_str "failed" (get_field "status" payload)

unfoldable pub handle_inspect_node : RunningNode → Option InspectingNode → Option InspectingNode
unfolding is_completed get_field
handle_inspect_node n inspecting_node =
    if is_completed n.payload
    then some (record {
      node_id = n.id;
      node_input = get_field "input" n.payload;
      node_output = get_field "output" n.payload;
    })
    else inspecting_node

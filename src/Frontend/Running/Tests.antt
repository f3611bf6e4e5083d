-- ===== src/Frontend/Running/Tests.antt =====
-- A flow of an entrypoint, an agent with a tool, its model and a result, and a run of it.
use supallm.Common.{String, none, some, List, [], ◌∷◌, ◌≡◌, refl, ok, error, map}
use supallm.Common.Chars.{codes}
use supallm.Values.{str, num, obj, undefined, end, field, get_field}
use supallm.Frontend.Handles.{invalid_handle_id}
use supallm.Frontend.Editor.{Edge}
use supallm.Frontend.Running.{
  RunningNode, running_flow, FlowEvent, flow_end, node_start, node_fail, tool_start, tool_end,
  on_events, handle_inspect_node,
}
use supallm.Frontend.Running.Events.{shown, status_after, last_about, on_events-shown}

abbrev a_node : String → String → RunningNode
a_node id type = record { id = id; type = type; payload = field "status" (str "idle") end }

abbrev flow_nodes : List RunningNode
flow_nodes =
    a_node "start" "entrypoint"
    ∷ a_node "agent" "ai-agent"
    ∷ a_node "tool" "http-tool"
    ∷ a_node "result-node" "result"
    ∷ []

abbrev an_edge : String → String → String → String → Edge
an_edge source source_handle target target_handle = record {
  id = "e";
  source = source;
  target = target;
  source_handle = some (codes source_handle);
  target_handle = some (codes target_handle);
}

-- Of the two edges from the start to the agent one is left, the one of the tool is turned around, and the
-- model is not shown.
laid_out :
    (running_flow (a_node "model" "model-openai" ∷ a_node "agent" "ai-agent" ∷ []) (
      an_edge "start" "text__a" "agent" "text__a"
      ∷ an_edge "start" "text__b" "agent" "text__b"
      ∷ an_edge "tool" "tools__out" "agent" "tools__in"
      ∷ an_edge "model" "ai-model__out" "agent" "ai-model__in"
      ∷ []))
    ≡ ok (
      record (a_node "agent" "ai-agent") {
        payload =
            field "status"
              (str "idle")
              (field "nodeData" (obj (field "status" (str "idle") end)) end);
      }
          ∷ [],
      record {
        id = "layout-edge-start-agent";
        source = "start";
        target = "agent";
        source_handle = "start-top";
        target_handle = "agent-bottom";
      }
          ∷ record {
            id = "layout-edge-agent-tool";
            source = "agent";
            target = "tool";
            source_handle = "agent-top";
            target_handle = "tool-bottom";
          }
          ∷ [],
    )
unfolding running_flow codes
laid_out = refl

not_laid_out :
    running_flow [] (an_edge "start" "text__a" "agent" "" ∷ []) ≡ error (invalid_handle_id [])
unfolding running_flow codes
not_laid_out = refl

abbrev events : List FlowEvent
events =
    node_start "agent" (str "hello")
    ∷ tool_start "tool" (str "{}")
    ∷ tool_end "tool" (num "1")
    ∷ node_fail "agent" (str "no key")
    ∷ flow_end
    ∷ []

statuses :
    map shown (on_events events flow_nodes)
    ≡ ("start", str "idle")
      ∷ ("agent", str "failed")
      ∷ ("tool", str "ended")
      ∷ ("result-node", str "ended")
      ∷ []
unfolding on_events get_field
statuses = refl

inspected :
    map (λ n. handle_inspect_node n none) (on_events events flow_nodes)
    ≡ none
      ∷ some (record { node_id = "agent"; node_input = str "hello"; node_output = str "no key" })
      ∷ some (record { node_id = "tool"; node_input = str "{}"; node_output = num "1" })
      ∷ some (record { node_id = "result-node"; node_input = undefined; node_output = undefined })
      ∷ []
unfolding handle_inspect_node on_events get_field
inspected = refl

on_events-shown_example :
    map shown (on_events events flow_nodes)
    ≡ map
        (λ n. (n.id, status_after (last_about n.id events) (get_field "status" n.payload)))
        flow_nodes
on_events-shown_example = on_events-shown events flow_nodes

-- ===== src/Frontend/Running/Events.antt =====
-- How a node looks after the events of a run.
use supallm.Common.{
  String, Option, none, some, List, [], ◌∷◌, ◌≡◌, refl, sym, ap, ◌∙◌, ◌==◌, if◌then◌else◌, map,
  Bool-cases, Option-cases, inl, inr,
}
use mathlib.Core.List.{map-map, map-id}
use supallm.Values.{
  Value, null, str, obj, arr, set_field, Fields, Items, nil, get_field, spread, get_field-set_field,
}
use supallm.Frontend.Running.{
  RunningNode, FlowEvent, flow_end, flow_fail, node_start, node_end, node_fail, tool_start,
  tool_end, tool_fail, active, ended, failed, with_status, update_node, set_active_node,
  set_ended_node, set_failed_node, set_workflow_output_status, on_event, on_events,
}

unfoldable pub node_of : FlowEvent → String
node_of flow_end = "result-node"
node_of flow_fail = "result-node"
node_of (node_start id v) = id
node_of (node_end id v) = id
node_of (node_fail id v) = id
node_of (tool_start id v) = id
node_of (tool_end id v) = id
node_of (tool_fail id v) = id

unfoldable pub status_of : FlowEvent → String
status_of flow_end = "ended"
status_of flow_fail = "failed"
status_of (node_start id v) = "active"
status_of (node_end id v) = "ended"
status_of (node_fail id v) = "failed"
status_of (tool_start id v) = "active"
status_of (tool_end id v) = "ended"
status_of (tool_fail id v) = "failed"

-- The last of the events that is about a node.
unfoldable pub last_about : String → List FlowEvent → Option FlowEvent
unfolding node_of
last_about id [] = none
last_about id (e ∷ es) = elim (last_about id es) [
  | some later ↦ some later
  | none ↦ if id == node_of e then some e else none
]

unfoldable pub status_after : Option FlowEvent → Value → Value
unfolding status_of
status_after none status = status
status_after (some e) status = str (status_of e)

abbrev pub shown : RunningNode → String × Value
shown n = (n.id, get_field "status" n.payload)

update_node-shown :
    (id : String) (status : String) (update : Fields → Fields) (nodes : List RunningNode)
    → ((payload : Fields) → get_field "status" (update payload) ≡ str status)
    → map shown (update_node id update nodes)
      ≡ map (λ p. (p.0, if p.0 == id then str status else p.1)) (map shown nodes)
unfolding update_node
update_node-shown id status update [] h = refl
update_node-shown id status update (n ∷ nodes) h = elim (Bool-cases (n.id == id)) [
  | inl e ↦ rw (e, update_node-shown id status update nodes h, h n.payload) refl
  | inr e ↦ rw (e, update_node-shown id status update nodes h) refl
]

status_after-last_about :
    (id : String) (e : FlowEvent) (es : List FlowEvent) (status : Value)
    → status_after (last_about id es) (if id == node_of e then str (status_of e) else status)
      ≡ status_after (last_about id (e ∷ es)) status
unfolding status_after last_about
status_after-last_about id e es status = elim (Option-cases (last_about id es)) [
  | inr (later, k) ↦ rw (last_about, k) refl
  | inl k ↦ elim (Bool-cases (id == node_of e)) [
    | inl about ↦ rw (last_about, k, about) refl
    | inr other ↦ rw (last_about, k, other) refl
  ]
]

active-status :
    (v : Value) (logs : Items) (p : Fields) → get_field "status" (active v logs p) ≡ str "active"
unfolding active spread
active-status v logs p =
    get_field-set_field "logs" "status" (arr logs) _
    ∙ get_field-set_field "output" "status" null _
    ∙ get_field-set_field "input" "status" v _
    ∙ get_field-set_field "status" "status" (str "active") (set_field "nodeData" (obj p) p)

ended-status : (v : Value) (p : Fields) → get_field "status" (ended v p) ≡ str "ended"
unfolding ended spread
ended-status v p =
    get_field-set_field "output" "status" v _
    ∙ get_field-set_field "status" "status" (str "ended") p

failed-status :
    (logs : Items) (v : Value) (p : Fields) → get_field "status" (failed logs v p) ≡ str "failed"
unfolding failed spread
failed-status logs v p =
    get_field-set_field "logs" "status" (arr logs) _
    ∙ get_field-set_field "output" "status" v _
    ∙ get_field-set_field "status" "status" (str "failed") p

with_status-status : (s : String) (p : Fields) → get_field "status" (with_status s p) ≡ str s
unfolding with_status spread
with_status-status s p = get_field-set_field "status" "status" (str s) p

on_event-shown :
    (e : FlowEvent) (nodes : List RunningNode)
    → map shown (on_event e nodes)
      ≡ map (λ p. (p.0, if p.0 == node_of e then str (status_of e) else p.1)) (map shown nodes)
unfolding on_event set_workflow_output_status set_active_node set_ended_node set_failed_node node_of
    status_of
on_event-shown flow_end nodes =
    update_node-shown "result-node" "ended" _ nodes (with_status-status "ended")
on_event-shown flow_fail nodes =
    update_node-shown "result-node" "failed" _ nodes (with_status-status "failed")
on_event-shown (node_start id v) nodes = update_node-shown id "active" _ nodes (active-status v nil)
on_event-shown (node_end id v) nodes = update_node-shown id "ended" _ nodes (ended-status v)
on_event-shown (node_fail id v) nodes = update_node-shown id "failed" _ nodes (failed-status nil v)
on_event-shown (tool_start id v) nodes = update_node-shown id "active" _ nodes (active-status v nil)
on_event-shown (tool_end id v) nodes = update_node-shown id "ended" _ nodes (ended-status v)
on_event-shown (tool_fail id v) nodes = update_node-shown id "failed" _ nodes (failed-status nil v)

map_same : {A B : Type 0} (f g : A → B) (xs : List A) → ((x : A) → f x ≡ g x) → map f xs ≡ map g xs
map_same f g [] h = refl
map_same f g (x ∷ xs) h = rw (h x, map_same f g xs h) refl

on_events-pairs :
    (es : List FlowEvent) (nodes : List RunningNode)
    → map shown (on_events es nodes)
      ≡ map (λ p. (p.0, status_after (last_about p.0 es) p.1)) (map shown nodes)
unfolding on_events last_about status_after
on_events-pairs [] nodes = sym (map-id (map shown nodes))
on_events-pairs (e ∷ es) nodes =
    on_events-pairs es (on_event e nodes)
    ∙ ap (map (λ p. (p.0, status_after (last_about p.0 es) p.1))) (on_event-shown e nodes)
    ∙ map-map (λ p. (p.0, status_after (last_about p.0 es) p.1))
        (λ p. (p.0, if p.0 == node_of e then str (status_of e) else p.1)) (map shown nodes)
    ∙ map_same _ _ (map shown nodes)
        (λ p. ap (λ s. (p.0, s)) (status_after-last_about p.0 e es p.1))

-- After any events, in any order, the nodes are the same ones in the same order, and the status of each is
-- the one of the last event that was about it (the end and the failure of the run are about the result
-- node); where there was none, its status has not changed.
pub on_events-shown :
    (es : List FlowEvent) (nodes : List RunningNode)
    → map shown (on_events es nodes)
      ≡ map (λ n. (n.id, status_after (last_about n.id es) (get_field "status" n.payload))) nodes
on_events-shown es nodes =
    on_events-pairs es nodes
    ∙ map-map (λ p. (p.0, status_after (last_about p.0 es) p.1)) shown nodes

-- When a node starts again, what it holds as the node's own data is all that it showed before, and no
-- longer what the flow has given it.
pub active-node_data :
    (v : Value) (logs : Items) (p : Fields) → get_field "nodeData" (active v logs p) ≡ obj p
unfolding active spread
active-node_data v logs p =
    get_field-set_field "logs" "nodeData" (arr logs) _
    ∙ get_field-set_field "output" "nodeData" null _
    ∙ get_field-set_field "input" "nodeData" v _
    ∙ get_field-set_field "status" "nodeData" (str "active") _
    ∙ get_field-set_field "nodeData" "nodeData" (obj p) p

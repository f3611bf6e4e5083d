-- ===== src/Frontend/Results.antt =====
-- What the dialog that tests a flow shows of a run: frontend/src/components/builder/test-flow-dialog
-- test-flow-dialog.tsx and text-flow-bottom-panel.tsx. What a result streams is a list of character codes. The
-- names that an object inherits (`constructor`, say) are left out as names of fields.
pub mod Joined
pub mod Orders
mod Tests
use mathlib.Core.List.{reverse}
use supallm.Common.{
  ℕ, zero, suc, String, Bool, true, false, Option, none, some, List, [], ◌∷◌, ◌++◌, if◌then◌else◌,
  Dict, get, set, has, filter, not,
}
use supallm.Common.Chars.{Chars}
use supallm.Frontend.Running.{InspectingNode}

pub record FlowResultStreamEvent : Type 0 where
  pub field_name : String
  pub value : Chars

pub record AgentNotification : Type 0 where
  pub payload : String
  pub node_id : String
  pub node_type : String
  pub output_field : String

-- The dialog. A subscription is told by a name; `listeners` are the subscriptions that still tell the
-- dialog of their events, `unsubscribes` those that it can put an end to.
pub record TestFlow : Type 0 where
  pub is_open : Bool
  pub is_running : Bool
  pub results : List FlowResultStreamEvent
  pub inputs : Dict String
  pub agent_notifications : List AgentNotification
  pub unsubscribes : List String
  pub listeners : List String
  pub flow_error : Option String
  pub run_id : String
  pub session_id : String
  pub flow_subscription : Option String
  pub inspecting_node : Option InspectingNode

abbrev without : List String → List String → List String
without gone names = filter (λ name. not (has name gone)) names

unfoldable pub reset : TestFlow → TestFlow
reset s = record s { results = []; inputs = []; unsubscribes = []; is_running = false }

-- Closing resets the dialog, and ends the subscriptions that it had before.
unfoldable pub on_open_change : Bool → TestFlow → TestFlow
unfolding reset has
on_open_change true s = record s { is_open = true }
on_open_change false s = record (reset (record s { is_open = false })) {
  listeners = without s.unsubscribes s.listeners;
}

-- `handleRunFlow`, with the id that is drawn, the token that `getAuthToken` gives, and the new subscription.
unfoldable pub handle_run_flow : String → Option String → String → TestFlow → TestFlow
handle_run_flow run_id none subscription s = record s { run_id = run_id }
handle_run_flow run_id (some token) subscription s = record s {
  run_id = run_id;
  results = [];
  flow_error = none;
  is_running = true;
  unsubscribes = subscription ∷ [];
  listeners = subscription ∷ s.listeners;
  flow_subscription = some subscription;
  inspecting_node = none;
}

unfoldable pub handle_pause : TestFlow → TestFlow
unfolding has
handle_pause s = record s { is_running = false; listeners = without s.unsubscribes s.listeners }

unfoldable pub handle_reset_session : String → TestFlow → TestFlow
handle_reset_session session_id s = record s { session_id = session_id }

unfoldable pub on_input : String → String → TestFlow → TestFlow
unfolding set
on_input label value s = record s { inputs = set label value s.inputs }

-- What a subscription tells the dialog.
pub data RunEvent : Type 0 where
  flow_result_stream : FlowResultStreamEvent → RunEvent
  run_fail : String → RunEvent
  run_end : RunEvent
  agent_notification : AgentNotification → RunEvent

unfoldable pub told : RunEvent → TestFlow → TestFlow
told (flow_result_stream event) s = record s { results = s.results ++ event ∷ [] }
told (run_fail message) s = record s { flow_error = some message; is_running = false }
told run_end s = record s { is_running = false }
told (agent_notification event) s = record s {
  agent_notifications = s.agent_notifications ++ event ∷ [];
}

unfoldable pub on_run_event : String → RunEvent → TestFlow → TestFlow
unfolding told has
on_run_event subscription event s = if has subscription s.listeners then told event s else s

abbrev pub take : {A : Type 0} → ℕ → List A → List A
take zero xs = []
take (suc n) [] = []
take (suc n) (x ∷ xs) = x ∷ take n xs

-- `events.reverse().slice(0, n)`: what is shown, and what has become of the array, which `reverse` changes.
unfoldable pub show_latest : {A : Type 0} → ℕ → List A → List A × List A
show_latest n events = (take n (reverse events), reverse events)

unfoldable pub add_result : FlowResultStreamEvent → Dict Chars → Dict Chars
unfolding get set
add_result event result = elim (get event.field_name result) [
  | none ↦ set event.field_name event.value result
  | some [] ↦ set event.field_name event.value result
  | some (c ∷ value) ↦ set event.field_name ((c ∷ value) ++ event.value) result
]

unfoldable pub add_results : List FlowResultStreamEvent → Dict Chars → Dict Chars
unfolding add_result
add_results [] result = result
add_results (event ∷ events) result = add_results events (add_result event result)

-- `FinalResult`
unfoldable pub final_result : List FlowResultStreamEvent → Option (Dict Chars)
unfolding add_results
final_result [] = none
final_result (event ∷ events) = some (add_results (event ∷ events) [])

pub data Pane : Type 0 where
  full_result_pane source_code_pane logs_pane node_inspector_pane notifications_pane : Pane

-- The bottom panel, with the array of its events, and what the pane of the logs has shown last.
pub record Panel : Type 0 where
  pub active_pane : Pane
  pub events : List FlowResultStreamEvent
  pub shown : List FlowResultStreamEvent

-- The effect of `useMemo` in the list of the logs, whenever it is mounted or given another array.
unfoldable pub memoized : Panel → Panel
unfolding show_latest
memoized p = record p { shown = (show_latest 5 p.events).0; events = (show_latest 5 p.events).1 }

abbrev pub is_logs : Pane → Bool
is_logs logs_pane = true
is_logs full_result_pane = false
is_logs source_code_pane = false
is_logs node_inspector_pane = false
is_logs notifications_pane = false

-- A click on a pane: the list of the logs is mounted if it was not there.
unfoldable pub select_pane : Pane → Panel → Panel
unfolding memoized
select_pane pane p =
    let next = record p { active_pane = pane } in
    if is_logs pane then if is_logs p.active_pane then next else memoized next else next

-- `setResults((prev) => [...prev, data])`, and the rendering after it.
unfoldable pub receive : FlowResultStreamEvent → Panel → Panel
unfolding memoized
receive event p =
    let next = record p { events = p.events ++ event ∷ [] } in
    if is_logs p.active_pane then memoized next else next

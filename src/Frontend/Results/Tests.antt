-- ===== src/Frontend/Results/Tests.antt =====
-- Six events of two fields, and a run of the dialog.
use supallm.Common.{String, true, false, none, some, [], ◌∷◌, ◌≡◌, refl}
use supallm.Common.Chars.{codes}
use supallm.Frontend.Results.{
  FlowResultStreamEvent, AgentNotification, TestFlow, on_open_change, handle_run_flow, handle_pause,
  handle_reset_session, on_input, flow_result_stream, agent_notification, run_end, on_run_event,
  take, final_result, full_result_pane, logs_pane, node_inspector_pane, Panel, select_pane, receive,
}
use supallm.Frontend.Results.Joined.{field_of, followed_by, values_of}
use supallm.Frontend.Results.Orders.{
  select_panes, is_turned, turned, select_panes-final_result, receive-shown,
}

abbrev an_event : String → String → FlowResultStreamEvent
an_event name value = record { field_name = name; value = codes value }

abbrev panel : Panel
panel = record {
  active_pane = full_result_pane;
  events = an_event "answer" "Hel" ∷ an_event "answer" "lo" ∷ an_event "score" "7" ∷ [];
  shown = [];
}

abbrev a_dialog : TestFlow
a_dialog = record {
  is_open = true;
  is_running = false;
  results = [];
  inputs = [];
  agent_notifications = [];
  unsubscribes = [];
  listeners = [];
  flow_error = none;
  run_id = "1";
  session_id = "2";
  flow_subscription = none;
  inspecting_node = none;
}

abbrev a_notification : AgentNotification
a_notification = record {
  payload = "hi";
  node_id = "agent";
  node_type = "ai-agent";
  output_field = "out";
}

in_order : field_of "answer" (final_result panel.events) ≡ some (codes "Hello")
unfolding final_result codes
in_order = refl

after_the_logs :
    field_of "answer"
      (final_result (select_pane full_result_pane (select_pane logs_pane panel)).events)
    ≡ some (codes "loHel")
unfolding final_result select_pane codes
after_the_logs = refl

-- What a subscription streams is shown until the dialog stops listening to it.
streamed :
    (on_run_event "s" (flow_result_stream (an_event "answer" "!")) (
      handle_pause (
        on_run_event "s"
          (flow_result_stream (an_event "answer" "Hello"))
          (handle_run_flow "3" (some "token") "s" (on_input "prompt" "hi" a_dialog))))).results
    ≡ an_event "answer" "Hello" ∷ []
unfolding on_run_event handle_run_flow handle_pause on_input
streamed = refl

-- What an agent has notified of in one run is still shown in the next, and after the dialog was closed.
still_notified :
    (handle_run_flow "4" (some "token") "t" (
      on_open_change true (
        on_open_change false (
          on_run_event "s" run_end (
            on_run_event "s" (agent_notification a_notification) (
              handle_run_flow "3"
                (some "token")
                "s"
                (handle_reset_session "5" a_dialog))))))).agent_notifications
    ≡ a_notification ∷ []
unfolding on_run_event handle_run_flow on_open_change handle_reset_session
still_notified = refl

select_panes-final_result_example :
    field_of "answer" (
      final_result
        (select_panes (logs_pane ∷ node_inspector_pane ∷ full_result_pane ∷ []) panel).events)
    ≡ followed_by none (
        values_of "answer" (
          turned
            (is_turned full_result_pane (logs_pane ∷ node_inspector_pane ∷ full_result_pane ∷ []))
            panel.events))
select_panes-final_result_example =
    select_panes-final_result "answer" (logs_pane ∷ node_inspector_pane ∷ full_result_pane ∷ [])
      panel

shown_oldest :
    (receive (an_event "answer" "?") (select_pane logs_pane panel)).shown
    ≡ take 5 (an_event "answer" "?" ∷ panel.events)
shown_oldest = receive-shown (an_event "answer" "?") panel refl

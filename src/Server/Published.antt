-- ===== src/Server/Published.antt =====
-- What the server writes to the stream of events.
use supallm.Common.{ℕ, String, some, List, [], ◌∷◌, ok, error, ◌≡◌, ◌⊎◌, inl, inr, refl, map, ap}
use supallm.Nodes.{
  NodeRunner, Error, node_result, agent_notification, node_log, tool_started, tool_completed,
  tool_failed,
}
use supallm.Context.Service.{ContextService}
use supallm.Workflow.Events.{
  EventType, workflow_started, workflow_completed, workflow_failed, node_started, node_completed,
  node_failed, reported, Event,
}
use supallm.Context.{ExecutionContext}
use supallm.Workflow.Executor.{Outcome, Run}
use supallm.Workflow.Executor.Execution.{execute, execute_workflow}
use supallm.Workflow.Executor.Envelope.{IsEnveloped, begun, execute-IsEnveloped}
use supallm.Server.{
  WorkflowMessage, event_name, all_events, publish, handle_event, handle_events, options_of,
  handle_workflow_execution,
}

module _ (stringify : Event → String) (encode_metadata : String → List ℕ) where
  -- Each event has one listener.
  handle_event-publish :
      (e : Event)
      → handle_event stringify encode_metadata e ≡ publish stringify encode_metadata e ∷ []
  unfolding handle_event event_name all_events
  handle_event-publish e = by_type e.type refl
    where
      by_type :
          (t : EventType)
          → e.type ≡ t
          → handle_event stringify encode_metadata e ≡ publish stringify encode_metadata e ∷ []
      by_type workflow_started h = rw (handle_event, h) refl
      by_type workflow_completed h = rw (handle_event, h) refl
      by_type workflow_failed h = rw (handle_event, h) refl
      by_type node_started h = rw (handle_event, h) refl
      by_type node_completed h = rw (handle_event, h) refl
      by_type node_failed h = rw (handle_event, h) refl
      by_type (reported node_log) h = rw (handle_event, h) refl
      by_type (reported node_result) h = rw (handle_event, h) refl
      by_type (reported tool_started) h = rw (handle_event, h) refl
      by_type (reported tool_completed) h = rw (handle_event, h) refl
      by_type (reported tool_failed) h = rw (handle_event, h) refl
      by_type (reported agent_notification) h = rw (handle_event, h) refl

  handle_events-map :
      (es : List Event)
      → handle_events stringify encode_metadata es ≡ map (publish stringify encode_metadata) es
  unfolding handle_events
  handle_events-map [] = refl
  handle_events-map (e ∷ es) = rw (handle_event-publish e, handle_events-map es) refl

  -- The handler of the queue's messages ends for every workflow message and rejects no promise. If the
  -- context service throws at the start, it writes nothing to the stream. Else the execution ends, and the
  -- handler writes each event that it has emitted once, in order: one WORKFLOW_STARTED, then events about
  -- nodes, then one with the outcome of executeWorkflow: WORKFLOW_COMPLETED with its result or
  -- WORKFLOW_FAILED with its error, where all nodes of a round end before its outcome is looked at.
  pub handle_workflow_execution-IsEnveloped :
      (run_node : NodeRunner) (svc : ContextService) (m : WorkflowMessage) (store : svc.Store)
      → let options = options_of stringify encode_metadata m in
        let (made, store') = svc.initialize store m.workflow_id m.definition options in
        let handled = handle_workflow_execution stringify encode_metadata run_node svc m store in
        ((e : Error) × (made ≡ error e) × (handled ≡ some []))
        ⊎ ((context : ExecutionContext) × (outcome : Outcome) × (before r : Run svc.Store) × (made
              ≡ ok context)
            × (execute_workflow run_node svc m.definition (begun run_node svc context store')
                ≡ some (outcome, before))
            × (execute run_node svc m.workflow_id m.definition options store ≡ some (ok r))
            × (handled ≡ some (map (publish stringify encode_metadata) r.events))
            × IsEnveloped outcome r.events)
  unfolding handle_workflow_execution
  handle_workflow_execution-IsEnveloped run_node svc m store =
      elim (execute-IsEnveloped run_node svc m.workflow_id m.definition
        (options_of stringify encode_metadata m) store) [
          | inl (e, m', h) ↦ inl (e, m', rw (handle_workflow_execution, h) refl)
          | inr (context, outcome, before, r, m', w, h, k) ↦ inr (
            context,
            outcome,
            before,
            r,
            m',
            w,
            h,
            rw (handle_workflow_execution, h) (ap some (handle_events-map r.events)),
            k,
          )
        ]

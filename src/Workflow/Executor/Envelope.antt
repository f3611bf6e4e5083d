-- ===== src/Workflow/Executor/Envelope.antt =====
-- The events of one execution.
use supallm.Common.{
  suc, String, true, Option, none, some, List, [], ◌∷◌, ◌++◌, Dict, get, Result, ok, error, ◌≡◌,
  refl, sym, ap, arith, Option-cases, Result-cases, inl, inr, ◌⊎◌, All, All-append, length, ◌∙◌,
}
use mathlib.Core.List.{append_assoc, append-nil}
use supallm.Values.{Fields}
use supallm.Nodes.{NodeType, NodeEvent, NodeRunner, Error, Ending, returned, rejected}
use supallm.Context.{ExecutionContext, WorkflowDefinition, ExecutionOptions, resolve_inputs}
use supallm.Context.Service.{ContextService}
use supallm.Workflow.Graph.{build_dependency_graph}
use supallm.Workflow.Events.{
  EventType, workflow_started, workflow_completed, workflow_failed, node_started, node_completed,
  node_failed, reported, Payload, inputs, final, workflow_failure, Event, is_node_event, make_event,
}
use supallm.Workflow.Executor.{
  Run, Job, Started, missing, failed, started, NodeResult, Outcome, emit, emit_for, relay,
  start_node, start_nodes, sync, update_node, mark_node_completed, settle, mark_all, mark_unless,
  close_round, failures,
}
use supallm.Workflow.Executor.Execution.{
  finish_with, finish_node, finish_started, finish_all, execute_ready_nodes, round,
  execute_workflow, conclude, execute,
}
use supallm.Workflow.Executor.Loop.{LoopRule, rounds_rule}
use supallm.Workflow.Executor.Termination.{execute_workflow_total}

abbrev pub IsNodeEvent : Event → Type 0
IsNodeEvent e = is_node_event e.type ≡ true

-- What has been emitted in between is all about nodes.
record Grows (before after : List Event) : Type 0 where
  added : List Event
  split : after ≡ before ++ added
  about_nodes : All IsNodeEvent added

Grows-refl : (xs : List Event) → Grows xs xs
Grows-refl xs = record { added = []; split = sym (append-nil xs); about_nodes = tt }

Grows-trans : {xs ys zs : List Event} → Grows xs ys → Grows ys zs → Grows xs zs
Grows-trans {xs} g h = record {
  added = g.added ++ h.added;
  split = h.split ∙ ap (λ l. l ++ h.added) g.split ∙ append_assoc xs g.added h.added;
  about_nodes = All-append IsNodeEvent g.added h.added g.about_nodes h.about_nodes;
}

module _ {S : Type 0} where
  emit-Grows :
      (type : EventType) (id : Option String) (node_type : Option NodeType) (payload : Payload)
      (r : Run S)
      → is_node_event type ≡ true
      → Grows r.events (emit type id node_type payload r).events
  unfolding emit make_event
  emit-Grows type id node_type payload r h = record {
    added = make_event type r.context id node_type payload ∷ [];
    split = refl;
    about_nodes = (h, tt);
  }

  relay-Grows :
      (job : Job) (es : List NodeEvent) (r : Run S) → Grows r.events (relay job es r).events
  unfolding relay is_node_event
  relay-Grows job [] r = Grows-refl r.events
  relay-Grows job (e ∷ es) r =
      Grows-trans (emit-Grows (reported e.type) _ _ _ r refl) (relay-Grows job es _)

  start_node-Grows :
      (definition : WorkflowDefinition) (id : String) (r : Run S)
      → Grows r.events (start_node definition id r).1.events
  unfolding start_node emit_for is_node_event
  start_node-Grows definition id r = elim (Option-cases (get id definition.nodes)) [
    | inl e ↦ rw (e, start_node) (Grows-refl r.events)
    | inr (node, e) ↦ elim (Result-cases (resolve_inputs r.context id node)) [
      | inl (fs, f) ↦
          let job : Job = record { node_id = id; definition = node; inputs = fs } in
          rw (e, f, start_node)
            (emit-Grows node_started (some id) (some node.type) (inputs fs) r refl)
      | inr (x, f) ↦ rw (e, f, start_node) (Grows-refl r.events)
    ]
  ]

  start_nodes-Grows :
      (definition : WorkflowDefinition) (ids : List String) (r : Run S)
      → Grows r.events (start_nodes definition ids r).1.events
  unfolding start_nodes
  start_nodes-Grows definition [] r = Grows-refl r.events
  start_nodes-Grows definition (id ∷ ids) r =
      Grows-trans (start_node-Grows definition id r)
        (start_nodes-Grows definition ids (start_node definition id r).1)

module _ (svc : ContextService) where
  sync-events : (r : Run svc.Store) → (sync svc r).1.events ≡ r.events
  unfolding sync
  sync-events r = ground arith

  settle-Grows :
      (job : Job) (result : Result Fields Error) (r : Run svc.Store)
      → Grows r.events (settle svc job result r).1.events
  unfolding settle update_node emit_for is_node_event
  settle-Grows job (ok output) r = rw sync-events (emit-Grows node_completed _ _ _ r refl)
  settle-Grows job (error e) r = rw sync-events (emit-Grows node_failed _ _ _ r refl)

  mark_node_completed-events :
      (id : String) (r : Run svc.Store) → (mark_node_completed svc id r).1.events ≡ r.events
  unfolding mark_node_completed
  mark_node_completed-events id r = sync-events _

  mark_all-events :
      (ns : List NodeResult) (r : Run svc.Store) → (mark_all svc ns r).1.events ≡ r.events
  unfolding mark_all
  mark_all-events [] r = refl
  mark_all-events (n ∷ ns) r =
      let r' = (mark_node_completed svc n.node_id r).1 in
      let e = mark_node_completed-events n.node_id r in
      elim (mark_node_completed svc n.node_id r).0
        as (λ w.
          let after : Result (Unit {0}) Error × Run svc.Store = elim w [
            | error x ↦ (error x, r')
            | ok _ ↦ mark_all svc ns r'
          ] in
          after.1.events ≡ r.events) [ ok _ ↦ mark_all-events ns r' ∙ e | error x ↦ e ]

  mark_unless-events :
      (fs : List (String × Option Error)) (ns : List NodeResult) (r : Run svc.Store)
      → (mark_unless svc fs ns r).1.events ≡ r.events
  unfolding mark_unless
  mark_unless-events [] ns r = mark_all-events ns r
  mark_unless-events (f ∷ fs) ns r = refl

  close_round-events :
      (results : Result (List NodeResult) Error) (r : Run svc.Store)
      → (close_round svc results r).1.events ≡ r.events
  unfolding close_round
  close_round-events (error e) r = refl
  close_round-events (ok ns) r = mark_unless-events (failures ns) ns r

module _ (run_node : NodeRunner) (svc : ContextService) where
  finish_with-Grows :
      (job : Job) (ending : Ending) (r : Run svc.Store)
      → Grows r.events (finish_with run_node svc job ending r).1.events
  unfolding finish_with
  finish_with-Grows job (rejected e) r = Grows-refl r.events
  finish_with-Grows job (returned result) r = settle-Grows svc job result r

  finish_started-Grows :
      (s : Started) (r : Run svc.Store) → Grows r.events (finish_started run_node svc s r).1.events
  unfolding finish_started finish_node
  finish_started-Grows (missing id) r = Grows-refl r.events
  finish_started-Grows (failed e) r = Grows-refl r.events
  finish_started-Grows (started job) r =
      let run = run_node job.node_id job.definition job.inputs in
      Grows-trans (relay-Grows job run.reported r)
        (finish_with-Grows job run.ending (relay job run.reported r))

  finish_all-Grows :
      (ss : List Started) (r : Run svc.Store)
      → Grows r.events (finish_all run_node svc ss r).1.events
  unfolding finish_all
  finish_all-Grows [] r = Grows-refl r.events
  finish_all-Grows (s ∷ ss) r =
      Grows-trans (finish_started-Grows s r)
        (finish_all-Grows ss (finish_started run_node svc s r).1)

  round-Grows :
      (definition : WorkflowDefinition) (ready : List String) (r : Run svc.Store)
      → Grows r.events (round run_node svc definition ready r).1.events
  unfolding round execute_ready_nodes
  round-Grows definition ready r =
      let ss = (start_nodes definition ready r).0 in
      let r1 = (start_nodes definition ready r).1 in
      let r2 = (finish_all run_node svc ss r1).1 in
      rw (close_round-events svc (finish_all run_node svc ss r1).0 r2)
        (Grows-trans (start_nodes-Grows definition ready r) (finish_all-Grows ss r1))

  rounds-Grows :
      (deps : Dict (List String)) (definition : WorkflowDefinition) (before : List Event)
      → LoopRule run_node svc deps definition
          (λ r. Grows before r.events)
          (λ outcome r. Grows before r.events)
  rounds-Grows deps definition before = record {
    finished = λ r g e. g;
    stuck = λ r g e n. g;
    failed = λ r ready x g same bad. Grows-trans g (round-Grows definition ready r);
    kept = λ r ready g some_ready same good. Grows-trans g (round-Grows definition ready r);
  }

-- One start, then events about nodes only, then one end, which tells a result from a failure.
pub record IsEnveloped (outcome : Outcome) (es : List Event) : Type 0 where
  pub first : Event
  pub between : List Event
  pub last : Event
  pub split : es ≡ first ∷ between ++ last ∷ []
  pub starts : first.type ≡ workflow_started
  pub about_nodes : All IsNodeEvent between
  pub ends : last.type ≡ elim outcome [ ok _ ↦ workflow_completed | error _ ↦ workflow_failed ]
  pub tells :
      last.payload ≡ elim outcome [ ok output ↦ final output | error e ↦ workflow_failure e ]

module _ (run_node : NodeRunner) (svc : ContextService) where
  abbrev pub begun : ExecutionContext → svc.Store → Run svc.Store
  begun context store =
      emit workflow_started none none (inputs context.workflow_inputs)
        (record { context = context; store = store; events = [] })

  execute_workflow-Grows :
      (definition : WorkflowDefinition) (r : Run svc.Store) (outcome : Outcome) (r' : Run svc.Store)
      → execute_workflow run_node svc definition r ≡ some (outcome, r')
      → Grows r.events r'.events
  unfolding execute_workflow
  execute_workflow-Grows definition r outcome r' =
      let deps = build_dependency_graph definition.nodes in
      rounds_rule run_node svc deps definition (λ s. Grows r.events s.events)
        (λ o s. Grows r.events s.events) (rounds-Grows run_node svc deps definition r.events)
        (suc (length r.context.all_nodes)) r outcome r' (Grows-refl r.events)

  conclude-IsEnveloped :
      (context : ExecutionContext) (store : svc.Store) (outcome : Outcome) (r : Run svc.Store)
      → Grows (begun context store).events r.events
      → IsEnveloped outcome (conclude run_node svc outcome r).events
  unfolding conclude emit make_event
  conclude-IsEnveloped context store (ok output) r g = record {
    first = make_event workflow_started context none none (inputs context.workflow_inputs);
    between = g.added;
    last = make_event workflow_completed r.context none none (final output);
    split =
        ap (λ l. l ++ make_event workflow_completed r.context none none (final output) ∷ [])
          g.split;
    starts = refl;
    about_nodes = g.about_nodes;
    ends = refl;
    tells = refl;
  }
  conclude-IsEnveloped context store (error e) r g = record {
    first = make_event workflow_started context none none (inputs context.workflow_inputs);
    between = g.added;
    last = make_event workflow_failed r.context none none (workflow_failure e);
    split =
        ap (λ l. l ++ make_event workflow_failed r.context none none (workflow_failure e) ∷ [])
          g.split;
    starts = refl;
    about_nodes = g.about_nodes;
    ends = refl;
    tells = refl;
  }

-- `execute` ends for every workflow. If the context service throws at the start, it throws this error. Else
-- it goes on as executeWorkflow does, which ends, and has emitted one WORKFLOW_STARTED, then events about
-- nodes only, then one event with the outcome of executeWorkflow: WORKFLOW_COMPLETED with its result, or
-- WORKFLOW_FAILED with its error, where all nodes of a round end before its outcome is looked at.
pub execute-IsEnveloped :
    (run_node : NodeRunner) (svc : ContextService) (workflow_id : String)
    (definition : WorkflowDefinition) (options : ExecutionOptions) (store : svc.Store)
    → let (made, store') = svc.initialize store workflow_id definition options in
      let executed = execute run_node svc workflow_id definition options store in
      ((e : Error) × (made ≡ error e) × (executed ≡ some (error e)))
      ⊎ ((context : ExecutionContext) × (outcome : Outcome) × (before r : Run svc.Store) × (made
            ≡ ok context)
          × (execute_workflow run_node svc definition (begun run_node svc context store')
              ≡ some (outcome, before))
          × (executed ≡ some (ok r))
          × IsEnveloped outcome r.events)
unfolding execute
execute-IsEnveloped run_node svc workflow_id definition options store =
    elim (Result-cases (svc.initialize store workflow_id definition options).0) [
      | inr (e, h) ↦ inl (e, h, rw (h, execute))
      | inl (context, h) ↦
          let store' = (svc.initialize store workflow_id definition options).1 in
          let (end, done) =
            execute_workflow_total run_node svc definition (begun run_node svc context store') in
          inr (
            context,
            end.0,
            end.1,
            conclude run_node svc end.0 end.1,
            h,
            done,
            rw (h, done, execute),
            conclude-IsEnveloped run_node svc context store' end.0 end.1 (
                execute_workflow-Grows run_node svc definition (begun run_node svc context store')
                  end.0 end.1 done),
          )
    ]

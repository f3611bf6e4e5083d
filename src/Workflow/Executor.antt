-- ===== src/Workflow/Executor.antt =====
-- `WorkflowExecutor` of runner/src/services/workflow/workflow.executor.ts. The node implementations and
-- the context service are parameters. What the executor changes is a `Run`: the context in memory,
-- the context service's store, and the events emitted so far.
pub mod Execution
mod Frame
mod Success
mod Marking
mod Loop
mod Rounds
pub mod Termination
pub mod Outcomes
pub mod Cycles
pub mod Inputs
pub mod Envelope
mod Tests
pub mod Invariant
use supallm.Common.{
  ℕ, zero, suc, String, Bool, true, false, Option, none, some, List, [], ◌∷◌, ◌++◌, Dict, get, has,
  not, if◌then◌else◌, ltb, length, filter, Result, ok, error, map,
}
use supallm.Values.{Fields, end, set_field}
use supallm.Nodes.{
  NodeType, NodeDefinition, Error, definition_not_found, NodeEvent, NodeRun, NodeRunner, Ending,
  returned, rejected,
}
use supallm.Context.{
  NodeExecution, ExecutionContext, WorkflowDefinition, ExecutionOptions, output_value,
  find_ready_nodes, remaining_nodes, resolve_inputs, result_nodes, result_execution, put_node,
  put_completed,
}
use supallm.Context.Service.{ContextService}
use supallm.Workflow.Events.{
  EventType, workflow_started, workflow_completed, workflow_failed, node_started, node_completed,
  node_failed, reported, Blocked, WorkflowError, thrown, circular, nodes_failed, Payload, inputs,
  inputs_output, failure, final, workflow_failure, report, Event, make_event,
}
use supallm.Workflow.Graph.{build_dependency_graph}

pub record Run (S : Type 0) : Type 0 where
  pub context : ExecutionContext
  pub store : S
  pub events : List Event

-- A node that was started, with the inputs that it got.
pub record Job : Type 0 where
  pub node_id : String
  pub definition : NodeDefinition
  pub inputs : Fields

-- What the synchronous part of a node's callback leaves: no definition, a throw, or a job.
pub data Started : Type 0 where
  missing : String → Started
  failed : Error → Started
  started : Job → Started

pub record NodeResult : Type 0 where
  pub node_id : String
  pub success : Bool
  pub error_value : Option Error

abbrev pub Outcome : Type 0
Outcome = Result (Option Fields) WorkflowError

unfoldable pub blocked_nodes : ExecutionContext → Dict (List String) → List Blocked
unfolding remaining_nodes
blocked_nodes context dependencies =
    map
      (λ id. record {
        node_id = id;
        missing_deps = elim (get id dependencies) [
          | none ↦ []
          | some deps ↦ filter (λ dep. not (has dep context.completed_nodes)) deps
        ];
      })
      (remaining_nodes context)

unfoldable pub outputs_by_id : List NodeExecution → Fields → Fields
outputs_by_id [] result = result
outputs_by_id (e ∷ es) result = outputs_by_id es (set_field e.id (output_value e) result)

unfoldable pub extract_final_output :
    WorkflowDefinition → ExecutionContext → Result (Option Fields) Error
unfolding result_nodes result_execution outputs_by_id
extract_final_output definition context = elim (result_nodes context definition.nodes) [
  | error e ↦ error e
  | ok [] ↦ ok (some end)
  | ok (e ∷ []) ↦ elim (result_execution context) [ error e' ↦ error e' | ok r ↦ ok r.output ]
  | ok (e ∷ e' ∷ es) ↦ ok (some (outputs_by_id (e ∷ e' ∷ es) end))
]

-- `results.filter((r) => !r.success)`, with what the message shows of each
unfoldable pub failures : List NodeResult → List (String × Option Error)
failures [] = []
failures (r ∷ rs) =
    let rest = failures rs in if r.success then rest else (r.node_id, r.error_value) ∷ rest

-- Whether another round is due, and the error that stops the execution when no node is ready.
unfoldable pub is_unfinished : ExecutionContext → Bool
is_unfinished context = ltb (length context.completed_nodes) (length context.all_nodes)

module _ {S : Type 0} where
  unfoldable pub emit : EventType → Option String → Option NodeType → Payload → Run S → Run S
  emit type node_id node_type payload r = record r {
    events = r.events ++ make_event type r.context node_id node_type payload ∷ [];
  }

  unfoldable pub emit_for : EventType → Job → Payload → Run S → Run S
  unfolding emit
  emit_for type job = emit type (some job.node_id) (some job.definition.type)

  -- `onEvent`: the event's own node id, or else the node's
  unfoldable pub relay : Job → List NodeEvent → Run S → Run S
  unfolding emit
  relay job [] r = r
  relay job (e ∷ es) r = relay job es (
      emit (reported e.type) (elim e.node_id [ none ↦ some job.node_id | some id ↦ some id ])
        (some job.definition.type) (report e.payload) r)

  -- The part of a node's callback that runs before its first `await`.
  unfoldable pub start_node : WorkflowDefinition → String → Run S → Started × Run S
  unfolding emit_for
  start_node definition id r = elim (get id definition.nodes) [
    | none ↦ (missing id, r)
    | some node ↦ elim (resolve_inputs r.context id node) [
      | error e ↦ (failed e, r)
      | ok given ↦
          let job : Job = record { node_id = id; definition = node; inputs = given } in
          (started job, emit_for node_started job (inputs given) r)
    ]
  ]

  unfoldable pub start_nodes : WorkflowDefinition → List String → Run S → List Started × Run S
  unfolding start_node
  start_nodes definition [] r = ([], r)
  start_nodes definition (id ∷ ids) r =
      let (s, r') = start_node definition id r in
      let (ss, r'') = start_nodes definition ids r' in (s ∷ ss, r'')

unfoldable pub execution_of : Job → Result Fields Error → NodeExecution
execution_of job (ok output) = record {
  id = job.node_id;
  success = true;
  inputs = some job.inputs;
  output = some output;
  error_message = none;
  execution_time = 0;
}
execution_of job (error e) = record {
  id = job.node_id;
  success = false;
  inputs = some job.inputs;
  output = none;
  error_message = some e;
  execution_time = 0;
}

unfoldable pub result_of : Job → Result Fields Error → NodeResult
result_of job (ok output) = record { node_id = job.node_id; success = true; error_value = none }
result_of job (error e) = record { node_id = job.node_id; success = false; error_value = some e }

-- `Promise.all`: the first rejection in order, or the results in order.
abbrev pub gather :
    Result NodeResult Error → Result (List NodeResult) Error → Result (List NodeResult) Error
gather (error e) others = error e
gather (ok n) (error e) = error e
gather (ok n) (ok ns) = ok (n ∷ ns)

module _ (svc : ContextService) where
  open svc use {Store, update_context}

  -- `sync`
  unfoldable pub sync : Run Store → Result (Unit {0}) Error × Run Store
  sync r = elim (update_context r.store r.context.workflow_id r.context.trigger_id r.context) [
    | error e ↦ (error e, r)
    | ok s ↦ (ok tt, record r { store = s })
  ]

  unfoldable pub update_node :
      String → NodeExecution → Run Store → Result (Unit {0}) Error × Run Store
  unfolding sync put_node
  update_node id execution r = sync (record r { context = put_node r.context id execution })

  unfoldable pub mark_node_completed : String → Run Store → Result (Unit {0}) Error × Run Store
  unfolding sync put_completed
  mark_node_completed id r = sync (record r { context = put_completed r.context id })

  -- What follows the node's own work, once that has returned: the event and `updateNode`.
  unfoldable pub settle :
      Job → Result Fields Error → Run Store → Result NodeResult Error × Run Store
  unfolding emit_for update_node execution_of result_of
  settle job result r =
      let announced : Run Store = elim result [
        | ok output ↦ emit_for node_completed job (inputs_output job.inputs output) r
        | error e ↦ emit_for node_failed job (failure e) r
      ] in
      let (written, r') = update_node job.node_id (execution_of job result) announced in
      (elim written [ error e ↦ error e | ok _ ↦ ok (result_of job result) ], r')

  unfoldable pub mark_all : List NodeResult → Run Store → Result (Unit {0}) Error × Run Store
  unfolding mark_node_completed
  mark_all [] r = (ok tt, r)
  mark_all (n ∷ ns) r =
      let (written, r') = mark_node_completed n.node_id r in
      elim written [ error e ↦ (error e, r') | ok _ ↦ mark_all ns r' ]

  -- What a round does with the results of its nodes: it stops at failures, or marks the nodes.
  unfoldable pub mark_unless :
      List (String × Option Error)
      → List NodeResult
      → Run Store
      → Result (Unit {0}) WorkflowError × Run Store
  unfolding mark_all
  mark_unless [] ns r =
      let (written, r') = mark_all ns r in
      (elim written [ error e ↦ error (thrown e) | ok _ ↦ ok tt ], r')
  mark_unless (f ∷ fs) ns r = (error (nodes_failed (f ∷ fs)), r)

  unfoldable pub close_round :
      Result (List NodeResult) Error → Run Store → Result (Unit {0}) WorkflowError × Run Store
  unfolding mark_unless failures
  close_round (error e) r = (error (thrown e), r)
  close_round (ok ns) r = mark_unless (failures ns) ns r

-- ===== src/Workflow/Executor/Execution.antt =====
-- `executeReadyNodes`, `executeWorkflow` and `execute` of runner/src/services/workflow/workflow.executor.ts.
use supallm.Common.{
  ℕ, zero, suc, String, true, false, Option, none, some, List, [], ◌∷◌, Dict, length, Result, ok,
  error,
}
use supallm.Nodes.{Error, definition_not_found, NodeRun, NodeRunner, Ending, returned, rejected}
use supallm.Context.{WorkflowDefinition, ExecutionOptions, find_ready_nodes}
use supallm.Context.Service.{ContextService}
use supallm.Workflow.Events.{
  workflow_started, workflow_completed, workflow_failed, WorkflowError, thrown, circular, inputs,
  final, workflow_failure,
}
use supallm.Workflow.Graph.{build_dependency_graph}
use supallm.Workflow.Executor.{
  Run, Job, Started, missing, failed, started, NodeResult, Outcome, blocked_nodes,
  extract_final_output, is_unfinished, emit, relay, start_nodes, gather, settle, close_round,
}

module _ (run_node : NodeRunner) (svc : ContextService) where
  open svc use {Store, initialize}

  -- The rest of a started node's callback, after the node's own work has ended.
  unfoldable pub finish_with : Job → Ending → Run Store → Result NodeResult Error × Run Store
  unfolding settle
  finish_with job (rejected e) r = (error e, r)
  finish_with job (returned result) r = settle svc job result r

  -- The node's work, whose events are relayed, and the rest of the callback.
  unfoldable pub finish_node : Job → Run Store → Result NodeResult Error × Run Store
  unfolding relay finish_with
  finish_node job r =
      let run : NodeRun = run_node job.node_id job.definition job.inputs in
      finish_with job run.ending (relay job run.reported r)

  -- A rejection stops no other node of the round.
  unfoldable pub finish_started : Started → Run Store → Result NodeResult Error × Run Store
  unfolding finish_node
  finish_started (missing id) r = (
    ok (record { node_id = id; success = false; error_value = some (definition_not_found id) }),
    r,
  )
  finish_started (failed e) r = (error e, r)
  finish_started (started job) r = finish_node job r

  unfoldable pub finish_all : List Started → Run Store → Result (List NodeResult) Error × Run Store
  unfolding finish_started
  finish_all [] r = (ok [], r)
  finish_all (s ∷ ss) r =
      let (first, r') = finish_started s r in
      let (others, r'') = finish_all ss r' in (gather first others, r'')

  unfoldable pub execute_ready_nodes :
      WorkflowDefinition → List String → Run Store → Result (List NodeResult) Error × Run Store
  unfolding start_nodes finish_all
  execute_ready_nodes definition ready r =
      let (ss, r') = start_nodes definition ready r in finish_all ss r'

  -- The body of the `while` loop, for ready nodes.
  unfoldable pub round :
      WorkflowDefinition → List String → Run Store → Result (Unit {0}) WorkflowError × Run Store
  unfolding execute_ready_nodes close_round
  round definition ready r =
      let (results, r') = execute_ready_nodes definition ready r in close_round svc results r'

  unfoldable pub final_output : WorkflowDefinition → Run Store → Outcome
  unfolding extract_final_output
  final_output definition r = elim (extract_final_output definition r.context) [
    | error e ↦ error (thrown e)
    | ok output ↦ ok output
  ]

  -- The `while` loop. `none`: the fuel ran out.
  unfoldable pub rounds :
      ℕ → Dict (List String) → WorkflowDefinition → Run Store → Option (Outcome × Run Store)
  unfolding round final_output is_unfinished blocked_nodes find_ready_nodes
  rounds zero dependencies definition r = none
  rounds (suc fuel) dependencies definition r = elim (is_unfinished r.context) [
    | false ↦ some (final_output definition r, r)
    | true ↦ elim (find_ready_nodes r.context dependencies) [
      | [] ↦ some (error (circular (blocked_nodes r.context dependencies)), r)
      | id ∷ ids ↦
          let (written, r') = round definition (id ∷ ids) r in
          elim written [
            | error e ↦ some (error e, r')
            | ok _ ↦ rounds fuel dependencies definition r'
          ]
    ]
  ]

  -- One round more than there are nodes.
  unfoldable pub execute_workflow : WorkflowDefinition → Run Store → Option (Outcome × Run Store)
  unfolding rounds build_dependency_graph
  execute_workflow definition r =
      rounds (suc (length r.context.all_nodes)) (build_dependency_graph definition.nodes) definition
        r

  unfoldable pub conclude : Outcome → Run Store → Run Store
  unfolding emit
  conclude (ok output) r = emit workflow_completed none none (final output) r
  conclude (error e) r = emit workflow_failed none none (workflow_failure e) r

  -- `execute`: the run at its end. An error of `initialize` is thrown before anything is emitted.
  unfoldable pub execute :
      String → WorkflowDefinition → ExecutionOptions → Store → Option (Result (Run Store) Error)
  unfolding execute_workflow conclude
  execute workflow_id definition options store =
      let (made, store') = initialize store workflow_id definition options in
      elim made [
        | error e ↦ some (error e)
        | ok context ↦
            let begun : Run Store =
              emit workflow_started none none (inputs context.workflow_inputs)
                (record { context = context; store = store'; events = [] }) in
            elim (execute_workflow definition begun) [
              | none ↦ none
              | some (outcome, r) ↦ some (ok (conclude outcome r))
            ]
      ]

-- ===== src/Workflow/Executor/Termination.antt =====
-- The loop of `executeWorkflow` ends.
use supallm.Common.{
  ℕ, suc, ◌<◌, String, true, some, List, [], Dict, ok, ◌≡◌, ◌≢◌, arith, List-cases, inl, inr,
  length, has, not, has-filter, length-filter-le, eq_refl,
}
use supallm.Nodes.{NodeRunner}
use supallm.Context.{
  ExecutionContext, WorkflowDefinition, find_ready_nodes, remaining_nodes, is_ready,
}
use supallm.Context.Service.{ContextService}
use supallm.Workflow.Graph.{build_dependency_graph}
use supallm.Workflow.Executor.{Run, Outcome}
use supallm.Workflow.Executor.Execution.{round, execute_workflow}
use supallm.Workflow.Executor.Loop.{rounds_total}
use supallm.Workflow.Executor.Marking.{length-filter-lt_of}
use supallm.Workflow.Executor.Rounds.{round-IsGood, round-has, round-all_nodes}

abbrev left : ExecutionContext → ℕ
left c = length (remaining_nodes c)

module _ (run_node : NodeRunner) (svc : ContextService) (deps : Dict (List String))
    (definition : WorkflowDefinition) where
  -- A round that succeeds leaves fewer nodes to run.
  round_falls :
      (r : Run svc.Store) (ready : List String)
      → ready ≢ []
      → find_ready_nodes r.context deps ≡ ready
      → (round run_node svc definition ready r).0 ≡ ok tt
      → left (round run_node svc definition ready r).1.context < left r.context
  unfolding remaining_nodes find_ready_nodes has
  round_falls r ready some_ready same good = elim (List-cases ready) [
    | inl e ↦ absurd (some_ready e)
    | inr (id, ids, e) ↦
        let g = round-IsGood run_node svc definition ready r good in
        let here : has id ready ≡ true = rw e (ground (arith, eq_refl id)) in
        let chosen =
          has-filter (is_ready r.context deps) id (remaining_nodes r.context) (rw same here) in
        let (known, fresh) =
          has-filter (λ x. not (has x r.context.completed_nodes)) id r.context.all_nodes chosen.0 in
        let now = round-has run_node svc definition ready r g in
        rw (round-all_nodes run_node svc definition ready r) (
          length-filter-lt_of (λ x. not (has x r.context.completed_nodes))
            (λ x. not (has x (round run_node svc definition ready r).1.context.completed_nodes)) id
            r.context.all_nodes (λ x h. ground (arith, now x)) known fresh
            (ground (arith, now id, here)))
  ]

-- Whatever the nodes and the store do, and also where the context was taken over from an earlier run,
-- the loop ends: the fuel of one round more than there are nodes is never used up.
pub execute_workflow_total :
    (run_node : NodeRunner) (svc : ContextService) (definition : WorkflowDefinition)
    (r : Run svc.Store)
    → (end : Outcome × Run svc.Store) × (execute_workflow run_node svc definition r ≡ some end)
unfolding execute_workflow remaining_nodes
execute_workflow_total run_node svc definition r =
    let deps = build_dependency_graph definition.nodes in
    rounds_total run_node svc deps definition left (round_falls run_node svc deps definition)
      (suc (length r.context.all_nodes)) r
      (omega (
        arith,
        length-filter-le (λ id. not (has id r.context.completed_nodes)) r.context.all_nodes,
      ))

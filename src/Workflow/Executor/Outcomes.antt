-- ===== src/Workflow/Executor/Outcomes.antt =====
-- What the outcome of `executeWorkflow` says of the nodes.
use supallm.Common.{
  suc, String, true, false, Bool, Option, some, List, [], ◌∷◌, Dict, get, Result, ok, error, ◌≡◌,
  ◌≢◌, refl, arith, Bool-cases, Option-cases, inl, inr, length, every, has, not, eq_refl,
  has-filter_of, filter-eq-nil_of, ◌∙◌, ap,
}
use supallm.Values.{Fields}
use supallm.Nodes.{NodeRunner, Error}
use supallm.Context.{
  ExecutionContext, WorkflowDefinition, find_ready_nodes, remaining_nodes, is_ready,
}
use supallm.Context.Service.{ContextService}
use supallm.Workflow.Events.{circular, Blocked}
use supallm.Workflow.Graph.{build_dependency_graph}
use supallm.Workflow.Executor.{
  Run, NodeResult, mark_unless, close_round, failures, Outcome, is_unfinished, blocked_nodes,
}
use supallm.Workflow.Executor.Execution.{execute_ready_nodes, execute_workflow, round, final_output}
use supallm.Workflow.Executor.Invariant.{IsValid, round-IsValid}
use supallm.Workflow.Executor.Loop.{LoopRule, rounds_rule}

nil_of_length : {A : Type 0} (xs : List A) → length xs ≡ 0 → xs ≡ []
nil_of_length [] h = refl
nil_of_length (x ∷ xs) h = absurd (omega arith)

-- Every node of the workflow is completed.
abbrev pub AllCompleted : ExecutionContext → Type 0
AllCompleted c = (id : String) → has id c.all_nodes ≡ true → has id c.completed_nodes ≡ true

module _ (deps : Dict (List String)) where
  -- The loop's test on the sizes of the two sets tells whether all nodes are completed.
  pub finished-AllCompleted :
      (c : ExecutionContext) → IsValid deps c → is_unfinished c ≡ false → AllCompleted c
  unfolding is_unfinished remaining_nodes has
  finished-AllCompleted c v h id known =
      let none_left : remaining_nodes c ≡ [] =
        nil_of_length (remaining_nodes c) (ground (arith, v.counted)) in
      elim (Bool-cases (has id c.completed_nodes)) [
        | inl e ↦ e
        | inr e ↦
            let remains : has id (remaining_nodes c) ≡ true =
              has-filter_of (λ x. not (has x c.completed_nodes)) id c.all_nodes known
                (ground arith) in
            cc (ap (has id) none_left)
      ]

  pub unfinished-ne-AllCompleted :
      (c : ExecutionContext) → IsValid deps c → is_unfinished c ≡ true → ¬ AllCompleted c
  unfolding is_unfinished remaining_nodes
  unfinished-ne-AllCompleted c v h all =
      let none_left : remaining_nodes c ≡ [] =
        filter-eq-nil_of (λ x. not (has x c.completed_nodes)) c.all_nodes
          (λ x k. ground (arith, all x k)) in
      ground (arith, v.counted, ap (length {0}) none_left)

  -- A list that does not pass has an element that does not.
  pub every_fails :
      (p : String → Bool) (xs : List String)
      → every p xs ≡ false
      → (x : String) × (has x xs ≡ true) × (p x ≡ false)
  unfolding has
  every_fails p [] h = absurd (cc)
  every_fails p (x ∷ xs) h = elim (Bool-cases (p x)) [
    | inr e ↦ (x, ground (arith, eq_refl x), e)
    | inl e ↦ let (y, inside, bad) = every_fails p xs (ground arith) in (y, ground arith, bad)
  ]

  -- A node that is not ready waits for one of its dependencies.
  pub unready-waits :
      (c : ExecutionContext) (id : String)
      → is_ready c deps id ≡ false
      → (ds : List String) × (get id deps ≡ some ds)
        × ((d : String) × (has d ds ≡ true) × (has d c.completed_nodes ≡ false))
  unfolding is_ready
  unready-waits c id h = elim (Option-cases (get id deps)) [
    | inl e ↦ cc (rw (e, is_ready) at h)
    | inr (ds, e) ↦ (ds, e, every_fails (λ d. has d c.completed_nodes) ds (rw (e, is_ready) at h))
  ]

  -- Where no node is ready, each node that is left waits for one that is left out too.
  pub stuck-waits :
      (c : ExecutionContext) (id : String)
      → find_ready_nodes c deps ≡ []
      → has id c.all_nodes ≡ true
      → has id c.completed_nodes ≡ false
      → is_ready c deps id ≡ false
  unfolding find_ready_nodes remaining_nodes has
  stuck-waits c id none_ready known fresh = elim (Bool-cases (is_ready c deps id)) [
    | inr e ↦ e
    | inl e ↦
        let remains : has id (remaining_nodes c) ≡ true =
          has-filter_of (λ x. not (has x c.completed_nodes)) id c.all_nodes known (ground arith) in
        let chosen : has id (find_ready_nodes c deps) ≡ true =
          has-filter_of (is_ready c deps) id (remaining_nodes c) remains e in
        cc (ap (has id) none_ready)
  ]

  module _ (run_node : NodeRunner) (svc : ContextService) (definition : WorkflowDefinition) where
    -- What a result and a report of circular dependencies say.
    pub record Tells (outcome : Outcome) (r : Run svc.Store) : Type 0 where
      pub valid : IsValid deps r.context
      pub of_ok :
          (output : Option Fields)
          → outcome ≡ ok output
          → AllCompleted r.context × (final_output run_node svc definition r ≡ ok output)
      pub of_circular :
          (bs : List Blocked)
          → outcome ≡ error (circular bs)
          → (bs ≡ blocked_nodes r.context deps)
            × (¬ AllCompleted r.context)
            × (find_ready_nodes r.context deps ≡ [])

    final_output-ne-circular :
        (r : Run svc.Store) (bs : List Blocked)
        → final_output run_node svc definition r ≢ error (circular bs)
    unfolding final_output
    final_output-ne-circular r bs = ground arith

    mark_unless-ne-circular :
        (fs : List (String × Option Error)) (ns : List NodeResult) (r : Run svc.Store)
        (bs : List Blocked)
        → (mark_unless svc fs ns r).0 ≢ error (circular bs)
    unfolding mark_unless
    mark_unless-ne-circular [] ns r bs = ground arith
    mark_unless-ne-circular (f ∷ fs) ns r bs = ground arith

    close_round-ne-circular :
        (results : Result (List NodeResult) Error) (r : Run svc.Store) (bs : List Blocked)
        → (close_round svc results r).0 ≢ error (circular bs)
    unfolding close_round
    close_round-ne-circular (error e) r bs = ground arith
    close_round-ne-circular (ok ns) r bs = mark_unless-ne-circular (failures ns) ns r bs

    round-ne-circular :
        (ready : List String) (r : Run svc.Store) (bs : List Blocked)
        → (round run_node svc definition ready r).0 ≢ error (circular bs)
    unfolding round
    round-ne-circular ready r bs =
        close_round-ne-circular (execute_ready_nodes run_node svc definition ready r).0
          (execute_ready_nodes run_node svc definition ready r).1 bs

    Tells-LoopRule : LoopRule run_node svc deps definition (λ r. IsValid deps r.context) Tells
    Tells-LoopRule = record {
      finished = λ r v e. record {
        valid = v;
        of_ok = λ output h. (finished-AllCompleted r.context v e, h);
        of_circular = λ bs h. absurd (final_output-ne-circular r bs h);
      };
      stuck = λ r v e n. record {
        valid = v;
        of_ok = λ output h. absurd (cc);
        of_circular = λ bs h. (ground arith, unfinished-ne-AllCompleted r.context v e, n);
      };
      failed = λ r ready x v same bad. record {
        valid = round-IsValid deps svc run_node definition ready r (λ id h. rw same h) v;
        of_ok = λ output h. absurd (cc);
        of_circular = λ bs h. absurd (
            let y : x ≡ circular bs = ground arith in
            round-ne-circular ready r bs (bad ∙ ap error y));
      };
      kept = λ r ready v some_ready same good.
          round-IsValid deps svc run_node definition ready r (λ id h. rw same h) v;
    }

-- From a valid context, however the execution ends: the context is valid again; with a result all
-- nodes of the workflow are completed, and the result is read off them; and circular dependencies are
-- reported, with the nodes that are left, only where some node is left and none is ready.
pub execute_workflow-Tells :
    (run_node : NodeRunner) (svc : ContextService) (definition : WorkflowDefinition)
    (r : Run svc.Store) (outcome : Outcome) (r' : Run svc.Store)
    → IsValid (build_dependency_graph definition.nodes) r.context
    → execute_workflow run_node svc definition r ≡ some (outcome, r')
    → Tells (build_dependency_graph definition.nodes) run_node svc definition outcome r'
unfolding execute_workflow
execute_workflow-Tells run_node svc definition r outcome r' =
    let deps = build_dependency_graph definition.nodes in
    rounds_rule run_node svc deps definition (λ s. IsValid deps s.context)
      (Tells deps run_node svc definition) (Tells-LoopRule deps run_node svc definition)
      (suc (length r.context.all_nodes)) r outcome r'

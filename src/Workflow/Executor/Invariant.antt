-- ===== src/Workflow/Executor/Invariant.antt =====
-- The invariant of an execution context.
use supallm.Common.{
  ◌+◌, String, true, false, Option, List, [], ◌∷◌, Dict, has, ◌==◌, length, eq_iff, has-add,
  IsUnique, ◌≡◌, refl, arith, Bool-cases, inl, inr, All, All-map, All-zip, All-of_map, All-of_has,
  Result, ok, error, ◌∙◌, map,
}
use mathlib.Core.Path.{subst}
use supallm.Nodes.{NodeRunner, Error}
use supallm.Context.{
  ExecutionContext, WorkflowDefinition, is_ready, remaining_nodes, find_ready_nodes, put_completed,
}
use supallm.Context.Service.{ContextService}
use supallm.Workflow.Executor.{
  Run, Started, NodeResult, mark_all, mark_node_completed, start_nodes, failures, mark_unless,
  close_round,
}
use supallm.Workflow.Executor.Execution.{finish_all, round, execute_ready_nodes}
use supallm.Workflow.Executor.Frame.{
  Succeeded, SameBut, IsApart, finish_all-SameBut, finish_all-Keeps, start_nodes-IsApart,
  start_nodes-context, mark_node_completed-context,
}
use supallm.Workflow.Executor.Success.{finish_all-ids, finish_all-Succeeded}
use supallm.Workflow.Executor.Loop.{LoopRule}
use supallm.Workflow.Executor.Marking.{
  length-unmarked-add, length-add, add_of_has, find_ready_nodes-facts, is_ready-put_completed,
}

module _ (deps : Dict (List String)) where
  -- The sets have no duplicates and count up; what is completed is a node of the workflow, has run
  -- with success, and came after all that it depends on.
  pub record IsValid (c : ExecutionContext) : Type 0 where
    pub unique : IsUnique c.all_nodes
    pub counted : length c.completed_nodes + length (remaining_nodes c) ≡ length c.all_nodes
    pub within : (id : String) → has id c.completed_nodes ≡ true → has id c.all_nodes ≡ true
    pub executed : (id : String) → has id c.completed_nodes ≡ true → Succeeded c id
    pub closed : (id : String) → has id c.completed_nodes ≡ true → is_ready c deps id ≡ true

  -- What makes it right to mark a node as completed.
  record IsMarkable (c : ExecutionContext) (id : String) : Type 0 where
    known : has id c.all_nodes ≡ true
    done : Succeeded c id
    ready : is_ready c deps id ≡ true

  IsMarkable-put_completed :
      (c : ExecutionContext) (id j : String) → IsMarkable c j → IsMarkable (put_completed c id) j
  unfolding put_completed
  IsMarkable-put_completed c id j m = record {
    known = m.known;
    done = m.done;
    ready = is_ready-put_completed deps c id j m.ready;
  }

  put_completed-counted :
      (c : ExecutionContext) (id : String)
      → IsValid c
      → has id c.all_nodes ≡ true
      → length (put_completed c id).completed_nodes + length (remaining_nodes (put_completed c id))
        ≡ length c.all_nodes
  unfolding put_completed remaining_nodes
  put_completed-counted c id v known = elim (Bool-cases (has id c.completed_nodes)) [
    | inl old ↦ rw (add_of_has id c.completed_nodes old) v.counted
    | inr new ↦ omega (
      arith,
      v.counted,
      length-add id c.completed_nodes new,
      length-unmarked-add id c.completed_nodes c.all_nodes v.unique known new,
    )
  ]

  put_completed-IsValid :
      (c : ExecutionContext) (id : String)
      → IsValid c
      → IsMarkable c id
      → IsValid (put_completed c id)
  unfolding put_completed
  put_completed-IsValid c id v m = record {
    unique = v.unique;
    counted = put_completed-counted c id v m.known;
    within = λ j h. elim (Bool-cases (id == j)) [
      | inl same ↦ ground (arith, eq_iff id j, m.known)
      | inr other ↦ v.within j (ground (arith, has-add id j c.completed_nodes))
    ];
    executed = λ j h. elim (Bool-cases (id == j)) [
      | inl same ↦ subst (Succeeded c) ((eq_iff id j).0 same) m.done
      | inr other ↦ v.executed j (ground (arith, has-add id j c.completed_nodes))
    ];
    closed = λ j h. is_ready-put_completed deps c id j (elim (Bool-cases (id == j)) [
      | inl same ↦ subst (λ x. is_ready c deps x ≡ true) ((eq_iff id j).0 same) m.ready
      | inr other ↦ v.closed j (ground (arith, has-add id j c.completed_nodes))
    ]);
  }

  -- The invariant reads the executions of completed nodes only.
  IsValid-of_same :
      (c d : ExecutionContext)
      → d.completed_nodes ≡ c.completed_nodes
      → d.all_nodes ≡ c.all_nodes
      → ((j : String) → has j c.completed_nodes ≡ true → Succeeded d j)
      → IsValid c
      → IsValid d
  unfolding remaining_nodes is_ready
  IsValid-of_same c d completed all done v = record {
    unique = rw all v.unique;
    counted = rw (completed, all) v.counted;
    within = λ j h. rw all (v.within j (rw completed at h));
    executed = λ j h. done j (rw completed at h);
    closed = λ j h. rw completed (v.closed j (rw completed at h));
  }

  module _ (svc : ContextService) where
    -- However far the marking of the results comes.
    mark_all-IsValid :
        (ns : List NodeResult) (r : Run svc.Store)
        → IsValid r.context
        → All (λ n. IsMarkable r.context n.node_id) ns
        → IsValid (mark_all svc ns r).1.context
    unfolding mark_all
    mark_all-IsValid [] r v m = v
    mark_all-IsValid (n ∷ ns) r v (m, ms) =
        let id = n.node_id in
        let r' = (mark_node_completed svc id r).1 in
        let e : r'.context ≡ put_completed r.context id = mark_node_completed-context svc id r in
        let v' : IsValid r'.context = rw e (put_completed-IsValid r.context id v m) in
        let ms' : All (λ n. IsMarkable r'.context n.node_id) ns =
          All-map (λ k x. rw e (IsMarkable-put_completed r.context id k.node_id x)) ns ms in
        elim (mark_node_completed svc id r).0
          as (λ w.
            let after : Result (Unit {0}) Error × Run svc.Store = elim w [
              | error e ↦ (error e, r')
              | ok _ ↦ mark_all svc ns r'
            ] in
            IsValid after.1.context) [ ok _ ↦ mark_all-IsValid ns r' v' ms' | error e ↦ v' ]

    finish_all-IsValid :
        (run_node : NodeRunner) (ss : List Started) (r : Run svc.Store)
        → IsValid r.context
        → ((j : String) → has j r.context.completed_nodes ≡ true → All (IsApart j) ss)
        → IsValid (finish_all run_node svc ss r).1.context
    finish_all-IsValid run_node ss r v apart =
        let (completed, all, _, _) = finish_all-SameBut run_node svc ss r in
        IsValid-of_same r.context (finish_all run_node svc ss r).1.context completed all
          (λ j h.
            let (x, found, good) = v.executed j h in
            (x, finish_all-Keeps run_node svc j ss r (apart j h) ∙ found, good))
          v

    -- Every listed node is one that a round may start.
    abbrev pub AreReady : ExecutionContext → List String → Type 0
    AreReady c ids = (id : String) → has id ids ≡ true → has id (find_ready_nodes c deps) ≡ true

    mark_unless-IsValid :
        (fs : List (String × Option Error)) (ns : List NodeResult) (r : Run svc.Store)
        → IsValid r.context
        → (fs ≡ [] → All (λ n. IsMarkable r.context n.node_id) ns)
        → IsValid (mark_unless svc fs ns r).1.context
    unfolding mark_unless
    mark_unless-IsValid [] ns r v m = mark_all-IsValid ns r v (m refl)
    mark_unless-IsValid (f ∷ fs) ns r v m = v

    close_round-IsValid :
        (results : Result (List NodeResult) Error) (r : Run svc.Store)
        → IsValid r.context
        → ((ns : List NodeResult)
            → results ≡ ok ns
            → failures ns ≡ []
            → All (λ n. IsMarkable r.context n.node_id) ns)
        → IsValid (close_round svc results r).1.context
    unfolding close_round
    close_round-IsValid (error e) r v m = v
    close_round-IsValid (ok ns) r v m = mark_unless-IsValid (failures ns) ns r v (m ns refl)

    -- The results of a round whose nodes all succeeded.
    AreMarkable :
        (ns : List NodeResult) (ready : List String) (c d : ExecutionContext)
        → AreReady c ready
        → SameBut c d
        → map (λ n. n.node_id) ns ≡ ready
        → All (λ n. Succeeded d n.node_id) ns
        → All (λ n. IsMarkable d n.node_id) ns
    unfolding is_ready
    AreMarkable ns ready c d are (completed, all, _, _) ids done =
        let spec : All (λ id. (has id c.all_nodes ≡ true) × (is_ready c deps id ≡ true)) ready =
          All-of_has (λ id. (has id c.all_nodes ≡ true) × (is_ready c deps id ≡ true)) ready
            (λ id h.
              let (known, _, r) = find_ready_nodes-facts deps c id (are id h) in (known, r)) in
        All-zip (λ n x y. record { known = rw all x.0; done = y; ready = rw completed x.1 }) ns
          (All-of_map (λ id. (has id c.all_nodes ≡ true) × (is_ready c deps id ≡ true))
            (λ n. n.node_id) ns (rw ids spec))
          done

    module _ (run_node : NodeRunner) (definition : WorkflowDefinition) where
      pub round-IsValid :
          (ready : List String) (r : Run svc.Store)
          → AreReady r.context ready
          → IsValid r.context
          → IsValid (round run_node svc definition ready r).1.context
      unfolding round execute_ready_nodes has
      round-IsValid ready r are v =
          let ss = (start_nodes definition ready r).0 in
          let r1 = (start_nodes definition ready r).1 in
          let r2 = (finish_all run_node svc ss r1).1 in
          let c1 : r1.context ≡ r.context = start_nodes-context definition ready r in
          let v1 : IsValid r1.context = rw c1 v in
          let v2 : IsValid r2.context =
            finish_all-IsValid run_node ss r1 v1
              (λ j h. start_nodes-IsApart j definition ready r (unready j (rw c1 at h))) in
          close_round-IsValid (finish_all run_node svc ss r1).0 r2 v2 (λ ns e none_failed.
            AreMarkable ns ready r1.context r2.context (rw c1 are)
              (finish_all-SameBut run_node svc ss r1)
              (finish_all-ids run_node svc definition ready r r1 ns e)
              (finish_all-Succeeded run_node svc ss r1 ns e none_failed).0)
        where
          unready : (j : String) → has j r.context.completed_nodes ≡ true → has j ready ≡ false
          unready j h = elim (Bool-cases (has j ready)) [
            | inl e ↦ cc ((find_ready_nodes-facts deps r.context j (are j e)).1)
            | inr e ↦ e
          ]

      rounds-LoopRule :
          LoopRule run_node svc deps definition
            (λ r. IsValid r.context)
            (λ outcome r. IsValid r.context)
      rounds-LoopRule = record {
        finished = λ r v e. v;
        stuck = λ r v e n. v;
        failed = λ r ready x v same bad. round-IsValid ready r (λ id h. rw same h) v;
        kept = λ r ready v some_ready same good. round-IsValid ready r (λ id h. rw same h) v;
      }

-- ===== src/Workflow/Executor/Rounds.antt =====
-- What a round that succeeds has done.
use supallm.Common.{
  String, Option, List, [], ◌∷◌, Result, ok, error, ◌≡◌, refl, arith, Result-cases, inl, inr, map,
  has, ◌||◌, ◌==◌, ◌∙◌, ap,
}
use supallm.Nodes.{NodeRunner, Error}
use supallm.Context.{WorkflowDefinition}
use supallm.Context.Service.{ContextService}
use supallm.Workflow.Executor.{
  Run, NodeResult, Started, start_nodes, failures, mark_all, mark_node_completed, mark_unless,
  close_round,
}
use supallm.Workflow.Executor.Execution.{finish_all, execute_ready_nodes, round}
use supallm.Workflow.Executor.Marking.{has-put_completed, put_completed-all_nodes}
use supallm.Workflow.Executor.Frame.{
  finish_all-SameBut, start_nodes-context, mark_node_completed-context,
}
use supallm.Workflow.Executor.Success.{finish_all-ids}

module _ (svc : ContextService) where
  mark_unless-eq-ok :
      (fs : List (String × Option Error)) (ns : List NodeResult) (r : Run svc.Store)
      → (mark_unless svc fs ns r).0 ≡ ok tt
      → (fs ≡ [])
        × ((mark_all svc ns r).0 ≡ ok tt)
        × ((mark_unless svc fs ns r).1 ≡ (mark_all svc ns r).1)
  unfolding mark_unless
  mark_unless-eq-ok [] ns r h = (refl, ground arith, refl)
  mark_unless-eq-ok (f ∷ fs) ns r h = cc

  close_round-eq-ok :
      (results : Result (List NodeResult) Error) (r : Run svc.Store)
      → (close_round svc results r).0 ≡ ok tt
      → (ns : List NodeResult) × (results ≡ ok ns)
        × (failures ns ≡ [])
        × ((mark_all svc ns r).0 ≡ ok tt)
        × ((close_round svc results r).1 ≡ (mark_all svc ns r).1)
  unfolding close_round
  close_round-eq-ok (error e) r h = cc
  close_round-eq-ok (ok ns) r h =
      let (none_failed, marked, same) = mark_unless-eq-ok (failures ns) ns r h in
      (ns, refl, none_failed, marked, same)

  abbrev marked_first : NodeResult → Run svc.Store → Run svc.Store
  marked_first n r = (mark_node_completed svc n.node_id r).1

  mark_all-cons :
      (n : NodeResult) (ns : List NodeResult) (r : Run svc.Store)
      → (mark_all svc (n ∷ ns) r).0 ≡ ok tt
      → mark_all svc (n ∷ ns) r ≡ mark_all svc ns (marked_first n r)
  unfolding mark_all
  mark_all-cons n ns r h = elim (Result-cases (mark_node_completed svc n.node_id r).0) [
    | inl (u, e) ↦ rw (e, mark_all)
    | inr (x, e) ↦ cc (rw (e, mark_all) at h)
  ]

  -- After a marking that succeeds, the listed nodes have been added to the completed ones.
  pub mark_all-has :
      (ns : List NodeResult) (r : Run svc.Store)
      → (mark_all svc ns r).0 ≡ ok tt
      → (j : String)
      → has j (mark_all svc ns r).1.context.completed_nodes
        ≡ (has j (map (λ n. n.node_id) ns) || has j r.context.completed_nodes)
  unfolding has
  mark_all-has [] r h j = unfold mark_all in refl
  mark_all-has (n ∷ ns) r h j =
      let e = mark_all-cons n ns r h in
      let ih = mark_all-has ns (marked_first n r) (rw e at h) j in
      let added : has j (marked_first n r).context.completed_nodes
          ≡ (n.node_id == j || has j r.context.completed_nodes) =
        rw (mark_node_completed-context svc n.node_id r)
          (has-put_completed n.node_id j r.context) in
      rw e (ground (arith, ih, added))

  -- Marking keeps the nodes of the workflow, however far it comes.
  pub mark_all-all_nodes :
      (ns : List NodeResult) (r : Run svc.Store)
      → (mark_all svc ns r).1.context.all_nodes ≡ r.context.all_nodes
  unfolding mark_all
  mark_all-all_nodes [] r = refl
  mark_all-all_nodes (n ∷ ns) r =
      let first : (marked_first n r).context.all_nodes ≡ r.context.all_nodes =
        rw (mark_node_completed-context svc n.node_id r)
          (put_completed-all_nodes n.node_id r.context) in
      elim (mark_node_completed svc n.node_id r).0
        as (λ w.
          let after : Result (Unit {0}) Error × Run svc.Store = elim w [
            | error e ↦ (error e, marked_first n r)
            | ok _ ↦ mark_all svc ns (marked_first n r)
          ] in
          after.1.context.all_nodes ≡ r.context.all_nodes) [
            | ok _ ↦ mark_all-all_nodes ns (marked_first n r) ∙ first
            | error e ↦ first
          ]

  close_round-all_nodes :
      (results : Result (List NodeResult) Error) (r : Run svc.Store)
      → (close_round svc results r).1.context.all_nodes ≡ r.context.all_nodes
  unfolding close_round
  close_round-all_nodes (error e) r = refl
  close_round-all_nodes (ok ns) r = go (failures ns)
    where
      go :
          (fs : List (String × Option Error))
          → (mark_unless svc fs ns r).1.context.all_nodes ≡ r.context.all_nodes
      go [] = unfold mark_unless in mark_all-all_nodes ns r
      go (f ∷ fs) = unfold mark_unless in refl

module _ (run_node : NodeRunner) (svc : ContextService) (definition : WorkflowDefinition)
    (ready : List String) (r : Run svc.Store) where
  abbrev started_nodes : List Started
  started_nodes = (start_nodes definition ready r).0

  abbrev begun : Run svc.Store
  begun = (start_nodes definition ready r).1

  -- The run when all nodes of the round have ended.
  abbrev pub ended : Run svc.Store
  ended = (finish_all run_node svc started_nodes begun).1

  pub record IsGood : Type 0 where
    pub results : List NodeResult
    pub ids : map (λ n. n.node_id) results ≡ ready
    pub returned : (finish_all run_node svc started_nodes begun).0 ≡ ok results
    pub succeeded : failures results ≡ []
    pub marked : (mark_all svc results ended).0 ≡ ok tt
    pub reached : (round run_node svc definition ready r).1 ≡ (mark_all svc results ended).1

  pub round-IsGood : (round run_node svc definition ready r).0 ≡ ok tt → IsGood
  unfolding round execute_ready_nodes
  round-IsGood h =
      let (ns, returned, succeeded, marked, reached) =
        close_round-eq-ok svc (finish_all run_node svc started_nodes begun).0 ended h in
      record {
        results = ns;
        ids = finish_all-ids run_node svc definition ready r begun ns returned;
        returned = returned;
        succeeded = succeeded;
        marked = marked;
        reached = reached;
      }

  -- After a round that succeeds the ready nodes are completed too.
  pub round-has :
      IsGood
      → (j : String)
      → has j (round run_node svc definition ready r).1.context.completed_nodes
        ≡ (has j ready || has j r.context.completed_nodes)
  round-has g j =
      let same =
        (finish_all-SameBut run_node svc started_nodes begun).0
        ∙ ap (λ c. c.completed_nodes) (start_nodes-context definition ready r) in
      rw (g.reached, mark_all-has svc g.results ended g.marked j, g.ids, same)

  -- A round keeps the nodes of the workflow, however it ends.
  pub round-all_nodes :
      (round run_node svc definition ready r).1.context.all_nodes ≡ r.context.all_nodes
  unfolding round execute_ready_nodes
  round-all_nodes =
      close_round-all_nodes svc (finish_all run_node svc started_nodes begun).0 ended
      ∙ (finish_all-SameBut run_node svc started_nodes begun).1
      ∙ ap (λ c. c.all_nodes) (start_nodes-context definition ready r)

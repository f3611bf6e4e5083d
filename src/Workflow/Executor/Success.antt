-- ===== src/Workflow/Executor/Success.antt =====
-- What the nodes of a round have written where all of them report success.
use supallm.Common.{
  String, true, List, [], ◌∷◌, Result, ok, error, ◌≡◌, refl, arith, All, ◌≢◌, ◌∙◌, ap, sym, map,
}
use mathlib.Core.Path.{subst}
use supallm.Values.{Fields}
use supallm.Nodes.{Error, NodeRunner, returned, rejected, Ending}
use supallm.Context.{ExecutionContext, WorkflowDefinition, put_node}
use supallm.Context.Service.{ContextService}
use supallm.Workflow.Executor.{
  Run, Job, Started, missing, failed, started, NodeResult, failures, start_node, start_nodes,
  settle, execution_of, result_of, gather,
}
use supallm.Workflow.Executor.Execution.{finish_node, finish_started, finish_all, finish_with}
use supallm.Workflow.Executor.Frame.{
  Succeeded, relay-context, settle-context, put_node-Succeeded_self, put_node-Succeeded, ending_of,
  relayed, reported_of,
}

gather-eq-ok :
    (a : Result NodeResult Error) (b : Result (List NodeResult) Error) (n : NodeResult)
    (ns : List NodeResult)
    → gather a b ≡ ok (n ∷ ns)
    → (a ≡ ok n) × (b ≡ ok ns)
gather-eq-ok a b n ns h = ground arith

gather-ne-nil :
    (a : Result NodeResult Error) (b : Result (List NodeResult) Error) → gather a b ≢ ok []
gather-ne-nil a b = ground arith

module _ (run_node : NodeRunner) (svc : ContextService) where
  settle-eq-ok :
      (job : Job) (result : Result Fields Error) (r : Run svc.Store) (n : NodeResult)
      → (settle svc job result r).0 ≡ ok n
      → result_of job result ≡ n
  unfolding settle
  settle-eq-ok job result r n h = ground arith

  -- A node that reports success returned an output, and that is what is recorded.
  record IsDone (c c' : ExecutionContext) (n : NodeResult) : Type 0 where
    job : Job
    output : Fields
    named : n.node_id ≡ job.node_id
    recorded : c' ≡ put_node c job.node_id (execution_of job (ok output))

  settle-IsDone :
      (job : Job) (result : Result Fields Error) (r : Run svc.Store) (n : NodeResult)
      → (settle svc job result r).0 ≡ ok n
      → n.success ≡ true
      → IsDone r.context (settle svc job result r).1.context n
  unfolding result_of
  settle-IsDone job (ok output) r n h k =
      let e : result_of job (ok output) ≡ n = settle-eq-ok job (ok output) r n h in
      record {
        job = job;
        output = output;
        named = ap (λ m. m.node_id) (sym e);
        recorded = settle-context svc job (ok output) r;
      }
  settle-IsDone job (error x) r n h k =
      let e : result_of job (error x) ≡ n = settle-eq-ok job (error x) r n h in
      absurd (ground (arith, e))

  finish_with-IsDone :
      (job : Job) (ending : Ending) (r : Run svc.Store) (n : NodeResult)
      → (finish_with run_node svc job ending r).0 ≡ ok n
      → n.success ≡ true
      → IsDone r.context (finish_with run_node svc job ending r).1.context n
  unfolding finish_with
  finish_with-IsDone job (rejected e) r n h k = cc
  finish_with-IsDone job (returned result) r n h k = settle-IsDone job result r n h k

  finish_started-IsDone :
      (s : Started) (r : Run svc.Store) (n : NodeResult)
      → (finish_started run_node svc s r).0 ≡ ok n
      → n.success ≡ true
      → IsDone r.context (finish_started run_node svc s r).1.context n
  unfolding finish_started finish_node
  finish_started-IsDone (missing id) r n h k = absurd (ground arith)
  finish_started-IsDone (failed e) r n h k = cc
  finish_started-IsDone (started job) r n h k =
      subst
        (λ c.
          IsDone c
            (finish_with run_node svc job (ending_of run_node svc job)
              (relayed run_node svc job r)).1.context
            n)
        (relay-context job (reported_of run_node svc job) r)
        (finish_with-IsDone job (ending_of run_node svc job) (relayed run_node svc job r) n h k)

  IsDone-Succeeded :
      (c c' : ExecutionContext) (n : NodeResult)
      → IsDone c c' n
      → Succeeded c' n.node_id × ((j : String) → Succeeded c j → Succeeded c' j)
  unfolding execution_of
  IsDone-Succeeded c c' n d =
      let e = execution_of d.job (ok d.output) in
      (
        rw (d.named, d.recorded) (put_node-Succeeded_self c d.job.node_id e refl),
        λ j h. rw d.recorded (put_node-Succeeded c d.job.node_id e refl j h),
      )

  -- Where every node of a round reports success, each is recorded as a success, and no earlier
  -- success is lost.
  pub finish_all-Succeeded :
      (ss : List Started) (r : Run svc.Store) (ns : List NodeResult)
      → (finish_all run_node svc ss r).0 ≡ ok ns
      → failures ns ≡ []
      → All (λ n. Succeeded (finish_all run_node svc ss r).1.context n.node_id) ns
        × ((j : String)
            → Succeeded r.context j
            → Succeeded (finish_all run_node svc ss r).1.context j)
  unfolding finish_all failures
  finish_all-Succeeded [] r [] h k = (tt, λ j x. x)
  finish_all-Succeeded [] r (n ∷ ns) h k = cc
  finish_all-Succeeded (s ∷ ss) r [] h k = absurd (gather-ne-nil _ _ h)
  finish_all-Succeeded (s ∷ ss) r (n ∷ ns) h k =
      let r' = (finish_started run_node svc s r).1 in
      let (first, others) = gather-eq-ok _ _ n ns h in
      let good : n.success ≡ true = ground arith in
      let (mine, kept) =
        IsDone-Succeeded r.context r'.context n (finish_started-IsDone s r n first good) in
      let (rest, kept') = finish_all-Succeeded ss r' ns others (ground arith) in
      ((kept' n.node_id mine, rest), λ j x. kept' j (kept j x))

  -- The result of the node that was started for `id` is about `id`.
  abbrev IsNamed : String → Started → Type 0
  IsNamed id (missing x) = x ≡ id
  IsNamed id (failed e) = Unit
  IsNamed id (started job) = job.node_id ≡ id

  start_node-IsNamed :
      (definition : WorkflowDefinition) (id : String) (r : Run svc.Store)
      → IsNamed id (start_node definition id r).0
  unfolding start_node
  start_node-IsNamed definition id r = ground arith

  finish_with-named :
      (job : Job) (ending : Ending) (r : Run svc.Store) (n : NodeResult)
      → (finish_with run_node svc job ending r).0 ≡ ok n
      → n.node_id ≡ job.node_id
  unfolding finish_with result_of
  finish_with-named job (rejected e) r n h = cc
  finish_with-named job (returned (ok output)) r n h =
      ap (λ m. m.node_id) (sym (settle-eq-ok job (ok output) r n h))
  finish_with-named job (returned (error e)) r n h =
      ap (λ m. m.node_id) (sym (settle-eq-ok job (error e) r n h))

  finish_started-named :
      (id : String) (s : Started) (r : Run svc.Store) (n : NodeResult)
      → IsNamed id s
      → (finish_started run_node svc s r).0 ≡ ok n
      → n.node_id ≡ id
  unfolding finish_started finish_node
  finish_started-named id (missing x) r n e h = ground arith
  finish_started-named id (failed x) r n e h = cc
  finish_started-named id (started job) r n e h =
      finish_with-named job (ending_of run_node svc job) (relayed run_node svc job r) n h ∙ e

  -- `Promise.all` keeps the order: the results are about the ready nodes, one by one.
  pub finish_all-ids :
      (definition : WorkflowDefinition) (ids : List String) (q r : Run svc.Store)
      (ns : List NodeResult)
      → (finish_all run_node svc (start_nodes definition ids q).0 r).0 ≡ ok ns
      → map (λ n. n.node_id) ns ≡ ids
  unfolding finish_all start_nodes
  finish_all-ids definition [] q r [] h = refl
  finish_all-ids definition [] q r (n ∷ ns) h = cc
  finish_all-ids definition (id ∷ ids) q r [] h = absurd (gather-ne-nil _ _ h)
  finish_all-ids definition (id ∷ ids) q r (n ∷ ns) h =
      let s = (start_node definition id q).0 in
      let (first, others) = gather-eq-ok _ _ n ns h in
      let e = finish_started-named id s r n (start_node-IsNamed definition id q) first in
      let rest =
        finish_all-ids definition ids (start_node definition id q).1
          (finish_started run_node svc s r).1 ns others in
      cc

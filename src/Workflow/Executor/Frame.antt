-- ===== src/Workflow/Executor/Frame.antt =====
-- What the steps of the executor leave alone.
use supallm.Common.{
  String, true, false, some, List, [], ◌∷◌, get, has, ◌==◌, eq_refl, get-set, Result, ok, error,
  ◌≡◌, refl, arith, All, ◌∙◌, ap, inl, inr, Bool-cases,
}
use supallm.Values.{Fields}
use supallm.Nodes.{Error, NodeEvent, NodeRunner, returned, rejected, Ending}
use supallm.Context.{NodeExecution, ExecutionContext, WorkflowDefinition, put_node, put_completed}
use supallm.Context.Service.{ContextService}
use supallm.Workflow.Executor.{
  Run, Job, Started, missing, failed, started, emit, emit_for, relay, start_node, start_nodes, sync,
  settle, execution_of, mark_node_completed,
}
use supallm.Workflow.Executor.Execution.{finish_node, finish_started, finish_all, finish_with}

-- The node ran, and its execution is recorded as a success.
abbrev pub Succeeded : ExecutionContext → String → Type 0
Succeeded c id = (e : NodeExecution) × (get id c.node_executions ≡ some e) × (e.success ≡ true)

-- No job is one of node `j`.
abbrev pub IsApart : String → Started → Type 0
IsApart j (missing id) = Unit
IsApart j (failed e) = Unit
IsApart j (started job) = (job.node_id == j) ≡ false

module _ {S : Type 0} where
  pub relay-context :
      (job : Job) (es : List NodeEvent) (r : Run S) → (relay job es r).context ≡ r.context
  unfolding relay emit
  relay-context job [] r = refl
  relay-context job (e ∷ es) r = relay-context job es _

  start_node-context :
      (definition : WorkflowDefinition) (id : String) (r : Run S)
      → (start_node definition id r).1.context ≡ r.context
  unfolding start_node emit_for
  start_node-context definition id r = ground arith

  pub start_nodes-context :
      (definition : WorkflowDefinition) (ids : List String) (r : Run S)
      → (start_nodes definition ids r).1.context ≡ r.context
  unfolding start_nodes
  start_nodes-context definition [] r = refl
  start_nodes-context definition (id ∷ ids) r =
      start_nodes-context definition ids (start_node definition id r).1
      ∙ start_node-context definition id r

  start_node-IsApart :
      (j : String) (definition : WorkflowDefinition) (id : String) (r : Run S)
      → (id == j) ≡ false
      → IsApart j (start_node definition id r).0
  unfolding start_node
  start_node-IsApart j definition id r h = ground arith

  pub start_nodes-IsApart :
      (j : String) (definition : WorkflowDefinition) (ids : List String) (r : Run S)
      → has j ids ≡ false
      → All (IsApart j) (start_nodes definition ids r).0
  unfolding start_nodes has
  start_nodes-IsApart j definition [] r h = tt
  start_nodes-IsApart j definition (id ∷ ids) r h = (
    start_node-IsApart j definition id r (ground arith),
    start_nodes-IsApart j definition ids (start_node definition id r).1 (ground arith),
  )

module _ (svc : ContextService) where
  sync-context : (r : Run svc.Store) → (sync svc r).1.context ≡ r.context
  unfolding sync
  sync-context r = ground arith

  pub settle-context :
      (job : Job) (result : Result Fields Error) (r : Run svc.Store)
      → (settle svc job result r).1.context
        ≡ put_node r.context job.node_id (execution_of job result)
  unfolding settle emit_for
  settle-context job (ok output) r = sync-context _
  settle-context job (error e) r = sync-context _

  pub mark_node_completed-context :
      (id : String) (r : Run svc.Store)
      → (mark_node_completed svc id r).1.context ≡ put_completed r.context id
  unfolding mark_node_completed
  mark_node_completed-context id r = sync-context _

pub put_node-Succeeded_self :
    (c : ExecutionContext) (id : String) (e : NodeExecution)
    → e.success ≡ true
    → Succeeded (put_node c id e) id
unfolding put_node
put_node-Succeeded_self c id e h =
    (e, ground (arith, get-set id id e c.node_executions, eq_refl id), h)

pub put_node-Succeeded :
    (c : ExecutionContext) (id : String) (e : NodeExecution)
    → e.success ≡ true
    → (j : String) → Succeeded c j
    → Succeeded (put_node c id e) j
unfolding put_node
put_node-Succeeded c id e h j (x, found, good) = elim (Bool-cases (id == j)) [
  | inl same ↦ (e, ground (arith, get-set id j e c.node_executions), h)
  | inr other ↦ (x, ground (arith, get-set id j e c.node_executions), good)
]

-- Two contexts differ in their node executions at most.
abbrev pub SameBut : ExecutionContext → ExecutionContext → Type 0
SameBut c d =
    (d.completed_nodes ≡ c.completed_nodes)
    × (d.all_nodes ≡ c.all_nodes)
    × (d.workflow_id ≡ c.workflow_id)
    × (d.trigger_id ≡ c.trigger_id)

-- The two also agree at node `j`.
abbrev pub Keeps : String → ExecutionContext → ExecutionContext → Type 0
Keeps j c d = get j d.node_executions ≡ get j c.node_executions

abbrev pub after_ending : ExecutionContext → Job → Ending → ExecutionContext
after_ending c job (rejected e) = c
after_ending c job (returned result) = put_node c job.node_id (execution_of job result)

module _ (run_node : NodeRunner) (svc : ContextService) where
  abbrev pub ending_of : Job → Ending
  ending_of job = (run_node job.node_id job.definition job.inputs).ending

  abbrev pub reported_of : Job → List NodeEvent
  reported_of job = (run_node job.node_id job.definition job.inputs).reported

  abbrev pub relayed : Job → Run svc.Store → Run svc.Store
  relayed job r = relay job (reported_of job) r

  -- The context after a started node.
  abbrev pub after_started : ExecutionContext → Started → ExecutionContext
  after_started c (missing id) = c
  after_started c (failed e) = c
  after_started c (started job) = after_ending c job (ending_of job)

  finish_with-context :
      (job : Job) (ending : Ending) (r : Run svc.Store)
      → (finish_with run_node svc job ending r).1.context ≡ after_ending r.context job ending
  unfolding finish_with
  finish_with-context job (rejected e) r = refl
  finish_with-context job (returned result) r = settle-context svc job result r

  pub finish_started-context :
      (s : Started) (r : Run svc.Store)
      → (finish_started run_node svc s r).1.context ≡ after_started r.context s
  unfolding finish_started finish_node
  finish_started-context (missing id) r = refl
  finish_started-context (failed e) r = refl
  finish_started-context (started job) r =
      finish_with-context job (ending_of job) (relayed job r)
      ∙ ap (λ c. after_ending c job (ending_of job)) (relay-context job (reported_of job) r)

  after_started-SameBut : (c : ExecutionContext) (s : Started) → SameBut c (after_started c s)
  unfolding put_node
  after_started-SameBut c s = ground arith

  after_started-Keeps :
      (j : String) (c : ExecutionContext) (s : Started)
      → IsApart j s
      → Keeps j c (after_started c s)
  unfolding put_node
  after_started-Keeps j c (missing id) h = refl
  after_started-Keeps j c (failed e) h = refl
  after_started-Keeps j c (started job) h =
      elim (ending_of job) as (λ o. Keeps j c (after_ending c job o)) [
        | rejected e ↦ refl
        | returned result ↦
            ground (arith, get-set job.node_id j (execution_of job result) c.node_executions)
      ]

  pub finish_all-SameBut :
      (ss : List Started) (r : Run svc.Store)
      → SameBut r.context (finish_all run_node svc ss r).1.context
  unfolding finish_all
  finish_all-SameBut [] r = (refl, refl, refl, refl)
  finish_all-SameBut (s ∷ ss) r =
      let r' = (finish_started run_node svc s r).1 in
      let e : r'.context ≡ after_started r.context s = finish_started-context s r in
      let one : SameBut r.context r'.context = rw e (after_started-SameBut r.context s) in
      let others : SameBut r'.context (finish_all run_node svc ss r').1.context =
        finish_all-SameBut ss r' in
      (others.0 ∙ one.0, others.1 ∙ one.1, others.2 ∙ one.2, others.3 ∙ one.3)

  pub finish_all-Keeps :
      (j : String) (ss : List Started) (r : Run svc.Store)
      → All (IsApart j) ss
      → Keeps j r.context (finish_all run_node svc ss r).1.context
  unfolding finish_all
  finish_all-Keeps j [] r h = refl
  finish_all-Keeps j (s ∷ ss) r (h, hs) =
      let r' = (finish_started run_node svc s r).1 in
      let e : r'.context ≡ after_started r.context s = finish_started-context s r in
      finish_all-Keeps j ss r' hs ∙ rw e (after_started-Keeps j r.context s h)

-- ===== src/Context.antt =====
-- runner/src/services/context/context.interface.ts: the context of one execution and the methods of
-- `ManagedExecutionContext` on it. A method that throws has an `error` result; `sync`, which the methods
-- that change the context end with, is in Workflow/Executor.antt.
pub mod Service
pub mod Redis
use supallm.Common.{
  String, Bool, true, false, Option, none, some, List, [], ◌∷◌, Dict, get, set, keys, has, add, not,
  ◌==◌, if◌then◌else◌, filter, every, Result, ok, error, ◌>>=◌, ◌≡◌, ℕ, map,
}
use supallm.Common.Text
use supallm.Values.{Value, undefined, null, obj, Fields, end, get_field, set_field, is_defined}
use supallm.Nodes.{
  NodeType, NodeInputDef, NodeDefinition, Error, node_not_found, entrypoint_not_found,
  result_not_found, is_result,
}

-- `output` and `inputs` may be `null`.
pub record NodeExecution : Type 0 where
  pub id : String
  pub success : Bool
  pub inputs : Option Fields
  pub output : Option Fields
  pub error_message : Option Error
  pub execution_time : ℕ

pub record ExecutionContext : Type 0 where
  pub workflow_id : String
  pub session_id : String
  pub trigger_id : String
  pub workflow_inputs : Fields
  pub node_executions : Dict NodeExecution
  pub completed_nodes : List String
  pub all_nodes : List String

pub record WorkflowDefinition : Type 0 where
  pub nodes : Dict NodeDefinition

pub record ExecutionOptions : Type 0 where
  pub inputs : Fields
  pub project_id : String
  pub session_id : String
  pub trigger_id : String

-- An empty text is falsy.
abbrev pub non_empty : String → Option String
non_empty s = if s == "" then none else some s

abbrev first_part : List String → Option String
first_part [] = none
first_part (p ∷ ps) = non_empty p

abbrev second_part : List String → Option String
second_part (p ∷ q ∷ ps) = non_empty q
second_part (p ∷ []) = none
second_part [] = none

-- `source.split(".")[0]` and `source.split(".")[1]`, where they are truthy
unfoldable pub source_node : String → Option String
unfolding Text.split
source_node s = first_part (Text.split b'.' s)

unfoldable pub source_field : String → Option String
unfolding Text.split
source_field s = second_part (Text.split b'.' s)

-- `output?.[name]`
abbrev pub output_field : NodeExecution → String → Value
output_field e name = elim e.output [ none ↦ undefined | some fs ↦ get_field name fs ]

-- `output`, as the value that an input gets
abbrev pub output_value : NodeExecution → Value
output_value e = elim e.output [ none ↦ null | some fs ↦ obj fs ]

abbrev lookup_or : Error → Option NodeExecution → Result NodeExecution Error
lookup_or e none = error e
lookup_or e (some n) = ok n

module _ (context : ExecutionContext) where
  unfoldable pub node : String → Result NodeExecution Error
  node node_id = lookup_or (node_not_found node_id) (get node_id context.node_executions)

  unfoldable pub entrypoint_execution : Result NodeExecution Error
  entrypoint_execution =
      lookup_or entrypoint_not_found (get "entrypoint-node" context.node_executions)

  unfoldable pub result_execution : Result NodeExecution Error
  result_execution = lookup_or result_not_found (get "result-node" context.node_executions)

  -- the loop of `resultNodes` over the nodes of type "result"
  unfoldable pub result_nodes : Dict NodeDefinition → Result (List NodeExecution) Error
  unfolding is_result node
  result_nodes [] = ok []
  result_nodes ((id, d) ∷ nodes) =
      let rest = result_nodes nodes in
      if is_result d.type then (node id >>= λ e. rest >>= λ es. ok (e ∷ es)) else rest

  -- `dependencies[nodeId] || []`, all completed
  unfoldable pub is_ready : Dict (List String) → String → Bool
  is_ready dependencies node_id = elim (get node_id dependencies) [
    | none ↦ true
    | some deps ↦ every (λ dep. has dep context.completed_nodes) deps
  ]

  unfoldable pub remaining_nodes : List String
  remaining_nodes = filter (λ id. not (has id context.completed_nodes)) context.all_nodes

  unfoldable pub find_ready_nodes : Dict (List String) → List String
  unfolding remaining_nodes is_ready
  find_ready_nodes dependencies = filter (is_ready dependencies) remaining_nodes

  -- An input with a source: its node must have run.
  unfoldable pub resolve_source : String → String → Fields → Result Fields Error
  unfolding source_node source_field node
  resolve_source name source resolved = elim (source_node source) [
    | none ↦ ok resolved
    | some id ↦ node id >>= λ e. elim (source_field source) [
      | some f ↦ ok (set_field name (output_field e f) resolved)
      | none ↦ ok (set_field name (output_value e) resolved)
    ]
  ]

  -- An input with no source: the entrypoint's output first, then the definition's own value.
  unfoldable pub resolve_plain : String → Value → Fields → Result Fields Error
  unfolding entrypoint_execution
  resolve_plain name value resolved = entrypoint_execution >>= λ e.
      let given = output_field e name in
      if is_defined given
      then ok (set_field name given resolved)
      else (if is_defined value then ok (set_field name value resolved) else ok resolved)

  -- `if (inputDef.source)`: an empty source counts as none
  unfoldable pub resolve_input : String → NodeInputDef → Fields → Result Fields Error
  unfolding resolve_source resolve_plain
  resolve_input name input resolved = elim input.source [
    | none ↦ resolve_plain name input.value resolved
    | some s ↦
        if s == "" then resolve_plain name input.value resolved else resolve_source name s resolved
  ]

  unfoldable pub resolve_all : Dict NodeInputDef → Fields → Result Fields Error
  unfolding resolve_input
  resolve_all [] resolved = ok resolved
  resolve_all ((name, input) ∷ inputs) resolved =
      resolve_input name input resolved >>= resolve_all inputs

  unfoldable pub resolve_inputs : String → NodeDefinition → Result Fields Error
  unfolding resolve_all
  resolve_inputs node_id definition =
      if node_id == "entrypoint-node"
      then ok context.workflow_inputs
      else elim definition.inputs [ none ↦ ok end | some inputs ↦ resolve_all inputs end ]

  -- `updateNode` and `addNode` without their `sync`
  unfoldable pub put_node : String → NodeExecution → ExecutionContext
  put_node node_id execution = record context {
    node_executions = set node_id execution context.node_executions;
  }

  -- `markNodeCompleted` without its `sync`
  unfoldable pub put_completed : String → ExecutionContext
  put_completed node_id = record context { completed_nodes = add node_id context.completed_nodes }

  -- The body that `updateNodeInputs`, `updateNodeOutputs` and `updateNodeError` share.
  unfoldable pub change_node :
      String → (NodeExecution → NodeExecution) → Result ExecutionContext Error
  unfolding node put_node
  change_node node_id change = node node_id >>= λ e. ok (put_node node_id (change e))

unfoldable pub update_node_inputs :
    ExecutionContext → String → Fields → Result ExecutionContext Error
unfolding change_node
update_node_inputs context node_id inputs =
    change_node context node_id (λ e. record e { inputs = some inputs })

unfoldable pub update_node_outputs :
    ExecutionContext → String → Fields → Result ExecutionContext Error
unfolding change_node
update_node_outputs context node_id output =
    change_node context node_id (λ e. record e { output = some output })

unfoldable pub update_node_error : ExecutionContext → String → Error → Result ExecutionContext Error
unfolding change_node
update_node_error context node_id e =
    change_node context node_id (λ x. record x { error_message = some e })

-- ===== src/CodeExecutor/Node.antt =====
-- `CodeExecutorNode` of runner/src/nodes/code-executors/code-executor-node.ts. `executor_error`: an error
-- of the executor as the workflow sees it; `text_of`: the text of a line of the log.
pub mod Laws
use Prim.Native.String
use supallm.Common.{
  String, Bool, true, false, Option, none, some, List, [], ◌∷◌, ◌++◌, Dict, get, Result, ok, error,
  if◌then◌else◌, ◌==◌, map,
}
use supallm.Values.{Value, str, Fields, end, field, get_field, truthy}
use supallm.Nodes.{
  NodeDefinition, NodeOutputDef, NodeEvent, NodeRun, Error, message, node_log, node_result,
  returned,
}
use supallm.CodeExecutor.Nodejs.{
  Argument, ExecutorError, LogLine, World, Ended, fulfilled, thrown, Parsed, null, object, Host,
  run_typescript,
}

unfoldable pub log_event : String → String → NodeEvent
log_event node_id text = record {
  type = node_log;
  node_id = some node_id;
  payload = field "message" (str text) end;
}

abbrev pub missing_message : String → String
missing_message label =
    String.◌++◌ "Missing argument named "
      (String.◌++◌ label ". This is likely a mistake in your flow.")

-- The `map` over the labels: the first whose input is falsy throws.
unfoldable pub collect_arguments : Fields → List String → Result (List Argument) String
unfolding truthy
collect_arguments inputs [] = ok []
collect_arguments inputs (label ∷ labels) =
    let value = get_field label inputs in
    let rest = collect_arguments inputs labels in
    if truthy value
    then (elim rest [
      | error missing ↦ error missing
      | ok args ↦ ok (record { name = label; value = value } ∷ args)
    ])
    else error label

-- `getOutputKey`
unfoldable pub get_output_key : String → Dict NodeOutputDef → String
get_output_key output outputs = elim (get output outputs) [
  | none ↦ ""
  | some d ↦ elim d.result_key [ none ↦ "" | some key ↦ key ]
]

unfoldable pub result_events : String → Dict NodeOutputDef → Fields → List NodeEvent
unfolding get_output_key
result_events node_id outputs end = []
result_events node_id outputs (field key value fs) =
    let rest = result_events node_id outputs fs in
    let output_key = get_output_key key outputs in
    if output_key == ""
    then rest
    else (record {
      type = node_result;
      node_id = some node_id;
      payload =
          field "outputField" (str output_key)
            (field "data" value (field "ioType" (str "any") end));
    }
        ∷ rest)

abbrev declared : Option (Dict NodeOutputDef) → Dict NodeOutputDef
declared none = []
declared (some outputs) = outputs

-- `Object.entries(null)` throws.
abbrev null_message : String
null_message = "Cannot convert undefined or null to object"

-- The results are reported after the log of the script; all that is thrown is caught.
unfoldable pub report :
    (ExecutorError → Error) → String → Dict NodeOutputDef → Ended → List NodeEvent → NodeRun
unfolding result_events
report executor_error node_id outputs (thrown e) logged = record {
  reported = logged;
  ending = returned (error e);
}
report executor_error node_id outputs (fulfilled (error e)) logged = record {
  reported = logged;
  ending = returned (error (executor_error e));
}
report executor_error node_id outputs (fulfilled (ok null)) logged = record {
  reported = logged;
  ending = returned (error (message null_message));
}
report executor_error node_id outputs (fulfilled (ok (object fs))) logged = record {
  reported = logged ++ result_events node_id outputs fs;
  ending = returned (ok fs);
}

-- `CodeExecutorNodeDefinition`, as far as the node reads it: the code, and the labels of
-- `expectedArguments`.
pub record CodeConfig : Type 0 where
  pub code : String
  pub labels : List String

-- `config_of`: the configuration, which the code casts to its type without a check.
module _ (host : Host) (executor_error : ExecutorError → Error) (text_of : LogLine → String)
    (config_of : Fields → CodeConfig) where
  -- `execute`: the run of the node, and the world that it leaves.
  unfoldable pub execute : String → NodeDefinition → Fields → World → NodeRun × World
  unfolding log_event collect_arguments report run_typescript
  execute node_id definition inputs w =
      elim (collect_arguments inputs (config_of definition.config).labels) [
        | error label ↦ (
          record {
            reported = log_event node_id (missing_message label) ∷ [];
            ending = returned (error (message (missing_message label)));
          },
          w,
        )
        | ok args ↦
            let (ended, w') =
              run_typescript host (config_of definition.config).code args
                (record w { logs = [] }) in
            (
              report executor_error node_id (declared definition.outputs) ended
                  (map (λ l. log_event node_id (text_of l)) w'.logs),
              record w' { logs = w.logs ++ w'.logs },
            )
      ]

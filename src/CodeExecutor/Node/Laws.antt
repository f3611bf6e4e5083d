-- ===== src/CodeExecutor/Node/Laws.antt =====
-- Missing arguments.
use supallm.Common.{String, true, false, List, [], ◌∷◌, ◌++◌, ◌≡◌, All, error}
use supallm.Values.{Fields, get_field, truthy}
use supallm.Nodes.{NodeDefinition, Error, message, returned}
use supallm.CodeExecutor.Nodejs.{ExecutorError, LogLine, World, Host}
use supallm.CodeExecutor.Node.{CodeConfig, collect_arguments, execute, log_event, missing_message}

collect_arguments-append :
    (inputs : Fields) (before after : List String) (label : String)
    → All (λ l. truthy (get_field l inputs) ≡ true) before
    → truthy (get_field label inputs) ≡ false
    → collect_arguments inputs (before ++ label ∷ after) ≡ error label
unfolding collect_arguments
collect_arguments-append inputs [] after label h k = rw k
collect_arguments-append inputs (l ∷ before) after label (t, h) k =
    rw (t, collect_arguments-append inputs before after label h k)

-- The first of the expected arguments that is missing, or whose value counts as false (`0`, `""`,
-- `false`), is reported in one NODE_LOG and in the error; the code is not run, and nothing is left
-- behind.
pub execute_missing :
    (host : Host) (executor_error : ExecutorError → Error) (text_of : LogLine → String)
    (config_of : Fields → CodeConfig) (node_id : String) (definition : NodeDefinition)
    (inputs : Fields) (w : World) (before after : List String) (label : String)
    → (config_of definition.config).labels ≡ before ++ label ∷ after
    → All (λ l. truthy (get_field l inputs) ≡ true) before
    → truthy (get_field label inputs) ≡ false
    → execute host executor_error text_of config_of node_id definition inputs w ≡ (
      record {
        reported = log_event node_id (missing_message label) ∷ [];
        ending = returned (error (message (missing_message label)));
      },
      w,
    )
unfolding execute
execute_missing host executor_error text_of config_of node_id definition inputs w before after label
      e h k =
    rw (execute, e, collect_arguments-append inputs before after label h k)

-- ===== src/Server/Tests.antt =====
-- One message, and one environment.
use supallm.Common.{
  ℕ, suc, String, true, false, Option, some, none, List, [], ◌∷◌, ◌≡◌, ◌⊎◌, refl, map, ok, error,
  ◌==◌, if◌then◌else◌,
}
use supallm.Values.{end, field, str}
use supallm.Nodes.{NodeDefinition, NodeType, entrypoint, result, Error, NodeRunner, returned}
use supallm.Context.Redis.{redis_context_service}
use supallm.Workflow.Events.{Event}
use supallm.Context.{ExecutionContext}
use supallm.Workflow.Executor.{Outcome, Run}
use supallm.Workflow.Executor.Execution.{execute, execute_workflow}
use supallm.Workflow.Executor.Envelope.{IsEnveloped, begun}
use supallm.Queue.{new_consumer, has_slot}
use supallm.Server.{WorkflowMessage, publish, options_of, handle_workflow_execution}
use supallm.Server.Published.{handle_workflow_execution-IsEnveloped}
use supallm.Server.Config.{◌+++◌, ℤ, pos, RunnerConfig, load_config, load_config-has_slot}

abbrev echo : NodeRunner
echo node_id definition inputs = record { reported = []; ending = returned (ok inputs) }

abbrev node_of : NodeType → NodeDefinition
node_of type = record {
  type = type;
  inputs = none;
  outputs = none;
  tools = none;
  memory = none;
  config = end;
}

abbrev request : WorkflowMessage
request = record {
  workflow_id = "w";
  trigger_id = "t";
  session_id = "s";
  project_id = "p";
  definition = record { nodes = ("e", node_of entrypoint) ∷ ("r", node_of result) ∷ [] };
  inputs = field "prompt" (str "hi") end;
}

abbrev to_json : Event → String
to_json e = "{}"

abbrev packed : String → List ℕ
packed s = 129 ∷ []

handle_workflow_execution-IsEnveloped_example :
    let options = options_of to_json packed request in
    let (made, store') = redis_context_service.initialize [] "w" request.definition options in
    let handled = handle_workflow_execution to_json packed echo redis_context_service request [] in
    ((e : Error) × (made ≡ error e) × (handled ≡ some []))
    ⊎ ((context : ExecutionContext) × (outcome : Outcome) × (before r : Run
          redis_context_service.Store)
        × (made ≡ ok context)
        × (execute_workflow echo redis_context_service request.definition
              (begun echo redis_context_service context store')
            ≡ some (outcome, before))
        × (execute echo redis_context_service "w" request.definition options [] ≡ some (ok r))
        × (handled ≡ some (map (publish to_json packed) r.events))
        × IsEnveloped outcome r.events)
handle_workflow_execution-IsEnveloped_example =
    handle_workflow_execution-IsEnveloped to_json packed echo redis_context_service request []

abbrev env : String → Option String
env key =
    if key == "RUNNER_MAX_CONCURRENT_JOBS"
    then some "2"
    else if key == "NODE_ENV"
    then none
    else some "x"

abbrev parse_int : String → Option ℤ
parse_int s = if s == "2" then some (pos 2) else none

abbrev loaded : RunnerConfig
loaded = record {
  node_env = "development";
  max_concurrent_jobs = pos 2;
  redis = record { url = "redis://x:x"; password = "x" };
  secret_key = "x";
  ns_jail_clone_new_user = "false";
  disable_ns_jail = false;
}

load_config-has_slot_example :
    (n : ℕ) × (pos 2 ≡ pos (suc n))
    × (has_slot (new_consumer (suc n)) ≡ true)
    × ((host port : String) × ((host == "") ≡ false)
        × ((port == "") ≡ false)
        × ("redis://x:x" ≡ "redis://" +++ host +++ ":" +++ port))
    × (("x" == "") ≡ false)
    × (("x" == "") ≡ false)
unfolding load_config
load_config-has_slot_example = load_config-has_slot env parse_int loaded refl

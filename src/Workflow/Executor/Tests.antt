-- ===== src/Workflow/Executor/Tests.antt =====
-- Small workflows, and what the executor does on them.
use supallm.Common.{
  ℕ, String, true, Option, none, some, List, [], ◌∷◌, Dict, get, set, keys, ◌<◌, has, add, ok,
  error, ◌≡◌, ◌≢◌, refl, ◌⊎◌, inl, inr, ◌==◌, IsUnique, arith, Bool-cases, eq_iff, if◌then◌else◌,
}
use supallm.Values.{Value, undefined, str, Fields, end, field, get_field, set_field}
use supallm.Nodes.{
  NodeType, entrypoint, result, chat_openai, NodeInputDef, NodeDefinition, NodeRunner, Error,
  entrypoint_not_found, returned,
}
use supallm.Context.{
  ExecutionContext, WorkflowDefinition, ExecutionOptions, resolve_inputs, find_ready_nodes,
}
use supallm.Context.Redis.{
  Db, redis_context_service, initialize_context, initialize, update_context, deserialize_context,
  serialize_context, save_context,
}
use supallm.Context.Redis.Laws.{deserialize-serialize, initialize-update, HasJson}
use mathlib.Core.Option
use supallm.Workflow.Graph.{build_dependency_graph, input_source, sources}
use supallm.Workflow.Graph.Laws.{get-build_dependency_graph}
use supallm.Workflow.Events.{WorkflowError, Blocked, thrown, circular}
use supallm.Workflow.Executor.{Run, Outcome}
use supallm.Workflow.Executor.Execution.{execute_workflow, execute, round}
use supallm.Workflow.Executor.Invariant.{IsValid, round-IsValid}
use mathlib.Core.Path.{subst}
use supallm.Workflow.Executor.Outcomes.{Tells, execute_workflow-Tells}
use supallm.Workflow.Executor.Cycles.{
  IsFresh, IsFresh-IsValid, IsKnot, IsRanked, execute_workflow_knot, execute_workflow_ranked,
}
use supallm.Workflow.Executor.Termination.{execute_workflow_total}
use supallm.Workflow.Executor.Envelope.{IsEnveloped, begun, execute-IsEnveloped}
use supallm.Workflow.Executor.Inputs.{ready-resolves}

abbrev node_of : NodeType → Dict NodeInputDef → NodeDefinition
node_of type given = record {
  type = type;
  inputs = some given;
  outputs = none;
  tools = none;
  memory = none;
  config = end;
}

abbrev from : String → NodeInputDef
from source = record { source = some source; type = none; value = undefined }

abbrev fixed : Value → NodeInputDef
fixed value = record { source = none; type = none; value = value }

-- entrypoint → model → result
abbrev chain : WorkflowDefinition
chain = record {
  nodes =
      ("result-node", node_of result (("answer", from "model.text") ∷ []))
      ∷ ("model", node_of chat_openai (("text", from "entrypoint-node.prompt") ∷ []))
      ∷ ("entrypoint-node", node_of entrypoint [])
      ∷ [];
}

-- Two nodes that wait for each other.
abbrev circle : WorkflowDefinition
circle = record {
  nodes =
      ("entrypoint-node", node_of entrypoint [])
      ∷ ("left", node_of chat_openai (("text", from "right") ∷ []))
      ∷ ("right", node_of chat_openai (("text", from "left.text") ∷ []))
      ∷ [];
}

-- A node whose only input is a value of its own.
abbrev constant : WorkflowDefinition
constant = record {
  nodes =
      ("entrypoint-node", node_of entrypoint [])
      ∷ ("model", node_of chat_openai (("text", fixed (str "hello")) ∷ []))
      ∷ [];
}

abbrev options : ExecutionOptions
options = record {
  inputs = field "prompt" (str "hi") end;
  project_id = "p";
  session_id = "s";
  trigger_id = "t";
}

-- Every node gives its inputs back.
abbrev echo : NodeRunner
echo id definition given = record { reported = []; ending = returned (ok given) }

abbrev first_context : WorkflowDefinition → ExecutionContext
first_context definition = initialize_context "w" definition options

abbrev start : WorkflowDefinition → Run Db
start definition = record {
  context = first_context definition;
  store = (initialize [] "w" definition options).1;
  events = [];
}

program : Unit {0}
unfolding execute initialize update_context has get set add build_dependency_graph input_source
    resolve_inputs set_field get_field find_ready_nodes deserialize_context serialize_context
program = tt

-- The outcome of an execution from the start.
abbrev outcome_of : NodeRunner → WorkflowDefinition → Option Outcome
outcome_of run_node definition =
    elim (execute_workflow run_node redis_context_service definition (start definition)) [
      | none ↦ none
      | some (outcome, r) ↦ some outcome
    ]

chain_runs : outcome_of echo chain ≡ some (ok (some (field "answer" (str "hi") end)))
unfolding program
chain_runs = refl

circle_stops :
    outcome_of echo circle
    ≡ some (
        error (
          circular (
            record { node_id = "left"; missing_deps = "right" ∷ [] }
            ∷ record { node_id = "right"; missing_deps = "left" ∷ [] }
            ∷ [])))
unfolding program
circle_stops = refl

-- The program stops here, though nothing is missing.
constant_fails : outcome_of echo constant ≡ some (error (thrown entrypoint_not_found))
unfolding program
constant_fails = refl

abbrev chain_graph : Dict (List String)
chain_graph = build_dependency_graph chain.nodes

abbrev circle_graph : Dict (List String)
circle_graph = build_dependency_graph circle.nodes

abbrev end_of : Option (Outcome × Run Db) → Outcome × Run Db
end_of none = (ok none, start chain)
end_of (some last) = last

-- The run in which an execution from the start ends.
abbrev run_of : NodeRunner → WorkflowDefinition → Run Db
run_of run_node definition =
    (end_of (execute_workflow run_node redis_context_service definition (start definition))).1

abbrev answer : Outcome
answer = ok (some (field "answer" (str "hi") end))

abbrev blocked : List Blocked
blocked =
    record { node_id = "left"; missing_deps = "right" ∷ [] }
    ∷ record { node_id = "right"; missing_deps = "left" ∷ [] }
    ∷ []

eq-end_of :
    (x : Option (Outcome × Run Db)) (outcome : Outcome)
    → (elim x [ none ↦ none | some (o, r) ↦ some o ]) ≡ some outcome
    → x ≡ some (outcome, (end_of x).1)
eq-end_of none outcome h = absurd (cc)
eq-end_of (some (o, r)) outcome h = cc

chain_done :
    execute_workflow echo redis_context_service chain (start chain)
    ≡ some (answer, run_of echo chain)
chain_done =
    eq-end_of (execute_workflow echo redis_context_service chain (start chain)) answer chain_runs

circle_done :
    execute_workflow echo redis_context_service circle (start circle)
    ≡ some (error (circular blocked), run_of echo circle)
circle_done =
    eq-end_of (execute_workflow echo redis_context_service circle (start circle))
      (error (circular blocked)) circle_stops

chain-IsFresh : IsFresh (first_context chain)
unfolding program
chain-IsFresh = ((refl, (refl, (refl, tt))), refl)

circle-IsFresh : IsFresh (first_context circle)
unfolding program
circle-IsFresh = ((refl, (refl, (refl, tt))), refl)

abbrev TiedIn : String → Type 0
TiedIn id =
    (ds : List String) × (get id circle_graph ≡ some ds)
    × ((d : String) × (has d ds ≡ true) × (has d ("left" ∷ "right" ∷ []) ≡ true))

circle_IsKnot : IsKnot circle_graph ("left" ∷ "right" ∷ [])
unfolding program
circle_IsKnot = record {
  tied = λ id h. elim (Bool-cases ("left" == id)) [
    | inl e ↦ subst TiedIn ((eq_iff "left" id).0 e) ("right" ∷ [], refl, ("right", refl, refl))
    | inr e ↦
        subst TiedIn ((eq_iff "right" id).0 (ground arith))
          ("left" ∷ [], refl, ("left", refl, refl))
  ];
}

abbrev rank : String → ℕ
rank id = if id == "entrypoint-node" then 0 else if id == "model" then 1 else 2

rank_single :
    (x y d : String) (ds : List String)
    → rank x < rank y
    → some (x ∷ []) ≡ some ds
    → has d ds ≡ true
    → rank d < rank y
unfolding has
rank_single x y d ds h e k = subst (λ z. rank z < rank y) ((eq_iff x d).0 (ground arith)) h

chain-IsRanked : IsRanked chain_graph (first_context chain).all_nodes rank
unfolding program
chain-IsRanked = record {
  known = λ id d ds e h. ground (arith, eq_iff "model" d, eq_iff "entrypoint-node" d);
  below = λ id d ds e h. elim (Bool-cases ("result-node" == id)) [
    | inl same ↦
        subst (IsAbove d ds) ((eq_iff "result-node" id).0 same)
          (λ e'. rank_single "model" "result-node" d ds (omega arith) e' h) e
    | inr other ↦ elim (Bool-cases ("model" == id)) [
      | inl same ↦
          subst (IsAbove d ds) ((eq_iff "model" id).0 same)
            (λ e'. rank_single "entrypoint-node" "model" d ds (omega arith) e' h) e
      | inr other' ↦ absurd (ground arith)
    ]
  ];
}
  where
    IsAbove : String → List String → String → Type 0
    IsAbove d ds id = get id chain_graph ≡ some ds → rank d < rank id

chain-IsValid : IsValid chain_graph (first_context chain)
chain-IsValid = IsFresh-IsValid chain_graph (first_context chain) chain-IsFresh

execute_workflow-Tells_example :
    Tells chain_graph echo redis_context_service chain answer (run_of echo chain)
execute_workflow-Tells_example =
    execute_workflow-Tells echo redis_context_service chain (start chain) answer (run_of echo chain)
      chain-IsValid chain_done

execute_workflow_total_example :
    (end : Outcome × Run Db) × (execute_workflow echo redis_context_service circle (start circle)
      ≡ some end)
execute_workflow_total_example =
    execute_workflow_total echo redis_context_service circle (start circle)

execute-IsEnveloped_example :
    let (made, store') = redis_context_service.initialize [] "w" chain options in
    let executed = execute echo redis_context_service "w" chain options [] in
    ((e : Error) × (made ≡ error e) × (executed ≡ some (error e)))
    ⊎ ((context : ExecutionContext) × (outcome : Outcome) × (before r : Run Db) × (made
          ≡ ok context)
        × (execute_workflow echo redis_context_service chain
              (begun echo redis_context_service context store')
            ≡ some (outcome, before))
        × (executed ≡ some (ok r))
        × IsEnveloped outcome r.events)
execute-IsEnveloped_example = execute-IsEnveloped echo redis_context_service "w" chain options []

abbrev stopped : Outcome
stopped = error (circular blocked)

execute_workflow_knot_example : (e : WorkflowError) × (stopped ≡ error e)
unfolding program
execute_workflow_knot_example =
    execute_workflow_knot echo redis_context_service circle ("left" ∷ "right" ∷ []) "left"
      (start circle) (error (circular blocked)) (run_of echo circle) circle_IsKnot refl refl
      circle-IsFresh circle_done

execute_workflow_ranked_example : answer ≢ error (circular blocked)
execute_workflow_ranked_example =
    execute_workflow_ranked echo redis_context_service chain rank (start chain) answer
      (run_of echo chain) chain-IsRanked chain-IsFresh chain_done blocked

abbrev model : NodeDefinition
model = node_of chat_openai (("text", from "entrypoint-node.prompt") ∷ [])

chain_nodes-IsUnique : IsUnique (keys chain.nodes)
unfolding program
chain_nodes-IsUnique = (refl, (refl, (refl, tt)))

get-build_dependency_graph_example :
    get "model" chain_graph ≡ Option.map sources (get "model" chain.nodes)
get-build_dependency_graph_example =
    get-build_dependency_graph chain.nodes "model" chain_nodes-IsUnique

-- The context after the entrypoint has run.
abbrev second_context : ExecutionContext
second_context =
    (round echo redis_context_service chain ("entrypoint-node" ∷ []) (start chain)).1.context

ready-resolves_example : (fs : Fields) × (resolve_inputs second_context "model" model ≡ ok fs)
unfolding program
ready-resolves_example =
    ready-resolves chain.nodes second_context "model" model chain_nodes-IsUnique refl
      (round-IsValid chain_graph redis_context_service echo chain ("entrypoint-node" ∷ [])
        (start chain) (λ id h. h) chain-IsValid)
      refl
      (λ inputs e. inr (
        record {
          id = "entrypoint-node";
          success = true;
          inputs = some options.inputs;
          output = some options.inputs;
          error_message = none;
          execution_time = 0;
        },
        refl,
      ))

abbrev lonely : NodeDefinition
lonely = node_of chat_openai (("text", fixed (str "hello")) ∷ [])

deserialize-serialize_example :
    deserialize_context (serialize_context second_context) ≡ second_context
unfolding program HasJson
deserialize-serialize_example = deserialize-serialize second_context (record {
  completed_unique = (refl, tt);
  all_unique = (refl, (refl, (refl, tt)));
  inputs_json = (tt, tt);
  executions_json = ((tt, tt), (tt, tt), tt);
})

initialize-update_example :
    initialize (save_context (start chain).store "w" "t" second_context) "w" circle options ≡ (
      ok (deserialize_context (serialize_context second_context)),
      save_context (start chain).store "w" "t" second_context,
    )
unfolding program
initialize-update_example =
    initialize-update (start chain).store (save_context (start chain).store "w" "t" second_context)
      "w" second_context circle options refl

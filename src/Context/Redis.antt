-- ===== src/Context/Redis.antt =====
-- `RedisContextService` of runner/src/services/context/redis-context-service.ts. Redis is a dictionary
-- from keys to texts, and its calls succeed; a text is the value that it parses to, or `unreadable`.
-- An entry disappears by `expire`, which the time to live allows at any moment.
pub mod Laws
use supallm.Common.{
  String, Bool, true, false, Option, none, some, List, [], ◌∷◌, Dict, get, set, keys, has, add,
  Result, ok, error, ◌≡◌, refl, arith, get-set, eq_refl, ◌==◌, ◌||◌, if◌then◌else◌, filter, not,
  map,
}
use Prim.Native.String
use supallm.Values.{
  Value, undefined, null, Fields, end, field, obj, arr, Items, nil, cons, bool, num, str,
  is_defined,
}
use supallm.Nodes.{Error, context_not_found}
use supallm.Context.{NodeExecution, ExecutionContext, WorkflowDefinition, ExecutionOptions}
use supallm.Context.Service.{ContextService}

-- `JSON.stringify` writes null for what is not finite, and no sign of zero.
abbrev pub is_finite : String → Bool
is_finite n = not (n == "NaN" || n == "Infinity" || n == "-Infinity")

abbrev pub json_number : String → Value
json_number n = if is_finite n then (if n == "-0" then num "0" else num n) else null

-- `JSON.parse(JSON.stringify(v))`: a field that holds `undefined` is dropped, and such an element of an
-- array turns into `null`.
unfoldable mutual
  pub json_value : Value → Value
  json_value undefined = undefined
  json_value null = null
  json_value (bool b) = bool b
  json_value (num n) = json_number n
  json_value (str s) = str s
  json_value (arr xs) = arr (json_items xs)
  json_value (obj fs) = obj (json_fields fs)

  pub json_items : Items → Items
  json_items nil = nil
  json_items (cons undefined xs) = cons null (json_items xs)
  json_items (cons v xs) = cons (json_value v) (json_items xs)

  pub json_fields : Fields → Fields
  json_fields end = end
  json_fields (field k undefined fs) = json_fields fs
  json_fields (field k v fs) = field k (json_value v) (json_fields fs)

unfoldable pub json_execution : NodeExecution → NodeExecution
unfolding json_fields
json_execution e = record e {
  inputs = elim e.inputs [ none ↦ none | some fs ↦ some (json_fields fs) ];
  output = elim e.output [ none ↦ none | some fs ↦ some (json_fields fs) ];
}

unfoldable pub json_executions : Dict NodeExecution → Dict NodeExecution
unfolding json_execution
json_executions [] = []
json_executions ((k, e) ∷ d) = (k, json_execution e) ∷ json_executions d

-- A context with its sets as arrays; an array may be missing from a text that another program wrote.
pub record Serialized : Type 0 where
  pub workflow_id : String
  pub session_id : String
  pub trigger_id : String
  pub workflow_inputs : Fields
  pub node_executions : Dict NodeExecution
  pub completed_nodes : Option (List String)
  pub all_nodes : Option (List String)

pub data Entry : Type 0 where
  json : Serialized → Entry
  unreadable : Entry

-- `new Set(array)`
unfoldable pub to_set_from : List String → List String → List String
to_set_from seen [] = seen
to_set_from seen (x ∷ xs) = to_set_from (add x seen) xs

unfoldable pub to_set : Option (List String) → List String
unfolding to_set_from
to_set none = []
to_set (some xs) = to_set_from [] xs

-- `serializeContext`, and the trip through the text
unfoldable pub serialize_context : ExecutionContext → Serialized
unfolding json_fields json_executions
serialize_context c = record {
  workflow_id = c.workflow_id;
  session_id = c.session_id;
  trigger_id = c.trigger_id;
  workflow_inputs = json_fields c.workflow_inputs;
  node_executions = json_executions c.node_executions;
  completed_nodes = some c.completed_nodes;
  all_nodes = some c.all_nodes;
}

unfoldable pub deserialize_context : Serialized → ExecutionContext
unfolding to_set
deserialize_context s = record {
  workflow_id = s.workflow_id;
  session_id = s.session_id;
  trigger_id = s.trigger_id;
  workflow_inputs = s.workflow_inputs;
  node_executions = s.node_executions;
  completed_nodes = to_set s.completed_nodes;
  all_nodes = to_set s.all_nodes;
}

unfoldable pub initialize_context :
    String → WorkflowDefinition → ExecutionOptions → ExecutionContext
unfolding to_set
initialize_context workflow_id definition options = record {
  workflow_id = workflow_id;
  session_id = options.session_id;
  trigger_id = options.trigger_id;
  workflow_inputs = options.inputs;
  node_executions = [];
  completed_nodes = [];
  all_nodes = to_set (some (keys definition.nodes));
}

unfoldable pub get_key : String → String → String
get_key workflow_id trigger_id =
    String.◌++◌ "workflow:context:" (String.◌++◌ workflow_id (String.◌++◌ ":" trigger_id))

abbrev pub Db : Type 0
Db = Dict Entry

-- An entry that is missing or does not parse reads as `null`.
unfoldable pub read_entry : Option Entry → Option ExecutionContext
unfolding deserialize_context
read_entry none = none
read_entry (some unreadable) = none
read_entry (some (json s)) = some (deserialize_context s)

unfoldable pub get_context : Db → String → String → Option ExecutionContext
unfolding get_key read_entry
get_context db workflow_id trigger_id = read_entry (get (get_key workflow_id trigger_id) db)

unfoldable pub save_context : Db → String → String → ExecutionContext → Db
unfolding get_key serialize_context
save_context db workflow_id trigger_id c =
    set (get_key workflow_id trigger_id) (json (serialize_context c)) db

-- A context that is there is taken over, with all that has been completed in it.
unfoldable pub initialize :
    Db → String → WorkflowDefinition → ExecutionOptions → Result ExecutionContext Error × Db
unfolding get_context save_context initialize_context
initialize db workflow_id definition options =
    elim (get_context db workflow_id options.trigger_id) [
      | some c ↦ (ok c, db)
      | none ↦
          let c : ExecutionContext = initialize_context workflow_id definition options in
          (ok c, save_context db workflow_id options.trigger_id c)
    ]

-- `{ ...context, ...update }`, where the update is a whole context
unfoldable pub update_context : Db → String → String → ExecutionContext → Result Db Error
unfolding get_context save_context
update_context db workflow_id trigger_id update = elim (get_context db workflow_id trigger_id) [
  | none ↦ error context_not_found
  | some c ↦ ok (save_context db workflow_id trigger_id update)
]

unfoldable pub mark_node_completed : Db → String → String → String → Result Db Error
unfolding get_context save_context
mark_node_completed db workflow_id trigger_id node_id =
    elim (get_context db workflow_id trigger_id) [
      | none ↦ error context_not_found
      | some c ↦ ok (
          save_context db workflow_id trigger_id
            (record c { completed_nodes = add node_id c.completed_nodes }))
    ]

-- The time to live of an entry ends.
unfoldable pub expire : String → Db → Db
expire key [] = []
expire key ((k, e) ∷ db) = let rest = expire key db in if k == key then rest else (k, e) ∷ rest

get_context-save_context :
    (db : Db) (w t : String) (c : ExecutionContext)
    → get_context (save_context db w t c) w t ≡ some (deserialize_context (serialize_context c))
unfolding get_context save_context read_entry
get_context-save_context db w t c = ground (
  arith,
  get-set (get_key w t) (get_key w t) (json (serialize_context c)) db,
  eq_refl (get_key w t),
)

pub get-update :
    (s t : Db) (w i : String) (c : ExecutionContext)
    → update_context s w i c ≡ ok t
    → get_context t w i ≡ some (deserialize_context (serialize_context c))
unfolding update_context
get-update s t w i c h = ground (arith, get_context-save_context s w i c)

-- The service keeps what the executor relies on.
abbrev pub redis_context_service : ContextService
redis_context_service = record {
  Store = Db;
  initialize = initialize;
  update_context = update_context;
  get_context = get_context;
  kept = λ c. deserialize_context (serialize_context c);
  get-update = get-update;
}

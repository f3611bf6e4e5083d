-- ===== src/Agent.antt =====
-- `Agent` of runner/src/nodes/agent/agent.ts. The models of langchain, what its HumanMessage makes of a
-- value, the cipher, the tool registry and the engine of langgraph, which runs the graph and streams its
-- events, are parameters. How the graph's nodes follow each other is in Agent/Graph.antt.
pub mod Graph
pub mod Conversation
pub mod Laws
mod Tests
use Prim.Native.String
use supallm.Common.{
  ℕ, String, Bool, true, false, Option, none, some, List, [], ◌∷◌, ◌++◌, ◌==◌, ◌||◌, not, map,
  filter, Result, ok, error, ◌>>=◌, if◌then◌else◌, has,
}
use supallm.Values.{Value, str, undefined, Fields, end, field, get_field, truthy}
use supallm.Nodes.{
  NodeDefinition, ToolConfig, MemoryType, no_memory, Error, message, NodeEvent, node_result,
  NodeRun, returned,
}
use supallm.Memory.{
  create as create_memory, Message, Db, MemoryError, Memory, memory_messages, memory_add,
}
use supallm.Common.Chars.{Chars}
use supallm.Tools.{Created, ToolRun, Services, text_of, or_default}
use supallm.Tools.Registry.{create}

-- The messages of langchain: an answer with the ids of its tool calls, and the response to one.
pub data ChatMessage : Type 0 where
  system human : String → ChatMessage
  ai : String → List String → ChatMessage
  tool : String → String → ChatMessage

unfoldable pub is_system : ChatMessage → Bool
is_system (system s) = true
is_system _ = false

-- What the memory keeps is of the first two kinds.
unfoldable pub remembered : Message → ChatMessage
remembered (Message.human s) = human s
remembered (Message.ai s b) = ai s []
remembered (Message.unlike s) = system s

unfoldable pub last : List ChatMessage → Option ChatMessage
last [] = none
last (m ∷ []) = some m
last (m ∷ n ∷ ms) = last (n ∷ ms)

unfoldable pub tool_calls : Option ChatMessage → List String
tool_calls (some (ai s calls)) = calls
tool_calls _ = []

-- The `tool_call_id`s of the tool messages.
unfoldable pub responses : List ChatMessage → List String
responses [] = []
responses (tool id s ∷ ms) = id ∷ responses ms
responses (system s ∷ ms) = responses ms
responses (human s ∷ ms) = responses ms
responses (ai s calls ∷ ms) = responses ms

abbrev pub some_system : List ChatMessage → Bool
some_system [] = false
some_system (m ∷ ms) = let rest = some_system ms in if is_system m then true else rest

-- The tool calls of the last message that have no response.
unfoldable pub missing_tool_calls : List ChatMessage → List String
unfolding last tool_calls responses
missing_tool_calls messages =
    filter (λ id. not (has id (responses messages))) (tool_calls (last messages))

-- The messages that the model is given.
unfoldable pub all_messages : String → List ChatMessage → List ChatMessage
unfolding is_system
all_messages instructions messages =
    if some_system messages then messages else system instructions ∷ messages

-- `invoke`: the model's answer, or what it throws.
unfoldable pub call_model :
    (List ChatMessage → Result ChatMessage Error)
    → String
    → List ChatMessage
    → Result (List ChatMessage) Error
unfolding missing_tool_calls all_messages
call_model invoke instructions messages = elim (missing_tool_calls messages) [
  | id ∷ ids ↦ ok messages
  | [] ↦
      let all = all_messages instructions messages in
      invoke all >>= λ response. ok (all ++ response ∷ [])
]

-- The nodes of the graph.
pub data GraphNode : Type 0 where
  agent tools finish : GraphNode

unfoldable pub should_continue : List ChatMessage → GraphNode
unfolding last tool_calls
should_continue messages = elim (tool_calls (last messages)) [ [] ↦ finish | id ∷ ids ↦ tools ]

-- A tool as langchain calls it: what it reports, and what it returns or throws.
pub record DynamicTool : Type 0 where
  pub name : String
  pub description : String
  pub func : Fields → ToolRun

unfoldable pub dynamic_tool : Created → DynamicTool
dynamic_tool t = record { name = t.tool.name; description = t.tool.description; func = t.run }

unfoldable pub convert_tools :
    (ToolConfig → Result Created Error) → List ToolConfig → Result (List DynamicTool) Error
unfolding dynamic_tool
convert_tools make [] = ok []
convert_tools make (c ∷ cs) =
    make c >>= λ t. convert_tools make cs >>= λ ts. ok (dynamic_tool t ∷ ts)

pub data ChatModel : Type 0 where
  chat_openai chat_anthropic : Value → String → ChatModel

abbrev provider_named : String → Value → String → Result ChatModel Error
provider_named name model key =
    if name == "openai"
    then ok (chat_openai model key)
    else if name == "anthropic"
    then ok (chat_anthropic model key)
    else error (message "Invalid agent LLM provider")

unfoldable pub create_llm : (Value → Result String Error) → Fields → Result ChatModel Error
unfolding truthy
create_llm decrypt config = decrypt (get_field "apiKey" config) >>= λ key.
    let model = get_field "model" config in
    if truthy model
    then provider_named (text_of (get_field "provider" config)) model key
    else error (message "No model provided")

-- What the loop over the stream meets, in order: the text of a chunk of a chat model, an event that a
-- tool reports meanwhile, or another event of the stream.
pub data Happening : Type 0 where
  chunk : Value → Happening
  reported_by_tool : NodeEvent → Happening
  unrelated : Happening

pub record Streamed : Type 0 where
  pub happenings : List Happening
  pub broken : Option Error

unfoldable pub result_event : String → NodeEvent
result_event content = record {
  type = node_result;
  node_id = none;
  payload =
      field "outputField" (str "response")
        (field "ioType" (str "text") (field "data" (str content) end));
}

-- The events in order, and the response, which begins as `full`.
unfoldable pub read_stream : String → List Happening → List NodeEvent × String
unfolding result_event
read_stream full [] = ([], full)
read_stream full (chunk (str content) ∷ hs) =
    let (events, all) = read_stream (String.◌++◌ full content) hs in
    (result_event content ∷ events, all)
read_stream full (chunk _ ∷ hs) = read_stream full hs
read_stream full (reported_by_tool e ∷ hs) =
    let (events, all) = read_stream full hs in (e ∷ events, all)
read_stream full (unrelated ∷ hs) = read_stream full hs

abbrev default_instructions : String
default_instructions =
    "You are a helpful AI assistant that can analyze the sentiment of text.\n\nWhen a user provides text for sentiment analysis, you should:\n1. Use the available sentiment analysis tool to analyze the text\n2. Return the result (Positive, Negative, or Neutral)\n3. If you need more context, ask for it politely\n\nDo not mention anything about \"missing tools\" or \"tool configuration\" to the user - if you have access to the sentiment analysis tool, just use it."

unfoldable pub instructions_of : Fields → String
unfolding or_default
instructions_of config = or_default (text_of (get_field "instructions" config)) default_instructions

-- `services` and the three fields after it are those of the tool registry. `stream_events`: what langgraph streams for the model with its tools, the instructions of `callModel`
-- and the initial messages, or what the call throws.
pub record Engine : Type 0 where
  pub decrypt : Value → Result String Error
  pub services : Services
  pub variables_of : Fields → Chars → Option Value
  pub missing : Chars → Error
  pub description_of : ToolConfig → String
  pub memory_error : MemoryError → Error
  pub human_content : Value → Result String Error
  pub error_text : Error → String
  pub stream_events :
      ChatModel → List DynamicTool → String → List ChatMessage → Result Streamed Error

module _ (engine : Engine) (now : ℕ) (session_id node_id : String) where
  unfoldable pub execution_failed : Error → Result Fields Error
  execution_failed e =
      error (message (String.◌++◌ "agent execution failed: " (engine.error_text e)))

  -- A history that cannot be read counts as none.
  unfoldable pub history : Memory → Db → List ChatMessage
  unfolding remembered memory_messages
  history memory db = elim (memory_messages memory db session_id node_id) [
    | ok ms ↦ map remembered ms
    | error e ↦ []
  ]

  -- What follows the start of the stream. The result of `addMessages` is not looked at.
  unfoldable pub answer : Memory → String → Streamed → Db → NodeRun × Db
  unfolding read_stream execution_failed memory_add
  answer memory prompt s db =
      let (events, response) = read_stream "" s.happenings in
      elim s.broken [
        | some e ↦ (record { reported = events; ending = returned (execution_failed e) }, db)
        | none ↦ (
          record {
            reported = events;
            ending = returned (ok (field "response" (str response) end));
          },
          (memory_add memory now db session_id node_id
              (Message.human prompt ∷ Message.ai response false ∷ [])).1,
        )
      ]

  abbrev pub silent : Result Fields Error → Db → NodeRun × Db
  silent r db = (record { reported = []; ending = returned r }, db)

  unfoldable pub run_graph :
      Memory → ChatModel → List DynamicTool → Fields → Fields → Db → NodeRun × Db
  unfolding instructions_of history answer execution_failed
  run_graph memory llm bound config inputs db =
      let instructions = instructions_of config in
      elim (engine.human_content (get_field "prompt" inputs)) [
        | error e ↦ silent (execution_failed e) db
        | ok prompt ↦
            elim (engine.stream_events llm bound instructions
              (system instructions ∷ history memory db ++ human prompt ∷ [])) [
                | error e ↦ silent (execution_failed e) db
                | ok s ↦ answer memory prompt s db
              ]
      ]

  abbrev pub or_no_memory : Option MemoryType → MemoryType
  or_no_memory none = no_memory
  or_no_memory (some m) = m

  abbrev pub or_no_tools : Option (List ToolConfig) → List ToolConfig
  or_no_tools none = []
  or_no_tools (some ts) = ts

  unfoldable pub execute : NodeDefinition → Fields → Db → NodeRun × Db
  unfolding create_llm convert_tools create create_memory run_graph execution_failed
  execute definition inputs db = elim (create_memory (or_no_memory definition.memory)) [
    | error e ↦ silent (error (engine.memory_error e)) db
    | ok memory ↦ elim (create_llm engine.decrypt definition.config) [
      | error e ↦ silent (error e) db
      | ok llm ↦
          elim (convert_tools
            (create engine.services engine.variables_of engine.missing engine.description_of)
            (or_no_tools definition.tools)) [
              | error e ↦ silent (execution_failed e) db
              | ok bound ↦ run_graph memory llm bound definition.config inputs db
            ]
    ]
  ]

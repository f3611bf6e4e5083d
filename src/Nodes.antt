-- ===== src/Nodes.antt =====
-- runner/src/nodes/types.ts, with the configuration types of runner/src/tools/tool.interface.ts and
-- runner/src/memory/memory.interface.ts that a node's definition holds.
pub mod Manager
use supallm.Common.{String, Bool, true, false, Option, List, Dict, Result}
use supallm.Values.{Value, Fields}

pub data NodeType : Type 0 where
  chat_openai chat_anthropic chat_mistral chat_grok chat_gemini chat_deepseek chat_ollama : NodeType
  entrypoint result code_executor ai_agent : NodeType

pub data NodeIoType : Type 0 where
  text image any : NodeIoType

-- `source` is "nodeId.outputField" or "nodeId"; a missing `value` is `undefined`.
pub record NodeInputDef : Type 0 where
  pub source : Option String
  pub type : Option NodeIoType
  pub value : Value

pub record NodeOutputDef : Type 0 where
  pub type : NodeIoType
  pub result_key : Option String

pub data ToolType : Type 0 where
  chat_openai_as_tool discord_notifier http_request sdk_notifier_tool : ToolType
  postgres_query_tool brave_search_tool sonar_search_tool firecrawl_scraper_tool : ToolType

pub record ToolConfig : Type 0 where
  pub id : String
  pub name : String
  pub description : String
  pub type : ToolType
  pub config : Fields

-- `other` is a type name that the registry does not know.
pub data MemoryType : Type 0 where
  local_memory no_memory : MemoryType
  other : String → MemoryType

pub record NodeDefinition : Type 0 where
  pub type : NodeType
  pub inputs : Option (Dict NodeInputDef)
  pub outputs : Option (Dict NodeOutputDef)
  pub tools : Option (List ToolConfig)
  pub memory : Option MemoryType
  pub config : Fields

-- An `Error`, by the values that its message is made of. `message` is one that a node's
-- implementation or a library makes.
pub data Error : Type 0 where
  message : String → Error
  node_not_found definition_not_found : String → Error
  entrypoint_not_found result_not_found context_not_found : Error
  no_implementation : NodeType → Error

-- The events that a node's implementation may report by `options.onEvent`.
pub data NodeEventType : Type 0 where
  node_result agent_notification node_log tool_started tool_completed tool_failed : NodeEventType

pub record NodeEvent : Type 0 where
  pub type : NodeEventType
  pub node_id : Option String
  pub payload : Fields

-- How a call of `INode.execute` ends: it returns a `Result`, or its promise is rejected.
pub data Ending : Type 0 where
  returned : Result Fields Error → Ending
  rejected : Error → Ending

-- A whole call: the events in order, then the ending.
pub record NodeRun : Type 0 where
  pub reported : List NodeEvent
  pub ending : Ending

-- `INode.execute` by node id, definition and inputs; `options` is what reads `reported`.
abbrev pub NodeRunner : Type 0
NodeRunner = String → NodeDefinition → Fields → NodeRun

unfoldable pub is_result : NodeType → Bool
is_result result = true
is_result entrypoint = false
is_result _ = false

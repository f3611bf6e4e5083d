-- ===== src/Nodes/Manager.antt =====
-- `NodeManager` of runner/src/services/node/node-manager.ts, with the entrypoint and result nodes of
-- runner/src/nodes/base. The other implementations are parameters.
mod Tests
use supallm.Common.{
  String, Option, none, some, List, [], ◌∷◌, Dict, get, set, Result, ok, error, ◌≡◌, refl, ap,
  if◌then◌else◌, ◌==◌,
}
use supallm.Values.{Fields, end, spread}
use supallm.Nodes.{
  NodeType, chat_openai, chat_anthropic, chat_mistral, chat_grok, chat_gemini, chat_deepseek,
  chat_ollama, entrypoint, result, code_executor, ai_agent, NodeDefinition, NodeRun, NodeRunner,
  Error, no_implementation, returned, rejected,
}

unfoldable pub type_name : NodeType → String
type_name chat_openai = "chat-openai"
type_name chat_anthropic = "chat-anthropic"
type_name chat_mistral = "chat-mistral"
type_name chat_grok = "chat-grok"
type_name chat_gemini = "chat-gemini"
type_name chat_deepseek = "chat-deepseek"
type_name chat_ollama = "chat-ollama"
type_name entrypoint = "entrypoint"
type_name result = "result"
type_name code_executor = "code-executor"
type_name ai_agent = "ai-agent"

-- `{ ...inputs }`
unfoldable pub entrypoint_node : NodeRunner
unfolding spread
entrypoint_node node_id definition inputs = record {
  reported = [];
  ending = returned (ok (spread end inputs));
}

unfoldable pub result_node : NodeRunner
result_node node_id definition inputs = record { reported = []; ending = returned (ok inputs) }

-- The implementations in other files.
pub record Implementations : Type 0 where
  pub anthropic_provider : NodeRunner
  pub openai_provider : NodeRunner
  pub gemini_provider : NodeRunner
  pub mistral_provider : NodeRunner
  pub grok_provider : NodeRunner
  pub deepseek_provider : NodeRunner
  pub ollama_provider : NodeRunner
  pub code_executor_node : NodeRunner
  pub agent : NodeRunner

unfoldable pub register_node : NodeType → NodeRunner → Dict NodeRunner → Dict NodeRunner
unfolding type_name
register_node type node nodes = set (type_name type) node nodes

unfoldable pub registered_nodes : Implementations → Dict NodeRunner
unfolding register_node entrypoint_node result_node
registered_nodes i = register_node ai_agent i.agent (
    register_node code_executor i.code_executor_node (
      register_node result result_node (
        register_node entrypoint entrypoint_node (
          register_node chat_ollama i.ollama_provider (
            register_node chat_deepseek i.deepseek_provider (
              register_node chat_grok i.grok_provider (
                register_node chat_mistral i.mistral_provider (
                  register_node chat_gemini i.gemini_provider (
                    register_node chat_openai i.openai_provider
                      (register_node chat_anthropic i.anthropic_provider []))))))))))

unfoldable pub get_node : Dict NodeRunner → NodeType → Result NodeRunner Error
unfolding type_name
get_node nodes type = elim (get (type_name type) nodes) [
  | none ↦ error (no_implementation type)
  | some node ↦ ok node
]

-- `executeNode`: what `getNode` throws rejects its promise.
unfoldable pub execute_node : Dict NodeRunner → NodeRunner
unfolding get_node
execute_node nodes node_id definition inputs = elim (get_node nodes definition.type) [
  | error e ↦ record { reported = []; ending = rejected e }
  | ok node ↦ node node_id definition inputs
]

-- The implementation that a type stands for.
abbrev pub implementation : Implementations → NodeType → NodeRunner
implementation i chat_openai = i.openai_provider
implementation i chat_anthropic = i.anthropic_provider
implementation i chat_mistral = i.mistral_provider
implementation i chat_grok = i.grok_provider
implementation i chat_gemini = i.gemini_provider
implementation i chat_deepseek = i.deepseek_provider
implementation i chat_ollama = i.ollama_provider
implementation i entrypoint = entrypoint_node
implementation i result = result_node
implementation i code_executor = i.code_executor_node
implementation i ai_agent = i.agent

get_node-registered :
    (i : Implementations) (type : NodeType)
    → get_node (registered_nodes i) type ≡ ok (implementation i type)
unfolding get_node registered_nodes get set
get_node-registered i chat_openai = refl
get_node-registered i chat_anthropic = refl
get_node-registered i chat_mistral = refl
get_node-registered i chat_grok = refl
get_node-registered i chat_gemini = refl
get_node-registered i chat_deepseek = refl
get_node-registered i chat_ollama = refl
get_node-registered i entrypoint = refl
get_node-registered i result = refl
get_node-registered i code_executor = refl
get_node-registered i ai_agent = refl

-- Every node type has an implementation, its own: no node is ever rejected for its type.
pub execute_node-registered :
    (i : Implementations) (node_id : String) (definition : NodeDefinition) (inputs : Fields)
    → execute_node (registered_nodes i) node_id definition inputs
      ≡ implementation i definition.type node_id definition inputs
unfolding execute_node
execute_node-registered i node_id definition inputs =
    rw (execute_node, get_node-registered i definition.type)

-- ===== src/Frontend/NodeTypes.antt =====
-- The types of nodes that the frontend knows: frontend/src/components/builder/node-types.ts.
use supallm.Common.{String, Bool, List, [], ◌∷◌, ◌||◌, has}

abbrev pub tool_node_types : List String
tool_node_types =
    "http-tool" ∷ "chat-openai-as-tool" ∷ "sdk-notifier-tool" ∷ "e2b-interpreter-tool"
    ∷ "e2b-code-interpreter-tool" ∷ "notion-database-tool" ∷ "postgres-query-tool"
    ∷ "confluence-tool" ∷ "airtable-tool" ∷ "slack-tool" ∷ "firecrawl-scraper-tool"
    ∷ "brave-search-tool" ∷ "sonar-search-tool" ∷ []

abbrev pub utility_node_types : List String
utility_node_types = "local-memory" ∷ "model-openai" ∷ []

abbrev pub main_node_types : List String
main_node_types =
    "entrypoint" ∷ "result" ∷ "chat-openai" ∷ "chat-anthropic" ∷ "chat-google" ∷ "chat-azure"
    ∷ "chat-mistral" ∷ "chat-ollama" ∷ "code-executor" ∷ "user-feedback" ∷ "ai-agent" ∷ []

unfoldable pub is_main_node_type : String → Bool
unfolding has
is_main_node_type node_type = has node_type main_node_types

unfoldable pub is_tool_node_type : String → Bool
unfolding has
is_tool_node_type node_type = has node_type tool_node_types

unfoldable pub is_running_flow_node_type : String → Bool
unfolding is_main_node_type is_tool_node_type
is_running_flow_node_type node_type = is_main_node_type node_type || is_tool_node_type node_type

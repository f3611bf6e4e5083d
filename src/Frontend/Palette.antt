-- ===== src/Frontend/Palette.antt =====
-- The dialog that adds nodes, and which types of nodes are drawn. In frontend/src: add-node-dialog.tsx of
-- components/builder/add-node-dialog, the `nodeTypes` of app/builder/chat-flow/[id]/page.tsx and of
-- running-flow.tsx, and the titles of running-flow-node.tsx. Logos are left out.
pub mod Groups
mod Tests
use supallm.Common.{
  ℕ, zero, suc, String, Bool, true, false, Option, none, some, List, [], ◌∷◌, ◌++◌, ◌&&◌, ◌+◌, leb,
  nat_eq, if◌then◌else◌, map, filter,
}
use supallm.Common.Chars.{Chars, codes}
use supallm.Frontend.AvailableNodes.{
  NodeCategory, chat, code, ai_agent, agent_model, agent_memory, agent_tools, AvailableNode,
  available_nodes,
}

-- The types that the editor has a component for; for the others it draws nothing.
abbrev pub drawn_types : List String
drawn_types =
    "chat-openai" ∷ "result" ∷ "entrypoint" ∷ "code-executor" ∷ "http-request" ∷ "chat-anthropic"
    ∷ "chat-mistral" ∷ "chat-ollama" ∷ "user-feedback" ∷ "local-memory" ∷ "ai-agent"
    ∷ "model-openai" ∷ "chat-openai-as-tool" ∷ "http-tool" ∷ "sdk-notifier-tool"
    ∷ "e2b-code-interpreter-tool" ∷ "notion-database-tool" ∷ "postgres-query-tool"
    ∷ "confluence-tool" ∷ "airtable-tool" ∷ "slack-tool" ∷ "firecrawl-scraper-tool"
    ∷ "brave-search-tool" ∷ "sonar-search-tool" ∷ []

abbrev pub blank_types : List String
blank_types =
    "e2b-interpreter-tool" ∷ "chat-google" ∷ "chat-azure" ∷ "model-anthropic" ∷ "model-google"
    ∷ "model-azure" ∷ "model-mistral" ∷ "model-ollama" ∷ []

-- The types that the view of a run draws.
abbrev pub running_types : List String
running_types =
    "chat-openai" ∷ "result" ∷ "entrypoint" ∷ "user-feedback" ∷ "code-executor" ∷ "e2b-interpreter"
    ∷ "http-request" ∷ "chat-anthropic" ∷ "chat-google" ∷ "chat-azure" ∷ "chat-mistral"
    ∷ "chat-ollama" ∷ "ai-agent" ∷ "model-openai" ∷ "http-tool" ∷ "chat-openai-as-tool"
    ∷ "sdk-notifier-tool" ∷ "e2b-interpreter-tool" ∷ "confluence-tool" ∷ "airtable-tool"
    ∷ "notion-database-tool" ∷ "postgres-query-tool" ∷ "slack-tool" ∷ "e2b-code-interpreter-tool"
    ∷ "brave-search-tool" ∷ "firecrawl-scraper-tool" ∷ "sonar-search-tool" ∷ []

abbrev pub node_titles : List (String × String)
node_titles =
    ("code-executor", "Code executor")
    ∷ ("chat-openai", "Chat OpenAI")
    ∷ ("entrypoint", "Flow input")
    ∷ ("chat-anthropic", "Chat Anthropic")
    ∷ ("chat-mistral", "Chat Mistral")
    ∷ ("chat-ollama", "Chat Ollama")
    ∷ ("result", "Flow output")
    ∷ ("ai-agent", "AI Agent")
    ∷ ("model-openai", "OpenAI Model")
    ∷ ("chat-openai-as-tool", "OpenAI LLM")
    ∷ ("local-memory", "Local memory")
    ∷ ("user-feedback", "User feedback")
    ∷ ("http-tool", "HTTP")
    ∷ ("sdk-notifier-tool", "SDK notifier")
    ∷ ("postgres-query-tool", "Postgres query")
    ∷ ("brave-search-tool", "Brave Search")
    ∷ ("sonar-search-tool", "Sonar by Perplexity")
    ∷ ("firecrawl-scraper-tool", "Firecrawl")
    ∷ []

-- `expectedOrder.indexOf`
abbrev pub category_index : NodeCategory → ℕ
category_index ai_agent = 0
category_index agent_model = 1
category_index agent_memory = 2
category_index agent_tools = 3
category_index chat = 4
category_index code = 5

abbrev pub same_category : NodeCategory → NodeCategory → Bool
same_category a b = nat_eq (category_index a) (category_index b)

-- `toLowerCase`, of the letters that the names have.
abbrev lower_case : Chars → Chars
lower_case s = map (λ c. if leb b'A' c && leb c b'Z' then c + 32 else c) s

unfoldable pub begins : Chars → Chars → Bool
begins [] s = true
begins (c ∷ t) [] = false
begins (c ∷ t) (d ∷ s) = nat_eq c d && begins t s

unfoldable pub includes : Chars → Chars → Bool
unfolding begins
includes t [] = begins t []
includes t (c ∷ s) = let later = includes t s in if begins t (c ∷ s) then true else later

unfoldable pub filtered_nodes : Chars → List AvailableNode
unfolding includes codes
filtered_nodes search =
    filter (λ n. includes (lower_case search) (lower_case (codes n.name))) available_nodes

-- One node more in the `Map`, in the list of its category.
unfoldable pub push_node :
    AvailableNode
    → List (NodeCategory × List AvailableNode)
    → List (NodeCategory × List AvailableNode)
push_node n [] = (n.category, n ∷ []) ∷ []
push_node n ((c, ns) ∷ by_category) =
    let rest = push_node n by_category in
    if same_category c n.category then (c, ns ++ n ∷ []) ∷ by_category else (c, ns) ∷ rest

unfoldable pub push_nodes :
    List AvailableNode
    → List (NodeCategory × List AvailableNode)
    → List (NodeCategory × List AvailableNode)
unfolding push_node
push_nodes [] by_category = by_category
push_nodes (n ∷ ns) by_category = push_nodes ns (push_node n by_category)

-- `sort` is stable: an entry goes before the first one of a greater index.
unfoldable pub insert_entry :
    NodeCategory × List AvailableNode
    → List (NodeCategory × List AvailableNode)
    → List (NodeCategory × List AvailableNode)
insert_entry e [] = e ∷ []
insert_entry e (f ∷ fs) =
    let rest = insert_entry e fs in
    if leb (category_index e.0) (category_index f.0) then e ∷ f ∷ fs else f ∷ rest

unfoldable pub sort_entries :
    List (NodeCategory × List AvailableNode) → List (NodeCategory × List AvailableNode)
unfolding insert_entry
sort_entries [] = []
sort_entries (e ∷ es) = insert_entry e (sort_entries es)

unfoldable pub filtered_nodes_by_category : Chars → List (NodeCategory × List AvailableNode)
unfolding filtered_nodes push_nodes sort_entries
filtered_nodes_by_category search = sort_entries (push_nodes (filtered_nodes search) [])

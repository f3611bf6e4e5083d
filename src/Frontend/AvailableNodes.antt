-- ===== src/Frontend/AvailableNodes.antt =====
-- The nodes that can be added to a flow, or will be: available-nodes.tsx of
-- frontend/src/components/builder/add-node-dialog. Logos are left out.
use supallm.Common.{String, Bool, true, false, List, [], ◌∷◌}

pub data NodeCategory : Type 0 where
  chat code ai_agent agent_model agent_memory agent_tools : NodeCategory

abbrev pub node_category_label : NodeCategory → String
node_category_label ai_agent = "AI Agent"
node_category_label agent_model = "AI Agent Model"
node_category_label agent_memory = "AI Agent Memory"
node_category_label agent_tools = "AI Agent Tools"
node_category_label chat = "Chat"
node_category_label code = "Code"

pub record AvailableNode : Type 0 where
  pub category : NodeCategory
  pub type : String
  pub name : String
  pub description : String
  pub comming_soon : Bool

abbrev pub available_nodes : List AvailableNode
available_nodes =
    record {
      category = chat;
      type = "chat-openai";
      name = "OpenAI Chat Completion";
      description = "Use this node to send a message to an OpenAI Chat Completion model";
      comming_soon = false;
    }
    ∷ record {
      category = chat;
      type = "chat-anthropic";
      name = "Anthropic Chat Completion";
      description = "Use this node to send a message to an Anthropic Chat Completion model";
      comming_soon = false;
    }
    ∷ record {
      category = chat;
      type = "chat-mistral";
      name = "Mistral Chat Completion";
      description = "Use this node to send a message to a Mistral Chat Completion model";
      comming_soon = false;
    }
    ∷ record {
      category = chat;
      type = "chat-ollama";
      name = "Ollama Chat Completion";
      description = "Use this node to send a message to an Ollama Chat Completion model";
      comming_soon = false;
    }
    ∷ record {
      category = ai_agent;
      type = "ai-agent";
      name = "AI Agent";
      description = "Use this node to create an autonomous AI agent that can perform tasks";
      comming_soon = false;
    }
    ∷ record {
      category = agent_model;
      type = "model-openai";
      name = "OpenAI Model";
      description = "Connect OpenAI models to your flow";
      comming_soon = false;
    }
    ∷ record {
      category = code;
      type = "code-executor";
      name = "Code executor";
      description = "Run custom TypeScript in our secure sandbox";
      comming_soon = false;
    }
    ∷ record {
      category = agent_tools;
      type = "chat-openai-as-tool";
      name = "OpenAI LLM as tool";
      description = "Use an OpenAI LLM model as an agent tool";
      comming_soon = false;
    }
    ∷ record {
      category = agent_tools;
      type = "sdk-notifier-tool";
      name = "SDK Notifier";
      description = "Allow the AI agent to output information to the SDK";
      comming_soon = false;
    }
    ∷ record {
      category = agent_tools;
      type = "postgres-query-tool";
      name = "Postgres Query tool";
      description = "Provide pre-defined SQL queries that the AI agent can use securely";
      comming_soon = false;
    }
    ∷ record {
      category = agent_tools;
      type = "brave-search-tool";
      name = "Brave Search";
      description = "Use Brave Search API to perform web searches";
      comming_soon = false;
    }
    ∷ record {
      category = agent_tools;
      type = "sonar-search-tool";
      name = "Sonar by Perplexity";
      description = "Use Perplexity's Sonar API for advanced search and analysis";
      comming_soon = false;
    }
    ∷ record {
      category = agent_tools;
      type = "firecrawl-scraper-tool";
      name = "Firecrawl Scraper";
      description = "Scrape web pages using Firecrawl";
      comming_soon = false;
    }
    ∷ record {
      category = agent_tools;
      type = "http-tool";
      name = "HTTP Client";
      description = "Allow the AI agent make HTTP requests";
      comming_soon = true;
    }
    ∷ record {
      category = agent_memory;
      type = "local-memory";
      name = "Local memory";
      description = "Store data in the local memory";
      comming_soon = false;
    }
    ∷ record {
      category = agent_tools;
      type = "user-feedback";
      name = "User feedback";
      description = "Ask for user feedback during the flow";
      comming_soon = true;
    }
    ∷ record {
      category = agent_tools;
      type = "e2b-code-interpreter-tool";
      name = "E2B Code Interpreter";
      description = "Give the AI agent the ability to execute code in a secure E2B sandbox";
      comming_soon = true;
    }
    ∷ record {
      category = chat;
      type = "chat-google";
      name = "Google Chat Completion";
      description = "Use this node to send a message to a Google Chat Completion model";
      comming_soon = true;
    }
    ∷ record {
      category = chat;
      type = "chat-azure";
      name = "Azure Chat Completion";
      description = "Use this node to send a message to an Azure Chat Completion model";
      comming_soon = true;
    }
    ∷ record {
      category = agent_tools;
      type = "notion-database-tool";
      name = "Notion Database tool";
      description = "Allow the AI agent to interact with Notion databases";
      comming_soon = true;
    }
    ∷ record {
      category = agent_tools;
      type = "confluence-tool";
      name = "Confluence";
      description = "Search and retrieve information from Confluence";
      comming_soon = true;
    }
    ∷ record {
      category = agent_tools;
      type = "airtable-tool";
      name = "Airtable";
      description = "Interact with Airtable bases and tables";
      comming_soon = true;
    }
    ∷ record {
      category = agent_tools;
      type = "slack-tool";
      name = "Slack";
      description = "Send messages to Slack channels and interact with Slack workspaces";
      comming_soon = true;
    }
    ∷ []

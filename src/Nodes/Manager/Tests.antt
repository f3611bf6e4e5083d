-- ===== src/Nodes/Manager/Tests.antt =====
-- A result node among implementations that fail.
use supallm.Common.{[], none, error}
use supallm.Values.{end}
use supallm.Nodes.{NodeDefinition, NodeRunner, result, message, returned}
use supallm.Nodes.Manager.{Implementations}

abbrev failing : NodeRunner
failing node_id definition inputs = record {
  reported = [];
  ending = returned (error (message "no"));
}

abbrev failures : Implementations
failures = record {
  anthropic_provider = failing;
  openai_provider = failing;
  gemini_provider = failing;
  mistral_provider = failing;
  grok_provider = failing;
  deepseek_provider = failing;
  ollama_provider = failing;
  code_executor_node = failing;
  agent = failing;
}

abbrev last_node : NodeDefinition
last_node = record {
  type = result;
  inputs = none;
  outputs = none;
  tools = none;
  memory = none;
  config = end;
}

-- ===== src/Llm/Providers.antt =====
-- The providers of runner/src/nodes/llm: what `prepare...Options` reads of the configuration, and the
-- provider that its class makes with `execute` and `generateResponse` of Llm.antt.
use supallm.Common.{true, false, Result, ok, error, if◌then◌else◌}
use supallm.Values.{undefined, Fields, get_field, truthy}
use supallm.Llm.{LlmError, missing_option, LlmOptions, ProviderOptions, Provider}

unfoldable pub prepare_openai_options : LlmOptions → Fields → Result ProviderOptions LlmError
prepare_openai_options config definition = ok (record {
  config = config;
  temperature = get_field "temperature" definition;
  max_tokens = get_field "maxCompletionTokens" definition;
  output_mode = get_field "outputMode" definition;
  system_prompt = get_field "developerMessage" definition;
  base_url = undefined;
})

unfoldable pub openai_provider : Provider
unfolding prepare_openai_options
openai_provider = record {
  label = "openai";
  prepare_options = prepare_openai_options;
  streams_chat_only = true;
}

unfoldable pub prepare_anthropic_options : LlmOptions → Fields → Result ProviderOptions LlmError
prepare_anthropic_options config definition = ok (record {
  config = config;
  temperature = get_field "temperature" definition;
  max_tokens = get_field "maxTokenToSample" definition;
  output_mode = get_field "outputMode" definition;
  system_prompt = get_field "systemPrompt" definition;
  base_url = undefined;
})

unfoldable pub anthropic_provider : Provider
unfolding prepare_anthropic_options
anthropic_provider = record {
  label = "Anthropic";
  prepare_options = prepare_anthropic_options;
  streams_chat_only = false;
}

unfoldable pub prepare_deepseek_options : LlmOptions → Fields → Result ProviderOptions LlmError
prepare_deepseek_options config definition = ok (record {
  config = config;
  temperature = get_field "temperature" definition;
  max_tokens = get_field "maxTokens" definition;
  output_mode = get_field "outputMode" definition;
  system_prompt = get_field "systemPrompt" definition;
  base_url = undefined;
})

unfoldable pub deepseek_provider : Provider
unfolding prepare_deepseek_options
deepseek_provider = record {
  label = "DeepSeek";
  prepare_options = prepare_deepseek_options;
  streams_chat_only = false;
}

unfoldable pub prepare_gemini_options : LlmOptions → Fields → Result ProviderOptions LlmError
prepare_gemini_options config definition = ok (record {
  config = config;
  temperature = get_field "temperature" definition;
  max_tokens = get_field "maxTokens" definition;
  output_mode = get_field "outputMode" definition;
  system_prompt = get_field "systemPrompt" definition;
  base_url = undefined;
})

unfoldable pub gemini_provider : Provider
unfolding prepare_gemini_options
gemini_provider = record {
  label = "Gemini";
  prepare_options = prepare_gemini_options;
  streams_chat_only = false;
}

unfoldable pub prepare_grok_options : LlmOptions → Fields → Result ProviderOptions LlmError
prepare_grok_options config definition = ok (record {
  config = config;
  temperature = get_field "temperature" definition;
  max_tokens = get_field "maxTokens" definition;
  output_mode = get_field "outputMode" definition;
  system_prompt = get_field "systemPrompt" definition;
  base_url = undefined;
})

unfoldable pub grok_provider : Provider
unfolding prepare_grok_options
grok_provider = record {
  label = "Groq";
  prepare_options = prepare_grok_options;
  streams_chat_only = false;
}

unfoldable pub prepare_mistral_options : LlmOptions → Fields → Result ProviderOptions LlmError
prepare_mistral_options config definition = ok (record {
  config = config;
  temperature = get_field "temperature" definition;
  max_tokens = get_field "maxTokens" definition;
  output_mode = get_field "outputMode" definition;
  system_prompt = undefined;
  base_url = undefined;
})

unfoldable pub mistral_provider : Provider
unfolding prepare_mistral_options
mistral_provider = record {
  label = "Mistral";
  prepare_options = prepare_mistral_options;
  streams_chat_only = false;
}

unfoldable pub prepare_ollama_options : LlmOptions → Fields → Result ProviderOptions LlmError
unfolding truthy
prepare_ollama_options config definition =
    if truthy (get_field "baseUrl" definition)
    then ok (record {
      config = config;
      temperature = get_field "temperature" definition;
      max_tokens = get_field "maxTokens" definition;
      output_mode = get_field "outputMode" definition;
      system_prompt = get_field "systemPrompt" definition;
      base_url = get_field "baseUrl" definition;
    })
    else error (missing_option "baseUrl is required")

unfoldable pub ollama_provider : Provider
unfolding prepare_ollama_options
ollama_provider = record {
  label = "Ollama";
  prepare_options = prepare_ollama_options;
  streams_chat_only = false;
}

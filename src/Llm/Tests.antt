-- ===== src/Llm/Tests.antt =====
-- A chat model that answers in two chunks.
use supallm.Common.{String, true, false, some, none, [], ◌∷◌, get, ok, error, ◌≡◌, refl, All}
use supallm.Values.{Value, str, obj, Fields, end, field, get_field}
use supallm.Nodes.{NodeDefinition, NodeOutputDef, NodeRun, text, chat_openai, message, returned}
use supallm.Llm.{Model, execute, validate_outputs, validate_inputs}
use supallm.Llm.Providers.{anthropic_provider}
use supallm.Llm.Errors.{caught, missing_api_key, map_provider_error, is_chat_model}
use supallm.Llm.Laws.{execute-heard, heard, IsResultOf}

program : Unit {0}
unfolding execute validate_outputs validate_inputs heard get get_field anthropic_provider
program = tt

abbrev answer : NodeOutputDef
answer = record { type = text; result_key = some "answer" }

abbrev definition_of : Fields → NodeDefinition
definition_of config = record {
  type = chat_openai;
  inputs = none;
  outputs = some (("response", answer) ∷ []);
  tools = none;
  memory = none;
  config = config;
}

abbrev chatty : NodeDefinition
chatty = definition_of (field "model" (str "gpt-4o") (field "outputMode" (str "text-stream") end))

abbrev greeting : Model
greeting = record {
  stream = λ messages. ok (record {
    chunks =
        obj (field "content" (str "Hel") end)
        ∷ obj (field "id" (str "x") end)
        ∷ obj (field "content" (str "lo") end)
        ∷ [];
    broken = none;
  });
  invoke = λ messages. error (message "not asked");
}

abbrev text_of : Value → String
text_of (str s) = s
text_of v = ""

abbrev run : NodeRun
run =
    execute anthropic_provider (λ key. ok "") text_of text_of (λ e. message "llm")
      (λ options. some (greeting, true)) "n" chatty (field "prompt" (str "hi") end)

run_answers : run.ending ≡ returned (ok (field "response" (str "Hello") end))
unfolding program
run_answers = refl

execute-heard_example :
    (field "response" (str "Hello") end ≡ field "response" (str (heard "" run.reported)) end)
    × All (IsResultOf "n" "answer") run.reported
unfolding program
execute-heard_example =
    execute-heard anthropic_provider (λ key. ok "") text_of text_of (λ e. message "llm")
      (λ options. some (greeting, true)) "n" "answer" chatty answer (field "prompt" (str "hi") end)
      (field "response" (str "Hello") end) refl refl refl run_answers

abbrev same : String → String
same s = s

abbrev unchanged : Value → Value
unchanged v = v

reasoning_is_no_chat_model : is_chat_model same unchanged "o3-mini" ≡ false
unfolding is_chat_model
reasoning_is_no_chat_model = refl

-- The key is looked for first.
key_before_model :
    map_provider_error same unchanged (caught "no api key for this model" none) none "openai"
    ≡ missing_api_key "invalid openai API key"
unfolding map_provider_error
key_before_model = refl

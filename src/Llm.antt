-- ===== src/Llm.antt =====
-- runner/src/nodes/llm/llm-utils.ts, and what the providers of runner/src/nodes/llm have in common; where
-- they differ is in Llm/Providers.antt.
-- The model of langchain, the cipher of the API key, `String(v)` and `JSON.stringify` are parameters.
pub mod Providers
pub mod Errors
pub mod Laws
mod Tests
use Prim.Native.String
use supallm.Common.{
  String, Bool, true, false, Option, none, some, List, [], ◌∷◌, ◌++◌, Dict, get, Result, ok, error,
  ◌>>=◌, ◌==◌, ◌&&◌, if◌then◌else◌,
}
use supallm.Values.{
  Value, undefined, null, bool, num, str, obj, arr, Items, cons, nil, Fields, end, field, get_field,
  truthy,
}
use supallm.Nodes.{
  NodeIoType, text, image, any, NodeOutputDef, NodeDefinition, Error, message, NodeEvent, NodeRun,
  NodeRunner, Ending, returned, rejected, node_result,
}

-- The errors of runner/src/nodes/llm/llm.errors.ts that are made here.
pub data LlmError : Type 0 where
  invalid_input invalid_output missing_api_key provider_api : String → LlmError
  missing_option : String → LlmError
  -- what the cipher throws
  undecryptable : LlmError

pub record LlmInputs : Type 0 where
  pub prompt : String
  pub images : Option (List String)

pub record LlmOptions : Type 0 where
  pub model : Value
  pub decrypted_api_key : String

pub record ValidationResult : Type 0 where
  pub resolved_inputs : LlmInputs
  pub resolved_outputs : NodeOutputDef
  pub config : LlmOptions

pub data BaseMessage : Type 0 where
  system human : Value → BaseMessage

-- `images` as an array of texts, unless some element is not one.
unfoldable pub texts_of : Items → Option (List String)
texts_of nil = some []
texts_of (cons (str s) xs) = elim (texts_of xs) [ none ↦ none | some ss ↦ some (s ∷ ss) ]
texts_of (cons _ xs) = none

unfoldable pub validate_images : Value → Result (Option (List String)) LlmError
unfolding texts_of
validate_images undefined = ok none
validate_images (arr xs) = elim (texts_of xs) [
  | none ↦ error (invalid_input "invalid input: all images must be strings")
  | some ss ↦ ok (some ss)
]
validate_images _ = error (invalid_input "invalid input: images must be an array")

abbrev validate_prompt : Value → Result String LlmError
validate_prompt (str s) = ok s
validate_prompt _ = error (invalid_input "invalid input: missing or invalid prompt")

unfoldable pub validate_inputs : Fields → Result LlmInputs LlmError
unfolding validate_images
validate_inputs inputs = validate_prompt (get_field "prompt" inputs) >>= λ prompt.
    validate_images (get_field "images" inputs) >>= λ images.
    ok (record { prompt = prompt; images = images })

unfoldable pub validate_outputs : Option (Dict NodeOutputDef) → Result NodeOutputDef LlmError
validate_outputs none = error (invalid_output "invalid output: outputs must be an object")
validate_outputs (some outputs) = elim (get "response" outputs) [
  | none ↦ error (invalid_output "invalid output: missing response")
  | some output ↦ ok output
]

unfoldable pub create_messages_from_inputs : Value → LlmInputs → List BaseMessage
unfolding truthy
create_messages_from_inputs system_prompt inputs =
    let rest = human (str inputs.prompt) ∷ [] in
    if truthy system_prompt then system system_prompt ∷ rest else rest

-- What a stream yields, and the error that it breaks off with.
pub record Stream (A : Type 0) : Type 0 where
  pub chunks : List A
  pub broken : Option Error

-- A model of langchain: what its two methods give or throw.
pub record Model : Type 0 where
  pub stream : List BaseMessage → Result (Stream Value) Error
  pub invoke : List BaseMessage → Result Value Error

module _ (decrypt : Value → Result String LlmError) where
  unfoldable pub decrypt_api_key : Value → Result String LlmError
  unfolding truthy
  decrypt_api_key api_key = if truthy api_key then decrypt api_key else ok ""

  unfoldable pub validate_and_prepare : NodeDefinition → Fields → Result ValidationResult LlmError
  unfolding validate_inputs validate_outputs decrypt_api_key truthy
  validate_and_prepare definition inputs = validate_inputs inputs >>= λ resolved_inputs.
      validate_outputs definition.outputs >>= λ resolved_outputs.
      let model = get_field "model" definition.config in
      if truthy model
      then (decrypt_api_key (get_field "apiKey" definition.config) >>= λ key. ok (record {
        resolved_inputs = resolved_inputs;
        resolved_outputs = resolved_outputs;
        config = record { model = model; decrypted_api_key = key };
      }))
      else error (missing_api_key "model parameter is required")

-- `"content" in chunk`, for an object
abbrev content_in : Fields → Option Value
content_in end = none
content_in (field k v fs) = let rest = content_in fs in if k == "content" then some v else rest

abbrev content_of : Value → Option Value
content_of (obj fs) = content_in fs
content_of _ = none

module _ (to_text stringify : Value → String) where
  -- The generator of `handleStreamingResponse`: chunks without content are passed over.
  unfoldable pub contents : List Value → List String
  contents [] = []
  contents (chunk ∷ chunks) =
      let rest = contents chunks in
      elim (content_of chunk) [ none ↦ rest | some v ↦ to_text v ∷ rest ]

  unfoldable pub handle_streaming_response :
      Result (Stream Value) Error → Result (Stream String) LlmError
  unfolding contents
  handle_streaming_response (error e) = error (provider_api "streaming response error")
  handle_streaming_response (ok s) = ok (record { chunks = contents s.chunks; broken = s.broken })

  abbrev text_or : Value → String
  text_or (str s) = s
  text_or v = stringify v

  unfoldable pub parse_model_response : Value → String
  parse_model_response response = elim (content_of response) [
    | some v ↦ text_or v
    | none ↦ text_or response
  ]

  unfoldable pub handle_non_streaming_response :
      Result Value Error → Result (Stream String) LlmError
  unfolding parse_model_response
  handle_non_streaming_response (error e) = error (provider_api "non-streaming response error")
  handle_non_streaming_response (ok response) =
      ok (record { chunks = parse_model_response response ∷ []; broken = none })

unfoldable pub io_name : NodeIoType → String
io_name text = "text"
io_name image = "image"
io_name any = "any"

-- The event of one chunk, if the output has a field to send it for.
unfoldable pub chunk_events : String → NodeOutputDef → String → List NodeEvent
unfolding io_name
chunk_events node_id output content = elim output.result_key [
  | none ↦ []
  | some key ↦
      if key == ""
      then []
      else (record {
        type = node_result;
        node_id = some node_id;
        payload =
            field "outputField" (str key)
              (field "data" (str content) (field "ioType" (str (io_name output.type)) end));
      }
          ∷ [])
]

-- The loop over the chunks: the events, and the response, which begins as `full`.
unfoldable pub read_chunks : String → NodeOutputDef → String → List String → List NodeEvent × String
unfolding chunk_events
read_chunks node_id output full [] = ([], full)
read_chunks node_id output full (c ∷ cs) =
    let skipped = read_chunks node_id output full cs in
    let (events, all) = read_chunks node_id output (String.◌++◌ full c) cs in
    if c == "" then skipped else (chunk_events node_id output c ++ events, all)

unfoldable pub respond : String → NodeOutputDef → Stream String → NodeRun
unfolding read_chunks
respond node_id output s =
    let (events, all) = read_chunks node_id output "" s.chunks in
    record {
      reported = events;
      ending = elim s.broken [
        | some e ↦ rejected e
        | none ↦ returned (ok (field "response" (str all) end))
      ];
    }

-- The options of a provider; one that the provider does not have is `undefined`.
pub record ProviderOptions : Type 0 where
  pub config : LlmOptions
  pub temperature : Value
  pub max_tokens : Value
  pub output_mode : Value
  pub system_prompt : Value
  pub base_url : Value

-- What tells one provider from another: its name in the message of `createModel`, how it prepares its
-- options, and whether it streams from chat models only.
pub record Provider : Type 0 where
  pub label : String
  pub prepare_options : LlmOptions → Fields → Result ProviderOptions LlmError
  pub streams_chat_only : Bool

abbrev is_text_stream : Value → Bool
is_text_stream (str s) = s == "text-stream"
is_text_stream _ = false

-- `create_model`: the model of langchain for the options, and whether it is a chat model; `none`: its
-- constructor throws. `error_of`: an error of this file as the executor sees it.
module _ (provider : Provider) (decrypt : Value → Result String LlmError)
    (to_text stringify : Value → String) (error_of : LlmError → Error)
    (create_model : ProviderOptions → Option (Model × Bool)) where
  unfoldable pub generate_response :
      ProviderOptions → List BaseMessage → Result (Stream String) LlmError
  unfolding handle_streaming_response handle_non_streaming_response
  generate_response options messages = elim (create_model options) [
    | none ↦
        error
          (provider_api (String.◌++◌ "failed to initialize " (String.◌++◌ provider.label " model")))
    | some (model, is_chat) ↦
        if (if provider.streams_chat_only then is_chat else true)
          && is_text_stream options.output_mode
        then handle_streaming_response to_text stringify (model.stream messages)
        else handle_non_streaming_response to_text stringify (model.invoke messages)
  ]

  abbrev failed_run : LlmError → NodeRun
  failed_run e = record { reported = []; ending = returned (error (error_of e)) }

  unfoldable pub execute : NodeRunner
  unfolding validate_and_prepare create_messages_from_inputs generate_response respond
  execute node_id definition inputs = elim (validate_and_prepare decrypt definition inputs) [
    | error e ↦ failed_run e
    | ok v ↦ elim (provider.prepare_options v.config definition.config) [
      | error e ↦ failed_run e
      | ok options ↦
          let messages = create_messages_from_inputs options.system_prompt v.resolved_inputs in
          elim (generate_response options messages) [
            | error e ↦ failed_run e
            | ok s ↦ respond node_id v.resolved_outputs s
          ]
    ]
  ]

-- ===== src/Llm/Laws.antt =====
-- What a provider answers.
use Prim.Native.String
use supallm.Common.{
  String, Bool, false, Option, some, List, [], ◌∷◌, Result, ok, ◌≡◌, refl, ◌==◌, arith, Bool-cases,
  inl, inr, Option-cases, Result-cases, ap, ◌∙◌, All,
}
use supallm.Values.{Value, str, Fields, end, field, get_field, truthy}
use supallm.Nodes.{NodeOutputDef, NodeDefinition, NodeEvent, Error, returned, node_result}
use supallm.Llm.{
  Provider, ProviderOptions, LlmError, Model, Stream, validate_inputs, chunk_events, read_chunks,
  respond, execute, validate_and_prepare, ValidationResult, generate_response,
  create_messages_from_inputs, validate_outputs, decrypt_api_key,
}

-- The text that an event sends, after `before`.
abbrev data_of : Value → String → String
data_of (str s) before = String.◌++◌ before s
data_of _ before = before

-- What a listener has read after the events, which began with `before`.
unfoldable pub heard : String → List NodeEvent → String
unfolding get_field
heard before [] = before
heard before (e ∷ es) = heard (data_of (get_field "data" e.payload) before) es

-- The event is a result of the node for the output field.
abbrev pub IsResultOf : String → String → NodeEvent → Type 0
IsResultOf node_id key e =
    (e.type ≡ node_result)
    × (e.node_id ≡ some node_id)
    × (get_field "outputField" e.payload ≡ str key)

module _ (node_id key : String) (output : NodeOutputDef) (named : output.result_key ≡ some key)
    (full_key : (key == "") ≡ false) where
  read_chunks-heard :
      (full : String) (cs : List String)
      → (heard full (read_chunks node_id output full cs).0 ≡ (read_chunks node_id output full cs).1)
        × All (IsResultOf node_id key) (read_chunks node_id output full cs).0
  unfolding read_chunks heard chunk_events get_field
  read_chunks-heard full [] = (refl, tt)
  read_chunks-heard full (c ∷ cs) = elim (Bool-cases (c == "")) [
    | inl e ↦ rw e (read_chunks-heard full cs)
    | inr e ↦
        let (h, k) = read_chunks-heard (String.◌++◌ full c) cs in
        rw (e, named, full_key) (h, ((refl, refl, refl), k))
  ]

  respond-heard :
      (s : Stream String) (fs : Fields)
      → (respond node_id output s).ending ≡ returned (ok fs)
      → (fs ≡ field "response" (str (heard "" (respond node_id output s).reported)) end)
        × All (IsResultOf node_id key) (respond node_id output s).reported
  unfolding respond
  respond-heard s fs h = elim (Option-cases s.broken) [
    | inr (e, b) ↦ absurd (ground (arith, b))
    | inl b ↦ let (same, k) = read_chunks-heard "" s.chunks in (ground (arith, b, same), k)
  ]

validate_and_prepare-outputs :
    (decrypt : Value → Result String LlmError) (definition : NodeDefinition) (inputs : Fields)
    (v : ValidationResult) (output : NodeOutputDef)
    → validate_outputs definition.outputs ≡ ok output
    → validate_and_prepare decrypt definition inputs ≡ ok v
    → v.resolved_outputs ≡ output
unfolding validate_and_prepare
validate_and_prepare-outputs decrypt definition inputs v output valid h =
    let model = get_field "model" definition.config in
    let api_key = get_field "apiKey" definition.config in
    elim (Result-cases (validate_inputs inputs)) [
      | inr (e, a) ↦ absurd (ground (arith, rw (validate_and_prepare, a) at h))
      | inl (i, a) ↦ elim (Bool-cases (truthy model)) [
        | inr b ↦ absurd (ground (arith, rw (validate_and_prepare, a, valid, b) at h))
        | inl b ↦ elim (Result-cases (decrypt_api_key decrypt api_key)) [
          | inr (e, c) ↦ absurd (ground (arith, rw (validate_and_prepare, a, valid, b, c) at h))
          | inl (k, c) ↦
              let h' = rw (validate_and_prepare, a, valid, b, c) at h in ground (arith, h')
        ]
      ]
    ]

-- For every provider: a node whose output has a result field streams what it answers. If its call
-- returns a result, that is the one field "response", and the texts of the events that it reported, put
-- together in order, are that response; every event is a result of the node for that field.
pub execute-heard :
    (provider : Provider) (decrypt : Value → Result String LlmError)
    (to_text stringify : Value → String) (error_of : LlmError → Error)
    (create_model : ProviderOptions → Option (Model × Bool)) (node_id key : String)
    (definition : NodeDefinition) (output : NodeOutputDef) (inputs fs : Fields)
    → validate_outputs definition.outputs ≡ ok output
    → output.result_key ≡ some key
    → (key == "") ≡ false
    → (execute provider decrypt to_text stringify error_of create_model node_id definition
        inputs).ending
      ≡ returned (ok fs)
    → let run =
        execute provider decrypt to_text stringify error_of create_model node_id definition
          inputs in
      (fs ≡ field "response" (str (heard "" run.reported)) end)
      × All (IsResultOf node_id key) run.reported
unfolding execute
execute-heard provider decrypt to_text stringify error_of create_model node_id key definition output
      inputs fs valid named full h =
    elim (Result-cases (validate_and_prepare decrypt definition inputs)) [
      | inr (e, bad) ↦ absurd (ground (arith, rw (execute, bad) at h))
      | inl (v, good) ↦ elim (Result-cases (provider.prepare_options v.config definition.config)) [
        | inr (e, bad) ↦ absurd (ground (arith, rw (execute, good, bad) at h))
        | inl (options, prepared) ↦
            let messages = create_messages_from_inputs options.system_prompt v.resolved_inputs in
            let same : v.resolved_outputs ≡ output =
              validate_and_prepare-outputs decrypt definition inputs v output valid good in
            elim (Result-cases (
              generate_response provider decrypt to_text stringify error_of create_model options
                messages)) [
                  | inr (e, bad) ↦ absurd (ground (arith, rw (execute, good, prepared, bad) at h))
                  | inl (s, made) ↦
                      rw (execute, good, prepared, made)
                        (respond-heard node_id key v.resolved_outputs
                          (ap (λ o. o.result_key) same ∙ named) full s fs
                          (rw (execute, good, prepared, made) at h))
                ]
      ]
    ]

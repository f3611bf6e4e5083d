-- ===== src/Agent/Laws.antt =====
-- What a run of the agent answers and remembers.
use Prim.Native.String
use supallm.Common.{
  ℕ, String, true, false, some, List, [], ◌∷◌, ◌++◌, ◌≡◌, refl, sym, arith, inl, inr, ok, error,
  Result-cases, Option-cases, if◌then◌else◌, Bool, All, ◌⊎◌,
}
use supallm.Values.{Value, undefined, null, bool, num, str, obj, arr, Fields, end, field, get_field}
use supallm.Nodes.{
  NodeDefinition, local_memory, Error, NodeEvent, NodeEventType, node_result, agent_notification,
  NodeRun, returned,
}
use supallm.Memory.{create as create_memory, Message, Db, Memory, local, get_messages, memory_add}
use supallm.Memory.Laws.{get_messages-add_messages}
use supallm.Tools.Registry.{create}
use supallm.Agent.{
  Engine, Happening, chunk, reported_by_tool, unrelated, Streamed, result_event, read_stream,
  answer, run_graph, execute, history, execution_failed, create_llm, convert_tools, instructions_of,
  system, human, ChatModel, DynamicTool, ChatMessage, silent, or_no_memory, or_no_tools,
}

unfoldable is_node_result : NodeEventType → Bool
is_node_result node_result = true
is_node_result agent_notification = false
is_node_result _ = false

-- The text that an event adds to what was heard `before`.
unfoldable after : String → NodeEvent → String
unfolding is_node_result
after before e =
    if is_node_result e.type then with_data before (get_field "data" e.payload) else before
  where
    with_data : String → Value → String
    with_data before (str s) = String.◌++◌ before s
    with_data before _ = before

-- What a listener to NODE_RESULT has heard after the events.
unfoldable pub heard : String → List NodeEvent → String
unfolding after
heard before [] = before
heard before (e ∷ es) = heard (after before e) es

-- The tools report no NODE_RESULT.
unfoldable pub IsQuiet : Happening → Type 0
unfolding is_node_result
IsQuiet (reported_by_tool e) = is_node_result e.type ≡ false
IsQuiet (chunk v) = Unit
IsQuiet unrelated = Unit

abbrev pub AreToolsQuiet : Engine → Type 0
AreToolsQuiet engine =
    (llm : ChatModel) (bound : List DynamicTool) (instructions : String) (ms : List ChatMessage)
    (s : Streamed)
    → engine.stream_events llm bound instructions ms ≡ ok s
    → All IsQuiet s.happenings

read_stream-heard :
    (before : String) (hs : List Happening)
    → All IsQuiet hs
    → heard before (read_stream before hs).0 ≡ (read_stream before hs).1
unfolding read_stream heard IsQuiet result_event get_field
read_stream-heard before [] q = refl
read_stream-heard before (chunk (str s) ∷ hs) (_, q) = read_stream-heard (String.◌++◌ before s) hs q
read_stream-heard before (chunk undefined ∷ hs) (_, q) = read_stream-heard before hs q
read_stream-heard before (chunk null ∷ hs) (_, q) = read_stream-heard before hs q
read_stream-heard before (chunk (bool b) ∷ hs) (_, q) = read_stream-heard before hs q
read_stream-heard before (chunk (num n) ∷ hs) (_, q) = read_stream-heard before hs q
read_stream-heard before (chunk (obj fs) ∷ hs) (_, q) = read_stream-heard before hs q
read_stream-heard before (chunk (arr xs) ∷ hs) (_, q) = read_stream-heard before hs q
read_stream-heard before (reported_by_tool e ∷ hs) (p, q) =
    rw (heard, after, p) (read_stream-heard before hs q)
read_stream-heard before (unrelated ∷ hs) (_, q) = read_stream-heard before hs q

module _ (engine : Engine) (now : ℕ) (session_id node_id : String) where
  module _ (P : NodeRun × Db → Type 0) (definition : NodeDefinition) (inputs : Fields) (db : Db)
      (failing : (e : Error) → P (silent engine now session_id node_id (error e) db))
      (answering : (memory : Memory) (llm : ChatModel) (bound : List DynamicTool)
          (instructions prompt : String) (ms : List ChatMessage) (s : Streamed)
        → create_memory (or_no_memory engine now session_id node_id definition.memory) ≡ ok memory
        → engine.human_content (get_field "prompt" inputs) ≡ ok prompt
        → engine.stream_events llm bound instructions ms ≡ ok s
        → P (answer engine now session_id node_id memory prompt s db)) where
    run_graph-rule :
        (memory : Memory) (llm : ChatModel) (bound : List DynamicTool)
        → create_memory (or_no_memory engine now session_id node_id definition.memory) ≡ ok memory
        → P (run_graph engine now session_id node_id memory llm bound definition.config inputs db)
    unfolding run_graph execution_failed
    run_graph-rule memory llm bound made =
        elim (Result-cases (engine.human_content (get_field "prompt" inputs))) [
          | inr (e, h) ↦ rw (run_graph, h) (failing _)
          | inl (prompt, h) ↦
              let instructions = instructions_of definition.config in
              let initial =
                system instructions ∷ history engine now session_id node_id memory db
                ++ human prompt ∷ [] in
              elim (Result-cases (engine.stream_events llm bound instructions initial)) [
                | inr (e, k) ↦ rw (run_graph, h, k) (failing _)
                | inl (s, k) ↦
                    rw (run_graph, h, k)
                      (answering memory llm bound instructions prompt initial s made h k)
              ]
        ]

    -- A run is an error that changes nothing, or the answer of a stream.
    execute-rule : P (execute engine now session_id node_id definition inputs db)
    unfolding execute execution_failed
    execute-rule =
        elim (Result-cases
          (create_memory (or_no_memory engine now session_id node_id definition.memory))) [
            | inr (e, h) ↦ rw (execute, h) (failing _)
            | inl (memory, h) ↦ elim (Result-cases (create_llm engine.decrypt definition.config)) [
              | inr (e, k) ↦ rw (execute, h, k) (failing _)
              | inl (llm, k) ↦
                  let make =
                    create engine.services engine.variables_of engine.missing
                      engine.description_of in
                  elim (Result-cases (
                    convert_tools make
                      (or_no_tools engine now session_id node_id definition.tools))) [
                        | inr (e, l) ↦ rw (execute, h, k, l) (failing _)
                        | inl (bound, l) ↦ rw (execute, h, k, l) (run_graph-rule memory llm bound h)
                      ]
            ]
          ]

  -- The agent never rejects its promise. It returns a response, or it returns an error and the memory
  -- stays as it was.
  pub execute_ends :
      (definition : NodeDefinition) (inputs : Fields) (db : Db)
      → let (run, db') = execute engine now session_id node_id definition inputs db in
        ((response : String) × (run.ending ≡ returned (ok (field "response" (str response) end))))
        ⊎ ((e : Error) × (run.ending ≡ returned (error e)) × (db' ≡ db))
  unfolding answer execution_failed
  execute_ends definition inputs db =
      execute-rule
        (λ x.
          ((response : String) × (x.0.ending ≡ returned (ok (field "response" (str response) end))))
          ⊎ ((e : Error) × (x.0.ending ≡ returned (error e)) × (x.1 ≡ db)))
        definition inputs db (λ e. inr (e, refl, refl))
        (λ memory llm bound instructions prompt ms s made h k. elim (Option-cases s.broken) [
          | inl b ↦ rw (answer, b) (inl ((read_stream "" s.happenings).1, refl))
          | inr (e, b) ↦ rw (answer, b) (inr (_, refl, refl))
        ])

  answer-remembers :
      (prompt : String) (s : Streamed) (fs : Fields) (db : Db) (ms : List Message)
      → All IsQuiet s.happenings
      → get_messages db session_id node_id ≡ ok ms
      → let (run, db') = answer engine now session_id node_id local prompt s db in
        run.ending ≡ returned (ok fs)
        → (fs ≡ field "response" (str (heard "" run.reported)) end)
          × (get_messages db' session_id node_id
              ≡ ok (ms ++ Message.human prompt ∷ Message.ai (heard "" run.reported) false ∷ []))
  unfolding answer memory_add execution_failed
  answer-remembers prompt s fs db ms q readable h = elim (Option-cases s.broken) [
    | inr (e, b) ↦ absurd (ground (arith, rw (answer, b) at h))
    | inl b ↦
        let same = read_stream-heard "" s.happenings q in
        let response = (read_stream "" s.happenings).1 in
        rw (answer, b, same)
          (
            ground (arith, rw (answer, b) at h),
            (get_messages-add_messages now db session_id node_id [] ms prompt response readable).0,
          )
  ]

  -- An agent with a local memory that can be read, and tools that report no NODE_RESULT. If it returns a
  -- result, that is the one field response; the texts of its NODE_RESULT events, put together in order, are
  -- that response; and what the node remembers of the session then ends with the prompt and that response.
  pub execute-remembers :
      (definition : NodeDefinition) (inputs fs : Fields) (db : Db) (prompt : String)
      (ms : List Message)
      → AreToolsQuiet engine
      → definition.memory ≡ some local_memory
      → get_messages db session_id node_id ≡ ok ms
      → engine.human_content (get_field "prompt" inputs) ≡ ok prompt
      → (execute engine now session_id node_id definition inputs db).0.ending ≡ returned (ok fs)
      → let (run, db') = execute engine now session_id node_id definition inputs db in
        (fs ≡ field "response" (str (heard "" run.reported)) end)
        × (get_messages db' session_id node_id
            ≡ ok (ms ++ Message.human prompt ∷ Message.ai (heard "" run.reported) false ∷ []))
  unfolding answer execution_failed memory_add create_memory
  execute-remembers definition inputs fs db prompt ms quiet remembers readable prompted =
      execute-rule
        (λ x.
          x.0.ending ≡ returned (ok fs)
          → (fs ≡ field "response" (str (heard "" x.0.reported)) end)
            × (get_messages x.1 session_id node_id
                ≡ ok (ms ++ Message.human prompt ∷ Message.ai (heard "" x.0.reported) false ∷ [])))
        definition inputs db (λ e h. absurd (ground (arith, h)))
        (λ memory llm bound instructions p initial s made h k.
          let local_made : local ≡ memory = ground (arith, rw (remembers, create_memory) at made) in
          let same_prompt : prompt ≡ p = ground (arith, prompted, h) in
          rw (sym local_made, sym same_prompt)
            (answer-remembers prompt s fs db ms (quiet llm bound instructions initial s k)
              readable))

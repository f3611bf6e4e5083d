-- ===== src/Agent/Tests.antt =====
-- An agent whose model streams two chunks, and a conversation with one tool call.
use supallm.Common.{
  String, true, false, some, none, List, [], ◌∷◌, ◌++◌, ◌≡◌, ◌⊎◌, refl, sym, arith, Result, ok,
  error, All, every, if◌then◌else◌, get, inl, inr, List-cases, ◌>>=◌,
}
use supallm.Values.{str, end, field, get_field}
use supallm.Nodes.{NodeDefinition, ai_agent, local_memory, Error, message, returned}
use supallm.Memory.{Message, get_messages, add_messages, ConversationTurn, messages_of}
use supallm.Tools.Samples.{used, services}
use supallm.Agent.{
  Engine, Streamed, chunk, unrelated, execute, ChatMessage, system, human, ai, tool, agent,
  remembered, call_model, responses, should_continue,
}
use supallm.Agent.Graph.{is_response, IsAnswer, calls_model, runs_tools, Reaches, here, step}
use supallm.Agent.Conversation.{IsStarted, AllAnswered, call_model-answered}
use supallm.Agent.Laws.{heard, IsQuiet, AreToolsQuiet, execute_ends, execute-remembers}

abbrev streamed : Streamed
streamed = record {
  happenings = chunk (str "he") ∷ unrelated ∷ chunk (str "y") ∷ [];
  broken = none;
}

abbrev engine : Engine
engine = record {
  decrypt = λ v. ok "key";
  services = services;
  variables_of = λ fs s. none;
  missing = λ s. used;
  description_of = λ c. "";
  memory_error = λ e. message "memory";
  human_content = λ v. ok "hi";
  error_text = λ e. "Error";
  stream_events = λ llm bound instructions ms. ok streamed;
}

abbrev definition : NodeDefinition
definition = record {
  type = ai_agent;
  inputs = none;
  outputs = none;
  tools = none;
  memory = some local_memory;
  config = field "model" (str "gpt-4o") (field "provider" (str "openai") end);
}

program : Unit {0}
unfolding execute get_messages add_messages heard IsQuiet get get_field call_model should_continue
    responses is_response remembered messages_of
program = tt

quiet : AreToolsQuiet engine
unfolding program
quiet llm bound instructions ms s e =
    let same : streamed ≡ s = ground (arith, e) in rw (sym same) (tt, (tt, (tt, tt)))

execute_ends_example :
    let (run, db') = execute engine 1 "s" "n" definition end [] in
    ((response : String) × (run.ending ≡ returned (ok (field "response" (str response) end))))
    ⊎ ((e : Error) × (run.ending ≡ returned (error e)) × (db' ≡ []))
execute_ends_example = execute_ends engine 1 "s" "n" definition end []

execute-remembers_example :
    let (run, db') = execute engine 1 "s" "n" definition end [] in
    (field "response" (str "hey") end ≡ field "response" (str (heard "" run.reported)) end)
    × (get_messages db' "s" "n"
        ≡ ok ([] ++ Message.human "hi" ∷ Message.ai (heard "" run.reported) false ∷ []))
unfolding program
execute-remembers_example =
    execute-remembers engine 1 "s" "n" definition end (field "response" (str "hey") end) [] "hi" []
      quiet refl refl refl refl

-- What langgraph's reducer does with the messages of the graph's nodes.
abbrev merge : List ChatMessage → List ChatMessage → List ChatMessage
merge ms ns = if every is_response ns then ms ++ ns else ns

-- Asks for one tool, and is content with its response.
abbrev invoke : List ChatMessage → Result ChatMessage Error
invoke ms = elim (responses ms) [ [] ↦ ok (ai "" ("c" ∷ [])) | id ∷ ids ↦ ok (ai "done" []) ]

every_response :
    (ms : List ChatMessage) → All (λ m. is_response m ≡ true) ms → every is_response ms ≡ true
every_response [] h = refl
every_response (m ∷ ms) (e, h) = rw (e, every_response ms h) refl

not_every-append :
    (ms : List ChatMessage) (text : String) (calls : List String)
    → every is_response (ms ++ ai text calls ∷ []) ≡ false
unfolding is_response
not_every-append [] text calls = refl
not_every-append (m ∷ ms) text calls = ground (arith, not_every-append ms text calls)

extends :
    (ms : List ChatMessage) (text : String) (calls : List String)
    → merge ms (ms ++ ai text calls ∷ []) ≡ ms ++ ai text calls ∷ []
extends ms text calls = rw (not_every-append ms text calls) refl

appends :
    (ms made : List ChatMessage) → All (λ m. is_response m ≡ true) made → merge ms made ≡ ms ++ made
appends ms made h = rw (every_response made h) refl

answers : (ms : List ChatMessage) (m : ChatMessage) → invoke ms ≡ ok m → IsAnswer m
answers ms m e = elim (List-cases (responses ms)) [
  | inl k ↦ ("", "c" ∷ [], ground (arith, rw (invoke, k) at e))
  | inr (id, ids, k) ↦ ("done", [], ground (arith, rw (invoke, k) at e))
]

abbrev start : List ChatMessage
start = system "be kind" ∷ human "before" ∷ ai "yes" [] ∷ human "hi" ∷ []

abbrev asking : List ChatMessage
asking = start ++ ai "" ("c" ∷ []) ∷ []

abbrev responded : List ChatMessage
responded = asking ++ tool "c" "42" ∷ []

abbrev turn : ConversationTurn
turn = record { input = "before"; output = "yes"; timestamp = 0 }

reached :
    Reaches merge invoke "be kind"
      (record { at = agent; messages = start })
      (record { at = agent; messages = responded })
unfolding program
reached =
    step _ _ _ (calls_model start asking refl)
      (step _ _ _ (runs_tools asking (tool "c" "42" ∷ []) (refl, tt) refl) (here _))

call_model-answered_example :
    IsStarted responded
    × AllAnswered responded
    × (call_model invoke "be kind" responded ≡ (invoke responded >>= λ m. ok (responded ++ m ∷ [])))
unfolding program
call_model-answered_example =
    call_model-answered merge invoke "be kind" extends appends answers "be kind" "hi" (turn ∷ [])
      responded reached

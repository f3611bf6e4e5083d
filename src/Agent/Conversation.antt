-- ===== src/Agent/Conversation.antt =====
-- Every tool call is answered before the model is called again.
use supallm.Common.{
  String, true, false, List, [], ◌∷◌, ◌++◌, ◌≡◌, refl, sym, ap, ◌∙◌, arith, inl, inr, Result, ok,
  Result-cases, All, All-append, All-map, All-of_has, has, ◌>>=◌, map, has-append,
}
use mathlib.Core.List.{append_assoc, append-nil}
use mathlib.Core.Path.{transport}
use supallm.Nodes.{Error}
use supallm.Agent.Graph.{
  GraphState, is_response, IsAnswer, calls_of, calls_model, runs_tools, Reaches, here, step,
}
use supallm.Memory.{ConversationTurn, messages_of}
use supallm.Agent.{
  remembered, ChatMessage, system, human, ai, tool, is_system, last, tool_calls, responses,
  missing_tool_calls, some_system, all_messages, call_model, GraphNode, agent, tools, finish,
  should_continue,
}

-- Every tool call of the messages has a response among them.
abbrev pub AllAnswered : List ChatMessage → Type 0
AllAnswered ms = All (λ m. All (λ id. has id (responses ms) ≡ true) (calls_of m)) ms

-- The messages begin with the system's, and have no other of it.
abbrev pub IsStarted : List ChatMessage → Type 0
IsStarted ms =
    (s : String) × (rest : List ChatMessage) × (ms ≡ system s ∷ rest) × (some_system rest ≡ false)

-- What holds of the messages at each node.
abbrev pub Holds : GraphNode → List ChatMessage → Type 0
Holds agent ms = AllAnswered ms × (tool_calls (last ms) ≡ [])
Holds tools ms =
    (before : List ChatMessage) × (text : String) × (calls : List String) × (ms
      ≡ before ++ ai text calls ∷ [])
    × AllAnswered before
Holds finish ms = AllAnswered ms

responses-append : (ms ns : List ChatMessage) → responses (ms ++ ns) ≡ responses ms ++ responses ns
unfolding responses
responses-append [] ns = refl
responses-append (tool id s ∷ ms) ns = ap (λ l. id ∷ l) (responses-append ms ns)
responses-append (system s ∷ ms) ns = responses-append ms ns
responses-append (human s ∷ ms) ns = responses-append ms ns
responses-append (ai s calls ∷ ms) ns = responses-append ms ns

some_system-append :
    (ms ns : List ChatMessage)
    → some_system ms ≡ false
    → some_system ns ≡ false
    → some_system (ms ++ ns) ≡ false
some_system-append [] ns h k = k
some_system-append (m ∷ ms) ns h k = ground (arith, some_system-append ms ns (ground arith) k)

some_system-responses :
    (ms : List ChatMessage) → All (λ m. is_response m ≡ true) ms → some_system ms ≡ false
unfolding is_response is_system
some_system-responses [] h = refl
some_system-responses (tool id s ∷ ms) (_, h) = some_system-responses ms h
some_system-responses (system s ∷ ms) (e, h) = ground arith
some_system-responses (human s ∷ ms) (e, h) = ground arith
some_system-responses (ai s calls ∷ ms) (e, h) = ground arith

last-append :
    (ms : List ChatMessage) (n : ChatMessage) (ns : List ChatMessage)
    → last (ms ++ n ∷ ns) ≡ last (n ∷ ns)
unfolding last
last-append [] n ns = refl
last-append (m ∷ []) n ns = refl
last-append (m ∷ k ∷ ms) n ns = last-append (k ∷ ms) n ns

tool_calls-responses :
    (m : ChatMessage) (ms : List ChatMessage)
    → All (λ n. is_response n ≡ true) (m ∷ ms)
    → tool_calls (last (m ∷ ms)) ≡ []
unfolding last tool_calls is_response
tool_calls-responses (tool id s) [] h = refl
tool_calls-responses (system s) [] (e, h) = ground arith
tool_calls-responses (human s) [] (e, h) = ground arith
tool_calls-responses (ai s calls) [] (e, h) = ground arith
tool_calls-responses m (n ∷ ms) (e, h) = tool_calls-responses n ms h

has-more :
    (id : String) (ms ns : List ChatMessage)
    → has id (responses ms) ≡ true
    → has id (responses (ms ++ ns)) ≡ true
has-more id ms ns h =
    rw (responses-append ms ns) (ground (arith, has-append id (responses ms) (responses ns)))

has-later :
    (id : String) (ms ns : List ChatMessage)
    → has id (responses ns) ≡ true
    → has id (responses (ms ++ ns)) ≡ true
has-later id ms ns h =
    rw (responses-append ms ns) (ground (arith, has-append id (responses ms) (responses ns)))

AllAnswered-more :
    (ms ns : List ChatMessage)
    → AllAnswered ms
    → All (λ m. All (λ id. has id (responses (ms ++ ns)) ≡ true) (calls_of m)) ms
AllAnswered-more ms ns h = All-map (λ m. All-map (λ id. has-more id ms ns) (calls_of m)) ms h

calls_of-responses :
    (P : String → Type 0) (ms : List ChatMessage)
    → All (λ m. is_response m ≡ true) ms
    → All (λ m. All P (calls_of m)) ms
unfolding is_response calls_of
calls_of-responses P [] h = tt
calls_of-responses P (tool id s ∷ ms) (_, h) = (tt, calls_of-responses P ms h)
calls_of-responses P (system s ∷ ms) (e, h) = ground arith
calls_of-responses P (human s ∷ ms) (e, h) = ground arith
calls_of-responses P (ai s calls ∷ ms) (e, h) = ground arith

AllAnswered-made :
    (before made : List ChatMessage) (text : String) (calls : List String)
    → AllAnswered before
    → All (λ m. is_response m ≡ true) made
    → responses made ≡ calls
    → AllAnswered ((before ++ ai text calls ∷ []) ++ made)
unfolding calls_of responses
AllAnswered-made before made text calls h k e =
    let all = ai text calls ∷ made in
    rw (append_assoc before (ai text calls ∷ []) made) (
      All-append _ before all (AllAnswered-more before all h) (
        transport (ap (All (λ id. has id (responses (before ++ all)) ≡ true)) e)
            (All-of_has _ (responses made) (λ id there. has-later id before all there)),
        calls_of-responses _ made k,
      ))

remembered-plain :
    (P : String → Type 0) (ts : List ConversationTurn)
    → (some_system (map remembered (messages_of ts)) ≡ false)
      × All (λ m. All P (calls_of m)) (map remembered (messages_of ts))
unfolding remembered messages_of is_system calls_of
remembered-plain P [] = (refl, tt)
remembered-plain P (t ∷ ts) =
    let (alone, uncalled) = remembered-plain P ts in (alone, (tt, (tt, uncalled)))

module _ (merge : List ChatMessage → List ChatMessage → List ChatMessage)
    (invoke : List ChatMessage → Result ChatMessage Error) (instructions : String)
    (extends : (ms : List ChatMessage) (text : String) (calls : List String)
      → merge ms (ms ++ ai text calls ∷ []) ≡ ms ++ ai text calls ∷ [])
    (appends : (ms made : List ChatMessage)
      → All (λ m. is_response m ≡ true) made
      → merge ms made ≡ ms ++ made)
    (answers : (ms : List ChatMessage) (m : ChatMessage) → invoke ms ≡ ok m → IsAnswer m) where
  all_messages-started : (ms : List ChatMessage) → IsStarted ms → all_messages instructions ms ≡ ms
  unfolding all_messages is_system
  all_messages-started ms (s, rest, e, alone) = rw e refl

  missing-none : (ms : List ChatMessage) → tool_calls (last ms) ≡ [] → missing_tool_calls ms ≡ []
  unfolding missing_tool_calls
  missing-none ms h = rw (missing_tool_calls, h) refl

  -- The model is given the messages as they are.
  call_model-messages :
      (ms : List ChatMessage)
      → IsStarted ms
      → tool_calls (last ms) ≡ []
      → call_model invoke instructions ms ≡ (invoke ms >>= λ m. ok (ms ++ m ∷ []))
  unfolding call_model
  call_model-messages ms started h =
      rw (call_model, missing-none ms h, all_messages-started ms started) refl

  abbrev IsConversation : GraphState → Type 0
  IsConversation g = IsStarted g.messages × Holds g.at g.messages

  IsStarted-append :
      (ms ns : List ChatMessage) → IsStarted ms → some_system ns ≡ false → IsStarted (ms ++ ns)
  IsStarted-append ms ns (s, rest, e, alone) h =
      (s, rest ++ ns, ap (λ l. l ++ ns) e, some_system-append rest ns alone h)

  Holds-should_continue :
      (before : List ChatMessage) (text : String) (calls : List String)
      → AllAnswered before
      → Holds (should_continue (before ++ ai text calls ∷ [])) (before ++ ai text calls ∷ [])
  unfolding should_continue last tool_calls calls_of
  Holds-should_continue before text [] h =
      rw (should_continue, last-append before (ai text []) [])
        (All-append _ before (ai text [] ∷ []) (AllAnswered-more before (ai text [] ∷ []) h)
          (tt, tt))
  Holds-should_continue before text (id ∷ ids) h =
      rw (should_continue, last-append before (ai text (id ∷ ids)) [])
        (before, text, id ∷ ids, refl, h)

  calls_model-IsConversation :
      (ms ms' : List ChatMessage)
      → call_model invoke instructions ms ≡ ok ms'
      → IsConversation (record { at = agent; messages = ms })
      → IsConversation (record { at = should_continue (merge ms ms'); messages = merge ms ms' })
  unfolding is_system
  calls_model-IsConversation ms ms' e (started, (answered, quiet)) =
      elim (Result-cases (invoke ms)) [
        | inr (x, k) ↦ absurd (ground (arith, rw (call_model-messages ms started quiet, k) at e))
        | inl (m, k) ↦
            let (text, calls, a) = answers ms m k in
            let made : ms ++ ai text calls ∷ [] ≡ ms' =
              ground (arith, rw (call_model-messages ms started quiet, k, a) at e) in
            rw (sym made, extends ms text calls)
              (
                IsStarted-append ms (ai text calls ∷ []) started refl,
                Holds-should_continue ms text calls answered,
              )
      ]

  last_calls :
      (before made : List ChatMessage) (text : String) (calls : List String)
      → All (λ m. is_response m ≡ true) made
      → responses made ≡ calls
      → tool_calls (last ((before ++ ai text calls ∷ []) ++ made)) ≡ []
  unfolding last tool_calls responses
  last_calls before [] text calls k e =
      rw (append-nil (before ++ ai text calls ∷ []), last-append before (ai text calls) []) (sym e)
  last_calls before (m ∷ made) text calls k e =
      rw (last-append (before ++ ai text calls ∷ []) m made) (tool_calls-responses m made k)

  runs_tools-IsConversation :
      (ms made : List ChatMessage)
      → All (λ m. is_response m ≡ true) made
      → responses made ≡ tool_calls (last ms)
      → IsConversation (record { at = tools; messages = ms })
      → IsConversation (record { at = agent; messages = merge ms made })
  unfolding last tool_calls
  runs_tools-IsConversation ms made k e (started, (before, text, calls, p, answered)) =
      let all : responses made ≡ calls =
        e
        ∙ ap (λ l. tool_calls (last l)) p
        ∙ ap tool_calls (last-append before (ai text calls) []) in
      rw (appends ms made k) (
        IsStarted-append ms made started (some_system-responses made k),
        (
          rw p (AllAnswered-made before made text calls answered k all),
          rw p (last_calls before made text calls k all),
        ),
      )

  Reaches-IsConversation :
      (g h : GraphState)
      → Reaches merge invoke instructions g h
      → IsConversation g
      → IsConversation h
  Reaches-IsConversation _ _ (here g) c = c
  Reaches-IsConversation _ _ (step _ _ h (calls_model ms ms' e) r) c =
      Reaches-IsConversation _ h r (calls_model-IsConversation ms ms' e c)
  Reaches-IsConversation _ _ (step _ _ h (runs_tools ms made k e) r) c =
      Reaches-IsConversation _ h r (runs_tools-IsConversation ms made k e c)

  remembered-IsConversation :
      (s prompt : String) (ts : List ConversationTurn)
      → IsConversation (record {
        at = agent;
        messages = system s ∷ map remembered (messages_of ts) ++ human prompt ∷ [];
      })
  unfolding last tool_calls is_system calls_of
  remembered-IsConversation s prompt ts =
      let (alone, uncalled) =
        remembered-plain
          (λ id.
            has id (responses (system s ∷ map remembered (messages_of ts) ++ human prompt ∷ []))
            ≡ true)
          ts in
      (
        (
          s,
          map remembered (messages_of ts) ++ human prompt ∷ [],
          refl,
          some_system-append (map remembered (messages_of ts)) (human prompt ∷ []) alone refl,
        ),
        (
          (
            tt,
            All-append _ (map remembered (messages_of ts)) (human prompt ∷ []) uncalled (tt, tt),
          ),
          ap tool_calls
              (last-append (system s ∷ map remembered (messages_of ts)) (human prompt) []),
        ),
      )

  -- However a conversation goes that begins with the system's message, the turns that the memory holds, and
  -- the prompt: whenever the model is called, every tool call in its messages has a response there, none
  -- is missing, and the messages begin with the one system message and are passed on as they are.
  pub call_model-answered :
      (s prompt : String) (ts : List ConversationTurn) (ms : List ChatMessage)
      → Reaches merge invoke instructions
          (record {
            at = agent;
            messages = system s ∷ map remembered (messages_of ts) ++ human prompt ∷ [];
          })
          (record { at = agent; messages = ms })
      → IsStarted ms
        × AllAnswered ms
        × (call_model invoke instructions ms ≡ (invoke ms >>= λ m. ok (ms ++ m ∷ [])))
  call_model-answered s prompt ts ms r =
      let (started, (answered, quiet)) =
        Reaches-IsConversation _ _ r (remembered-IsConversation s prompt ts) in
      (started, answered, call_model-messages ms started quiet)

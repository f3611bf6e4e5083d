-- ===== src/Memory.antt =====
-- `LocalMemory` of runner/src/memory/local-memory.ts and the registry of runner/src/memory/memory-registry.ts.
-- Redis is a dictionary from keys to texts; a text is the list of turns that it parses to, or
-- `unreadable`. The clock is an argument.
pub mod Laws
mod Tests
use Prim.Native.String
use supallm.Common.{
  ℕ, String, Bool, true, false, Option, none, some, List, [], ◌∷◌, ◌++◌, Dict, get, set, Result, ok,
  error, ◌==◌, ◌||◌, if◌then◌else◌,
}
use supallm.Nodes.{MemoryType, local_memory, no_memory, other}

-- The messages of langchain that the memory tells apart: whether an answer has tool calls.
pub data Message : Type 0 where
  human : String → Message
  ai : String → Bool → Message
  unlike : String → Message

pub record ConversationTurn : Type 0 where
  pub input : String
  pub output : String
  pub timestamp : ℕ

pub data History : Type 0 where
  turns : List ConversationTurn → History
  unreadable : History

abbrev pub Db : Type 0
Db = Dict History

-- The error whose message ends in what `JSON.parse` said.
pub data MemoryError : Type 0 where
  get_failed add_failed : MemoryError
  unknown_type : String → MemoryError

unfoldable pub get_key : String → String → String
get_key session_id node_id =
    String.◌++◌ "history" (String.◌++◌ ":" (String.◌++◌ session_id (String.◌++◌ ":" node_id)))

-- `messages.push(new HumanMessage(turn.input), new AIMessage(turn.output))`
unfoldable pub messages_of : List ConversationTurn → List Message
messages_of [] = []
messages_of (t ∷ ts) = human t.input ∷ ai t.output false ∷ messages_of ts

unfoldable pub get_messages : Db → String → String → Result (List Message) MemoryError
unfolding get_key messages_of
get_messages db session_id node_id = elim (get (get_key session_id node_id) db) [
  | none ↦ ok []
  | some unreadable ↦ error get_failed
  | some (turns ts) ↦ ok (messages_of ts)
]

-- The last two messages, in order.
unfoldable pub last_two : List Message → Option (Message × Message)
last_two [] = none
last_two (m ∷ []) = none
last_two (m ∷ n ∷ []) = some (m, n)
last_two (m ∷ n ∷ o ∷ ms) = last_two (n ∷ o ∷ ms)

-- The completed turn that the messages end with: a person's message, and an answer without tool calls.
unfoldable pub completed_turn : Option (Message × Message) → Option (String × String)
completed_turn (some (human input, ai output false)) = some (input, output)
completed_turn _ = none

unfoldable pub push_turn : ConversationTurn → Option History → Option History
push_turn t none = some (turns (t ∷ []))
push_turn t (some (turns ts)) = some (turns (ts ++ t ∷ []))
push_turn t (some unreadable) = none

unfoldable pub add_messages :
    ℕ → Db → String → String → List Message → Result (Unit {0}) MemoryError × Db
unfolding get_key last_two completed_turn push_turn
add_messages now db session_id node_id messages = elim (completed_turn (last_two messages)) [
  | none ↦ (ok tt, db)
  | some (input, output) ↦
      let key = get_key session_id node_id in
      let turn : ConversationTurn = record { input = input; output = output; timestamp = now } in
      elim (push_turn turn (get key db)) [
        | none ↦ (error add_failed, db)
        | some history ↦ (ok tt, set key history db)
      ]
]

-- What `messages || []` gives: an error reads as no messages.
unfoldable pub load_memory_variables : Db → String → String → List Message
unfolding get_messages
load_memory_variables db session_id node_id = elim (get_messages db session_id node_id) [
  | ok ms ↦ ms
  | error e ↦ []
]

abbrev is_missing : Option String → Bool
is_missing none = true
is_missing (some s) = s == ""

abbrev text_of : Option String → String
text_of none = ""
text_of (some s) = s

-- A failure of `addMessages` is not looked at.
unfoldable pub save_context : ℕ → Db → String → String → Option String → Option String → Db
unfolding add_messages
save_context now db session_id node_id input output =
    if session_id == "" || node_id == ""
    then db
    else if is_missing input || is_missing output
    then db
    else (add_messages now db session_id node_id
        (human (text_of input) ∷ ai (text_of output) false ∷ [])).1

-- `IMemory`, as the registry makes it: what it answers and what it leaves of the store.
pub data Memory : Type 0 where
  local nothing : Memory

unfoldable pub create : MemoryType → Result Memory MemoryError
create local_memory = ok local
create no_memory = ok nothing
create (other name) = error (unknown_type name)

unfoldable pub memory_messages : Memory → Db → String → String → Result (List Message) MemoryError
unfolding get_messages
memory_messages local db session_id node_id = get_messages db session_id node_id
memory_messages nothing db session_id node_id = ok []

unfoldable pub memory_add :
    Memory → ℕ → Db → String → String → List Message → Result (Unit {0}) MemoryError × Db
unfolding add_messages
memory_add local now db session_id node_id ms = add_messages now db session_id node_id ms
memory_add nothing now db session_id node_id ms = (ok tt, db)

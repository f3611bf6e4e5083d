-- ===== src/Tools.antt =====
-- What the tools of runner/src/tools share: what a tool is, the events around its run, and the services
-- that the tools call. Those are parameters: `fetch`, the cipher of the keys, `JSON.stringify`,
-- `String(v)`, and the clients of langchain, Firecrawl and Postgres.
pub mod Web
pub mod Clients
pub mod Postgres
pub mod Registry
pub mod Bracket
pub mod Samples
mod Tests
use Prim.Native.String
use supallm.Common.{
  ℕ, String, Bool, true, false, Option, none, some, List, [], ◌∷◌, ◌++◌, Result, ok, error, ◌==◌,
  if◌then◌else◌, Dict,
}
use supallm.Common.Chars.{Chars}
use supallm.Values.{Value, str, obj, undefined, Fields, end, field, get_field, truthy}
use supallm.Nodes.{
  Error, message, NodeEvent, NodeEventType, tool_started, tool_completed, tool_failed, ToolConfig,
}

-- The fields that `Tool` has beside its type and its schema.
pub record Tool : Type 0 where
  pub id : String
  pub name : String
  pub description : String

-- A call of `run`: the events that it reports, in order, and its result.
pub record ToolRun : Type 0 where
  pub reported : List NodeEvent
  pub result : Result String Error

-- A tool that a constructor has made, with its `run`.
pub record Created : Type 0 where
  pub tool : Tool
  pub run : Fields → ToolRun

pub record Request : Type 0 where
  pub url : String
  pub method : String
  pub headers : Dict String
  pub body : Option String

-- `reads` and `jsons`: what the first, the second, ... call of `text()` and of `json()` gives.
pub record Response : Type 0 where
  pub is_ok : Bool
  pub status : Value
  pub status_text : String
  pub reads : ℕ → Result String Error
  pub jsons : ℕ → Result Value Error

-- A piece of a query before it is written out: a character, or `$i` for the i-th value.
pub data Piece : Type 0 where
  char place : ℕ → Piece

-- What a query gives: its rows, and their number.
pub record QueryResult : Type 0 where
  pub rows : Value
  pub row_count : Value

pub record Services : Type 0 where
  pub fetch : Request → Result Response Error
  pub decrypt : String → Result String Error
  pub stringify : Value → String
  pub to_text : Value → String
  -- the pairs of `URLSearchParams`, as text
  pub query_text : Dict String → String
  -- `${error}`, `error?.message ?? error`, and the value that an event carries of an error
  pub error_text : Error → String
  pub error_message : Error → String
  pub error_value : Error → Value
  -- the content of the answer of langchain's model, by its options, system prompt and input
  pub invoke : Fields → String → Value → Result Value Error
  -- a Postgres client, by its connection string: `connect`, `query` with its values, and the first and
  -- the second call of `end`
  pub connect : String → Result (Unit {0}) Error
  pub query : String → Chars → List Value → Result QueryResult Error
  pub close : String → ℕ → Result (Unit {0}) Error
  -- Firecrawl's `scrapeUrl`, by its key
  pub scrape_url : String → String → Fields → Result Value Error

infixr 5 ◌+++◌
abbrev pub ◌+++◌ : String → String → String
s +++ t = String.◌++◌ s t

-- A value that the code's types say is a text.
abbrev pub text_of : Value → String
text_of (str s) = s
text_of _ = ""

-- `text || default`
unfoldable pub or_default : String → String → String
or_default text default = if text == "" then default else text

module _ (tool : Tool) where
  unfoldable pub event : NodeEventType → Fields → NodeEvent
  event type payload = record { type = type; node_id = some tool.id; payload = payload }

  unfoldable pub started : Fields → NodeEvent
  unfolding event
  started params = event tool_started (
      field "toolName" (str tool.name)
        (field "inputs" (obj params) (field "agentName" (str "default") end)))

  unfoldable pub completed : Fields → Value → NodeEvent
  unfolding event
  completed params output = event tool_completed (
      field "agentName" (str "default") (
        field "toolName" (str tool.name) (field "inputs" (obj params) (field "output" output end))))

  unfoldable pub failed : Value → NodeEvent
  unfolding event
  failed cause = event tool_failed (
      field "agentName" (str "default")
        (field "toolName" (str tool.name) (field "error" cause end)))

-- The `try` block of a `run`: what it reports after TOOL_STARTED and before it throws or returns. It
-- returns the output of TOOL_COMPLETED and the text of the result.
pub record Attempt : Type 0 where
  pub notified : List NodeEvent
  pub ended : Result (Value × String) Error

abbrev pub attempt : Result (Value × String) Error → Attempt
attempt result = record { notified = []; ended = result }

-- `describe`: the message of the error that `run` returns.
unfoldable pub bracket : Services → Tool → (Error → String) → Fields → Attempt → ToolRun
unfolding started completed failed
bracket services tool describe params a = elim a.ended [
  | ok (output, text) ↦ record {
    reported = started tool params ∷ a.notified ++ completed tool params output ∷ [];
    result = ok text;
  }
  | error e ↦ record {
    reported = started tool params ∷ a.notified ++ failed tool (services.error_value e) ∷ [];
    result = error (message (describe e));
  }
]

-- A key of the configuration that must be there and can be decrypted. Its own error is not passed on
-- by every tool.
unfoldable pub decrypted_key : Services → String → Option String → Fields → Result String Error
unfolding truthy
decrypted_key services required undecryptable config =
    let key = get_field "apiKey" config in
    if truthy key
    then (elim (services.decrypt (text_of key)) [
      | ok k ↦ ok k
      | error e ↦ elim undecryptable [ none ↦ error e | some m ↦ error (message m) ]
    ])
    else error (message required)

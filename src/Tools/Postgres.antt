-- ===== src/Tools/Postgres.antt =====
-- runner/src/tools/postgres-query-tool.ts. The characters of a template are walked as codes.
pub mod Safe
use supallm.Common.{
  ℕ, zero, suc, ◌+◌, ◌-◌, String, Bool, true, false, Option, none, some, List, [], ◌∷◌, ◌++◌,
  Result, ok, error, ◌==◌, if◌then◌else◌, ◌>>=◌, nat_eq,
}
use supallm.Common.Chars.{Chars, codes, is_space, is_word}
use supallm.Values.{Value, str, obj, Fields, end, field, get_field, is_defined}
use supallm.Nodes.{Error, message, ToolConfig}
use supallm.Tools.{
  Tool, ToolRun, Created, Services, Piece, char, place, QueryResult, ◌+++◌, text_of, or_default,
  started, completed, failed, decrypted_key,
}

-- What is left after the white space, and how much there was.
unfoldable pub skip_spaces : Chars → Chars × ℕ
unfolding is_space
skip_spaces [] = ([], 0)
skip_spaces (c ∷ s) =
    let (rest, n) = skip_spaces s in if is_space c then (rest, suc n) else (c ∷ s, 0)

-- The word at the front, and what is left.
unfoldable pub take_word : Chars → Chars × Chars
unfolding is_word
take_word [] = ([], [])
take_word (c ∷ s) =
    let (word, rest) = take_word s in if is_word c then (c ∷ word, rest) else ([], c ∷ s)

abbrev braces_close : Chars → Bool
braces_close (c ∷ d ∷ s) = if nat_eq c b'}' then nat_eq d b'}' else false
braces_close (c ∷ []) = false
braces_close [] = false

abbrev open_at : Chars → Option Chars
open_at (c ∷ d ∷ s) = if nat_eq c b'{' then (if nat_eq d b'{' then some s else none) else none
open_at (c ∷ []) = none
open_at [] = none

abbrev count : Chars → ℕ
count [] = 0
count (c ∷ s) = suc (count s)

-- `{{\s*(\w+)\s*}}` at the front: the name, and how many characters match. White space and words have no
-- character in common, so that nothing is tried twice.
unfoldable pub match_variable : Chars → Option (Chars × ℕ)
unfolding skip_spaces take_word
match_variable s = elim (open_at s) [
  | none ↦ none
  | some inner ↦
      let (at_word, n) = skip_spaces inner in
      let (name, after) = take_word at_word in
      let (at_end, m) = skip_spaces after in
      elim name [
        | [] ↦ none
        | c ∷ cs ↦ if braces_close at_end then some (c ∷ cs, 4 + n + count (c ∷ cs) + m) else none
      ]
]

pub data Token : Type 0 where
  literal : ℕ → Token
  variable : Chars → Token

-- The matches from left to right; the first argument counts the characters of the last one that are
-- still to be passed over.
unfoldable pub tokens : ℕ → Chars → List Token
unfolding match_variable
tokens n [] = []
tokens (suc n) (c ∷ s) = tokens n s
tokens zero (c ∷ s) = elim (match_variable (c ∷ s)) [
  | none ↦ literal c ∷ tokens zero s
  | some (name, size) ↦ variable name ∷ tokens (size - 1) s
]

unfoldable pub same_name : Chars → Chars → Bool
same_name [] [] = true
same_name [] (d ∷ t) = false
same_name (c ∷ s) [] = false
same_name (c ∷ s) (d ∷ t) = let rest = same_name s t in if nat_eq c d then rest else false

-- `seen.has(name)`; `seen` and `paramOrder` have the same elements.
unfoldable pub has_name : Chars → List Chars → Bool
unfolding same_name
has_name name [] = false
has_name name (x ∷ xs) = let rest = has_name name xs in if same_name x name then true else rest

-- `paramOrder.indexOf(name)`, of a name that is there
unfoldable pub index_of : Chars → List Chars → ℕ
unfolding same_name
index_of name [] = 0
index_of name (x ∷ xs) = let rest = index_of name xs in if same_name x name then 0 else suc rest

unfoldable pub note_name : Chars → List Chars → List Chars
unfolding has_name
note_name name order = if has_name name order then order else order ++ name ∷ []

-- The callback of `replace`, over all matches. What it gives for a match is written out by `write_query`.
unfoldable pub replace_variables : List Token → List Chars → List Piece × List Chars
unfolding note_name index_of
replace_variables [] order = ([], order)
replace_variables (literal c ∷ ts) order =
    let (pieces, order') = replace_variables ts order in (char c ∷ pieces, order')
replace_variables (variable name ∷ ts) order =
    let noted = note_name name order in
    let (pieces, order') = replace_variables ts noted in
    (place (index_of name noted + 1) ∷ pieces, order')

-- The digits of the next number, the last digit first.
unfoldable pub increase : Chars → Chars
increase [] = b'1' ∷ []
increase (c ∷ s) = let rest = increase s in if nat_eq c b'9' then b'0' ∷ rest else suc c ∷ s

abbrev reversed_digits : ℕ → Chars
reversed_digits zero = b'0' ∷ []
reversed_digits (suc n) = increase (reversed_digits n)

abbrev back_to_front : Chars → Chars → Chars
back_to_front [] t = t
back_to_front (c ∷ s) t = back_to_front s (c ∷ t)

-- The query's text: a place is written as a dollar sign and its number in decimal.
unfoldable pub write_query : List Piece → Chars
unfolding increase
write_query [] = []
write_query (char c ∷ ps) = c ∷ write_query ps
write_query (place i ∷ ps) = b'$' ∷ back_to_front (reversed_digits i) [] ++ write_query ps

-- `variables`: the value of a name, if it is defined.
module _ (variables : Chars → Option Value) (missing : Chars → Error) where
  unfoldable pub values_of : List Chars → Result (List Value) Error
  values_of [] = ok []
  values_of (name ∷ names) = elim (variables name) [
    | none ↦ error (missing name)
    | some v ↦ values_of names >>= λ vs. ok (v ∷ vs)
  ]

  unfoldable pub to_safe_pg_query : Chars → Result (Chars × List Value) Error
  unfolding tokens replace_variables values_of write_query
  to_safe_pg_query template =
      let (query, order) = replace_variables (tokens zero template) [] in
      values_of order >>= λ values. ok (write_query query, values)

-- `variables_of`: the property `variables` of the parameters, by a name's characters.
module _ (services : Services) (variables_of : Fields → Chars → Option Value)
    (missing : Chars → Error) where
  unfoldable pub run_query : String → String → Fields → Result QueryResult Error
  unfolding to_safe_pg_query
  run_query url template params =
      to_safe_pg_query (variables_of params) missing (codes template) >>= λ safe.
      services.query url safe.0 safe.1

  -- A failure of `end` in the inner `catch` gets to the outer one.
  unfoldable pub query_failed : Tool → String → ℕ → Fields → Error → ToolRun
  unfolding started failed
  query_failed tool url ended params e = elim (services.close url ended) [
    | error x ↦ record {
      reported = started tool params ∷ failed tool (services.error_value x) ∷ [];
      result = error (
          message ("Unknown error while running PostgresQueryTool: " +++ services.error_message x));
    }
    | ok _ ↦ record {
      reported =
          started tool params
          ∷ failed tool
              (str ("The SQL query failed with the following error: " +++ services.error_message e))
          ∷ [];
      result = error (message ("Failed to query database: " +++ services.error_text e));
    }
  ]

  unfoldable pub query_answered : Tool → String → Fields → QueryResult → ToolRun
  unfolding started completed query_failed
  query_answered tool url params result = elim (services.close url 0) [
    | error e ↦ query_failed tool url 1 params e
    | ok _ ↦ record {
      reported = started tool params ∷ completed tool params result.rows ∷ [];
      result = ok (
          services.stringify
            (obj (field "rows" result.rows (field "rowCount" result.row_count end))));
    }
  ]

  abbrev pub connection_message : Error → String
  connection_message e =
      "We failed to connect to the database. If you are running Supallm inside docker-compose, make sure to replace \"localhost\" by \"host.docker.internal\" in the database URL. Here is the error: "
      +++ services.error_message e

  unfoldable pub postgres_run : Tool → String → String → Fields → ToolRun
  unfolding started failed run_query query_failed query_answered
  postgres_run tool url template params = elim (services.connect url) [
    | error e ↦ record {
      reported = started tool params ∷ failed tool (str (connection_message e)) ∷ [];
      result = error (message (connection_message e));
    }
    | ok _ ↦ elim (run_query url template params) [
      | error e ↦ query_failed tool url 0 params e
      | ok result ↦ query_answered tool url params result
    ]
  ]

  -- `description_of`: the description, which lists the variables of the configuration.
  unfoldable pub postgres_tool : (ToolConfig → String) → ToolConfig → Result Created Error
  unfolding postgres_run decrypted_key or_default
  postgres_tool description_of c =
      decrypted_key services "Api Key (aka Database URL) is required" none c.config >>= λ url.
      let tool : Tool = record {
        id = c.id;
        name = or_default c.name "postgres-query-tool";
        description = description_of c;
      } in
      ok
        (record { tool = tool; run = postgres_run tool url (text_of (get_field "query" c.config)) })

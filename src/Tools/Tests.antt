-- ===== src/Tools/Tests.antt =====
-- Runs of the tools.
use supallm.Common.{
  All, length, Option, some, none, List, [], ◌∷◌, ◌≡◌, refl, arith, ok, if◌then◌else◌,
}
use supallm.Common.Chars.{Chars}
use supallm.Values.{Value, str, Fields, field, end}
use supallm.Nodes.{ToolConfig, sdk_notifier_tool}
use supallm.Tools.{Tool, Created, Piece, ◌+++◌, bracket}
use supallm.Tools.Samples.{used, services}
use supallm.Tools.Clients.{notifier_attempt}
use supallm.Tools.Postgres.{tokens, write_query, to_safe_pg_query, same_name}
use supallm.Tools.Postgres.Safe.{fill, meaning, IsWithin, to_safe_pg_query-fill}
use supallm.Tools.Registry.{create}
use supallm.Tools.Bracket.{IsBracketed, create-IsBracketed}

abbrev tool : Tool
tool = record { id = "t"; name = "notify"; description = "d" }

abbrev config : ToolConfig
config = record {
  id = "t";
  name = "notify";
  description = "d";
  type = sdk_notifier_tool;
  config = field "outputFieldName" (str "out") end;
}

abbrev params : Fields
params = field "input" (str "hello") end

abbrev made : Created
made = record {
  tool = tool;
  run = λ ps.
      bracket services tool (λ e. "Failed to send SDK notification: " +++ services.error_text e) ps
        (notifier_attempt services tool config.config ps);
}

create-IsBracketed_example : IsBracketed made.tool params (made.run params)
unfolding create
create-IsBracketed_example =
    create-IsBracketed services (λ fs s. none) (λ s. used) (λ c. "") config made params
      (λ p. ground (arith, p)) refl

-- `a{{x}}{{ y }}{{x}}`
abbrev template : Chars
template =
    b'a' ∷ b'{' ∷ b'{' ∷ b'x' ∷ b'}' ∷ b'}' ∷ b'{' ∷ b'{' ∷ b' ' ∷ b'y' ∷ b' ' ∷ b'}' ∷ b'}' ∷ b'{'
    ∷ b'{' ∷ b'x' ∷ b'}' ∷ b'}' ∷ []

unfoldable variables : Chars → Option Value
unfolding same_name
variables name =
    if same_name name (b'x' ∷ [])
    then some (str "1")
    else if same_name name (b'y' ∷ [])
    then some (str "2")
    else none

abbrev text : Chars
text = b'a' ∷ b'$' ∷ b'1' ∷ b'$' ∷ b'2' ∷ b'$' ∷ b'1' ∷ []

safe : to_safe_pg_query variables (λ s. used) template ≡ ok (text, str "1" ∷ str "2" ∷ [])
unfolding to_safe_pg_query variables
safe = refl

-- A digit after a variable makes another place of it.
confused :
    to_safe_pg_query variables (λ s. used) (b'{' ∷ b'{' ∷ b'x' ∷ b'}' ∷ b'}' ∷ b'0' ∷ [])
    ≡ ok (b'$' ∷ b'1' ∷ b'0' ∷ [], str "1" ∷ [])
unfolding to_safe_pg_query variables
confused = refl

to_safe_pg_query-fill_example :
    (pieces : List Piece) × (write_query pieces ≡ text)
    × (fill (str "1" ∷ str "2" ∷ []) pieces ≡ meaning variables (tokens 0 template))
    × All (IsWithin (length (str "1" ∷ str "2" ∷ []))) pieces
to_safe_pg_query-fill_example =
    to_safe_pg_query-fill variables (λ s. used) template text (str "1" ∷ str "2" ∷ []) safe

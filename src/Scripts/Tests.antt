-- ===== src/Scripts/Tests.antt =====
-- A script with an import, a `require` inside a function, and two functions called `main`.
use supallm.Common.{
  String, ◌≢◌, ◌⊎◌, some, none, [], ◌∷◌, ◌≡◌, refl, ok, error, every, if◌then◌else◌,
}
use supallm.Scripts
use supallm.Scripts.{
  Initializer, call, other_initializer, Kind, import_declaration, variable_statement,
  function_declaration, other_kind, Function, Node, node, child, none_left, no_initializer,
  object_literal, shorthand, return_statement, required, parse_code_for_required_modules,
  parse_code_for_inputs, parse_function_output, validate_main_function_exists,
  get_function_return_lines,
}
use supallm.Scripts.Folds.{gather, last_of}
use supallm.Scripts.Returned.{objects_of, keys_or}
use supallm.Scripts.Laws.{
  descendants, is_initialized, modules_of, functions_of, not_empty, inputs_of,
  parse_code_for_required_modules_lem, parse_code_for_inputs_lem,
}

abbrev leaf : Kind → Node
leaf kind = node kind none_left

abbrev main : Function
main = record {
  name = some "main";
  parameters =
      record {
        name = "prompt";
        type = some (record { text = "string"; shape = Scripts.other_shape });
      }
      ∷ [];
  body = some (return_statement (some (object_literal (shorthand "answer" ∷ []))) 40 60 ∷ []);
  start = 10;
  stop = 70;
}

abbrev script : Node
script = node other_kind (
    child (leaf (import_declaration "axios")) (
      child
        (node (function_declaration main) (
          child (leaf (variable_statement (some (call (some "require") (some "fs" ∷ [])) ∷ [])))
            none_left))
        none_left))

abbrev broken : Node
broken = node other_kind (child (leaf (variable_statement (none ∷ []))) none_left)

modules_read : parse_code_for_required_modules script ≡ ok ("axios" ∷ "fs" ∷ [])
unfolding parse_code_for_required_modules
modules_read = refl

lines_read : get_function_return_lines (λ n. n) "main" script ≡ (41, 61)
unfolding get_function_return_lines
lines_read = refl

broken_throws : parse_code_for_required_modules broken ≡ error no_initializer
unfolding parse_code_for_required_modules
broken_throws = refl

abbrev require_fs : Initializer
require_fs = call (some "require") (some "fs" ∷ [])

parse_code_for_required_modules_example :
    (parse_code_for_required_modules broken ≡ (
      if every is_initialized (descendants broken)
      then ok (gather modules_of (descendants broken))
      else error no_initializer))
    × (((m : String) × (require_fs ≡ call (some "require") (some m ∷ []))
          × (required require_fs ≡ m ∷ []))
        ⊎ ((required require_fs ≡ [])
            × ((m : String) → require_fs ≢ call (some "require") (some m ∷ []))))
parse_code_for_required_modules_example = parse_code_for_required_modules_lem broken require_fs

parse_code_for_inputs_example :
    let mains = gather (functions_of "main") (descendants script) in
    (validate_main_function_exists script ≡ not_empty mains)
    × (parse_code_for_inputs script ≡ gather inputs_of mains)
    × (parse_function_output "main" script ≡ keys_or [] (last_of (gather objects_of mains)))
parse_code_for_inputs_example = parse_code_for_inputs_lem script

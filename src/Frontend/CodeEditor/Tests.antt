-- ===== src/Frontend/CodeEditor/Tests.antt =====
-- Two scripts: one whose parameters differ only by an underscore, and one with a variable without initializer.
use supallm.Common.{String, true, false, none, some, [], ◌∷◌, ◌≡◌, refl, error, ◌==◌, if◌then◌else◌}
use supallm.Common.Chars.{codes}
use supallm.Scripts.{
  function_declaration, variable_statement, other_kind, Function, node, child, none_left,
  no_initializer, object_literal, shorthand, return_statement, Parameter,
}
use supallm.Frontend.CodeEditor.{Compiler, CodeDialog, on_open_change, on_code_change, any_handle}
use supallm.Scripts.Laws.{descendants, is_initialized}
use supallm.Frontend.CodeEditor.Submitted.{submitted, submitted_lem}

abbrev a_parameter : String → Parameter
a_parameter name = record { name = name; type = none }

abbrev a_main : Function
a_main = record {
  name = some "main";
  parameters = a_parameter "a_b" ∷ a_parameter "ab" ∷ [];
  body = some (return_statement (some (object_literal (shorthand "sum" ∷ []))) 3 4 ∷ []);
  start = 1;
  stop = 5;
}

abbrev compiler : Compiler
compiler = record {
  create_source_file = λ text.
      if text == "let x;"
      then node other_kind (child (node (variable_statement (none ∷ [])) none_left) none_left)
      else node other_kind (child (node (function_declaration a_main) none_left) none_left);
  line_of = λ text n. n;
}

abbrev dialog : CodeDialog
dialog = record { is_open = true; default_code = "f"; code = "f"; marked = none }

-- Both parameters get the same handle.
same_handle : any_handle "a_b" ≡ any_handle "ab"
unfolding any_handle codes
same_handle = refl

-- A script without a main function is marked in line 0; emptying the editor keeps the code.
marked_at_zero :
    on_code_change compiler (some "let x;") dialog
    ≡ record dialog { code = "let x;"; marked = some (0, 0) }
unfolding on_code_change
marked_at_zero = refl

kept_code :
    on_open_change false
      (on_code_change compiler (some "") (on_code_change compiler (some "g") dialog))
    ≡ record dialog { is_open = false }
unfolding on_code_change on_open_change
kept_code = refl

not_submitted : submitted compiler (record dialog { code = "let x;" }) ≡ error no_initializer
unfolding descendants is_initialized
not_submitted = submitted_lem compiler (record dialog { code = "let x;" })

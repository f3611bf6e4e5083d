-- ===== src/Frontend/CodeEditor.antt =====
-- The node of a script and the dialog that edits it, in
-- frontend/src/components/builder/nodes/code/code-executor: code-executor-node.tsx and code-editor-dialog.tsx.
-- The compiler's syntax tree of a text, and the lines of its positions, are an argument.
pub mod Submitted
mod Tests
use supallm.Common.{
  ℕ, String, Bool, true, false, Option, none, some, List, [], ◌∷◌, Result, ok, error, ◌>>=◌, ◌==◌,
  if◌then◌else◌, map,
}
use supallm.Common.Chars.{codes}
use supallm.Scripts.{
  Node, ScriptError, parse_code_for_inputs, parse_code_for_required_modules, parse_function_output,
  get_function_return_lines,
}
use supallm.Frontend.Handles.{any, generate_handle_id, sanitize_handle_label}
use supallm.Frontend.Editor.{Handle}

pub record Compiler : Type 0 where
  pub create_source_file : String → Node
  pub line_of : String → ℕ → ℕ

-- `CodeEditorOnChangeParams`
pub record CodeChange : Type 0 where
  pub code : String
  pub inputs : List (String × String)
  pub required_modules : List String
  pub output_keys : List String

-- The dialog, with the lines that are marked.
pub record CodeDialog : Type 0 where
  pub is_open : Bool
  pub default_code : String
  pub code : String
  pub marked : Option (ℕ × ℕ)

-- Closing resets the form.
unfoldable pub on_open_change : Bool → CodeDialog → CodeDialog
on_open_change true s = record s { is_open = true }
on_open_change false s = record s { is_open = false; code = s.default_code }

-- The lines of what is returned, if it has no keys.
abbrev lines_marked : List String → ℕ × ℕ → Option (ℕ × ℕ)
lines_marked [] lines = some lines
lines_marked (key ∷ keys) lines = none

-- The code is kept as it was where the editor is emptied.
unfoldable pub on_code_change : Compiler → Option String → CodeDialog → CodeDialog
unfolding parse_function_output get_function_return_lines
on_code_change compiler none s = s
on_code_change compiler (some value) s =
    let source = compiler.create_source_file value in
    let lines = get_function_return_lines (compiler.line_of value) "main" source in
    let marked = lines_marked (parse_function_output "main" source) lines in
    if value == "" then s else record s { code = value; marked = marked }

-- What the dialog hands on, with the dialog as it is then.
unfoldable pub on_submit : Compiler → CodeDialog → Result (CodeChange × CodeDialog) ScriptError
unfolding parse_code_for_inputs parse_code_for_required_modules parse_function_output
on_submit compiler s =
    let source = compiler.create_source_file s.code in
    parse_code_for_required_modules source >>= λ required_modules. ok (
      record {
        code = s.code;
        inputs = parse_code_for_inputs source;
        required_modules = required_modules;
        output_keys = parse_function_output "main" source;
      },
      record s { is_open = false },
    )

pub record CodeNode : Type 0 where
  pub code : String
  pub inputs : List Handle
  pub outputs : List Handle

unfoldable pub any_handle : String → Handle
unfolding generate_handle_id sanitize_handle_label codes
any_handle name = record {
  type = any;
  label = sanitize_handle_label (codes name);
  id = generate_handle_id any (codes name);
}

-- What becomes of the node's data, and of its form.
unfoldable pub handle_code_change : CodeChange → CodeNode
unfolding any_handle
handle_code_change values = record {
  code = values.code;
  inputs = map (λ input. any_handle input.0) values.inputs;
  outputs = map any_handle values.output_keys;
}

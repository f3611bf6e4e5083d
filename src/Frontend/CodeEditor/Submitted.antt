-- ===== src/Frontend/CodeEditor/Submitted.antt =====
-- What a submitted script makes of its node.
use supallm.Common.{
  [], ◌≡◌, refl, Result, ok, error, ◌>>=◌, if◌then◌else◌, map, every, Bool-cases, inl, inr,
}
use supallm.Scripts.{ScriptError, no_initializer}
use supallm.Scripts.Folds.{gather, last_of}
use supallm.Scripts.Returned.{objects_of, keys_or}
use supallm.Scripts.Laws.{
  descendants, is_initialized, functions_of, inputs_of, required_modules-gather,
  parse_code_for_inputs_lem,
}
use supallm.Frontend.CodeEditor.{
  Compiler, CodeDialog, on_submit, CodeNode, any_handle, handle_code_change,
}

-- The node's data after the dialog was submitted.
unfoldable pub submitted : Compiler → CodeDialog → Result CodeNode ScriptError
unfolding on_submit handle_code_change
submitted compiler s = on_submit compiler s >>= λ p. ok (handle_code_change p.0)

-- A submitted script becomes the node's, with an input for each parameter of each function called main, and
-- an output for each key of the last object that a `return` directly in the body of one of them gives; but
-- where a variable of a variable statement has no initializer, submitting throws, and the node stays as it
-- is.
pub submitted_lem :
    (compiler : Compiler) (s : CodeDialog)
    → let kinds = descendants (compiler.create_source_file s.code) in
      let mains = gather (functions_of "main") kinds in
      submitted compiler s ≡ (
        if every is_initialized kinds
        then ok (record {
          code = s.code;
          inputs = map (λ input. any_handle input.0) (gather inputs_of mains);
          outputs = map any_handle (keys_or [] (last_of (gather objects_of mains)));
        })
        else error no_initializer)
unfolding submitted on_submit handle_code_change
submitted_lem compiler s =
    let source = compiler.create_source_file s.code in
    let (m, i, o) = parse_code_for_inputs_lem source in
    let modules = required_modules-gather source in
    elim (Bool-cases (every is_initialized (descendants source))) [
      | inl e ↦ rw (submitted, on_submit, modules, e, i, o) refl
      | inr e ↦ rw (submitted, on_submit, modules, e) refl
    ]

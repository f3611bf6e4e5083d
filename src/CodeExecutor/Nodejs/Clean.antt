-- ===== src/CodeExecutor/Nodejs/Clean.antt =====
-- What becomes of a script, and of its sandbox.
use supallm.Common.{
  ℕ, String, false, Option, none, some, List, [], ◌∷◌, ◌++◌, Result, ok, error, if◌then◌else◌, add,
  has, ◌≡◌, refl, arith, Bool-cases, Option-cases, Result-cases, inl, inr, eq_refl, eq_iff, ap, ◌∙◌,
}
use supallm.Common.Chars.{Chars}
use supallm.Scripts.{parse_code_for_required_modules}
use supallm.CodeExecutor.Spawn.{
  Child, Process, ProcessError, exited, split_lines, has_failed, spawn_process, on_close, settle,
  on_events, on_event, read_stdout, read_stderr, new_process, ChildEvent,
}
use supallm.CodeExecutor.Spawn.Lines.{stdout_of}
use supallm.CodeExecutor.Spawn.Marked.{first_result, answer, spawn_wrapped-decoded}
use supallm.CodeExecutor.Nodejs.{
  Argument, ExecutorError, npm_install, typescript_compilation, code_execution, parse_result,
  Command, Commands, World, Ended, fulfilled, Host, remove, log, clean_sandbox, run_stage,
  run_script, run_compiled, run_installed, run_sandboxed, sandbox_path,
  wrap_main_function_into_callable,
}

on_events-unsettled :
    (decode : List ℕ → Chars) (es : List ChildEvent) (p : Process (Unit {0}))
    → (on_events decode es p).settled ≡ p.settled
unfolding on_events on_event read_stdout read_stderr
on_events-unsettled decode [] p = refl
on_events-unsettled decode (e ∷ es) p =
    on_events-unsettled decode es (on_event decode e p) ∙ ground arith

-- A child's promise tells whether it exited with a code other than 0.
pub spawn_process-settled :
    (decode : List ℕ → Chars) (child : Child)
    → (spawn_process decode child).settled
      ≡ some (if has_failed child.exit_code then error (exited child.exit_code) else ok tt)
unfolding spawn_process on_close settle new_process
spawn_process-settled decode child =
    let h : (on_events decode child.events new_process).settled ≡ none =
      on_events-unsettled decode child.events new_process in
    ground (arith, h)

remove-fresh : (p : String) (xs : List String) → has p xs ≡ false → remove p xs ≡ xs
unfolding remove has
remove-fresh p [] h = refl
remove-fresh p (x ∷ xs) h = ground (arith, remove-fresh p xs, eq_iff x p)

remove-snoc : (p : String) (xs : List String) → has p xs ≡ false → remove p (xs ++ p ∷ []) ≡ xs
unfolding remove has
remove-snoc p [] h = ground (arith, eq_refl p)
remove-snoc p (x ∷ xs) h = ground (arith, remove-snoc p xs, eq_iff x p)

remove-add : (p : String) (xs : List String) → has p xs ≡ false → remove p (add p xs) ≡ xs
unfolding add
remove-add p xs h = rw h (remove-snoc p xs h)

module _ (host : Host) where
  abbrev stage_error : (ProcessError → ExecutorError) → Command → Option ExecutorError
  stage_error wrap command =
      let code = (host.spawn command).exit_code in
      if has_failed code then some (wrap (exited code)) else none

  abbrev cleaned_if : Option ExecutorError → String → List String → List String
  cleaned_if none path xs = xs
  cleaned_if (some e) path xs = remove path xs

  run_stage_ends :
      (path : String) (wrap : ProcessError → ExecutorError) (starting done failing : String)
      (command : Command) (w : World)
      → ((run_stage host path wrap starting done failing command w).0 ≡ stage_error wrap command)
        × ((run_stage host path wrap starting done failing command w).1.sandboxes
            ≡ cleaned_if (stage_error wrap command) path w.sandboxes)
  unfolding run_stage log clean_sandbox
  run_stage_ends path wrap starting done failing command w =
      elim (Bool-cases (has_failed (host.spawn command).exit_code)) [
        | inl e ↦
            rw (run_stage, spawn_process-settled host.decode (host.spawn command), e) (refl, refl)
        | inr e ↦
            rw (run_stage, spawn_process-settled host.decode (host.spawn command), e) (refl, refl)
      ]

  -- What is made of the result of the script's own process.
  abbrev parsed_result : Result Chars ProcessError → Ended
  parsed_result (error e) = fulfilled (error (code_execution e))
  parsed_result (ok text) = elim (host.parse text) [
    | none ↦ fulfilled (error parse_result)
    | some v ↦ fulfilled (ok v)
  ]

  abbrev pub script_answer : Command → Result Chars ProcessError
  script_answer command =
      let child = host.spawn command in
      answer child.exit_code (first_result (split_lines (stdout_of host.decode child.events)))

  run_script_ends :
      (path : String) (command : Command) (w : World)
      → ((run_script host path command w).0 ≡ parsed_result (script_answer command))
        × ((run_script host path command w).1.sandboxes ≡ remove path w.sandboxes)
  unfolding run_script log clean_sandbox
  run_script_ends path command w = elim (Result-cases (script_answer command)) [
    | inr (x, e) ↦
        rw (run_script, spawn_wrapped-decoded host.decode (host.spawn command), e) (refl, refl)
    | inl (text, e) ↦ elim (Option-cases (host.parse text)) [
      | inl n ↦
          rw (run_script, spawn_wrapped-decoded host.decode (host.spawn command), e, n)
            (rw (parsed_result, n) refl, refl)
      | inr (v, n) ↦
          rw (run_script, spawn_wrapped-decoded host.decode (host.spawn command), e, n)
            (rw (parsed_result, n) refl, refl)
    ]
  ]

  abbrev or_ended : Option ExecutorError → Ended → Ended
  or_ended (some e) rest = fulfilled (error e)
  or_ended none rest = rest

  -- How a script ends, read off its three processes: the exit code of the first two, and the standard
  -- output of the third.
  abbrev pub verdict : Commands → List String → String → Ended
  verdict commands modules path =
      or_ended (stage_error npm_install (commands.install path modules)) (
        or_ended (stage_error typescript_compilation (commands.compile path))
          (parsed_result (script_answer (commands.run path))))

  run_compiled_ends :
      (commands : Commands) (path : String) (w : World)
      → ((run_compiled host commands path w).0
          ≡ or_ended
              (stage_error typescript_compilation (commands.compile path))
              (parsed_result (script_answer (commands.run path))))
        × ((run_compiled host commands path w).1.sandboxes ≡ remove path w.sandboxes)
  unfolding run_compiled
  run_compiled_ends commands path w =
      let stage =
        run_stage host path typescript_compilation "Compiling TypeScript..."
          "TypeScript compiled successfully" "TypeScript compilation failed: "
          (commands.compile path) w in
      let (a, b) =
        run_stage_ends path typescript_compilation "Compiling TypeScript..."
          "TypeScript compiled successfully" "TypeScript compilation failed: "
          (commands.compile path) w in
      elim (Option-cases (stage_error typescript_compilation (commands.compile path))) [
        | inr (x, e) ↦ rw (run_compiled, a, e) (refl, b ∙ ap (λ o. cleaned_if o path w.sandboxes) e)
        | inl e ↦
            let (c, d) = run_script_ends path (commands.run path) stage.1 in
            rw (run_compiled, a, e)
              (c, d ∙ ap (remove path) (b ∙ ap (λ o. cleaned_if o path w.sandboxes) e))
      ]

  run_installed_ends :
      (commands : Commands) (modules : List String) (path : String) (w : World)
      → ((run_installed host commands modules path w).0 ≡ verdict commands modules path)
        × ((run_installed host commands modules path w).1.sandboxes ≡ remove path w.sandboxes)
  unfolding run_installed
  run_installed_ends commands modules path w =
      let stage =
        run_stage host path npm_install "Installing dependencies..."
          "Dependencies installed successfully" "Dependencies installation failed: "
          (commands.install path modules) w in
      let (a, b) =
        run_stage_ends path npm_install "Installing dependencies..."
          "Dependencies installed successfully" "Dependencies installation failed: "
          (commands.install path modules) w in
      elim (Option-cases (stage_error npm_install (commands.install path modules))) [
        | inr (x, e) ↦
            rw (run_installed, a, e) (refl, b ∙ ap (λ o. cleaned_if o path w.sandboxes) e)
        | inl e ↦
            let (c, d) = run_compiled_ends commands path stage.1 in
            rw (run_installed, a, e)
              (c, d ∙ ap (remove path) (b ∙ ap (λ o. cleaned_if o path w.sandboxes) e))
      ]

-- In the jail and outside, on every path of a script whose variable statements give all their variables an
-- initializer, and whose files can be written into a fresh sandbox: its sandbox is gone at the end, with no
-- other; and it ends as the exit codes of the installation and the compilation and the first marked line of
-- the script's output tell.
pub run_sandboxed_ends :
    (host : Host) (commands : Commands) (code : String) (args : List Argument) (w : World)
    (required : List String)
    → parse_code_for_required_modules
        (host.create_source_file (wrap_main_function_into_callable host code args))
      ≡ ok required
    → has (sandbox_path host) w.sandboxes ≡ false
    → host.write_failure (sandbox_path host) ≡ none
    → let (ended, w') = run_sandboxed host commands code args w in
      (ended ≡ verdict host commands (required ++ "@types/node" ∷ []) (sandbox_path host))
      × (w'.sandboxes ≡ w.sandboxes)
unfolding run_sandboxed
run_sandboxed_ends host commands code args w required read fresh written =
    let path = sandbox_path host in
    let (a, b) =
      run_installed_ends host commands (required ++ "@types/node" ∷ []) path
        (record w { sandboxes = add path w.sandboxes }) in
    rw (run_sandboxed, read, written) (a, b ∙ remove-add path w.sandboxes fresh)

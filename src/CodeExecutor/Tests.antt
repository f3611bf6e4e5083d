-- ===== src/CodeExecutor/Tests.antt =====
-- A host on which every child prints one marked line, in two chunks.
use supallm.Common.{
  add, ℕ, List, map, ltb, true, ap, if◌then◌else◌, every, false, Option, some, none, [], ◌∷◌, ◌++◌,
  ◌≡◌, refl, has, error, ok,
}
use supallm.Values.{Fields, end, field, str, bool, truthy, get_field}
use supallm.Nodes.{NodeDefinition, code_executor, Error, message, returned}
use supallm.Scripts.{node, other_kind, none_left, parse_code_for_required_modules}
use supallm.CodeExecutor.Spawn.{
  marker, Child, stdout, stderr, spawn_process, spawn_wrapped, split_lines, pop, read_stdout, log,
  settle, trim, result_line,
}
use supallm.CodeExecutor.Spawn.Lines.{logged_out, logged_err}
use supallm.CodeExecutor.Spawn.Marked.{first_result, answer}
use supallm.CodeExecutor.Spawn.Bytes.{
  stdout_bytes, stderr_bytes, IsDecoder, SplitsNone, SplitsNoneErr, spawn_process-lines,
  spawn_wrapped-settled,
}
use supallm.Common.Chars.{Chars}
use supallm.CodeExecutor.Nodejs.{Host, World, object, jailed, run_sandboxed, sandbox_path}
use supallm.CodeExecutor.Nodejs.Clean.{verdict, run_sandboxed_ends}
use supallm.CodeExecutor.Node.{CodeConfig, execute, log_event, missing_message}
use supallm.CodeExecutor.Node.Laws.{execute_missing}

-- A byte that is no character of ASCII is read as the replacement character.
abbrev ascii_char : ℕ → ℕ
ascii_char b = if ltb b 128 then b else 65533

abbrev ascii : List ℕ → Chars
ascii bytes = map ascii_char bytes

abbrev AreAscii : List ℕ → Type 0
AreAscii bytes = every (λ b. ltb b 128) bytes ≡ true

ascii-append : (xs ys : List ℕ) → ascii (xs ++ ys) ≡ ascii xs ++ ascii ys
ascii-append [] ys = refl
ascii-append (x ∷ xs) ys = ap (λ l. ascii_char x ∷ l) (ascii-append xs ys)

ascii-IsDecoder : IsDecoder AreAscii ascii
ascii-IsDecoder = record { empty = refl; apart = λ first rest h. ascii-append first rest }

abbrev child : Child
child = record {
  events =
      stdout (b'h' ∷ b'i' ∷ b'\n' ∷ marker)
      ∷ stderr (b'?' ∷ b'\n' ∷ [])
      ∷ stdout (b' ' ∷ b'1' ∷ b'\n' ∷ [])
      ∷ [];
  exit_code = some 0;
}

abbrev host_with : Option Error → Host
host_with failure = record {
  create_source_file = λ code. node other_kind none_left;
  script_failure = λ e. message "undefined";
  random_id = "0a1b2c3d";
  write_failure = λ path. failure;
  spawn = λ command. child;
  decode = ascii;
  stringify = λ v. "1";
  parse = λ text. some (object end);
  disable_ns_jail = false;
}

abbrev world : World
world = record { sandboxes = "/tmp/nsjail/ffffffff" ∷ []; logs = [] }

program : Unit {0}
unfolding spawn_process spawn_wrapped split_lines pop read_stdout log settle trim result_line
    sandbox_path has first_result parse_code_for_required_modules logged_out
program = tt

child_result : (spawn_wrapped ascii child).settled ≡ some (ok (b'1' ∷ []))
unfolding program
child_result = refl

child_logged : logged_out (spawn_wrapped ascii child).outputs ≡ (b'h' ∷ b'i' ∷ []) ∷ []
unfolding program
child_logged = refl

spawn_process-lines_example :
    (logged_out (spawn_process ascii child).outputs
        ++ (spawn_process ascii child).stdout_buffer ∷ []
      ≡ split_lines (ascii (stdout_bytes child.events)))
    × (logged_err (spawn_process ascii child).outputs
          ++ (spawn_process ascii child).stderr_buffer ∷ []
        ≡ split_lines (ascii (stderr_bytes child.events)))
unfolding SplitsNone SplitsNoneErr
spawn_process-lines_example =
    spawn_process-lines AreAscii ascii ascii-IsDecoder child (refl, (refl, tt)) (refl, tt)

spawn_wrapped-settled_example :
    (spawn_wrapped ascii child).settled
    ≡ some (answer (some 0) (first_result (split_lines (ascii (stdout_bytes child.events)))))
unfolding SplitsNone
spawn_wrapped-settled_example =
    spawn_wrapped-settled AreAscii ascii ascii-IsDecoder child (refl, (refl, tt))

run_sandboxed_ends_example :
    ((run_sandboxed (host_with none) jailed "code" [] world).0
      ≡ verdict (host_with none) jailed ([] ++ "@types/node" ∷ []) (sandbox_path (host_with none)))
    × ((run_sandboxed (host_with none) jailed "code" [] world).1.sandboxes ≡ world.sandboxes)
unfolding program
run_sandboxed_ends_example =
    run_sandboxed_ends (host_with none) jailed "code" [] world [] refl refl refl

abbrev full_host : Host
full_host = host_with (some (message "full"))

-- The directory stays.
left_behind :
    has (sandbox_path full_host) (run_sandboxed full_host jailed "code" [] world).1.sandboxes ≡ true
unfolding program run_sandboxed add
left_behind = refl

abbrev config_of : Fields → CodeConfig
config_of fs = record { code = "code"; labels = "a" ∷ "b" ∷ [] }

abbrev definition : NodeDefinition
definition = record {
  type = code_executor;
  inputs = none;
  outputs = none;
  tools = none;
  memory = none;
  config = end;
}

-- The second argument is `false`.
execute_missing_example :
    execute
      (host_with none)
      (λ e. message "failed")
      (λ l. "line")
      config_of
      "n"
      definition
      (field "a" (str "x") (field "b" (bool false) end))
      world
    ≡ (
      record {
        reported = log_event "n" (missing_message "b") ∷ [];
        ending = returned (error (message (missing_message "b")));
      },
      world,
    )
unfolding program truthy get_field
execute_missing_example =
    execute_missing (host_with none) (λ e. message "failed") (λ l. "line") config_of "n" definition
      (field "a" (str "x") (field "b" (bool false) end)) world ("a" ∷ []) [] "b" refl (refl, tt)
      refl

-- ===== src/CodeExecutor/Nodejs.antt =====
-- `NodejsExecutor` of runner/src/nodes/code-executors/nodejs-executor/nodejs-executor.ts. The compiler
-- interface that looks into the script, the children that are spawned, the file system's set-up, the
-- random id, `JSON.stringify` and `JSON.parse` are parameters.
pub mod Clean
use Prim.Native.String
use supallm.Common.{
  ℕ, String, Bool, true, false, Option, none, some, List, [], ◌∷◌, ◌++◌, map, Result, ok, error,
  if◌then◌else◌, ◌==◌, filter, not, add,
}
use supallm.Values.{Value, Fields}
use supallm.Nodes.{Error}
use supallm.Common.Chars.{Chars}
use supallm.Scripts.{
  Node, ScriptError, validate_main_function_exists, parse_code_for_required_modules,
}
use supallm.CodeExecutor.Spawn.{
  Child, Output, fault, Process, ProcessError, spawn_process, spawn_wrapped,
}

pub record Argument : Type 0 where
  pub name : String
  pub value : Value

-- runner/src/nodes/code-executors/nodejs-executor/executor.errors.ts
pub data ExecutorError : Type 0 where
  main_function_missing : ExecutorError
  npm_install typescript_compilation code_execution : ProcessError → ExecutorError
  parse_result : ExecutorError

-- A command, its arguments, and the directory in which a shell runs it.
pub record Command : Type 0 where
  pub program : String
  pub arguments : List String
  pub cwd : String

pub data LogLine : Type 0 where
  note : String → LogLine
  failure : String → ProcessError → LogLine
  from_child : Output → LogLine

-- The directories under the sandbox root that exist, and what was handed to `onLog` and `onError`.
pub record World : Type 0 where
  pub sandboxes : List String
  pub logs : List LogLine

-- `null` is what `JSON.parse` gives for it; a text that is neither an object nor `null` is left out.
pub data Parsed : Type 0 where
  null : Parsed
  object : Fields → Parsed

-- How a call ends: its promise is fulfilled with a result, or it is rejected.
pub data Ended : Type 0 where
  fulfilled : Result Parsed ExecutorError → Ended
  thrown : Error → Ended

pub record Host : Type 0 where
  pub create_source_file : String → Node
  -- the exception, as an error
  pub script_failure : ScriptError → Error
  pub random_id : String
  -- what `fs` throws while the files of the sandbox are written, after its directory was made
  pub write_failure : String → Option Error
  pub spawn : Command → Child
  -- `data.toString()` of a chunk of a process's output
  pub decode : List ℕ → Chars
  pub stringify : Value → String
  pub parse : Chars → Option Parsed
  pub disable_ns_jail : Bool

abbrev sandbox_root : String
sandbox_root = "/tmp/nsjail"

infixr 5 ◌+++◌
abbrev ◌+++◌ : String → String → String
s +++ t = String.◌++◌ s t

-- `texts.join(separator)`
unfoldable pub join : String → List String → String
join separator [] = ""
join separator (s ∷ []) = s
join separator (s ∷ t ∷ ss) = s +++ separator +++ join separator (t ∷ ss)

unfoldable pub remove : String → List String → List String
remove path paths = filter (λ p. not (p == path)) paths

-- The stages of a script, for one way to run it.
pub record Commands : Type 0 where
  pub install : String → List String → Command
  pub compile : String → Command
  pub run : String → Command

abbrev nsjail : String → List String → Command
nsjail path rest = record {
  program = "/usr/local/bin/nsjail";
  arguments = "--config" ∷ (path +++ "/sandbox.proto") ∷ "--" ∷ rest;
  cwd = path;
}

unfoldable pub jailed : Commands
unfolding join
jailed = record {
  install = λ path modules. nsjail path (
      "/bin/npm"
      ∷ "cache"
      ∷ "clean"
      ∷ "--force"
      ∷ "--loglevel=verbose"
      ∷ "&&"
      ∷ "/bin/npm"
      ∷ "install"
      ∷ join " " modules
      ∷ "--loglevel=verbose"
      ∷ []);
  compile = λ path. nsjail path (
      "/bin/sh" ∷ "-c"
      ∷ "\"cd sandbox && ls -la && cat script.ts && tsc --project tsconfig.json && tsc --showConfig script.ts\""
      ∷ []);
  run = λ path. nsjail path ("/bin/node" ∷ "sandbox/dist/script.js" ∷ []);
}

unfoldable pub unjailed : Commands
unfolding join
unjailed = record {
  install = λ path modules. record {
    program = "/bin/npm";
    arguments = "install" ∷ join " " modules ∷ "--loglevel=verbose" ∷ [];
    cwd = path;
  };
  compile = λ path. record {
    program = "sh";
    arguments =
        "-c"
        ∷ "\"ls -la && cat script.ts && tsc --project tsconfig.json && tsc --showConfig script.ts\""
        ∷ [];
    cwd = path;
  };
  run = λ path. record { program = "/bin/node"; arguments = "dist/script.js" ∷ []; cwd = path };
}

unfoldable pub log : List LogLine → World → World
log lines w = record w { logs = w.logs ++ lines }

unfoldable pub clean_sandbox : String → World → World
unfolding remove
clean_sandbox path w = record w { sandboxes = remove path w.sandboxes }

module _ (host : Host) where
  unfoldable pub wrap_main_function_into_callable : String → List Argument → String
  unfolding join
  wrap_main_function_into_callable code args =
      "\n        "
      +++ code
      +++ "\n    \n        (async () => {\n            const result = await Promise.resolve(main("
      +++ join ", " (map (λ a. host.stringify a.value) args)
      +++ "))\n            console.log('__FUNCTION_RESULT__', JSON.stringify(result))\n      })()\n      "

  unfoldable pub validate_script : String → Result (Unit {0}) ExecutorError
  unfolding validate_main_function_exists
  validate_script code =
      if validate_main_function_exists (host.create_source_file code)
      then ok tt
      else error main_function_missing

  -- `await spawnProcessAsync(...)`, between the messages of a stage: its failure cleans the sandbox. A
  -- child closes, so that its promise is settled: `none` does not occur.
  unfoldable pub run_stage :
      String
      → (ProcessError → ExecutorError)
      → String
      → String
      → String
      → Command
      → World
      → Option ExecutorError × World
  unfolding log clean_sandbox
  run_stage path wrap starting done failing command w =
      let p = spawn_process host.decode (host.spawn command) in
      let w' = log (map from_child p.outputs) (log (note starting ∷ []) w) in
      elim p.settled [
        | some (error e) ↦ (some (wrap e), clean_sandbox path (log (failure failing e ∷ []) w'))
        | some (ok _) ↦ (none, log (note done ∷ []) w')
        | none ↦ (none, log (note done ∷ []) w')
      ]

  -- The script itself, and what `JSON.parse` makes of its result.
  unfoldable pub run_script : String → Command → World → Ended × World
  unfolding log clean_sandbox
  run_script path command w =
      let p = spawn_wrapped host.decode (host.spawn command) in
      let w' = log (map from_child p.outputs) w in
      elim p.settled [
        | none ↦ (fulfilled (error parse_result), clean_sandbox path w')
        | some (error e) ↦ (
          fulfilled (error (code_execution e)),
          clean_sandbox path (log (failure "Execution failed: " e ∷ []) w'),
        )
        | some (ok text) ↦ elim (host.parse text) [
          | none ↦ (fulfilled (error parse_result), clean_sandbox path w')
          | some parsed ↦ (fulfilled (ok parsed), clean_sandbox path w')
        ]
      ]

  unfoldable pub run_compiled : Commands → String → World → Ended × World
  unfolding run_stage run_script
  run_compiled commands path w =
      let (failed, w') =
        run_stage path typescript_compilation "Compiling TypeScript..."
          "TypeScript compiled successfully" "TypeScript compilation failed: "
          (commands.compile path) w in
      elim failed [
        | some e ↦ (fulfilled (error e), w')
        | none ↦ run_script path (commands.run path) w'
      ]

  -- `modulesToInstall` is never empty.
  unfoldable pub run_installed : Commands → List String → String → World → Ended × World
  unfolding run_stage run_compiled
  run_installed commands modules path w =
      let (failed, w') =
        run_stage path npm_install "Installing dependencies..."
          "Dependencies installed successfully" "Dependencies installation failed: "
          (commands.install path modules) w in
      elim failed [ some e ↦ (fulfilled (error e), w') | none ↦ run_compiled commands path w' ]

  -- `path.join(SANDBOX_ROOT, sandboxId)`
  unfoldable pub sandbox_path : String
  sandbox_path = sandbox_root +++ "/" +++ host.random_id

  -- What `runTypeScriptJailed` and `runTypeScriptNoJail` have in common: they differ in their commands
  unfoldable pub run_sandboxed : Commands → String → List Argument → World → Ended × World
  unfolding wrap_main_function_into_callable run_installed sandbox_path
      parse_code_for_required_modules
  run_sandboxed commands code args w =
      let script = wrap_main_function_into_callable code args in
      let path = sandbox_path in
      let made = record w { sandboxes = add path w.sandboxes } in
      elim (parse_code_for_required_modules (host.create_source_file script)) [
        | error e ↦ (thrown (host.script_failure e), w)
        | ok required ↦ elim (host.write_failure path) [
          | some e ↦ (thrown e, made)
          | none ↦ run_installed commands (required ++ "@types/node" ∷ []) path made
        ]
      ]

  unfoldable pub run_typescript_jailed : String → List Argument → World → Ended × World
  unfolding run_sandboxed jailed
  run_typescript_jailed = run_sandboxed jailed

  unfoldable pub run_typescript_no_jail : String → List Argument → World → Ended × World
  unfolding run_sandboxed unjailed
  run_typescript_no_jail = run_sandboxed unjailed

  unfoldable pub run_typescript : String → List Argument → World → Ended × World
  unfolding validate_script run_typescript_jailed run_typescript_no_jail
  run_typescript code args w = elim (validate_script code) [
    | error e ↦ (fulfilled (error e), w)
    | ok _ ↦
        if host.disable_ns_jail
        then run_typescript_no_jail code args w
        else run_typescript_jailed code args w
  ]

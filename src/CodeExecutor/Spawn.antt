-- ===== src/CodeExecutor/Spawn.antt =====
-- runner/src/nodes/code-executors/common/spawn-async.ts. A text is the list of its character codes. What the
-- child process does is a list of events, chunks of bytes on its two streams and errors, and then its
-- "close" event. The handlers are steps on the state that the closure keeps; each decodes its chunk by
-- itself, by the parameter `decode`, which is `data.toString()`.
pub mod Lines
pub mod Marked
pub mod Bytes
use supallm.Common.{
  ℕ, zero, suc, String, Bool, true, false, Option, none, some, List, [], ◌∷◌, ◌++◌, map, Result, ok,
  error, nat_eq, ◌||◌, ◌&&◌, leb, if◌then◌else◌,
}
use supallm.Common.Chars.{Chars, is_space}

abbrev pub newline : ℕ
newline = b'\n'

pub data ChildEvent : Type 0 where
  stdout stderr : List ℕ → ChildEvent
  failed : String → ChildEvent

-- The exit code is `null` if a signal ended the process.
pub record Child : Type 0 where
  pub events : List ChildEvent
  pub exit_code : Option ℕ

-- What was handed to `onLog`, with the stream that it came from, and to `onError`.
pub data Output : Type 0 where
  out err : Chars → Output
  fault : String → Output

pub data ProcessError : Type 0 where
  exited no_result : Option ℕ → ProcessError

pub record Process (A : Type 0) : Type 0 where
  pub stdout_buffer : Chars
  pub stderr_buffer : Chars
  pub outputs : List Output
  pub settled : Option (Result A ProcessError)

unfoldable pub new_process : {A : Type 0} → Process A
new_process = record { stdout_buffer = []; stderr_buffer = []; outputs = []; settled = none }

abbrev pub cons_first : ℕ → List Chars → List Chars
cons_first c [] = (c ∷ []) ∷ []
cons_first c (l ∷ ls) = (c ∷ l) ∷ ls

-- `text.split("\n")`
unfoldable pub split_lines : Chars → List Chars
split_lines [] = [] ∷ []
split_lines (c ∷ s) =
    let rest = split_lines s in if nat_eq c newline then [] ∷ rest else cons_first c rest

-- `lines.pop() ?? ""`, after the lines that it leaves
unfoldable pub pop : List Chars → List Chars × Chars
pop [] = ([], [])
pop (l ∷ []) = ([], l)
pop (l ∷ m ∷ ls) = let (full, last) = pop (m ∷ ls) in (l ∷ full, last)

-- A promise is settled once.
unfoldable pub settle : {A : Type 0} → Result A ProcessError → Process A → Process A
settle result p = elim p.settled [ none ↦ record p { settled = some result } | some old ↦ p ]

module _ {A : Type 0} where
  unfoldable pub log : List Output → Process A → Process A
  log lines p = record p { outputs = p.outputs ++ lines }

  unfoldable pub read_stdout : Chars → Process A → Process A
  unfolding split_lines pop log
  read_stdout chunk p =
      let (lines, rest) = pop (split_lines (p.stdout_buffer ++ chunk)) in
      log (map out lines) (record p { stdout_buffer = rest })

  unfoldable pub read_stderr : Chars → Process A → Process A
  unfolding split_lines pop log
  read_stderr chunk p =
      let (lines, rest) = pop (split_lines (p.stderr_buffer ++ chunk)) in
      log (map err lines) (record p { stderr_buffer = rest })

-- `code ?? 0 > 0` is `code ?? (0 > 0)`.
unfoldable pub has_failed : Option ℕ → Bool
has_failed none = false
has_failed (some zero) = false
has_failed (some (suc n)) = true

unfoldable pub on_event : (List ℕ → Chars) → ChildEvent → Process (Unit {0}) → Process (Unit {0})
unfolding read_stdout read_stderr
on_event decode (stdout chunk) p = read_stdout (decode chunk) p
on_event decode (stderr chunk) p = read_stderr (decode chunk) p
on_event decode (failed message) p = log (fault message ∷ []) p

unfoldable pub on_events :
    (List ℕ → Chars) → List ChildEvent → Process (Unit {0}) → Process (Unit {0})
unfolding on_event
on_events decode [] p = p
on_events decode (e ∷ es) p = on_events decode es (on_event decode e p)

unfoldable pub on_close : Option ℕ → Process (Unit {0}) → Process (Unit {0})
unfolding settle has_failed
on_close code p = settle (if has_failed code then error (exited code) else ok tt) p

-- `spawnProcessAsync`
unfoldable pub spawn_process : (List ℕ → Chars) → Child → Process (Unit {0})
unfolding on_events on_close new_process
spawn_process decode child = on_close child.exit_code (on_events decode child.events new_process)

unfoldable pub trim_start : Chars → Chars
unfolding is_space
trim_start [] = []
trim_start (c ∷ s) = let rest = trim_start s in if is_space c then rest else c ∷ s

unfoldable pub trim_end : Chars → Chars
unfolding is_space
trim_end [] = []
trim_end (c ∷ s) = elim (trim_end s) [
  | [] ↦ if is_space c then [] else c ∷ []
  | d ∷ rest ↦ c ∷ d ∷ rest
]

unfoldable pub trim : Chars → Chars
unfolding trim_start trim_end
trim s = trim_end (trim_start s)

-- What follows a prefix: `startsWith`, and `replace` of the prefix by nothing.
unfoldable pub strip_prefix : Chars → Chars → Option Chars
strip_prefix [] s = some s
strip_prefix (p ∷ ps) [] = none
strip_prefix (p ∷ ps) (c ∷ s) = let rest = strip_prefix ps s in if nat_eq p c then rest else none

-- "__FUNCTION_RESULT__"
abbrev pub marker : Chars
marker =
    b'_' ∷ b'_' ∷ b'F' ∷ b'U' ∷ b'N' ∷ b'C' ∷ b'T' ∷ b'I' ∷ b'O' ∷ b'N' ∷ b'_' ∷ b'R' ∷ b'E' ∷ b'S'
    ∷ b'U' ∷ b'L' ∷ b'T' ∷ b'_' ∷ b'_' ∷ []

-- The result that a line carries.
unfoldable pub result_line : Chars → Option Chars
unfolding strip_prefix trim
result_line line = elim (strip_prefix marker line) [ none ↦ none | some s ↦ some (trim s) ]

-- The loop over the lines of a chunk: `return` leaves it at the first result.
unfoldable pub scan_lines : List Chars → Process Chars → Process Chars
unfolding result_line settle log
scan_lines [] p = p
scan_lines (l ∷ ls) p = elim (result_line l) [
  | some value ↦ settle (ok value) p
  | none ↦ scan_lines ls (log (out l ∷ []) p)
]

unfoldable pub scan_stdout : Chars → Process Chars → Process Chars
unfolding split_lines pop scan_lines
scan_stdout chunk p =
    let (lines, rest) = pop (split_lines (p.stdout_buffer ++ chunk)) in
    scan_lines lines (record p { stdout_buffer = rest })

unfoldable pub on_wrapped_event : (List ℕ → Chars) → ChildEvent → Process Chars → Process Chars
unfolding scan_stdout read_stderr
on_wrapped_event decode (stdout chunk) p = scan_stdout (decode chunk) p
on_wrapped_event decode (stderr chunk) p = read_stderr (decode chunk) p
on_wrapped_event decode (failed message) p = log (fault message ∷ []) p

unfoldable pub on_wrapped_events :
    (List ℕ → Chars) → List ChildEvent → Process Chars → Process Chars
unfolding on_wrapped_event
on_wrapped_events decode [] p = p
on_wrapped_events decode (e ∷ es) p = on_wrapped_events decode es (on_wrapped_event decode e p)

unfoldable pub on_wrapped_close : Option ℕ → Process Chars → Process Chars
unfolding settle result_line
on_wrapped_close code p = elim (result_line p.stdout_buffer) [
  | some value ↦ settle (ok value) p
  | none ↦ settle (error (no_result code)) p
]

-- `spawnWrappedFunctionProcessAsync`
unfoldable pub spawn_wrapped : (List ℕ → Chars) → Child → Process Chars
unfolding on_wrapped_events on_wrapped_close new_process
spawn_wrapped decode child =
    on_wrapped_close child.exit_code (on_wrapped_events decode child.events new_process)

-- ===== src/CodeExecutor/Spawn/Marked.antt =====
-- The result of the wrapped function does not depend on how the output comes in chunks.
use supallm.Common.{
  ℕ, Option, none, some, List, [], ◌∷◌, ◌++◌, ◌≡◌, refl, sym, ap, ◌∙◌, arith, inl, inr,
  Option-cases, Result, ok, error,
}
use mathlib.Core.List.{append-nil, append_assoc}
use supallm.Common.Chars.{Chars}
use supallm.CodeExecutor.Spawn.{
  ChildEvent, stdout, stderr, failed, Process, Child, ProcessError, no_result, new_process,
  split_lines, pop, settle, log, out, fault, read_stderr, result_line, scan_lines, scan_stdout,
  on_wrapped_event, on_wrapped_events, on_wrapped_close, spawn_wrapped,
}
use supallm.CodeExecutor.Spawn.Lines.{stdout_of, joined, joined-pop, pop-append, split_lines-ne-nil}

-- The result on the first of the lines that has one.
unfoldable pub first_result : List Chars → Option Chars
first_result [] = none
first_result (l ∷ ls) = elim (result_line l) [ some v ↦ some v | none ↦ first_result ls ]

abbrev or_else : Option Chars → Option Chars → Option Chars
or_else (some v) w = some v
or_else none w = w

first_result-append :
    (ls ms : List Chars) → first_result (ls ++ ms) ≡ or_else (first_result ls) (first_result ms)
unfolding first_result result_line
first_result-append [] ms = refl
first_result-append (l ∷ ls) ms = elim (Option-cases (result_line l)) [
  | inl e ↦ rw e (first_result-append ls ms)
  | inr (v, e) ↦ rw e
]

abbrev fulfilled : Option Chars → Option (Result Chars ProcessError)
fulfilled none = none
fulfilled (some v) = some (ok v)

abbrev first_settled :
    Option (Result Chars ProcessError)
    → Option (Result Chars ProcessError)
    → Option (Result Chars ProcessError)
first_settled (some r) s = some r
first_settled none s = s

scan_lines-settled :
    (ls : List Chars) (p : Process Chars)
    → ((scan_lines ls p).settled ≡ first_settled p.settled (fulfilled (first_result ls)))
      × ((scan_lines ls p).stdout_buffer ≡ p.stdout_buffer)
unfolding scan_lines first_result settle log
scan_lines-settled [] p = (ground arith, refl)
scan_lines-settled (l ∷ ls) p = elim (Option-cases (result_line l)) [
  | inl e ↦ rw e (scan_lines-settled ls (log (out l ∷ []) p))
  | inr (v, e) ↦ rw e (ground arith, ground arith)
]

-- The process has read `s`, all but its last line.
record HasRead (p : Process Chars) (s : Chars) : Type 0 where
  lines : List Chars
  read : pop (split_lines s) ≡ (lines, p.stdout_buffer)
  found : p.settled ≡ fulfilled (first_result lines)

fulfilled-or_else :
    (v w : Option Chars) → first_settled (fulfilled v) (fulfilled w) ≡ fulfilled (or_else v w)
fulfilled-or_else none w = refl
fulfilled-or_else (some v) w = refl

scan_stdout-HasRead :
    (p : Process Chars) (s chunk : Chars) → HasRead p s → HasRead (scan_stdout chunk p) (s ++ chunk)
unfolding scan_stdout
scan_stdout-HasRead p s chunk h =
    let (more, rest) = pop (split_lines (p.stdout_buffer ++ chunk)) in
    let (settled, buffer) = scan_lines-settled more (record p { stdout_buffer = rest }) in
    record {
      lines = h.lines ++ more;
      read =
          pop-append s chunk p.stdout_buffer h.lines h.read
          ∙ ap (λ x. (h.lines ++ more, x)) (sym buffer);
      found =
          settled
          ∙ ap (λ x. first_settled x (fulfilled (first_result more))) h.found
          ∙ fulfilled-or_else (first_result h.lines) (first_result more)
          ∙ ap fulfilled (sym (first_result-append h.lines more));
    }

on_wrapped_events-HasRead :
    (decode : List ℕ → Chars) (es : List ChildEvent) (p : Process Chars) (s : Chars)
    → HasRead p s
    → HasRead (on_wrapped_events decode es p) (s ++ stdout_of decode es)
unfolding on_wrapped_events on_wrapped_event stdout_of read_stderr log
on_wrapped_events-HasRead decode [] p s h = rw (append-nil s) h
on_wrapped_events-HasRead decode (stdout bytes ∷ es) p s h =
    let chunk = decode bytes in
    rw (← append_assoc s chunk (stdout_of decode es)) (
      on_wrapped_events-HasRead decode es (scan_stdout chunk p) (s ++ chunk)
        (scan_stdout-HasRead p s chunk h))
on_wrapped_events-HasRead decode (stderr bytes ∷ es) p s h =
    on_wrapped_events-HasRead decode es (read_stderr (decode bytes) p) s
      (record { lines = h.lines; read = h.read; found = h.found })
on_wrapped_events-HasRead decode (failed message ∷ es) p s h =
    on_wrapped_events-HasRead decode es (log (fault message ∷ []) p) s
      (record { lines = h.lines; read = h.read; found = h.found })

-- The value that the promise is fulfilled with, or its error.
abbrev pub answer : Option ℕ → Option Chars → Result Chars ProcessError
answer code none = error (no_result code)
answer code (some v) = ok v

on_wrapped_close-settled :
    (code : Option ℕ) (p : Process Chars) (lines : List Chars)
    → p.settled ≡ fulfilled (first_result lines)
    → (on_wrapped_close code p).settled
      ≡ some (answer code (first_result (lines ++ p.stdout_buffer ∷ [])))
unfolding on_wrapped_close settle first_result
on_wrapped_close-settled code p lines h = elim (Option-cases (first_result lines)) [
  | inr (v, e) ↦ rw (first_result-append lines (p.stdout_buffer ∷ []), e) (ground (arith, e))
  | inl e ↦ rw (first_result-append lines (p.stdout_buffer ∷ []), e) (ground (arith, e))
]

-- The promise is settled by the texts that the chunks of the standard output are decoded to.
pub spawn_wrapped-decoded :
    (decode : List ℕ → Chars) (child : Child)
    → (spawn_wrapped decode child).settled
      ≡ some (answer child.exit_code (first_result (split_lines (stdout_of decode child.events))))
unfolding spawn_wrapped new_process split_lines pop
spawn_wrapped-decoded decode child =
    let p = on_wrapped_events decode child.events new_process in
    let s = stdout_of decode child.events in
    let h =
      on_wrapped_events-HasRead decode child.events new_process []
        (record { lines = []; read = refl; found = unfold first_result in refl }) in
    let whole : h.lines ++ p.stdout_buffer ∷ [] ≡ split_lines s =
      sym (ap joined h.read) ∙ joined-pop (split_lines s) (split_lines-ne-nil s) in
    on_wrapped_close-settled child.exit_code p h.lines h.found
    ∙ ap (λ x. some (answer child.exit_code (first_result x))) whole

-- ===== src/CodeExecutor/Spawn/Lines.antt =====
-- The lines that a process logs do not depend on how its output comes in chunks.
use supallm.Common.{
  String, ℕ, false, Option, List, [], ◌∷◌, ◌++◌, map, nat_eq, ◌≡◌, ◌≢◌, refl, sym, ap, ◌∙◌, arith,
  Bool-cases, inl, inr,
}
use mathlib.Core.List.{append_assoc, append-nil}
use supallm.Common.Chars.{Chars}
use supallm.CodeExecutor.Spawn.{
  newline, ChildEvent, stdout, stderr, failed, Output, out, err, fault, Process, Child, new_process,
  cons_first, split_lines, pop, settle, log, read_stdout, read_stderr, on_event, on_events,
  on_close, spawn_process,
}

pub split_lines-ne-nil : (s : Chars) → split_lines s ≢ []
unfolding split_lines
split_lines-ne-nil [] = cc
split_lines-ne-nil (c ∷ s) = elim (Bool-cases (nat_eq c newline)) [
  | inl e ↦ rw e (cc)
  | inr e ↦ rw e (cons_first-ne-nil (split_lines s))
]
  where
    cons_first-ne-nil : (ls : List Chars) → cons_first c ls ≢ []
    cons_first-ne-nil [] = cc
    cons_first-ne-nil (l ∷ ls) = cc

abbrev pub joined : List Chars × Chars → List Chars
joined (full, last) = full ++ last ∷ []

pub joined-pop : (ls : List Chars) → ls ≢ [] → joined (pop ls) ≡ ls
unfolding pop
joined-pop [] h = absurd (h refl)
joined-pop (l ∷ []) h = refl
joined-pop (l ∷ m ∷ ls) h = ap (λ x. l ∷ x) (joined-pop (m ∷ ls) (cc))

pop-joined : (full : List Chars) (last : Chars) → pop (full ++ last ∷ []) ≡ (full, last)
unfolding pop
pop-joined [] last = refl
pop-joined (l ∷ []) last = refl
pop-joined (l ∷ m ∷ full) last = ap (λ x. (l ∷ x.0, x.1)) (pop-joined (m ∷ full) last)

module _ (c : ℕ) (t : Chars) where
  -- What is said of splitting, for the lines `ls` of a text, and `us` of that text and `t`.
  abbrev Resumes : List Chars → List Chars → Type 0
  Resumes ls us = us ≡ (pop ls).0 ++ split_lines ((pop ls).1 ++ t)

  newline-Resumes : (ls us : List Chars) → ls ≢ [] → Resumes ls us → Resumes ([] ∷ ls) ([] ∷ us)
  unfolding pop
  newline-Resumes [] us h e = absurd (h refl)
  newline-Resumes (l ∷ ls) us h e = ap (λ x. [] ∷ x) e

  cons_first-Resumes :
      (ls us : List Chars)
      → nat_eq c newline ≡ false
      → ls ≢ []
      → Resumes ls us
      → Resumes (cons_first c ls) (cons_first c us)
  unfolding pop split_lines
  cons_first-Resumes [] us n h e = absurd (h refl)
  cons_first-Resumes (l ∷ []) us n h e = rw n (ap (cons_first c) e)
  cons_first-Resumes (l ∷ m ∷ ls) us n h e = rw e refl

-- Splitting may stop anywhere and go on with the last line.
pub split_lines-append :
    (s t : Chars)
    → split_lines (s ++ t) ≡ (pop (split_lines s)).0 ++ split_lines ((pop (split_lines s)).1 ++ t)
unfolding split_lines pop
split_lines-append [] t = refl
split_lines-append (c ∷ s) t = elim (Bool-cases (nat_eq c newline)) [
  | inl e ↦ rw e (
      newline-Resumes c t (split_lines s) (split_lines (s ++ t)) (split_lines-ne-nil s)
        (split_lines-append s t))
  | inr e ↦ rw e (
      cons_first-Resumes c t (split_lines s) (split_lines (s ++ t)) e (split_lines-ne-nil s)
        (split_lines-append s t))
]

-- All texts of a stream, put together.
unfoldable pub stdout_of : (List ℕ → Chars) → List ChildEvent → Chars
stdout_of decode [] = []
stdout_of decode (stdout chunk ∷ es) = decode chunk ++ stdout_of decode es
stdout_of decode (stderr chunk ∷ es) = stdout_of decode es
stdout_of decode (failed message ∷ es) = stdout_of decode es

unfoldable pub stderr_of : (List ℕ → Chars) → List ChildEvent → Chars
stderr_of decode [] = []
stderr_of decode (stderr chunk ∷ es) = decode chunk ++ stderr_of decode es
stderr_of decode (stdout chunk ∷ es) = stderr_of decode es
stderr_of decode (failed message ∷ es) = stderr_of decode es

-- The lines that were logged of each stream.
unfoldable pub logged_out : List Output → List Chars
logged_out [] = []
logged_out (out l ∷ os) = l ∷ logged_out os
logged_out (err l ∷ os) = logged_out os
logged_out (fault m ∷ os) = logged_out os

unfoldable pub logged_err : List Output → List Chars
logged_err [] = []
logged_err (err l ∷ os) = l ∷ logged_err os
logged_err (out l ∷ os) = logged_err os
logged_err (fault m ∷ os) = logged_err os

logged_out-append : (os ps : List Output) → logged_out (os ++ ps) ≡ logged_out os ++ logged_out ps
unfolding logged_out
logged_out-append [] ps = refl
logged_out-append (out l ∷ os) ps = ap (λ x. l ∷ x) (logged_out-append os ps)
logged_out-append (err l ∷ os) ps = logged_out-append os ps
logged_out-append (fault m ∷ os) ps = logged_out-append os ps

logged_err-append : (os ps : List Output) → logged_err (os ++ ps) ≡ logged_err os ++ logged_err ps
unfolding logged_err
logged_err-append [] ps = refl
logged_err-append (err l ∷ os) ps = ap (λ x. l ∷ x) (logged_err-append os ps)
logged_err-append (out l ∷ os) ps = logged_err-append os ps
logged_err-append (fault m ∷ os) ps = logged_err-append os ps

logged_out-map : (ls : List Chars) → (logged_out (map out ls) ≡ ls) × (logged_err (map out ls) ≡ [])
unfolding logged_out logged_err
logged_out-map [] = (refl, refl)
logged_out-map (l ∷ ls) = let (a, b) = logged_out-map ls in (ap (λ x. l ∷ x) a, b)

logged_err-map : (ls : List Chars) → (logged_err (map err ls) ≡ ls) × (logged_out (map err ls) ≡ [])
unfolding logged_out logged_err
logged_err-map [] = (refl, refl)
logged_err-map (l ∷ ls) = let (a, b) = logged_err-map ls in (ap (λ x. l ∷ x) a, b)

-- The lines logged and the buffer are what splitting the text so far at once gives.
pub record Follows {A : Type 0} (p : Process A) (s t : Chars) : Type 0 where
  pub of_stdout : pop (split_lines s) ≡ (logged_out p.outputs, p.stdout_buffer)
  pub of_stderr : pop (split_lines t) ≡ (logged_err p.outputs, p.stderr_buffer)

pub pop-append :
    (s chunk buffer : Chars) (lines : List Chars)
    → pop (split_lines s) ≡ (lines, buffer)
    → pop (split_lines (s ++ chunk))
      ≡ (lines ++ (pop (split_lines (buffer ++ chunk))).0, (pop (split_lines (buffer ++ chunk))).1)
pop-append s chunk buffer lines h =
    let (more, rest) = pop (split_lines (buffer ++ chunk)) in
    let whole : split_lines (s ++ chunk) ≡ lines ++ split_lines (buffer ++ chunk) =
      split_lines-append s chunk ∙ ap (λ x. x.0 ++ split_lines (x.1 ++ chunk)) h in
    let again : more ++ rest ∷ [] ≡ split_lines (buffer ++ chunk) =
      joined-pop (split_lines (buffer ++ chunk)) (split_lines-ne-nil (buffer ++ chunk)) in
    ap pop (whole ∙ ap (λ x. lines ++ x) (sym again) ∙ sym (append_assoc lines more (rest ∷ [])))
    ∙ pop-joined (lines ++ more) rest

-- A chunk that is read leaves the two in step; `a` and `b` are what it logs of each stream.
read_stderr-Follows :
    {A : Type 0} (p : Process A) (s t chunk : Chars)
    → Follows p s t
    → Follows (read_stderr chunk p) s (t ++ chunk)
unfolding read_stderr log
read_stderr-Follows p s t chunk f =
    let (more, rest) = pop (split_lines (p.stderr_buffer ++ chunk)) in
    let (lines, none_of) = logged_err-map more in
    record {
      of_stdout =
          f.of_stdout
          ∙ ap (λ x. (x, p.stdout_buffer))
              (sym (
                logged_out-append p.outputs (map err more)
                ∙ ap (λ x. logged_out p.outputs ++ x) none_of
                ∙ append-nil (logged_out p.outputs)));
      of_stderr =
          pop-append t chunk p.stderr_buffer (logged_err p.outputs) f.of_stderr
          ∙ ap (λ x. (x, rest))
              (sym (
                logged_err-append p.outputs (map err more)
                ∙ ap (λ x. logged_err p.outputs ++ x) lines));
    }

read_stdout-Follows :
    {A : Type 0} (p : Process A) (s t chunk : Chars)
    → Follows p s t
    → Follows (read_stdout chunk p) (s ++ chunk) t
unfolding read_stdout log
read_stdout-Follows p s t chunk f =
    let (more, rest) = pop (split_lines (p.stdout_buffer ++ chunk)) in
    let (lines, none_of) = logged_out-map more in
    record {
      of_stderr =
          f.of_stderr
          ∙ ap (λ x. (x, p.stderr_buffer))
              (sym (
                logged_err-append p.outputs (map out more)
                ∙ ap (λ x. logged_err p.outputs ++ x) none_of
                ∙ append-nil (logged_err p.outputs)));
      of_stdout =
          pop-append s chunk p.stdout_buffer (logged_out p.outputs) f.of_stdout
          ∙ ap (λ x. (x, rest))
              (sym (
                logged_out-append p.outputs (map out more)
                ∙ ap (λ x. logged_out p.outputs ++ x) lines));
    }

fault-Follows :
    {A : Type 0} (p : Process A) (s t : Chars) (message : String)
    → Follows p s t
    → Follows (log (fault message ∷ []) p) s t
unfolding log logged_out logged_err
fault-Follows p s t message f = record {
  of_stdout =
      f.of_stdout
      ∙ ap (λ x. (x, p.stdout_buffer))
          (sym
            (logged_out-append p.outputs (fault message ∷ []) ∙ append-nil (logged_out p.outputs)));
  of_stderr =
      f.of_stderr
      ∙ ap (λ x. (x, p.stderr_buffer))
          (sym
            (logged_err-append p.outputs (fault message ∷ []) ∙ append-nil (logged_err p.outputs)));
}

on_events-Follows :
    (decode : List ℕ → Chars) (es : List ChildEvent) (p : Process (Unit {0})) (s t : Chars)
    → Follows p s t
    → Follows (on_events decode es p) (s ++ stdout_of decode es) (t ++ stderr_of decode es)
unfolding on_events on_event stdout_of stderr_of
on_events-Follows decode [] p s t f = rw (append-nil s, append-nil t) f
on_events-Follows decode (stdout bytes ∷ es) p s t f =
    let chunk = decode bytes in
    rw (← append_assoc s chunk (stdout_of decode es)) (
      on_events-Follows decode es (read_stdout chunk p) (s ++ chunk) t
        (read_stdout-Follows p s t chunk f))
on_events-Follows decode (stderr bytes ∷ es) p s t f =
    let chunk = decode bytes in
    rw (← append_assoc t chunk (stderr_of decode es)) (
      on_events-Follows decode es (read_stderr chunk p) s (t ++ chunk)
        (read_stderr-Follows p s t chunk f))
on_events-Follows decode (failed message ∷ es) p s t f =
    on_events-Follows decode es (log (fault message ∷ []) p) s t (fault-Follows p s t message f)

on_close-Follows :
    (code : Option ℕ) (p : Process (Unit {0})) (s t : Chars)
    → Follows p s t
    → Follows (on_close code p) s t
unfolding on_close settle
on_close-Follows code p s t f = ground (arith, f.of_stdout, f.of_stderr)

new_process-Follows : Follows (new_process {A = Unit {0}}) [] []
unfolding new_process split_lines pop logged_out logged_err
new_process-Follows = record { of_stdout = refl; of_stderr = refl }

pub spawn_process-decoded :
    (decode : List ℕ → Chars) (child : Child)
    → let p = spawn_process decode child in
      (logged_out p.outputs ++ p.stdout_buffer ∷ [] ≡ split_lines (stdout_of decode child.events))
      × (logged_err p.outputs ++ p.stderr_buffer ∷ [] ≡ split_lines (stderr_of decode child.events))
unfolding spawn_process
spawn_process-decoded decode child =
    let s = stdout_of decode child.events in
    let t = stderr_of decode child.events in
    let f =
      on_close-Follows child.exit_code (on_events decode child.events new_process) s t
        (on_events-Follows decode child.events new_process [] [] new_process-Follows) in
    (
      sym (ap joined f.of_stdout) ∙ joined-pop (split_lines s) (split_lines-ne-nil s),
      sym (ap joined f.of_stderr) ∙ joined-pop (split_lines t) (split_lines-ne-nil t),
    )

-- ===== src/CodeExecutor/Spawn/Bytes.antt =====
-- The bytes that a process writes, and the lines and the result that are read off them.
use supallm.Common.{ℕ, List, [], ◌∷◌, ◌++◌, some, ◌≡◌, sym, ap, ◌∙◌}
use supallm.Common.Chars.{Chars}
use supallm.CodeExecutor.Spawn.{
  ChildEvent, stdout, stderr, failed, Child, split_lines, spawn_process, spawn_wrapped,
}
use supallm.CodeExecutor.Spawn.Lines.{
  stdout_of, stderr_of, logged_out, logged_err, spawn_process-decoded,
}
use supallm.CodeExecutor.Spawn.Marked.{first_result, answer, spawn_wrapped-decoded}

-- All bytes of a stream.
unfoldable pub stdout_bytes : List ChildEvent → List ℕ
stdout_bytes [] = []
stdout_bytes (stdout chunk ∷ es) = chunk ++ stdout_bytes es
stdout_bytes (stderr chunk ∷ es) = stdout_bytes es
stdout_bytes (failed message ∷ es) = stdout_bytes es

unfoldable pub stderr_bytes : List ChildEvent → List ℕ
stderr_bytes [] = []
stderr_bytes (stderr chunk ∷ es) = chunk ++ stderr_bytes es
stderr_bytes (stdout chunk ∷ es) = stderr_bytes es
stderr_bytes (failed message ∷ es) = stderr_bytes es

-- What UTF-8 decoding keeps: bytes that end with a character are decoded apart from those that follow.
pub record IsDecoder (ends_whole : List ℕ → Type 0) (decode : List ℕ → Chars) : Type 0 where
  pub empty : decode [] ≡ []
  pub apart :
      (first rest : List ℕ)
      → ends_whole first
      → decode (first ++ rest) ≡ decode first ++ decode rest

module _ (ends_whole : List ℕ → Type 0) where
  -- No chunk of the stream ends within a character.
  unfoldable pub SplitsNone : List ChildEvent → Type 0
  SplitsNone [] = Unit {0}
  SplitsNone (stdout chunk ∷ es) = ends_whole chunk × SplitsNone es
  SplitsNone (stderr chunk ∷ es) = SplitsNone es
  SplitsNone (failed message ∷ es) = SplitsNone es

  unfoldable pub SplitsNoneErr : List ChildEvent → Type 0
  SplitsNoneErr [] = Unit {0}
  SplitsNoneErr (stderr chunk ∷ es) = ends_whole chunk × SplitsNoneErr es
  SplitsNoneErr (stdout chunk ∷ es) = SplitsNoneErr es
  SplitsNoneErr (failed message ∷ es) = SplitsNoneErr es

  module _ (decode : List ℕ → Chars) (d : IsDecoder ends_whole decode) where
    decode-stdout_bytes :
        (es : List ChildEvent) → SplitsNone es → decode (stdout_bytes es) ≡ stdout_of decode es
    unfolding stdout_bytes stdout_of SplitsNone
    decode-stdout_bytes [] h = d.empty
    decode-stdout_bytes (stdout chunk ∷ es) (h, more) =
        d.apart chunk (stdout_bytes es) h
        ∙ ap (λ x. decode chunk ++ x) (decode-stdout_bytes es more)
    decode-stdout_bytes (stderr chunk ∷ es) h = decode-stdout_bytes es h
    decode-stdout_bytes (failed message ∷ es) h = decode-stdout_bytes es h

    decode-stderr_bytes :
        (es : List ChildEvent) → SplitsNoneErr es → decode (stderr_bytes es) ≡ stderr_of decode es
    unfolding stderr_bytes stderr_of SplitsNoneErr
    decode-stderr_bytes [] h = d.empty
    decode-stderr_bytes (stderr chunk ∷ es) (h, more) =
        d.apart chunk (stderr_bytes es) h
        ∙ ap (λ x. decode chunk ++ x) (decode-stderr_bytes es more)
    decode-stderr_bytes (stdout chunk ∷ es) h = decode-stderr_bytes es h
    decode-stderr_bytes (failed message ∷ es) h = decode-stderr_bytes es h

    -- Where no chunk of either stream ends within a character: however the output of a process comes in
    -- chunks, and however its two streams interleave, the lines logged of each stream are the lines of
    -- the text of all its bytes, in order, but for the last one; and that one stays in the buffer.
    pub spawn_process-lines :
        (child : Child)
        → SplitsNone child.events
        → SplitsNoneErr child.events
        → let p = spawn_process decode child in
          (logged_out p.outputs ++ p.stdout_buffer ∷ []
            ≡ split_lines (decode (stdout_bytes child.events)))
          × (logged_err p.outputs ++ p.stderr_buffer ∷ []
              ≡ split_lines (decode (stderr_bytes child.events)))
    spawn_process-lines child h k =
        let (out, err) = spawn_process-decoded decode child in
        (
          out ∙ ap split_lines (sym (decode-stdout_bytes child.events h)),
          err ∙ ap split_lines (sym (decode-stderr_bytes child.events k)),
        )

    -- Where no chunk of the standard output ends within a character: however it comes in chunks, the
    -- promise is settled when the process has closed, with what follows the marker on the first line of
    -- the text of all its bytes that begins with it, without the white space around it; or with an
    -- error, if there is no such line.
    pub spawn_wrapped-settled :
        (child : Child)
        → SplitsNone child.events
        → (spawn_wrapped decode child).settled
          ≡ some (
              answer child.exit_code
                (first_result (split_lines (decode (stdout_bytes child.events)))))
    spawn_wrapped-settled child h =
        spawn_wrapped-decoded decode child
        ∙ ap (λ s. some (answer child.exit_code (first_result (split_lines s))))
            (sym (decode-stdout_bytes child.events h))

-- ===== src/Command/Runner.antt =====
-- internal/command/runner.go: `ShellRunner.Run`.
use rpi_procmon.Base.{
  ℕ, ◌≤◌, ◌≡◌, ◌≢◌, refl, ap, ◌∙◌, String, Bool, true, false, Option, none, some, List, [], ◌∷◌, ℤ,
  pos, negsuc, eqb_ℤ, ltb, length, if◌then◌else◌, arith,
}
use rpi_procmon.Base.Text.{trim_space, concat, itoa}
use rpi_procmon.Command.Output.{
  max_output_bytes, BoundedOutput, no_output, write_all, joined, IsCapped, take_all,
  write_all-no_output,
}

pub record Outcome : Type 0 where
  pub output : String
  pub exit_code : ℤ

-- The errors of a run, by what a caller can tell apart: `*exec.ExitError`, `exec.ErrWaitDelay`, any
-- other error of `os/exec`, the error of the context, and the one for too much output.
pub data CommandError : Type 0 where
  exit_error wait_delay exec_error context_error : String → CommandError
  output_overflow : CommandError

-- `Error()`.
unfoldable pub error_text : CommandError → String
error_text (exit_error text) = text
error_text (wait_delay text) = text
error_text (exec_error text) = text
error_text (context_error text) = text
error_text output_overflow =
    concat ("command output exceeds " ∷ itoa (pos max_output_bytes) ∷ " bytes" ∷ [])

-- What `cmd.Run` leaves: what the command wrote, its exit code if it was started, the error, and
-- the error of the context by then.
pub record Finished : Type 0 where
  pub writes : List (List ℕ)
  pub exit_code : Option ℤ
  pub error : Option CommandError
  pub ctx_err : Option String

-- The package `os/exec`, over a world `W`: `run_process` starts the command under `sh -c` with the
-- deadline of five minutes, and `kill_group` is the call of `syscall.Kill`. `decode` reads bytes as
-- a text.
pub record Exec (W : Type 0) : Type 0 where
  pub run_process : String → W → Finished × W
  pub kill_group : W → W
  pub decode : List ℕ → String

abbrev is_wait_delay : Option CommandError → Bool
is_wait_delay (some (wait_delay text)) = true
is_wait_delay _ = false

abbrev code_or_zero : Option ℤ → ℤ
code_or_zero none = pos 0
code_or_zero (some code) = code

-- The error that counts: that of the context, then that of the output, then that of the command.
abbrev final_error : Option String → Bool → Option CommandError → Option CommandError
final_error (some e) overflow err = some (context_error e)
final_error none true err = some output_overflow
final_error none false err = err

-- A failure never has the exit code 0.
abbrev failed_code : Option CommandError → ℤ → ℤ
failed_code none code = code
failed_code (some e) code = if eqb_ℤ code (pos 0) then negsuc 0 else code

abbrev with_error : Option CommandError → String → String
with_error none output = output
with_error (some e) output = concat (output ∷ "\n" ∷ error_text e ∷ [])

-- The stragglers of the process group are killed if only they were left.
abbrev killed : {W : Type 0} → Exec W → Option String → Bool → Option CommandError → W → W
killed exec none false err w = if is_wait_delay err then exec.kill_group w else w
killed exec ctx_err overflow err w = w

within :
    (writes : List (List ℕ))
    → false ≡ ltb max_output_bytes (length (joined writes))
    → length (joined writes) ≤ max_output_bytes
within writes h = ground arith

module _ {W : Type 0} (exec : Exec W) where
  -- The outcome, by what `cmd.Run` left and what the buffer holds.
  unfoldable pub conclude : Finished → BoundedOutput → Outcome × Option CommandError
  conclude f b =
      let err = final_error f.ctx_err b.overflow f.error in
      (
        record {
          output = with_error err (trim_space (exec.decode b.buffer));
          exit_code = failed_code err (code_or_zero f.exit_code);
        },
        err,
      )

  -- `ShellRunner.Run`.
  unfoldable pub shell_run : String → W → (Outcome × Option CommandError) × W
  unfolding conclude
  shell_run command w =
      let (f, w') = exec.run_process command w in
      let b = write_all f.writes no_output in
      (conclude f b, killed exec f.ctx_err b.overflow f.error w')

  -- What a caller can rely on, by the error of a run.
  abbrev pub IsReported : Finished → Outcome × Option CommandError → Type 0
  IsReported f (outcome, none) =
      (f.ctx_err ≡ none)
      × (f.error ≡ none)
      × (length (joined f.writes) ≤ max_output_bytes)
      × (outcome.output ≡ trim_space (exec.decode (joined f.writes)))
      × (outcome.exit_code ≡ code_or_zero f.exit_code)
  IsReported f (outcome, some e) = outcome.exit_code ≢ pos 0

  failed_code-ne-zero : (e : CommandError) (code : ℤ) → failed_code (some e) code ≢ pos 0
  failed_code-ne-zero e (pos n) h = ground arith
  failed_code-ne-zero e (negsuc n) h = ground arith

  conclude-fields :
      (writes : List (List ℕ)) (exit_code : Option ℤ) (error : Option CommandError)
      (ctx_err : Option String) (buffer : List ℕ) (overflow : Bool)
      → IsCapped max_output_bytes (joined writes) (record { buffer = buffer; overflow = overflow })
      → IsReported
          (record { writes = writes; exit_code = exit_code; error = error; ctx_err = ctx_err })
          (conclude
            (record { writes = writes; exit_code = exit_code; error = error; ctx_err = ctx_err })
            (record { buffer = buffer; overflow = overflow }))
  unfolding conclude
  conclude-fields writes code error (some c) buffer overflow capped =
      failed_code-ne-zero (context_error c) (code_or_zero code)
  conclude-fields writes code error none buffer true capped =
      failed_code-ne-zero output_overflow (code_or_zero code)
  conclude-fields writes code (some e) none buffer false capped =
      failed_code-ne-zero e (code_or_zero code)
  conclude-fields writes code none none buffer false capped =
      let short : length (joined writes) ≤ max_output_bytes = within writes capped.noticed in
      (
        refl,
        refl,
        short,
        ap (λ (bytes : List ℕ). trim_space (exec.decode bytes))
            (capped.kept ∙ take_all max_output_bytes (joined writes) short),
        refl,
      )

  -- A run without an error has not met the deadline or the limit: its output is all that the
  -- command wrote, trimmed, and its exit code that of the command. A run with an error has another
  -- exit code than 0, whatever the process reported.
  pub shell_run-IsReported :
      (command : String) (w : W) → IsReported (exec.run_process command w).0 (shell_run command w).0
  unfolding shell_run
  shell_run-IsReported command w =
      let f = (exec.run_process command w).0 in
      conclude-fields f.writes f.exit_code f.error f.ctx_err _ _ (write_all-no_output f.writes)

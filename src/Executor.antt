-- ===== src/Executor.antt =====
-- internal/executor/executor.go: a job is run as a sequence of shell commands. What a command
-- does, when it does it, is the parameter `exec`: the k-th command of the job, with its
-- environment, comes to a `Process`. The two goroutines that read the pipes call the sink in some
-- order, which is that of the list of lines. The timeout is a process that fails.
pub mod Environment
pub mod Commands
use brazier.Base.{
  ℕ, suc, Text, text, ◌==◌, Bool, true, false, not, Option, none, some, List, [], ◌∷◌, ◌++◌, map,
  contains, keep, is_space, if◌then◌else◌,
}
use brazier.Proto.{EnvVar, JobSpec, JobDispatch, LogChunk, ℤ, pos}

abbrev pub entry : EnvVar → Text
entry e = e.key ++ (text "=" ++ e.value)

abbrev pub keys : List EnvVar → List Text
keys vars = map (λ e. e.key) vars

-- The loop over the variables of the spec, with the keys in `seen`.
unfoldable pub add_unseen : List Text → List EnvVar → List EnvVar
add_unseen seen [] = []
add_unseen seen (e ∷ vars) =
    let skipped = add_unseen seen vars in
    let added = add_unseen (e.key ∷ seen) vars in if contains e.key seen then skipped else e ∷ added

abbrev pub spec_env : Option JobSpec → List EnvVar
spec_env none = []
spec_env (some spec) = spec.env

-- The variables, before they are written as "key=value".
unfoldable pub merged : JobDispatch → List EnvVar
merged j = j.env ++ add_unseen (keys j.env) (spec_env j.spec)

unfoldable pub build_env : JobDispatch → List Text
build_env j = map entry (merged j)

-- How `cmd.Wait` ends.
pub data Exit : Type 0 where
  succeeded : Exit
  exit_error : ℤ → Exit
  wait_failed : Exit

pub record Line : Type 0 where
  pub timestamp : ℕ
  pub line : Text
  pub stderr : Bool

-- What a command comes to: an error with its time and text, or the lines that were read.
pub data Process : Type 0 where
  stdout_pipe_failed stderr_pipe_failed start_failed : ℕ → Text → Process
  ran : List Line → Exit → Process

abbrev pub err_chunk : JobDispatch → ℕ → Text → LogChunk
err_chunk j time message = record {
  job_id = j.job_id;
  run_id = j.run_id;
  timestamp = time;
  line = text "brazier: " ++ message;
  stderr = true;
}

abbrev pub line_chunk : JobDispatch → Line → LogChunk
line_chunk j l = record {
  job_id = j.job_id;
  run_id = j.run_id;
  timestamp = l.timestamp;
  line = l.line;
  stderr = l.stderr;
}

abbrev pub exit_of : Exit → Bool × ℤ
exit_of succeeded = (true, pos 0)
exit_of (exit_error code) = (false, code)
exit_of wait_failed = (false, pos 1)

-- `runCommand`: the result, and the chunks that the sink gets.
abbrev pub run_command : JobDispatch → Process → (Bool × ℤ) × List LogChunk
run_command j (stdout_pipe_failed time e) =
    ((false, pos 1), err_chunk j time (text "stdout pipe: " ++ e) ∷ [])
run_command j (stderr_pipe_failed time e) =
    ((false, pos 1), err_chunk j time (text "stderr pipe: " ++ e) ∷ [])
run_command j (start_failed time e) = ((false, pos 1), err_chunk j time (text "start: " ++ e) ∷ [])
run_command j (ran lines exit) = (exit_of exit, map (line_chunk j) lines)

module _ (exec : ℕ → Text → List Text → Process) (j : JobDispatch) (env : List Text) where
  -- The loop of `Run`, from the k-th command on.
  unfoldable pub run_from : ℕ → List Text → (Bool × ℤ) × List LogChunk
  run_from k [] = ((true, pos 0), [])
  run_from k (c ∷ commands) =
      let (result, chunks) = run_command j (exec k c env) in
      let (last, more) = run_from (suc k) commands in
      if result.0 then (last, chunks ++ more) else ((false, result.1), chunks)

-- `Run`, for a job with a spec: on a job without one it panics.
unfoldable pub run :
    (ℕ → Text → List Text → Process) → JobDispatch → JobSpec → (Bool × ℤ) × List LogChunk
run exec j spec = run_from exec j (build_env j) 0 spec.commands

-- `strings.Fields`, in two steps: the pieces between the spaces, and those that are not empty.
abbrev pub put_char : ℕ → List Text → List Text
put_char c [] = (c ∷ []) ∷ []
put_char c (w ∷ ws) = (c ∷ w) ∷ ws

unfoldable pub pieces : Text → List Text
pieces [] = [] ∷ []
pieces (c ∷ s) = let rest = pieces s in if is_space c then [] ∷ rest else put_char c rest

abbrev pub is_piece : Text → Bool
is_piece [] = false
is_piece (c ∷ s) = true

unfoldable pub split_command : Text → List Text
split_command s = keep is_piece (pieces s)

-- ===== src/Executor/Commands.antt =====
-- Which commands of a job decide its result, and what the sink gets.
use brazier.Base.{ℕ, suc, Text, text, ◌≡◌, Bool, true, false, List, [], ◌∷◌, ◌++◌}
use brazier.Proto.{JobDispatch, LogChunk, ℤ, pos}
use brazier.Executor.{
  Process, Line, ran, stdout_pipe_failed, stderr_pipe_failed, start_failed, succeeded, exit_error,
  wait_failed,
}
use brazier.Executor.Environment.{IsName}

module _ (j : JobDispatch) where
  -- The lines as chunks of the job and its run.
  pub data IsOutput : List Line → List LogChunk → Type 0 where
    none : IsOutput [] []
    one :
        (l : Line) {lines : List Line} {chunks : List LogChunk}
        → IsOutput lines chunks
        → IsOutput (l ∷ lines) (
            record {
              job_id = j.job_id;
              run_id = j.run_id;
              timestamp = l.timestamp;
              line = l.line;
              stderr = l.stderr;
            }
            ∷ chunks)

  -- The command exits with status 0.
  pub data Passes : Process → List LogChunk → Type 0 where
    exits :
        {lines : List Line} {chunks : List LogChunk}
        → IsOutput lines chunks
        → Passes (ran lines succeeded) chunks

  abbrev pub error_chunk : ℕ → Text → LogChunk
  error_chunk time line = record {
    job_id = j.job_id;
    run_id = j.run_id;
    timestamp = time;
    line = line;
    stderr = true;
  }

  -- The command exits with another status, which is its code; or it ends otherwise, or is not
  -- started, and its code is 1. A command that is not started leaves a line on the error stream.
  pub data Fails : Process → ℤ → List LogChunk → Type 0 where
    exits :
        {lines : List Line} {chunks : List LogChunk} (code : ℤ)
        → IsOutput lines chunks
        → Fails (ran lines (exit_error code)) code chunks
    lost :
        {lines : List Line} {chunks : List LogChunk}
        → IsOutput lines chunks
        → Fails (ran lines wait_failed) (pos 1) chunks
    no_stdout :
        (time : ℕ) (e : Text)
        → Fails
            (stdout_pipe_failed time e)
            (pos 1)
            (error_chunk time (text "brazier: stdout pipe: " ++ e) ∷ [])
    no_stderr :
        (time : ℕ) (e : Text)
        → Fails
            (stderr_pipe_failed time e)
            (pos 1)
            (error_chunk time (text "brazier: stderr pipe: " ++ e) ∷ [])
    no_start :
        (time : ℕ) (e : Text)
        → Fails (start_failed time e) (pos 1) (error_chunk time (text "brazier: start: " ++ e) ∷ [])

  -- A command either passes or fails, and `runCommand` says which.
  abbrev Told : Process → (Bool × ℤ) × List LogChunk → Type 0
  Told p ((true, code), out) = (code ≡ pos 0) × Passes p out
  Told p ((false, code), out) = Fails p code out

module _ (exec : ℕ → Text → List Text → Process) (j : JobDispatch) (env : List Text) where
  -- From the k-th on, the commands all pass, and `out` is their output in order.
  pub data AllPass : ℕ → List Text → List LogChunk → Type 0 where
    done : {k : ℕ} → AllPass k [] []
    step :
        {k : ℕ} {c : Text} {commands : List Text} {out more : List LogChunk}
        → Passes j (exec k c env) out
        → AllPass (suc k) commands more
        → AllPass k (c ∷ commands) (out ++ more)

  -- Some commands pass, the next fails with `code`, and `out` is the output of these in order.
  pub data OneFails : ℤ → ℕ → List Text → List LogChunk → Type 0 where
    at_once :
        {code : ℤ} {k : ℕ} {c : Text} {commands : List Text} {out : List LogChunk}
        → Fails j (exec k c env) code out
        → OneFails code k (c ∷ commands) out
    step :
        {code : ℤ} {k : ℕ} {c : Text} {commands : List Text} {out more : List LogChunk}
        → Passes j (exec k c env) out
        → OneFails code (suc k) commands more
        → OneFails code k (c ∷ commands) (out ++ more)

  abbrev pub Justified : ℕ → List Text → (Bool × ℤ) × List LogChunk → Type 0
  Justified k commands ((true, code), out) = (code ≡ pos 0) × AllPass k commands out
  Justified k commands ((false, code), out) = OneFails code k commands out

-- A variable that can have a value.
pub record Variable : Type 0 where
  pub name : Text
  pub is_name : IsName name

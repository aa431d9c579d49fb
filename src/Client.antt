-- ===== src/Client.antt =====
-- internal/client/agent.go: `handleJob`.
-- Each job is handled in a goroutine of its own; what one job sends is a value here. Whether the
-- log stream opens, and which chunks are taken by `Send`, are arguments, and errors are logged. An
-- exit code of a process fits in `int32`. Client/Connection has `Run` and `connect`.
pub mod Jobs
pub mod Connection
use brazier.Base.{ℕ, Text, Bool, true, false, List, [], ◌∷◌, ◌++◌, keep}
use brazier.Proto.{JobSpec, JobDispatch, JobResult, LogChunk, ℤ}
use brazier.Executor.{Process, run}

-- The chunks that the sink passes on: none where the stream was not opened.
abbrev pub sent_chunks : (opened : Bool) → (LogChunk → Bool) → List LogChunk → List LogChunk
sent_chunks true takes chunks = keep takes chunks
sent_chunks false takes chunks = []

abbrev pub result_of : JobDispatch → Bool × ℤ → JobResult
result_of j (success, code) = record {
  job_id = j.job_id;
  run_id = j.run_id;
  success = success;
  exit_code = code;
}

-- `handleJob`: the chunks that go over the log stream, and the result that follows them.
unfoldable pub handle_job :
    (opened : Bool)
    → (LogChunk → Bool)
    → (ℕ → Text → List Text → Process)
    → JobDispatch
    → JobSpec
    → List LogChunk × JobResult
handle_job opened takes exec j spec =
    let (end, chunks) = run exec j spec in (sent_chunks opened takes chunks, result_of j end)

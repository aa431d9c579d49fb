-- ===== src/Client/Jobs.antt =====
-- The log of a job, from the agent that runs it to the database of the master.
use brazier.Base.{
  ℕ, suc, Text, ==_refl, ◌≡◌, refl, ◌∙◌, ap, Bool, true, List, [], ◌∷◌, ◌++◌, All, All-append, keep,
  map, Bool-cases, inl, inr,
}
use brazier.Proto
use brazier.Proto.{JobSpec, JobDispatch, ℤ, pos}
use brazier.Db
use brazier.Db.Keys.{IsKeyed}
use brazier.Db.Logs.{Growing}
use brazier.Db.Store.{Env, Store}
use brazier.Pipeline.Scheduler.Refinement.{Reliable}
use brazier.Executor
use brazier.Executor.{
  Process, Line, stdout_pipe_failed, stderr_pipe_failed, start_failed, ran, line_chunk, run_command,
  run_from, build_env,
}
use brazier.Api.{wire, send_log}
use brazier.Api.LogStream.{is_of, get_logs-send_log}
use brazier.Client.{handle_job}

-- The chunk names the job and its run.
abbrev Names : JobDispatch → Proto.LogChunk → Type 0
Names j c = (c.run_id ≡ j.run_id) × (c.job_id ≡ j.job_id)

lines-Names : (j : JobDispatch) (lines : List Line) → All (Names j) (map (line_chunk j) lines)
lines-Names j [] = tt
lines-Names j (l ∷ lines) = ((refl, refl), lines-Names j lines)

run_command-Names : (j : JobDispatch) (p : Process) → All (Names j) (run_command j p).1
run_command-Names j (stdout_pipe_failed time e) = ((refl, refl), tt)
run_command-Names j (stderr_pipe_failed time e) = ((refl, refl), tt)
run_command-Names j (start_failed time e) = ((refl, refl), tt)
run_command-Names j (ran lines exit) = lines-Names j lines

run_from-Names :
    (exec : ℕ → Text → List Text → Process) (j : JobDispatch) (env : List Text) (k : ℕ)
    (commands : List Text)
    → All (Names j) (run_from exec j env k commands).1
unfolding run_from
run_from-Names exec j env k [] = tt
run_from-Names exec j env k (c ∷ commands) =
    let p = run_command j (exec k c env) in
    elim (Bool-cases p.0.0) [
      | inl ok ↦ rw ok (
          All-append (Names j) p.1 _ (run_command-Names j (exec k c env))
            (run_from-Names exec j env (suc k) commands))
      | inr failed ↦ rw failed (run_command-Names j (exec k c env))
    ]

keep-is_of-Names :
    (j : JobDispatch) (cs : List Proto.LogChunk)
    → All (Names j) cs
    → keep (is_of j.run_id j.job_id) cs ≡ cs
keep-is_of-Names j [] h = refl
keep-is_of-Names j (c ∷ cs) h =
    rw (h.0.0, h.0.1, ==_refl j.run_id, ==_refl j.job_id, keep-is_of-Names j cs h.1) refl

keep_all :
    (takes : Proto.LogChunk → Bool) (cs : List Proto.LogChunk)
    → ((c : Proto.LogChunk) → takes c ≡ true)
    → keep takes cs ≡ cs
keep_all takes [] h = refl
keep_all takes (c ∷ cs) h = rw (h c, keep_all takes cs h) refl

-- Where the agent's log stream opens and takes every chunk, and no statement of the master fails,
-- the log of the job on the master grows by exactly the chunks that the executor has handed to its
-- sink, in that order: the lines of the commands, and the error of a command that could not be
-- started. The primary keys are unique, and the times of the stored chunks do not fall.
pub get_logs-handle_job :
    (env : Env) (takes : Proto.LogChunk → Bool) (exec : ℕ → Text → List Text → Process)
    (j : JobDispatch) (spec : JobSpec) (s : Store)
    → Reliable env
    → ((c : Proto.LogChunk) → takes c ≡ true)
    → IsKeyed s.tables
    → Growing 0 (send_log env (handle_job true takes exec j spec).0 s).tables.log_chunks
    → map wire (
        Db.get_logs j.run_id j.job_id (send_log env (handle_job true takes exec j spec).0 s).tables)
      ≡ map wire (Db.get_logs j.run_id j.job_id s.tables) ++ (Executor.run exec j spec).1
unfolding handle_job Executor.run
get_logs-handle_job env takes exec j spec s reliable all_taken keyed times =
    let chunks = (run_from exec j (build_env j) 0 spec.commands).1 in
    get_logs-send_log env reliable j.run_id j.job_id (keep takes chunks) s keyed times
    ∙ rw (keep_all takes chunks all_taken) (
        ap (λ ls. map wire (Db.get_logs j.run_id j.job_id s.tables) ++ ls)
          (keep-is_of-Names j chunks (run_from-Names exec j (build_env j) 0 spec.commands)))

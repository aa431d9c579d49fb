-- ===== src/Examples/Staging.antt =====
-- A run of a stage with one job, which completes.
use brazier.Base.{text, ◌==◌, refl, true, List, [], ◌∷◌, arith}
use brazier.Proto.{node, stage, nil, cons, PipelineSpec}
use brazier.Db
use brazier.Db.{NodeState, Tables, find_node}
use brazier.Pipeline.Scheduler.{World, advance}
use brazier.Pipeline.Scheduler.Dispatches.{Request, recorder}
use brazier.Pipeline.Scheduler.Snapshot.{state_in}
use brazier.Pipeline.Manager.{node_completed}
use brazier.Pipeline.Manager.Completion.{run_state_in}
use brazier.Pipeline.Manager.Stages.{IsRunning, Calls, Calls-IsRunning}
use brazier.Examples.{spec_of, job_node, on_main, row, run, steady, accepts_all}

abbrev staged : PipelineSpec
staged = spec_of (node (text "tests") [] [] (stage (cons (job_node (text "unit") []) nil)) ∷ [])

abbrev dispatched_stage : Tables
dispatched_stage = record {
  runs = run ∷ [];
  nodes = row (text "tests") NodeState.running ∷ row (text "tests/unit") NodeState.pending ∷ [];
  log_chunks = [];
  next_log = 1;
}

abbrev first : World (List Request)
first = record {
  store = record { tables = dispatched_stage; calls = 0 };
  dispatcher = [];
  published = [];
}

first-IsRunning : IsRunning (text "r") (text "tests") first
unfolding find_node text ◌==◌ state_in run_state_in Db.get_node Db.get_run Db.find_run
first-IsRunning = record {
  keyed = record {
    nodes = (refl, (refl, tt));
    runs = (refl, tt);
    ascending = tt;
    below = tt;
    counted = omega arith;
  };
  node = refl;
  run = refl;
}

-- The job of the stage succeeds.
abbrev reported : World (List Request)
reported = (node_completed steady (text "r") (text "tests/unit") true first).1

abbrev advanced_again : World (List Request)
advanced_again = advance steady (recorder accepts_all) (text "r") on_main staged reported

Calls-IsRunning_example : IsRunning (text "r") (text "tests") advanced_again
unfolding text ◌==◌
Calls-IsRunning_example =
    Calls-IsRunning (text "r") (text "tests") staged first advanced_again first-IsRunning (
      Calls.completed steady (text "tests/unit") true first refl
        (Calls.advanced steady (recorder accepts_all) on_main reported Calls.here))

-- ===== src/Examples.antt =====
-- Small pipelines and databases, and the theorems at them.
mod Sorting
mod Scheduling
mod Storing
mod Building
mod Clouds
mod Serving
mod Running
mod Blocking
mod Admitting
mod Starting
mod Progressing
mod Staging
mod Launching
mod Following
mod Loading
mod Keeping
use brazier.Base.{
  ℕ, ◌+◌, Text, text, ◌==◌, refl, Bool, true, false, none, some, List, [], ◌∷◌, arith,
}
use brazier.Proto.{JobSpec, Node, node, Kind, unset, job, stage, Nodes, nil, cons, PipelineSpec}
use brazier.Db.{NodeState, NodeRecord, RunState, PipelineRun, LogChunk, Tables, find_node}
use brazier.Db.Keys.{IsKeyed}
use brazier.Db.Store.{Env}
use brazier.Pipeline.Conditions.{RunContext}
use brazier.Pipeline.Scheduler.{World}
use brazier.Pipeline.Scheduler.Dispatches.{Request}

abbrev pub spec_of : List Node → PipelineSpec
spec_of ns = record { workflow = none; nodes = ns }

abbrev pub echo : JobSpec
echo = record { commands = text "echo" ∷ []; env = []; secrets = []; artifact_paths = [] }

abbrev pub job_node : Text → List Text → Node
job_node id deps = node id deps [] (job echo)

-- The pipeline of `TestTopoSortLinear`.
abbrev pub build : Node
build = job_node (text "build") (text "test" ∷ [])

abbrev pub test : Node
test = job_node (text "test") (text "lint" ∷ [])

abbrev pub lint : Node
lint = job_node (text "lint") []

abbrev pub linear : PipelineSpec
linear = spec_of (build ∷ test ∷ lint ∷ [])

-- The pipeline of `TestTopoSortCycle`.
abbrev pub cyclic : PipelineSpec
cyclic = spec_of (job_node (text "a") (text "b" ∷ []) ∷ job_node (text "b") (text "a" ∷ []) ∷ [])

abbrev pub dangling : PipelineSpec
dangling = spec_of (job_node (text "a") (text "z" ∷ []) ∷ [])

abbrev pub on_main : RunContext
on_main = record { branch = text "main"; tag = []; event = text "push" }

abbrev pub row : Text → NodeState → NodeRecord
row id state = record {
  run_id = text "r";
  node_id = id;
  job_id = [];
  state = state;
  updated_at = 0;
}

abbrev pub run : PipelineRun
run = record {
  id = text "r";
  project = text "org/repo";
  state = RunState.running;
  created_at = 1;
  updated_at = 1;
}

abbrev pub line : Text → ℕ → LogChunk
line l time = record {
  job_id = text "lint";
  run_id = text "r";
  timestamp = time;
  line = l;
  stderr = false;
}

-- A run of `linear`, with lint done and two lines of its log.
abbrev pub half_done : Tables
half_done = record {
  runs = run ∷ [];
  nodes =
      row (text "build") NodeState.pending
      ∷ row (text "test") NodeState.pending
      ∷ row (text "lint") NodeState.success
      ∷ [];
  log_chunks =
      record { id = 1; chunk = line (text "one") 5 }
      ∷ record { id = 2; chunk = line (text "two") 5 }
      ∷ [];
  next_log = 3;
}

pub half_done-IsKeyed : IsKeyed half_done
unfolding find_node text ◌==◌
half_done-IsKeyed = record {
  nodes = (refl, (refl, (refl, tt)));
  runs = (refl, tt);
  ascending = omega arith;
  below = omega arith;
  counted = omega arith;
}

-- Every statement succeeds.
abbrev pub steady : Env
steady = record { fails = λ k. false; now = λ k. k + 10 }

abbrev pub world : World (List Request)
world = record { store = record { tables = half_done; calls = 0 }; dispatcher = []; published = [] }

abbrev pub accepts_all : Request → Bool
accepts_all r = true

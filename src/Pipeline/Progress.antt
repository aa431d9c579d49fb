-- ===== src/Pipeline/Progress.antt =====
-- A run of a pipeline that `TopoSort` accepts, in rounds: a call of `Advance`, and then a call of
-- `NodeCompleted`, with success, for each node that is running.
pub mod Order
pub mod Counting
pub mod Rounds
pub mod Finish
use brazier.Base.{
  ℕ, zero, suc, Text, Bool, true, false, Option, none, some, List, [], ◌∷◌, if◌then◌else◌,
}
use brazier.Proto.{Node, id_of, PipelineSpec}
use brazier.Db.{NodeState}
use brazier.Db.Store.{Env}
use brazier.Pipeline.Conditions.{RunContext}
use brazier.Pipeline.Scheduler.{Dispatcher, World, advance}
use brazier.Pipeline.Scheduler.Snapshot.{state_in}
use brazier.Pipeline.Manager.{node_completed}

abbrev pub is_running : Option NodeState → Bool
is_running (some NodeState.running) = true
is_running _ = false

module _ {S : Type 0} (env : Env) (d : Dispatcher S) (run_id : Text) (rc : RunContext)
    (spec : PipelineSpec) where
  -- The agents report success for the running nodes, in the order of the pipeline.
  unfoldable pub complete_running : List Node → World S → World S
  complete_running [] w = w
  complete_running (n ∷ ns) w =
      let done = (node_completed env run_id (id_of n) true w).1 in
      complete_running ns
        (if is_running (state_in run_id (id_of n) w.store.tables) then done else w)

  unfoldable pub round : World S → World S
  round w = complete_running spec.nodes (advance env d run_id rc spec w)

  unfoldable pub rounds : ℕ → World S → World S
  rounds zero w = w
  rounds (suc k) w = rounds k (round w)

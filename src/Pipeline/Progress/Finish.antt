-- ===== src/Pipeline/Progress/Finish.antt =====
-- A run, from `Start` until every node is done.
use brazier.Base.{All-weaken, ℕ, Text, ==_refl, ◌≡◌, refl, true, none, List, All, length, contains}
use brazier.Proto.{Node, id_of, PipelineSpec}
use brazier.Db
use brazier.Db.{NodeState}
use brazier.Db.Keys.{IsKeyed}
use brazier.Db.Store.{Env}
use brazier.Pipeline.Conditions.{RunContext}
use brazier.Pipeline.Scheduler.{Dispatcher, World, lets_through}
use brazier.Pipeline.Scheduler.Snapshot.{state_in}
use brazier.Pipeline.Scheduler.Refinement.{Reliable}
use brazier.Pipeline.TopoSort.{ok, topo_sort}
use brazier.Pipeline.Manager
use brazier.Pipeline.Manager.Begun.{contains-seeded_ids, started_ok}
use brazier.Pipeline.Manager.Seeding.{seeded_ids}
use brazier.Pipeline.Manager.Success.{start_succeeds}
use brazier.Pipeline.Manager.Keyed.{start-IsKeyed}
use brazier.Pipeline.Progress.{rounds}
use brazier.Pipeline.Progress.Counting.{Settled, pending_count-length}
use brazier.Pipeline.Progress.Rounds.{states, rounds-through}

module _ {S : Type 0} (env : Env) (d : Dispatcher S) (run_id project : Text) (now : ℕ)
    (rc : RunContext) (spec : PipelineSpec) where
  started-Settled :
      (w : World S)
      → (Manager.start env run_id project now spec w).0 ≡ Manager.ok run_id
      → Settled (states run_id (Manager.start env run_id project now spec w).1) spec.nodes
  unfolding states
  started-Settled w replied =
      let (marks, _, _) = started_ok env run_id project now spec w replied in
      All-weaken (λ n. contains (id_of n) (seeded_ids spec.nodes) ≡ true) _ spec.nodes
        (λ n on. rw (marks run_id (id_of n), ==_refl run_id, on) refl)
        (contains-seeded_ids spec.nodes)

  -- Where no statement fails, the id of the run is new to the runs, the primary keys are unique,
  -- and `TopoSort` accepts the pipeline, `Start` and then as many rounds as the pipeline has nodes,
  -- each a call of Advance and a call of NodeCompleted with success for every node that is running,
  -- leave every node of the pipeline at success or skipped, whatever its conditions are.
  pub start-rounds :
      (sorted : List Node) (w : World S)
      → Reliable env
      → IsKeyed w.store.tables
      → Db.get_run run_id w.store.tables ≡ none
      → topo_sort spec ≡ ok sorted
      → let started = (Manager.start env run_id project now spec w).1 in
        let after = rounds env d run_id rc spec (length spec.nodes) started in
        All (λ n. lets_through (state_in run_id (id_of n) after.store.tables) ≡ true) spec.nodes
  unfolding states
  start-rounds sorted w reliable keyed no_run accepted =
      let started = (Manager.start env run_id project now spec w).1 in
      rounds-through env d run_id rc spec reliable sorted accepted (length spec.nodes) started
        (start-IsKeyed env run_id project now spec w keyed)
        (started-Settled w (start_succeeds env run_id project now spec reliable w no_run))
        (pending_count-length (states run_id started) spec.nodes)

-- ===== src/Pipeline/Manager.antt =====
-- internal/pipeline/run.go: a run is started, and completed node by node. The id that
-- `uuid.New` returns is an argument. `Start` ends with `go m.scheduler.Advance(…)`, a step of its
-- own that may run at any later time.
pub mod Completion
pub mod Runs
pub mod Open
pub mod Stages
pub mod Blocked
pub mod Seeding
pub mod Creating
pub mod Keyed
pub mod Begun
pub mod Idle
pub mod Launch
pub mod Updating
pub mod Starting
pub mod Success
pub mod Waiting
use brazier.Base.{
  ℕ, Text, text, ◌==◌, Bool, true, false, not, ◌&&◌, ◌||◌, Option, none, some, List, [], ◌∷◌, ◌++◌,
  all, any, if◌then◌else◌,
}
use brazier.Proto.{Node, id_of, get_stage, PipelineSpec}
use brazier.Db.{RunState, NodeState, PipelineRun, NodeRecord}
use brazier.Db.Store
use brazier.Db.Store.{Env, Store}
use brazier.Bus.{EventType, Event, trigger_received, job_completed, job_failed, run_completed}
use brazier.Pipeline.Scheduler.{World, node_record}

-- What `Start` and `NodeCompleted` return.
pub data Reply (A : Type 0) : Type 0 where
  ok : A → Reply A
  create_failed : Reply A
  seed_failed : Text → Reply A
  update_failed upsert_failed list_failed : Reply A

abbrev pub is_terminal : NodeState → Bool
is_terminal NodeState.pending = false
is_terminal NodeState.running = false
is_terminal _ = true

unfoldable pub all_terminal : List NodeRecord → Bool
all_terminal nodes = all (λ n. is_terminal n.state) nodes

abbrev pub is_failed : NodeState → Bool
is_failed NodeState.failed = true
is_failed _ = false

-- The loop that looks for a failed node and breaks at the first.
unfoldable pub final_state : List NodeRecord → RunState
final_state [] = RunState.success
final_state (n ∷ ns) = if is_failed n.state then RunState.failed else final_state ns

-- The run that `Start` creates.
abbrev pub new_run : (run_id project : Text) (now : ℕ) → PipelineRun
new_run run_id project now = record {
  id = run_id;
  project = project;
  state = RunState.pending;
  created_at = now;
  updated_at = now;
}

module _ {S : Type 0} (env : Env) where
  abbrev publish : EventType → Text → World S → World S
  publish type payload w = record w {
    published = w.published ++ record { type = type; payload = payload } ∷ [];
  }

  -- One UpsertNode, with its error as false.
  unfoldable pub put : Text → Text → NodeState → World S → Bool × World S
  put run_id node_id state w =
      let (done, store) = Store.upsert_node env (node_record run_id node_id state) w.store in
      (done, record w { store = store })

  -- The loop over the jobs of a stage; false at the first error.
  unfoldable pub seed_jobs : Text → Text → List Node → World S → Bool × World S
  seed_jobs run_id id [] w = (true, w)
  seed_jobs run_id id (j ∷ jobs) w =
      let (done, w') = put run_id (id ++ (text "/" ++ id_of j)) NodeState.pending w in
      let rest = seed_jobs run_id id jobs w' in if done then rest else (false, w')

  unfoldable pub seed_stage : Text → Node → World S → Bool × World S
  seed_stage run_id n w = elim (get_stage n) [
    | none ↦ (true, w)
    | some jobs ↦ seed_jobs run_id (id_of n) jobs w
  ]

  unfoldable pub seed_nodes : Text → List Node → World S → Reply (Unit {0}) × World S
  seed_nodes run_id [] w = (ok tt, w)
  seed_nodes run_id (n ∷ ns) w =
      let (done, w₁) = put run_id (id_of n) NodeState.pending w in
      let (jobs_done, w₂) = seed_stage run_id n w₁ in
      let rest = seed_nodes run_id ns w₂ in
      if done
      then (if jobs_done then rest else (upsert_failed, w₂))
      else (seed_failed (id_of n), w₁)

  -- `UpdateRunState` to running.
  unfoldable pub set_running : Text → World S → Bool × World S
  set_running run_id w =
      let (updated, store) = Store.update_run_state env run_id RunState.running w.store in
      (updated, record w { store = store })

  -- The end of `Start`, from what the loop over the nodes and the update return.
  abbrev pub finish_start :
      Text → Reply (Unit {0}) × World S → Bool × World S → Reply Text × World S
  finish_start run_id (ok _, w) (true, w') = (ok run_id, publish trigger_received run_id w')
  finish_start run_id (ok _, w) (false, w') = (update_failed, w')
  finish_start run_id (create_failed, w) u = (create_failed, w)
  finish_start run_id (seed_failed id, w) u = (seed_failed id, w)
  finish_start run_id (update_failed, w) u = (update_failed, w)
  finish_start run_id (upsert_failed, w) u = (upsert_failed, w)
  finish_start run_id (list_failed, w) u = (list_failed, w)

  -- `Start`, up to the `go` statement. `now` is the time that it reads first.
  unfoldable pub start :
      (run_id project : Text) (now : ℕ) → PipelineSpec → World S → Reply Text × World S
  start run_id project now spec w =
      let (created, store) = Store.create_run env (new_run run_id project now) w.store in
      let w₁ = record w { store = store } in
      let seeded = seed_nodes run_id spec.nodes w₁ in
      if created
      then finish_start run_id seeded (set_running run_id seeded.1)
      else (create_failed, w₁)

  -- The end of `NodeCompleted`, once every node of the run is terminal.
  unfoldable pub finish : Text → List NodeRecord → World S → Reply (Unit {0}) × World S
  finish run_id nodes w =
      let (updated, store) = Store.update_run_state env run_id (final_state nodes) w.store in
      let w' = record w { store = store } in
      if updated then (ok tt, publish run_completed run_id w') else (update_failed, w')

  unfoldable pub complete_run : Text → World S → Reply (Unit {0}) × World S
  complete_run run_id w =
      let (listed, store) = Store.list_nodes env run_id w.store in
      let w' = record w { store = store } in
      elim listed [
        | none ↦ (list_failed, w')
        | some nodes ↦ if all_terminal nodes then finish run_id nodes w' else (ok tt, w')
      ]

  unfoldable pub node_completed :
      (run_id node_id : Text) → Bool → World S → Reply (Unit {0}) × World S
  node_completed run_id node_id success w =
      let state = if success then NodeState.success else NodeState.failed in
      let type = if success then job_completed else job_failed in
      let (done, w') = put run_id node_id state w in
      if done then complete_run run_id (publish type node_id w') else (upsert_failed, w')

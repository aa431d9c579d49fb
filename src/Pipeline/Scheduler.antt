-- ===== src/Pipeline/Scheduler.antt =====
-- internal/pipeline/scheduler.go: `Advance`, over the snapshot of the states that it reads first.
-- Log lines are left out.
pub mod Snapshot
pub mod Steps
pub mod Refinement
pub mod Dispatches
pub mod Passes
pub mod Lifecycle
pub mod Keyed
use brazier.Base.{
  ℕ, Text, text, ◌==◌, Bool, true, false, ◌&&◌, Option, none, some, List, [], ◌∷◌, ◌++◌, all,
  if◌then◌else◌,
}
use brazier.Proto.{
  JobSpec, Node, Kind, unset, job, stage, id_of, depends_on_of, conditions_of, kind_of, get_job,
  nodes_list, PipelineSpec,
}
use brazier.Db.{NodeState, NodeRecord}
use brazier.Db.Store
use brazier.Db.Store.{Env, Store}
use brazier.Bus.{Event, job_dispatched}
use brazier.Pipeline.Conditions.{RunContext, eval_conditions}

-- The interface `Dispatcher`; the Boolean is true where no error is returned.
pub record Dispatcher (S : Type 0) : Type 0 where
  pub dispatch : (run_id node_id : Text) → Option JobSpec → S → Bool × S

-- What the scheduler and the manager act on: the store, the dispatcher's state, and the events
-- that were published on the bus.
pub record World (S : Type 0) : Type 0 where
  pub store : Store
  pub dispatcher : S
  pub published : List Event

-- The map `stateByID`. A later row with the same id overwrites an earlier one.
unfoldable pub state_by_id : List NodeRecord → Text → Option NodeState
state_by_id [] id = none
state_by_id (n ∷ ns) id = elim (state_by_id ns id) [
  | some later ↦ some later
  | none ↦ if n.node_id == id then some n.state else none
]

abbrev pub is_pending : Option NodeState → Bool
is_pending (some NodeState.pending) = true
is_pending _ = false

-- The switch of `depsTerminal`: a missing state is the empty string, and falls to the default.
abbrev pub lets_through : Option NodeState → Bool
lets_through (some NodeState.success) = true
lets_through (some NodeState.skipped) = true
lets_through _ = false

unfoldable pub deps_terminal : List Text → (Text → Option NodeState) → Bool
deps_terminal deps state = all (λ dep. lets_through (state dep)) deps

abbrev pub node_record : Text → Text → NodeState → NodeRecord
node_record run_id node_id state = record {
  run_id = run_id;
  node_id = node_id;
  job_id = [];
  state = state;
  updated_at = 0;
}

module _ {S : Type 0} (env : Env) (d : Dispatcher S) (run_id : Text) where
  unfoldable pub mark : Text → NodeState → World S → Bool × World S
  mark node_id state w =
      let (done, store) = Store.upsert_node env (node_record run_id node_id state) w.store in
      (done, record w { store = store })

  unfoldable pub dispatch : Text → Option JobSpec → World S → World S
  dispatch node_id spec w =
      let (sent, state) = d.dispatch run_id node_id spec w.dispatcher in
      let w' = record w { dispatcher = state } in
      if sent
      then record w' {
        published = w.published ++ record { type = job_dispatched; payload = node_id } ∷ [];
      }
      else w'

  unfoldable pub dispatch_jobs : Text → List Node → World S → World S
  dispatch_jobs id [] w = w
  dispatch_jobs id (j ∷ jobs) w =
      dispatch_jobs id jobs (dispatch (id ++ (text "/" ++ id_of j)) (get_job j) w)

  -- The switch on `node.Kind`.
  unfoldable pub dispatch_kind : Text → Kind → World S → World S
  dispatch_kind id unset w = w
  dispatch_kind id (job spec) w = dispatch id (some spec) w
  dispatch_kind id (stage jobs) w = dispatch_jobs id (nodes_list jobs) w

  unfoldable pub start_node : Node → World S → World S
  start_node n w =
      let (marked, w') = mark (id_of n) NodeState.running w in
      if marked then dispatch_kind (id_of n) (kind_of n) w' else w'

  unfoldable pub skip_node : Node → World S → World S
  skip_node n w = (mark (id_of n) NodeState.skipped w).1

  module _ (rc : RunContext) where
    -- The body of the loop of `Advance`.
    unfoldable pub advance_node : (Text → Option NodeState) → Node → World S → World S
    advance_node state n w =
        if is_pending (state (id_of n))
        then (if deps_terminal (depends_on_of n) state
            then (if eval_conditions (conditions_of n) rc then start_node n w else skip_node n w)
            else w)
        else w

    unfoldable pub advance_nodes : (Text → Option NodeState) → List Node → World S → World S
    advance_nodes state [] w = w
    advance_nodes state (n ∷ ns) w = advance_nodes state ns (advance_node state n w)

    unfoldable pub advance : PipelineSpec → World S → World S
    advance spec w =
        let (listed, store) = Store.list_nodes env run_id w.store in
        let w' = record w { store = store } in
        elim listed [ none ↦ w' | some nodes ↦ advance_nodes (state_by_id nodes) spec.nodes w' ]

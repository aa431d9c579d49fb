-- ===== src/Pipeline/Scheduler/Steps.antt =====
-- How one pass of `Advance` changes the states of the nodes.
use brazier.Base.{
  Text, text, ◌==◌, ◌≡◌, refl, ◌∙◌, ◌&&◌, Option, none, some, List, [], ◌∷◌, ◌++◌, arith,
  if◌then◌else◌,
}
use brazier.Proto.{
  JobSpec, Node, Kind, unset, job, stage, id_of, depends_on_of, conditions_of, kind_of, get_job,
  nodes_list,
}
use brazier.Db.{NodeState}
use brazier.Db.Keys.{get_node-upsert_node}
use brazier.Db.Store
use brazier.Db.Store.{Env, Store}
use brazier.Pipeline.Conditions.{RunContext, eval_conditions}
use brazier.Pipeline.Scheduler.{
  Dispatcher, World, is_pending, deps_terminal, mark, dispatch, dispatch_jobs, dispatch_kind,
  start_node, node_record,
}
use brazier.Pipeline.Scheduler.Snapshot.{state_in}

-- What a pass decides about a node; `none` leaves it alone.
unfoldable pub verdict : RunContext → (Text → Option NodeState) → Node → Option NodeState
verdict rc state n =
    if is_pending (state (id_of n))
    then (if deps_terminal (depends_on_of n) state
        then some
            (if eval_conditions (conditions_of n) rc then NodeState.running else NodeState.skipped)
        else none)
    else none

-- The decision for an id. Where nodes share an id the last decision counts.
unfoldable pub decided :
    RunContext → (Text → Option NodeState) → List Node → Text → Option NodeState
decided rc state [] id = none
decided rc state (n ∷ ns) id = elim (decided rc state ns id) [
  | some later ↦ some later
  | none ↦ if id_of n == id then verdict rc state n else none
]

abbrev pub or_else : Option NodeState → Option NodeState → Option NodeState
or_else none old = old
or_else (some new) old = some new

module _ {S : Type 0} (env : Env) (d : Dispatcher S) (run_id : Text) where
  -- The state of a node, as the world's database has it.
  abbrev pub shown : Text → Text → World S → Option NodeState
  shown r id w = state_in r id w.store.tables

  pub shown-mark :
      (r id node_id : Text) (state : NodeState) (w : World S)
      → shown r id (mark env d run_id node_id state w).1 ≡ (
          if env.fails w.store.calls
          then shown r id w
          else (if run_id == r && node_id == id then some state else shown r id w))
  unfolding mark state_in Store.upsert_node Store.execute
  shown-mark r id node_id state w = ground (
    arith,
    get_node-upsert_node (env.now w.store.calls) r id (node_record run_id node_id state)
        w.store.tables,
  )

  pub store-dispatch :
      (node_id : Text) (spec : Option JobSpec) (w : World S)
      → (dispatch env d run_id node_id spec w).store ≡ w.store
  unfolding dispatch
  store-dispatch node_id spec w = ground arith

  pub store-dispatch_jobs :
      (id : Text) (jobs : List Node) (w : World S)
      → (dispatch_jobs env d run_id id jobs w).store ≡ w.store
  unfolding dispatch_jobs
  store-dispatch_jobs id [] w = refl
  store-dispatch_jobs id (j ∷ jobs) w =
      store-dispatch_jobs id jobs
        (dispatch env d run_id (id ++ (text "/" ++ id_of j)) (get_job j) w)
      ∙ store-dispatch (id ++ (text "/" ++ id_of j)) (get_job j) w

  pub store-dispatch_kind :
      (id : Text) (kind : Kind) (w : World S)
      → (dispatch_kind env d run_id id kind w).store ≡ w.store
  unfolding dispatch_kind
  store-dispatch_kind id unset w = refl
  store-dispatch_kind id (job spec) w = store-dispatch id (some spec) w
  store-dispatch_kind id (stage jobs) w = store-dispatch_jobs id (nodes_list jobs) w

  -- Starting a node changes the store as the mark alone does.
  pub store-start_node :
      (n : Node) (w : World S)
      → (start_node env d run_id n w).store
        ≡ (mark env d run_id (id_of n) NodeState.running w).1.store
  unfolding start_node
  store-start_node n w = ground (
    arith,
    store-dispatch_kind (id_of n) (kind_of n) (mark env d run_id (id_of n) NodeState.running w).1,
  )

-- ===== src/Pipeline/Scheduler/Lifecycle.antt =====
-- The states through which `Advance` takes a node, whatever fails.
use brazier.Base.{
  Text, ==_iff, ◌≡◌, refl, ap, ◌⊎◌, inl, inr, true, Option, some, List, [], ◌∷◌, arith, Bool-cases,
}
use brazier.Proto.{Node, id_of, depends_on_of, PipelineSpec}
use brazier.Db.{NodeState}
use brazier.Db.Keys.{IsKeyed}
use brazier.Db.Store.{Env, Store}
use brazier.Pipeline.Conditions.{RunContext}
use brazier.Pipeline.Scheduler.{
  Dispatcher, World, is_pending, deps_terminal, skip_node, advance_node, advance_nodes, advance,
}
use brazier.Pipeline.Scheduler.Snapshot.{state_in}
use brazier.Pipeline.Scheduler.Steps.{shown, shown-mark, store-start_node}
use brazier.Pipeline.Scheduler.Refinement.{listed, advance_unread, advance-advance_nodes}

-- What one call may do to a state: nothing, or start or skip a pending node.
abbrev pub Moves : Option NodeState → Option NodeState → Type 0
Moves before after =
    (after ≡ before)
    ⊎ ((before ≡ some NodeState.pending)
        × ((after ≡ some NodeState.running) ⊎ (after ≡ some NodeState.skipped)))

module _ {S : Type 0} (env : Env) (d : Dispatcher S) (run_id : Text) (rc : RunContext)
    (state : Text → Option NodeState) where
  pub touched_by :
      (r id : Text) (n : Node) (w : World S)
      → (shown env d run_id r id (advance_node env d run_id rc state n w)
          ≡ shown env d run_id r id w)
        ⊎ ((run_id ≡ r)
            × (id_of n ≡ id)
            × (is_pending (state id) ≡ true)
            × (deps_terminal (depends_on_of n) state ≡ true)
            × ((shown env d run_id r id (advance_node env d run_id rc state n w)
                  ≡ some NodeState.running)
                ⊎ (shown env d run_id r id (advance_node env d run_id rc state n w)
                    ≡ some NodeState.skipped)))
  unfolding advance_node skip_node
  touched_by r id n w = ground (
    arith,
    shown-mark env d run_id r id (id_of n) NodeState.running w,
    shown-mark env d run_id r id (id_of n) NodeState.skipped w,
    ap (λ (s : Store). state_in r id s.tables) (store-start_node env d run_id n w),
    ==_iff run_id r,
    ==_iff (id_of n) id,
  )

  touched-Moves :
      (r id : Text) (before : Option NodeState) (n : Node) (w : World S)
      → (run_id ≡ r → state id ≡ before)
      → Moves before (shown env d run_id r id w)
      → Moves before (shown env d run_id r id (advance_node env d run_id rc state n w))
  touched-Moves r id before n w snapshot moved = elim (touched_by r id n w) [
    | inl same ↦ rw same moved
    | inr (here, _, pending, _, change) ↦
        inr (of_pending before (rw (snapshot here) at pending), change)
  ]
    where
      of_pending : (s : Option NodeState) → is_pending s ≡ true → s ≡ some NodeState.pending
      of_pending s h = ground arith

  pub nodes-Moves :
      (r id : Text) (before : Option NodeState) (ns : List Node) (w : World S)
      → (run_id ≡ r → state id ≡ before)
      → Moves before (shown env d run_id r id w)
      → Moves before (shown env d run_id r id (advance_nodes env d run_id rc state ns w))
  unfolding advance_nodes
  nodes-Moves r id before [] w snapshot moved = moved
  nodes-Moves r id before (n ∷ ns) w snapshot moved =
      nodes-Moves r id before ns (advance_node env d run_id rc state n w) snapshot
        (touched-Moves r id before n w snapshot moved)

-- Whatever statements and dispatches fail, `Advance` leaves the state of every node of every run as
-- it was, or takes it from pending to running or skipped: no state that is not pending is
-- overwritten.
pub advance-Moves :
    {S : Type 0} (env : Env) (d : Dispatcher S) (run_id : Text) (rc : RunContext)
    (spec : PipelineSpec) (w : World S) (r id : Text)
    → IsKeyed w.store.tables
    → Moves (shown env d run_id r id w) (shown env d run_id r id (advance env d run_id rc spec w))
advance-Moves env d run_id rc spec w r id keyed = elim (Bool-cases (env.fails w.store.calls)) [
  | inl failed ↦ rw (advance_unread env d run_id rc spec w failed) (inl refl)
  | inr read ↦ rw (advance-advance_nodes env d run_id rc spec w keyed read) (
      nodes-Moves env d run_id rc (λ i. shown env d run_id run_id i w) r id
        (shown env d run_id r id w) spec.nodes (listed w)
        (λ same. ap (λ x. shown env d run_id x id w) same) (inl refl))
]

-- ===== src/Pipeline/Scheduler/Refinement.antt =====
-- Without database errors one call of `Advance` does to the states exactly what was decided from
-- the states before it.
use brazier.Base.{
  ℕ, suc, Text, ◌==◌, ◌≡◌, ap, ◌∙◌, true, false, ◌&&◌, Option, none, some, List, [], ◌∷◌, arith,
  if◌then◌else◌,
}
use mathlib.Core.Path.{fun_ext}
use brazier.Proto.{Node, id_of, PipelineSpec}
use brazier.Db
use brazier.Db.{NodeState, Tables}
use brazier.Db.Keys.{IsKeyed}
use brazier.Db.Store
use brazier.Db.Store.{Env, Store}
use brazier.Pipeline.Conditions.{RunContext}
use brazier.Pipeline.Scheduler.{
  Dispatcher, World, start_node, skip_node, advance_node, advance_nodes, advance,
}
use brazier.Pipeline.Scheduler.Snapshot.{state_in, state_by_id-list_nodes}
use brazier.Pipeline.Scheduler.Steps.{
  verdict, decided, or_else, shown, shown-mark, store-start_node,
}

-- No statement fails.
abbrev pub Reliable : Env → Type 0
Reliable env = (k : ℕ) → env.fails k ≡ false

-- The world after the read of the snapshot.
abbrev pub listed : {S : Type 0} → World S → World S
listed w = record w { store = record w.store { calls = suc w.store.calls } }

module _ {S : Type 0} (env : Env) (d : Dispatcher S) (run_id : Text) where
  list_nodes_read :
      (s : Store)
      → env.fails s.calls ≡ false
      → Store.list_nodes env run_id s
        ≡ (some (Db.list_nodes run_id s.tables), record s { calls = suc s.calls })
  unfolding Store.list_nodes Store.query
  list_nodes_read s read = rw read

  list_nodes_failed :
      (s : Store)
      → env.fails s.calls ≡ true
      → Store.list_nodes env run_id s ≡ (none, record s { calls = suc s.calls })
  unfolding Store.list_nodes Store.query
  list_nodes_failed s failed = rw failed

  -- Where the read fails nothing else is done.
  pub advance_unread :
      (rc : RunContext) (spec : PipelineSpec) (w : World S)
      → env.fails w.store.calls ≡ true
      → advance env d run_id rc spec w ≡ listed w
  unfolding advance
  advance_unread rc spec w failed =
      rw (list_nodes_failed w.store failed, advance, list_nodes_failed w.store failed)

  pub advance-advance_nodes :
      (rc : RunContext) (spec : PipelineSpec) (w : World S)
      → IsKeyed w.store.tables
      → env.fails w.store.calls ≡ false
      → advance env d run_id rc spec w
        ≡ advance_nodes env d run_id rc (λ i. shown env d run_id run_id i w) spec.nodes (listed w)
  unfolding advance
  advance-advance_nodes rc spec w keyed read =
      rw (list_nodes_read w.store read, advance, list_nodes_read w.store read)
        (ap
          (λ (state : Text → Option NodeState).
            advance_nodes env d run_id rc state spec.nodes (listed w))
          (fun_ext (λ (i : Text). state_by_id-list_nodes run_id i w.store.tables keyed)))

module _ {S : Type 0} (env : Env) (d : Dispatcher S) (run_id : Text) (reliable : Reliable env) where
  shown-start_node :
      (r id : Text) (n : Node) (w : World S)
      → shown env d run_id r id (start_node env d run_id n w) ≡ (
          if run_id == r && id_of n == id
          then some NodeState.running
          else shown env d run_id r id w)
  shown-start_node r id n w =
      ap (λ (s : Store). state_in r id s.tables) (store-start_node env d run_id n w)
      ∙ shown-mark env d run_id r id (id_of n) NodeState.running w
      ∙ rw (reliable w.store.calls)

  shown-skip_node :
      (r id : Text) (n : Node) (w : World S)
      → shown env d run_id r id (skip_node env d run_id n w) ≡ (
          if run_id == r && id_of n == id
          then some NodeState.skipped
          else shown env d run_id r id w)
  unfolding skip_node
  shown-skip_node r id n w =
      shown-mark env d run_id r id (id_of n) NodeState.skipped w ∙ rw (reliable w.store.calls)

  module _ (rc : RunContext) (state : Text → Option NodeState) where
    shown-advance_node :
        (r id : Text) (n : Node) (w : World S)
        → shown env d run_id r id (advance_node env d run_id rc state n w) ≡ (
            if run_id == r && id_of n == id
            then or_else (verdict rc state n) (shown env d run_id r id w)
            else shown env d run_id r id w)
    unfolding advance_node verdict
    shown-advance_node r id n w =
        ground (arith, shown-start_node r id n w, shown-skip_node r id n w)

    pub shown-advance_nodes :
        (r id : Text) (ns : List Node) (w : World S)
        → shown env d run_id r id (advance_nodes env d run_id rc state ns w) ≡ (
            if run_id == r
            then or_else (decided rc state ns id) (shown env d run_id r id w)
            else shown env d run_id r id w)
    unfolding advance_nodes decided
    shown-advance_nodes r id [] w = ground arith
    shown-advance_nodes r id (n ∷ ns) w = ground (
      arith,
      shown-advance_nodes r id ns (advance_node env d run_id rc state n w),
      shown-advance_node r id n w,
    )

  -- Where no statement fails, `Advance` gives every node of the run the state decided from the
  -- states before the call, leaves the nodes with no decision alone, and does not touch another run.
  pub advance-decided :
      (rc : RunContext) (spec : PipelineSpec) (w : World S) (r id : Text)
      → IsKeyed w.store.tables
      → shown env d run_id r id (advance env d run_id rc spec w) ≡ (
          if run_id == r
          then or_else
              (decided rc (λ i. shown env d run_id run_id i w) spec.nodes id)
              (shown env d run_id r id w)
          else shown env d run_id r id w)
  advance-decided rc spec w r id keyed =
      rw (advance-advance_nodes env d run_id rc spec w keyed (reliable w.store.calls))
        (shown-advance_nodes rc (λ i. shown env d run_id run_id i w) r id spec.nodes (listed w))

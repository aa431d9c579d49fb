-- ===== src/Pipeline/Scheduler/Keyed.antt =====
-- `Advance` keeps the constraints of the schema.
use brazier.Base.{
  Text, ◌≡◌, refl, sym, subst, ◌&&◌, Option, List, [], ◌∷◌, arith, Bool-cases, inl, inr, ◌⊎◌,
}
use brazier.Proto.{Node, id_of, depends_on_of, conditions_of, PipelineSpec}
use brazier.Db.{NodeState, NodeRecord}
use brazier.Db.Keys.{IsKeyed, put, apply-IsKeyed}
use brazier.Db.Store
use brazier.Db.Store.{Env, Store}
use brazier.Pipeline.Conditions.{RunContext, eval_conditions}
use brazier.Pipeline.Scheduler.{
  Dispatcher, World, node_record, is_pending, deps_terminal, mark, skip_node, advance_node,
  advance_nodes, advance,
}
use brazier.Pipeline.Scheduler.Steps.{shown, store-start_node}
use brazier.Pipeline.Scheduler.Refinement.{listed, advance_unread, advance-advance_nodes}

pub upsert_node-IsKeyed :
    (env : Env) (n : NodeRecord) (s : Store)
    → IsKeyed s.tables
    → IsKeyed (Store.upsert_node env n s).1.tables
unfolding Store.upsert_node Store.execute
upsert_node-IsKeyed env n s keyed =
    let done = apply-IsKeyed (env.now s.calls) (put n) s.tables _ refl keyed in
    elim (Bool-cases (env.fails s.calls)) [ inl failed ↦ rw failed keyed | inr fine ↦ rw fine done ]

module _ {S : Type 0} (env : Env) (d : Dispatcher S) (run_id : Text) (rc : RunContext) where
  mark-IsKeyed :
      (node_id : Text) (state : NodeState) (w : World S)
      → IsKeyed w.store.tables
      → IsKeyed (mark env d run_id node_id state w).1.store.tables
  unfolding mark
  mark-IsKeyed node_id state w = upsert_node-IsKeyed env (node_record run_id node_id state) w.store

  pub step_cases :
      (state : Text → Option NodeState) (n : Node) (w : World S)
      → ((advance_node env d run_id rc state n w).store ≡ w.store)
        ⊎ ((s : NodeState) × ((advance_node env d run_id rc state n w).store
              ≡ (mark env d run_id (id_of n) s w).1.store))
  unfolding advance_node skip_node
  step_cases state n w =
      let started = store-start_node env d run_id n w in
      elim (Bool-cases (is_pending (state (id_of n)) && deps_terminal (depends_on_of n) state)) [
        | inl reached ↦ elim (Bool-cases (eval_conditions (conditions_of n) rc)) [
          | inl holds ↦ inr (NodeState.running, ground arith)
          | inr skips ↦ inr (NodeState.skipped, ground arith)
        ]
        | inr other ↦ inl (ground arith)
      ]

  pub advance_nodes-IsKeyed :
      (state : Text → Option NodeState) (ns : List Node) (w : World S)
      → IsKeyed w.store.tables
      → IsKeyed (advance_nodes env d run_id rc state ns w).store.tables
  unfolding advance_nodes
  advance_nodes-IsKeyed state [] w keyed = keyed
  advance_nodes-IsKeyed state (n ∷ ns) w keyed =
      advance_nodes-IsKeyed state ns (advance_node env d run_id rc state n w)
        (elim (step_cases state n w) [
          | inl same ↦ subst (λ (s : Store). IsKeyed s.tables) (sym same) keyed
          | inr (s, marked) ↦
              subst (λ (s : Store). IsKeyed s.tables) (sym marked)
                (mark-IsKeyed (id_of n) s w keyed)
        ])

  -- Whatever fails, `Advance` keeps the constraints of the schema.
  pub advance-IsKeyed :
      (spec : PipelineSpec) (w : World S)
      → IsKeyed w.store.tables
      → IsKeyed (advance env d run_id rc spec w).store.tables
  advance-IsKeyed spec w keyed = elim (Bool-cases (env.fails w.store.calls)) [
    | inl failed ↦ rw (advance_unread env d run_id rc spec w failed) keyed
    | inr read ↦
        rw (advance-advance_nodes env d run_id rc spec w keyed read)
          (advance_nodes-IsKeyed (λ i. shown env d run_id run_id i w) spec.nodes (listed w) keyed)
  ]
